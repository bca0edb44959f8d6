-- ===== src/Server/Presence.antt =====
-- Presence and subscriptions: `PresenceManager` of src/main.cpp, over the router and the users' files.
-- A stanza is a value here, but copies of a stanza share their element. It shows where the push of a
-- roster after `subscribed` reads the sender that was set in the copy, and in what the lists keep:
-- `unaddressed`.
pub mod Client
pub mod Kept
pub mod Answers
pub mod Sound
pub mod Lists
pub mod Served
pub mod Privacy
pub mod Departure
pub mod Broadcast
use ambrosia.Prelude.{
  ℕ, zero, suc, Bool, true, false, ◌&&◌, ◌||◌, not, Option, none, some, List, [], ◌∷◌, ◌++◌,
  if◌then◌else◌,
}
use ambrosia.Prelude.Texts.{Text}
use ambrosia.Prelude.Search.{Found, find_first}
use ambrosia.Xmpp.Jid.{Jid, jid, jid_null, is_empty, compare}
use ambrosia.Server.Roster.{
  Sub, sub_unset, sub_none, sub_from, sub_to, sub_both, sub_remove, RosterItem, Roster, is_from,
  find_contact, put_back,
}
use ambrosia.Server.Stanza.{
  Stanza, StanzaType, type_plain, subscribe, subscribed, unsubscribe, unsubscribed, probe, error,
  unavailable, get_type, set_type, result, other_type, presence, iq, roster_query, new_stanza,
  set_to, set_from, append_child, to_jid, from_jid,
}
use ambrosia.Server.Files.{Env, User, Files, load_user, save_user}
use ambrosia.Server.Router.{Router, write, user_session_jid}

-- What an item keeps of its stanza: everything but `to` and `from`. The stanza that is kept, the
-- presence it was, and every copy of it that is sent are one element, so these two are always those of
-- the copy that was sent last; every use of an item's stanza (an answer to a probe, a greeting) sets
-- both before it reads them.
abbrev pub unaddressed : Stanza → Stanza
unaddressed s = record s { to = []; from = [] }

-- `Item` and `DPItem`. Their stanzas are `unaddressed`.
pub record Item : Type 0 where
  pub user : Jid
  pub stanza : Stanza
  pub dontsend : List Jid

pub record Directed : Type 0 where
  pub user : Jid
  pub to : Jid
  pub stanza : Stanza

-- The two lists of the manager, with what it works on; `routed` is every stanza that `router.write`
-- was called with.
pub record State : Type 0 where
  pub list : List Item
  pub dplist : List Directed
  pub files : Files
  pub router : Router
  pub routed : List Stanza

abbrev pub is_item : Jid → Item → Bool
is_item user i = compare i.user user true

abbrev pub find_item : Jid → State → Option (Found Item)
find_item user st = find_first (is_item user) st.list

abbrev pub is_directed : Jid → Jid → Directed → Bool
is_directed user to d = compare d.user user true && compare d.to to true

abbrev pub find_directed : Jid → Jid → State → Option (Found Directed)
find_directed user to st = find_first (is_directed user to) st.dplist

abbrev pub have_dont_send : Jid → List Jid → Bool
have_dont_send to [] = false
have_dont_send to (j ∷ js) = compare j to true || have_dont_send to js

abbrev pub is_sub : StanzaType → Bool
is_sub subscribe = true
is_sub subscribed = true
is_sub unsubscribe = true
is_sub unsubscribed = true
is_sub _ = false

-- What an approval makes of a subscription, where it changes it.
abbrev pub with_from : Sub → Option Sub
with_from sub_none = some sub_from
with_from sub_to = some sub_both
with_from _ = none

abbrev pub with_to : Sub → Option Sub
with_to sub_none = some sub_to
with_to sub_from = some sub_both
with_to _ = none

abbrev pub replace : {A : Type 0} → Found A → A → List A
replace f x = f.before ++ (x ∷ f.after)

-- One thing after another; `none` is where the depth was not enough.
abbrev pub and_then : Option State → (State → Option State) → Option State
and_then none f = none
and_then (some st) f = f st

-- The depth that every stanza does with.
abbrev pub depth : ℕ
depth = 2

module _ (env : Env) where
  abbrev pub route : Stanza → State → State
  route out st = record st {
    router = write env.prep out st.router;
    routed = st.routed ++ (out ∷ []);
  }

  abbrev pub for_this_host : Text → Jid → Bool
  for_this_host host to = compare (jid env.prep to.domain) (jid env.prep host) true

  -- The `set` of a roster that a client is told.
  abbrev pub push : Jid → Roster → Stanza
  push u items = append_child (roster_query items) (set_from u (new_stanza iq u set_type []))

  abbrev pub probe_from : Jid → Jid → Stanza
  probe_from u to = set_from u (new_stanza presence to probe [])

  abbrev pub resend : Jid → Jid → Stanza → Stanza
  resend to from s = set_from from (set_to to s)

  -- One roster item answers a probe.
  abbrev pub answer_probe : Jid → Jid → Option (Found Item) → RosterItem → State → State
  answer_probe u from item r st =
      let out : Stanza = elim item [
        | none ↦ set_from u (new_stanza presence from unavailable [])
        | some f ↦ resend from u f.item.stanza
      ] in
      if compare r.jid from false && is_from r.sub then route out st else st

  abbrev pub answer_probes : Jid → Jid → Option (Found Item) → Roster → State → State
  answer_probes u from item [] st = st
  answer_probes u from item (r ∷ rs) st =
      answer_probes u from item rs (answer_probe u from item r st)

  unfoldable pub outside_error : Stanza → Jid → State → State
  outside_error in_ u st =
      let from = from_jid env.prep in_ in
      elim (find_item u st) [
        | none ↦ st
        | some f ↦
            let more = if have_dont_send from f.item.dontsend then [] else from ∷ [] in
            let i = record f.item { dontsend = f.item.dontsend ++ more } in
            route in_ (record st { list = replace f i })
      ]

  unfoldable pub outside_probe : Stanza → Jid → State → State
  outside_probe in_ u st =
      let from = from_jid env.prep in_ in
      let user = load_user env u.node st.files in
      elim (find_directed u from st) [
        | some f ↦ route (resend f.item.to u f.item.stanza) st
        | none ↦ answer_probes u from (find_item u st) user.roster st
      ]

  -- `incomingFromOutsideNormal`
  unfoldable pub outside_normal : Stanza → State → State
  outside_normal in_ st =
      let u = user_session_jid (to_jid env.prep in_) st.router in
      let handled : State = elim in_.type [
        | error ↦ outside_error in_ u st
        | probe ↦ outside_probe in_ u st
        | _ ↦ route in_ st
      ] in
      if is_empty u then st else handled

  -- The probe, and the presence that the new contact sees, where `sends` is `writeFromHost`.
  abbrev pub greet : (Stanza → State → Option State) → Jid → Jid → State → Option State
  greet sends u contact st = elim (find_item u st) [
    | none ↦ some st
    | some f ↦
        and_then (sends (probe_from u contact) st)
          (sends (resend contact f.item.user f.item.stanza))
  ]

  unfoldable pub outside_subscribe : Stanza → Jid → State → State
  outside_subscribe in_ u st =
      let user = load_user env u.node st.files in
      elim (find_contact (from_jid env.prep in_) user.roster) [
        | none ↦ route in_ st
        | some f ↦ elim (with_from f.item.sub) [ none ↦ st | some s ↦ route in_ st ]
      ]

  unfoldable pub outside_subscribed :
      (Stanza → State → Option State) → Stanza → Jid → State → Option State
  outside_subscribed sends in_ u st =
      let user = load_user env u.node st.files in
      elim (find_contact (from_jid env.prep in_) user.roster) [
        | none ↦ some st
        | some f ↦ elim (with_to f.item.sub) [
          | none ↦ some (record st { files = save_user env u.node user st.files })
          | some s ↦
              let item = record f.item { sub = s; ask = false } in
              let changed = record user { roster = put_back f item } in
              let saved = record st { files = save_user env u.node changed st.files } in
              greet sends u item.jid (route (push u (item ∷ [])) (route in_ saved))
        ]
      ]

  -- `incomingFromOutsideSub`
  unfoldable pub outside_sub : (Stanza → State → Option State) → Stanza → State → Option State
  outside_sub sends in_ st =
      let u = user_session_jid (to_jid env.prep in_) st.router in
      let handled : Option State = elim in_.type [
        | subscribe ↦ some (outside_subscribe in_ u st)
        | subscribed ↦ outside_subscribed sends in_ u st
        | _ ↦ some st
      ] in
      if is_empty u then some st else handled

  module _ (host : Text) where
    -- `writeFromHost`, where `receive` is `incomingFromOutside`
    abbrev pub write_from_host : (Stanza → State → Option State) → Stanza → State → Option State
    write_from_host receive out st =
        let inside = receive out st in
        if for_this_host host (to_jid env.prep out) then inside else some (route out st)

    -- `incomingFromOutside`, which a stanza that stays on this host reaches again, to a depth.
    unfoldable pub incoming_from_outside : ℕ → Stanza → State → Option State
    incoming_from_outside zero in_ st = none
    incoming_from_outside (suc n) in_ st =
        let again = incoming_from_outside n in
        let sub = outside_sub (write_from_host again) in_ st in
        if is_sub in_.type
        then (if is_empty (to_jid env.prep in_) then some st else sub)
        else some (outside_normal in_ st)

    unfoldable pub send : Stanza → State → Option State
    send out st = write_from_host (incoming_from_outside depth) out st
