-- ===== src/Server/Presence/Client.antt =====
-- What a client's presence does: `incomingFromClient` of src/main.cpp and what it calls.
use ambrosia.Prelude.{
  Bool, true, false, ◌&&◌, not, Option, none, some, List, [], ◌∷◌, ◌++◌, if◌then◌else◌,
}
use ambrosia.Prelude.Texts.{Text}
use ambrosia.Prelude.Search.{Found}
use ambrosia.Xmpp.Jid.{Jid, is_empty, compare, with_resource}
use ambrosia.Server.Roster.{RosterItem, Roster, is_from, is_to, new_item, find_contact, put_back}
use ambrosia.Server.Stanza.{
  Stanza, StanzaType, subscribe, subscribed, probe, error, unavailable, set_from, to_jid, from_jid,
}
use ambrosia.Server.Files.{Env, load_user, save_user}
use ambrosia.Server.Presence.{
  Item, Directed, State, find_item, find_directed, have_dont_send, is_sub, with_from, replace,
  and_then, route, push, probe_from, resend, send, unaddressed,
}

-- `f` for each item in turn.
abbrev pub for_each : {A : Type 0} → (A → State → Option State) → List A → State → Option State
for_each f [] st = some st
for_each f (x ∷ xs) st = and_then (f x st) (λ s. for_each f xs s)

-- The directed presences of others.
abbrev pub others : Jid → List Directed → List Directed
others u [] = []
others u (d ∷ ds) = if compare d.user u true then others u ds else d ∷ others u ds

abbrev pub is_error : StanzaType → Bool
is_error probe = true
is_error error = true
is_error _ = false

abbrev pub is_unavailable : StanzaType → Bool
is_unavailable unavailable = true
is_unavailable _ = false

-- What is left of a user that went away: the other items, and the directed presences of others.
abbrev pub clear : Jid → Found Item → State → State
clear u f st = record st { list = f.before ++ f.after; dplist = others u st.dplist }

module _ (env : Env) (host : Text) where
  -- `tmp.setFrom(tmp.from().withResource(""))`
  abbrev pub from_bare : Stanza → Stanza
  from_bare in_ = set_from (with_resource env.prep [] (from_jid env.prep in_)) in_

  -- The roster after a request, and the items that changed.
  abbrev pub ask_contact : Jid → Roster → Roster × Roster
  ask_contact to roster = elim (find_contact to roster) [
    | none ↦ let item = record (new_item to) { ask = true } in (roster ++ (item ∷ []), item ∷ [])
    | some f ↦
        let item = record f.item { ask = true } in
        if not f.item.ask && not (is_to f.item.sub)
        then (put_back f item, item ∷ [])
        else (roster, [])
  ]

  -- The broadcast, if items changed.
  abbrev pub push_changed : Jid → Roster → State → State
  push_changed u [] st = st
  push_changed u (r ∷ rs) st = route env (push env u (r ∷ rs)) st

  unfoldable pub client_subscribe : Stanza → Jid → State → Option State
  client_subscribe in_ u st =
      let user = load_user env u.node st.files in
      let (roster, changed) = ask_contact (to_jid env.prep in_) user.roster in
      let saved = save_user env u.node (record user { roster = roster }) st.files in
      send env host (from_bare in_)
        (push_changed (from_jid env.prep in_) changed (record st { files = saved }))

  unfoldable pub client_subscribed : Stanza → Jid → State → Option State
  client_subscribed in_ u st =
      let user = load_user env u.node st.files in
      elim (find_contact (to_jid env.prep in_) user.roster) [
        | none ↦ some st
        | some f ↦ elim (with_from f.item.sub) [
          | none ↦ some (record st { files = save_user env u.node user st.files })
          | some s ↦
              let item = record f.item { sub = s } in
              let changed = record user { roster = put_back f item } in
              let saved = record st { files = save_user env u.node changed st.files } in
              let tmp = from_bare in_ in
              and_then (send env host tmp saved)
                (λ sent. some (route env (push env (from_jid env.prep tmp) (item ∷ [])) sent))
        ]
      ]

  -- `incomingFromClientSub`
  abbrev pub client_sub : Stanza → Jid → State → Option State
  client_sub in_ u st = elim in_.type [
    | subscribe ↦ client_subscribe in_ u st
    | subscribed ↦ client_subscribed in_ u st
    | _ ↦ some st
  ]

  unfoldable pub client_directed : Stanza → Jid → State → Option State
  client_directed in_ u st =
      let to = to_jid env.prep in_ in
      let fresh : Directed = record { user = u; to = to; stanza = unaddressed in_ } in
      let dplist : List Directed = elim (find_directed u to st) [
        | none ↦ st.dplist ++ (fresh ∷ [])
        | some f ↦ replace f (record f.item { stanza = unaddressed in_ })
      ] in
      send env host in_ (record st { dplist = dplist })

  abbrev pub probe_contact : Jid → RosterItem → State → Option State
  probe_contact u r st = if is_to r.sub then send env host (probe_from env u r.jid) st else some st

  -- The copy is sent to a contact, unless it answered with an error.
  abbrev pub tell_contact : Stanza → Jid → List Jid → RosterItem → State → Option State
  tell_contact in_ u skipped r st =
      if is_from r.sub && not (have_dont_send r.jid skipped)
      then send env host (resend env r.jid u in_) st
      else some st

  abbrev pub tell_directed : Stanza → Jid → Directed → State → Option State
  tell_directed in_ u d st =
      if compare d.user u true then send env host (resend env d.to u in_) st else some st

  -- The first presence of a user; one that is not available stays in the list.
  unfoldable pub client_initial : Stanza → Jid → State → Option State
  client_initial in_ u st =
      let user = load_user env u.node st.files in
      let added = record st {
        list = st.list ++ (record { user = u; stanza = unaddressed in_; dontsend = [] } ∷ []);
      } in
      if is_unavailable in_.type
      then some added
      else and_then (for_each (probe_contact u) user.roster added)
          (for_each (tell_contact in_ u []) user.roster)

  unfoldable pub client_later : Stanza → Jid → Found Item → State → Option State
  client_later in_ u f st =
      let user = load_user env u.node st.files in
      let kept = record st { list = replace f (record f.item { stanza = unaddressed in_ }) } in
      let told = for_each (tell_contact in_ u f.item.dontsend) user.roster kept in
      if is_unavailable in_.type
      then and_then (and_then told (for_each (tell_directed in_ u) st.dplist))
          (λ sent. some (clear u f sent))
      else told

  -- `incomingFromClientNormal`
  unfoldable pub client_normal : Stanza → Jid → State → Option State
  client_normal in_ u st =
      let broadcast : Option State = elim (find_item u st) [
        | none ↦ client_initial in_ u st
        | some f ↦ client_later in_ u f st
      ] in
      if is_error in_.type
      then some st
      else (if is_empty (to_jid env.prep in_) then broadcast else client_directed in_ u st)

  -- `incomingFromClient`
  unfoldable pub incoming_from_client : Stanza → Jid → State → Option State
  incoming_from_client in_ u st =
      if is_sub in_.type
      then (if is_empty (to_jid env.prep in_) then some st else client_sub in_ u st)
      else client_normal in_ u st
