-- ===== src/Server/Presence/Sound.antt =====
-- What every handler of stanzas from outside keeps, and that each of them comes to an end.
use ambrosia.Prelude.{ℕ, suc, ◌≡◌, refl, false, Option, none, some, [], ◌∷◌}
use ambrosia.Prelude.Search.{Found}
use ambrosia.Xmpp.Jid.{Jid, is_empty}
use ambrosia.Prelude.Texts.{Text}
use ambrosia.Server.Roster.{Sub, RosterItem, find_contact, put_back}
use ambrosia.Server.Stanza.{Stanza, to_jid, from_jid}
use ambrosia.Server.Files.{Env, User, load_user, save_user}
use ambrosia.Server.Router.{user_session_jid}
use ambrosia.Server.Presence.{
  Item, State, find_item, is_sub, with_from, with_to, and_then, route, push, probe_from, resend,
  greet, outside_subscribe, outside_subscribed, outside_sub, write_from_host, for_this_host,
  incoming_from_outside, depth, send,
}
use ambrosia.Server.Presence.Kept.{
  IsState, Returns, Sends, and_then-Returns, either_Returns, find_item-stanza, approved_IsState,
  route-IsState, by_sub,
}
use ambrosia.Server.Presence.Answers.{outside_normal-IsState}

module _ (env : Env) where
  greet_found :
      (sends : Stanza → State → Option State) (u contact : Jid) (st : State)
      → Sends sends
      → IsState st
      → (o : Option (Found Item))
      → ((f : Found Item) → o ≡ some f → is_sub f.item.stanza.type ≡ false)
      → Returns (elim o [
        | none ↦ some st
        | some f ↦
            and_then
              (sends (probe_from env u contact) st)
              (sends (resend env contact f.item.user f.item.stanza))
      ])
  greet_found sends u contact st k h none plain = h
  greet_found sends u contact st k h (some f) plain =
      let out = resend env contact f.item.user f.item.stanza in
      and_then-Returns (sends (probe_from env u contact) st) (sends out)
        (k (probe_from env u contact) st refl h) (λ s hs. k out s (plain f refl) hs)

  greet-Returns :
      (sends : Stanza → State → Option State) (u contact : Jid) (st : State)
      → Sends sends
      → IsState st
      → Returns (greet env sends u contact st)
  greet-Returns sends u contact st k h =
      greet_found sends u contact st k h (find_item u st) (λ f e. find_item-stanza st u f h e)

  forward_IsState :
      (in_ : Stanza) (st : State) (o : Option (Found RosterItem))
      → IsState st
      → IsState (elim o [
        | none ↦ route env in_ st
        | some f ↦ elim (with_from f.item.sub) [ none ↦ st | some s ↦ route env in_ st ]
      ])
  forward_IsState in_ st none h = route-IsState env in_ st h
  forward_IsState in_ st (some f) h =
      approved_IsState (with_from f.item.sub) _ _ h (route-IsState env in_ st h)

  outside_subscribe-IsState :
      (in_ : Stanza) (u : Jid) (st : State) → IsState st → IsState (outside_subscribe env in_ u st)
  unfolding outside_subscribe
  outside_subscribe-IsState in_ u st h =
      forward_IsState in_ st
        (find_contact (from_jid env.prep in_) (load_user env u.node st.files).roster) h

  -- The rest of the handler, by the contact and by its new subscription.
  abbrev subscribed_rest :
      (Stanza → State → Option State)
      → Stanza
      → Jid
      → State
      → User
      → Found RosterItem
      → Option Sub
      → Option State
  subscribed_rest sends in_ u st user f none =
      some (record st { files = save_user env u.node user st.files })
  subscribed_rest sends in_ u st user f (some s) =
      let item = record f.item { sub = s; ask = false } in
      let changed = record user { roster = put_back f item } in
      let saved = record st { files = save_user env u.node changed st.files } in
      greet env sends u item.jid (route env (push env u (item ∷ [])) (route env in_ saved))

  subscribed_rest-Returns :
      (sends : Stanza → State → Option State) (in_ : Stanza) (u : Jid) (st : State) (user : User)
      (f : Found RosterItem) (o : Option Sub)
      → Sends sends
      → IsState st
      → Returns (subscribed_rest sends in_ u st user f o)
  subscribed_rest-Returns sends in_ u st user f none k h = h
  subscribed_rest-Returns sends in_ u st user f (some s) k h =
      let item = record f.item { sub = s; ask = false } in
      let changed = record user { roster = put_back f item } in
      let saved = record st { files = save_user env u.node changed st.files } in
      greet-Returns sends u f.item.jid (route env (push env u (item ∷ [])) (route env in_ saved)) k
        (route-IsState env (push env u (item ∷ [])) (route env in_ saved)
          (route-IsState env in_ saved h))

  contact_Returns :
      (sends : Stanza → State → Option State) (in_ : Stanza) (u : Jid) (st : State) (user : User)
      → Sends sends
      → IsState st
      → (o : Option (Found RosterItem))
      → Returns (elim o [
        | none ↦ some st
        | some f ↦ subscribed_rest sends in_ u st user f (with_to f.item.sub)
      ])
  contact_Returns sends in_ u st user k h none = h
  contact_Returns sends in_ u st user k h (some f) =
      subscribed_rest-Returns sends in_ u st user f (with_to f.item.sub) k h

  outside_subscribed-Returns :
      (sends : Stanza → State → Option State) (in_ : Stanza) (u : Jid) (st : State)
      → Sends sends
      → IsState st
      → Returns (outside_subscribed env sends in_ u st)
  unfolding outside_subscribed
  outside_subscribed-Returns sends in_ u st k h =
      contact_Returns sends in_ u st (load_user env u.node st.files) k h
        (find_contact (from_jid env.prep in_) (load_user env u.node st.files).roster)

  outside_sub-Returns :
      (sends : Stanza → State → Option State) (in_ : Stanza) (st : State)
      → Sends sends
      → IsState st
      → Returns (outside_sub env sends in_ st)
  unfolding outside_sub
  outside_sub-Returns sends in_ st k h =
      let u = user_session_jid (to_jid env.prep in_) st.router in
      either_Returns (is_empty u) _ _ (λ e. h)
        (λ e.
          by_sub in_.type _ _ _ (outside_subscribe-IsState in_ u st h)
            (outside_subscribed-Returns sends in_ u st k h) h)

  module _ (host : Text) where
    write_from_host-Returns :
        (receive : Stanza → State → Option State) (out : Stanza) (st : State)
        → Returns (receive out st)
        → IsState st
        → Returns (write_from_host env host receive out st)
    write_from_host-Returns receive out st k h =
        either_Returns (for_this_host env host (to_jid env.prep out)) _ _ (λ e. k)
          (λ e. route-IsState env out st h)

    -- A stanza that asks for no subscription needs no depth.
    plain_Returns :
        (n : ℕ) (in_ : Stanza) (st : State)
        → is_sub in_.type ≡ false
        → IsState st
        → Returns (incoming_from_outside env host (suc n) in_ st)
    unfolding incoming_from_outside
    plain_Returns n in_ st plain h =
        either_Returns (is_sub in_.type) _ _ (λ e. absurd cc)
          (λ e. outside_normal-IsState env in_ st h)

    pub incoming_from_outside-Returns :
        (in_ : Stanza) (st : State)
        → IsState st
        → Returns (incoming_from_outside env host depth in_ st)
    unfolding incoming_from_outside
    incoming_from_outside-Returns in_ st h =
        let sends : Sends (write_from_host env host (incoming_from_outside env host 1)) =
          λ out s plain k.
            write_from_host-Returns (incoming_from_outside env host 1) out s
              (plain_Returns 0 out s plain k) k in
        either_Returns (is_sub in_.type) _ _
          (λ e.
            either_Returns (is_empty (to_jid env.prep in_)) _ _ (λ e'. h)
              (λ e'.
                outside_sub-Returns (write_from_host env host (incoming_from_outside env host 1))
                  in_ st sends h))
          (λ e. outside_normal-IsState env in_ st h)

    pub send-Returns : (out : Stanza) (st : State) → IsState st → Returns (send env host out st)
    unfolding send
    send-Returns out st h =
        write_from_host-Returns (incoming_from_outside env host depth) out st
          (incoming_from_outside-Returns out st h) h
