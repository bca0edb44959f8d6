-- ===== src/Server/Presence/Served.antt =====
-- What every handler of a client's presence keeps, and that each of them comes to an end.
use ambrosia.Prelude.{◌≡◌, refl, true, false, ◌&&◌, not, Option, none, some, List, [], ◌∷◌, ◌++◌}
use ambrosia.Prelude.Texts.{Text}
use ambrosia.Prelude.Search.{
  Found, find_first, find_first-none, find_first-some, All-append, All-put, Pairwise-add,
  Pairwise-put,
}
use ambrosia.Xmpp.Jid.{Jid, compare, is_empty}
use ambrosia.Server.Roster.{Sub, Roster, RosterItem, find_contact, put_back, is_from, is_to}
use ambrosia.Server.Stanza.{Stanza, to_jid, from_jid}
use ambrosia.Server.Files.{Env, User, load_user, save_user}
use ambrosia.Server.Presence.{
  Item, Directed, State, find_item, is_item, is_directed, find_directed, have_dont_send, is_sub,
  with_from, replace, and_then, route, push, probe_from, resend, send, unaddressed,
}
use ambrosia.Server.Presence.Kept.{
  UnlikeDirected, IsState, Returns, and_then-Returns, either_Returns, route-IsState,
  replace-IsState, by_sub,
}
use ambrosia.Server.Presence.Sound.{send-Returns}
use ambrosia.Server.Presence.Client.{
  for_each, is_unavailable, is_error, from_bare, push_changed, client_subscribe, client_subscribed,
  client_directed, probe_contact, tell_contact, tell_directed, client_initial, clear, client_later,
  client_normal, incoming_from_client,
}
use ambrosia.Server.Presence.Lists.{for_each-Returns, clear-IsState, drop_IsState, add_IsState}

module _ (env : Env) (host : Text) where
  push_changed-IsState :
      (u : Jid) (changed : Roster) (st : State)
      → IsState st
      → IsState (push_changed env host u changed st)
  push_changed-IsState u [] st h = h
  push_changed-IsState u (x ∷ xs) st h = route-IsState env (push env u (x ∷ xs)) st h

  client_subscribe-Returns :
      (in_ : Stanza) (u : Jid) (st : State)
      → IsState st
      → Returns (client_subscribe env host in_ u st)
  unfolding client_subscribe
  client_subscribe-Returns in_ u st h =
      send-Returns env host (from_bare env host in_) _
        (push_changed-IsState (from_jid env.prep in_) _ _ h)

  -- The rest of the handler, by the contact and by its new subscription.
  abbrev approved_rest : Stanza → Jid → State → User → Found RosterItem → Option Sub → Option State
  approved_rest in_ u st user f none =
      some (record st { files = save_user env u.node user st.files })
  approved_rest in_ u st user f (some s) =
      let item = record f.item { sub = s } in
      let changed = record user { roster = put_back f item } in
      let saved = record st { files = save_user env u.node changed st.files } in
      let tmp = from_bare env host in_ in
      and_then (send env host tmp saved)
        (λ sent. some (route env (push env (from_jid env.prep tmp) (item ∷ [])) sent))

  approved_rest-Returns :
      (in_ : Stanza) (u : Jid) (st : State) (user : User) (f : Found RosterItem) (o : Option Sub)
      → IsState st
      → Returns (approved_rest in_ u st user f o)
  approved_rest-Returns in_ u st user f none h = h
  approved_rest-Returns in_ u st user f (some s) h =
      let item = record f.item { sub = s } in
      let changed = record user { roster = put_back f item } in
      let saved = record st { files = save_user env u.node changed st.files } in
      let tmp = from_bare env host in_ in
      let out = push env (from_jid env.prep tmp) (item ∷ []) in
      and_then-Returns (send env host tmp saved) (λ sent. some (route env out sent))
        (send-Returns env host tmp saved h) (λ sent k. route-IsState env out sent k)

  contact_Returns :
      (in_ : Stanza) (u : Jid) (st : State) (user : User) (o : Option (Found RosterItem))
      → IsState st
      → Returns (elim o [
        | none ↦ some st
        | some f ↦ approved_rest in_ u st user f (with_from f.item.sub)
      ])
  contact_Returns in_ u st user none h = h
  contact_Returns in_ u st user (some f) h =
      approved_rest-Returns in_ u st user f (with_from f.item.sub) h

  client_subscribed-Returns :
      (in_ : Stanza) (u : Jid) (st : State)
      → IsState st
      → Returns (client_subscribed env host in_ u st)
  unfolding client_subscribed
  client_subscribed-Returns in_ u st h =
      let user = load_user env u.node st.files in
      contact_Returns in_ u st user (find_contact (to_jid env.prep in_) user.roster) h

  directed_IsState :
      (st : State) (u to : Jid) (in_ : Stanza) (o : Option (Found Directed))
      → find_first (is_directed u to) st.dplist ≡ o
      → is_sub in_.type ≡ false
      → IsState st
      → IsState (record st {
        dplist = elim o [
          | none ↦ st.dplist ++ (record { user = u; to = to; stanza = unaddressed in_ } ∷ [])
          | some f ↦ replace f (record f.item { stanza = unaddressed in_ })
        ];
      })
  directed_IsState st u to in_ none e plain (a, b, c, d, r) =
      let fresh : Directed = record { user = u; to = to; stanza = unaddressed in_ } in
      (
        a,
        b,
        All-append (λ x. is_sub x.stanza.type ≡ false) st.dplist (fresh ∷ []) c (plain, tt),
        Pairwise-add UnlikeDirected st.dplist fresh d
            (find_first-none (is_directed u to) st.dplist e),
        r,
      )
  directed_IsState st u to in_ (some f) e plain (a, b, c, d, r) =
      let (split, hit, front) = find_first-some (is_directed u to) st.dplist f e in
      let new = record f.item { stanza = unaddressed in_ } in
      (
        a,
        b,
        All-put (λ x. is_sub x.stanza.type ≡ false) f.before f.after f.item new (λ k. plain)
            (rw split at c),
        Pairwise-put UnlikeDirected f.before f.after f.item new (λ z k. k) (λ z k. k)
            (rw split at d),
        r,
      )

  client_directed-Returns :
      (in_ : Stanza) (u : Jid) (st : State)
      → is_sub in_.type ≡ false
      → IsState st
      → Returns (client_directed env host in_ u st)
  unfolding client_directed
  client_directed-Returns in_ u st plain h =
      let to = to_jid env.prep in_ in
      send-Returns env host in_ _
        (directed_IsState st u to in_ (find_directed u to st) refl plain h)

  probe_contact-Returns :
      (u : Jid) (x : RosterItem) (st : State) → IsState st → Returns (probe_contact env host u x st)
  probe_contact-Returns u x st h =
      either_Returns (is_to x.sub) _ _ (λ e. send-Returns env host (probe_from env u x.jid) st h)
        (λ e. h)

  tell_contact-Returns :
      (in_ : Stanza) (u : Jid) (skipped : List Jid) (x : RosterItem) (st : State)
      → IsState st
      → Returns (tell_contact env host in_ u skipped x st)
  tell_contact-Returns in_ u skipped x st h =
      either_Returns (is_from x.sub && not (have_dont_send x.jid skipped)) _ _
        (λ e. send-Returns env host (resend env x.jid u in_) st h) (λ e. h)

  tell_directed-Returns :
      (in_ : Stanza) (u : Jid) (d : Directed) (st : State)
      → IsState st
      → Returns (tell_directed env host in_ u d st)
  tell_directed-Returns in_ u d st h =
      either_Returns (compare d.user u true) _ _
        (λ e. send-Returns env host (resend env d.to u in_) st h) (λ e. h)

  client_initial-Returns :
      (in_ : Stanza) (u : Jid) (st : State)
      → find_first (is_item u) st.list ≡ none
      → is_sub in_.type ≡ false
      → IsState st
      → Returns (client_initial env host in_ u st)
  unfolding client_initial
  client_initial-Returns in_ u st e plain h =
      let i : Item = record { user = u; stanza = unaddressed in_; dontsend = [] } in
      let added = record st { list = st.list ++ (i ∷ []) } in
      let sound = add_IsState st i e plain h in
      let roster = (load_user env u.node st.files).roster in
      either_Returns (is_unavailable in_.type) _ _ (λ k. sound)
        (λ k.
          and_then-Returns (for_each (probe_contact env host u) roster added)
            (for_each (tell_contact env host in_ u []) roster)
            (for_each-Returns (probe_contact env host u) roster added (probe_contact-Returns u)
              sound)
            (λ s hs.
              for_each-Returns (tell_contact env host in_ u []) roster s
                (tell_contact-Returns in_ u []) hs))

  client_later-Returns :
      (in_ : Stanza) (u : Jid) (f : Found Item) (st : State)
      → find_first (is_item u) st.list ≡ some f
      → is_sub in_.type ≡ false
      → IsState st
      → Returns (client_later env host in_ u f st)
  unfolding client_later
  client_later-Returns in_ u f st e plain h =
      let i = record f.item { stanza = unaddressed in_ } in
      let kept = record st { list = replace f i } in
      let roster = (load_user env u.node st.files).roster in
      let tell = tell_contact env host in_ u f.item.dontsend in
      let told : Returns (for_each tell roster kept) =
        for_each-Returns tell roster kept (tell_contact-Returns in_ u f.item.dontsend)
          (replace-IsState env st u f i e refl plain h) in
      let (items, apart) = drop_IsState st u f e h in
      either_Returns (is_unavailable in_.type) _ _
        (λ k.
          and_then-Returns
            (and_then (for_each tell roster kept)
              (for_each (tell_directed env host in_ u) st.dplist))
            (λ sent. some (clear u f sent))
            (and_then-Returns (for_each tell roster kept)
              (for_each (tell_directed env host in_ u) st.dplist) told
              (λ s hs.
                for_each-Returns (tell_directed env host in_ u) st.dplist s
                  (tell_directed-Returns in_ u) hs))
            (λ s hs. clear-IsState u f s (items, apart, hs.2, hs.3, hs.4)))
        (λ k. told)

  broadcast_Returns :
      (in_ : Stanza) (u : Jid) (st : State) (o : Option (Found Item))
      → find_first (is_item u) st.list ≡ o
      → is_sub in_.type ≡ false
      → IsState st
      → Returns (elim o [
        | none ↦ client_initial env host in_ u st
        | some f ↦ client_later env host in_ u f st
      ])
  broadcast_Returns in_ u st none e plain h = client_initial-Returns in_ u st e plain h
  broadcast_Returns in_ u st (some f) e plain h = client_later-Returns in_ u f st e plain h

  client_normal-Returns :
      (in_ : Stanza) (u : Jid) (st : State)
      → is_sub in_.type ≡ false
      → IsState st
      → Returns (client_normal env host in_ u st)
  unfolding client_normal
  client_normal-Returns in_ u st plain h =
      either_Returns (is_error in_.type) _ _ (λ e. h)
        (λ e.
          either_Returns (is_empty (to_jid env.prep in_)) _ _
            (λ e'. broadcast_Returns in_ u st (find_item u st) refl plain h)
            (λ e'. client_directed-Returns in_ u st plain h))

  pub incoming_from_client-Returns :
      (in_ : Stanza) (u : Jid) (st : State)
      → IsState st
      → Returns (incoming_from_client env host in_ u st)
  unfolding incoming_from_client
  incoming_from_client-Returns in_ u st h =
      either_Returns (is_sub in_.type) _ _
        (λ e.
          either_Returns (is_empty (to_jid env.prep in_)) _ _ (λ e'. h)
            (λ e'.
              by_sub in_.type _ _ _ (client_subscribe-Returns in_ u st h)
                (client_subscribed-Returns in_ u st h) h))
        (λ e. client_normal-Returns in_ u st e h)
