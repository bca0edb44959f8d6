-- ===== src/Server/Presence/Broadcast.antt =====
-- Whom an available presence of a client is sent to.
use ambrosia.Prelude.{
  ◌≡◌, ◌∙◌, refl, sym, ap, true, false, ◌&&◌, not, some, List, [], ◌∷◌, ◌++◌, map, append_assoc,
  append-nil, Bool-cases, inl, inr, if◌then◌else◌,
}
use ambrosia.Prelude.Texts.{Text}
use ambrosia.Prelude.Search.{Found, All}
use ambrosia.Xmpp.Jid.{Jid, jid, is_empty}
use ambrosia.Server.Roster.{Roster, RosterItem, is_from}
use ambrosia.Server.Stanza.{Stanza, type_plain, to_jid}
use ambrosia.Server.Files.{Env, load_user}
use ambrosia.Server.Presence.{
  Item, State, find_item, have_dont_send, is_sub, replace, route, resend, for_this_host, send,
  unaddressed,
}
use ambrosia.Server.Presence.Client.{
  for_each, is_unavailable, is_error, tell_contact, client_later, incoming_from_client,
  client_normal,
}

-- The contacts that a presence is for.
abbrev pub recipients : List Jid → Roster → Roster
recipients skipped [] = []
recipients skipped (r ∷ rs) =
    if is_from r.sub && not (have_dont_send r.jid skipped)
    then r ∷ recipients skipped rs
    else recipients skipped rs

module _ (env : Env) (host : Text) where
  -- A contact whose address is another host's.
  abbrev pub IsRemote : RosterItem → Type 0
  IsRemote r = for_this_host env host (jid env.prep r.jid.full) ≡ false

  abbrev pub copies : Stanza → Jid → Roster → List Stanza
  copies in_ u rs = map (λ (r : RosterItem). resend env r.jid u in_) rs

  -- The same state, but for the router and what was given to it.
  abbrev Told : State → List Stanza → State → Type 0
  Told st out st' =
      (st'.routed ≡ st.routed ++ out)
      × (st'.list ≡ st.list)
      × (st'.dplist ≡ st.dplist)
      × (st'.files ≡ st.files)

  tell_contact_remote :
      (in_ : Stanza) (u : Jid) (skipped : List Jid) (r : RosterItem) (st : State)
      → IsRemote r
      → tell_contact env host in_ u skipped r st
        ≡ some (
            if is_from r.sub && not (have_dont_send r.jid skipped)
            then route env (resend env r.jid u in_) st
            else st)
  unfolding send
  tell_contact_remote in_ u skipped r st remote =
      elim (Bool-cases (is_from r.sub && not (have_dont_send r.jid skipped))) [
        | inl sent ↦ rw (sent, remote) refl
        | inr kept ↦ rw kept refl
      ]

  broadcast :
      (in_ : Stanza) (u : Jid) (skipped : List Jid) (rs : Roster) (st : State)
      → All IsRemote rs
      → (st' : State) × (for_each (tell_contact env host in_ u skipped) rs st ≡ some st')
        × Told st (copies in_ u (recipients skipped rs)) st'
  broadcast in_ u skipped [] st h = (st, refl, (sym (append-nil st.routed), refl, refl, refl))
  broadcast in_ u skipped (r ∷ rs) st h =
      elim (Bool-cases (is_from r.sub && not (have_dont_send r.jid skipped))) [
        | inl sent ↦
            let out = resend env r.jid u in_ in
            let (st', e, (told, a, b, c)) = broadcast in_ u skipped rs (route env out st) h.1 in
            (
              st',
              rw (tell_contact_remote in_ u skipped r st h.0, sent) e,
              (
                rw sent (
                    told
                    ∙ append_assoc st.routed (out ∷ []) (copies in_ u (recipients skipped rs))),
                a,
                b,
                c,
              ),
            )
        | inr kept ↦
            let (st', e, told) = broadcast in_ u skipped rs st h.1 in
            (st', rw (tell_contact_remote in_ u skipped r st h.0, kept) e, rw kept told)
      ]

  -- Where a user has an item and all contacts are on other hosts, a presence without a type and
  -- without a receiver is routed to exactly the contacts that may see the user and did not
  -- answer with an error, in the order of the list; the item keeps all of the new presence but
  -- its sender and receiver, and the directed presences and the files stay.
  pub incoming_from_client-available :
      (in_ : Stanza) (u : Jid) (st : State) (f : Found Item)
      → in_.type ≡ type_plain
      → is_empty (to_jid env.prep in_) ≡ true
      → find_item u st ≡ some f
      → All IsRemote (load_user env u.node st.files).roster
      → (st' : State) × (incoming_from_client env host in_ u st ≡ some st')
        × (st'.routed
            ≡ st.routed
              ++ copies in_ u (recipients f.item.dontsend (load_user env u.node st.files).roster))
        × (st'.list ≡ replace f (record f.item { stanza = unaddressed in_ }))
        × (st'.dplist ≡ st.dplist)
        × (st'.files ≡ st.files)
  unfolding incoming_from_client client_normal client_later
  incoming_from_client-available in_ u st f t to e remote =
      let plain : is_sub in_.type ≡ false = ap is_sub t in
      let fine : is_error in_.type ≡ false = ap is_error t in
      let here : is_unavailable in_.type ≡ false = ap is_unavailable t in
      let kept = record st { list = replace f (record f.item { stanza = unaddressed in_ }) } in
      let roster = (load_user env u.node st.files).roster in
      let (st', ends, told) = broadcast in_ u f.item.dontsend roster kept remote in
      (st', rw (plain, fine, to, e, here) ends, told.0, told.1, told.2, told.3)
