-- ===== src/Server/Presence/Privacy.antt =====
-- Who is told of a user's presence.
use ambrosia.Prelude.{
  ◌≡◌, refl, ap, Bool, false, ◌&&◌, Option, none, some, [], ◌∷◌, Bool-cases, inl, inr,
}
use ambrosia.Prelude.Texts.{Text}
use ambrosia.Prelude.Search.{Found, All}
use ambrosia.Xmpp.Jid.{Jid, compare, is_empty}
use ambrosia.Server.Roster.{Roster, RosterItem, is_from}
use ambrosia.Server.Stanza.{Stanza, probe, to_jid, from_jid}
use ambrosia.Server.Files.{Env, load_user}
use ambrosia.Server.Router.{user_session_jid}
use ambrosia.Server.Presence.{
  Item, State, find_item, find_directed, answer_probe, answer_probes, outside_probe, outside_normal,
  incoming_from_outside, depth,
}

module _ (env : Env) where
  -- A contact that the user's presence goes to.
  abbrev pub may_see : Jid → RosterItem → Bool
  may_see from r = compare r.jid from false && is_from r.sub

  silent :
      (u from : Jid) (item : Option (Found Item)) (xs : Roster) (st : State)
      → All (λ r. may_see from r ≡ false) xs
      → answer_probes env u from item xs st ≡ st
  silent u from item [] st h = refl
  silent u from item (x ∷ xs) st h =
      let still : answer_probe env u from item x st ≡ st = rw h.0 refl in
      rw still (silent u from item xs st h.1)

  outside_probe_silent :
      (in_ : Stanza) (u : Jid) (st : State)
      → find_directed u (from_jid env.prep in_) st ≡ none
      → All (λ r. may_see (from_jid env.prep in_) r ≡ false) (load_user env u.node st.files).roster
      → outside_probe env in_ u st ≡ st
  unfolding outside_probe
  outside_probe_silent in_ u st e h =
      let from = from_jid env.prep in_ in
      rw (e, outside_probe)
        (silent u from (find_item u st) (load_user env u.node st.files).roster st h)

  -- The user that a stanza is for.
  abbrev pub addressee : Stanza → State → Jid
  addressee in_ st = user_session_jid (to_jid env.prep in_) st.router

  -- A probe for a user who has no directed presence for its sender, and no contact with the bare
  -- address of the sender that may see the presence, changes nothing and is not answered.
  pub incoming_from_outside-probe :
      (host : Text) (in_ : Stanza) (st : State)
      → in_.type ≡ probe
      → find_directed (addressee in_ st) (from_jid env.prep in_) st ≡ none
      → All
          (λ r. may_see (from_jid env.prep in_) r ≡ false)
          (load_user env (addressee in_ st).node st.files).roster
      → incoming_from_outside env host depth in_ st ≡ some st
  unfolding incoming_from_outside outside_normal
  incoming_from_outside-probe host in_ st t e h =
      let u = addressee in_ st in
      elim (Bool-cases (is_empty u)) [
        | inl gone ↦ rw (t, gone) refl
        | inr there ↦ rw (t, there) (ap some (outside_probe_silent in_ u st e h))
      ]
