-- ===== src/Server/Router/Dialback.antt =====
-- Dialback: the keys that the server answers for.
use ambrosia.Prelude.{
  ◌≡◌, ◌≢◌, ◌⊎◌, ◌∙◌, refl, sym, true, false, List, [], ◌∷◌, ◌++◌, Option-cases, Bool-cases, inl,
  inr, arith, ℕ,
}
use ambrosia.Prelude.Texts.{Text, text_eq_sound, text_eq_refl}
use ambrosia.Prelude.Search.{find_first, find_first-some, find_first-none, All-back}
use ambrosia.Xmpp.Jid.{Prep, Jid, jid}
use ambrosia.Server.Router.{
  Session, Router, verify_grant, grant, on_session, is_outbound, is_pending_outbound, sent_key,
  dialback_verify_request,
}
use ambrosia.Server.Router.Invariant.{IsSession, IsRouter}

session_key :
    (bound : ℕ) (s : Session) (id key : Text)
    → IsSession bound s
    → is_pending_outbound id key s ≡ true
    → (key ≡ sent_key) ⊎ (key ≡ [])
session_key bound s id key (b, p, v, i, k, e) hit =
    let out : is_outbound s ≡ true = ground arith in
    let same : s.sent_key ≡ key = text_eq_sound s.sent_key key (ground arith) in
    elim (Bool-cases s.verify) [
      | inl asks ↦ inr (sym same ∙ e asks)
      | inr carries ↦ inl (sym same ∙ k out carries)
    ]

waits :
    (id : Text) (s : Session) {bound : ℕ}
    → is_outbound s ≡ true
    → s.verify ≡ false
    → s.active ≡ false
    → s.stream_id ≡ id
    → IsSession bound s
    → is_pending_outbound id sent_key s ≢ false
waits id s out v a same (b, p, w, i, k, e) miss =
    let hit : is_pending_outbound id sent_key s ≡ true =
      rw (out, a, same, k out v, text_eq_refl id, text_eq_refl sent_key) refl in
    cc

module _ (prep : Prep) (x : Session) (from : Jid) (id : Text) (r : Router) where
  -- On a sound router the verification of a key that is neither the fixed key nor empty is
  -- refused.
  pub dialback_verify_request-refused :
      (key : Text)
      → IsRouter r
      → key ≢ sent_key
      → key ≢ []
      → dialback_verify_request prep x from id key r
        ≡ on_session x.id (grant (verify_grant from (jid prep r.host) [] false)) r
  unfolding dialback_verify_request
  dialback_verify_request-refused key h k e =
      elim (Option-cases (find_first (is_pending_outbound id key) r.list)) [
        | inl miss ↦ rw (miss, dialback_verify_request) refl
        | inr (f, found) ↦
            let (split, hit, front) = find_first-some (is_pending_outbound id key) r.list f found in
            let all = All-back (IsSession r.id_num) f.before (f.item ∷ f.after) (rw split at h.0) in
            elim (session_key r.id_num f.item id key all.0 hit) [
              | inl same ↦ absurd (k same)
              | inr empty ↦ absurd (e empty)
            ]
      ]

  -- On a sound router the verification of the fixed key is granted for the stream id of any
  -- outbound session that carries stanzas and is not yet active.
  pub dialback_verify_request-granted :
      (xs ys : List Session) (s : Session)
      → IsRouter r
      → r.list ≡ xs ++ (s ∷ ys)
      → is_outbound s ≡ true
      → s.verify ≡ false
      → s.active ≡ false
      → s.stream_id ≡ id
      → dialback_verify_request prep x from id sent_key r
        ≡ on_session x.id (grant (verify_grant from (jid prep r.host) id true)) r
  unfolding dialback_verify_request
  dialback_verify_request-granted xs ys s h split out v a same =
      elim (Option-cases (find_first (is_pending_outbound id sent_key) r.list)) [
        | inr (f, found) ↦ rw (found, dialback_verify_request) refl
        | inl miss ↦
            let none_waits = find_first-none (is_pending_outbound id sent_key) r.list miss in
            let all = All-back (IsSession r.id_num) xs (s ∷ ys) (rw split at h.0) in
            let lacks =
              All-back (λ y. is_pending_outbound id sent_key y ≡ false) xs (s ∷ ys)
                (rw split at none_waits) in
            absurd (waits id s out v a same all.0 lacks.0)
      ]
