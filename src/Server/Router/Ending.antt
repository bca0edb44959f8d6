-- ===== src/Server/Router/Ending.antt =====
-- The end of a session: what is gone with it.
use ambrosia.Prelude.{
  ℕ, ◌==◌, ◌≡◌, ◌≢◌, ◌∙◌, refl, ap, subst, true, false, some, List, [], ◌∷◌, ◌++◌, Bool-cases, inl,
  inr, arith,
}
use ambrosia.Prelude.Search.{
  Found, find_first, find_first-some, find_first-All, All, All-back, Pairwise,
}
use ambrosia.Xmpp.Jid.{Prep, Jid, jid_null}
use ambrosia.Server.Stanza.{Stanza, set_base_ns, ns_server}
use ambrosia.Server.Router.{
  Session, Router, with_session, on_session, session_write, is_route, out_host, write, without,
  sess_done, is_user_session, user_session_jid,
}
use ambrosia.Server.Router.Routes.{ensure_outbound-found}
use ambrosia.Server.Router.Invariant.{IsSession, IsRouter, Apart}
use ambrosia.Server.Router.Delivery.{is_local}

with_session-other :
    (n : ℕ) (g : Session → Session) (xs : List Session)
    → All (λ y. (y.id == n) ≡ false) xs
    → with_session n g xs ≡ xs
with_session-other n g [] h = refl
with_session-other n g (x ∷ xs) h = rw (h.0, with_session-other n g xs h.1) refl

behind_other :
    (x : Session) (n : ℕ) (xs : List Session)
    → (x.id == n) ≡ true
    → All (Apart x) xs
    → All (λ y. (y.id == n) ≡ false) xs
behind_other x n [] e h = tt
behind_other x n (y ∷ xs) e h =
    let apart : x.id ≢ y.id = h.0.0 in (ground arith, behind_other x n xs e h.1)

without-with_session :
    (n : ℕ) (g : Session → Session) (xs : List Session)
    → ((s : Session) → (g s).id ≡ s.id)
    → Pairwise Apart xs
    → without n (with_session n g xs) ≡ without n xs
without-with_session n g [] k p = refl
without-with_session n g (x ∷ xs) k p = elim (Bool-cases (x.id == n)) [
  | inl hit ↦ rw (hit, k x, hit) (with_session-other n g xs (behind_other x n xs hit p.0))
  | inr miss ↦ rw miss (rw (miss, without-with_session n g xs k p.1) refl)
]

-- The list without a session of it.
pub without-split :
    (xs ys : List Session) (x : Session)
    → Pairwise Apart (xs ++ (x ∷ ys))
    → without x.id (xs ++ (x ∷ ys)) ≡ xs ++ ys
without-split [] ys x p = ground arith
without-split (z ∷ xs) ys x p =
    let apart = All-back (Apart z) xs (x ∷ ys) p.0 in
    let other : (z.id == x.id) ≡ false = ground (arith, apart.0.0) in
    rw other (ap (◌∷◌ z) (without-split xs ys x p.1))

pub user_session_jid-sess_done :
    (j : Jid) (r : Router) (f : Found Session)
    → IsRouter r
    → r.list ≡ f.before ++ (f.item ∷ f.after)
    → All (λ s. is_user_session j s ≡ false) (f.before ++ f.after)
    → user_session_jid j (sess_done f.item r).0 ≡ jid_null
unfolding sess_done
user_session_jid-sess_done j r f h split others =
    let gone : without f.item.id r.list ≡ f.before ++ f.after =
      ap (without f.item.id) split
      ∙ without-split f.before f.after f.item (subst (Pairwise Apart) split h.1) in
    rw (gone, find_first-All (is_user_session j) (f.before ++ f.after) others, user_session_jid)
      refl

-- A call on a session of the list changes this one alone.
with_session-split :
    (g : Session → Session) (xs ys : List Session) (x : Session)
    → Pairwise Apart (xs ++ (x ∷ ys))
    → with_session x.id g (xs ++ (x ∷ ys)) ≡ xs ++ (g x ∷ ys)
with_session-split g [] ys x p =
    let hit : (x.id == x.id) ≡ true = ground arith in
    rw (hit, with_session-other x.id g ys (behind_other x x.id ys hit p.0)) refl
with_session-split g (z ∷ xs) ys x p =
    let apart = All-back (Apart z) xs (x ∷ ys) p.0 in
    let other : (z.id == x.id) ≡ false = ground (arith, apart.0.0) in
    rw other (ap (◌∷◌ z) (with_session-split g xs ys x p.1))

sess_done_same :
    (x : Session) (q r : Router)
    → record q { list = without x.id q.list } ≡ record r { list = without x.id r.list }
    → sess_done x q ≡ sess_done x r
unfolding sess_done
sess_done_same x q r e = rw e refl

module _ (prep : Prep) where
  write-found :
      (s : Stanza) (r : Router) (f : Found Session)
      → is_local prep s r ≡ false
      → find_first (is_route prep (out_host prep s).full) r.list ≡ some f
      → write prep s r ≡ on_session f.item.id (session_write (set_base_ns ns_server s)) r
  unfolding write
  write-found s r f l e = rw (l, ensure_outbound-found prep (out_host prep s).full r f e) refl

  -- On a sound router, where the first session for the host of a stanza that is not local
  -- verifies a key, the stanza waits in this session, and after the end of the session the
  -- router is as if it had not been written.
  pub write-verify_session :
      (s : Stanza) (r : Router) (f : Found Session)
      → IsRouter r
      → is_local prep s r ≡ false
      → find_first (is_route prep (out_host prep s).full) r.list ≡ some f
      → f.item.verify ≡ true
      → ((write prep s r).list
          ≡ f.before
            ++ (record f.item { pending = f.item.pending ++ (set_base_ns ns_server s ∷ []) }
                ∷ f.after))
        × (sess_done f.item (write prep s r) ≡ sess_done f.item r)
  write-verify_session s r f (a, p) l e v =
      let host = (out_host prep s).full in
      let out = set_base_ns ns_server s in
      let (split, hit, front) = find_first-some (is_route prep host) r.list f e in
      let all = All-back (IsSession r.id_num) f.before (f.item ∷ f.after) (rw split at a) in
      let idle : f.item.active ≡ false = ground (arith, all.0) in
      let id_kept : (x : Session) → (session_write out x).id ≡ x.id = λ x. (ground arith) in
      let wrote = write-found s r f l e in
      (
        ap (λ (q : Router). q.list) wrote
            ∙ ap (with_session f.item.id (session_write out)) split
            ∙ with_session-split (session_write out) f.before f.after f.item
                (subst (Pairwise Apart) split p)
            ∙ rw idle refl,
        sess_done_same f.item (write prep s r) r
            (rw (wrote, without-with_session f.item.id (session_write out) r.list id_kept p) refl),
      )
