-- ===== src/Server/Router/Delivery.antt =====
-- What a session was handed, and the router as one queue for each session.
use ambrosia.Prelude.{
  ℕ, suc, ◌==◌, ◌≡◌, ◌∙◌, refl, sym, ap, subst, Bool, true, false, Option, none, some, List, [],
  ◌∷◌, ◌++◌, append-nil, append_assoc, if◌then◌else◌, Bool-cases, Option-cases, inl, inr, arith,
}
use ambrosia.Prelude.Search.{Found, find_first, find_first-some, All}
use ambrosia.Xmpp.Jid.{Prep, jid, compare}
use ambrosia.Server.Stanza.{Stanza, set_base_ns, ns_server, to_jid}
use ambrosia.Server.Router.{
  Session, Router, append_session, with_session, on_session, session_write, session_for_user,
  is_for_user, outbound_session, sent_key, ensure_outbound, out_host, write,
}
use ambrosia.Server.Router.Routes.{ensured, kept, opened}
use ambrosia.Server.Router.Sound.{ensure_outbound-IsRouter}
use ambrosia.Server.Router.Invariant.{IsSession, IsRouter, on_dialback_result}

-- All that a session was handed, in order: what its stream got, and what waits.
abbrev pub handed : ℕ → List Session → Option (List Stanza)
handed n [] = none
handed n (s ∷ ss) = if s.id == n then some (s.written ++ s.pending) else handed n ss

abbrev pub handed_one : Stanza → Option (List Stanza) → Option (List Stanza)
handed_one s none = some (s ∷ [])
handed_one s (some ss) = some (ss ++ (s ∷ []))

-- A stanza for the session `t` alone.
abbrev pub hand : Option ℕ → Stanza → ℕ → Option (List Stanza) → Option (List Stanza)
hand none s n o = o
hand (some t) s n o = if t == n then handed_one s o else o

session_write-id : (s : Stanza) (x : Session) → (session_write s x).id ≡ x.id
session_write-id s x = ground arith

session_write-handed :
    (s : Stanza) (x : Session)
    → (x.active ≡ true → x.pending ≡ [])
    → (session_write s x).written ++ (session_write s x).pending
      ≡ (x.written ++ x.pending) ++ (s ∷ [])
session_write-handed s x h = elim (Bool-cases x.active) [
  | inl on ↦ rw (on, h on, append-nil (x.written ++ (s ∷ [])), append-nil x.written) refl
  | inr off ↦ rw off (sym (append_assoc x.written x.pending (s ∷ [])))
]

other_handed :
    (t n : ℕ) (s : Stanza) (xs : List Session)
    → (t == n) ≡ false
    → handed n (with_session t (session_write s) xs) ≡ handed n xs
other_handed t n s [] e = refl
other_handed t n s (x ∷ xs) e = elim (Bool-cases (x.id == t)) [
  | inl hit ↦
      let off : (x.id == n) ≡ false = ground arith in
      rw (hit, session_write-id s x, off) (other_handed t n s xs e)
  | inr miss ↦ rw (miss, other_handed t n s xs e) refl
]

handed-with_session :
    (t n : ℕ) (s : Stanza) (bound : ℕ) (xs : List Session) (o : List Stanza)
    → All (IsSession bound) xs
    → handed t xs ≡ some o
    → handed n (with_session t (session_write s) xs) ≡ hand (some t) s n (handed n xs)
handed-with_session t n s bound [] o a e = cc
handed-with_session t n s bound (x ∷ xs) o a e = elim (Bool-cases (x.id == t)) [
  | inl hit ↦ elim (Bool-cases (x.id == n)) [
    | inl here ↦
        let same : (t == n) ≡ true = ground arith in
        rw (hit, session_write-id s x, here, same) (ap some (session_write-handed s x a.0.1))
    | inr there ↦
        let other : (t == n) ≡ false = ground arith in
        rw (hit, session_write-id s x, there, other) (other_handed t n s xs other)
  ]
  | inr miss ↦
      let rest : handed t xs ≡ some o = rw miss at e in
      elim (Bool-cases (x.id == n)) [
        | inl here ↦ let other : (t == n) ≡ false = ground arith in rw (miss, here, other) refl
        | inr there ↦ rw (miss, there) (handed-with_session t n s bound xs o a.1 rest)
      ]
]

-- A session that is in the list was handed something.
handed-found :
    (xs ys : List Session) (x : Session)
    → (o : List Stanza) × (handed x.id (xs ++ (x ∷ ys)) ≡ some o)
handed-found [] ys x = (x.written ++ x.pending, ground arith)
handed-found (z ∷ xs) ys x = elim (Bool-cases (z.id == x.id)) [
  | inl hit ↦ rw hit (z.written ++ z.pending, refl)
  | inr miss ↦ rw miss (handed-found xs ys x)
]

handed-append :
    (n : ℕ) (bound : ℕ) (x : Session) (xs : List Session)
    → All (IsSession bound) xs
    → x.id ≡ bound
    → handed n (xs ++ (x ∷ [])) ≡ (if x.id == n then some (x.written ++ x.pending) else handed n xs)
handed-append n bound x [] a e = refl
handed-append n bound x (y ∷ xs) a e = elim (Bool-cases (y.id == n)) [
  | inl here ↦ let other : (x.id == n) ≡ false = ground arith in rw (here, other) refl
  | inr there ↦ rw there (handed-append n bound x xs a.1 e)
]

handed-fresh : (n : ℕ) (xs : List Session) → All (IsSession n) xs → handed n xs ≡ none
handed-fresh n [] a = refl
handed-fresh n (x ∷ xs) a = ground (arith, handed-fresh n xs a.1)

-- A session with the next id, which was handed nothing yet.
hand-append :
    (n : ℕ) (x : Session) (s : Stanza) (xs : List Session)
    → x.written ++ x.pending ≡ []
    → All (IsSession x.id) xs
    → hand (some x.id) s n (handed n (xs ++ (x ∷ []))) ≡ hand (some x.id) s n (handed n xs)
hand-append n x s xs e a = elim (Bool-cases (x.id == n)) [
  | inl hit ↦
      let fresh : handed n xs ≡ none =
        handed-fresh n xs (subst (λ i. All (IsSession i) xs) (ground arith) a) in
      rw (handed-append n x.id x xs a refl, hit, e, fresh) refl
  | inr miss ↦ rw (handed-append n x.id x xs a refl, miss) refl
]

-- The answer to a dialback leaves what every session was handed as it is, in its order.
pub handed-dialback_result :
    (n m : ℕ) (ok : Bool) (xs : List Session)
    → handed n (with_session m (on_dialback_result ok) xs) ≡ handed n xs
handed-dialback_result n m ok [] = refl
handed-dialback_result n m ok (x ∷ xs) =
    rw (result_id, result_handed, handed-dialback_result n m ok xs) refl
  where
    result : Session
    result = if x.id == m then on_dialback_result ok x else x

    result_id : result.id ≡ x.id
    result_id = ground arith

    result_handed : result.written ++ result.pending ≡ x.written ++ x.pending
    result_handed = ground (arith, append-nil (x.written ++ x.pending))

on_session-handed :
    (x : Session) (n : ℕ) (s : Stanza) (r : Router) (f : Found Session)
    → IsRouter r
    → r.list ≡ f.before ++ (f.item ∷ f.after)
    → handed n (on_session f.item.id (session_write s) r).list
      ≡ hand (some f.item.id) s n (handed n r.list)
on_session-handed x n s r f (a, p) split =
    let (o, e) = handed-found f.before f.after f.item in
    handed-with_session f.item.id n s r.id_num r.list o a (ap (handed f.item.id) split ∙ e)

module _ (prep : Prep) where
  -- Whether a stanza stays on this host, the session that is handed it, and the form it is sent in.
  abbrev pub is_local : Stanza → Router → Bool
  is_local s r = compare r.jhost (out_host prep s) true

  abbrev pub target : Stanza → Router → Option ℕ
  target s r =
      let user : Option ℕ = elim (session_for_user (to_jid prep s).node r) [
        | none ↦ none
        | some x ↦ some x.id
      ] in
      if is_local s r then user else some ((ensure_outbound prep (out_host prep s).full r).0)

  abbrev pub sent_form : Stanza → Router → Stanza
  sent_form s r = if is_local s r then s else set_base_ns ns_server s

  local_handed :
      (n : ℕ) (s : Stanza) (r : Router)
      → IsRouter r
      → is_local s r ≡ true
      → handed n (write prep s r).list ≡ hand (target s r) s n (handed n r.list)
  unfolding write
  local_handed n s r h l =
      let user = (to_jid prep s).node in
      elim (Option-cases (find_first (is_for_user user) r.list)) [
        | inl e ↦ rw (l, e) refl
        | inr (f, e) ↦
            let (split, hit, front) = find_first-some (is_for_user user) r.list f e in
            rw (l, e) (on_session-handed f.item n s r f h split)
      ]

  remote_handed :
      (n : ℕ) (s : Stanza) (r : Router)
      → IsRouter r
      → is_local s r ≡ false
      → handed n (write prep s r).list
        ≡ hand (target s r) (set_base_ns ns_server s) n (handed n r.list)
  unfolding write
  remote_handed n s r h l =
      let host = (out_host prep s).full in
      let out = set_base_ns ns_server s in
      elim (ensured prep host r) [
        | kept f e split hit a ↦ rw (l, a) (on_session-handed f.item n out r f h split)
        | opened miss a ↦
            let x = outbound_session r.id_num (jid prep host) sent_key in
            let sound : IsRouter (append_session x r) =
              rw a at (ensure_outbound-IsRouter prep host r h) in
            rw (l, a)
              (handed-with_session x.id n out (suc r.id_num) (r.list ++ (x ∷ [])) [] sound.0
                  (handed-append x.id r.id_num x r.list h.0 refl ∙ ground arith)
                ∙ hand-append n x out r.list refl h.0)
      ]

  -- On a sound router `write` hands a stanza to one session alone, its target, behind all that
  -- this session was handed before: for a user of this host to the session of the user, if there
  -- is one, as it is; else to the session for the host, which is opened if there is none, in the
  -- namespace of servers.
  pub write-handed :
      (n : ℕ) (s : Stanza) (r : Router)
      → IsRouter r
      → handed n (write prep s r).list ≡ hand (target s r) (sent_form s r) n (handed n r.list)
  write-handed n s r h = elim (Bool-cases (is_local s r)) [
    | inl l ↦ local_handed n s r h l ∙ rw l refl
    | inr l ↦ remote_handed n s r h l ∙ rw l refl
  ]
