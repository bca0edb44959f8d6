-- ===== src/Dns/Session/Queries.antt =====
-- The list of queries of a session: reading, writing and removing through a pointer, and the work that
-- is left in it.
use ambrosia.Prelude.{
  ℕ, zero, suc, ◌+◌, ◌≤◌, ◌≡◌, inl, inr, refl, ap, subst, true, some, List, [], ◌∷◌, ◌++◌, drop,
  get_elem?, ◌==◌, arith, Bool-cases,
}
use ambrosia.Dns.Memory.{done}
use ambrosia.Dns.Session.{Query, query_at, put_query, remove_query}
use ambrosia.Dns.Session.Writes.{weight, work}

-- The work that the queries from `n` on may still give.
abbrev pub left : ℕ → List Query → ℕ
left n qs = work (drop n qs)

pub left-get :
    (n : ℕ) (qs : List Query) (q : Query)
    → get_elem? qs n ≡ some q
    → left n qs ≡ weight q + left (suc n) qs
unfolding work
left-get n [] q e = absurd (ground arith)
left-get zero (x ∷ qs) q e = let same : x ≡ q = ground arith in rw same refl
left-get (suc n) (x ∷ qs) q e = left-get n qs q e

pub left-put_query :
    (n : ℕ) (qs : List Query) (p q : Query)
    → query_at q.self qs ≡ done p
    → weight q ≤ weight p
    → left n (put_query q qs) ≤ left n qs
unfolding work
left-put_query n [] p q e h = absurd (ground arith)
left-put_query n (x ∷ qs) p q e h = elim (Bool-cases (x.self == q.self)) [
  | inl hit ↦ let same : x ≡ p = ground arith in rw hit (by_place n (ap weight same))
  | inr miss ↦ rw miss (by_place' n (λ m. left-put_query m qs p q (rw miss at e) h))
]
  where
    by_place : (n : ℕ) → weight x ≡ weight p → left n (q ∷ qs) ≤ left n (x ∷ qs)
    by_place zero same = omega (arith, same, h)
    by_place (suc n) same = omega arith

    by_place' :
        (n : ℕ)
        → ((m : ℕ) → left m (put_query q qs) ≤ left m qs)
        → left n (x ∷ put_query q qs) ≤ left n (x ∷ qs)
    by_place' zero ih = omega (arith, ih zero)
    by_place' (suc n) ih = ih n

left-suc : (n : ℕ) (qs : List Query) → left (suc n) qs ≤ left n qs
unfolding work
left-suc n [] = ground arith
left-suc zero (x ∷ qs) = omega arith
left-suc (suc n) (x ∷ qs) = left-suc n qs

pub left-remove_query : (n self : ℕ) (qs : List Query) → left n (remove_query self qs) ≤ left n qs
unfolding work
left-remove_query n self [] = omega arith
left-remove_query zero self (x ∷ qs) = elim (Bool-cases (x.self == self)) [
  | inl hit ↦ rw hit (omega arith)
  | inr miss ↦ rw miss (omega (arith, left-remove_query zero self qs))
]
left-remove_query (suc n) self (x ∷ qs) = elim (Bool-cases (x.self == self)) [
  | inl hit ↦ rw hit (left-suc n qs)
  | inr miss ↦ rw miss (left-remove_query n self qs)
]

-- The query of the pointer stands at `n`.
abbrev pub At : ℕ → ℕ → List Query → Type 0
At n self [] = ⊥
At zero self (q ∷ qs) = q.self ≡ self
At (suc n) self (q ∷ qs) = At n self qs

pub At-get : (n : ℕ) (qs : List Query) (q : Query) → get_elem? qs n ≡ some q → At n q.self qs
At-get n [] q e = absurd (ground arith)
At-get zero (x ∷ qs) q e = let same : x ≡ q = ground arith in ap (λ (y : Query). y.self) same
At-get (suc n) (x ∷ qs) q e = At-get n qs q e

pub At-put_query :
    (n self : ℕ) (q : Query) (qs : List Query) → At n self qs → At n self (put_query q qs)
At-put_query n self q [] h = h
At-put_query zero self q (x ∷ qs) h = elim (Bool-cases (x.self == q.self)) [
  | inl hit ↦ rw hit (ground arith)
  | inr miss ↦ rw miss h
]
At-put_query (suc n) self q (x ∷ qs) h = elim (Bool-cases (x.self == q.self)) [
  | inl hit ↦ rw hit h
  | inr miss ↦ rw miss (At-put_query n self q qs h)
]

pub At-append : (n self : ℕ) (qs ys : List Query) → At n self qs → At n self (qs ++ ys)
At-append n self [] ys h = absurd h
At-append zero self (x ∷ qs) ys h = h
At-append (suc n) self (x ∷ qs) ys h = At-append n self qs ys h

-- Without the query at `n` the work behind it is what is left.
pub left-remove-At :
    (n self : ℕ) (qs : List Query) → At n self qs → left n (remove_query self qs) ≤ left (suc n) qs
unfolding work
left-remove-At n self [] h = absurd h
left-remove-At zero self (x ∷ qs) h =
    let hit : (x.self == self) ≡ true = ground arith in rw hit (omega arith)
left-remove-At (suc n) self (x ∷ qs) h = elim (Bool-cases (x.self == self)) [
  | inl hit ↦ rw hit (omega arith)
  | inr miss ↦ rw miss (left-remove-At n self qs h)
]

drop_nil : (n : ℕ) → left n [] ≡ 0
unfolding work
drop_nil zero = refl
drop_nil (suc n) = refl

pub left-append :
    (n : ℕ) (qs : List Query) (q : Query) → left n (qs ++ (q ∷ [])) ≤ left n qs + weight q
unfolding work
left-append zero [] q = omega arith
left-append (suc n) [] q = omega (arith, drop_nil n)
left-append zero (x ∷ qs) q = omega (arith, left-append zero qs q)
left-append (suc n) (x ∷ qs) q = left-append n qs q

pub remove_query_comm :
    (a b : ℕ) (qs : List Query)
    → remove_query a (remove_query b qs) ≡ remove_query b (remove_query a qs)
remove_query_comm a b [] = refl
remove_query_comm a b (x ∷ qs) = elim (Bool-cases (x.self == a)) [
  | inl ha ↦ elim (Bool-cases (x.self == b)) [
    | inl hb ↦
        let same : a ≡ b = ground arith in
        subst
          (λ c. remove_query a (remove_query c (x ∷ qs)) ≡ remove_query c (remove_query a (x ∷ qs)))
          same refl
    | inr mb ↦ rw mb (rw ha refl)
  ]
  | inr ma ↦ elim (Bool-cases (x.self == b)) [
    | inl hb ↦ rw ma (rw hb refl)
    | inr mb ↦ rw (ma, mb) (rw ma (rw (remove_query_comm a b qs) refl))
  ]
]
