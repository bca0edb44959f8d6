-- ===== src/Dns/Session/Pointers.antt =====
-- The list of queries of a session: reading, writing and removing through a pointer.
use ambrosia.Prelude.{
  ℕ, zero, suc, ◌<◌, ◌≡◌, inl, inr, refl, true, false, some, List, [], ◌∷◌, ◌++◌, get_elem?, ◌==◌,
  arith, Bool-cases,
}
use ambrosia.Prelude.Search.{All, All-map, Pairwise}
use ambrosia.Dns.Memory.{done}
use ambrosia.Dns.Session.{Query, query_at, put_query, remove_query}

-- The pointers differ.
abbrev pub Apart : Query → Query → Type 0
Apart a b = (a.self == b.self) ≡ false

pub query_at_self :
    (self : ℕ) (qs : List Query) (q : Query) → query_at self qs ≡ done q → q.self ≡ self
query_at_self self [] q e = absurd (ground arith)
query_at_self self (x ∷ qs) q e = elim (Bool-cases (x.self == self)) [
  | inl hit ↦ let same : x ≡ q = ground arith in rw (← same) (ground arith)
  | inr miss ↦ query_at_self self qs q (rw miss at e)
]

pub query_at-All :
    (P : Query → Type 0) (self : ℕ) (qs : List Query) (q : Query)
    → All P qs
    → query_at self qs ≡ done q
    → P q
query_at-All P self [] q h e = absurd (ground arith)
query_at-All P self (x ∷ qs) q h e = elim (Bool-cases (x.self == self)) [
  | inl hit ↦ let same : x ≡ q = ground arith in rw (← same) h.0
  | inr miss ↦ query_at-All P self qs q h.1 (rw miss at e)
]

pub All-put_query :
    (P : Query → Type 0) (q : Query) (qs : List Query) → P q → All P qs → All P (put_query q qs)
All-put_query P q [] p h = tt
All-put_query P q (x ∷ qs) p h = elim (Bool-cases (x.self == q.self)) [
  | inl hit ↦ rw hit (p, h.1)
  | inr miss ↦ rw miss (h.0, All-put_query P q qs p h.1)
]

pub All-remove_query :
    (P : Query → Type 0) (self : ℕ) (qs : List Query) → All P qs → All P (remove_query self qs)
All-remove_query P self [] h = tt
All-remove_query P self (x ∷ qs) h = elim (Bool-cases (x.self == self)) [
  | inl hit ↦ rw hit h.1
  | inr miss ↦ rw miss (h.0, All-remove_query P self qs h.1)
]

pub Apart-put : (x q : Query) (qs : List Query) → All (Apart x) qs → All (Apart x) (put_query q qs)
Apart-put x q [] h = tt
Apart-put x q (y ∷ qs) h = elim (Bool-cases (y.self == q.self)) [
  | inl hit ↦ let apart = h.0 in rw hit (ground arith, h.1)
  | inr miss ↦ rw miss (h.0, Apart-put x q qs h.1)
]

pub Pairwise-put_query :
    (q : Query) (qs : List Query) → Pairwise Apart qs → Pairwise Apart (put_query q qs)
Pairwise-put_query q [] h = tt
Pairwise-put_query q (y ∷ qs) h = elim (Bool-cases (y.self == q.self)) [
  | inl hit ↦ rw hit (All-map (Apart y) (Apart q) (λ z k. ground arith) qs h.0, h.1)
  | inr miss ↦ rw miss (Apart-put y q qs h.0, Pairwise-put_query q qs h.1)
]

pub Pairwise-remove_query :
    (self : ℕ) (qs : List Query) → Pairwise Apart qs → Pairwise Apart (remove_query self qs)
Pairwise-remove_query self [] h = tt
Pairwise-remove_query self (y ∷ qs) h = elim (Bool-cases (y.self == self)) [
  | inl hit ↦ rw hit h.1
  | inr miss ↦ rw miss (All-remove_query (Apart y) self qs h.0, Pairwise-remove_query self qs h.1)
]

-- A query behind others whose pointers are smaller.
pub query_at-fresh :
    (a : ℕ) (qs : List Query) (q : Query)
    → All (λ x. x.self < a) qs
    → q.self ≡ a
    → query_at a (qs ++ (q ∷ [])) ≡ done q
query_at-fresh a [] q h e = let hit : (q.self == a) ≡ true = ground arith in rw hit refl
query_at-fresh a (x ∷ qs) q h e =
    let less = h.0 in
    let miss : (x.self == a) ≡ false = ground arith in rw (miss, query_at-fresh a qs q h.1 e) refl

pub put_query-fresh :
    (a : ℕ) (qs : List Query) (q q' : Query)
    → All (λ x. x.self < a) qs
    → q.self ≡ a
    → q'.self ≡ a
    → put_query q' (qs ++ (q ∷ [])) ≡ qs ++ (q' ∷ [])
put_query-fresh a [] q q' h e e' =
    let hit : (q.self == q'.self) ≡ true = ground arith in rw hit refl
put_query-fresh a (x ∷ qs) q q' h e e' =
    let less = h.0 in
    let miss : (x.self == q'.self) ≡ false = ground arith in
    rw (miss, put_query-fresh a qs q q' h.1 e e') refl

pub query_at-append :
    (self : ℕ) (qs ys : List Query) (q : Query)
    → query_at self qs ≡ done q
    → query_at self (qs ++ ys) ≡ done q
query_at-append self [] ys q e = absurd (ground arith)
query_at-append self (x ∷ qs) ys q e = elim (Bool-cases (x.self == self)) [
  | inl hit ↦ let same : x ≡ q = ground arith in rw (hit, same) refl
  | inr miss ↦ rw miss (query_at-append self qs ys q (rw miss at e))
]

-- The item at `n`, where the pointers differ, is the one that its pointer reads.
pub query_at-get :
    (n : ℕ) (qs : List Query) (q : Query)
    → Pairwise Apart qs
    → get_elem? qs n ≡ some q
    → query_at q.self qs ≡ done q
query_at-get n [] q h e = absurd (ground arith)
query_at-get zero (x ∷ qs) q h e =
    let same : x ≡ q = ground arith in
    let hit : (q.self == q.self) ≡ true = ground arith in rw (same, hit) refl
query_at-get (suc n) (x ∷ qs) q h e =
    let apart = at_get (Apart x) n qs q h.0 e in rw (apart, query_at-get n qs q h.1 e) refl
  where
    at_get :
        (P : Query → Type 0) (n : ℕ) (qs : List Query) (q : Query)
        → All P qs
        → get_elem? qs n ≡ some q
        → P q
    at_get P n [] q h e = absurd (ground arith)
    at_get P zero (x ∷ qs) q h e = let same : x ≡ q = ground arith in rw (← same) h.0
    at_get P (suc n) (x ∷ qs) q h e = at_get P n qs q h.1 e
