-- ===== src/Prelude/Search.antt =====
-- The first item of a list that passes a test, with what stands before and behind it.
use mathlib.Core.Path.{◌≡◌, refl, ap}
use mathlib.Core.Logic.{inl, inr}
use mathlib.Core.Bool.{Bool, true, false}
use mathlib.Core.Option.{Option, none, some}
use mathlib.Core.List.{List, [], ◌∷◌, ◌++◌}
use native.Mathlib.Omega.{arith}
use ambrosia.Prelude.Tests.{if◌then◌else◌, Bool-cases, Option-cases}

pub record Found {ℓ} (A : Type ℓ) : Type ℓ where
  pub before : List A
  pub item : A
  pub after : List A

module _ {ℓ} {A : Type ℓ} where
  -- Every item has `P`.
  abbrev pub All : (A → Type 0) → List A → Type 0
  All P [] = Unit {0}
  All P (x ∷ xs) = P x × All P xs

  pub All-append : (P : A → Type 0) (xs ys : List A) → All P xs → All P ys → All P (xs ++ ys)
  All-append P [] ys h k = k
  All-append P (x ∷ xs) ys h k = (h.0, All-append P xs ys h.1 k)

  pub All-front : (P : A → Type 0) (xs ys : List A) → All P (xs ++ ys) → All P xs
  All-front P [] ys h = tt
  All-front P (x ∷ xs) ys h = (h.0, All-front P xs ys h.1)

  pub All-back : (P : A → Type 0) (xs ys : List A) → All P (xs ++ ys) → All P ys
  All-back P [] ys h = h
  All-back P (x ∷ xs) ys h = All-back P xs ys h.1

  pub All-map : (P Q : A → Type 0) → ((x : A) → P x → Q x) → (xs : List A) → All P xs → All Q xs
  All-map P Q f [] h = tt
  All-map P Q f (x ∷ xs) h = (f x h.0, All-map P Q f xs h.1)

  abbrev pub find_first : (A → Bool) → List A → Option (Found A)
  find_first p [] = none
  find_first p (x ∷ xs) =
      let rest : Option (Found A) = elim (find_first p xs) [
        | none ↦ none
        | some f ↦ some (record { before = x ∷ f.before; item = f.item; after = f.after })
      ] in
      if p x then some (record { before = []; item = x; after = xs }) else rest

  pub find_first-none :
      (p : A → Bool) (xs : List A) → find_first p xs ≡ none → All (λ x. p x ≡ false) xs
  find_first-none p [] e = tt
  find_first-none p (x ∷ xs) e = elim (Bool-cases (p x)) [
    | inl hit ↦ absurd (ground arith)
    | inr miss ↦ elim (Option-cases (find_first p xs)) [
      | inl er ↦ (miss, find_first-none p xs er)
      | inr (f, er) ↦ absurd (ground arith)
    ]
  ]

  pub find_first-some :
      (p : A → Bool) (xs : List A) (f : Found A)
      → find_first p xs ≡ some f
      → (xs ≡ f.before ++ (f.item ∷ f.after)) × (p f.item ≡ true) × All (λ x. p x ≡ false) f.before
  find_first-some p [] f e = absurd (ground arith)
  find_first-some p (x ∷ xs) f e = elim (Bool-cases (p x)) [
    | inl hit ↦
        let ef : f ≡ record { before = []; item = x; after = xs } = ground arith in
        rw ef (refl, hit, tt)
    | inr miss ↦ elim (Option-cases (find_first p xs)) [
      | inl er ↦ absurd (ground arith)
      | inr (g, er) ↦
          let ef : f ≡ record { before = x ∷ g.before; item = g.item; after = g.after } =
            ground arith in
          let (split, hit, front) = find_first-some p xs g er in
          rw ef (ap (◌∷◌ x) split, hit, (miss, front))
    ]
  ]

  pub find_first-All :
      (p : A → Bool) (xs : List A) → All (λ x. p x ≡ false) xs → find_first p xs ≡ none
  find_first-All p [] h = refl
  find_first-All p (x ∷ xs) h = ground (arith, find_first-All p xs h.1)

  -- One item in place of another, and one item less.
  pub All-put :
      (P : A → Type 0) (xs ys : List A) (x x' : A)
      → (P x → P x')
      → All P (xs ++ (x ∷ ys))
      → All P (xs ++ (x' ∷ ys))
  All-put P [] ys x x' f h = (f h.0, h.1)
  All-put P (y ∷ xs) ys x x' f h = (h.0, All-put P xs ys x x' f h.1)

  pub All-less :
      (P : A → Type 0) (xs ys : List A) (x : A) → All P (xs ++ (x ∷ ys)) → All P (xs ++ ys)
  All-less P [] ys x h = h.1
  All-less P (y ∷ xs) ys x h = (h.0, All-less P xs ys x h.1)

  -- `R` between every item and every later one.
  abbrev pub Pairwise : (A → A → Type 0) → List A → Type 0
  Pairwise R [] = Unit {0}
  Pairwise R (x ∷ xs) = All (R x) xs × Pairwise R xs

  pub Pairwise-add :
      (R : A → A → Type 0) (xs : List A) (y : A)
      → Pairwise R xs
      → All (λ x. R x y) xs
      → Pairwise R (xs ++ (y ∷ []))
  Pairwise-add R [] y h k = (tt, tt)
  Pairwise-add R (x ∷ xs) y h k =
      (All-append (R x) xs (y ∷ []) h.0 (k.0, tt), Pairwise-add R xs y h.1 k.1)

  pub Pairwise-put :
      (R : A → A → Type 0) (xs ys : List A) (x x' : A)
      → ((z : A) → R z x → R z x')
      → ((z : A) → R x z → R x' z)
      → Pairwise R (xs ++ (x ∷ ys))
      → Pairwise R (xs ++ (x' ∷ ys))
  Pairwise-put R [] ys x x' l r h = (All-map (R x) (R x') r ys h.0, h.1)
  Pairwise-put R (z ∷ xs) ys x x' l r h =
      (All-put (R z) xs ys x x' (l z) h.0, Pairwise-put R xs ys x x' l r h.1)

  pub Pairwise-less :
      (R : A → A → Type 0) (xs ys : List A) (x : A)
      → Pairwise R (xs ++ (x ∷ ys))
      → Pairwise R (xs ++ ys)
  Pairwise-less R [] ys x h = h.1
  Pairwise-less R (z ∷ xs) ys x h = (All-less (R z) xs ys x h.0, Pairwise-less R xs ys x h.1)

  pub Pairwise-behind :
      (R : A → A → Type 0) (xs ys : List A) (x : A) → Pairwise R (xs ++ (x ∷ ys)) → All (R x) ys
  Pairwise-behind R [] ys x h = h.0
  Pairwise-behind R (z ∷ xs) ys x h = Pairwise-behind R xs ys x h.1

  -- An item behind others that do not pass the test is the first that does.
  pub find_first-append :
      (p : A → Bool) (xs ys : List A) (x : A)
      → All (λ y. p y ≡ false) xs
      → p x ≡ true
      → find_first p (xs ++ (x ∷ ys)) ≡ some (record { before = xs; item = x; after = ys })
  find_first-append p [] ys x h hit = rw hit refl
  find_first-append p (z ∷ xs) ys x h hit = rw (h.0, find_first-append p xs ys x h.1 hit) refl
