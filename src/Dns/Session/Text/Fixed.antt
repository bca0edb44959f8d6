-- ===== src/Dns/Session/Text/Fixed.antt =====
-- The names that `_fix_input` makes, and what `_make_printable` escapes.
use ambrosia.Prelude.{
  ℕ, zero, suc, ◌≤◌, ◌≡◌, ◌⊎◌, inl, inr, refl, false, ◌&&◌, not, List, [], ◌∷◌, ◌++◌, length,
  length-append, length-take, take, ltb, ◌==◌, if◌then◌else◌, ap, arith, Bool-cases,
}
use ambrosia.Prelude.Search.{All, All-append}
use ambrosia.Dns.Memory.{Outcome, done, Ensures}
use ambrosia.Dns.Util.Text.{c_string}
use ambrosia.Dns.Session.Text.{fix_input, last_byte, truncated, make_printable}

abbrev NoZero : List ℕ → Type 0
NoZero = All (λ c. (c == 0) ≡ false)

c_string-NoZero : (s : List ℕ) → NoZero (c_string s)
c_string-NoZero [] = tt
c_string-NoZero (x ∷ xs) = elim (Bool-cases (x == 0)) [
  | inl end ↦ rw end tt
  | inr more ↦ rw more (more, c_string-NoZero xs)
]

NoZero-take : (n : ℕ) (s : List ℕ) → NoZero s → NoZero (take n s)
NoZero-take zero s h = tt
NoZero-take (suc n) [] h = tt
NoZero-take (suc n) (x ∷ xs) h = (h.0, NoZero-take n xs h.1)

c_string_whole : (s : List ℕ) → NoZero s → c_string s ≡ s
c_string_whole [] h = refl
c_string_whole (x ∷ xs) h = rw (h.0, c_string_whole xs h.1) refl

take_all : (n : ℕ) (s : List ℕ) → length s ≤ n → take n s ≡ s
take_all zero [] h = refl
take_all zero (x ∷ xs) h = absurd (omega arith)
take_all (suc n) [] h = refl
take_all (suc n) (x ∷ xs) h = ap (◌∷◌ x) (take_all n xs (omega arith))

truncated_same : (s : List ℕ) → NoZero s → length s ≤ 254 → truncated s ≡ s
truncated_same s h k = rw (c_string_whole s h) (take_all 254 s k)

last_byte-done : (c : ℕ) (s : List ℕ) → (d : ℕ) × (last_byte (c ∷ s) ≡ done d)
last_byte-done c [] = (c, refl)
last_byte-done c (d ∷ s) = last_byte-done d s

last_byte-append : (s : List ℕ) (c : ℕ) → last_byte (s ++ (c ∷ [])) ≡ done c
last_byte-append [] c = refl
last_byte-append (x ∷ []) c = refl
last_byte-append (x ∷ y ∷ s) c = last_byte-append (y ∷ s) c

-- What a name is after `_fix_input`.
abbrev pub IsFixed : List ℕ → Type 0
IsFixed s =
    (length s ≤ 254) × ((last_byte s ≡ done b'.') ⊎ (length s ≡ 254)) × (fix_input s ≡ done s)

-- A name that ends with a dot, or has the full length, is left as it is.
kept_IsFixed :
    (s : List ℕ) (c : ℕ)
    → NoZero s
    → length s ≤ 254
    → last_byte s ≡ done c
    → (not (c == b'.') && ltb (length s) 254) ≡ false
    → IsFixed s
unfolding fix_input
kept_IsFixed s c h short e stays = (
  short,
  elim (Bool-cases (c == b'.')) [
    | inl dot ↦ inl (let same : c ≡ b'.' = ground arith in rw (← same) e)
    | inr other ↦ inr (ground arith)
  ],
  rw (truncated_same s h short, e, stays) refl,
)

IsFixed-from :
    (s : List ℕ) (c : ℕ)
    → NoZero s
    → length s ≤ 254
    → last_byte s ≡ done c
    → IsFixed (if not (c == b'.') && ltb (length s) 254 then s ++ (b'.' ∷ []) else s)
IsFixed-from s c h short e = elim (Bool-cases (not (c == b'.') && ltb (length s) 254)) [
  | inl dotted ↦ rw dotted (
      kept_IsFixed (s ++ (b'.' ∷ [])) b'.' (All-append _ s (b'.' ∷ []) h (refl, tt))
        (ground (arith, length-append s (b'.' ∷ []))) (last_byte-append s b'.') refl)
  | inr stays ↦ rw stays (kept_IsFixed s c h short e stays)
]

-- On a name that is not empty _fix_input reads nothing outside it and gives 254 bytes at most,
-- with a dot at the end or of just that length; given that name again, it leaves it as it is.
pub fix_input-IsFixed :
    (c : ℕ) (name : List ℕ)
    → (c == 0) ≡ false
    → Ensures IsFixed (fix_input (c ∷ name)) × ¬ (fix_input (c ∷ name) ≡ Outcome.error)
unfolding fix_input
fix_input-IsFixed c name some_byte =
    let s = truncated (c ∷ name) in
    let (d, e) = last_byte-done c (take 253 (c_string name)) in
    let cut : truncated (c ∷ name) ≡ c ∷ take 253 (c_string name) = rw some_byte refl in
    let short : length s ≤ 254 = ground (arith, length-take 254 (c_string (c ∷ name))) in
    let last : last_byte s ≡ done d = rw cut e in
    (
      rw last (
          IsFixed-from s d (NoZero-take 254 (c_string (c ∷ name)) (c_string-NoZero (c ∷ name)))
            short last),
      rw last (λ h. ground arith),
    )

-- Backslashes doubled, and nothing else.
abbrev pub doubled : List ℕ → List ℕ
doubled [] = []
doubled (c ∷ s) = let rest = doubled s in if c == b'\\' then b'\\' ∷ b'\\' ∷ rest else c ∷ rest

-- `_make_printable` doubles the backslashes and leaves every other byte as it is, printable or not.
pub make_printable-eq-doubled : (s : List ℕ) → make_printable s ≡ doubled s
unfolding make_printable
make_printable-eq-doubled [] = refl
make_printable-eq-doubled (c ∷ s) = ground (arith, make_printable-eq-doubled s)
