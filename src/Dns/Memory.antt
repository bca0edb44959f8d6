-- ===== src/Dns/Memory.antt =====
-- Reads of C buffers (iris/irisnet/jdns). A buffer is the list of its bytes, a pointer into it an
-- index; reading outside is undefined in C and has an outcome of its own here.
use ambrosia.Prelude.{
  ℕ, ◌+◌, ◌≤◌, ◌<◌, ◌≡◌, refl, none, some, List, arith, length, get_elem?, get_elem?-some, take,
  drop, leb, if◌then◌else◌,
}

-- `error` is the function's own failure (its `return 0`). `fault` is a read outside a buffer, and
-- `stuck` says that the fuel of a loop ran out; the C code has neither outcome.
pub data Outcome {ℓ} (A : Type ℓ) : Type ℓ where
  done : A → Outcome A
  error fault stuck : Outcome A

infixl 5 ◌>>=◌
abbrev pub ◌>>=◌ {ℓ κ} : {A : Type ℓ} {B : Type κ} → Outcome A → (A → Outcome B) → Outcome B
done a >>= f = f a
error >>= f = error
fault >>= f = fault
stuck >>= f = stuck

-- `buf[i]`
abbrev pub peek : List ℕ → ℕ → Outcome ℕ
peek buf i = elim (get_elem? buf i) [ none ↦ fault | some b ↦ done b ]

abbrev pub slice : List ℕ → ℕ → ℕ → List ℕ
slice buf i n = take n (drop i buf)

-- `memcpy(out, buf + i, n)`
abbrev pub copy : List ℕ → ℕ → ℕ → Outcome (List ℕ)
copy buf i n = if leb (i + n) (length buf) then done (slice buf i n) else fault

-- What a result promises: a value with `P`, or the function's own failure; never a fault, and the
-- loop ended.
abbrev pub Ensures {ℓ} : {A : Type ℓ} → (A → Type 0) → Outcome A → Type 0
Ensures P (done a) = P a
Ensures P error = Unit
Ensures P fault = ⊥
Ensures P stuck = ⊥

pub Ensures-bind {ℓ κ} :
    {A : Type ℓ} {B : Type κ} (P : A → Type 0) (Q : B → Type 0) (m : Outcome A) (f : A → Outcome B)
    → Ensures P m
    → ((a : A) → P a → Ensures Q (f a))
    → Ensures Q (m >>= f)
Ensures-bind P Q (done a) f h k = k a h
Ensures-bind P Q error f h k = tt
Ensures-bind P Q fault f h k = absurd h
Ensures-bind P Q stuck f h k = absurd h

pub peek-done : (buf : List ℕ) (i : ℕ) → i < length buf → (b : ℕ) × (peek buf i ≡ done b)
peek-done buf i h = let (b, e) = get_elem?-some buf i h in (b, rw (e, peek))

pub copy-done : (buf : List ℕ) (i n : ℕ) → i + n ≤ length buf → copy buf i n ≡ done (slice buf i n)
copy-done buf i n h = ground arith

-- A bind that gives a value: both parts do.
pub >>=-eq-done {ℓ κ} :
    {A : Type ℓ} {B : Type κ} (m : Outcome A) (f : A → Outcome B) {b : B}
    → (m >>= f) ≡ done b
    → (a : A) × (m ≡ done a) × (f a ≡ done b)
>>=-eq-done (done a) f h = (a, refl, h)
>>=-eq-done error f h = cc
>>=-eq-done fault f h = cc
>>=-eq-done stuck f h = cc

pub peek-eq-done : (buf : List ℕ) (i b : ℕ) → peek buf i ≡ done b → get_elem? buf i ≡ some b
peek-eq-done buf i b h = ground arith

-- An outcome that is no fault, with what holds of any value that it may be.
pub Ensures-of {ℓ} :
    {A : Type ℓ} (P Q : A → Type 0) (m : Outcome A)
    → Ensures P m
    → ((a : A) → m ≡ done a → Q a)
    → Ensures Q m
Ensures-of P Q (done a) h k = k a refl
Ensures-of P Q error h k = tt
Ensures-of P Q fault h k = h
Ensures-of P Q stuck h k = h

pub Ensures-map {ℓ} :
    {A : Type ℓ} {P Q : A → Type 0} (m : Outcome A)
    → ((a : A) → P a → Q a)
    → Ensures P m
    → Ensures Q m
Ensures-map (done a) k h = k a h
Ensures-map error k h = tt
Ensures-map fault k h = h
Ensures-map stuck k h = h
