-- ===== src/Prelude/Texts.antt =====
-- Texts as lists of codes: literals, comparison, and the cut at a separator.
use Prim.Native.Char.{code}
use Prim.Native.Nat.{ℕ}
use Prim.Native.String.{String}
use mathlib.Core.Path.{◌≡◌, refl}
use mathlib.Core.Logic.{◌≢◌, ◌↔◌}
use mathlib.Core.Bool.{Bool, true, false, ◌&&◌}
use mathlib.Core.Option.{Option, none, some}
use mathlib.Core.List.{List, [], ◌∷◌, ◌++◌}
use native.Mathlib.Omega.{arith}
use ambrosia.Prelude.Tests.{◌==◌, if◌then◌else◌}

abbrev pub Text : Type 0
Text = List ℕ

abbrev pub codes : String → Text
codes String.[] = []
codes (String.◌∷◌ c s) = code c ∷ codes s

abbrev pub text_eq : Text → Text → Bool
text_eq [] [] = true
text_eq [] (y ∷ ys) = false
text_eq (x ∷ xs) [] = false
text_eq (x ∷ xs) (y ∷ ys) = (x == y) && text_eq xs ys

pub text_eq_refl : (xs : Text) → text_eq xs xs ≡ true
text_eq_refl [] = refl
text_eq_refl (x ∷ xs) = ground (arith, text_eq_refl xs)

pub text_eq_sound : (xs ys : Text) → text_eq xs ys ≡ true → xs ≡ ys
text_eq_sound [] [] h = refl
text_eq_sound [] (y ∷ ys) h = cc
text_eq_sound (x ∷ xs) [] h = cc
text_eq_sound (x ∷ xs) (y ∷ ys) h = ground (arith, text_eq_sound xs ys)

pub text_eq_iff : (xs ys : Text) → (text_eq xs ys ≡ true) ↔ (xs ≡ ys)
text_eq_iff xs ys = (text_eq_sound xs ys, λ e. rw e (text_eq_refl ys))

-- The parts before and behind the first `sep`.
abbrev pub cut : ℕ → Text → Option (Text × Text)
cut sep [] = none
cut sep (x ∷ xs) =
    let rest : Option (Text × Text) = elim (cut sep xs) [
      | none ↦ none
      | some p ↦ some (x ∷ p.0, p.1)
    ] in
    if x == sep then some ([], xs) else rest

-- No code is the separator.
abbrev pub Lacks : ℕ → Text → Type 0
Lacks sep [] = Unit
Lacks sep (x ∷ xs) = (x ≢ sep) × Lacks sep xs

pub cut-none : (sep : ℕ) (xs : Text) → Lacks sep xs → cut sep xs ≡ none
cut-none sep [] h = refl
cut-none sep (x ∷ xs) h = ground (arith, cut-none sep xs h.1)

pub cut-append :
    (sep : ℕ) (xs ys : Text) → Lacks sep xs → cut sep (xs ++ (sep ∷ ys)) ≡ some (xs, ys)
cut-append sep [] ys h = ground arith
cut-append sep (x ∷ xs) ys h = ground (arith, cut-append sep xs ys h.1)
