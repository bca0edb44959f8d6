-- ===== src/Dns/Session/Text.antt =====
-- `_make_printable` and `_fix_input` of iris/irisnet/jdns/jdns.c.
pub mod Fixed
use ambrosia.Prelude.{
  ℕ, zero, suc, ◌+◌, ◌-◌, ◌*◌, ◌/◌, ◌≤◌, ◌<◌, ◌≡◌, ◌≢◌, ◌⊎◌, inl, inr, refl, Bool, true, false,
  ◌&&◌, ◌||◌, not, Option, none, some, List, [], ◌∷◌, ◌++◌, length, length-append, length-take,
  take, get_elem?, leb, ltb, ◌==◌, ◌^◌, if◌then◌else◌, bit_and, arith, Bool-cases,
}
use ambrosia.Dns.Memory.{Outcome, done, error, fault, stuck, ◌>>=◌, peek}
use ambrosia.Dns.Util.Text.{c_string}

unfoldable pub hex_nibble : ℕ → ℕ
hex_nibble c = if leb c 9 then b'0' + c else if leb c 15 then b'a' + (c - 10) else b'?'

unfoldable pub hex_byte : ℕ → List ℕ
hex_byte c = hex_nibble (c / 2 ^ 4) ∷ hex_nibble (bit_and c 0x0f) ∷ []

-- The test for a printable byte is an `||` in the source.
unfoldable pub make_printable : List ℕ → List ℕ
make_printable [] = []
make_printable (c ∷ str) =
    let rest = make_printable str in
    if c == b'\\'
    then b'\\' ∷ b'\\' ∷ rest
    else if leb 0x20 c || ltb c 0x7f
    then c ∷ rest
    else b'\\' ∷ b'x' ∷ (hex_byte c ++ rest)

abbrev pub truncated : List ℕ → List ℕ
truncated name = take 254 (c_string name)

-- `in[len - 1]`, which stands in front of the buffer where `len` is 0.
abbrev pub last_byte : List ℕ → Outcome ℕ
last_byte [] = fault
last_byte (c ∷ []) = done c
last_byte (c ∷ d ∷ rest) = last_byte (d ∷ rest)

unfoldable pub fix_input : List ℕ → Outcome (List ℕ)
fix_input name = do
  c ← last_byte (truncated name)
  done (
      if not (c == b'.') && ltb (length (truncated name)) 254
      then truncated name ++ (b'.' ∷ [])
      else truncated name)
