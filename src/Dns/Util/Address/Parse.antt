-- ===== src/Dns/Util/Address/Parse.antt =====
-- `jdns_address_set_cstr` of iris/irisnet/jdns/jdns_util.c, on C strings: no byte is 0.
use ambrosia.Prelude.{
  ℕ, zero, suc, ◌+◌, ◌-◌, ◌*◌, ◌/◌, ◌%◌, ◌^◌, Bool, ◌||◌, Option, none, some, List, [], ◌∷◌, ◌++◌,
  length, get_elem?, drop, ltb, leb, ◌==◌, if◌then◌else◌,
}
use ambrosia.Dns.Memory.{Outcome, done, error, fault, stuck, ◌>>=◌, slice}
use ambrosia.Dns.Util.Text.{scan, or_else, jdns_string_index_of, jdns_string_split}
use ambrosia.Dns.Util.Address.{Address, jdns_address_set_ipv4, jdns_address_set_ipv6}

-- The result of `strtol` as the `int` that the source keeps it in.
pub data ℤ : Type 0 where
  pos negsuc : ℕ → ℤ

-- `x` where `0 <= x && x <= limit`
abbrev pub within : ℕ → ℤ → Option ℕ
within limit (pos x) = if ltb limit x then none else some x
within limit (negsuc x) = none

-- `strtol base text` is the library's function on a text and a base.
module _ (strtol : ℕ → List ℕ → ℤ) where
  -- The loop over the parts of a dotted address, from `p` on. `b` has room for 4 bytes.
  unfoldable pub v4_loop : List ℕ → ℕ → ℕ → List ℕ → Outcome (List ℕ)
  v4_loop str zero p b = stuck
  v4_loop str (suc fuel) p b =
      let p2 = or_else (length str) (scan (drop p str) b'.' p) in
      elim (within 0xff (strtol 10 (slice str p (p2 - p)))) [
        | none ↦ done b
        | some x ↦
            let rest = v4_loop str fuel (p2 + 1) (b ++ (x ∷ [])) in
            if leb 4 (length b)
            then fault
            else if leb (length str) p2
            then done (b ++ (x ∷ []))
            else rest
      ]

  -- The four bytes as a number.
  abbrev pub ipv4_of : List ℕ → Option ℕ
  ipv4_of (a ∷ b ∷ c ∷ d ∷ []) = some (((a * 256 + b) * 256 + c) * 256 + d)
  ipv4_of _ = none

  unfoldable pub set_cstr_v4 : List ℕ → Outcome ℕ
  set_cstr_v4 str = do
    b ← v4_loop str (suc (length str)) 0 []
    elim (ipv4_of b) [ none ↦ error | some ipv4 ↦ done ipv4 ]

  -- `ipv6[--at] = lo; ipv6[--at] = hi;` where `at` is 16 less the bytes that are filled.
  abbrev pub put_word : ℕ → ℕ → List ℕ → Outcome (List ℕ)
  put_word lo hi filled = if ltb 16 (length filled + 2) then fault else done (hi ∷ lo ∷ filled)

  -- `for(i = 0; i < fill; ++i)`
  unfoldable pub fill_zeros : ℕ → List ℕ → Outcome (List ℕ)
  fill_zeros zero filled = done filled
  fill_zeros (suc i) filled = do
    next ← put_word 0 0 filled
    let rest = fill_zeros i next
    if leb 16 (length filled) then error else rest

  abbrev is_empty : Option (List ℕ) → Outcome Bool
  is_empty none = fault
  is_empty (some item) = done (length item == 0)

  -- An empty item, at `n`.
  abbrev pub empty_item : List (List ℕ) → ℕ → ℕ → List ℕ → Outcome (List ℕ)
  empty_item items n fill filled =
      let beside = if n == length items - 1 then n - 1 else n + 1 in
      let at_end = (do
        empty ← is_empty (get_elem? items beside)
        if empty then put_word 0 0 filled else error) in
      if (n == length items - 1) || (n == 0) then at_end else fill_zeros fill filled

  -- An item with text, at `n`: the bytes, and what is left to fill.
  abbrev pub text_item : List (List ℕ) → ℕ → List ℕ → ℕ → List ℕ → Outcome (List ℕ × ℕ)
  text_item items n item fill filled =
      let word : Outcome (List ℕ × ℕ) = elim (within 0xffff (strtol 16 item)) [
        | none ↦ error
        | some x ↦ (put_word (x % 256) (x / 256 % 256) filled >>= λ next. done (next, fill))
      ] in
      let address = (do
        ipv4 ← set_cstr_v4 item
        low ← put_word (ipv4 % 256) (ipv4 / 2 ^ 8 % 256) filled
        high ← put_word (ipv4 / 2 ^ 16 % 256) (ipv4 / 2 ^ 24 % 256) low
        done (high, fill - 1)) in
      elim (jdns_string_index_of item b'.' 0) [
        | none ↦ word
        | some _ ↦ if n == length items - 1 then address else error
      ]

  -- `for(n = count - 1; n >= 0; --n)`, for the `left` items that are still to do.
  unfoldable pub v6_loop : List (List ℕ) → ℕ → ℕ → List ℕ → Outcome (List ℕ)
  v6_loop items zero fill filled = done filled
  v6_loop items (suc n) fill filled =
      if leb 16 (length filled) then error else elim (get_elem? items n) [
        | none ↦ fault
        | some item ↦ (do
          (next, left) ←
              (if length item == 0
                then (empty_item items n fill filled >>= λ next. done (next, fill))
                else text_item items n item fill filled)
          v6_loop items n left next)
      ]

  -- `jdns_address_set_ipv6` reads all 16 bytes of `ipv6`, whatever the loop has filled.
  unfoldable pub set_cstr_v6 : List ℕ → Outcome (List ℕ)
  set_cstr_v6 str = do
    items ← jdns_string_split str b':'
    let parse = (do
      filled ← v6_loop items (length items) (9 - length items) []
      if length filled == 16 then done filled else fault)
    if ltb (length items) 3 || ltb 8 (length items) then error else parse

  -- The address that `a` becomes; on `error` it stays as it was.
  unfoldable pub jdns_address_set_cstr : List ℕ → Outcome Address
  jdns_address_set_cstr str = elim (scan str b':' 0) [
    | some _ ↦ (set_cstr_v6 str >>= λ ipv6. done (jdns_address_set_ipv6 ipv6))
    | none ↦ elim (scan str b'.' 0) [
      | some _ ↦ (set_cstr_v4 str >>= λ ipv4. done (jdns_address_set_ipv4 ipv4))
      | none ↦ error
    ]
  ]
