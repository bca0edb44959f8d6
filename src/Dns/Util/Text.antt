-- ===== src/Dns/Util/Text.antt =====
-- `jdns_string_t`, `jdns_stringlist_t` and `jdns_domain_cmp` of iris/irisnet/jdns/jdns_util.c. A
-- string is its bytes, a string list the list of them.
pub mod Split
use ambrosia.Prelude.{
  ℕ, zero, suc, ◌+◌, ◌-◌, ◌≤◌, ◌≡◌, ◌≢◌, refl, ◌⊎◌, inl, inr, Bool, true, false, ◌&&◌, Option, none,
  some, List, [], ◌∷◌, ◌++◌, length, length-append, drop, take, ltb, ◌==◌, if◌then◌else◌, arith,
}
use ambrosia.Dns.Memory.{Outcome, done, stuck, ◌>>=◌, slice}

-- The C string at `data`: up to the first zero, as `_ustrlen` and `_ustrdup` take it.
abbrev pub c_string : List ℕ → List ℕ
c_string [] = []
c_string (x ∷ xs) = let rest = c_string xs in if x == 0 then [] else x ∷ rest

-- `for(n = pos; n < s->size; ++n)`, over the bytes from `n` on.
abbrev pub scan : List ℕ → ℕ → ℕ → Option ℕ
scan [] c n = none
scan (x ∷ xs) c n = let rest = scan xs c (n + 1) in if x == c then some n else rest

unfoldable pub jdns_string_index_of : List ℕ → ℕ → ℕ → Option ℕ
jdns_string_index_of s c pos = scan (drop pos s) c pos

abbrev pub or_else : ℕ → Option ℕ → ℕ
or_else size none = size
or_else size (some n) = n

unfoldable pub split_loop : List ℕ → ℕ → ℕ → ℕ → Outcome (List (List ℕ))
split_loop s sep zero at = stuck
split_loop s sep (suc fuel) at =
    let n = or_else (length s) (jdns_string_index_of s sep at) in
    let rest = (split_loop s sep fuel (n + 1) >>= λ items. done (slice s at (n - at) ∷ items)) in
    if ltb at (length s) then rest else done []

-- Each round goes on by a byte at least.
unfoldable pub jdns_string_split : List ℕ → ℕ → Outcome (List (List ℕ))
jdns_string_split s sep = split_loop s sep (suc (length s)) 0

-- `tolower` on a byte, in the C locale.
abbrev pub to_lower : ℕ → ℕ
to_lower c = if ltb 64 c && ltb c 91 then c + 32 else c

abbrev same_lower : List ℕ → List ℕ → Bool
same_lower [] [] = true
same_lower [] (y ∷ ys) = false
same_lower (x ∷ xs) [] = false
same_lower (x ∷ xs) (y ∷ ys) = (to_lower x == to_lower y) && same_lower xs ys

unfoldable pub jdns_domain_cmp : List ℕ → List ℕ → Bool
jdns_domain_cmp a b = if length a == length b then same_lower a b else false

same_lower_refl : (s : List ℕ) → same_lower s s ≡ true
same_lower_refl [] = refl
same_lower_refl (x ∷ s) = ground (arith, same_lower_refl s)

pub jdns_domain_cmp_refl : (s : List ℕ) → jdns_domain_cmp s s ≡ true
unfolding jdns_domain_cmp
jdns_domain_cmp_refl s = ground (arith, same_lower_refl s)
