-- ===== src/Dns/Label.antt =====
-- Reading a compressed name: `getoffset` and `readlabel` of iris/irisnet/jdns/jdns_packet.c.
-- Sizes and offsets are C ints; the callers pass none below 0. `label` is an index into `buf`,
-- which is `in` before the first hop and `ref` after it, and `last` is the end of `buf`.
pub mod Spells
pub mod Safety
pub mod Steps
pub mod Complete
pub mod Sound
pub mod Exact
pub mod Laws
pub mod Shift
use ambrosia.Prelude.{
  ℕ, zero, suc, ◌+◌, ◌*◌, ◌^◌, bit_and, bit_or, Bool, true, false, not, Option, none, some, List,
  [], ◌∷◌, ◌++◌, length, ltb, leb, ◌==◌, if◌then◌else◌,
}
use ambrosia.Dns.Memory.{Outcome, done, error, stuck, ◌>>=◌, peek, copy}

-- `none` is the -1 of the source. `x` is an unsigned short: at most 14 bits are set.
unfoldable pub getoffset : ℕ → ℕ → ℕ → ℕ → Option ℕ
getoffset hi lo refsize hopsleft =
    let x = bit_or (bit_and hi 0x3f * 2 ^ 8) lo in
    if hopsleft == 0 then none else if leb refsize x then none else some x

abbrev pub is_pointer : ℕ → Bool
is_pointer b = not (bit_and b 0xc0 == 0)

-- The variables of `readlabel` but `out`.
pub record Spot : Type 0 where
  pub buf : List ℕ
  pub label : ℕ
  pub at : ℕ
  pub hopped_yet : Bool

-- One round of the inner loop, at a pointer whose first byte is `hi`.
unfoldable pub hop : List ℕ → ℕ → Spot → ℕ → Outcome Spot
hop ref hopsleft s hi = if ltb (length s.buf) (s.label + 2) then error else (do
  lo ← peek s.buf (s.label + 1)
  elim (getoffset hi lo (length ref) hopsleft) [
    | none ↦ error
    | some offset ↦
        if ltb (length ref) (offset + 1)
        then error
        else done (record {
          buf = ref;
          label = offset;
          at = if s.hopped_yet then s.at else s.at + 2;
          hopped_yet = true;
        })
  ])

-- The inner loop, `while(*label & 0xc0)`. Without hops left `hop` fails.
unfoldable pub follow : List ℕ → ℕ → Spot → Outcome Spot
follow ref zero s = do b ← peek s.buf s.label; if is_pointer b then hop ref zero s b else done s
follow ref (suc hopsleft) s = do
  b ← peek s.buf s.label
  let next = (hop ref (suc hopsleft) s b >>= λ s'. follow ref hopsleft s')
  if is_pointer b then next else done s

-- A label of `size` bytes is copied out behind what is there, with a dot.
unfoldable pub copy_label : Spot → ℕ → List ℕ → Outcome (Spot × List ℕ)
copy_label s size out =
    if ltb (length s.buf) (s.label + size + 1)
    then error
    else if ltb 255 (length out + size + 1)
    then error
    else (do
      value ← copy s.buf (s.label + 1) size
      done (
        record s {
          label = s.label + size + 1;
          at = if s.hopped_yet then s.at else s.at + size + 1;
        },
        out ++ (value ++ (b'.' ∷ [])),
      ))

-- The rest of a round of the outer loop, behind the pointers; `again` is the next round.
unfoldable pub read_label :
    (Spot → List ℕ → Outcome (ℕ × List ℕ)) → List ℕ → Spot → Outcome (ℕ × List ℕ)
read_label again out s = do
  b ← peek s.buf s.label
  let size = bit_and b 0x3f
  let next = (copy_label s size out >>= λ p. again p.0 p.1)
  let end = if s.hopped_yet then s.at else s.at + 1
  if size == 0 then done (end, out) else next

-- The outer loop. The result is `*_at` and `*name`.
unfoldable pub read_loop : List ℕ → ℕ → Spot → List ℕ → Outcome (ℕ × List ℕ)
read_loop ref zero s out = stuck
read_loop ref (suc fuel) s out =
    if ltb (length s.buf) (s.label + 1)
    then error
    else (follow ref 8 s >>= read_label (read_loop ref fuel) out)

-- Each label takes two bytes of the 255 of `out`, or more.
abbrev pub label_fuel : ℕ
label_fuel = 129

unfoldable pub readlabel : List ℕ → List ℕ → ℕ → Outcome (ℕ × List ℕ)
readlabel inp ref at =
    if leb (length inp) at
    then error
    else read_loop ref label_fuel (record { buf = inp; label = at; at = at; hopped_yet = false }) []
