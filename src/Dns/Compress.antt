-- ===== src/Dns/Compress.antt =====
-- Name compression when a packet is written: `matchlabel` and `writelabel` of
-- iris/irisnet/jdns/jdns_packet.c.
pub mod Match
pub mod Equal
pub mod Write
pub mod Shorten
pub mod RoundTrip
pub mod Name
pub mod Total
use ambrosia.Prelude.{
  ℕ, zero, suc, ◌+◌, ◌-◌, ◌*◌, Bool, true, false, ◌&&◌, ◌||◌, not, Option, none, some, List, [],
  ◌∷◌, ◌++◌, length, take, drop, ◌/◌, ◌%◌, bit_or, bit_and, ltb, ◌==◌, if◌then◌else◌,
}
use ambrosia.Dns.Memory.{Outcome, done, error, fault, stuck, ◌>>=◌, peek}
use ambrosia.Dns.Label.{getoffset, is_pointer}
use ambrosia.Dns.Name.{name_to_label, invalid, overflow, wire_label}

-- A pointer of `matchlabel` with the size of what it points to: place `pos` of `buf`, up to its end.
-- `in_ref` says that `buf` is the packet itself; all other buffers of a call are distinct objects.
pub record Cursor : Type 0 where
  pub buf : List ℕ
  pub pos : ℕ
  pub in_ref : Bool

abbrev pub size_at : Cursor → ℕ
size_at c = length c.buf - c.pos

abbrev pub byte_at : Cursor → ℕ → Outcome ℕ
byte_at c n = peek c.buf (c.pos + n)

abbrev pub advance : Cursor → ℕ → Cursor
advance c n = record c { pos = c.pos + n }

abbrev pub into : List ℕ → ℕ → Cursor
into ref offset = record { buf = ref; pos = offset; in_ref = true }

-- `a == b`, as pointers.
abbrev pub same_place : Cursor → Cursor → Bool
same_place a b = (a.in_ref && b.in_ref) && a.pos == b.pos

-- At a pointer whose first byte is `hi`: the match goes on at its target.
unfoldable pub match_hop : List ℕ → Cursor → ℕ → ℕ → (Cursor → Outcome Bool) → Outcome Bool
match_hop ref c hi hopsleft again = if ltb (size_at c) 2 then done false else (do
  lo ← byte_at c 1
  elim (getoffset hi lo (length ref) hopsleft) [
    | none ↦ done false
    | some offset ↦ again (into ref offset)
  ])

-- `for(n = 1; n < alen + 1; ++n)`, with the rounds left.
unfoldable pub same_bytes : Cursor → Cursor → ℕ → ℕ → Outcome Bool
same_bytes a b n zero = done true
same_bytes a b n (suc rounds) = do
  x ← byte_at a n
  y ← byte_at b n
  let rest = same_bytes a b (n + 1) rounds
  if x == y then rest else done false

-- Both at a plain byte: the labels are compared, then what follows them.
unfoldable pub match_labels :
    Cursor → Cursor → ℕ → ℕ → (Cursor → Cursor → Outcome Bool) → Outcome Bool
match_labels a b x y again =
    let alen = bit_and x 0x3f in
    let blen = bit_and y 0x3f in
    if not (alen == blen)
    then done false
    else if alen == 0
    then done true
    else if ltb (size_at a) (alen + 2)
    then done false
    else if ltb (size_at b) (blen + 2)
    then done false
    else (do
      same ← same_bytes a b 1 alen
      if same then again (advance a (alen + 1)) (advance b (blen + 1)) else done false)

-- The rest of a call, at the first bytes `x` and `y`. `getoffset` counts the hop that it takes.
unfoldable pub match_at :
    List ℕ
    → Cursor
    → Cursor
    → ℕ
    → ℕ
    → ℕ
    → ℕ
    → (Cursor → Cursor → ℕ → ℕ → Outcome Bool)
    → Outcome Bool
match_at ref a b x y ahopsleft bhopsleft again =
    if is_pointer x
    then match_hop ref a x ahopsleft (λ a'. again a' b (ahopsleft - 1) bhopsleft)
    else if is_pointer y
    then match_hop ref b y bhopsleft (λ b'. again a b' ahopsleft (bhopsleft - 1))
    else match_labels a b x y (λ a' b'. again a' b' ahopsleft bhopsleft)

unfoldable pub matchlabel : List ℕ → ℕ → Cursor → Cursor → ℕ → ℕ → Outcome Bool
matchlabel ref zero a b ahopsleft bhopsleft = stuck
matchlabel ref (suc fuel) a b ahopsleft bhopsleft =
    if same_place a b
    then done true
    else if ltb (size_at a) 1 || ltb (size_at b) 1
    then done false
    else (do
      x ← byte_at a 0
      y ← byte_at b 0
      match_at ref a b x y ahopsleft bhopsleft (matchlabel ref fuel))

-- The fuel that a call takes: a hop may start over at any place, and else `a` gets shorter.
abbrev pub fuel_for : ℕ → ℕ → ℕ → ℕ
fuel_for hops bound size = hops * (bound + 1) + size

-- `jdns_packet_label_t`: a name in label format that was written at `offset`.
pub record Entry : Type 0 where
  pub offset : ℕ
  pub value : List ℕ

-- `lookup`, oldest entry first.
abbrev pub Lookup : Type 0
Lookup = List Entry

abbrev pub zeros : ℕ → List ℕ
zeros zero = []
zeros (suc n) = 0 ∷ zeros n

-- What a call of `matchlabel` can take, for buffers as long as `ref` and `label`.
abbrev pub match_fuel : List ℕ → List ℕ → ℕ
match_fuel ref label = suc (fuel_for 16 (length ref + length label) (length label))

abbrev pub local : List ℕ → ℕ → Cursor
local buf pos = record { buf = buf; pos = pos; in_ref = false }

-- The inner loop: the first entry that matches `label + n`.
unfoldable pub find_entry : List ℕ → List ℕ → ℕ → Lookup → Outcome (Option ℕ)
find_entry ref label n [] = done none
find_entry ref label n (e ∷ es) = do
  m ← matchlabel ref (match_fuel ref label) (local label n) (local e.value 0) 8 8
  let rest = find_entry ref label n es
  if m then done (some e.offset) else rest

-- `short2net(pl->offset, &l); label[n] |= 0xc0;`
unfoldable pub pointer_bytes : ℕ → List ℕ
pointer_bytes offset = bit_or 0xc0 (offset / 256 % 256) ∷ (offset % 256) ∷ []

-- The outer loop, `for(n = 0; label[n]; n += label[n] + 1)`: `label` up to `len` at its end.
unfoldable pub shorten : List ℕ → List ℕ → Lookup → ℕ → ℕ → Outcome (List ℕ)
shorten ref label lookup zero n = stuck
shorten ref label lookup (suc fuel) n = do
  size ← peek label n
  let on = shorten ref label lookup fuel (n + (size + 1))
  let next =
      (find_entry ref label n lookup >>= λ found. elim found [
        | none ↦ on
        | some offset ↦ done (take n label ++ pointer_bytes offset)
      ])
  if size == 0 then done label else next

-- The last loop: an entry for each new label, up to the root or a pointer.
unfoldable pub new_entries : ℕ → List ℕ → ℕ → ℕ → Outcome Lookup
new_entries at out zero n = stuck
new_entries at out (suc fuel) n = do
  size ← peek out n
  let next =
      (new_entries at out fuel (n + (size + 1)) >>= λ es.
      done (record { offset = at + n; value = drop n out } ∷ es))
  if size == 0 then done [] else if is_pointer size then done [] else next

-- `block` is what is written already, `*bufp - at` up to `*bufp`, and `left` the room behind it; the
-- block is cleared when it is allocated. Where `name_to_label` returns 0 the source goes on with an
-- uninitialised `label`.
unfoldable pub writelabel : List ℕ → List ℕ → ℕ → Lookup → Outcome (List ℕ × Lookup)
writelabel name block left lookup = elim (name_to_label name) [
  | invalid ↦ error
  | overflow ↦ fault
  | wire_label label ↦ (do
    out ← shorten (block ++ zeros left) label lookup (length label) 0
    entries ← new_entries (length block) out (length out) 0
    if ltb left (length out) then error else done (block ++ out, lookup ++ entries))
]
