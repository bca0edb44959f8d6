-- ===== src/Dns/Compress/Write.antt =====
-- What `writelabel` writes: the name, as a reader of the finished packet finds it.
use ambrosia.Prelude.{
  ℕ, ◌+◌, ◌*◌, ◌/◌, ◌%◌, ◌≤◌, ◌<◌, ◌≡◌, refl, sym, ap, ◌∙◌, subst, inl, inr, some, List, [], ◌∷◌,
  ◌++◌, length, length-append, get_elem?, take-append, drop-append, Bool-cases, append_assoc,
  append-nil, arith,
}
use ambrosia.Prelude.Bits.{IsByte, AreBytes, bit_or-disjoint}
use ambrosia.Dns.Memory.{done, >>=-eq-done, slice}
use ambrosia.Dns.Label.Spells.{Spells, label}
use ambrosia.Dns.Label.Laws.{Spells-append}
use ambrosia.Dns.Name.Valid.{IsLabel, AreLabels}
use ambrosia.Dns.Name.Encode.{wire}
use ambrosia.Dns.Compress.{Entry, Lookup, local, matchlabel, match_fuel, find_entry, pointer_bytes}
use ambrosia.Dns.Compress.Equal.{SpellsAt, matchlabel_sound}

-- An entry stands for a name that is at its offset in the block, before any pointer, and that its
-- own bytes spell too. The offset fits a pointer.
abbrev pub IsEntry : List ℕ → Entry → Type 0
IsEntry block e =
    AreBytes e.value
    × (e.offset < 16384)
    × ((ls : List (List ℕ)) × ((stop : ℕ) × Spells block block e.offset 0 ls stop)
        × ((stop : ℕ) × Spells block e.value 0 0 ls stop))

abbrev pub AreEntries : List ℕ → Lookup → Type 0
AreEntries block [] = Unit {0}
AreEntries block (e ∷ es) = IsEntry block e × AreEntries block es

pub AreBytes-append : (xs ys : List ℕ) → AreBytes xs → AreBytes ys → AreBytes (xs ++ ys)
AreBytes-append [] ys hx hy = hy
AreBytes-append (x ∷ xs) ys hx hy = (hx.0, AreBytes-append xs ys hx.1 hy)

-- Growing the block keeps the entries.
pub AreEntries-append :
    (block more : List ℕ) (es : Lookup) → AreEntries block es → AreEntries (block ++ more) es
AreEntries-append block more [] h = tt
AreEntries-append block more (e ∷ es) (h, hs) =
    let (bytes, small, (ls, (s, w), (s', v))) = h in
    (
      (
        bytes,
        small,
        (
          ls,
          (s, Spells-append block more more w),
          (s', rw append-nil at (Spells-append block more [] v)),
        ),
      ),
      AreEntries-append block more es hs,
    )

-- An entry that is found spells the same name as the place in the label.
pub find_entry-some :
    (block pad lbl : List ℕ) (n offset : ℕ) (ls : List (List ℕ)) (es : Lookup)
    → AreBytes (block ++ pad)
    → AreBytes lbl
    → AreEntries block es
    → SpellsAt (block ++ pad) (local lbl n) ls
    → find_entry (block ++ pad) lbl n es ≡ done (some offset)
    → (offset < 16384) × ((stop : ℕ) × Spells block block offset 0 ls stop)
unfolding find_entry
find_entry-some block pad lbl n offset ls [] br bl hs w f = cc
find_entry-some block pad lbl n offset ls (e ∷ es) br bl (h, hs) w f =
    let ref = block ++ pad in
    let (bytes, small, (ls', (s, we), (s', ve))) = h in
    let (m, em, rest) =
      >>=-eq-done (matchlabel ref (match_fuel ref lbl) (local lbl n) (local e.value 0) 8 8) _ f in
    elim (Bool-cases m) [
      | inl hit ↦
          let found : done (some e.offset) ≡ done (some offset) = rw hit at rest in
          let same : offset ≡ e.offset = ground arith in
          let value : Spells ref e.value 0 0 ls' s' =
            rw append-nil at (Spells-append block pad [] ve) in
          let equal =
            matchlabel_sound ref (match_fuel ref lbl) (local lbl n) (local e.value 0) 8 8 ls ls' br
              (bl, λ p. cc) (bytes, λ p. cc) (em ∙ ap done hit) w (0, s', value) in
          (
            rw same small,
            (
              s,
              subst (λ (q : ℕ). Spells block block q 0 ls s) (sym same)
                  (subst (λ (k : List (List ℕ)). Spells block block e.offset 0 k s) (sym equal) we),
            ),
          )
      | inr miss ↦ find_entry-some block pad lbl n offset ls es br bl hs w (rw miss at rest)
    ]

-- The bytes of a pointer below 2 ^ 14.
pub pointer_bytes_lem :
    (offset : ℕ)
    → offset < 16384
    → (hi : ℕ) × (lo : ℕ) × (pointer_bytes offset ≡ hi ∷ lo ∷ [])
      × (64 ≤ hi)
      × IsByte hi
      × IsByte lo
      × (offset ≡ hi % 64 * 256 + lo)
unfolding pointer_bytes
pointer_bytes_lem offset small = (
  192 + offset / 256 % 256,
  offset % 256,
  ground (arith, bit_or-disjoint 6 3 (offset / 256 % 256)),
  omega arith,
  omega arith,
  omega arith,
  omega arith,
)

pub get_elem?-at : (pre rest : List ℕ) (x : ℕ) → get_elem? (pre ++ (x ∷ rest)) (length pre) ≡ some x
get_elem?-at [] rest x = refl
get_elem?-at (y ∷ pre) rest x = get_elem?-at pre rest x

pub slice-at :
    (pre l rest : List ℕ) (i : ℕ) → i ≡ length pre → slice (pre ++ (l ++ rest)) i (length l) ≡ l
slice-at pre l rest i e = rw (e, drop-append pre (l ++ rest)) (take-append l rest)

-- A label in front of a name.
Spells-cons :
    (ref pre l rest : List ℕ) (ls : List (List ℕ)) (h stop : ℕ)
    → IsLabel l
    → Spells ref (pre ++ (length l ∷ (l ++ rest))) (length pre + length l + 1) 8 ls stop
    → Spells ref (pre ++ (length l ∷ (l ++ rest))) (length pre) h (l ∷ ls) stop
Spells-cons ref pre l rest ls h stop ok w =
    label (pre ++ (length l ∷ (l ++ rest))) (length pre) h (length l) (length pre + length l + 1) l
      ls stop (get_elem?-at pre (l ++ rest) (length l)) ok.0 ok.1
      (omega (arith, length-append pre (length l ∷ (l ++ rest)), length-append l rest)) (sym value)
      refl w
  where
    value : slice (pre ++ (length l ∷ (l ++ rest))) (length pre + 1) (length l) ≡ l
    value = rw (← (append_assoc pre (length l ∷ []) (l ++ rest))) (
        slice-at (pre ++ (length l ∷ [])) l rest (length pre + 1)
          (omega (arith, length-append pre (length l ∷ []))))

-- A name in label format inside a buffer, from its labels and what stands behind them.
pub Spells-wire :
    (ref pre : List ℕ) (ls more : List (List ℕ)) (tail : List ℕ) (stop : ℕ)
    → AreLabels ls
    → Spells ref (pre ++ (wire ls ++ tail)) (length pre + length (wire ls)) 8 more stop
    → Spells ref (pre ++ (wire ls ++ tail)) (length pre) 8 (ls ++ more) stop
unfolding wire
Spells-wire ref pre [] more tail stop ok w =
    subst (λ (p : ℕ). Spells ref (pre ++ tail) p 8 more stop) (omega arith) w
Spells-wire ref pre (l ∷ ls) more tail stop ok w =
    let here = length l ∷ l in
    let e1 = append_assoc l (wire ls) tail in
    let e2 = append_assoc pre here (wire ls ++ tail) in
    let lens : length (pre ++ here) ≡ length pre + length l + 1 =
      omega (arith, length-append pre here) in
    let front = pre ++ (length l ∷ (l ++ (wire ls ++ tail))) in
    let assoc : front ≡ pre ++ (wire (l ∷ ls) ++ tail) = ground (arith, e1) in
    let split : front ≡ (pre ++ here) ++ (wire ls ++ tail) = sym e2 in
    let w1 =
      subst (λ (b : List ℕ). Spells ref b (length pre + length (wire (l ∷ ls))) 8 more stop)
        (sym assoc ∙ split) w in
    let w2 =
      subst (λ (p : ℕ). Spells ref ((pre ++ here) ++ (wire ls ++ tail)) p 8 more stop)
        (omega (arith, lens, length-append l (wire ls))) w1 in
    let ih = Spells-wire ref (pre ++ here) ls more tail stop ok.1 w2 in
    let ih1 =
      subst (λ (b : List ℕ). Spells ref b (length (pre ++ here)) 8 (ls ++ more) stop) (sym split)
        ih in
    let ih2 = subst (λ (p : ℕ). Spells ref front p 8 (ls ++ more) stop) lens ih1 in
    subst (λ (b : List ℕ). Spells ref b (length pre) 8 (l ∷ (ls ++ more)) stop) assoc
      (Spells-cons ref pre l (wire ls ++ tail) (ls ++ more) 8 stop ok.0 ih2)
