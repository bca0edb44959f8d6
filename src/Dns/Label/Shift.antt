-- ===== src/Dns/Label/Shift.antt =====
-- Names in a part of a buffer: `readlabel` is called with a pointer into the packet as its `in`.
use ambrosia.Prelude.{
  ℕ, zero, suc, ◌+◌, ◌≡◌, refl, sym, ap, ◌∙◌, List, [], ◌∷◌, length-drop, get_elem?, drop, arith,
}
use ambrosia.Prelude.Bits.{AreBytes}
use ambrosia.Dns.Memory.{slice}
use ambrosia.Dns.Label.Spells.{Spells, root, label, pointer}

drop-drop : (o i j : ℕ) (xs : List ℕ) → j ≡ o + i → drop i (drop o xs) ≡ drop j xs
drop-drop zero i j xs e = ap (λ (k : ℕ). drop k xs) (omega arith)
drop-drop (suc o) zero zero [] e = refl
drop-drop (suc o) zero (suc j) [] e = refl
drop-drop (suc o) (suc i) zero [] e = refl
drop-drop (suc o) (suc i) (suc j) [] e = refl
drop-drop (suc o) i zero (x ∷ xs) e = absurd (omega arith)
drop-drop (suc o) i (suc j) (x ∷ xs) e = drop-drop o i j xs (omega arith)

get_elem?-drop : (o i j : ℕ) (xs : List ℕ) → j ≡ o + i → get_elem? (drop o xs) i ≡ get_elem? xs j
get_elem?-drop zero i j xs e = ap (get_elem? xs) (omega arith)
get_elem?-drop (suc o) i j [] e = refl
get_elem?-drop (suc o) i zero (x ∷ xs) e = absurd (omega arith)
get_elem?-drop (suc o) i (suc j) (x ∷ xs) e = get_elem?-drop o i j xs (omega arith)

slice-drop : (o i j n : ℕ) (xs : List ℕ) → j ≡ o + i → slice (drop o xs) i n ≡ slice xs j n
slice-drop o i j n xs e = rw (drop-drop o i j xs e) refl

-- A name is the same name in the part of the buffer that starts before it.
pub Spells-drop :
    (ref : List ℕ) {buf : List ℕ} {pos h : ℕ} {ls : List (List ℕ)} {stop : ℕ} (o p s : ℕ)
    → Spells ref buf pos h ls stop
    → pos ≡ o + p
    → stop ≡ o + s
    → Spells ref (drop o buf) p h ls s
Spells-drop ref o p s (root buf pos h stop e es) ep eq =
    root (drop o buf) p h s (get_elem?-drop o p pos buf ep ∙ e) (omega arith)
Spells-drop ref o p s (label buf pos h size next v ls stop e ps sm long ev en w) ep eq =
    label (drop o buf) p h size (p + size + 1) v ls s (get_elem?-drop o p pos buf ep ∙ e) ps sm
      (omega (arith, length-drop o buf))
      (ev ∙ sym (slice-drop o (p + 1) (pos + 1) size buf (omega arith))) refl
      (Spells-drop ref o (p + size + 1) s w (omega arith) eq)
Spells-drop ref o p s (pointer buf pos h hi lo f ls stop end eh big el eo i es w) ep eq =
    pointer (drop o buf) p h hi lo f ls s end (get_elem?-drop o p pos buf ep ∙ eh) big
      (get_elem?-drop o (p + 1) (pos + 1) buf (omega arith) ∙ el) eo i (omega arith) w

pub AreBytes-past : (o : ℕ) (xs : List ℕ) → AreBytes xs → AreBytes (drop o xs)
AreBytes-past zero xs h = h
AreBytes-past (suc o) [] h = h
AreBytes-past (suc o) (x ∷ xs) h = AreBytes-past o xs h.1
