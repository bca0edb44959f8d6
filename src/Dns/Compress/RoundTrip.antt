-- ===== src/Dns/Compress/RoundTrip.antt =====
-- `writelabel` and `readlabel` fit together.
use ambrosia.Prelude.{
  ℕ, zero, suc, ◌+◌, ◌≤◌, ◌<◌, ◌≡◌, refl, sym, ap, ◌∙◌, subst, ◌⊎◌, inl, inr, true, false, some,
  List, [], ◌∷◌, ◌++◌, length, length-append, get_elem?, drop, drop-append, ◌==◌, append_assoc,
  arith,
}
use ambrosia.Prelude.Bits.{AreBytes}
use ambrosia.Dns.Memory.{done, >>=-eq-done, peek, peek-eq-done}
use ambrosia.Dns.Label.{is_pointer}
use ambrosia.Dns.Label.Spells.{Spells, root, label, pointer}
use ambrosia.Dns.Label.Laws.{Spells-append, Spells-more_hops}
use ambrosia.Dns.Label.Complete.{Spells-lt}
use ambrosia.Dns.Label.Steps.{is_pointer_lem}
use ambrosia.Dns.Name.Valid.{AreLabels}
use ambrosia.Dns.Name.Encode.{wire}
use ambrosia.Dns.Compress.{Lookup, new_entries}
use ambrosia.Dns.Compress.Write.{IsEntry, AreEntries, get_elem?-at, Spells-wire, pointer_bytes_lem}
use ambrosia.Dns.Compress.Shorten.{IsTail}

behind :
    (front : List ℕ) (hi lo : ℕ)
    → get_elem? ((front ++ (hi ∷ [])) ++ (lo ∷ [])) (length front + 1) ≡ some lo
behind front hi lo =
    let e : length front + 1 ≡ length (front ++ (hi ∷ [])) =
      omega (arith, length-append front (hi ∷ [])) in
    rw e (get_elem?-at (front ++ (hi ∷ [])) [] lo)

-- The tail behind `front`, as a reader of the longer packet finds it.
Spells-tail :
    (block more front : List ℕ) (rest : List (List ℕ)) (tail : List ℕ)
    → IsTail block rest tail
    → Spells (block ++ more) (front ++ tail) (length front) 8 rest (length (front ++ tail))
Spells-tail block more front rest tail (inl (et, er)) =
    rw (et, er)
      (root (front ++ (0 ∷ [])) (length front) 8 (length (front ++ (0 ∷ [])))
        (get_elem?-at front [] 0) (omega (arith, length-append front (0 ∷ []))))
Spells-tail block more front rest tail (inr (offset, small, et, (stop, w))) =
    let (hi, lo, ep, big, bh, bl, eo) = pointer_bytes_lem offset small in
    let buf : front ++ tail ≡ front ++ (hi ∷ lo ∷ []) = ground arith in
    let first : get_elem? (front ++ tail) (length front) ≡ some hi =
      rw buf (get_elem?-at front (lo ∷ []) hi) in
    let second : get_elem? (front ++ tail) (length front + 1) ≡ some lo =
      rw (buf, ← (append_assoc front (hi ∷ []) (lo ∷ []))) (behind front hi lo) in
    let target =
      Spells-more_hops (block ++ more) 7 (omega arith) (Spells-append block more more w) in
    let inside = Spells-lt (block ++ more) (block ++ more) offset 7 rest stop target in
    pointer (front ++ tail) (length front) 7 hi lo offset rest (length (front ++ tail)) stop first
      big second eo inside (ground (arith, ap length buf, length-append front (hi ∷ lo ∷ [])))
      target

pub Spells-written :
    (block more pre : List ℕ) (kept rest : List (List ℕ)) (tail : List ℕ)
    → AreLabels kept
    → IsTail block rest tail
    → Spells
        (block ++ more)
        (pre ++ (wire kept ++ tail))
        (length pre)
        8
        (kept ++ rest)
        (length (pre ++ (wire kept ++ tail)))
Spells-written block more pre kept rest tail ok it =
    let all : (pre ++ wire kept) ++ tail ≡ pre ++ (wire kept ++ tail) =
      append_assoc pre (wire kept) tail in
    let w = Spells-tail block more (pre ++ wire kept) rest tail it in
    let w1 =
      subst (λ (b : List ℕ). Spells (block ++ more) b (length (pre ++ wire kept)) 8 rest (length b))
        all w in
    let w2 =
      subst
        (λ (p : ℕ).
          Spells (block ++ more) (pre ++ (wire kept ++ tail)) p 8 rest
            (length (pre ++ (wire kept ++ tail))))
        (length-append pre (wire kept)) w1 in
    Spells-wire (block ++ more) pre kept rest tail (length (pre ++ (wire kept ++ tail))) ok w2

-- At a plain byte no hop is needed.
Spells-plain :
    (ref : List ℕ) {buf : List ℕ} {pos h : ℕ} {ls : List (List ℕ)} {stop : ℕ} (b : ℕ)
    → Spells ref buf pos h ls stop
    → get_elem? buf pos ≡ some b
    → b < 64
    → Spells ref buf pos 0 ls stop
Spells-plain ref b (root buf pos h stop e es) eb small = root buf pos 0 stop e es
Spells-plain ref b (label buf pos h size next v ls stop e p sm long ev en w) eb small =
    label buf pos 0 size next v ls stop e p sm long ev en w
Spells-plain ref b (pointer buf pos h hi lo o ls stop end eh big el eo i es w) eb small =
    absurd (ground arith)

-- The first byte of a tail ends the walk over the labels.
pub tail_first :
    (block front : List ℕ) (rest : List (List ℕ)) (tail : List ℕ)
    → IsTail block rest tail
    → (b : ℕ) × (get_elem? (front ++ tail) (length front) ≡ some b)
      × ((b ≡ 0) ⊎ ((0 < b) × (is_pointer b ≡ true)))
tail_first block front rest tail (inl (et, er)) = (0, rw et (get_elem?-at front [] 0), inl refl)
tail_first block front rest tail (inr (offset, small, et, w)) =
    let (hi, lo, ep, big, bh, bl, eo) = pointer_bytes_lem offset small in
    let buf : front ++ tail ≡ front ++ (hi ∷ lo ∷ []) = ground arith in
    (
      hi,
      rw buf (get_elem?-at front (lo ∷ []) hi),
      inr (omega arith, ground (arith, is_pointer_lem hi bh)),
    )

-- The entry for the name at `pre`.
drop-IsEntry :
    (block out pre l : List ℕ) (kept rest : List (List ℕ)) (tail : List ℕ)
    → out ≡ pre ++ (wire (l ∷ kept) ++ tail)
    → AreLabels (l ∷ kept)
    → IsTail block rest tail
    → AreBytes (wire (l ∷ kept) ++ tail)
    → length block + length out ≤ 16384
    → IsEntry
        (block ++ out)
        (record { offset = length block + length pre; value = drop (length pre) out })
unfolding wire
drop-IsEntry block out pre l kept rest tail eo ok it bytes room =
    let name = (l ∷ kept) ++ rest in
    let body = wire (l ∷ kept) ++ tail in
    let value : drop (length pre) out ≡ body = rw eo (drop-append pre body) in
    let front : (block ++ pre) ++ body ≡ block ++ out =
      append_assoc block pre body ∙ ap (◌++◌ block) (sym eo) in
    let place : length (block ++ pre) ≡ length block + length pre = length-append block pre in
    let w = Spells-written block out (block ++ pre) (l ∷ kept) rest tail ok it in
    let w0 =
      Spells-plain (block ++ out) (length l) w (get_elem?-at (block ++ pre) _ (length l)) ok.0.1 in
    let w1 =
      subst (λ (b : List ℕ). Spells (block ++ out) b (length (block ++ pre)) 0 name (length b))
        front w0 in
    let w2 =
      subst (λ (p : ℕ). Spells (block ++ out) (block ++ out) p 0 name (length (block ++ out))) place
        w1 in
    let v = Spells-written block out [] (l ∷ kept) rest tail ok it in
    let v0 = Spells-plain (block ++ out) (length l) v refl ok.0.1 in
    let v1 = subst (λ (b : List ℕ). Spells (block ++ out) b 0 0 name (length b)) (sym value) v0 in
    (
      subst AreBytes (sym value) bytes,
      omega (arith, ap length eo, length-append pre body),
      (name, (length (block ++ out), w2), (length (drop (length pre) out), v1)),
    )

pub AreBytes-drop : (xs ys : List ℕ) → AreBytes (xs ++ ys) → AreBytes ys
AreBytes-drop [] ys h = h
AreBytes-drop (x ∷ xs) ys h = AreBytes-drop xs ys h.1

-- The labels that stand literally are entries for later names.
pub new_entries-AreEntries :
    (block : List ℕ) (fuel : ℕ) (out pre : List ℕ) (kept rest : List (List ℕ)) (tail : List ℕ)
    (es : Lookup)
    → out ≡ pre ++ (wire kept ++ tail)
    → AreLabels kept
    → IsTail block rest tail
    → AreBytes (wire kept ++ tail)
    → length block + length out ≤ 16384
    → new_entries (length block) out fuel (length pre) ≡ done es
    → AreEntries (block ++ out) es
unfolding new_entries wire
new_entries-AreEntries block zero out pre kept rest tail es eo ok it bytes room e = cc
new_entries-AreEntries block (suc fuel) out pre [] rest tail es eo ok it bytes room e =
    let (b, eb, kind) = tail_first block pre rest tail it in
    let eb' : get_elem? out (length pre) ≡ some b = rw eo eb in
    let none_left : es ≡ [] = ground arith in rw none_left tt
new_entries-AreEntries block (suc fuel) out pre (l ∷ kept) rest tail es eo ok it bytes room e =
    let here = length l ∷ l in
    let first : get_elem? out (length pre) ≡ some (length l) =
      rw eo (get_elem?-at pre _ (length l)) in
    let (size, ep, e1) = >>=-eq-done (peek out (length pre)) _ e in
    let eq : size ≡ length l = ground (arith, peek-eq-done out (length pre) size ep) in
    let plain : is_pointer size ≡ false = ground (arith, is_pointer_lem size) in
    let more : (size == 0) ≡ false = ground arith in
    let (es', e2, e3) =
      >>=-eq-done (new_entries (length block) out fuel (length pre + (size + 1))) _
        (rw (more, plain) at e1) in
    let at : length pre + (size + 1) ≡ length (pre ++ here) =
      omega (arith, length-append pre here) in
    let assoc : out ≡ (pre ++ here) ++ (wire kept ++ tail) =
      eo
      ∙ ground
          (arith, append_assoc l (wire kept) tail, append_assoc pre here (wire kept ++ tail)) in
    let rest_bytes = AreBytes-drop here (wire kept ++ tail) (rw append_assoc at bytes) in
    let later =
      new_entries-AreEntries block fuel out (pre ++ here) kept rest tail es' assoc ok.1 it
        rest_bytes room
        (subst (λ (q : ℕ). new_entries (length block) out fuel q ≡ done es') at e2) in
    let entry = drop-IsEntry block out pre l kept rest tail eo ok it bytes room in
    let whole : es
        ≡ record { offset = length block + length pre; value = drop (length pre) out } ∷ es' =
      ground arith in
    rw whole (entry, later)
