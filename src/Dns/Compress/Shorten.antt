-- ===== src/Dns/Compress/Shorten.antt =====
-- `shorten`: what the search for known suffixes leaves of a name in label format.
use ambrosia.Prelude.{
  ℕ, zero, suc, ◌+◌, ◌<◌, ◌≡◌, refl, sym, ap, ◌∙◌, subst, ◌⊎◌, inl, inr, false, some, List, [], ◌∷◌,
  ◌++◌, length, length-append, get_elem?, take, take-append, ◌==◌, Option-cases, append_assoc,
  append-nil, arith,
}
use ambrosia.Prelude.Bits.{AreBytes}
use ambrosia.Dns.Memory.{done, >>=-eq-done, peek, peek-eq-done}
use ambrosia.Dns.Label.Spells.{Spells, root}
use ambrosia.Dns.Name.Valid.{AreLabels}
use ambrosia.Dns.Name.Encode.{wire}
use ambrosia.Dns.Compress.{Lookup, find_entry, pointer_bytes, shorten}
use ambrosia.Dns.Compress.Write.{AreEntries, find_entry-some, get_elem?-at, Spells-wire}

-- A whole name in label format.
pub Spells-whole :
    (ref pre : List ℕ) (ls : List (List ℕ)) (rest : List ℕ)
    → AreLabels ls
    → Spells ref
        (pre ++ (wire ls ++ (0 ∷ rest)))
        (length pre)
        8
        ls
        (length pre + length (wire ls) + 1)
Spells-whole ref pre ls rest ok =
    subst (λ (k : List (List ℕ)). Spells ref buf (length pre) 8 k stop) (append-nil ls)
      (Spells-wire ref pre ls [] (0 ∷ rest) stop ok
        (root buf (length pre + length (wire ls)) 8 stop at_end refl))
  where
    buf : List ℕ
    buf = pre ++ (wire ls ++ (0 ∷ rest))

    stop : ℕ
    stop = length pre + length (wire ls) + 1

    at_end : get_elem? buf (length pre + length (wire ls)) ≡ some 0
    at_end =
        rw (← (append_assoc pre (wire ls) (0 ∷ rest)), ← (length-append pre (wire ls)))
          (get_elem?-at (pre ++ wire ls) rest 0)

-- What stands for the labels `ls` behind the literal ones: the root, or a pointer to them.
abbrev pub IsTail : List ℕ → List (List ℕ) → List ℕ → Type 0
IsTail block ls tail =
    ((tail ≡ 0 ∷ []) × (ls ≡ []))
    ⊎ ((offset : ℕ) × (offset < 16384)
        × (tail ≡ pointer_bytes offset)
        × ((stop : ℕ) × Spells block block offset 0 ls stop))

-- `out` is `pre`, some of the labels literally, and a tail for the others.
abbrev pub IsShort : List ℕ → List ℕ → List (List ℕ) → List ℕ → Type 0
IsShort block pre ls out =
    (kept : List (List ℕ)) × (rest : List (List ℕ)) × (tail : List ℕ) × AreLabels kept
    × (ls ≡ kept ++ rest)
    × (out ≡ pre ++ (wire kept ++ tail))
    × IsTail block rest tail

module _ (block pad : List ℕ) (lookup : Lookup) (br : AreBytes (block ++ pad))
    (known : AreEntries block lookup) where
  pub shorten-IsShort :
      (fuel : ℕ) (lbl pre : List ℕ) (ls : List (List ℕ)) (out : List ℕ)
      → AreBytes lbl
      → AreLabels ls
      → lbl ≡ pre ++ (wire ls ++ (0 ∷ []))
      → shorten (block ++ pad) lbl lookup fuel (length pre) ≡ done out
      → IsShort block pre ls out
  unfolding shorten wire
  shorten-IsShort zero lbl pre ls out bl ok e s = cc
  shorten-IsShort (suc fuel) lbl pre [] out bl ok e s =
      let first : get_elem? lbl (length pre) ≡ some 0 = rw e (get_elem?-at pre [] 0) in
      ([], [], 0 ∷ [], tt, refl, ground (arith, first), inl (refl, refl))
  shorten-IsShort (suc fuel) lbl pre (l ∷ ls) out bl ok e s =
      let ref = block ++ pad in
      let here = length l ∷ l in
      let first : get_elem? lbl (length pre) ≡ some (length l) =
        rw e (get_elem?-at pre _ (length l)) in
      let (size, es, s1) = >>=-eq-done (peek lbl (length pre)) _ s in
      let eq : size ≡ length l = ground (arith, peek-eq-done lbl (length pre) size es) in
      let more : (size == 0) ≡ false = ground arith in
      let (found, ef, s2) =
        >>=-eq-done (find_entry ref lbl (length pre) lookup) _ (rw more at s1) in
      let assoc : lbl ≡ (pre ++ here) ++ (wire ls ++ (0 ∷ [])) =
        e
        ∙ ground (
          arith,
          append_assoc l (wire ls) (0 ∷ []),
          append_assoc pre here (wire ls ++ (0 ∷ [])),
        ) in
      elim (Option-cases found) [
        | inl none_found ↦
            let next : shorten ref lbl lookup fuel (length pre + (size + 1)) ≡ done out =
              rw none_found at s2 in
            let at : length pre + (size + 1) ≡ length (pre ++ here) =
              omega (arith, length-append pre here) in
            let (kept, rest, tail, ok', els, eo, it) =
              shorten-IsShort fuel lbl (pre ++ here) ls out bl ok.1 assoc (rw at at next) in
            (
              l ∷ kept,
              rest,
              tail,
              (ok.0, ok'),
              ground arith,
              eo
                  ∙ ground (
                    arith,
                    append_assoc pre here (wire kept ++ tail),
                    append_assoc l (wire kept) tail,
                  ),
              it,
            )
        | inr (offset, hit) ↦
            let stop : done (take (length pre) lbl ++ pointer_bytes offset) ≡ done out =
              rw hit at s2 in
            let till : ℕ = length pre + length (wire (l ∷ ls)) + 1 in
            let whole = Spells-whole ref pre (l ∷ ls) [] ok in
            let here_w : Spells ref lbl (length pre) 8 (l ∷ ls) till =
              subst (λ (b : List ℕ). Spells ref b (length pre) 8 (l ∷ ls) till) (sym e) whole in
            let (small, sp) =
              find_entry-some block pad lbl (length pre) offset (l ∷ ls) lookup br bl known
                (8, till, here_w) (ef ∙ ap done hit) in
            let front : take (length pre) lbl ≡ pre = rw e (take-append pre _) in
            (
              [],
              l ∷ ls,
              pointer_bytes offset,
              tt,
              refl,
              ground arith,
              inr (offset, small, refl, sp),
            )
      ]
