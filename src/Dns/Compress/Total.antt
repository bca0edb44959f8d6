-- ===== src/Dns/Compress/Total.antt =====
-- `writelabel` ends on every name, and reads nothing outside its buffers.
use ambrosia.Prelude.{
  ℕ, zero, suc, ◌+◌, ◌≤◌, ◌<◌, ◌≡◌, refl, ap, ◌∙◌, subst, inl, inr, false, List, [], ◌∷◌, ◌++◌,
  length, length-append, ltb, ◌==◌, if◌then◌else◌, Bool-cases, Option-cases, append_assoc, arith,
}
use ambrosia.Prelude.Bits.{AreBytes}
use ambrosia.Dns.Memory.{Outcome, done, error, ◌>>=◌, Ensures, Ensures-bind, Ensures-of}
use ambrosia.Dns.Label.{is_pointer}
use ambrosia.Dns.Label.Steps.{peek-eq, is_pointer_lem}
use ambrosia.Dns.Name.Valid.{AreLabels}
use ambrosia.Dns.Name.Encode.{wire, name_to_label_cases}
use ambrosia.Dns.Compress.{
  Lookup, local, zeros, match_fuel, matchlabel, find_entry, pointer_bytes, shorten, new_entries,
  writelabel,
}
use ambrosia.Dns.Compress.Match.{matchlabel-Ends}
use ambrosia.Dns.Compress.Write.{get_elem?-at, AreBytes-append}
use ambrosia.Dns.Compress.Shorten.{IsTail, IsShort, shorten-IsShort}
use ambrosia.Dns.Compress.RoundTrip.{tail_first}
use ambrosia.Dns.Compress.Name.{IsBlock, Wrote, writelabel-Wrote, AreBytes-wire, AreBytes-zeros}

abbrev Ends {ℓ} : {A : Type ℓ} → Outcome A → Type 0
Ends m = Ensures (λ _. Unit {0}) m

find_entry-Ends : (ref lbl : List ℕ) (n : ℕ) (es : Lookup) → Ends (find_entry ref lbl n es)
unfolding find_entry
find_entry-Ends ref lbl n [] = tt
find_entry-Ends ref lbl n (e ∷ es) =
    Ensures-bind (λ _. Unit {0}) (λ _. Unit {0})
      (matchlabel ref (match_fuel ref lbl) (local lbl n) (local e.value 0) 8 8) _
      (matchlabel-Ends ref (length ref + length lbl) (match_fuel ref lbl) (local lbl n)
        (local e.value 0) 8 8 (omega arith) (omega arith) (omega arith))
      (λ m _. elim (Bool-cases m) [
        | inl hit ↦ rw hit tt
        | inr miss ↦ rw miss (find_entry-Ends ref lbl n es)
      ])

shorten-Ends :
    (ref lbl : List ℕ) (lookup : Lookup) (fuel : ℕ) (pre : List ℕ) (ls : List (List ℕ))
    → AreLabels ls
    → lbl ≡ pre ++ (wire ls ++ (0 ∷ []))
    → length (wire ls) < fuel
    → Ends (shorten ref lbl lookup fuel (length pre))
unfolding shorten wire
shorten-Ends ref lbl lookup zero pre ls ok e f = absurd (omega arith)
shorten-Ends ref lbl lookup (suc fuel) pre [] ok e f =
    let first = peek-eq lbl (length pre) 0 (rw e (get_elem?-at pre [] 0)) in rw first tt
shorten-Ends ref lbl lookup (suc fuel) pre (l ∷ ls) ok e f =
    let here = length l ∷ l in
    let first = peek-eq lbl (length pre) (length l) (rw e (get_elem?-at pre _ (length l))) in
    let more : (length l == 0) ≡ false = ground arith in
    let assoc : lbl ≡ (pre ++ here) ++ (wire ls ++ (0 ∷ [])) =
      e
      ∙ ground
          (arith, append_assoc l (wire ls) (0 ∷ []), append_assoc pre here (wire ls ++ (0 ∷ []))) in
    let at : length (pre ++ here) ≡ length pre + (length l + 1) =
      omega (arith, length-append pre here) in
    let next =
      shorten-Ends ref lbl lookup fuel (pre ++ here) ls ok.1 assoc
        (omega (arith, length-append l (wire ls))) in
    let next' = subst (λ (q : ℕ). Ends (shorten ref lbl lookup fuel q)) at next in
    rw (first, more)
      (Ensures-bind (λ _. Unit {0}) (λ _. Unit {0}) (find_entry ref lbl (length pre) lookup) _
        (find_entry-Ends ref lbl (length pre) lookup)
        (λ found _. elim (Option-cases found) [
          | inl none_found ↦ rw none_found next'
          | inr (offset, hit) ↦ rw hit tt
        ]))

new_entries-Ends :
    (block : List ℕ) (at fuel : ℕ) (out pre : List ℕ) (kept rest : List (List ℕ)) (tail : List ℕ)
    → AreLabels kept
    → IsTail block rest tail
    → out ≡ pre ++ (wire kept ++ tail)
    → length (wire kept) < fuel
    → Ends (new_entries at out fuel (length pre))
unfolding new_entries wire
new_entries-Ends block at zero out pre kept rest tail ok it e f = absurd (omega arith)
new_entries-Ends block at (suc fuel) out pre [] rest tail ok it e f =
    let (b, eb, kind) = tail_first block pre rest tail it in
    let first = peek-eq out (length pre) b (rw e eb) in rw first (ground arith)
new_entries-Ends block at (suc fuel) out pre (l ∷ kept) rest tail ok it e f =
    let here = length l ∷ l in
    let first = peek-eq out (length pre) (length l) (rw e (get_elem?-at pre _ (length l))) in
    let more : (length l == 0) ≡ false = ground arith in
    let plain : is_pointer (length l) ≡ false = ground (arith, is_pointer_lem (length l)) in
    let assoc : out ≡ (pre ++ here) ++ (wire kept ++ tail) =
      e
      ∙ ground
          (arith, append_assoc l (wire kept) tail, append_assoc pre here (wire kept ++ tail)) in
    let place : length (pre ++ here) ≡ length pre + (length l + 1) =
      omega (arith, length-append pre here) in
    let next =
      new_entries-Ends block at fuel out (pre ++ here) kept rest tail ok.1 it assoc
        (omega (arith, length-append l (wire kept))) in
    let next' = subst (λ (q : ℕ). Ends (new_entries at out fuel q)) place next in
    rw (first, more, plain)
      (Ensures-bind (λ _. Unit {0}) (λ _. Unit {0})
        (new_entries at out fuel (length pre + (length l + 1))) _ next' (λ es _. tt))

module _ (name block : List ℕ) (left : ℕ) (lookup : Lookup) where
  out-Ends :
      (ls : List (List ℕ)) (out : List ℕ)
      → IsShort block [] ls out
      → Ends {A = List ℕ × Lookup} (
          new_entries (length block) out (length out) 0 >>= λ entries.
          (if ltb left (length out) then error else done (block ++ out, lookup ++ entries)))
  out-Ends ls out (kept, rest, tail, ok, els, eo, it) =
      Ensures-bind (λ _. Unit {0}) (λ _. Unit {0}) (new_entries (length block) out (length out) 0) _
        (new_entries-Ends block (length block) (length out) out [] kept rest tail ok it eo
          (longer it))
        (λ entries _. ground arith)
    where
      longer : IsTail block rest tail → length (wire kept) < length out
      longer (inl (et, er)) =
          omega (arith, ap length eo, ap length et, length-append (wire kept) tail)
      longer (inr (offset, small, et, w)) =
          unfold pointer_bytes in
          omega (arith, ap length eo, ap length et, length-append (wire kept) tail)

  writelabel-Ends : IsBlock block lookup → AreBytes name → Ends (writelabel name block left lookup)
  unfolding writelabel
  writelabel-Ends ok bn = elim (name_to_label_cases name) [
    | inl (bad, no_label) ↦ rw (no_label, writelabel) tt
    | inr (ls, some_label, labels, en, written, fits) ↦
        let ref = block ++ zeros left in
        let lbl = wire ls ++ (0 ∷ []) in
        let pad = AreBytes-append block (zeros left) ok.0 (AreBytes-zeros left) in
        let bl =
          AreBytes-append (wire ls) (0 ∷ []) (AreBytes-wire ls labels (subst AreBytes en bn))
            (omega arith) in
        let m = shorten ref lbl lookup (length lbl) 0 in
        let ends =
          shorten-Ends ref lbl lookup (length lbl) [] ls labels refl
            (omega (arith, length-append (wire ls) (0 ∷ []))) in
        let short =
          Ensures-of (λ _. Unit {0}) (IsShort block [] ls) m ends
            (λ out e.
              shorten-IsShort block (zeros left) lookup pad ok.1 (length lbl) lbl [] ls out bl
                labels refl e) in
        rw (written, writelabel)
          (Ensures-bind (IsShort block [] ls) (λ _. Unit {0}) m _ short
            (λ out h. out-Ends ls out h))
  ]

-- On a good block and any bytes for a name, `writelabel` ends without reading outside its buffers:
-- it fails, or it adds the name as a reader of the longer block finds it, with entries that are good
-- for later calls, and keeps within `left`. The block may become 16384 bytes long at most.
pub writelabel-Ensures :
    (name block : List ℕ) (left : ℕ) (lookup : Lookup)
    → IsBlock block lookup
    → AreBytes name
    → length block + left ≤ 16384
    → Ensures (Wrote name block left) (writelabel name block left lookup)
writelabel-Ensures name block left lookup ok bn room =
    Ensures-of (λ _. Unit {0}) (Wrote name block left) (writelabel name block left lookup)
      (writelabel-Ends name block left lookup ok bn)
      (λ p e. writelabel-Wrote name block left lookup p ok bn room e)
