-- ===== src/Dns/Compress/Name.antt =====
-- `writelabel` as a whole, and `readlabel` on what it wrote.
use ambrosia.Prelude.{
  ℕ, zero, suc, ◌+◌, ◌≤◌, ◌≡◌, refl, sym, ap, ◌∙◌, subst, inl, inr, List, [], ◌∷◌, ◌++◌, length,
  length-append, ltb, if◌then◌else◌, Bool-cases, arith,
}
use ambrosia.Prelude.Bits.{AreBytes}
use ambrosia.Dns.Memory.{done, error, ◌>>=◌, >>=-eq-done}
use ambrosia.Dns.Label.{readlabel}
use ambrosia.Dns.Label.Spells.{Spells, dotted}
use ambrosia.Dns.Label.Laws.{Spells-append}
use ambrosia.Dns.Label.Complete.{readlabel_complete}
use ambrosia.Dns.Name.Valid.{AreLabels}
use ambrosia.Dns.Name.Encode.{wire, length-wire, name_to_label_cases}
use ambrosia.Dns.Compress.{Lookup, zeros, shorten, new_entries, writelabel}
use ambrosia.Dns.Compress.Write.{AreEntries, AreEntries-append, AreBytes-append, pointer_bytes_lem}
use ambrosia.Dns.Compress.Shorten.{IsTail, shorten-IsShort}
use ambrosia.Dns.Compress.RoundTrip.{Spells-written, new_entries-AreEntries, AreBytes-drop}

AreBytes-take : (xs ys : List ℕ) → AreBytes (xs ++ ys) → AreBytes xs
AreBytes-take [] ys h = tt
AreBytes-take (x ∷ xs) ys h = (h.0, AreBytes-take xs ys h.1)

pub AreBytes-wire : (ls : List (List ℕ)) → AreLabels ls → AreBytes (dotted ls) → AreBytes (wire ls)
unfolding wire dotted
AreBytes-wire [] ok h = tt
AreBytes-wire (l ∷ ls) ok h = (
  omega arith,
  AreBytes-append l (wire ls) (AreBytes-take l (b'.' ∷ dotted ls) h)
      (AreBytes-wire ls ok.1 (AreBytes-drop l (b'.' ∷ dotted ls) h).1),
)

pub AreBytes-zeros : (n : ℕ) → AreBytes (zeros n)
AreBytes-zeros zero = tt
AreBytes-zeros (suc n) = (omega arith, AreBytes-zeros n)

AreBytes-tail :
    (block : List ℕ) (rest : List (List ℕ)) (tail : List ℕ) → IsTail block rest tail → AreBytes tail
AreBytes-tail block rest tail (inl (et, er)) = rw et (omega arith)
AreBytes-tail block rest tail (inr (offset, small, et, w)) =
    let (hi, lo, ep, big, bh, bl, eo) = pointer_bytes_lem offset small in rw (et, ep) (bh, (bl, tt))

AreEntries-concat :
    (block : List ℕ) (es fs : Lookup)
    → AreEntries block es
    → AreEntries block fs
    → AreEntries block (es ++ fs)
AreEntries-concat block [] fs h k = k
AreEntries-concat block (e ∷ es) fs h k = (h.0, AreEntries-concat block es fs h.1 k)

-- The bytes of a kept part.
AreBytes-kept :
    (kept rest : List (List ℕ))
    → AreLabels kept
    → AreBytes (dotted (kept ++ rest))
    → AreBytes (wire kept)
unfolding dotted wire
AreBytes-kept [] rest ok h = tt
AreBytes-kept (l ∷ kept) rest ok h = (
  omega arith,
  AreBytes-append l (wire kept) (AreBytes-take l _ h)
      (AreBytes-kept kept rest ok.1 (AreBytes-drop l (b'.' ∷ dotted (kept ++ rest)) h).1),
)

-- What a block owes to its readers: all of it bytes, and a name behind each entry.
abbrev pub IsBlock : List ℕ → Lookup → Type 0
IsBlock block lookup = AreBytes block × AreEntries block lookup

abbrev pub Wrote : List ℕ → List ℕ → ℕ → List ℕ × Lookup → Type 0
Wrote name block left p =
    (ls : List (List ℕ)) × (name ≡ dotted ls)
    × (length name ≤ 254)
    × Spells p.0 p.0 (length block) 8 ls (length p.0)
    × IsBlock p.0 p.1
    × (length p.0 ≤ length block + left)

writelabel_out :
    (block : List ℕ) (left : ℕ) (lookup : Lookup) (name : List ℕ) (ls : List (List ℕ))
    (p : List ℕ × Lookup)
    → IsBlock block lookup
    → AreBytes name
    → length block + left ≤ 16384
    → AreLabels ls
    → name ≡ dotted ls
    → length name ≤ 254
    → (shorten (block ++ zeros left) (wire ls ++ (0 ∷ [])) lookup (length (wire ls ++ (0 ∷ []))) 0
        >>= λ out.
            (new_entries (length block) out (length out) 0 >>= λ entries.
            (if ltb left (length out) then error else done (block ++ out, lookup ++ entries))))
      ≡ done p
    → Wrote name block left p
writelabel_out block left lookup name ls p (bb, known) bn room ok en short e =
    let lbl = wire ls ++ (0 ∷ []) in
    let bytes : AreBytes (dotted ls) = subst AreBytes en bn in
    let bl = AreBytes-append (wire ls) (0 ∷ []) (AreBytes-wire ls ok bytes) (omega arith) in
    let pad = AreBytes-append block (zeros left) bb (AreBytes-zeros left) in
    let (out, es, e1) = >>=-eq-done (shorten (block ++ zeros left) lbl lookup (length lbl) 0) _ e in
    let (entries, ee, e2) = >>=-eq-done (new_entries (length block) out (length out) 0) _ e1 in
    elim (Bool-cases (ltb left (length out))) [
      | inl over ↦ absurd (ground arith)
      | inr fits ↦
          let ep : p ≡ (block ++ out, lookup ++ entries) = ground arith in
          let (kept, rest, tail, okk, els, eo, it) =
            shorten-IsShort block (zeros left) lookup pad known (length lbl) lbl [] ls out bl ok
              refl es in
          let kept_bytes =
            AreBytes-kept kept rest okk
              (subst (λ (k : List (List ℕ)). AreBytes (dotted k)) els bytes) in
          let body =
            AreBytes-append (wire kept) tail kept_bytes (AreBytes-tail block rest tail it) in
          let small : length block + length out ≤ 16384 = ground arith in
          let new =
            new_entries-AreEntries block (length out) out [] kept rest tail entries eo okk it body
              small ee in
          let w = Spells-written block out block kept rest tail okk it in
          let w1 =
            subst
              (λ (b : List ℕ).
                Spells (block ++ out) (block ++ b) (length block) 8 (kept ++ rest)
                  (length (block ++ b)))
              (sym eo) w in
          let old = AreEntries-append block out lookup known in
          rw ep (
            ls,
            en,
            short,
            subst
                (λ (k : List (List ℕ)).
                  Spells (block ++ out) (block ++ out) (length block) 8 k (length (block ++ out)))
                (sym els) w1,
            (
              AreBytes-append block out bb (subst AreBytes (sym eo) body),
              AreEntries-concat (block ++ out) lookup entries old new,
            ),
            ground (arith, length-append block out),
          )
    ]

-- `writelabel` succeeds only with a name behind the block that a reader of the longer block finds:
-- the labels of `name`, literally or through pointers to names written before, up to the new end.
-- The entries that it adds are good for later calls, and it keeps within `left`.
pub writelabel-Wrote :
    (name block : List ℕ) (left : ℕ) (lookup : Lookup) (p : List ℕ × Lookup)
    → IsBlock block lookup
    → AreBytes name
    → length block + left ≤ 16384
    → writelabel name block left lookup ≡ done p
    → Wrote name block left p
unfolding writelabel
writelabel-Wrote name block left lookup p ok bn room e = elim (name_to_label_cases name) [
  | inl (bad, no_label) ↦ absurd (ground arith)
  | inr (ls, some_label, labels, en, written, fits) ↦
      writelabel_out block left lookup name ls p ok bn room labels en
        (omega (arith, ap length en, length-append (wire ls) (0 ∷ []), length-wire ls))
        (rw (written, writelabel) at e)
]

-- A name that `writelabel` put into a packet is what `readlabel` returns at its place, whatever is
-- written behind it.
pub readlabel-writelabel :
    (name block : List ℕ) (left : ℕ) (lookup : Lookup) (block' : List ℕ) (lookup' : Lookup)
    (more : List ℕ)
    → IsBlock block lookup
    → AreBytes name
    → AreBytes more
    → length block + left ≤ 16384
    → writelabel name block left lookup ≡ done (block', lookup')
    → readlabel (block' ++ more) (block' ++ more) (length block) ≡ done (length block', name)
readlabel-writelabel name block left lookup block' lookup' more ok bn bm room e =
    let (ls, en, short, w, ok', fits) =
      writelabel-Wrote name block left lookup (block', lookup') ok bn room e in
    let bytes = AreBytes-append block' more ok'.0 bm in
    let found =
      readlabel_complete (block' ++ more) (block' ++ more) (length block) ls (length block') bytes
        bytes (Spells-append block' more more w) (ground (arith, ap length en)) in
    found ∙ ground arith
