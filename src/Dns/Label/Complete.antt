-- ===== src/Dns/Label/Complete.antt =====
-- `readlabel` reads every compressed name that fits its buffer.
use ambrosia.Prelude.{
  ℕ, zero, suc, ◌+◌, ◌*◌, ◌≤◌, ◌<◌, ◌≡◌, refl, ◌∙◌, ap, ◌⊎◌, inl, inr, Bool, true, false, List, [],
  ◌∷◌, ◌++◌, length, length-append, length-take, length-drop, drop, if◌then◌else◌, append-nil,
  append_assoc, arith,
}
use ambrosia.Prelude.Bits.{AreBytes}
use ambrosia.Dns.Memory.{done, slice}
use ambrosia.Dns.Label.{Spot, read_loop, readlabel}
use ambrosia.Dns.Label.Spells.{Spells, root, label, pointer, dotted}
use ambrosia.Dns.Label.Steps.{
  remaining, past, with_label, remaining-pointer, remaining-plain, read_label-root, read_label_next,
  get_elem?-lt, get_elem?-IsByte, is_pointer_lem, getoffset_lem,
}

pub length-dotted :
    (v : List ℕ) (ls : List (List ℕ)) → length (dotted (v ∷ ls)) ≡ length v + 1 + length (dotted ls)
unfolding dotted
length-dotted v ls = omega (arith, length-append v (b'.' ∷ dotted ls))

pub dotted-append :
    (out v : List ℕ) (ls : List (List ℕ))
    → (out ++ (v ++ (b'.' ∷ []))) ++ dotted ls ≡ out ++ dotted (v ∷ ls)
unfolding dotted
dotted-append out v ls = simp append_assoc

pub length-slice : (buf : List ℕ) (i n : ℕ) → i + n ≤ length buf → length (slice buf i n) ≡ n
length-slice buf i n h = omega (arith, length-take n (drop i buf), length-drop i buf)

pub Spells-lt :
    (ref buf : List ℕ) (pos h : ℕ) (ls : List (List ℕ)) (stop : ℕ)
    → Spells ref buf pos h ls stop
    → pos < length buf
Spells-lt ref _ _ _ _ _ (root buf pos _ _ e _) = get_elem?-lt buf pos 0 e
Spells-lt ref _ _ _ _ _ (label buf pos _ size _ _ _ _ e _ _ _ _ _ _) = get_elem?-lt buf pos size e
Spells-lt ref _ _ _ _ _ (pointer buf pos _ hi _ _ _ _ _ e _ _ _ _ _ _) = get_elem?-lt buf pos hi e

abbrev spot : List ℕ → ℕ → ℕ → Bool → Spot
spot buf pos at hopped = record { buf = buf; label = pos; at = at; hopped_yet = hopped }

read_loop_next :
    (ref : List ℕ) (fuel : ℕ) (s : Spot) (out : List ℕ)
    → s.label < length s.buf
    → read_loop ref (suc fuel) s out ≡ remaining ref 8 fuel out s
unfolding read_loop
read_loop_next ref fuel s out lt = ground arith

complete :
    (ref : List ℕ) {buf : List ℕ} {pos h : ℕ} {ls : List (List ℕ)} {stop : ℕ}
    → Spells ref buf pos h ls stop
    → (fuel : ℕ) (out : List ℕ) (at : ℕ) (hopped : Bool) → AreBytes ref
    → AreBytes buf
    → (hopped ≡ true) ⊎ (at ≡ pos)
    → length out + length (dotted ls) ≤ 255
    → length (dotted ls) ≤ 2 * fuel
    → remaining ref h fuel out (spot buf pos at hopped)
      ≡ done (if hopped then at else stop, out ++ dotted ls)
complete ref (root buf pos h stop e es) fuel out at hopped br bb t fits enough =
    remaining-plain ref fuel out (spot buf pos at hopped) h 0 e refl
    ∙ read_label-root ref fuel out (spot buf pos at hopped) e
    ∙ unfold dotted in ground (arith, append-nil out)
complete ref (label buf pos h size next value ls stop e pos0 small long ev en w) zero out at hopped
      br bb t fits enough =
    absurd (omega (arith, length-dotted value ls))
complete ref (label buf pos h size next value ls stop e pos0 small long ev en w) (suc fuel) out at
      hopped br bb t fits enough =
    let s = spot buf pos at hopped in
    let at' = if hopped then at else at + size + 1 in
    let byte = get_elem?-IsByte buf pos size bb e in
    let e' : past s size ≡ spot buf next at' hopped = ground arith in
    let eo : with_label out s size ≡ out ++ (value ++ (b'.' ∷ [])) = ground arith in
    let lv = length-dotted value ls in
    let ls' = length-slice buf (pos + 1) size (omega arith) in
    let lo = length-append out (value ++ (b'.' ∷ [])) in
    let lo' = length-append value (b'.' ∷ []) in
    remaining-plain ref (suc fuel) out s h size e (ground (arith, is_pointer_lem size byte))
    ∙ read_label_next ref (suc fuel) size out s e pos0 small long (ground (arith, lv, ls'))
    ∙ ap (λ (q : Spot). read_loop ref (suc fuel) q (with_label out s size)) e'
    ∙ ap (read_loop ref (suc fuel) (spot buf next at' hopped)) eo
    ∙ read_loop_next ref fuel (spot buf next at' hopped) (out ++ (value ++ (b'.' ∷ [])))
        (Spells-lt ref buf next 8 ls stop w)
    ∙ complete ref w fuel (out ++ (value ++ (b'.' ∷ []))) at' hopped br bb (ground arith)
        (omega (arith, lo, lo', lv)) (omega (arith, lv, ls', ap length ev))
    ∙ unfold dotted in ground (arith, dotted-append out value ls)
complete ref (pointer buf pos h hi lo offset ls stop end ehi big elo eo inside es w) fuel out at
      hopped br bb t fits enough =
    let bh = get_elem?-IsByte buf pos hi bb ehi in
    let bl = get_elem?-IsByte buf (pos + 1) lo bb elo in
    remaining-pointer ref h fuel out (spot buf pos at hopped) hi lo offset ehi
      (ground (arith, is_pointer_lem hi bh)) elo inside
      (ground (arith, getoffset_lem hi lo (length ref) h bh bl))
    ∙ complete ref w fuel out (if hopped then at else at + 2) true br br (inl refl) fits enough
    ∙ ground arith

-- Where a name with the labels `ls` stands at `at` of `in`, with at most eight pointers before each
-- label, and its text has at most 255 bytes, `readlabel` returns that text and where the name ends.
pub readlabel_complete :
    (ref inp : List ℕ) (at : ℕ) (ls : List (List ℕ)) (stop : ℕ)
    → AreBytes ref
    → AreBytes inp
    → Spells ref inp at 8 ls stop
    → length (dotted ls) ≤ 255
    → readlabel inp ref at ≡ done (stop, dotted ls)
unfolding readlabel
readlabel_complete ref inp at ls stop br bi w fits =
    let lt = Spells-lt ref inp at 8 ls stop w in
    let step = read_loop_next ref 128 (spot inp at at false) [] lt in
    let all = complete ref w 128 [] at false br bi (inr refl) (omega arith) (omega arith) in
    ground (arith, step, all)
