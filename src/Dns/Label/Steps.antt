-- ===== src/Dns/Label/Steps.antt =====
-- One step of `readlabel` at each kind of byte: a pointer, the root, a label.
use ambrosia.Prelude.{
  ℕ, zero, suc, ◌+◌, ◌*◌, ◌%◌, ◌≤◌, ◌<◌, ◌≡◌, refl, true, false, List, [], ◌∷◌, ◌++◌, length,
  get_elem?, leb, ltb, if◌then◌else◌, Bool-cases, arith, none, some, inl, inr, Option-cases,
}
use ambrosia.Prelude.Bits.{IsByte, AreBytes, bit_and_0x3f, bit_and_0xc0, bit_or-disjoint}
use ambrosia.Dns.Memory.{Outcome, done, ◌>>=◌, peek, slice, copy-done}
use ambrosia.Dns.Label.{Spot, getoffset, is_pointer, hop, follow, copy_label, read_label, read_loop}

pub get_elem?-IsByte : (buf : List ℕ) (i b : ℕ) → AreBytes buf → get_elem? buf i ≡ some b → IsByte b
get_elem?-IsByte [] i b h e = cc
get_elem?-IsByte (x ∷ xs) zero b h e = ground arith
get_elem?-IsByte (x ∷ xs) (suc i) b h e = get_elem?-IsByte xs i b h.1 e

pub get_elem?-lt {ℓ} :
    {A : Type ℓ} (xs : List A) (i : ℕ) (x : A) → get_elem? xs i ≡ some x → i < length xs
get_elem?-lt [] i x e = cc
get_elem?-lt (y ∷ xs) zero x e = omega arith
get_elem?-lt (y ∷ xs) (suc i) x e = omega (arith, get_elem?-lt xs i x e)

pub peek-eq : (buf : List ℕ) (i b : ℕ) → get_elem? buf i ≡ some b → peek buf i ≡ done b
peek-eq buf i b e = rw (e, peek)

-- The test of the inner loop, in arithmetic.
pub is_pointer_lem : (b : ℕ) → IsByte b → is_pointer b ≡ leb 64 b
is_pointer_lem b h = ground (arith, bit_and_0xc0 b h)

pub getoffset_lem :
    (hi lo refsize h : ℕ)
    → IsByte hi
    → IsByte lo
    → getoffset hi lo refsize (suc h)
      ≡ (if ltb (hi % 64 * 256 + lo) refsize then some (hi % 64 * 256 + lo) else none)
unfolding getoffset
getoffset_lem hi lo refsize h bh bl =
    rw (bit_and_0x3f hi bh, bit_or-disjoint 8 (hi % 64) lo bl) (ground arith)

-- What is left of `readlabel` at `s`, with `h` hops before the next label.
abbrev pub remaining : List ℕ → ℕ → ℕ → List ℕ → Spot → Outcome (ℕ × List ℕ)
remaining ref h fuel out s = follow ref h s >>= read_label (read_loop ref fuel) out

-- The state behind a pointer to `offset`.
abbrev pub jump : List ℕ → ℕ → Spot → Spot
jump ref offset s = record {
  buf = ref;
  label = offset;
  at = if s.hopped_yet then s.at else s.at + 2;
  hopped_yet = true;
}

-- A pointer that is all there and leads into `ref` is followed.
hop-done :
    (ref : List ℕ) (h : ℕ) (s : Spot) (hi lo offset : ℕ)
    → get_elem? s.buf (s.label + 1) ≡ some lo
    → offset < length ref
    → getoffset hi lo (length ref) h ≡ some offset
    → hop ref h s hi ≡ done (jump ref offset s)
unfolding hop
hop-done ref h s hi lo offset elo inside eo =
    ground (arith, get_elem?-lt s.buf (s.label + 1) lo elo)

-- Nothing but such a pointer is.
pub hop-eq-done :
    (ref : List ℕ) (h : ℕ) (s s' : Spot) (hi : ℕ)
    → hop ref h s hi ≡ done s'
    → (lo : ℕ) × (offset : ℕ) × (get_elem? s.buf (s.label + 1) ≡ some lo)
      × (getoffset hi lo (length ref) h ≡ some offset)
      × (s' ≡ jump ref offset s)
unfolding hop
hop-eq-done ref h s s' hi e = elim (Bool-cases (ltb (length s.buf) (s.label + 2))) [
  | inl short ↦ absurd (ground arith)
  | inr long ↦ elim (Option-cases (get_elem? s.buf (s.label + 1))) [
    | inl out ↦ absurd (ground arith)
    | inr (lo, elo) ↦ elim (Option-cases (getoffset hi lo (length ref) h)) [
      | inl bad ↦ absurd (ground arith)
      | inr (offset, eo) ↦ (lo, offset, elo, eo, ground arith)
    ]
  ]
]

module _ (ref : List ℕ) (h fuel : ℕ) (out : List ℕ) (s : Spot) where
  pub remaining-pointer :
      (hi lo offset : ℕ)
      → get_elem? s.buf s.label ≡ some hi
      → is_pointer hi ≡ true
      → get_elem? s.buf (s.label + 1) ≡ some lo
      → offset < length ref
      → getoffset hi lo (length ref) (suc h) ≡ some offset
      → remaining ref (suc h) fuel out s ≡ remaining ref h fuel out (jump ref offset s)
  unfolding follow
  remaining-pointer hi lo offset ehi ptr elo inside eo =
      rw (peek-eq s.buf s.label hi ehi, ptr, hop-done ref (suc h) s hi lo offset elo inside eo) refl

module _ (ref : List ℕ) (fuel : ℕ) (out : List ℕ) (s : Spot) where
  pub remaining-plain :
      (h b : ℕ)
      → get_elem? s.buf s.label ≡ some b
      → is_pointer b ≡ false
      → remaining ref h fuel out s ≡ read_label (read_loop ref fuel) out s
  unfolding follow
  remaining-plain zero b e plain = rw (peek-eq s.buf s.label b e, plain) refl
  remaining-plain (suc h) b e plain = rw (peek-eq s.buf s.label b e, plain) refl

  pub read_label-root :
      get_elem? s.buf s.label ≡ some 0
      → read_label (read_loop ref fuel) out s ≡ done (if s.hopped_yet then s.at else s.at + 1, out)
  unfolding read_label
  read_label-root e = rw (peek-eq s.buf s.label 0 e) refl

-- The state behind a label of `size` bytes.
abbrev pub past : Spot → ℕ → Spot
past s size = record s {
  label = s.label + size + 1;
  at = if s.hopped_yet then s.at else s.at + size + 1;
}

abbrev pub with_label : List ℕ → Spot → ℕ → List ℕ
with_label out s size = out ++ (slice s.buf (s.label + 1) size ++ (b'.' ∷ []))

module _ (ref : List ℕ) (fuel size : ℕ) (out : List ℕ) (s : Spot) where
  pub read_label_next :
      get_elem? s.buf s.label ≡ some size
      → 0 < size
      → size < 64
      → s.label + size + 1 ≤ length s.buf
      → length out + size + 1 ≤ 255
      → read_label (read_loop ref fuel) out s
        ≡ read_loop ref fuel (past s size) (with_label out s size)
  unfolding read_label copy_label
  read_label_next e pos small long fits =
      ground (arith, bit_and_0x3f size, copy-done s.buf (s.label + 1) size)
