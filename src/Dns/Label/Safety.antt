-- ===== src/Dns/Label/Safety.antt =====
-- `readlabel` on any input: it reads no byte outside its buffers, it ends, and it stays in bounds.
use ambrosia.Prelude.{
  ℕ, zero, suc, ◌+◌, ◌*◌, ◌≤◌, ◌<◌, ◌≡◌, refl, ◌⊎◌, inl, inr, true, false, List, [], ◌∷◌, ◌++◌,
  length, length-append, length-take, length-drop, drop, leb, ltb, ◌==◌, Bool-cases, Option-cases,
  arith, bit_and,
}
use ambrosia.Dns.Memory.{Outcome, slice, Ensures, Ensures-bind, peek-done, copy-done}
use ambrosia.Dns.Label.{
  Spot, getoffset, is_pointer, hop, follow, copy_label, read_label, read_loop, readlabel,
}

-- Before the first hop the loop walks through `in`, and `at` follows it; after it `at` stays behind
-- the first pointer.
abbrev Tracks : List ℕ → ℕ → Spot → Type 0
Tracks inp start s =
    ((s.hopped_yet ≡ true) × (start < s.at) × (s.at ≤ length inp))
    ⊎ ((s.hopped_yet ≡ false) × (s.buf ≡ inp) × (s.label ≡ s.at) × (start ≤ s.at))

abbrev AtByte : List ℕ → ℕ → Spot → Type 0
AtByte inp start s = Tracks inp start s × (s.label < length s.buf)

hop-Ensures :
    (inp ref : List ℕ) (start h : ℕ) (s : Spot) (hi : ℕ)
    → Tracks inp start s
    → Ensures (AtByte inp start) (hop ref h s hi)
unfolding hop
hop-Ensures inp ref start h s hi t = elim (Bool-cases (ltb (length s.buf) (s.label + 2))) [
  | inl short ↦ rw short tt
  | inr long ↦
      let (lo, e) = peek-done s.buf (s.label + 1) (ground arith) in
      elim (Option-cases (getoffset hi lo (length ref) h)) [
        | inl bad ↦ ground (arith, e, bad)
        | inr (offset, good) ↦ ground (arith, e, good)
      ]
]

follow-Ensures :
    (inp ref : List ℕ) (start h : ℕ) (s : Spot)
    → AtByte inp start s
    → Ensures (AtByte inp start) (follow ref h s)
unfolding follow
follow-Ensures inp ref start zero s (t, lt) =
    let (b, e) = peek-done s.buf s.label lt in
    let p = hop-Ensures inp ref start 0 s b t in
    elim (Bool-cases (is_pointer b)) [ inl ptr ↦ rw (e, ptr) p | inr plain ↦ rw (e, plain) (t, lt) ]
follow-Ensures inp ref start (suc h) s (t, lt) =
    let (b, e) = peek-done s.buf s.label lt in
    elim (Bool-cases (is_pointer b)) [
      | inl ptr ↦
          rw (e, ptr)
            (Ensures-bind (AtByte inp start) (AtByte inp start) (hop ref (suc h) s b) (follow ref h)
              (hop-Ensures inp ref start (suc h) s b t)
              (λ s' q. follow-Ensures inp ref start h s' q))
      | inr plain ↦ rw (e, plain) (t, lt)
    ]

abbrev Longer : List ℕ → ℕ → List ℕ → Spot × List ℕ → Type 0
Longer inp start out p = Tracks inp start p.0 × (length out + 2 ≤ length p.1) × (length p.1 ≤ 255)

copy_label-Ensures :
    (inp : List ℕ) (start : ℕ) (s : Spot) (size : ℕ) (out : List ℕ)
    → Tracks inp start s
    → 0 < size
    → Ensures (Longer inp start out) (copy_label s size out)
unfolding copy_label
copy_label-Ensures inp start s size out t pos = ground (
  arith,
  copy-done s.buf (s.label + 1) size,
  length-append out (slice s.buf (s.label + 1) size ++ (b'.' ∷ [])),
  length-append (slice s.buf (s.label + 1) size) (b'.' ∷ []),
  length-take size (drop (s.label + 1) s.buf),
  length-drop (s.label + 1) s.buf,
)

-- `at` is behind the start and in the buffer, and the name fits the 255 bytes of `out`.
abbrev pub InBounds : List ℕ → ℕ → ℕ × List ℕ → Type 0
InBounds inp start p = (start < p.0) × (p.0 ≤ length inp) × (length p.1 ≤ 255)

read_label-Ensures :
    (inp : List ℕ) (start : ℕ) (again : Spot → List ℕ → Outcome (ℕ × List ℕ)) (out : List ℕ)
    (s : Spot)
    → ((s' : Spot) (out' : List ℕ)
        → Longer inp start out (s', out')
        → Ensures (InBounds inp start) (again s' out'))
    → length out ≤ 255
    → AtByte inp start s
    → Ensures (InBounds inp start) (read_label again out s)
unfolding read_label
read_label-Ensures inp start again out s k short (t, lt) =
    let (b, e) = peek-done s.buf s.label lt in
    elim (Bool-cases (bit_and b 0x3f == 0)) [
      | inl root ↦ rw (e, root) (ground arith)
      | inr more ↦
          rw (e, more)
            (Ensures-bind (Longer inp start out) (InBounds inp start)
              (copy_label s (bit_and b 0x3f) out) (λ p. again p.0 p.1)
              (copy_label-Ensures inp start s (bit_and b 0x3f) out t (ground arith))
              (λ p l. k p.0 p.1 l))
    ]

read_loop-Ensures :
    (inp ref : List ℕ) (start fuel : ℕ) (s : Spot) (out : List ℕ)
    → Tracks inp start s
    → length out ≤ 255
    → 257 ≤ length out + 2 * fuel
    → Ensures (InBounds inp start) (read_loop ref fuel s out)
unfolding read_loop
read_loop-Ensures inp ref start zero s out t short enough = absurd (omega arith)
read_loop-Ensures inp ref start (suc fuel) s out t short enough =
    elim (Bool-cases (ltb (length s.buf) (s.label + 1))) [
      | inl over ↦ rw over tt
      | inr within ↦ rw within (
          Ensures-bind (AtByte inp start) (InBounds inp start) (follow ref 8 s) _
            (follow-Ensures inp ref start 8 s (t, ground arith))
            (λ s' a.
              read_label-Ensures inp start (read_loop ref fuel) out s'
                (λ s'' out' l. read_loop-Ensures inp ref start fuel s'' out' l.0 l.2 (omega arith))
                short a))
    ]

-- `readlabel` gives a value or fails by itself on every input: it reads no byte outside `in` and
-- `ref`, and its loops end. On a value, `at` has moved forward and not past the end of `in`, and the
-- name has at most 255 bytes.
pub readlabel-Ensures :
    (inp ref : List ℕ) (at : ℕ) → Ensures (InBounds inp at) (readlabel inp ref at)
unfolding readlabel
readlabel-Ensures inp ref at = elim (Bool-cases (leb (length inp) at)) [
  | inl e ↦ rw e tt
  | inr e ↦ rw e (
      read_loop-Ensures inp ref at _ _ [] (inr (refl, refl, refl, omega arith)) (omega arith)
        (omega arith))
]
