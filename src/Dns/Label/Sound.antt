-- ===== src/Dns/Label/Sound.antt =====
-- What `readlabel` returns is a compressed name of its buffer.
use ambrosia.Prelude.{
  ℕ, zero, suc, ◌+◌, ◌≤◌, ◌<◌, ◌≡◌, refl, ◌⊎◌, inl, inr, true, false, List, [], ◌∷◌, ◌++◌, length,
  get_elem?, leb, ltb, if◌then◌else◌, Bool-cases, append-nil, arith, some, subst,
}
use ambrosia.Prelude.Bits.{IsByte, AreBytes, bit_and_0x3f}
use ambrosia.Dns.Memory.{done, slice, peek, ◌>>=◌, >>=-eq-done, peek-eq-done}
use ambrosia.Dns.Label.{
  Spot, getoffset, is_pointer, hop, follow, copy_label, read_label, read_loop, readlabel,
}
use ambrosia.Dns.Label.Spells.{Spells, root, label, pointer, dotted}
use ambrosia.Dns.Label.Steps.{
  jump, past, with_label, hop-eq-done, get_elem?-IsByte, is_pointer_lem, getoffset_lem,
}
use ambrosia.Dns.Label.Complete.{dotted-append}

-- A return at a plain byte: the root, or a label and a next round.
read_label-eq-done :
    (ref : List ℕ) (fuel : ℕ) (out : List ℕ) (s : Spot) (b : ℕ) (r : ℕ × List ℕ)
    → get_elem? s.buf s.label ≡ some b
    → IsByte b
    → is_pointer b ≡ false
    → read_label (read_loop ref fuel) out s ≡ done r
    → ((b ≡ 0) × (r ≡ (if s.hopped_yet then s.at else s.at + 1, out)))
      ⊎ ((0 < b)
          × (b < 64)
          × (s.label + b + 1 ≤ length s.buf)
          × (read_loop ref fuel (past s b) (with_label out s b) ≡ done r))
unfolding read_label copy_label
read_label-eq-done ref fuel out s b r e byte plain h =
    ground (arith, bit_and_0x3f b byte, is_pointer_lem b byte)

-- The inner loop gave `s'`: at `s` the byte is plain, or a pointer that was followed.
follow-zero-eq-done :
    (ref : List ℕ) (s s' : Spot)
    → follow ref 0 s ≡ done s'
    → (b : ℕ) × (get_elem? s.buf s.label ≡ some b) × (is_pointer b ≡ false) × (s' ≡ s)
unfolding follow
follow-zero-eq-done ref s s' e =
    let (b, eb, rest) = >>=-eq-done (peek s.buf s.label) _ e in
    elim (Bool-cases (is_pointer b)) [
      | inl ptr ↦
          let hopped : hop ref 0 s b ≡ done s' = rw ptr at rest in
          let (lo, offset, elo, eo, es) = hop-eq-done ref 0 s s' b hopped in
          unfold getoffset in absurd (ground (arith, eo))
      | inr plain ↦
          let same : done s ≡ done s' = rw plain at rest in
          (b, peek-eq-done s.buf s.label b eb, plain, ground arith)
    ]

follow-eq-done :
    (ref : List ℕ) (h : ℕ) (s s' : Spot)
    → follow ref (suc h) s ≡ done s'
    → (b : ℕ) × (get_elem? s.buf s.label ≡ some b)
      × (((is_pointer b ≡ false) × (s' ≡ s))
          ⊎ ((is_pointer b ≡ true)
              × ((lo : ℕ) × (offset : ℕ) × (get_elem? s.buf (s.label + 1) ≡ some lo)
                  × (getoffset b lo (length ref) (suc h) ≡ some offset)
                  × (follow ref h (jump ref offset s) ≡ done s'))))
unfolding follow
follow-eq-done ref h s s' e =
    let (b, eb, rest) = >>=-eq-done (peek s.buf s.label) _ e in
    elim (Bool-cases (is_pointer b)) [
      | inl ptr ↦
          let hopped : (hop ref (suc h) s b >>= λ q. follow ref h q) ≡ done s' = rw ptr at rest in
          let (q, eq, on) = >>=-eq-done (hop ref (suc h) s b) _ hopped in
          let (lo, offset, elo, eo, es) = hop-eq-done ref (suc h) s q b eq in
          (
            b,
            peek-eq-done s.buf s.label b eb,
            inr (ptr, (lo, offset, elo, eo, subst (λ (p : Spot). follow ref h p ≡ done s') es on)),
          )
      | inr plain ↦
          let same : done s ≡ done s' = rw plain at rest in
          (b, peek-eq-done s.buf s.label b eb, inl (plain, ground arith))
    ]

abbrev Placed : Spot → Type 0
Placed s = AreBytes s.buf × ((s.hopped_yet ≡ true) ⊎ (s.at ≡ s.label))

-- The result `r` is a name that stands at `s`, behind what is in `out`.
abbrev Reads : List ℕ → ℕ → List ℕ → Spot → ℕ × List ℕ → Type 0
Reads ref h out s r =
    (ls : List (List ℕ)) × (stop : ℕ) × Spells ref s.buf s.label h ls stop
    × (r ≡ (if s.hopped_yet then s.at else stop, out ++ dotted ls))

module _ (ref : List ℕ) (bytes : AreBytes ref) where
  module _ (fuel : ℕ)
      (again : (out : List ℕ) (s : Spot) (r : ℕ × List ℕ)
        → Placed s
        → read_loop ref fuel s out ≡ done r
        → Reads ref 8 out s r) where
    plain_sound :
        (h : ℕ) (out : List ℕ) (s : Spot) (b : ℕ) (r : ℕ × List ℕ)
        → Placed s
        → get_elem? s.buf s.label ≡ some b
        → is_pointer b ≡ false
        → read_label (read_loop ref fuel) out s ≡ done r
        → Reads ref h out s r
    plain_sound h out s b r ok e plain i =
        let byte = get_elem?-IsByte s.buf s.label b ok.0 e in
        elim (read_label-eq-done ref fuel out s b r e byte plain i) [
          | inl (zero?, er) ↦ (
            [],
            s.label + 1,
            root s.buf s.label h (s.label + 1) (ground arith) refl,
            unfold dotted in ground (arith, append-nil out),
          )
          | inr (pos, small, long, rest) ↦
              let (ls, stop, w, er) =
                again (with_label out s b) (past s b) r (ok.0, ground arith) rest in
              (
                slice s.buf (s.label + 1) b ∷ ls,
                stop,
                label s.buf s.label h b (s.label + b + 1) _ ls stop e pos small long refl refl w,
                ground (arith, dotted-append out (slice s.buf (s.label + 1) b) ls),
              )
        ]

    follow_sound :
        (h : ℕ) (out : List ℕ) (s s' : Spot) (r : ℕ × List ℕ)
        → Placed s
        → follow ref h s ≡ done s'
        → read_label (read_loop ref fuel) out s' ≡ done r
        → Reads ref h out s r
    follow_sound zero out s s' r ok f i =
        let (b, e, plain, es) = follow-zero-eq-done ref s s' f in
        plain_sound 0 out s b r ok e plain
          (subst (λ (q : Spot). read_label (read_loop ref fuel) out q ≡ done r) es i)
    follow_sound (suc h) out s s' r ok f i =
        let (b, e, cases) = follow-eq-done ref h s s' f in
        elim cases [
          | inl (plain, es) ↦
              plain_sound (suc h) out s b r ok e plain
                (subst (λ (q : Spot). read_label (read_loop ref fuel) out q ≡ done r) es i)
          | inr (ptr, (lo, offset, elo, eo, on)) ↦
              let bh = get_elem?-IsByte s.buf s.label b ok.0 e in
              let bl = get_elem?-IsByte s.buf (s.label + 1) lo ok.0 elo in
              let fact = getoffset_lem b lo (length ref) h bh bl in
              let (ls, stop, w, er) =
                follow_sound h out (jump ref offset s) s' r (bytes, inl refl) on i in
              (
                ls,
                s.label + 2,
                pointer s.buf s.label h b lo offset ls (s.label + 2) stop e
                    (ground (arith, is_pointer_lem b bh)) elo (ground (arith, fact))
                    (ground (arith, fact)) refl w,
                ground arith,
              )
        ]

  loop_sound :
      (fuel : ℕ) (out : List ℕ) (s : Spot) (r : ℕ × List ℕ)
      → Placed s
      → read_loop ref fuel s out ≡ done r
      → Reads ref 8 out s r
  unfolding read_loop
  loop_sound zero out s r ok e = cc
  loop_sound (suc fuel) out s r ok e = elim (Bool-cases (ltb (length s.buf) (s.label + 1))) [
    | inl over ↦ absurd (ground arith)
    | inr within ↦
        let e' : (follow ref 8 s >>= read_label (read_loop ref fuel) out) ≡ done r =
          rw within at e in
        let (s', f, i) = >>=-eq-done (follow ref 8 s) _ e' in
        follow_sound fuel (loop_sound fuel) 8 out s s' r ok f i
  ]

-- What `readlabel` returns is the text of a name that stands at `at` of `in`, no more than eight
-- pointers before each label, and the new `at` is where that name ends.
pub readlabel_sound :
    (ref inp : List ℕ) (at stop : ℕ) (name : List ℕ)
    → AreBytes ref
    → AreBytes inp
    → readlabel inp ref at ≡ done (stop, name)
    → (ls : List (List ℕ)) × Spells ref inp at 8 ls stop × (name ≡ dotted ls)
unfolding readlabel
readlabel_sound ref inp at stop name br bi e = elim (Bool-cases (leb (length inp) at)) [
  | inl over ↦ absurd (ground arith)
  | inr within ↦
      let (ls, stop', w, er) =
        loop_sound ref br 129 [] _ (stop, name) (bi, inr refl) (rw within at e) in
      (ls, ground arith, ground arith)
]
