-- ===== src/Dns/Packet/Query.antt =====
-- `append_qsection` followed by `process_qsection`: the questions of a packet are read back.
use ambrosia.Prelude.{
  ℕ, ◌+◌, ◌-◌, ◌≤◌, ◌<◌, ◌≡◌, refl, sym, ap, subst, ◌∙◌, false, some, inl, inr, List, [], ◌∷◌, ◌++◌,
  append-nil, append_assoc, length, length-append, drop, ltb, if◌then◌else◌, Bool-cases, arith,
}
use ambrosia.Prelude.Bits.{AreBytes}
use ambrosia.Dns.Memory.{Outcome, done, error, fault, stuck, ◌>>=◌, >>=-eq-done}
use ambrosia.Dns.Label.{readlabel}
use ambrosia.Dns.Label.Spells.{Spells, dotted}
use ambrosia.Dns.Label.Laws.{Spells-append}
use ambrosia.Dns.Label.Shift.{Spells-drop, AreBytes-past}
use ambrosia.Dns.Label.Complete.{readlabel_complete}
use ambrosia.Dns.Name.Encode.{name_to_label_cases, wire}
use ambrosia.Dns.Compress.{Lookup, zeros, shorten, new_entries, writelabel}
use ambrosia.Dns.Compress.Write.{AreEntries-append, AreBytes-append}
use ambrosia.Dns.Compress.RoundTrip.{AreBytes-drop}
use ambrosia.Dns.Compress.Name.{IsBlock, Wrote, writelabel-Wrote}
use ambrosia.Dns.Wire.{net2short, short2net, net2short-short2net}
use ambrosia.Dns.Packet.{Question, question_at, process_section}
use ambrosia.Dns.Packet.Export.{append_question, append_qsection}

pub done-eq {ℓ} : {A : Type ℓ} (x y : A) → done x ≡ done y → x ≡ y
done-eq {A = A} x y e =
    ap (λ (m : Outcome A). elim m [ done z ↦ z | error ↦ x | fault ↦ x | stuck ↦ x ]) e

-- `writelabel` adds to the block and leaves what is there.
added :
    (block lbl : List ℕ) (left : ℕ) (lookup : Lookup) (p : List ℕ × Lookup)
    → (shorten (block ++ zeros left) lbl lookup (length lbl) 0 >>= λ out.
        (new_entries (length block) out (length out) 0 >>= λ entries.
        (if ltb left (length out) then error else done (block ++ out, lookup ++ entries))))
      ≡ done p
    → (out : List ℕ) × (p.0 ≡ block ++ out)
added block lbl left lookup p e =
    let (out, eo, e2) =
      >>=-eq-done (shorten (block ++ zeros left) lbl lookup (length lbl) 0)
        (λ out.
          (new_entries (length block) out (length out) 0 >>= λ entries.
          (if ltb left (length out) then error else done (block ++ out, lookup ++ entries))))
        e in
    let (entries, ee, e3) =
      >>=-eq-done (new_entries (length block) out (length out) 0)
        (λ entries.
          (if ltb left (length out) then error else done (block ++ out, lookup ++ entries)))
        e2 in
    elim (Bool-cases (ltb left (length out))) [
      | inl over ↦ absurd (ground arith)
      | inr there ↦
          let ep : p ≡ (block ++ out, lookup ++ entries) = ground arith in
          (out, ap (λ (x : List ℕ × Lookup). x.0) ep)
    ]

writelabel-append :
    (name block : List ℕ) (left : ℕ) (lookup : Lookup) (b' : List ℕ) (l' : Lookup)
    → writelabel name block left lookup ≡ done (b', l')
    → (out : List ℕ) × (b' ≡ block ++ out)
unfolding writelabel
writelabel-append name block left lookup b' l' e = elim (name_to_label_cases name) [
  | inl (bad, no_label) ↦ absurd (ground (arith, rw (no_label, writelabel) at e))
  | inr (ls, some_label, labels, en, written, fits) ↦
      added block (wire ls ++ (0 ∷ [])) left lookup (b', l') (rw (written, writelabel) at e)
]

-- A question that may stand in a packet.
abbrev pub Fitting : Question → Type 0
Fitting q = AreBytes q.qname × (q.qtype < 65536) × (q.qclass < 65536)

AreBytes-short2net : (v : ℕ) → AreBytes (short2net v)
unfolding short2net
AreBytes-short2net v = (omega arith, (omega arith, tt))

length-short2net : (v : ℕ) → length (short2net v) ≡ 2
unfolding short2net
length-short2net v = refl

-- The two numbers behind a name.
abbrev tail_of : Question → List ℕ
tail_of q = short2net q.qtype ++ short2net q.qclass

-- `question_at` on a name that spells and the two numbers behind it.
question_at-tail_of :
    (q : Question) (block named more : List ℕ) (ls : List (List ℕ))
    → AreBytes (named ++ (tail_of q ++ more))
    → q.qname ≡ dotted ls
    → length q.qname ≤ 254
    → Spells named named (length block) 8 ls (length named)
    → length block ≤ length named
    → q.qtype < 65536
    → q.qclass < 65536
    → question_at (named ++ (tail_of q ++ more)) (length block) ≡ done (q, length named + 4)
unfolding question_at short2net
question_at-tail_of q block named more ls bytes en short w grows ft fc =
    let buf = named ++ (tail_of q ++ more) in
    let o = length block in
    let whole : Spells buf buf o 8 ls (length named) =
      Spells-append named (tail_of q ++ more) (tail_of q ++ more) w in
    let part : Spells buf (drop o buf) 0 8 ls (length named - o) =
      Spells-drop buf o 0 (length named - o) whole (omega arith) (omega arith) in
    let found : readlabel (drop o buf) buf 0 ≡ done (length named - o, dotted ls) =
      readlabel_complete buf (drop o buf) 0 ls (length named - o) bytes (AreBytes-past o buf bytes)
        part (ground (arith, ap length en)) in
    let at : o + (length named - o) ≡ length named = omega arith in
    let long : ltb (length buf) (length named + 4) ≡ false =
      ground (arith, length-append named (tail_of q ++ more)) in
    let t : net2short buf (length named) ≡ done q.qtype =
      net2short-short2net q.qtype named (short2net q.qclass ++ more) (length named) refl ft in
    let c : net2short buf (length named + 2) ≡ done q.qclass =
      subst (λ (b : List ℕ). net2short b (length named + 2) ≡ done q.qclass)
        (append_assoc named (short2net q.qtype) (short2net q.qclass ++ more))
        (net2short-short2net q.qclass (named ++ short2net q.qtype) more (length named + 2)
          (omega (arith, length-append named (short2net q.qtype))) fc) in
    rw (found, at, long, t, c, en) refl

-- What adding questions promises: the block grows, stays good and within its size, and the questions
-- are read from it, whatever bytes come behind.
abbrev pub Reads : List Question → List ℕ → ℕ → List ℕ × Lookup → Type 0
Reads qs block size p =
    IsBlock p.0 p.1
    × ((ext : List ℕ) × (p.0 ≡ block ++ ext))
    × (length p.0 ≤ size)
    × ((more : List ℕ) (dest : List Question)
        → AreBytes more
        → process_section question_at (p.0 ++ more) (length qs) (length block) dest
          ≡ done (dest ++ qs, some (length p.0)))

-- The same of one question.
abbrev pub ReadsOne : Question → List ℕ → ℕ → List ℕ × Lookup → Type 0
ReadsOne q block size p =
    IsBlock p.0 p.1
    × ((ext : List ℕ) × (p.0 ≡ block ++ ext))
    × (length p.0 ≤ size)
    × ((more : List ℕ)
        → AreBytes more
        → question_at (p.0 ++ more) (length block) ≡ done (q, length p.0))

module _ (q : Question) (block : List ℕ) (size : ℕ) (fitting : Fitting q) where
  length-tail_of : (named : List ℕ) → length (named ++ tail_of q) ≡ length named + 4
  unfolding short2net
  length-tail_of named = length-append named (tail_of q)

  named-ReadsOne :
      (out : List ℕ) (known : Lookup)
      → Wrote q.qname block (size - length block) (block ++ out, known)
      → length (block ++ out) + 4 ≤ size
      → ReadsOne q block size ((block ++ out) ++ tail_of q, known)
  named-ReadsOne out known (ls, el, short, w, ok, fits) there =
      let named = block ++ out in
      let bytes : AreBytes (tail_of q) =
        AreBytes-append (short2net q.qtype) (short2net q.qclass) (AreBytes-short2net q.qtype)
          (AreBytes-short2net q.qclass) in
      (
        (
          AreBytes-append named (tail_of q) ok.0 bytes,
          AreEntries-append named (tail_of q) known ok.1,
        ),
        (out ++ tail_of q, append_assoc block out (tail_of q)),
        omega (arith, length-tail_of named),
        λ more bm.
            let all : AreBytes (named ++ (tail_of q ++ more)) =
              AreBytes-append named (tail_of q ++ more) ok.0
                (AreBytes-append (tail_of q) more bytes bm) in
            let found =
              question_at-tail_of q block named more ls all el short w
                (omega (arith, length-append block out)) fitting.1 fitting.2 in
            rw (append_assoc named (tail_of q) more, length-tail_of named) found,
      )

  pub append_question-ReadsOne :
      (lookup : Lookup) (p : List ℕ × Lookup)
      → IsBlock block lookup
      → length block ≤ size
      → size ≤ 16384
      → append_question q block size lookup ≡ done p
      → ReadsOne q block size p
  unfolding append_question
  append_question-ReadsOne lookup p ok inside room e =
      let left = size - length block in
      let ((named, known), en, e2) = >>=-eq-done _ _ e in
      let w =
        writelabel-Wrote q.qname block left lookup (named, known) ok fitting.0 (omega arith) en in
      let (out, eo) = writelabel-append q.qname block left lookup named known en in
      elim (Bool-cases (ltb size (length named + 4))) [
        | inl over ↦ absurd (ground (arith, rw over at e2))
        | inr there ↦
            let ep : (named ++ tail_of q, known) ≡ p = done-eq _ _ (rw there at e2) in
            subst (ReadsOne q block size) ep (
              subst (λ (b : List ℕ). ReadsOne q block size (b ++ tail_of q, known)) (sym eo)
                (named-ReadsOne out known
                  (subst (λ (b : List ℕ). Wrote q.qname block left (b, known)) eo w)
                  (ground (arith, ap length eo))))
      ]

abbrev pub AllFitting : List Question → Type 0
AllFitting [] = Unit
AllFitting (q ∷ qs) = Fitting q × AllFitting qs

-- `append_qsection` within 16384 bytes: what it promises holds when it succeeds.
pub append_qsection-Reads :
    (qs : List Question) (block : List ℕ) (size : ℕ) (lookup : Lookup) (p : List ℕ × Lookup)
    → AllFitting qs
    → IsBlock block lookup
    → length block ≤ size
    → size ≤ 16384
    → append_qsection qs block size lookup ≡ done p
    → Reads qs block size p
unfolding append_qsection process_section
append_qsection-Reads [] block size lookup p fit ok inside room e =
    subst (Reads [] block size) (done-eq _ _ e)
      (ok, ([], sym (append-nil block)), inside, λ more dest bm. rw (append-nil dest) refl)
append_qsection-Reads (q ∷ qs) block size lookup p fit ok inside room e =
    let ((next, known), e1, e2) = >>=-eq-done (append_question q block size lookup) _ e in
    let (ok1, (ext1, x1), in1, one) =
      append_question-ReadsOne q block size fit.0 lookup (next, known) ok inside room e1 in
    let (ok2, (ext2, x2), in2, rest) =
      append_qsection-Reads qs next size known p fit.1 ok1 in1 room e2 in
    (
      ok2,
      (ext1 ++ ext2, x2 ∙ ap (λ (b : List ℕ). b ++ ext2) x1 ∙ append_assoc block ext1 ext2),
      in2,
      λ more dest bm.
          let be : AreBytes ext2 = AreBytes-drop next ext2 (subst AreBytes x2 ok2.0) in
          let found = one (ext2 ++ more) (AreBytes-append ext2 more be bm) in
          let whole : p.0 ++ more ≡ next ++ (ext2 ++ more) =
            ap (λ (b : List ℕ). b ++ more) x2 ∙ append_assoc next ext2 more in
          let here : question_at (p.0 ++ more) (length block) ≡ done (q, length next) =
            rw whole found in
          rw (here, process_section) (rest more (dest ++ (q ∷ [])) bm ∙ rw append_assoc refl),
    )
