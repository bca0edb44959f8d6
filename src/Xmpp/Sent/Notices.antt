-- ===== src/Xmpp/Sent/Notices.antt =====
-- Reports of sent bytes may come in any portions, and all items are reported in the end.
use ambrosia.Prelude.{
  append-nil, append_assoc, ℕ, ◌+◌, ◌-◌, ◌≡◌, ◌∙◌, refl, sym, ap, ltb, true, false, List, [], ◌∷◌,
  ◌++◌, map, Bool-cases, inl, inr, arith,
}
use ambrosia.Xmpp.Sent.{
  TrackType, raw, close, custom, TrackItem, Protocol, item_sent, sent_loop, outgoing_data_written,
}

-- All but the sizes that `itemWritten` was given.
abbrev pub bare : Protocol → Protocol
bare s = record s { items_written = map (λ (p : ℕ × ℕ). (p.0, 0)) s.items_written }

map-append : {A B : Type 0} (f : A → B) (xs ys : List A) → map f (xs ++ ys) ≡ map f xs ++ map f ys
map-append f [] ys = refl
map-append f (x ∷ xs) ys = ap (◌∷◌ (f x)) (map-append f xs ys)

by_type :
    (t : TrackType) (id size : ℕ) (s : Protocol)
    → bare (item_sent (record { type = t; id = id; size = size }) s)
      ≡ item_sent (record { type = t; id = id; size = 0 }) (bare s)
by_type raw id size s = refl
by_type close id size s = refl
by_type custom id size s =
    ap (λ (xs : List (ℕ × ℕ)). record s { items_written = xs })
      (map-append {A = ℕ × ℕ} {B = ℕ × ℕ} (λ (p : ℕ × ℕ). (p.0, 0)) s.items_written
        ((id, size) ∷ []))

item_sent-bare :
    (i j : TrackItem) (s r : Protocol)
    → i.type ≡ j.type
    → i.id ≡ j.id
    → bare s ≡ bare r
    → bare (item_sent i s) ≡ bare (item_sent j r)
item_sent-bare i j s r t n e =
    by_type i.type i.id i.size s
    ∙ ap (λ (k : TrackType). item_sent (record { type = k; id = i.id; size = 0 }) (bare s)) t
    ∙ ap (λ (k : ℕ). item_sent (record { type = j.type; id = k; size = 0 }) (bare s)) n
    ∙ ap (item_sent (record { type = j.type; id = j.id; size = 0 })) e
    ∙ sym (by_type j.type j.id j.size r)

sent_loop-bare :
    (n : ℕ) (is : List TrackItem) (s r : Protocol)
    → bare s ≡ bare r
    → bare (sent_loop n is s) ≡ bare (sent_loop n is r)
sent_loop-bare n [] s r e = ap (λ (q : Protocol). record q { track_queue = [] }) e
sent_loop-bare n (i ∷ is) s r e =
    let erased : Protocol → Protocol = λ q. record q { track_queue = is } in
    elim (Bool-cases (ltb n i.size)) [
      | inl less ↦
          let left = record i { size = i.size - n } ∷ is in
          rw less (ap (λ (q : Protocol). record q { track_queue = left }) e)
      | inr more ↦ rw more (
          sent_loop-bare (n - i.size) is (item_sent i (erased s)) (item_sent i (erased r))
            (item_sent-bare i i (erased s) (erased r) refl refl (ap erased e)))
    ]

sent_loop-add :
    (a b : ℕ) (is : List TrackItem) (s : Protocol)
    → bare (sent_loop (a + b) is s) ≡ bare (outgoing_data_written b (sent_loop a is s))
unfolding outgoing_data_written
sent_loop-add a b [] s = refl
sent_loop-add a b (i ∷ is) s = elim (Bool-cases (ltb a i.size)) [
  | inl less ↦ elim (Bool-cases (ltb (a + b) i.size)) [
    | inl still ↦
        let later : ltb b (i.size - a) ≡ true = ground arith in
        let e : i.size - (a + b) ≡ (i.size - a) - b = omega arith in rw (less, still, later, e) refl
    | inr passed ↦
        let later : ltb b (i.size - a) ≡ false = ground arith in
        let e : (a + b) - i.size ≡ b - (i.size - a) = ground arith in
        let left = record i { size = i.size - a } in
        let queued = record s { track_queue = left ∷ is } in
        let erased : Protocol → Protocol = λ q. record q { track_queue = is } in
        rw (less, passed, later, e)
          (sent_loop-bare (b - (i.size - a)) is (item_sent i (erased s))
            (item_sent left (erased queued))
            (item_sent-bare i left (erased s) (erased queued) refl refl refl))
  ]
  | inr more ↦
      let e : (a + b) - i.size ≡ (a - i.size) + b = ground arith in
      let both_more : ltb (a + b) i.size ≡ false = ground arith in
      rw (more, both_more, e)
        (sent_loop-add (a - i.size) b is (item_sent i (record s { track_queue = is })))
]

-- Reports of `a` and then of `b` sent bytes leave the queue, the data, the close mark and the
-- ids that itemWritten was called with as one report of both; the sizes it was called with may
-- differ.
pub outgoing_data_written-add :
    (a b : ℕ) (s : Protocol)
    → bare (outgoing_data_written (a + b) s)
      ≡ bare (outgoing_data_written b (outgoing_data_written a s))
unfolding outgoing_data_written
outgoing_data_written-add a b s = sent_loop-add a b s.track_queue s

-- The bytes that were queued and not yet reported.
abbrev pub queued : List TrackItem → ℕ
queued [] = 0
queued (i ∷ is) = i.size + queued is

-- What `itemWritten` is told of whole items.
abbrev pub notices : List TrackItem → List (ℕ × ℕ)
notices [] = []
notices (i ∷ is) = elim i.type [ custom ↦ (i.id, i.size) ∷ notices is | _ ↦ notices is ]

notice_by :
    (t : TrackType) (id size : ℕ) (is : List TrackItem) (s : Protocol)
    → (item_sent (record { type = t; id = id; size = size }) s).items_written ++ notices is
      ≡ s.items_written ++ notices (record { type = t; id = id; size = size } ∷ is)
notice_by raw id size is s = refl
notice_by close id size is s = refl
notice_by custom id size is s = append_assoc s.items_written ((id, size) ∷ []) (notices is)

sent_all :
    (is : List TrackItem) (s : Protocol)
    → ((sent_loop (queued is) is s).track_queue ≡ [])
      × ((sent_loop (queued is) is s).items_written ≡ s.items_written ++ notices is)
sent_all [] s = (refl, sym (append-nil s.items_written))
sent_all (i ∷ is) s =
    let erased = record s { track_queue = is } in
    let all : ltb (i.size + queued is) i.size ≡ false = ground arith in
    let rest : (i.size + queued is) - i.size ≡ queued is = omega arith in
    let (empty, told) = sent_all is (item_sent i erased) in
    rw (all, rest) (empty, told ∙ notice_by i.type i.id i.size is erased)

-- When all queued bytes are reported at once, the queue is empty, and itemWritten was called for
-- each custom item in order, with its size.
pub outgoing_data_written-queued :
    (s : Protocol)
    → ((outgoing_data_written (queued s.track_queue) s).track_queue ≡ [])
      × ((outgoing_data_written (queued s.track_queue) s).items_written
          ≡ s.items_written ++ notices s.track_queue)
unfolding outgoing_data_written
outgoing_data_written-queued s = sent_all s.track_queue s
