-- ===== src/Dns/Compress/Match.antt =====
-- `matchlabel` ends, reads no byte outside its buffers, and finds only equal names.
use ambrosia.Prelude.{
  ℕ, zero, suc, ◌+◌, ◌-◌, ◌*◌, ◌≤◌, ◌<◌, ◌≡◌, inl, inr, Bool, true, false, ◌||◌, none, some, List,
  length, bit_and, ltb, ◌==◌, if◌then◌else◌, Bool-cases, Option-cases, arith,
}
use ambrosia.Dns.Memory.{Outcome, done, peek-done, Ensures, Ensures-bind}
use ambrosia.Dns.Label.{getoffset, is_pointer}
use ambrosia.Dns.Compress.{
  Cursor, size_at, advance, into, match_hop, same_bytes, match_labels, match_at, matchlabel,
  fuel_for, same_place,
}

abbrev Ends : Outcome Bool → Type 0
Ends = Ensures (λ _. Unit {0})

match_hop-Ends :
    (ref : List ℕ) (c : Cursor) (hi h : ℕ) (again : Cursor → Outcome Bool)
    → 0 < size_at c
    → ((offset : ℕ) → 0 < h → Ends (again (into ref offset)))
    → Ends (match_hop ref c hi h again)
unfolding match_hop
match_hop-Ends ref c hi h again some_left k = elim (Bool-cases (ltb (size_at c) 2)) [
  | inl short ↦ rw short tt
  | inr long ↦ let (lo, e) = peek-done c.buf (c.pos + 1) (ground arith) in rw (long, e) (target lo)
]
  where
    target :
        (lo : ℕ)
        → Ends (elim (getoffset hi lo (length ref) h) [
          | none ↦ done false
          | some offset ↦ again (into ref offset)
        ])
    target lo = elim (Bool-cases (h == 0)) [
      | inl used_up ↦ unfold getoffset in ground arith
      | inr more ↦ elim (Option-cases (getoffset hi lo (length ref) h)) [
        | inl bad ↦ rw bad tt
        | inr (offset, good) ↦ rw good (k offset (ground arith))
      ]
    ]

same_bytes-Ends :
    (a b : Cursor) (n rounds : ℕ)
    → n + rounds ≤ size_at a
    → n + rounds ≤ size_at b
    → Ends (same_bytes a b n rounds)
unfolding same_bytes
same_bytes-Ends a b n zero ha hb = tt
same_bytes-Ends a b n (suc rounds) ha hb =
    let (x, ex) = peek-done a.buf (a.pos + n) (omega arith) in
    let (y, ey) = peek-done b.buf (b.pos + n) (omega arith) in
    let rest = same_bytes-Ends a b (n + 1) rounds (omega arith) (omega arith) in
    rw (ex, ey) (elim (Bool-cases (x == y)) [ inl e ↦ rw e rest | inr e ↦ rw e tt ])

match_labels-Ends :
    (a b : Cursor) (x y : ℕ) (again : Cursor → Cursor → Outcome Bool)
    → ((n : ℕ) → 0 < n → n < size_at a → Ends (again (advance a n) (advance b n)))
    → Ends (match_labels a b x y again)
unfolding match_labels
match_labels-Ends a b x y again k = elim (Bool-cases (bit_and x 0x3f == bit_and y 0x3f)) [
  | inr differ ↦ rw differ tt
  | inl same_size ↦ elim (Bool-cases (bit_and x 0x3f == 0)) [
    | inl root ↦ rw (same_size, root) tt
    | inr more ↦ elim (Bool-cases (ltb (size_at a) (bit_and x 0x3f + 2))) [
      | inl short ↦ rw (same_size, more, short) tt
      | inr la ↦ elim (Bool-cases (ltb (size_at b) (bit_and y 0x3f + 2))) [
        | inl short ↦ rw (same_size, more, la, short) tt
        | inr lb ↦
            let e : bit_and x 0x3f ≡ bit_and y 0x3f = ground arith in
            rw (same_size, more, la, lb)
              (Ensures-bind (λ _. Unit {0}) (λ _. Unit {0}) (same_bytes a b 1 (bit_and x 0x3f)) _
                (same_bytes-Ends a b 1 (bit_and x 0x3f) (ground arith) (ground arith))
                (λ same _. go_on same (k (bit_and x 0x3f + 1) (omega arith) (ground arith)) e))
      ]
    ]
  ]
]
  where
    go_on :
        (same : Bool)
        → Ends (again (advance a (bit_and x 0x3f + 1)) (advance b (bit_and x 0x3f + 1)))
        → bit_and x 0x3f ≡ bit_and y 0x3f
        → Ends (
            if same
            then again (advance a (bit_and x 0x3f + 1)) (advance b (bit_and y 0x3f + 1))
            else done false)
    go_on true h e = rw (← e) h
    go_on false h e = tt

fuel_hop : (h k bound : ℕ) → 0 < h → (h - 1 + k) * (bound + 1) + (bound + 1) ≡ (h + k) * (bound + 1)
fuel_hop zero k bound p = absurd (omega arith)
fuel_hop (suc h) k bound p = let e : suc h - 1 ≡ h = omega arith in rw e (omega arith)

match_at-Ends :
    (ref : List ℕ) (bound fuel : ℕ) (a b : Cursor) (x y ha hb : ℕ)
    (again : Cursor → Cursor → ℕ → ℕ → Outcome Bool)
    → length ref ≤ bound
    → size_at a ≤ bound
    → fuel_for (ha + hb) bound (size_at a) < suc fuel
    → 0 < size_at a
    → 0 < size_at b
    → ((a' b' : Cursor) (ha' hb' : ℕ)
        → size_at a' ≤ bound
        → fuel_for (ha' + hb') bound (size_at a') < fuel
        → Ends (again a' b' ha' hb'))
    → Ends (match_at ref a b x y ha hb again)
unfolding match_at
match_at-Ends ref bound fuel a b x y ha hb again r s f pa pb k = elim (Bool-cases (is_pointer x)) [
  | inl ptr_a ↦ rw ptr_a (
      match_hop-Ends ref a x ha _ pa
        (λ o p. k (into ref o) b (ha - 1) hb (omega arith) (omega (arith, fuel_hop ha hb bound p))))
  | inr plain_a ↦ elim (Bool-cases (is_pointer y)) [
    | inl ptr_b ↦
        rw (plain_a, ptr_b)
          (match_hop-Ends ref b y hb _ pb
            (λ o p. k a (into ref o) ha (hb - 1) s (omega (arith, fuel_hop hb ha bound p))))
    | inr plain_b ↦
        rw (plain_a, plain_b)
          (match_labels-Ends a b x y _
            (λ n p q. k (advance a n) (advance b n) ha hb (omega arith) (omega arith)))
  ]
]

-- With fuel for the hops that are left, `matchlabel` ends, and reads no byte outside its buffers,
-- whatever these hold: a loop of pointers included.
pub matchlabel-Ends :
    (ref : List ℕ) (bound fuel : ℕ) (a b : Cursor) (ha hb : ℕ)
    → length ref ≤ bound
    → size_at a ≤ bound
    → fuel_for (ha + hb) bound (size_at a) < fuel
    → Ends (matchlabel ref fuel a b ha hb)
unfolding matchlabel
matchlabel-Ends ref bound zero a b ha hb r s f = absurd (omega arith)
matchlabel-Ends ref bound (suc fuel) a b ha hb r s f = elim (Bool-cases (same_place a b)) [
  | inl same ↦ rw same tt
  | inr apart ↦ elim (Bool-cases (ltb (size_at a) 1 || ltb (size_at b) 1)) [
    | inl over ↦ rw (apart, over) tt
    | inr within ↦
        let pa : 0 < size_at a = ground arith in
        let pb : 0 < size_at b = ground arith in
        let (x, ex) = peek-done a.buf (a.pos + 0) (omega arith) in
        let (y, ey) = peek-done b.buf (b.pos + 0) (omega arith) in
        rw (apart, within, ex, ey)
          (match_at-Ends ref bound fuel a b x y ha hb (matchlabel ref fuel) r s f pa pb
            (λ a' b' ha' hb' s' f'. matchlabel-Ends ref bound fuel a' b' ha' hb' r s' f'))
  ]
]
