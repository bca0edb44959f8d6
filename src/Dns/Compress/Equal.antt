-- ===== src/Dns/Compress/Equal.antt =====
-- `matchlabel` finds only equal names.
use ambrosia.Prelude.{
  ℕ, zero, suc, ◌+◌, ◌-◌, ◌*◌, ◌%◌, ◌≤◌, ◌<◌, ◌≡◌, refl, sym, ◌∙◌, subst, ◌⊎◌, inl, inr, Bool, true,
  false, ◌||◌, none, some, List, [], ◌∷◌, length, get_elem?, take, drop, bit_and, ltb, ◌==◌,
  if◌then◌else◌, Bool-cases, Option-cases, arith,
}
use ambrosia.Prelude.Bits.{IsByte, AreBytes, bit_and_0x3f}
use ambrosia.Dns.Memory.{Outcome, done, ◌>>=◌, >>=-eq-done, peek-eq-done, slice}
use ambrosia.Dns.Label.{getoffset, is_pointer}
use ambrosia.Dns.Label.Spells.{Spells}
use ambrosia.Dns.Label.Laws.{Spells-at_pointer, Spells-at_plain, Spells-unique}
use ambrosia.Dns.Label.Steps.{get_elem?-IsByte, is_pointer_lem, getoffset_lem}
use ambrosia.Dns.Compress.{
  Cursor, size_at, byte_at, advance, into, match_hop, same_bytes, match_labels, match_at,
  matchlabel, same_place,
}

-- The name at a cursor.
abbrev pub SpellsAt : List ℕ → Cursor → List (List ℕ) → Type 0
SpellsAt ref c ls = (h : ℕ) × (stop : ℕ) × Spells ref c.buf c.pos h ls stop

abbrev pub IsCursor : List ℕ → Cursor → Type 0
IsCursor ref c = AreBytes c.buf × ((c.in_ref ≡ true) → c.buf ≡ ref)

take-drop-suc :
    (buf : List ℕ) (i n x : ℕ)
    → get_elem? buf i ≡ some x
    → take (suc n) (drop i buf) ≡ x ∷ take n (drop (suc i) buf)
take-drop-suc [] i n x e = cc
take-drop-suc (y ∷ buf) zero n x e = ground arith
take-drop-suc (y ∷ buf) (suc i) n x e = take-drop-suc buf i n x e

same_bytes-slice :
    (a b : Cursor) (n rounds : ℕ)
    → same_bytes a b n rounds ≡ done true
    → slice a.buf (a.pos + n) rounds ≡ slice b.buf (b.pos + n) rounds
unfolding same_bytes
same_bytes-slice a b n zero h = refl
same_bytes-slice a b n (suc rounds) h =
    let (x, ex, h') = >>=-eq-done (byte_at a n) _ h in
    let (y, ey, h'') = >>=-eq-done (byte_at b n) _ h' in
    elim (Bool-cases (x == y)) [
      | inl e ↦
          let rest = same_bytes-slice a b (n + 1) rounds (rw e at h'') in
          let ia : a.pos + (n + 1) ≡ suc (a.pos + n) = omega arith in
          let ib : b.pos + (n + 1) ≡ suc (b.pos + n) = omega arith in
          let rest' : take rounds (drop (suc (a.pos + n)) a.buf)
              ≡ take rounds (drop (suc (b.pos + n)) b.buf) =
            rw (ia, ib) at rest in
          take-drop-suc a.buf (a.pos + n) rounds x (peek-eq-done a.buf (a.pos + n) x ex)
          ∙ ground arith
          ∙ sym (take-drop-suc b.buf (b.pos + n) rounds y (peek-eq-done b.buf (b.pos + n) y ey))
      | inr e ↦ absurd (ground arith)
    ]

getoffset-eq-some :
    (hi lo refsize h offset : ℕ)
    → IsByte hi
    → IsByte lo
    → getoffset hi lo refsize h ≡ some offset
    → offset ≡ hi % 64 * 256 + lo
getoffset-eq-some hi lo refsize zero offset bh bl e = unfold getoffset in absurd (ground arith)
getoffset-eq-some hi lo refsize (suc h) offset bh bl e =
    ground (arith, getoffset_lem hi lo refsize h bh bl)

-- A match through a pointer is a match with what stands there.
match_hop-true :
    (ref : List ℕ) (c : Cursor) (hi h : ℕ) (again : Cursor → Outcome Bool) (ls : List (List ℕ))
    → IsCursor ref c
    → get_elem? c.buf c.pos ≡ some hi
    → is_pointer hi ≡ true
    → SpellsAt ref c ls
    → match_hop ref c hi h again ≡ done true
    → (offset : ℕ) × SpellsAt ref (into ref offset) ls × (again (into ref offset) ≡ done true)
unfolding match_hop
match_hop-true ref c hi h again ls ok e ptr (k, stop, w) m = elim (Bool-cases (ltb (size_at c) 2)) [
  | inl short ↦ absurd (ground arith)
  | inr long ↦
      let m1 : (byte_at c 1 >>= λ lo. elim (getoffset hi lo (length ref) h) [
        | none ↦ done false
        | some offset ↦ again (into ref offset)
      ])
          ≡ done true =
        rw long at m in
      let (lo, el, m2) = >>=-eq-done (byte_at c 1) _ m1 in
      let el' = peek-eq-done c.buf (c.pos + 1) lo el in
      let bh = get_elem?-IsByte c.buf c.pos hi ok.0 e in
      let bl = get_elem?-IsByte c.buf (c.pos + 1) lo ok.0 el' in
      elim (Option-cases (getoffset hi lo (length ref) h)) [
        | inl bad ↦ absurd (ground arith)
        | inr (offset, good) ↦
            let big : 64 ≤ hi = ground (arith, is_pointer_lem hi bh) in
            let (k', end, w') = Spells-at_pointer ref hi lo w e big el' in
            let same = sym (getoffset-eq-some hi lo (length ref) h offset bh bl good) in
            (offset, (k', end, subst (λ (q : ℕ). Spells ref ref q k' ls end) same w'), ground arith)
      ]
]

match_labels-true :
    (a b : Cursor) (x y : ℕ) (again : Cursor → Cursor → Outcome Bool)
    → x < 64
    → y < 64
    → match_labels a b x y again ≡ done true
    → (x ≡ y)
      × ((x ≡ 0)
          ⊎ ((0 < x)
              × (same_bytes a b 1 x ≡ done true)
              × (again (advance a (x + 1)) (advance b (x + 1)) ≡ done true)))
unfolding match_labels
match_labels-true a b x y again sx sy m =
    let ex : bit_and x 0x3f ≡ x = omega (arith, bit_and_0x3f x (omega arith)) in
    let ey : bit_and y 0x3f ≡ y = omega (arith, bit_and_0x3f y (omega arith)) in
    let m' = rw (ex, ey) at m in
    elim (Bool-cases (x == y)) [
      | inr differ ↦ absurd (ground arith)
      | inl e ↦ elim (Bool-cases (x == 0)) [
        | inl root ↦ (ground arith, inl (ground arith))
        | inr more ↦ elim (Bool-cases (ltb (size_at a) (x + 2))) [
          | inl short ↦ absurd (ground arith)
          | inr la ↦ elim (Bool-cases (ltb (size_at b) (y + 2))) [
            | inl short ↦ absurd (ground arith)
            | inr lb ↦ (
              ground arith,
              inr (
                ground arith,
                same (rw (e, more, la, lb) at m'),
                next (ground arith) (rw (e, more, la, lb) at m'),
              ),
            )
          ]
        ]
      ]
    ]
  where
    Rest : Outcome Bool → Type 0
    Rest o =
        (o >>= λ s. if s then again (advance a (x + 1)) (advance b (y + 1)) else done false)
        ≡ done true

    same : Rest (same_bytes a b 1 x) → same_bytes a b 1 x ≡ done true
    same r = ground arith

    next :
        x ≡ y
        → Rest (same_bytes a b 1 x)
        → again (advance a (x + 1)) (advance b (x + 1)) ≡ done true
    next e r = ground arith

-- What a match means for two cursors.
abbrev Equal : List ℕ → Cursor → Cursor → Type 0
Equal ref a b = (ls ls' : List (List ℕ)) → SpellsAt ref a ls → SpellsAt ref b ls' → ls ≡ ls'

abbrev Finds : List ℕ → (Cursor → Cursor → ℕ → ℕ → Outcome Bool) → Type 0
Finds ref again =
    (a b : Cursor) (ha hb : ℕ)
    → IsCursor ref a
    → IsCursor ref b
    → again a b ha hb ≡ done true
    → Equal ref a b

match_labels-Equal :
    (ref : List ℕ) (a b : Cursor) (x y : ℕ) (again : Cursor → Cursor → Outcome Bool)
    → ((n : ℕ)
        → again (advance a n) (advance b n) ≡ done true
        → Equal ref (advance a n) (advance b n))
    → x < 64
    → y < 64
    → get_elem? a.buf a.pos ≡ some x
    → get_elem? b.buf b.pos ≡ some y
    → match_labels a b x y again ≡ done true
    → Equal ref a b
match_labels-Equal ref a b x y again find sx sy ex ey m ls ls' (k, stop, wa) (k', stop', wb) =
    let (e, cases) = match_labels-true a b x y again sx sy m in
    let ey' : get_elem? b.buf b.pos ≡ some x = ground arith in
    elim (Spells-at_plain ref x wa ex sx) [
      | inl (zero?, ea) ↦ elim (Spells-at_plain ref x wb ey' sx) [
        | inl (_, eb) ↦ ea ∙ sym eb
        | inr (pos, _) ↦ absurd (omega arith)
      ]
      | inr (pos, (ra, ea, va)) ↦ elim (Spells-at_plain ref x wb ey' sx) [
        | inl (zero?, _) ↦ absurd (omega arith)
        | inr (_, (rb, eb, vb)) ↦ elim cases [
          | inl zero? ↦ absurd (omega arith)
          | inr (_, same, on) ↦
              let values = same_bytes-slice a b 1 x same in
              let tails =
                find (x + 1) on ra rb
                  (8, stop, subst (λ (q : ℕ). Spells ref a.buf q 8 ra stop) (omega arith) va)
                  (8, stop', subst (λ (q : ℕ). Spells ref b.buf q 8 rb stop') (omega arith) vb) in
              ea ∙ ground arith ∙ sym eb
        ]
      ]
    ]

match_at-Equal :
    (ref : List ℕ) (a b : Cursor) (x y ha hb : ℕ) (again : Cursor → Cursor → ℕ → ℕ → Outcome Bool)
    → AreBytes ref
    → Finds ref again
    → IsCursor ref a
    → IsCursor ref b
    → get_elem? a.buf a.pos ≡ some x
    → get_elem? b.buf b.pos ≡ some y
    → match_at ref a b x y ha hb again ≡ done true
    → Equal ref a b
unfolding match_at
match_at-Equal ref a b x y ha hb again br find oa ob ex ey m ls ls' wa wb =
    elim (Bool-cases (is_pointer x)) [
      | inl pa ↦
          let (o, w, m') = match_hop-true ref a x ha _ ls oa ex pa wa (rw pa at m) in
          find (into ref o) b (ha - 1) hb (br, λ _. refl) ob m' ls ls' w wb
      | inr na ↦ elim (Bool-cases (is_pointer y)) [
        | inl pb ↦
            let (o, w, m') = match_hop-true ref b y hb _ ls' ob ey pb wb (rw (na, pb) at m) in
            find a (into ref o) ha (hb - 1) oa (br, λ _. refl) m' ls ls' wa w
        | inr nb ↦
            let bx = get_elem?-IsByte a.buf a.pos x oa.0 ex in
            let by = get_elem?-IsByte b.buf b.pos y ob.0 ey in
            match_labels-Equal ref a b x y _
              (λ n m'. find (advance a n) (advance b n) ha hb oa ob m')
              (ground (arith, is_pointer_lem x bx)) (ground (arith, is_pointer_lem y by)) ex ey
              (rw (na, nb) at m) ls ls' wa wb
      ]
    ]

-- `matchlabel` says yes only where the two names are equal: whatever labels stand at the two places,
-- through pointers into the packet or not, they are the same.
pub matchlabel_sound :
    (ref : List ℕ) (fuel : ℕ) (a b : Cursor) (ha hb : ℕ) (ls ls' : List (List ℕ))
    → AreBytes ref
    → IsCursor ref a
    → IsCursor ref b
    → matchlabel ref fuel a b ha hb ≡ done true
    → SpellsAt ref a ls
    → SpellsAt ref b ls'
    → ls ≡ ls'
unfolding matchlabel
matchlabel_sound ref zero a b ha hb ls ls' br oa ob m wa wb = cc
matchlabel_sound ref (suc fuel) a b ha hb ls ls' br oa ob m wa wb =
    elim (Bool-cases (same_place a b)) [
      | inl same ↦
          let ea : a.buf ≡ ref = oa.1 (ground arith) in
          let eb : b.buf ≡ ref = ob.1 (ground arith) in
          let ep : b.pos ≡ a.pos = ground arith in
          let wb' = subst (λ (q : ℕ). Spells ref b.buf q wb.0 ls' wb.1) ep wb.2 in
          let wb'' = subst (λ (q : List ℕ). Spells ref q a.pos wb.0 ls' wb.1) (eb ∙ sym ea) wb' in
          Spells-unique ref wa.2 wb''
      | inr apart ↦ elim (Bool-cases (ltb (size_at a) 1 || ltb (size_at b) 1)) [
        | inl over ↦ absurd (ground arith)
        | inr within ↦
            let (x, ex, m1) = >>=-eq-done (byte_at a 0) _ (rw (apart, within) at m) in
            let (y, ey, m2) = >>=-eq-done (byte_at b 0) _ m1 in
            let pa : a.pos + 0 ≡ a.pos = omega arith in
            let pb : b.pos + 0 ≡ b.pos = omega arith in
            match_at-Equal ref a b x y ha hb (matchlabel ref fuel) br
              (λ a' b' ha' hb' oa' ob' m' k k' wk wk'.
                matchlabel_sound ref fuel a' b' ha' hb' k k' br oa' ob' m' wk wk')
              oa ob (rw pa at (peek-eq-done a.buf (a.pos + 0) x ex))
              (rw pb at (peek-eq-done b.buf (b.pos + 0) y ey)) m2 ls ls' wa wb
      ]
    ]
