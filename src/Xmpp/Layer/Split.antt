-- ===== src/Xmpp/Layer/Split.antt =====
-- Reports of written bytes may come in any portions.
use ambrosia.Prelude.{
  ℕ, ◌+◌, ◌-◌, ◌≡◌, ◌∙◌, refl, sym, ap, ltb, true, false, List, [], ◌∷◌, Bool-cases, inl, inr,
  arith,
}
use ambrosia.Xmpp.Layer.{
  Part, finish_parts, tracker_finished, SecureLayer, is_tracking, taken, layer_finished,
  layers_finished,
}

abbrev pub both : {A : Type 0} → (ℕ → A → ℕ × A) → ℕ → ℕ → A → ℕ × A
both f a b x = let (m, y) = f a x in let (n, z) = f b y in (m + n, z)

first_same : {A : Type 0} {m n : ℕ} {x : A} → m ≡ n → Path (ℕ × A) (m, x) (n, x)
first_same {A} {m} {n} {x} e = ap (λ (k : ℕ). (k, x)) e

finish_parts-add : (a b : ℕ) (xs : List Part) → finish_parts (a + b) xs ≡ both finish_parts a b xs
finish_parts-add a b [] = refl
finish_parts-add a b (i ∷ is) = elim (Bool-cases (ltb a i.encoded)) [
  | inl less ↦ elim (Bool-cases (ltb (a + b) i.encoded)) [
    | inl still ↦
        let later : ltb b (i.encoded - a) ≡ true = ground arith in
        let e : i.encoded - (a + b) ≡ (i.encoded - a) - b = omega arith in
        rw (less, still, later, e) refl
    | inr passed ↦
        let later : ltb b (i.encoded - a) ≡ false = ground arith in
        let e : (a + b) - i.encoded ≡ b - (i.encoded - a) = ground arith in
        rw (less, passed, later, e) (first_same (omega arith))
  ]
  | inr more ↦
      let e : (a + b) - i.encoded ≡ (a - i.encoded) + b = ground arith in
      let both_more : ltb (a + b) i.encoded ≡ false = ground arith in
      rw (more, both_more, e, finish_parts-add (a - i.encoded) b is) (first_same (omega arith))
]

pair_same : {A : Type 0} {m n : ℕ} {x y : A} → m ≡ n → x ≡ y → Path (ℕ × A) (m, x) (n, y)
pair_same e f = rw (e, f) refl

-- `finished` of a layer that tracks, and of one that does not.
abbrev tracked : ℕ → SecureLayer → ℕ × SecureLayer
tracked n s =
    let first = taken n s.prebytes in
    let (m, tracker) = tracker_finished (n - first) s.layer in
    (first + m, record s { prebytes = s.prebytes - first; layer = tracker })

abbrev passing : ℕ → SecureLayer → ℕ × SecureLayer
passing n s = let first = taken n s.prebytes in (first, record s { prebytes = s.prebytes - first })

layer_finished-tracked :
    (n : ℕ) (s : SecureLayer) → is_tracking s ≡ true → layer_finished n s ≡ tracked n s
layer_finished-tracked n s on = rw on refl

layer_finished-passing :
    (n : ℕ) (s : SecureLayer) → is_tracking s ≡ false → layer_finished n s ≡ passing n s
layer_finished-passing n s off = rw off refl

-- Two functions that give the same on a layer and on what is left of it.
both-same :
    (f g : ℕ → SecureLayer → ℕ × SecureLayer) (a b : ℕ) (s : SecureLayer)
    → f a s ≡ g a s
    → f b (g a s).1 ≡ g b (g a s).1
    → both f a b s ≡ both g a b s
both-same f g a b s e d =
    ap (λ (p : ℕ × SecureLayer). (p.0 + (f b p.1).0, (f b p.1).1)) e
    ∙ ap (λ (q : ℕ × SecureLayer). ((g a s).0 + q.0, q.1)) d

module _ (a b k : ℕ) where
  first_taken : taken (a + b) k ≡ taken a k + taken b (k - taken a k)
  first_taken = ground arith

  left_taken : k - taken (a + b) k ≡ (k - taken a k) - taken b (k - taken a k)
  left_taken = ground arith

  passed_taken : (a + b) - taken (a + b) k ≡ (a - taken a k) + (b - taken b (k - taken a k))
  passed_taken = ground arith

tracked-add : (a b : ℕ) (s : SecureLayer) → tracked (a + b) s ≡ both tracked a b s
tracked-add a b s =
    let k = s.prebytes in
    let m = a - taken a k in
    let n = b - taken b (k - taken a k) in
    let parts : finish_parts ((a + b) - taken (a + b) k) s.layer.list
        ≡ both finish_parts m n s.layer.list =
      ap (λ (x : ℕ). finish_parts x s.layer.list) (passed_taken a b k)
      ∙ finish_parts-add m n s.layer.list in
    pair_same (omega (arith, first_taken a b k, ap (λ (p : ℕ × List Part). p.0) parts))
      (rw (parts, left_taken a b k) refl)

passing-add : (a b : ℕ) (s : SecureLayer) → passing (a + b) s ≡ both passing a b s
passing-add a b s = pair_same (first_taken a b s.prebytes) (rw (left_taken a b s.prebytes) refl)

layer_finished-add :
    (a b : ℕ) (s : SecureLayer) → layer_finished (a + b) s ≡ both layer_finished a b s
layer_finished-add a b s = elim (Bool-cases (is_tracking s)) [
  | inl on ↦
      layer_finished-tracked (a + b) s on
      ∙ tracked-add a b s
      ∙ sym (
          both-same layer_finished tracked a b s (layer_finished-tracked a s on)
            (layer_finished-tracked b (tracked a s).1 on))
  | inr off ↦
      layer_finished-passing (a + b) s off
      ∙ passing-add a b s
      ∙ sym (
          both-same layer_finished passing a b s (layer_finished-passing a s off)
            (layer_finished-passing b (passing a s).1 off))
]

-- Reports of `a` and then of `b` written bytes go through the layers of a stream as one report
-- of both: the same plain bytes are reported in sum, and the layers are left the same.
pub layers_finished-add :
    (a b : ℕ) (ss : List SecureLayer) → layers_finished (a + b) ss ≡ both layers_finished a b ss
unfolding layers_finished
layers_finished-add a b [] = refl
layers_finished-add a b (s ∷ ss) =
    let (m, y) = layer_finished a s in
    let (n, z) = layer_finished b y in
    rw (layer_finished-add a b s) (rw (layers_finished-add m n ss) refl)
