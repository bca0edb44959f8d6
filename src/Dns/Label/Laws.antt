-- ===== src/Dns/Label/Laws.antt =====
-- Laws of the relation: how a name continues at each kind of byte, that it is unique, and that it
-- stays what it is when buffers grow.
use ambrosia.Prelude.{
  ℕ, zero, suc, ◌+◌, ◌*◌, ◌%◌, ◌≤◌, ◌<◌, ◌≡◌, refl, sym, ap, ◌∙◌, subst, ◌⊎◌, inl, inr, List, [],
  ◌∷◌, ◌++◌, length, length-append, get_elem?, some, arith,
}
use ambrosia.Dns.Memory.{slice}
use ambrosia.Dns.Label.Spells.{Spells, root, label, pointer}

module _ (ref : List ℕ) where
  -- Behind a pointer the same labels stand at its target.
  pub Spells-at_pointer :
      {buf : List ℕ} {pos h : ℕ} {ls : List (List ℕ)} {stop : ℕ} (hi lo : ℕ)
      → Spells ref buf pos h ls stop
      → get_elem? buf pos ≡ some hi
      → 64 ≤ hi
      → get_elem? buf (pos + 1) ≡ some lo
      → (k : ℕ) × (end : ℕ) × Spells ref ref (hi % 64 * 256 + lo) k ls end
  Spells-at_pointer hi lo (root buf pos h stop e es) ehi big elo = absurd (ground arith)
  Spells-at_pointer hi lo (label buf pos h size next v ls stop e p small long ev en w) ehi big elo =
      absurd (ground arith)
  Spells-at_pointer hi lo (pointer buf pos h hi' lo' o ls stop end eh b el eo i es w) ehi big elo =
      let same : o ≡ hi % 64 * 256 + lo = ground arith in
      (h, end, subst (λ (p : ℕ). Spells ref ref p h ls end) same w)

  -- At a plain byte: the root, or a label and what follows it.
  pub Spells-at_plain :
      {buf : List ℕ} {pos h : ℕ} {ls : List (List ℕ)} {stop : ℕ} (b : ℕ)
      → Spells ref buf pos h ls stop
      → get_elem? buf pos ≡ some b
      → b < 64
      → ((b ≡ 0) × (ls ≡ []))
        ⊎ ((0 < b)
            × ((rest : List (List ℕ)) × (ls ≡ slice buf (pos + 1) b ∷ rest)
                × Spells ref buf (pos + b + 1) 8 rest stop))
  Spells-at_plain b (root buf pos h stop e es) eb small = inl (ground arith, refl)
  Spells-at_plain b (label buf pos h size next v ls stop e p sm long ev en w) eb small =
      let same : size ≡ b = ground arith in
      let at : next ≡ pos + b + 1 = ground arith in
      inr (
        omega arith,
        (ls, ground (arith, ev, same), subst (λ (q : ℕ). Spells ref buf q 8 ls stop) at w),
      )
  Spells-at_plain b (pointer buf pos h hi lo o ls stop end eh big el eo i es w) eb small =
      absurd (ground arith)

  -- At a place stands one name only.
  pub Spells-unique :
      {buf : List ℕ} {pos h k : ℕ} {ls ls' : List (List ℕ)} {stop stop' : ℕ}
      → Spells ref buf pos h ls stop
      → Spells ref buf pos k ls' stop'
      → ls ≡ ls'
  Spells-unique (root buf pos h stop e es) w' = elim (Spells-at_plain 0 w' e (omega arith)) [
    | inl (_, none_left) ↦ sym none_left
    | inr (pos0, _) ↦ absurd (omega arith)
  ]
  Spells-unique {ls' = other} {stop' = till}
        (label buf pos h size next v ls stop e p sm long ev en w) w' =
      elim (Spells-at_plain size w' e sm) [
        | inl (zero?, _) ↦ absurd (omega arith)
        | inr (_, (rest, el, wr)) ↦
            let at : pos + size + 1 ≡ next = sym en in
            let tails = Spells-unique w (subst (λ (q : ℕ). Spells ref buf q 8 rest till) at wr) in
            ground (arith, tails, ev, el)
      ]
  Spells-unique {ls' = other} (pointer buf pos h hi lo o ls stop end eh big el eo i es w) w' =
      let (k, end', wt) = Spells-at_pointer hi lo w' eh big el in
      Spells-unique w (subst (λ (q : ℕ). Spells ref ref q k other end') (sym eo) wt)

get_elem?-append :
    (xs ys : List ℕ) (i x : ℕ) → get_elem? xs i ≡ some x → get_elem? (xs ++ ys) i ≡ some x
get_elem?-append [] ys i x e = cc
get_elem?-append (y ∷ xs) ys zero x e = e
get_elem?-append (y ∷ xs) ys (suc i) x e = get_elem?-append xs ys i x e

slice-append : (xs ys : List ℕ) (i n : ℕ) → i + n ≤ length xs → slice (xs ++ ys) i n ≡ slice xs i n
slice-append xs ys i zero h = refl
slice-append [] ys i (suc n) h = absurd (omega arith)
slice-append (x ∷ xs) ys zero (suc n) h = ap (◌∷◌ x) (slice-append xs ys 0 n (omega arith))
slice-append (x ∷ xs) ys (suc i) (suc n) h = slice-append xs ys i (suc n) (omega arith)

-- Bytes added behind either buffer change no name.
pub Spells-append :
    (ref more : List ℕ) {buf : List ℕ} {pos h : ℕ} {ls : List (List ℕ)} {stop : ℕ} (behind : List ℕ)
    → Spells ref buf pos h ls stop
    → Spells (ref ++ more) (buf ++ behind) pos h ls stop
Spells-append ref more behind (root buf pos h stop e es) =
    root (buf ++ behind) pos h stop (get_elem?-append buf behind pos 0 e) es
Spells-append ref more behind (label buf pos h size next v ls stop e p sm long ev en w) =
    label (buf ++ behind) pos h size next v ls stop (get_elem?-append buf behind pos size e) p sm
      (omega (arith, length-append buf behind))
      (ev ∙ sym (slice-append buf behind (pos + 1) size (omega arith))) en
      (Spells-append ref more behind w)
Spells-append ref more behind (pointer buf pos h hi lo o ls stop end eh big el eo i es w) =
    pointer (buf ++ behind) pos h hi lo o ls stop end (get_elem?-append buf behind pos hi eh) big
      (get_elem?-append buf behind (pos + 1) lo el) eo (omega (arith, length-append ref more)) es
      (Spells-append ref more more w)

-- More hops may be allowed.
pub Spells-more_hops :
    (ref : List ℕ) {buf : List ℕ} {pos h : ℕ} {ls : List (List ℕ)} {stop : ℕ} (k : ℕ)
    → h ≤ k
    → Spells ref buf pos h ls stop
    → Spells ref buf pos k ls stop
Spells-more_hops ref k hk (root buf pos h stop e es) = root buf pos k stop e es
Spells-more_hops ref k hk (label buf pos h size next v ls stop e p sm long ev en w) =
    label buf pos k size next v ls stop e p sm long ev en w
Spells-more_hops ref zero hk (pointer buf pos h hi lo o ls stop end eh big el eo i es w) =
    absurd (omega arith)
Spells-more_hops ref (suc k) hk (pointer buf pos h hi lo o ls stop end eh big el eo i es w) =
    pointer buf pos k hi lo o ls stop end eh big el eo i es (Spells-more_hops ref k (omega arith) w)
