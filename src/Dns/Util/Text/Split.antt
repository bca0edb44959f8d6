-- ===== src/Dns/Util/Text/Split.antt =====
-- `jdns_string_split` against the joining of its items.
use ambrosia.Prelude.{
  ℕ, zero, suc, ◌+◌, ◌-◌, ◌≤◌, ◌<◌, ◌≡◌, ◌≢◌, refl, ap, ◌⊎◌, inl, inr, false, none, some, List, [],
  ◌∷◌, ◌++◌, append_assoc, length, length-append, length-drop, take, drop, take-append, ltb, ◌==◌,
  Bool-cases, arith, subst,
}
use ambrosia.Dns.Memory.{done, slice}
use ambrosia.Dns.Util.Text.{scan, jdns_string_index_of, or_else, split_loop, jdns_string_split}

-- No byte is the separator.
abbrev pub Free : ℕ → List ℕ → Type 0
Free sep [] = Unit
Free sep (x ∷ xs) = (x ≢ sep) × Free sep xs

abbrev pub AllFree : ℕ → List (List ℕ) → Type 0
AllFree sep [] = Unit
AllFree sep (x ∷ xs) = Free sep x × AllFree sep xs

-- Each item with the separator behind it.
unfoldable pub joined : ℕ → List (List ℕ) → List ℕ
joined sep [] = []
joined sep (x ∷ xs) = x ++ (sep ∷ joined sep xs)

-- Where the separator stands first.
pub scan_cases :
    (xs : List ℕ) (c n : ℕ)
    → ((scan xs c n ≡ none) × Free c xs)
      ⊎ ((pre : List ℕ) × (post : List ℕ) × (scan xs c n ≡ some (n + length pre))
          × (xs ≡ pre ++ (c ∷ post))
          × Free c pre)
scan_cases [] c n = inl (refl, tt)
scan_cases (x ∷ xs) c n = elim (Bool-cases (x == c)) [
  | inl same ↦
      let e : x ≡ c = ground arith in inr ([], xs, rw same (ap some (omega arith)), rw e refl, tt)
  | inr other ↦ elim (scan_cases xs c (n + 1)) [
    | inl (none_there, free) ↦ inl (rw other none_there, (λ e. ground arith, free))
    | inr (pre, post, at, e, free) ↦ inr (
      x ∷ pre,
      post,
      rw (other, at) (ap some (omega arith)),
      rw e refl,
      (λ k. ground arith, free),
    )
  ]
]

drop-past :
    (k : ℕ) (pre post : List ℕ) (c : ℕ) → k ≡ length pre + 1 → drop k (pre ++ (c ∷ post)) ≡ post
drop-past zero pre post c h = absurd (omega arith)
drop-past (suc zero) [] post c h = refl
drop-past (suc (suc k)) [] post c h = absurd (omega arith)
drop-past (suc k) (x ∷ pre) post c h = drop-past k pre post c (omega arith)

drop-next :
    (n k : ℕ) (xs pre post : List ℕ) (c : ℕ)
    → drop n xs ≡ pre ++ (c ∷ post)
    → k ≡ n + length pre + 1
    → drop k xs ≡ post
drop-next zero k xs pre post c e h = rw e (drop-past k pre post c (omega arith))
drop-next (suc n) k [] pre post c e h =
    absurd (omega (arith, ap length e, length-append pre (c ∷ post)))
drop-next (suc n) zero (x ∷ xs) pre post c e h = absurd (omega arith)
drop-next (suc n) (suc k) (x ∷ xs) pre post c e h = drop-next n k xs pre post c e (omega arith)

-- The items from `at` on are free of the separator, and give what is left of the text, which may
-- lack the separator at its end.
abbrev Splits : ℕ → List ℕ → List (List ℕ) → Type 0
Splits sep rest items =
    AllFree sep items × ((rest ≡ joined sep items) ⊎ (rest ++ (sep ∷ []) ≡ joined sep items))

take-all : (n : ℕ) (xs : List ℕ) → length xs ≤ n → take n xs ≡ xs
take-all zero [] h = refl
take-all zero (x ∷ xs) h = absurd (omega arith)
take-all (suc n) [] h = refl
take-all (suc n) (x ∷ xs) h = rw (take-all n xs (omega arith))

drop-all : (n : ℕ) (xs : List ℕ) → length xs ≤ n → drop n xs ≡ []
drop-all zero [] h = refl
drop-all zero (x ∷ xs) h = absurd (omega arith)
drop-all (suc n) [] h = refl
drop-all (suc n) (x ∷ xs) h = drop-all n xs (omega arith)

split_end :
    (s : List ℕ) (sep fuel at : ℕ) → 0 < fuel → length s ≤ at → split_loop s sep fuel at ≡ done []
unfolding split_loop
split_end s sep zero at h past = absurd (omega arith)
split_end s sep (suc fuel) at h past =
    let over : ltb at (length s) ≡ false = ground arith in rw over refl

round_lem :
    (sep : ℕ) (rest pre post : List ℕ) (items : List (List ℕ))
    → rest ≡ pre ++ (sep ∷ post)
    → Free sep pre
    → Splits sep post items
    → Splits sep rest (pre ∷ items)
unfolding joined
round_lem sep rest pre post items e free (frees, inl j) = ((free, frees), inl (rw (e, j) refl))
round_lem sep rest pre post items e free (frees, inr j) =
    ((free, frees), inr (rw (e, append_assoc) (ap (λ (xs : List ℕ). pre ++ (sep ∷ xs)) j)))

first_part :
    (s pre post : List ℕ) (c at : ℕ)
    → drop at s ≡ pre ++ (c ∷ post)
    → slice s at (at + length pre - at) ≡ pre
first_part s pre post c at e =
    let n : at + length pre - at ≡ length pre = omega arith in
    rw (n, e) (take-append pre (c ∷ post))

split_loop_lem :
    (s : List ℕ) (sep fuel at : ℕ)
    → length s < at + fuel
    → 0 < fuel
    → (items : List (List ℕ)) × (split_loop s sep fuel at ≡ done items)
      × Splits sep (drop at s) items
unfolding split_loop joined jdns_string_index_of
split_loop_lem s sep zero at h k = absurd (omega arith)
split_loop_lem s sep (suc fuel) at h k = elim (Bool-cases (ltb at (length s))) [
  | inr end ↦ ([], rw end refl, (tt, inl (drop-all at s (ground arith))))
  | inl more ↦ elim (scan_cases (drop at s) sep at) [
    | inl (none_there, free) ↦
        let all : slice s at (length s - at) ≡ drop at s =
          take-all (length s - at) (drop at s) (omega (arith, length-drop at s)) in
        (
          drop at s ∷ [],
          rw
              (
                more,
                none_there,
                or_else,
                split_end s sep fuel (length s + 1) (ground arith) (omega arith),
                all,
              )
              refl,
          ((free, tt), inr refl),
        )
    | inr (pre, post, found, e, free) ↦
        let next = at + length pre + 1 in
        let (items, ei, good) = split_loop_lem s sep fuel next (omega arith) (ground arith) in
        let here : slice s at (at + length pre - at) ≡ pre = first_part s pre post sep at e in
        (
          pre ∷ items,
          rw (more, found, or_else, ei, here) refl,
          round_lem sep (drop at s) pre post items e free (
              subst (λ (r : List ℕ). Splits sep r items) (drop-next at next s pre post sep e refl)
                good),
        )
  ]
]

-- `jdns_string_split` ends on any text. Its items are free of the separator, and each with the
-- separator behind it they give the text, which may lack the separator at its end.
pub jdns_string_split-joined :
    (s : List ℕ) (sep : ℕ)
    → (items : List (List ℕ)) × (jdns_string_split s sep ≡ done items)
      × AllFree sep items
      × ((s ≡ joined sep items) ⊎ (s ++ (sep ∷ []) ≡ joined sep items))
unfolding jdns_string_split
jdns_string_split-joined s sep =
    let (items, e, (frees, j)) =
      split_loop_lem s sep (suc (length s)) 0 (omega arith) (omega arith) in
    (items, e, frees, j)
