-- ===== src/Xmpp/Layer/Count.antt =====
-- No byte is reported twice, and every byte is reported in the end.
use ambrosia.Prelude.{
  ℕ, ◌+◌, ◌-◌, ◌≡◌, refl, ltb, false, List, [], ◌∷◌, ◌++◌, if◌then◌else◌, Bool-cases, inl, inr,
  arith,
}
use ambrosia.Xmpp.Layer.{
  Part, LayerTracker, add_plain, specify_encoded, finish_parts, tracker_finished,
}

abbrev pub plain_sum : List Part → ℕ
plain_sum [] = 0
plain_sum (i ∷ is) = i.plain + plain_sum is

abbrev pub encoded_sum : List Part → ℕ
encoded_sum [] = 0
encoded_sum (i ∷ is) = i.encoded + encoded_sum is

-- The plain bytes that were added and not yet reported.
abbrev pub outstanding : LayerTracker → ℕ
outstanding t = t.p + plain_sum t.list

plain_sum-append : (xs ys : List Part) → plain_sum (xs ++ ys) ≡ plain_sum xs + plain_sum ys
plain_sum-append [] ys = omega arith
plain_sum-append (i ∷ is) ys = omega (arith, plain_sum-append is ys)

finish_parts-plain_sum :
    (e : ℕ) (xs : List Part)
    → (finish_parts e xs).0 + plain_sum (finish_parts e xs).1 ≡ plain_sum xs
finish_parts-plain_sum e [] = refl
finish_parts-plain_sum e (i ∷ is) = elim (Bool-cases (ltb e i.encoded)) [
  | inl less ↦ rw less (omega arith)
  | inr more ↦ rw more (omega (arith, finish_parts-plain_sum (e - i.encoded) is))
]

finish_parts-encoded_sum : (xs : List Part) → finish_parts (encoded_sum xs) xs ≡ (plain_sum xs, [])
finish_parts-encoded_sum [] = refl
finish_parts-encoded_sum (i ∷ is) =
    let all : ltb (i.encoded + encoded_sum is) i.encoded ≡ false = ground arith in
    let rest : (i.encoded + encoded_sum is) - i.encoded ≡ encoded_sum is = omega arith in
    rw (all, rest, finish_parts-encoded_sum is) refl

-- The plain bytes that were added to a tracker and not yet reported grow by what is added, stay
-- when encoded bytes are specified, and shrink by exactly what is reported; when all encoded
-- bytes are written, all their plain bytes are reported and no part is left.
pub specify_encoded-outstanding :
    (e n : ℕ) (t : LayerTracker)
    → (outstanding (add_plain n t) ≡ outstanding t + n)
      × (outstanding (specify_encoded e n t) ≡ outstanding t)
      × ((tracker_finished e t).0 + outstanding (tracker_finished e t).1 ≡ outstanding t)
      × (finish_parts (encoded_sum t.list) t.list ≡ (plain_sum t.list, []))
specify_encoded-outstanding e n t = (
  omega arith,
  specified,
  omega (arith, finish_parts-plain_sum e t.list),
  finish_parts-encoded_sum t.list,
)
  where
    part : Part
    part = record { plain = if ltb t.p n then t.p else n; encoded = e }

    specified : outstanding (specify_encoded e n t) ≡ outstanding t
    specified = ground (arith, plain_sum-append t.list (part ∷ []))
