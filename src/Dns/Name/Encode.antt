-- ===== src/Dns/Name/Encode.antt =====
-- What `name_to_label` writes.
use ambrosia.Prelude.{
  ◌≢◌, ◌⊎◌, inl, inr, false, Bool-cases, ℕ, ◌+◌, ◌≤◌, ◌<◌, ◌≡◌, refl, ◌∙◌, List, [], ◌∷◌, ◌++◌,
  length, length-append, append_assoc, append-nil, arith,
}
use ambrosia.Dns.Label.Spells.{dotted}
use ambrosia.Dns.Label.Complete.{length-dotted}
use ambrosia.Dns.Name.{jdns_packet_name_isvalid, invalid, wire_label, convert_loop, name_to_label}
use ambrosia.Dns.Name.Valid.{HasNoDot, AreLabels, isvalid-dotted, isvalid_iff}

-- A name in the format of a packet, without compression and without the root's byte.
unfoldable pub wire : List (List ℕ) → List ℕ
wire [] = []
wire (l ∷ ls) = (length l ∷ l) ++ wire ls

pub length-wire : (ls : List (List ℕ)) → length (wire ls) ≡ length (dotted ls)
unfolding wire dotted
length-wire [] = refl
length-wire (l ∷ ls) =
    omega (arith, length-append l (wire ls), length-append l (b'.' ∷ dotted ls), length-wire ls)

-- A label and its dot are moved to `out`.
convert_label :
    (l rest piece out : List ℕ)
    → HasNoDot l
    → length piece + length l < 256
    → length out + (length piece + length l + 1) ≤ 255
    → convert_loop (l ++ (b'.' ∷ rest)) piece out
      ≡ convert_loop rest [] (out ++ (length (piece ++ l) ∷ (piece ++ l)))
unfolding convert_loop
convert_label [] rest piece out d small fits = ground (arith, append-nil piece)
convert_label (c ∷ cs) rest piece out d small fits =
    let more = convert_label cs rest (piece ++ (c ∷ [])) out d.1 in
    ground (arith, more, length-append piece (c ∷ []), append_assoc piece (c ∷ []) cs)

convert_loop-dotted :
    (ls : List (List ℕ)) (out : List ℕ)
    → AreLabels ls
    → length out + length (dotted ls) ≤ 254
    → convert_loop (dotted ls) [] out ≡ wire_label (out ++ (wire ls ++ (0 ∷ [])))
unfolding dotted wire
convert_loop-dotted [] out h fits = unfold convert_loop in ground arith
convert_loop-dotted (l ∷ ls) out h fits =
    convert_label l (dotted ls) [] out h.0.2 (omega arith) (omega (arith, ll))
    ∙ convert_loop-dotted ls (out ++ (length l ∷ l)) h.1 (omega (arith, ll, lo))
    ∙ ground (
      arith,
      append_assoc out (length l ∷ l) (wire ls ++ (0 ∷ [])),
      append_assoc l (wire ls) (0 ∷ []),
    )
  where
    ll : length (l ++ (b'.' ∷ dotted ls)) ≡ length l + 1 + length (dotted ls)
    ll = omega (arith, length-append l (b'.' ∷ dotted ls))

    lo : length (out ++ (length l ∷ l)) ≡ length out + length l + 1
    lo = omega (arith, length-append out (length l ∷ l))

-- A name of at most 254 bytes with one or more labels becomes the labels, each behind its length,
-- and the root's zero: one byte more than the text, never too much for the 255 bytes of `label`.
pub name_to_label-dotted :
    (l : List ℕ) (ls : List (List ℕ))
    → AreLabels (l ∷ ls)
    → length (dotted (l ∷ ls)) ≤ 254
    → name_to_label (dotted (l ∷ ls)) ≡ wire_label (wire (l ∷ ls) ++ (0 ∷ []))
unfolding name_to_label
name_to_label-dotted l ls h fits =
    let ok = isvalid-dotted l ls h fits in
    let all = convert_loop-dotted (l ∷ ls) [] h (omega arith) in
    ground (arith, ok, all, length-dotted l ls)

some_labels :
    (name : List ℕ) (ls : List (List ℕ))
    → ls ≢ []
    → AreLabels ls
    → name ≡ dotted ls
    → length name ≤ 254
    → (name_to_label name ≡ wire_label (wire ls ++ (0 ∷ []))) × (length (wire ls ++ (0 ∷ [])) ≤ 255)
some_labels name [] some h e fits = absurd (some refl)
some_labels name (l ∷ ls) some h e fits =
    let fits' : length (dotted (l ∷ ls)) ≤ 254 = rw (← e) fits in
    (
      rw e (name_to_label-dotted l ls h fits'),
      omega (arith, length-append (wire (l ∷ ls)) (0 ∷ []), length-wire (l ∷ ls)),
    )

-- `name_to_label` refuses exactly the names that are not valid; any other becomes its labels, each
-- behind its length, and the root's zero. The 255 bytes of `label` are always enough.
pub name_to_label_cases :
    (name : List ℕ)
    → ((jdns_packet_name_isvalid name ≡ false) × (name_to_label name ≡ invalid))
      ⊎ ((ls : List (List ℕ)) × (ls ≢ [])
          × AreLabels ls
          × (name ≡ dotted ls)
          × (name_to_label name ≡ wire_label (wire ls ++ (0 ∷ [])))
          × (length (wire ls ++ (0 ∷ [])) ≤ 255))
name_to_label_cases name = elim (Bool-cases (jdns_packet_name_isvalid name)) [
  | inr bad ↦ inl (bad, unfold name_to_label in ground arith)
  | inl good ↦
      let (ls, some, h, e, fits) = (isvalid_iff name).0 good in
      let (written, short) = some_labels name ls some h e fits in
      inr (ls, some, h, e, written, short)
]
