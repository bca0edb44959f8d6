-- ===== src/Dns/Name/Valid.antt =====
-- Which names `jdns_packet_name_isvalid` accepts.
use ambrosia.Prelude.{
  ℕ, suc, ◌+◌, ◌-◌, ◌≤◌, ◌<◌, ◌≡◌, ◌≢◌, refl, ◌∙◌, ◌↔◌, ◌⊎◌, inl, inr, Bool, true, false, List, [],
  ◌∷◌, ◌++◌, length, length-append, ◌==◌, Bool-cases, append_assoc, append-nil, arith,
}
use ambrosia.Dns.Label.Spells.{dotted}
use ambrosia.Dns.Name.{is_dot_at, sublabels_ok, jdns_packet_name_isvalid}

abbrev pub HasNoDot : List ℕ → Type 0
HasNoDot [] = Unit {0}
HasNoDot (c ∷ cs) = (c ≢ b'.') × HasNoDot cs

-- A label of 1 to 63 bytes, none of them a dot.
abbrev pub IsLabel : List ℕ → Type 0
IsLabel l = (0 < length l) × (length l < 64) × HasNoDot l

abbrev pub AreLabels : List (List ℕ) → Type 0
AreLabels [] = Unit {0}
AreLabels (l ∷ ls) = IsLabel l × AreLabels ls

HasNoDot-snoc : (l : List ℕ) (c : ℕ) → HasNoDot l → c ≢ b'.' → HasNoDot (l ++ (c ∷ []))
HasNoDot-snoc [] c h n = (n, tt)
HasNoDot-snoc (x ∷ l) c h n = (h.0, HasNoDot-snoc l c h.1 n)

-- The last byte, with `d` for the last byte of what stands before.
abbrev ends_in_dot : Bool → List ℕ → Bool
ends_in_dot d [] = d
ends_in_dot d (c ∷ cs) = ends_in_dot (c == b'.') cs

is_dot_at_last : (c : ℕ) (cs : List ℕ) → is_dot_at (c ∷ cs) (length cs) ≡ ends_in_dot (c == b'.') cs
is_dot_at_last c [] = refl
is_dot_at_last c (x ∷ cs) = is_dot_at_last x cs

ends_in_dot-true :
    (cs : List ℕ) → ends_in_dot true cs ≡ true → (ends_in_dot false cs ≡ true) ⊎ (cs ≡ [])
ends_in_dot-true [] h = inr refl
ends_in_dot-true (c ∷ cs) h = inl h

-- The walk accepts a rest that ends in a dot: it falls into labels.
sublabels_split :
    (cs piece : List ℕ)
    → HasNoDot piece
    → sublabels_ok cs (length piece) ≡ true
    → (ends_in_dot false cs ≡ true) ⊎ ((cs ≡ []) × (piece ≡ []))
    → (ls : List (List ℕ)) × AreLabels ls × (piece ++ cs ≡ dotted ls)
unfolding sublabels_ok dotted
sublabels_split [] piece d ok (inl no_dot) = cc
sublabels_split [] piece d ok (inr (_, none_left)) = ([], tt, ground (arith, append-nil piece))
sublabels_split (c ∷ cs) piece d ok (inr (some_left, _)) = cc
sublabels_split (c ∷ cs) piece d ok (inl last) = elim (Bool-cases (c == b'.')) [
  | inl dot ↦
      let (ls, h, e) = sublabels_split cs [] tt (ground arith) (after dot) in
      (piece ∷ ls, (ground arith, h), ground arith)
  | inr char ↦
      let more =
        sublabels_split cs (piece ++ (c ∷ [])) (HasNoDot-snoc piece c d (ground arith))
          (ground (arith, length-append piece (c ∷ []))) (inl (ground arith)) in
      (more.0, more.1, ground (arith, more.2, append_assoc piece (c ∷ []) cs))
]
  where
    after :
        (c == b'.') ≡ true → (ends_in_dot false cs ≡ true) ⊎ ((cs ≡ []) × (◌≡◌ {A = List ℕ} [] []))
    after dot = ground (arith, ends_in_dot-true cs)

sublabels_join :
    (piece rest : List ℕ) (len : ℕ)
    → HasNoDot piece
    → 0 < len + length piece
    → len + length piece < 64
    → sublabels_ok rest 0 ≡ true
    → sublabels_ok (piece ++ (b'.' ∷ rest)) len ≡ true
unfolding sublabels_ok
sublabels_join [] rest len d pos small ok = ground arith
sublabels_join (c ∷ cs) rest len d pos small ok =
    ground (arith, sublabels_join cs rest (len + 1) d.1)

sublabels_ok-dotted : (ls : List (List ℕ)) → AreLabels ls → sublabels_ok (dotted ls) 0 ≡ true
unfolding dotted
sublabels_ok-dotted [] h = unfold sublabels_ok in refl
sublabels_ok-dotted (l ∷ ls) h =
    sublabels_join l (dotted ls) 0 h.0.2 (omega arith) (omega arith) (sublabels_ok-dotted ls h.1)

ends_in_dot-append :
    (d : Bool) (l : List ℕ) (rest : List ℕ)
    → ends_in_dot true rest ≡ true
    → ends_in_dot d (l ++ (b'.' ∷ rest)) ≡ true
ends_in_dot-append d [] rest h = h
ends_in_dot-append d (c ∷ l) rest h = ends_in_dot-append (c == b'.') l rest h

ends_in_dot-dotted : (ls : List (List ℕ)) → ends_in_dot true (dotted ls) ≡ true
unfolding dotted
ends_in_dot-dotted [] = refl
ends_in_dot-dotted (l ∷ ls) = ends_in_dot-append true l (dotted ls) (ends_in_dot-dotted ls)

isvalid_of :
    (c : ℕ) (rest : List ℕ)
    → length rest < 254
    → c ≢ b'.'
    → ends_in_dot (c == b'.') rest ≡ true
    → sublabels_ok (c ∷ rest) 0 ≡ true
    → jdns_packet_name_isvalid (c ∷ rest) ≡ true
unfolding jdns_packet_name_isvalid
isvalid_of c rest fits start last ok =
    let e : suc (length rest) - 1 ≡ length rest = omega arith in
    let at_end : is_dot_at (c ∷ rest) (suc (length rest) - 1) ≡ true =
      rw e (is_dot_at_last c rest ∙ last) in
    ground (arith, at_end)

pub isvalid-dotted :
    (l : List ℕ) (ls : List (List ℕ))
    → AreLabels (l ∷ ls)
    → length (dotted (l ∷ ls)) ≤ 254
    → jdns_packet_name_isvalid (dotted (l ∷ ls)) ≡ true
unfolding dotted
isvalid-dotted [] ls h fits = absurd (omega arith)
isvalid-dotted (c ∷ cs) ls h fits =
    isvalid_of c (cs ++ (b'.' ∷ dotted ls)) (omega arith) h.0.2.0
      (ends_in_dot-append (c == b'.') cs (dotted ls) (ends_in_dot-dotted ls))
      (sublabels_ok-dotted ((c ∷ cs) ∷ ls) h)

isvalid_split :
    (name : List ℕ)
    → jdns_packet_name_isvalid name ≡ true
    → (ls : List (List ℕ)) × (ls ≢ []) × AreLabels ls × (name ≡ dotted ls) × (length name ≤ 254)
unfolding jdns_packet_name_isvalid
isvalid_split [] ok = absurd (ground arith)
isvalid_split (c ∷ cs) ok =
    let e : suc (length cs) - 1 ≡ length cs = omega arith in
    let (ls, h, en) =
      sublabels_split (c ∷ cs) [] tt (ground arith)
        (inl (ground (arith, e, is_dot_at_last c cs))) in
    (ls, unfold dotted in ground arith, h, en, ground arith)

of_labels :
    (ls : List (List ℕ))
    → ls ≢ []
    → AreLabels ls
    → length (dotted ls) ≤ 254
    → jdns_packet_name_isvalid (dotted ls) ≡ true
of_labels [] some_label h fits = absurd (some_label refl)
of_labels (l ∷ ls) some_label h fits = isvalid-dotted l ls h fits

-- `jdns_packet_name_isvalid` accepts exactly the names of at most 254 bytes that are one or more
-- labels of 1 to 63 bytes, none of them a dot, with a dot behind each label.
pub isvalid_iff :
    (name : List ℕ)
    → (jdns_packet_name_isvalid name ≡ true)
      ↔ ((ls : List (List ℕ)) × (ls ≢ []) × AreLabels ls × (name ≡ dotted ls) × (length name ≤ 254))
isvalid_iff name = (
  isvalid_split name,
  λ (ls, some_label, h, e, fits). rw e (of_labels ls some_label h (rw (← e) fits)),
)
