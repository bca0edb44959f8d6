-- ===== src/Server/Roster/Changes.antt =====
-- `applyChanges` against the same changes on a map from addresses to contacts.
use ambrosia.Prelude.{
  ◌≡◌, refl, sym, ◌∙◌, true, false, Option, none, some, Option-cases, Bool-cases, inl, inr, List,
  [], ◌∷◌, ◌++◌, ap, subst, if◌then◌else◌, arith, fun_ext,
}
use ambrosia.Prelude.Search.{Found, find_first-some, find_first-none, All}
use ambrosia.Xmpp.Jid.{Jid, compare}
use ambrosia.Xmpp.Jid.Compare.{compare_left}
use ambrosia.Server.Roster.{
  RosterChange, RosterItem, Roster, has_jid, find_contact, renamed, new_item, put_back,
  apply_change, apply_changes, sub_remove,
}
use ambrosia.Server.Roster.Contacts.{
  contact, Distinct, or_contact, contact-append, contact-none, contact_behind, Distinct-put,
  Distinct-less, Distinct-add, Distinct-behind, contact_found, find_contact-none,
}

abbrev pub or_new : Jid → Option RosterItem → RosterItem
or_new j none = new_item j
or_new j (some r) = r

-- A change on the map: it concerns its address alone.
abbrev pub change_map : RosterChange → (Jid → Option RosterItem) → Jid → Option RosterItem
change_map rc m j =
    let there = if rc.remove then none else some (renamed rc (or_new rc.jid (m rc.jid))) in
    if compare rc.jid j true then there else m j

abbrev pub change_maps : List RosterChange → (Jid → Option RosterItem) → Jid → Option RosterItem
change_maps [] m = m
change_maps (rc ∷ changes) m = change_maps changes (change_map rc m)

-- The four ways of a change, each with what the search found.
pub data Way (rc : RosterChange) (roster : Roster) : Type 0 where
  ignored :
      rc.remove ≡ true
      → All (λ y. has_jid rc.jid y ≡ false) roster
      → find_contact rc.jid roster ≡ none
      → apply_change rc roster ≡ (roster, [])
      → Way rc roster
  added :
      rc.remove ≡ false
      → All (λ y. has_jid rc.jid y ≡ false) roster
      → find_contact rc.jid roster ≡ none
      → apply_change rc roster
        ≡ (roster ++ (renamed rc (new_item rc.jid) ∷ []), renamed rc (new_item rc.jid) ∷ [])
      → Way rc roster
  removed :
      (f : Found RosterItem)
      → rc.remove ≡ true
      → roster ≡ put_back f f.item
      → has_jid rc.jid f.item ≡ true
      → All (λ y. has_jid rc.jid y ≡ false) f.before
      → apply_change rc roster ≡ (f.before ++ f.after, record f.item { sub = sub_remove } ∷ [])
      → Way rc roster
  changed :
      (f : Found RosterItem)
      → rc.remove ≡ false
      → roster ≡ put_back f f.item
      → has_jid rc.jid f.item ≡ true
      → All (λ y. has_jid rc.jid y ≡ false) f.before
      → apply_change rc roster ≡ (put_back f (renamed rc f.item), renamed rc f.item ∷ [])
      → Way rc roster

pub way : (rc : RosterChange) (roster : Roster) → Way rc roster
unfolding apply_change
way rc roster = elim (Option-cases (find_contact rc.jid roster)) [
  | inl e ↦
      let miss = find_first-none (has_jid rc.jid) roster e in
      elim (Bool-cases rc.remove) [
        | inl r ↦ ignored r miss e (ground arith)
        | inr r ↦ added r miss e (ground arith)
      ]
  | inr (f, e) ↦
      let (split, hit, front) = find_first-some (has_jid rc.jid) roster f e in
      elim (Bool-cases rc.remove) [
        | inl r ↦ removed f r split hit front (ground arith)
        | inr r ↦ changed f r split hit front (ground arith)
      ]
]

-- The roster after a change.
abbrev after : RosterChange → Roster → Roster
after rc roster = (apply_change rc roster).0

-- A property of the roster that a way of the change gives.
by_result {ℓ} :
    (P : Roster → Type ℓ) (rc : RosterChange) (roster : Roster)
    → {result : Roster × List RosterItem} → apply_change rc roster ≡ result
    → P result.0
    → P (after rc roster)
by_result P rc roster a h = subst (λ (p : Roster × List RosterItem). P p.0) (sym a) h

apply_change-Distinct :
    (rc : RosterChange) (roster : Roster) → Distinct roster → Distinct (after rc roster)
apply_change-Distinct rc roster d = elim (way rc roster) [
  | ignored r miss e a ↦ by_result Distinct rc roster a d
  | added r miss e a ↦
      by_result Distinct rc roster a (Distinct-add roster (renamed rc (new_item rc.jid)) d miss)
  | removed f r split hit front a ↦
      by_result Distinct rc roster a
        (Distinct-less f.before f.after f.item (subst Distinct split d))
  | changed f r split hit front a ↦
      by_result Distinct rc roster a
        (Distinct-put f.before f.after f.item (renamed rc f.item) refl (subst Distinct split d))
]

or_contact-none : (o : Option RosterItem) → or_contact o none ≡ o
or_contact-none none = refl
or_contact-none (some x) = refl

-- What the items round the one that was found say about any address.
module _ (k j : Jid) (f : Found RosterItem) (hit : has_jid k f.item ≡ true) where
  contact-put_back :
      (x : RosterItem)
      → x.jid ≡ f.item.jid
      → contact j (put_back f x)
        ≡ or_contact (contact j f.before) (if compare k j true then some x else contact j f.after)
  contact-put_back x e =
      let same : has_jid j x ≡ compare k j true =
        ap (λ (i : Jid). compare i j true) e ∙ compare_left f.item.jid k j true hit in
      contact-append j f.before (x ∷ f.after) ∙ rw same refl

  contact_other :
      (x : RosterItem)
      → x.jid ≡ f.item.jid
      → compare k j true ≡ false
      → contact j (put_back f x) ≡ contact j (f.before ++ f.after)
  contact_other x e other =
      contact-put_back x e ∙ rw other (sym (contact-append j f.before f.after))

  contact_less :
      All (λ y. compare f.item.jid y.jid true ≡ false) f.after
      → All (λ y. has_jid k y ≡ false) f.before
      → compare k j true ≡ true
      → contact j (f.before ++ f.after) ≡ none
  contact_less behind front same =
      let there = compare_left f.item.jid k j true hit ∙ same in
      contact-append j f.before f.after
      ∙ rw (contact-none k j f.before same front, contact_behind k j f.item f.after there behind)
          refl

contact-apply_change :
    (rc : RosterChange) (roster : Roster) (j : Jid)
    → Distinct roster
    → contact j (after rc roster) ≡ change_map rc (λ k. contact k roster) j
contact-apply_change rc roster j d =
    let P = λ (r : Roster). contact j r ≡ change_map rc (λ k. contact k roster) j in
    elim (way rc roster) [
      | ignored r miss e a ↦ by_result P rc roster a (elim (Bool-cases (compare rc.jid j true)) [
        | inl same ↦ rw (r, same) (contact-none rc.jid j roster same miss)
        | inr other ↦ rw other refl
      ])
      | added r miss e a ↦ by_result P rc roster a (
          let x = renamed rc (new_item rc.jid) in
          let whole = contact-append j roster (x ∷ []) in
          elim (Bool-cases (compare rc.jid j true)) [
            | inl same ↦
                rw
                  (
                    whole,
                    contact-none rc.jid j roster same miss,
                    same,
                    r,
                    find_contact-none rc.jid roster e,
                  )
                  refl
            | inr other ↦ rw (whole, other, or_contact-none) refl
          ])
      | removed f r split hit front a ↦
          by_result P rc roster a (elim (Bool-cases (compare rc.jid j true)) [
            | inl same ↦
                rw (r, same)
                  (contact_less rc.jid j f hit
                    (Distinct-behind f.before f.after f.item (subst Distinct split d)) front same)
            | inr other ↦
                rw other
                  (sym (ap (contact j) split ∙ contact_other rc.jid j f hit f.item refl other))
          ])
      | changed f r split hit front a ↦ by_result P rc roster a (
          let was : contact rc.jid roster ≡ some f.item =
            ap (contact rc.jid) split ∙ contact_found rc.jid f.before f.after f.item front hit in
          elim (Bool-cases (compare rc.jid j true)) [
            | inl same ↦
                rw (r, same, was, contact-put_back rc.jid j f hit (renamed rc f.item) refl)
                  (rw (same, contact-none rc.jid j f.before same front) refl)
            | inr other ↦ rw other (
                contact_other rc.jid j f hit (renamed rc f.item) refl other
                ∙ sym (ap (contact j) split ∙ contact_other rc.jid j f hit f.item refl other))
          ])
    ]

-- Pointwise equal maps stay so.
change_maps-same :
    (changes : List RosterChange) (m n : Jid → Option RosterItem)
    → ((j : Jid) → m j ≡ n j)
    → (j : Jid) → change_maps changes m j ≡ change_maps changes n j
change_maps-same changes m n same j = ap (λ f. change_maps changes f j) (fun_ext same)

-- ApplyChanges keeps a contact list free of two items of one address.
pub apply_changes-Distinct :
    (changes : List RosterChange) (roster : Roster)
    → Distinct roster
    → Distinct ((apply_changes changes roster).0)
unfolding apply_changes
apply_changes-Distinct [] roster d = d
apply_changes-Distinct (rc ∷ changes) roster d =
    apply_changes-Distinct changes (after rc roster) (apply_change-Distinct rc roster d)

-- On a contact list without two items of one address, applyChanges makes the same contact of
-- every address as the changes make one after another on a map: a removal forgets the address,
-- any other change sets the name and the groups and keeps the subscription, or makes a new
-- contact with none.
pub apply_changes-change_maps :
    (changes : List RosterChange) (roster : Roster) (j : Jid)
    → Distinct roster
    → contact j ((apply_changes changes roster).0) ≡ change_maps changes (λ k. contact k roster) j
unfolding apply_changes
apply_changes-change_maps [] roster j d = refl
apply_changes-change_maps (rc ∷ changes) roster j d =
    apply_changes-change_maps changes (after rc roster) j (apply_change-Distinct rc roster d)
    ∙ change_maps-same changes (λ k. contact k (after rc roster))
        (change_map rc (λ k. contact k roster)) (λ k. contact-apply_change rc roster k d) j
