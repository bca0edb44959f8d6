-- ===== src/Server/Roster/Contacts.antt =====
-- A roster as a map from addresses to contacts.
use ambrosia.Prelude.{
  ◌≡◌, refl, sym, true, false, Option, none, some, Bool-cases, inl, inr, [], ◌∷◌, ◌++◌, subst,
  if◌then◌else◌, arith,
}
use ambrosia.Prelude.Search.{find_first-none, All, All-put, All-less, All-append}
use ambrosia.Xmpp.Jid.{Jid, compare}
use ambrosia.Xmpp.Jid.Compare.{compare_right, compare_comm}
use ambrosia.Server.Roster.{RosterItem, Roster, has_jid, find_contact}

-- The contact with the address.
abbrev pub contact : Jid → Roster → Option RosterItem
contact j [] = none
contact j (x ∷ xs) = if has_jid j x then some x else contact j xs

-- No two items have the same address.
abbrev pub Distinct : Roster → Type 0
Distinct [] = Unit {0}
Distinct (x ∷ xs) = All (λ y. compare x.jid y.jid true ≡ false) xs × Distinct xs

abbrev pub or_contact : Option RosterItem → Option RosterItem → Option RosterItem
or_contact none other = other
or_contact (some x) other = some x

pub contact-append :
    (j : Jid) (xs ys : Roster) → contact j (xs ++ ys) ≡ or_contact (contact j xs) (contact j ys)
contact-append j [] ys = refl
contact-append j (x ∷ xs) ys = ground (arith, contact-append j xs ys)

pub contact-none :
    (k j : Jid) (xs : Roster)
    → compare k j true ≡ true
    → All (λ x. has_jid k x ≡ false) xs
    → contact j xs ≡ none
contact-none k j [] same h = refl
contact-none k j (x ∷ xs) same h =
    ground (arith, compare_right k j x.jid true same, contact-none k j xs same h.1)

-- The items behind one that has the address do not have it.
pub contact_behind :
    (k j : Jid) (item : RosterItem) (xs : Roster)
    → compare item.jid j true ≡ true
    → All (λ y. compare item.jid y.jid true ≡ false) xs
    → contact j xs ≡ none
contact_behind k j item [] same h = refl
contact_behind k j item (x ∷ xs) same h = elim (Bool-cases (compare x.jid j true)) [
  | inl hit ↦
      let back = compare_comm x.jid j true hit in
      absurd (ground (arith, compare_right j x.jid item.jid true back))
  | inr miss ↦ rw miss (contact_behind k j item xs same h.1)
]

abbrev Differs : RosterItem → RosterItem → Type 0
Differs x y = compare x.jid y.jid true ≡ false

pub Distinct-put :
    (xs ys : Roster) (x x' : RosterItem)
    → x'.jid ≡ x.jid
    → Distinct (xs ++ (x ∷ ys))
    → Distinct (xs ++ (x' ∷ ys))
Distinct-put [] ys x x' e h =
    (subst (λ (j : Jid). All (λ y. compare j y.jid true ≡ false) ys) (sym e) h.0, h.1)
Distinct-put (z ∷ xs) ys x x' e h =
    (All-put (Differs z) xs ys x x' (λ d. rw e d) h.0, Distinct-put xs ys x x' e h.1)

pub Distinct-less :
    (xs ys : Roster) (x : RosterItem) → Distinct (xs ++ (x ∷ ys)) → Distinct (xs ++ ys)
Distinct-less [] ys x h = h.1
Distinct-less (z ∷ xs) ys x h = (All-less (Differs z) xs ys x h.0, Distinct-less xs ys x h.1)

pub Distinct-add :
    (xs : Roster) (x : RosterItem)
    → Distinct xs
    → All (λ y. has_jid x.jid y ≡ false) xs
    → Distinct (xs ++ (x ∷ []))
Distinct-add [] x h k = (tt, tt)
Distinct-add (z ∷ xs) x h k =
    (All-append (Differs z) xs (x ∷ []) h.0 (k.0, tt), Distinct-add xs x h.1 k.1)

pub Distinct-behind :
    (xs ys : Roster) (x : RosterItem) → Distinct (xs ++ (x ∷ ys)) → All (Differs x) ys
Distinct-behind [] ys x h = h.0
Distinct-behind (z ∷ xs) ys x h = Distinct-behind xs ys x h.1

-- The search finds the contact.
pub find_contact-none : (j : Jid) (xs : Roster) → find_contact j xs ≡ none → contact j xs ≡ none
find_contact-none j [] e = refl
find_contact-none j (x ∷ xs) e =
    ground (arith, find_first-none (has_jid j) (x ∷ xs) e, find_contact-none j xs)

pub contact_found :
    (j : Jid) (xs ys : Roster) (x : RosterItem)
    → All (λ y. has_jid j y ≡ false) xs
    → has_jid j x ≡ true
    → contact j (xs ++ (x ∷ ys)) ≡ some x
contact_found j [] ys x h hit = rw hit refl
contact_found j (z ∷ xs) ys x h hit = rw h.0 (contact_found j xs ys x h.1 hit)
