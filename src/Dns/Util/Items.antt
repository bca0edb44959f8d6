-- ===== src/Dns/Util/Items.antt =====
-- `jdns_list_t` of iris/irisnet/jdns/jdns_util.c. The array `item` is a list, null when it is empty.
use ambrosia.Prelude.{
  ℕ, zero, suc, ◌+◌, ◌≤◌, ◌≡◌, refl, Bool, false, ◌||◌, Option, none, some, List, [], ◌∷◌, ◌++◌,
  length, take, drop, ltb, leb, if◌then◌else◌, arith,
}
use ambrosia.Dns.Memory.{Outcome, done, fault}

pub record Items {ℓ} (A : Type ℓ) : Type ℓ where
  pub item : List A
  pub value_list : Bool
  pub auto_delete : Bool

-- A list after an operation, and the items that the operation deleted.
pub record Changed {ℓ} (A : Type ℓ) : Type ℓ where
  pub after : Items A
  pub deleted : List A

module _ {ℓ} {A : Type ℓ} where
  abbrev pub jdns_list_new : Items A
  jdns_list_new = record { item = []; value_list = false; auto_delete = false }

  abbrev pub with_items : Items A → List A → Items A
  with_items a xs = record { item = xs; value_list = a.value_list; auto_delete = a.auto_delete }

  abbrev each : (A → A) → List A → List A
  each f [] = []
  each f (x ∷ xs) = f x ∷ each f xs

  -- `cctor` is the copy constructor of the items.
  unfoldable pub jdns_list_copy : (A → A) → Items A → Items A
  jdns_list_copy cctor a =
      let copied = if a.value_list then each cctor a.item else a.item in
      if a.auto_delete
      then jdns_list_new
      else record { item = copied; value_list = a.value_list; auto_delete = false }

  abbrev pub owned : Items A → List A → List A
  owned a xs = if a.value_list || a.auto_delete then xs else []

  unfoldable pub jdns_list_clear : Items A → Changed A
  jdns_list_clear a = record { after = with_items a []; deleted = owned a a.item }

  -- A `pos` of -1 is `none`. Moving the items from behind the end on is undefined.
  unfoldable pub jdns_list_insert : (A → A) → Items A → A → Option ℕ → Outcome (Items A)
  jdns_list_insert cctor a item none =
      done (with_items a (a.item ++ ((if a.value_list then cctor item else item) ∷ [])))
  jdns_list_insert cctor a item (some pos) =
      if ltb (length a.item) pos
      then fault
      else done (
          with_items a
            (take pos a.item ++ ((if a.value_list then cctor item else item) ∷ drop pos a.item)))

  -- A negative `pos` is `none`.
  unfoldable pub jdns_list_remove_at : Items A → Option ℕ → Changed A
  jdns_list_remove_at a none = record { after = a; deleted = [] }
  jdns_list_remove_at a (some pos) =
      if leb (length a.item) pos then record { after = a; deleted = [] } else record {
        after = with_items a (take pos a.item ++ drop (suc pos) a.item);
        deleted = owned a (take 1 (drop pos a.item));
      }

  -- The search of `jdns_list_remove`; `same` compares two pointers.
  abbrev find_item : (A → A → Bool) → A → ℕ → List A → Option ℕ
  find_item same item n [] = none
  find_item same item n (x ∷ xs) = if same x item then some n else find_item same item (n + 1) xs

  unfoldable pub jdns_list_remove : (A → A → Bool) → Items A → A → Changed A
  jdns_list_remove same a item = jdns_list_remove_at a (find_item same item 0 a.item)

  take-insert :
      (n : ℕ) (x : A) (xs : List A)
      → n ≤ length xs
      → (take n (take n xs ++ (x ∷ drop n xs)) ≡ take n xs)
        × (drop n (take n xs ++ (x ∷ drop n xs)) ≡ (x ∷ drop n xs))
        × (take n xs ++ drop n xs ≡ xs)
        × (drop (suc n) (take n xs ++ (x ∷ drop n xs)) ≡ drop n xs)
        × (length (take n xs ++ (x ∷ drop n xs)) ≡ suc (length xs))
  take-insert zero x xs h = (refl, refl, refl, refl, refl)
  take-insert (suc n) x [] h = elim h [ ]
  take-insert (suc n) x (y ∷ ys) h =
      let (a, b, c, d, e) = take-insert n x ys (omega arith) in
      (rw a refl, b, rw c refl, d, omega (arith, e))

  -- Removing the item at the place where one was inserted gives the list as it was, and deletes what
  -- was inserted, which is a copy in a value list, if the list owns its items.
  pub remove_at-insert :
      (cctor : A → A) (a : Items A) (x : A) (pos : ℕ)
      → pos ≤ length a.item
      → (b : Items A) × (jdns_list_insert cctor a x (some pos) ≡ done b)
        × ((jdns_list_remove_at b (some pos)).after ≡ a)
        × ((jdns_list_remove_at b (some pos)).deleted
            ≡ owned a ((if a.value_list then cctor x else x) ∷ []))
  unfolding jdns_list_insert jdns_list_remove_at
  remove_at-insert cctor a x pos h =
      let y = if a.value_list then cctor x else x in
      let (p, q, r, s, l) = take-insert pos y a.item h in
      let inside : ltb (length a.item) pos ≡ false = ground arith in
      let there : leb (length (take pos a.item ++ (y ∷ drop pos a.item))) pos ≡ false =
        ground (arith, l) in
      (
        with_items a (take pos a.item ++ (y ∷ drop pos a.item)),
        rw inside refl,
        rw (there, p, s, r) refl,
        rw (there, q) refl,
      )
