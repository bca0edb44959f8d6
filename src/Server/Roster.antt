-- ===== src/Server/Roster.antt =====
-- Contact lists: `RosterItem`, `RosterChange` and `Roster` of src/main.cpp.
pub mod Contacts
pub mod Changes
use ambrosia.Prelude.{
  ℕ, Bool, true, false, ◌&&◌, ◌||◌, not, Option, none, some, List, [], ◌∷◌, ◌++◌, if◌then◌else◌,
}
use ambrosia.Prelude.Texts.{Text}
use ambrosia.Prelude.Search.{Found, find_first}
use ambrosia.Xmpp.Jid.{Jid, jid_null, compare}

-- The texts that the field `sub` takes; `sub_unset` is the null string.
pub data Sub : Type 0 where
  sub_unset sub_none sub_from sub_to sub_both sub_remove : Sub

pub record RosterChange : Type 0 where
  pub jid : Jid
  pub name : Text
  pub remove : Bool
  pub groups : List Text

pub record RosterItem : Type 0 where
  pub jid : Jid
  pub name : Text
  pub sub : Sub
  pub ask : Bool
  pub groups : List Text

abbrev pub Roster : Type 0
Roster = List RosterItem

-- `sub == "from" || sub == "both"`, and `sub == "to" || sub == "both"`.
abbrev pub is_from : Sub → Bool
is_from sub_from = true
is_from sub_both = true
is_from _ = false

abbrev pub is_to : Sub → Bool
is_to sub_to = true
is_to sub_both = true
is_to _ = false

-- An item that the roster gets when there is none.
abbrev pub new_item : Jid → RosterItem
new_item jid = record { jid = jid; name = []; sub = sub_none; ask = false; groups = [] }

-- The loop that looks for the first item with the address.
abbrev pub has_jid : Jid → RosterItem → Bool
has_jid j r = compare r.jid j true

abbrev pub find_contact : Jid → Roster → Option (Found RosterItem)
find_contact j roster = find_first (has_jid j) roster

abbrev pub put_back : Found RosterItem → RosterItem → Roster
put_back f r = f.before ++ (r ∷ f.after)

abbrev pub renamed : RosterChange → RosterItem → RosterItem
renamed rc r = record r { name = rc.name; groups = rc.groups }

-- One round of `applyChanges`: the roster, and the items that it tells the client about.
unfoldable pub apply_change : RosterChange → Roster → Roster × List RosterItem
apply_change rc roster = elim (find_contact rc.jid roster) [
  | none ↦
      let added = renamed rc (new_item rc.jid) in
      if rc.remove then (roster, []) else (roster ++ (added ∷ []), added ∷ [])
  | some f ↦
      let changed = renamed rc f.item in
      let gone = record f.item { sub = sub_remove } in
      if rc.remove then (f.before ++ f.after, gone ∷ []) else (put_back f changed, changed ∷ [])
]

unfoldable pub apply_changes : List RosterChange → Roster → Roster × List RosterItem
apply_changes [] roster = (roster, [])
apply_changes (rc ∷ changes) roster =
    let (next, out) = apply_change rc roster in
    let (last, rest) = apply_changes changes next in (last, out ++ rest)
