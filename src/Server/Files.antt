-- ===== src/Server/Files.antt =====
-- The users' files: `User`, `hex`, `normalize`, `loadUser` and `saveUser` of src/main.cpp. What a
-- file holds is the user that was saved; a roster is read back item by item.
pub mod Name
use ambrosia.Prelude.{
  ℕ, ◌+◌, ◌/◌, ◌%◌, ltb, Bool, true, false, ◌||◌, Option, none, some, List, [], ◌∷◌, ◌++◌,
  if◌then◌else◌,
}
use ambrosia.Prelude.Texts.{Text, text_eq}
use ambrosia.Xmpp.Jid.{Prep, jid}
use ambrosia.Server.Roster.{
  Sub, sub_unset, sub_none, sub_from, sub_to, sub_both, sub_remove, RosterItem, Roster,
}
use ambrosia.Server.Stanza.{Element}

-- What the server is given: the profiles, the two tests of a character of Qt, and whether a file can
-- be written.
pub record Env : Type 0 where
  pub prep : Prep
  pub is_letter_or_number : ℕ → Bool
  pub to_latin1 : ℕ → ℕ
  pub can_write : Text → Bool

pub record User : Type 0 where
  pub roster : Roster
  pub vcard : Option Element

abbrev pub user_null : User
user_null = record { roster = []; vcard = none }

-- The files by name.
abbrev pub Files : Type 0
Files = Text → Option User

abbrev pub hex_digit : ℕ → ℕ
hex_digit d = if ltb d 10 then 48 + d else 87 + d

abbrev pub hex : Env → ℕ → Text
hex env c = let b = env.to_latin1 c % 256 in hex_digit (b / 16) ∷ hex_digit (b % 16) ∷ []

unfoldable pub normalize : Env → Text → Text
normalize env [] = []
normalize env (c ∷ s) = (if env.is_letter_or_number c then c ∷ [] else hex env c) ++ normalize env s

-- `RosterItem::toXml` and then `RosterItem::fromXml`, which takes four subscriptions.
abbrev pub is_stored : Sub → Bool
is_stored sub_unset = false
is_stored sub_remove = false
is_stored _ = true

abbrev pub reread : Prep → Roster → Roster
reread prep [] = []
reread prep (r ∷ rs) =
    if is_stored r.sub
    then record r { jid = jid prep r.jid.full } ∷ reread prep rs
    else reread prep rs

unfoldable pub load_user : Env → Text → Files → User
load_user env username files = elim (files (normalize env username)) [
  | none ↦ user_null
  | some u ↦ record u { roster = reread env.prep u.roster }
]

unfoldable pub save_user : Env → Text → User → Files → Files
save_user env username user files file =
    if env.can_write (normalize env username)
    then (if text_eq file (normalize env username) then some user else files file)
    else files file
