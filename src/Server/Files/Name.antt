-- ===== src/Server/Files/Name.antt =====
-- Names of files, and what two users that share one do to each other.
use ambrosia.Prelude.{
  ℕ, ◌/◌, ◌%◌, ◌≡◌, ◌∙◌, refl, sym, ap, ◌<◌, Bool, true, false, Option, some, [], ◌∷◌, ◌++◌,
  append_assoc, if◌then◌else◌, arith,
}
use ambrosia.Prelude.Texts.{Text, text_eq, text_eq_refl}
use ambrosia.Server.Files.{
  Env, User, Files, hex, hex_digit, normalize, reread, load_user, save_user,
}

pub normalize-append :
    (env : Env) (xs ys : Text) → normalize env (xs ++ ys) ≡ normalize env xs ++ normalize env ys
unfolding normalize
normalize-append env [] ys = refl
normalize-append env (c ∷ xs) ys =
    let escaped = if env.is_letter_or_number c then c ∷ [] else hex env c in
    ap (◌++◌ escaped) (normalize-append env xs ys)
    ∙ sym (append_assoc escaped (normalize env xs) (normalize env ys))

-- The hexadecimal digits are letters or numbers.
abbrev pub IsHexTest : Env → Type 0
IsHexTest env = (d : ℕ) → d < 16 → env.is_letter_or_number (hex_digit d) ≡ true

escape_kept :
    (env : Env) (c : ℕ) (ys : Text)
    → IsHexTest env
    → normalize env (hex env c ++ ys) ≡ hex env c ++ normalize env ys
unfolding normalize
escape_kept env c ys h =
    let b = env.to_latin1 c % 256 in
    let high = h (b / 16) (omega arith) in let low = h (b % 16) (omega arith) in rw (high, low) refl

-- Where the hexadecimal digits are letters or numbers, a user name with a character that is
-- neither has the same file as the name with the two digits of that character in its place.
pub normalize-hex :
    (env : Env) (c : ℕ) (xs ys : Text)
    → IsHexTest env
    → env.is_letter_or_number c ≡ false
    → normalize env (xs ++ (c ∷ ys)) ≡ normalize env (xs ++ (hex env c ++ ys))
unfolding normalize
normalize-hex env c xs ys h e =
    normalize-append env xs (c ∷ ys)
    ∙ rw e (ap (◌++◌ (normalize env xs)) (sym (escape_kept env c ys h)))
    ∙ sym (normalize-append env xs (hex env c ++ ys))

file_there :
    (file : Text) (can : Bool) (u : User) (o : Option User)
    → can ≡ true
    → (if can then (if text_eq file file then some u else o) else o) ≡ some u
file_there file can u o e = rw (e, text_eq_refl file) refl

-- A user that was saved is loaded with the vCard and the contacts whose subscription is one of
-- four, if the file can be written.
pub load_user-save_user :
    (env : Env) (username : Text) (user : User) (files : Files)
    → env.can_write (normalize env username) ≡ true
    → load_user env username (save_user env username user files)
      ≡ record user { roster = reread env.prep user.roster }
unfolding load_user save_user
load_user-save_user env username user files e =
    let file = normalize env username in
    rw (file_there file (env.can_write file) user (files file) e, save_user, load_user) refl

-- Users whose names give the same file name share the file.
pub load_user-normalize :
    (env : Env) (a b : Text) (files : Files)
    → normalize env a ≡ normalize env b
    → load_user env a files ≡ load_user env b files
unfolding load_user
load_user-normalize env a b files e = rw (e, load_user) refl
