-- ===== src/Accounts.antt =====
-- internal/service/user.go: registration and login. bcrypt is the record Crypt; `salt` stands for
-- what GenerateFromPassword draws at random.
pub mod Login
pub mod Names
pub mod Race
use im_system.Common.{ℕ, Text, [], ◌≡◌, Bool, true, Result, ok, err, is_user_not_found}
use im_system.Common.{
  text_eq, ltb, length, if◌then◌else◌, username_taken, empty_password, short_password,
  not_registered, wrong_password,
}
use im_system.Model.{User}
use im_system.Backend.{Backend, Store}
use im_system.Repository.Users.{create_user, get_user_by_username}

pub record Crypt : Type 0 where
  pub generate : Text → ℕ → Result Text
  -- whether CompareHashAndPassword gives no error
  pub matches : Text → Text → Bool

pub record IsCrypt (K : Crypt) : Type 0 where
  pub matches-generate :
      (password hash : Text) (salt : ℕ)
      → K.generate password salt ≡ ok hash
      → K.matches hash password ≡ true

abbrev pub new_user : Text → Text → User
new_user username hash = record {
  id = 0;
  username = username;
  password = hash;
  nickname = [];
  avatar_url = [];
  created_at = 0;
}

abbrev pub hashed_user : Text → Result Text → Result User
hashed_user username (err e) = err e
hashed_user username (ok hash) = ok (new_user username hash)

module _ (B : Backend) (K : Crypt) where
  abbrev pub stored : Result User → Result (Unit {0})
  stored (ok user) = ok tt
  stored (err e) = err e

  abbrev pub store_user : Text → Result Text → Store B → Result (Unit {0}) × Store B
  store_user username (err e) st = (err e, st)
  store_user username (ok hash) st =
      let (r, st') = create_user B (new_user username hash) st in (stored r, st')

  -- From the tests of the password on; `len` counts bytes.
  abbrev pub check_password : Text → Text → ℕ → Store B → Result (Unit {0}) × Store B
  check_password username password salt st =
      if text_eq password []
      then (err empty_password, st)
      else if ltb (length password) 8
      then (err short_password, st)
      else store_user username (K.generate password salt) st

  unfoldable pub register_user : Text → Text → ℕ → Store B → Result (Unit {0}) × Store B
  register_user username password salt st = elim (get_user_by_username B username st) [
    | ok user ↦ (err username_taken, st)
    | err e ↦ if is_user_not_found e then check_password username password salt st else (err e, st)
  ]

  -- Register in two halves, between which another request may run: up to CreateUser, on the row
  -- that is to be inserted, and from there on.
  abbrev pub tested_password : Text → Text → ℕ → Result User
  tested_password username password salt =
      if text_eq password []
      then err empty_password
      else if ltb (length password) 8
      then err short_password
      else hashed_user username (K.generate password salt)

  unfoldable pub register_check : Text → Text → ℕ → Store B → Result User
  register_check username password salt st = elim (get_user_by_username B username st) [
    | ok user ↦ err username_taken
    | err e ↦ if is_user_not_found e then tested_password username password salt else err e
  ]

  unfoldable pub register_insert : User → Store B → Result (Unit {0}) × Store B
  register_insert row st = let (r, st') = create_user B row st in (stored r, st')

  unfoldable pub login : Text → Text → Store B → Result ℕ
  login username password st = elim (get_user_by_username B username st) [
    | err e ↦ if is_user_not_found e then err not_registered else err e
    | ok user ↦ if K.matches user.password password then ok user.id else err wrong_password
  ]
