-- ===== src/Repository/Users/Untouched.antt =====
-- Looking up a user leaves the tables alone.
use im_system.Common.{ℕ, arith, Result, ok, err}
use im_system.Model.{User}
use im_system.Backend.{Backend, Store, SameTables, SameTables-refl}
use im_system.Repository.Users.{
  Cached, unknown, absent, present, write_back, loaded, load_user, answer, get_user_by_user_id,
}

module _ (B : Backend) where
  loaded-SameTables :
      (user_id : ℕ) (st : Store B) (r : Result User) → SameTables (loaded B user_id st r).1 st
  unfolding loaded write_back
  loaded-SameTables user_id st (ok user) = ground arith
  loaded-SameTables user_id st (err e) = ground arith

  answer-SameTables :
      (user_id : ℕ) (st : Store B) (c : Cached) → SameTables (answer B user_id st c).1 st
  unfolding answer load_user
  answer-SameTables user_id st unknown = loaded-SameTables user_id st _
  answer-SameTables user_id st absent = SameTables-refl
  answer-SameTables user_id st (present user) = SameTables-refl

  pub get_user-SameTables :
      (user_id : ℕ) (st : Store B) → SameTables (get_user_by_user_id B user_id st).1 st
  unfolding get_user_by_user_id
  get_user-SameTables user_id st = answer-SameTables user_id st _
