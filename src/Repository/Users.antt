-- ===== src/Repository/Users.antt =====
-- internal/repository/user.go. Logging is left out.
pub mod Answers
pub mod Absent
pub mod Untouched
use im_system.Common.{◌*◌, ℕ, Text, bytes, text_eq, Option, none, some, List, [], ◌∷◌, ◌++◌, ◌==◌}
use im_system.Common.{Result, Error, ok, err, user_not_found, is_record_not_found, if◌then◌else◌}
use im_system.Common.Decimal.{decimal}
use im_system.Model.{User}
use im_system.Services.{Hash}
use im_system.Backend.{Backend, Store, hash_field}

abbrev pub user_key : ℕ → Text
user_key user_id = bytes "user:" ++ decimal user_id

-- `model.User{ID: 0}`
abbrev pub zero_user : User
zero_user = record {
  id = 0;
  username = [];
  password = [];
  nickname = [];
  avatar_url = [];
  created_at = 0;
}

-- What the cache says of a user: nothing, that there is none, or the user.
pub data Cached : Type 0 where
  unknown absent : Cached
  present : User → Cached

module _ (B : Backend) where
  unfoldable pub create_user : User → Store B → Result User × Store B
  create_user user st =
      let (r, users') = B.users.create user st.users in (r, record st { users = users' })

  abbrev found_by_name : Result User → Result User
  found_by_name (ok user) = ok user
  found_by_name (err e) = if is_record_not_found e then err user_not_found else err e

  unfoldable pub get_user_by_username : Text → Store B → Result User
  get_user_by_username username st =
      found_by_name (B.users.first (λ u. text_eq u.username username) st.users)

  abbrev scanned : Hash → Result User → Cached
  scanned h (err e) = unknown
  scanned h (ok user) =
      if text_eq (hash_field (bytes "id") h) (bytes "0") then absent else present user

  abbrev read_hash : Result Hash → Cached
  read_hash (err e) = unknown
  read_hash (ok []) = unknown
  read_hash (ok (f ∷ h)) = scanned (f ∷ h) (B.scan_user (f ∷ h))

  -- The part of GetUserByUserID that asks Redis.
  pub cached_user : ℕ → Store B → Cached
  cached_user user_id st = read_hash (B.cache.hget_all (user_key user_id) st.cache)

  -- The pipeline that writes a user back, with its time to live; an error is only logged.
  pub write_back : ℕ → User → ℕ → Store B → Store B
  write_back user_id user ttl st = record st {
    cache = (B.cache.hset_expire (user_key user_id) (B.to_hash user) ttl st.cache).1;
  }

  pub loaded : ℕ → Store B → Result User → Result (Option User) × Store B
  loaded user_id st (ok user) = (ok (some user), write_back user_id user (5 * 3600) st)
  loaded user_id st (err e) =
      if is_record_not_found e
      then (ok none, write_back user_id zero_user (5 * 60) st)
      else (err e, st)

  -- The part of GetUserByUserID that asks MySQL.
  pub load_user : ℕ → Store B → Result (Option User) × Store B
  unfolding loaded
  load_user user_id st = loaded user_id st (B.users.first (λ u. u.id == user_id) st.users)

  pub answer : ℕ → Store B → Cached → Result (Option User) × Store B
  unfolding load_user
  answer user_id st unknown = load_user user_id st
  answer user_id st absent = (ok none, st)
  answer user_id st (present user) = (ok (some user), st)

  unfoldable pub get_user_by_user_id : ℕ → Store B → Result (Option User) × Store B
  unfolding answer cached_user load_user write_back
  get_user_by_user_id user_id st = answer user_id st (cached_user user_id st)
