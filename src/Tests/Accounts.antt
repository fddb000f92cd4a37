-- ===== src/Tests/Accounts.antt =====
-- A user registers and logs in. The hash is the password here.
use im_system.Common.{
  ◌≡◌, ◌≢◌, refl, arith, bytes, ok, err, ◌∷◌, [], ◌++◌, text_eq, text_eq_refl, user_not_found,
}
use im_system.Model.{User}
use im_system.Backend.{Store}
use im_system.Repository.Users.{create_user, get_user_by_username}
use im_system.Model.{User}
use im_system.Accounts.{
  Crypt, IsCrypt, new_user, register_user, register_check, register_insert, login,
}
use im_system.Accounts.Race.{Shadowed, registers_twice}
use im_system.Accounts.Login.{login_after_register}
use im_system.Accounts.Names.{DistinctNames, user_rows, register_user-DistinctNames}
use im_system.Tests.Fixture.{demo, demo-IsLawful, store}

abbrev pub plain : Crypt
plain = record { generate = λ password salt. ok password; matches = text_eq }

plain-IsCrypt : IsCrypt plain
plain-IsCrypt = record {
  matches-generate = λ password hash salt e.
      let same : password ≡ hash = ground (arith, e) in rw same (text_eq_refl hash);
}

abbrev registered : Store demo
registered = (register_user demo plain (bytes "cy") (bytes "password") 0 store).1

cy_registers : (register_user demo plain (bytes "cy") (bytes "password") 0 store).0 ≡ ok tt
unfolding register_user get_user_by_username text_eq create_user
cy_registers = refl

not_own : demo.users.first (λ u. text_eq u.username (bytes "cy")) store.users ≢ err user_not_found
not_own e = ground (arith, e)

login_after_register_example :
    (user : User) × (demo.users.rows registered.users ≡ demo.users.rows store.users ++ user ∷ [])
    × (login demo plain (bytes "cy") (bytes "password") registered ≡ ok user.id)
unfolding register_user get_user_by_username text_eq create_user
login_after_register_example =
    login_after_register demo plain demo-IsLawful.users plain-IsCrypt (bytes "cy")
      (bytes "password") 0 store not_own cy_registers refl

names_differ : DistinctNames (user_rows demo plain demo-IsLawful.users store)
names_differ = ((λ e. ground (arith, e), tt), (tt, tt))

register_user-DistinctNames_example :
    DistinctNames (user_rows demo plain demo-IsLawful.users registered)
register_user-DistinctNames_example =
    register_user-DistinctNames demo plain demo-IsLawful.users (bytes "cy") (bytes "password") 0
      store not_own names_differ

-- Two users who ask for one name at once.
abbrev dee_first : User
dee_first = new_user (bytes "dee") (bytes "password")

abbrev dee_second : User
dee_second = new_user (bytes "dee") (bytes "longer-password")

dee_asks : register_check demo plain (bytes "dee") (bytes "password") 0 store ≡ ok dee_first
unfolding register_check get_user_by_username text_eq
dee_asks = refl

dee_asks_too :
    register_check demo plain (bytes "dee") (bytes "longer-password") 0 store ≡ ok dee_second
unfolding register_check get_user_by_username text_eq
dee_asks_too = refl

not_own_dee :
    demo.users.first (λ u. text_eq u.username (bytes "dee")) store.users ≢ err user_not_found
not_own_dee e = ground (arith, e)

abbrev dee_stored : Store demo
dee_stored = (register_insert demo plain dee_first store).1

dee_added : (register_insert demo plain dee_first store).0 ≡ ok tt
unfolding register_insert create_user
dee_added = refl

dee_added_too : (register_insert demo plain dee_second dee_stored).0 ≡ ok tt
unfolding register_insert create_user
dee_added_too = refl

registers_twice_example :
    Shadowed demo plain demo-IsLawful.users
      (bytes "dee")
      store
      (register_insert demo plain dee_second dee_stored).1
registers_twice_example =
    registers_twice demo plain demo-IsLawful.users (bytes "dee") (bytes "password")
      (bytes "longer-password") 0 0 dee_first dee_second store not_own_dee dee_asks dee_asks_too
      dee_added dee_added_too
