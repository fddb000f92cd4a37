-- ===== src/Accounts/Race.antt =====
-- Two registrations of one name at once.
use im_system.Common.{
  ℕ, Text, [], ◌∷◌, ◌++◌, ◌<◌, ◌≡◌, ◌≢◌, refl, sym, ap, ◌∙◌, arith, ok, err, none, some, true,
  Result-cases, Bool-cases, inl, inr, result_pair, text_eq, text_eq_refl, ltb, length,
  is_user_not_found, user_not_found, find?, find?-append_none, append_one, Bool, All-Among,
  Among-last, Among, find?-append_some,
}
use im_system.Services.{IsTable}
use im_system.Model.{User}
use im_system.Backend.{Backend, Store, fill_user}
use im_system.Repository.Users.{create_user, get_user_by_username}
use im_system.Accounts.{
  Crypt, new_user, register_user, register_check, register_insert, login, tested_password,
}
use im_system.Accounts.Login.{nobody}

module _ (B : Backend) (K : Crypt) where
  -- Without anything in between, the two halves are Register.
  register_halves :
      (username password : Text) (salt : ℕ) (st : Store B)
      → register_user B K username password salt st
        ≡ elim (register_check B K username password salt st) [
          | err e ↦ (err e, st)
          | ok row ↦ register_insert B K row st
        ]
  unfolding register_user register_check register_insert
  register_halves username password salt st =
      elim (Result-cases (get_user_by_username B username st)) [
        | inl (user, e) ↦ rw (e, register_user) refl
        | inr (x, e) ↦ elim (Bool-cases (is_user_not_found x)) [
          | inr other ↦ rw (e, register_user, other) refl
          | inl known ↦
              rw (e, register_user, known)
                (elim (Bool-cases (text_eq password [])) [
                  | inl empty ↦ rw empty refl
                  | inr filled ↦ elim (Bool-cases (ltb (length password) 8)) [
                    | inl short ↦ rw (filled, short) refl
                    | inr long ↦
                        rw (filled, long)
                          (elim (Result-cases (K.generate password salt)) [
                            | inl (hash, f) ↦ rw f refl
                            | inr (y, f) ↦ rw f refl
                          ])
                  ]
                ])
        ]
      ]

  named_after :
      (username password : Text) (salt : ℕ) (row : User)
      → tested_password B K username password salt ≡ ok row
      → row.username ≡ username
  named_after username password salt row e = elim (Result-cases (K.generate password salt)) [
    | inl (hash, f) ↦
        let made : new_user username hash ≡ row = ground (arith, f, e) in
        sym (ap {A = User} (λ u. u.username) made)
    | inr (x, f) ↦ absurd (ground (arith, f, e))
  ]

  module _ (table : IsTable B.users (λ r. r.id) fill_user) where
    free_name :
        (username password : Text) (salt : ℕ) (st : Store B) (row : User)
        → B.users.first (λ u. text_eq u.username username) st.users ≢ err user_not_found
        → register_check B K username password salt st ≡ ok row
        → (find? (λ u. text_eq u.username username) (B.users.rows st.users) ≡ none)
          × (row.username ≡ username)
    unfolding register_check
    free_name username password salt st row own e =
        elim (Result-cases (get_user_by_username B username st)) [
          | inl (user, got) ↦ absurd (ground (arith, got, e))
          | inr (x, got) ↦ elim (Bool-cases (is_user_not_found x)) [
            | inr other ↦ absurd (ground (arith, got, other, e))
            | inl known ↦ (
              nobody B K table username x st got known own,
              named_after username password salt row (ground (arith, got, known, e)),
            )
          ]
        ]

    -- What an insert that succeeds adds.
    inserted :
        (row : User) (st : Store B)
        → (register_insert B K row st).0 ≡ ok tt
        → (u : User) × (B.users.rows (register_insert B K row st).1.users
            ≡ B.users.rows st.users ++ u ∷ [])
          × (u.username ≡ row.username)
          × ((v : User) → Among v (B.users.rows st.users) → v.id < u.id)
    unfolding register_insert create_user
    inserted row st e =
        let q = B.users.create row st.users in
        elim (Result-cases q.0) [
          | inr (x, f) ↦ absurd (ground (arith, f, e))
          | inl (u, f) ↦
              let (rows, (i, t, filled), above) = table.create_ok row u _ _ (result_pair q _ f) in
              (u, rows, ap {A = User} (λ r. r.username) filled, λ v h. All-Among _ v _ above h)
        ]

    -- Two rows have the name, and Login never gives the id of the second.
    pub record Shadowed (username : Text) (st st' : Store B) : Type 0 where
      pub first : User
      pub second : User
      pub rows : B.users.rows st'.users ≡ B.users.rows st.users ++ first ∷ second ∷ []
      pub first_named : first.username ≡ username
      pub second_named : second.username ≡ username
      pub apart : first.id < second.id
      pub shadowed : (password : Text) → login B K username password st' ≢ ok second.id

    login_of :
        (username password : Text) (st : Store B) (u : User) (id : ℕ)
        → find? (λ r. text_eq r.username username) (B.users.rows st.users) ≡ some u
        → login B K username password st ≡ ok id
        → id ≡ u.id
    unfolding login get_user_by_username
    login_of username password st u id at_u e =
        let first = B.users.first (λ r. text_eq r.username username) st.users in
        elim (Result-cases first) [
          | inr (x, f) ↦ absurd (ground (arith, f, e))
          | inl (r, f) ↦
              let found = table.first_ok (λ r. text_eq r.username username) r st.users f in
              let same : r ≡ u = cc (found, at_u) in
              let of_r : r.id ≡ id = ground (arith, f, e) in
              sym of_r ∙ ap {A = User} (λ r. r.id) same
        ]

    -- With a table of users that behaves as documented, whose lookup did not fail with the code's own
    -- error: two requests register a free name, and both have passed every test of Register before
    -- either inserts. If both inserts succeed, two rows have the name, and Login under that name
    -- never gives the id of the second, whatever the password.
    pub registers_twice :
        (username password password' : Text) (salt salt' : ℕ) (row row' : User) (st : Store B)
        → B.users.first (λ u. text_eq u.username username) st.users ≢ err user_not_found
        → register_check B K username password salt st ≡ ok row
        → register_check B K username password' salt' st ≡ ok row'
        → (register_insert B K row st).0 ≡ ok tt
        → (register_insert B K row' (register_insert B K row st).1).0 ≡ ok tt
        → Shadowed username st (register_insert B K row' (register_insert B K row st).1).1
    registers_twice username password password' salt salt' row row' st own e e' done done' =
        let (fresh, named) = free_name username password salt st row own e in
        let (_, named') = free_name username password' salt' st row' own e' in
        let st1 = (register_insert B K row st).1 in
        let (u, rows, u_named, _) = inserted row st done in
        let (v, rows', v_named, above) = inserted row' st1 done' in
        let test : User → Bool = λ r. text_eq r.username username in
        let both = B.users.rows st.users ++ u ∷ v ∷ [] in
        let all : B.users.rows (register_insert B K row' st1).1.users ≡ both =
          rows' ∙ ap (λ rs. rs ++ v ∷ []) rows ∙ append_one (B.users.rows st.users) u (v ∷ []) in
        let at_u : test u ≡ true = rw (u_named, named) (text_eq_refl username) in
        let seen : find? test (B.users.rows (register_insert B K row' st1).1.users) ≡ some u =
          rw rows' (
            find?-append_some test (B.users.rows st1.users) (v ∷ []) u
              (rw rows (find?-append_none test (B.users.rows st.users) u fresh at_u))) in
        let later : u.id < v.id = above u (rw rows (Among-last u (B.users.rows st.users))) in
        record {
          first = u;
          second = v;
          rows = all;
          first_named = u_named ∙ named;
          second_named = v_named ∙ named';
          apart = later;
          shadowed = λ password e. omega (arith, later, login_of username password _ u v.id seen e);
        }
