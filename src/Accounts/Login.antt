-- ===== src/Accounts/Login.antt =====
-- A user who has registered can log in.
use im_system.Common.{
  ℕ, Error, Text, [], ◌∷◌, ◌++◌, ◌≡◌, ◌≢◌, ◌≤◌, refl, sym, ap, arith, true, ok, err, none, some,
  Result-cases, Bool-cases, inl, inr, result_pair, is_ok, text_eq, text_eq_refl, ltb, length,
  is_record_not_found, is_user_not_found, user_not_found, record_not_found_of, find?,
  find?-append_none, ◌∙◌, Bool,
}
use im_system.Services.{IsTable}
use im_system.Model.{User}
use im_system.Backend.{Backend, Store, fill_user}
use im_system.Repository.Users.{create_user, get_user_by_username}
use im_system.Accounts.{Crypt, IsCrypt, new_user, check_password, store_user, register_user, login}

module _ (B : Backend) (K : Crypt) where
  -- A registration of `username` added the row `user`: nobody had the name, the password has at
  -- least 8 bytes and is stored as its hash.
  pub record Registered (username password : Text) (salt : ℕ) (st st' : Store B) : Type 0 where
    pub user : User
    pub rows : B.users.rows st'.users ≡ B.users.rows st.users ++ user ∷ []
    pub fresh : find? (λ u. text_eq u.username username) (B.users.rows st.users) ≡ none
    pub named : user.username ≡ username
    pub hashed : K.generate password salt ≡ ok user.password
    pub long : 8 ≤ length password

  user_not_found_of : (e : Error) → is_user_not_found e ≡ true → e ≡ user_not_found
  user_not_found_of e h = ground arith

  module _ (table : IsTable B.users (λ r. r.id) fill_user) where
    pub nobody :
        (username : Text) (e : Error) (st : Store B)
        → get_user_by_username B username st ≡ err e
        → is_user_not_found e ≡ true
        → B.users.first (λ u. text_eq u.username username) st.users ≢ err user_not_found
        → find? (λ u. text_eq u.username username) (B.users.rows st.users) ≡ none
    unfolding get_user_by_username
    nobody username e st got known own =
        let first = B.users.first (λ u. text_eq u.username username) st.users in
        elim (Result-cases first) [
          | inl (u, f) ↦ absurd (ground (arith, f, got))
          | inr (x, f) ↦ elim (Bool-cases (is_record_not_found x)) [
            | inl missing ↦ table.first_none _ st.users (f ∙ ap err (record_not_found_of x missing))
            | inr other ↦
                absurd
                  (own (f ∙ ap err (user_not_found_of x (ground (arith, f, got, other, known)))))
          ]
        ]

    added :
        (username password hash : Text) (salt : ℕ) (st : Store B)
        → find? (λ u. text_eq u.username username) (B.users.rows st.users) ≡ none
        → 8 ≤ length password
        → K.generate password salt ≡ ok hash
        → (store_user B K username (ok hash) st).0 ≡ ok tt
        → Registered username password salt st (store_user B K username (ok hash) st).1
    unfolding create_user
    added username password hash salt st fresh long made h =
        let (r, users') = B.users.create (new_user username hash) st.users in
        elim (Result-cases r) [
          | inr (x, e) ↦ absurd (ground (arith, h, e))
          | inl (user, e) ↦
              let law =
                table.create_ok (new_user username hash) user st.users users' (result_pair _ _ e) in
              let (i, t, filled) = law.1 in
              record {
                user = user;
                rows = law.0;
                fresh = fresh;
                named = ap {A = User} (λ u. u.username) filled;
                hashed = made ∙ ap ok (sym (ap {A = User} (λ u. u.password) filled));
                long = long;
              }
        ]

    check_password-Registered :
        (username password : Text) (salt : ℕ) (st : Store B)
        → find? (λ u. text_eq u.username username) (B.users.rows st.users) ≡ none
        → (check_password B K username password salt st).0 ≡ ok tt
        → Registered username password salt st (check_password B K username password salt st).1
    check_password-Registered username password salt st fresh h =
        elim (Bool-cases (text_eq password [])) [
          | inl empty ↦ absurd (ground (arith, empty, h))
          | inr filled ↦ elim (Bool-cases (ltb (length password) 8)) [
            | inl short ↦ absurd (ground (arith, filled, short, h))
            | inr long ↦ elim (Result-cases (K.generate password salt)) [
              | inr (x, e) ↦ absurd (ground (arith, filled, long, e, h))
              | inl (hash, e) ↦
                  rw (filled, long, e)
                    (added username password hash salt st fresh (ground arith) e
                      (ground (arith, filled, long, e, h)))
            ]
          ]
        ]

    -- With a table of users that behaves as documented, where the lookup of the name did not fail
    -- with the code's own error: a successful Register adds one row, of a name that nobody had,
    -- with the hash of a password of at least 8 bytes.
    pub register_user-Registered :
        (username password : Text) (salt : ℕ) (st : Store B)
        → B.users.first (λ u. text_eq u.username username) st.users ≢ err user_not_found
        → (register_user B K username password salt st).0 ≡ ok tt
        → Registered username password salt st (register_user B K username password salt st).1
    unfolding register_user
    register_user-Registered username password salt st own h =
        elim (Result-cases (get_user_by_username B username st)) [
          | inl (u, got) ↦ absurd (ground (arith, got, h))
          | inr (e, got) ↦ elim (Bool-cases (is_user_not_found e)) [
            | inr other ↦ absurd (ground (arith, got, other, h))
            | inl known ↦
                rw (got, register_user, known)
                  (check_password-Registered username password salt st
                    (nobody username e st got known own) (ground (arith, got, known, h)))
          ]
        ]

    login_found :
        (username password : Text) (user : User) (st : Store B)
        → B.users.first (λ u. text_eq u.username username) st.users ≡ ok user
        → K.matches user.password password ≡ true
        → login B K username password st ≡ ok user.id
    unfolding login get_user_by_username
    login_found username password user st e m = rw (e, login, m) refl

    found_added :
        (username password : Text) (salt : ℕ) (st st' : Store B)
        (g : Registered username password salt st st') (u : User)
        → B.users.first (λ u. text_eq u.username username) st'.users ≡ ok u
        → u ≡ g.user
    found_added username password salt st st' g u e =
        let p : User → Bool = λ u. text_eq u.username username in
        let named : p g.user ≡ true = rw g.named (text_eq_refl username) in
        let old : find? p (B.users.rows st'.users) ≡ some u = table.first_ok p u st'.users e in
        let new : find? p (B.users.rows st'.users) ≡ some g.user =
          ap (find? p) g.rows ∙ find?-append_none p (B.users.rows st.users) g.user g.fresh named in
        cc (old, new)

    -- With bcrypt and a table of users that behave as documented, where no lookup of the name
    -- failed with the code's own error: after a successful Register, Login with the same name and
    -- password, if its query does not fail, gives the id of the row that Register added.
    pub login_after_register :
        (crypt : IsCrypt K) (username password : Text) (salt : ℕ) (st : Store B)
        → B.users.first (λ u. text_eq u.username username) st.users ≢ err user_not_found
        → (register_user B K username password salt st).0 ≡ ok tt
        → let st' = (register_user B K username password salt st).1 in
          is_ok (B.users.first (λ u. text_eq u.username username) st'.users) ≡ true
          → (user : User) × (B.users.rows st'.users ≡ B.users.rows st.users ++ user ∷ [])
            × (login B K username password st' ≡ ok user.id)
    login_after_register crypt username password salt st own h asked =
        let st' = (register_user B K username password salt st).1 in
        let g = register_user-Registered username password salt st own h in
        elim (Result-cases (B.users.first (λ u. text_eq u.username username) st'.users)) [
          | inr (x, e) ↦ absurd (ground (arith, e, asked))
          | inl (u, e) ↦ (
            g.user,
            g.rows,
            login_found username password g.user st'
                (e ∙ ap ok (found_added username password salt st st' g u e))
                (crypt.matches-generate password g.user.password salt g.hashed),
          )
        ]
