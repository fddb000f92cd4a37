-- ===== src/Accounts/Names.antt =====
-- Registrations one after another give a name to one user.
use im_system.Common.{
  ℕ, Text, List, [], ◌∷◌, ◌++◌, ◌≡◌, ◌≢◌, sym, ap, arith, err, none, Result-cases, Bool-cases, inl,
  inr, result_pair, All, text_eq, text_eq_refl, ltb, length, is_user_not_found, user_not_found,
  find?,
}
use im_system.Services.{IsTable}
use im_system.Model.{User}
use im_system.Backend.{Backend, Store, fill_user}
use im_system.Repository.Users.{create_user, get_user_by_username}
use im_system.Accounts.{Crypt, new_user, check_password, register_user}
use im_system.Accounts.Login.{nobody}

abbrev pub DistinctNames : List User → Type 0
DistinctNames [] = Unit
DistinctNames (u ∷ us) = All (λ v. v.username ≢ u.username) us × DistinctNames us

unnamed :
    (name : Text) (us : List User)
    → find? (λ u. text_eq u.username name) us ≡ none
    → All (λ u. u.username ≢ name) us
unnamed name [] e = tt
unnamed name (u ∷ us) e = elim (Bool-cases (text_eq u.username name)) [
  | inl hit ↦ absurd (ground (arith, hit, e))
  | inr miss ↦ (
    λ same. absurd (ground (arith, miss, ap (λ n. text_eq n name) same, text_eq_refl name)),
    unnamed name us (ground (arith, miss, e)),
  )
]

All-snoc : (P : User → Type 0) (us : List User) (u : User) → All P us → P u → All P (us ++ u ∷ [])
All-snoc P [] u a p = (p, tt)
All-snoc P (v ∷ us) u a p = (a.0, All-snoc P us u a.1 p)

DistinctNames-snoc :
    (us : List User) (u : User)
    → DistinctNames us
    → All (λ v. v.username ≢ u.username) us
    → DistinctNames (us ++ u ∷ [])
DistinctNames-snoc [] u d a = (tt, tt)
DistinctNames-snoc (v ∷ us) u d a =
    (All-snoc _ us u d.0 (λ same. a.0 (sym same)), DistinctNames-snoc us u d.1 a.1)

module _ (B : Backend) (K : Crypt) (table : IsTable B.users (λ r. r.id) fill_user) where
  abbrev pub user_rows : Store B → List User
  user_rows st = B.users.rows st.users

  create_user-DistinctNames :
      (username hash : Text) (st : Store B)
      → find? (λ u. text_eq u.username username) (user_rows st) ≡ none
      → DistinctNames (user_rows st)
      → DistinctNames (user_rows (create_user B (new_user username hash) st).1)
  unfolding create_user
  create_user-DistinctNames username hash st fresh d =
      let (r, users') = B.users.create (new_user username hash) st.users in
      elim (Result-cases r) [
        | inr (x, e) ↦ rw (table.create_err _ x st.users users' (result_pair _ _ e)) d
        | inl (user, e) ↦
            let law =
              table.create_ok (new_user username hash) user st.users users' (result_pair _ _ e) in
            let (i, t, filled) = law.1 in
            let named : user.username ≡ username = ap {A = User} (λ u. u.username) filled in
            rw law.0 (
              DistinctNames-snoc (user_rows st) user d
                (rw named (unnamed username (user_rows st) fresh)))
      ]

  check_password-DistinctNames :
      (username password : Text) (salt : ℕ) (st : Store B)
      → find? (λ u. text_eq u.username username) (user_rows st) ≡ none
      → DistinctNames (user_rows st)
      → DistinctNames (user_rows (check_password B K username password salt st).1)
  check_password-DistinctNames username password salt st fresh d =
      elim (Bool-cases (text_eq password [])) [
        | inl empty ↦ rw empty d
        | inr filled ↦ elim (Bool-cases (ltb (length password) 8)) [
          | inl short ↦ rw (filled, short) d
          | inr long ↦ elim (Result-cases (K.generate password salt)) [
            | inr (x, e) ↦ rw (filled, long, e) d
            | inl (hash, e) ↦
                rw (filled, long, e) (create_user-DistinctNames username hash st fresh d)
          ]
        ]
      ]

  -- With a table of users that behaves as documented, where the lookup of the name did not fail
  -- with the code's own error: if no two users have the same name, that is so after Register too,
  -- whether it succeeds or fails.
  pub register_user-DistinctNames :
      (username password : Text) (salt : ℕ) (st : Store B)
      → B.users.first (λ u. text_eq u.username username) st.users ≢ err user_not_found
      → DistinctNames (user_rows st)
      → DistinctNames (user_rows (register_user B K username password salt st).1)
  unfolding register_user
  register_user-DistinctNames username password salt st own d =
      elim (Result-cases (get_user_by_username B username st)) [
        | inl (u, got) ↦ rw (got, register_user) d
        | inr (e, got) ↦ elim (Bool-cases (is_user_not_found e)) [
          | inr other ↦ rw (got, register_user, other) d
          | inl known ↦
              rw (got, register_user, known)
                (check_password-DistinctNames username password salt st
                  (nobody B K table username e st got known own) d)
        ]
      ]
