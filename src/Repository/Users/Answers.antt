-- ===== src/Repository/Users/Answers.antt =====
-- What GetUserByUserID answers, from the cache and from the table.
use im_system.Common.{ℕ, ◌≡◌, ◌≢◌, refl, arith, sym, ap, bytes, Option, some, none, ok, err}
use im_system.Common.{find?-sound, Result, [], ◌∷◌, find?, ◌==◌, if◌then◌else◌, ◌⊎◌, inl, inr, ◌∙◌}
use im_system.Common.{Result-cases, Bool-cases, is_record_not_found}
use im_system.Common.Decimal.{decimal, decimal-ne-nil, decimal_zero, text_eq-decimal}
use im_system.Model.{User}
use im_system.Services.{Hash}
use im_system.Backend.{Backend, Store, IsLawful, hash_field}
use im_system.Repository.Users.{
  Cached, unknown, absent, present, user_key, zero_user, cached_user, read_hash, load_user,
  get_user_by_user_id, answer,
}
use im_system.Common.{Error, record_not_found_of}

-- A user as the cache returns it: go-redis does not store the password.
abbrev first_of_pair {ℓ} : {A S : Type ℓ} → A × S → A
first_of_pair (a, s) = a

result_err : {A : Type 0} {r : Result A} {x y : Error} → r ≡ err x → x ≡ y → r ≡ err y
result_err p q = p ∙ ap err q

abbrev pub without_password : User → User
without_password u = record u { password = [] }

module _ (B : Backend) (law : IsLawful B) where
  pub to_hash-ne-nil : (u : User) → B.to_hash u ≢ []
  to_hash-ne-nil u e = decimal-ne-nil u.id (sym (law.to_hash_id u) ∙ ap (hash_field (bytes "id")) e)

  read_hash_of :
      (h : Hash) (v : User) (id : ℕ)
      → h ≢ []
      → B.scan_user h ≡ ok v
      → hash_field (bytes "id") h ≡ decimal id
      → read_hash B (ok h) ≡ (if id == 0 then absent else present v)
  read_hash_of [] v id ne s f = absurd (ne refl)
  read_hash_of (x ∷ h) v id ne s f = rw (s, f, ← decimal_zero, text_eq-decimal)

  pub read_hash-to_hash :
      (u : User)
      → read_hash B (ok (B.to_hash u))
        ≡ (if u.id == 0 then absent else present (without_password u))
  read_hash-to_hash u =
      read_hash_of (B.to_hash u) (without_password u) u.id (to_hash-ne-nil u) (law.scan-to_hash u)
        (law.to_hash_id u)

  -- The cache of one user agrees with the table: it holds the row, or that there is none.
  abbrev pub IsCoherent : ℕ → Store B → Type 0
  IsCoherent id st =
      (h : Hash) (t : ℕ)
      → B.cache.hash_at st.cache (user_key id) ≡ some (h, t)
      → ((h ≡ B.to_hash zero_user) × (find? (λ u. u.id == id) (B.users.rows st.users) ≡ none))
        ⊎ ((u : User) × (h ≡ B.to_hash u)
            × (find? (λ u. u.id == id) (B.users.rows st.users) ≡ some u))

  -- The user that the table has, as GetUserByUserID may report it.
  abbrev pub Reports : Option User → Option User → Type 0
  Reports none found = found ≡ none
  Reports (some v) none = ⊥
  Reports (some v) (some u) = without_password v ≡ without_password u

  read_hash-Reports :
      (id : ℕ) (st : Store B) (r : Result Hash) (c : Cached)
      → id ≢ 0
      → B.cache.hget_all (user_key id) st.cache ≡ r
      → IsCoherent id st
      → read_hash B r ≡ c
      → (c ≡ unknown)
        ⊎ ((c ≡ absent) × (find? (λ u. u.id == id) (B.users.rows st.users) ≡ none))
        ⊎ ((u : User) × (c ≡ present (without_password u))
            × (find? (λ u. u.id == id) (B.users.rows st.users) ≡ some u))
  read_hash-Reports id st (err e) c nz got coh h = inl (sym h)
  read_hash-Reports id st (ok []) c nz got coh h = inl (sym h)
  read_hash-Reports id st (ok (x ∷ hash)) c nz got coh h =
      let (t, at) = law.cache.hget_all_ok (user_key id) (x ∷ hash) st.cache got (λ e. cc) in
      elim (coh (x ∷ hash) t at) [
        | inl (e, gone) ↦
            inr (inl (sym h ∙ ap (λ y. read_hash B (ok y)) e ∙ read_hash-to_hash zero_user, gone))
        | inr (u, e, found) ↦ inr (
            inr (
              u,
              sym h
                  ∙ ap (λ y. read_hash B (ok y)) e
                  ∙ read_hash-to_hash u
                  ∙ ground (arith, find?-sound (λ v. v.id == id) (B.users.rows st.users) u found),
              found,
            ))
      ]

  load_user-Reports :
      (id : ℕ) (st : Store B) (o : Option User)
      → (load_user B id st).0 ≡ ok o
      → Reports o (find? (λ u. u.id == id) (B.users.rows st.users))
  unfolding load_user
  load_user-Reports id st o h = elim (Result-cases (B.users.first (λ u. u.id == id) st.users)) [
    | inl (u, e) ↦ ground (arith, e, law.users.first_ok _ u st.users e)
    | inr (x, e) ↦ elim (Bool-cases (is_record_not_found x)) [
      | inl missing ↦
          let gone =
            law.users.first_none (λ u. u.id == id) st.users
              (result_err e (record_not_found_of x missing)) in
          ground (arith, e, missing, gone)
      | inr other ↦ absurd (ground (arith, e, other))
    ]
  ]

  pub get_user-answer :
      (id : ℕ) (st : Store B) (c : Cached)
      → cached_user B id st ≡ c
      → get_user_by_user_id B id st ≡ answer B id st c
  get_user-answer id st c e = unfold get_user_by_user_id in ap (answer B id st) e

  -- For an id other than 0: if the cache of a user agrees with the table, then GetUserByUserID,
  -- where it gives no error, reports the row of the table without its password, or that there is
  -- none.
  pub get_user-Reports :
      (id : ℕ) (st : Store B) (o : Option User)
      → id ≢ 0
      → IsCoherent id st
      → (get_user_by_user_id B id st).0 ≡ ok o
      → Reports o (find? (λ u. u.id == id) (B.users.rows st.users))
  unfolding load_user answer
  get_user-Reports id st o nz coh h =
      elim (read_hash-Reports id st (B.cache.hget_all (user_key id) st.cache) (cached_user B id st)
        nz refl coh (unfold cached_user in refl)) [
          | inl e ↦
              load_user-Reports id st o
                (sym (ap first_of_pair (get_user-answer id st unknown e)) ∙ h)
          | inr (inl (e, gone)) ↦
              unfold answer in ground (arith, gone, get_user-answer id st absent e)
          | inr (inr (u, e, found)) ↦
              unfold answer in
              ground (arith, found, get_user-answer id st (present (without_password u)) e)
        ]
