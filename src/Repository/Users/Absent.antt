-- ===== src/Repository/Users/Absent.antt =====
-- The cached answer "no such user" after the user has come into being.
use im_system.Common.{ℕ, ◌≡◌, refl, arith, ap, some, none, ok, err, [], ◌∷◌, ◌*◌}
use im_system.Common.{
  ◌++◌, find?, find?-append_none, ◌==◌, ==_refl, ◌∙◌, result_pair, record_not_found,
}
use im_system.Model.{User}
use im_system.Services.{Hash}
use im_system.Backend.{Backend, Store, IsLawful}
use im_system.Repository.Users.{
  user_key, zero_user, unknown, absent, cached_user, read_hash, write_back, create_user, answer,
  get_user_by_user_id,
}
use im_system.Repository.Users.Answers.{to_hash-ne-nil, read_hash-to_hash, get_user-answer}

module _ (B : Backend) (law : IsLawful B) (id : ℕ) where
  abbrev with_absent : Store B → Store B
  with_absent st = write_back B id zero_user (5 * 60) st

  first_lookup :
      (st : Store B)
      → B.cache.hget_all (user_key id) st.cache ≡ ok []
      → B.users.first (λ u. u.id == id) st.users ≡ err record_not_found
      → (get_user_by_user_id B id st).1 ≡ with_absent st
  first_lookup st empty missing =
      let unasked : cached_user B id st ≡ unknown = unfold cached_user in ap (read_hash B) empty in
      rw (get_user-answer B law id st _ unasked) (unfold answer in rw missing)

  create-rows :
      (user user' : User) (st : Store B)
      → (create_user B user st).0 ≡ ok user'
      → B.users.rows (create_user B user st).1.users ≡ B.users.rows st.users ++ user' ∷ []
  create-rows user user' st made =
      unfold create_user in
      (law.users.create_ok user user' st.users _ (result_pair _ _ (unfold create_user in made))).0

  -- A cache that has the hash of `User{ID: 0}` under the key answers that there is no user.
  second_lookup :
      (st : Store B) (h : Hash) (t : ℕ)
      → B.cache.hash_at st.cache (user_key id) ≡ some (B.to_hash zero_user, t)
      → B.cache.hget_all (user_key id) st.cache ≡ ok h
      → (get_user_by_user_id B id st).0 ≡ ok none
  second_lookup st [] t at found =
      absurd (ground (arith, at, law.cache.hget_all_empty (user_key id) st.cache found))
  second_lookup st (x ∷ h) t at found =
      let (t', shown) = law.cache.hget_all_ok (user_key id) (x ∷ h) st.cache found (λ e. cc) in
      let zero_hash : x ∷ h ≡ B.to_hash zero_user = ground (arith, at, shown) in
      let known : cached_user B id st ≡ absent =
        unfold cached_user in
        ap (read_hash B) (found ∙ ap ok zero_hash) ∙ read_hash-to_hash B law zero_user in
      rw (get_user-answer B law id st absent known) (unfold answer in refl)

  -- A lookup of an id that nobody has, then the registration of a user who gets that id, then
  -- a lookup again, while Redis does not fail: the second lookup still says that there is no such
  -- user, though the table has the user.
  pub negative_cache_hides_user :
      (st : Store B) (user user' : User) (h : Hash)
      → user'.id ≡ id
      → B.cache.hget_all (user_key id) st.cache ≡ ok []
      → B.users.first (λ u. u.id == id) st.users ≡ err record_not_found
      → (B.cache.hset_expire (user_key id) (B.to_hash zero_user) (5 * 60) st.cache).0 ≡ ok tt
      → (create_user B user (get_user_by_user_id B id st).1).0 ≡ ok user'
      → B.cache.hget_all (user_key id) (create_user B user (get_user_by_user_id B id st).1).1.cache
        ≡ ok h
      → (find?
            (λ u. u.id == id)
            (B.users.rows (create_user B user (get_user_by_user_id B id st).1).1.users)
          ≡ some user')
        × ((get_user_by_user_id B id (create_user B user (get_user_by_user_id B id st).1).1).0
            ≡ ok none)
  unfolding write_back
  negative_cache_hides_user st user user' h same empty missing stored made found =
      let st1 = (get_user_by_user_id B id st).1 in
      let e1 = first_lookup st empty missing in
      let gone = law.users.first_none (λ u. u.id == id) st.users missing in
      (
        rw (create-rows user user' st1 made) (
            find?-append_none (λ u. u.id == id) (B.users.rows st1.users) user' (rw e1 gone)
              (rw same (==_refl id))),
        second_lookup (create_user B user st1).1 h (5 * 60)
            (unfold create_user in
              rw e1 (
                law.cache.hset_expire_ok (user_key id) (B.to_hash zero_user) (5 * 60) st.cache _
                  (to_hash-ne-nil B law zero_user)
                  (law.cache.hget_all_empty (user_key id) st.cache empty) (result_pair _ _ stored)))
            found,
      )
