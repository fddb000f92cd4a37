-- ===== src/Repository/Members/Pairs.antt =====
-- How CheckConversationExist finds the conversation of two users.
use im_system.Common.{ℕ, ◌*◌, ◌≤◌, ◌<◌, ◌^◌, ◌≡◌, ◌≢◌, refl, ap, arith, ◌∙◌, true, some, ok, ◌&&◌}
use im_system.Common.{
  List, [], ◌∷◌, select, is_ok, ◌==◌, Result-cases, Found-cases, result_pair, inl, inr, Text,
  text_eq_refl,
}
use im_system.Model.{ConversationMember}
use im_system.Services.{IsTable, IsCache}
use im_system.Backend.{Backend, Store, fill_member}
use im_system.Repository.Keys.{conv_key_symm, parse_uint-itoa}
use im_system.Repository.Conversations.{conv_key, itoa, cache_conversation_id}
use im_system.Repository.Members.{
  seen, count_users, one_of, cached_conv, cached, query_conv, check_conversation_exist,
}

module _ (B : Backend) where
  pub cached_text :
      (cache : IsCache B.cache) (a b kind conv_id : ℕ) (st : Store B)
      → is_ok (cache_conversation_id B a b kind conv_id st).0 ≡ true
      → B.cache.text_at (cache_conversation_id B a b kind conv_id st).1.cache (conv_key kind b a)
        ≡ some (itoa conv_id, 5 * 60)
  unfolding cache_conversation_id
  cached_text cache a b kind conv_id st h =
      let key = conv_key kind a b in
      let (r, c) = B.cache.set key (itoa conv_id) (5 * 60) st.cache in
      elim (Result-cases r) [
        | inl (u, e) ↦
            cache.set_ok key (itoa conv_id) (5 * 60) st.cache c (conv_key kind b a)
              (result_pair _ _ e)
            ∙ rw (← conv_key_symm kind a b) (rw text_eq_refl)
        | inr (x, e) ↦ absurd (ground (arith, e))
      ]

  pub cached_conv_hit :
      (a b kind conv_id : ℕ) (v : Text) (st : Store B)
      → conv_id < 2 ^ 32
      → B.cache.get (conv_key kind a b) st.cache ≡ ok v
      → v ≡ itoa conv_id
      → cached_conv B a b kind st ≡ cached conv_id
  unfolding cached_conv
  cached_conv_hit a b kind conv_id v st small got e = rw (got, e, parse_uint-itoa conv_id small)

  check_hit :
      (a b kind conv_id : ℕ) (st : Store B)
      → cached_conv B a b kind st ≡ cached conv_id
      → (check_conversation_exist B a b kind st).0 ≡ ok conv_id
  unfolding check_conversation_exist
  check_hit a b kind conv_id st e = rw (e, check_conversation_exist)

  -- What CacheConversationID has stored for two users, CheckConversationExist finds for them in
  -- the same order and in the other one, as long as the key is there and Redis does not fail, for an
  -- id below 2 ^ 32.
  pub check_after_cache :
      (cache : IsCache B.cache) (a b kind conv_id : ℕ) (v : Text) (st : Store B)
      → conv_id < 2 ^ 32
      → is_ok (cache_conversation_id B a b kind conv_id st).0 ≡ true
      → B.cache.get (conv_key kind b a) (cache_conversation_id B a b kind conv_id st).1.cache ≡ ok v
      → let st1 = (cache_conversation_id B a b kind conv_id st).1 in
        ((check_conversation_exist B a b kind st1).0 ≡ ok conv_id)
        × ((check_conversation_exist B b a kind st1).0 ≡ ok conv_id)
  check_after_cache cache a b kind conv_id v st small stored got =
      let st1 = (cache_conversation_id B a b kind conv_id st).1 in
      let (t, shown) = cache.get_ok (conv_key kind b a) v st1.cache got in
      let same : v ≡ itoa conv_id =
        ground (arith, shown, cached_text cache a b kind conv_id st stored) in
      let got' : B.cache.get (conv_key kind a b) st1.cache ≡ ok v =
        ap (λ k. B.cache.get k st1.cache) (conv_key_symm kind a b) ∙ got in
      (
        check_hit a b kind conv_id st1 (cached_conv_hit a b kind conv_id v st1 small got' same),
        check_hit b a kind conv_id st1 (cached_conv_hit b a kind conv_id v st1 small got same),
      )

  -- All of the group are the one user, so the users of the group are not two.
  seen_one :
      (a k : ℕ) (m : ConversationMember) (ms : List ConversationMember)
      → one_of a a m ≡ true
      → select (λ q. one_of a a q && q.conversation_id == k) ms ≢ []
      → seen m.user_id (select (λ q. one_of a a q && q.conversation_id == k) ms) ≡ true
  seen_one a k m [] h ne = absurd (ne refl)
  seen_one a k m (x ∷ ms) h ne = ground (arith, seen_one a k m ms h)

  count_one :
      (a k : ℕ) (ms : List ConversationMember)
      → count_users (select (λ q. one_of a a q && q.conversation_id == k) ms) ≤ 1
  count_one a k [] = omega arith
  count_one a k (x ∷ ms) = ground (arith, seen_one a k x ms, count_one a k ms)

  -- MySQL is asked for conversations with two different users: for one user alone it reports none.
  query_conv_self :
      (table : IsTable B.members (λ r. r.id) fill_member) (a kind conv_id : ℕ) (st : Store B)
      → (query_conv B a a kind st).0 ≡ ok conv_id
      → conv_id ≡ 0
  unfolding query_conv
  query_conv_self table a kind conv_id st h =
      elim (Found-cases (
        B.members.find_group st.queries (one_of a a) (λ m. m.conversation_id)
          (λ ms. count_users ms == 2) st.members)) [
            | inl (x, e) ↦ ground (arith, e)
            | inr (inl e) ↦ ground (arith, e)
            | inr (inr (k, e)) ↦ absurd (
                ground (
                  arith,
                  table.find_group_some st.queries (one_of a a) _ (λ ms. count_users ms == 2) k
                      st.members e,
                  count_one a k (B.members.rows st.members),
                ))
          ]
