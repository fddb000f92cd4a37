-- ===== src/Repository/Members/Again.antt =====
-- What CheckConversationExist has found in the tables, it finds in Redis afterwards.
use im_system.Common.{
  ℕ, ◌<◌, ◌^◌, ◌≡◌, ◌≢◌, Text, subst, refl, sym, ap, arith, ◌∙◌, some, none, ok, err, Result,
  result_pair, inl, inr, ◌⊎◌, text_eq_refl, Option, Bool-cases, is_record_not_found,
}
use im_system.Common.Decimal.{decimal, parse_uint-decimal}
use im_system.Model.{Conversation}
use im_system.Services.{IsCache}
use im_system.Backend.{Backend, Store}
use im_system.Repository.Keys.{conv_key_symm}
use im_system.Repository.Conversations.{conv_key}
use im_system.Repository.Members.{
  unknown, cached, cached_conv, queried, query_conv, shared_conv, typed_conv,
  check_conversation_exist,
}

module _ (B : Backend) where
  -- What the store is after MySQL answered `n`: with the answer in Redis, or as before for a 0.
  abbrev IsNoted : ℕ → ℕ → ℕ → ℕ → Store B → Store B → Type 0
  IsNoted a b kind n st st' =
      (n ≡ 0)
      ⊎ ((ttl : ℕ) × (st'
            ≡ record st { cache = (B.cache.set (conv_key kind a b) (decimal n) ttl st.cache).1 }))

  typed_conv-IsNoted :
      (a b kind n : ℕ) (st : Store B) (r : Result Conversation)
      → (typed_conv B a b kind st r).0 ≡ ok n
      → IsNoted a b kind n st (typed_conv B a b kind st r).1
  unfolding typed_conv
  typed_conv-IsNoted a b kind n st (ok conv) e =
      let same : conv.id ≡ n = ground (arith, e) in inr (3600, rw same refl)
  typed_conv-IsNoted a b kind n st (err x) e = elim (Bool-cases (is_record_not_found x)) [
    | inl gone ↦ let same : 0 ≡ n = ground (arith, gone, e) in rw gone (inr (300, rw (← same) refl))
    | inr other ↦ absurd (ground (arith, other, e))
  ]

  shared_conv-IsNoted :
      (a b kind n : ℕ) (st : Store B) (r : Result (Option ℕ))
      → (shared_conv B a b kind st r).0 ≡ ok n
      → IsNoted a b kind n st (shared_conv B a b kind st r).1
  unfolding shared_conv
  shared_conv-IsNoted a b kind n st (err x) e = absurd (ground (arith, e))
  shared_conv-IsNoted a b kind n st (ok none) e = inl (ground (arith, e))
  shared_conv-IsNoted a b kind n st (ok (some k)) e = typed_conv-IsNoted a b kind n st _ e

  check_unknown :
      (a b kind : ℕ) (st : Store B)
      → cached_conv B a b kind st ≡ unknown
      → check_conversation_exist B a b kind st ≡ query_conv B a b kind st
  unfolding check_conversation_exist
  check_unknown a b kind st e = rw (e, check_conversation_exist) refl

  cached_conv_symm :
      (a b kind : ℕ) (st : Store B) → cached_conv B a b kind st ≡ cached_conv B b a kind st
  unfolding cached_conv
  cached_conv_symm a b kind st = rw (conv_key_symm kind a b) refl

  -- What Redis took is what it gives.
  noted_found :
      (cache : IsCache B.cache) (a b kind n ttl : ℕ) (v : Text) (st : Store B)
      → n < 2 ^ 32
      → (B.cache.set (conv_key kind a b) (decimal n) ttl st.cache).0 ≡ ok tt
      → let st' = record st {
        cache = (B.cache.set (conv_key kind a b) (decimal n) ttl st.cache).1;
      } in
        B.cache.get (conv_key kind a b) st'.cache ≡ ok v → cached_conv B a b kind st' ≡ cached n
  unfolding cached_conv
  noted_found cache a b kind n ttl v st small stored got =
      let key = conv_key kind a b in
      let c = (B.cache.set key (decimal n) ttl st.cache).1 in
      let (t, held) = cache.get_ok key v c got in
      let put : B.cache.text_at c key ≡ some (decimal n, ttl) =
        cache.set_ok key (decimal n) ttl st.cache c key (result_pair _ (ok tt) stored)
        ∙ rw (text_eq_refl key) refl in
      let same : v ≡ decimal n = ground (arith, held, put) in
      rw (got, cached_conv) (rw same (rw (parse_uint-decimal n small) refl))

  -- An answer from Redis leaves the store as it is.
  check_cached :
      (a b kind n : ℕ) (st : Store B)
      → cached_conv B a b kind st ≡ cached n
      → check_conversation_exist B a b kind st ≡ (ok n, st)
  unfolding check_conversation_exist
  check_cached a b kind n st e = rw (e, check_conversation_exist) refl

  query_conv-IsNoted :
      (a b kind n : ℕ) (st : Store B)
      → (query_conv B a b kind st).0 ≡ ok n
      → IsNoted a b kind n (queried B st) (query_conv B a b kind st).1
  unfolding query_conv
  query_conv-IsNoted a b kind n st e = shared_conv-IsNoted a b kind n (queried B st) _ e

  noted_cached :
      (cache : IsCache B.cache) (a b kind n : ℕ) (v : Text) (st s : Store B)
      → n ≢ 0
      → n < 2 ^ 32
      → ((ttl : ℕ) → (B.cache.set (conv_key kind a b) (decimal n) ttl st.cache).0 ≡ ok tt)
      → B.cache.get (conv_key kind a b) s.cache ≡ ok v
      → IsNoted a b kind n st s
      → cached_conv B a b kind s ≡ cached n
  noted_cached cache a b kind n v st s some_conv small stored got (inl none_found) =
      absurd (some_conv none_found)
  noted_cached cache a b kind n v st s some_conv small stored got (inr (ttl, e)) = rw e (
      noted_found cache a b kind n ttl v st small (stored ttl)
        (subst (λ t. B.cache.get (conv_key kind a b) t.cache ≡ ok v) e got))

  -- With a cache that behaves as documented and takes what it is given: CheckConversationExist has
  -- found nothing usable in Redis, asked MySQL, and answered with a conversation, whose id is not 0
  -- and below 2 ^ 32. Asked again for the two users, in either order, it gives the same answer from
  -- Redis, without MySQL, as long as Redis still has the key and does not fail.
  pub check_again :
      (cache : IsCache B.cache) (a b kind n : ℕ) (v : Text) (st : Store B)
      → cached_conv B a b kind st ≡ unknown
      → (check_conversation_exist B a b kind st).0 ≡ ok n
      → n ≢ 0
      → n < 2 ^ 32
      → ((ttl : ℕ) → (B.cache.set (conv_key kind a b) (decimal n) ttl st.cache).0 ≡ ok tt)
      → let st' = (check_conversation_exist B a b kind st).1 in
        B.cache.get (conv_key kind a b) st'.cache ≡ ok v
        → (check_conversation_exist B a b kind st' ≡ (ok n, st'))
          × (check_conversation_exist B b a kind st' ≡ (ok n, st'))
  check_again cache a b kind n v st miss found some_conv small stored got =
      let st' = (check_conversation_exist B a b kind st).1 in
      let same = check_unknown a b kind st miss in
      let query : (query_conv B a b kind st).0 ≡ ok n = ap (λ p. p.0) (sym same) ∙ found in
      let noted : IsNoted a b kind n (queried B st) st' =
        subst (IsNoted a b kind n (queried B st)) (ap (λ p. p.1) (sym same))
          (query_conv-IsNoted a b kind n st query) in
      let hit : cached_conv B a b kind st' ≡ cached n =
        noted_cached cache a b kind n v (queried B st) st' some_conv small stored got noted in
      (
        check_cached a b kind n st' hit,
        check_cached b a kind n st' (cached_conv_symm b a kind st' ∙ hit),
      )
