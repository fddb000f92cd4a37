-- ===== src/Repository/Members/Shared.antt =====
-- What CheckConversationExist finds in MySQL is a conversation that the two users share.
use im_system.Common.{
  ℕ, ◌≤◌, ◌≡◌, ◌≢◌, refl, ap, ◌∙◌, ◌⊎◌, arith, ok, err, some, none, true, false, ◌&&◌, ◌==◌, List,
  [], ◌∷◌, select, Among, inl, inr, Result-cases, Bool-cases, Option, Result, find?-Among,
  find?-sound, Bool,
}
use im_system.Model.{Conversation, ConversationMember}
use im_system.Backend.{Backend, Store, IsLawful, SameTables, SameTables-refl}
use im_system.Repository.Members.{
  seen, count_users, one_of, queried, query_conv, shared_conv, typed_conv, CachedConv, unknown,
  cached, cached_conv, check_conversation_exist,
}

CachedConv-cases : (c : CachedConv) → (c ≡ unknown) ⊎ ((k : ℕ) × (c ≡ cached k))
CachedConv-cases unknown = inl refl
CachedConv-cases (cached k) = inr (k, refl)

-- The user `u` is a member of conversation `k`.
pub record Belongs {B : Backend} (k u : ℕ) (st : Store B) : Type 0 where
  pub conv : Conversation
  pub conv_in : Among conv (B.conversations.rows st.conversations)
  pub conv_id : conv.id ≡ k
  pub row : ConversationMember
  pub row_in : Among row (B.members.rows st.members)
  pub row_conv : row.conversation_id ≡ k
  pub row_user : row.user_id ≡ u

abbrev in_group : ℕ → ℕ → ℕ → ConversationMember → Bool
in_group a b k q = one_of a b q && q.conversation_id == k

seen_member :
    (a b k : ℕ) (ms : List ConversationMember)
    → seen b (select (in_group a b k) ms) ≡ true
    → (m : ConversationMember) × Among m ms × (m.conversation_id ≡ k) × (m.user_id ≡ b)
seen_member a b k [] e = cc
seen_member a b k (m ∷ ms) e = elim (Bool-cases (in_group a b k m)) [
  | inr out ↦
      let (n, h, in_k, is_b) = seen_member a b k ms (ground (arith, out, e)) in
      (n, inr h, in_k, is_b)
  | inl group ↦ elim (Bool-cases (m.user_id == b)) [
    | inl is_b ↦ (m, inl refl, ground (arith, group, is_b), ground (arith, is_b))
    | inr other ↦
        let (n, h, in_k, is_b) = seen_member a b k ms (ground (arith, group, other, e)) in
        (n, inr h, in_k, is_b)
  ]
]

seen_other :
    (a b k : ℕ) (ms : List ConversationMember)
    → seen b (select (in_group a b k) ms) ≡ false
    → select (in_group a b k) ms ≢ []
    → seen a (select (in_group a b k) ms) ≡ true
seen_other a b k [] e ne = absurd (ne refl)
seen_other a b k (m ∷ ms) e ne = ground (arith, seen_other a b k ms)

count_other :
    (a b k : ℕ) (ms : List ConversationMember)
    → seen b (select (in_group a b k) ms) ≡ false
    → count_users (select (in_group a b k) ms) ≤ 1
count_other a b k [] e = omega arith
count_other a b k (m ∷ ms) e = ground (arith, seen_other a b k ms, count_other a b k ms)

two_users :
    (a b k : ℕ) (ms : List ConversationMember)
    → (count_users (select (in_group a b k) ms) == 2) ≡ true
    → (m : ConversationMember) × Among m ms × (m.conversation_id ≡ k) × (m.user_id ≡ b)
two_users a b k ms e = elim (Bool-cases (seen b (select (in_group a b k) ms))) [
  | inl is_in ↦ seen_member a b k ms is_in
  | inr out ↦ absurd (ground (arith, e, count_other a b k ms out))
]

module _ (B : Backend) (law : IsLawful B) where
  typed_conv-Belongs :
      (turn a b kind g k : ℕ) (st : Store B)
      → B.members.find_group turn
          (one_of a b)
          (λ m. m.conversation_id)
          (λ ms. count_users ms == 2)
          st.members
        ≡ ok (some g)
      → (typed_conv B a b kind st
          (B.conversations.first (λ c. c.kind == kind && c.id == g) st.conversations)).0
        ≡ ok k
      → k ≢ 0
      → Belongs k b st
  unfolding typed_conv
  typed_conv-Belongs turn a b kind g k st grouped e some_id =
      let test = λ (c : Conversation). c.kind == kind && c.id == g in
      elim (Result-cases (B.conversations.first test st.conversations)) [
        | inr (x, f) ↦ absurd (ground (arith, f, e, some_id))
        | inl (conv, f) ↦
            let rows = B.conversations.rows st.conversations in
            let got = law.conversations.first_ok test conv st.conversations f in
            let passed = find?-sound test rows conv got in
            let is_k : conv.id ≡ k = ground (arith, f, e) in
            let (m, h, in_g, is_b) =
              two_users a b g (B.members.rows st.members)
                (law.members.find_group_some turn (one_of a b) _ _ g st.members grouped) in
            record {
              conv = conv;
              conv_in = find?-Among test rows conv got;
              conv_id = is_k;
              row = m;
              row_in = h;
              row_conv = ground (arith, in_g, is_k, passed);
              row_user = is_b;
            }
      ]

  shared_conv-Belongs :
      (turn a b kind k : ℕ) (st : Store B) (r : Result (Option ℕ))
      → B.members.find_group turn
          (one_of a b)
          (λ m. m.conversation_id)
          (λ ms. count_users ms == 2)
          st.members
        ≡ r
      → (shared_conv B a b kind st r).0 ≡ ok k
      → k ≢ 0
      → Belongs k b st
  unfolding shared_conv
  shared_conv-Belongs turn a b kind k st (err x) f e some_id = cc
  shared_conv-Belongs turn a b kind k st (ok none) f e some_id = absurd (ground (arith, e, some_id))
  shared_conv-Belongs turn a b kind k st (ok (some g)) f e some_id =
      typed_conv-Belongs turn a b kind g k st f e some_id

  -- Where MySQL names a conversation for two users, the second is a member of it.
  pub query_conv-Belongs :
      (a b kind k : ℕ) (st : Store B) → (query_conv B a b kind st).0 ≡ ok k → k ≢ 0 → Belongs k b st
  unfolding query_conv
  query_conv-Belongs a b kind k st e some_id =
      let b' = shared_conv-Belongs st.queries a b kind k (queried B st) _ refl e some_id in
      record {
        conv = b'.conv;
        conv_in = b'.conv_in;
        conv_id = b'.conv_id;
        row = b'.row;
        row_in = b'.row_in;
        row_conv = b'.row_conv;
        row_user = b'.row_user;
      }

-- Asking for a conversation changes no table.
module _ (B : Backend) where
  typed_conv-SameTables :
      (a b kind : ℕ) (st : Store B) (r : Result Conversation)
      → SameTables (typed_conv B a b kind st r).1 st
  unfolding typed_conv
  typed_conv-SameTables a b kind st (ok conv) = ground arith
  typed_conv-SameTables a b kind st (err e) = ground arith

  shared_conv-SameTables :
      (a b kind : ℕ) (st : Store B) (r : Result (Option ℕ))
      → SameTables (shared_conv B a b kind st r).1 st
  unfolding shared_conv
  shared_conv-SameTables a b kind st (err e) = SameTables-refl
  shared_conv-SameTables a b kind st (ok none) = SameTables-refl
  shared_conv-SameTables a b kind st (ok (some k)) = typed_conv-SameTables a b kind st _

  query_conv-SameTables : (a b kind : ℕ) (st : Store B) → SameTables (query_conv B a b kind st).1 st
  unfolding query_conv
  query_conv-SameTables a b kind st =
      let same = shared_conv-SameTables a b kind (queried B st) _ in
      record {
        conversations = same.conversations;
        members = same.members;
        messages = same.messages;
      }

  pub check-SameTables :
      (a b kind : ℕ) (st : Store B) → SameTables (check_conversation_exist B a b kind st).1 st
  unfolding check_conversation_exist
  check-SameTables a b kind st = elim (CachedConv-cases (cached_conv B a b kind st)) [
    | inl e ↦ rw (e, check_conversation_exist) (query_conv-SameTables a b kind st)
    | inr (k, e) ↦ rw (e, check_conversation_exist) SameTables-refl
  ]

-- Where CheckConversationExist names a conversation, and where Redis does so only if it is right, the
-- second user is a member of it.
pub check-Belongs :
    (B : Backend) (law : IsLawful B) (a b kind k : ℕ) (st : Store B)
    → ((j : ℕ) → cached_conv B a b kind st ≡ cached j → j ≢ 0 → Belongs j b st)
    → (check_conversation_exist B a b kind st).0 ≡ ok k
    → k ≢ 0
    → Belongs k b st
unfolding check_conversation_exist
check-Belongs B law a b kind k st coherent e some_id =
    elim (CachedConv-cases (cached_conv B a b kind st)) [
      | inl f ↦ query_conv-Belongs B law a b kind k st (ground (arith, f, e)) some_id
      | inr (j, f) ↦
          let same : j ≡ k = ground (arith, f, e) in coherent k (f ∙ ap cached same) some_id
    ]
