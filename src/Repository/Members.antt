-- ===== src/Repository/Members.antt =====
-- internal/repository/conversationMember.go. Logging is left out.
pub mod LastRead
pub mod Unread
pub mod Pairs
pub mod Again
pub mod Shared
use im_system.Common.{
  suc, ◌*◌, ◌+◌, ℕ, Text, bytes, Bool, true, false, ◌&&◌, ◌||◌, Option, none, some, List,
}
use im_system.Common.{[], ◌∷◌, ◌++◌, ◌==◌, ltb, length, Result, Error, ok, err}
use im_system.Common.{is_record_not_found, is_redis_nil, no_conv_record, if◌then◌else◌}
use im_system.Common.Decimal.{decimal, parse_uint}
use im_system.Model.{Conversation, ConversationMember, Message}
use im_system.Backend.{Backend, Store}
use im_system.Repository.Conversations.{conv_key}

-- COUNT(DISTINCT user_id)
abbrev pub seen : ℕ → List ConversationMember → Bool
seen u [] = false
seen u (m ∷ ms) = (m.user_id == u) || seen u ms

abbrev pub count_users : List ConversationMember → ℕ
count_users [] = 0
count_users (m ∷ ms) = let n = count_users ms in if seen m.user_id ms then n else n + 1

abbrev pub ids_of : List ConversationMember → List ℕ
ids_of [] = []
ids_of (m ∷ ms) = m.conversation_id ∷ ids_of ms

abbrev pub mem_id : ℕ → List ℕ → Bool
mem_id a [] = false
mem_id a (b ∷ bs) = (a == b) || mem_id a bs

-- What the cache says of a conversation between two users.
pub data CachedConv : Type 0 where
  unknown : CachedConv
  cached : ℕ → CachedConv

-- The row that an acknowledgement moves: the member's own, and only forward.
abbrev pub behind : ℕ → ℕ → ℕ → ConversationMember → Bool
behind conv_id user_id msg_id m =
    (m.user_id == user_id) && ((m.conversation_id == conv_id) && ltb m.last_read_msg_id msg_id)

abbrev pub one_of : ℕ → ℕ → ConversationMember → Bool
one_of user_a user_b m = (m.user_id == user_a) || (m.user_id == user_b)

-- The ON and WHERE conditions of the join.
abbrev pub is_unread : ℕ → Message → Conversation → ConversationMember → Bool
is_unread user_id msg conv cm =
    (msg.conversation_id == conv.id)
    && ((conv.id == cm.conversation_id)
        && ((cm.user_id == user_id) && ltb cm.last_read_msg_id msg.id))

abbrev parsed_conv : Result ℕ → CachedConv
parsed_conv (ok conv_id) = cached conv_id
parsed_conv (err e) = unknown

abbrev read_conv : Result Text → CachedConv
read_conv (ok v) = parsed_conv (parse_uint v)
read_conv (err e) = unknown

abbrev has_record : Result ConversationMember → Result (Unit {0})
has_record (ok m) = ok tt
has_record (err e) = if is_record_not_found e then err no_conv_record else err e

module _ (B : Backend) where
  -- `now` is time.Now().
  unfoldable pub add_member : ℕ → ℕ → ℕ → ℕ → Store B → Result (Unit {0}) × Store B
  add_member conv_id user_id role now st =
      let row : ConversationMember = record {
        id = 0;
        conversation_id = conv_id;
        user_id = user_id;
        role = role;
        last_read_msg_id = 0;
        joined_at = now;
      } in
      let (r, ms) = B.members.create row st.members in
      (elim r [ ok m ↦ ok tt | err e ↦ err e ], record st { members = ms })

  abbrev conversations_of : Store B → Result (List ConversationMember) → Result (List Conversation)
  conversations_of st (err e) = err e
  conversations_of st (ok []) = ok []
  conversations_of st (ok (m ∷ ms)) =
      B.conversations.find (λ c. mem_id c.id (ids_of (m ∷ ms))) st.conversations

  -- A nil slice is `[]`.
  unfoldable pub get_conversations_by_user_id : ℕ → Store B → Result (List Conversation)
  get_conversations_by_user_id user_id st =
      conversations_of st (B.members.find (λ m. m.user_id == user_id) st.members)

  unfoldable pub update_last_read_msg_id : ℕ → ℕ → ℕ → Store B → Result (Unit {0}) × Store B
  update_last_read_msg_id conv_id user_id msg_id st =
      let (r, ms) =
        B.members.update (behind conv_id user_id msg_id)
          (λ m. record m { last_read_msg_id = msg_id }) st.members in
      (elim r [ ok n ↦ ok tt | err e ↦ err e ], record st { members = ms })

  -- The part of CheckConversationExist that asks Redis; the cached id 0 means none.
  unfoldable pub cached_conv : ℕ → ℕ → ℕ → Store B → CachedConv
  cached_conv user_a user_b kind st = read_conv (B.cache.get (conv_key kind user_a user_b) st.cache)

  abbrev pub cache_conv : ℕ → ℕ → ℕ → ℕ → ℕ → Store B → Store B
  cache_conv user_a user_b kind conv_id ttl st = record st {
    cache = (B.cache.set (conv_key kind user_a user_b) (decimal conv_id) ttl st.cache).1;
  }

  pub typed_conv : ℕ → ℕ → ℕ → Store B → Result Conversation → Result ℕ × Store B
  typed_conv user_a user_b kind st (ok conv) =
      (ok conv.id, cache_conv user_a user_b kind conv.id 3600 st)
  typed_conv user_a user_b kind st (err e) =
      if is_record_not_found e
      then (ok 0, cache_conv user_a user_b kind 0 (5 * 60) st)
      else (err e, st)

  pub shared_conv : ℕ → ℕ → ℕ → Store B → Result (Option ℕ) → Result ℕ × Store B
  shared_conv user_a user_b kind st (err e) = (err e, st)
  shared_conv user_a user_b kind st (ok none) = (ok 0, st)
  shared_conv user_a user_b kind st (ok (some k)) =
      typed_conv user_a user_b kind st
        (B.conversations.first (λ c. (c.kind == kind) && (c.id == k)) st.conversations)

  -- The next query is another one, which MySQL may answer otherwise.
  abbrev pub queried : Store B → Store B
  queried st = record st { queries = suc st.queries }

  -- The part of CheckConversationExist that asks MySQL.
  unfoldable pub query_conv : ℕ → ℕ → ℕ → Store B → Result ℕ × Store B
  unfolding shared_conv typed_conv
  query_conv user_a user_b kind st = shared_conv user_a user_b kind (queried st) (
      B.members.find_group st.queries (one_of user_a user_b) (λ m. m.conversation_id)
        (λ ms. count_users ms == 2) st.members)

  -- The id of the conversation between two users, or 0.
  unfoldable pub check_conversation_exist : ℕ → ℕ → ℕ → Store B → Result ℕ × Store B
  check_conversation_exist user_a user_b kind st = elim (cached_conv user_a user_b kind st) [
    | cached conv_id ↦ (ok conv_id, st)
    | unknown ↦ query_conv user_a user_b kind st
  ]

  unfoldable pub check_unread_message : ℕ → Store B → Result (Unit {0})
  check_unread_message user_id st =
      has_record (B.members.first (λ m. m.user_id == user_id) st.members)

  unfoldable pub get_unread_conversation_msg_by_user_id : ℕ → Store B → Result (List Message)
  get_unread_conversation_msg_by_user_id user_id st =
      B.join_messages (is_unread user_id) st.messages st.conversations st.members
