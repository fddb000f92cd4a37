-- ===== src/Repository/Conversations.antt =====
-- internal/repository/conversation.go. Logging is left out.
use im_system.Common.{ℕ, ◌-◌, ◌^◌, ◌*◌, Text, bytes, Option, none, some, ◌++◌, ◌==◌, ltb}
use im_system.Common.{Result, ok, err, is_record_not_found, is_duplicated_key}
use im_system.Common.{zero_rows_updated, if◌then◌else◌}
use im_system.Common.Decimal.{decimal}
use im_system.Model.{Conversation, Message}
use im_system.Backend.{Backend, Store}

-- The smaller and the larger id, as the code swaps them.
abbrev pub min_id : ℕ → ℕ → ℕ
min_id a b = if ltb b a then b else a

abbrev pub max_id : ℕ → ℕ → ℕ
max_id a b = if ltb b a then a else b

-- fmt.Sprintf("conv:exist:type:%d:user:%d_%d", convtype, minID, maxID)
unfoldable pub conv_key : ℕ → ℕ → ℕ → Text
conv_key kind a b =
    bytes "conv:exist:type:"
    ++ (decimal kind
        ++ (bytes ":user:" ++ (decimal (min_id a b) ++ (bytes "_" ++ decimal (max_id a b)))))

-- strconv.Itoa(int(id)) for a 64-bit `uint`
unfoldable pub itoa : ℕ → Text
itoa n = if ltb n (2 ^ 63) then decimal n else bytes "-" ++ decimal (2 ^ 64 - n)

-- The three columns that UpdateConversation sets.
abbrev pub with_last : Message → Conversation → Conversation
with_last msg c = record c {
  last_msg_id = some msg.id;
  last_msg_content = some msg.content;
  last_msg_time = some msg.created_at;
}

abbrev some_row : Result ℕ → Result (Unit {0})
some_row (ok n) = if n == 0 then err zero_rows_updated else ok tt
some_row (err e) = err e

abbrev found : Result Conversation → Result (Option Conversation)
found (ok conv) = ok (some conv)
found (err e) = if is_record_not_found e then ok none else err e

abbrev created : Conversation → Result Conversation → Result Conversation
created conv (ok stored) = ok stored
created conv (err e) = if is_duplicated_key e then ok conv else err e

module _ (B : Backend) where
  -- `conv` is passed by pointer: the result is what it holds after the call.
  unfoldable pub create_conversation : Conversation → Store B → Result Conversation × Store B
  create_conversation conv st =
      let (r, cs) = B.conversations.create conv st.conversations in
      (created conv r, record st { conversations = cs })

  unfoldable pub cache_conversation_id : ℕ → ℕ → ℕ → ℕ → Store B → Result (Unit {0}) × Store B
  cache_conversation_id user_a user_b kind conv_id st =
      let (r, c) = B.cache.set (conv_key kind user_a user_b) (itoa conv_id) (5 * 60) st.cache in
      (r, record st { cache = c })

  unfoldable get_conversation_by_id : ℕ → Store B → Result (Option Conversation)
  get_conversation_by_id conv_id st =
      found (B.conversations.first (λ c. c.id == conv_id) st.conversations)

  unfoldable pub update_conversation : ℕ → Message → Store B → Result (Unit {0}) × Store B
  update_conversation conv_id msg st =
      let (r, cs) =
        B.conversations.update (λ c. c.id == conv_id) (with_last msg) st.conversations in
      (some_row r, record st { conversations = cs })
