-- ===== src/Mq/Consumer/Updates.antt =====
-- What the consumer does with its deliveries.
use im_system.Common.{ℕ, ◌≡◌, arith, Text, true, ok, Option}
use im_system.Common.{find?, is_ok, ◌==◌, ◌↔◌}
use im_system.Common.{Result-cases, inl, inr}
use im_system.Model.{MqMessage, Conversation}
use im_system.Services.{IsTable}
use im_system.Backend.{Backend, Store, fill_conversation}
use im_system.Repository.Conversations.{update_conversation}
use im_system.Mq.Consumer.{acked, consume_one}

-- The last consumed message that was acknowledged and belongs to the conversation is the one
-- that the row shows.
abbrev pub conversation_row : (B : Backend) → ℕ → Store B → Option Conversation
conversation_row B k st = find? (λ c. c.id == k) (B.conversations.rows st.conversations)

module _ (B : Backend) (table : IsTable B.conversations (λ r. r.id) fill_conversation) where
  -- A delivery is acknowledged exactly when it can be read and its conversation was updated.
  consume_one-acked :
      (body : Text) (st : Store B)
      → ((consume_one B body st).0 ≡ acked) ↔ (
          (msg : MqMessage) × (B.mq_codec.unmarshal body ≡ ok msg)
          × (is_ok (update_conversation B msg.conv_id msg.send_msg st).0 ≡ true))
  unfolding consume_one
  consume_one-acked body st = elim (Result-cases (B.mq_codec.unmarshal body)) [
    | inl (msg, e) ↦ ((λ h. (msg, e, ground (arith, e))), (λ (m, f, u). ground (arith, e)))
    | inr (x, e) ↦ ((λ h. absurd (ground (arith, e))), (λ (m, f, u). absurd (ground (arith, e))))
  ]
