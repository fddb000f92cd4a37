-- ===== src/Mq/Consumer.antt =====
-- internal/mq/consumer.go: the goroutine that takes deliveries from q.conversation.update.
-- A failing Ack or Nack is only logged.
pub mod Updates
use im_system.Common.{Text, List, [], ◌∷◌, Result, ok, err}
use im_system.Model.{MqMessage}
use im_system.Backend.{Backend, Store}
use im_system.Repository.Conversations.{update_conversation}

-- Ack(false), or Nack(false, false), which sends the message to the dead letter queue.
pub data Verdict : Type 0 where
  acked dead_lettered : Verdict

module _ (B : Backend) where
  abbrev settle : Result (Unit {0}) → Verdict
  settle (ok u) = acked
  settle (err e) = dead_lettered

  abbrev apply_update : Result MqMessage → Store B → Verdict × Store B
  apply_update (err e) st = (dead_lettered, st)
  apply_update (ok msg) st =
      let (r, st') = update_conversation B msg.conv_id msg.send_msg st in (settle r, st')

  unfoldable pub consume_one : Text → Store B → Verdict × Store B
  consume_one body st = apply_update (B.mq_codec.unmarshal body) st

  -- The loop over the deliveries, with the verdict on each.
  unfoldable pub consume : List Text → Store B → List Verdict × Store B
  unfolding consume_one
  consume [] st = ([], st)
  consume (body ∷ rest) st =
      let (v, st') = consume_one body st in let (vs, st'') = consume rest st' in (v ∷ vs, st'')
