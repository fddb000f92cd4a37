-- ===== src/Mq/Publisher.antt =====
-- internal/mq/publisher.go. A sleep is noted in the store; logging is left out.
pub mod Delivery
pub mod Untouched
use im_system.Common.{ℕ, zero, suc, ◌+◌, ◌-◌, ◌*◌, ◌^◌, Text, bytes, Bool, true, false, ◌∷◌}
use im_system.Common.{Result, Error, ok, err, publish_nack, publish_time_out, is_publish_nack}
use im_system.Common.{ltb, if◌then◌else◌, Option, none, some}
use im_system.Model.{MqMessage}
use im_system.Backend.{Backend, Store}
use im_system.Repository.Conversations.{update_conversation}

abbrev pub update_queue : Text
update_queue = bytes "q.conversation.update"

abbrev pub max_retries : ℕ
max_retries = 3

module _ (B : Backend) where
  abbrev verdict : Result Bool → Result (Unit {0})
  verdict (ok true) = ok tt
  verdict (ok false) = err publish_nack
  verdict (err e) = err publish_time_out

  abbrev confirmed :
      Store B → Result B.broker.Confirm → B.broker.State → Result (Unit {0}) × Store B
  confirmed st (err e) b = (err e, record st { broker = b })
  confirmed st (ok c) b = let (r, b') = B.broker.wait c b in (verdict r, record st { broker = b' })

  abbrev publish_body : Store B → Result Text → Result (Unit {0}) × Store B
  publish_body st (err e) = (err e, st)
  publish_body st (ok body) =
      let (r, b) = B.broker.publish update_queue body st.broker in confirmed st r b

  -- PublishMessageSent, on a publishCh that is a channel.
  unfoldable pub publish_on_channel : MqMessage → Store B → Result (Unit {0}) × Store B
  publish_on_channel msg st = publish_body st (B.mq_codec.marshal msg)

  -- time.Duration(100*(1<<(attempt-1))) * time.Millisecond
  abbrev pub backoff : ℕ → ℕ
  backoff attempt = 100 * 2 ^ (attempt - 1)

  abbrev pub rest_before : ℕ → Store B → Store B
  rest_before attempt st =
      if ltb attempt max_retries then record st { slept = backoff attempt ∷ st.slept } else st

  -- The loop of PublishWithFallback, with the rounds left; `true` if it returned by a publish.
  unfoldable pub publish_rounds : ℕ → ℕ → MqMessage → Store B → Bool × Store B
  publish_rounds zero attempt msg st = (false, st)
  publish_rounds (suc left) attempt msg st =
      let (r, st') = publish_on_channel msg st in
      let again = publish_rounds left (attempt + 1) msg (rest_before attempt st') in
      elim r [ ok u ↦ (true, st') | err e ↦ if is_publish_nack e then (false, st') else again ]

  abbrev fall_back : MqMessage → Bool × Store B → Store B
  fall_back msg (true, st) = st
  fall_back msg (false, st) = (update_conversation B msg.conv_id msg.send_msg st).1

  -- PublishMessageSent, on whether publishCh is a channel or nil; `none` is the panic of the method
  -- that it calls on a nil channel.
  unfoldable pub publish_message_sent :
      Bool → MqMessage → Store B → Option (Result (Unit {0}) × Store B)
  unfolding publish_on_channel
  publish_message_sent true msg st = some (publish_on_channel msg st)
  publish_message_sent false msg st = elim (B.mq_codec.marshal msg) [
    | err e ↦ some (err e, st)
    | ok body ↦ none
  ]

  -- A panic of PublishWithFallback comes in the first attempt, before anything else is done: publishCh
  -- does not change in between, and without a channel only a message that cannot be marshalled gets
  -- to another attempt.
  abbrev pub publish_panics : Bool → MqMessage → Store B → Bool
  publish_panics has_channel msg st = elim (publish_message_sent has_channel msg st) [
    | none ↦ true
    | some sent ↦ false
  ]

  -- PublishWithFallback, where it does not panic.
  unfoldable pub publish_with_fallback : MqMessage → Store B → Store B
  unfolding publish_rounds
  publish_with_fallback msg st = fall_back msg (publish_rounds max_retries 1 msg st)
