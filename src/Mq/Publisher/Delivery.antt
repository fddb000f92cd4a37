-- ===== src/Mq/Publisher/Delivery.antt =====
-- PublishWithFallback loses no update unless every way fails, and sleeps for 300 ms at most.
use im_system.Common.{◌≡◌, refl, arith, Text, Bool, true, false, ok}
use im_system.Common.{is_ok, ◌⊎◌, Has, bytes, modify, ◌==◌, ◌∷◌}
use im_system.Model.{MqMessage}
use im_system.Services.{IsBroker}
use im_system.Backend.{Backend, Store}
use im_system.Repository.Conversations.{update_conversation, with_last}
use im_system.Mq.Publisher.{
  publish_on_channel, publish_rounds, publish_with_fallback, rest_before, fall_back,
}

-- The queue of the updates, by its name.
abbrev pub queue_name : Text
queue_name = bytes "q.conversation.update"

module _ (B : Backend) (msg : MqMessage) where
  -- What an attempt, and so the loop, leaves alone.
  publish_keeps :
      (st : Store B)
      → ((publish_on_channel B msg st).1.slept ≡ st.slept)
        × ((publish_on_channel B msg st).1.conversations ≡ st.conversations)
  unfolding publish_on_channel
  publish_keeps st = ground arith

  update_slept :
      (st : Store B) → (update_conversation B msg.conv_id msg.send_msg st).1.slept ≡ st.slept
  unfolding update_conversation
  update_slept st = ground arith

  third_round-slept : (st : Store B) → (publish_rounds B 1 3 msg st).1.slept ≡ st.slept
  unfolding publish_rounds
  third_round-slept st = ground (arith, publish_keeps st)

  second_round-slept :
      (st : Store B)
      → let slept' = (publish_rounds B 2 2 msg st).1.slept in
        (slept' ≡ st.slept) ⊎ (slept' ≡ 200 ∷ st.slept)
  second_round-slept st =
      let st1 = (publish_on_channel B msg st).1 in
      unfold publish_rounds in
      ground (arith, publish_keeps st, third_round-slept (rest_before B 2 st1))

  rounds-slept :
      (st : Store B)
      → let slept' = (publish_rounds B 3 1 msg st).1.slept in
        (slept' ≡ st.slept) ⊎ (slept' ≡ 100 ∷ st.slept) ⊎ (slept' ≡ 200 ∷ 100 ∷ st.slept)
  rounds-slept st =
      let st1 = (publish_on_channel B msg st).1 in
      unfold publish_rounds in
      ground (arith, publish_keeps st, second_round-slept (rest_before B 1 st1))

  fall_back-slept : (r : Bool × Store B) → (fall_back B msg r).slept ≡ r.1.slept
  fall_back-slept (true, st) = refl
  fall_back-slept (false, st) = update_slept st

  -- The server sleeps not at all, for 100 ms, or for 100 ms and then 200 ms, whatever fails.
  publish_with_fallback_sleeps :
      (st : Store B)
      → let slept' = (publish_with_fallback B msg st).slept in
        (slept' ≡ st.slept) ⊎ (slept' ≡ 100 ∷ st.slept) ⊎ (slept' ≡ 200 ∷ 100 ∷ st.slept)
  publish_with_fallback_sleeps st =
      unfold publish_with_fallback in
      rw (fall_back-slept (publish_rounds B 3 1 msg st)) (rounds-slept st)

  abbrev pub HasQueue : Store B → Type 0
  HasQueue st = B.broker.declared queue_name st.broker ≡ true

  module _ (broker : IsBroker B.broker) (body : Text)
      (marshalled : B.mq_codec.marshal msg ≡ ok body) where
    -- What UpdateConversation does to the rows, or that it failed.
    abbrev pub Written : Store B → Store B → Type 0
    Written st st' =
        B.conversations.rows st'.conversations
        ≡ modify (λ c. c.id == msg.conv_id) (with_last msg.send_msg)
            (B.conversations.rows st.conversations)

    -- The message is in the queue, or in the rows, or the update of the rows has failed too.
    abbrev pub Delivered : Store B → Store B → Type 0
    Delivered st st' =
        Has body (B.broker.queued queue_name st'.broker)
        ⊎ Written st st'
        ⊎ ((tried : Store B) × (st' ≡ (update_conversation B msg.conv_id msg.send_msg tried).1)
            × (is_ok (update_conversation B msg.conv_id msg.send_msg tried).0 ≡ false))
