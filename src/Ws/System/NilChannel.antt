-- ===== src/Ws/System/NilChannel.antt =====
-- What a nil publishCh (internal/mq/publisher.go) does to handleChatMsg of internal/ws/client.go:
-- the panic comes after the insert of the message.
use im_system.Common.{ℕ, suc, Text, ◌≡◌, ◌≢◌, refl, arith, true, false, ok, some, inl, inr}
use im_system.Model.{User, Message, MqMessage}
use im_system.Wire.{ChatMsgPayload}
use im_system.Backend.{Backend, Store}
use im_system.Repository.Users.{get_user_by_user_id}
use im_system.Repository.Messages.{create_message}
use im_system.Mq.Publisher.{publish_message_sent, publish_panics}
use im_system.Ws.State.{ClientRef, Server, accounted, status, with_store}
use im_system.Ws.Client.{
  crashed, find_or_open, new_message, after_store, store_message, converse, handle_payload,
  handle_chat_msg,
}
use im_system.Ws.Client.Accounting.{IsSafe, Marshals, handle_chat_msg-Settled}

-- The row was inserted and counted as stored; nobody was sent it, and it is not counted otherwise.
pub record LeftBehind {B : Backend} (st : Store B) (srv srv' : Server B) : Type 0 where
  pub inserted : srv'.store ≡ st
  pub stored : srv'.metrics.persisted_success ≡ suc srv.metrics.persisted_success
  pub not_counted : accounted srv'.metrics ≡ accounted srv.metrics
  pub not_sent : srv'.channels ≡ srv.channels

module _ {B : Backend} where
  panics_on_nil :
      (st : Store B) (msg : MqMessage) (body : Text)
      → B.mq_codec.marshal msg ≡ ok body
      → publish_panics B false msg st ≡ true
  unfolding publish_message_sent
  panics_on_nil st msg body e = ground (arith, e)

  store_message_panics :
      (c : ClientRef) (m : ChatMsgPayload) (conv_id : ℕ) (stored : Message) (body : Text)
      (srv : Server B)
      → srv.publish_ch ≡ false
      → (create_message B (new_message conv_id c.user_id m) srv.store).0 ≡ ok stored
      → B.mq_codec.marshal (record { conv_id = conv_id; send_msg = stored }) ≡ ok body
      → ((store_message c m conv_id srv).0 ≡ crashed)
        × LeftBehind
            (create_message B (new_message conv_id c.user_id m) srv.store).1
            srv
            (store_message c m conv_id srv).1
  unfolding store_message after_store
  store_message_panics c m conv_id stored body srv nil made json =
      rw (made, store_message)
        (rw (nil, after_store)
          (rw (panics_on_nil _ _ body json)
            (refl, record { inserted = refl; stored = refl; not_counted = refl; not_sent = refl })))

  converse_panics :
      (c : ClientRef) (m : ChatMsgPayload) (now target conv_id : ℕ) (stored : Message) (body : Text)
      (srv : Server B)
      → srv.publish_ch ≡ false
      → let found = find_or_open c.user_id target now srv.store in
        let made = create_message B (new_message conv_id c.user_id m) found.1 in
        found.0 ≡ some conv_id
        → made.0 ≡ ok stored
        → B.mq_codec.marshal (record { conv_id = conv_id; send_msg = stored }) ≡ ok body
        → ((converse c now m target srv).0 ≡ crashed)
          × LeftBehind made.1 srv (converse c now m target srv).1
  unfolding converse
  converse_panics c m now target conv_id stored body srv nil opened made json =
      let (crash, left) =
        store_message_panics c m conv_id stored body
          (with_store srv (find_or_open c.user_id target now srv.store).1) nil made json in
      rw (opened, converse)
        (
          crash,
          record {
            inserted = left.inserted;
            stored = left.stored;
            not_counted = left.not_counted;
            not_sent = left.not_sent;
          },
        )

  not_on_channel :
      (marshals : Marshals B) (c : ClientRef) (now : ℕ) (raw : Text) (srv : Server B)
      → IsSafe srv
      → srv.publish_ch ≡ true
      → (handle_chat_msg c now raw srv).0 ≢ crashed
  not_on_channel marshals c now raw srv safe has =
      elim (handle_chat_msg-Settled marshals c now raw srv safe) [
        | inl (nil, crash) ↦ absurd (ground (arith, nil, has))
        | inr b ↦ b.0
      ]

  -- A chat message can be read, GetUserByUserID finds its addressee, the conversation is found or
  -- opened, the row is inserted, and its event can be marshalled. If publishCh is nil, handleChatMsg
  -- panics: the row is in the table and counted as stored, nobody was sent it, and it is counted
  -- neither as delivered nor as failed. With a publishCh that is a channel, the same message does not
  -- make it panic, where every CollectMessage can be marshalled and every client in the map has an
  -- open channel.
  pub nil_channel_panics :
      (marshals : Marshals B) (c : ClientRef) (now conv_id : ℕ) (raw body : Text)
      (p : ChatMsgPayload) (target : User) (stored : Message) (srv : Server B)
      → IsSafe srv
      → B.chat_codec.unmarshal raw ≡ ok p
      → let user = get_user_by_user_id B p.to_user_id srv.store in
        let conv = find_or_open c.user_id target.id now user.1 in
        let row = create_message B (new_message conv_id c.user_id p) conv.1 in
        user.0 ≡ ok (some target)
        → conv.0 ≡ some conv_id
        → row.0 ≡ ok stored
        → B.mq_codec.marshal (record { conv_id = conv_id; send_msg = stored }) ≡ ok body
        → let lost = record srv { publish_ch = false } in
          let kept = record srv { publish_ch = true } in
          ((handle_chat_msg c now raw lost).0 ≡ crashed)
          × LeftBehind row.1 lost (handle_chat_msg c now raw lost).1
          × ((handle_chat_msg c now raw kept).0 ≢ crashed)
  unfolding handle_chat_msg handle_payload
  nil_channel_panics marshals c now conv_id raw body p target stored srv safe read found opened made
        json =
      let lost = record srv { publish_ch = false } in
      let (crash, left) =
        converse_panics c p now target.id conv_id stored body
          (with_store lost (get_user_by_user_id B p.to_user_id srv.store).1) refl opened made
          json in
      (
        rw (read, handle_chat_msg) (rw (found, handle_payload) crash),
        rw (read, handle_chat_msg)
            (rw (found, handle_payload)
              (record {
                inserted = left.inserted;
                stored = left.stored;
                not_counted = left.not_counted;
                not_sent = left.not_sent;
              })),
        not_on_channel marshals c now raw (record srv { publish_ch = true }) (unfold status in safe)
            refl,
      )
