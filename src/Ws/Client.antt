-- ===== src/Ws/Client.antt =====
-- internal/ws/client.go: what the server does with a frame from a client. Timing and logging are
-- left out; `now` is time.Now() at the calls of AddMember.
pub mod Frame
pub mod Accounting
pub mod Pushed
pub mod Stored
pub mod Opened
pub mod Awaits
pub mod Unlost
pub mod Arrives
pub mod Outside
pub mod HalfOpened
use im_system.Common.{
  ℕ, suc, ◌+◌, Text, bytes, text_eq, Bool, true, false, Option, none, some, ◌++◌, [],
}
use im_system.Common.{Result, Error, ok, err, ◌==◌, if◌then◌else◌}
use im_system.Common.Dict.{lookup}
use im_system.Common.Decimal.{decimal}
use im_system.Model.{User, Conversation, Message, MqMessage}
use im_system.Wire.{
  ClientMessage, ChatMsgPayload, AckMsgPayload, CollectMessage, action_chat, action_ack,
}
use im_system.Backend.{Backend, Store}
use im_system.Repository.Users.{get_user_by_user_id}
use im_system.Repository.Conversations.{create_conversation, cache_conversation_id}
use im_system.Repository.Members.{add_member, check_conversation_exist, update_last_read_msg_id}
use im_system.Repository.Messages.{create_message}
use im_system.Mq.Publisher.{publish_panics, publish_with_fallback}
use im_system.Ws.Counts.{
  count_failed_lookup, count_offline, count_ghost, count_forward_failed, count_forwarded,
  count_local, count_full, count_persisted, count_not_persisted,
}
use im_system.Ws.State.{ClientRef, Server, Metrics, with_store}
use im_system.Ws.Manager.{
  Delivery, sent, refused, panicked, get_client_by_user_id, get_online_node, deliver_total_msg,
  publish_forward_msg,
}

-- The variable deliveryPath when the handler is left, or a panic.
pub data Outcome : Type 0 where
  unknown_path offline local cross_instance crashed : Outcome

-- fmt.Sprintf("%d & %d", …)
abbrev pub conv_name : ℕ → ℕ → Text
conv_name a b = decimal a ++ (bytes " & " ++ decimal b)

abbrev pub new_conversation : ℕ → ℕ → Conversation
new_conversation sender target = record {
  id = 0;
  kind = 1;
  name = conv_name sender target;
  creator_id = sender;
  last_msg_id = none;
  last_msg_content = none;
  last_msg_time = none;
  created_at = 0;
}

abbrev pub new_message : ℕ → ℕ → ChatMsgPayload → Message
new_message conv_id sender m = record {
  id = 0;
  conversation_id = conv_id;
  sender_id = sender;
  msg_type = 1;
  content = m.content;
  client_msg_id = m.client_msg_id;
  status = 0;
  created_at = 0;
}

abbrev pub collect : ℕ → ℕ → ChatMsgPayload → Message → CollectMessage
collect conv_id sender m stored = record {
  sender_id = sender;
  conversation_id = conv_id;
  content = m.content;
  msg_id = stored.id;
  client_msg_id = m.client_msg_id;
}

module _ {B : Backend} where
  abbrev pub counted : (Metrics → Metrics) → Server B → Server B
  counted f srv = record srv { metrics = f srv.metrics }

  -- The two AddMember calls; `none` where the handler returns.
  pub join_both : ℕ → ℕ → ℕ → ℕ → Store B → Option ℕ × Store B
  join_both conv_id sender target now st =
      let (r, st1) = add_member B conv_id sender 0 now st in
      elim r [
        | err e ↦ (none, st1)
        | ok u ↦
            let (r', st2) = add_member B conv_id target 0 now st1 in
            elim r' [ err e ↦ (none, st2) | ok u' ↦ (some conv_id, st2) ]
      ]

  -- The branch "convID == 0".
  unfoldable pub open_conversation : ℕ → ℕ → ℕ → Store B → Option ℕ × Store B
  unfolding join_both
  open_conversation sender target now st =
      let (r, st1) = create_conversation B (new_conversation sender target) st in
      elim r [
        | err e ↦ (none, st1)
        | ok conv ↦
            join_both conv.id sender target now
              (cache_conversation_id B sender target 1 conv.id st1).1
      ]

  unfoldable pub find_or_open : ℕ → ℕ → ℕ → Store B → Option ℕ × Store B
  unfolding open_conversation
  find_or_open sender target now st =
      let (r, st1) = check_conversation_exist B sender target 1 st in
      elim r [
        | err e ↦ (none, st1)
        | ok conv_id ↦
            if conv_id == 0 then open_conversation sender target now st1 else (some conv_id, st1)
      ]

  -- The target has no connection here.
  unfoldable pub deliver_elsewhere : ℕ → Text → Server B → Outcome × Server B
  deliver_elsewhere to_user_id body srv = elim (get_online_node to_user_id srv) [
    | err e ↦ (offline, counted count_failed_lookup srv)
    | ok node ↦
        if text_eq node []
        then (offline, counted count_offline srv)
        else if text_eq node srv.node_id
        then (unknown_path, counted count_ghost srv)
        else let (r, srv1) = publish_forward_msg to_user_id node body srv in
          elim r [
            | err e ↦ (cross_instance, counted count_forward_failed srv1)
            | ok u ↦ (cross_instance, counted count_forwarded srv1)
          ]
  ]

  -- The target has a connection here.
  unfoldable pub deliver_here : ClientRef → Text → Server B → Outcome × Server B
  deliver_here target body srv =
      let (d, srv1) = deliver_total_msg target body srv in
      elim d [
        | sent ↦ (local, counted count_local srv1)
        | refused ↦ (local, counted count_full srv1)
        | panicked ↦ (crashed, srv1)
      ]

  unfoldable pub route : ℕ → Text → Server B → Outcome × Server B
  route to_user_id body srv = elim (get_client_by_user_id to_user_id srv) [
    | none ↦ deliver_elsewhere to_user_id body srv
    | some target ↦ deliver_here target body srv
  ]

  -- From "MQ生产端推送消息" to the marshalled message.
  unfoldable pub announce : ℕ → ℕ → Message → Store B → Store B
  announce conv_id sender stored st =
      let st1 = publish_with_fallback B (record { conv_id = conv_id; send_msg = stored }) st in
      (update_last_read_msg_id B conv_id sender stored.id st1).1

  -- What comes after the insert, where PublishWithFallback does not panic.
  unfoldable pub after_publish :
      ClientRef → ChatMsgPayload → ℕ → Message → Server B → Outcome × Server B
  after_publish c m conv_id stored srv =
      let srv1 = with_store srv (announce conv_id c.user_id stored srv.store) in
      elim (B.collect_codec.marshal (collect conv_id c.user_id m stored)) [
        | err e ↦ (unknown_path, srv1)
        | ok body ↦ route m.to_user_id body srv1
      ]

  unfoldable pub after_store :
      ClientRef → ChatMsgPayload → ℕ → Message → Server B → Outcome × Server B
  unfolding after_publish
  after_store c m conv_id stored srv =
      if publish_panics B srv.publish_ch (record { conv_id = conv_id; send_msg = stored }) srv.store
      then (crashed, srv)
      else after_publish c m conv_id stored srv

  unfoldable pub store_message : ClientRef → ChatMsgPayload → ℕ → Server B → Outcome × Server B
  store_message c m conv_id srv =
      let (r, st1) = create_message B (new_message conv_id c.user_id m) srv.store in
      elim r [
        | err e ↦ (unknown_path, counted count_not_persisted (with_store srv st1))
        | ok stored ↦ after_store c m conv_id stored (counted count_persisted (with_store srv st1))
      ]

  -- From CheckConversationExist on.
  unfoldable pub converse : ClientRef → ℕ → ChatMsgPayload → ℕ → Server B → Outcome × Server B
  converse c now m target srv =
      let (o, st1) = find_or_open c.user_id target now srv.store in
      elim o [
        | none ↦ (unknown_path, with_store srv st1)
        | some conv_id ↦ store_message c m conv_id (with_store srv st1)
      ]

  unfoldable pub handle_payload : ClientRef → ℕ → ChatMsgPayload → Server B → Outcome × Server B
  handle_payload c now m srv =
      let (r, st1) = get_user_by_user_id B m.to_user_id srv.store in
      elim r [
        | err e ↦ (unknown_path, with_store srv st1)
        | ok none ↦ (unknown_path, with_store srv st1)
        | ok (some target) ↦ converse c now m target.id (with_store srv st1)
      ]

  -- Client.handleChatMsg
  unfoldable pub handle_chat_msg : ClientRef → ℕ → Text → Server B → Outcome × Server B
  handle_chat_msg c now raw srv = elim (B.chat_codec.unmarshal raw) [
    | err e ↦ (unknown_path, srv)
    | ok m ↦ handle_payload c now m srv
  ]

  -- Client.handleACKMsg
  unfoldable pub handle_ack_msg : ClientRef → Text → Server B → Server B
  handle_ack_msg c raw srv = elim (B.ack_codec.unmarshal raw) [
    | err e ↦ srv
    | ok m ↦
        with_store srv (update_last_read_msg_id B m.conv_id c.user_id m.server_msg_id srv.store).1
  ]

  -- One round of the loop in Client.ListenMsg, on a frame that was read.
  unfoldable pub handle_frame : ClientRef → ℕ → Text → Server B → Outcome × Server B
  handle_frame c now raw srv = elim (B.client_codec.unmarshal raw) [
    | err e ↦ (unknown_path, srv)
    | ok envelope ↦
        if text_eq envelope.action action_chat
        then handle_chat_msg c now envelope.payload srv
        else if text_eq envelope.action action_ack
        then (unknown_path, handle_ack_msg c envelope.payload srv)
        else (unknown_path, srv)
  ]
