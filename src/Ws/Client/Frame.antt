-- ===== src/Ws/Client/Frame.antt =====
-- What a frame from a client leaves alone: the map of clients, the gauge, and which channels are
-- open.
use im_system.Common.{ℕ, Text, ◌≡◌, ◌⊎◌, refl, arith, false, Bool-cases}
use im_system.Common.Dict.{lookup-insert}
use im_system.Model.{Message, MqMessage}
use im_system.Wire.{ChatMsgPayload}
use im_system.Backend.{Backend}
use im_system.Ws.State.{ClientRef, Server, status, with_store}
use im_system.Repository.Users.{get_user_by_user_id}
use im_system.Repository.Messages.{create_message}
use im_system.Common.{Result-cases, Found-cases, Option-cases, inl, inr, ◌++◌, ◌∷◌, []}
use im_system.Common.Dict.{lookup}
use im_system.Ws.Manager.{get_client_by_user_id, deliver_total_msg, publish_forward_msg}
use im_system.Mq.Publisher.{publish_message_sent}
use im_system.Ws.Client.{
  find_or_open, converse, counted, collect, new_message, announce, deliver_elsewhere, deliver_here,
  route, after_publish, after_store, crashed, store_message, handle_payload, handle_chat_msg,
  handle_ack_msg, handle_frame,
}
use im_system.Ws.Counts.{count_persisted}

-- The parts of `srv'` that agree with `srv`, for the channel at one address.
abbrev pub Keeps : {B : Backend} → ℕ → Server B → Server B → Type 0
Keeps a srv srv' =
    (srv'.clients ≡ srv.clients)
    × (srv'.metrics.online_users ≡ srv.metrics.online_users)
    × (status a srv' ≡ status a srv)
    × (srv'.node_id ≡ srv.node_id)
    × (srv'.publish_ch ≡ srv.publish_ch)

-- The handler panics on a nil publishCh, or goes on.
pub after_store-cases :
    {B : Backend} (c : ClientRef) (m : ChatMsgPayload) (conv_id : ℕ) (stored : Message)
    (srv : Server B)
    → (srv.publish_ch ≡ false) × (after_store c m conv_id stored srv ≡ (crashed, srv))
      ⊎ (after_store c m conv_id stored srv ≡ after_publish c m conv_id stored srv)
unfolding after_store publish_message_sent
after_store-cases {B} c m conv_id stored srv =
    let msg : MqMessage = record { conv_id = conv_id; send_msg = stored } in
    elim (Bool-cases srv.publish_ch) [
      | inl has ↦ inr (ground (arith, has))
      | inr nil ↦ elim (Result-cases (B.mq_codec.marshal msg)) [
        | inl (body, made) ↦ inl (nil, ground (arith, nil, made))
        | inr (x, failed) ↦ inr (ground (arith, nil, failed))
      ]
    ]

module _ {B : Backend} (a : ℕ) where
  pub deliver_total_msg-Keeps :
      (target : ClientRef) (msg : Text) (srv : Server B)
      → Keeps a srv (deliver_total_msg target msg srv).1
  unfolding deliver_total_msg status
  deliver_total_msg-Keeps target msg srv =
      elim (Option-cases (lookup target.address srv.channels)) [
        | inl gone ↦ ground (arith, gone)
        | inr (ch, found) ↦ ground (
          arith,
          found,
          lookup-insert target.address a (record ch { buffer = ch.buffer ++ msg ∷ [] })
              srv.channels,
        )
      ]

  deliver_here-Keeps :
      (target : ClientRef) (msg : Text) (srv : Server B)
      → Keeps a srv (deliver_here target msg srv).1
  unfolding deliver_here status
  deliver_here-Keeps target msg srv = ground (arith, deliver_total_msg-Keeps target msg srv)

  deliver_elsewhere-Keeps :
      (user_id : ℕ) (msg : Text) (srv : Server B)
      → Keeps a srv (deliver_elsewhere user_id msg srv).1
  unfolding deliver_elsewhere status publish_forward_msg
  deliver_elsewhere-Keeps user_id msg srv = ground arith

  route-Keeps : (user_id : ℕ) (msg : Text) (srv : Server B) → Keeps a srv (route user_id msg srv).1
  unfolding route
  route-Keeps user_id msg srv = elim (Option-cases (get_client_by_user_id user_id srv)) [
    | inl gone ↦ rw (gone, route) (deliver_elsewhere-Keeps user_id msg srv)
    | inr (target, found) ↦ rw (found, route) (deliver_here-Keeps target msg srv)
  ]

  after_publish-Keeps :
      (c : ClientRef) (m : ChatMsgPayload) (conv_id : ℕ) (stored : Message) (srv : Server B)
      → Keeps a srv (after_publish c m conv_id stored srv).1
  unfolding after_publish status
  after_publish-Keeps c m conv_id stored srv =
      let srv1 = with_store srv (announce conv_id c.user_id stored srv.store) in
      elim (Result-cases (B.collect_codec.marshal (collect conv_id c.user_id m stored))) [
        | inl (body, e) ↦ rw (e, after_publish) (route-Keeps m.to_user_id body srv1)
        | inr (x, e) ↦ rw (e, after_publish) (refl, refl, refl, refl, refl)
      ]

  after_store-Keeps :
      (c : ClientRef) (m : ChatMsgPayload) (conv_id : ℕ) (stored : Message) (srv : Server B)
      → Keeps a srv (after_store c m conv_id stored srv).1
  after_store-Keeps c m conv_id stored srv = elim (after_store-cases c m conv_id stored srv) [
    | inl (nil, e) ↦ rw e (refl, refl, refl, refl, refl)
    | inr e ↦ rw e (after_publish-Keeps c m conv_id stored srv)
  ]

  store_message-Keeps :
      (c : ClientRef) (m : ChatMsgPayload) (conv_id : ℕ) (srv : Server B)
      → Keeps a srv (store_message c m conv_id srv).1
  unfolding store_message status
  store_message-Keeps c m conv_id srv =
      let (r, st1) = create_message B (new_message conv_id c.user_id m) srv.store in
      elim (Result-cases r) [
        | inl (stored, e) ↦
            rw (e, store_message)
              (after_store-Keeps c m conv_id stored (counted count_persisted (with_store srv st1)))
        | inr (x, e) ↦ rw (e, store_message) (refl, refl, refl, refl, refl)
      ]

  converse-Keeps :
      (c : ClientRef) (now : ℕ) (m : ChatMsgPayload) (target : ℕ) (srv : Server B)
      → Keeps a srv (converse c now m target srv).1
  unfolding converse status
  converse-Keeps c now m target srv =
      let (o, st1) = find_or_open c.user_id target now srv.store in
      elim (Option-cases o) [
        | inl e ↦ rw (e, converse) (refl, refl, refl, refl, refl)
        | inr (k, e) ↦ rw (e, converse) (store_message-Keeps c m k (with_store srv st1))
      ]

  handle_payload-Keeps :
      (c : ClientRef) (now : ℕ) (m : ChatMsgPayload) (srv : Server B)
      → Keeps a srv (handle_payload c now m srv).1
  unfolding handle_payload status
  handle_payload-Keeps c now m srv =
      let (r, st1) = get_user_by_user_id B m.to_user_id srv.store in
      elim (Found-cases r) [
        | inl (x, e) ↦ rw (e, handle_payload) (refl, refl, refl, refl, refl)
        | inr (inl e) ↦ rw (e, handle_payload) (refl, refl, refl, refl, refl)
        | inr (inr (u, e)) ↦
            rw (e, handle_payload) (converse-Keeps c now m u.id (with_store srv st1))
      ]

  pub handle_chat_msg-Keeps :
      (c : ClientRef) (now : ℕ) (raw : Text) (srv : Server B)
      → Keeps a srv (handle_chat_msg c now raw srv).1
  unfolding handle_chat_msg status
  handle_chat_msg-Keeps c now raw srv = elim (Result-cases (B.chat_codec.unmarshal raw)) [
    | inl (m, e) ↦ rw (e, handle_chat_msg) (handle_payload-Keeps c now m srv)
    | inr (x, e) ↦ rw (e, handle_chat_msg) (refl, refl, refl, refl, refl)
  ]

  handle_ack_msg-Keeps :
      (c : ClientRef) (raw : Text) (srv : Server B) → Keeps a srv (handle_ack_msg c raw srv)
  unfolding handle_ack_msg status
  handle_ack_msg-Keeps c raw srv = ground arith

  pub handle_frame-Keeps :
      (c : ClientRef) (now : ℕ) (raw : Text) (srv : Server B)
      → Keeps a srv (handle_frame c now raw srv).1
  unfolding handle_frame
  handle_frame-Keeps c now raw srv = elim (Result-cases (B.client_codec.unmarshal raw)) [
    | inl (m, e) ↦
        ground (
          arith,
          e,
          handle_chat_msg-Keeps c now m.payload srv,
          handle_ack_msg-Keeps c m.payload srv,
        )
    | inr (x, e) ↦ rw (e, handle_frame) (refl, refl, refl, refl, refl)
  ]
