-- ===== src/Ws/Client/Accounting.antt =====
-- The counters that handleChatMsg keeps: each stored message is counted once, as delivered or as
-- failed, and each forwarded one also as published.
use im_system.Common.{
  ℕ, suc, ◌+◌, Text, ◌≡◌, ◌≢◌, ◌⊎◌, refl, arith, some, false, true, ok, Bool-cases, text_eq,
}
use im_system.Common.{Result-cases, Found-cases, Option-cases, inl, inr}
use im_system.Common.Dict.{lookup}
use im_system.Model.{Message}
use im_system.Wire.{ChatMsgPayload, CollectMessage, action_chat}
use im_system.Backend.{Backend}
use im_system.Repository.Users.{get_user_by_user_id}
use im_system.Repository.Messages.{create_message}
use im_system.Ws.State.{ClientRef, Server, Metrics, status, with_store, accounted}
use im_system.Ws.Manager.{get_client_by_user_id, deliver_total_msg, publish_forward_msg}
use im_system.Ws.Client.{
  Outcome, crashed, find_or_open, converse, counted, collect, new_message, announce,
  deliver_elsewhere, deliver_here, route, after_publish, store_message, handle_payload,
  handle_chat_msg, handle_ack_msg, handle_frame,
}
use im_system.Ws.Client.Frame.{after_store-cases}
use im_system.Ws.Counts.{count_persisted}

-- Every client in the map is the one of its user, and its channel is open.
abbrev pub IsSafe : {B : Backend} → Server B → Type 0
IsSafe srv =
    (u : ℕ) (c : ClientRef)
    → lookup u srv.clients ≡ some c
    → (c.user_id ≡ u) × (status c.address srv ≡ some (u, false))

-- One message more was accounted for.
abbrev Once : {B : Backend} → Metrics → Outcome × Server B → Type 0
Once m r =
    (r.0 ≢ crashed)
    × (accounted r.1.metrics ≡ suc (accounted m))
    × (r.1.metrics.persisted_success ≡ m.persisted_success)
    × (r.1.metrics.delivered_cross_instance + m.forward_published
        ≡ m.delivered_cross_instance + r.1.metrics.forward_published)

-- As many were accounted for as were stored, and as many published as forwarded.
abbrev pub Balanced : {B : Backend} → Metrics → Outcome × Server B → Type 0
Balanced m r =
    (r.0 ≢ crashed)
    × (accounted r.1.metrics + m.persisted_success ≡ accounted m + r.1.metrics.persisted_success)
    × (r.1.metrics.delivered_cross_instance + m.forward_published
        ≡ m.delivered_cross_instance + r.1.metrics.forward_published)

-- The process has no publisher's channel, and the handler panics; or it counts as it should.
abbrev pub Settled : {B : Backend} → Server B → Outcome × Server B → Type 0
Settled srv r = (srv.publish_ch ≡ false) × (r.0 ≡ crashed) ⊎ Balanced srv.metrics r

-- encoding/json marshals a struct of numbers and strings without error.
abbrev pub Marshals : Backend → Type 0
Marshals B = (cm : CollectMessage) → (body : Text) × (B.collect_codec.marshal cm ≡ ok body)

module _ {B : Backend} where
  deliver_here-Once :
      (target : ClientRef) (u : ℕ) (msg : Text) (srv : Server B)
      → status target.address srv ≡ some (u, false)
      → Once srv.metrics (deliver_here target msg srv)
  unfolding deliver_here deliver_total_msg status
  deliver_here-Once target u msg srv h = ground arith

  deliver_elsewhere-Once :
      (user_id : ℕ) (msg : Text) (srv : Server B)
      → Once srv.metrics (deliver_elsewhere user_id msg srv)
  unfolding deliver_elsewhere publish_forward_msg
  deliver_elsewhere-Once user_id msg srv = ground arith

  route-Once :
      (user_id : ℕ) (msg : Text) (srv : Server B)
      → IsSafe srv
      → Once srv.metrics (route user_id msg srv)
  unfolding route get_client_by_user_id
  route-Once user_id msg srv safe = elim (Option-cases (lookup user_id srv.clients)) [
    | inl gone ↦ rw (gone, route) (deliver_elsewhere-Once user_id msg srv)
    | inr (target, found) ↦
        rw (found, route) (deliver_here-Once target user_id msg srv (safe user_id target found).1)
  ]

  module _ (marshals : Marshals B) where
    after_publish-Once :
        (c : ClientRef) (m : ChatMsgPayload) (conv_id : ℕ) (stored : Message) (srv : Server B)
        → IsSafe srv
        → Once srv.metrics (after_publish c m conv_id stored srv)
    unfolding after_publish status
    after_publish-Once c m conv_id stored srv safe =
        let srv1 = with_store srv (announce conv_id c.user_id stored srv.store) in
        let (body, e) = marshals (collect conv_id c.user_id m stored) in
        rw (e, after_publish) (route-Once m.to_user_id body srv1 safe)

    store_message-Settled :
        (c : ClientRef) (m : ChatMsgPayload) (conv_id : ℕ) (srv : Server B)
        → IsSafe srv
        → Settled srv (store_message c m conv_id srv)
    unfolding store_message status
    store_message-Settled c m conv_id srv safe =
        let (r, st1) = create_message B (new_message conv_id c.user_id m) srv.store in
        let srv1 = counted count_persisted (with_store srv st1) in
        elim (Result-cases r) [
          | inl (stored, e) ↦ elim (after_store-cases c m conv_id stored srv1) [
            | inl (nil, at) ↦ inl (nil, rw (e, store_message) (rw at refl))
            | inr on ↦ inr (ground (arith, e, on, after_publish-Once c m conv_id stored srv1 safe))
          ]
          | inr (x, e) ↦ inr (ground (arith, e))
        ]

    converse-Settled :
        (c : ClientRef) (now : ℕ) (m : ChatMsgPayload) (target : ℕ) (srv : Server B)
        → IsSafe srv
        → Settled srv (converse c now m target srv)
    unfolding converse status
    converse-Settled c now m target srv safe =
        let (o, st1) = find_or_open c.user_id target now srv.store in
        elim (Option-cases o) [
          | inl e ↦ inr (ground (arith, e))
          | inr (k, e) ↦ rw (e, converse) (store_message-Settled c m k (with_store srv st1) safe)
        ]

    handle_payload-Settled :
        (c : ClientRef) (now : ℕ) (m : ChatMsgPayload) (srv : Server B)
        → IsSafe srv
        → Settled srv (handle_payload c now m srv)
    unfolding handle_payload status
    handle_payload-Settled c now m srv safe =
        let (r, st1) = get_user_by_user_id B m.to_user_id srv.store in
        elim (Found-cases r) [
          | inl (x, e) ↦ inr (ground (arith, e))
          | inr (inl e) ↦ inr (ground (arith, e))
          | inr (inr (u, e)) ↦
              rw (e, handle_payload) (converse-Settled c now m u.id (with_store srv st1) safe)
        ]

    -- Where every CollectMessage can be marshalled, and while every client in the map has an open
    -- channel: handling a chat message panics only if publishCh is nil; if it does not panic, it
    -- counts as many messages delivered or failed as it counts stored, and as many published to Redis
    -- as delivered across instances.
    pub handle_chat_msg-Settled :
        (c : ClientRef) (now : ℕ) (raw : Text) (srv : Server B)
        → IsSafe srv
        → Settled srv (handle_chat_msg c now raw srv)
    unfolding handle_chat_msg
    handle_chat_msg-Settled c now raw srv safe = elim (Result-cases (B.chat_codec.unmarshal raw)) [
      | inl (m, e) ↦ rw (e, handle_chat_msg) (handle_payload-Settled c now m srv safe)
      | inr (x, e) ↦ inr (ground (arith, e))
    ]

    pub handle_frame-Settled :
        (c : ClientRef) (now : ℕ) (raw : Text) (srv : Server B)
        → IsSafe srv
        → Settled srv (handle_frame c now raw srv)
    unfolding handle_frame handle_ack_msg
    handle_frame-Settled c now raw srv safe = elim (Result-cases (B.client_codec.unmarshal raw)) [
      | inl (m, e) ↦ elim (Bool-cases (text_eq m.action action_chat)) [
        | inl chat ↦
            rw (e, handle_frame) (rw chat (handle_chat_msg-Settled c now m.payload srv safe))
        | inr other ↦ inr (ground (arith, e, other))
      ]
      | inr (x, e) ↦ inr (ground (arith, e))
    ]

    -- While publishCh is a channel, no frame panics.
    pub handle_frame_returns :
        (c : ClientRef) (now : ℕ) (raw : Text) (srv : Server B)
        → IsSafe srv
        → srv.publish_ch ≡ true
        → (handle_frame c now raw srv).0 ≢ crashed
    handle_frame_returns c now raw srv safe has = elim (handle_frame-Settled c now raw srv safe) [
      | inl (nil, crash) ↦ absurd (ground (arith, nil, has))
      | inr b ↦ b.0
    ]
