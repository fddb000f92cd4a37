-- ===== src/Router/Forwarded.antt =====
-- A message that one process publishes and another one takes.
use im_system.Common.{
  ℕ, Text, ◌≡◌, ◌<◌, refl, arith, ok, some, false, [], ◌∷◌, ◌++◌, text_eq, if◌then◌else◌, length,
  Bool-cases, inl, inr, All,
}
use im_system.Common.Dict.{lookup, lookup-insert}
use im_system.Wire.{ForwardMessage, CollectMessage, forward_channel}
use im_system.Backend.{Backend, Store, IsForwardCodec}
use im_system.Ws.State.{ClientRef, Channel, Server, send_buffer_size}
use im_system.Ws.Manager.{get_client_by_user_id, deliver_total_msg, deliver_total_msg_by_user_id}
use im_system.Router.{publish_forward, count_received, handler_forward_msg}

module _ {B : Backend} where
  deliver_appends :
      (user_id : ℕ) (payload : Text) (c : ClientRef) (ch : Channel) (srv : Server B)
      → get_client_by_user_id user_id srv ≡ some c
      → lookup c.address srv.channels ≡ some ch
      → ch.closed ≡ false
      → length ch.buffer < send_buffer_size
      → lookup c.address (deliver_total_msg_by_user_id user_id payload srv).1.channels
        ≡ some (record ch { buffer = ch.buffer ++ payload ∷ [] })
  unfolding deliver_total_msg_by_user_id deliver_total_msg get_client_by_user_id
  deliver_appends user_id payload c ch srv found at is_open room = ground (
    arith,
    found,
    at,
    is_open,
    lookup-insert c.address c.address (record ch { buffer = ch.buffer ++ payload ∷ [] })
        srv.channels,
  )

  -- Where encoding/json behaves as documented, for the JSON of a CollectMessage as the payload and a
  -- node id in ASCII: PublishForward publishes a text in Redis from which a process that has the user, with an open channel that is not full, appends the payload to that
  -- channel, if it is the process that the message names; any other leaves the channel as it was.
  pub forwarded_once :
      (codec : IsForwardCodec B) (user_id : ℕ) (node payload body : Text) (cm : CollectMessage)
      (st : Store B) (c : ClientRef) (ch : Channel) (srv : Server B)
      → All (λ b. b < 128) node
      → B.collect_codec.marshal cm ≡ ok payload
      → B.forward_codec.marshal
          (record { target_user_id = user_id; target_node_id = node; payload = payload })
        ≡ ok body
      → get_client_by_user_id user_id srv ≡ some c
      → lookup c.address srv.channels ≡ some ch
      → ch.closed ≡ false
      → length ch.buffer < send_buffer_size
      → ((publish_forward user_id node payload st).1.cache
          ≡ (B.cache.publish forward_channel body st.cache).1)
        × (lookup c.address (handler_forward_msg body srv).1.channels
            ≡ some (
                if text_eq node srv.node_id
                then record ch { buffer = ch.buffer ++ payload ∷ [] }
                else ch))
  unfolding publish_forward handler_forward_msg get_client_by_user_id
  forwarded_once codec user_id node payload body cm st c ch srv ascii made e found at is_open room =
      let msg : ForwardMessage = record {
        target_user_id = user_id;
        target_node_id = node;
        payload = payload;
      } in
      let read = codec.round_trip msg cm body ascii made e in
      (
        rw (e, publish_forward) refl,
        elim (Bool-cases (text_eq node srv.node_id)) [
          | inl mine ↦
              rw (read, handler_forward_msg, mine)
                (deliver_appends user_id payload c ch
                  (record srv { metrics = count_received srv.metrics }) found at is_open room)
          | inr other ↦ rw (read, handler_forward_msg, other) at
        ],
      )
