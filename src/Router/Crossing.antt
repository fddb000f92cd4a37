-- ===== src/Router/Crossing.antt =====
-- A chat message from a user of one process to a user of another.
use im_system.Common.{
  ℕ, Text, ◌≡◌, ◌≢◌, ◌<◌, refl, arith, ok, none, some, false, [], ◌∷◌, ◌++◌, text_eq, text_eq_sound,
  text_eq_refl, length, Bool-cases, inl, inr, ◌∙◌, All,
}
use im_system.Common.Dict.{lookup}
use im_system.Wire.{CollectMessage, forward_channel}
use im_system.Backend.{Backend, IsForwardCodec}
use im_system.Ws.State.{ClientRef, Channel, Server, send_buffer_size}
use im_system.Ws.Manager.{get_client_by_user_id, get_online_node, publish_forward_msg}
use im_system.Ws.Client.{route, deliver_elsewhere, cross_instance}
use im_system.Router.{publish_forward, handler_forward_msg}
use im_system.Router.Forwarded.{forwarded_once}

text_eq-ne : (s t : Text) → s ≢ t → text_eq s t ≡ false
text_eq-ne s t ne = elim (Bool-cases (text_eq s t)) [
  | inl e ↦ absurd (ne (text_eq_sound s t e))
  | inr e ↦ e
]

module _ {B : Backend} where
  publish_forward_msg-cache :
      (user_id : ℕ) (node payload : Text) (srv : Server B)
      → srv.publish_forward ≡ some publish_forward
      → (publish_forward_msg user_id node payload srv).1.store.cache
        ≡ (publish_forward user_id node payload srv.store).1.cache
  unfolding publish_forward_msg
  publish_forward_msg-cache user_id node payload srv set = rw (set, publish_forward_msg) refl

  elsewhere_crosses :
      (user_id : ℕ) (node payload : Text) (srv : Server B)
      → get_online_node user_id srv ≡ ok node
      → node ≢ []
      → node ≢ srv.node_id
      → ((deliver_elsewhere user_id payload srv).0 ≡ cross_instance)
        × ((deliver_elsewhere user_id payload srv).1.store.cache
            ≡ (publish_forward_msg user_id node payload srv).1.store.cache)
  unfolding deliver_elsewhere
  elsewhere_crosses user_id node payload srv at named other =
      ground (arith, at, text_eq-ne node [] named, text_eq-ne node srv.node_id other)

  -- With encoding/json as documented, for the JSON of a CollectMessage as the payload, and a node id
  -- in ASCII: the addressee is not connected to `here`, and the key names the
  -- process `there`, which has the addressee with an open channel that is not full. Then the sender's
  -- process hands the message over to Redis, and the text that it publishes makes `there` append the
  -- message to that channel.
  pub chat_crosses :
      (codec : IsForwardCodec B) (user_id : ℕ) (payload body : Text) (cm : CollectMessage)
      (c : ClientRef) (ch : Channel) (here there : Server B)
      → All (λ b. b < 128) there.node_id
      → B.collect_codec.marshal cm ≡ ok payload
      → get_client_by_user_id user_id here ≡ none
      → get_online_node user_id here ≡ ok there.node_id
      → there.node_id ≢ []
      → there.node_id ≢ here.node_id
      → here.publish_forward ≡ some publish_forward
      → B.forward_codec.marshal
          (record { target_user_id = user_id; target_node_id = there.node_id; payload = payload })
        ≡ ok body
      → get_client_by_user_id user_id there ≡ some c
      → lookup c.address there.channels ≡ some ch
      → ch.closed ≡ false
      → length ch.buffer < send_buffer_size
      → ((route user_id payload here).0 ≡ cross_instance)
        × ((route user_id payload here).1.store.cache
            ≡ (B.cache.publish forward_channel body here.store.cache).1)
        × (lookup c.address (handler_forward_msg body there).1.channels
            ≡ some (record ch { buffer = ch.buffer ++ payload ∷ [] }))
  unfolding route
  chat_crosses codec user_id payload body cm c ch here there ascii json gone at named other set made
        found has is_open room =
      let (crossed, cache) = elsewhere_crosses user_id there.node_id payload here at named other in
      let (published, appended) =
        forwarded_once codec user_id there.node_id payload body cm here.store c ch there ascii json
          made found has is_open room in
      (
        rw (gone, route) crossed,
        rw (gone, route)
            (cache ∙ publish_forward_msg-cache user_id there.node_id payload here set ∙ published),
        appended ∙ rw (text_eq_refl there.node_id) refl,
      )
