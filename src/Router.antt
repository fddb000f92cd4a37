-- ===== src/Router.antt =====
-- internal/router: messages between the server processes, over Redis publish and subscribe.
pub mod Forwarded
pub mod Crossing
use im_system.Common.{ℕ, suc, Text, text_eq, if◌then◌else◌, Result, ok, err}
use im_system.Wire.{ForwardMessage, forward_channel}
use im_system.Backend.{Backend, Store}
use im_system.Ws.State.{Server, Metrics}
use im_system.Ws.Manager.{Delivery, refused, deliver_total_msg_by_user_id}

-- PublishForward
unfoldable pub publish_forward :
    {B : Backend} → ℕ → Text → Text → Store B → Result (Unit {0}) × Store B
publish_forward {B} user_id node payload st =
    let msg : ForwardMessage = record {
      target_user_id = user_id;
      target_node_id = node;
      payload = payload;
    } in
    elim (B.forward_codec.marshal msg) [
      | err e ↦ (err e, st)
      | ok body ↦
          let (r, c) = B.cache.publish forward_channel body st.cache in (r, record st { cache = c })
    ]

abbrev pub count_received : Metrics → Metrics
count_received m = record m { forward_received = suc m.forward_received }

-- handlerForwardMsg; `refused` where nothing is delivered.
unfoldable pub handler_forward_msg : {B : Backend} → Text → Server B → Delivery × Server B
handler_forward_msg {B} raw srv =
    let srv1 = record srv { metrics = count_received srv.metrics } in
    elim (B.forward_codec.unmarshal raw) [
      | err e ↦ (refused, srv1)
      | ok msg ↦
          if text_eq msg.target_node_id srv.node_id
          then deliver_total_msg_by_user_id msg.target_user_id msg.payload srv1
          else (refused, srv1)
    ]
