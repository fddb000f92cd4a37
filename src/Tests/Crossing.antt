-- ===== src/Tests/Crossing.antt =====
-- User 2 is connected to the process b:2, and user 1 writes from the process a:1.
use im_system.Common.{◌≡◌, refl, arith, bytes, some, false, text_eq, [], ◌∷◌, Text}
use im_system.Common.Dict.{lookup, insert}
use im_system.Common.Decimal.{decimal}
use im_system.Services.Packed.{packed, pack, forward_fields, collect_fields}
use im_system.Wire.{CollectMessage, forward_channel}
use im_system.Router.{publish_forward, handler_forward_msg}
use im_system.Router.Crossing.{chat_crosses}
use im_system.Ws.State.{ClientRef, Channel, Server}
use im_system.Ws.Manager.{register, get_client_by_user_id, get_online_node, online_key}
use im_system.Ws.Client.{route, cross_instance}
use im_system.Ws.System.{started, connect}
use im_system.Tests.Fixture.{demo, demo-IsForwardCodec, store}

abbrev bob : ClientRef
bob = record { address = 7; user_id = 2 }

abbrev there : Server demo
there = connect bob (started store (bytes "b:2") publish_forward)

abbrev here : Server demo
here = started (there.store) (bytes "a:1") publish_forward

abbrev idle_channel : Channel
idle_channel = record { owner = 2; buffer = []; closed = false }

abbrev greeting : CollectMessage
greeting = record {
  sender_id = 1;
  conversation_id = 1;
  content = bytes "x";
  msg_id = 1;
  client_msg_id = bytes "c";
}

abbrev letter : Text
letter = pack (collect_fields greeting)

abbrev wire : Text
wire =
    pack (
      forward_fields
        (record { target_user_id = 2; target_node_id = bytes "b:2"; payload = letter }))

chat_crosses_example :
    ((route 2 letter here).0 ≡ cross_instance)
    × ((route 2 letter here).1.store.cache
        ≡ (demo.cache.publish forward_channel wire here.store.cache).1)
    × (lookup 7 (handler_forward_msg wire there).1.channels
        ≡ some (record idle_channel { buffer = letter ∷ [] }))
unfolding connect register lookup insert packed get_client_by_user_id get_online_node online_key
    text_eq decimal
chat_crosses_example =
    chat_crosses demo-IsForwardCodec 2 letter wire greeting bob idle_channel here there
      (omega arith, (omega arith, (omega arith, tt))) refl refl refl (λ e. ground (arith, e))
      (λ e. ground (arith, e)) refl refl refl refl refl (omega arith)
