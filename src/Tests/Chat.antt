-- ===== src/Tests/Chat.antt =====
-- Two users chat on one process.
use im_system.Common.{◌≡◌, ◌≢◌, refl, arith, text_eq, ◌∷◌, [], some, false, Text, bytes, ok}
use im_system.Wire.{ChatMsgPayload, CollectMessage, action_chat, forward_channel}
use im_system.Services.Packed.{
  packed, pack, chat_fields, client_fields, collect_fields, forward_fields,
}
use im_system.Router.{publish_forward, handler_forward_msg}
use im_system.Router.Forwarded.{forwarded_once}
use im_system.Common.Dict.{lookup, insert}
use im_system.Ws.State.{ClientRef, Channel, Server, status}
use im_system.Ws.Manager.{
  register, panicked, get_client_by_user_id, deliver_total_msg, deliver_total_msg_by_user_id,
}
use im_system.Ws.Client.{handle_frame, handle_chat_msg}
use im_system.Ws.Client.Accounting.{
  IsSafe, Marshals, Settled, handle_chat_msg-Settled, handle_frame_returns,
}
use im_system.Ws.Client.Stored.{Delivers, handle_chat_msg-Delivers}
use im_system.Ws.System.{Reach, here, next, connects, sends_frame, started, connect, hang_up}
use im_system.Ws.System.Safety.{IsSound, started_safe, started-Inv}
use im_system.Ws.System.Race.{hang_up_panics_sender}
use im_system.Ws.System.Invariant.{Reach-Inv}
use im_system.Tests.Fixture.{demo, demo-IsLawful, demo-IsForwardCodec, store}

pub demo-Marshals : Marshals demo
unfolding packed
demo-Marshals cm = (pack (collect_fields cm), refl)

abbrev pub ann : ClientRef
ann = record { address = 10; user_id = 1 }

abbrev pub bob : ClientRef
bob = record { address = 11; user_id = 2 }

abbrev pub both : Server demo
both = connect bob (connect ann (started store (bytes "a:1") publish_forward))

abbrev pub to_bob : ChatMsgPayload
to_bob = record { client_msg_id = bytes "m2"; to_user_id = 2; content = bytes "hello" }

abbrev pub frame : Text
frame = pack (client_fields (record { action = action_chat; payload = pack (chat_fields to_bob) }))

abbrev chatted : Server demo
chatted = (handle_frame ann 7 frame both).1

pub both-Reach : Reach (started store (bytes "a:1") publish_forward) both
unfolding connect register status lookup insert
both-Reach = next (next here (connects ann refl)) (connects bob refl)

pub both-IsSafe : IsSafe both
both-IsSafe =
    (Reach-Inv demo-Marshals both-Reach (started-Inv store (bytes "a:1") publish_forward)).safe

chatted-Reach : Reach (started store (bytes "a:1") publish_forward) chatted
unfolding connect register status lookup insert
chatted-Reach = next both-Reach (
    sends_frame ann 7 frame refl
      (handle_frame_returns demo-Marshals ann 7 frame both both-IsSafe refl))

started_safe_example : IsSound chatted
started_safe_example = started_safe demo-Marshals store (bytes "a:1") publish_forward chatted-Reach

handle_chat_msg-Settled_example :
    Settled both (handle_chat_msg ann 7 (pack (chat_fields to_bob)) both)
handle_chat_msg-Settled_example =
    handle_chat_msg-Settled demo-Marshals ann 7 (pack (chat_fields to_bob)) both both-IsSafe

pub to_bob_read : demo.chat_codec.unmarshal (pack (chat_fields to_bob)) ≡ ok to_bob
unfolding packed
to_bob_read = refl

handle_chat_msg-Delivers_example :
    Delivers ann to_bob both (handle_chat_msg ann 7 (pack (chat_fields to_bob)) both).1
handle_chat_msg-Delivers_example =
    handle_chat_msg-Delivers demo-IsLawful.messages ann 7 (pack (chat_fields to_bob)) to_bob both
      to_bob_read

bob_found : get_client_by_user_id 2 both ≡ some bob
unfolding get_client_by_user_id connect register lookup insert
bob_found = refl

bob_open : status 11 both ≡ some (2, false)
unfolding status connect register lookup insert
bob_open = refl

hang_up_panics_sender_example :
    ((deliver_total_msg_by_user_id 2 (bytes "x") both).0 ≢ panicked)
    × ((deliver_total_msg bob (bytes "x") (hang_up bob both)).0 ≡ panicked)
hang_up_panics_sender_example = hang_up_panics_sender bob (bytes "x") both bob_found bob_open

abbrev letter_to_bob : CollectMessage
letter_to_bob = record {
  sender_id = 1;
  conversation_id = 1;
  content = bytes "x";
  msg_id = 1;
  client_msg_id = bytes "c";
}

abbrev letter : Text
letter = pack (collect_fields letter_to_bob)

abbrev forward_body : Text
forward_body =
    pack (
      forward_fields
        (record { target_user_id = 2; target_node_id = bytes "a:1"; payload = letter }))

abbrev bob_channel : Channel
bob_channel = record { owner = 2; buffer = []; closed = false }

bob_channel_found : lookup 11 both.channels ≡ some bob_channel
unfolding connect register lookup insert
bob_channel_found = refl

forward_marshalled :
    demo.forward_codec.marshal
      (record { target_user_id = 2; target_node_id = bytes "a:1"; payload = letter })
    ≡ ok forward_body
unfolding packed
forward_marshalled = refl

forwarded_once_example :
    ((publish_forward 2 (bytes "a:1") letter store).1.cache
      ≡ (demo.cache.publish forward_channel forward_body store.cache).1)
    × (lookup 11 (handler_forward_msg forward_body both).1.channels
        ≡ some (record bob_channel { buffer = letter ∷ [] }))
unfolding connect register text_eq packed
forwarded_once_example =
    forwarded_once demo-IsForwardCodec 2 (bytes "a:1") letter forward_body letter_to_bob store bob
      bob_channel both (omega arith, (omega arith, (omega arith, tt))) refl forward_marshalled
      bob_found bob_channel_found refl (omega arith)
