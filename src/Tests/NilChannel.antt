-- ===== src/Tests/NilChannel.antt =====
-- Ann writes to Bob on a process whose publishCh is nil.
use im_system.Common.{◌≡◌, ◌≢◌, refl, ok, some, Text, bytes, true, false, text_eq}
use im_system.Repository.Conversations.{conv_key}
use im_system.Repository.Members.{check_conversation_exist, cached_conv, query_conv}
use im_system.Ws.System.{connect}
use im_system.Ws.Manager.{register, online_key}
use im_system.Model.{Message}
use im_system.Backend.{Store, fill_message}
use im_system.Services.Packed.{packed, pack, chat_fields, mq_fields}
use im_system.Repository.Users.{get_user_by_user_id}
use im_system.Repository.Messages.{create_message}
use im_system.Ws.State.{Server}
use im_system.Ws.Client.{crashed, find_or_open, new_message, handle_chat_msg}
use im_system.Ws.System.NilChannel.{LeftBehind, nil_channel_panics}
use im_system.Tests.Fixture.{demo, person}
use im_system.Tests.Chat.{demo-Marshals, ann, both, both-IsSafe, to_bob, to_bob_read}

abbrev saved : Message
saved = fill_message (new_message 1 1 to_bob) 2 0

abbrev event : Text
event = pack (mq_fields (record { conv_id = 1; send_msg = saved }))

abbrev asked : Store demo
asked = (get_user_by_user_id demo 2 both.store).1

abbrev paired : Store demo
paired = (find_or_open 1 2 7 asked).1

bob_there : (get_user_by_user_id demo 2 both.store).0 ≡ ok (some (person 2 (bytes "bob")))
unfolding get_user_by_user_id connect register
bob_there = refl

conv_there : (find_or_open 1 2 7 asked).0 ≡ some 1
unfolding find_or_open check_conversation_exist cached_conv get_user_by_user_id connect register
    text_eq online_key conv_key query_conv
conv_there = refl

row_made : (create_message demo (new_message 1 1 to_bob) paired).0 ≡ ok saved
unfolding create_message find_or_open check_conversation_exist cached_conv get_user_by_user_id
    connect register text_eq online_key conv_key query_conv
row_made = refl

event_made : demo.mq_codec.marshal (record { conv_id = 1; send_msg = saved }) ≡ ok event
unfolding packed
event_made = refl

abbrev lost : Server demo
lost = record both { publish_ch = false }

nil_channel_panics_example :
    ((handle_chat_msg ann 7 (pack (chat_fields to_bob)) lost).0 ≡ crashed)
    × LeftBehind
        (create_message demo (new_message 1 1 to_bob) paired).1
        lost
        (handle_chat_msg ann 7 (pack (chat_fields to_bob)) lost).1
    × ((handle_chat_msg ann 7 (pack (chat_fields to_bob)) (record both { publish_ch = true })).0
        ≢ crashed)
nil_channel_panics_example =
    nil_channel_panics demo-Marshals ann 7 1 (pack (chat_fields to_bob)) event to_bob
      (person 2 (bytes "bob")) saved both both-IsSafe to_bob_read bob_there conv_there row_made
      event_made
