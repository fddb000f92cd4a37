-- ===== src/Tests/Arrives.antt =====
-- User 1 writes to user 2, who connects again later.
use im_system.Common.{
  ◌≡◌, ◌≢◌, refl, arith, ok, some, true, Text, [], ap, inl, inr, is_ok, bytes, text_eq,
}
use im_system.Model.{ConversationMember}
use im_system.Services.Packed.{packed, pack, chat_fields}
use im_system.Repository.Users.{get_user_by_user_id}
use im_system.Repository.Members.{get_unread_conversation_msg_by_user_id, cached_conv}
use im_system.Mq.Publisher.{publish_message_sent, publish_with_fallback}
use im_system.Repository.Members.{check_conversation_exist, query_conv, unknown}
use im_system.Repository.Conversations.{conv_key}
use im_system.Repository.Messages.{create_message}
use im_system.Common.Dict.{lookup, insert}
use im_system.Ws.Manager.{register, online_key, get_client_by_user_id, deliver_total_msg}
use im_system.Ws.System.{connect}
use im_system.Ws.Client.{
  handle_chat_msg, handle_payload, converse, store_message, after_store, after_publish, announce,
  find_or_open, route, deliver_here,
}
use im_system.Ws.Client.Opened.{IsHonest}
use im_system.Ws.Client.Unlost.{Coherent, Forwards}
use im_system.Ws.Client.Arrives.{Arrived, stored_arrives}
use im_system.Tests.Fixture.{demo, demo-IsLawful, person}
use im_system.Tests.Chat.{demo-Marshals, ann, both, to_bob, to_bob_read}
use im_system.Tests.Offline.{socket, socket-IsConn}

abbrev greeting : Text
greeting = pack (chat_fields to_bob)

bob_known : (get_user_by_user_id demo 2 both.store).0 ≡ ok (some (person 2 (bytes "bob")))
unfolding get_user_by_user_id connect register
bob_known = refl

both-IsHonest : IsHonest {B = demo} 2 both.store
unfolding connect register
both-IsHonest row (inl e) is_bob = inl (ap {A = ConversationMember} (λ r. r.last_read_msg_id) e)
both-IsHonest row (inr (inl e)) is_bob =
    inl (ap {A = ConversationMember} (λ r. r.last_read_msg_id) e)
both-IsHonest row (inr (inr x)) is_bob = absurd x

both_uncached : cached_conv demo 1 2 1 (get_user_by_user_id demo 2 both.store).1 ≡ unknown
unfolding get_user_by_user_id cached_conv connect register packed text_eq conv_key online_key
both_uncached = refl

both-Coherent : Coherent {B = demo} 1 2 (get_user_by_user_id demo 2 both.store).1
both-Coherent j e other = cc (both_uncached, e)

greeting_counted : (handle_chat_msg ann 7 greeting both).1.metrics.persisted_success ≡ 1
unfolding handle_chat_msg handle_payload converse connect register store_message after_store
    after_publish announce publish_with_fallback publish_message_sent find_or_open
    check_conversation_exist query_conv packed get_user_by_user_id cached_conv text_eq online_key
    conv_key create_message route get_client_by_user_id lookup insert deliver_here deliver_total_msg
greeting_counted = refl

greeting_asked :
    is_ok
      (get_unread_conversation_msg_by_user_id demo 2 (handle_chat_msg ann 7 greeting both).1.store)
    ≡ true
unfolding get_unread_conversation_msg_by_user_id
greeting_asked = refl

greeting_stored :
    (handle_chat_msg ann 7 greeting both).1.metrics.persisted_success
    ≢ both.metrics.persisted_success
unfolding connect register
greeting_stored e = absurd (omega (arith, greeting_counted, e))

both-Forwards : Forwards both
unfolding connect register
both-Forwards = refl

stored_arrives_example :
    Arrived socket demo-IsLawful 1 to_bob 2 (handle_chat_msg ann 7 greeting both).1.store []
stored_arrives_example =
    stored_arrives socket socket-IsConn demo-IsLawful demo-Marshals
      (λ r x s e. absurd (ground (arith, e))) (λ r x s e. absurd (ground (arith, e))) ann 7 greeting
      to_bob (person 2 (bytes "bob")) both [] to_bob_read bob_known (omega arith) both-Forwards
      both-Coherent both-IsHonest greeting_stored greeting_asked (λ text v. refl)
