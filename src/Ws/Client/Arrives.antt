-- ===== src/Ws/Client/Arrives.antt =====
-- From one client to another through the tables: handleChatMsg of the sender's connection, then
-- DeliverUnreadMsg for the addressee on the store that it leaves (internal/ws/client.go).
use im_system.Common.{ℕ, ◌≡◌, ◌≢◌, ◌∙◌, sym, refl, true, ok, some, Text, Among, is_ok, subst}
use im_system.Model.{Message, User}
use im_system.Wire.{ChatMsgPayload}
use im_system.Backend.{Backend, Store, IsLawful}
use im_system.Repository.Users.{get_user_by_user_id}
use im_system.Repository.Members.{get_unread_conversation_msg_by_user_id}
use im_system.Ws.State.{ClientRef, Server}
use im_system.Ws.Offline.{Conn, IsConn, deliver_unread_msg}
use im_system.Ws.Offline.Delivered.{notice_of, unread_arrives}
use im_system.Ws.Client.{handle_payload, handle_chat_msg}
use im_system.Ws.Client.Accounting.{Marshals}
use im_system.Ws.Client.Opened.{NeverDuplicated, IsHonest}
use im_system.Ws.Client.Awaits.{Stored}
use im_system.Ws.Client.Unlost.{Forwards, Coherent, StoredOnce, handle_payload-Stored}

-- A row of the message table has the payload's content and its client id, and its JSON is written
-- to the connection that `u` opens.
pub record Arrived {B : Backend} (K : Conn) (law : IsLawful B) (sender : ℕ) (p : ChatMsgPayload)
    (u : ℕ) (st : Store B) (w : K.State) : Type 0 where
  pub conv_id : ℕ
  pub message : Message
  pub row : Stored law conv_id sender p u message st
  pub json : Text
  pub marshalled : B.collect_codec.marshal (notice_of message) ≡ ok json
  pub written : Among json (K.written (deliver_unread_msg B K u st w))

module _ {B : Backend} (K : Conn) (conn : IsConn K) (law : IsLawful B) (marshals : Marshals B) where
  connected_later :
      (sender : ℕ) (p : ChatMsgPayload) (u : ℕ) (st : Store B) (w : K.State)
      → is_ok (get_unread_conversation_msg_by_user_id B u st) ≡ true
      → ((text : Text) (v : K.State) → is_ok (K.write text v).0 ≡ true)
      → StoredOnce law sender p u st
      → Arrived K law sender p u st w
  connected_later sender p u st w asked works (conv_id, m, s) =
      let a = s.awaits in
      let (conv, conv_in, is_conv) = a.conv in
      let (json, e) = marshals (notice_of m) in
      record {
        conv_id = conv_id;
        message = m;
        row = s;
        json = json;
        marshalled = e;
        written =
            unread_arrives B K conn law u m conv a.row json st w asked works a.stored conv_in
              a.row_in (sym is_conv) (a.row_conv ∙ sym is_conv) a.row_user a.behind e;
      }

  -- What handleChatMsg counts as stored, DeliverUnreadMsg writes to the addressee when it runs on
  -- the store that handleChatMsg leaves, with nothing in between. The services and the connection
  -- behave as documented, what is sent can be marshalled, and gorm reports no duplicate as such
  -- (there is no TranslateError). The payload can be read, GetUserByUserID finds the user it names,
  -- who is not the sender, and the process forwards by PublishForward. A conversation that Redis
  -- names for the two is one that the addressee is a member of, and no read position of the addressee
  -- is above every message. If the counter of stored messages changes, then whatever became of the
  -- push, the event and the conversation's row, a message with the sender, the content and the client
  -- id of the payload stands in the table, and DeliverUnreadMsg writes the JSON of its sender, its
  -- conversation, its content and its id to the addressee's connection, if its query and its writes
  -- do not fail.
  pub stored_arrives :
      (uniq_message : NeverDuplicated B.messages) (uniq_conv : NeverDuplicated B.conversations)
      (c : ClientRef) (now : ℕ) (raw : Text) (p : ChatMsgPayload) (target : User) (srv : Server B)
      (w : K.State)
      → B.chat_codec.unmarshal raw ≡ ok p
      → (get_user_by_user_id B p.to_user_id srv.store).0 ≡ ok (some target)
      → c.user_id ≢ target.id
      → Forwards srv
      → Coherent c.user_id target.id (get_user_by_user_id B p.to_user_id srv.store).1
      → IsHonest target.id srv.store
      → (handle_chat_msg c now raw srv).1.metrics.persisted_success ≢ srv.metrics.persisted_success
      → is_ok (
          get_unread_conversation_msg_by_user_id B target.id
            (handle_chat_msg c now raw srv).1.store)
        ≡ true
      → ((text : Text) (v : K.State) → is_ok (K.write text v).0 ≡ true)
      → Arrived K law c.user_id p target.id (handle_chat_msg c now raw srv).1.store w
  unfolding handle_chat_msg
  stored_arrives uniq_message uniq_conv c now raw p target srv w e found other set coherent honest
        counts asked works =
      let is_payload : handle_chat_msg c now raw srv ≡ handle_payload c now p srv =
        rw (e, handle_chat_msg) refl in
      connected_later c.user_id p target.id _ w asked works (
        rw is_payload (
          handle_payload-Stored law c p target.id other uniq_message uniq_conv now target srv refl
            set found coherent honest
            (subst (λ r. r.1.metrics.persisted_success ≢ srv.metrics.persisted_success) is_payload
              counts)))
