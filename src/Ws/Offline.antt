-- ===== src/Ws/Offline.antt =====
-- internal/ws/client.go, DeliverUnreadMsg: a client that connects is written the messages that it
-- has not read. Logging and the write deadline are left out.
pub mod Delivered
use im_system.Common.{ℕ, Text, List, [], ◌∷◌, ◌++◌, ◌≡◌, Result, Error, ok, err}
use im_system.Model.{Message}
use im_system.Wire.{CollectMessage}
use im_system.Backend.{Backend, Store}
use im_system.Repository.Members.{get_unread_conversation_msg_by_user_id}

-- A WebSocket connection of gorilla/websocket: WriteMessage, and the messages written whole.
pub record Conn : Type 1 where
  pub State : Type 0
  pub written : State → List Text
  pub write : Text → State → Result (Unit {0}) × State

pub record IsConn (K : Conn) : Type 0 where
  pub write_ok :
      (body : Text) (w w' : K.State)
      → K.write body w ≡ (ok tt, w')
      → K.written w' ≡ K.written w ++ body ∷ []
  pub write_err :
      (body : Text) (e : Error) (w w' : K.State)
      → K.write body w ≡ (err e, w')
      → K.written w' ≡ K.written w

-- The client's own id of a message is not sent again.
abbrev pub unread_message : Message → CollectMessage
unread_message m = record {
  sender_id = m.sender_id;
  conversation_id = m.conversation_id;
  content = m.content;
  msg_id = m.id;
  client_msg_id = [];
}

module _ (B : Backend) (K : Conn) where
  -- The loop: a message that cannot be marshalled is skipped, a failing write ends it.
  unfoldable pub push_unread : List Message → K.State → K.State
  push_unread [] w = w
  push_unread (m ∷ ms) w = elim (B.collect_codec.marshal (unread_message m)) [
    | err e ↦ push_unread ms w
    | ok body ↦ let (r, w') = K.write body w in elim r [ err e ↦ w' | ok u ↦ push_unread ms w' ]
  ]

  unfoldable pub deliver_unread_msg : ℕ → Store B → K.State → K.State
  unfolding push_unread
  deliver_unread_msg user_id st w = elim (get_unread_conversation_msg_by_user_id B user_id st) [
    | err e ↦ w
    | ok unread ↦ push_unread unread w
  ]
