-- ===== src/Wire.antt =====
-- The JSON messages of internal/ws/client.go and internal/router/message.go.
use im_system.Common.{ℕ, Text, bytes}

-- The envelope; `payload` is the field `data`, kept as raw JSON.
pub record ClientMessage : Type 0 where
  pub action : Text
  pub payload : Text

pub record ChatMsgPayload : Type 0 where
  pub client_msg_id : Text
  pub to_user_id : ℕ
  pub content : Text

pub record AckMsgPayload : Type 0 where
  pub server_msg_id : ℕ
  pub conv_id : ℕ

pub record CollectMessage : Type 0 where
  pub sender_id : ℕ
  pub conversation_id : ℕ
  pub content : Text
  pub msg_id : ℕ
  pub client_msg_id : Text

pub record ForwardMessage : Type 0 where
  pub target_user_id : ℕ
  pub target_node_id : Text
  pub payload : Text

abbrev pub action_chat : Text
action_chat = bytes "chat"

abbrev pub action_ack : Text
action_ack = bytes "ack"

abbrev pub forward_channel : Text
forward_channel = bytes "im:forward"
