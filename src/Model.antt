-- ===== src/Model.antt =====
-- internal/model: the rows of the four tables and the queue's message. Times are numbers.
use im_system.Common.{ℕ, Text, Option}

-- internal/model/user.go
pub record User : Type 0 where
  pub id : ℕ
  pub username : Text
  pub password : Text
  pub nickname : Text
  pub avatar_url : Text
  pub created_at : ℕ

-- internal/model/conversation.go; a nil pointer is `none`.
pub record Conversation : Type 0 where
  pub id : ℕ
  pub kind : ℕ
  pub name : Text
  pub creator_id : ℕ
  pub last_msg_id : Option ℕ
  pub last_msg_content : Option Text
  pub last_msg_time : Option ℕ
  pub created_at : ℕ

-- internal/model/conversationMember.go
pub record ConversationMember : Type 0 where
  pub id : ℕ
  pub conversation_id : ℕ
  pub user_id : ℕ
  pub role : ℕ
  pub last_read_msg_id : ℕ
  pub joined_at : ℕ

-- internal/model/message.go
pub record Message : Type 0 where
  pub id : ℕ
  pub conversation_id : ℕ
  pub sender_id : ℕ
  pub msg_type : ℕ
  pub content : Text
  pub client_msg_id : Text
  pub status : ℕ
  pub created_at : ℕ

pub record MqMessage : Type 0 where
  pub conv_id : ℕ
  pub send_msg : Message
