-- ===== src/Backend.antt =====
-- The services that one server process is connected to, and their states (the globals of
-- pkg/mysql, pkg/redis, pkg/rabbitmq and internal/mq/publisher.go).
use im_system.Common.{ℕ, ◌≡◌, ◌<◌, refl, ◌∙◌, Text, List, Result, Bool, ok, text_eq, bytes, All}
use im_system.Common.{[], ◌∷◌, ◌++◌, if◌then◌else◌}
use im_system.Common.Decimal.{decimal}
use im_system.Model.{User, Conversation, ConversationMember, Message, MqMessage}
use im_system.Wire.{ClientMessage, ChatMsgPayload, AckMsgPayload, CollectMessage, ForwardMessage}
use im_system.Services.{Table, IsTable, Cache, IsCache, Codec, Broker, IsBroker, Hash}

pub record Backend : Type 1 where
  pub users : Table User
  pub conversations : Table Conversation
  pub members : Table ConversationMember
  pub messages : Table Message
  pub cache : Cache
  pub broker : Broker
  -- go-redis on a struct with `redis` tags
  pub to_hash : User → Hash
  pub scan_user : Hash → Result User
  -- SELECT messages.* … JOIN conversations … JOIN conversation_members … WHERE … ORDER BY
  -- messages.id: one copy of the message for each conversation and member that fit
  pub join_messages :
      (Message → Conversation → ConversationMember → Bool)
      → messages.State
      → conversations.State
      → members.State
      → Result (List Message)
  pub client_codec : Codec ClientMessage
  pub chat_codec : Codec ChatMsgPayload
  pub ack_codec : Codec AckMsgPayload
  pub collect_codec : Codec CollectMessage
  pub forward_codec : Codec ForwardMessage
  pub mq_codec : Codec MqMessage

-- The states of the services, the milliseconds that the process has slept, latest first, and how often
-- it has asked MySQL for a group of members.
pub record Store (B : Backend) : Type 0 where
  pub users : B.users.State
  pub conversations : B.conversations.State
  pub members : B.members.State
  pub messages : B.messages.State
  pub cache : B.cache.State
  pub broker : B.broker.State
  pub slept : List ℕ
  pub queries : ℕ

-- The tables of conversations, members and messages are those of `st`.
pub record SameTables {B : Backend} (st' st : Store B) : Type 0 where
  pub conversations : st'.conversations ≡ st.conversations
  pub members : st'.members ≡ st.members
  pub messages : st'.messages ≡ st.messages

pub SameTables-refl : {B : Backend} {s : Store B} → SameTables s s
SameTables-refl = record { conversations = refl; members = refl; messages = refl }

pub SameTables-trans :
    {B : Backend} {s t u : Store B} → SameTables s t → SameTables t u → SameTables s u
SameTables-trans p q = record {
  conversations = p.conversations ∙ q.conversations;
  members = p.members ∙ q.members;
  messages = p.messages ∙ q.messages;
}

-- The columns that the database fills in.
abbrev pub fill_user : User → ℕ → ℕ → User
fill_user r i t = record r { id = i; created_at = t }

abbrev pub fill_conversation : Conversation → ℕ → ℕ → Conversation
fill_conversation r i t = record r { id = i; created_at = t }

abbrev pub fill_member : ConversationMember → ℕ → ℕ → ConversationMember
fill_member r i t = record r { id = i }

abbrev pub fill_message : Message → ℕ → ℕ → Message
fill_message r i t = record r { id = i; created_at = t }

-- The value of a field of a Redis hash; Go's map gives "" for a missing key.
abbrev pub hash_field : Text → Hash → Text
hash_field f [] = []
hash_field f ((k, v) ∷ h) = if text_eq k f then v else hash_field f h

-- What a join of the three tables lists.
abbrev pub join_members :
    (ConversationMember → Bool) → Message → List ConversationMember → List Message
join_members p m [] = []
join_members p m (c ∷ cs) = (if p c then m ∷ [] else []) ++ join_members p m cs

abbrev pub join_conversations :
    (Conversation → ConversationMember → Bool)
    → Message
    → List Conversation
    → List ConversationMember
    → List Message
join_conversations p m [] ms = []
join_conversations p m (c ∷ cs) ms = join_members (p c) m ms ++ join_conversations p m cs ms

abbrev pub joined :
    (Message → Conversation → ConversationMember → Bool)
    → List Message
    → List Conversation
    → List ConversationMember
    → List Message
joined p [] cs ms = []
joined p (m ∷ msgs) cs ms = join_conversations (p m) m cs ms ++ joined p msgs cs ms

-- What the code relies on, together.
pub record IsLawful (B : Backend) : Type 0 where
  pub users : IsTable B.users (λ r. r.id) fill_user
  pub conversations : IsTable B.conversations (λ r. r.id) fill_conversation
  pub members : IsTable B.members (λ r. r.id) fill_member
  pub messages : IsTable B.messages (λ r. r.id) fill_message
  pub cache : IsCache B.cache
  pub broker : IsBroker B.broker
  -- the hash of a struct is not empty and shows its id; the password is not stored
  pub to_hash_id : (u : User) → hash_field (bytes "id") (B.to_hash u) ≡ decimal u.id
  pub scan-to_hash : (u : User) → B.scan_user (B.to_hash u) ≡ ok (record u { password = [] })
  pub join_ok :
      (p : Message → Conversation → ConversationMember → Bool) (r : List Message)
      (s : B.messages.State) (c : B.conversations.State) (m : B.members.State)
      → B.join_messages p s c m ≡ ok r
      → r ≡ joined p (B.messages.rows s) (B.conversations.rows c) (B.members.rows m)

-- json.Marshal compacts a json.RawMessage, escapes it for HTML, and replaces what is not UTF-8 in a
-- string. What it has made itself is compact and escaped: such a payload, with a node id in ASCII,
-- is read as it was sent.
pub record IsForwardCodec (B : Backend) : Type 0 where
  pub round_trip :
      (m : ForwardMessage) (cm : CollectMessage) (s : Text)
      → All (λ b. b < 128) m.target_node_id
      → B.collect_codec.marshal cm ≡ ok m.payload
      → B.forward_codec.marshal m ≡ ok s
      → B.forward_codec.unmarshal s ≡ ok m
