-- ===== src/Tests/Fixture.antt =====
-- A backend in memory that never fails, and its first state.
use im_system.Common.{
  ℕ, refl, arith, Text, bytes, none, List, [], ◌∷◌, Result, ok, err, external, text_eq,
}
use im_system.Common.Decimal.{decimal}
use im_system.Model.{User, Conversation, ConversationMember, Message}
use im_system.Services.{Hash}
use im_system.Services.Memory.{
  memory_table, memory_table-IsTable, memory_cache, memory_cache-IsCache, memory_broker,
  memory_broker-IsBroker, empty_cache,
}
use im_system.Services.Packed.{
  packed, packed_round_trip, pack, unpack, unpack-pack, client_fields, client_of, chat_fields,
  chat_of, ack_fields, ack_of, collect_fields, collect_of, forward_fields, forward_of, mq_fields,
  mq_of,
}
use im_system.Backend.{
  Backend, Store, IsLawful, fill_user, fill_conversation, fill_member, fill_message, joined,
  IsForwardCodec,
}

abbrev user_fields : User → List Text
user_fields u = (u.id ∷ u.created_at ∷ []) ∷ u.username ∷ u.nickname ∷ u.avatar_url ∷ []

abbrev user_of : List Text → Result User
user_of ((i ∷ t ∷ []) ∷ n ∷ k ∷ a ∷ []) =
    ok
      (record { id = i; username = n; password = []; nickname = k; avatar_url = a; created_at = t })
user_of _ = err (external 2)

abbrev pub user_hash : User → Hash
user_hash u = (bytes "id", decimal u.id) ∷ (bytes "user", pack (user_fields u)) ∷ []

abbrev pub hash_user : Hash → Result User
hash_user (i ∷ (k, v) ∷ []) = user_of (unpack v)
hash_user _ = err (external 3)

abbrev pub demo : Backend
demo = record {
  users = memory_table (λ r. r.id) fill_user;
  conversations = memory_table (λ r. r.id) fill_conversation;
  members = memory_table (λ r. r.id) fill_member;
  messages = memory_table (λ r. r.id) fill_message;
  cache = memory_cache;
  broker = memory_broker;
  to_hash = user_hash;
  scan_user = hash_user;
  join_messages = λ p s c m. ok (joined p s c m);
  client_codec = packed client_fields client_of;
  chat_codec = packed chat_fields chat_of;
  ack_codec = packed ack_fields ack_of;
  collect_codec = packed collect_fields collect_of;
  forward_codec = packed forward_fields forward_of;
  mq_codec = packed mq_fields mq_of;
}

pub demo-IsLawful : IsLawful demo
unfolding text_eq
demo-IsLawful = record {
  users = memory_table-IsTable _ fill_user (λ r i t. refl);
  conversations = memory_table-IsTable _ fill_conversation (λ r i t. refl);
  members = memory_table-IsTable _ fill_member (λ r i t. refl);
  messages = memory_table-IsTable _ fill_message (λ r i t. refl);
  cache = memory_cache-IsCache;
  broker = memory_broker-IsBroker;
  to_hash_id = λ u. refl;
  scan-to_hash = λ u. rw unpack-pack;
  join_ok = λ p r s c m e. ground arith;
}

pub demo-IsForwardCodec : IsForwardCodec demo
demo-IsForwardCodec = record {
  round_trip = λ m cm s ascii made e. packed_round_trip forward_fields forward_of m s refl e;
}

abbrev pub person : ℕ → Text → User
person i name = record {
  id = i;
  username = name;
  password = bytes "hash";
  nickname = [];
  avatar_url = [];
  created_at = 0;
}

abbrev pub member_row : ℕ → ℕ → ℕ → ConversationMember
member_row i k u = record {
  id = i;
  conversation_id = k;
  user_id = u;
  role = 0;
  last_read_msg_id = 0;
  joined_at = 0;
}

abbrev pub conv_row : ℕ → Conversation
conv_row k = record {
  id = k;
  kind = 1;
  name = [];
  creator_id = 1;
  last_msg_id = none;
  last_msg_content = none;
  last_msg_time = none;
  created_at = 0;
}

abbrev pub message_row : ℕ → ℕ → ℕ → Message
message_row i k u = record {
  id = i;
  conversation_id = k;
  sender_id = u;
  msg_type = 1;
  content = bytes "hi";
  client_msg_id = bytes "m";
  status = 0;
  created_at = 0;
}

-- Users 1 and 2 share conversation 1, in which user 2 has sent message 1.
abbrev pub store : Store demo
store = record {
  users = person 1 (bytes "ann") ∷ person 2 (bytes "bob") ∷ [];
  conversations = conv_row 1 ∷ [];
  members = member_row 1 1 1 ∷ member_row 2 1 2 ∷ [];
  messages = message_row 1 1 2 ∷ [];
  cache = empty_cache;
  broker = [];
  slept = [];
  queries = 0;
}
