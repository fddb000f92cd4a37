-- ===== src/Tests/HalfOpened.antt =====
-- A database that takes no more members.
use im_system.Common.{
  ◌≡◌, refl, sym, ap, arith, ok, err, none, [], ◌∷◌, external, bytes, inl, inr, is_ok, true,
  text_eq,
}
use im_system.Common.Decimal.{decimal}
use im_system.Model.{Conversation, ConversationMember}
use im_system.Services.{Table, IsTable}
use im_system.Services.Memory.{memory_table, memory_table-IsTable}
use im_system.Backend.{Backend, Store, IsLawful, fill_member, fill_conversation}
use im_system.Repository.Conversations.{conv_key, itoa, create_conversation, cache_conversation_id}
use im_system.Repository.Members.{get_unread_conversation_msg_by_user_id, add_member}
use im_system.Ws.Client.{new_conversation, open_conversation}
use im_system.Ws.Client.Outside.{NoStrays}
use im_system.Ws.Client.HalfOpened.{HalfOpened, open_conversation-HalfOpened}
use im_system.Tests.Fixture.{demo, demo-IsLawful, store, conv_row, message_row}

abbrev refusing : Table ConversationMember
refusing = record (memory_table (λ r. r.id) fill_member) { create = λ r s. (err (external 9), s) }

refusing-IsTable : IsTable refusing (λ r. r.id) fill_member
refusing-IsTable =
    let law = memory_table-IsTable (λ r. r.id) fill_member (λ r i t. refl) in
    record {
      create_ok = λ r r' s s' e. absurd (ground (arith, e));
      create_positive = λ r r' s s' e. absurd (ground (arith, e));
      create_err = λ r e s s' h. ground (arith, h);
      first_ok = law.first_ok;
      first_none = law.first_none;
      find_ok = law.find_ok;
      find_group_some = law.find_group_some;
      find_group_none = law.find_group_none;
      update_ok = law.update_ok;
      update_err = law.update_err;
    }

abbrev crowded : Backend
crowded = record demo { members = refusing }

crowded-IsLawful : IsLawful crowded
crowded-IsLawful = record {
  users = demo-IsLawful.users;
  conversations = demo-IsLawful.conversations;
  members = refusing-IsTable;
  messages = demo-IsLawful.messages;
  cache = demo-IsLawful.cache;
  broker = demo-IsLawful.broker;
  to_hash_id = demo-IsLawful.to_hash_id;
  scan-to_hash = demo-IsLawful.scan-to_hash;
  join_ok = demo-IsLawful.join_ok;
}

abbrev crowded_store : Store crowded
crowded_store = record {
  users = store.users;
  conversations = store.conversations;
  members = store.members;
  messages = store.messages;
  cache = store.cache;
  broker = store.broker;
  slept = [];
  queries = 0;
}

abbrev third_conversation : Conversation
third_conversation = fill_conversation (new_conversation 1 3) 2 0

crowded-NoStrays : NoStrays crowded_store
crowded-NoStrays q (inl e) =
    (conv_row 1, inl refl, ap {A = ConversationMember} (λ r. r.conversation_id) (sym e))
crowded-NoStrays q (inr (inl e)) =
    (conv_row 1, inl refl, ap {A = ConversationMember} (λ r. r.conversation_id) (sym e))
crowded-NoStrays q (inr (inr x)) = absurd x

third_made :
    (crowded.conversations.create (new_conversation 1 3) crowded_store.conversations).0
    ≡ ok third_conversation
third_made = refl

abbrev crowded_after : Store crowded
crowded_after = (open_conversation 1 3 7 crowded_store).1

third_cached :
    is_ok
      (cache_conversation_id crowded 1 3 1 2
        (create_conversation crowded (new_conversation 1 3) crowded_store).1).0
    ≡ true
unfolding cache_conversation_id create_conversation
third_cached = refl

third_refused : (open_conversation 1 3 7 crowded_store).0 ≡ none
unfolding open_conversation create_conversation add_member
third_refused = refl

third_kept : crowded.cache.get (conv_key 1 1 3) crowded_after.cache ≡ ok (bytes "2")
unfolding open_conversation create_conversation add_member cache_conversation_id text_eq conv_key
    decimal itoa
third_kept = refl

third_unread :
    get_unread_conversation_msg_by_user_id crowded 3
      (record crowded_after { messages = message_row 2 2 1 ∷ [] })
    ≡ ok []
unfolding get_unread_conversation_msg_by_user_id open_conversation create_conversation add_member
    cache_conversation_id
third_unread = refl

open_conversation-HalfOpened_example : HalfOpened crowded-IsLawful 1 3 8 2 [] crowded_after
open_conversation-HalfOpened_example =
    open_conversation-HalfOpened crowded-IsLawful 1 3 7 8 third_conversation (bytes "2")
      (message_row 2 2 1 ∷ []) [] crowded_store (omega arith) (omega arith) (omega arith)
      crowded-NoStrays third_made third_cached third_refused third_kept third_unread
