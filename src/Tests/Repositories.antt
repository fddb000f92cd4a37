-- ===== src/Tests/Repositories.antt =====
-- Users, conversations and read positions.
use im_system.Common.{
  text_eq, ℕ, ◌<◌, ◌≡◌, refl, arith, bytes, some, none, ok, [], ◌∷◌, All, find?, ◌==◌, ◌⊎◌,
}
use im_system.Common.Decimal.{decimal}
use im_system.Model.{Message}
use im_system.Backend.{Store}
use im_system.Repository.Users.{zero_user, get_user_by_user_id, create_user}
use im_system.Repository.Users.Answers.{Reports, IsCoherent, get_user-Reports}
use im_system.Repository.Users.Absent.{negative_cache_hides_user}
use im_system.Repository.Conversations.{conv_key, itoa, cache_conversation_id}
use im_system.Repository.Keys.{conv_key-injective}
use im_system.Repository.Members.{
  update_last_read_msg_id, get_unread_conversation_msg_by_user_id, check_conversation_exist,
  query_conv, cached_conv,
}
use im_system.Repository.Members.LastRead.{read_position, rows_after, update_last_read_position}
use im_system.Repository.Members.Unread.{unread_after_ack}
use im_system.Repository.Members.Again.{check_again}
use im_system.Repository.Members.Pairs.{check_after_cache}
use im_system.Tests.Fixture.{demo, demo-IsLawful, store, person, message_row, user_hash}

store-IsCoherent : IsCoherent demo demo-IsLawful 1 store
store-IsCoherent h t e = absurd (ground arith)

get_user-Reports_example :
    Reports demo demo-IsLawful (some (person 1 (bytes "ann"))) (some (person 1 (bytes "ann")))
unfolding get_user_by_user_id
get_user-Reports_example =
    get_user-Reports demo demo-IsLawful 1 store (some (person 1 (bytes "ann"))) (λ e. cc)
      store-IsCoherent refl

abbrev registered : Store demo
registered = (create_user demo (person 0 (bytes "cy")) (get_user_by_user_id demo 3 store).1).1

negative_cache_hides_user_example :
    (find? (λ u. u.id == 3) (demo.users.rows registered.users) ≡ some (person 3 (bytes "cy")))
    × ((get_user_by_user_id demo 3 registered).0 ≡ ok none)
unfolding create_user get_user_by_user_id decimal text_eq
negative_cache_hides_user_example =
    negative_cache_hides_user demo demo-IsLawful 3 store (person 0 (bytes "cy"))
      (person 3 (bytes "cy")) (user_hash zero_user) refl refl refl refl refl refl

abbrev two_messages : Store demo
two_messages = record store { messages = message_row 1 1 2 ∷ message_row 2 1 2 ∷ [] }

acked_unread :
    get_unread_conversation_msg_by_user_id demo 1
      (update_last_read_msg_id demo 1 1 1 two_messages).1
    ≡ ok (message_row 2 1 2 ∷ [])
unfolding get_unread_conversation_msg_by_user_id update_last_read_msg_id
acked_unread = refl

unread_after_ack_example :
    All {A = Message} (λ m. m.conversation_id ≡ 1 → 1 < m.id) (message_row 2 1 2 ∷ [])
unfolding update_last_read_msg_id
unread_after_ack_example =
    unread_after_ack demo demo-IsLawful 1 1 1 two_messages (message_row 2 1 2 ∷ []) refl
      acked_unread

waiting : get_unread_conversation_msg_by_user_id demo 1 store ≡ ok (message_row 1 1 2 ∷ [])
unfolding get_unread_conversation_msg_by_user_id
waiting = refl

update_last_read_position_example : read_position 1 1 (rows_after demo 1 1 1 store) ≡ some 1
unfolding update_last_read_msg_id
update_last_read_position_example =
    update_last_read_position demo demo-IsLawful.members 1 1 1 1 1 store refl

check_after_cache_example :
    ((check_conversation_exist demo 1 2 1 (cache_conversation_id demo 1 2 1 7 store).1).0 ≡ ok 7)
    × ((check_conversation_exist demo 2 1 1 (cache_conversation_id demo 1 2 1 7 store).1).0 ≡ ok 7)
unfolding cache_conversation_id conv_key itoa decimal text_eq
check_after_cache_example =
    check_after_cache demo demo-IsLawful.cache 1 2 1 7 (bytes "7") store (omega arith) refl refl

abbrev asked : Store demo
asked = (check_conversation_exist demo 1 2 1 store).1

check_again_example :
    (check_conversation_exist demo 1 2 1 asked ≡ (ok 1, asked))
    × (check_conversation_exist demo 2 1 1 asked ≡ (ok 1, asked))
unfolding check_conversation_exist query_conv cached_conv conv_key decimal text_eq
check_again_example =
    check_again demo demo-IsLawful.cache 1 2 1 1 (bytes "1") store refl refl
      (λ e. absurd (omega (arith, e))) (omega arith) (λ ttl. refl) refl

conv_key-injective_example :
    (◌≡◌ {A = ℕ} 1 1)
    × ((◌≡◌ {A = ℕ} 4 9) × (◌≡◌ {A = ℕ} 9 4) ⊎ (◌≡◌ {A = ℕ} 4 4) × (◌≡◌ {A = ℕ} 9 9))
unfolding conv_key decimal
conv_key-injective_example = conv_key-injective 1 1 4 9 9 4 refl
