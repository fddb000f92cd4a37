-- ===== src/Repository/Members/LastRead.antt =====
-- The read position of a member of a conversation only moves forward.
use im_system.Common.{ℕ, ◌≡◌, arith, Bool, true, Option, some, none, ◌&&◌, max}
use im_system.Common.{
  List, [], ◌∷◌, modify, find?, is_ok, ◌==◌, if◌then◌else◌, Result-cases, result_pair, inl, inr,
}
use im_system.Model.{ConversationMember}
use im_system.Services.{IsTable}
use im_system.Backend.{Backend, Store, fill_member}
use im_system.Repository.Members.{behind, update_last_read_msg_id}

abbrev pub is_member : ℕ → ℕ → ConversationMember → Bool
is_member conv_id user_id m = (m.user_id == user_id) && (m.conversation_id == conv_id)

abbrev position_of : Option ConversationMember → Option ℕ
position_of none = none
position_of (some m) = some m.last_read_msg_id

-- How far a user has read a conversation.
abbrev pub read_position : ℕ → ℕ → List ConversationMember → Option ℕ
read_position conv_id user_id ms = position_of (find? (is_member conv_id user_id) ms)

abbrev advanced : ℕ → Option ℕ → Option ℕ
advanced msg_id none = none
advanced msg_id (some p) = some (max p msg_id)

abbrev pub moved : ℕ → ConversationMember → ConversationMember
moved msg_id m = record m { last_read_msg_id = msg_id }

read_position-modify :
    (conv_id user_id msg_id k u : ℕ) (ms : List ConversationMember)
    → read_position k u (modify (behind conv_id user_id msg_id) (moved msg_id) ms) ≡ (
        if (u == user_id) && (k == conv_id)
        then advanced msg_id (read_position k u ms)
        else read_position k u ms)
read_position-modify conv_id user_id msg_id k u [] = ground arith
read_position-modify conv_id user_id msg_id k u (m ∷ ms) =
    ground (arith, read_position-modify conv_id user_id msg_id k u ms)

abbrev pub rows_after : (B : Backend) → ℕ → ℕ → ℕ → Store B → List ConversationMember
rows_after B conv_id user_id msg_id st =
    B.members.rows (update_last_read_msg_id B conv_id user_id msg_id st).1.members

module _ (B : Backend) (table : IsTable B.members (λ r. r.id) fill_member) where
  pub update_last_read-rows :
      (conv_id user_id msg_id : ℕ) (st : Store B)
      → is_ok (update_last_read_msg_id B conv_id user_id msg_id st).0 ≡ true
      → rows_after B conv_id user_id msg_id st
        ≡ modify (behind conv_id user_id msg_id) (moved msg_id) (B.members.rows st.members)
  unfolding update_last_read_msg_id
  update_last_read-rows conv_id user_id msg_id st h =
      elim (Result-cases
        (B.members.update (behind conv_id user_id msg_id) (moved msg_id) st.members).0) [
          | inl (n, e) ↦ table.update_ok _ _ n st.members _ (result_pair _ _ e)
          | inr (x, e) ↦ absurd (ground (arith, e))
        ]

  -- A successful UpdateLastReadMsgID moves the position of that user in that conversation to the
  -- larger of the old one and the given id, and no other position.
  pub update_last_read_position :
      (conv_id user_id msg_id k u : ℕ) (st : Store B)
      → is_ok (update_last_read_msg_id B conv_id user_id msg_id st).0 ≡ true
      → read_position k u (rows_after B conv_id user_id msg_id st) ≡ (
          if (u == user_id) && (k == conv_id)
          then advanced msg_id (read_position k u (B.members.rows st.members))
          else read_position k u (B.members.rows st.members))
  update_last_read_position conv_id user_id msg_id k u st h =
      rw (update_last_read-rows conv_id user_id msg_id st h)
        (read_position-modify conv_id user_id msg_id k u (B.members.rows st.members))
