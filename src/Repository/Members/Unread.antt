-- ===== src/Repository/Members/Unread.antt =====
-- The messages that a user who connects is sent: those above the read position, and no others.
use im_system.Common.{ℕ, ◌≡◌, ◌<◌, refl, arith, sym, ap, Bool, true, ok}
use im_system.Common.{List, [], ◌∷◌, ◌++◌, modify, All, is_ok, ◌∙◌, Bool-cases, inl, inr}
use im_system.Common.{Among, Among-append_left, Among-append_right, subst}
use im_system.Model.{Message, Conversation, ConversationMember}
use im_system.Backend.{Backend, Store, joined, join_members, join_conversations, IsLawful}
use im_system.Repository.Members.{
  is_unread, behind, get_unread_conversation_msg_by_user_id, update_last_read_msg_id,
}
use im_system.Repository.Members.LastRead.{update_last_read-rows, moved}

All-append {ℓ} :
    {A : Type ℓ} (P : A → Type 0) (xs ys : List A) → All P xs → All P ys → All P (xs ++ ys)
All-append P [] ys h k = k
All-append P (x ∷ xs) ys h k = (h.0, All-append P xs ys h.1 k)

-- What holds of each message that a row of the join takes, holds of all that it lists.
module _ (p : Message → Conversation → ConversationMember → Bool) (P : Message → Type 0)
    (ms : List ConversationMember)
    (sound : (m : Message) (c : Conversation) → All (λ cm. p m c cm ≡ true → P m) ms) where
  join_members-All :
      (m : Message) (c : Conversation) (cms : List ConversationMember)
      → All (λ cm. p m c cm ≡ true → P m) cms
      → All P (join_members (p m c) m cms)
  join_members-All m c [] h = tt
  join_members-All m c (cm ∷ cms) h = elim (Bool-cases (p m c cm)) [
    | inl e ↦ rw e (h.0 e, join_members-All m c cms h.1)
    | inr e ↦ rw e (join_members-All m c cms h.1)
  ]

  join_conversations-All :
      (m : Message) (cs : List Conversation) → All P (join_conversations (p m) m cs ms)
  join_conversations-All m [] = tt
  join_conversations-All m (c ∷ cs) =
      All-append P (join_members (p m c) m ms) (join_conversations (p m) m cs ms)
        (join_members-All m c ms (sound m c)) (join_conversations-All m cs)

  pub joined-All : (msgs : List Message) (cs : List Conversation) → All P (joined p msgs cs ms)
  joined-All [] cs = tt
  joined-All (m ∷ msgs) cs =
      All-append P (join_conversations (p m) m cs ms) (joined p msgs cs ms)
        (join_conversations-All m cs) (joined-All msgs cs)

-- What three rows join to is listed.
module _ (p : Message → Conversation → ConversationMember → Bool) (m : Message) where
  Among-join_members :
      (c : Conversation) (cm : ConversationMember) (ms : List ConversationMember)
      → Among cm ms
      → p m c cm ≡ true
      → Among m (join_members (p m c) m ms)
  Among-join_members c cm [] h e = absurd h
  Among-join_members c cm (x ∷ ms) (inl same) e = rw (ap (p m c) (sym same) ∙ e) (inl refl)
  Among-join_members c cm (x ∷ ms) (inr h) e =
      Among-append_right m _ (join_members (p m c) m ms) (Among-join_members c cm ms h e)

  Among-join_conversations :
      (c : Conversation) (cm : ConversationMember) (cs : List Conversation)
      (ms : List ConversationMember)
      → Among c cs
      → Among cm ms
      → p m c cm ≡ true
      → Among m (join_conversations (p m) m cs ms)
  Among-join_conversations c cm [] ms hc hm e = absurd hc
  Among-join_conversations c cm (x ∷ cs) ms (inl same) hm e =
      Among-append_left m _ (join_conversations (p m) m cs ms)
        (Among-join_members x cm ms hm (ap (λ y. p m y cm) (sym same) ∙ e))
  Among-join_conversations c cm (x ∷ cs) ms (inr h) hm e =
      Among-append_right m _ (join_conversations (p m) m cs ms)
        (Among-join_conversations c cm cs ms h hm e)

Among-joined :
    (p : Message → Conversation → ConversationMember → Bool) (m : Message) (c : Conversation)
    (cm : ConversationMember) (msgs : List Message) (cs : List Conversation)
    (ms : List ConversationMember)
    → Among m msgs
    → Among c cs
    → Among cm ms
    → p m c cm ≡ true
    → Among m (joined p msgs cs ms)
Among-joined p m c cm [] cs ms h hc hm e = absurd h
Among-joined p m c cm (x ∷ msgs) cs ms (inl same) hc hm e =
    Among-append_left m (join_conversations (p x) x cs ms) (joined p msgs cs ms) (
      subst (λ y. Among m (join_conversations (p y) y cs ms)) same
        (Among-join_conversations p m c cm cs ms hc hm e))
Among-joined p m c cm (x ∷ msgs) cs ms (inr h) hc hm e =
    Among-append_right m _ (joined p msgs cs ms) (Among-joined p m c cm msgs cs ms h hc hm e)

-- After the acknowledgement every member row of the user in the conversation is at least there.
behind-modify :
    (conv_id user_id msg_id : ℕ) (m : Message) (c : Conversation) (ms : List ConversationMember)
    → All
        (λ cm. is_unread user_id m c cm ≡ true → m.conversation_id ≡ conv_id → msg_id < m.id)
        (modify (behind conv_id user_id msg_id) (moved msg_id) ms)
behind-modify conv_id user_id msg_id m c [] = tt
behind-modify conv_id user_id msg_id m c (cm ∷ ms) =
    ((λ h e. ground arith), behind-modify conv_id user_id msg_id m c ms)

module _ (B : Backend) (law : IsLawful B) where
  -- With services that behave as documented: if UpdateLastReadMsgID succeeds, then the query of the
  -- user's unread messages, made on the store that it leaves, lists of that conversation only
  -- messages whose ids are above the one acknowledged, if it does not fail.
  pub unread_after_ack :
      (conv_id user_id msg_id : ℕ) (st : Store B) (r : List Message)
      → is_ok (update_last_read_msg_id B conv_id user_id msg_id st).0 ≡ true
      → get_unread_conversation_msg_by_user_id B user_id
          (update_last_read_msg_id B conv_id user_id msg_id st).1
        ≡ ok r
      → All (λ m. m.conversation_id ≡ conv_id → msg_id < m.id) r
  unfolding get_unread_conversation_msg_by_user_id
  unread_after_ack conv_id user_id msg_id st r h e =
      let st' = (update_last_read_msg_id B conv_id user_id msg_id st).1 in
      let rows = B.members.rows st'.members in
      rw (law.join_ok _ r _ _ _ e) (
        joined-All (is_unread user_id) (λ m. m.conversation_id ≡ conv_id → msg_id < m.id) rows
          (λ m c.
            rw (update_last_read-rows B law.members conv_id user_id msg_id st h)
              (behind-modify conv_id user_id msg_id m c (B.members.rows st.members)))
          (B.messages.rows st'.messages) (B.conversations.rows st'.conversations))

  -- A stored message of a conversation is sent to a connecting user who is a member of the
  -- conversation and has not read that far, if the query does not fail.
  pub unread_complete :
      (user_id : ℕ) (m : Message) (c : Conversation) (cm : ConversationMember) (st : Store B)
      (r : List Message)
      → get_unread_conversation_msg_by_user_id B user_id st ≡ ok r
      → Among m (B.messages.rows st.messages)
      → Among c (B.conversations.rows st.conversations)
      → Among cm (B.members.rows st.members)
      → m.conversation_id ≡ c.id
      → cm.conversation_id ≡ c.id
      → cm.user_id ≡ user_id
      → cm.last_read_msg_id < m.id
      → Among m r
  unfolding get_unread_conversation_msg_by_user_id
  unread_complete user_id m c cm st r e hm hc hcm of_conv in_conv is_user above =
      rw (law.join_ok _ r _ _ _ e)
        (Among-joined (is_unread user_id) m c cm _ _ _ hm hc hcm (ground arith))
