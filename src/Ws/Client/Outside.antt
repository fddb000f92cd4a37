-- ===== src/Ws/Client/Outside.antt =====
-- A user who is no member of a conversation: where that stays so, and what it means for the query of
-- unread messages.
use im_system.Common.{
  ℕ, ◌<◌, ◌≡◌, ◌≢◌, refl, sym, ap, ◌∙◌, arith, ok, none, false, is_ok, List, All, All-of, All-Among,
  Among, Among-append_one, inl, inr, Result-cases, result_pair,
}
use im_system.Model.{Conversation, ConversationMember, Message}
use im_system.Backend.{Backend, Store, IsLawful}
use im_system.Repository.Conversations.{cache_conversation_id}
use im_system.Repository.Members.{add_member, is_unread, get_unread_conversation_msg_by_user_id}
use im_system.Repository.Members.Unread.{joined-All}
use im_system.Mq.Publisher.Untouched.{HasId}
use im_system.Ws.Client.{join_both}

-- Every member row is of a conversation in the table.
abbrev pub NoStrays : {B : Backend} → Store B → Type 0
NoStrays {B} st =
    (q : ConversationMember)
    → Among q (B.members.rows st.members)
    → HasId q.conversation_id (B.conversations.rows st.conversations)

-- The user `u` is no member of conversation `k`.
abbrev pub Outside : {B : Backend} → ℕ → ℕ → Store B → Type 0
Outside {B} k u st =
    All (λ q. ¬ ((q.conversation_id ≡ k) × (q.user_id ≡ u))) (B.members.rows st.members)

module _ {B : Backend} (law : IsLawful B) where
  -- Adding another user lets nobody in.
  add_other-Outside :
      (k u v role now : ℕ) (st : Store B)
      → v ≢ u
      → Outside k u st
      → Outside k u (add_member B k v role now st).1
  unfolding add_member
  add_other-Outside k u v role now st other out =
      let row : ConversationMember = record {
        id = 0;
        conversation_id = k;
        user_id = v;
        role = role;
        last_read_msg_id = 0;
        joined_at = now;
      } in
      let q = B.members.create row st.members in
      elim (Result-cases q.0) [
        | inr (x, f) ↦ rw (law.members.create_err row x _ _ (result_pair q _ f)) out
        | inl (m, f) ↦
            let (rows, (i, t, filled), above) =
              law.members.create_ok row m _ _ (result_pair q _ f) in
            let of_v : m.user_id ≡ v = ap {A = ConversationMember} (λ r. r.user_id) filled in
            rw rows (
              All-of _ _ (λ r h. elim (Among-append_one r m (B.members.rows st.members) h) [
                | inl old ↦ All-Among _ r _ out old
                | inr new ↦ λ both.
                    other
                      (sym of_v ∙ sym (ap {A = ConversationMember} (λ r. r.user_id) new) ∙ both.1)
              ]))
      ]

  add_failed-Outside :
      (k u v role now : ℕ) (st : Store B)
      → is_ok (add_member B k v role now st).0 ≡ false
      → Outside k u st
      → Outside k u (add_member B k v role now st).1
  unfolding add_member
  add_failed-Outside k u v role now st failed out =
      let row : ConversationMember = record {
        id = 0;
        conversation_id = k;
        user_id = v;
        role = role;
        last_read_msg_id = 0;
        joined_at = now;
      } in
      let q = B.members.create row st.members in
      elim (Result-cases q.0) [
        | inr (x, f) ↦ rw (law.members.create_err row x _ _ (result_pair q _ f)) out
        | inl (m, f) ↦ absurd (ground (arith, f, failed))
      ]

  pub join_failed-Outside :
      (k sender target now : ℕ) (st : Store B)
      → sender ≢ target
      → (join_both k sender target now st).0 ≡ none
      → Outside k target st
      → Outside k target (join_both k sender target now st).1
  unfolding join_both
  join_failed-Outside k sender target now st other e out =
      let st1 = (add_member B k sender 0 now st).1 in
      let out1 = add_other-Outside k target sender 0 now st other out in
      elim (Result-cases (add_member B k sender 0 now st).0) [
        | inr (x, f) ↦ rw (f, join_both) out1
        | inl (u, f) ↦ elim (Result-cases (add_member B k target 0 now st1).0) [
          | inl (v, g) ↦ absurd (ground (arith, f, g, e))
          | inr (x, g) ↦
              rw (f, join_both)
                (rw g (add_failed-Outside k target target 0 now st1 (rw g refl) out1))
        ]
      ]

  -- A conversation that is new has no members.
  pub fresh-Outside :
      (c conv : Conversation) (u : ℕ) (st : Store B)
      → NoStrays st
      → (B.conversations.create c st.conversations).0 ≡ ok conv
      → Outside conv.id u st
  fresh-Outside c conv u st strays e =
      let q = B.conversations.create c st.conversations in
      let (rows, _, above) = law.conversations.create_ok c conv _ _ (result_pair q _ e) in
      All-of _ _ (λ r h both.
        let (d, in_table, is_d) = strays r h in
        omega (arith, is_d, both.0, All-Among (λ x. x.id < conv.id) d _ above in_table))

  pub cached-Outside :
      (k u a b conv_id : ℕ) (st : Store B)
      → Outside k u st
      → Outside k u (cache_conversation_id B a b 1 conv_id st).1
  unfolding cache_conversation_id
  cached-Outside k u a b conv_id st out = out

  -- No connection of `u` is sent messages of conversation `k`.
  pub Outside-unlisted :
      (k u : ℕ) (st : Store B) (r : List Message)
      → Outside k u st
      → get_unread_conversation_msg_by_user_id B u st ≡ ok r
      → All (λ m. m.conversation_id ≢ k) r
  unfolding get_unread_conversation_msg_by_user_id
  Outside-unlisted k u st r out e =
      let rows = B.members.rows st.members in
      rw (law.join_ok _ r _ _ _ e) (
        joined-All (is_unread u) (λ m. m.conversation_id ≢ k) rows
          (λ m c.
            All-of _ rows
              (λ q h listed in_k. All-Among _ q rows out h (ground (arith, listed, in_k))))
          (B.messages.rows st.messages) (B.conversations.rows st.conversations))
