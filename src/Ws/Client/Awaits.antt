-- ===== src/Ws/Client/Awaits.antt =====
-- A chat message that was counted as stored waits for its addressee in the tables.
use im_system.Common.{
  ℕ, ◌<◌, ◌≡◌, ◌≢◌, refl, sym, ap, ◌∙◌, arith, ok, false, Among, All-Among, Among-last, inl, inr,
  Bool, Result-cases, result_pair, ◌∷◌, [], List, modify,
}
use im_system.Model.{ConversationMember, Message, MqMessage}
use im_system.Wire.{ChatMsgPayload}
use im_system.Backend.{Backend, Store, IsLawful}
use im_system.Repository.Messages.{create_message}
use im_system.Repository.Members.{behind, update_last_read_msg_id}
use im_system.Repository.Members.LastRead.{moved}
use im_system.Repository.Members.Shared.{Belongs}
use im_system.Mq.Publisher.{publish_with_fallback}
use im_system.Mq.Publisher.Untouched.{
  HasId, publish_with_fallback-messages, publish_with_fallback-members, publish_with_fallback-HasId,
}
use im_system.Ws.Client.{new_message, announce}
use im_system.Ws.Client.Opened.{NeverDuplicated, IsHonest}

-- The message waits for the user `u`: it is in the table, of a conversation that is in its own, and
-- of which the user is a member who has not read that far.
pub record Awaits {B : Backend} (m : Message) (u : ℕ) (st : Store B) : Type 0 where
  pub stored : Among m (B.messages.rows st.messages)
  pub conv : HasId m.conversation_id (B.conversations.rows st.conversations)
  pub row : ConversationMember
  pub row_in : Among row (B.members.rows st.members)
  pub row_conv : row.conversation_id ≡ m.conversation_id
  pub row_user : row.user_id ≡ u
  pub behind : row.last_read_msg_id < m.id

Among-modify :
    {A : Type 0} (p : A → Bool) (f : A → A) (a : A) (xs : List A)
    → p a ≡ false
    → Among a xs
    → Among a (modify p f xs)
Among-modify p f a [] miss h = absurd h
Among-modify p f a (x ∷ xs) miss (inl e) = inl (rw (← e) (rw miss refl))
Among-modify p f a (x ∷ xs) miss (inr h) = inr (Among-modify p f a xs miss h)

module _ {B : Backend} (law : IsLawful B) where
  -- UpdateLastReadMsgID for another user.
  update_last_read-Awaits :
      (conv_id sender msg_id u : ℕ) (m : Message) (st : Store B)
      → sender ≢ u
      → Awaits m u st
      → Awaits m u (update_last_read_msg_id B conv_id sender msg_id st).1
  unfolding update_last_read_msg_id
  update_last_read-Awaits conv_id sender msg_id u m st other a =
      let q = B.members.update (behind conv_id sender msg_id) (moved msg_id) st.members in
      let kept : Among a.row (B.members.rows q.1) = elim (Result-cases q.0) [
        | inl (n, e) ↦
            rw
              (law.members.update_ok (behind conv_id sender msg_id) (moved msg_id) n _ _
                (result_pair q _ e))
              (Among-modify (behind conv_id sender msg_id) (moved msg_id) a.row _
                (ground (arith, a.row_user, other)) a.row_in)
        | inr (x, e) ↦
            rw
              (law.members.update_err (behind conv_id sender msg_id) (moved msg_id) x _ _
                (result_pair q _ e))
              a.row_in
      ] in
      record {
        stored = a.stored;
        conv = a.conv;
        row = a.row;
        row_in = kept;
        row_conv = a.row_conv;
        row_user = a.row_user;
        behind = a.behind;
      }

  pub announce-Awaits :
      (conv_id sender u : ℕ) (stored m : Message) (st : Store B)
      → sender ≢ u
      → Awaits m u st
      → Awaits m u (announce conv_id sender stored st)
  unfolding announce
  announce-Awaits conv_id sender u stored m st other a =
      let msg : MqMessage = record { conv_id = conv_id; send_msg = stored } in
      update_last_read-Awaits conv_id sender stored.id u m (publish_with_fallback B msg st) other
        (record {
          stored = rw (publish_with_fallback-messages B msg st) a.stored;
          conv = publish_with_fallback-HasId B msg law.conversations m.conversation_id st a.conv;
          row = a.row;
          row_in = rw (publish_with_fallback-members B msg st) a.row_in;
          row_conv = a.row_conv;
          row_user = a.row_user;
          behind = a.behind;
        })

  -- A new row of the table of messages, with the fields that the handler gave it.
  pub record Stored (conv_id sender : ℕ) (p : ChatMsgPayload) (u : ℕ) (m : Message) (st : Store B)
      : Type 0 where
    pub of_sender : m.sender_id ≡ sender
    pub same_content : m.content ≡ p.content
    pub same_client_id : m.client_msg_id ≡ p.client_msg_id
    pub awaits : Awaits m u st

  module _ (unique : NeverDuplicated B.messages) where
    pub create_message-Awaits :
        (conv_id sender u : ℕ) (p : ChatMsgPayload) (m : Message) (st : Store B)
        → Belongs conv_id u st
        → IsHonest u st
        → (create_message B (new_message conv_id sender p) st).0 ≡ ok m
        → Stored conv_id sender p u m (create_message B (new_message conv_id sender p) st).1
    unfolding create_message
    create_message-Awaits conv_id sender u p m st b honest e =
        let row = new_message conv_id sender p in
        let q = B.messages.create row st.messages in
        elim (Result-cases q.0) [
          | inr (x, f) ↦ absurd (ground (arith, f, unique row x st.messages f, e))
          | inl (n, f) ↦
              let same : n ≡ m = ground (arith, f, e) in
              let made = result_pair q (ok m) (f ∙ ap ok same) in
              let (rows, (i, t, filled), above) = law.messages.create_ok row m _ _ made in
              let of_conv : m.conversation_id ≡ conv_id =
                ap {A = Message} (λ r. r.conversation_id) filled in
              let read : b.row.last_read_msg_id < m.id = elim (honest b.row b.row_in b.row_user) [
                | inl zero ↦ omega (arith, zero, law.messages.create_positive row m _ _ made)
                | inr (r, h, le) ↦ omega (arith, le, All-Among _ r _ above h)
              ] in
              record {
                of_sender = ap {A = Message} (λ r. r.sender_id) filled;
                same_content = ap {A = Message} (λ r. r.content) filled;
                same_client_id = ap {A = Message} (λ r. r.client_msg_id) filled;
                awaits = record {
                  stored = rw rows (Among-last m _);
                  conv = (b.conv, b.conv_in, b.conv_id ∙ sym of_conv);
                  row = b.row;
                  row_in = b.row_in;
                  row_conv = b.row_conv ∙ sym of_conv;
                  row_user = b.row_user;
                  behind = read;
                };
              }
        ]
