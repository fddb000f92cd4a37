-- ===== src/Ws/Client/Opened.antt =====
-- The conversation that handleChatMsg finds or opens has the addressee as a member.
use im_system.Common.{
  ℕ, ◌≤◌, ◌≡◌, ◌≢◌, refl, ap, ◌∙◌, arith, ok, err, some, false, ◌==◌, List, [], ◌∷◌, ◌++◌, Among,
  Among-append_one, Among-last, inl, inr, ◌⊎◌, Error, Result-cases, Bool-cases, result_pair,
  is_duplicated_key,
}
use im_system.Model.{Conversation, ConversationMember, Message}
use im_system.Services.{Table}
use im_system.Backend.{Backend, Store, IsLawful, SameTables}
use im_system.Repository.Conversations.{create_conversation, cache_conversation_id}
use im_system.Repository.Members.{add_member, cached_conv, cached, check_conversation_exist}
use im_system.Repository.Members.Shared.{Belongs, check-Belongs, check-SameTables}
use im_system.Ws.Client.{new_conversation, join_both, open_conversation, find_or_open}

-- What gorm reports without TranslateError: no error is ErrDuplicatedKey.
abbrev pub NeverDuplicated : {Row : Type 0} → Table Row → Type 0
NeverDuplicated {Row} T =
    (r : Row) (e : Error) (s : T.State) → (T.create r s).0 ≡ err e → is_duplicated_key e ≡ false

-- A read position that is not above every message.
abbrev pub NotAhead : ConversationMember → List Message → Type 0
NotAhead row ms =
    (row.last_read_msg_id ≡ 0) ⊎ ((m : Message) × Among m ms × (row.last_read_msg_id ≤ m.id))

abbrev pub IsHonest : {B : Backend} → ℕ → Store B → Type 0
IsHonest {B} u st =
    (row : ConversationMember)
    → Among row (B.members.rows st.members)
    → row.user_id ≡ u
    → NotAhead row (B.messages.rows st.messages)

pub SameTables-IsHonest :
    {B : Backend} (u : ℕ) (st' st : Store B) → SameTables st' st → IsHonest u st → IsHonest u st'
SameTables-IsHonest u st' st same honest row h is_u =
    rw (same.messages) (honest row (rw (← same.members) h) is_u)

-- Between the two stores a member was added.
record Added {B : Backend} (k u : ℕ) (st st' : Store B) : Type 0 where
  row : ConversationMember
  rows : B.members.rows st'.members ≡ B.members.rows st.members ++ row ∷ []
  of_conv : row.conversation_id ≡ k
  of_user : row.user_id ≡ u
  unread : row.last_read_msg_id ≡ 0
  conversations : st'.conversations ≡ st.conversations
  messages : st'.messages ≡ st.messages

module _ (B : Backend) (law : IsLawful B) where
  add_member-Added :
      (k u role now : ℕ) (st : Store B)
      → (add_member B k u role now st).0 ≡ ok tt
      → Added k u st (add_member B k u role now st).1
  unfolding add_member
  add_member-Added k u role now st e =
      let row : ConversationMember = record {
        id = 0;
        conversation_id = k;
        user_id = u;
        role = role;
        last_read_msg_id = 0;
        joined_at = now;
      } in
      let q = B.members.create row st.members in
      elim (Result-cases q.0) [
        | inr (x, f) ↦ absurd (ground (arith, f, e))
        | inl (m, f) ↦
            let (rows, (i, t, filled), above) =
              law.members.create_ok row m _ _ (result_pair q _ f) in
            record {
              row = m;
              rows = rows;
              of_conv = ap {A = ConversationMember} (λ r. r.conversation_id) filled;
              of_user = ap {A = ConversationMember} (λ r. r.user_id) filled;
              unread = ap {A = ConversationMember} (λ r. r.last_read_msg_id) filled;
              conversations = refl;
              messages = refl;
            }
      ]

  Added-IsHonest :
      (k u v : ℕ) (st st' : Store B) → Added k u st st' → IsHonest v st → IsHonest v st'
  Added-IsHonest k u v st st' a honest row h is_v =
      elim (Among-append_one row a.row (B.members.rows st.members) (rw (← a.rows) h)) [
        | inl old ↦ rw (a.messages) (honest row old is_v)
        | inr new ↦ inl (ap {A = ConversationMember} (λ r. r.last_read_msg_id) new ∙ a.unread)
      ]

  -- Both members were added: the second belongs to the conversation, if it is in the table.
  join_both-Belongs :
      (j sender target now k : ℕ) (st : Store B) (conv : Conversation)
      → Among conv (B.conversations.rows st.conversations)
      → conv.id ≡ j
      → IsHonest target st
      → (join_both j sender target now st).0 ≡ some k
      → Belongs k target (join_both j sender target now st).1
        × IsHonest target (join_both j sender target now st).1
  unfolding join_both
  join_both-Belongs j sender target now k st conv h is_j honest e =
      let st1 = (add_member B j sender 0 now st).1 in
      let st2 = (add_member B j target 0 now st1).1 in
      elim (Result-cases (add_member B j sender 0 now st).0) [
        | inr (x, f) ↦ absurd (ground (arith, f, e))
        | inl (u, f) ↦ elim (Result-cases (add_member B j target 0 now st1).0) [
          | inr (x, g) ↦ absurd (ground (arith, f, g, e))
          | inl (v, g) ↦
              let a = add_member-Added j sender 0 now st f in
              let b = add_member-Added j target 0 now st1 g in
              let is_k : j ≡ k = ground (arith, f, g, e) in
              rw (f, join_both)
                (rw g (
                  record {
                    conv = conv;
                    conv_in = rw (b.conversations, a.conversations) h;
                    conv_id = is_j ∙ is_k;
                    row = b.row;
                    row_in = rw (b.rows) (Among-last b.row _);
                    row_conv = b.of_conv ∙ is_k;
                    row_user = b.of_user;
                  },
                  Added-IsHonest j target target st1 st2 b
                      (Added-IsHonest j sender target st st1 a honest),
                ))
        ]
      ]

  module _ (unique : NeverDuplicated B.conversations) where
    open_conversation-Belongs :
        (sender target now k : ℕ) (st : Store B)
        → IsHonest target st
        → (open_conversation sender target now st).0 ≡ some k
        → Belongs k target (open_conversation sender target now st).1
          × IsHonest target (open_conversation sender target now st).1
    unfolding open_conversation create_conversation cache_conversation_id
    open_conversation-Belongs sender target now k st honest e =
        let q = B.conversations.create (new_conversation sender target) st.conversations in
        elim (Result-cases q.0) [
          | inr (x, f) ↦
              absurd
                (ground (arith, f, unique (new_conversation sender target) x st.conversations f, e))
          | inl (conv, f) ↦
              let (rows, _, above) = law.conversations.create_ok _ conv _ _ (result_pair q _ f) in
              let st1 : Store B = record st { conversations = q.1 } in
              let st2 = (cache_conversation_id B sender target 1 conv.id st1).1 in
              rw (f, open_conversation)
                (join_both-Belongs conv.id sender target now k st2 conv
                  (rw rows (Among-last conv (B.conversations.rows st.conversations))) refl honest
                  (ground (arith, f, e)))
        ]

    SameTables-Belongs :
        (k u : ℕ) (st' st : Store B) → SameTables st' st → Belongs k u st → Belongs k u st'
    SameTables-Belongs k u st' st same b = record {
      conv = b.conv;
      conv_in = rw (same.conversations) b.conv_in;
      conv_id = b.conv_id;
      row = b.row;
      row_in = rw (same.members) b.row_in;
      row_conv = b.row_conv;
      row_user = b.row_user;
    }

    -- The conversation with which handleChatMsg goes on has the addressee as a member, where what
    -- Redis says of it is right.
    pub find_or_open-Belongs :
        (sender target now k : ℕ) (st : Store B)
        → ((j : ℕ) → cached_conv B sender target 1 st ≡ cached j → j ≢ 0 → Belongs j target st)
        → IsHonest target st
        → (find_or_open sender target now st).0 ≡ some k
        → Belongs k target (find_or_open sender target now st).1
          × IsHonest target (find_or_open sender target now st).1
    unfolding find_or_open
    find_or_open-Belongs sender target now k st coherent honest e =
        let st1 = (check_conversation_exist B sender target 1 st).1 in
        let same = check-SameTables B sender target 1 st in
        let honest1 = SameTables-IsHonest target st1 st same honest in
        elim (Result-cases (check_conversation_exist B sender target 1 st).0) [
          | inr (x, f) ↦ absurd (ground (arith, f, e))
          | inl (j, f) ↦ elim (Bool-cases (j == 0)) [
            | inl absent ↦
                rw (f, find_or_open)
                  (rw absent (
                    open_conversation-Belongs sender target now k st1 honest1
                      (ground (arith, f, absent, e))))
            | inr exists ↦
                let is_k : j ≡ k = ground (arith, f, exists, e) in
                rw (f, find_or_open)
                  (rw exists (
                    SameTables-Belongs k target st1 st same (
                        check-Belongs B law sender target 1 k st coherent (f ∙ ap ok is_k)
                          (ground (arith, exists, is_k))),
                    honest1,
                  ))
          ]
        ]
