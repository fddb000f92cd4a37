-- ===== src/Mq/Publisher/Untouched.antt =====
-- Publishing a message leaves the messages, the members and the ids of the conversations alone.
use im_system.Common.{
  ℕ, zero, suc, ◌+◌, ◌≡◌, refl, sym, ap, arith, Bool, true, false, ◌∙◌, Among, Result-cases,
  result_pair, is_publish_nack, inl, inr, modify, Bool-cases, List, [], ◌∷◌, ◌==◌,
}
use im_system.Model.{MqMessage, Conversation}
use im_system.Services.{IsTable}
use im_system.Backend.{
  Backend, Store, SameTables, SameTables-refl, SameTables-trans, fill_conversation,
}
use im_system.Repository.Conversations.{update_conversation, with_last}
use im_system.Mq.Publisher.{
  publish_on_channel, publish_rounds, publish_with_fallback, rest_before, fall_back,
}

-- A row with the id of `c`.
abbrev pub HasId : ℕ → List Conversation → Type 0
HasId k cs = (c : Conversation) × Among c cs × (c.id ≡ k)

modify-HasId :
    (k : ℕ) (p : Conversation → Bool) (f : Conversation → Conversation) (cs : List Conversation)
    → ((c : Conversation) → (f c).id ≡ c.id)
    → HasId k cs
    → HasId k (modify p f cs)
modify-HasId k p f [] keeps (c, h, e) = absurd h
modify-HasId k p f (x ∷ cs) keeps (c, inr h, e) =
    let (d, in_rest, is_k) = modify-HasId k p f cs keeps (c, h, e) in (d, inr in_rest, is_k)
modify-HasId k p f (x ∷ cs) keeps (c, inl same, e) = elim (Bool-cases (p x)) [
  | inl hit ↦ (f x, inl (rw hit refl), keeps x ∙ ap {A = Conversation} (λ d. d.id) (sym same) ∙ e)
  | inr miss ↦ (x, inl (rw miss refl), ap {A = Conversation} (λ d. d.id) (sym same) ∙ e)
]

module _ (B : Backend) (msg : MqMessage) where
  attempt-SameTables : (st : Store B) → SameTables (publish_on_channel B msg st).1 st
  unfolding publish_on_channel
  attempt-SameTables st = ground arith

  rest_before-SameTables : (attempt : ℕ) (st : Store B) → SameTables (rest_before B attempt st) st
  rest_before-SameTables attempt st = ground arith

  rounds-SameTables :
      (left attempt : ℕ) (st : Store B) → SameTables (publish_rounds B left attempt msg st).1 st
  unfolding publish_rounds
  rounds-SameTables zero attempt st = SameTables-refl
  rounds-SameTables (suc left) attempt st =
      let st1 = (publish_on_channel B msg st).1 in
      let once = attempt-SameTables st in
      elim (Result-cases (publish_on_channel B msg st).0) [
        | inl (u, e) ↦ rw (e, publish_rounds) once
        | inr (x, e) ↦ elim (Bool-cases (is_publish_nack x)) [
          | inl nack ↦ rw (e, publish_rounds) (rw nack once)
          | inr again ↦
              rw (e, publish_rounds)
                (rw again (
                  SameTables-trans
                    (rounds-SameTables left (attempt + 1) (rest_before B attempt st1))
                    (SameTables-trans (rest_before-SameTables attempt st1) once)))
        ]
      ]

  fall_back-same :
      (r : Bool × Store B)
      → ((fall_back B msg r).members ≡ r.1.members) × ((fall_back B msg r).messages ≡ r.1.messages)
  unfolding update_conversation
  fall_back-same (true, st) = (refl, refl)
  fall_back-same (false, st) = (refl, refl)

  pub publish_with_fallback-messages :
      (st : Store B) → (publish_with_fallback B msg st).messages ≡ st.messages
  publish_with_fallback-messages st =
      unfold publish_with_fallback in
      (fall_back-same (publish_rounds B 3 1 msg st)).1 ∙ (rounds-SameTables 3 1 st).messages

  pub publish_with_fallback-members :
      (st : Store B) → (publish_with_fallback B msg st).members ≡ st.members
  publish_with_fallback-members st =
      unfold publish_with_fallback in
      (fall_back-same (publish_rounds B 3 1 msg st)).0 ∙ (rounds-SameTables 3 1 st).members

  module _ (table : IsTable B.conversations (λ r. r.id) fill_conversation) where
    update-HasId :
        (k : ℕ) (st : Store B)
        → HasId k (B.conversations.rows st.conversations)
        → HasId k (
            B.conversations.rows
              (update_conversation B msg.conv_id msg.send_msg st).1.conversations)
    unfolding update_conversation
    update-HasId k st h =
        let test = λ (c : Conversation). c.id == msg.conv_id in
        let q = B.conversations.update test (with_last msg.send_msg) st.conversations in
        elim (Result-cases q.0) [
          | inl (n, e) ↦
              rw (table.update_ok test (with_last msg.send_msg) n _ _ (result_pair q _ e))
                (modify-HasId k test (with_last msg.send_msg) _ (λ c. refl) h)
          | inr (x, e) ↦
              rw (table.update_err test (with_last msg.send_msg) x _ _ (result_pair q _ e)) h
        ]

    fall_back-HasId :
        (k : ℕ) (r : Bool × Store B)
        → HasId k (B.conversations.rows r.1.conversations)
        → HasId k (B.conversations.rows (fall_back B msg r).conversations)
    fall_back-HasId k (true, st) h = h
    fall_back-HasId k (false, st) h = update-HasId k st h

    -- A conversation is still there after PublishWithFallback, whatever became of its other columns.
    pub publish_with_fallback-HasId :
        (k : ℕ) (st : Store B)
        → HasId k (B.conversations.rows st.conversations)
        → HasId k (B.conversations.rows (publish_with_fallback B msg st).conversations)
    publish_with_fallback-HasId k st h =
        unfold publish_with_fallback in
        fall_back-HasId k (publish_rounds B 3 1 msg st)
          (rw ((rounds-SameTables 3 1 st).conversations) h)
