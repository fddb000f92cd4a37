-- ===== src/Ws/Offline/Delivered.antt =====
-- What a client that connects is written of the messages it has not read.
use im_system.Common.{
  ℕ, Text, List, [], ◌∷◌, ◌++◌, ◌≡◌, ◌⊎◌, refl, sym, ap, ◌∙◌, arith, false, ok, err, is_ok, inl,
  inr, Result-cases, result_pair, append_nil, append_one, Result, Error, Among, Among-append_right,
  subst, true, ◌<◌,
}
use im_system.Model.{Message, Conversation, ConversationMember}
use im_system.Backend.{Backend, Store, IsLawful}
use im_system.Repository.Members.{get_unread_conversation_msg_by_user_id}
use im_system.Repository.Members.Unread.{unread_complete}
use im_system.Wire.{CollectMessage}
use im_system.Ws.Offline.{Conn, IsConn, push_unread, deliver_unread_msg}

-- What a connecting client is to be shown of a message: every field but the sender's own id of it.
abbrev pub notice_of : Message → CollectMessage
notice_of m = record {
  sender_id = m.sender_id;
  conversation_id = m.conversation_id;
  content = m.content;
  msg_id = m.id;
  client_msg_id = [];
}

module _ (B : Backend) (K : Conn) where
  abbrev pub add_body : Result Text → List Text → List Text
  add_body (err e) texts = texts
  add_body (ok body) texts = body ∷ texts

  -- The JSON of the notices that can be marshalled.
  abbrev pub bodies : List Message → List Text
  bodies [] = []
  bodies (m ∷ ms) = add_body (B.collect_codec.marshal (notice_of m)) (bodies ms)

  -- The writing stopped at the first text of `rest`, which could not be written.
  pub record Stopped (rest : List Text) (w' : K.State) : Type 0 where
    pub body : Text
    pub left : List Text
    pub before : K.State
    pub here : rest ≡ body ∷ left
    pub failed : is_ok (K.write body before).0 ≡ false
    pub state : w' ≡ (K.write body before).1

  -- `front` was written, in its order, and `rest` was not.
  pub record InOrder (texts : List Text) (w w' : K.State) : Type 0 where
    pub front : List Text
    pub rest : List Text
    pub order : texts ≡ front ++ rest
    pub sent : K.written w' ≡ K.written w ++ front
    pub whole : (rest ≡ []) ⊎ Stopped rest w'

  module _ (conn : IsConn K) where
    written_first :
        (body : Text) (texts : List Text) (w w' last : K.State)
        → K.write body w ≡ (ok tt, w')
        → InOrder texts w' last
        → InOrder (body ∷ texts) w last
    written_first body texts w w' last e o = record {
      front = body ∷ o.front;
      rest = o.rest;
      order = ap (λ ts. body ∷ ts) o.order;
      sent =
          o.sent
          ∙ ap (λ ts. ts ++ o.front) (conn.write_ok body w w' e)
          ∙ append_one (K.written w) body o.front;
      whole = o.whole;
    }

    not_written :
        (body : Text) (texts : List Text) (x : Error) (w w' : K.State)
        → K.write body w ≡ (err x, w')
        → InOrder (body ∷ texts) w w'
    not_written body texts x w w' e = record {
      front = [];
      rest = body ∷ texts;
      order = refl;
      sent = conn.write_err body x w w' e ∙ sym (append_nil (K.written w));
      whole = inr (record {
        body = body;
        left = texts;
        before = w;
        here = refl;
        failed = rw e refl;
        state = rw e refl;
      });
    }

    push_unread-InOrder :
        (ms : List Message) (w : K.State) → InOrder (bodies ms) w (push_unread B K ms w)
    unfolding push_unread
    push_unread-InOrder [] w = record {
      front = [];
      rest = [];
      order = refl;
      sent = sym (append_nil (K.written w));
      whole = inl refl;
    }
    push_unread-InOrder (m ∷ ms) w =
        elim (B.collect_codec.marshal (notice_of m))
          as (λ r. InOrder (add_body r (bodies ms)) w (elim r [
            | err e ↦ push_unread B K ms w
            | ok body ↦
                let (q, w') = K.write body w in elim q [ err e ↦ w' | ok u ↦ push_unread B K ms w' ]
          ])) [
            | err x ↦ push_unread-InOrder ms w
            | ok body ↦ elim (Result-cases (K.write body w).0) [
              | inl (u, e) ↦ rw e (
                  written_first body (bodies ms) w (K.write body w).1 _ (result_pair _ _ e)
                    (push_unread-InOrder ms (K.write body w).1))
              | inr (x, e) ↦
                  rw e (not_written body (bodies ms) x w (K.write body w).1 (result_pair _ _ e))
            ]
          ]

    -- On a connection that behaves as documented, if the query does not fail, DeliverUnreadMsg
    -- writes the unread messages that can be marshalled, each as the JSON of its sender, its
    -- conversation, its content and its id, with no client id, and in the order of the query: all of them, or those before one whose write failed, and nothing after that.
    pub deliver_unread_msg-InOrder :
        (user_id : ℕ) (st : Store B) (w : K.State) (unread : List Message)
        → get_unread_conversation_msg_by_user_id B user_id st ≡ ok unread
        → InOrder (bodies unread) w (deliver_unread_msg B K user_id st w)
    unfolding deliver_unread_msg
    deliver_unread_msg-InOrder user_id st w unread e =
        rw (e, deliver_unread_msg) (push_unread-InOrder unread w)

    Among-bodies :
        (m : Message) (body : Text) (ms : List Message)
        → Among m ms
        → B.collect_codec.marshal (notice_of m) ≡ ok body
        → Among body (bodies ms)
    Among-bodies m body [] h e = absurd h
    Among-bodies m body (n ∷ ms) (inl same) e =
        subst (λ n. Among body (bodies (n ∷ ms))) same (rw e (inl refl))
    Among-bodies m body (n ∷ ms) (inr later) e =
        elim (B.collect_codec.marshal (notice_of n)) as (λ r. Among body (add_body r (bodies ms))) [
          | err x ↦ Among-bodies m body ms later e
          | ok first ↦ inr (Among-bodies m body ms later e)
        ]

    all_written :
        (texts : List Text) (w w' : K.State) (body : Text)
        → ((text : Text) (v : K.State) → is_ok (K.write text v).0 ≡ true)
        → Among body texts
        → InOrder texts w w'
        → Among body (K.written w')
    all_written texts w w' body works h o = elim o.whole [
      | inl none_left ↦ rw o.sent (
          Among-append_right body (K.written w) o.front (
            subst (Among body) (o.order ∙ ap (λ ts. o.front ++ ts) none_left ∙ append_nil o.front)
              h))
      | inr s ↦ absurd (ground (arith, works s.body s.before, s.failed))
    ]

    -- With services and a connection that behave as documented, and while the query and the writes
    -- do not fail: a message in the table, of a conversation in which the connecting user is a
    -- member and has not read that far, is written to the user's connection, as the JSON of its
    -- sender, its conversation, its content and its id.
    pub unread_arrives :
        (law : IsLawful B) (user_id : ℕ) (m : Message) (c : Conversation) (cm : ConversationMember)
        (body : Text) (st : Store B) (w : K.State)
        → is_ok (get_unread_conversation_msg_by_user_id B user_id st) ≡ true
        → ((text : Text) (v : K.State) → is_ok (K.write text v).0 ≡ true)
        → Among m (B.messages.rows st.messages)
        → Among c (B.conversations.rows st.conversations)
        → Among cm (B.members.rows st.members)
        → m.conversation_id ≡ c.id
        → cm.conversation_id ≡ c.id
        → cm.user_id ≡ user_id
        → cm.last_read_msg_id < m.id
        → B.collect_codec.marshal (notice_of m) ≡ ok body
        → Among body (K.written (deliver_unread_msg B K user_id st w))
    unread_arrives law user_id m c cm body st w asked works hm hc hcm of_conv in_conv is_user above
          e =
        elim (Result-cases (get_unread_conversation_msg_by_user_id B user_id st)) [
          | inl (unread, got) ↦
              all_written (bodies unread) w _ body works
                (Among-bodies m body unread
                  (unread_complete B law user_id m c cm st unread got hm hc hcm of_conv in_conv
                    is_user above)
                  e)
                (deliver_unread_msg-InOrder user_id st w unread got)
          | inr (x, failed) ↦ absurd (ground (arith, failed))
        ]
