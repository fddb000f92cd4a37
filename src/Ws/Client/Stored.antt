-- ===== src/Ws/Client/Stored.antt =====
-- What a chat message puts into a send channel, and that it is stored by then.
use im_system.Common.{ℕ, Text, ◌≡◌, refl, arith, ok, sym, ap}
use im_system.Common.{
  is_duplicated_key, text_eq, Result-cases, Found-cases, Option-cases, Bool-cases, result_pair, inl,
  inr, ◌⊎◌, ◌∷◌, [], find?-Among, Among, Among-append_right, ◌∙◌, find?-sound, text_eq_sound,
}
use im_system.Common.Dict.{lookup, insert}
use im_system.Model.{Message}
use im_system.Services.{IsTable}
use im_system.Wire.{ChatMsgPayload, CollectMessage}
use im_system.Backend.{Backend, Store, fill_message}
use im_system.Repository.Users.{get_user_by_user_id}
use im_system.Repository.Messages.{create_message}
use im_system.Repository.Members.{update_last_read_msg_id}
use im_system.Mq.Publisher.Untouched.{publish_with_fallback-messages}
use im_system.Ws.State.{ClientRef, Server, with_store}
use im_system.Ws.Client.Frame.{after_store-cases}
use im_system.Ws.Client.{
  find_or_open, converse, counted, collect, new_message, announce, after_publish, after_store,
  store_message, handle_payload, handle_chat_msg,
}
use im_system.Ws.Counts.{count_persisted}
use im_system.Ws.Client.Pushed.{Pushed, route-Pushed}

module _ {B : Backend} where
  announce-messages :
      (conv_id sender : ℕ) (stored : Message) (st : Store B)
      → (announce conv_id sender stored st).messages ≡ st.messages
  unfolding announce update_last_read_msg_id
  announce-messages conv_id sender stored st =
      publish_with_fallback-messages B (record { conv_id = conv_id; send_msg = stored }) st

  -- A chat message from `c` reached the channel of its addressee: `body` is the JSON of `sent`,
  -- which shows the message and the id of the row `stored`.
  pub record Reached (c : ClientRef) (m : ChatMsgPayload) (srv srv' : Server B) : Type 0 where
    pub stored : Message
    pub sent : CollectMessage
    pub body : Text
    pub marshalled : B.collect_codec.marshal sent ≡ ok body
    pub from_sender : sent.sender_id ≡ c.user_id
    pub same_content : sent.content ≡ m.content
    pub same_client_id : sent.client_msg_id ≡ m.client_msg_id
    pub stored_id : sent.msg_id ≡ stored.id
    pub stored_client_id : stored.client_msg_id ≡ m.client_msg_id
    pub in_table : Among stored (B.messages.rows srv'.store.messages)
    pub push : Pushed m.to_user_id body srv srv'

  -- The channels are as they were, or the message reached its addressee.
  abbrev pub Delivers : ClientRef → ChatMsgPayload → Server B → Server B → Type 0
  Delivers c m srv srv' = (srv'.channels ≡ srv.channels) ⊎ Reached c m srv srv'

  -- Only the map and the channels of the first state matter.
  relay :
      (c : ClientRef) (m : ChatMsgPayload) (srv srv1 srv' : Server B)
      → srv1.clients ≡ srv.clients
      → srv1.channels ≡ srv.channels
      → Delivers c m srv1 srv'
      → Delivers c m srv srv'
  relay c m srv srv1 srv' e f (inl same) = inl (same ∙ f)
  relay c m srv srv1 srv' e f (inr r) = inr (record {
    stored = r.stored;
    sent = r.sent;
    body = r.body;
    marshalled = r.marshalled;
    from_sender = r.from_sender;
    same_content = r.same_content;
    same_client_id = r.same_client_id;
    stored_id = r.stored_id;
    stored_client_id = r.stored_client_id;
    in_table = r.in_table;
    push = record {
      target = r.push.target;
      channel = r.push.channel;
      current = ap (lookup m.to_user_id) (sym e) ∙ r.push.current;
      found = ap (lookup r.push.target.address) (sym f) ∙ r.push.found;
      pushed = r.push.pushed ∙ ap (insert r.push.target.address _) f;
    };
  })

  after_publish-Delivers :
      (c : ClientRef) (m : ChatMsgPayload) (conv_id : ℕ) (stored : Message) (srv : Server B)
      → Among stored (B.messages.rows srv.store.messages)
      → stored.client_msg_id ≡ m.client_msg_id
      → Delivers c m srv (after_publish c m conv_id stored srv).1
  unfolding after_publish
  after_publish-Delivers c m conv_id stored srv h same_id =
      let st1 = announce conv_id c.user_id stored srv.store in
      let srv1 = with_store srv st1 in
      elim (Result-cases (B.collect_codec.marshal (collect conv_id c.user_id m stored))) [
        | inr (x, e) ↦ inl (rw (e, after_publish) refl)
        | inl (body, e) ↦ elim (route-Pushed m.to_user_id body srv1) [
          | inl same ↦ inl (rw (e, after_publish) same)
          | inr (p, kept) ↦
              rw (e, after_publish)
                (inr (record {
                  stored = stored;
                  sent = collect conv_id c.user_id m stored;
                  body = body;
                  marshalled = e;
                  from_sender = refl;
                  same_content = refl;
                  same_client_id = refl;
                  stored_id = refl;
                  stored_client_id = same_id;
                  in_table = rw (kept, announce-messages conv_id c.user_id stored srv.store) h;
                  push = record {
                    target = p.target;
                    channel = p.channel;
                    current = p.current;
                    found = p.found;
                    pushed = p.pushed;
                  };
                }))
        ]
      ]

  after_store-Delivers :
      (c : ClientRef) (m : ChatMsgPayload) (conv_id : ℕ) (stored : Message) (srv : Server B)
      → Among stored (B.messages.rows srv.store.messages)
      → stored.client_msg_id ≡ m.client_msg_id
      → Delivers c m srv (after_store c m conv_id stored srv).1
  after_store-Delivers c m conv_id stored srv h same_id =
      elim (after_store-cases c m conv_id stored srv) [
        | inl (nil, e) ↦ inl (rw e refl)
        | inr e ↦ rw e (after_publish-Delivers c m conv_id stored srv h same_id)
      ]

  create_message-Among :
      (table : IsTable B.messages (λ r. r.id) fill_message) (msg stored : Message) (st : Store B)
      → (create_message B msg st).0 ≡ ok stored
      → Among stored (B.messages.rows (create_message B msg st).1.messages)
  unfolding create_message
  create_message-Among table msg stored st h =
      let (r, ms) = B.messages.create msg st.messages in
      elim (Result-cases r) [
        | inl (m, e) ↦ rw ((table.create_ok msg m st.messages ms (result_pair _ _ e)).0) (
            Among-append_right stored (B.messages.rows st.messages) (m ∷ [])
              (inl (ground (arith, e))))
        | inr (x, e) ↦ elim (Bool-cases (is_duplicated_key x)) [
          | inl again ↦ find?-Among _ (B.messages.rows ms) stored (
              table.first_ok (λ q. text_eq q.client_msg_id msg.client_msg_id) stored ms
                (ground (arith, e, again)))
          | inr other ↦ absurd (ground (arith, e, other))
        ]
      ]

  create_message-client_msg_id :
      (table : IsTable B.messages (λ r. r.id) fill_message) (msg stored : Message) (st : Store B)
      → (create_message B msg st).0 ≡ ok stored
      → stored.client_msg_id ≡ msg.client_msg_id
  unfolding create_message
  create_message-client_msg_id table msg stored st h =
      let (r, ms) = B.messages.create msg st.messages in
      elim (Result-cases r) [
        | inl (m, e) ↦
            let (i, t, filled) = (table.create_ok msg m st.messages ms (result_pair _ _ e)).1 in
            let is_m : m ≡ stored = ground (arith, e) in
            sym (ap {A = Message} (λ q. q.client_msg_id) is_m)
            ∙ ap {A = Message} (λ q. q.client_msg_id) filled
        | inr (x, e) ↦ elim (Bool-cases (is_duplicated_key x)) [
          | inl again ↦ text_eq_sound _ _ (
              find?-sound (λ q. text_eq q.client_msg_id msg.client_msg_id) (B.messages.rows ms)
                stored
                (table.first_ok (λ q. text_eq q.client_msg_id msg.client_msg_id) stored ms
                  (ground (arith, e, again))))
          | inr other ↦ absurd (ground (arith, e, other))
        ]
      ]

  store_message-Delivers :
      (table : IsTable B.messages (λ r. r.id) fill_message) (c : ClientRef) (m : ChatMsgPayload)
      (conv_id : ℕ) (srv : Server B)
      → Delivers c m srv (store_message c m conv_id srv).1
  unfolding store_message
  store_message-Delivers table c m conv_id srv =
      let (r, st1) = create_message B (new_message conv_id c.user_id m) srv.store in
      elim (Result-cases r) [
        | inl (stored, e) ↦
            rw (e, store_message)
              (relay c m srv (counted count_persisted (with_store srv st1)) _ refl refl (
                after_store-Delivers c m conv_id stored
                  (counted count_persisted (with_store srv st1))
                  (create_message-Among table (new_message conv_id c.user_id m) stored srv.store e)
                  (create_message-client_msg_id table (new_message conv_id c.user_id m) stored
                    srv.store e)))
        | inr (x, e) ↦ inl (rw (e, store_message) refl)
      ]

  converse-Delivers :
      (table : IsTable B.messages (λ r. r.id) fill_message) (c : ClientRef) (now : ℕ)
      (m : ChatMsgPayload) (target : ℕ) (srv : Server B)
      → Delivers c m srv (converse c now m target srv).1
  unfolding converse
  converse-Delivers table c now m target srv =
      let (o, st1) = find_or_open c.user_id target now srv.store in
      elim (Option-cases o) [
        | inl e ↦ inl (rw (e, converse) refl)
        | inr (k, e) ↦
            rw (e, converse)
              (relay c m srv (with_store srv st1) _ refl refl
                (store_message-Delivers table c m k (with_store srv st1)))
      ]

  handle_payload-Delivers :
      (table : IsTable B.messages (λ r. r.id) fill_message) (c : ClientRef) (now : ℕ)
      (m : ChatMsgPayload) (srv : Server B)
      → Delivers c m srv (handle_payload c now m srv).1
  unfolding handle_payload
  handle_payload-Delivers table c now m srv =
      let (r, st1) = get_user_by_user_id B m.to_user_id srv.store in
      elim (Found-cases r) [
        | inl (x, e) ↦ inl (rw (e, handle_payload) refl)
        | inr (inl e) ↦ inl (rw (e, handle_payload) refl)
        | inr (inr (u, e)) ↦
            rw (e, handle_payload)
              (relay c m srv (with_store srv st1) _ refl refl
                (converse-Delivers table c now m u.id (with_store srv st1)))
      ]

  -- With a table of messages that behaves as documented: handling a chat message that can be read
  -- either leaves every send channel as it was, or appends one text to the channel of the client
  -- that the map has for the addressee; that text is the JSON of the sender, of the content and
  -- the client id of the message, and of the id of a row with this client id which is in the table
  -- by then.
  pub handle_chat_msg-Delivers :
      (table : IsTable B.messages (λ r. r.id) fill_message) (c : ClientRef) (now : ℕ) (raw : Text)
      (m : ChatMsgPayload) (srv : Server B)
      → B.chat_codec.unmarshal raw ≡ ok m
      → Delivers c m srv (handle_chat_msg c now raw srv).1
  unfolding handle_chat_msg
  handle_chat_msg-Delivers table c now raw m srv e =
      rw (e, handle_chat_msg) (handle_payload-Delivers table c now m srv)
