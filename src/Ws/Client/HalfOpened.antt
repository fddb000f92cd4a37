-- ===== src/Ws/Client/HalfOpened.antt =====
-- A conversation whose id is in Redis, but whose members were not added: handleChatMsg writes the key
-- before the two AddMember.
use im_system.Common.{
  ℕ, ◌<◌, ◌^◌, ◌*◌, ◌≡◌, ◌≢◌, refl, sym, ap, ◌∙◌, arith, Text, ok, some, none, true, false, is_ok,
  ◌==◌, List, All,
}
use im_system.Model.{Conversation, Message}
use im_system.Backend.{Backend, Store, IsLawful}
use im_system.Repository.Conversations.{create_conversation, cache_conversation_id, conv_key, itoa}
use im_system.Repository.Keys.{conv_key_symm}
use im_system.Repository.Members.{
  add_member, check_conversation_exist, cached_conv, cached, get_unread_conversation_msg_by_user_id,
}
use im_system.Repository.Members.Pairs.{cached_text, cached_conv_hit}
use im_system.Ws.Client.Outside.{
  NoStrays, Outside, join_failed-Outside, fresh-Outside, cached-Outside, Outside-unlisted,
}
use im_system.Ws.Client.{new_conversation, join_both, open_conversation, find_or_open}

module _ {B : Backend} (law : IsLawful B) where
  join_both-cache :
      (k sender target now : ℕ) (st : Store B)
      → (join_both k sender target now st).1.cache ≡ st.cache
  unfolding join_both add_member
  join_both-cache k sender target now st = ground arith

  -- The id is what CheckConversationExist answers from now on, without a member to go with it.
  pub record HalfOpened (sender target now k : ℕ) (r : List Message) (st : Store B) : Type 0 where
    pub taken : find_or_open sender target now st ≡ (some k, st)
    pub outside : Outside k target st
    pub unlisted : All (λ m. m.conversation_id ≢ k) r

  check_known :
      (sender target k : ℕ) (st : Store B)
      → cached_conv B sender target 1 st ≡ cached k
      → check_conversation_exist B sender target 1 st ≡ (ok k, st)
  unfolding check_conversation_exist
  check_known sender target k st known = rw (known, check_conversation_exist) refl

  taken_of :
      (sender target later k : ℕ) (v : Text) (st : Store B)
      → k ≢ 0
      → k < 2 ^ 32
      → B.cache.get (conv_key 1 sender target) st.cache ≡ ok v
      → v ≡ itoa k
      → find_or_open sender target later st ≡ (some k, st)
  unfolding find_or_open
  taken_of sender target later k v st some_id small got same =
      let known = cached_conv_hit B sender target 1 k v st small got same in
      let other : (k == 0) ≡ false = ground (arith, some_id) in
      let checked = check_known sender target k st known in
      rw (checked, find_or_open, other) (ap (λ p. (some k, p.1)) checked)

  join_both-HalfOpened :
      (sender target now later k ttl : ℕ) (v : Text) (msgs : B.messages.State) (r : List Message)
      (st : Store B)
      → sender ≢ target
      → k ≢ 0
      → k < 2 ^ 32
      → Outside k target st
      → B.cache.text_at st.cache (conv_key 1 sender target) ≡ some (itoa k, ttl)
      → (join_both k sender target now st).0 ≡ none
      → B.cache.get (conv_key 1 sender target) (join_both k sender target now st).1.cache ≡ ok v
      → get_unread_conversation_msg_by_user_id B target
          (record ((join_both k sender target now st).1) { messages = msgs })
        ≡ ok r
      → HalfOpened sender target later k r (join_both k sender target now st).1
  join_both-HalfOpened sender target now later k ttl v msgs r st other some_id small out at_key
        failed got asked =
      let st1 = (join_both k sender target now st).1 in
      let out1 = join_failed-Outside law k sender target now st other failed out in
      let (t, shown) = law.cache.get_ok (conv_key 1 sender target) v st1.cache got in
      let kept : B.cache.text_at st1.cache (conv_key 1 sender target) ≡ some (itoa k, ttl) =
        rw (join_both-cache k sender target now st) at_key in
      let same : v ≡ itoa k = ground (arith, shown, kept) in
      record {
        taken = taken_of sender target later k v st1 some_id small got same;
        outside = out1;
        unlisted = Outside-unlisted law k target (record st1 { messages = msgs }) r out1 asked;
      }

  -- With services that behave as documented: where handleChatMsg opens a conversation of two
  -- different users and its id goes to Redis, but an AddMember fails, then as long as Redis still
  -- gives the key, handleChatMsg goes on with that id, although the addressee is no member; and
  -- whatever messages are then stored, the query of unread messages, if it does not fail, lists
  -- none of that conversation for the addressee. The id is neither 0 nor 2 ^ 32 or more, and before
  -- no member row was of a conversation that is not in the table.
  pub open_conversation-HalfOpened :
      (sender target now later : ℕ) (conv : Conversation) (v : Text) (msgs : B.messages.State)
      (r : List Message) (st : Store B)
      → sender ≢ target
      → conv.id ≢ 0
      → conv.id < 2 ^ 32
      → NoStrays st
      → (B.conversations.create (new_conversation sender target) st.conversations).0 ≡ ok conv
      → is_ok
          (cache_conversation_id B sender target 1 conv.id
            (create_conversation B (new_conversation sender target) st).1).0
        ≡ true
      → (open_conversation sender target now st).0 ≡ none
      → B.cache.get (conv_key 1 sender target) (open_conversation sender target now st).1.cache
        ≡ ok v
      → get_unread_conversation_msg_by_user_id B target
          (record ((open_conversation sender target now st).1) { messages = msgs })
        ≡ ok r
      → HalfOpened sender target later conv.id r (open_conversation sender target now st).1
  unfolding open_conversation create_conversation
  open_conversation-HalfOpened sender target now later conv v msgs r st other some_id small strays
        made cached_ok none_opened got asked =
      let q = B.conversations.create (new_conversation sender target) st.conversations in
      let st1 : Store B = record st { conversations = q.1 } in
      let st2 = (cache_conversation_id B sender target 1 conv.id st1).1 in
      let is_st3 : (open_conversation sender target now st)
          ≡ join_both conv.id sender target now st2 =
        rw (made, open_conversation) refl in
      let at_key : B.cache.text_at st2.cache (conv_key 1 sender target)
          ≡ some (itoa conv.id, 5 * 60) =
        rw (conv_key_symm 1 sender target)
          (cached_text B law.cache sender target 1 conv.id st1 cached_ok) in
      rw is_st3 (
        join_both-HalfOpened sender target now later conv.id (5 * 60) v msgs r st2 other some_id
          small
          (cached-Outside law conv.id target sender target conv.id st1
            (fresh-Outside law (new_conversation sender target) conv target st strays made))
          at_key (sym (ap (λ p. p.0) is_st3) ∙ none_opened)
          (sym (ap (λ p. B.cache.get (conv_key 1 sender target) p.1.cache) is_st3) ∙ got)
          (sym (
              ap
                (λ p.
                  get_unread_conversation_msg_by_user_id B target
                    (record (p.1) { messages = msgs }))
                is_st3)
            ∙ asked))
