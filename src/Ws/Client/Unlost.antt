-- ===== src/Ws/Client/Unlost.antt =====
-- What handleChatMsg counts as stored is still unread by the addressee when it returns.
use im_system.Common.{
  ℕ, ◌≡◌, ◌≢◌, refl, ap, arith, ok, some, Text, inl, inr, Result-cases, Option-cases, Bool-cases,
  subst, text_eq, [], ◌⊎◌,
}
use im_system.Model.{Message, User}
use im_system.Wire.{ChatMsgPayload}
use im_system.Backend.{Backend, Store, IsLawful, SameTables, SameTables-refl}
use im_system.Repository.Users.{get_user_by_user_id}
use im_system.Repository.Users.Untouched.{get_user-SameTables}
use im_system.Repository.Messages.{create_message}
use im_system.Repository.Members.{cached_conv, cached}
use im_system.Repository.Members.Shared.{Belongs}
use im_system.Router.{publish_forward}
use im_system.Ws.State.{ClientRef, Server, with_store}
use im_system.Ws.Counts.{count_persisted}
use im_system.Ws.Manager.{
  get_client_by_user_id, get_online_node, deliver_total_msg, publish_forward_msg,
}
use im_system.Ws.Client.Frame.{after_store-cases}
use im_system.Ws.Client.{
  find_or_open, converse, counted, collect, new_message, announce, after_publish, after_store,
  store_message, handle_payload, deliver_elsewhere, deliver_here, route,
}
use im_system.Ws.Client.Opened.{
  NeverDuplicated, IsHonest, SameTables-IsHonest, find_or_open-Belongs,
}
use im_system.Ws.Client.Awaits.{Awaits, Stored, announce-Awaits, create_message-Awaits}

module _ {B : Backend} where
  -- The process forwards with the function of the router.
  abbrev pub Forwards : Server B → Type 0
  Forwards srv = srv.publish_forward ≡ some publish_forward

  -- A conversation that Redis names for the two users is one of theirs.
  abbrev pub Coherent : ℕ → ℕ → Store B → Type 0
  Coherent sender u st = (j : ℕ) → cached_conv B sender u 1 st ≡ cached j → j ≢ 0 → Belongs j u st

  push-store :
      (target : ClientRef) (body : Text) (srv : Server B)
      → (deliver_total_msg target body srv).1.store ≡ srv.store
  unfolding deliver_total_msg
  push-store target body srv = ground arith

  deliver_here-store :
      (target : ClientRef) (body : Text) (srv : Server B)
      → (deliver_here target body srv).1.store ≡ srv.store
  unfolding deliver_here
  deliver_here-store target body srv = ground (arith, push-store target body srv)

  forward-SameTables :
      (user_id : ℕ) (node body : Text) (srv : Server B)
      → Forwards srv
      → SameTables (publish_forward_msg user_id node body srv).1.store srv.store
  unfolding publish_forward_msg publish_forward
  forward-SameTables user_id node body srv set = rw (set, publish_forward_msg) (ground arith)

  deliver_elsewhere-store :
      (user_id : ℕ) (body : Text) (srv : Server B)
      → ((deliver_elsewhere user_id body srv).1.store ≡ srv.store)
        ⊎ ((node : Text) × ((deliver_elsewhere user_id body srv).1.store
              ≡ (publish_forward_msg user_id node body srv).1.store))
  unfolding deliver_elsewhere
  deliver_elsewhere-store user_id body srv = elim (Result-cases (get_online_node user_id srv)) [
    | inr (x, e) ↦ inl (ground (arith, e))
    | inl (node, e) ↦ elim (Bool-cases (text_eq node [])) [
      | inl absent ↦ inl (ground (arith, e, absent))
      | inr named ↦ elim (Bool-cases (text_eq node srv.node_id)) [
        | inl ghost ↦ inl (ground (arith, e, named, ghost))
        | inr other ↦ inr (node, ground (arith, e, named, other))
      ]
    ]
  ]

  route-SameTables :
      (user_id : ℕ) (body : Text) (srv : Server B)
      → Forwards srv
      → SameTables (route user_id body srv).1.store srv.store
  unfolding route
  route-SameTables user_id body srv set = elim (Option-cases (get_client_by_user_id user_id srv)) [
    | inr (target, e) ↦ rw (e, route) (rw (deliver_here-store target body srv) SameTables-refl)
    | inl gone ↦
        rw (gone, route)
          (elim (deliver_elsewhere-store user_id body srv) [
            | inl same ↦ rw same SameTables-refl
            | inr (node, same) ↦ rw same (forward-SameTables user_id node body srv set)
          ])
  ]

  SameTables-Awaits :
      (m : Message) (u : ℕ) (st' st : Store B) → SameTables st' st → Awaits m u st → Awaits m u st'
  SameTables-Awaits m u st' st same a = record {
    stored = rw (same.messages) a.stored;
    conv = rw (same.conversations) a.conv;
    row = a.row;
    row_in = rw (same.members) a.row_in;
    row_conv = a.row_conv;
    row_user = a.row_user;
    behind = a.behind;
  }

  module _ (law : IsLawful B) where
    after_publish-Awaits :
        (c : ClientRef) (p : ChatMsgPayload) (conv_id u : ℕ) (stored m : Message) (srv : Server B)
        → Forwards srv
        → c.user_id ≢ u
        → Awaits m u srv.store
        → Awaits m u (after_publish c p conv_id stored srv).1.store
    unfolding after_publish
    after_publish-Awaits c p conv_id u stored m srv set other a =
        let st1 = announce conv_id c.user_id stored srv.store in
        let a1 = announce-Awaits law conv_id c.user_id u stored m srv.store other a in
        elim (Result-cases (B.collect_codec.marshal (collect conv_id c.user_id p stored))) [
          | inr (x, e) ↦ rw (e, after_publish) a1
          | inl (body, e) ↦
              rw (e, after_publish)
                (SameTables-Awaits m u _ st1
                  (route-SameTables p.to_user_id body (with_store srv st1) set) a1)
        ]

    -- After the insert, until the handler returns or panics, the row goes on waiting.
    after_store-Awaits :
        (c : ClientRef) (p : ChatMsgPayload) (conv_id u : ℕ) (stored m : Message) (srv : Server B)
        → Forwards srv
        → c.user_id ≢ u
        → Awaits m u srv.store
        → Awaits m u (after_store c p conv_id stored srv).1.store
    after_store-Awaits c p conv_id u stored m srv set other a =
        elim (after_store-cases c p conv_id stored srv) [
          | inl (nil, e) ↦ rw e a
          | inr e ↦ rw e (after_publish-Awaits c p conv_id u stored m srv set other a)
        ]

    -- The handler counted one message more as stored, and a row for it waits for `u`.
    abbrev pub StoredOnce : ℕ → ChatMsgPayload → ℕ → Store B → Type 0
    StoredOnce sender p u st = (conv_id : ℕ) × (m : Message) × Stored law conv_id sender p u m st

    module _ (c : ClientRef) (p : ChatMsgPayload) (u : ℕ) (other : c.user_id ≢ u) where
      module _ (uniq_message : NeverDuplicated B.messages) where
        store_message-Stored :
            (conv_id : ℕ) (srv : Server B)
            → Forwards srv
            → Belongs conv_id u srv.store
            → IsHonest u srv.store
            → (store_message c p conv_id srv).1.metrics.persisted_success
              ≢ srv.metrics.persisted_success
            → StoredOnce c.user_id p u (store_message c p conv_id srv).1.store
        unfolding store_message
        store_message-Stored conv_id srv set b honest counts =
            let q = create_message B (new_message conv_id c.user_id p) srv.store in
            elim (Result-cases q.0) [
              | inr (x, e) ↦ absurd (ground (arith, e, counts))
              | inl (stored, e) ↦
                  let s =
                    create_message-Awaits law uniq_message conv_id c.user_id u p stored srv.store b
                      honest e in
                  (
                    conv_id,
                    stored,
                    record {
                      of_sender = s.of_sender;
                      same_content = s.same_content;
                      same_client_id = s.same_client_id;
                      awaits =
                          rw (e, store_message)
                            (after_store-Awaits c p conv_id u stored stored
                              (counted count_persisted (with_store srv q.1)) set other s.awaits);
                    },
                  )
            ]

        module _ (uniq_conv : NeverDuplicated B.conversations) where
          converse-Stored :
              (now : ℕ) (srv : Server B)
              → Forwards srv
              → Coherent c.user_id u srv.store
              → IsHonest u srv.store
              → (converse c now p u srv).1.metrics.persisted_success ≢ srv.metrics.persisted_success
              → StoredOnce c.user_id p u (converse c now p u srv).1.store
          unfolding converse
          converse-Stored now srv set coherent honest counts =
              let q = find_or_open c.user_id u now srv.store in
              elim (Option-cases q.0) [
                | inl gone ↦ absurd (ground (arith, gone, counts))
                | inr (k, e) ↦
                    let (b, honest1) =
                      find_or_open-Belongs B law uniq_conv c.user_id u now k srv.store coherent
                        honest e in
                    rw (e, converse)
                      (store_message-Stored k (with_store srv q.1) set b honest1 (
                        subst (λ r. r ≢ srv.metrics.persisted_success) (rw (e, converse) refl)
                          counts))
              ]

          pub handle_payload-Stored :
              (now : ℕ) (target : User) (srv : Server B)
              → target.id ≡ u
              → Forwards srv
              → (get_user_by_user_id B p.to_user_id srv.store).0 ≡ ok (some target)
              → Coherent c.user_id u (get_user_by_user_id B p.to_user_id srv.store).1
              → IsHonest u srv.store
              → (handle_payload c now p srv).1.metrics.persisted_success
                ≢ srv.metrics.persisted_success
              → StoredOnce c.user_id p u (handle_payload c now p srv).1.store
          unfolding handle_payload
          handle_payload-Stored now target srv is_u set e coherent honest counts =
              let q = get_user_by_user_id B p.to_user_id srv.store in
              let same = get_user-SameTables B p.to_user_id srv.store in
              let at_u : converse c now p target.id (with_store srv q.1)
                  ≡ converse c now p u (with_store srv q.1) =
                ap (λ k. converse c now p k (with_store srv q.1)) is_u in
              let is_converse : handle_payload c now p srv
                  ≡ converse c now p u (with_store srv q.1) =
                rw (e, handle_payload) at_u in
              rw is_converse (
                converse-Stored now (with_store srv q.1) set coherent
                  (SameTables-IsHonest u q.1 srv.store same honest)
                  (subst (λ r. r.1.metrics.persisted_success ≢ srv.metrics.persisted_success)
                    is_converse counts))
