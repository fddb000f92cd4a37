-- ===== src/Ws/Manager/Visit.antt =====
-- A client that comes and goes while the goroutines of other users run between the steps.
use im_system.Common.{
  ℕ, ◌≡◌, ◌≢◌, refl, ap, arith, true, some, none, ok, ◌==◌, ==_refl, result_pair, ◌∙◌, [], ◌∷◌,
  Option-cases, inl, inr, Bool-cases,
}
use im_system.Common.Dict.{
  lookup, Distinct, lookup-insert, lookup-erase, insert-Distinct, erase-Distinct,
}
use im_system.Backend.{Backend}
use im_system.Services.{IsCache}
use im_system.Repository.Keys.{text_eq-online_key}
use im_system.Ws.State.{ClientRef, Server}
use im_system.Ws.Manager.{online_key, get_client_by_user_id}
use im_system.Ws.Manager.Presence.{shown}
use im_system.Ws.Manager.Steps.{register_map, register_rest, unregister_map, unregister_rest}

module _ {B : Backend} where
  -- A step of Register or Unregister for a user other than `u`, where Redis does not fail.
  pub data OtherStep (u : ℕ) (srv : Server B) : Server B → Type 0 where
    enters : (c : ClientRef) → c.user_id ≢ u → OtherStep u srv (register_map c srv)
    is_shown :
        (c : ClientRef)
        → c.user_id ≢ u
        → (B.cache.set (online_key c.user_id) srv.node_id 90 srv.store.cache).0 ≡ ok tt
        → OtherStep u srv (register_rest c srv)
    leaves : (c : ClientRef) → c.user_id ≢ u → OtherStep u srv (unregister_map c srv).1
    is_hidden :
        (c : ClientRef)
        → c.user_id ≢ u
        → (B.cache.del (online_key c.user_id ∷ []) srv.store.cache).0 ≡ ok tt
        → OtherStep u srv (unregister_rest c srv)

  pub data Others (u : ℕ) (srv : Server B) : Server B → Type 0 where
    nothing : Others u srv srv
    more : {s t : Server B} → Others u srv s → OtherStep u s t → Others u srv t

  -- What the steps of others leave.
  record Keeps (u : ℕ) (s t : Server B) : Type 0 where
    distinct : Distinct t.clients
    client : lookup u t.clients ≡ lookup u s.clients
    key : shown t (online_key u) ≡ shown s (online_key u)
    node : t.node_id ≡ s.node_id

  map-Keeps :
      (u : ℕ) (c : ClientRef) (s : Server B)
      → c.user_id ≢ u
      → Distinct s.clients
      → Keeps u s (unregister_map c s).1
  unfolding unregister_map
  map-Keeps u c s other d = elim (Option-cases (lookup c.user_id s.clients)) [
    | inl e ↦
        rw (e, unregister_map) (record { distinct = d; client = refl; key = refl; node = refl })
    | inr (b, e) ↦ elim (Bool-cases (b.address == c.address)) [
      | inr f ↦
          rw (e, f, unregister_map)
            (record { distinct = d; client = refl; key = refl; node = refl })
      | inl f ↦
          rw (e, f, unregister_map)
            (record {
              distinct = erase-Distinct c.user_id s.clients d;
              client = ground (arith, lookup-erase c.user_id u s.clients d);
              key = refl;
              node = refl;
            })
    ]
  ]

  current_leaves :
      (c : ClientRef) (s : Server B)
      → Distinct s.clients
      → lookup c.user_id s.clients ≡ some c
      → ((unregister_map c s).0 ≡ true)
        × Distinct (unregister_map c s).1.clients
        × (lookup c.user_id (unregister_map c s).1.clients ≡ none)
  unfolding unregister_map
  current_leaves c s d found =
      rw (found, unregister_map)
        (rw (==_refl c.address) (
          refl,
          erase-Distinct c.user_id s.clients d,
          lookup-erase c.user_id c.user_id s.clients d ∙ rw (==_refl c.user_id) refl,
        ))

  module _ (cache : IsCache B.cache) where
    OtherStep-Keeps : (u : ℕ) (s t : Server B) → OtherStep u s t → Distinct s.clients → Keeps u s t
    unfolding register_map register_rest unregister_rest
    OtherStep-Keeps u s t (enters c other) d = record {
      distinct = insert-Distinct c.user_id c s.clients d;
      client = ground (arith, lookup-insert c.user_id u c s.clients);
      key = refl;
      node = refl;
    }
    OtherStep-Keeps u s t (is_shown c other stored) d = record {
      distinct = d;
      client = refl;
      key =
          cache.set_ok _ _ _ _ _ (online_key u) (result_pair _ (ok tt) stored)
          ∙ rw text_eq-online_key (ground arith);
      node = refl;
    }
    OtherStep-Keeps u s t (leaves c other) d = map-Keeps u c s other d
    OtherStep-Keeps u s t (is_hidden c other gone) d = record {
      distinct = d;
      client = refl;
      key =
          cache.del_ok _ _ _ (online_key u) (result_pair _ (ok tt) gone)
          ∙ rw text_eq-online_key (ground arith);
      node = refl;
    }

    Others-Keeps : (u : ℕ) (s t : Server B) → Others u s t → Distinct s.clients → Keeps u s t
    Others-Keeps u s t nothing d = record { distinct = d; client = refl; key = refl; node = refl }
    Others-Keeps u s t (more {s = m} r st) d =
        let a = Others-Keeps u s m r d in
        let b = OtherStep-Keeps u m t st a.distinct in
        record {
          distinct = b.distinct;
          client = b.client ∙ a.client;
          key = b.key ∙ a.key;
          node = b.node ∙ a.node;
        }

    -- Register and Unregister of a client, each in two steps, and Redis does not fail: whatever
    -- steps of Register and Unregister of other users run before, between and after these, the
    -- user has this client and is shown on this node in between, Unregister finds the client
    -- to be the current one, and in the end the user has no client and no key.
    pub visit_undisturbed :
        (c : ClientRef) (srv s1 s2 s3 s4 : Server B)
        → Distinct srv.clients
        → Others c.user_id (register_map c srv) s1
        → (B.cache.set (online_key c.user_id) s1.node_id 90 s1.store.cache).0 ≡ ok tt
        → Others c.user_id (register_rest c s1) s2
        → Others c.user_id (unregister_map c s2).1 s3
        → (B.cache.del (online_key c.user_id ∷ []) s3.store.cache).0 ≡ ok tt
        → Others c.user_id (unregister_rest c s3) s4
        → (get_client_by_user_id c.user_id s2 ≡ some c)
          × (shown s2 (online_key c.user_id) ≡ some (srv.node_id, 90))
          × ((unregister_map c s2).0 ≡ true)
          × (get_client_by_user_id c.user_id s4 ≡ none)
          × (shown s4 (online_key c.user_id) ≡ none)
    unfolding register_map register_rest unregister_map unregister_rest get_client_by_user_id
    visit_undisturbed c srv s1 s2 s3 s4 d r1 stored r2 r3 gone r4 =
        let u = c.user_id in
        let k1 = Others-Keeps u _ s1 r1 (insert-Distinct u c srv.clients d) in
        let k2 = Others-Keeps u _ s2 r2 k1.distinct in
        let here : lookup u s2.clients ≡ some c =
          k2.client ∙ k1.client ∙ lookup-insert u u c srv.clients ∙ rw (==_refl u) refl in
        let stored_key : shown (register_rest c s1) (online_key u) ≡ some (s1.node_id, 90) =
          cache.set_ok _ _ _ _ _ (online_key u) (result_pair _ (ok tt) stored)
          ∙ rw (text_eq-online_key, ==_refl u) refl in
        let out = current_leaves c s2 k2.distinct here in
        let k3 = Others-Keeps u _ s3 r3 out.1 in
        let k4 = Others-Keeps u _ s4 r4 k3.distinct in
        let gone_key : shown (unregister_rest c s3) (online_key u) ≡ none =
          cache.del_ok _ _ _ (online_key u) (result_pair _ (ok tt) gone)
          ∙ rw (text_eq-online_key, ==_refl u) refl in
        (
          here,
          k2.key ∙ stored_key ∙ ap (λ n. some (n, 90)) k1.node,
          out.0,
          k4.client ∙ k3.client ∙ out.2,
          k4.key ∙ gone_key,
        )
