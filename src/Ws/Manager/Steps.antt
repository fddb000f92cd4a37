-- ===== src/Ws/Manager/Steps.antt =====
-- Register and Unregister in two steps each: the change of the map under the lock, and what
-- follows after the lock is released, when other goroutines may have run in between.
use im_system.Common.{
  ℕ, ◌≡◌, refl, arith, Bool, true, false, some, none, ok, ◌==◌, ==_refl, if◌then◌else◌, result_pair,
  ◌∙◌, [], ◌∷◌,
}
use im_system.Common.Dict.{lookup, insert, erase}
use im_system.Backend.{Backend}
use im_system.Services.{IsCache}
use im_system.Repository.Keys.{text_eq-online_key}
use im_system.Ws.State.{ClientRef, Server}
use im_system.Ws.Manager.{
  online_key, online_inc, online_dec, set_online, del_online, register, unregister,
  get_client_by_user_id,
}
use im_system.Ws.Manager.Presence.{shown, register_presence}

module _ {B : Backend} where
  unfoldable pub register_map : ClientRef → Server B → Server B
  register_map c srv = record srv { clients = insert c.user_id c srv.clients }

  unfoldable pub register_rest : ClientRef → Server B → Server B
  register_rest c srv =
      let srv' = set_online c.user_id srv in record srv' { metrics = online_inc srv'.metrics }

  -- `true` where Unregister goes on.
  unfoldable pub unregister_map : ClientRef → Server B → Bool × Server B
  unregister_map c srv = elim (lookup c.user_id srv.clients) [
    | none ↦ (false, srv)
    | some existing ↦
        if existing.address == c.address
        then (true, record srv { clients = erase c.user_id srv.clients })
        else (false, srv)
  ]

  unfoldable pub unregister_rest : ClientRef → Server B → Server B
  unregister_rest c srv =
      let srv' = del_online (online_key c.user_id ∷ []) srv in
      record srv' { metrics = online_dec srv'.metrics }

  -- With nothing in between, the two steps are Register and Unregister.
  uninterrupted :
      (c : ClientRef) (srv : Server B)
      → (register c srv ≡ register_rest c (register_map c srv))
        × (unregister c srv ≡ (
            let (on, srv') = unregister_map c srv in if on then unregister_rest c srv' else srv'))
  unfolding register unregister register_map register_rest unregister_map unregister_rest
  uninterrupted c srv = (refl, ground arith)

  rest_forgets :
      (cache : IsCache B.cache) (c : ClientRef) (u : ℕ) (srv : Server B)
      → c.user_id ≡ u
      → (B.cache.del (online_key c.user_id ∷ []) srv.store.cache).0 ≡ ok tt
      → shown (unregister_rest c srv) (online_key u) ≡ none
  unfolding unregister_rest
  rest_forgets cache c u srv same gone =
      cache.del_ok _ _ _ (online_key u) (result_pair _ (ok tt) gone)
      ∙ rw text_eq-online_key (ground (arith, same))

  -- A client leaves, and after it is taken from the map its user connects again: Register runs as a
  -- whole. Then Unregister goes on and deletes the key. Where Redis does not fail, the map has the
  -- new client, and no key says that its user is online.
  pub late_del_hides :
      (cache : IsCache B.cache) (c d : ClientRef) (srv : Server B)
      → c.user_id ≡ d.user_id
      → get_client_by_user_id c.user_id srv ≡ some c
      → let srv1 = (unregister_map c srv).1 in
        let srv2 = register d srv1 in
        (B.cache.set (online_key d.user_id) srv1.node_id 90 srv1.store.cache).0 ≡ ok tt
        → (B.cache.del (online_key c.user_id ∷ []) srv2.store.cache).0 ≡ ok tt
        → ((unregister_map c srv).0 ≡ true)
          × (get_client_by_user_id d.user_id (unregister_rest c srv2) ≡ some d)
          × (shown (unregister_rest c srv2) (online_key d.user_id) ≡ none)
  unfolding unregister_map unregister_rest get_client_by_user_id
  late_del_hides cache c d srv same found stored gone =
      let srv1 = (unregister_map c srv).1 in
      let srv2 = register d srv1 in
      let (here, key) = register_presence cache d d.user_id srv1 stored in
      (
        ground (arith, found),
        here ∙ rw (==_refl d.user_id) refl,
        rest_forgets cache c d.user_id srv2 same gone,
      )
