-- ===== src/Ws/Manager/Presence.antt =====
-- Where a user is online: the map of the process, and the key in Redis.
use im_system.Common.{ℕ, ◌≡◌, ◌≢◌, arith, Text, Option, some, none, ok}
use im_system.Common.{◌==◌, if◌then◌else◌, result_pair, ◌∙◌, [], ◌∷◌}
use im_system.Common.{==_refl}
use im_system.Common.Dict.{Distinct, lookup-insert, lookup-erase}
use im_system.Backend.{Backend}
use im_system.Services.{IsCache}
use im_system.Repository.Keys.{text_eq-online_key}
use im_system.Ws.State.{ClientRef, Server}
use im_system.Ws.Manager.{online_key, register, unregister, get_client_by_user_id}

-- The text under a key, as the cache of a server shows it.
abbrev pub shown : {B : Backend} → Server B → Text → Option (Text × ℕ)
shown {B} srv k = B.cache.text_at srv.store.cache k

module _ {B : Backend} where
  -- After Register the map has the client, and the key of its user names this node for 90
  -- seconds if Redis did not fail; the clients and the keys of other users are as they were.
  pub register_presence :
      (cache : IsCache B.cache) (c : ClientRef) (u : ℕ) (srv : Server B)
      → (B.cache.set (online_key c.user_id) srv.node_id 90 srv.store.cache).0 ≡ ok tt
      → (get_client_by_user_id u (register c srv)
          ≡ (if c.user_id == u then some c else get_client_by_user_id u srv))
        × (shown (register c srv) (online_key u)
            ≡ (if c.user_id == u then some (srv.node_id, 90) else shown srv (online_key u)))
  unfolding register get_client_by_user_id
  register_presence cache c u srv stored = (
    lookup-insert c.user_id u c srv.clients,
    cache.set_ok _ _ _ _ _ (online_key u) (result_pair _ (ok tt) stored) ∙ rw text_eq-online_key,
  )

  -- Unregister of a client that is not the current one of its user changes nothing.
  unregister_replaced :
      (c current : ClientRef) (srv : Server B)
      → get_client_by_user_id c.user_id srv ≡ some current
      → current.address ≢ c.address
      → unregister c srv ≡ srv
  unfolding unregister get_client_by_user_id
  unregister_replaced c current srv found other = ground arith

  -- Unregister of the current client takes its user from the map, which has one entry for a user,
  -- and its key from Redis, if Redis does not fail, and leaves the clients and the keys of other
  -- users.
  pub unregister_presence :
      (cache : IsCache B.cache) (c current : ClientRef) (u : ℕ) (srv : Server B)
      → Distinct srv.clients
      → get_client_by_user_id c.user_id srv ≡ some current
      → current.address ≡ c.address
      → (B.cache.del (online_key c.user_id ∷ []) srv.store.cache).0 ≡ ok tt
      → (get_client_by_user_id u (unregister c srv)
          ≡ (if c.user_id == u then none else get_client_by_user_id u srv))
        × (shown (unregister c srv) (online_key u)
            ≡ (if c.user_id == u then none else shown srv (online_key u)))
  unfolding unregister get_client_by_user_id
  unregister_presence cache c current u srv d found same gone =
      let law = cache.del_ok _ _ _ (online_key u) (result_pair _ (ok tt) gone) in
      rw (found, unregister)
        (rw (same, ==_refl)
          (lookup-erase c.user_id u srv.clients d, law ∙ rw text_eq-online_key (ground arith)))
