-- ===== src/Ws/Manager/Replaced.antt =====
-- What happens when a user connects a second time, on the same process or on another.
use im_system.Common.{ℕ, suc, ◌+◌, ◌≡◌, ◌≢◌, refl, arith, some, none, ok}
use im_system.Common.{◌∙◌, [], ◌∷◌, pos, length}
use im_system.Common.Dict.{
  lookup, insert, Distinct, lookup-insert, length-insert_new, length-insert_old, length-erase,
}
use im_system.Backend.{Backend}
use im_system.Services.{IsCache}
use im_system.Ws.State.{ClientRef, Server, with_store}
use im_system.Ws.Manager.{online_key, register, unregister, get_client_by_user_id}
use im_system.Ws.Manager.Presence.{shown, register_presence, unregister_presence}

module _ {B : Backend} where
  -- A user who is not connected, connects twice to one process and leaves with both connections is
  -- still counted in the gauge of online users: it exceeds the number of clients in the map by one
  -- more than before.
  pub reconnect_overcounts :
      (first second : ClientRef) (srv : Server B) (n : ℕ)
      → first.user_id ≡ second.user_id
      → first.address ≢ second.address
      → lookup first.user_id srv.clients ≡ none
      → srv.metrics.online_users ≡ pos (length srv.clients + n)
      → let gone = unregister second (unregister first (register second (register first srv))) in
        (gone.metrics.online_users ≡ pos (length srv.clients + suc n))
        × (length gone.clients ≡ length srv.clients)
  unfolding register unregister
  reconnect_overcounts first second srv n user other fresh g =
      let m1 = insert first.user_id first srv.clients in
      let m2 = insert second.user_id second m1 in
      ground (
        arith,
        length-insert_new first.user_id first srv.clients fresh,
        lookup-insert first.user_id second.user_id first srv.clients,
        length-insert_old second.user_id second m1 first,
        lookup-insert second.user_id first.user_id second m1,
        lookup-insert second.user_id second.user_id second m1,
        length-erase second.user_id m2 second,
      )

  -- The process `old` still has a connection of a user who has meanwhile connected to the process
  -- `new`, with the same Redis, which does not fail. When the old connection ends, the key of the
  -- user is gone, though `new` has the user in its map.
  pub moved_user_forgotten :
      (cache : IsCache B.cache) (c d : ClientRef) (old new : Server B)
      → c.user_id ≡ d.user_id
      → Distinct old.clients
      → get_client_by_user_id c.user_id old ≡ some c
      → (B.cache.set (online_key d.user_id) new.node_id 90 new.store.cache).0 ≡ ok tt
      → (B.cache.del (online_key c.user_id ∷ []) (register d new).store.cache).0 ≡ ok tt
      → (get_client_by_user_id d.user_id (register d new) ≡ some d)
        × (shown (register d new) (online_key d.user_id) ≡ some (new.node_id, 90))
        × (shown (unregister c (with_store old (register d new).store)) (online_key d.user_id)
            ≡ none)
  moved_user_forgotten cache c d old new user distinct found stored gone =
      let moved = register d new in
      let (here, key) = register_presence cache d d.user_id new stored in
      let (_, lost) =
        unregister_presence cache c c d.user_id (with_store old moved.store) distinct
          (unfold get_client_by_user_id in found) refl gone in
      (here ∙ ground arith, key ∙ ground arith, lost ∙ ground arith)
