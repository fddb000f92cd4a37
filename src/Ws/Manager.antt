-- ===== src/Ws/Manager.antt =====
-- internal/ws/manager.go, with DeliverTotalMsg, GetOnlineNode and refreshOnlineTTL of client.go.
-- Each operation runs as one step here; logging is left out.
pub mod Presence
pub mod Replaced
pub mod Steps
pub mod Visit
pub mod Closing
pub mod Order
use im_system.Common.{ℕ, Text, bytes, Bool, true, false, Option, none, some, List, [], ◌∷◌, ◌++◌}
use im_system.Common.{◌==◌, ltb, length, if◌then◌else◌, increase, decrease, map}
use im_system.Common.{Result, Error, ok, err, is_redis_nil, forward_not_registered}
use im_system.Common.Dict.{Dict, lookup, insert, erase}
use im_system.Common.Decimal.{decimal}
use im_system.Backend.{Backend, Store}
use im_system.Ws.State.{ClientRef, Channel, Server, Metrics, with_store, send_buffer_size}

-- fmt.Sprintf("online:user:%d", userID)
unfoldable pub online_key : ℕ → Text
online_key user_id = bytes "online:user:" ++ decimal user_id

-- What a send on a channel does.
pub data Delivery : Type 0 where
  sent refused panicked : Delivery

abbrev pub online_inc : Metrics → Metrics
online_inc m = record m { online_users = increase m.online_users }

abbrev pub online_dec : Metrics → Metrics
online_dec m = record m { online_users = decrease m.online_users }

abbrev pub keys_of : Dict ClientRef → List Text
keys_of [] = []
keys_of ((user_id, c) ∷ m) = online_key user_id ∷ keys_of m

abbrev pub addresses_of : Dict ClientRef → List ℕ
addresses_of [] = []
addresses_of ((user_id, c) ∷ m) = c.address ∷ addresses_of m

abbrev pub usage : Dict Channel → Dict ClientRef → List ℕ
usage channels [] = []
usage channels ((user_id, c) ∷ m) =
    elim (lookup c.address channels) [ none ↦ 0 | some ch ↦ length ch.buffer ] ∷ usage channels m

abbrev node_or_nil : Result Text → Result Text
node_or_nil (ok node) = ok node
node_or_nil (err e) = if is_redis_nil e then ok [] else err e

module _ {B : Backend} where
  abbrev pub set_online : ℕ → Server B → Server B
  set_online user_id srv = with_store srv (record (srv.store) {
    cache = (B.cache.set (online_key user_id) srv.node_id 90 srv.store.cache).1;
  })

  abbrev pub del_online : List Text → Server B → Server B
  del_online keys srv =
      with_store srv (record (srv.store) { cache = (B.cache.del keys srv.store.cache).1 })

  -- ConnManager.Register
  unfoldable pub register : ClientRef → Server B → Server B
  register c srv =
      let srv' = record srv { clients = insert c.user_id c srv.clients } in
      let srv'' = set_online c.user_id srv' in record srv'' { metrics = online_inc srv.metrics }

  abbrev pub drop_client : ClientRef → Server B → Server B
  drop_client c srv =
      let srv' = record srv { clients = erase c.user_id srv.clients } in
      let srv'' = del_online (online_key c.user_id ∷ []) srv' in
      record srv'' { metrics = online_dec srv.metrics }

  -- ConnManager.Unregister: only the current client of its user is removed.
  unfoldable pub unregister : ClientRef → Server B → Server B
  unregister c srv = elim (lookup c.user_id srv.clients) [
    | none ↦ srv
    | some existing ↦ if existing.address == c.address then drop_client c srv else srv
  ]

  abbrev pub close_clients : Dict ClientRef → Server B → Server B
  close_clients [] srv = srv
  close_clients (e ∷ m) srv =
      let srv' = del_online (keys_of (e ∷ m)) srv in
      record srv' { closed_conns = addresses_of (e ∷ m) ++ srv.closed_conns }

  -- ConnManager.CloseAll
  unfoldable pub close_all : Server B → Server B
  close_all srv = close_clients srv.clients srv

  -- ConnManager.GetClientByUserID
  unfoldable pub get_client_by_user_id : ℕ → Server B → Option ClientRef
  get_client_by_user_id user_id srv = lookup user_id srv.clients

  -- ConnManager.SnapshotSendChanUsage: what the observer is called with.
  unfoldable pub snapshot_send_chan_usage : Server B → List ℕ
  snapshot_send_chan_usage srv = usage srv.channels srv.clients

  abbrev pub push_to : ClientRef → Text → Channel → Server B → Delivery × Server B
  push_to target msg ch srv =
      if ch.closed
      then (panicked, srv)
      else if ltb (length ch.buffer) send_buffer_size
      then (
        sent,
        record srv {
          channels =
              insert target.address (record ch { buffer = ch.buffer ++ msg ∷ [] }) srv.channels;
        },
      )
      else (refused, record srv { kicks = target ∷ srv.kicks })

  -- DeliverTotalMsg. A send on a closed channel panics, also under `select`.
  unfoldable pub deliver_total_msg : ClientRef → Text → Server B → Delivery × Server B
  deliver_total_msg target msg srv = elim (lookup target.address srv.channels) [
    | none ↦ (panicked, srv)
    | some ch ↦ push_to target msg ch srv
  ]

  -- DeliverTotalMsgByUserID
  unfoldable pub deliver_total_msg_by_user_id : ℕ → Text → Server B → Delivery × Server B
  unfolding get_client_by_user_id
  deliver_total_msg_by_user_id user_id msg srv = elim (get_client_by_user_id user_id srv) [
    | none ↦ (refused, srv)
    | some c ↦ deliver_total_msg c msg srv
  ]

  -- GetOnlineNode
  unfoldable pub get_online_node : ℕ → Server B → Result Text
  get_online_node user_id srv = node_or_nil (B.cache.get (online_key user_id) srv.store.cache)

  -- refreshOnlineTTL
  unfoldable pub refresh_online_ttl : ℕ → Server B → Server B
  refresh_online_ttl user_id srv =
      with_store srv
        (record (srv.store) { cache = (B.cache.expire (online_key user_id) 90 srv.store.cache).1 })

  -- RegisterPublishForward
  unfoldable pub register_publish_forward :
      (ℕ → Text → Text → Store B → Result (Unit {0}) × Store B) → Server B → Server B
  register_publish_forward fn srv = record srv { publish_forward = some fn }

  -- PublishForwardMsg
  unfoldable pub publish_forward_msg : ℕ → Text → Text → Server B → Result (Unit {0}) × Server B
  publish_forward_msg user_id node payload srv = elim srv.publish_forward [
    | none ↦ (err forward_not_registered, srv)
    | some fn ↦ let (r, st) = fn user_id node payload srv.store in (r, with_store srv st)
  ]
