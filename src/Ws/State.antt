-- ===== src/Ws/State.antt =====
-- The state of one server process: the connection manager of internal/ws/manager.go, the send
-- channels of its clients, and the counters of pkg/metrics/metrics.go.
use im_system.Common.{ℕ, ◌+◌, Text, Option, none, some, List, ℤ}
use im_system.Common.Dict.{Dict, lookup}
use im_system.Common.{Result, Bool}
use im_system.Backend.{Backend, Store}

-- A `*Client`: its address, and the field UserID, which never changes.
pub record ClientRef : Type 0 where
  pub address : ℕ
  pub user_id : ℕ

-- The rest of a `*Client`: its user and its field Send, a `chan []byte`.
pub record Channel : Type 0 where
  pub owner : ℕ
  pub buffer : List Text
  pub closed : Bool

abbrev pub send_buffer_size : ℕ
send_buffer_size = 256

-- The counters, one for each label in use, and the gauge of online users.
pub record Metrics : Type 0 where
  pub persisted_success : ℕ
  pub persisted_failure : ℕ
  pub delivered_local : ℕ
  pub delivered_cross_instance : ℕ
  pub delivered_offline : ℕ
  pub failed_chan_full : ℕ
  pub failed_forward_publish : ℕ
  pub failed_redis_lookup : ℕ
  pub failed_ghost_online : ℕ
  pub forward_published : ℕ
  pub forward_received : ℕ
  pub online_users : ℤ

-- `publish_forward` is the function that RegisterPublishForward stores. `kicks` holds the clients
-- for which a goroutine `go Manager.Unregister(c)` waits to run; `closed_conns` the addresses of
-- the clients whose connection the server has closed. `publish_ch` tells whether the global publishCh
-- of internal/mq/publisher.go is a channel, and not nil.
pub record Server (B : Backend) : Type 0 where
  pub store : Store B
  pub node_id : Text
  pub clients : Dict ClientRef
  pub channels : Dict Channel
  pub kicks : List ClientRef
  pub closed_conns : List ℕ
  pub publish_forward : Option (ℕ → Text → Text → Store B → Result (Unit {0}) × Store B)
  pub publish_ch : Bool
  pub metrics : Metrics

-- The owner of the client at an address, and whether its channel is closed.
abbrev pub status_of : Option Channel → Option (ℕ × Bool)
status_of none = none
status_of (some ch) = some (ch.owner, ch.closed)

unfoldable pub status : {B : Backend} → ℕ → Server B → Option (ℕ × Bool)
status a srv = status_of (lookup a srv.channels)

abbrev pub with_store : {B : Backend} → Server B → Store B → Server B
with_store srv st = record srv { store = st }

-- The messages that were counted as delivered or as failed.
abbrev pub accounted : Metrics → ℕ
accounted m =
    m.delivered_local + m.delivered_cross_instance + m.delivered_offline + m.failed_chan_full
    + m.failed_forward_publish + m.failed_redis_lookup + m.failed_ghost_online
