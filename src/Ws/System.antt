-- ===== src/Ws/System.antt =====
-- One server process between its start and its end, as a step relation: the goroutines of
-- internal/handler/user.go, internal/ws and internal/router, and what WatchAndReconnect of
-- internal/mq/reconnect.go does to publishCh, one operation at a step, in any order.
pub mod Quiet
pub mod Departure
pub mod Invariant
pub mod Safety
pub mod Race
pub mod NilChannel
use im_system.Common.{
  ℕ, Text, ◌≡◌, ◌≢◌, Bool, Option, none, some, List, [], ◌∷◌, ◌++◌, true, false, pos, Result,
}
use im_system.Common.Dict.{lookup, insert}
use im_system.Backend.{Backend, Store}
use im_system.Ws.State.{ClientRef, Channel, Server, Metrics, status, with_store}
use im_system.Ws.Manager.{register, unregister, refresh_online_ttl, close_all}
use im_system.Ws.Client.{crashed, handle_frame}
use im_system.Router.{handler_forward_msg}

module _ {B : Backend} where
  -- The part of WsConnect that makes the client and registers it.
  unfoldable pub connect : ClientRef → Server B → Server B
  connect c srv =
      let ch : Channel = record { owner = c.user_id; buffer = []; closed = false } in
      register c (record srv { channels = insert c.address ch srv.channels })

  -- close(c.Send)
  abbrev pub close_send : ClientRef → Server B → Server B
  close_send c srv = elim (lookup c.address srv.channels) [
    | none ↦ srv
    | some ch ↦ record srv {
      channels = insert c.address (record ch { closed = true }) srv.channels;
    }
  ]

  -- The deferred function of ListenMsg.
  unfoldable pub hang_up : ClientRef → Server B → Server B
  hang_up c srv =
      let srv1 = unregister c srv in
      close_send c (record srv1 { closed_conns = c.address ∷ srv1.closed_conns })

  abbrev rest_of : ClientRef → Channel → List Text → Server B → Server B
  rest_of c ch [] srv = srv
  rest_of c ch (msg ∷ rest) srv = record srv {
    channels = insert c.address (record ch { buffer = rest }) srv.channels;
  }

  -- One round of DeliverMsg: the oldest message leaves the channel.
  unfoldable pub write_out : ClientRef → Server B → Server B
  write_out c srv = elim (lookup c.address srv.channels) [
    | none ↦ srv
    | some ch ↦ rest_of c ch ch.buffer srv
  ]

  -- The goroutine of a client listens until its channel is closed; a new client has an address of
  -- its own; other processes change the services; InitPublisher, which WatchAndReconnect calls, may
  -- leave publishCh nil or make it a channel again. A panic ends the process, and is no step.
  pub data Step (srv : Server B) : Server B → Type 0 where
    connects : (c : ClientRef) → status c.address srv ≡ none → Step srv (connect c srv)
    sends_frame :
        (c : ClientRef) (now : ℕ) (raw : Text)
        → status c.address srv ≡ some (c.user_id, false)
        → (handle_frame c now raw srv).0 ≢ crashed
        → Step srv (handle_frame c now raw srv).1
    pongs : (c : ClientRef) → Step srv (refresh_online_ttl c.user_id srv)
    hangs_up :
        (c : ClientRef) → status c.address srv ≡ some (c.user_id, false) → Step srv (hang_up c srv)
    writes_out : (c : ClientRef) → Step srv (write_out c srv)
    kicks_out :
        (c : ClientRef) (before after : List ClientRef)
        → srv.kicks ≡ before ++ c ∷ after
        → Step srv (unregister c (record srv { kicks = before ++ after }))
    forwards : (raw : Text) → Step srv (handler_forward_msg raw srv).1
    others : (st : Store B) → Step srv (with_store srv st)
    rebuilds : (has_channel : Bool) → Step srv (record srv { publish_ch = has_channel })
    shuts_down : Step srv (close_all srv)

  pub data Reach (srv : Server B) : Server B → Type 0 where
    here : Reach srv srv
    next : {t u : Server B} → Reach srv t → Step t u → Reach srv u

abbrev pub no_metrics : Metrics
no_metrics = record {
  persisted_success = 0;
  persisted_failure = 0;
  delivered_local = 0;
  delivered_cross_instance = 0;
  delivered_offline = 0;
  failed_chan_full = 0;
  failed_forward_publish = 0;
  failed_redis_lookup = 0;
  failed_ghost_online = 0;
  forward_published = 0;
  forward_received = 0;
  online_users = pos 0;
}

-- A process after metrics.Init and RegisterPublishForward, before it listens.
abbrev pub started :
    {B : Backend}
    → Store B
    → Text
    → (ℕ → Text → Text → Store B → Result (Unit {0}) × Store B)
    → Server B
started st node fn = record {
  store = st;
  node_id = node;
  clients = [];
  channels = [];
  kicks = [];
  closed_conns = [];
  publish_forward = some fn;
  publish_ch = true;
  metrics = no_metrics;
}
