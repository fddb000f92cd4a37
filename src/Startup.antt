-- ===== src/Startup.antt =====
-- cmd/server/main.go: the order in which a process starts and shuts down. What main calls of a library
-- is a field of Env or of Closings.
pub mod Booted
use im_system.Common.{ℕ, Text, ◌==◌, List, [], ◌∷◌, ◌++◌, length, Result, ok, err, if◌then◌else◌}
use im_system.Config.{Config}
use im_system.Backend.{Backend, Store}
use im_system.Node.{node_id_of}
use im_system.Mq.Link.{Amqp, Link, close_link}
use im_system.Mq.Session.{start}
use im_system.Stores.{config_init, Pool, mysql_init, redis_init, ZapLib, Logger, logger_init}
use im_system.Router.{publish_forward}
use im_system.Ws.State.{Server}
use im_system.Ws.Manager.{close_all, snapshot_send_chan_usage}
use im_system.Ws.System.{started}

-- Where main panics.
pub data Stage : Type 0 where
  at_config at_mysql at_redis at_rabbit_mq : Stage

-- What shutting down closes.
pub data Resource : Type 0 where
  http rabbit_mq subscription redis mysql : Resource

pub record Env (Z : ZapLib) (A : Amqp) (B : Backend) : Type 0 where
  pub read : Result (Unit {0})
  pub decoded : Result Config
  pub port_flag : ℕ
  pub hostname : Result Text
  pub open_db : Text → Result (Unit {0})
  pub ping : Text → Text → Result (Unit {0})
  pub link : Link A
  pub store : Store B

pub record Process (Z : ZapLib) (A : Amqp) (B : Backend) : Type 0 where
  pub config : Config
  pub logger : Logger Z
  pub pool : Pool
  pub link : Link A
  pub server : Server B

pub data Boot (Z : ZapLib) (A : Amqp) (B : Backend) : Type 0 where
  panicked : Stage → Boot Z A B
  running : Process Z A B → Boot Z A B

pub record Closings : Type 0 where
  pub http : Result (Unit {0})
  pub subscription : Result (Unit {0})
  pub redis : Result (Unit {0})
  pub mysql : Result (Unit {0})

-- The flag -port replaces the port of the file, unless it is 0.
abbrev pub with_port : ℕ → Config → Config
with_port flag c = if flag == 0 then c else record c { server = record (c.server) { port = flag } }

module _ {Z : ZapLib} {A : Amqp} {B : Backend} where
  abbrev pub start_mq : Config → Pool → Env Z A B → Boot Z A B
  start_mq c pool env =
      let (r, link) = start c.rabbit_mq env.link in
      elim r [
        | err e ↦ panicked at_rabbit_mq
        | ok u ↦ running (record {
          config = c;
          logger = logger_init Z c;
          pool = pool;
          link = link;
          server = started env.store (node_id_of env.hostname c.server.port) publish_forward;
        })
      ]

  abbrev pub start_redis : Config → Pool → Env Z A B → Boot Z A B
  start_redis c pool env = elim (redis_init env.ping c.redis) [
    | err e ↦ panicked at_redis
    | ok u ↦ start_mq c pool env
  ]

  abbrev pub start_stores : Config → Env Z A B → Boot Z A B
  start_stores c env = elim (mysql_init env.open_db c.mysql) [
    | err e ↦ panicked at_mysql
    | ok pool ↦ start_redis c pool env
  ]

  -- main, up to the HTTP server.
  unfoldable pub boot : Env Z A B → Boot Z A B
  boot env = elim (config_init env.read env.decoded) [
    | err e ↦ panicked at_config
    | ok c ↦ start_stores (with_port env.port_flag c) env
  ]

  -- main, from the signal on: every error is only logged.
  unfoldable pub shutdown :
      Closings → Process Z A B → List (Resource × Result (Unit {0})) × Process Z A B
  unfolding close_link
  shutdown c p =
      let server' = close_all p.server in
      let (r, link') = close_link p.link in
      (
        (http, c.http)
            ∷ (rabbit_mq, r)
            ∷ (subscription, c.subscription)
            ∷ (redis, c.redis)
            ∷ (mysql, c.mysql)
            ∷ [],
        record p { server = server'; link = link' },
      )

-- A round of the goroutine that counts the keys online:user:* in Redis, on what the iterator gives
-- and its error: the gauge OnlineUsersRedis.
abbrev pub sample_online : List Text → Result (Unit {0}) → ℕ → ℕ
sample_online keys (ok u) gauge = length keys
sample_online keys (err e) gauge = gauge

-- A round of the goroutine that samples the send channels: what the histogram SendChanUsage has
-- observed, in order.
unfoldable pub sample_usage : {B : Backend} → Server B → List ℕ → List ℕ
unfolding snapshot_send_chan_usage
sample_usage srv observed = observed ++ snapshot_send_chan_usage srv
