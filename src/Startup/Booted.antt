-- ===== src/Startup/Booted.antt =====
-- A process that has started, and what is left of its clients when it has shut down.
use im_system.Common.{ℕ, ◌≡◌, ok, some, none, Among}
use im_system.Config.{Config}
use im_system.Stores.{dsn, redis_address, ZapLib, log_file}
use im_system.Backend.{Backend}
use im_system.Services.{IsCache}
use im_system.Node.{node_id_of}
use im_system.Mq.Link.{Amqp}
use im_system.Mq.Session.Ready.{IsReady}
use im_system.Ws.State.{ClientRef, Server}
use im_system.Ws.Manager.{online_key, keys_of, get_client_by_user_id}
use im_system.Ws.Manager.Presence.{shown}
use im_system.Ws.Manager.Closing.{close_all_clears}
use im_system.Ws.System.{Reach}
use im_system.Ws.System.Safety.{IsSound}
use im_system.Startup.{Env, Process, Closings, with_port, shutdown}

module _ {Z : ZapLib} {A : Amqp} {B : Backend} where
  -- A process that runs as `env` says: it has opened what the settings name, its link is set up,
  -- it has the node id of its host and port, and stays sound.
  pub record IsBooted (env : Env Z A B) (p : Process Z A B) : Type 0 where
    pub file : Config
    pub from_file : (env.read ≡ ok tt) × (env.decoded ≡ ok file)
    pub config : p.config ≡ with_port env.port_flag file
    pub database : (env.open_db (dsn p.config.mysql) ≡ ok tt) × (p.pool.source ≡ dsn p.config.mysql)
    pub cache : env.ping (redis_address p.config.redis) p.config.redis.password ≡ ok tt
    pub log : p.logger.filename ≡ log_file p.config.server.port
    pub ready : IsReady p.link
    pub named : p.server.node_id ≡ node_id_of env.hostname p.config.server.port
    pub sound : (srv : Server B) → Reach p.server srv → IsSound srv

  -- When main shuts down, whatever fails to close: the connection of every client in the map is
  -- closed, and the key of its user is taken from Redis, if Redis does not fail.
  pub shutdown_clears :
      (cache : IsCache B.cache) (closings : Closings) (u : ℕ) (c : ClientRef) (p : Process Z A B)
      → get_client_by_user_id u p.server ≡ some c
      → (B.cache.del (keys_of p.server.clients) p.server.store.cache).0 ≡ ok tt
      → let p' = (shutdown closings p).1 in
        Among c.address p'.server.closed_conns × (shown p'.server (online_key u) ≡ none)
  unfolding shutdown
  shutdown_clears cache closings u c p found gone = close_all_clears cache u c p.server found gone
