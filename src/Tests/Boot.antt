-- ===== src/Tests/Boot.antt =====
-- A process starts, a client connects, and it shuts down.
use im_system.Common.{ℕ, ◌≡◌, refl, bytes, ok, none, Among, err, true, external}
use im_system.Common.Dict.{lookup, insert}
use im_system.Config.{Config}
use im_system.Mq.Session.{start}
use im_system.Stores.{ZapLib, dsn, logger_init}
use im_system.Startup.{Env, Process, Closings, with_port, shutdown}
use im_system.Startup.Booted.{shutdown_clears}
use im_system.Ws.State.{ClientRef}
use im_system.Ws.Manager.{register, get_client_by_user_id, online_key}
use im_system.Ws.Manager.Presence.{shown}
use im_system.Router.{publish_forward}
use im_system.Ws.System.{started}
use im_system.Node.{node_id_of}
use im_system.Tests.Link.{sim, unlinked}
use im_system.Tests.Fixture.{demo, demo-IsLawful, store}
use im_system.Tests.Link

abbrev settings : Config
settings = record {
  server = record { port = 8080; mode = bytes "debug" };
  mysql = record {
    host = bytes "localhost";
    port = 3307;
    user = bytes "root";
    password = bytes "123456";
    db_name = bytes "im_system";
    max_open_conns = 100;
    max_idle_conns = 10;
  };
  redis = record { host = bytes "localhost"; port = 6379; password = bytes "" };
  jwt = record { secret = bytes "k"; expire = 72 };
  zap = record { is_dev = true; level = bytes "info" };
  rabbit_mq = Link.config;
}

abbrev zap : ZapLib
zap = record { Level = ℕ; info = 0; error = 2; parse = λ level. err (external 0) }

abbrev env : Env zap sim demo
env = record {
  read = ok tt;
  decoded = ok settings;
  port_flag = 8081;
  hostname = ok (bytes "a");
  open_db = λ source. ok tt;
  ping = λ address password. ok tt;
  link = unlinked 0 100;
  store = store;
}

abbrev process : Process zap sim demo
process = record {
  config = with_port 8081 settings;
  logger = logger_init zap (with_port 8081 settings);
  pool = record {
    source = dsn settings.mysql;
    max_open_conns = 100;
    max_idle_conns = 10;
    conn_max_lifetime = 3600;
    conn_max_idle_time = 600;
  };
  link = (start Link.config (unlinked 0 100)).1;
  server = started store (node_id_of (ok (bytes "a")) 8081) publish_forward;
}

abbrev phone : ClientRef
phone = record { address = 10; user_id = 1 }

abbrev busy : Process zap sim demo
busy = record process { server = register phone process.server }

abbrev closings : Closings
closings = record { http = ok tt; subscription = ok tt; redis = err (external 1); mysql = ok tt }

shutdown_clears_example :
    Among 10 (shutdown closings busy).1.server.closed_conns
    × (shown (shutdown closings busy).1.server (online_key 1) ≡ none)
unfolding register lookup insert get_client_by_user_id
shutdown_clears_example = shutdown_clears demo-IsLawful.cache closings 1 phone busy refl refl
