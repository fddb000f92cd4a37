-- ===== src/Tests/Link.antt =====
-- A broker that refuses some connections, and closes one when it has accepted so many calls.
use im_system.Common.{
  ℕ, bytes, ◌≡◌, ◌-◌, refl, arith, List, [], ◌∷◌, ◌++◌, none, some, ok, err, leb, length, is_ok,
  connection_not_ready, external, if◌then◌else◌, ◌==◌,
}
use im_system.Config.{RabbitMqConfig}
use im_system.Services.Packed.{packed}
use im_system.Mq.Link.{
  Amqp, IsAmqp, Link, Call, dialled, opened, confirms, exchange, queue, binding, consumer,
  reconnect, get_channel,
}
use im_system.Mq.Session.{
  backoffs, Notice, lost, declare_topology, rebuild_all, start, reconnect_with_backoff,
  watch_and_reconnect, publishing, no_channel, retry, attempt, init_publisher, start_consumer,
}
use im_system.Mq.Session.Ready.{IsReady}
use im_system.Mq.Session.Losses.{
  Retried, reconnect_with_backoff-Retried, start_watch-IsReady, closed_while_rebuilding,
}
use im_system.Model.{MqMessage}
use im_system.Tests.Fixture.{demo, message_row}

pub record Sim : Type 0 where
  pub log : List (Call ℕ ℕ)
  pub refusals : ℕ
  pub limit : ℕ

abbrev pub tell : Sim → Call ℕ ℕ → Sim
tell s c = record s { log = s.log ++ c ∷ [] }

abbrev pub sim : Amqp
sim = record {
  State = Sim;
  Conn = ℕ;
  Chan = ℕ;
  log = λ s. s.log;
  dial = λ addr s.
      if s.refusals == 0
      then (ok (length s.log), tell s (dialled (length s.log)))
      else (err (external 1), record s { refusals = s.refusals - 1 });
  left_by_error = λ addr s. none;
  is_closed = λ c s. leb s.limit (length s.log);
  close = λ c s. (ok tt, s);
  channel = λ c s. (ok (length s.log), tell s (opened c (length s.log)));
  close_channel = λ ch s. (ok tt, s);
  confirm = λ ch s. (ok tt, tell s (confirms ch));
  exchange_declare = λ ch name s. (ok tt, tell s (exchange name));
  queue_declare = λ ch name dead s. (ok tt, tell s (queue name dead));
  queue_bind = λ ch name key from s. (ok tt, tell s (binding name key from));
  consume = λ ch name s. (ok tt, tell s (consumer ch name));
}

pub sim-IsAmqp : IsAmqp sim
sim-IsAmqp = record {
  dial_ok = λ addr c s s' e. ground (arith, e);
  channel_ok = λ c ch s s' e. ground (arith, e);
  confirm_ok = λ ch s s' e. ground (arith, e);
  exchange_ok = λ ch name s s' e. ground (arith, e);
  queue_ok = λ ch name dead s s' e. ground (arith, e);
  bind_ok = λ ch name key from s s' e. ground (arith, e);
  consume_ok = λ ch name s s' e. ground (arith, e);
  close_channel_log = λ ch s. refl;
}

abbrev pub config : RabbitMqConfig
config = record {
  host = bytes "localhost";
  port = 5672;
  user = bytes "guest";
  password = bytes "guest";
  vhost = bytes "/";
}

abbrev pub unlinked : ℕ → ℕ → Link sim
unlinked refusals limit = record {
  conn = none;
  publish_ch = none;
  amqp = record { log = []; refusals = refusals; limit = limit };
  slept = [];
}

-- Two refused attempts, then success.
two_refused : (reconnect_with_backoff config (unlinked 2 100)).1.slept ≡ 2000 ∷ 1000 ∷ []
unfolding reconnect_with_backoff retry attempt reconnect rebuild_all declare_topology get_channel
    init_publisher start_consumer
two_refused = refl

reconnect_with_backoff-Retried_example :
    let (r, h) = reconnect_with_backoff config (unlinked 2 100) in
    Retried config backoffs (unlinked 2 100) (is_ok r) h
reconnect_with_backoff-Retried_example =
    reconnect_with_backoff-Retried sim-IsAmqp config (unlinked 2 100)

abbrev linked : Link sim
linked = (start config (unlinked 0 100)).1

abbrev losses : List (Notice sim)
losses = lost (record (linked.amqp) { refusals = 1 }) ∷ []

start_watch-IsReady_example : IsReady (watch_and_reconnect config losses linked).1
unfolding watch_and_reconnect start reconnect_with_backoff retry attempt reconnect rebuild_all
    declare_topology get_channel init_publisher start_consumer
start_watch-IsReady_example =
    start_watch-IsReady sim-IsAmqp config losses (unlinked 0 100) linked
      (watch_and_reconnect config losses linked).1 refl refl

abbrev half_linked : Link sim
half_linked = record (unlinked 0 6) {
  conn = some 0;
  amqp = record { log = dialled 0 ∷ []; refusals = 0; limit = 6 };
}

abbrev note : MqMessage
note = record { conv_id = 1; send_msg = message_row 1 1 2 }

closed_while_rebuilding_example :
    ((rebuild_all half_linked).0 ≡ err connection_not_ready)
    × (publishing demo.mq_codec note (rebuild_all half_linked).1 ≡ no_channel)
unfolding declare_topology packed get_channel
closed_while_rebuilding_example =
    closed_while_rebuilding demo.mq_codec note _ 0 half_linked (declare_topology half_linked).1 refl
      refl refl refl
