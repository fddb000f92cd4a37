-- ===== src/Mq/Session.antt =====
-- internal/mq/topology.go, mq.go and reconnect.go, with InitPublisher of publisher.go and the calls
-- of StartConversationUpdateConsumer: what is set up on a connection, and again after a loss.
pub mod Accepted
pub mod Ready
pub mod Losses
use im_system.Common.{
  ℕ, Text, bytes, List, [], ◌∷◌, Option, none, some, Result, ok, err, Act, ◌>>=◌, ◌>>◌,
  reconnect_exhausted,
}
use im_system.Config.{RabbitMqConfig}
use im_system.Model.{MqMessage}
use im_system.Services.{Codec}
use im_system.Mq.Publisher.{update_queue}
use im_system.Mq.Link.{Amqp, Link, call, reconnect, get_channel}

abbrev pub dlx_name : Text
dlx_name = bytes "ex.conversation.update.dlx"

abbrev pub dlq_name : Text
dlq_name = bytes "q.conversation.update.dlq"

abbrev pub dlx_routing_key : Text
dlx_routing_key = bytes "conversation.update.dead"

-- The pauses of reconnectWithBackoff, in milliseconds.
abbrev pub backoffs : List ℕ
backoffs = 1000 ∷ 2000 ∷ 4000 ∷ 8000 ∷ 16000 ∷ 30000 ∷ []

-- What becomes of WatchAndReconnect: it waits for the next loss, it has returned after a Close of
-- our own, or it has sent SIGTERM to its process.
pub data Watch : Type 0 where
  waiting returned killed : Watch

-- What PublishMessageSent does up to the call on the channel; a method of a nil channel panics.
pub data Publishing : Type 0 where
  not_marshalled no_channel on_channel : Publishing

-- What the connection reports: it was closed by us, or lost, with the state of the broker then.
pub data Notice (A : Amqp) : Type 0 where
  closed : Notice A
  lost : A.State → Notice A

abbrev pub on_publisher : {Chan : Type 0} → Option Chan → Publishing
on_publisher none = no_channel
on_publisher (some ch) = on_channel

module _ {A : Amqp} where
  unfoldable pub declarations : A.Chan → Act (Link A) (Unit {0})
  declarations ch = do
    call (A.exchange_declare ch dlx_name)
    call (A.queue_declare ch dlq_name none)
    call (A.queue_bind ch dlq_name dlx_routing_key dlx_name)
    call (A.queue_declare ch update_queue (some (dlx_name, dlx_routing_key)))

  -- DeclareTopology; its channel is closed however it ends.
  unfoldable pub declare_topology : Act (Link A) (Unit {0})
  unfolding declarations
  declare_topology g =
      let (r, g') = get_channel g in
      elim r [
        | err e ↦ (err e, g')
        | ok ch ↦ let (r', g'') = declarations ch g' in (r', (call (A.close_channel ch) g'').1)
      ]

  -- InitPublisher; publishCh is nil after an error of GetChannel.
  unfoldable pub init_publisher : Act (Link A) (Unit {0})
  init_publisher g =
      let (r, g') = get_channel g in
      elim r [
        | err e ↦ (err e, record g' { publish_ch = none })
        | ok ch ↦ call (A.confirm ch) (record g' { publish_ch = some ch })
      ]

  -- StartConversationUpdateConsumer, up to its goroutine.
  unfoldable pub start_consumer : Act (Link A) (Unit {0})
  start_consumer = do ch ← get_channel; call (A.consume ch update_queue)

  -- rebuildAll
  unfoldable pub rebuild_all : Act (Link A) (Unit {0})
  rebuild_all = do declare_topology; init_publisher; start_consumer

  -- Start, up to the goroutine of WatchAndReconnect.
  unfoldable pub start : RabbitMqConfig → Act (Link A) (Unit {0})
  start config = do reconnect config; declare_topology; init_publisher; start_consumer

  -- One round of reconnectWithBackoff, less the pause.
  unfoldable pub attempt : RabbitMqConfig → Act (Link A) (Unit {0})
  attempt config = do reconnect config; rebuild_all

  unfoldable pub retry : RabbitMqConfig → List ℕ → Act (Link A) (Unit {0})
  retry config [] g = (err reconnect_exhausted, g)
  retry config (wait ∷ rest) g =
      let (r, g') = attempt config g in
      elim r [
        | ok u ↦ (ok tt, g')
        | err e ↦ retry config rest (record g' { slept = wait ∷ g'.slept })
      ]

  -- reconnectWithBackoff
  unfoldable pub reconnect_with_backoff : RabbitMqConfig → Act (Link A) (Unit {0})
  reconnect_with_backoff config = retry config backoffs

  -- WatchAndReconnect, on the notices that come one after another.
  unfoldable pub watch_and_reconnect : RabbitMqConfig → List (Notice A) → Link A → Watch × Link A
  watch_and_reconnect config [] g = (waiting, g)
  watch_and_reconnect config (closed ∷ rest) g = (returned, g)
  watch_and_reconnect config (lost s ∷ rest) g =
      let (r, g') = reconnect_with_backoff config (record g { amqp = s }) in
      elim r [ ok u ↦ watch_and_reconnect config rest g' | err e ↦ (killed, g') ]

  unfoldable pub publishing : Codec MqMessage → MqMessage → Link A → Publishing
  publishing codec msg g = elim (codec.marshal msg) [
    | err e ↦ not_marshalled
    | ok body ↦ on_publisher g.publish_ch
  ]
