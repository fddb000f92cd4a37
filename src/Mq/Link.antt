-- ===== src/Mq/Link.antt =====
-- pkg/rabbitmq/rabbitmq.go: the connection to RabbitMQ, and the amqp library that it calls.
use im_system.Common.{
  ℕ, Text, bytes, ◌≡◌, Bool, Option, none, some, List, [], ◌∷◌, ◌++◌, Result, ok, err, Act,
  connection_not_ready, if◌then◌else◌,
}
use im_system.Common.Decimal.{decimal}
use im_system.Config.{RabbitMqConfig}

-- What a broker was told and has accepted. An exchange is direct and durable, a queue durable.
pub data Call (Conn : Type 0) (Chan : Type 0) : Type 0 where
  dialled : Conn → Call Conn Chan
  opened : Conn → Chan → Call Conn Chan
  confirms : Chan → Call Conn Chan
  exchange : Text → Call Conn Chan
  -- the name, and the exchange and routing key for dead letters
  queue : Text → Option (Text × Text) → Call Conn Chan
  -- queue, routing key, exchange
  binding : Text → Text → Text → Call Conn Chan
  -- a consumer of a queue, on a channel
  consumer : Chan → Text → Call Conn Chan

-- The amqp library, over a state of its own. Dial may return a connection with an error.
pub record Amqp : Type 1 where
  pub State : Type 0
  pub Conn : Type 0
  pub Chan : Type 0
  pub log : State → List (Call Conn Chan)
  pub dial : Text → State → Result Conn × State
  pub left_by_error : Text → State → Option Conn
  pub is_closed : Conn → State → Bool
  pub close : Conn → State → Result (Unit {0}) × State
  pub channel : Conn → State → Result Chan × State
  pub close_channel : Chan → State → Result (Unit {0}) × State
  pub confirm : Chan → State → Result (Unit {0}) × State
  pub exchange_declare : Chan → Text → State → Result (Unit {0}) × State
  pub queue_declare : Chan → Text → Option (Text × Text) → State → Result (Unit {0}) × State
  pub queue_bind : Chan → Text → Text → Text → State → Result (Unit {0}) × State
  pub consume : Chan → Text → State → Result (Unit {0}) × State

-- A call that succeeds has been accepted, as the last one.
pub record IsAmqp (A : Amqp) : Type 0 where
  pub dial_ok :
      (addr : Text) (c : A.Conn) (s s' : A.State)
      → A.dial addr s ≡ (ok c, s')
      → A.log s' ≡ A.log s ++ dialled c ∷ []
  pub channel_ok :
      (c : A.Conn) (ch : A.Chan) (s s' : A.State)
      → A.channel c s ≡ (ok ch, s')
      → A.log s' ≡ A.log s ++ opened c ch ∷ []
  pub confirm_ok :
      (ch : A.Chan) (s s' : A.State)
      → A.confirm ch s ≡ (ok tt, s')
      → A.log s' ≡ A.log s ++ confirms ch ∷ []
  pub exchange_ok :
      (ch : A.Chan) (name : Text) (s s' : A.State)
      → A.exchange_declare ch name s ≡ (ok tt, s')
      → A.log s' ≡ A.log s ++ exchange name ∷ []
  pub queue_ok :
      (ch : A.Chan) (name : Text) (dead : Option (Text × Text)) (s s' : A.State)
      → A.queue_declare ch name dead s ≡ (ok tt, s')
      → A.log s' ≡ A.log s ++ queue name dead ∷ []
  pub bind_ok :
      (ch : A.Chan) (name key from : Text) (s s' : A.State)
      → A.queue_bind ch name key from s ≡ (ok tt, s')
      → A.log s' ≡ A.log s ++ binding name key from ∷ []
  pub consume_ok :
      (ch : A.Chan) (name : Text) (s s' : A.State)
      → A.consume ch name s ≡ (ok tt, s')
      → A.log s' ≡ A.log s ++ consumer ch name ∷ []
  pub close_channel_log : (ch : A.Chan) (s : A.State) → A.log (A.close_channel ch s).1 ≡ A.log s

-- The globals rabbitmq.Conn and publishCh, and the milliseconds slept, latest first.
pub record Link (A : Amqp) : Type 0 where
  pub conn : Option A.Conn
  pub publish_ch : Option A.Chan
  pub amqp : A.State
  pub slept : List ℕ

-- fmt.Sprintf("amqp://%s:%s@%s:%d%s", …)
abbrev pub address : RabbitMqConfig → Text
address c =
    bytes "amqp://"
    ++ (c.user
        ++ (bytes ":"
            ++ (c.password
                ++ (bytes "@" ++ (c.host ++ (bytes ":" ++ (decimal c.port ++ c.vhost)))))))

module _ {A : Amqp} where
  -- One call of the library.
  abbrev pub call {ℓ} : {X : Type ℓ} → Act A.State X → Act (Link A) X
  call m g = let (r, s) = m g.amqp in (r, record g { amqp = s })

  -- An old connection that is still open is closed; an error of that is dropped.
  abbrev pub closed_first : Link A → Link A
  closed_first g = elim g.conn [
    | none ↦ g
    | some c ↦ if A.is_closed c g.amqp then g else (call (A.close c) g).1
  ]

  abbrev pub dialled_to : Text → Link A → Result A.Conn × A.State → Result (Unit {0}) × Link A
  dialled_to addr g (ok c, s) = (ok tt, record g { conn = some c; amqp = s })
  dialled_to addr g (err e, s) = (err e, record g { conn = A.left_by_error addr g.amqp; amqp = s })

  -- Reconnect, and Init
  unfoldable pub reconnect : RabbitMqConfig → Act (Link A) (Unit {0})
  reconnect config g =
      let g' = closed_first g in dialled_to (address config) g' (A.dial (address config) g'.amqp)

  abbrev on_conn : Option A.Conn → Act (Link A) A.Chan
  on_conn none g = (err connection_not_ready, g)
  on_conn (some c) g =
      if A.is_closed c g.amqp then (err connection_not_ready, g) else call (A.channel c) g

  -- GetChannel
  unfoldable pub get_channel : Act (Link A) A.Chan
  get_channel g = on_conn g.conn g

  -- Close
  unfoldable pub close_link : Act (Link A) (Unit {0})
  close_link g = elim g.conn [
    | none ↦ (ok tt, g)
    | some c ↦ if A.is_closed c g.amqp then (ok tt, g) else call (A.close c) g
  ]
