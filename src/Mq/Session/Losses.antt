-- ===== src/Mq/Session/Losses.antt =====
-- What a lost connection leads to: how long the server pauses, and what it has in the end.
use im_system.Common.{
  ℕ, Text, List, [], ◌∷◌, ◌++◌, ◌≡◌, ◌≤◌, ◌+◌, refl, ap, ◌∙◌, arith, some, ok, err, Act, ◌>>◌,
  ◌>>=◌, >>=-eq-ok, is_ok, subst, connection_not_ready, Bool, true, false, inl, inr, result_pair,
  Result-cases,
}
use im_system.Config.{RabbitMqConfig}
use im_system.Model.{MqMessage}
use im_system.Services.{Codec}
use im_system.Mq.Link.{Amqp, IsAmqp, Link, reconnect, get_channel}
use im_system.Mq.Session.{
  backoffs, Notice, closed, lost, waiting, declarations, declare_topology, init_publisher,
  start_consumer, rebuild_all, attempt, start, publishing, no_channel, retry,
  reconnect_with_backoff, watch_and_reconnect,
}
use im_system.Mq.Session.Ready.{IsReady, reconnect_ok, set_up-IsReady}

-- The pauses that were made, latest first, on top of those before.
abbrev pub paused : List ℕ → List ℕ → List ℕ
paused [] slept = slept
paused (wait ∷ done) slept = paused done (wait ∷ slept)

abbrev total : List ℕ → ℕ
total [] = 0
total (n ∷ ns) = n + total ns

total-paused : (done slept : List ℕ) → total (paused done slept) ≡ total done + total slept
total-paused [] slept = omega arith
total-paused (wait ∷ done) slept = omega (arith, total-paused done (wait ∷ slept))

total-append : (xs ys : List ℕ) → total (xs ++ ys) ≡ total xs + total ys
total-append [] ys = omega arith
total-append (x ∷ xs) ys = omega (arith, total-append xs ys)

module _ {A : Amqp} where
  -- An action that does not sleep.
  abbrev IsQuick : {X : Type 0} → Act (Link A) X → Type 0
  IsQuick m = (g : Link A) → (m g).1.slept ≡ g.slept

  IsQuick-then : (m k : Act (Link A) (Unit {0})) → IsQuick m → IsQuick k → IsQuick (m >> k)
  IsQuick-then m k p q g = elim (Result-cases (m g).0) [
    | inl (u, e) ↦ rw (e, ◌>>◌, ◌>>=◌) (q (m g).1 ∙ p g)
    | inr (x, e) ↦ rw (e, ◌>>◌, ◌>>=◌) (p g)
  ]

  reconnect-IsQuick : (config : RabbitMqConfig) → IsQuick (reconnect {A = A} config)
  unfolding reconnect
  reconnect-IsQuick config g = ground arith

  get_channel-IsQuick : IsQuick (get_channel {A = A})
  unfolding get_channel
  get_channel-IsQuick g = ground arith

  declarations-IsQuick : (ch : A.Chan) → IsQuick (declarations {A = A} ch)
  unfolding declarations
  declarations-IsQuick ch g = ground arith

  declare_topology-IsQuick : IsQuick (declare_topology {A = A})
  unfolding declare_topology
  declare_topology-IsQuick g = elim (Result-cases (get_channel g).0) [
    | inr (x, e) ↦ rw (e, declare_topology) (get_channel-IsQuick g)
    | inl (ch, e) ↦
        rw (e, declare_topology) (declarations-IsQuick ch (get_channel g).1 ∙ get_channel-IsQuick g)
  ]

  init_publisher-IsQuick : IsQuick (init_publisher {A = A})
  unfolding init_publisher
  init_publisher-IsQuick g = ground (arith, get_channel-IsQuick g)

  start_consumer-IsQuick : IsQuick (start_consumer {A = A})
  unfolding start_consumer
  start_consumer-IsQuick g = ground (arith, get_channel-IsQuick g)

  attempt-IsQuick : (config : RabbitMqConfig) → IsQuick (attempt {A = A} config)
  unfolding attempt rebuild_all
  attempt-IsQuick config = IsQuick-then (reconnect config) rebuild_all (reconnect-IsQuick config) (
      IsQuick-then declare_topology (init_publisher >> start_consumer) declare_topology-IsQuick
        (IsQuick-then init_publisher start_consumer init_publisher-IsQuick start_consumer-IsQuick))

  -- One attempt: a new connection, and all that is set up on it.
  abbrev pub set_up : RabbitMqConfig → Act (Link A) (Unit {0})
  set_up config = reconnect config >> (declare_topology >> (init_publisher >> start_consumer))

  -- From `g` to `h` there was one attempt for each pause: it failed, and then came the pause.
  abbrev pub Failures : RabbitMqConfig → List ℕ → Link A → Link A → Type 0
  Failures config [] g h = g ≡ h
  Failures config (wait ∷ done) g h =
      let (r, g') = set_up config g in
      (is_ok r ≡ false) × Failures config done (record g' { slept = wait ∷ g'.slept }) h

  -- A run of reconnectWithBackoff: `done` are the pauses of the attempts that failed, up to `last`;
  -- `left` are those that were not needed.
  pub record Retried (config : RabbitMqConfig) (waits : List ℕ) (g : Link A) (r : Bool) (h : Link A)
      : Type 0 where
    pub done : List ℕ
    pub left : List ℕ
    pub all : waits ≡ done ++ left
    pub slept : h.slept ≡ paused done g.slept
    pub last : Link A
    pub failures : Failures config done g last
    pub gave_up : r ≡ false → (left ≡ []) × (h ≡ last)
    pub succeeded : r ≡ true → set_up config last ≡ (ok tt, h)
    pub ready : r ≡ true → IsReady h

  module _ (law : IsAmqp A) (config : RabbitMqConfig) where
    attempt-IsReady : (g h : Link A) → attempt config g ≡ (ok tt, h) → IsReady h
    unfolding attempt
    attempt-IsReady g h e =
        let (u, g1, e1, e2) = >>=-eq-ok (reconnect config) (λ _. rebuild_all) g h tt e in
        let (c, before, at, log) = reconnect_ok law config g g1 e1 in
        set_up-IsReady law c before g1 h at log e2

    retry-Retried :
        (waits : List ℕ) (g : Link A)
        → Retried config waits g (is_ok (retry config waits g).0) (retry config waits g).1
    unfolding retry attempt rebuild_all
    retry-Retried [] g = record {
      done = [];
      left = [];
      all = refl;
      slept = refl;
      last = g;
      failures = refl;
      gave_up = λ e. (refl, refl);
      succeeded = λ e. absurd (ground (arith, e));
      ready = λ e. absurd (ground (arith, e));
    }
    retry-Retried (wait ∷ rest) g = elim (Result-cases (attempt config g).0) [
      | inl (u, e) ↦
          rw (e, retry)
            (record {
              done = [];
              left = wait ∷ rest;
              all = refl;
              slept = attempt-IsQuick config g;
              last = g;
              failures = refl;
              gave_up = λ f. absurd (ground (arith, f));
              succeeded = λ f. result_pair (attempt config g) _ e;
              ready = λ f. attempt-IsReady g (attempt config g).1 (result_pair _ _ e);
            })
      | inr (x, e) ↦
          let g' = (attempt config g).1 in
          let g'' = record g' { slept = wait ∷ g'.slept } in
          let o = retry-Retried rest g'' in
          rw (e, retry)
            (record {
              done = wait ∷ o.done;
              left = o.left;
              all = ap (λ l. wait ∷ l) o.all;
              slept = o.slept ∙ ap (λ l. paused o.done (wait ∷ l)) (attempt-IsQuick config g);
              last = o.last;
              failures = (rw e refl, o.failures);
              gave_up = o.gave_up;
              succeeded = o.succeeded;
              ready = o.ready;
            })
    ]

    -- With the amqp library as documented: reconnectWithBackoff makes one attempt after another, each
    -- of them a new connection with the topology, the publisher and the consumer set up on it. Each
    -- attempt that fails is followed by one pause, those of the list in their order; it gives up only
    -- after the last pause; it reports success only after an attempt that succeeds, without another
    -- pause; and then the last that the broker accepted is a whole session on one connection
    -- (dead letter exchange and queue, their binding, the queue, a publisher in confirm mode, a
    -- consumer), and the globals hold that connection and the publisher's channel.
    pub reconnect_with_backoff-Retried :
        (g : Link A)
        → let (r, h) = reconnect_with_backoff config g in Retried config backoffs g (is_ok r) h
    unfolding reconnect_with_backoff
    reconnect_with_backoff-Retried g = retry-Retried backoffs g

    -- With the amqp library as documented: reconnectWithBackoff pauses for 61 seconds at most.
    reconnect_with_backoff_pauses :
        (g : Link A) → total (reconnect_with_backoff config g).1.slept ≤ total g.slept + 61_000
    reconnect_with_backoff_pauses g =
        let o = reconnect_with_backoff-Retried g in
        let sum : 61_000 ≡ total o.done + total o.left =
          ap total o.all ∙ total-append o.done o.left in
        rw o.slept (omega (arith, total-paused o.done g.slept, sum))

    watch-IsReady :
        (notices : List (Notice A)) (g h : Link A)
        → IsReady g
        → watch_and_reconnect config notices g ≡ (waiting, h)
        → IsReady h
    unfolding watch_and_reconnect
    watch-IsReady [] g h ready e = subst IsReady (ap (λ p. p.1) e) ready
    watch-IsReady (closed ∷ rest) g h ready e = absurd (ground (arith, e))
    watch-IsReady (lost s ∷ rest) g h ready e =
        let g' = record g { amqp = s } in
        let o = reconnect_with_backoff-Retried g' in
        elim (Result-cases (reconnect_with_backoff config g').0) [
          | inr (x, f) ↦ absurd (ground (arith, f, e))
          | inl (u, f) ↦
              watch-IsReady rest (reconnect_with_backoff config g').1 h (o.ready (rw f refl))
                (ground (arith, f, e))
        ]

    pub start-IsReady : (g h : Link A) → start config g ≡ (ok tt, h) → IsReady h
    start-IsReady g h e =
        attempt-IsReady g h (unfold attempt in unfold start in unfold rebuild_all in e)

    -- With the amqp library as documented: from a successful Start on, after any losses of the
    -- connection, as long as WatchAndReconnect waits for the next one, the last that the broker
    -- accepted is a whole session, on the connection and the channel that the globals hold.
    pub start_watch-IsReady :
        (notices : List (Notice A)) (g0 g h : Link A)
        → start config g0 ≡ (ok tt, g)
        → watch_and_reconnect config notices g ≡ (waiting, h)
        → IsReady h
    start_watch-IsReady notices g0 g h e = watch-IsReady notices g h (start-IsReady g0 g e)

  -- If the connection is closed between DeclareTopology and InitPublisher, rebuildAll fails and
  -- leaves no channel for the publisher: PublishMessageSent of a message that can be marshalled then
  -- calls a method of a nil channel.
  pub closed_while_rebuilding :
      (codec : Codec MqMessage) (msg : MqMessage) (body : Text) (c : A.Conn) (g g' : Link A)
      → declare_topology g ≡ (ok tt, g')
      → g'.conn ≡ some c
      → A.is_closed c g'.amqp ≡ true
      → codec.marshal msg ≡ ok body
      → ((rebuild_all g).0 ≡ err connection_not_ready)
        × (publishing codec msg (rebuild_all g).1 ≡ no_channel)
  unfolding rebuild_all init_publisher get_channel publishing
  closed_while_rebuilding codec msg body c g g' e at gone made = ground (arith, e, at, gone, made)
