-- ===== src/Mq/Session/Accepted.antt =====
-- What the broker has accepted after each step of the set-up that succeeds.
use im_system.Common.{
  List, [], ◌∷◌, ◌++◌, ◌≡◌, refl, ap, ◌∙◌, arith, none, some, ok, Act, ◌>>◌, >>=-eq-ok,
  append_assoc, Option-cases, Bool-cases, inl, inr, result_pair, Result-cases,
}
use im_system.Mq.Publisher.{update_queue}
use im_system.Mq.Link.{
  Amqp, IsAmqp, Link, Call, opened, confirms, exchange, queue, binding, consumer, call, get_channel,
}
use im_system.Mq.Session.{
  dlx_name, dlq_name, dlx_routing_key, declarations, declare_topology, init_publisher,
  start_consumer,
}

abbrev pub topology : {Conn Chan : Type 0} → List (Call Conn Chan)
topology =
    exchange dlx_name
    ∷ queue dlq_name none
    ∷ binding dlq_name dlx_routing_key dlx_name
    ∷ queue update_queue (some (dlx_name, dlx_routing_key))
    ∷ []

module _ {A : Amqp} where
  -- From `g` to `h` the broker accepted `calls`, and the connection stayed.
  pub record Extends (g h : Link A) (calls : List (Call A.Conn A.Chan)) : Type 0 where
    pub log : A.log h.amqp ≡ A.log g.amqp ++ calls
    pub conn : h.conn ≡ g.conn
    pub slept : h.slept ≡ g.slept

  pub Extends-trans :
      (g h k : Link A) (xs ys : List (Call A.Conn A.Chan))
      → Extends g h xs
      → Extends h k ys
      → Extends g k (xs ++ ys)
  Extends-trans g h k xs ys p q = record {
    log = q.log ∙ ap (λ l. l ++ ys) p.log ∙ append_assoc (A.log g.amqp) xs ys;
    conn = q.conn ∙ p.conn;
    slept = q.slept ∙ p.slept;
  }

  -- A call that succeeds, with the law of the library for it.
  call-Extends :
      {X : Type 0} (m : Act A.State X) (x : X) (calls : List (Call A.Conn A.Chan)) (g h : Link A)
      → ((s s' : A.State) → m s ≡ (ok x, s') → A.log s' ≡ A.log s ++ calls)
      → call m g ≡ (ok x, h)
      → Extends g h calls × (h.publish_ch ≡ g.publish_ch)
  call-Extends m x calls g h law e =
      let ran : m g.amqp ≡ (ok x, (m g.amqp).1) = result_pair (m g.amqp) (ok x) (ap (λ p. p.0) e) in
      let is_h : record g { amqp = (m g.amqp).1 } ≡ h = ap (λ p. p.1) e in
      rw (← is_h) (record { log = law g.amqp (m g.amqp).1 ran; conn = refl; slept = refl }, refl)

  -- Where the action succeeds, the broker has accepted `calls`, and publishCh is as it was.
  abbrev Accepts : {X : Type 0} → Act (Link A) X → List (Call A.Conn A.Chan) → Type 0
  Accepts {X} m calls =
      (x : X) (g h : Link A) → m g ≡ (ok x, h) → Extends g h calls × (h.publish_ch ≡ g.publish_ch)

  Accepts-then :
      (m k : Act (Link A) (Unit {0})) (xs ys : List (Call A.Conn A.Chan))
      → Accepts m xs
      → Accepts k ys
      → Accepts (m >> k) (xs ++ ys)
  Accepts-then m k xs ys p q x g h e =
      let (u, t, first, then_) = >>=-eq-ok m (λ _. k) g h x e in
      let a = p u g t first in
      let b = q x t h then_ in (Extends-trans g t h xs ys a.0 b.0, b.1 ∙ a.1)

  call-Accepts :
      {X : Type 0} (m : Act A.State X) (calls : List (Call A.Conn A.Chan))
      → ((x : X) (s s' : A.State) → m s ≡ (ok x, s') → A.log s' ≡ A.log s ++ calls)
      → Accepts (call m) calls
  call-Accepts m calls law x g h e = call-Extends m x calls g h (law x) e

  module _ (law : IsAmqp A) where
    get_channel_ok :
        (ch : A.Chan) (g h : Link A)
        → get_channel g ≡ (ok ch, h)
        → (c : A.Conn) × (g.conn ≡ some c)
          × Extends g h (opened c ch ∷ [])
          × (h.publish_ch ≡ g.publish_ch)
    unfolding get_channel
    get_channel_ok ch g h e = elim (Option-cases g.conn) [
      | inl none_yet ↦ absurd (ground (arith, none_yet, e))
      | inr (c, at) ↦ elim (Bool-cases (A.is_closed c g.amqp)) [
        | inl gone ↦ absurd (ground (arith, at, gone, e))
        | inr open_yet ↦
            let e' : call (A.channel c) g ≡ (ok ch, h) = ground (arith, at, open_yet, e) in
            let x = call-Extends (A.channel c) ch (opened c ch ∷ []) g h (law.channel_ok c ch) e' in
            (c, at, x.0, x.1)
      ]
    ]

    declarations-Accepts : (ch : A.Chan) → Accepts (declarations ch) topology
    unfolding declarations
    declarations-Accepts ch =
        Accepts-then _ _ _ _ (call-Accepts _ _ (λ x. law.exchange_ok ch dlx_name)) (
          Accepts-then _ _ _ _ (call-Accepts _ _ (λ x. law.queue_ok ch dlq_name none)) (
            Accepts-then _ _ _ _
              (call-Accepts _ _ (λ x. law.bind_ok ch dlq_name dlx_routing_key dlx_name))
              (call-Accepts _ _
                (λ x. law.queue_ok ch update_queue (some (dlx_name, dlx_routing_key))))))

    pub declare_topology_ok :
        (g h : Link A)
        → declare_topology g ≡ (ok tt, h)
        → (c : A.Conn) × (t : A.Chan) × (g.conn ≡ some c)
          × Extends g h (opened c t ∷ topology)
          × (h.publish_ch ≡ g.publish_ch)
    unfolding declare_topology
    declare_topology_ok g h e = elim (Result-cases (get_channel g).0) [
      | inr (x, f) ↦ absurd (ground (arith, f, e))
      | inl (t, f) ↦
          let g' = (get_channel g).1 in
          let (c, at, first, same) = get_channel_ok t g g' (result_pair _ _ f) in
          let g'' = (declarations t g').1 in
          let declared : (declarations t g').0 ≡ ok tt = ground (arith, f, e) in
          let d = declarations-Accepts t tt g' g'' (result_pair _ _ declared) in
          let is_h : (call (A.close_channel t) g'').1 ≡ h = ground (arith, f, e) in
          let both = Extends-trans g g' g'' _ _ first d.0 in
          (
            c,
            t,
            at,
            rw (← is_h) (record {
              log = law.close_channel_log t g''.amqp ∙ both.log;
              conn = both.conn;
              slept = both.slept;
            }),
            rw (← is_h) (d.1 ∙ same),
          )
    ]

    pub init_publisher_ok :
        (g h : Link A)
        → init_publisher g ≡ (ok tt, h)
        → (c : A.Conn) × (p : A.Chan) × (g.conn ≡ some c)
          × Extends g h (opened c p ∷ confirms p ∷ [])
          × (h.publish_ch ≡ some p)
    unfolding init_publisher
    init_publisher_ok g h e = elim (Result-cases (get_channel g).0) [
      | inr (x, f) ↦ absurd (ground (arith, f, e))
      | inl (p, f) ↦
          let g' = (get_channel g).1 in
          let (c, at, first, same) = get_channel_ok p g g' (result_pair _ _ f) in
          let g'' = record g' { publish_ch = some p } in
          let step : Extends g g'' (opened c p ∷ []) = record {
            log = first.log;
            conn = first.conn;
            slept = first.slept;
          } in
          let rest : call (A.confirm p) g'' ≡ (ok tt, h) = ground (arith, f, e) in
          let d = call-Extends (A.confirm p) tt (confirms p ∷ []) g'' h (law.confirm_ok p) rest in
          (c, p, at, Extends-trans g g'' h _ _ step d.0, d.1)
    ]

    pub start_consumer_ok :
        (g h : Link A)
        → start_consumer g ≡ (ok tt, h)
        → (c : A.Conn) × (q : A.Chan) × (g.conn ≡ some c)
          × Extends g h (opened c q ∷ consumer q update_queue ∷ [])
          × (h.publish_ch ≡ g.publish_ch)
    unfolding start_consumer
    start_consumer_ok g h e =
        let (q, g', opening, rest) =
          >>=-eq-ok get_channel (λ ch. call (A.consume ch update_queue)) g h tt e in
        let (c, at, first, same) = get_channel_ok q g g' opening in
        let d =
          call-Extends (A.consume q update_queue) tt (consumer q update_queue ∷ []) g' h
            (law.consume_ok q update_queue) rest in
        (c, q, at, Extends-trans g g' h _ _ first d.0, d.1 ∙ same)
