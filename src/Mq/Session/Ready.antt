-- ===== src/Mq/Session/Ready.antt =====
-- A connection that has been set up: what the broker has accepted by then.
use im_system.Common.{
  List, [], ◌∷◌, ◌++◌, ◌≡◌, refl, ap, ◌∙◌, arith, some, ok, ◌>>◌, >>=-eq-ok, append_one, inl, inr,
  result_pair, Result-cases,
}
use im_system.Config.{RabbitMqConfig}
use im_system.Mq.Publisher.{update_queue}
use im_system.Mq.Link.{
  Amqp, IsAmqp, Link, Call, dialled, opened, confirms, consumer, reconnect, closed_first, address,
}
use im_system.Mq.Session.{declare_topology, init_publisher, start_consumer, rebuild_all}
use im_system.Mq.Session.Accepted.{
  topology, Extends, Extends-trans, declare_topology_ok, init_publisher_ok, start_consumer_ok,
}

-- All that is set up on a connection, on three channels: for the topology, which is closed after
-- that, for the publisher in confirm mode, and for the consumer.
abbrev pub session : {Conn Chan : Type 0} → Conn → Chan → Chan → Chan → List (Call Conn Chan)
session c t p q =
    (dialled c ∷ opened c t ∷ [])
    ++ topology
    ++ (opened c p ∷ confirms p ∷ opened c q ∷ consumer q update_queue ∷ [])

-- The last that the broker has accepted is a whole session, and the globals hold its connection
-- and the channel of its publisher.
pub record IsReady {A : Amqp} (g : Link A) : Type 0 where
  pub c : A.Conn
  pub t : A.Chan
  pub p : A.Chan
  pub q : A.Chan
  pub before : List (Call A.Conn A.Chan)
  pub conn : g.conn ≡ some c
  pub publish_ch : g.publish_ch ≡ some p
  pub log : A.log g.amqp ≡ before ++ session c t p q

module _ {A : Amqp} where
  module _ (law : IsAmqp A) where
    pub reconnect_ok :
        (config : RabbitMqConfig) (g h : Link A)
        → reconnect config g ≡ (ok tt, h)
        → (c : A.Conn) × (before : List (Call A.Conn A.Chan)) × (h.conn ≡ some c)
          × (A.log h.amqp ≡ before ++ dialled c ∷ [])
    unfolding reconnect
    reconnect_ok config g h e =
        let g' = closed_first g in
        let (r, s) = A.dial (address config) g'.amqp in
        elim (Result-cases r) [
          | inr (x, f) ↦ absurd (ground (arith, f, e))
          | inl (c, f) ↦
              let is_h : record g' { conn = some c; amqp = s } ≡ h = ground (arith, f, e) in
              let dialling = law.dial_ok (address config) c g'.amqp s (result_pair _ _ f) in
              (c, A.log g'.amqp, rw (← is_h) refl, rw (← is_h) dialling)
        ]

    session_log :
        (c c1 c2 c3 : A.Conn) (t p q : A.Chan) (before : List (Call A.Conn A.Chan)) (g h : Link A)
        → c1 ≡ c
        → c2 ≡ c
        → c3 ≡ c
        → A.log g.amqp ≡ before ++ dialled c ∷ []
        → Extends g h (
            opened c1 t ∷ topology
            ++ (opened c2 p ∷ confirms p ∷ [])
            ++ (opened c3 q ∷ consumer q update_queue ∷ []))
        → A.log h.amqp ≡ before ++ session c t p q
    session_log c c1 c2 c3 t p q before g h e1 e2 e3 start_log x =
        let calls : List (Call A.Conn A.Chan) =
          (opened c1 t ∷ topology ++ (opened c2 p ∷ confirms p ∷ []))
          ++ (opened c3 q ∷ consumer q update_queue ∷ []) in
        x.log
        ∙ ap (λ l. l ++ calls) start_log
        ∙ append_one before (dialled c) calls
        ∙ rw (e1, e2, e3) refl

    -- What follows Reconnect in Start and in an attempt, on a connection just dialled.
    pub set_up-IsReady :
        (c : A.Conn) (before : List (Call A.Conn A.Chan)) (g h : Link A)
        → g.conn ≡ some c
        → A.log g.amqp ≡ before ++ dialled c ∷ []
        → rebuild_all g ≡ (ok tt, h)
        → IsReady h
    unfolding rebuild_all
    set_up-IsReady c before g h at start_log e =
        let (u1, g1, e1, rest) =
          >>=-eq-ok declare_topology (λ _. init_publisher >> start_consumer) g h tt e in
        let (u2, g2, e2, e3) = >>=-eq-ok init_publisher (λ _. start_consumer) g1 h tt rest in
        let (c1, t, at1, x1, same1) = declare_topology_ok law g g1 e1 in
        let (c2, p, at2, x2, pub2) = init_publisher_ok law g1 g2 e2 in
        let (c3, q, at3, x3, same3) = start_consumer_ok law g2 h e3 in
        let is_c1 : c1 ≡ c = ground (arith, at, at1) in
        let is_c2 : c2 ≡ c = ground (arith, at, at2, x1.conn) in
        let is_c3 : c3 ≡ c = ground (arith, at, at3, x1.conn, x2.conn) in
        let all = Extends-trans g g2 h _ _ (Extends-trans g g1 g2 _ _ x1 x2) x3 in
        record {
          c = c;
          t = t;
          p = p;
          q = q;
          before = before;
          conn = all.conn ∙ at;
          publish_ch = same3 ∙ pub2;
          log = session_log c c1 c2 c3 t p q before g h is_c1 is_c2 is_c3 start_log all;
        }
