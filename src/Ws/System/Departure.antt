-- ===== src/Ws/System/Departure.antt =====
-- What Register and Unregister do to the map, the channels and the gauge.
use im_system.Common.{ℕ, suc, ◌+◌, ◌≡◌, ◌≢◌, true, arith, some}
use im_system.Common.{Option-cases, inl, inr, length, pos}
use im_system.Common.Dict.{
  lookup, Distinct, lookup-insert, lookup-erase, erase-Distinct, length-insert_new,
  length-insert_old, length-erase,
}
use im_system.Backend.{Backend}
use im_system.Ws.State.{ClientRef, Server, status, accounted}
use im_system.Ws.Manager.{register, unregister}
use im_system.Ws.System.{hang_up}
use im_system.Ws.System.Quiet.{Counts}

module _ {B : Backend} where
  pub unregister-Distinct :
      (c : ClientRef) (srv : Server B) → Distinct srv.clients → Distinct (unregister c srv).clients
  unfolding unregister
  unregister-Distinct c srv d = ground (arith, erase-Distinct c.user_id srv.clients d)

  -- What is in the map after Unregister was in it before, and is not the client that left.
  pub lookup-unregister :
      (c d : ClientRef) (u : ℕ) (srv : Server B)
      → Distinct srv.clients
      → lookup u (unregister c srv).clients ≡ some d
      → lookup u srv.clients ≡ some d
  unfolding unregister
  lookup-unregister c d u srv k e = ground (arith, lookup-erase c.user_id u srv.clients k)

  pub unregister_leaves :
      (c d : ClientRef) (srv : Server B)
      → Distinct srv.clients
      → lookup c.user_id (unregister c srv).clients ≡ some d
      → d.address ≡ c.address
      → ⊥
  unfolding unregister
  unregister_leaves c d srv k e same =
      ground (arith, lookup-erase c.user_id c.user_id srv.clients k)

  pub status-unregister :
      (a : ℕ) (c : ClientRef) (srv : Server B) → status a (unregister c srv) ≡ status a srv
  unfolding unregister status
  status-unregister a c srv = ground arith

  abbrev pub Gauge : Server B → ℕ → Type 0
  Gauge srv n = srv.metrics.online_users ≡ pos (length srv.clients + n)

  pub unregister-Gauge :
      (c : ClientRef) (srv : Server B) (n : ℕ) → Gauge srv n → Gauge (unregister c srv) n
  unfolding unregister
  unregister-Gauge c srv n g = elim (Option-cases (lookup c.user_id srv.clients)) [
    | inl gone ↦ ground (arith, gone)
    | inr (x, found) ↦ ground (arith, found, length-erase c.user_id srv.clients x found)
  ]

  -- A new user raises the gauge and the map alike; a user who was connected, the gauge alone.
  pub register-Gauge :
      (c : ClientRef) (srv : Server B) (n : ℕ) → Gauge srv n → (m : ℕ) × Gauge (register c srv) m
  unfolding register
  register-Gauge c srv n g = elim (Option-cases (lookup c.user_id srv.clients)) [
    | inl gone ↦ (n, ground (arith, gone, length-insert_new c.user_id c srv.clients gone))
    | inr (x, found) ↦
        (suc n, ground (arith, found, length-insert_old c.user_id c srv.clients x found))
  ]

  pub unregister-Counts :
      (c : ClientRef) (srv : Server B)
      → accounted srv.metrics ≡ srv.metrics.persisted_success
      → srv.metrics.delivered_cross_instance ≡ srv.metrics.forward_published
      → Counts (unregister c srv).metrics
  unfolding unregister
  unregister-Counts c srv p q = ground arith

  pub clients-hang_up :
      (c : ClientRef) (srv : Server B) → (hang_up c srv).clients ≡ (unregister c srv).clients
  unfolding hang_up
  clients-hang_up c srv = ground arith

  pub metrics-hang_up :
      (c : ClientRef) (srv : Server B) → (hang_up c srv).metrics ≡ (unregister c srv).metrics
  unfolding hang_up
  metrics-hang_up c srv = ground arith

  pub channels-unregister :
      (c : ClientRef) (srv : Server B) → (unregister c srv).channels ≡ srv.channels
  unfolding unregister
  channels-unregister c srv = ground arith

  -- Only the channel of the client that left is closed.
  pub status-hang_up :
      (a : ℕ) (c : ClientRef) (srv : Server B)
      → c.address ≢ a
      → status a (hang_up c srv) ≡ status a srv
  unfolding hang_up status
  status-hang_up a c srv ne = elim (Option-cases (lookup c.address srv.channels)) [
    | inl gone ↦ ground (arith, gone, channels-unregister c srv)
    | inr (ch, found) ↦ ground (
      arith,
      found,
      channels-unregister c srv,
      lookup-insert c.address a (record ch { closed = true }) srv.channels,
    )
  ]
