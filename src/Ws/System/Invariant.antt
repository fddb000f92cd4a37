-- ===== src/Ws/System/Invariant.antt =====
-- What holds of a server process at every step.
use im_system.Common.{ℕ, ◌+◌, Text, ◌≡◌, ◌≢◌, arith, if◌then◌else◌, ◌==◌, some, none, false}
use im_system.Common.{◌++◌, [], length, pos, List, ◌∙◌, sym, Bool, inl, inr}
use im_system.Common.Dict.{lookup, insert, Distinct, lookup-insert, insert-Distinct}
use im_system.Backend.{Backend, Store}
use im_system.Ws.State.{ClientRef, Channel, Server, status, with_store, accounted}
use im_system.Ws.Manager.{register, unregister, refresh_online_ttl, close_all}
use im_system.Ws.Client.{crashed, handle_frame}
use im_system.Ws.Client.Frame.{Keeps, handle_frame-Keeps}
use im_system.Ws.Client.Accounting.{IsSafe, Marshals, handle_frame-Settled}
use im_system.Ws.System.Departure.{
  unregister-Distinct, lookup-unregister, unregister_leaves, status-unregister, unregister-Gauge,
  register-Gauge, unregister-Counts, clients-hang_up, metrics-hang_up, status-hang_up,
}
use im_system.Ws.System.Quiet.{
  Counts, write_out-Keeps, write_out-Counts, handler_forward_msg-Keeps, handler_forward_msg-Counts,
  close_all-Keeps, close_all-Counts,
}
use im_system.Router.{handler_forward_msg}
use im_system.Ws.System.{
  connect, hang_up, write_out, Step, connects, sends_frame, pongs, hangs_up, writes_out, kicks_out,
  forwards, others, rebuilds, shuts_down, Reach, here, next,
}

-- `replaced` counts the connections whose user connected again before they were gone.
pub record Inv {B : Backend} (srv : Server B) : Type 0 where
  pub distinct : Distinct srv.clients
  pub safe : IsSafe srv
  pub replaced : ℕ
  pub gauge : srv.metrics.online_users ≡ pos (length srv.clients + replaced)
  pub accounts : accounted srv.metrics ≡ srv.metrics.persisted_success
  pub forwarded : srv.metrics.delivered_cross_instance ≡ srv.metrics.forward_published

module _ {B : Backend} where
  unregister-Inv : (c : ClientRef) (srv : Server B) → Inv srv → Inv (unregister c srv)
  unregister-Inv c srv v = record {
    distinct = unregister-Distinct c srv v.distinct;
    safe = λ u d e.
        let old = v.safe u d (lookup-unregister c d u srv v.distinct e) in
        (old.0, status-unregister d.address c srv ∙ old.1);
    replaced = v.replaced;
    gauge = unregister-Gauge c srv v.replaced v.gauge;
    accounts = (unregister-Counts c srv v.accounts v.forwarded).0;
    forwarded = (unregister-Counts c srv v.accounts v.forwarded).1;
  }

  -- A step that keeps the map and what is open keeps the rest, if it keeps the counts.
  keep-Inv :
      (srv srv' : Server B)
      → ((a : ℕ) → Keeps a srv srv')
      → Counts srv'.metrics
      → Inv srv
      → Inv srv'
  keep-Inv srv srv' k counts v = record {
    distinct = rw ((k 0).0) v.distinct;
    safe = λ u c e. let old = v.safe u c (rw ((k 0).0) at e) in (old.0, (k c.address).2 ∙ old.1);
    replaced = v.replaced;
    gauge = rw ((k 0).0) ((k 0).1 ∙ v.gauge);
    accounts = counts.0;
    forwarded = counts.1;
  }

  status-insert :
      (a b : ℕ) (ch : Channel) (srv : Server B)
      → status a (record srv { channels = insert b ch srv.channels })
        ≡ (if b == a then some (ch.owner, ch.closed) else status a srv)
  unfolding status
  status-insert a b ch srv = ground (arith, lookup-insert b a ch srv.channels)

  connect-IsSafe :
      (c : ClientRef) (srv : Server B)
      → status c.address srv ≡ none
      → IsSafe srv
      → IsSafe (connect c srv)
  unfolding connect register status
  connect-IsSafe c srv fresh safe u d e =
      let ch : Channel = record { owner = c.user_id; buffer = []; closed = false } in
      ground (
        arith,
        lookup-insert c.user_id u c srv.clients,
        lookup-insert c.address d.address ch srv.channels,
        safe u d,
      )

  connect-Inv :
      (c : ClientRef) (srv : Server B) → status c.address srv ≡ none → Inv srv → Inv (connect c srv)
  connect-Inv c srv fresh v = record {
    distinct = unfold connect register in insert-Distinct c.user_id c srv.clients v.distinct;
    safe = connect-IsSafe c srv fresh v.safe;
    replaced = (register-Gauge c srv v.replaced v.gauge).0;
    gauge = unfold connect register in (register-Gauge c srv v.replaced v.gauge).1;
    accounts = unfold connect register in v.accounts;
    forwarded = unfold connect register in v.forwarded;
  }

  hang_up-IsSafe :
      (c : ClientRef) (srv : Server B)
      → status c.address srv ≡ some (c.user_id, false)
      → Distinct srv.clients
      → IsSafe srv
      → IsSafe (hang_up c srv)
  hang_up-IsSafe c srv h k safe u d e =
      let e' : lookup u (unregister c srv).clients ≡ some d = rw (← clients-hang_up c srv) e in
      let old = safe u d (lookup-unregister c d u srv k e') in
      let other : c.address ≢ d.address =
        λ same. unregister_leaves c d srv k (ground (arith, h, old.1, same, e')) (sym same) in
      (old.0, status-hang_up d.address c srv other ∙ old.1)

  hang_up-Inv :
      (c : ClientRef) (srv : Server B)
      → status c.address srv ≡ some (c.user_id, false)
      → Inv srv
      → Inv (hang_up c srv)
  hang_up-Inv c srv h v =
      let w = unregister-Inv c srv v in
      record {
        distinct = rw clients-hang_up w.distinct;
        safe = hang_up-IsSafe c srv h v.distinct v.safe;
        replaced = w.replaced;
        gauge = rw (metrics-hang_up, clients-hang_up) w.gauge;
        accounts = rw metrics-hang_up w.accounts;
        forwarded = rw metrics-hang_up w.forwarded;
      }

  write_out-Inv : (c : ClientRef) (srv : Server B) → Inv srv → Inv (write_out c srv)
  write_out-Inv c srv v =
      keep-Inv srv (write_out c srv) (λ a. write_out-Keeps a c srv)
        (write_out-Counts c srv (v.accounts, v.forwarded)) v

  frame-Inv :
      (marshals : Marshals B) (c : ClientRef) (now : ℕ) (raw : Text) (srv : Server B)
      → (handle_frame c now raw srv).0 ≢ crashed
      → Inv srv
      → Inv (handle_frame c now raw srv).1
  frame-Inv marshals c now raw srv ne v =
      elim (handle_frame-Settled marshals c now raw srv v.safe) [
        | inl (nil, crash) ↦ absurd (ne crash)
        | inr (_, b, f) ↦
            keep-Inv srv (handle_frame c now raw srv).1 (λ a. handle_frame-Keeps a c now raw srv)
              (
                omega (arith, b, f, v.accounts, v.forwarded),
                omega (arith, b, f, v.accounts, v.forwarded),
              )
              v
      ]

  forward-Inv : (raw : Text) (srv : Server B) → Inv srv → Inv (handler_forward_msg raw srv).1
  forward-Inv raw srv v =
      keep-Inv srv (handler_forward_msg raw srv).1 (λ a. handler_forward_msg-Keeps a raw srv)
        (handler_forward_msg-Counts raw srv (v.accounts, v.forwarded)) v

  close_all-Inv : (srv : Server B) → Inv srv → Inv (close_all srv)
  close_all-Inv srv v =
      keep-Inv srv (close_all srv) (λ a. close_all-Keeps a srv)
        (close_all-Counts srv (v.accounts, v.forwarded)) v

  others-Inv : (st : Store B) (srv : Server B) → Inv srv → Inv (with_store srv st)
  others-Inv st srv v = record {
    distinct = v.distinct;
    safe = unfold status in v.safe;
    replaced = v.replaced;
    gauge = v.gauge;
    accounts = v.accounts;
    forwarded = v.forwarded;
  }

  pong-Inv : (c : ClientRef) (srv : Server B) → Inv srv → Inv (refresh_online_ttl c.user_id srv)
  unfolding refresh_online_ttl
  pong-Inv c srv v = others-Inv _ srv v

  kicks-Inv : (ks : List ClientRef) (srv : Server B) → Inv srv → Inv (record srv { kicks = ks })
  kicks-Inv ks srv v = record {
    distinct = v.distinct;
    safe = unfold status in v.safe;
    replaced = v.replaced;
    gauge = v.gauge;
    accounts = v.accounts;
    forwarded = v.forwarded;
  }

  rebuild-Inv :
      (has_channel : Bool) (srv : Server B)
      → Inv srv
      → Inv (record srv { publish_ch = has_channel })
  rebuild-Inv has_channel srv v = record {
    distinct = v.distinct;
    safe = unfold status in v.safe;
    replaced = v.replaced;
    gauge = v.gauge;
    accounts = v.accounts;
    forwarded = v.forwarded;
  }

  -- Every step of a process keeps the invariant.
  pub Step-Inv : Marshals B → {srv srv' : Server B} → Step srv srv' → Inv srv → Inv srv'
  Step-Inv marshals {srv} (connects c fresh) v = connect-Inv c srv fresh v
  Step-Inv marshals {srv} (sends_frame c now raw live ne) v = frame-Inv marshals c now raw srv ne v
  Step-Inv marshals {srv} (pongs c) v = pong-Inv c srv v
  Step-Inv marshals {srv} (hangs_up c live) v = hang_up-Inv c srv live v
  Step-Inv marshals {srv} (writes_out c) v = write_out-Inv c srv v
  Step-Inv marshals {srv} (kicks_out c before after e) v =
      unregister-Inv c (record srv { kicks = before ++ after }) (kicks-Inv (before ++ after) srv v)
  Step-Inv marshals {srv} (forwards raw) v = forward-Inv raw srv v
  Step-Inv marshals {srv} (others st) v = others-Inv st srv v
  Step-Inv marshals {srv} (rebuilds has_channel) v = rebuild-Inv has_channel srv v
  Step-Inv marshals {srv} shuts_down v = close_all-Inv srv v

  pub Reach-Inv : Marshals B → {srv srv' : Server B} → Reach srv srv' → Inv srv → Inv srv'
  Reach-Inv marshals here v = v
  Reach-Inv marshals (next r s) v = Step-Inv marshals s (Reach-Inv marshals r v)
