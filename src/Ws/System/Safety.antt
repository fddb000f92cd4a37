-- ===== src/Ws/System/Safety.antt =====
-- A process that has just started stays safe.
use im_system.Common.{
  ℕ, Text, ◌≡◌, ◌≢◌, refl, arith, Result, pos, length, ◌+◌, Option-cases, Result-cases, inl, inr,
  ◌⊎◌, false,
}
use im_system.Common.Dict.{lookup}
use im_system.Backend.{Backend, Store}
use im_system.Router.{handler_forward_msg, count_received}
use im_system.Ws.State.{ClientRef, Server, status, accounted}
use im_system.Ws.Manager.{panicked, deliver_total_msg, deliver_total_msg_by_user_id}
use im_system.Ws.Client.{crashed, handle_frame}
use im_system.Ws.Client.Accounting.{IsSafe, Marshals, handle_frame-Settled}
use im_system.Ws.System.{Reach, started}
use im_system.Ws.System.Invariant.{Inv, Reach-Inv}

-- A frame panics next only on a nil publishCh, and no forwarded message does; the counters and the
-- gauge agree.
abbrev pub IsSound : {B : Backend} → Server B → Type 0
IsSound srv =
    ((c : ClientRef) (now : ℕ) (raw : Text)
      → (srv.publish_ch ≡ false) ⊎ ((handle_frame c now raw srv).0 ≢ crashed))
    × ((raw : Text) → (handler_forward_msg raw srv).0 ≢ panicked)
    × (accounted srv.metrics ≡ srv.metrics.persisted_success)
    × (srv.metrics.delivered_cross_instance ≡ srv.metrics.forward_published)
    × ((n : ℕ) × (srv.metrics.online_users ≡ pos (length srv.clients + n)))

module _ {B : Backend} where
  pub started-Inv :
      (st : Store B) (node : Text) (fn : ℕ → Text → Text → Store B → Result (Unit {0}) × Store B)
      → Inv (started st node fn)
  started-Inv st node fn = record {
    distinct = tt;
    safe = λ u c e. unfold lookup in absurd (ground arith);
    replaced = 0;
    gauge = refl;
    accounts = refl;
    forwarded = refl;
  }

  deliver_safe :
      (user_id : ℕ) (msg : Text) (srv : Server B)
      → IsSafe srv
      → (deliver_total_msg_by_user_id user_id msg srv).0 ≢ panicked
  unfolding deliver_total_msg_by_user_id deliver_total_msg status
  deliver_safe user_id msg srv safe = elim (Option-cases (lookup user_id srv.clients)) [
    | inl gone ↦ ground (arith, gone)
    | inr (c, found) ↦ ground (arith, found, safe user_id c found)
  ]

  pub forward_safe :
      (raw : Text) (srv : Server B) → IsSafe srv → (handler_forward_msg raw srv).0 ≢ panicked
  unfolding handler_forward_msg status
  forward_safe raw srv safe = elim (Result-cases (B.forward_codec.unmarshal raw)) [
    | inl (m, e) ↦
        let srv1 = record srv { metrics = count_received srv.metrics } in
        ground (arith, e, deliver_safe m.target_user_id m.payload srv1 safe)
    | inr (x, e) ↦ ground (arith, e)
  ]

  frame_safe :
      (marshals : Marshals B) (c : ClientRef) (now : ℕ) (raw : Text) (srv : Server B)
      → IsSafe srv
      → (srv.publish_ch ≡ false) ⊎ ((handle_frame c now raw srv).0 ≢ crashed)
  frame_safe marshals c now raw srv safe = elim (handle_frame-Settled marshals c now raw srv safe) [
    | inl (nil, crash) ↦ inl nil
    | inr b ↦ inr (b.0)
  ]

  -- Where every CollectMessage can be marshalled: from the start of a process on, whatever its
  -- goroutines do, one operation at a step, WatchAndReconnect making publishCh nil or a channel among
  -- them: a frame panics in the next step only if publishCh is nil then, and no forwarded message
  -- panics; the messages counted as stored are as many as those counted as delivered or failed; those
  -- counted as published are as many as those delivered across instances; and the gauge of online
  -- users is never below the number of clients in the map.
  pub started_safe :
      Marshals B
      → (st : Store B) (node : Text) (fn : ℕ → Text → Text → Store B → Result (Unit {0}) × Store B)
        {srv : Server B}
      → Reach (started st node fn) srv
      → IsSound srv
  started_safe marshals st node fn {srv} r =
      let v = Reach-Inv marshals r (started-Inv st node fn) in
      (
        λ c now raw. frame_safe marshals c now raw srv v.safe,
        λ raw. forward_safe raw srv v.safe,
        v.accounts,
        v.forwarded,
        (v.replaced, v.gauge),
      )
