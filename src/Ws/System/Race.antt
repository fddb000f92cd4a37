-- ===== src/Ws/System/Race.antt =====
-- handleChatMsg and DeliverTotalMsgByUserID look a client up under the lock and send to its channel
-- after they have released it: what the deferred function of ListenMsg does in between.
use im_system.Common.{ℕ, Text, ◌≡◌, ◌≢◌, arith, some, false, true, Option-cases, inl, inr, ◌∙◌}
use im_system.Common.Dict.{lookup, lookup-insert}
use im_system.Ws.State.{ClientRef, Server, status}
use im_system.Ws.Manager.{
  panicked, get_client_by_user_id, deliver_total_msg, deliver_total_msg_by_user_id,
}
use im_system.Ws.System.{hang_up, close_send}
use im_system.Ws.System.Departure.{status-unregister}
use im_system.Backend.{Backend}

module _ {B : Backend} where
  status-close_send :
      (c : ClientRef) (srv : Server B) (u : ℕ)
      → status c.address srv ≡ some (u, false)
      → status c.address (close_send c srv) ≡ some (u, true)
  unfolding status
  status-close_send c srv u e = elim (Option-cases (lookup c.address srv.channels)) [
    | inl gone ↦ absurd (ground (arith, gone))
    | inr (ch, found) ↦
        ground (
          arith,
          found,
          lookup-insert c.address c.address (record ch { closed = true }) srv.channels,
        )
  ]

  status-hang_up :
      (c : ClientRef) (srv : Server B) (u : ℕ)
      → status c.address srv ≡ some (u, false)
      → status c.address (hang_up c srv) ≡ some (u, true)
  unfolding hang_up status
  status-hang_up c srv u e = status-close_send c _ u (status-unregister c.address c srv ∙ e)

  deliver_open :
      (c : ClientRef) (msg : Text) (srv : Server B) (u : ℕ)
      → status c.address srv ≡ some (u, false)
      → (deliver_total_msg c msg srv).0 ≢ panicked
  unfolding deliver_total_msg status
  deliver_open c msg srv u e = ground arith

  deliver_closed :
      (c : ClientRef) (msg : Text) (srv : Server B) (u : ℕ)
      → status c.address srv ≡ some (u, true)
      → (deliver_total_msg c msg srv).0 ≡ panicked
  unfolding deliver_total_msg status
  deliver_closed c msg srv u e = ground arith

  -- A message is for a user whose client is in the map and has an open channel. If it is sent at
  -- once, the sender does not panic; if that client hangs up between the lookup and the send, the
  -- sender panics.
  pub hang_up_panics_sender :
      (c : ClientRef) (msg : Text) (srv : Server B)
      → get_client_by_user_id c.user_id srv ≡ some c
      → status c.address srv ≡ some (c.user_id, false)
      → ((deliver_total_msg_by_user_id c.user_id msg srv).0 ≢ panicked)
        × ((deliver_total_msg c msg (hang_up c srv)).0 ≡ panicked)
  unfolding deliver_total_msg_by_user_id
  hang_up_panics_sender c msg srv found e = (
    rw (found, deliver_total_msg_by_user_id) (deliver_open c msg srv c.user_id e),
    deliver_closed c msg (hang_up c srv) c.user_id (status-hang_up c srv c.user_id e),
  )
