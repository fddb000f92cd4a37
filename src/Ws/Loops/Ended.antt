-- ===== src/Ws/Loops/Ended.antt =====
-- How the loops of a process come to their end, and what ListenMsg leaves then.
use im_system.Common.{
  Text, ◌≡◌, ◌≢◌, refl, arith, some, false, true, List, [], ◌∷◌, Among, inl, inr, ◌∙◌, Option-cases,
}
use im_system.Common.Dict.{lookup, Distinct, lookup-insert}
use im_system.Backend.{Backend}
use im_system.Ws.State.{ClientRef, Server, status}
use im_system.Ws.Manager.{
  panicked, sent, refused, Delivery, get_client_by_user_id, refresh_online_ttl,
}
use im_system.Ws.Client.{
  Outcome, crashed, unknown_path, offline, local, cross_instance, handle_frame,
}
use im_system.Ws.Client.Frame.{handle_frame-Keeps}
use im_system.Ws.Client.Accounting.{Marshals, handle_frame_returns}
use im_system.Router.{handler_forward_msg}
use im_system.Ws.System.{Reach, here, next, sends_frame, pongs, hangs_up, forwards, hang_up}
use im_system.Ws.System.Departure.{unregister_leaves, clients-hang_up, channels-unregister}
use im_system.Ws.System.Invariant.{Inv, Step-Inv}
use im_system.Ws.System.Safety.{forward_safe}
use im_system.Ws.Loops.{
  Incoming, message, pong, returned, is_crashed, is_panicked, listen_msg, start_subscribe,
}

is_crashed-not : (o : Outcome) → o ≢ crashed → is_crashed o ≡ false
is_crashed-not crashed ne = absurd (ne refl)
is_crashed-not unknown_path ne = refl
is_crashed-not offline ne = refl
is_crashed-not local ne = refl
is_crashed-not cross_instance ne = refl

is_panicked-not : (d : Delivery) → d ≢ panicked → is_panicked d ≡ false
is_panicked-not panicked ne = absurd (ne refl)
is_panicked-not sent ne = refl
is_panicked-not refused ne = refl

module _ {B : Backend} where
  Reach-trans : {s t u : Server B} → Reach s t → Reach t u → Reach s u
  Reach-trans r here = r
  Reach-trans r (next q st) = next (Reach-trans r q) st

  -- What a client leaves: its connection and channel are closed, and it is not the current one.
  pub record HasLeft (c : ClientRef) (srv : Server B) : Type 0 where
    pub closed_conn : Among c.address srv.closed_conns
    pub closed_channel : status c.address srv ≡ some (c.user_id, true)
    pub not_current :
        (d : ClientRef) → get_client_by_user_id c.user_id srv ≡ some d → d.address ≢ c.address

  hang_up-HasLeft :
      (c : ClientRef) (srv : Server B)
      → status c.address srv ≡ some (c.user_id, false)
      → Distinct srv.clients
      → HasLeft c (hang_up c srv)
  unfolding hang_up status get_client_by_user_id
  hang_up-HasLeft c srv live d = record {
    closed_conn = ground (arith);
    closed_channel = elim (Option-cases (lookup c.address srv.channels)) [
      | inl gone ↦ absurd (ground (arith, gone, live))
      | inr (ch, found) ↦ ground (
        arith,
        found,
        live,
        channels-unregister c srv,
        lookup-insert c.address c.address (record ch { closed = true }) srv.channels,
      )
    ];
    not_current = λ e at same. unregister_leaves c e srv d (rw (← clients-hang_up c srv) at) same;
  }

  module _ (marshals : Marshals B) where
    -- Where every CollectMessage can be marshalled, the invariant of the process holds and publishCh
    -- is a channel: whatever messages and pongs a connected client sends, with no other goroutine in
    -- between, ListenMsg handles them without a panic and returns; all of it is a run of the steps of the process; in
    -- the end the connection and the channel of the client are closed, and it is not the current
    -- client of its user.
    pub listen_msg_ends :
        (c : ClientRef) (incoming : List Incoming) (srv : Server B)
        → Inv srv
        → status c.address srv ≡ some (c.user_id, false)
        → srv.publish_ch ≡ true
        → let (e, srv') = listen_msg c incoming srv in
          (e ≡ returned) × Reach srv srv' × HasLeft c srv'
    unfolding listen_msg
    listen_msg_ends c [] srv v live has =
        (refl, next here (hangs_up c live), hang_up-HasLeft c srv live v.distinct)
    listen_msg_ends c (pong ∷ rest) srv v live has =
        let (e, r, left) =
          listen_msg_ends c rest (refresh_online_ttl c.user_id srv) (Step-Inv marshals (pongs c) v)
            (unfold status refresh_online_ttl in live) (unfold refresh_online_ttl in has) in
        (e, Reach-trans (next here (pongs c)) r, left)
    listen_msg_ends c (message now raw ∷ rest) srv v live has =
        let ne = handle_frame_returns marshals c now raw srv v.safe has in
        let st = sends_frame c now raw live ne in
        let srv' = (handle_frame c now raw srv).1 in
        let k = handle_frame-Keeps c.address c now raw srv in
        let (e, r, left) =
          listen_msg_ends c rest srv' (Step-Inv marshals st v) (k.2 ∙ live) (k.4 ∙ has) in
        rw (is_crashed-not _ ne, listen_msg) (e, Reach-trans (next here st) r, left)

    -- Where every CollectMessage can be marshalled, and the invariant of the process holds: whatever
    -- Redis publishes, StartSubscribe handles it without a panic.
    start_subscribe_ends :
        (raws : List Text) (srv : Server B)
        → Inv srv
        → let (e, srv') = start_subscribe raws srv in (e ≡ returned) × Reach srv srv'
    unfolding start_subscribe
    start_subscribe_ends [] srv v = (refl, here)
    start_subscribe_ends (raw ∷ rest) srv v =
        let st = forwards raw in
        let (e, r) =
          start_subscribe_ends rest (handler_forward_msg raw srv).1 (Step-Inv marshals st v) in
        rw (is_panicked-not _ (forward_safe raw srv v.safe), start_subscribe)
          (e, Reach-trans (next here st) r)
