-- ===== src/Ws/Loops.antt =====
-- The loops of internal/ws/client.go and internal/router/subscribe.go as a whole, each on what it
-- receives until its end. Logging and write deadlines are left out.
pub mod Ended
use im_system.Common.{
  ℕ, suc, Text, Bool, true, false, List, [], ◌∷◌, Result, ok, err, if◌then◌else◌,
}
use im_system.Backend.{Backend}
use im_system.Ws.State.{ClientRef, Server}
use im_system.Ws.Manager.{Delivery, sent, refused, panicked, refresh_online_ttl}
use im_system.Ws.Client.{
  Outcome, unknown_path, offline, local, cross_instance, crashed, handle_frame,
}
use im_system.Ws.Offline.{Conn}
use im_system.Ws.System.{hang_up}
use im_system.Router.{handler_forward_msg}

-- What a client sends: a message, which is handled at a time, or a pong.
pub data Incoming : Type 0 where
  message : ℕ → Text → Incoming
  pong : Incoming

-- A goroutine returns, or a panic ends its process.
pub data Ending : Type 0 where
  returned died : Ending

abbrev pub is_crashed : Outcome → Bool
is_crashed crashed = true
is_crashed unknown_path = false
is_crashed offline = false
is_crashed local = false
is_crashed cross_instance = false

abbrev pub is_panicked : Delivery → Bool
is_panicked panicked = true
is_panicked sent = false
is_panicked refused = false

module _ {B : Backend} where
  -- ListenMsg, up to the error of ReadMessage and the deferred function.
  unfoldable pub listen_msg : ClientRef → List Incoming → Server B → Ending × Server B
  listen_msg c [] srv = (returned, hang_up c srv)
  listen_msg c (pong ∷ rest) srv = listen_msg c rest (refresh_online_ttl c.user_id srv)
  listen_msg c (message now raw ∷ rest) srv =
      let (o, srv') = handle_frame c now raw srv in
      let (e, srv'') = listen_msg c rest srv' in if is_crashed o then (died, srv') else (e, srv'')

  -- StartSubscribe, on the payloads that come until StopSubscribe closes the channel.
  unfoldable pub start_subscribe : List Text → Server B → Ending × Server B
  start_subscribe [] srv = (returned, srv)
  start_subscribe (raw ∷ rest) srv =
      let (d, srv') = handler_forward_msg raw srv in
      let (e, srv'') = start_subscribe rest srv' in
      if is_panicked d then (died, srv') else (e, srv'')

-- DeliverMsg, on the messages that its channel gives until it is closed.
unfoldable pub deliver_msg : (K : Conn) → List Text → K.State → K.State
deliver_msg K [] w = w
deliver_msg K (msg ∷ rest) w =
    let (r, w') = K.write msg w in elim r [ err e ↦ w' | ok u ↦ deliver_msg K rest w' ]

-- pingLoop, on what WriteControl returns at one tick after another: how often it was called.
abbrev pub ping_loop : List (Result (Unit {0})) → ℕ
ping_loop [] = 0
ping_loop (err e ∷ rest) = 1
ping_loop (ok u ∷ rest) = suc (ping_loop rest)
