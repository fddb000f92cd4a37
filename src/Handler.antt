-- ===== src/Handler.antt =====
-- internal/handler/user.go: the HTTP handlers, as functions to a reply. What gin binds from a request
-- and the upgrade to a WebSocket are arguments; logging is left out.
pub mod Access
pub mod Routes
use im_system.Common.{
  ℕ, Text, bytes, text_eq, ◌==◌, Bool, Option, none, some, [], ◌∷◌, Result, Error, ok, err,
  if◌then◌else◌,
}
use im_system.Config.{JwtConfig}
use im_system.Model.{User}
use im_system.Backend.{Backend, Store}
use im_system.Accounts.{Crypt, register_user, login}
use im_system.Token.{JwtLib, generate_token, parse_token}
use im_system.Ws.State.{ClientRef, Server}
use im_system.Ws.System.{connect}
use im_system.Ws.Offline.{Conn, deliver_unread_msg}

-- The message of a reply: one of its own of a handler, or the text of an error.
pub data Note : Type 0 where
  not_bound registered token_failed not_logged_in token_invalid token_void user_id_invalid
        not_upgraded :
      Note
  of_error : Error → Note

-- A status and a message, or status 200 with a token and the id of the user.
pub data Reply : Type 0 where
  json : ℕ → Note → Reply
  logged_in : Text → ℕ → Reply

-- AuthMiddleware aborts with a reply, or sets "user_id" and goes on.
pub data Passage : Type 0 where
  aborted : Reply → Passage
  passed : ℕ → Passage

-- A value of a gin context, by its type.
pub data Setting : Type 0 where
  uint : ℕ → Setting
  of_other_type : Setting

-- What WsConnect comes to: a reply, or a client, with its connection after the unread messages.
pub data Opening (W : Type 0) : Type 0 where
  refused_by : Reply → Opening W
  opened : ClientRef → W → Opening W

abbrev strip : Text → Text → Option Text
strip [] s = some s
strip (a ∷ p) [] = none
strip (a ∷ p) (b ∷ s) = let rest = strip p s in if a == b then rest else none

-- strings.TrimPrefix
unfoldable pub trim_prefix : Text → Text → Text
trim_prefix s p = elim (strip p s) [ none ↦ s | some rest ↦ rest ]

abbrev pub register_reply : Result (Unit {0}) → Reply
register_reply (ok u) = json 200 registered
register_reply (err e) = json 400 (of_error e)

abbrev pub token_reply : ℕ → Result Text → Reply
token_reply user_id (ok token) = logged_in token user_id
token_reply user_id (err e) = json 400 token_failed

module _ (B : Backend) (K : Crypt) (J : JwtLib) (config : JwtConfig) where
  -- Register, on what ShouldBind gives.
  unfoldable pub handle_register : Result User → ℕ → Store B → Reply × Store B
  handle_register bound salt st = elim bound [
    | err e ↦ (json 400 not_bound, st)
    | ok user ↦
        let (r, st') = register_user B K user.username user.password salt st in
        (register_reply r, st')
  ]

  -- Login
  unfoldable pub handle_login : Result User → ℕ → Store B → Reply
  handle_login bound now st = elim bound [
    | err e ↦ json 400 not_bound
    | ok user ↦ elim (login B K user.username user.password st) [
      | err e ↦ json 400 (of_error e)
      | ok user_id ↦ token_reply user_id (generate_token J config user_id now)
    ]
  ]

module _ (J : JwtLib) (config : JwtConfig) where
  abbrev pub admitted : Result ℕ → Passage
  admitted (ok user_id) = passed user_id
  admitted (err e) = aborted (json 401 token_invalid)

  -- AuthMiddleware, on the header "Authorization", which is empty if there is none.
  unfoldable pub auth_middleware : Text → ℕ → Passage
  auth_middleware header now =
      let token = trim_prefix header (bytes "Bearer ") in
      if text_eq token []
      then aborted (json 401 not_logged_in)
      else admitted (parse_token J config token now)

module _ (B : Backend) (S : Conn) where
  abbrev open_client : ClientRef → S.State → Server B → Opening S.State × Server B
  open_client c socket srv =
      let srv' = connect c srv in
      (opened c (deliver_unread_msg B S c.user_id srv'.store socket), srv')

  -- WsConnect, up to the goroutine of ListenMsg and the loop of DeliverMsg. `address` is that of the
  -- new client.
  unfoldable pub ws_connect :
      Option Setting → ℕ → Result S.State → Server B → Opening S.State × Server B
  unfolding deliver_unread_msg
  ws_connect none address upgraded srv = (refused_by (json 400 token_void), srv)
  ws_connect (some of_other_type) address upgraded srv =
      (refused_by (json 400 user_id_invalid), srv)
  ws_connect (some (uint user_id)) address upgraded srv = elim upgraded [
    | err e ↦ (refused_by (json 400 not_upgraded), srv)
    | ok socket ↦ open_client (record { address = address; user_id = user_id }) socket srv
  ]
