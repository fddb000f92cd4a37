-- ===== src/LoadTest/Served.antt =====
-- A user of the load test against the server: cmd/loadtest/main.go on top of the handlers.
use im_system.Common.{
  ℕ, Text, ap, ◌∙◌, ◌<◌, ◌^◌, ◌≡◌, refl, arith, [], ok, err, Result, Result-cases, inl, inr,
  external, ◌++◌, bytes, text_eq,
}
use im_system.Config.{JwtConfig}
use im_system.Model.{User}
use im_system.Backend.{Backend}
use im_system.Accounts.{Crypt}
use im_system.Accounts
use im_system.Token.{JwtLib, IsJwtLib, unix, add_hours, generate_token}
use im_system.Ws.State.{ClientRef, Server}
use im_system.Ws.Offline.{Conn}
use im_system.Handler.{json, logged_in, handle_login, passed, auth_middleware, ws_connect}
use im_system.Handler.Routes.{
  Answer, Request, unrouted, exposition, page, replied, switched, get, post, serve, enter,
  run_endpoint,
}
use im_system.Common.Decimal.{decimal}
use im_system.Handler.Access.{login_opens}
use im_system.LoadTest.Dial.{login, connect_ws, replace_first}

-- A LoginRequest as the server binds it.
abbrev pub bound : Text → Text → User
bound username password = record {
  id = 0;
  username = username;
  password = password;
  nickname = [];
  avatar_url = [];
  created_at = 0;
}

-- An answer as the client decodes it: a status, and the fields token and user_id.
abbrev pub decoded : {W : Type 0} → Answer W → ℕ × Text × ℕ
decoded unrouted = (404, [], 0)
decoded exposition = (200, [], 0)
decoded (page e) = (200, [], 0)
decoded (replied (json code note)) = (code, [], 0)
decoded (replied (logged_in token user_id)) = (200, token, user_id)
decoded (switched c w) = (101, [], 0)

-- The dialer gives a connection only if the server has upgraded.
abbrev pub dialled : {W : Type 0} → Answer W → Result ClientRef
dialled unrouted = err (external 0)
dialled exposition = err (external 0)
dialled (page e) = err (external 0)
dialled (replied r) = err (external 0)
dialled (switched c w) = ok c

-- What net/url finds as the path of a URL that continues `base` with a port.
abbrev pub HasPaths : (Text → Text) → Text → ℕ → Type 0
HasPaths path_of base port =
    (rest : Text)
    → path_of (base ++ (bytes ":" ++ (decimal port ++ (bytes "/" ++ rest)))) ≡ bytes "/" ++ rest

module _ (J : JwtLib) (law : IsJwtLib J) (config : JwtConfig) (B : Backend) (K : Crypt) (S : Conn)
    (path_of : Text → Text) where
  abbrev form_request : Text → Text → Text → Request S.State
  form_request path username password = record {
    verb = post;
    path = path;
    authorization = [];
    form = ok (bound username password);
    upgrade = err (external 0);
  }

  abbrev handshake : Text → Text → S.State → Request S.State
  handshake path header socket = record {
    verb = get;
    path = path;
    authorization = header;
    form = err (external 0);
    upgrade = ok socket;
  }

  -- A POST of a name and a password to the server at a time.
  abbrev pub served_post : ℕ → ℕ → ℕ → Server B → Text → Text → Text → Result (ℕ × Text × ℕ)
  served_post issued salt address srv url username password = ok (
      decoded
        (serve B K J S config issued salt address (form_request (path_of url) username password)
          srv).0)

  -- The handshake of a WebSocket at a time, for a client at an address.
  abbrev pub served_ws : ℕ → ℕ → ℕ → S.State → Server B → Text → Text → Result ClientRef
  served_ws now salt address socket srv url header =
      dialled (serve B K J S config now salt address (handshake (path_of url) header socket) srv).0

  posted :
      (issued salt address : ℕ) (username password : Text) (srv : Server B)
      → (serve B K J S config issued salt address
          (form_request (bytes "/public/login") username password)
          srv).0
        ≡ replied (handle_login B K J config (ok (bound username password)) issued srv.store)
  unfolding serve enter run_endpoint text_eq
  posted issued salt address username password srv = refl

  shaken :
      (now salt address user_id : ℕ) (header : Text) (socket : S.State) (srv : Server B)
      → auth_middleware J config header now ≡ passed user_id
      → dialled
          (serve B K J S config now salt address
            (handshake (bytes "/private/ws") header socket)
            srv).0
        ≡ ok (record { address = address; user_id = user_id })
  unfolding serve enter run_endpoint text_eq ws_connect
  shaken now salt address user_id header socket srv e = rw (e, enter) refl

  login_answer :
      (issued salt address port user_id : ℕ) (http_url username password token : Text)
      (srv : Server B)
      → HasPaths path_of http_url port
      → login (served_post issued salt address srv) http_url port username password
        ≡ ok (token, user_id)
      → handle_login B K J config (ok (bound username password)) issued srv.store
        ≡ logged_in token user_id
  unfolding handle_login login
  login_answer issued salt address port user_id http_url username password token srv paths e =
      let form = λ (path : Text). form_request path username password in
      let shown =
        ap (λ path. (serve B K J S config issued salt address (form path) srv).0)
          (paths (bytes "public/login"))
        ∙ posted issued salt address username password srv in
      elim (Result-cases (Accounts.login B K username password srv.store)) [
        | inr (x, f) ↦ absurd (ground (arith, shown, f, e))
        | inl (u, f) ↦ elim (Result-cases (generate_token J config u issued)) [
          | inr (x, g) ↦ absurd (ground (arith, shown, f, g, e))
          | inl (t, g) ↦ ground (arith, shown, f, g, e)
        ]
      ]

  -- With the JWT library as documented, an id below 2 ^ 53, and URLs whose path is what follows the
  -- port: if login of the load test, sent to the routes of main, reports a token and a user id for a
  -- name and a password, then service.Login knows the user by that id, and until the token expires
  -- connectWS with this token, sent to the routes of main, opens a connection for that id.
  pub load_user_admitted :
      (issued now salt salt' address address' port ws_port user_id : ℕ)
      (http_url username password token : Text) (socket : S.State) (before srv : Server B)
      → HasPaths path_of http_url port
      → HasPaths path_of (replace_first (bytes "http") (bytes "ws") http_url) ws_port
      → login (served_post issued salt address before) http_url port username password
        ≡ ok (token, user_id)
      → user_id < 2 ^ 53
      → unix now < unix (add_hours issued config.expire)
      → (Accounts.login B K username password before.store ≡ ok user_id)
        × (connect_ws (served_ws now salt' address' socket srv) http_url ws_port token
            ≡ ok (record { address = address'; user_id = user_id }))
  unfolding connect_ws
  load_user_admitted issued now salt salt' address address' port ws_port user_id http_url username
        password token socket before srv paths ws_paths e small fresh =
      let answer =
        login_answer issued salt address port user_id http_url username password token before paths
          e in
      let (known, admitted) =
        login_opens J law config B K (bound username password) issued now user_id token before.store
          answer small fresh in
      (
        known,
        ap
              (λ path.
                dialled
                  (serve B K J S config now salt' address'
                    (handshake path (bytes "Bearer " ++ token) socket) srv).0)
              (ws_paths (bytes "private/ws"))
            ∙ shaken now salt' address' user_id (bytes "Bearer " ++ token) socket srv admitted,
      )
