-- ===== src/Handler/Routes.antt =====
-- cmd/server/main.go: the routes of the HTTP server. A request is answered by the endpoint that was
-- registered for its method and path, behind AuthMiddleware in the group /private.
pub mod Entry
pub mod Guarded
use im_system.Common.{
  ℕ, Text, bytes, text_eq, ◌++◌, ◌&&◌, Bool, true, false, Option, none, some, List, [], ◌∷◌, Result,
  if◌then◌else◌, find?,
}
use im_system.Config.{JwtConfig}
use im_system.Model.{User}
use im_system.Backend.{Backend}
use im_system.Accounts.{Crypt}
use im_system.Token.{JwtLib}
use im_system.Ws.State.{ClientRef, Server, with_store}
use im_system.Ws.Offline.{Conn}
use im_system.Handler.{
  Reply, Setting, uint, aborted, passed, Opening, refused_by, opened, handle_register, handle_login,
  auth_middleware, ws_connect,
}

pub data Verb : Type 0 where
  get post another : Verb

-- What is registered: the handler of Prometheus, a function of main that answers with a fixed
-- message, or a handler of internal/handler.
pub data Endpoint : Type 0 where
  metrics hello register_page login_page profile register login ws : Endpoint

pub record Route : Type 0 where
  pub verb : Verb
  pub path : Text
  pub guarded : Bool
  pub endpoint : Endpoint

-- r.Group(prefix), with AuthMiddleware in use or not, and what is registered in it.
abbrev pub group : Text → Bool → List (Verb × Text × Endpoint) → List Route
group prefix guarded [] = []
group prefix guarded ((verb, path, endpoint) ∷ rest) =
    record { verb = verb; path = prefix ++ path; guarded = guarded; endpoint = endpoint }
    ∷ group prefix guarded rest

abbrev pub public_routes : List Route
public_routes = group (bytes "/public") false (
    (get, bytes "/", hello)
    ∷ (get, bytes "/register", register_page)
    ∷ (get, bytes "/login", login_page)
    ∷ (post, bytes "/register", register)
    ∷ (post, bytes "/login", login)
    ∷ [])

abbrev pub private_routes : List Route
private_routes =
    group (bytes "/private") true ((post, bytes "/profile", profile) ∷ (get, bytes "/ws", ws) ∷ [])

abbrev pub routes : List Route
routes =
    record { verb = get; path = bytes "/metrics"; guarded = false; endpoint = metrics }
    ∷ (public_routes ++ private_routes)

abbrev pub same_verb : Verb → Verb → Bool
same_verb get get = true
same_verb post post = true
same_verb _ _ = false

-- gin looks up a path without parameters as it stands.
abbrev pub find_route : Verb → Text → Option Route
find_route verb path = find? (λ r. same_verb r.verb verb && text_eq r.path path) routes

-- A request, with what ShouldBind gives for its body and Upgrade for its connection.
pub record Request (W : Type 0) : Type 0 where
  pub verb : Verb
  pub path : Text
  pub authorization : Text
  pub form : Result User
  pub upgrade : Result W

-- `unrouted` is gin's answer where nothing is registered, `page` a fixed message with status 200,
-- `switched` a WebSocket.
pub data Answer (W : Type 0) : Type 0 where
  unrouted exposition : Answer W
  page : Endpoint → Answer W
  replied : Reply → Answer W
  switched : ClientRef → W → Answer W

abbrev pub opening_answer : {W : Type 0} → Opening W → Answer W
opening_answer (refused_by r) = replied r
opening_answer (opened c w) = switched c w

module _ (B : Backend) (K : Crypt) (J : JwtLib) (S : Conn) (config : JwtConfig) where
  -- An endpoint at a time, with the salt of bcrypt and the address of a new client at hand; `setting`
  -- is "user_id" of the gin context.
  unfoldable pub run_endpoint :
      Endpoint → Option Setting → ℕ → ℕ → ℕ → Request S.State → Server B → Answer S.State × Server B
  run_endpoint metrics setting now salt address req srv = (exposition, srv)
  run_endpoint hello setting now salt address req srv = (page hello, srv)
  run_endpoint register_page setting now salt address req srv = (page register_page, srv)
  run_endpoint login_page setting now salt address req srv = (page login_page, srv)
  run_endpoint profile setting now salt address req srv = (page profile, srv)
  run_endpoint register setting now salt address req srv =
      let (r, st) = handle_register B K J config req.form salt srv.store in
      (replied r, with_store srv st)
  run_endpoint login setting now salt address req srv =
      (replied (handle_login B K J config req.form now srv.store), srv)
  run_endpoint ws setting now salt address req srv =
      let (o, srv') = ws_connect B S setting address req.upgrade srv in (opening_answer o, srv')

  unfoldable pub enter : Route → ℕ → ℕ → ℕ → Request S.State → Server B → Answer S.State × Server B
  enter r now salt address req srv =
      if r.guarded
      then elim (auth_middleware J config req.authorization now) [
        | aborted reply ↦ (replied reply, srv)
        | passed user_id ↦ run_endpoint r.endpoint (some (uint user_id)) now salt address req srv
      ]
      else run_endpoint r.endpoint none now salt address req srv

  unfoldable pub serve : ℕ → ℕ → ℕ → Request S.State → Server B → Answer S.State × Server B
  serve now salt address req srv = elim (find_route req.verb req.path) [
    | none ↦ (unrouted, srv)
    | some r ↦ enter r now salt address req srv
  ]
