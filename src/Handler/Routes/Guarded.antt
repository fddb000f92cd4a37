-- ===== src/Handler/Routes/Guarded.antt =====
-- What a request can change, and what is let into the group /private.
use im_system.Common.{
  ℕ, Text, bytes, ◌≡◌, ◌≢◌, refl, sym, ap, ◌∙◌, arith, true, false, some, none, ok, inl, inr, ◌++◌,
  Result-cases, Option-cases, find?-Among, find?-sound, Option, text_eq, text_eq_sound, ◌&&◌, All,
  All-Among, ◌∷◌,
}
use im_system.Config.{JwtConfig}
use im_system.Model.{User}
use im_system.Backend.{Backend}
use im_system.Accounts.{Crypt, register_user}
use im_system.Token.{JwtLib, IsJwtLib}
use im_system.Ws.State.{Server, with_store}
use im_system.Ws.System.{connect}
use im_system.Ws.Offline.{Conn}
use im_system.Handler.{Setting, uint, handle_register, ws_connect, json, Note}
use im_system.Handler.Access.{IsSigned}
use im_system.Handler.Routes.Entry.{Entry-all, denied, entered, admits}
use im_system.Handler.Routes.{
  Verb, Endpoint, get, post, another, Route, Request, register, ws, Answer, unrouted, replied,
  routes, same_verb, find_route, run_endpoint, enter, serve,
}

same_verb_sound : (a b : Verb) → same_verb a b ≡ true → a ≡ b
same_verb_sound get get e = refl
same_verb_sound post post e = refl
same_verb_sound get post e = cc
same_verb_sound get another e = cc
same_verb_sound post get e = cc
same_verb_sound post another e = cc
same_verb_sound another b e = cc

-- Tells the paths of the groups apart.
abbrev third : Text → ℕ
third (a ∷ b ∷ c ∷ s) = c
third _ = 0

module _ (B : Backend) (K : Crypt) (J : JwtLib) (law : IsJwtLib J) (config : JwtConfig) (S : Conn)
    (now salt address : ℕ) (req : Request S.State) (srv : Server B) where
  -- What becomes of the server: nothing, an attempt to register, or a client of the user whom a
  -- signed token names.
  pub data Change (srv' : Server B) : Type 0 where
    unchanged : srv' ≡ srv → Change srv'
    registers :
        (user : User)
        → req.verb ≡ post
        → req.path ≡ bytes "/public/register"
        → req.form ≡ ok user
        → srv' ≡ with_store srv (register_user B K user.username user.password salt srv.store).1
        → Change srv'
    connects :
        (user_id : ℕ)
        → req.verb ≡ get
        → req.path ≡ bytes "/private/ws"
        → IsSigned J law config req.authorization now user_id
        → srv' ≡ connect (record { address = address; user_id = user_id }) srv
        → Change srv'

  quiet :
      (r : Route)
      → ((setting : Option Setting)
          → (run_endpoint B K J S config r.endpoint setting now salt address req srv).1 ≡ srv)
      → Change (enter B K J S config r now salt address req srv).1
  quiet r same = elim (Entry-all B K J law config S now salt address req srv r) [
    | denied note held e ↦ unchanged (ap (λ a. a.1) e)
    | entered free e ↦ unchanged (ap (λ a. a.1) e ∙ same none)
    | admits user_id held signed e ↦ unchanged (ap (λ a. a.1) e ∙ same (some (uint user_id)))
  ]

  registered-Change :
      (setting : Option Setting)
      → req.verb ≡ post
      → req.path ≡ bytes "/public/register"
      → Change (run_endpoint B K J S config register setting now salt address req srv).1
  unfolding run_endpoint handle_register
  registered-Change setting is_post at_register = elim (Result-cases req.form) [
    | inr (x, e) ↦ unchanged (rw (e, run_endpoint) refl)
    | inl (user, e) ↦ registers user is_post at_register e (rw (e, run_endpoint) refl)
  ]

  opened-Change :
      (user_id : ℕ)
      → req.verb ≡ get
      → req.path ≡ bytes "/private/ws"
      → IsSigned J law config req.authorization now user_id
      → Change (run_endpoint B K J S config ws (some (uint user_id)) now salt address req srv).1
  unfolding run_endpoint ws_connect
  opened-Change user_id is_get at_ws signed = elim (Result-cases req.upgrade) [
    | inr (x, e) ↦ unchanged (rw (e, run_endpoint) refl)
    | inl (socket, e) ↦ connects user_id is_get at_ws signed (rw (e, run_endpoint) refl)
  ]

  -- A request for this route makes one of the changes.
  abbrev Ends : Route → Type 0
  Ends r =
      req.verb ≡ r.verb
      → req.path ≡ r.path
      → Change (enter B K J S config r now salt address req srv).1

  ws-Ends :
      (r : Route)
      → r.guarded ≡ true
      → r.verb ≡ get
      → r.path ≡ bytes "/private/ws"
      → r.endpoint ≡ ws
      → Ends r
  ws-Ends r is_held is_get at_ws is_ws v p =
      elim (Entry-all B K J law config S now salt address req srv r) [
        | denied note held e ↦ unchanged (ap (λ a. a.1) e)
        | entered free e ↦ absurd (ground (arith, free, is_held))
        | admits user_id held signed e ↦
            rw (e, is_ws) (opened-Change user_id (v ∙ is_get) (p ∙ at_ws) signed)
      ]

  register-Ends :
      (r : Route)
      → r.guarded ≡ false
      → r.verb ≡ post
      → r.path ≡ bytes "/public/register"
      → r.endpoint ≡ register
      → Ends r
  register-Ends r is_free is_post at_register is_register v p =
      elim (Entry-all B K J law config S now salt address req srv r) [
        | denied note held e ↦ unchanged (ap (λ a. a.1) e)
        | entered free e ↦
            rw (e, is_register) (registered-Change none (v ∙ is_post) (p ∙ at_register))
        | admits user_id held signed e ↦ absurd (ground (arith, held, is_free))
      ]

  routes-Ends : All Ends routes
  unfolding run_endpoint
  routes-Ends = (
    λ v p. quiet _ (λ s. refl),
    (
      λ v p. quiet _ (λ s. refl),
      (
        λ v p. quiet _ (λ s. refl),
        (
          λ v p. quiet _ (λ s. refl),
          (
            register-Ends _ refl refl refl refl,
            (
              λ v p. quiet _ (λ s. refl),
              (λ v p. quiet _ (λ s. refl), (ws-Ends _ refl refl refl refl, tt)),
            ),
          ),
        ),
      ),
    ),
  )

  -- With the JWT library as documented: a request, whatever it is, leaves the server as it is; or it
  -- is POST /public/register with a form, and the store is what Register of internal/service leaves
  -- for the form's name and password; or it is GET /private/ws with a token that is signed with the
  -- configured key by an HMAC method, and a client of the user id that the token names connects.
  pub serve-Change : Change (serve B K J S config now salt address req srv).1
  unfolding serve
  serve-Change =
      let test = λ (r : Route). same_verb r.verb req.verb && text_eq r.path req.path in
      elim (Option-cases (find_route req.verb req.path)) [
        | inl gone ↦ unchanged (rw (gone, serve) refl)
        | inr (r, e) ↦
            let passed = find?-sound test routes r e in
            rw (e, serve)
              (All-Among Ends r routes routes-Ends (find?-Among test routes r e)
                (sym (same_verb_sound r.verb req.verb (ground (arith, passed))))
                (sym (text_eq_sound r.path req.path (ground (arith, passed)))))
      ]

  -- What the group /private answers.
  pub data Private (a : Answer S.State × Server B) : Type 0 where
    not_found : a ≡ (unrouted, srv) → Private a
    refused : (note : Note) → a ≡ (replied (json 401 note), srv) → Private a
    allowed :
        (user_id : ℕ) (endpoint : Endpoint)
        → IsSigned J law config req.authorization now user_id
        → a ≡ run_endpoint B K J S config endpoint (some (uint user_id)) now salt address req srv
        → Private a

  abbrev Guards : Route → Type 0
  Guards r =
      (rest : Text)
      → req.path ≡ bytes "/private" ++ rest
      → req.path ≡ r.path
      → Private (enter B K J S config r now salt address req srv)

  guarded-Guards : (r : Route) → r.guarded ≡ true → Guards r
  guarded-Guards r is_held rest at_private p =
      elim (Entry-all B K J law config S now salt address req srv r) [
        | denied note held e ↦ refused note e
        | entered free e ↦ absurd (ground (arith, free, is_held))
        | admits user_id held signed e ↦ allowed user_id r.endpoint signed e
      ]

  elsewhere : (r : Route) → third r.path ≢ 114 → Guards r
  elsewhere r other rest at_private p = absurd (other (ap third (sym p ∙ at_private)))

  routes-Guards : All Guards routes
  routes-Guards = (
    elsewhere _ (omega arith),
    (
      elsewhere _ (omega arith),
      (
        elsewhere _ (omega arith),
        (
          elsewhere _ (omega arith),
          (
            elsewhere _ (omega arith),
            (elsewhere _ (omega arith), (guarded-Guards _ refl, (guarded-Guards _ refl, tt))),
          ),
        ),
      ),
    ),
  )

  -- With the JWT library as documented: a path that begins with /private is answered as unknown or
  -- with status 401, and nothing changes, or the header's token is signed with the configured key by
  -- an HMAC method, and an endpoint runs with the user id that the token names.
  pub serve-Private :
      (rest : Text)
      → req.path ≡ bytes "/private" ++ rest
      → Private (serve B K J S config now salt address req srv)
  unfolding serve
  serve-Private rest at_private =
      let test = λ (r : Route). same_verb r.verb req.verb && text_eq r.path req.path in
      elim (Option-cases (find_route req.verb req.path)) [
        | inl gone ↦ not_found (rw (gone, serve) refl)
        | inr (r, e) ↦
            rw (e, serve)
              (All-Among Guards r routes routes-Guards (find?-Among test routes r e) rest at_private
                (sym (text_eq_sound r.path req.path (ground (arith, find?-sound test routes r e)))))
      ]
