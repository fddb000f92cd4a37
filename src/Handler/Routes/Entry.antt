-- ===== src/Handler/Routes/Entry.antt =====
-- How a request gets through to the endpoint of a route, or does not.
use im_system.Common.{
  ℕ, bytes, ◌≡◌, refl, arith, true, false, some, none, inl, inr, Result-cases, Bool-cases, text_eq,
  [],
}
use im_system.Config.{JwtConfig}
use im_system.Backend.{Backend}
use im_system.Accounts.{Crypt}
use im_system.Token.{parse_token, JwtLib, IsJwtLib}
use im_system.Ws.State.{Server}
use im_system.Ws.Offline.{Conn}
use im_system.Handler.{
  uint, aborted, auth_middleware, json, Note, not_logged_in, token_invalid, Reply, trim_prefix,
}
use im_system.Handler.Access.{IsSigned, auth_IsSigned, Passage-cases}
use im_system.Handler.Routes.{Route, Request, replied, run_endpoint, enter}

module _ (B : Backend) (K : Crypt) (J : JwtLib) (law : IsJwtLib J) (config : JwtConfig) (S : Conn)
    (now salt address : ℕ) (req : Request S.State) (srv : Server B) where
  -- How a route is entered.
  pub data Entry (r : Route) : Type 0 where
    denied :
        (note : Note)
        → r.guarded ≡ true
        → enter B K J S config r now salt address req srv ≡ (replied (json 401 note), srv)
        → Entry r
    entered :
        r.guarded ≡ false
        → enter B K J S config r now salt address req srv
          ≡ run_endpoint B K J S config r.endpoint none now salt address req srv
        → Entry r
    admits :
        (user_id : ℕ)
        → r.guarded ≡ true
        → IsSigned J law config req.authorization now user_id
        → enter B K J S config r now salt address req srv
          ≡ run_endpoint B K J S config r.endpoint (some (uint user_id)) now salt address req srv
        → Entry r

  abort_code :
      (r : Reply)
      → auth_middleware J config req.authorization now ≡ aborted r
      → (note : Note) × (r ≡ json 401 note)
  unfolding auth_middleware
  abort_code r e =
      let token = trim_prefix req.authorization (bytes "Bearer ") in
      elim (Bool-cases (text_eq token [])) [
        | inl empty ↦ (not_logged_in, ground (arith, empty, e))
        | inr full ↦ elim (Result-cases (parse_token J config token now)) [
          | inr (x, f) ↦ (token_invalid, ground (arith, full, f, e))
          | inl (u, f) ↦ absurd (ground (arith, full, f, e))
        ]
      ]

  pub Entry-all : (r : Route) → Entry r
  unfolding enter
  Entry-all r = elim (Bool-cases r.guarded) [
    | inr free ↦ entered free (rw (free, enter) refl)
    | inl held ↦ elim (Passage-cases (auth_middleware J config req.authorization now)) [
      | inl (reply, e) ↦
          let (note, is_401) = abort_code reply e in
          denied note held (rw (held, enter) (rw (e) (rw is_401 refl)))
      | inr (user_id, e) ↦
          admits user_id held (auth_IsSigned J law config req.authorization now user_id e)
            (rw (held, enter) (rw e refl))
    ]
  ]
