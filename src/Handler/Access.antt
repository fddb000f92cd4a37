-- ===== src/Handler/Access.antt =====
-- Who is let in by a token: one from Login is accepted, and one that is accepted is signed.
use im_system.Common.{
  ℕ, Text, bytes, ◌<◌, ◌^◌, ◌≡◌, ◌≢◌, ◌++◌, [], refl, ap, ◌∙◌, arith, some, true, ok, Result-cases,
  Bool-cases, inl, inr, ◌⊎◌, text_eq, text_eq_sound,
}
use im_system.Config.{JwtConfig}
use im_system.Model.{User}
use im_system.Backend.{Backend, Store}
use im_system.Accounts.{Crypt, login}
use im_system.Token.{
  JwtLib, IsJwtLib, Method, hmac, other_method, find_key, unix, add_hours, generate_token,
  parse_token,
}
use im_system.Handler.{
  trim_prefix, Passage, Reply, logged_in, passed, aborted, admitted, handle_login, auth_middleware,
}

pub Passage-cases :
    (p : Passage) → ((r : Reply) × (p ≡ aborted r)) ⊎ ((user_id : ℕ) × (p ≡ passed user_id))
Passage-cases (aborted r) = inl (r, refl)
Passage-cases (passed user_id) = inr (user_id, refl)

module _ (J : JwtLib) (law : IsJwtLib J) (config : JwtConfig) where
  generated_parses :
      (user_id issued now : ℕ) (token : Text)
      → generate_token J config user_id issued ≡ ok token
      → user_id < 2 ^ 53
      → unix now < unix (add_hours issued config.expire)
      → parse_token J config token now ≡ ok user_id
  unfolding generate_token parse_token
  generated_parses user_id issued now token made small fresh =
      let exp = unix (add_hours issued config.expire) in
      let read =
        law.parse_sign user_id exp (unix now) config.secret token (find_key J config) made refl
          fresh in
      rw (read, parse_token) (ap ok (law.exact user_id small))

  bearer_admitted :
      (user_id now : ℕ) (token : Text)
      → token ≢ []
      → parse_token J config token now ≡ ok user_id
      → auth_middleware J config (bytes "Bearer " ++ token) now ≡ passed user_id
  unfolding auth_middleware trim_prefix
  bearer_admitted user_id now token some_text read = elim (Bool-cases (text_eq token [])) [
    | inl empty ↦ absurd (some_text (text_eq_sound token [] empty))
    | inr full ↦ rw (full, auth_middleware) (ap (admitted J config) read)
  ]

  -- With the JWT library as documented, and an id below 2 ^ 53: if Login answers with a token, it
  -- is for the id that service.Login gave, and until the token expires AuthMiddleware lets the
  -- header "Bearer " with this token pass as that id.
  pub login_opens :
      (B : Backend) (K : Crypt) (user : User) (issued now user_id : ℕ) (token : Text) (st : Store B)
      → handle_login B K J config (ok user) issued st ≡ logged_in token user_id
      → user_id < 2 ^ 53
      → unix now < unix (add_hours issued config.expire)
      → (login B K user.username user.password st ≡ ok user_id)
        × (auth_middleware J config (bytes "Bearer " ++ token) now ≡ passed user_id)
  unfolding handle_login
  login_opens B K user issued now user_id token st e small fresh =
      elim (Result-cases (login B K user.username user.password st)) [
        | inr (x, f) ↦ absurd (ground (arith, f, e))
        | inl (u, f) ↦ elim (Result-cases (generate_token J config u issued)) [
          | inr (x, g) ↦ absurd (ground (arith, f, g, e))
          | inl (t, g) ↦
              let is_u : u ≡ user_id = ground (arith, f, g, e) in
              let is_t : t ≡ token = ground (arith, f, g, e) in
              let made : generate_token J config user_id issued ≡ ok token =
                rw (← is_u, ← is_t) g in
              (
                rw (← is_u) f,
                bearer_admitted user_id now token
                    (law.sign_some user_id (unix (add_hours issued config.expire)) config.secret
                      token (unfold generate_token in made))
                    (generated_parses user_id issued now token made small fresh),
              )
        ]
      ]

  -- The token of a header is signed with the configured key, by an HMAC method, and names `user_id`.
  pub record IsSigned (header : Text) (now user_id : ℕ) : Type 0 where
    pub by_hmac : J.method (trim_prefix header (bytes "Bearer ")) ≡ some hmac
    pub signed : J.verifies (trim_prefix header (bytes "Bearer ")) config.secret ≡ true
    pub named : parse_token J config (trim_prefix header (bytes "Bearer ")) now ≡ ok user_id

  parsed_by_hmac :
      (token : Text) (now user_id : ℕ)
      → parse_token J config token now ≡ ok user_id
      → (J.method token ≡ some hmac) × (J.verifies token config.secret ≡ true)
  unfolding parse_token
  parsed_by_hmac token now user_id e =
      elim (Result-cases (J.parse token (unix now) (find_key J config))) [
        | inr (x, f) ↦ absurd (ground (arith, f, e))
        | inl (v, f) ↦ of_key (law.parse_ok token (unix now) (find_key J config) v f)
      ]
    where
      of_key :
          (m : Method) × (key : Text) × (J.method token ≡ some m)
            × (find_key J config m ≡ ok key)
            × (J.verifies token key ≡ true)
          → (J.method token ≡ some hmac) × (J.verifies token config.secret ≡ true)
      of_key (hmac, key, named, found, good) = (named, ground (arith, found, good))
      of_key (other_method, key, named, found, good) = absurd (ground (arith, found))

  pub auth_IsSigned :
      (header : Text) (now user_id : ℕ)
      → auth_middleware J config header now ≡ passed user_id
      → IsSigned header now user_id
  unfolding auth_middleware
  auth_IsSigned header now user_id e =
      let token = trim_prefix header (bytes "Bearer ") in
      elim (Bool-cases (text_eq token [])) [
        | inl empty ↦ absurd (ground (arith, empty, e))
        | inr full ↦ elim (Result-cases (parse_token J config token now)) [
          | inr (x, f) ↦ absurd (ground (arith, full, f, e))
          | inl (u, f) ↦
              let named : parse_token J config token now ≡ ok user_id =
                f ∙ ap ok (ground (arith, full, f, e)) in
              let (by_hmac, signed) = parsed_by_hmac token now user_id named in
              record { by_hmac = by_hmac; signed = signed; named = named }
        ]
      ]
