-- ===== src/Tests/Web.antt =====
-- A user logs in and opens the WebSocket. A token lists the user, the time and the key here.
use im_system.Common.{
  ℕ, ◌≡◌, refl, arith, bytes, ok, err, ◌∷◌, [], ◌++◌, text_eq, text_eq_refl, subst, ◌<◌, Text,
  Option, none, some, Result, Bool, true, false, ltb, if◌then◌else◌, ◌==◌, Result-cases, inl, inr,
  external, List, zero, suc,
}
use im_system.Common.Decimal.{decimal}
use im_system.Config.{JwtConfig}
use im_system.Model.{User}
use im_system.Accounts.{login}
use im_system.Token.{JwtLib, IsJwtLib, Method, hmac, generate_token, parse_token}
use im_system.Handler.{logged_in, passed, handle_login, auth_middleware, trim_prefix}
use im_system.Handler.Routes.{Request, get, serve, enter, run_endpoint}
use im_system.Handler.Routes.Guarded.{Change, serve-Change, Private, serve-Private}
use im_system.Repository.Users.{get_user_by_username}
use im_system.Router.{publish_forward}
use im_system.LoadTest.Dial
use im_system.LoadTest.Dial.{connect_ws}
use im_system.LoadTest.Served.{served_post, served_ws, HasPaths, load_user_admitted}
use im_system.Ws.State.{Server}
use im_system.Ws.System.{started}
use im_system.Tests.Accounts.{plain}
use im_system.Tests.Offline.{socket}
use im_system.Tests.Fixture.{demo, store}

abbrev signed_with : Text → ℕ → ℕ → Text → ℕ → Result Text → Result (Bool × Option ℕ)
signed_with key user_id exp k now (err e) = err e
signed_with key user_id exp k now (ok found) =
    if text_eq k found
    then (if ltb now exp then ok (true, some user_id) else err (external 2))
    else err (external 1)

abbrev read : Text → ℕ → (Method → Result Text) → Result (Bool × Option ℕ)
read (user_id ∷ exp ∷ k) now find = signed_with [] user_id exp k now (find hmac)
read _ now find = err (external 0)

abbrev method_of : Text → Option Method
method_of (user_id ∷ exp ∷ k) = some hmac
method_of _ = none

abbrev has_key : Text → Text → Bool
has_key (user_id ∷ exp ∷ k) key = text_eq k key
has_key _ key = false

abbrev tokens : JwtLib
tokens = record {
  Float = ℕ;
  float_of = λ n. n;
  uint_of = λ n. n;
  method = method_of;
  verifies = has_key;
  sign = λ user_id exp key. ok (user_id ∷ exp ∷ key);
  parse = read;
}

read_key :
    (token : Text) (now : ℕ) (find : Method → Result Text) (v : Bool × Option ℕ)
    → read token now find ≡ ok v
    → (m : Method) × (key : Text) × (method_of token ≡ some m)
      × (find m ≡ ok key)
      × (has_key token key ≡ true)
read_key [] now find v e = cc
read_key (u ∷ []) now find v e = cc
read_key (u ∷ exp ∷ k) now find v e = elim (Result-cases (find hmac)) [
  | inr (x, f) ↦ absurd (ground (arith, f, e))
  | inl (key, f) ↦ (hmac, key, refl, f, ground (arith, f, e))
]

read_signed :
    (u exp now : ℕ) (key token : Text) (find : Method → Result Text)
    → ok (u ∷ exp ∷ key) ≡ ok token
    → find hmac ≡ ok key
    → now < exp
    → read token now find ≡ ok (true, some u)
read_signed u exp now key token find e f fresh =
    let is_token : u ∷ exp ∷ key ≡ token = ground (arith, e) in
    subst (λ t. read t now find ≡ ok (true, some u)) is_token
      (ground (arith, f, fresh, text_eq_refl key))

tokens-IsJwtLib : IsJwtLib tokens
tokens-IsJwtLib = record {
  exact = λ n h. refl;
  sign_some = λ u exp key token e empty. ground (arith, e, empty);
  parse_sign = λ u exp now key token find e f fresh. read_signed u exp now key token find e f fresh;
  parse_ok = read_key;
}

abbrev config : JwtConfig
config = record { secret = bytes "k"; expire = 72 }

abbrev ann_form : User
ann_form = record {
  id = 0;
  username = bytes "ann";
  password = bytes "hash";
  nickname = [];
  avatar_url = [];
  created_at = 0;
}

abbrev ann_token : Text
ann_token = 1 ∷ 259_200 ∷ bytes "k"

ann_logs_in : handle_login demo plain tokens config (ok ann_form) 0 store ≡ logged_in ann_token 1
unfolding handle_login login generate_token get_user_by_username text_eq
ann_logs_in = refl

abbrev idle : Server demo
idle = started store (bytes "a:1") publish_forward

abbrev visit : Request (List Text)
visit = record {
  verb = get;
  path = bytes "/private/ws";
  authorization = bytes "Bearer " ++ ann_token;
  form = err (external 0);
  upgrade = ok [];
}

serve-Change_example :
    Change demo plain tokens tokens-IsJwtLib config socket 5 0 10 visit idle
      (serve demo plain tokens socket config 5 0 10 visit idle).1
serve-Change_example =
    serve-Change demo plain tokens tokens-IsJwtLib config socket 5 0 10 visit idle

serve-Private_example :
    Private demo plain tokens tokens-IsJwtLib config socket 5 0 10 visit idle
      (serve demo plain tokens socket config 5 0 10 visit idle)
serve-Private_example =
    serve-Private demo plain tokens tokens-IsJwtLib config socket 5 0 10 visit idle (bytes "/ws")
      refl

-- The token lets a client of user 1 in.
ann_enters : (auth_middleware tokens config (bytes "Bearer " ++ ann_token) 5) ≡ passed 1
unfolding auth_middleware trim_prefix parse_token text_eq
ann_enters = refl

-- The text from the slash on that follows `n` others.
abbrev from_slash : ℕ → Text → Text
from_slash n [] = []
from_slash zero (a ∷ s) = let later = from_slash zero s in if a == 47 then a ∷ s else later
from_slash (suc n) (a ∷ s) =
    let past = from_slash n s in let later = from_slash (suc n) s in if a == 47 then past else later

abbrev path_of : Text → Text
path_of = from_slash 2

http_paths : HasPaths path_of (bytes "http://im1") 8080
unfolding decimal
http_paths rest = refl

ws_paths : HasPaths path_of (bytes "ws://im1") 8081
unfolding decimal
ws_paths rest = refl

ann_logged_in :
    Dial.login
      (served_post tokens tokens-IsJwtLib config demo plain socket path_of 0 0 10 idle)
      (bytes "http://im1")
      8080
      (bytes "ann")
      (bytes "hash")
    ≡ ok (ann_token, 1)
unfolding Dial.login serve enter run_endpoint decimal handle_login login generate_token
    get_user_by_username text_eq
ann_logged_in = refl

load_user_admitted_example :
    (login demo plain (bytes "ann") (bytes "hash") store ≡ ok 1)
    × (connect_ws
          (served_ws tokens tokens-IsJwtLib config demo plain socket path_of 5 0 10 [] idle)
          (bytes "http://im1")
          8081
          ann_token
        ≡ ok (record { address = 10; user_id = 1 }))
load_user_admitted_example =
    load_user_admitted tokens tokens-IsJwtLib config demo plain socket path_of 0 5 0 0 10 10 8080
      8081 1 (bytes "http://im1") (bytes "ann") (bytes "hash") ann_token [] idle idle http_paths
      ws_paths ann_logged_in (omega arith) (omega arith)
