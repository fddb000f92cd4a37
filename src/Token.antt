-- ===== src/Token.antt =====
-- pkg/jwt/jwt.go: tokens that carry the id of a user. The JWT library is the record JwtLib; time
-- is in nanoseconds since 1970.
use im_system.Common.{
  ℕ, ◌+◌, ◌-◌, ◌*◌, ◌/◌, ◌%◌, ◌^◌, ◌<◌, ◌≡◌, ◌≢◌, Text, Bool, true, Option, none, some, [], Result,
  ok, err, ltb, if◌then◌else◌, unexpected_signing, illegal_id, illegal_token,
}
use im_system.Config.{JwtConfig}

-- The method that the head of a token names.
pub data Method : Type 0 where
  hmac other_method : Method

-- The claim "user_id" of a token that was read: JSON numbers are read as float64.
pub record JwtLib : Type 1 where
  pub Float : Type 0
  pub float_of : ℕ → Float
  -- the conversion uint(f)
  pub uint_of : Float → ℕ
  -- the method of a token, and whether its signature is that of a key
  pub method : Text → Option Method
  pub verifies : Text → Text → Bool
  -- NewWithClaims(HS256, {user_id, exp}) and SignedString
  pub sign : ℕ → ℕ → Text → Result Text
  -- ParseWithClaims at a time in seconds, with the function that finds the key: the field Valid,
  -- and the claim, if it is a number
  pub parse : Text → ℕ → (Method → Result Text) → Result (Bool × Option Float)

pub record IsJwtLib (J : JwtLib) : Type 0 where
  -- float64 has 53 bits of precision
  pub exact : (n : ℕ) → n < 2 ^ 53 → J.uint_of (J.float_of n) ≡ n
  pub sign_some :
      (user_id exp : ℕ) (key token : Text) → J.sign user_id exp key ≡ ok token → token ≢ []
  pub parse_sign :
      (user_id exp now : ℕ) (key token : Text) (find_key : Method → Result Text)
      → J.sign user_id exp key ≡ ok token
      → find_key hmac ≡ ok key
      → now < exp
      → J.parse token now find_key ≡ ok (true, some (J.float_of user_id))
  -- nothing is read from a token unless its signature is that of the key found for its method
  pub parse_ok :
      (token : Text) (now : ℕ) (find_key : Method → Result Text) (v : Bool × Option J.Float)
      → J.parse token now find_key ≡ ok v
      → (m : Method) × (key : Text) × (J.method token ≡ some m)
        × (find_key m ≡ ok key)
        × (J.verifies token key ≡ true)

-- `time.Duration(expire) * time.Hour`, an int64, added to a time.
abbrev pub add_hours : ℕ → ℕ → ℕ
add_hours now expire =
    let d = (expire * 3_600_000_000_000) % 2 ^ 64 in
    if ltb d (2 ^ 63) then now + d else now - (2 ^ 64 - d)

-- Unix()
abbrev pub unix : ℕ → ℕ
unix t = t / 1_000_000_000

module _ (J : JwtLib) (config : JwtConfig) where
  unfoldable pub generate_token : ℕ → ℕ → Result Text
  generate_token user_id now = J.sign user_id (unix (add_hours now config.expire)) config.secret

  abbrev pub find_key : Method → Result Text
  find_key hmac = ok config.secret
  find_key other_method = err unexpected_signing

  abbrev pub claimed : Result (Bool × Option J.Float) → Result ℕ
  claimed (err e) = err e
  claimed (ok (valid, claim)) =
      if valid
      then elim claim [ none ↦ err illegal_id | some f ↦ ok (J.uint_of f) ]
      else err illegal_token

  unfoldable pub parse_token : Text → ℕ → Result ℕ
  parse_token token now = claimed (J.parse token (unix now) find_key)
