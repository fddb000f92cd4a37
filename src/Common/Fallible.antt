-- ===== src/Common/Fallible.antt =====
-- Go's `(value, error)` pairs and the errors that the code distinguishes.
use Prim.Native.Nat.{ℕ}
use mathlib.Core.Path.{◌≡◌, refl}
use mathlib.Core.Logic.{◌⊎◌, inl, inr}
use native.Mathlib.Omega.{arith}
use mathlib.Core.Option.{Option, none, some}
use mathlib.Core.Bool.{Bool, true, false}

-- `external n` is an error of a library or a service that the code only passes on or logs.
pub data Error : Type 0 where
  record_not_found duplicated_key redis_nil : Error
  user_not_found no_conv_record zero_rows_updated : Error
  username_taken empty_password short_password not_registered wrong_password : Error
  publish_time_out publish_nack connection_not_ready reconnect_exhausted : Error
  forward_not_registered bad_digits out_of_range : Error
  unexpected_signing illegal_id illegal_token : Error
  external : ℕ → Error

pub data Result {ℓ} (A : Type ℓ) : Type ℓ where
  ok : A → Result A
  err : Error → Result A

pub Result-cases {ℓ} :
    {A : Type ℓ} (r : Result A) → ((a : A) × (r ≡ ok a)) ⊎ ((e : Error) × (r ≡ err e))
Result-cases (ok a) = inl (a, refl)
Result-cases (err e) = inr (e, refl)

abbrev pub is_ok {ℓ} : {A : Type ℓ} → Result A → Bool
is_ok (ok a) = true
is_ok (err e) = false

-- `errors.Is(err, gorm.ErrRecordNotFound)` and its like.
abbrev pub is_record_not_found : Error → Bool
is_record_not_found record_not_found = true
is_record_not_found _ = false

abbrev pub is_duplicated_key : Error → Bool
is_duplicated_key duplicated_key = true
is_duplicated_key _ = false

abbrev pub is_redis_nil : Error → Bool
is_redis_nil redis_nil = true
is_redis_nil _ = false

abbrev pub is_user_not_found : Error → Bool
is_user_not_found user_not_found = true
is_user_not_found _ = false

abbrev pub is_publish_nack : Error → Bool
is_publish_nack publish_nack = true
is_publish_nack _ = false

pub Found-cases {ℓ} :
    {A : Type ℓ} (r : Result (Option A))
    → ((e : Error) × (r ≡ err e)) ⊎ (r ≡ ok none) ⊎ ((a : A) × (r ≡ ok (some a)))
Found-cases (err e) = inl (e, refl)
Found-cases (ok none) = inr (inl refl)
Found-cases (ok (some a)) = inr (inr (a, refl))

-- A call that reports success is the pair that the laws speak of.
pub result_pair {ℓ κ} :
    {A : Type ℓ} {S : Type κ} (r : Result A × S) (o : Result A) → r.0 ≡ o → r ≡ (o, r.1)
result_pair (o', s) o e = rw e

pub record_not_found_of : (e : Error) → is_record_not_found e ≡ true → e ≡ record_not_found
record_not_found_of e h = ground arith
