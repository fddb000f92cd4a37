-- ===== src/Common/Decimal.antt =====
-- `%d` of a `uint`, and `strconv.ParseUint(s, 10, 32)`, on byte strings.
use Prim.Native.Nat.{ℕ, zero, suc, ◌+◌, ◌-◌, ◌*◌, ◌/◌, ◌%◌, ◌^◌, ◌≤◌, ◌<◌}
use mathlib.Core.Path.{◌≡◌, refl, ap, sym, ◌∙◌}
use mathlib.Core.Bool.{Bool, true, false, ◌&&◌}
use mathlib.Core.List.{[], ◌∷◌, ◌++◌}
use native.Mathlib.Omega.{arith}
use im_system.Common.Tests.{◌==◌, ==_iff, ==_refl, bytes, text_eq, text_eq_refl, text_eq_sound}
use im_system.Common.Tests.{Text, ltb, leb, if◌then◌else◌, Bool-cases}
use mathlib.Core.Logic.{inl, inr, ◌≢◌}
use im_system.Common.Lists.{All}
use im_system.Common.Fallible.{Result, ok, err, bad_digits, out_of_range}

-- The fuel bounds the number of digits.
decimal_digits : ℕ → ℕ → Text
decimal_digits zero n = []
decimal_digits (suc fuel) n =
    let front = decimal_digits fuel (n / 10) in
    if ltb n 10 then (48 + n) ∷ [] else front ++ (48 + n % 10) ∷ []

unfoldable pub decimal : ℕ → Text
unfolding decimal_digits
decimal n = decimal_digits (suc n) n

abbrev pub is_digit : ℕ → Bool
is_digit c = leb 48 c && leb c 57

parse_digits : ℕ → Text → Result ℕ
parse_digits acc [] = ok acc
parse_digits acc (c ∷ s) =
    let next = acc * 10 + (c - 48) in
    let rest = parse_digits next s in
    if is_digit c then (if ltb next (2 ^ 32) then rest else err out_of_range) else err bad_digits

unfoldable pub parse_uint : Text → Result ℕ
unfolding parse_digits
parse_uint [] = err bad_digits
parse_uint (c ∷ s) = parse_digits 0 (c ∷ s)

-- The number that a text of digits stands for, read on from `acc`.
value_from : ℕ → Text → ℕ
value_from acc [] = acc
value_from acc (c ∷ s) = value_from (acc * 10 + (c - 48)) s

value_from-snoc :
    (acc : ℕ) (s : Text) (c : ℕ) → value_from acc (s ++ c ∷ []) ≡ value_from acc s * 10 + (c - 48)
unfolding value_from
value_from-snoc acc [] c = refl
value_from-snoc acc (d ∷ s) c = value_from-snoc (acc * 10 + (d - 48)) s c

value_from-le : (acc : ℕ) (s : Text) → acc ≤ value_from acc s
unfolding value_from
value_from-le acc [] = omega arith
value_from-le acc (c ∷ s) = omega (arith, value_from-le (acc * 10 + (c - 48)) s)

abbrev pub IsDigits : Text → Type 0
IsDigits s = All (λ c. is_digit c ≡ true) s

IsDigits-snoc : (s : Text) (c : ℕ) → IsDigits s → is_digit c ≡ true → IsDigits (s ++ c ∷ [])
IsDigits-snoc [] c h d = (d, tt)
IsDigits-snoc (x ∷ s) c h d = (h.0, IsDigits-snoc s c h.1 d)

value-decimal_digits : (fuel n : ℕ) → n < fuel → value_from 0 (decimal_digits fuel n) ≡ n
unfolding decimal_digits value_from
value-decimal_digits zero n h = absurd (omega arith)
value-decimal_digits (suc fuel) n h = ground (
  arith,
  value-decimal_digits fuel (n / 10),
  value_from-snoc 0 (decimal_digits fuel (n / 10)) (48 + n % 10),
)

decimal_digits-IsDigits : (fuel n : ℕ) → IsDigits (decimal_digits fuel n)
unfolding decimal_digits
decimal_digits-IsDigits zero n = tt
decimal_digits-IsDigits (suc fuel) n = elim (Bool-cases (ltb n 10)) [
  | inl one ↦ rw one (ground arith, tt)
  | inr more ↦ rw more (
      IsDigits-snoc (decimal_digits fuel (n / 10)) (48 + n % 10)
        (decimal_digits-IsDigits fuel (n / 10)) (ground arith))
]

pub decimal-IsDigits : (n : ℕ) → IsDigits (decimal n)
unfolding decimal
decimal-IsDigits n = decimal_digits-IsDigits (suc n) n

value-decimal : (n : ℕ) → value_from 0 (decimal n) ≡ n
unfolding decimal
value-decimal n = value-decimal_digits (suc n) n (omega arith)

pub decimal-injective : (m n : ℕ) → decimal m ≡ decimal n → m ≡ n
decimal-injective m n e = sym (value-decimal m) ∙ ap (value_from 0) e ∙ value-decimal n

parse_digits-value :
    (acc : ℕ) (s : Text)
    → IsDigits s
    → value_from acc s < 2 ^ 32
    → parse_digits acc s ≡ ok (value_from acc s)
unfolding parse_digits value_from
parse_digits-value acc [] d h = refl
parse_digits-value acc (c ∷ s) d h = ground (
  arith,
  parse_digits-value (acc * 10 + (c - 48)) s d.1,
  value_from-le (acc * 10 + (c - 48)) s,
  d.0,
)

parse_uint-digits :
    (s : Text) → IsDigits s → s ≢ [] → value_from 0 s < 2 ^ 32 → parse_uint s ≡ ok (value_from 0 s)
unfolding parse_uint
parse_uint-digits [] d ne h = absurd (ne refl)
parse_uint-digits (c ∷ s) d ne h = parse_digits-value 0 (c ∷ s) d h

snoc-ne-nil : (s : Text) (c : ℕ) → s ++ c ∷ [] ≢ []
snoc-ne-nil [] c e = cc
snoc-ne-nil (x ∷ s) c e = cc

pub decimal-ne-nil : (n : ℕ) → decimal n ≢ []
unfolding decimal
decimal-ne-nil n e = ground (arith, snoc-ne-nil (decimal_digits n (n / 10)) (48 + n % 10))

-- What `%d` writes is read back, below 2 ^ 32.
pub parse_uint-decimal : (n : ℕ) → n < 2 ^ 32 → parse_uint (decimal n) ≡ ok n
parse_uint-decimal n h =
    parse_uint-digits (decimal n) (decimal-IsDigits n) (decimal-ne-nil n) (rw value-decimal h)
    ∙ ap ok (value-decimal n)

-- Two texts of digits before a separator are equal if the whole texts are.
pub split_digits :
    (s t u v : Text) (c : ℕ)
    → IsDigits s
    → IsDigits t
    → is_digit c ≡ false
    → s ++ c ∷ u ≡ t ++ c ∷ v
    → (s ≡ t) × (u ≡ v)
split_digits [] [] u v c ds dt n e = ground arith
split_digits [] (b ∷ t) u v c ds dt n e = absurd (ground arith)
split_digits (a ∷ s) [] u v c ds dt n e = absurd (ground arith)
split_digits (a ∷ s) (b ∷ t) u v c ds dt n e = ground (arith, split_digits s t u v c ds.1 dt.1 n)

-- Numbers are equal as their decimals are.
pub text_eq-decimal : (m n : ℕ) → text_eq (decimal m) (decimal n) ≡ (m == n)
text_eq-decimal m n = elim (Bool-cases (m == n)) [
  | inl same ↦ rw ((==_iff m n).0 same) (text_eq_refl (decimal n) ∙ sym (==_refl n))
  | inr other ↦ rw other (elim (Bool-cases (text_eq (decimal m) (decimal n))) [
    | inl e ↦ absurd (ground (arith, decimal-injective m n (text_eq_sound _ _ e)))
    | inr e ↦ e
  ])
]

pub decimal_zero : decimal 0 ≡ bytes "0"
unfolding decimal
decimal_zero = refl
