-- ===== src/Repository/Keys.antt =====
-- The Redis keys of internal/repository and internal/ws, and the numbers stored under them.
use im_system.Common.{ℕ, ◌<◌, ◌^◌, ◌≡◌, ◌∙◌, refl, sym, arith, Text, bytes, [], ◌∷◌, ◌++◌}
use im_system.Common.{Bool-cases, inl, inr, text_eq, text_eq_sound, ok, ltb, ◌⊎◌}
use im_system.Common.{◌==◌, ==_iff, ==_refl, text_eq_refl}
use im_system.Common.Decimal.{
  decimal, decimal-injective, decimal-IsDigits, parse_uint, parse_uint-decimal, split_digits,
}
use im_system.Repository.Users.{user_key}
use im_system.Repository.Conversations.{conv_key, itoa, min_id, max_id}
use im_system.Ws.Manager.{online_key}

append_cancel : (p s t : Text) → p ++ s ≡ p ++ t → s ≡ t
append_cancel [] s t e = e
append_cancel (x ∷ p) s t e = append_cancel p s t (ground arith)

-- The key of a pair of users does not depend on their order.
pub conv_key_symm : (kind a b : ℕ) → conv_key kind a b ≡ conv_key kind b a
unfolding conv_key
conv_key_symm kind a b = rw (min_id_symm a b, max_id_symm a b)
  where
    min_id_symm : (a b : ℕ) → min_id a b ≡ min_id b a
    min_id_symm a b = ground arith

    max_id_symm : (a b : ℕ) → max_id a b ≡ max_id b a
    max_id_symm a b = ground arith

-- Two keys of conversations are equal only for the same kind and the same two users.
pub conv_key-injective :
    (k l a b c d : ℕ)
    → conv_key k a b ≡ conv_key l c d
    → (k ≡ l) × ((a ≡ c) × (b ≡ d) ⊎ (a ≡ d) × (b ≡ c))
unfolding conv_key
conv_key-injective k l a b c d e =
    let e1 = append_cancel (bytes "conv:exist:type:") _ _ e in
    let (kind, rest) =
      split_digits (decimal k) (decimal l) _ _ _ (decimal-IsDigits k) (decimal-IsDigits l) refl
        e1 in
    let e2 = append_cancel (bytes "user:") _ _ rest in
    let (low, high) =
      split_digits (decimal (min_id a b)) (decimal (min_id c d)) _ _ _
        (decimal-IsDigits (min_id a b)) (decimal-IsDigits (min_id c d)) refl e2 in
    let m = decimal-injective (min_id a b) (min_id c d) low in
    let n = decimal-injective (max_id a b) (max_id c d) high in
    (decimal-injective k l kind, pair m n)
  where
    pair : min_id a b ≡ min_id c d → max_id a b ≡ max_id c d → (a ≡ c) × (b ≡ d) ⊎ (a ≡ d) × (b ≡ c)
    pair m n = ground arith

pub online_key-injective : (u v : ℕ) → online_key u ≡ online_key v → u ≡ v
unfolding online_key
online_key-injective u v e = decimal-injective u v (append_cancel (bytes "online:user:") _ _ e)

pub user_key-injective : (u v : ℕ) → user_key u ≡ user_key v → u ≡ v
user_key-injective u v e = decimal-injective u v (append_cancel (bytes "user:") _ _ e)

-- The tests on texts tell the keys of users apart as `==` does the users.
pub text_eq-online_key : (u v : ℕ) → text_eq (online_key u) (online_key v) ≡ (u == v)
text_eq-online_key u v = elim (Bool-cases (u == v)) [
  | inl same ↦ rw ((==_iff u v).0 same) (text_eq_refl (online_key v) ∙ sym (==_refl v))
  | inr other ↦ rw other (elim (Bool-cases (text_eq (online_key u) (online_key v))) [
    | inl e ↦ absurd (ground (arith, online_key-injective u v (text_eq_sound _ _ e)))
    | inr e ↦ e
  ])
]

-- An id that CacheConversationID writes is read back by CheckConversationExist, below 2 ^ 32.
pub parse_uint-itoa : (n : ℕ) → n < 2 ^ 32 → parse_uint (itoa n) ≡ ok n
unfolding itoa
parse_uint-itoa n h = elim (Bool-cases (ltb n (2 ^ 63))) [
  | inl small ↦ rw small (parse_uint-decimal n h)
  | inr large ↦ absurd (ground arith)
]
