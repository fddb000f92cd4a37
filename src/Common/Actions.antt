-- ===== src/Common/Actions.antt =====
-- Actions on a state that may fail, for `if err != nil { return err }` after each call.
use mathlib.Core.Path.{◌≡◌, refl}
use im_system.Common.Fallible.{Result, ok, err}

abbrev pub Act {ℓ κ} : Type ℓ → Type κ → Type (ℓ ⊔ κ)
Act S A = S → Result A × S

infixl 5 ◌>>=◌ ◌>>◌
abbrev pub ◌>>=◌ {ℓ κ μ} :
    {S : Type ℓ} {A : Type κ} {B : Type μ} → Act S A → (A → Act S B) → Act S B
(m >>= f) s = let (r, s') = m s in elim r [ ok a ↦ f a s' | err e ↦ (err e, s') ]

abbrev pub ◌>>◌ {ℓ κ μ} : {S : Type ℓ} {A : Type κ} {B : Type μ} → Act S A → Act S B → Act S B
m >> k = m >>= λ _. k

abbrev pub done {ℓ} : {S : Type ℓ} → Act S (Unit {0})
done s = (ok tt, s)

-- A sequence that succeeds ran both parts to success.
pub >>=-eq-ok {ℓ κ μ} :
    {S : Type ℓ} {A : Type κ} {B : Type μ} (m : Act S A) (f : A → Act S B) (s u : S) (b : B)
    → (m >>= f) s ≡ (ok b, u)
    → (a : A) × (t : S) × (m s ≡ (ok a, t)) × (f a t ≡ (ok b, u))
>>=-eq-ok {S} {A} {B} m f s u b h = go (m s) refl h
  where
    go :
        (p : Result A × S)
        → m s ≡ p
        → elim p.0 as (λ r. Result B × S) [ ok a ↦ f a p.1 | err e ↦ (err e, p.1) ] ≡ (ok b, u)
        → (a : A) × (t : S) × (m s ≡ (ok a, t)) × (f a t ≡ (ok b, u))
    go (ok a, t) e h = (a, t, e, h)
    go (err x, t) e h = cc
