-- ===== src/Common/Dict.antt =====
-- Go's `map[uint]V` as an association list with distinct keys.
use im_system.Common.Tests.{◌==◌, if◌then◌else◌}
use im_system.Common.Lists.{length}
use Prim.Native.Nat.{ℕ, suc}
use mathlib.Core.Path.{◌≡◌, refl}
use mathlib.Core.Option.{Option, none, some}
use mathlib.Core.List.{List, [], ◌∷◌}
use native.Mathlib.Omega.{arith}

abbrev pub Dict {ℓ} : Type ℓ → Type ℓ
Dict V = List (ℕ × V)

module _ {ℓ} {V : Type ℓ} where
  unfoldable pub lookup : ℕ → Dict V → Option V
  lookup key [] = none
  lookup key ((at, val) ∷ rest) = if at == key then some val else lookup key rest

  -- `m[k] = v`
  unfoldable pub insert : ℕ → V → Dict V → Dict V
  insert key val [] = (key, val) ∷ []
  insert key val ((at, old) ∷ rest) =
      if at == key then (key, val) ∷ rest else (at, old) ∷ insert key val rest

  -- `delete(m, k)`
  unfoldable pub erase : ℕ → Dict V → Dict V
  erase k [] = []
  erase k ((j, w) ∷ m) = if j == k then m else (j, w) ∷ erase k m

  abbrev pub Distinct : Dict V → Type ℓ
  Distinct [] = Unit
  Distinct ((k, _) ∷ m) = (lookup k m ≡ none) × Distinct m

  pub lookup-insert :
      (key asked : ℕ) (val : V) (entries : Dict V)
      → lookup asked (insert key val entries)
        ≡ (if key == asked then some val else lookup asked entries)
  unfolding lookup insert
  lookup-insert key asked val [] = refl
  lookup-insert key asked val ((at, old) ∷ rest) = ground (arith, lookup-insert key asked val rest)

  pub lookup-erase :
      (k j : ℕ) (m : Dict V)
      → Distinct m
      → lookup j (erase k m) ≡ (if k == j then none else lookup j m)
  unfolding lookup erase
  lookup-erase k j [] d = ground arith
  lookup-erase k j ((i, w) ∷ m) d = ground (arith, lookup-erase k j m d.1, d.0)

  pub insert-Distinct : (k : ℕ) (v : V) (m : Dict V) → Distinct m → Distinct (insert k v m)
  unfolding insert lookup
  insert-Distinct k v [] d = (refl, tt)
  insert-Distinct k v ((j, w) ∷ m) d =
      ground (arith, insert-Distinct k v m d.1, lookup-insert k j v m)

  pub erase-Distinct : (k : ℕ) (m : Dict V) → Distinct m → Distinct (erase k m)
  unfolding erase lookup
  erase-Distinct k [] d = tt
  erase-Distinct k ((j, w) ∷ m) d = ground (arith, erase-Distinct k m d.1, lookup-erase k j m d.1)

  pub length-insert_new :
      (k : ℕ) (v : V) (m : Dict V) → lookup k m ≡ none → length (insert k v m) ≡ suc (length m)
  unfolding lookup insert
  length-insert_new k v [] h = refl
  length-insert_new k v ((j, w) ∷ m) h = ground (arith, length-insert_new k v m)

  pub length-insert_old :
      (k : ℕ) (v : V) (m : Dict V) (w : V) → lookup k m ≡ some w → length (insert k v m) ≡ length m
  unfolding lookup insert
  length-insert_old k v [] w h = cc
  length-insert_old k v ((j, u) ∷ m) w h = ground (arith, length-insert_old k v m w)

  pub length-erase :
      (k : ℕ) (m : Dict V) (w : V) → lookup k m ≡ some w → suc (length (erase k m)) ≡ length m
  unfolding lookup erase
  length-erase k [] w h = cc
  length-erase k ((j, u) ∷ m) w h = ground (arith, length-erase k m w)
