-- ===== src/Node.antt =====
-- pkg/node/node.go: the name of a server process, which Redis keys and forwarded messages carry.
use im_system.Common.{ℕ, ◌≡◌, refl, arith, Text, bytes, Result, ok, err, [], ◌∷◌, ◌++◌}
use im_system.Common.Decimal.{decimal, IsDigits, decimal-IsDigits, decimal-injective}

-- The host's name, or "unknown" where os.Hostname fails.
abbrev pub name_of : Result Text → Text
name_of (ok host) = host
name_of (err e) = bytes "unknown"

-- fmt.Sprintf("%s:%d", hostname, port)
unfoldable pub node_id_of : Result Text → ℕ → Text
node_id_of hostname port = name_of hostname ++ (bytes ":" ++ decimal port)

no_colon : (s v : Text) → IsDigits (s ++ 58 ∷ v) → ⊥
no_colon [] v d = ground (arith, d.0)
no_colon (a ∷ s) v d = no_colon s v d.1

-- The last colon of a text tells its parts.
last_colon :
    (s t u v : Text) → IsDigits u → IsDigits v → s ++ 58 ∷ u ≡ t ++ 58 ∷ v → (s ≡ t) × (u ≡ v)
last_colon [] [] u v du dv e = (refl, ground (arith, e))
last_colon [] (b ∷ t) u v du dv e =
    let same : u ≡ t ++ 58 ∷ v = ground (arith, e) in absurd (no_colon t v (rw (← same) du))
last_colon (a ∷ s) [] u v du dv e =
    let same : s ++ 58 ∷ u ≡ v = ground (arith, e) in absurd (no_colon s u (rw same dv))
last_colon (a ∷ s) (b ∷ t) u v du dv e =
    let ih = last_colon s t u v du dv (ground (arith, e)) in ground (arith, e, ih)

-- Two processes have the same node id only if they have the same port and, as far as they could
-- find out, the same host.
node_id_of-injective :
    (a b : Result Text) (p q : ℕ)
    → node_id_of a p ≡ node_id_of b q
    → (name_of a ≡ name_of b) × (p ≡ q)
unfolding node_id_of
node_id_of-injective a b p q e =
    let (hosts, ports) =
      last_colon (name_of a) (name_of b) (decimal p) (decimal q) (decimal-IsDigits p)
        (decimal-IsDigits q) e in
    (hosts, decimal-injective p q ports)
