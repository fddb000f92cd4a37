-- ===== src/LoadTest/Run/Places.antt =====
-- The users of a run after the logins and after the connections: their places, ports and number.
use im_system.Common.{
  ℕ, suc, ◌+◌, ◌≤◌, ◌≡◌, refl, ap, arith, Text, Bool, true, false, List, [], ◌∷◌, Option, none,
  some, Result, length, inl, inr, ◌⊎◌, Result-cases,
}
use im_system.LoadTest.{VirtualUser, port_of, log_in, connect_users}
use im_system.LoadTest.Run.{connected_count}

-- The port of every user is the one of the place in the list.
abbrev pub InPlace : Bool → ℕ → ℕ → ℕ → List (Option VirtualUser) → Type 0
InPlace cross port1 port2 i [] = Unit
InPlace cross port1 port2 i (none ∷ us) = InPlace cross port1 port2 (i + 1) us
InPlace cross port1 port2 i (some u ∷ us) =
    (u.port ≡ port_of cross port1 port2 i) × InPlace cross port1 port2 (i + 1) us

-- Nobody is connected yet.
abbrev pub Unconnected : List (Option VirtualUser) → Type 0
Unconnected [] = Unit
Unconnected (none ∷ us) = Unconnected us
Unconnected (some u ∷ us) = (u.connected ≡ false) × Unconnected us

module _ (login : Text → Result (Text × ℕ)) (cross : Bool) (port1 port2 : ℕ) where
  pub length-log_in :
      (i : ℕ) (names : List Text) → length (log_in login cross port1 port2 i names) ≡ length names
  unfolding log_in
  length-log_in i [] = refl
  length-log_in i (name ∷ names) = ap suc (length-log_in (i + 1) names)

  pub log_in-InPlace :
      (i : ℕ) (names : List Text)
      → InPlace cross port1 port2 i (log_in login cross port1 port2 i names)
  unfolding log_in
  log_in-InPlace i [] = tt
  log_in-InPlace i (name ∷ names) = elim (Result-cases (login name)) [
    | inl (r, e) ↦ rw e (refl, log_in-InPlace (i + 1) names)
    | inr (x, e) ↦ rw e (log_in-InPlace (i + 1) names)
  ]

  pub log_in-Unconnected :
      (i : ℕ) (names : List Text) → Unconnected (log_in login cross port1 port2 i names)
  unfolding log_in
  log_in-Unconnected i [] = tt
  log_in-Unconnected i (name ∷ names) = elim (Result-cases (login name)) [
    | inl (r, e) ↦ rw e (refl, log_in-Unconnected (i + 1) names)
    | inr (x, e) ↦ rw e (log_in-Unconnected (i + 1) names)
  ]

module _ (dial : VirtualUser → Result (Unit {0})) where
  connect_one :
      (u : VirtualUser) (us : List (Option VirtualUser))
      → let q = connect_users dial us in
        (connect_users dial (some u ∷ us) ≡ (some (record u { connected = true }) ∷ q.0, q.1))
        ⊎ (connect_users dial (some u ∷ us) ≡ (some u ∷ q.0, q.1 + 1))
  unfolding connect_users
  connect_one u us = elim (Result-cases (dial u)) [
    | inl (r, e) ↦ inl (rw (e, connect_users) refl)
    | inr (x, e) ↦ inr (rw (e, connect_users) refl)
  ]

  connect_nobody :
      (us : List (Option VirtualUser))
      → let q = connect_users dial us in connect_users dial (none ∷ us) ≡ (none ∷ q.0, q.1)
  unfolding connect_users
  connect_nobody us = refl

  pub connect-length :
      (us : List (Option VirtualUser)) → length (connect_users dial us).0 ≡ length us
  connect-length [] = unfold connect_users in refl
  connect-length (none ∷ us) = rw (connect_nobody us) (ap suc (connect-length us))
  connect-length (some u ∷ us) = elim (connect_one u us) [
    | inl e ↦ rw e (ap suc (connect-length us))
    | inr e ↦ rw e (ap suc (connect-length us))
  ]

  pub connect-InPlace :
      (cross : Bool) (port1 port2 i : ℕ) (us : List (Option VirtualUser))
      → InPlace cross port1 port2 i us
      → InPlace cross port1 port2 i (connect_users dial us).0
  connect-InPlace cross port1 port2 i [] h = unfold connect_users in tt
  connect-InPlace cross port1 port2 i (none ∷ us) h =
      rw (connect_nobody us) (connect-InPlace cross port1 port2 (i + 1) us h)
  connect-InPlace cross port1 port2 i (some u ∷ us) h = elim (connect_one u us) [
    | inl e ↦ rw e (h.0, connect-InPlace cross port1 port2 (i + 1) us h.1)
    | inr e ↦ rw e (h.0, connect-InPlace cross port1 port2 (i + 1) us h.1)
  ]

  pub connect-count :
      (us : List (Option VirtualUser))
      → Unconnected us
      → connected_count (connect_users dial us).0 + (connect_users dial us).1 ≤ length us
  connect-count [] h = unfold connect_users in omega arith
  connect-count (none ∷ us) h = rw (connect_nobody us) (omega (arith, connect-count us h))
  connect-count (some u ∷ us) h = elim (connect_one u us) [
    | inl e ↦ rw e (omega (arith, connect-count us h.1))
    | inr e ↦ rw (e, h.0) (omega (arith, connect-count us h.1))
  ]
