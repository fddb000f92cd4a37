-- ===== src/LoadTest/Run/Paired.antt =====
-- Who writes to whom, and how many users do.
use im_system.Common.{
  ℕ, ◌+◌, ◌*◌, ◌%◌, ◌≤◌, ◌≡◌, refl, sym, ◌∙◌, arith, Text, bytes, text_eq, Bool, true, ◌&&◌, subst,
  List, [], ◌∷◌, Option, none, some, Result, if◌then◌else◌, length, take, length-take,
  length-append, All, All-of, Among, Among-append, Among-append_left, Among-append_right, inl, inr,
  ◌⊎◌, Result-cases, Bool-cases, ltb,
}
use im_system.LoadTest.{VirtualUser, port_of, connect_users, pair_up, loops}
use im_system.LoadTest.Run.{
  Flags, UsersFile, Run, started, exited, connected_count, logged_in_users, run_users, run, opened,
}
use im_system.LoadTest.Dial.{connect_ws}
use im_system.LoadTest.Dial
use im_system.LoadTest.Run.Places.{
  InPlace, length-log_in, log_in-InPlace, log_in-Unconnected, connect-length, connect-InPlace,
  connect-count,
}

-- The second port of a pair.
abbrev second_port : Flags → ℕ
second_port flags = if text_eq flags.mode (bytes "cross") then flags.port2 else flags.port1

-- The loop of `u` has a loop in the other direction, of a user at the other place of the pair.
pub record Partner (flags : Flags) (ls : List (VirtualUser × ℕ)) (l : VirtualUser × ℕ)
    : Type 0 where
  pub other : VirtualUser
  pub back : Among (other, l.0.user_id) ls
  pub named : other.user_id ≡ l.1
  pub both_connected : (l.0.connected ≡ true) × (other.connected ≡ true)
  pub ports :
      ((l.0.port ≡ flags.port1) × (other.port ≡ second_port flags))
      ⊎ ((l.0.port ≡ second_port flags) × (other.port ≡ flags.port1))

matched :
    (flags : Flags) (a b : VirtualUser) (l : VirtualUser × ℕ)
    → (a.connected ≡ true) × (b.connected ≡ true)
    → a.port ≡ flags.port1
    → b.port ≡ second_port flags
    → Among l ((a, b.user_id) ∷ (b, a.user_id) ∷ [])
    → Partner flags ((a, b.user_id) ∷ (b, a.user_id) ∷ []) l
matched flags a b l on at_a at_b (inl e) = subst (Partner flags _) (sym e) (record {
  other = b;
  back = inr (inl refl);
  named = refl;
  both_connected = on;
  ports = inl (at_a, at_b);
})
matched flags a b l on at_a at_b (inr (inl e)) = subst (Partner flags _) (sym e) (record {
  other = a;
  back = inl refl;
  named = refl;
  both_connected = (on.1, on.0);
  ports = inr (at_b, at_a);
})
matched flags a b l on at_a at_b (inr (inr m)) = absurd m

module _ (flags : Flags) where
  abbrev crossed : Bool
  crossed = text_eq flags.mode (bytes "cross")

  even_port : (i : ℕ) → i % 2 ≡ 0 → port_of crossed flags.port1 flags.port2 i ≡ flags.port1
  even_port i even = ground (arith, even)

  odd_port :
      (i : ℕ) → i % 2 ≡ 0 → port_of crossed flags.port1 flags.port2 (i + 1) ≡ second_port flags
  odd_port i even = let odd : (i + 1) % 2 ≡ 1 = omega (arith, even) in ground (arith, odd)

  pair-Partner :
      (a b : Option VirtualUser) (i : ℕ) (rest : List (Option VirtualUser)) (l : VirtualUser × ℕ)
      → i % 2 ≡ 0
      → InPlace crossed flags.port1 flags.port2 i (a ∷ b ∷ rest)
      → Among l (pair_up a b)
      → Partner flags (pair_up a b) l
  pair-Partner none b i rest l even h m = absurd m
  pair-Partner (some a) none i rest l even h m = absurd m
  pair-Partner (some a) (some b) i rest l even h m =
      elim (Bool-cases (a.connected && b.connected)) [
        | inr apart ↦
            let no_pair : pair_up (some a) (some b) ≡ [] = rw (apart, pair_up) refl in
            absurd (subst (Among l) no_pair m)
        | inl joined ↦
            let is_pair : pair_up (some a) (some b) ≡ (a, b.user_id) ∷ (b, a.user_id) ∷ [] =
              rw (joined, pair_up) refl in
            rw is_pair (
              matched flags a b l (ground (arith, joined), ground (arith, joined))
                (h.0 ∙ even_port i even) (h.1.0 ∙ odd_port i even) (subst (Among l) is_pair m))
      ]

  Partner-more :
      (ls ms : List (VirtualUser × ℕ)) (l : VirtualUser × ℕ)
      → ((k : VirtualUser × ℕ) → Among k ls → Among k ms)
      → Partner flags ls l
      → Partner flags ms l
  Partner-more ls ms l more p = record {
    other = p.other;
    back = more (p.other, l.0.user_id) p.back;
    named = p.named;
    both_connected = p.both_connected;
    ports = p.ports;
  }

  loops-Partner :
      (i : ℕ) (us : List (Option VirtualUser)) (l : VirtualUser × ℕ)
      → i % 2 ≡ 0
      → InPlace crossed flags.port1 flags.port2 i us
      → Among l (loops us)
      → Partner flags (loops us) l
  unfolding loops
  loops-Partner i [] l even h m = absurd m
  loops-Partner i (a ∷ []) l even h m = absurd m
  loops-Partner i (a ∷ b ∷ rest) l even h m = elim (Among-append l (pair_up a b) (loops rest) m) [
    | inl first ↦
        Partner-more (pair_up a b) _ l (λ k. Among-append_left k (pair_up a b) (loops rest))
          (pair-Partner a b i rest l even h first)
    | inr later ↦
        Partner-more (loops rest) _ l (λ k. Among-append_right k (pair_up a b) (loops rest))
          (loops-Partner (i + 1 + 1) rest l (omega (arith, even)) (past a b h) later)
  ]
    where
      past :
          (a b : Option VirtualUser)
          → InPlace crossed flags.port1 flags.port2 i (a ∷ b ∷ rest)
          → InPlace crossed flags.port1 flags.port2 (i + 1 + 1) rest
      past none none h = h
      past none (some b) h = h.1
      past (some a) none h = h.1
      past (some a) (some b) h = h.1.1

one-count : (a : Option VirtualUser) → connected_count (a ∷ []) ≤ 1
one-count none = omega arith
one-count (some a) = ground arith

pair-count :
    (a b : Option VirtualUser) (us : List (Option VirtualUser))
    → (length (pair_up a b) + connected_count us ≤ connected_count (a ∷ b ∷ us))
      × (connected_count (a ∷ b ∷ us) * 2 ≤ 2 + length (pair_up a b) + connected_count us * 2)
pair-count none none us = ground arith
pair-count none (some b) us = ground arith
pair-count (some a) none us = ground arith
pair-count (some a) (some b) us = ground arith

-- No user sends who is not connected, and a pair of connected users sends both ways.
loops-count :
    (us : List (Option VirtualUser))
    → (length (loops us) ≤ connected_count us)
      × (connected_count us * 2 ≤ length us + length us % 2 + length (loops us))
unfolding loops
loops-count [] = omega arith
loops-count (a ∷ []) = omega (arith, one-count a)
loops-count (a ∷ b ∷ us) =
    omega (arith, pair-count a b us, loops-count us, length-append (pair_up a b) (loops us))

-- The users of a run and the loops between them.
pub record Paired (flags : Flags) (users : List (Option VirtualUser)) (errors : ℕ)
    (ls : List (VirtualUser × ℕ)) : Type 0 where
  pub everyone : length users ≡ flags.pairs * 2
  pub failures : connected_count users + errors ≤ flags.pairs * 2
  pub partners : All (Partner flags ls) ls
  pub only_connected : length ls ≤ connected_count users
  pub all_connected : connected_count users * 2 ≤ flags.pairs * 2 + length ls

module _ {W : Type 0} (post : Text → Text → Text → Result (ℕ × Text × ℕ))
    (dial : Text → Text → Result W) (flags : Flags) where
  abbrev Fits : Run → Type 0
  Fits (exited x) = Unit
  Fits (started users errors ls) = Paired flags users errors ls

  run_users-Paired :
      (uf : UsersFile) → flags.pairs * 2 ≤ length uf.users → Fits (run_users post dial flags uf)
  run_users-Paired uf enough =
      let us = logged_in_users post dial flags uf in
      let names = take (flags.pairs * 2) uf.users in
      let call = λ (u : VirtualUser). opened (connect_ws dial flags.http_url u.port u.token) in
      let at_login = λ (name : Text). Dial.login post flags.http_url flags.port1 name uf.password in
      let vs = (connect_users call us).0 in
      let size : length vs ≡ flags.pairs * 2 =
        connect-length call us
        ∙ length-log_in at_login (crossed flags) flags.port1 flags.port2 0 names
        ∙ length-take (flags.pairs * 2) uf.users enough in
      let placed =
        connect-InPlace call (crossed flags) flags.port1 flags.port2 0 us
          (log_in-InPlace at_login (crossed flags) flags.port1 flags.port2 0 names) in
      let counted = loops-count vs in
      record {
        everyone = size;
        failures = omega (
          arith,
          size,
          connect-length call us,
          connect-count call us
              (log_in-Unconnected at_login (crossed flags) flags.port1 flags.port2 0 names),
        );
        partners =
            All-of (Partner flags (loops vs)) (loops vs)
              (λ l m. loops-Partner flags 0 vs l refl placed m);
        only_connected = counted.0;
        all_connected = omega (arith, counted.1, size);
      }

  run-Fits :
      (parse : Text → Result UsersFile) (read : Result Text) → Fits (run post dial flags parse read)
  unfolding run
  run-Fits parse read = elim (Result-cases read) [
    | inr (x, f) ↦ rw (f, run) tt
    | inl (text, f) ↦ elim (Result-cases (parse text)) [
      | inr (x, g) ↦ rw (f, g, run) tt
      | inl (uf, g) ↦ elim (Bool-cases (ltb (length uf.users) (flags.pairs * 2))) [
        | inl few ↦ rw (f, g, few, run) tt
        | inr enough ↦ rw (f, g, enough, run) (run_users-Paired uf (ground (arith, enough)))
      ]
    ]
  ]

  -- If main of the load test gets past its tests of the users file, it has 2 * pairs places for
  -- users, of whom no more than that are connected or counted as connection errors. Every loop that
  -- it starts is of a connected user, and the user it writes to is connected and has a loop back;
  -- in mode "cross" one of the two is at the first port and the other at the second, else both are
  -- at the first. There are no more loops than connected users, and if all 2 * pairs are connected,
  -- as many.
  pub run-Paired :
      (parse : Text → Result UsersFile) (read : Result Text) (users : List (Option VirtualUser))
      (errors : ℕ) (ls : List (VirtualUser × ℕ))
      → run post dial flags parse read ≡ started users errors ls
      → Paired flags users errors ls
  run-Paired parse read users errors ls e = subst Fits e (run-Fits parse read)
