-- ===== src/LoadTest/Counts.antt =====
-- What the counters say of each other while the loops of all users run.
use im_system.Common.{
  ℕ, suc, ◌+◌, ◌-◌, ◌≤◌, ◌<◌, ◌≡◌, arith, Text, some, List, [], ◌∷◌, Among, inl, inr, text_eq,
  text_eq_refl, Result, length, length-append, Bool-cases, Option-cases, Result-cases,
}
use im_system.Wire.{CollectMessage}
use im_system.LoadTest.{
  Stats, find_pending, delete_pending, remove_one, begin_send, end_send, receive,
}

-- A step of a loop: a message is about to be written, its write returns, or a message comes in.
pub data Step (s : Stats) : Stats → Type 0 where
  begins : (id : Text) (now : ℕ) → Step s (begin_send id now s)
  ends : (id : Text) (r : Result (Unit {0})) → Among id s.in_flight → Step s (end_send id r s)
  receives : (now : ℕ) (read : Result CollectMessage) → Step s (receive now read s).1

pub data Reach (s : Stats) : Stats → Type 0 where
  here : Reach s s
  next : {t u : Stats} → Reach s t → Step t u → Reach s u

abbrev pub no_stats : Stats
no_stats = record {
  sent = 0;
  received = 0;
  send_errors = 0;
  latencies = [];
  pending = [];
  in_flight = [];
}

pub record IsCounted (s : Stats) : Type 0 where
  pub by_received : length s.latencies ≤ s.received
  pub by_sent : length s.latencies + length s.pending ≤ s.sent + s.send_errors + length s.in_flight

delete_pending-le : (id : Text) (p : List (Text × ℕ)) → length (delete_pending id p) ≤ length p
delete_pending-le id [] = omega arith
delete_pending-le id ((key, at) ∷ rest) = ground (arith, delete_pending-le id rest)

delete_pending-lt :
    (id : Text) (p : List (Text × ℕ)) (at : ℕ)
    → find_pending id p ≡ some at
    → length (delete_pending id p) < length p
delete_pending-lt id [] at e = cc
delete_pending-lt id ((key, t) ∷ rest) at e = elim (Bool-cases (text_eq key id)) [
  | inl hit ↦ ground (arith, hit, delete_pending-le id rest)
  | inr miss ↦ ground (arith, miss, e, delete_pending-lt id rest at)
]

length-remove_one :
    (id : Text) (ids : List Text) → Among id ids → suc (length (remove_one id ids)) ≡ length ids
length-remove_one id [] h = absurd h
length-remove_one id (key ∷ rest) (inl same) = rw same (ground (arith, text_eq_refl key))
length-remove_one id (key ∷ rest) (inr later) = ground (arith, length-remove_one id rest later)

begin-IsCounted : (id : Text) (now : ℕ) (s : Stats) → IsCounted s → IsCounted (begin_send id now s)
unfolding begin_send
begin-IsCounted id now s v = ground (arith, delete_pending-le id s.pending)

end-IsCounted :
    (id : Text) (r : Result (Unit {0})) (s : Stats)
    → Among id s.in_flight
    → IsCounted s
    → IsCounted (end_send id r s)
unfolding end_send
end-IsCounted id r s h v =
    ground (arith, delete_pending-le id s.pending, length-remove_one id s.in_flight h)

receive-IsCounted :
    (now : ℕ) (read : Result CollectMessage) (s : Stats)
    → IsCounted s
    → IsCounted (receive now read s).1
unfolding receive
receive-IsCounted now read s v = elim (Result-cases read) [
  | inr (x, e) ↦ ground (arith, e)
  | inl (cm, e) ↦ elim (Option-cases (find_pending cm.client_msg_id s.pending)) [
    | inl new ↦ ground (arith, e, new)
    | inr (at, found) ↦ ground (
      arith,
      e,
      found,
      delete_pending-lt cm.client_msg_id s.pending at found,
      length-append s.latencies ((now - at) ∷ []),
    )
  ]
]

Step-IsCounted : {s t : Stats} → Step s t → IsCounted s → IsCounted t
Step-IsCounted {s} (begins id now) v = begin-IsCounted id now s v
Step-IsCounted {s} (ends id r h) v = end-IsCounted id r s h v
Step-IsCounted {s} (receives now read) v = receive-IsCounted now read s v

-- However the loops of the users interleave: there are no more latencies than messages received,
-- and no more latencies and pending times together than messages sent, failed or being written.
pub latencies-IsCounted : {s : Stats} → Reach no_stats s → IsCounted s
latencies-IsCounted here = record { by_received = omega arith; by_sent = omega arith }
latencies-IsCounted (next r st) = Step-IsCounted st (latencies-IsCounted r)
