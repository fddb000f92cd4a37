-- ===== src/Tests/Load.antt =====
-- The load test at concrete inputs.
use im_system.Common.{
  ℕ, suc, ◌*◌, ◌≤◌, ◌<◌, ◌≡◌, refl, ap, arith, ◌∙◌, bytes, text_eq, Bool-cases, inl, inr, List, [],
  ◌∷◌, All, length, leb, if◌then◌else◌, ok, negsuc, Text, Result, true, Option, some,
}
use im_system.Wire.{CollectMessage}
use im_system.LoadTest.Dial.{login, connect_ws}
use im_system.LoadTest.Run.{Flags, UsersFile, started, run, summary}
use im_system.LoadTest.Run.Paired.{Paired, run-Paired}
use im_system.LoadTest.{
  VirtualUser, log_in, connect_users, loops, Stats, receive, begin_send, end_send, export_lines,
  lines,
}
use im_system.LoadTest.Counts.{
  begins, ends, receives, here, next, no_stats, IsCounted, latencies-IsCounted,
}
use im_system.LoadTest.Percentiles.{IsSorted, IsSort, count_le, export_lines_cover}

abbrev note : CollectMessage
note = record {
  client_msg_id = bytes "u1-5-0";
  msg_id = 9;
  conversation_id = 2;
  sender_id = 1;
  content = bytes "hello";
}

-- The acknowledgement arrives before WriteMessage returns.
abbrev one_round : Stats
one_round =
    end_send (bytes "u1-5-0") (ok tt)
      (receive 8 (ok note) (begin_send (bytes "u1-5-0") 5 no_stats)).1

one_round_counts : one_round.latencies ≡ 3 ∷ []
unfolding begin_send end_send receive text_eq
one_round_counts = refl

latencies-IsCounted_example : IsCounted one_round
unfolding begin_send end_send receive text_eq
latencies-IsCounted_example = latencies-IsCounted (
    next (next (next here (begins (bytes "u1-5-0") 5)) (receives 8 (ok note)))
      (ends (bytes "u1-5-0") (ok tt) (inl refl)))

abbrev insert : ℕ → List ℕ → List ℕ
insert x [] = x ∷ []
insert x (y ∷ ys) = let later = insert x ys in if leb x y then x ∷ y ∷ ys else y ∷ later

abbrev insertion_sort : List ℕ → List ℕ
insertion_sort [] = []
insertion_sort (x ∷ xs) = insert x (insertion_sort xs)

insert-All : (b x : ℕ) (ys : List ℕ) → b ≤ x → All (λ y. b ≤ y) ys → All (λ y. b ≤ y) (insert x ys)
insert-All b x [] h a = (h, tt)
insert-All b x (y ∷ ys) h a = elim (Bool-cases (leb x y)) [
  | inl le ↦ rw le (h, a)
  | inr gt ↦ rw gt (a.0, insert-All b x ys h a.1)
]

All-weaken : (b c : ℕ) (ys : List ℕ) → b ≤ c → All (λ y. c ≤ y) ys → All (λ y. b ≤ y) ys
All-weaken b c [] h a = tt
All-weaken b c (y ∷ ys) h a = (omega (arith, a.0), All-weaken b c ys h a.1)

insert-IsSorted : (x : ℕ) (ys : List ℕ) → IsSorted ys → IsSorted (insert x ys)
insert-IsSorted x [] s = (tt, tt)
insert-IsSorted x (y ∷ ys) s = elim (Bool-cases (leb x y)) [
  | inl le ↦ let h : x ≤ y = ground (arith, le) in rw le ((h, All-weaken x y ys h s.0), s)
  | inr gt ↦ rw gt (insert-All y x ys (ground (arith, gt)) s.0, insert-IsSorted x ys s.1)
]

length-insert : (x : ℕ) (ys : List ℕ) → length (insert x ys) ≡ suc (length ys)
length-insert x [] = refl
length-insert x (y ∷ ys) = ground (arith, length-insert x ys)

count_le-insert : (b x : ℕ) (ys : List ℕ) → count_le b (insert x ys) ≡ count_le b (x ∷ ys)
count_le-insert b x [] = refl
count_le-insert b x (y ∷ ys) = ground (arith, count_le-insert b x ys)

insertion_sort-IsSorted : (xs : List ℕ) → IsSorted (insertion_sort xs)
insertion_sort-IsSorted [] = tt
insertion_sort-IsSorted (x ∷ xs) = insert-IsSorted x _ (insertion_sort-IsSorted xs)

length-insertion_sort : (xs : List ℕ) → length (insertion_sort xs) ≡ length xs
length-insertion_sort [] = refl
length-insertion_sort (x ∷ xs) =
    length-insert x (insertion_sort xs) ∙ ap suc (length-insertion_sort xs)

count_le-insertion_sort : (b : ℕ) (xs : List ℕ) → count_le b (insertion_sort xs) ≡ count_le b xs
count_le-insertion_sort b [] = refl
count_le-insertion_sort b (x ∷ xs) =
    ground (arith, count_le-insert b x (insertion_sort xs), count_le-insertion_sort b xs)

abbrev insertion_sort-IsSort : IsSort insertion_sort
insertion_sort-IsSort = record {
  sorted = insertion_sort-IsSorted;
  same_length = length-insertion_sort;
  same_counts = count_le-insertion_sort;
}

export_lines_cover_example :
    (p50 : ℕ) × (p95 : ℕ) × (p99 : ℕ) × (export_lines insertion_sort one_round ≡ lines p50 p95 p99)
    × (p50 ≤ p95)
    × (p95 ≤ p99)
    × (length one_round.latencies * 50 < 100 * count_le p50 one_round.latencies)
    × (length one_round.latencies * 95 < 100 * count_le p95 one_round.latencies)
    × (length one_round.latencies * 99 < 100 * count_le p99 one_round.latencies)
export_lines_cover_example =
    export_lines_cover insertion_sort insertion_sort-IsSort one_round
      (rw one_round_counts (omega arith))

-- A message that had waited since an earlier run is received, but was not sent in this one.
waiting_counts : (summary (receive 8 (ok note) no_stats).1 0).lost ≡ negsuc 0
unfolding summary receive
waiting_counts = refl

-- Two users, one at each port.
abbrev one_pair : Flags
one_pair = record {
  mode = bytes "cross";
  http_url = bytes "http://im1";
  port1 = 8080;
  port2 = 8081;
  pairs = 1;
}

abbrev two_users : UsersFile
two_users = record { password = bytes "pw"; users = bytes "a" ∷ bytes "bc" ∷ [] }

-- Everybody gets a token, and the length of the name as an id.
abbrev lets_in : Text → Text → Text → Result (ℕ × Text × ℕ)
lets_in url name password = ok (200, name, length name)

abbrev connects : Text → Text → Result (Unit {0})
connects url header = ok tt

abbrev of_pair : Text → ℕ → ℕ → VirtualUser
of_pair name user_id port = record {
  username = name;
  user_id = user_id;
  token = name;
  port = port;
  connected = true;
}

abbrev both_users : List (Option VirtualUser)
both_users = some (of_pair (bytes "a") 1 8080) ∷ some (of_pair (bytes "bc") 2 8081) ∷ []

abbrev both_loops : List (VirtualUser × ℕ)
both_loops = (of_pair (bytes "a") 1 8080, 2) ∷ (of_pair (bytes "bc") 2 8081, 1) ∷ []

pair_runs :
    run lets_in connects one_pair (λ text. ok two_users) (ok (bytes "{}"))
    ≡ started both_users 0 both_loops
unfolding run log_in connect_users loops login connect_ws text_eq
pair_runs = refl

run-Paired_example : Paired one_pair both_users 0 both_loops
run-Paired_example =
    run-Paired lets_in connects one_pair (λ text. ok two_users) (ok (bytes "{}")) both_users 0
      both_loops pair_runs
