-- ===== src/Prepare/Counted.antt =====
-- What the list of users holds, however the registrations interleave.
use im_system.Common.{
  ℕ, suc, ◌+◌, ◌≤◌, ◌≡◌, refl, ap, arith, List, [], ◌∷◌, ◌++◌, Among, inl, inr, Result, ok, err,
  length, length-append, ◌==◌, ==_refl, Bool-cases, map, if◌then◌else◌, ltb,
}
use im_system.Prepare.{
  user_count, concurrency, user_name, Registration, no_registration, without, listed, launch,
  finish, Step, launches, finishes, Reach, here, next,
}

-- How often an index stands in a list.
abbrev pub times : ℕ → List ℕ → ℕ
times i [] = 0
times i (j ∷ js) = let n = times i js in if i == j then suc n else n

-- One more, if the answer is an error.
abbrev plus_error : Result ℕ → ℕ → ℕ
plus_error (err e) n = suc n
plus_error (ok code) n = n

abbrev plus_failures : {r s : Registration} → Step r s → ℕ → ℕ
plus_failures (launches more place) n = n
plus_failures (finishes idx answer h) n = plus_error answer n

-- How many requests have come to an error.
abbrev failures : {r s : Registration} → Reach r s → ℕ
failures here = 0
failures (next run step) = plus_failures step (failures run)

-- `failed` requests came to an error. `done` are the indices of the users that are listed. An index below `launched` stands once at most
-- in `done` and `in_flight` together, and no other one does.
pub record IsCounted (failed : ℕ) (r : Registration) : Type 0 where
  pub at_most : length r.in_flight ≤ concurrency
  pub done : List ℕ
  pub names : r.usernames ≡ map user_name done
  pub counted : r.success_count ≡ length done
  pub all : length done + failed + length r.in_flight ≡ r.launched
  pub once : (i : ℕ) → times i done + times i r.in_flight ≤ (if ltb i r.launched then 1 else 0)
  pub launched : r.launched ≤ user_count

length-without : (idx : ℕ) (is : List ℕ) → Among idx is → suc (length (without idx is)) ≡ length is
length-without idx [] h = absurd h
length-without idx (i ∷ is) (inl same) = ground (arith, ==_refl idx, same)
length-without idx (i ∷ is) (inr later) = ground (arith, length-without idx is later)

times-without :
    (i idx : ℕ) (is : List ℕ)
    → Among idx is
    → times i (without idx is) + times i (idx ∷ []) ≡ times i is
times-without i idx [] h = absurd h
times-without i idx (j ∷ is) (inl same) = ground (arith, same)
times-without i idx (j ∷ is) (inr later) = ground (arith, times-without i idx is later)

times-append : (i : ℕ) (is js : List ℕ) → times i (is ++ js) ≡ times i is + times i js
times-append i [] js = omega arith
times-append i (j ∷ is) js = ground (arith, times-append i is js)

map-append : (is js : List ℕ) → map user_name (is ++ js) ≡ map user_name is ++ map user_name js
map-append [] js = refl
map-append (i ∷ is) js = ap (λ l. user_name i ∷ l) (map-append is js)

listed-IsCounted :
    (failed idx : ℕ) (r : Registration)
    → Among idx r.in_flight
    → IsCounted failed r
    → IsCounted failed (listed idx (record r { in_flight = without idx r.in_flight }))
listed-IsCounted failed idx r h v =
    let fewer = length-without idx r.in_flight h in
    record {
      at_most = omega (arith, fewer, v.at_most);
      done = v.done ++ idx ∷ [];
      names = rw v.names (rw map-append refl);
      counted = omega (arith, v.counted, length-append v.done (idx ∷ []));
      all = omega (arith, v.all, fewer, length-append v.done (idx ∷ []));
      once = λ i.
          omega
            (arith, v.once i, times-append i v.done (idx ∷ []), times-without i idx r.in_flight h);
      launched = v.launched;
    }

finish-IsCounted :
    (failed idx : ℕ) (answer : Result ℕ) (r : Registration) (h : Among idx r.in_flight)
    → IsCounted failed r
    → IsCounted (plus_error answer failed) (finish idx answer r)
unfolding finish
finish-IsCounted failed idx (err e) r h v =
    let fewer = length-without idx r.in_flight h in
    record {
      at_most = omega (arith, fewer, v.at_most);
      done = v.done;
      names = v.names;
      counted = v.counted;
      all = omega (arith, v.all, fewer);
      once = λ i. omega (arith, v.once i, times-without i idx r.in_flight h);
      launched = v.launched;
    }
finish-IsCounted failed idx (ok code) r h v = elim (Bool-cases (code == 200)) [
  | inl e ↦ rw e (listed-IsCounted failed idx r h v)
  | inr e ↦ rw e (listed-IsCounted failed idx r h v)
]

launch-once :
    (failed i : ℕ) (r : Registration) (v : IsCounted failed r)
    → times i v.done + times i (r.launched ∷ r.in_flight)
      ≤ (if ltb i (suc r.launched) then 1 else 0)
launch-once failed i r v = ground (arith, v.once i)

Step-IsCounted :
    {r s : Registration} (failed : ℕ) (st : Step r s)
    → IsCounted failed r
    → IsCounted (plus_failures st failed) s
unfolding launch
Step-IsCounted {r} failed (launches more place) v = record {
  at_most = omega (arith, place);
  done = v.done;
  names = v.names;
  counted = v.counted;
  all = omega (arith, v.all);
  once = λ i. launch-once failed i r v;
  launched = omega (arith, more);
}
Step-IsCounted {r} failed (finishes idx answer h) v = finish-IsCounted failed idx answer r h v

-- However the goroutines interleave and whatever the server answers: at most 50 requests are under
-- way at once and no more than 1000 users are tried; the count of successes is that of the users
-- listed; the users that were tried are as many as those listed, those whose
-- request came to an error, and those under way; and no number of a
-- user is listed twice.
pub registration-IsCounted :
    {r : Registration} (run : Reach no_registration r) → IsCounted (failures run) r
registration-IsCounted here = record {
  at_most = omega arith;
  done = [];
  names = refl;
  counted = refl;
  all = refl;
  once = λ i. omega arith;
  launched = omega arith;
}
registration-IsCounted (next r st) = Step-IsCounted (failures r) st (registration-IsCounted r)
