-- ===== src/Prepare.antt =====
-- cmd/loadtest/prepare.go: registers the users of the load test, up to 50 at once, and lists their
-- names. Printing and the file are left out; what http.Post returns is an argument.
pub mod Counted
use im_system.Common.{
  ℕ, zero, suc, ◌+◌, ◌-◌, ◌<◌, ◌==◌, Text, bytes, List, [], ◌∷◌, ◌++◌, Among, Result, ok, err,
  length, if◌then◌else◌,
}
use im_system.Common.Decimal.{decimal}

abbrev pub user_count : ℕ
user_count = 1000

abbrev pub concurrency : ℕ
concurrency = 50

abbrev pub zeros : ℕ → Text
zeros zero = []
zeros (suc n) = 48 ∷ zeros n

-- fmt.Sprintf("loadtest_user_%05d", idx)
abbrev pub user_name : ℕ → Text
user_name idx =
    let digits = decimal idx in bytes "loadtest_user_" ++ (zeros (5 - length digits) ++ digits)

-- fmt.Sprintf("LT%d", idx)
abbrev pub nickname : ℕ → Text
nickname idx = bytes "LT" ++ decimal idx

-- `launched` is the loop variable; `in_flight` holds the indices of the goroutines, each with a place
-- in the channel sem.
pub record Registration : Type 0 where
  pub launched : ℕ
  pub in_flight : List ℕ
  pub usernames : List Text
  pub success_count : ℕ

abbrev pub no_registration : Registration
no_registration = record { launched = 0; in_flight = []; usernames = []; success_count = 0 }

abbrev pub without : ℕ → List ℕ → List ℕ
without idx [] = []
without idx (i ∷ is) = let later = without idx is in if i == idx then is else i ∷ later

unfoldable pub launch : Registration → Registration
launch r = record r { launched = suc r.launched; in_flight = r.launched ∷ r.in_flight }

abbrev pub listed : ℕ → Registration → Registration
listed idx r = record r {
  usernames = r.usernames ++ user_name idx ∷ [];
  success_count = suc r.success_count;
}

-- The rest of a goroutine, on the status of the answer: both branches do the same.
unfoldable pub finish : ℕ → Result ℕ → Registration → Registration
finish idx answer r =
    let r' = record r { in_flight = without idx r.in_flight } in
    elim answer [ err e ↦ r' | ok code ↦ if code == 200 then listed idx r' else listed idx r' ]

-- The loop waits for a place; a goroutine that has one ends at any time.
pub data Step (r : Registration) : Registration → Type 0 where
  launches : r.launched < user_count → length r.in_flight < concurrency → Step r (launch r)
  finishes : (idx : ℕ) (answer : Result ℕ) → Among idx r.in_flight → Step r (finish idx answer r)

pub data Reach (r : Registration) : Registration → Type 0 where
  here : Reach r r
  next : {s t : Registration} → Reach r s → Step s t → Reach r t
