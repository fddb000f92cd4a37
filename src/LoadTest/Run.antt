-- ===== src/LoadTest/Run.antt =====
-- main of cmd/loadtest/main.go: from the users file to the loops that send, and the numbers that are
-- reported in the end. The flag -pairs is a natural number; a negative one, on which make panics, is
-- left out, and so are the pauses and the printing.
pub mod Places
pub mod Paired
use im_system.Common.{
  ℕ, zero, suc, ◌+◌, ◌*◌, ℤ, difference, Text, bytes, text_eq, ltb, length, take, List, [], ◌∷◌,
  Option, none, some, Result, ok, err, if◌then◌else◌,
}
use im_system.LoadTest.{VirtualUser, Stats, log_in, connect_users, loops, Lines, export_lines}
use im_system.LoadTest.Dial.{login, connect_ws}

pub record Flags : Type 0 where
  pub mode : Text
  pub http_url : Text
  pub port1 : ℕ
  pub port2 : ℕ
  pub pairs : ℕ

pub record UsersFile : Type 0 where
  pub password : Text
  pub users : List Text

-- Where main calls os.Exit(1).
pub data Exit : Type 0 where
  unreadable unparsable too_few : Exit

-- The users after the connections, the counter ConnectErrors, and who writes to whom.
pub data Run : Type 0 where
  exited : Exit → Run
  started : List (Option VirtualUser) → ℕ → List (VirtualUser × ℕ) → Run

-- The variable `connected`
abbrev pub connected_count : List (Option VirtualUser) → ℕ
connected_count [] = 0
connected_count (none ∷ us) = connected_count us
connected_count (some u ∷ us) =
    let later = connected_count us in if u.connected then suc later else later

abbrev pub opened : {W : Type 0} → Result W → Result (Unit {0})
opened (ok conn) = ok tt
opened (err e) = err e

module _ {W : Type 0} (post : Text → Text → Text → Result (ℕ × Text × ℕ))
    (dial : Text → Text → Result W) where
  -- The logins, one after the other, and the connections.
  abbrev pub logged_in_users : Flags → UsersFile → List (Option VirtualUser)
  logged_in_users flags uf =
      log_in (λ name. login post flags.http_url flags.port1 name uf.password)
        (text_eq flags.mode (bytes "cross")) flags.port1 flags.port2 0
        (take (flags.pairs * 2) uf.users)

  abbrev pub run_users : Flags → UsersFile → Run
  run_users flags uf =
      let (users, errors) =
        connect_users (λ u. opened (connect_ws dial flags.http_url u.port u.token))
          (logged_in_users flags uf) in
      started users errors (loops users)

  -- `parse` is json.Unmarshal into a UsersFile.
  unfoldable pub run : Flags → (Text → Result UsersFile) → Result Text → Run
  run flags parse read = elim read [
    | err e ↦ exited unreadable
    | ok data_ ↦ elim (parse data_) [
      | err e ↦ exited unparsable
      | ok uf ↦
          if ltb (length uf.users) (flags.pairs * 2) then exited too_few else run_users flags uf
    ]
  ]

-- What printResults shows but for the rates, and the rows of exportCSV before the percentiles.
-- `lost` is the numerator of the share of messages lost.
pub record Summary : Type 0 where
  pub total_sent : ℕ
  pub total_received : ℕ
  pub lost : ℤ
  pub send_errors : ℕ
  pub connect_errors : ℕ

unfoldable pub summary : Stats → ℕ → Summary
summary s errors = record {
  total_sent = s.sent;
  total_received = s.received;
  lost = difference s.sent s.received;
  send_errors = s.send_errors;
  connect_errors = errors;
}

-- exportCSV, on what os.Create gives; `none` where there is no file.
unfoldable pub export_csv :
    Result (Unit {0}) → (List ℕ → List ℕ) → Stats → ℕ → Option (Summary × Lines)
unfolding summary export_lines
export_csv created sort s errors = elim created [
  | err e ↦ none
  | ok f ↦ some (summary s errors, export_lines sort s)
]
