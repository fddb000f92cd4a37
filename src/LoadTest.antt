-- ===== src/LoadTest.antt =====
-- cmd/loadtest/main.go: pairs of users who write to each other, and what is counted. Times and
-- latencies are numbers; printing is left out. The HTTP and WebSocket libraries are arguments.
pub mod Counts
pub mod Percentiles
pub mod Dial
pub mod Served
pub mod Run
use im_system.Common.{
  ℕ, zero, suc, ◌+◌, ◌-◌, ◌*◌, ◌/◌, ◌%◌, Text, bytes, Bool, Option, none, some, List, [], ◌∷◌, ◌++◌,
  ◌==◌, ◌&&◌, text_eq, Result, ok, err, length, ltb, if◌then◌else◌, false, true,
}
use im_system.Common.Decimal.{decimal}
use im_system.Wire.{ChatMsgPayload, AckMsgPayload, CollectMessage}

pub record VirtualUser : Type 0 where
  pub username : Text
  pub user_id : ℕ
  pub token : Text
  pub port : ℕ
  pub connected : Bool

-- `in_flight` holds the ids of the messages whose WriteMessage has not returned; `pending` maps
-- an id to the time at which it was sent.
pub record Stats : Type 0 where
  pub sent : ℕ
  pub received : ℕ
  pub send_errors : ℕ
  pub latencies : List ℕ
  pub pending : List (Text × ℕ)
  pub in_flight : List Text

abbrev pub find_pending : Text → List (Text × ℕ) → Option ℕ
find_pending id [] = none
find_pending id ((key, at) ∷ rest) =
    let later = find_pending id rest in if text_eq key id then some at else later

-- sync.Map holds one entry for a key.
abbrev pub delete_pending : Text → List (Text × ℕ) → List (Text × ℕ)
delete_pending id [] = []
delete_pending id ((key, at) ∷ rest) =
    let later = delete_pending id rest in if text_eq key id then later else (key, at) ∷ later

abbrev pub remove_one : Text → List Text → List Text
remove_one id [] = []
remove_one id (key ∷ rest) =
    let later = remove_one id rest in if text_eq key id then rest else key ∷ later

-- The port that a user connects to: in mode "cross" every second user takes the second one.
abbrev pub port_of : Bool → ℕ → ℕ → ℕ → ℕ
port_of cross port1 port2 i = if cross && ((i % 2) == 1) then port2 else port1

-- The login of the users from `i` on; one that fails leaves nil.
unfoldable pub log_in :
    (Text → Result (Text × ℕ)) → Bool → ℕ → ℕ → ℕ → List Text → List (Option VirtualUser)
log_in login cross port1 port2 i [] = []
log_in login cross port1 port2 i (name ∷ names) =
    elim (login name) [
      | err e ↦ none
      | ok (token, user_id) ↦ some (record {
        username = name;
        user_id = user_id;
        token = token;
        port = port_of cross port1 port2 i;
        connected = false;
      })
    ]
    ∷ log_in login cross port1 port2 (i + 1) names

-- The WebSocket of each user, and how many could not be opened.
unfoldable pub connect_users :
    (VirtualUser → Result (Unit {0})) → List (Option VirtualUser) → List (Option VirtualUser) × ℕ
connect_users dial [] = ([], 0)
connect_users dial (none ∷ us) = let (vs, n) = connect_users dial us in (none ∷ vs, n)
connect_users dial (some u ∷ us) =
    let (vs, n) = connect_users dial us in
    elim (dial u) [
      | err e ↦ (some u ∷ vs, n + 1)
      | ok c ↦ (some (record u { connected = true }) ∷ vs, n)
    ]

-- Who writes to whom: the loops that main starts for the pairs.
abbrev pub pair_up : Option VirtualUser → Option VirtualUser → List (VirtualUser × ℕ)
pair_up none b = []
pair_up (some a) none = []
pair_up (some a) (some b) =
    if a.connected && b.connected then (a, b.user_id) ∷ (b, a.user_id) ∷ [] else []

unfoldable pub loops : List (Option VirtualUser) → List (VirtualUser × ℕ)
loops [] = []
loops (a ∷ []) = []
loops (a ∷ b ∷ rest) = pair_up a b ++ loops rest

-- fmt.Sprintf("%s-%d-%d", username, nanoseconds, counter)
abbrev pub client_msg_id : Text → ℕ → ℕ → Text
client_msg_id username nanos counter =
    username ++ (bytes "-" ++ (decimal nanos ++ (bytes "-" ++ decimal counter)))

-- fmt.Sprintf("msg from %s seq=%d", username, counter)
abbrev pub chat_payload : VirtualUser → ℕ → ℕ → ℕ → ChatMsgPayload
chat_payload u target nanos counter = record {
  client_msg_id = client_msg_id u.username nanos counter;
  to_user_id = target;
  content = bytes "msg from " ++ (u.username ++ (bytes " seq=" ++ decimal counter));
}

-- A tick of sendLoop up to WriteMessage, and what follows its result.
unfoldable pub begin_send : Text → ℕ → Stats → Stats
begin_send id now s = record s {
  pending = (id, now) ∷ delete_pending id s.pending;
  in_flight = id ∷ s.in_flight;
}

unfoldable pub end_send : Text → Result (Unit {0}) → Stats → Stats
end_send id r s = elim r [
  | ok u ↦ record s { sent = s.sent + 1; in_flight = remove_one id s.in_flight }
  | err e ↦ record s {
    send_errors = s.send_errors + 1;
    pending = delete_pending id s.pending;
    in_flight = remove_one id s.in_flight;
  }
]

abbrev pub note_latency : CollectMessage → ℕ → Option ℕ → Stats → Stats
note_latency cm now none s = s
note_latency cm now (some at) s = record s {
  latencies = s.latencies ++ (now - at) ∷ [];
  pending = delete_pending cm.client_msg_id s.pending;
}

abbrev pub ack_of : CollectMessage → AckMsgPayload
ack_of cm = record { server_msg_id = cm.msg_id; conv_id = cm.conversation_id }

-- A round of receiveLoop, on what json.Unmarshal makes of the message: the acknowledgement that is
-- written, if any.
unfoldable pub receive : ℕ → Result CollectMessage → Stats → Option AckMsgPayload × Stats
receive now read s =
    let s' = record s { received = s.received + 1 } in
    elim read [
      | err e ↦ (none, s')
      | ok cm ↦
          (some (ack_of cm), note_latency cm now (find_pending cm.client_msg_id s'.pending) s')
    ]

abbrev pub nth : ℕ → List ℕ → Option ℕ
nth k [] = none
nth zero (x ∷ xs) = some x
nth (suc k) (x ∷ xs) = nth k xs

-- `stats.Latencies[n*k/100]` after the sort; `none` would be a panic.
unfoldable pub percentile : (List ℕ → List ℕ) → ℕ → List ℕ → Option ℕ
percentile sort k latencies = nth (length latencies * k / 100) (sort latencies)

-- The lines of exportCSV for the percentiles, where there is a latency.
pub data Lines : Type 0 where
  no_lines out_of_range_panic : Lines
  lines : ℕ → ℕ → ℕ → Lines

abbrev pub with_p99 : ℕ → ℕ → Option ℕ → Lines
with_p99 p50 p95 none = out_of_range_panic
with_p99 p50 p95 (some p99) = lines p50 p95 p99

abbrev pub with_p95 : (List ℕ → List ℕ) → List ℕ → ℕ → Option ℕ → Lines
with_p95 sort l p50 none = out_of_range_panic
with_p95 sort l p50 (some p95) = with_p99 p50 p95 (percentile sort 99 l)

abbrev pub with_p50 : (List ℕ → List ℕ) → List ℕ → Option ℕ → Lines
with_p50 sort l none = out_of_range_panic
with_p50 sort l (some p50) = with_p95 sort l p50 (percentile sort 95 l)

unfoldable pub export_lines : (List ℕ → List ℕ) → Stats → Lines
export_lines sort s =
    if ltb 0 (length s.latencies)
    then with_p50 sort s.latencies (percentile sort 50 s.latencies)
    else no_lines
