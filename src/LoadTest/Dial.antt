-- ===== src/LoadTest/Dial.antt =====
-- login and connectWS of cmd/loadtest/main.go: where a user of the load test turns to, and what an
-- answer gives. http.Post and the dialer are arguments.
use im_system.Common.{
  ℕ, Text, bytes, ◌++◌, ◌==◌, [], ◌∷◌, Option, none, some, Result, ok, err, external, if◌then◌else◌,
}
use im_system.Common.Decimal.{decimal}

-- fmt.Sprintf("%s:%d/public/login", httpURL, port)
abbrev pub login_url : Text → ℕ → Text
login_url http_url port = http_url ++ (bytes ":" ++ (decimal port ++ bytes "/public/login"))

-- login, on what http.Post returns: a status, and what the body decodes to, with zero values if
-- it does not.
unfoldable pub login :
    (Text → Text → Text → Result (ℕ × Text × ℕ)) → Text → ℕ → Text → Text → Result (Text × ℕ)
login post http_url port username password =
    elim (post (login_url http_url port) username password) [
      | err e ↦ err e
      | ok (code, token, user_id) ↦ if code == 200 then ok (token, user_id) else err (external code)
    ]

abbrev pub after_prefix : Text → Text → Option Text
after_prefix [] s = some s
after_prefix (a ∷ p) [] = none
after_prefix (a ∷ p) (b ∷ s) = let rest = after_prefix p s in if a == b then rest else none

-- strings.Replace(s, old, new, 1)
abbrev pub replace_first : Text → Text → Text → Text
replace_first old new [] = elim (after_prefix old []) [ none ↦ [] | some rest ↦ new ++ rest ]
replace_first old new (a ∷ s) =
    let later = replace_first old new s in
    elim (after_prefix old (a ∷ s)) [ none ↦ a ∷ later | some rest ↦ new ++ rest ]

-- fmt.Sprintf("%s:%d/private/ws", …)
abbrev pub ws_url : Text → ℕ → Text
ws_url http_url port =
    replace_first (bytes "http") (bytes "ws") http_url
    ++ (bytes ":" ++ (decimal port ++ bytes "/private/ws"))

-- connectWS, with the header "Authorization"
unfoldable pub connect_ws {ℓ} : {W : Type ℓ} → (Text → Text → Result W) → Text → ℕ → Text → Result W
connect_ws dial http_url port token = dial (ws_url http_url port) (bytes "Bearer " ++ token)
