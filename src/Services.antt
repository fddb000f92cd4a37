-- ===== src/Services.antt =====
-- What the server calls and does not implement: gorm over MySQL, go-redis, RabbitMQ, the JSON
-- codecs. Each is a record of operations over a state that the model does not look into; a read
-- depends on the state, so a service may fail at any call. What the code relies on is stated
-- in the records `IsTable`, `IsCache` and `IsBroker`.

pub mod Memory
pub mod Packed
use im_system.Common.{ℕ, ◌<◌, ◌≡◌, ◌≢◌, Text, Bool, Option, none, some, List, [], ◌∷◌, ◌++◌}
use im_system.Common.{Result, Error, ok, err, record_not_found, redis_nil, text_eq, true}
use im_system.Common.{find?, select, modify, All, Has, if◌then◌else◌, false, ◌&&◌, ◌==◌}

-- One table. `create` returns the row as stored, with the columns that the database fills in;
-- `update` returns the number of affected rows.
pub record Table (Row : Type 0) : Type 1 where
  pub State : Type 0
  pub rows : State → List Row
  pub create : Row → State → Result Row × State
  -- `First`, in the order of the primary key
  pub first : (Row → Bool) → State → Result Row
  -- `Find` into a slice
  pub find : (Row → Bool) → State → Result (List Row)
  -- `Where(…).Updates(…)`
  pub update : (Row → Bool) → (Row → Row) → State → Result ℕ × State
  -- `Select(key).Where(…).Group(key).Having(…).Find` into one row: its key, if there is one. There is
  -- no ORDER BY: two queries, which differ in the number of the first argument, may find different
  -- groups on the same rows, and one of them may fail
  pub find_group : ℕ → (Row → Bool) → (Row → ℕ) → (List Row → Bool) → State → Result (Option ℕ)

-- The documented meaning of the statements that succeed, and of "record not found".
-- `fill r i t` is `r` with the key `i` and the creation time `t`.
pub record IsTable {Row : Type 0} (T : Table Row) (key : Row → ℕ) (fill : Row → ℕ → ℕ → Row)
    : Type 0 where
  pub create_ok :
      (r r' : Row) (s s' : T.State)
      → T.create r s ≡ (ok r', s')
      → (T.rows s' ≡ T.rows s ++ r' ∷ [])
        × ((i : ℕ) × (t : ℕ) × (r' ≡ fill r i t))
        × (All (λ q. key q < key r') (T.rows s))
  -- AUTO_INCREMENT starts at 1
  pub create_positive : (r r' : Row) (s s' : T.State) → T.create r s ≡ (ok r', s') → 0 < key r'
  pub create_err :
      (r : Row) (e : Error) (s s' : T.State) → T.create r s ≡ (err e, s') → T.rows s' ≡ T.rows s
  pub first_ok :
      (p : Row → Bool) (r : Row) (s : T.State) → T.first p s ≡ ok r → find? p (T.rows s) ≡ some r
  pub first_none :
      (p : Row → Bool) (s : T.State)
      → T.first p s ≡ err record_not_found
      → find? p (T.rows s) ≡ none
  pub find_ok :
      (p : Row → Bool) (rs : List Row) (s : T.State) → T.find p s ≡ ok rs → rs ≡ select p (T.rows s)
  pub find_group_some :
      (turn : ℕ) (p : Row → Bool) (g : Row → ℕ) (h : List Row → Bool) (k : ℕ) (s : T.State)
      → T.find_group turn p g h s ≡ ok (some k)
      → h (select (λ q. p q && g q == k) (T.rows s)) ≡ true
  pub find_group_none :
      (turn : ℕ) (p : Row → Bool) (g : Row → ℕ) (h : List Row → Bool) (k : ℕ) (s : T.State)
      → T.find_group turn p g h s ≡ ok none
      → select (λ q. p q && g q == k) (T.rows s) ≢ []
      → h (select (λ q. p q && g q == k) (T.rows s)) ≡ false
  pub update_ok :
      (p : Row → Bool) (f : Row → Row) (n : ℕ) (s s' : T.State)
      → T.update p f s ≡ (ok n, s')
      → T.rows s' ≡ modify p f (T.rows s)
  pub update_err :
      (p : Row → Bool) (f : Row → Row) (e : Error) (s s' : T.State)
      → T.update p f s ≡ (err e, s')
      → T.rows s' ≡ T.rows s

-- A hash as Redis returns it: its fields in some order.
abbrev pub Hash : Type 0
Hash = List (Text × Text)

-- `text_at` and `hash_at` show the live keys of each kind, with the time to live in seconds.
pub record Cache : Type 1 where
  pub State : Type 0
  pub text_at : State → Text → Option (Text × ℕ)
  pub hash_at : State → Text → Option (Hash × ℕ)
  pub get : Text → State → Result Text
  pub set : Text → Text → ℕ → State → Result (Unit {0}) × State
  pub del : List Text → State → Result (Unit {0}) × State
  pub expire : Text → ℕ → State → Result (Unit {0}) × State
  -- the empty hash for a missing key
  pub hget_all : Text → State → Result Hash
  -- `Pipelined` with HSet and Expire
  pub hset_expire : Text → Hash → ℕ → State → Result (Unit {0}) × State
  pub publish : Text → Text → State → Result (Unit {0}) × State

abbrev pub mem_text : Text → List Text → Bool
mem_text k [] = false
mem_text k (j ∷ ks) = if text_eq j k then true else mem_text k ks

pub record IsCache (C : Cache) : Type 0 where
  pub get_ok :
      (k v : Text) (s : C.State) → C.get k s ≡ ok v → (t : ℕ) × (C.text_at s k ≡ some (v, t))
  pub get_nil : (k : Text) (s : C.State) → C.get k s ≡ err redis_nil → C.text_at s k ≡ none
  pub set_ok :
      (k v : Text) (t : ℕ) (s s' : C.State) (j : Text)
      → C.set k v t s ≡ (ok tt, s')
      → C.text_at s' j ≡ (if text_eq k j then some (v, t) else C.text_at s j)
  pub del_ok :
      (ks : List Text) (s s' : C.State) (j : Text)
      → C.del ks s ≡ (ok tt, s')
      → C.text_at s' j ≡ (if mem_text j ks then none else C.text_at s j)
  pub hget_all_ok :
      (k : Text) (h : Hash) (s : C.State)
      → C.hget_all k s ≡ ok h
      → h ≢ []
      → (t : ℕ) × (C.hash_at s k ≡ some (h, t))
  pub hget_all_empty : (k : Text) (s : C.State) → C.hget_all k s ≡ ok [] → C.hash_at s k ≡ none
  pub hset_expire_ok :
      (k : Text) (h : Hash) (t : ℕ) (s s' : C.State)
      → h ≢ []
      → C.hash_at s k ≡ none
      → C.hset_expire k h t s ≡ (ok tt, s')
      → C.hash_at s' k ≡ some (h, t)

-- `encoding/json` at one type.
pub record Codec (A : Type 0) : Type 0 where
  pub marshal : A → Result Text
  pub unmarshal : Text → Result A

-- A channel to the broker: publish in confirm mode, then wait for the confirmation.
-- `queued` shows the bodies that the queue has accepted.
pub record Broker : Type 1 where
  pub State : Type 0
  pub Confirm : Type 0
  -- the messages that a queue has taken, consumed since or not, and whether there is such a queue
  pub queued : Text → State → List Text
  pub declared : Text → State → Bool
  pub publish : Text → Text → State → Result Confirm × State
  pub wait : Confirm → State → Result Bool × State

pub record IsBroker (B : Broker) : Type 0 where
  pub confirmed :
      (queue body : Text) (c : B.Confirm) (s s1 s2 : B.State)
      → B.declared queue s ≡ true
      → B.publish queue body s ≡ (ok c, s1)
      → B.wait c s1 ≡ (ok true, s2)
      → Has body (B.queued queue s2)
  -- no queue goes
  pub publish_keeps :
      (queue other body : Text) (s : B.State)
      → B.declared other s ≡ true
      → B.declared other (B.publish queue body s).1 ≡ true
  pub wait_keeps :
      (queue : Text) (c : B.Confirm) (s : B.State)
      → B.declared queue s ≡ true
      → B.declared queue (B.wait c s).1 ≡ true
