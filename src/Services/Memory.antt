-- ===== src/Services/Memory.antt =====
-- A table, a cache, a broker and a codec in memory that never fail: the assumptions of
-- `Services` can be met. Concrete runs use them.
use im_system.Common.{ℕ, suc, ◌<◌, ◌≡◌, ◌≢◌, refl, max, arith, Text, Bool, true, false}
use im_system.Common.{Option, none, some, List, [], ◌∷◌, ◌++◌, Result, ok, err, text_eq}
use im_system.Common.{record_not_found, redis_nil, find?, select, modify, All, if◌then◌else◌}
use im_system.Common.{◌&&◌, ◌==◌, Option-cases, inl, inr}
use im_system.Common.{sym, ap, ◌∙◌, text_eq_refl, subst, Has}
use im_system.Services.{Hash, mem_text}
use im_system.Services.{Table, IsTable, Cache, IsCache, Broker, IsBroker}

module _ {Row : Type 0} (key : Row → ℕ) (fill : Row → ℕ → ℕ → Row) where
  abbrev top_key : List Row → ℕ
  top_key [] = 0
  top_key (r ∷ rs) = max (key r) (top_key rs)

  abbrev or_not_found : Option Row → Result Row
  or_not_found none = err record_not_found
  or_not_found (some r) = ok r

  abbrev key_of : Option Row → Option ℕ
  key_of none = none
  key_of (some r) = some (key r)

  abbrev group_key : (Row → ℕ) → Option Row → Option ℕ
  group_key g none = none
  group_key g (some r) = some (g r)

  abbrev pub memory_table : Table Row
  memory_table = record {
    State = List Row;
    rows = λ s. s;
    create = λ r s. let r' = fill r (suc (top_key s)) 0 in (ok r', s ++ r' ∷ []);
    first = λ p s. or_not_found (find? p s);
    find = λ p s. ok (select p s);
    update = λ p f s. (ok 1, modify p f s);
    find_group = λ turn p g h s.
        ok (group_key g (find? (λ r. h (select (λ q. p q && g q == g r) s)) (select p s)));
  }

  below_top_key : (n : ℕ) (rs : List Row) → top_key rs < n → All (λ q. key q < n) rs
  below_top_key n [] h = tt
  below_top_key n (r ∷ rs) h = (omega arith, below_top_key n rs (omega arith))

module _ {Row : Type 0} where
  select-find? :
      (p : Row → Bool) (g : Row → ℕ) (test : ℕ → Bool) (k : ℕ) (rs : List Row) {r : Row}
      → find? (λ q. test (g q)) (select p rs) ≡ some r
      → test (g r) ≡ true
  select-find? p g test k [] e = cc
  select-find? p g test k (q ∷ rs) {r} e = ground (arith, select-find? p g test k rs {r = r})

  find?-select-none :
      (p : Row → Bool) (g : Row → ℕ) (test : ℕ → Bool) (k : ℕ) (rs : List Row)
      → find? (λ q. test (g q)) (select p rs) ≡ none
      → select (λ q. p q && g q == k) rs ≢ []
      → test k ≡ false
  find?-select-none p g test k [] e ne = absurd (ne refl)
  find?-select-none p g test k (q ∷ rs) e ne = ground (arith, find?-select-none p g test k rs)

module _ {Row : Type 0} (key : Row → ℕ) (fill : Row → ℕ → ℕ → Row)
    (key-fill : (r : Row) (i t : ℕ) → key (fill r i t) ≡ i) where
  group_some :
      (p : Row → Bool) (g : Row → ℕ) (test : ℕ → Bool) (k : ℕ) (rs : List Row)
      → ◌≡◌ {A = Result (Option ℕ)}
          (ok (group_key key fill g (find? (λ r. test (g r)) (select p rs))))
          (ok (some k))
      → test k ≡ true
  group_some p g test k rs e = elim (Option-cases (find? (λ r. test (g r)) (select p rs))) [
    | inl n ↦ ground (arith, n)
    | inr (r, s) ↦ ground (arith, s, select-find? p g test k rs {r = r} s)
  ]

  group_none :
      (p : Row → Bool) (g : Row → ℕ) (test : ℕ → Bool) (k : ℕ) (rs : List Row)
      → ◌≡◌ {A = Result (Option ℕ)}
          (ok (group_key key fill g (find? (λ r. test (g r)) (select p rs))))
          (ok none)
      → select (λ q. p q && g q == k) rs ≢ []
      → test k ≡ false
  group_none p g test k rs e ne = elim (Option-cases (find? (λ r. test (g r)) (select p rs))) [
    | inl n ↦ find?-select-none p g test k rs n ne
    | inr (r, s) ↦ absurd (ground (arith, s))
  ]

  abbrev table : Table Row
  table = memory_table key fill

  create_meaning :
      (r r' : Row) (s s' : List Row)
      → r' ≡ fill r (suc (top_key key fill s)) 0
      → s' ≡ s ++ r' ∷ []
      → (s' ≡ s ++ r' ∷ []) × ((i : ℕ) × (t : ℕ) × (r' ≡ fill r i t)) × All (λ q. key q < key r') s
  create_meaning r r' s s' e a = (
    a,
    (suc (top_key key fill s), 0, e),
    rw (e, key-fill) (below_top_key key fill _ s (omega arith)),
  )

  filled_positive : (r r' : Row) (n t : ℕ) → r' ≡ fill r (suc n) t → 0 < key r'
  filled_positive r r' n t e = rw (e, key-fill) (omega arith)

  -- The statements of the table in memory mean what `IsTable` says.
  pub memory_table-IsTable : IsTable table key fill
  memory_table-IsTable = record {
    create_ok = λ r r' s s' e. create_meaning r r' s s' (ground arith) (ground arith);
    create_positive = λ r r' s s' e. filled_positive r r' (top_key key fill s) 0 (ground arith);
    create_err = λ r e s s' h. cc;
    first_ok = λ p r s h. ground arith;
    first_none = λ p s h. ground arith;
    find_ok = λ p rs s h. ground arith;
    find_group_some =
        λ turn p g h k s e. group_some p g (λ j. h (select (λ q. p q && g q == j) s)) k s e;
    find_group_none =
        λ turn p g h k s e ne. group_none p g (λ j. h (select (λ q. p q && g q == j) s)) k s e ne;
    update_ok = λ p f n s s' h. ground arith;
    update_err = λ p f e s s' h. cc;
  }

pub record MemoryCache : Type 0 where
  pub texts : Text → Option (Text × ℕ)
  pub hashes : Text → Option (Hash × ℕ)
  pub published : List (Text × Text)

abbrev pub empty_cache : MemoryCache
empty_cache = record { texts = λ k. none; hashes = λ k. none; published = [] }

abbrev text_or_nil : Option (Text × ℕ) → Result Text
text_or_nil none = err redis_nil
text_or_nil (some (v, t)) = ok v

abbrev shown_hash : Option (Hash × ℕ) → Option (Hash × ℕ)
shown_hash none = none
shown_hash (some ([], t)) = none
shown_hash (some (f ∷ h, t)) = some (f ∷ h, t)

abbrev hash_or_empty : Option (Hash × ℕ) → Result Hash
hash_or_empty none = ok []
hash_or_empty (some (h, t)) = ok h

abbrev renew : ℕ → Option (Text × ℕ) → Option (Text × ℕ)
renew t none = none
renew t (some (v, u)) = some (v, t)

abbrev pub memory_cache : Cache
memory_cache = record {
  State = MemoryCache;
  text_at = λ s k. s.texts k;
  hash_at = λ s k. shown_hash (s.hashes k);
  get = λ k s. text_or_nil (s.texts k);
  set =
      λ k v t s. (ok tt, record s { texts = λ j. if text_eq k j then some (v, t) else s.texts j });
  del = λ ks s. (ok tt, record s { texts = λ j. if mem_text j ks then none else s.texts j });
  expire = λ k t s.
      (ok tt, record s { texts = λ j. if text_eq k j then renew t (s.texts j) else s.texts j });
  hget_all = λ k s. hash_or_empty (s.hashes k);
  hset_expire = λ k h t s.
      (ok tt, record s { hashes = λ j. if text_eq k j then some (h, t) else s.hashes j });
  publish = λ c body s. (ok tt, record s { published = s.published ++ (c, body) ∷ [] });
}

-- Redis keeps no empty hash: `memory_cache` drops one.
hash_missing : (o : Option (Hash × ℕ)) → hash_or_empty o ≡ ok [] → shown_hash o ≡ none
hash_missing none e = refl
hash_missing (some ([], t)) e = refl
hash_missing (some (f ∷ h, t)) e = absurd (ground arith)

hash_shown : (h : Hash) (t : ℕ) → h ≢ [] → shown_hash (some (h, t)) ≡ some (h, t)
hash_shown [] t ne = absurd (ne refl)
hash_shown (f ∷ h) t ne = refl

hash_found :
    (o : Option (Hash × ℕ)) (h : Hash)
    → hash_or_empty o ≡ ok h
    → h ≢ []
    → (t : ℕ) × (shown_hash o ≡ some (h, t))
hash_found none h e ne = absurd (ne (ground arith))
hash_found (some ([], t)) h e ne = absurd (ne (ground arith))
hash_found (some (f ∷ h', t)) h e ne = (t, ground arith)

text_found : (o : Option (Text × ℕ)) (v : Text) → text_or_nil o ≡ ok v → (t : ℕ) × (o ≡ some (v, t))
text_found none v e = cc
text_found (some (v', t)) v e = (t, ground arith)

ap_at {ℓ} : {A B : Type ℓ} {f g : A → B} → f ≡ g → (a : A) → f a ≡ g a
ap_at p a = ap (λ h. h a) p

pub memory_cache-IsCache : IsCache memory_cache
memory_cache-IsCache = record {
  get_ok = λ k v s e. text_found (s.texts k) v e;
  get_nil = λ k s e. ground arith;
  set_ok = λ k v t s s' j e. sym (ap_at (ap (λ p. p.1.texts) e) j);
  del_ok = λ ks s s' j e. sym (ap_at (ap (λ p. p.1.texts) e) j);
  hget_all_ok = λ k h s e ne. hash_found (s.hashes k) h e ne;
  hget_all_empty = λ k s e. hash_missing (s.hashes k) e;
  hset_expire_ok = λ k h t s s' ne free e.
      ap shown_hash {y = some (h, t)} (sym (ap_at (ap (λ p. p.1.hashes) e) k) ∙ rw text_eq_refl)
      ∙ hash_shown h t ne;
}

-- The texts that were published to one queue, the last one first.
abbrev taken : Text → List (Text × Text) → List Text
taken queue [] = []
taken queue ((to, body) ∷ sent) =
    let before = taken queue sent in if text_eq queue to then body ∷ before else before

-- A broker that has every queue, and accepts and confirms what is published.
abbrev pub memory_broker : Broker
memory_broker = record {
  State = List (Text × Text);
  Confirm = Unit {0};
  queued = taken;
  declared = λ queue s. true;
  publish = λ queue body s. (ok tt, (queue, body) ∷ s);
  wait = λ c s. (ok true, s);
}

memory_confirmed :
    (queue body : Text) (s s1 s2 : List (Text × Text))
    → ◌≡◌ {A = Result (Unit {0}) × List (Text × Text)} (ok tt, (queue, body) ∷ s) (ok tt, s1)
    → ◌≡◌ {A = Result Bool × List (Text × Text)} (ok true, s1) (ok true, s2)
    → Has body (taken queue s2)
memory_confirmed queue body s s1 s2 e f =
    subst (λ t. Has body (taken queue t)) (ap (λ p. p.1) e ∙ ap (λ p. p.1) f)
      ([], taken queue s, rw (text_eq_refl queue) refl)

pub memory_broker-IsBroker : IsBroker memory_broker
memory_broker-IsBroker = record {
  confirmed = λ queue body c s s1 s2 there e f. memory_confirmed queue body s s1 s2 e f;
  publish_keeps = λ queue other body s there. refl;
  wait_keeps = λ queue c s there. refl;
}
