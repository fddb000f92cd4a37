-- ===== src/Ws/Manager/Order.antt =====
-- A Go map is ranged over in any order: what CloseAll and SnapshotSendChanUsage do in another order.
use im_system.Common.{
  ℕ, ◌≡◌, refl, sym, ap, ◌∙◌, arith, ok, result_pair, Text, List, [], ◌∷◌, ◌++◌, map, if◌then◌else◌,
  none, some, length, Among, inl, inr, Bool-cases, ◌==◌,
}
use im_system.Common.Dict.{Dict, lookup}
use mathlib.Core.List.{Perm, Permᴰ}
use mathlib.Core.List.Perm
use mathlib.Core.Logic.{∥∥₁_elim}
use mathlib.Core.Quot
use mathlib.Core.Quot.{Quot}
use im_system.Backend.{Backend}
use im_system.Services.{IsCache, mem_text}
use im_system.Ws.State.{ClientRef, Channel, Server}
use im_system.Ws.Manager.{
  online_key, keys_of, addresses_of, usage, close_clients, close_all, snapshot_send_chan_usage,
}
use im_system.Ws.Manager.Closing.{clients_clear}
use im_system.Ws.Manager.Presence.{shown}

-- What is seen where the order does not count.
abbrev Unordered : Type 0 → Type 0
Unordered A = Quot (Perm {A = A})

abbrev unordered : {A : Type 0} → List A → Unordered A
unordered xs = Quot.mk xs

addresses_of-map : (m : Dict ClientRef) → addresses_of m ≡ map (λ e. e.1.address) m
addresses_of-map [] = refl
addresses_of-map ((u, c) ∷ m) = ap (λ xs. c.address ∷ xs) (addresses_of-map m)

addresses_of-Perm : (m n : Dict ClientRef) → Perm m n → Perm (addresses_of m) (addresses_of n)
addresses_of-Perm m n p =
    rw (addresses_of-map m, addresses_of-map n) (Perm.map (λ e. e.1.address) p)

mem_text-swap : (j a b : Text) (ks : List Text) → mem_text j (a ∷ b ∷ ks) ≡ mem_text j (b ∷ a ∷ ks)
mem_text-swap j a b ks = ground arith

mem_text-cons :
    (j a b : Text) (ks ls : List Text)
    → a ≡ b
    → mem_text j ks ≡ mem_text j ls
    → mem_text j (a ∷ ks) ≡ mem_text j (b ∷ ls)
mem_text-cons j a b ks ls e h = rw e (ground (arith, h))

mem_text-Permᴰ : (j : Text) {ks ls : List Text} → Permᴰ ks ls → mem_text j ks ≡ mem_text j ls
mem_text-Permᴰ j Permᴰ.nil = refl
mem_text-Permᴰ j (Permᴰ.cons {a} {b} {l₁} {l₂} e d) =
    mem_text-cons j a b l₁ l₂ e (mem_text-Permᴰ j d)
mem_text-Permᴰ j (Permᴰ.swap {a} {b} {a'} {b'} {l} e f) =
    mem_text-swap j a b l
    ∙ mem_text-cons j b a' (a ∷ l) (b' ∷ l) f (mem_text-cons j a b' l l e refl)
mem_text-Permᴰ j (Permᴰ.trans p q) = mem_text-Permᴰ j p ∙ mem_text-Permᴰ j q

mem_text-Perm : (j : Text) {ks ls : List Text} → Perm ks ls → mem_text j ks ≡ mem_text j ls
mem_text-Perm j p = ∥∥₁_elim p (hlevel) (mem_text-Permᴰ j)

keys_of-map : (m : Dict ClientRef) → keys_of m ≡ map (λ e. online_key e.0) m
keys_of-map [] = refl
keys_of-map ((u, c) ∷ m) = ap (λ ks. online_key u ∷ ks) (keys_of-map m)

keys_of-Perm : (m n : Dict ClientRef) → Perm m n → Perm (keys_of m) (keys_of n)
keys_of-Perm m n p = rw (keys_of-map m, keys_of-map n) (Perm.map (λ e. online_key e.0) p)

module _ (channels : Dict Channel) where
  used : ℕ × ClientRef → ℕ
  used e = elim (lookup e.1.address channels) [ none ↦ 0 | some ch ↦ length ch.buffer ]

  usage-map : (m : Dict ClientRef) → usage channels m ≡ map used m
  unfolding used
  usage-map [] = refl
  usage-map ((u, c) ∷ m) = ap (λ ns. used (u, c) ∷ ns) (usage-map m)

  usage-Perm : (m n : Dict ClientRef) → Perm m n → Perm (usage channels m) (usage channels n)
  usage-Perm m n p = rw (usage-map m, usage-map n) (Perm.map used p)

usage-lookup :
    (channels : Dict Channel) (u : ℕ) (c : ClientRef) (ch : Channel) (m : Dict ClientRef)
    → lookup u m ≡ some c
    → lookup c.address channels ≡ some ch
    → Among (length ch.buffer) (usage channels m)
unfolding lookup
usage-lookup channels u c ch [] e at = cc
usage-lookup channels u c ch ((v, d) ∷ m) e at = elim (Bool-cases (v == u)) [
  | inl hit ↦
      let same : d ≡ c = ground (arith, hit, e) in
      let at' : lookup d.address channels ≡ some ch =
        ap {A = ClientRef} (λ x. lookup x.address channels) same ∙ at in
      inl (rw at' refl)
  | inr miss ↦ inr (usage-lookup channels u c ch m (ground (arith, miss, e)) at)
]

-- The same was closed, in some order, and the same keys are left.
record SameClosed {B : Backend} (srv srv' : Server B) : Type 0 where
  pub conns : unordered srv.closed_conns ≡ unordered srv'.closed_conns
  pub keys : (key : Text) → shown srv key ≡ shown srv' key
  pub channels : srv.channels ≡ srv'.channels

module _ {B : Backend} (cache : IsCache B.cache) where
  closed_conns_of :
      (m : Dict ClientRef) (srv : Server B)
      → (close_clients m srv).closed_conns ≡ addresses_of m ++ srv.closed_conns
  closed_conns_of [] srv = refl
  closed_conns_of (e ∷ m) srv = refl

  channels_of :
      (m : Dict ClientRef) (srv : Server B) → (close_clients m srv).channels ≡ srv.channels
  channels_of [] srv = refl
  channels_of (e ∷ m) srv = refl

  shown_of :
      (m : Dict ClientRef) (srv : Server B) (key : Text)
      → (B.cache.del (keys_of m) srv.store.cache).0 ≡ ok tt
      → shown (close_clients m srv) key ≡ (if mem_text key (keys_of m) then none else shown srv key)
  shown_of [] srv key done = refl
  shown_of (e ∷ m) srv key done = cache.del_ok _ _ _ key (result_pair _ (ok tt) done)

  -- The map of clients is ranged over in the order of `m`, with Redis as documented and no deletion
  -- failing. Then for every client of the map, CloseAll closes its connection and takes the key of its
  -- user from Redis, and SnapshotSendChanUsage observes how many messages wait in its channel; and
  -- whatever the order is, CloseAll closes the same connections, up to order, and leaves the same keys
  -- and channels, and SnapshotSendChanUsage observes the same numbers, up to order.
  range_order :
      (m : Dict ClientRef) (srv : Server B) (u : ℕ) (c : ClientRef) (ch : Channel)
      → Perm m srv.clients
      → lookup u m ≡ some c
      → lookup c.address srv.channels ≡ some ch
      → (B.cache.del (keys_of m) srv.store.cache).0 ≡ ok tt
      → (B.cache.del (keys_of srv.clients) srv.store.cache).0 ≡ ok tt
      → let ranged = record srv { clients = m } in
        Among c.address (close_all ranged).closed_conns
        × (shown (close_all ranged) (online_key u) ≡ none)
        × Among (length ch.buffer) (snapshot_send_chan_usage ranged)
        × SameClosed (close_all ranged) (close_all srv)
        × (unordered (snapshot_send_chan_usage ranged) ≡ unordered (snapshot_send_chan_usage srv))
  unfolding close_all snapshot_send_chan_usage
  range_order m srv u c ch p found at done done' =
      let n = srv.clients in
      let ranged = record srv { clients = m } in
      let cleared = clients_clear cache u c m ranged found done in
      (
        cleared.0,
        cleared.1,
        usage-lookup srv.channels u c ch m found at,
        record {
          conns =
              rw (closed_conns_of m ranged, closed_conns_of n srv)
                (Quot.sound (Perm.append_right srv.closed_conns (addresses_of-Perm m n p)));
          keys = λ key.
              rw
                (
                  shown_of m ranged key done,
                  shown_of n srv key done',
                  mem_text-Perm key (keys_of-Perm m n p),
                )
                refl;
          channels = channels_of m ranged ∙ sym (channels_of n srv);
        },
        Quot.sound (usage-Perm srv.channels m n p),
      )
