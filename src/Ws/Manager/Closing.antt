-- ===== src/Ws/Manager/Closing.antt =====
-- What CloseAll leaves of the clients of a process.
use im_system.Common.{
  ℕ, ◌≡◌, refl, arith, true, some, none, ok, ◌==◌, result_pair, ◌∙◌, [], ◌∷◌, Among,
  Among-append_left, inl, inr, Bool-cases,
}
use im_system.Common.Dict.{Dict, lookup}
use im_system.Backend.{Backend}
use im_system.Services.{IsCache, mem_text}
use im_system.Repository.Keys.{text_eq-online_key}
use im_system.Ws.State.{ClientRef, Server}
use im_system.Ws.Manager.{
  online_key, keys_of, addresses_of, close_clients, close_all, get_client_by_user_id,
}
use im_system.Ws.Manager.Presence.{shown}

keys_of-lookup :
    (u : ℕ) (c : ClientRef) (m : Dict ClientRef)
    → lookup u m ≡ some c
    → mem_text (online_key u) (keys_of m) ≡ true
unfolding lookup
keys_of-lookup u c [] e = cc
keys_of-lookup u c ((v, d) ∷ m) e = ground (arith, text_eq-online_key v u, keys_of-lookup u c m)

addresses_of-lookup :
    (u : ℕ) (c : ClientRef) (m : Dict ClientRef)
    → lookup u m ≡ some c
    → Among c.address (addresses_of m)
unfolding lookup
addresses_of-lookup u c [] e = cc
addresses_of-lookup u c ((v, d) ∷ m) e = elim (Bool-cases (v == u)) [
  | inl hit ↦ inl (ground (arith, hit, e))
  | inr miss ↦ inr (addresses_of-lookup u c m (ground (arith, miss, e)))
]

module _ {B : Backend} where
  pub clients_clear :
      (cache : IsCache B.cache) (u : ℕ) (c : ClientRef) (m : Dict ClientRef) (srv : Server B)
      → lookup u m ≡ some c
      → (B.cache.del (keys_of m) srv.store.cache).0 ≡ ok tt
      → Among c.address (close_clients m srv).closed_conns
        × (shown (close_clients m srv) (online_key u) ≡ none)
  clients_clear cache u c [] srv found gone = unfold lookup in cc
  clients_clear cache u c (e ∷ m) srv found gone = (
    Among-append_left c.address (addresses_of (e ∷ m)) srv.closed_conns
        (addresses_of-lookup u c (e ∷ m) found),
    cache.del_ok _ _ _ (online_key u) (result_pair _ (ok tt) gone)
        ∙ rw (keys_of-lookup u c (e ∷ m) found) refl,
  )

  -- CloseAll closes the connection of every client in the map, and takes the key of its user from
  -- Redis, if Redis does not fail.
  pub close_all_clears :
      (cache : IsCache B.cache) (u : ℕ) (c : ClientRef) (srv : Server B)
      → get_client_by_user_id u srv ≡ some c
      → (B.cache.del (keys_of srv.clients) srv.store.cache).0 ≡ ok tt
      → Among c.address (close_all srv).closed_conns × (shown (close_all srv) (online_key u) ≡ none)
  unfolding close_all get_client_by_user_id
  close_all_clears cache u c srv found gone = clients_clear cache u c srv.clients srv found gone
