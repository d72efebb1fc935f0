-- ===== src/Geo/Cache.antt =====
-- The cache of package `golang-lru`, which keeps some of the values added: its operations, and what
-- its documentation says of them.
use ntp_server.Base.{◌≡◌, ◌⊎◌, Option, none, some, GoString, ◌==◌, string_eq, false}

pub record Lru (C V : Type 0) : Type 0 where
  -- `Get` moves the entry to the front
  pub get : GoString → C → Option V × C
  pub add : GoString → V → C → C
  pub purge : C → C

-- An entry may be evicted at any time that another one is added; only `Add` makes one.
pub record IsLru {C V : Type 0} (lru : Lru C V) : Type 0 where
  pub get-get : (k j : GoString) (c : C) → (lru.get j (lru.get k c).1).0 ≡ (lru.get j c).0
  pub get-purge : (j : GoString) (c : C) → (lru.get j (lru.purge c)).0 ≡ none
  pub get-add_same : (k : GoString) (v : V) (c : C) → (lru.get k (lru.add k v c)).0 ≡ some v
  pub get-add_other :
      (k j : GoString) (v : V) (c : C)
      → (k == j) ≡ false
      → ((lru.get j (lru.add k v c)).0 ≡ none) ⊎ ((lru.get j (lru.add k v c)).0 ≡ (lru.get j c).0)

-- a cache that keeps nothing
abbrev pub no_cache : {V : Type 0} → Lru Unit V
no_cache = record { get = λ k c. (none, tt); add = λ k v c. tt; purge = λ c. tt }
