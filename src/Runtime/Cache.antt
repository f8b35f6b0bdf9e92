-- ===== src/Runtime/Cache.antt =====
-- The store of the caches (src/app/infrastructure/cache/ttl_store.py and
-- src/app/infrastructure/interfaces/cache.py).
-- `cachetools.TTLCache` is a parameter: its state and its calls, which read its own clock. The lock
-- makes each method one step, which takes no time. A namespace and a key are compared by `==`.
pub mod Laws
pub mod Reading
pub mod Histories
pub mod Configured
pub mod Lifetime
use nsp_migrator.Prelude.{
  arith, ◌<◌, ◌≡◌, refl, sym, ap, inl, inr, Option-cases, Bool-cases, ℕ, ◌+◌, ◌-◌, Bool, true,
  false, Option, none, some, List, [], ◌∷◌, leb, if◌then◌else◌,
}
use nsp_migrator.Prelude.Eq.{Eq, ◌==◌, list_eq, nat_eq}
use nsp_migrator.Prelude.Result.{Result, ok, err, ok-injective}
use nsp_migrator.Prelude.Dict.{Dict, lookup, insert}
use nsp_migrator.Prelude.Text.{Text}

pub record CacheEntryMeta : Type 0 where
  pub created_at : ℕ
  pub last_touched_at : ℕ
  pub expires_at : ℕ
  pub ttl_seconds : ℕ

unfoldable pub seconds_left : CacheEntryMeta → ℕ → ℕ
seconds_left meta now = meta.expires_at - now

-- `_CacheEntry`
pub record CacheEntry (D : Type 0) : Type 0 where
  pub value : D
  pub meta : CacheEntryMeta

-- `TTLCache` over keys `K` and entries of data `D`: the constructor with `maxsize` and `ttl`, these two
-- again, then the calls at a time of its clock.
pub record TtlCache (K D : Type 0) : Type 1 where
  pub Cache : Type 0
  pub new : ℕ → ℕ → Cache
  pub ttl : Cache → ℕ
  pub maxsize : Cache → ℕ
  pub expire : ℕ → Cache → Cache
  pub get : ℕ → K → Cache → Option (CacheEntry D)
  pub put : ℕ → K → CacheEntry D → Cache → Cache
  pub pop : ℕ → K → Cache → Cache
  pub keys : ℕ → Cache → List K

-- `entry.meta if entry else None`
abbrev pub meta_of : {D : Type 0} → Option (CacheEntry D) → Option CacheEntryMeta
meta_of none = none
meta_of (some entry) = some entry.meta

-- The readings of the two clocks in one call: that of the cache and that of `get_utc_now`.
pub record Clocks : Type 0 where
  pub timer : ℕ
  pub utc : ℕ

pub data StoreError : Type 0 where
  ttl_not_positive max_entries_not_positive : StoreError

module _ {K D : Type 0} (ttl_cache : TtlCache K D) where
  -- `InMemoryTTLStore`
  pub record Store : Type 0 where
    pub ttl_seconds : ℕ
    pub max_entries : ℕ
    pub caches : Dict Text ttl_cache.Cache

  -- `__init__`
  unfoldable pub new_store : ℕ → ℕ → Result StoreError Store
  new_store ttl_seconds max_entries =
      if leb ttl_seconds 0
      then err ttl_not_positive
      else if leb max_entries 0
      then err max_entries_not_positive
      else ok (record { ttl_seconds = ttl_seconds; max_entries = max_entries; caches = [] })

  -- `self._caches[namespace] = cache`
  unfoldable pub with_cache : Text → ttl_cache.Cache → Store → Store
  unfolding insert list_eq nat_eq
  with_cache namespace cache store = record store { caches = insert namespace cache store.caches }

  abbrev pub or_new : Store → Option ttl_cache.Cache → ttl_cache.Cache
  or_new store none = ttl_cache.new store.max_entries store.ttl_seconds
  or_new store (some cache) = cache

  -- `self._caches[namespace]`, which is new if there is none
  abbrev pub cache_of : Text → Store → ttl_cache.Cache
  cache_of namespace store = or_new store (lookup namespace store.caches)

  -- `_get_cache`
  unfoldable pub get_cache : Clocks → Text → Store → ttl_cache.Cache
  unfolding lookup list_eq nat_eq
  get_cache now namespace store = ttl_cache.expire now.timer (cache_of namespace store)

  -- `_build_entry`
  unfoldable pub build_entry : Clocks → Store → D → Option CacheEntryMeta → CacheEntry D
  build_entry now store value previous_meta = record {
    value = value;
    meta = record {
      created_at = elim previous_meta [ none ↦ now.utc | some meta ↦ meta.created_at ];
      last_touched_at = now.utc;
      expires_at = now.utc + store.ttl_seconds;
      ttl_seconds = store.ttl_seconds;
    };
  }

  -- `cache[key] = self._build_entry(...)` on the cache of the namespace
  unfoldable pub rewrite : Clocks → Text → K → D → Option CacheEntryMeta → Store → Store
  unfolding with_cache get_cache build_entry
  rewrite now namespace key value previous_meta store =
      with_cache namespace
        (ttl_cache.put now.timer key (build_entry now store value previous_meta)
          (get_cache now namespace store))
        store

  -- `cache.get(key)` on the cache of the namespace
  unfoldable pub read : Clocks → Text → K → Store → Option (CacheEntry D)
  unfolding get_cache
  read now namespace key store = ttl_cache.get now.timer key (get_cache now namespace store)

  -- The store after a call that only expires the cache of the namespace.
  unfoldable pub expired : Clocks → Text → Store → Store
  unfolding with_cache get_cache
  expired now namespace store = with_cache namespace (get_cache now namespace store) store

  unfoldable pub get : Clocks → Text → K → Bool → Store → Option D × Store
  unfolding read rewrite expired
  get now namespace key touch store = elim (read now namespace key store) [
    | none ↦ (none, expired now namespace store)
    | some entry ↦ elim touch [
      | true ↦ (some entry.value, rewrite now namespace key entry.value (some entry.meta) store)
      | false ↦ (some entry.value, expired now namespace store)
    ]
  ]

  unfoldable pub set : Clocks → Text → K → D → Store → Store
  unfolding read rewrite
  set now namespace key value store =
      rewrite now namespace key value (meta_of (read now namespace key store)) store

  unfoldable pub delete : Clocks → Text → K → Store → Store
  unfolding with_cache get_cache
  delete now namespace key store =
      with_cache namespace (ttl_cache.pop now.timer key (get_cache now namespace store)) store

  unfoldable pub touch : Clocks → Text → K → Store → Bool × Store
  unfolding read rewrite expired
  touch now namespace key store = elim (read now namespace key store) [
    | none ↦ (false, expired now namespace store)
    | some entry ↦ (true, rewrite now namespace key entry.value (some entry.meta) store)
  ]

  unfoldable pub get_meta : Clocks → Text → K → Store → Option CacheEntryMeta × Store
  unfolding read expired
  get_meta now namespace key store =
      (meta_of (read now namespace key store), expired now namespace store)

  unfoldable pub keys : Clocks → Text → Store → List K × Store
  unfolding get_cache expired
  keys now namespace store =
      (ttl_cache.keys now.timer (get_cache now namespace store), expired now namespace store)
