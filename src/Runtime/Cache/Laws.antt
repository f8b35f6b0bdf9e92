-- ===== src/Runtime/Cache/Laws.antt =====
-- What the store relies on of `cachetools.TTLCache`, as its documentation says: an item is lost when it
-- expires, is evicted or is removed, and never changed otherwise.
use nsp_migrator.Prelude.{ℕ, ◌+◌, ◌≤◌, ◌<◌, ◌≡◌, ◌≢◌, none, some}
use nsp_migrator.Runtime.Cache.{TtlCache, CacheEntry}

pub record CacheLaws {K D : Type 0} (c : TtlCache K D) : Type 0 where
  pub get-new : (m s u : ℕ) (k : K) → c.get u k (c.new m s) ≡ none
  pub get-expire :
      (t u : ℕ) (k : K) (x : CacheEntry D) (d : c.Cache)
      → c.get u k (c.expire t d) ≡ some x
      → c.get u k d ≡ some x
  pub get-put_same :
      (t u : ℕ) (k : K) (e x : CacheEntry D) (d : c.Cache)
      → c.get u k (c.put t k e d) ≡ some x
      → x ≡ e
  pub get-put_other :
      (t u : ℕ) (j k : K) (e x : CacheEntry D) (d : c.Cache)
      → j ≢ k
      → c.get u j (c.put t k e d) ≡ some x
      → c.get u j d ≡ some x
  pub get-pop_same : (t u : ℕ) (k : K) (d : c.Cache) → c.get u k (c.pop t k d) ≡ none
  pub get-pop_other :
      (t u : ℕ) (j k : K) (x : CacheEntry D) (d : c.Cache)
      → c.get u j (c.pop t k d) ≡ some x
      → c.get u j d ≡ some x
  -- Time, and the two parameters of the constructor.
  pub get-put_fresh :
      (t u : ℕ) (k : K) (e : CacheEntry D) (d : c.Cache)
      → 0 < c.maxsize d
      → t ≤ u
      → u < t + c.ttl d
      → c.get u k (c.put t k e d) ≡ some e
  pub get-expire_fresh :
      (t u : ℕ) (k : K) (d : c.Cache) → t ≤ u → c.get u k (c.expire t d) ≡ c.get u k d
  pub ttl-new : (m s : ℕ) → c.ttl (c.new m s) ≡ s
  pub maxsize-new : (m s : ℕ) → c.maxsize (c.new m s) ≡ m
  pub ttl-expire : (t : ℕ) (d : c.Cache) → c.ttl (c.expire t d) ≡ c.ttl d
  pub maxsize-expire : (t : ℕ) (d : c.Cache) → c.maxsize (c.expire t d) ≡ c.maxsize d
  pub ttl-put : (t : ℕ) (k : K) (e : CacheEntry D) (d : c.Cache) → c.ttl (c.put t k e d) ≡ c.ttl d
  pub maxsize-put :
      (t : ℕ) (k : K) (e : CacheEntry D) (d : c.Cache) → c.maxsize (c.put t k e d) ≡ c.maxsize d
  pub ttl-pop : (t : ℕ) (k : K) (d : c.Cache) → c.ttl (c.pop t k d) ≡ c.ttl d
  pub maxsize-pop : (t : ℕ) (k : K) (d : c.Cache) → c.maxsize (c.pop t k d) ≡ c.maxsize d
