-- ===== src/Runtime/Cache/Lifetime.antt =====
-- How long the store keeps its entries.
use nsp_migrator.Prelude.{
  ℕ, ◌+◌, ◌≤◌, ◌<◌, ◌≡◌, refl, sym, ap, subst, ◌∙◌, inl, inr, Bool, true, Option, none, some, List,
  Option-cases, arith,
}
use nsp_migrator.Prelude.Eq.{list_eq, nat_eq}
use nsp_migrator.Prelude.Dict.{lookup-insert_same}
use nsp_migrator.Prelude.Result.{ok}
use nsp_migrator.Prelude.Text.{Text}
use nsp_migrator.Runtime.Cache.{
  CacheEntryMeta, meta_of, TtlCache, Clocks, Store, new_store, or_new, cache_of, with_cache,
  get_cache, build_entry, rewrite, read, get, set, get_meta,
}
use nsp_migrator.Runtime.Cache.Laws.{CacheLaws}
use nsp_migrator.Runtime.Cache.Reading.{get-value}
use nsp_migrator.Runtime.Cache.Histories.{Call, run}
use nsp_migrator.Runtime.Cache.Configured.{IsConfigured, run-Keeps, new_store-Keeps}

module _ {K D : Type 0} (c : TtlCache K D) (laws : CacheLaws c) where
  read-rewrite :
      (now later : Clocks) (n : Text) (k : K) (v : D) (previous : Option CacheEntryMeta)
      (s : Store c)
      → IsConfigured c laws s
      → now.timer ≤ later.timer
      → later.timer < now.timer + s.ttl_seconds
      → read c later n k (rewrite c now n k v previous s) ≡ some (build_entry c now s v previous)
  unfolding read rewrite get_cache with_cache
  read-rewrite now later n k v previous s h after before =
      let x = build_entry c now s v previous in
      let d = c.expire now.timer (cache_of c n s) in
      let ttl : c.ttl d ≡ s.ttl_seconds =
        laws.ttl-expire now.timer (cache_of c n s) ∙ (h.configured n).0 in
      let size : c.maxsize d ≡ s.max_entries =
        laws.maxsize-expire now.timer (cache_of c n s) ∙ (h.configured n).1 in
      let room = h.room in
      let held : cache_of c n (with_cache c n (c.put now.timer k x d) s) ≡ c.put now.timer k x d =
        ap (or_new c s) (lookup-insert_same n (c.put now.timer k x d) s.caches) in
      ap (λ y. c.get later.timer k (c.expire later.timer y)) held
      ∙ laws.get-expire_fresh later.timer later.timer k (c.put now.timer k x d) (omega arith)
      ∙ laws.get-put_fresh now.timer later.timer k x d (omega arith) after (omega arith)

  -- In a store that was made with a lifetime and then used in any way, what is set is what `get`
  -- returns if it is called with no call in between, at any time before the lifetime is over; the
  -- metadata that are read instead, with no call in between, name the time of the first setting that
  -- is still known, the time of this one and that of its end.
  pub set_lives :
      (ttl_seconds max_entries : ℕ) (store : Store c)
      → new_store c ttl_seconds max_entries ≡ ok store
      → (calls : List (Call K D)) (now later : Clocks) (n : Text) (k : K) (v : D) (t : Bool)
      → now.timer ≤ later.timer
      → later.timer < now.timer + ttl_seconds
      → let s = run c store calls in
        ((get c later n k t (set c now n k v s)).0 ≡ some v)
        × ((get_meta c later n k (set c now n k v s)).0
            ≡ some (record {
              created_at = elim (get_meta c now n k s).0 [
                | none ↦ now.utc
                | some meta ↦ meta.created_at
              ];
              last_touched_at = now.utc;
              expires_at = now.utc + ttl_seconds;
              ttl_seconds = ttl_seconds;
            }))
  unfolding set get_meta build_entry
  set_lives ttl_seconds max_entries store made calls now later n k v t after before =
      let s = run c store calls in
      let (h, ttl) =
        run-Keeps c laws ttl_seconds store calls
          (new_store-Keeps c laws ttl_seconds max_entries store made) in
      let found =
        read-rewrite now later n k v (meta_of (read c now n k s)) s h after (omega arith) in
      (get-value c later n k t (set c now n k v s) ∙ rw found refl, rw (found, ttl) refl)

  -- In a store that was made with a lifetime and then used in any way, what a `get` finds and touches
  -- is what the next `get` of it returns, with no call in between, at any time before a whole lifetime
  -- from then on is over.
  pub get_extends :
      (ttl_seconds max_entries : ℕ) (store : Store c)
      → new_store c ttl_seconds max_entries ≡ ok store
      → (calls : List (Call K D)) (now later : Clocks) (n : Text) (k : K) (v : D) (t : Bool)
      → now.timer ≤ later.timer
      → later.timer < now.timer + ttl_seconds
      → (get c now n k true (run c store calls)).0 ≡ some v
      → (get c later n k t (get c now n k true (run c store calls)).1).0 ≡ some v
  unfolding get build_entry
  get_extends ttl_seconds max_entries store made calls now later n k v t after before h =
      let s = run c store calls in
      let (config, ttl) =
        run-Keeps c laws ttl_seconds store calls
          (new_store-Keeps c laws ttl_seconds max_entries store made) in
      elim (Option-cases (read c now n k s)) [
        | inl missing ↦ let bad = rw missing at (sym (get-value c now n k true s) ∙ h) in absurd cc
        | inr (x, there) ↦
            let found =
              read-rewrite now later n k x.value (some x.meta) s config after (omega arith) in
            let value = rw there at (sym (get-value c now n k true s) ∙ h) in
            let kept : (get c later n k t (rewrite c now n k x.value (some x.meta) s)).0
                ≡ some x.value =
              get-value c later n k t (rewrite c now n k x.value (some x.meta) s) ∙ rw found refl in
            let next : (get c now n k true s).1 ≡ rewrite c now n k x.value (some x.meta) s =
              rw (there, get) refl in
            subst (λ y. (get c later n k t y).0 ≡ some v) (sym next) (kept ∙ value)
      ]
