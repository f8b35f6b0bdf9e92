-- ===== src/Runtime/Cache/Configured.antt =====
-- Every cache of the store has the lifetime and the size that the store was made with.
use nsp_migrator.Prelude.{ℕ, ◌<◌, ◌≡◌, sym, ap, subst, ◌∙◌, inl, inr, Option, some, List, [], ◌∷◌}
use nsp_migrator.Prelude.Eq.{==-cases, list_eq, nat_eq}
use nsp_migrator.Prelude.Dict.{lookup, lookup-insert}
use nsp_migrator.Prelude.Result.{ok}
use nsp_migrator.Prelude.Text.{Text}
use nsp_migrator.Runtime.Cache.{
  CacheEntryMeta, meta_of, TtlCache, Clocks, Store, new_store, or_new, cache_of, with_cache,
  get_cache, build_entry, rewrite, read, expired, set, delete, get_meta, keys,
}
use nsp_migrator.Runtime.Cache.Laws.{CacheLaws}
use nsp_migrator.Runtime.Cache.Reading.{new_store-made, Touched, get-Touched, touch-Touched}
use nsp_migrator.Runtime.Cache.Histories.{
  Call, get_call, set_call, delete_call, touch_call, get_meta_call, keys_call, run,
}

module _ {K D : Type 0} (c : TtlCache K D) (laws : CacheLaws c) where
  -- Every cache has the lifetime and the size of the store, and has room.
  pub record IsConfigured (s : Store c) : Type 0 where
    pub room : 0 < s.max_entries
    pub configured :
        (n : Text)
        → (c.ttl (cache_of c n s) ≡ s.ttl_seconds) × (c.maxsize (cache_of c n s) ≡ s.max_entries)

  IsConfigured-with_cache :
      (m : Text) (d : c.Cache) (s : Store c)
      → IsConfigured s
      → c.ttl d ≡ s.ttl_seconds
      → c.maxsize d ≡ s.max_entries
      → IsConfigured (with_cache c m d s)
  unfolding with_cache
  IsConfigured-with_cache m d s h t z = record {
    room = h.room;
    configured = λ n. elim (==-cases n m) [
      | inl (b, _) ↦ rw (lookup-insert n m d s.caches, b) (t, z)
      | inr (b, _) ↦ rw (lookup-insert n m d s.caches, b) (h.configured n)
    ];
  }

  IsConfigured-expired :
      (now : Clocks) (m : Text) (s : Store c) → IsConfigured s → IsConfigured (expired c now m s)
  unfolding expired get_cache
  IsConfigured-expired now m s h =
      let d = cache_of c m s in
      IsConfigured-with_cache m (c.expire now.timer d) s h
        (laws.ttl-expire now.timer d ∙ (h.configured m).0)
        (laws.maxsize-expire now.timer d ∙ (h.configured m).1)

  IsConfigured-rewrite :
      (now : Clocks) (m : Text) (j : K) (v : D) (previous : Option CacheEntryMeta) (s : Store c)
      → IsConfigured s
      → IsConfigured (rewrite c now m j v previous s)
  unfolding rewrite get_cache
  IsConfigured-rewrite now m j v previous s h =
      let d = cache_of c m s in
      let x = build_entry c now s v previous in
      IsConfigured-with_cache m (c.put now.timer j x (c.expire now.timer d)) s h
        (laws.ttl-put now.timer j x (c.expire now.timer d)
          ∙ laws.ttl-expire now.timer d
          ∙ (h.configured m).0)
        (laws.maxsize-put now.timer j x (c.expire now.timer d)
          ∙ laws.maxsize-expire now.timer d
          ∙ (h.configured m).1)

  IsConfigured-delete :
      (now : Clocks) (m : Text) (j : K) (s : Store c)
      → IsConfigured s
      → IsConfigured (delete c now m j s)
  unfolding delete get_cache
  IsConfigured-delete now m j s h =
      let d = cache_of c m s in
      IsConfigured-with_cache m (c.pop now.timer j (c.expire now.timer d)) s h
        (laws.ttl-pop now.timer j (c.expire now.timer d)
          ∙ laws.ttl-expire now.timer d
          ∙ (h.configured m).0)
        (laws.maxsize-pop now.timer j (c.expire now.timer d)
          ∙ laws.maxsize-expire now.timer d
          ∙ (h.configured m).1)

  -- The configuration holds, and the lifetime is the one given.
  abbrev pub Keeps : ℕ → Store c → Type 0
  Keeps ttl s = IsConfigured s × (s.ttl_seconds ≡ ttl)

  Keeps-Touched :
      (ttl : ℕ) (now : Clocks) (m : Text) (j : K) (s t : Store c)
      → Keeps ttl s
      → Touched c now m j s t
      → Keeps ttl t
  unfolding expired rewrite with_cache
  Keeps-Touched ttl now m j s t (h, e) (inl same) =
      subst (Keeps ttl) (sym same) (IsConfigured-expired now m s h, e)
  Keeps-Touched ttl now m j s t (h, e) (inr (x, _, same)) =
      subst (Keeps ttl) (sym same) (IsConfigured-rewrite now m j x.value (some x.meta) s h, e)

  pub run-Keeps :
      (ttl : ℕ) (store : Store c) (calls : List (Call K D))
      → Keeps ttl store
      → Keeps ttl (run c store calls)
  unfolding run set delete get_meta keys expired rewrite with_cache
  run-Keeps ttl store [] h = h
  run-Keeps ttl store (get_call now m j t ∷ calls) h =
      Keeps-Touched ttl now m j (run c store calls) _ (run-Keeps ttl store calls h)
        (get-Touched c now m j t (run c store calls))
  run-Keeps ttl store (touch_call now m j ∷ calls) h =
      Keeps-Touched ttl now m j (run c store calls) _ (run-Keeps ttl store calls h)
        (touch-Touched c now m j (run c store calls))
  run-Keeps ttl store (set_call now m j v ∷ calls) h =
      let (k, e) = run-Keeps ttl store calls h in
      let s = run c store calls in
      (IsConfigured-rewrite now m j v (meta_of (read c now m j s)) s k, e)
  run-Keeps ttl store (delete_call now m j ∷ calls) h =
      let (k, e) = run-Keeps ttl store calls h in
      (IsConfigured-delete now m j (run c store calls) k, e)
  run-Keeps ttl store (get_meta_call now m j ∷ calls) h =
      let (k, e) = run-Keeps ttl store calls h in
      (IsConfigured-expired now m (run c store calls) k, e)
  run-Keeps ttl store (keys_call now m ∷ calls) h =
      let (k, e) = run-Keeps ttl store calls h in
      (IsConfigured-expired now m (run c store calls) k, e)

  pub new_store-Keeps :
      (ttl_seconds max_entries : ℕ) (store : Store c)
      → new_store c ttl_seconds max_entries ≡ ok store
      → Keeps ttl_seconds store
  unfolding lookup
  new_store-Keeps ttl_seconds max_entries store made =
      let (_, room, ttl, size, none_yet) = new_store-made c ttl_seconds max_entries store made in
      let fresh : (n : Text) → cache_of c n store ≡ c.new store.max_entries store.ttl_seconds =
        λ n. ap (λ d. or_new c store (lookup n d)) none_yet in
      (
        record {
          room = rw size room;
          configured = λ n. (
            ap c.ttl (fresh n) ∙ laws.ttl-new store.max_entries store.ttl_seconds,
            ap c.maxsize (fresh n) ∙ laws.maxsize-new store.max_entries store.ttl_seconds,
          );
        },
        ttl,
      )
