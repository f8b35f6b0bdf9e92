-- ===== src/Runtime/Cache/Histories.antt =====
-- The store against an ideal one that forgets nothing.
use nsp_migrator.Prelude.{
  ℕ, ◌≡◌, ◌≢◌, refl, sym, ap, subst, ◌∙◌, inl, inr, Bool, Option, none, some, List, [], ◌∷◌,
  Option-cases, arith, if◌then◌else◌, ◌&&◌,
}
use nsp_migrator.Prelude.Eq.{Eq, ◌==◌, ==-cases, list_eq, nat_eq}
use nsp_migrator.Prelude.Dict.{lookup, lookup-insert}
use nsp_migrator.Prelude.Text.{Text}
use nsp_migrator.Runtime.Cache.{
  CacheEntry, CacheEntryMeta, meta_of, TtlCache, Clocks, Store, new_store, or_new, cache_of,
  with_cache, get_cache, build_entry, rewrite, read, expired, get, set, delete, touch, get_meta,
  keys,
}
use nsp_migrator.Prelude.Result.{ok}
use nsp_migrator.Runtime.Cache.Reading.{
  new_store-made, get-value, Touched, get-Touched, touch-Touched,
}
use nsp_migrator.Runtime.Cache.Laws.{CacheLaws}

-- A call of the store, with the readings of the clocks.
pub data Call (K D : Type 0) : Type 0 where
  get_call : Clocks → Text → K → Bool → Call K D
  set_call : Clocks → Text → K → D → Call K D
  delete_call : Clocks → Text → K → Call K D
  touch_call : Clocks → Text → K → Call K D
  get_meta_call : Clocks → Text → K → Call K D
  keys_call : Clocks → Text → Call K D

module _ {K D : Type 0} ⦃e : Eq K⦄ where
  -- What was last set under a namespace and a key and not deleted since; the last call stands first.
  abbrev pub last_set : List (Call K D) → Text → K → Option D
  last_set [] n k = none
  last_set (get_call _ _ _ _ ∷ calls) n k = last_set calls n k
  last_set (set_call _ m j v ∷ calls) n k =
      let rest = last_set calls n k in if n == m && k == j then some v else rest
  last_set (delete_call _ m j ∷ calls) n k =
      let rest = last_set calls n k in if n == m && k == j then none else rest
  last_set (touch_call _ _ _ ∷ calls) n k = last_set calls n k
  last_set (get_meta_call _ _ _ ∷ calls) n k = last_set calls n k
  last_set (keys_call _ _ ∷ calls) n k = last_set calls n k

module _ {K D : Type 0} (c : TtlCache K D) where
  -- The store after the calls, the last of which stands first.
  unfoldable pub run : Store c → List (Call K D) → Store c
  unfolding get set delete touch get_meta keys
  run store [] = store
  run store (get_call now n k t ∷ calls) = (get c now n k t (run store calls)).1
  run store (set_call now n k v ∷ calls) = set c now n k v (run store calls)
  run store (delete_call now n k ∷ calls) = delete c now n k (run store calls)
  run store (touch_call now n k ∷ calls) = (touch c now n k (run store calls)).1
  run store (get_meta_call now n k ∷ calls) = (get_meta c now n k (run store calls)).1
  run store (keys_call now n ∷ calls) = (keys c now n (run store calls)).1

module _ {K D : Type 0} ⦃e : Eq K⦄ (c : TtlCache K D) (laws : CacheLaws c) where
  -- All that the caches hold, expired or not, is what the ideal store holds.
  abbrev Agrees : (Text → K → Option D) → Store c → Type 0
  Agrees ideal store =
      (u : ℕ) (n : Text) (k : K) (x : CacheEntry D)
      → c.get u k (cache_of c n store) ≡ some x
      → ideal n k ≡ some x.value

  Agrees-with_cache :
      (old new : Text → K → Option D) (m : Text) (d : c.Cache) (store : Store c)
      → Agrees old store
      → ((n : Text) (k : K) → n ≢ m → new n k ≡ old n k)
      → ((u : ℕ) (k : K) (x : CacheEntry D) → c.get u k d ≡ some x → new m k ≡ some x.value)
      → Agrees new (with_cache c m d store)
  unfolding with_cache
  Agrees-with_cache old new m d store agrees others own u n k x h =
      let found =
        subst (λ o. c.get u k (or_new c store o) ≡ some x) (lookup-insert n m d store.caches) h in
      elim (==-cases n m) [
        | inl (t, same) ↦ rw same (own u k x (rw t at found))
        | inr (t, differ) ↦ others n k differ ∙ agrees u n k x (rw t at found)
      ]

  Agrees-expired :
      (ideal : Text → K → Option D) (now : Clocks) (m : Text) (store : Store c)
      → Agrees ideal store
      → Agrees ideal (expired c now m store)
  unfolding expired get_cache
  Agrees-expired ideal now m store agrees =
      Agrees-with_cache ideal ideal m (get_cache c now m store) store agrees (λ n k differ. refl)
        (λ u k x h. agrees u m k x (laws.get-expire now.timer u k x (cache_of c m store) h))

  Agrees-rewrite :
      (old new : Text → K → Option D) (now : Clocks) (m : Text) (j : K) (v : D)
      (previous : Option CacheEntryMeta) (store : Store c)
      → Agrees old store
      → ((n : Text) (k : K) → n ≢ m → new n k ≡ old n k)
      → ((k : K) → k ≢ j → new m k ≡ old m k)
      → new m j ≡ some v
      → Agrees new (rewrite c now m j v previous store)
  unfolding rewrite get_cache build_entry
  Agrees-rewrite old new now m j v previous store agrees others keys written =
      let entry = build_entry c now store v previous in
      let cache = get_cache c now m store in
      Agrees-with_cache old new m (c.put now.timer j entry cache) store agrees others (λ u k x h.
        elim (==-cases k j) [
          | inl (_, same) ↦
              let made : x ≡ entry =
                laws.get-put_same now.timer u j entry x cache
                  (subst (λ i. c.get u i (c.put now.timer j entry cache) ≡ some x) same h) in
              ap (new m) same ∙ (written ∙ ap (λ (y : CacheEntry D). some y.value) (sym made))
          | inr (_, differ) ↦
              keys k differ
              ∙ agrees u m k x (
                  laws.get-expire now.timer u k x (cache_of c m store)
                    (laws.get-put_other now.timer u k j entry x cache differ h))
        ])

  Agrees-delete :
      (old new : Text → K → Option D) (now : Clocks) (m : Text) (j : K) (store : Store c)
      → Agrees old store
      → ((n : Text) (k : K) → n ≢ m → new n k ≡ old n k)
      → ((k : K) → k ≢ j → new m k ≡ old m k)
      → Agrees new (delete c now m j store)
  unfolding delete get_cache
  Agrees-delete old new now m j store agrees others keys =
      let cache = get_cache c now m store in
      Agrees-with_cache old new m (c.pop now.timer j cache) store agrees others (λ u k x h.
        elim (==-cases k j) [
          | inl (_, same) ↦
              let gone = laws.get-pop_same now.timer u j cache in
              let found = subst (λ i. c.get u i (c.pop now.timer j cache) ≡ some x) same h in
              absurd cc
          | inr (_, differ) ↦
              keys k differ
              ∙ agrees u m k x (
                  laws.get-expire now.timer u k x (cache_of c m store)
                    (laws.get-pop_other now.timer u k j x cache h))
        ])

  -- What can be read is held.
  read-Agrees :
      (ideal : Text → K → Option D) (now : Clocks) (n : Text) (k : K) (x : CacheEntry D)
      (store : Store c)
      → Agrees ideal store
      → read c now n k store ≡ some x
      → ideal n k ≡ some x.value
  unfolding read get_cache
  read-Agrees ideal now n k x store agrees h =
      agrees now.timer n k x (laws.get-expire now.timer now.timer k x (cache_of c n store) h)

  Agrees-Touched :
      (ideal : Text → K → Option D) (now : Clocks) (m : Text) (j : K) (s t : Store c)
      → Agrees ideal s
      → Touched c now m j s t
      → Agrees ideal t
  Agrees-Touched ideal now m j s t agrees (inl e) =
      subst (Agrees ideal) (sym e) (Agrees-expired ideal now m s agrees)
  Agrees-Touched ideal now m j s t agrees (inr (x, found, e)) = subst (Agrees ideal) (sym e) (
      Agrees-rewrite ideal ideal now m j x.value (some x.meta) s agrees (λ n k h. refl)
        (λ k h. refl) (read-Agrees ideal now m j x s agrees found))

  run-Agrees :
      (store : Store c) (calls : List (Call K D))
      → Agrees (last_set []) store
      → Agrees (last_set calls) (run c store calls)
  unfolding run set get_meta keys
  run-Agrees store [] agrees = agrees
  run-Agrees store (get_call now m j t ∷ calls) agrees =
      Agrees-Touched (last_set calls) now m j (run c store calls) _ (run-Agrees store calls agrees)
        (get-Touched c now m j t (run c store calls))
  run-Agrees store (touch_call now m j ∷ calls) agrees =
      Agrees-Touched (last_set calls) now m j (run c store calls) _ (run-Agrees store calls agrees)
        (touch-Touched c now m j (run c store calls))
  run-Agrees store (get_meta_call now m j ∷ calls) agrees =
      Agrees-expired (last_set calls) now m (run c store calls) (run-Agrees store calls agrees)
  run-Agrees store (keys_call now m ∷ calls) agrees =
      Agrees-expired (last_set calls) now m (run c store calls) (run-Agrees store calls agrees)
  run-Agrees store (set_call now m j v ∷ calls) agrees =
      Agrees-rewrite (last_set calls) (last_set (set_call now m j v ∷ calls)) now m j v
        (meta_of (read c now m j (run c store calls))) (run c store calls)
        (run-Agrees store calls agrees) (λ n k differ. ground arith) (λ k differ. ground arith)
        (ground arith)
  run-Agrees store (delete_call now m j ∷ calls) agrees =
      Agrees-delete (last_set calls) (last_set (delete_call now m j ∷ calls)) now m j
        (run c store calls) (run-Agrees store calls agrees) (λ n k differ. ground arith)
        (λ k differ. ground arith)

  new_store-Agrees :
      (ttl_seconds max_entries : ℕ) (store : Store c)
      → new_store c ttl_seconds max_entries ≡ ok store
      → Agrees (last_set []) store
  unfolding new_store lookup
  new_store-Agrees ttl_seconds max_entries store h u n k x found =
      let (_, _, _, _, none_yet) = new_store-made c ttl_seconds max_entries store h in
      let nothing = laws.get-new store.max_entries store.ttl_seconds u k in
      let there = subst (λ d. c.get u k (or_new c store (lookup n d)) ≡ some x) none_yet found in
      absurd cc

  -- After any calls on a new store, of any namespaces and keys and at any times, `get` returns nothing
  -- or what was last set under the namespace and the key, if it was not deleted since.
  pub get_returns_last_set :
      (ttl_seconds max_entries : ℕ) (store : Store c)
      → new_store c ttl_seconds max_entries ≡ ok store
      → (calls : List (Call K D)) (now : Clocks) (n : Text) (k : K) (t : Bool) (v : D)
      → (get c now n k t (run c store calls)).0 ≡ some v
      → last_set calls n k ≡ some v
  unfolding get
  get_returns_last_set ttl_seconds max_entries store made calls now n k t v h =
      let agrees = run-Agrees store calls (new_store-Agrees ttl_seconds max_entries store made) in
      let s = run c store calls in
      elim (Option-cases (read c now n k s)) [
        | inl missing ↦ let bad = rw missing at (sym (get-value c now n k t s) ∙ h) in absurd cc
        | inr (x, found) ↦
            read-Agrees (last_set calls) now n k x s agrees found
            ∙ rw found at (sym (get-value c now n k t s) ∙ h)
      ]
