-- ===== src/Runtime/Cache/Reading.antt =====
-- What the calls of the store read, and a new store.
use nsp_migrator.Prelude.{
  ℕ, ◌<◌, ◌≡◌, ◌⊎◌, refl, sym, ap, inl, inr, Option, none, some, Bool, leb, [], Option-cases,
  Bool-cases, arith,
}
use nsp_migrator.Prelude.Result.{ok, ok-injective}
use nsp_migrator.Prelude.Text.{Text}
use nsp_migrator.Runtime.Cache.{
  CacheEntry, TtlCache, Clocks, Store, new_store, rewrite, read, expired, get, touch,
}

module _ {K D : Type 0} (c : TtlCache K D) where
  -- What is known of a new store.
  pub new_store-made :
      (ttl_seconds max_entries : ℕ) (store : Store c)
      → new_store c ttl_seconds max_entries ≡ ok store
      → (0 < ttl_seconds)
        × (0 < max_entries)
        × (store.ttl_seconds ≡ ttl_seconds)
        × (store.max_entries ≡ max_entries)
        × (store.caches ≡ [])
  unfolding new_store
  new_store-made ttl_seconds max_entries store h = elim (Bool-cases (leb ttl_seconds 0)) [
    | inl t ↦ let bad = rw (t, new_store) at h in absurd cc
    | inr t ↦ elim (Bool-cases (leb max_entries 0)) [
      | inl u ↦ let bad = rw (t, u, new_store) at h in absurd cc
      | inr u ↦
          let made = ok-injective (rw (t, u, new_store) at h) in
          (
            ground arith,
            ground arith,
            ap (λ (s : Store c). s.ttl_seconds) (sym made),
            ap (λ (s : Store c). s.max_entries) (sym made),
            ap (λ (s : Store c). s.caches) (sym made),
          )
    ]
  ]

  -- What `get` returns is the value that it read.
  pub get-value :
      (now : Clocks) (n : Text) (k : K) (t : Bool) (store : Store c)
      → (get c now n k t store).0
        ≡ (elim (read c now n k store) as (λ _. Option D) [ none ↦ none | some x ↦ some x.value ])
  unfolding get
  get-value now n k t store = elim (Option-cases (read c now n k store)) [
    | inl missing ↦ rw (missing, get) refl
    | inr (x, found) ↦ elim (Bool-cases t) [
      | inl b ↦ rw (found, b, get) refl
      | inr b ↦ rw (found, b, get) refl
    ]
  ]

  -- A call that reads only expires the cache, or rewrites what it read.
  abbrev pub Touched : Clocks → Text → K → Store c → Store c → Type 0
  Touched now m j s t =
      (t ≡ expired c now m s)
      ⊎ ((x : CacheEntry D) × (read c now m j s ≡ some x)
          × (t ≡ rewrite c now m j x.value (some x.meta) s))

  pub get-Touched :
      (now : Clocks) (m : Text) (j : K) (t : Bool) (s : Store c)
      → Touched now m j s (get c now m j t s).1
  unfolding get
  get-Touched now m j t s = elim (Option-cases (read c now m j s)) [
    | inl missing ↦ inl (rw (missing, get) refl)
    | inr (x, found) ↦ elim (Bool-cases t) [
      | inl b ↦ inr (x, found, rw (found, b, get) refl)
      | inr b ↦ inl (rw (found, b, get) refl)
    ]
  ]

  pub touch-Touched :
      (now : Clocks) (m : Text) (j : K) (s : Store c) → Touched now m j s (touch c now m j s).1
  unfolding touch
  touch-Touched now m j s = elim (Option-cases (read c now m j s)) [
    | inl missing ↦ inl (rw (missing, touch) refl)
    | inr (x, found) ↦ inr (x, found, rw (found, touch) refl)
  ]
