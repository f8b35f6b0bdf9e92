-- ===== src/Tests/Caches.antt =====
-- A cache that never evicts, and the store over it.
use nsp_migrator.Prelude.{
  ℕ, ◌+◌, ◌≡◌, refl, true, false, Option, none, some, List, [], ◌∷◌, ltb, if◌then◌else◌, arith,
}
use nsp_migrator.Prelude.Eq.{◌==◌, nat_eq}
use nsp_migrator.Prelude.Text.{codes}
use nsp_migrator.Runtime.Cache.{CacheEntry, TtlCache, Clocks, Store, new_store, get, set, get_meta}
use nsp_migrator.Runtime.Cache.Laws.{CacheLaws}
use nsp_migrator.Runtime.Cache.Histories.{
  Call, set_call, delete_call, last_set, run, get_returns_last_set,
}
use native.Mathlib.Decide.{ℕ_discrete}
use nsp_migrator.Runtime.Cache.Lifetime.{set_lives, get_extends}

-- What was put or popped, the last first, with the end of its lifetime.
record Log : Type 0 where
  size : ℕ
  lifetime : ℕ
  items : List (ℕ × Option (ℕ × CacheEntry ℕ))

abbrev alive : ℕ → Option (ℕ × CacheEntry ℕ) → Option (CacheEntry ℕ)
alive u none = none
alive u (some (end, x)) = if ltb u end then some x else none

abbrev find : ℕ → ℕ → List (ℕ × Option (ℕ × CacheEntry ℕ)) → Option (CacheEntry ℕ)
find u k [] = none
find u k ((j, x) ∷ items) = let rest = find u k items in if k == j then alive u x else rest

abbrev log_cache : TtlCache ℕ ℕ
log_cache = record {
  Cache = Log;
  new = λ m s. record { size = m; lifetime = s; items = [] };
  ttl = λ d. d.lifetime;
  maxsize = λ d. d.size;
  expire = λ t d. d;
  get = λ u k d. find u k d.items;
  put = λ t k x d. record d { items = (k, some (t + d.lifetime, x)) ∷ d.items };
  pop = λ t k d. record d { items = (k, none) ∷ d.items };
  keys = λ t d. [];
}

log_laws : CacheLaws log_cache
log_laws = record {
  get-new = λ m s u k. refl;
  get-expire = λ t u k x d h. h;
  get-put_same = λ t u k e x d h. ground arith;
  get-put_other = λ t u j k e x d differ h. ground arith;
  get-pop_same = λ t u k d. ground arith;
  get-pop_other = λ t u j k x d h. ground arith;
  get-put_fresh = λ t u k e d room after before. ground arith;
  get-expire_fresh = λ t u k d h. refl;
  ttl-new = λ m s. refl;
  maxsize-new = λ m s. refl;
  ttl-expire = λ t d. refl;
  maxsize-expire = λ t d. refl;
  ttl-put = λ t k e d. refl;
  maxsize-put = λ t k e d. refl;
  ttl-pop = λ t k d. refl;
  maxsize-pop = λ t k d. refl;
}

abbrev fresh_store : Store log_cache
fresh_store = record { ttl_seconds = 60; max_entries = 8; caches = [] }

abbrev clocks : ℕ → Clocks
clocks t = record { timer = t; utc = 1000 + t }

abbrev history : List (Call ℕ ℕ)
history =
    set_call (clocks 20) (codes "b") 1 8
    ∷ set_call (clocks 10) (codes "a") 2 9
    ∷ delete_call (clocks 5) (codes "a") 1
    ∷ set_call (clocks 1) (codes "a") 1 7
    ∷ []

get_test :
    (get log_cache (clocks 30) (codes "a") 2 false (run log_cache fresh_store history)).0 ≡ some 9
unfolding get run ℕ_discrete
get_test = refl

expired_test :
    (get log_cache (clocks 70) (codes "a") 2 false (run log_cache fresh_store history)).0 ≡ none
unfolding get run ℕ_discrete
expired_test = refl

get_returns_last_set_example : last_set history (codes "b") 1 ≡ some 8
unfolding new_store get run ℕ_discrete
get_returns_last_set_example =
    get_returns_last_set log_cache log_laws 60 8 fresh_store refl history (clocks 30) (codes "b") 1
      true 8 refl

set_lives_example :
    let s = run log_cache fresh_store history in
    ((get log_cache (clocks 80) (codes "b") 1 true (set log_cache (clocks 40) (codes "b") 1 5 s)).0
      ≡ some 5)
    × ((get_meta log_cache
          (clocks 80)
          (codes "b")
          1
          (set log_cache (clocks 40) (codes "b") 1 5 s)).0
        ≡ some (record {
          created_at = 1020;
          last_touched_at = 1040;
          expires_at = 1100;
          ttl_seconds = 60;
        }))
unfolding new_store get_meta run ℕ_discrete
set_lives_example =
    set_lives log_cache log_laws 60 8 fresh_store refl history (clocks 40) (clocks 80) (codes "b") 1
      5 true (omega arith) (omega arith)

get_extends_example :
    (get log_cache
      (clocks 120)
      (codes "b")
      1
      true
      (get log_cache (clocks 70) (codes "b") 1 true (run log_cache fresh_store history)).1).0
    ≡ some 8
unfolding new_store get run ℕ_discrete
get_extends_example =
    get_extends log_cache log_laws 60 8 fresh_store refl history (clocks 70) (clocks 120)
      (codes "b") 1 8 true (omega arith) (omega arith) refl
