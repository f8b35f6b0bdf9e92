-- ===== src/Prelude/Dict.antt =====
-- Python's `dict` in insertion order, as an association list that holds no key twice.
use mathlib.Core.Path.{◌≡◌, sym, ap, ◌∙◌}
use mathlib.Core.Logic.{◌↔◌, ◌⊎◌, inl, inr}
use mathlib.Core.Option.{Option, none, some}
use mathlib.Core.List.{List, [], ◌∷◌, ◌++◌, foldl}
use native.Mathlib.Omega.{arith}
use nsp_migrator.Prelude.Tests.{if◌then◌else◌, Option-cases}
use nsp_migrator.Prelude.Eq.{Eq, ◌==◌, ==-cases}
use nsp_migrator.Prelude.Lists.{Elem, Elem-append, Elem-append_left, Elem-append_right}

abbrev pub Dict {ℓ κ} : Type ℓ → Type κ → Type (ℓ ⊔ κ)
Dict K V = List (K × V)

module _ {ℓ κ} {K : Type ℓ} {V : Type κ} where
  -- `d.values()`
  unfoldable pub values : Dict K V → List V
  values [] = []
  values ((_, v) ∷ d) = v ∷ values d

module _ {ℓ κ} {K : Type ℓ} {V : Type κ} ⦃e : Eq K⦄ where
  -- `d.get(k)`
  unfoldable pub lookup : K → Dict K V → Option V
  lookup k [] = none
  lookup k ((j, v) ∷ d) = if k == j then some v else lookup k d

  -- `d[k] = v`
  unfoldable pub insert : K → V → Dict K V → Dict K V
  insert k v [] = (k, v) ∷ []
  insert k v ((j, w) ∷ d) = if k == j then (k, v) ∷ d else (j, w) ∷ insert k v d

  -- `d.setdefault(k, v)`
  unfoldable pub set_default : K → V → Dict K V → Dict K V
  set_default k v [] = (k, v) ∷ []
  set_default k v ((j, w) ∷ d) = if k == j then (j, w) ∷ d else (j, w) ∷ set_default k v d

  -- `{key(x): x for x in xs}`
  unfoldable pub index_by : (V → K) → List V → Dict K V
  index_by key = foldl (λ d x. insert (key x) x d) []

  pub lookup-insert :
      (j k : K) (v : V) (d : Dict K V)
      → lookup j (insert k v d) ≡ (if j == k then some v else lookup j d)
  unfolding insert lookup
  lookup-insert j k v [] = ground arith
  lookup-insert j k v (_ ∷ d) = ground (arith, lookup-insert j k v d)

  pub lookup-insert_same : (k : K) (v : V) (d : Dict K V) → lookup k (insert k v d) ≡ some v
  unfolding lookup insert
  lookup-insert_same k v [] = ground arith
  lookup-insert_same k v (_ ∷ d) = ground (arith, lookup-insert_same k v d)

  pub lookup-set_default :
      (j k : K) (v : V) (d : Dict K V)
      → lookup j (set_default k v d)
        ≡ (if j == k then (elim (lookup k d) [ none ↦ some v | some w ↦ some w ]) else lookup j d)
  unfolding set_default lookup
  lookup-set_default j k v [] = ground arith
  lookup-set_default j k v (_ ∷ d) = ground (arith, lookup-set_default j k v d)

module _ {ℓ κ} {K : Type ℓ} {V : Type κ} ⦃e : Eq K⦄ where
  abbrev pub get_list : K → Dict K (List V) → List V
  get_list k d = elim (lookup k d) [ none ↦ [] | some vs ↦ vs ]

  -- `d[k].append(v)` on a `defaultdict(list)`, and `d.setdefault(k, []).append(v)`
  unfoldable pub append_at : K → V → Dict K (List V) → Dict K (List V)
  append_at k v [] = (k, v ∷ []) ∷ []
  append_at k v ((j, vs) ∷ d) =
      if k == j then (j, vs ++ (v ∷ [])) ∷ d else (j, vs) ∷ append_at k v d

  pub get_list-append_at :
      (j k : K) (v : V) (d : Dict K (List V))
      → get_list j (append_at k v d) ≡ (if j == k then get_list j d ++ (v ∷ []) else get_list j d)
  unfolding append_at lookup
  get_list-append_at j k v [] = ground arith
  get_list-append_at j k v (_ ∷ d) = ground (arith, get_list-append_at j k v d)

-- Lists of values under the key that a function gives, if it gives one.
module _ {K V : Type 0} ⦃e : Eq K⦄ (key : V → Option K) where
  unfoldable pub group_by : List V → Dict K (List V) → Dict K (List V)
  unfolding append_at
  group_by [] d = d
  group_by (x ∷ xs) d = group_by xs (elim (key x) [ none ↦ d | some k ↦ append_at k x d ])

  add_keyed :
      (z : V) (k : K) (x : V) (d : Dict K (List V))
      → Elem z (get_list k (elim (key x) [ none ↦ d | some j ↦ append_at j x d ]))
        ↔ (Elem z (get_list k d) ⊎ ((z ≡ x) × (key x ≡ some k)))
  add_keyed z k x d = elim (Option-cases (key x)) [
    | inl missing ↦ rw missing (λ m. inl m, λ m. elim m [ inl old ↦ old | inr (_, n) ↦ cc ])
    | inr (j, given) ↦
        rw (given, get_list-append_at k j x d)
          (elim (==-cases k j) [
            | inl (t, same) ↦ rw t (
              λ m. elim (Elem-append z (get_list k d) (x ∷ []) m) [
                | inl old ↦ inl old
                | inr (inl eq) ↦ inr (eq, ap some (sym same))
                | inr (inr nowhere) ↦ absurd nowhere
              ],
              λ m. elim m [
                | inl old ↦ Elem-append_left z (get_list k d) (x ∷ []) old
                | inr (eq, _) ↦ Elem-append_right z (get_list k d) (x ∷ []) (inl eq)
              ],
            )
            | inr (t, differ) ↦
                rw t
                  (λ m. inl m, λ m. elim m [ inl old ↦ old | inr (_, same) ↦ absurd (differ cc) ])
          ])
  ]

  -- Under a key stand the values of that key.
  pub Elem-group_by :
      (z : V) (k : K) (xs : List V) (d : Dict K (List V))
      → Elem z (get_list k (group_by xs d))
        ↔ (Elem z (get_list k d) ⊎ (Elem z xs × (key z ≡ some k)))
  unfolding group_by
  Elem-group_by z k [] d = (λ m. inl m, λ m. elim m [ inl old ↦ old | inr n ↦ absurd n.0 ])
  Elem-group_by z k (x ∷ xs) d =
      let next : Dict K (List V) = elim (key x) [ none ↦ d | some j ↦ append_at j x d ] in
      let (from, to) = Elem-group_by z k xs next in
      let (split, join) = add_keyed z k x d in
      (
        λ m. elim (from m) [
          | inr (l, e) ↦ inr (inr l, e)
          | inl l ↦ elim (split l) [
            | inl old ↦ inl old
            | inr (same, given) ↦ inr (inl same, ap key same ∙ given)
          ]
        ],
        λ m. to (elim m [
          | inl old ↦ inl (join (inl old))
          | inr (inl same, given) ↦ inl (join (inr (same, sym (ap key same) ∙ given)))
          | inr (inr l, given) ↦ inr (l, given)
        ]),
      )
