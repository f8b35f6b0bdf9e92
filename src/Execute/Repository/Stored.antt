-- ===== src/Execute/Repository/Stored.antt =====
-- What the repository holds after a plan is added.
use mathlib.Core.List.{append-nil, append_assoc}
use nsp_migrator.Prelude.{
  ℕ, ◌≡◌, refl, sym, ap, ◌∙◌, inl, inr, none, List, [], ◌∷◌, ◌++◌, some, Option-cases,
}
use nsp_migrator.Prelude.Eq.{==-cases, nat_eq}
use nsp_migrator.Prelude.Dict.{Dict, values, lookup, insert, lookup-insert_same}
use nsp_migrator.Prelude.Result.{ok, >>=-eq-ok, ok-injective}
use nsp_migrator.Execute.Plan.{ExecutePlan, ExecutePlanRule}
use nsp_migrator.Execute.Repository.{Repository, PlanEntry, rules_by_id, add_plan_with_rules}

-- A new key is appended.
values-insert :
    {V : Type 0} (k : ℕ) (v : V) (d : Dict ℕ V)
    → lookup k d ≡ none
    → values (insert k v d) ≡ values d ++ (v ∷ [])
unfolding values insert lookup
values-insert k v [] h = refl
values-insert k v ((j, w) ∷ d) h = elim (==-cases k j) [
  | inl (t, _) ↦ cc (rw t at h)
  | inr (t, _) ↦ rw t (ap (λ vs. w ∷ vs) (values-insert k v d (rw t at h)))
]

values-rules_by_id :
    (k : ℕ) (rules : List ExecutePlanRule) (d d' : Dict ℕ ExecutePlanRule)
    → rules_by_id k rules d ≡ ok d'
    → values d' ≡ values d ++ rules
unfolding rules_by_id
values-rules_by_id k [] d d' e = rw (append-nil, sym (ok-injective e)) refl
values-rules_by_id k (rule ∷ rules) d d' e = elim (==-cases rule.execute_plan_id k) [
  | inr (t, _) ↦ cc (rw t at e)
  | inl (t, _) ↦ elim (Option-cases (lookup rule.id d)) [
    | inr (_, f) ↦ cc (rw f at (rw t at e))
    | inl f ↦
        values-rules_by_id k rules (insert rule.id rule d) d' (rw f at (rw t at e))
        ∙ (rw (values-insert rule.id rule d f) (append_assoc (values d) (rule ∷ []) rules))
  ]
]

-- The repository holds the plan and exactly the rules given with it, in their order.
pub add_plan_with_rules-eq-ok :
    (plan : ExecutePlan) (rules : List ExecutePlanRule) (repo repo' : Repository)
    → add_plan_with_rules plan rules repo ≡ ok repo'
    → (entry : PlanEntry) × (lookup plan.id repo' ≡ some entry)
      × (entry.plan ≡ plan)
      × (values entry.rules ≡ rules)
unfolding add_plan_with_rules values
add_plan_with_rules-eq-ok plan rules repo repo' e = elim (Option-cases (lookup plan.id repo)) [
  | inr (_, f) ↦ cc (rw (f, add_plan_with_rules) at e)
  | inl f ↦
      let (d, made, done) =
        >>=-eq-ok (rules_by_id plan.id rules [])
          (λ by_id. ok (insert plan.id (record { plan = plan; rules = by_id }) repo))
          (rw (f, add_plan_with_rules) at e) in
      (
        record { plan = plan; rules = d },
        rw (sym (ok-injective done))
            (lookup-insert_same plan.id (record { plan = plan; rules = d }) repo),
        refl,
        values-rules_by_id plan.id rules [] d made,
      )
]
