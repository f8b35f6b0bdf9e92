-- ===== src/Execute/Repository/Laws.antt =====
-- The keys of the repository, and what its updates leave alone.
use nsp_migrator.Prelude.{
  ℕ, ◌≡◌, refl, sym, ◌∙◌, inl, inr, some, List, [], ◌∷◌, arith, Option-cases,
}
use nsp_migrator.Prelude.Eq.{==-cases, nat_eq}
use nsp_migrator.Prelude.Dict.{Dict, lookup, insert, lookup-insert}
use nsp_migrator.Prelude.Result.{ok, >>=-eq-ok, ok-injective}
use nsp_migrator.Execute.Plan.{ExecutePlan, ExecutePlanRule}
use nsp_migrator.Execute.Repository.{
  PlanEntry, Repository, rules_by_id, add_plan_with_rules, get_plan, update_plan, update_plan_rule,
}

-- The rules of a plan stand under their identifiers, and name the plan.
abbrev pub RulesBelong : ℕ → Dict ℕ ExecutePlanRule → Type 0
RulesBelong k d =
    (j : ℕ) (rule : ExecutePlanRule)
    → lookup j d ≡ some rule
    → (rule.id ≡ j) × (rule.execute_plan_id ≡ k)

abbrev pub EntryBelongs : ℕ → PlanEntry → Type 0
EntryBelongs k entry = (entry.plan.id ≡ k) × RulesBelong k entry.rules

abbrev pub IsWellFormed : Repository → Type 0
IsWellFormed repo = (k : ℕ) (entry : PlanEntry) → lookup k repo ≡ some entry → EntryBelongs k entry

insert-RulesBelong :
    (k : ℕ) (rule : ExecutePlanRule) (d : Dict ℕ ExecutePlanRule)
    → RulesBelong k d
    → rule.execute_plan_id ≡ k
    → RulesBelong k (insert rule.id rule d)
insert-RulesBelong k rule d h e j found m = elim (==-cases j rule.id) [
  | inl (t, same) ↦
      let eq : found ≡ rule = cc (rw t at (sym (lookup-insert j rule.id rule d) ∙ m)) in
      (rw eq (sym same), rw eq e)
  | inr (t, _) ↦ h j found (rw t at (sym (lookup-insert j rule.id rule d) ∙ m))
]

insert-IsWellFormed :
    (k : ℕ) (entry : PlanEntry) (repo : Repository)
    → IsWellFormed repo
    → EntryBelongs k entry
    → IsWellFormed (insert k entry repo)
insert-IsWellFormed k entry repo h e j found m = elim (==-cases j k) [
  | inl (t, same) ↦
      let eq : entry ≡ found = cc (rw t at (sym (lookup-insert j k entry repo) ∙ m)) in
      rw (same, sym eq) e
  | inr (t, _) ↦ h j found (rw t at (sym (lookup-insert j k entry repo) ∙ m))
]

rules_by_id-RulesBelong :
    (k : ℕ) (rules : List ExecutePlanRule) (d d' : Dict ℕ ExecutePlanRule)
    → RulesBelong k d
    → rules_by_id k rules d ≡ ok d'
    → RulesBelong k d'
unfolding rules_by_id
rules_by_id-RulesBelong k [] d d' h e = rw (sym (ok-injective e)) h
rules_by_id-RulesBelong k (rule ∷ rules) d d' h e = elim (==-cases rule.execute_plan_id k) [
  | inr (t, _) ↦ cc (rw t at e)
  | inl (t, same) ↦ elim (Option-cases (lookup rule.id d)) [
    | inr (_, f) ↦ cc (rw f at (rw t at e))
    | inl f ↦
        rules_by_id-RulesBelong k rules (insert rule.id rule d) d'
          (insert-RulesBelong k rule d h same) (rw f at (rw t at e))
  ]
]

no_rules-RulesBelong : (k : ℕ) → RulesBelong k []
unfolding lookup
no_rules-RulesBelong k j rule m = cc

pub add_plan_with_rules-IsWellFormed :
    (plan : ExecutePlan) (rules : List ExecutePlanRule) (repo repo' : Repository)
    → IsWellFormed repo
    → add_plan_with_rules plan rules repo ≡ ok repo'
    → IsWellFormed repo'
unfolding add_plan_with_rules
add_plan_with_rules-IsWellFormed plan rules repo repo' h e =
    elim (Option-cases (lookup plan.id repo)) [
      | inr (_, f) ↦ cc (rw (f, add_plan_with_rules) at e)
      | inl f ↦
          let (d, made, done) =
            >>=-eq-ok (rules_by_id plan.id rules [])
              (λ by_id. ok (insert plan.id (record { plan = plan; rules = by_id }) repo))
              (rw (f, add_plan_with_rules) at e) in
          rw (sym (ok-injective done)) (
            insert-IsWellFormed plan.id (record { plan = plan; rules = d }) repo h
              (
                refl,
                rules_by_id-RulesBelong plan.id rules [] d (no_rules-RulesBelong plan.id) made,
              ))
    ]

pub update_plan-IsWellFormed :
    (plan : ExecutePlan) (repo repo' : Repository)
    → IsWellFormed repo
    → update_plan plan repo ≡ ok repo'
    → IsWellFormed repo'
unfolding update_plan
update_plan-IsWellFormed plan repo repo' h e = elim (Option-cases (lookup plan.id repo)) [
  | inl f ↦ cc (rw (f, update_plan) at e)
  | inr (entry, f) ↦ rw (sym (ok-injective (rw (f, update_plan) at e))) (
      insert-IsWellFormed plan.id (record { plan = plan; rules = entry.rules }) repo h
        (refl, (h plan.id entry f).1))
]

-- A successful update finds its entry, and replaces one rule of it.
pub update_plan_rule-eq-ok :
    (rule : ExecutePlanRule) (repo repo' : Repository)
    → update_plan_rule rule repo ≡ ok repo'
    → (entry : PlanEntry) × (lookup rule.execute_plan_id repo ≡ some entry)
      × (repo'
          ≡ insert rule.execute_plan_id
              (record { plan = entry.plan; rules = insert rule.id rule entry.rules })
              repo)
unfolding update_plan_rule
update_plan_rule-eq-ok rule repo repo' e = elim (Option-cases (lookup rule.execute_plan_id repo)) [
  | inl f ↦ cc (rw (f, update_plan_rule) at e)
  | inr (entry, f) ↦ elim (Option-cases (lookup rule.id entry.rules)) [
    | inl g ↦ cc (rw g at (rw (f, update_plan_rule) at e))
    | inr (_, g) ↦ (entry, f, sym (ok-injective (rw g at (rw (f, update_plan_rule) at e))))
  ]
]

pub update_plan_rule-IsWellFormed :
    (rule : ExecutePlanRule) (repo repo' : Repository)
    → IsWellFormed repo
    → update_plan_rule rule repo ≡ ok repo'
    → IsWellFormed repo'
update_plan_rule-IsWellFormed rule repo repo' h e =
    let (entry, f, same) = update_plan_rule-eq-ok rule repo repo' e in
    rw same (
      insert-IsWellFormed rule.execute_plan_id
        (record { plan = entry.plan; rules = insert rule.id rule entry.rules }) repo h
        (
          (h rule.execute_plan_id entry f).0,
          insert-RulesBelong rule.execute_plan_id rule entry.rules
              (h rule.execute_plan_id entry f).1 refl,
        ))

-- An update of a rule changes no plan.
pub get_plan-update_plan_rule :
    (k : ℕ) (rule : ExecutePlanRule) (repo repo' : Repository)
    → update_plan_rule rule repo ≡ ok repo'
    → get_plan k repo' ≡ get_plan k repo
unfolding get_plan
get_plan-update_plan_rule k rule repo repo' e =
    let (entry, f, same) = update_plan_rule-eq-ok rule repo repo' e in
    rw
      (
        same,
        get_plan,
        lookup-insert k rule.execute_plan_id
            (record { plan = entry.plan; rules = insert rule.id rule entry.rules }) repo,
      )
      (elim (==-cases k rule.execute_plan_id) [
        | inl (t, eq) ↦
            let here : lookup k repo ≡ some entry = rw eq f in rw (t, here, get_plan) refl
        | inr (t, _) ↦ rw t refl
      ])

-- A plan that is found under `k` has the identifier `k`.
pub get_plan-IsWellFormed :
    (k : ℕ) (plan : ExecutePlan) (repo : Repository)
    → IsWellFormed repo
    → get_plan k repo ≡ some plan
    → plan.id ≡ k
unfolding get_plan
get_plan-IsWellFormed k plan repo h e = elim (Option-cases (lookup k repo)) [
  | inl f ↦ cc (rw (f, get_plan) at e)
  | inr (entry, f) ↦
      let same : entry.plan ≡ plan = cc (rw (f, get_plan) at e) in rw (sym same) (h k entry f).0
]

-- An update of a plan is what the next reading returns.
pub get_plan-update_plan :
    (plan : ExecutePlan) (repo repo' : Repository)
    → update_plan plan repo ≡ ok repo'
    → get_plan plan.id repo' ≡ some plan
unfolding get_plan update_plan
get_plan-update_plan plan repo repo' e = elim (Option-cases (lookup plan.id repo)) [
  | inl f ↦ cc (rw (f, update_plan) at e)
  | inr (entry, f) ↦
      rw
        (
          sym (ok-injective (rw (f, update_plan) at e)),
          get_plan,
          lookup-insert plan.id plan.id (record { plan = plan; rules = entry.rules }) repo,
        )
        (ground arith)
]

-- The repositories that the operations make from the empty one.
pub data Reachable : Repository → Type 0 where
  start : Reachable []
  added :
      {repo repo' : Repository} (plan : ExecutePlan) (rules : List ExecutePlanRule)
      → Reachable repo
      → add_plan_with_rules plan rules repo ≡ ok repo'
      → Reachable repo'
  updated :
      {repo repo' : Repository} (plan : ExecutePlan)
      → Reachable repo
      → update_plan plan repo ≡ ok repo'
      → Reachable repo'
  rule_updated :
      {repo repo' : Repository} (rule : ExecutePlanRule)
      → Reachable repo
      → update_plan_rule rule repo ≡ ok repo'
      → Reachable repo'

-- In every repository that the operations make from the empty one, each plan is stored under its
-- own identifier, and each of its rules under the rule's identifier and names the plan.
pub Reachable-IsWellFormed : (repo : Repository) → Reachable repo → IsWellFormed repo
unfolding lookup
Reachable-IsWellFormed repo start = λ k entry m. cc
Reachable-IsWellFormed repo (added {repo = old} plan rules h e) =
    add_plan_with_rules-IsWellFormed plan rules old repo (Reachable-IsWellFormed old h) e
Reachable-IsWellFormed repo (updated {repo = old} plan h e) =
    update_plan-IsWellFormed plan old repo (Reachable-IsWellFormed old h) e
Reachable-IsWellFormed repo (rule_updated {repo = old} rule h e) =
    update_plan_rule-IsWellFormed rule old repo (Reachable-IsWellFormed old h) e
