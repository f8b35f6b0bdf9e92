-- ===== src/Execute/Repository.antt =====
-- The repository of plans over the runtime cache
-- (src/app/modules/execute/adapters/runtime_cache/repositories.py).
-- The cache is a dictionary of the entries that have not expired; `touch` changes only when one does.
pub mod Laws
pub mod Stored
use nsp_migrator.Prelude.{
  ℕ, Bool, true, false, ◌&&◌, not, Option, none, some, List, [], ◌∷◌, leb, if◌then◌else◌,
}
use nsp_migrator.Prelude.Eq.{◌==◌, contains, nat_eq}
use nsp_migrator.Prelude.Dict.{Dict, lookup, insert, values}
use nsp_migrator.Prelude.Result.{Result, ok, err, ◌>>=◌}
use nsp_migrator.Prelude.Sort.{sorted}
use nsp_migrator.Execute.Rules.{RuleMatchStatus, RulePushStatus, match_status_eq, push_status_eq}
use nsp_migrator.Execute.Plan.{ExecutePlan, ExecutePlanRule}

-- `_ExecutePlanCacheEntry`
pub record PlanEntry : Type 0 where
  pub plan : ExecutePlan
  pub rules : Dict ℕ ExecutePlanRule

abbrev pub Repository : Type 0
Repository = Dict ℕ PlanEntry

-- The `ValueError`s of the repository.
pub data RepositoryError : Type 0 where
  plan_exists plan_not_found foreign_rule rule_exists rule_not_found : ℕ → RepositoryError

-- the loop of `add_plan_with_rules`
unfoldable pub rules_by_id :
    ℕ
    → List ExecutePlanRule
    → Dict ℕ ExecutePlanRule
    → Result RepositoryError (Dict ℕ ExecutePlanRule)
unfolding lookup insert nat_eq
rules_by_id plan_id [] d = ok d
rules_by_id plan_id (rule ∷ rules) d =
    let rest = rules_by_id plan_id rules (insert rule.id rule d) in
    if not (rule.execute_plan_id == plan_id)
    then err (foreign_rule rule.id)
    else elim (lookup rule.id d) [ some _ ↦ err (rule_exists rule.id) | none ↦ rest ]

unfoldable pub add_plan_with_rules :
    ExecutePlan → List ExecutePlanRule → Repository → Result RepositoryError Repository
unfolding rules_by_id
add_plan_with_rules plan rules repo = elim (lookup plan.id repo) [
  | some _ ↦ err (plan_exists plan.id)
  | none ↦ rules_by_id plan.id rules [] >>= λ by_id.
      ok (insert plan.id (record { plan = plan; rules = by_id }) repo)
]

unfoldable pub get_plan : ℕ → Repository → Option ExecutePlan
unfolding lookup nat_eq
get_plan plan_id repo = elim (lookup plan_id repo) [ none ↦ none | some entry ↦ some entry.plan ]

unfoldable pub update_plan : ExecutePlan → Repository → Result RepositoryError Repository
unfolding lookup insert nat_eq
update_plan plan repo = elim (lookup plan.id repo) [
  | none ↦ err (plan_not_found plan.id)
  | some entry ↦ ok (insert plan.id (record { plan = plan; rules = entry.rules }) repo)
]

unfoldable pub update_plan_rule : ExecutePlanRule → Repository → Result RepositoryError Repository
unfolding lookup insert nat_eq
update_plan_rule rule repo = elim (lookup rule.execute_plan_id repo) [
  | none ↦ err (plan_not_found rule.execute_plan_id)
  | some entry ↦ elim (lookup rule.id entry.rules) [
    | none ↦ err (rule_not_found rule.id)
    | some _ ↦ ok (
        insert rule.execute_plan_id
          (record { plan = entry.plan; rules = insert rule.id rule entry.rules }) repo)
  ]
]

-- `_matches_filters`
unfoldable pub matches_filters :
    Option RuleMatchStatus → Option (List RulePushStatus) → ExecutePlanRule → Bool
unfolding match_status_eq push_status_eq
matches_filters match_status push_statuses rule =
    (elim match_status [ none ↦ true | some s ↦ rule.match_status == s ])
    && (elim push_statuses [ none ↦ true | some ss ↦ contains rule.push_status ss ])

unfoldable pub filter_rules {ℓ} : {A : Type ℓ} → (A → Bool) → List A → List A
filter_rules p [] = []
filter_rules p (x ∷ xs) = let rest = filter_rules p xs in if p x then x ∷ rest else rest

-- `key=lambda rule: rule.priority`
abbrev pub by_priority : ExecutePlanRule → ExecutePlanRule → Bool
by_priority a b = leb a.priority b.priority

unfoldable pub list_plan_rules :
    ℕ → Option RuleMatchStatus → Option (List RulePushStatus) → Repository → List ExecutePlanRule
unfolding lookup values matches_filters filter_rules sorted nat_eq
list_plan_rules plan_id match_status push_statuses repo = elim (lookup plan_id repo) [
  | none ↦ []
  | some entry ↦
      sorted by_priority
        (filter_rules (matches_filters match_status push_statuses) (values entry.rules))
]
