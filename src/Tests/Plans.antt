-- ===== src/Tests/Plans.antt =====
-- Reading, preparing and pushing a plan with one rule.
use nsp_migrator.Prelude.{ℕ, ◌≡◌, ◌⊎◌, refl, inl, inr, none, some, List, [], ◌∷◌}
use nsp_migrator.Prelude.Eq.{nat_eq}
use nsp_migrator.Prelude.Dict.{lookup, index_by}
use nsp_migrator.Prelude.Result.{ok, err}
use nsp_migrator.Prelude.Sort.{sorted}
use nsp_migrator.Prelude.Text.{codes}
use nsp_migrator.Catalog.{SdwanRulePriority}
use nsp_migrator.Catalog.Fingerprint.{get_fingerprint, SdwanFullCatalog}
use nsp_migrator.Mapping.Entities.{
  MappingScope, MappingScopeRulesPriority, MappingScopeRule, MappingScopeRuleOperand,
  MappingScopeRuleOperandRole, MappingScopeRuleAction, MappingEntityResult, MappingEntityType,
  create_unresolved, select_direct,
}
use nsp_migrator.Execute.Rules.{RuleMatchStatus, SdwanPolicyCatalog}
use nsp_migrator.Execute.Comparer.{new_info}
use nsp_migrator.Execute.Plan.{ExecutePlan, create_plan, ExecutePlanRule, create_plan_rule}
use nsp_migrator.Execute.MappingReader.{
  MappedRuleData, get_mapping_scope_rules, mapping_scope_data, unmatched_objects, by_rule_priority,
}
use nsp_migrator.Execute.MappingReader.Rules.{
  AllRead, get_mapping_scope_rules_exact, unmatched_blocks_execution,
}
use nsp_migrator.Execute.Gateway.{PushRuleResult, push_result, push_rules}
use nsp_migrator.Execute.Gateway.Pushing.{IsMisplaced, Sent, push_rules_outcomes}
use nsp_migrator.Execute.Repository.{Repository, add_plan_with_rules, get_plan}
use nsp_migrator.Execute.Repository.Laws.{IsWellFormed, start, added, Reachable-IsWellFormed}
use nsp_migrator.Execute.Push.{World, push_execute_plan_rules, already_pushed}
use nsp_migrator.Execute.Push.Once.{push_once}
use nsp_migrator.Execute.Push.Guards.{Agrees, push_guarded}
use nsp_migrator.Execute.Push.Recorded.{Recorded, record_results_exact}
use nsp_migrator.Execute.Prepare.{PrepareExecutePlanResult, prepare_result, prepare_execute_plan}
use nsp_migrator.Execute.Prepare.Stored.{IsCatalogOf, IsPrepared, prepare_execute_plan_stores}
use nsp_migrator.Prelude.Dict.{insert}
use native.Mathlib.Decide.{ℕ_discrete}
use nsp_migrator.Hash.{json_hash}
use nsp_migrator.Execute.Resolver.{resolve_rule}
use nsp_migrator.Execute.Resolver.{rule_values_resolver}
use nsp_migrator.Execute.Comparer.{compare_coverage}
use nsp_migrator.Tests.Data.{
  plain, system, device, full_catalog, inside, outside, web, anything, objects, narrow,
}

abbrev scope : MappingScope
unfolding get_fingerprint
scope = record {
  id = 1;
  title = codes "t";
  canonical_snapshot_id = 1;
  csp_profile_id = 1;
  vpc_id = codes "v";
  sdwan_target_id = codes "d";
  rules_priority = MappingScopeRulesPriority.local;
  catalog_fingerprint = get_fingerprint plain full_catalog;
  created_at = 0;
  rules = none;
}

abbrev operand : ℕ → MappingScopeRuleOperandRole → MappingScopeRuleOperand
operand id role = record {
  id = id;
  mapping_scope_rule_id = 1;
  role = role;
  mapping_entity_result_id = id;
}

abbrev scope_rule : MappingScopeRule
scope_rule = record {
  id = 1;
  mapping_scope_id = 1;
  canonical_rule_id = 1;
  name = codes "r";
  action = MappingScopeRuleAction.accept;
  priority = 1;
  operands = some (
      operand 1 MappingScopeRuleOperandRole.src_zone
      ∷ operand 2 MappingScopeRuleOperandRole.dst_zone
      ∷ operand 3 MappingScopeRuleOperandRole.src_addr_object
      ∷ operand 4 MappingScopeRuleOperandRole.dst_addr_object
      ∷ operand 5 MappingScopeRuleOperandRole.service
      ∷ []);
}

abbrev unresolved_result : ℕ → MappingEntityType → MappingEntityResult
unfolding create_unresolved
unresolved_result id type =
    create_unresolved (record {
      id = id;
      now = 0;
      mapping_scope_id = 1;
      entity_type = type;
      canonical_entity_id = 0;
    })

abbrev result : ℕ → MappingEntityType → ℕ → MappingEntityResult
unfolding select_direct
result id type selected = select_direct (unresolved_result id type) selected

abbrev results : List MappingEntityResult
results =
    result 1 MappingEntityType.zone 1
    ∷ result 2 MappingEntityType.zone 2
    ∷ result 3 MappingEntityType.addr 3
    ∷ result 4 MappingEntityType.addr 3
    ∷ result 5 MappingEntityType.service 1
    ∷ []

abbrev mapped : MappedRuleData
mapped = record {
  id = 1;
  name = codes "r";
  action = MappingScopeRuleAction.accept;
  priority = 1;
  src_zones = 1 ∷ [];
  dst_zones = 2 ∷ [];
  src_addr_objects = 3 ∷ [];
  dst_addr_objects = 3 ∷ [];
  services = 1 ∷ [];
}

get_mapping_scope_rules_exact_example :
    AllRead
      (index_by (λ (r : MappingEntityResult). r.id) results)
      (sorted by_rule_priority (scope_rule ∷ []))
      (mapped ∷ [])
unfolding get_mapping_scope_rules result insert ℕ_discrete unresolved_result
get_mapping_scope_rules_exact_example =
    get_mapping_scope_rules_exact (scope_rule ∷ []) results (mapped ∷ []) refl

unmatched_blocks_execution_example :
    get_mapping_scope_rules (scope_rule ∷ []) (unresolved_result 1 MappingEntityType.zone ∷ [])
    ≡ err unmatched_objects
unfolding unresolved_result create_unresolved
unmatched_blocks_execution_example =
    unmatched_blocks_execution (scope_rule ∷ []) (unresolved_result 1 MappingEntityType.zone ∷ [])
      (unresolved_result 1 MappingEntityType.zone) (inl refl) (λ e. cc)

-- the plan of the scope, with its rule
abbrev plan : ExecutePlan
unfolding create_plan get_fingerprint
plan = create_plan 0 5 1 (get_fingerprint plain full_catalog)

abbrev loaded : SdwanPolicyCatalog
loaded = record {
  target_id = codes "d";
  rules = [];
  zones = inside ∷ outside ∷ [];
  services = web ∷ anything ∷ [];
  address_objects = objects;
}

abbrev new_rule : ExecutePlanRule
unfolding create_plan_rule
new_rule =
    create_plan_rule 1 0 1 1 (record { body = narrow; name = codes "r" }) none RuleMatchStatus.new
      new_info []

abbrev repo : Repository
repo = (0, record { plan = plan; rules = (1, new_rule) ∷ [] }) ∷ []

abbrev prepared : PrepareExecutePlanResult
unfolding prepare_result mapping_scope_data
prepared = prepare_result plan (mapping_scope_data scope) (new_rule ∷ []) []

prepare_runs :
    prepare_execute_plan plain system (λ n. n) 5 1 (some scope) (scope_rule ∷ []) results 0 []
    ≡ ok (prepared, repo)
unfolding prepare_execute_plan result ℕ_discrete unresolved_result json_hash resolve_rule
    rule_values_resolver compare_coverage
prepare_runs = refl

prepare_execute_plan_stores_example :
    (ms : List MappedRuleData) × (full : SdwanFullCatalog) × (catalog : SdwanPolicyCatalog)
    × (get_mapping_scope_rules (scope_rule ∷ []) results ≡ ok ms)
    × (system.full_catalog 0 ≡ ok full)
    × (get_fingerprint plain full ≡ scope.catalog_fingerprint)
    × IsCatalogOf plain system (λ n. n) 5 scope.sdwan_target_id 0 catalog
    × IsPrepared plain 5 1 scope.catalog_fingerprint ms catalog prepared repo
prepare_execute_plan_stores_example =
    prepare_execute_plan_stores plain system (λ n. n) 5 1 scope (scope_rule ∷ []) results 0 [] repo
      prepared prepare_runs

plan_is_added : add_plan_with_rules plan (new_rule ∷ []) [] ≡ ok repo
unfolding add_plan_with_rules ℕ_discrete new_rule plan
plan_is_added = refl

Reachable-IsWellFormed_example : IsWellFormed repo
Reachable-IsWellFormed_example =
    Reachable-IsWellFormed repo (added plan (new_rule ∷ []) start plan_is_added)

repo-IsWellFormed : IsWellFormed repo
repo-IsWellFormed = Reachable-IsWellFormed repo (added plan (new_rule ∷ []) start plan_is_added)

abbrev world : World plain system
world = record {
  repo = repo;
  scopes = (1, scope) ∷ [];
  sdwan = 40;
  reports = [];
  report_store = λ _. ok tt;
}

push_once_example :
    ((push_execute_plan_rules plain system 0 world).1 ≡ world)
    ⊎ (push_execute_plan_rules plain system 0 (push_execute_plan_rules plain system 0 world).1
        ≡ (err (already_pushed 0), (push_execute_plan_rules plain system 0 world).1))
push_once_example = push_once plain system 0 world repo-IsWellFormed

push_guarded_example :
    ((push_execute_plan_rules plain system 0 world).1 ≡ world)
    ⊎ ((p : ExecutePlan) × (get_plan 0 world.repo ≡ some p) × Agrees plain system world p)
push_guarded_example = push_guarded plain system 0 world

abbrev pushed : PushRuleResult
unfolding push_result
pushed = push_result new_rule (ok 40)

record_results_exact_example : Recorded 0 ((1, new_rule) ∷ []) (pushed ∷ []) repo
unfolding lookup nat_eq ℕ_discrete pushed new_rule
record_results_exact_example =
    record_results_exact 0 ((1, new_rule) ∷ []) (pushed ∷ []) repo ((λ m. m), tt)
      ((new_rule, refl, refl, refl, new_rule, refl), tt)

local_is_placed : IsMisplaced device.type SdwanRulePriority.local → ⊥
local_is_placed (inl d) = d.1 refl
local_is_placed (inr g) = cc

push_rules_outcomes_example :
    (rs : List PushRuleResult) × (w : ℕ) × (push_rules system
        (codes "d")
        (new_rule ∷ [])
        SdwanRulePriority.local
        40
      ≡ (ok rs, w))
    × Sent system (codes "d") device.type SdwanRulePriority.local (new_rule ∷ []) 40 rs w
push_rules_outcomes_example =
    push_rules_outcomes system (codes "d") device (new_rule ∷ []) SdwanRulePriority.local 40 refl
      local_is_placed

-- The push creates the policy, and the plan holds its number.
push_runs : (push_execute_plan_rules plain system 0 world).1.sdwan ≡ 41
unfolding push_execute_plan_rules ℕ_discrete plan new_rule json_hash
push_runs = refl
