-- ===== src/Execute/Prepare.antt =====
-- The use case that prepares a plan
-- (src/app/modules/execute/application/use_cases/prepare_execute_plan.py).
-- The clock and the UUIDs are arguments. No request changes the SD-WAN system, so the use case is a
-- function of the world that returns the repository it leaves.
pub mod Stored
use nsp_migrator.Prelude.{
  ℕ, suc, Bool, Option, none, some, List, [], ◌∷◌, ◌++◌, map, leb, length, if◌then◌else◌,
}
use nsp_migrator.Prelude.Eq.{◌==◌, nat_eq, list_eq}
use nsp_migrator.Prelude.Result.{Result, ok, err, ◌>>=◌}
use nsp_migrator.Prelude.Sort.{sorted}
use nsp_migrator.Prelude.Text.{Text}
use nsp_migrator.Hash.{Builtins}
use nsp_migrator.Catalog.Fingerprint.{SdwanFullCatalog, get_fingerprint}
use nsp_migrator.Mapping.Entities.{
  MappingScope, MappingScopeRule, MappingEntityResult, MappingScopeRuleAction,
}
use nsp_migrator.Execute.Rules.{
  RuleMatchStatus, exact_match, covered_match, new, match_error, match_status_eq, PlannedRuleDraft,
  SdwanRuleAction, SdwanPolicyCatalog,
}
use nsp_migrator.Execute.Comparer.{
  RulesComparer, RuleCompareResult, ExcludedExistingRule, rules_comparer, compare_rule,
}
use nsp_migrator.Execute.Plan.{ExecutePlan, create_plan, ExecutePlanRule, create_plan_rule}
use nsp_migrator.Execute.MappingReader.{
  MappedRuleData, MappingScopeData, mapping_scope_data, ReaderError, get_mapping_scope_rules,
}
use nsp_migrator.Execute.Gateway.{Sdwan, GatewayError, request_failed, get_sdwan_policy_catalog}
use nsp_migrator.Execute.Repository.{Repository, RepositoryError, add_plan_with_rules}

pub data PrepareError : Type 0 where
  scope_not_found : ℕ → PrepareError
  reader : ReaderError → PrepareError
  catalog_changed : ℕ → PrepareError
  gateway : GatewayError → PrepareError
  repository : RepositoryError → PrepareError

pub record PrepareExecutePlanResult : Type 0 where
  pub id : ℕ
  pub mapping_scope_id : ℕ
  pub sdwan_target_id : Text
  pub created_at : ℕ
  pub total_rules : ℕ
  pub new_rules : ℕ
  pub matched_rules : ℕ
  pub covered_rules : ℕ
  pub errors_through_match : ℕ
  pub excluded_existing_rules : List ExcludedExistingRule

-- `SdwanRuleAction(action)`
unfoldable pub rule_action : MappingScopeRuleAction → SdwanRuleAction
rule_action MappingScopeRuleAction.accept = SdwanRuleAction.accept
rule_action MappingScopeRuleAction.reject = SdwanRuleAction.reject

-- `_build_draft`
unfoldable pub build_draft : MappedRuleData → PlannedRuleDraft
unfolding rule_action
build_draft m = record {
  body = record {
    action = rule_action m.action;
    src_zones = m.src_zones;
    dst_zones = m.dst_zones;
    src_addr_objects = m.src_addr_objects;
    dst_addr_objects = m.dst_addr_objects;
    services = m.services;
  };
  name = m.name;
}

-- the three sets of `_collect_rule_refs`, before repetitions are dropped
unfoldable pub zone_refs : List PlannedRuleDraft → List ℕ
zone_refs [] = []
zone_refs (d ∷ ds) = d.src_zones ++ (d.dst_zones ++ zone_refs ds)

unfoldable pub service_refs : List PlannedRuleDraft → List ℕ
service_refs [] = []
service_refs (d ∷ ds) = d.services ++ service_refs ds

unfoldable pub addr_object_refs : List PlannedRuleDraft → List ℕ
addr_object_refs [] = []
addr_object_refs (d ∷ ds) = d.src_addr_objects ++ (d.dst_addr_objects ++ addr_object_refs ds)

abbrev pub by_mapped_priority : MappedRuleData → MappedRuleData → Bool
by_mapped_priority a b = leb a.priority b.priority

-- `sum(1 for rule in execute_plan_rules if rule.match_status == status)`
unfoldable pub count_status : RuleMatchStatus → List ExecutePlanRule → ℕ
unfolding match_status_eq
count_status s [] = 0
count_status s (rule ∷ rules) =
    let rest = count_status s rules in if rule.match_status == s then suc rest else rest

abbrev pub from_reader : {A : Type 0} → Result ReaderError A → Result PrepareError A
from_reader (ok a) = ok a
from_reader (err e) = err (reader e)

abbrev pub from_gateway : {A : Type 0} → Result GatewayError A → Result PrepareError A
from_gateway (ok a) = ok a
from_gateway (err e) = err (gateway e)

abbrev pub from_request : {A : Type 0} → Result Text A → Result PrepareError A
from_request (ok a) = ok a
from_request (err e) = err (gateway (request_failed e))

abbrev pub from_repository : {A : Type 0} → Result RepositoryError A → Result PrepareError A
from_repository (ok a) = ok a
from_repository (err e) = err (repository e)

abbrev pub scope_or : PrepareError → Option MappingScope → Result PrepareError MappingScope
scope_or e none = err e
scope_or e (some s) = ok s

module _ (b : Builtins) (uuid : ℕ → ℕ) where
  unfoldable pub plan_rule : RulesComparer → ℕ → ℕ → MappedRuleData → ExecutePlanRule
  unfolding build_draft compare_rule create_plan_rule
  plan_rule comparer plan_id n m =
      let draft = build_draft m in
      let result = compare_rule b comparer draft.body in
      create_plan_rule (uuid n) plan_id m.id m.priority draft result.matched_sdwan_rule_id
        result.match_status result.match_info result.coverage_details

  -- the loop over the prepared rules; the `n`th identifier is drawn for the first of them
  unfoldable pub plan_rules : RulesComparer → ℕ → ℕ → List MappedRuleData → List ExecutePlanRule
  unfolding plan_rule
  plan_rules comparer plan_id n [] = []
  plan_rules comparer plan_id n (m ∷ ms) =
      plan_rule comparer plan_id n m ∷ plan_rules comparer plan_id (suc n) ms

-- the value that `execute` returns
unfoldable pub prepare_result :
    ExecutePlan
    → MappingScopeData
    → List ExecutePlanRule
    → List ExcludedExistingRule
    → PrepareExecutePlanResult
unfolding count_status
prepare_result plan scope rules excluded = record {
  id = plan.id;
  mapping_scope_id = plan.mapping_scope_id;
  sdwan_target_id = scope.sdwan_target_id;
  created_at = plan.created_at;
  total_rules = length rules;
  new_rules = count_status new rules;
  matched_rules = count_status exact_match rules;
  covered_rules = count_status covered_match rules;
  errors_through_match = count_status match_error rules;
  excluded_existing_rules = excluded;
}

module _ (b : Builtins) (api : Sdwan) where
  -- the part of `execute` that uses the gateway
  unfoldable pub load_catalogs :
      ℕ
      → MappingScopeData
      → List MappedRuleData
      → api.State
      → Result PrepareError (Text × SdwanPolicyCatalog)
  unfolding build_draft zone_refs service_refs addr_object_refs get_fingerprint
      get_sdwan_policy_catalog list_eq nat_eq
  load_catalogs scope_id scope mapped s =
      let drafts = map build_draft mapped in
      from_request (api.acquire scope.csp_profile_id scope.vpc_id s) >>= λ _.
      from_request (api.full_catalog s) >>= λ full.
      if get_fingerprint b full == scope.catalog_fingerprint
      then (from_gateway (
            get_sdwan_policy_catalog api scope.sdwan_target_id (zone_refs drafts)
              (service_refs drafts) (addr_object_refs drafts) s)
          >>= (λ catalog. ok (get_fingerprint b full, catalog)))
      else err (catalog_changed scope_id)

module _ (b : Builtins) (uuid : ℕ → ℕ) (now : ℕ) where
  -- the part of `execute` after the catalogs are loaded
  unfoldable pub store_plan :
      ℕ
      → MappingScopeData
      → Text
      → List MappedRuleData
      → SdwanPolicyCatalog
      → Repository
      → Result PrepareError (PrepareExecutePlanResult × Repository)
  unfolding create_plan rules_comparer plan_rules add_plan_with_rules prepare_result
  store_plan scope_id scope fingerprint mapped catalog repo =
      let plan = create_plan (uuid 0) now scope_id fingerprint in
      let comparer = rules_comparer b catalog in
      let rules = plan_rules b uuid comparer plan.id 1 mapped in
      from_repository (add_plan_with_rules plan rules repo) >>= λ repo'.
      ok (prepare_result plan scope rules comparer.excluded_existing_rules, repo')

module _ (b : Builtins) (api : Sdwan) (uuid : ℕ → ℕ) (now : ℕ) where
  -- `execute`, from the scope, the rules and the results that the mapping module stores
  unfoldable pub prepare_execute_plan :
      ℕ
      → Option MappingScope
      → List MappingScopeRule
      → List MappingEntityResult
      → api.State
      → Repository
      → Result PrepareError (PrepareExecutePlanResult × Repository)
  unfolding mapping_scope_data get_mapping_scope_rules sorted load_catalogs store_plan
  prepare_execute_plan scope_id stored rules results s repo =
      scope_or (scope_not_found scope_id) stored >>= λ found.
      from_reader (get_mapping_scope_rules rules results) >>= λ mapped.
      let scope = mapping_scope_data found in
      let in_order = sorted by_mapped_priority mapped in
      load_catalogs b api scope_id scope in_order s >>= λ loaded.
      store_plan b uuid now scope_id scope loaded.0 in_order loaded.1 repo
