-- ===== src/Execute/Comparer.antt =====
-- Comparison of a planned rule with the existing policies
-- (src/app/modules/execute/services/rules_comparer.py).
pub mod Index
pub mod Verdicts
pub mod Covered
use nsp_migrator.Prelude.{ℕ, Bool, Option, none, some, List, [], ◌∷◌, ◌++◌, if◌then◌else◌}
use nsp_migrator.Prelude.Eq.{list_eq, nat_eq}
use nsp_migrator.Prelude.Dict.{Dict, append_at, get_list, lookup}
use nsp_migrator.Prelude.Result.{Result, ok, err}
use nsp_migrator.Prelude.Text.{Text}
use nsp_migrator.Hash.{Builtins}
use nsp_migrator.Execute.Rules.{
  RuleMatchStatus, exact_match, covered_match, new, match_error, RuleBody, SdwanRule,
  SdwanPolicyCatalog, CoverageDetail,
}
use nsp_migrator.Execute.Values.{NormalizationError}
use nsp_migrator.Execute.Resolver.{
  RuleValuesResolver, rule_values_resolver, ResolvedRuleValues, resolve_rule,
}
use nsp_migrator.Execute.ExactSignature.{exact_signature}
use nsp_migrator.Execute.Coverage.{analyze_coverage}

-- The text of `match_info`, by what it names.
pub data MatchInfo : Type 0 where
  error_info : NormalizationError → MatchInfo
  exact_info : ℕ → MatchInfo
  cover_info : ℕ → MatchInfo
  new_info : MatchInfo

pub record RuleCompareResult : Type 0 where
  pub match_status : RuleMatchStatus
  pub matched_sdwan_rule_id : Option ℕ
  pub match_info : MatchInfo
  pub coverage_details : List CoverageDetail

pub record ExcludedExistingRule : Type 0 where
  pub sdwan_rule_id : ℕ
  pub reason : NormalizationError

pub record ResolvedSdwanRule : Type 0 where
  pub rule : SdwanRule
  pub values : ResolvedRuleValues

pub record RulesComparer : Type 0 where
  pub resolver : RuleValuesResolver
  pub resolved_sdwan_rules : List ResolvedSdwanRule
  pub rules_index : Dict Text (List ResolvedSdwanRule)
  pub excluded_existing_rules : List ExcludedExistingRule

-- the loop over the existing rules
unfoldable pub compare_coverage : List ResolvedSdwanRule → ResolvedRuleValues → RuleCompareResult
compare_coverage [] planned = record {
  match_status = new;
  matched_sdwan_rule_id = none;
  match_info = new_info;
  coverage_details = [];
}
compare_coverage (existing ∷ rest) planned =
    let coverage = analyze_coverage existing.values planned in
    let later = compare_coverage rest planned in
    if coverage.is_covered
    then record {
      match_status = covered_match;
      matched_sdwan_rule_id = some existing.rule.id;
      match_info = cover_info existing.rule.id;
      coverage_details = coverage.details;
    }
    else later

module _ (b : Builtins) where
  -- the body of the loop of `__init__`
  unfoldable pub load_resolved :
      SdwanRule → Result NormalizationError ResolvedRuleValues → RulesComparer → RulesComparer
  unfolding append_at
  load_resolved rule (err e) c = record c {
    excluded_existing_rules =
        c.excluded_existing_rules ++ (record { sdwan_rule_id = rule.id; reason = e } ∷ []);
  }
  load_resolved rule (ok values) c = record c {
    resolved_sdwan_rules = c.resolved_sdwan_rules ++ (record { rule = rule; values = values } ∷ []);
    rules_index =
        append_at (exact_signature b values.normalized) (record { rule = rule; values = values })
          c.rules_index;
  }

  unfoldable pub load_rules : List SdwanRule → RulesComparer → RulesComparer
  unfolding load_resolved
  load_rules [] c = c
  load_rules (rule ∷ rules) c =
      load_rules rules (load_resolved rule (resolve_rule c.resolver rule.body) c)

  -- `__init__`
  unfoldable pub rules_comparer : SdwanPolicyCatalog → RulesComparer
  unfolding load_rules
  rules_comparer catalog = load_rules catalog.rules (record {
    resolver = rule_values_resolver catalog.zones catalog.services catalog.address_objects;
    resolved_sdwan_rules = [];
    rules_index = [];
    excluded_existing_rules = [];
  })

  unfoldable pub compare_candidates :
      List ResolvedSdwanRule → RulesComparer → ResolvedRuleValues → RuleCompareResult
  compare_candidates (candidate ∷ _) c planned = record {
    match_status = exact_match;
    matched_sdwan_rule_id = some candidate.rule.id;
    match_info = exact_info candidate.rule.id;
    coverage_details = [];
  }
  compare_candidates [] c planned = compare_coverage c.resolved_sdwan_rules planned

  unfoldable pub compare_resolved :
      Result NormalizationError ResolvedRuleValues → RulesComparer → RuleCompareResult
  unfolding compare_candidates lookup
  compare_resolved (err e) c = record {
    match_status = match_error;
    matched_sdwan_rule_id = none;
    match_info = error_info e;
    coverage_details = [];
  }
  compare_resolved (ok planned) c =
      compare_candidates (get_list (exact_signature b planned.normalized) c.rules_index) c planned

  unfoldable pub compare_rule : RulesComparer → RuleBody → RuleCompareResult
  unfolding compare_resolved
  compare_rule c rule = compare_resolved (resolve_rule c.resolver rule) c
