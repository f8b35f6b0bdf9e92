-- ===== src/Execute/Plan.antt =====
-- Execute plans and their rules (src/app/modules/execute/domain/entities.py).
-- A UUID and a time are numbers, given to `create` by its caller.
use nsp_migrator.Prelude.{ℕ, Option, none, some, List}
use nsp_migrator.Prelude.Eq.{Eq}
use nsp_migrator.Prelude.Text.{Text}
use nsp_migrator.Execute.Rules.{
  RuleMatchStatus, RulePushStatus, ExecutePlanPushStatus, CoverageDetail, PlannedRuleDraft,
}
use nsp_migrator.Execute.Comparer.{MatchInfo}

pub record ExecutePlan : Type 0 where
  pub id : ℕ
  pub mapping_scope_id : ℕ
  pub catalog_fingerprint : Text
  pub created_at : ℕ
  pub push_status : ExecutePlanPushStatus

-- `ExecutePlan.create`
unfoldable pub create_plan : ℕ → ℕ → ℕ → Text → ExecutePlan
create_plan id now mapping_scope_id catalog_fingerprint = record {
  id = id;
  mapping_scope_id = mapping_scope_id;
  catalog_fingerprint = catalog_fingerprint;
  created_at = now;
  push_status = ExecutePlanPushStatus.pending;
}

unfoldable pub mark_push_executed : ExecutePlan → ExecutePlan
mark_push_executed plan = record plan { push_status = ExecutePlanPushStatus.executed }

pub record ExecutePlanRule : Type 0 where
  pub id : ℕ
  pub execute_plan_id : ℕ
  pub mapping_scope_rule_id : ℕ
  pub priority : ℕ
  pub draft : PlannedRuleDraft
  pub matched_sdwan_rule_id : Option ℕ
  pub match_status : RuleMatchStatus
  pub match_info : MatchInfo
  pub coverage_details : List CoverageDetail
  pub push_status : RulePushStatus
  pub pushed_sdwan_rule_id : Option ℕ
  pub push_error : Option Text

-- `ExecutePlanRule.create`
unfoldable pub create_plan_rule :
    (id execute_plan_id mapping_scope_rule_id priority : ℕ)
    → PlannedRuleDraft
    → Option ℕ
    → RuleMatchStatus
    → MatchInfo
    → List CoverageDetail
    → ExecutePlanRule
create_plan_rule id plan_id scope_rule_id priority draft matched status info details = record {
  id = id;
  execute_plan_id = plan_id;
  mapping_scope_rule_id = scope_rule_id;
  priority = priority;
  draft = draft;
  matched_sdwan_rule_id = matched;
  match_status = status;
  match_info = info;
  coverage_details = details;
  push_status = RulePushStatus.pending;
  pushed_sdwan_rule_id = none;
  push_error = none;
}

unfoldable pub mark_push_succeeded : ExecutePlanRule → ℕ → ExecutePlanRule
mark_push_succeeded rule sdwan_rule_id = record rule {
  push_status = RulePushStatus.succeeded;
  pushed_sdwan_rule_id = some sdwan_rule_id;
  push_error = none;
}

unfoldable pub mark_push_failed : ExecutePlanRule → Text → ExecutePlanRule
mark_push_failed rule error = record rule {
  push_status = RulePushStatus.failed;
  pushed_sdwan_rule_id = none;
  push_error = some error;
}

plan_status_dec : Discrete ExecutePlanPushStatus
plan_status_dec = hlevel

instance unfoldable pub plan_status_eq : Eq ExecutePlanPushStatus
unfolding plan_status_dec
plan_status_eq = record { dec = plan_status_dec }
