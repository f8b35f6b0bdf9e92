-- ===== src/Execute/Report.antt =====
-- The report that follows a push (src/app/modules/execute/adapters/reports_writer.py).
use nsp_migrator.Prelude.{ℕ, Option, none, some, List, [], ◌∷◌, map}
use nsp_migrator.Prelude.Text.{Text, codes}
use nsp_migrator.Execute.Rules.{
  exact_match, covered_match, new, match_error, RulePushStatus, pending, succeeded, failed,
  SdwanRuleAction,
}
use nsp_migrator.Execute.Comparer.{MatchInfo}
use nsp_migrator.Execute.Plan.{ExecutePlanRule}

pub data ReportRuleMigrationResult : Type 0 where
  pushed_rule failed_rule matched_rule covered_rule error_rule : ReportRuleMigrationResult

-- The reason of an outcome: the text of the match, or a text of its own.
pub data Reason : Type 0 where
  of_match : MatchInfo → Reason
  of_text : Text → Reason

pub record SaveReportRuleCommand : Type 0 where
  pub policy_name : Text
  pub action : SdwanRuleAction
  pub priority : ℕ
  pub src_zone_ids : List ℕ
  pub dst_zone_ids : List ℕ
  pub src_addr_object_ids : List ℕ
  pub dst_addr_object_ids : List ℕ
  pub service_ids : List ℕ
  pub migration_result : ReportRuleMigrationResult
  pub reason : Reason

pub record SaveReportCommand : Type 0 where
  pub scope_title : Text
  pub csp_profile_id : ℕ
  pub vpc_id : Text
  pub target_id : Text
  pub commit_id : ℕ
  pub rules : List SaveReportRuleCommand

-- `error or "Push failed"`
unfoldable pub or_push_failed : Option Text → Text
or_push_failed none = codes "Push failed"
or_push_failed (some []) = codes "Push failed"
or_push_failed (some (c ∷ s)) = c ∷ s

unfoldable pub push_outcome : RulePushStatus → Option Text → ReportRuleMigrationResult × Reason
unfolding or_push_failed
push_outcome succeeded e = (pushed_rule, of_text (codes "Success"))
push_outcome failed e = (failed_rule, of_text (or_push_failed e))
push_outcome pending e = (error_rule, of_text (codes "Push outcome was not recorded"))

-- `_report_rule_status_outcome`
unfoldable pub report_rule_status_outcome : ExecutePlanRule → ReportRuleMigrationResult × Reason
unfolding push_outcome
report_rule_status_outcome rule = elim rule.match_status [
  | exact_match ↦ (matched_rule, of_match rule.match_info)
  | covered_match ↦ (covered_rule, of_match rule.match_info)
  | match_error ↦ (error_rule, of_match rule.match_info)
  | new ↦ push_outcome rule.push_status rule.push_error
]

-- `_to_rule_command`
unfoldable pub to_rule_command : ExecutePlanRule → SaveReportRuleCommand
unfolding report_rule_status_outcome
to_rule_command rule =
    let (migration_result, reason) = report_rule_status_outcome rule in
    record {
      policy_name = rule.draft.name;
      action = rule.draft.action;
      priority = rule.priority;
      src_zone_ids = rule.draft.src_zones;
      dst_zone_ids = rule.draft.dst_zones;
      src_addr_object_ids = rule.draft.src_addr_objects;
      dst_addr_object_ids = rule.draft.dst_addr_objects;
      service_ids = rule.draft.services;
      migration_result = migration_result;
      reason = reason;
    }

-- `save_report`
unfoldable pub save_report : Text → ℕ → Text → Text → ℕ → List ExecutePlanRule → SaveReportCommand
unfolding to_rule_command
save_report scope_title csp_profile_id vpc_id target_id commit_id plan_rules = record {
  scope_title = scope_title;
  csp_profile_id = csp_profile_id;
  vpc_id = vpc_id;
  target_id = target_id;
  commit_id = commit_id;
  rules = map to_rule_command plan_rules;
}
