-- ===== src/Execute/Push.antt =====
-- The use case that pushes a plan
-- (src/app/modules/execute/application/use_cases/push_execute_plan_rules.py).
-- The requests before the plan is marked only read, so that part is a function of the world.
pub mod Once
pub mod Recorded
pub mod Guards
use nsp_migrator.Prelude.{ℕ, Bool, Option, none, some, List, [], ◌∷◌, ◌++◌, not, if◌then◌else◌}
use nsp_migrator.Prelude.Eq.{◌==◌, nat_eq, list_eq}
use nsp_migrator.Prelude.Dict.{Dict, lookup, index_by}
use nsp_migrator.Prelude.Result.{Result, ok, err, ◌>>=◌}
use nsp_migrator.Prelude.Sort.{sorted}
use nsp_migrator.Prelude.Text.{Text}
use nsp_migrator.Hash.{Builtins}
use nsp_migrator.Catalog.Fingerprint.{SdwanFullCatalog, get_fingerprint}
use nsp_migrator.Mapping.Entities.{MappingScope}
use nsp_migrator.Execute.Rules.{RuleMatchStatus, RulePushStatus, ExecutePlanPushStatus}
use nsp_migrator.Execute.Plan.{
  ExecutePlan, mark_push_executed, ExecutePlanRule, mark_push_succeeded, mark_push_failed,
  plan_status_eq,
}
use nsp_migrator.Execute.MappingReader.{MappingScopeData, mapping_scope_data}
use nsp_migrator.Execute.Gateway.{
  Sdwan, PolicyResponse, CommitInfo, PushRuleResult, GatewayError, request_failed, push_rules,
  get_rules, commit_csp_changes,
}
use nsp_migrator.Execute.Repository.{
  Repository, RepositoryError, get_plan, update_plan, update_plan_rule, list_plan_rules,
  by_priority,
}
use nsp_migrator.Execute.Report.{SaveReportCommand, or_push_failed, save_report}

pub data PushError : Type 0 where
  plan_not_found already_pushed no_rules scope_not_found mapping_changed catalog_changed
        unknown_rule :
      ℕ → PushError
  repository : RepositoryError → PushError
  gateway : GatewayError → PushError
  report_failed : Text → PushError

pub record PushExecutePlanRulesResult : Type 0 where
  pub rules : List PolicyResponse
  pub push_results : List PushRuleResult
  pub commit_info : CommitInfo

-- What the checks have read when they succeed.
pub record PushContext : Type 0 where
  pub plan : ExecutePlan
  pub rules : List ExecutePlanRule
  pub scope : MappingScopeData

abbrev pub require : Bool → PushError → Result PushError Unit
require c e = if c then ok tt else err e

abbrev pub found : {A : Type 0} → PushError → Option A → Result PushError A
found e none = err e
found e (some a) = ok a

abbrev pub rules_or : PushError → List ExecutePlanRule → Result PushError (List ExecutePlanRule)
rules_or e [] = err e
rules_or e (r ∷ rs) = ok (r ∷ rs)

abbrev pub by_request : {A : Type 0} → Result Text A → Result PushError A
by_request (ok a) = ok a
by_request (err e) = err (gateway (request_failed e))

abbrev pub by_gateway : {A : Type 0} → Result GatewayError A → Result PushError A
by_gateway (ok a) = ok a
by_gateway (err e) = err (gateway e)

-- The plan rule that stores the outcome of its push.
unfoldable pub updated_rule : ExecutePlanRule → PushRuleResult → ExecutePlanRule
unfolding mark_push_succeeded mark_push_failed or_push_failed
updated_rule rule r = elim r.sdwan_rule_id [
  | some id ↦ mark_push_succeeded rule id
  | none ↦ mark_push_failed rule (or_push_failed r.error)
]

-- the loop over the push results, and the repository it leaves
unfoldable pub record_results :
    Dict ℕ ExecutePlanRule → List PushRuleResult → Repository → Result PushError Unit × Repository
unfolding lookup nat_eq updated_rule update_plan_rule
record_results rules [] repo = (ok tt, repo)
record_results rules (r ∷ rs) repo = elim (lookup r.execute_plan_rule_id rules) [
  | none ↦ (err (unknown_rule r.execute_plan_rule_id), repo)
  | some rule ↦ elim (update_plan_rule (updated_rule rule r) repo) [
    | err e ↦ (err (repository e), repo)
    | ok repo' ↦ record_results rules rs repo'
  ]
]

-- `[result.sdwan_rule_id for result in push_results if result.sdwan_rule_id is not None]`
unfoldable pub pushed_rule_ids : List PushRuleResult → List ℕ
pushed_rule_ids [] = []
pushed_rule_ids (r ∷ rs) = elim r.sdwan_rule_id [
  | none ↦ pushed_rule_ids rs
  | some id ↦ id ∷ pushed_rule_ids rs
]

module _ (b : Builtins) (api : Sdwan) where
  -- What a push reads and changes.
  pub record World : Type 0 where
    pub repo : Repository
    pub scopes : Dict ℕ MappingScope
    pub sdwan : api.State
    pub reports : List SaveReportCommand
    -- the outcome of storing a report, which may raise
    pub report_store : SaveReportCommand → Result Text Unit

  -- the checks of the fingerprints, and the requests between them
  unfoldable pub check_catalog : World → ExecutePlan → MappingScopeData → Result PushError Unit
  unfolding get_fingerprint nat_eq list_eq
  check_catalog w plan scope = do
    _ ← require (scope.catalog_fingerprint == plan.catalog_fingerprint) (mapping_changed plan.id)
    _ ← by_request (api.acquire scope.csp_profile_id scope.vpc_id w.sdwan)
    catalog ← by_request (api.full_catalog w.sdwan)
    require (get_fingerprint b catalog == plan.catalog_fingerprint) (catalog_changed plan.id)

  -- the checks of `execute` on a plan that is stored
  unfoldable pub check_plan :
      World → ExecutePlan → Result PushError (List ExecutePlanRule × MappingScopeData)
  unfolding list_plan_rules lookup mapping_scope_data nat_eq plan_status_eq check_catalog
  check_plan w plan = do
    _ ← require (not (plan.push_status == ExecutePlanPushStatus.executed)) (already_pushed plan.id)
    rules ← rules_or (no_rules plan.id) (
        list_plan_rules plan.id (some RuleMatchStatus.new) (some (RulePushStatus.pending ∷ []))
          w.repo)
    stored ← found (scope_not_found plan.mapping_scope_id) (lookup plan.mapping_scope_id w.scopes)
    _ ← check_catalog w plan (mapping_scope_data stored)
    ok (rules, mapping_scope_data stored)

  -- the part of `execute` before the plan is marked
  unfoldable pub check_push : ℕ → World → Result PushError PushContext
  unfolding get_plan check_plan
  check_push plan_id w = found (plan_not_found plan_id) (get_plan plan_id w.repo) >>= λ plan.
      check_plan w plan >>= λ checked.
      ok (record { plan = plan; rules = checked.0; scope = checked.1 })

  -- `if pushed_rule_ids: ...`
  unfoldable pub read_pushed : List ℕ → api.State → Result GatewayError (List PolicyResponse)
  unfolding get_rules
  read_pushed [] s = ok []
  read_pushed (id ∷ ids) s = get_rules api (id ∷ ids) s

  -- `save_report`, with its outcome
  unfoldable pub saved_report :
      Result Text Unit
      → SaveReportCommand
      → PushExecutePlanRulesResult
      → World
      → Result PushError PushExecutePlanRulesResult × World
  saved_report (err e) report result w = (err (report_failed e), w)
  saved_report (ok _) report result w =
      (ok result, record w { reports = w.reports ++ (report ∷ []) })

  unfoldable pub write_report :
      PushContext
      → List PolicyResponse
      → List PushRuleResult
      → Result GatewayError CommitInfo
      → World
      → Result PushError PushExecutePlanRulesResult × World
  unfolding save_report list_plan_rules saved_report
  write_report c rules results (err e) w = (err (gateway e), w)
  write_report c rules results (ok commit) w =
      let report =
        save_report c.scope.title c.scope.csp_profile_id c.scope.vpc_id c.scope.sdwan_target_id
          commit.commit_id (list_plan_rules c.plan.id none none w.repo) in
      let result : PushExecutePlanRulesResult = record {
        rules = rules;
        push_results = results;
        commit_info = commit;
      } in
      saved_report (w.report_store report) report result w

  -- the part after the outcomes are recorded
  unfoldable pub finish :
      PushContext
      → List PushRuleResult
      → Result GatewayError (List PolicyResponse)
      → World
      → Result PushError PushExecutePlanRulesResult × World
  unfolding commit_csp_changes write_report
  finish c results (err e) w = (err (gateway e), w)
  finish c results (ok rules) w =
      let (commit, s) = commit_csp_changes api w.sdwan in
      write_report c rules results commit (record w { sdwan = s })

  unfoldable pub record_and_finish :
      PushContext
      → List PushRuleResult
      → Result PushError Unit × Repository
      → World
      → Result PushError PushExecutePlanRulesResult × World
  unfolding read_pushed pushed_rule_ids finish
  record_and_finish c results (err e, repo) w = (err e, record w { repo = repo })
  record_and_finish c results (ok _, repo) w =
      finish c results (read_pushed (pushed_rule_ids results) w.sdwan) (record w { repo = repo })

  unfoldable pub after_push :
      PushContext
      → Result GatewayError (List PushRuleResult)
      → World
      → Result PushError PushExecutePlanRulesResult × World
  unfolding record_and_finish record_results index_by
  after_push c (err e) w = (err (gateway e), w)
  after_push c (ok results) w =
      record_and_finish c results
        (record_results (index_by (λ (r : ExecutePlanRule). r.id) c.rules) results w.repo) w

  -- the part of `execute` after the checks
  unfoldable pub run_push :
      PushContext
      → Result RepositoryError Repository
      → World
      → Result PushError PushExecutePlanRulesResult × World
  unfolding push_rules sorted after_push
  run_push c (err e) w = (err (repository e), w)
  run_push c (ok repo) w =
      let (results, s) =
        push_rules api c.scope.sdwan_target_id (sorted by_priority c.rules) c.scope.rules_priority
          w.sdwan in
      after_push c results (record w { repo = repo; sdwan = s })

  unfoldable pub push_checked :
      Result PushError PushContext → World → Result PushError PushExecutePlanRulesResult × World
  unfolding run_push update_plan mark_push_executed
  push_checked (err e) w = (err e, w)
  push_checked (ok c) w = run_push c (update_plan (mark_push_executed c.plan) w.repo) w

  -- `execute`
  unfoldable pub push_execute_plan_rules :
      ℕ → World → Result PushError PushExecutePlanRulesResult × World
  unfolding check_push push_checked
  push_execute_plan_rules plan_id w = push_checked (check_push plan_id w) w
