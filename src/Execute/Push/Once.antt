-- ===== src/Execute/Push/Once.antt =====
-- A plan is pushed at most once.
use nsp_migrator.Prelude.{
  ℕ, ◌≡◌, refl, ap, subst, ◌∙◌, inl, inr, ◌⊎◌, true, Option, none, some, List, [], ◌∷◌,
  Option-cases,
}
use nsp_migrator.Prelude.Eq.{◌==◌, ==-cases, nat_eq}
use nsp_migrator.Prelude.Dict.{Dict, lookup, index_by}
use nsp_migrator.Prelude.Text.{Text}
use nsp_migrator.Execute.Report.{SaveReportCommand}
use nsp_migrator.Prelude.Result.{Result, ok, err, ◌>>=◌, >>=-eq-ok, ok-injective}
use nsp_migrator.Prelude.Sort.{sorted}
use nsp_migrator.Hash.{Builtins}
use nsp_migrator.Execute.Rules.{ExecutePlanPushStatus}
use nsp_migrator.Execute.Plan.{ExecutePlan, ExecutePlanRule, mark_push_executed, plan_status_eq}
use nsp_migrator.Execute.Gateway.{
  Sdwan, PolicyResponse, CommitInfo, PushRuleResult, GatewayError, push_rules, commit_csp_changes,
}
use nsp_migrator.Execute.Repository.{
  Repository, RepositoryError, get_plan, update_plan, update_plan_rule, by_priority,
}
use nsp_migrator.Execute.Repository.Laws.{
  IsWellFormed, get_plan-update_plan, get_plan-update_plan_rule, get_plan-IsWellFormed,
}
use nsp_migrator.Execute.Push.{
  PushError, PushExecutePlanRulesResult, already_pushed, PushContext, World, found, updated_rule,
  record_results, check_push, check_plan, plan_not_found, write_report, saved_report, finish,
  record_and_finish, after_push, run_push, push_checked, push_execute_plan_rules, pushed_rule_ids,
  read_pushed,
}

-- Recording the outcomes changes no plan, also when it stops half-way.
pub get_plan-record_results :
    (k : ℕ) (rules : Dict ℕ ExecutePlanRule) (rs : List PushRuleResult) (repo : Repository)
    → get_plan k (record_results rules rs repo).1 ≡ get_plan k repo
unfolding record_results
get_plan-record_results k rules [] repo = refl
get_plan-record_results k rules (r ∷ rs) repo =
    elim (Option-cases (lookup r.execute_plan_rule_id rules)) [
      | inl f ↦ rw (f, record_results) refl
      | inr (rule, f) ↦
          rw (f, record_results)
            (step rule (update_plan_rule (updated_rule rule r) repo) refl
              (λ repo'. get_plan-record_results k rules rs repo'))
    ]
  where
    step :
        (rule : ExecutePlanRule) (res : Result RepositoryError Repository)
        → update_plan_rule (updated_rule rule r) repo ≡ res
        → ((repo' : Repository) → get_plan k (record_results rules rs repo').1 ≡ get_plan k repo')
        → get_plan k
            (elim res as (λ _. Result PushError Unit × Repository) [
              | err e ↦ (err (PushError.repository e), repo)
              | ok repo' ↦ record_results rules rs repo'
            ]).1
          ≡ get_plan k repo
    step rule (err e) m ih = refl
    step rule (ok repo') m ih =
        ih repo' ∙ get_plan-update_plan_rule k (updated_rule rule r) repo repo' m

pub found-eq-ok :
    {A : Type 0} {a : A} (e : PushError) (o : Option A) → found e o ≡ ok a → o ≡ some a
found-eq-ok e none h = cc
found-eq-ok e (some x) h = cc

module _ (b : Builtins) (api : Sdwan) where
  -- What follows the recording does not touch the repository.
  saved_report-repo :
      (stored : Result Text Unit) (report : SaveReportCommand) (result : PushExecutePlanRulesResult)
      (w : World b api)
      → (saved_report b api stored report result w).1.repo ≡ w.repo
  unfolding saved_report
  saved_report-repo (ok _) report result w = refl
  saved_report-repo (err e) report result w = refl

  write_report-repo :
      (c : PushContext) (rules : List PolicyResponse) (results : List PushRuleResult)
      (commit : Result GatewayError CommitInfo) (w : World b api)
      → (write_report b api c rules results commit w).1.repo ≡ w.repo
  unfolding write_report
  write_report-repo c rules results (ok commit) w = saved_report-repo (w.report_store _) _ _ w
  write_report-repo c rules results (err e) w = refl

  finish-repo :
      (c : PushContext) (results : List PushRuleResult)
      (rules : Result GatewayError (List PolicyResponse)) (w : World b api)
      → (finish b api c results rules w).1.repo ≡ w.repo
  unfolding finish
  finish-repo c results (err e) w = refl
  finish-repo c results (ok rules) w =
      write_report-repo c rules results (commit_csp_changes api w.sdwan).0
        (record w { sdwan = (commit_csp_changes api w.sdwan).1 })

  record_and_finish-repo :
      (c : PushContext) (results : List PushRuleResult)
      (recorded : Result PushError Unit × Repository) (w : World b api)
      → (record_and_finish b api c results recorded w).1.repo ≡ recorded.1
  unfolding record_and_finish
  record_and_finish-repo c results (err e, repo) w = refl
  record_and_finish-repo c results (ok _, repo) w =
      finish-repo c results (read_pushed b api (pushed_rule_ids results) w.sdwan)
        (record w { repo = repo })

  get_plan-after_push :
      (k : ℕ) (c : PushContext) (results : Result GatewayError (List PushRuleResult))
      (w : World b api)
      → get_plan k (after_push b api c results w).1.repo ≡ get_plan k w.repo
  unfolding after_push
  get_plan-after_push k c (err e) w = refl
  get_plan-after_push k c (ok results) w =
      let by_id = index_by (λ (r : ExecutePlanRule). r.id) c.rules in
      ap (get_plan k) (record_and_finish-repo c results (record_results by_id results w.repo) w)
      ∙ get_plan-record_results k by_id results w.repo

  -- The checks return the stored plan.
  check_push-plan :
      (k : ℕ) (w : World b api) (c : PushContext)
      → check_push b api k w ≡ ok c
      → get_plan k w.repo ≡ some c.plan
  unfolding check_push
  check_push-plan k w c h =
      let (plan, got, later) =
        >>=-eq-ok (found (plan_not_found k) (get_plan k w.repo))
          (λ plan.
            check_plan b api w plan >>= λ x. ok (record { plan = plan; rules = x.0; scope = x.1 }))
          h in
      let (x, _, made) =
        >>=-eq-ok (check_plan b api w plan)
          (λ x. ok (record { plan = plan; rules = x.0; scope = x.1 })) later in
      found-eq-ok (plan_not_found k) (get_plan k w.repo) got
      ∙ ap (λ (y : PushContext). some y.plan) (ok-injective made)

  check_plan-executed :
      (w : World b api) (plan : ExecutePlan)
      → (plan.push_status == ExecutePlanPushStatus.executed) ≡ true
      → check_plan b api w plan ≡ err (already_pushed plan.id)
  unfolding check_plan
  check_plan-executed w plan t = rw (t, check_plan) refl

  -- A plan that is marked is refused.
  check_push-executed :
      (k : ℕ) (w : World b api) (plan : ExecutePlan)
      → get_plan k w.repo ≡ some plan
      → plan.push_status ≡ ExecutePlanPushStatus.executed
      → check_push b api k w ≡ err (already_pushed plan.id)
  unfolding check_push check_plan
  check_push-executed k w plan h e =
      elim (==-cases plan.push_status ExecutePlanPushStatus.executed) [
        | inl (t, _) ↦
            rw (h, check_push)
              (ap (λ r. r >>= λ x. ok (record { plan = plan; rules = x.0; scope = x.1 }))
                (check_plan-executed w plan t))
        | inr (_, n) ↦ absurd (n e)
      ]

  push_checked_cases :
      (k : ℕ) (w : World b api) (checked : Result PushError PushContext)
      → check_push b api k w ≡ checked
      → IsWellFormed w.repo
      → ((push_checked b api checked w).1 ≡ w)
        ⊎ ((plan : ExecutePlan) × (get_plan k (push_checked b api checked w).1.repo ≡ some plan)
            × (plan.push_status ≡ ExecutePlanPushStatus.executed)
            × (plan.id ≡ k))
  unfolding push_checked run_push
  push_checked_cases k w (err e) h wf = inl refl
  push_checked_cases k w (ok c) h wf = marked (update_plan (mark_push_executed c.plan) w.repo) refl
    where
      own_id : c.plan.id ≡ k
      own_id = get_plan-IsWellFormed k c.plan w.repo wf (check_push-plan k w c h)

      marked :
          (res : Result RepositoryError Repository)
          → update_plan (mark_push_executed c.plan) w.repo ≡ res
          → ((run_push b api c res w).1 ≡ w)
            ⊎ ((plan : ExecutePlan) × (get_plan k (run_push b api c res w).1.repo ≡ some plan)
                × (plan.push_status ≡ ExecutePlanPushStatus.executed)
                × (plan.id ≡ k))
      marked (err e) m = inl refl
      marked (ok repo) m =
          let (results, s) =
            push_rules api c.scope.sdwan_target_id (sorted by_priority c.rules)
              c.scope.rules_priority w.sdwan in
          inr (
            mark_push_executed c.plan,
            get_plan-after_push k c results (record w { repo = repo; sdwan = s })
                ∙ subst (λ j. get_plan j repo ≡ some (mark_push_executed c.plan)) own_id
                    (get_plan-update_plan (mark_push_executed c.plan) w.repo repo m),
            refl,
            own_id,
          )

  -- A run of the use case, over a repository whose plans stand under their own identifiers, either
  -- leaves the world as it was, or the next run for the same plan on what it leaves is refused as
  -- already pushed and changes nothing, whether the first run succeeded or failed.
  pub push_once :
      (k : ℕ) (w : World b api)
      → IsWellFormed w.repo
      → ((push_execute_plan_rules b api k w).1 ≡ w)
        ⊎ (push_execute_plan_rules b api k (push_execute_plan_rules b api k w).1
            ≡ (err (already_pushed k), (push_execute_plan_rules b api k w).1))
  unfolding push_execute_plan_rules push_checked
  push_once k w wf = elim (push_checked_cases k w (check_push b api k w) refl wf) [
    | inl same ↦ inl same
    | inr (plan, got, marked, own) ↦ inr (
        rw
          (
            check_push-executed k (push_checked b api (check_push b api k w) w).1 plan got marked,
            own,
          )
          refl)
  ]
