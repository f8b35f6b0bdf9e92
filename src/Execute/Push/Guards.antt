-- ===== src/Execute/Push/Guards.antt =====
-- What has to hold before a push changes anything.
use nsp_migrator.Prelude.{
  ℕ, Bool, ◌≡◌, ◌≢◌, refl, inl, inr, ◌⊎◌, true, false, some, List, [], ◌∷◌, not,
}
use nsp_migrator.Prelude.Eq.{◌==◌, ==-cases, nat_eq, list_eq}
use nsp_migrator.Prelude.Dict.{lookup}
use nsp_migrator.Prelude.Result.{Result, ok, err, ◌>>=◌, >>=-eq-ok}
use nsp_migrator.Prelude.Text.{Text}
use nsp_migrator.Hash.{Builtins}
use nsp_migrator.Catalog.Fingerprint.{SdwanFullCatalog, get_fingerprint}
use nsp_migrator.Mapping.Entities.{MappingScope}
use nsp_migrator.Execute.Rules.{RuleMatchStatus, RulePushStatus, ExecutePlanPushStatus}
use nsp_migrator.Execute.Plan.{ExecutePlan, ExecutePlanRule, plan_status_eq}
use nsp_migrator.Execute.MappingReader.{MappingScopeData, mapping_scope_data}
use nsp_migrator.Execute.Gateway.{Sdwan}
use nsp_migrator.Execute.Repository.{get_plan, list_plan_rules}
use nsp_migrator.Execute.Push.{
  PushError, plan_not_found, already_pushed, no_rules, scope_not_found, mapping_changed,
  catalog_changed, PushContext, World, require, found, rules_or, by_request, check_catalog,
  check_plan, check_push, push_checked, push_execute_plan_rules,
}
use nsp_migrator.Execute.Push.Once.{found-eq-ok}

require-eq-ok : {u : Unit {0}} (c : Bool) (e : PushError) → require c e ≡ ok u → c ≡ true
require-eq-ok true e h = refl
require-eq-ok false e h = cc

by_request-eq-ok : {A : Type 0} {a : A} (r : Result Text A) → by_request r ≡ ok a → r ≡ ok a
by_request-eq-ok (ok x) h = cc
by_request-eq-ok (err e) h = cc

equal_texts : (s t : Text) → (s == t) ≡ true → s ≡ t
equal_texts s t h = elim (==-cases s t) [ inl (_, e) ↦ e | inr (f, _) ↦ cc ]

not_executed :
    (plan : ExecutePlan)
    → not (plan.push_status == ExecutePlanPushStatus.executed) ≡ true
    → plan.push_status ≢ ExecutePlanPushStatus.executed
not_executed plan h e = elim (==-cases plan.push_status ExecutePlanPushStatus.executed) [
  | inl (t, _) ↦ cc (rw t at h)
  | inr (_, n) ↦ n e
]

module _ (b : Builtins) (api : Sdwan) where
  check_catalog-eq-ok :
      (w : World b api) (plan : ExecutePlan) (scope : MappingScopeData) {u : Unit {0}}
      → check_catalog b api w plan scope ≡ ok u
      → (full : SdwanFullCatalog) × (api.full_catalog w.sdwan ≡ ok full)
        × (get_fingerprint b full ≡ plan.catalog_fingerprint)
        × (scope.catalog_fingerprint ≡ plan.catalog_fingerprint)
  unfolding check_catalog
  check_catalog-eq-ok w plan scope h =
      let last = λ (full : SdwanFullCatalog).
        require (get_fingerprint b full == plan.catalog_fingerprint) (catalog_changed plan.id) in
      let (_, same, h1) =
        >>=-eq-ok
          (require (scope.catalog_fingerprint == plan.catalog_fingerprint)
            (mapping_changed plan.id))
          (λ _. by_request (api.acquire scope.csp_profile_id scope.vpc_id w.sdwan) >>= λ _.
            by_request (api.full_catalog w.sdwan) >>= last)
          h in
      let (_, _, h2) =
        >>=-eq-ok (by_request (api.acquire scope.csp_profile_id scope.vpc_id w.sdwan))
          (λ _. by_request (api.full_catalog w.sdwan) >>= last) h1 in
      let (full, got, h3) = >>=-eq-ok (by_request (api.full_catalog w.sdwan)) last h2 in
      (
        full,
        by_request-eq-ok _ got,
        equal_texts _ _ (require-eq-ok _ _ h3),
        equal_texts _ _ (require-eq-ok _ _ same),
      )

  -- The plan, its scope and the current catalog agree, and the plan is not pushed yet.
  pub record Agrees (w : World b api) (plan : ExecutePlan) : Type 0 where
    pub full : SdwanFullCatalog
    pub scope : MappingScope
    pub current : api.full_catalog w.sdwan ≡ ok full
    pub stored : lookup plan.mapping_scope_id w.scopes ≡ some scope
    pub same_catalog : get_fingerprint b full ≡ plan.catalog_fingerprint
    pub same_scope : scope.catalog_fingerprint ≡ plan.catalog_fingerprint
    pub pending : plan.push_status ≢ ExecutePlanPushStatus.executed

  check_plan-Agrees :
      (w : World b api) (plan : ExecutePlan) (x : List ExecutePlanRule × MappingScopeData)
      → check_plan b api w plan ≡ ok x
      → Agrees w plan
  unfolding check_plan mapping_scope_data
  check_plan-Agrees w plan x h =
      let last = λ (rules : List ExecutePlanRule) (stored : MappingScope).
        check_catalog b api w plan (mapping_scope_data stored) >>= λ _.
        ok (rules, mapping_scope_data stored) in
      let middle = λ (rules : List ExecutePlanRule).
        found (scope_not_found plan.mapping_scope_id) (lookup plan.mapping_scope_id w.scopes)
        >>= last rules in
      let listed = rules_or (no_rules plan.id) (
        list_plan_rules plan.id (some RuleMatchStatus.new) (some (RulePushStatus.pending ∷ []))
          w.repo) in
      let (_, fresh, h1) =
        >>=-eq-ok
          (require (not (plan.push_status == ExecutePlanPushStatus.executed))
            (already_pushed plan.id))
          (λ _. listed >>= middle) h in
      let (rules, _, h2) = >>=-eq-ok listed middle h1 in
      let (scope, got, h3) =
        >>=-eq-ok
          (found (scope_not_found plan.mapping_scope_id) (lookup plan.mapping_scope_id w.scopes))
          (last rules) h2 in
      let (_, checked, _) =
        >>=-eq-ok (check_catalog b api w plan (mapping_scope_data scope))
          (λ _. ok (rules, mapping_scope_data scope)) h3 in
      let (full, current, same, own) =
        check_catalog-eq-ok w plan (mapping_scope_data scope) checked in
      record {
        full = full;
        scope = scope;
        current = current;
        stored = found-eq-ok _ _ got;
        same_catalog = same;
        same_scope = own;
        pending = not_executed plan (require-eq-ok _ _ fresh);
      }

  guarded :
      (k : ℕ) (w : World b api) (checked : Result PushError PushContext)
      → check_push b api k w ≡ checked
      → ((push_checked b api checked w).1 ≡ w)
        ⊎ ((plan : ExecutePlan) × (get_plan k w.repo ≡ some plan) × Agrees w plan)
  unfolding check_push push_checked
  guarded k w (err e) h = inl refl
  guarded k w (ok c) h =
      let (plan, got, h1) =
        >>=-eq-ok (found (plan_not_found k) (get_plan k w.repo))
          (λ plan.
            check_plan b api w plan >>= λ x. ok (record { plan = plan; rules = x.0; scope = x.1 }))
          h in
      let (x, checked, _) =
        >>=-eq-ok (check_plan b api w plan)
          (λ x. ok (record { plan = plan; rules = x.0; scope = x.1 })) h1 in
      inr (plan, found-eq-ok _ _ got, check_plan-Agrees w plan x checked)

  -- A run of the use case leaves the world as it was, unless the plan is stored and not pushed yet,
  -- and both the scope of the plan and the current catalog have the fingerprint that the plan was
  -- prepared with.
  pub push_guarded :
      (k : ℕ) (w : World b api)
      → ((push_execute_plan_rules b api k w).1 ≡ w)
        ⊎ ((plan : ExecutePlan) × (get_plan k w.repo ≡ some plan) × Agrees w plan)
  unfolding push_execute_plan_rules
  push_guarded k w = guarded k w (check_push b api k w) refl
