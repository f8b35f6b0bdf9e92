-- ===== src/Execute/Prepare/Stored.antt =====
-- What a prepared plan holds and counts.
use nsp_migrator.Prelude.{
  ℕ, suc, ◌+◌, ◌≤◌, ◌≡◌, ◌⊎◌, ◌↔◌, refl, Elem, true, none, sym, ap, subst, ◌∙◌, inl, inr, some,
  List, [], ◌∷◌, arith, length, if◌then◌else◌, map,
}
use nsp_migrator.Prelude.Eq.{◌==◌, ==-cases, nat_eq, list_eq}
use nsp_migrator.Prelude.Dict.{values, lookup}
use nsp_migrator.Prelude.Result.{Result, ok, err, ◌>>=◌, >>=-eq-ok, ok-injective}
use nsp_migrator.Prelude.Sort.{sorted, length-sorted, Ordered, sorted-Ordered, Elem-sorted}
use nsp_migrator.Prelude.Text.{Text}
use nsp_migrator.Hash.{Builtins}
use nsp_migrator.Catalog.Fingerprint.{SdwanFullCatalog, get_fingerprint}
use nsp_migrator.Mapping.Entities.{
  MappingScope, MappingScopeRule, MappingEntityResult, MappingScopeRuleAction,
}
use nsp_migrator.Execute.Rules.{
  RuleMatchStatus, exact_match, covered_match, new, match_error, match_status_eq,
  SdwanPolicyCatalog, SdwanRuleAction, RulePushStatus,
}
use nsp_migrator.Execute.Comparer.{RulesComparer, rules_comparer, compare_rule}
use nsp_migrator.Execute.Plan.{create_plan, ExecutePlanRule, create_plan_rule}
use nsp_migrator.Execute.MappingReader.{
  ReaderError, MappedRuleData, MappingScopeData, mapping_scope_data, get_mapping_scope_rules,
}
use nsp_migrator.Execute.Gateway.{Sdwan, GatewayError, get_sdwan_policy_catalog}
use nsp_migrator.Execute.Repository.{Repository, PlanEntry, RepositoryError, add_plan_with_rules}
use nsp_migrator.Execute.Repository.Stored.{add_plan_with_rules-eq-ok}
use nsp_migrator.Execute.Prepare.{
  PrepareExecutePlanResult, count_status, plan_rules, prepare_result, store_plan, load_catalogs,
  prepare_execute_plan, by_mapped_priority, from_reader, from_gateway, from_request,
  from_repository, catalog_changed, zone_refs, service_refs, addr_object_refs, build_draft,
  rule_action, plan_rule,
}

-- Every rule has one of the four statuses.
count_status_step :
    (s : RuleMatchStatus) (rules : List ExecutePlanRule) (rule : ExecutePlanRule)
    → rule.match_status ≡ s
    → (count_status new (rule ∷ rules) + count_status exact_match (rule ∷ rules))
        + (count_status covered_match (rule ∷ rules) + count_status match_error (rule ∷ rules))
      ≡ suc (
          (count_status new rules + count_status exact_match rules)
          + (count_status covered_match rules + count_status match_error rules))
unfolding count_status match_status_eq
count_status_step exact_match rules rule h = rw h (omega arith)
count_status_step covered_match rules rule h = rw h (omega arith)
count_status_step new rules rule h = rw h (omega arith)
count_status_step match_error rules rule h = rw h (omega arith)

pub count_status_total :
    (rules : List ExecutePlanRule)
    → (count_status new rules + count_status exact_match rules)
        + (count_status covered_match rules + count_status match_error rules)
      ≡ length rules
unfolding count_status
count_status_total [] = omega arith
count_status_total (rule ∷ rules) =
    omega (arith, count_status_total rules, count_status_step rule.match_status rules rule refl)

length-plan_rules :
    (b : Builtins) (uuid : ℕ → ℕ) (c : RulesComparer) (k n : ℕ) (ms : List MappedRuleData)
    → length (plan_rules b uuid c k n ms) ≡ length ms
unfolding plan_rules
length-plan_rules b uuid c k n [] = refl
length-plan_rules b uuid c k n (m ∷ ms) = ap suc (length-plan_rules b uuid c k (suc n) ms)

from_repository-eq-ok :
    {A : Type 0} {a : A} (r : Result RepositoryError A) → from_repository r ≡ ok a → r ≡ ok a
from_repository-eq-ok (ok x) h = cc
from_repository-eq-ok (err e) h = cc

from_reader-eq-ok :
    {A : Type 0} {a : A} (r : Result ReaderError A) → from_reader r ≡ ok a → r ≡ ok a
from_reader-eq-ok (ok x) h = cc
from_reader-eq-ok (err e) h = cc

from_gateway-eq-ok :
    {A : Type 0} {a : A} (r : Result GatewayError A) → from_gateway r ≡ ok a → r ≡ ok a
from_gateway-eq-ok (ok x) h = cc
from_gateway-eq-ok (err e) h = cc

from_request-eq-ok : {A : Type 0} {a : A} (r : Result Text A) → from_request r ≡ ok a → r ≡ ok a
from_request-eq-ok (ok x) h = cc
from_request-eq-ok (err e) h = cc

-- The planned action is that of the mapped rule.
abbrev pub IsSameAction : MappingScopeRuleAction → SdwanRuleAction → Type 0
IsSameAction a planned =
    ((a ≡ MappingScopeRuleAction.accept) × (planned ≡ SdwanRuleAction.accept))
    ⊎ ((a ≡ MappingScopeRuleAction.reject) × (planned ≡ SdwanRuleAction.reject))

-- The rule plans the mapped rule, with the verdict of the comparer of the catalog on it.
pub record IsPlanOf (b : Builtins) (catalog : SdwanPolicyCatalog) (plan_id : ℕ) (m : MappedRuleData)
    (rule : ExecutePlanRule) : Type 0 where
  pub plan : rule.execute_plan_id ≡ plan_id
  pub mapped : rule.mapping_scope_rule_id ≡ m.id
  pub priority : rule.priority ≡ m.priority
  pub name : rule.draft.name ≡ m.name
  pub action : IsSameAction m.action rule.draft.action
  pub src_zones : rule.draft.src_zones ≡ m.src_zones
  pub dst_zones : rule.draft.dst_zones ≡ m.dst_zones
  pub src_addr_objects : rule.draft.src_addr_objects ≡ m.src_addr_objects
  pub dst_addr_objects : rule.draft.dst_addr_objects ≡ m.dst_addr_objects
  pub services : rule.draft.services ≡ m.services
  pub status :
      rule.match_status ≡ (compare_rule b (rules_comparer b catalog) rule.draft.body).match_status
  pub matched :
      rule.matched_sdwan_rule_id
      ≡ (compare_rule b (rules_comparer b catalog) rule.draft.body).matched_sdwan_rule_id
  pub info :
      rule.match_info ≡ (compare_rule b (rules_comparer b catalog) rule.draft.body).match_info
  pub details :
      rule.coverage_details
      ≡ (compare_rule b (rules_comparer b catalog) rule.draft.body).coverage_details
  pub pending : rule.push_status ≡ RulePushStatus.pending
  pub not_pushed : rule.pushed_sdwan_rule_id ≡ none

-- One rule plans one mapped rule, in order.
abbrev pub ArePlansOf :
    Builtins → SdwanPolicyCatalog → ℕ → List MappedRuleData → List ExecutePlanRule → Type 0
ArePlansOf b catalog plan_id [] [] = Unit
ArePlansOf b catalog plan_id [] (rule ∷ rules) = ⊥
ArePlansOf b catalog plan_id (m ∷ ms) [] = ⊥
ArePlansOf b catalog plan_id (m ∷ ms) (rule ∷ rules) =
    IsPlanOf b catalog plan_id m rule × ArePlansOf b catalog plan_id ms rules

-- The priorities rise.
abbrev pub IsRising : List MappedRuleData → Type 0
IsRising [] = Unit
IsRising (m ∷ []) = Unit
IsRising (m ∷ n ∷ ms) = (m.priority ≤ n.priority) × IsRising (n ∷ ms)

rule_action-IsSameAction : (a : MappingScopeRuleAction) → IsSameAction a (rule_action a)
unfolding rule_action
rule_action-IsSameAction MappingScopeRuleAction.accept = inl (refl, refl)
rule_action-IsSameAction MappingScopeRuleAction.reject = inr (refl, refl)

plan_rules-ArePlansOf :
    (b : Builtins) (uuid : ℕ → ℕ) (catalog : SdwanPolicyCatalog) (k n : ℕ)
    (ms : List MappedRuleData)
    → ArePlansOf b catalog k ms (plan_rules b uuid (rules_comparer b catalog) k n ms)
unfolding plan_rules plan_rule build_draft create_plan_rule
plan_rules-ArePlansOf b uuid catalog k n [] = tt
plan_rules-ArePlansOf b uuid catalog k n (m ∷ ms) = (
  record {
    plan = refl;
    mapped = refl;
    priority = refl;
    name = refl;
    action = rule_action-IsSameAction m.action;
    src_zones = refl;
    dst_zones = refl;
    src_addr_objects = refl;
    dst_addr_objects = refl;
    services = refl;
    status = refl;
    matched = refl;
    info = refl;
    details = refl;
    pending = refl;
    not_pushed = refl;
  },
  plan_rules-ArePlansOf b uuid catalog k (suc n) ms,
)

Ordered-IsRising : (ms : List MappedRuleData) → Ordered by_mapped_priority ms → IsRising ms
Ordered-IsRising [] h = tt
Ordered-IsRising (m ∷ []) h = tt
Ordered-IsRising (m ∷ n ∷ ms) h = (ground (arith, h.0), Ordered-IsRising (n ∷ ms) h.1)

by_mapped_priority_total :
    (m n : MappedRuleData) → (by_mapped_priority m n ≡ true) ⊎ (by_mapped_priority n m ≡ true)
by_mapped_priority_total m n = ground arith

-- What a run of the use case leaves behind: the stored entry, and the numbers that it reports.
pub record IsPrepared (b : Builtins) (now scope_id : ℕ) (fingerprint : Text)
    (mapped : List MappedRuleData) (catalog : SdwanPolicyCatalog) (res : PrepareExecutePlanResult)
    (repo : Repository) : Type 0 where
  pub entry : PlanEntry
  pub stored : lookup res.id repo ≡ some entry
  pub plan : entry.plan ≡ create_plan res.id now scope_id fingerprint
  pub in_order : List MappedRuleData
  pub rising : IsRising in_order
  pub same : (m : MappedRuleData) → Elem m in_order ↔ Elem m mapped
  pub each : length in_order ≡ length mapped
  pub rules : ArePlansOf b catalog res.id in_order (values entry.rules)
  pub counts :
      (res.new_rules + res.matched_rules) + (res.covered_rules + res.errors_through_match)
      ≡ res.total_rules
  pub total : res.total_rules ≡ length mapped

module _ (b : Builtins) (api : Sdwan) (uuid : ℕ → ℕ) (now : ℕ) where
  store_plan-IsPrepared :
      (scope_id : ℕ) (scope : MappingScopeData) (fingerprint : Text) (mapped : List MappedRuleData)
      (catalog : SdwanPolicyCatalog) (repo repo' : Repository) (res : PrepareExecutePlanResult)
      → store_plan b uuid now scope_id scope fingerprint
          (sorted by_mapped_priority mapped)
          catalog
          repo
        ≡ ok (res, repo')
      → IsPrepared b now scope_id fingerprint mapped catalog res repo'
  unfolding store_plan prepare_result create_plan
  store_plan-IsPrepared scope_id scope fingerprint mapped catalog repo repo' res h =
      let plan = create_plan (uuid 0) now scope_id fingerprint in
      let comparer = rules_comparer b catalog in
      let in_order = sorted by_mapped_priority mapped in
      let rules = plan_rules b uuid comparer plan.id 1 in_order in
      let (left, added, done) =
        >>=-eq-ok (from_repository (add_plan_with_rules plan rules repo))
          (λ r. ok (prepare_result plan scope rules comparer.excluded_existing_rules, r)) h in
      let (entry, stored, same, held) =
        add_plan_with_rules-eq-ok plan rules repo left (from_repository-eq-ok _ added) in
      subst
        (λ (x : PrepareExecutePlanResult × Repository).
          IsPrepared b now scope_id fingerprint mapped catalog x.0 x.1)
        (ok-injective done)
        (record {
          entry = entry;
          stored = stored;
          plan = same;
          in_order = in_order;
          rising =
              Ordered-IsRising in_order
                (sorted-Ordered by_mapped_priority by_mapped_priority_total mapped);
          same = λ m. Elem-sorted by_mapped_priority m mapped;
          each = length-sorted by_mapped_priority mapped;
          rules = rw held (plan_rules-ArePlansOf b uuid catalog plan.id 1 in_order);
          counts = count_status_total rules;
          total =
              length-plan_rules b uuid comparer plan.id 1 in_order
              ∙ length-sorted by_mapped_priority mapped;
        })

  -- The catalog is read for the target, with the objects of some identifiers.
  abbrev pub IsCatalogOf : Text → api.State → SdwanPolicyCatalog → Type 0
  IsCatalogOf target_id s catalog =
      (zone_ids : List ℕ) × (service_ids : List ℕ) × (addr_object_ids : List ℕ)
      × (get_sdwan_policy_catalog api target_id zone_ids service_ids addr_object_ids s ≡ ok catalog)

  -- The fingerprint of a prepared plan is that of the scope and of the current catalog.
  load_catalogs-eq-ok :
      (scope_id : ℕ) (scope : MappingScopeData) (mapped : List MappedRuleData) (s : api.State)
      (loaded : Text × SdwanPolicyCatalog)
      → load_catalogs b api scope_id scope mapped s ≡ ok loaded
      → (full : SdwanFullCatalog) × (api.full_catalog s ≡ ok full)
        × (get_fingerprint b full ≡ scope.catalog_fingerprint)
        × (loaded.0 ≡ scope.catalog_fingerprint)
        × IsCatalogOf scope.sdwan_target_id s loaded.1
  unfolding load_catalogs
  load_catalogs-eq-ok scope_id scope mapped s loaded h =
      let drafts = map build_draft mapped in
      let read = from_gateway (
        get_sdwan_policy_catalog api scope.sdwan_target_id (zone_refs drafts) (service_refs drafts)
          (addr_object_refs drafts) s) in
      let checked = λ (full : SdwanFullCatalog).
        if get_fingerprint b full == scope.catalog_fingerprint
        then (read >>= (λ catalog. ok (get_fingerprint b full, catalog)))
        else err (catalog_changed scope_id) in
      let (_, _, h1) =
        >>=-eq-ok (from_request (api.acquire scope.csp_profile_id scope.vpc_id s))
          (λ _. from_request (api.full_catalog s) >>= checked) h in
      let (full, current, h2) = >>=-eq-ok (from_request (api.full_catalog s)) checked h1 in
      elim (==-cases (get_fingerprint b full) scope.catalog_fingerprint) [
        | inr (t, _) ↦ cc (rw t at h2)
        | inl (t, same) ↦
            let (catalog, was_read, made) =
              >>=-eq-ok read (λ catalog. ok (get_fingerprint b full, catalog)) (rw t at h2) in
            let first : get_fingerprint b full ≡ loaded.0 =
              ap (λ (x : Text × SdwanPolicyCatalog). x.0) (ok-injective made) in
            let second : catalog ≡ loaded.1 =
              ap (λ (x : Text × SdwanPolicyCatalog). x.1) (ok-injective made) in
            (
              full,
              from_request-eq-ok _ current,
              same,
              sym first ∙ same,
              (
                zone_refs drafts,
                service_refs drafts,
                addr_object_refs drafts,
                from_gateway-eq-ok _ was_read ∙ ap ok second,
              ),
            )
      ]

  -- When a preparation succeeds, the rules were read from the mapping, the current catalog has the
  -- fingerprint of the scope, the policies and their objects were read for the target of the scope,
  -- and the repository holds, under the identifier that is returned, a plan of that scope and
  -- fingerprint that is not pushed yet; its rules are those of the mapping, one for each, by rising
  -- priorities, not pushed yet, each with the verdict of the comparer of these policies on it; the four
  -- counts that are returned add up to the total, the number of mapped rules.
  pub prepare_execute_plan_stores :
      (scope_id : ℕ) (scope : MappingScope) (rules : List MappingScopeRule)
      (results : List MappingEntityResult) (s : api.State) (repo repo' : Repository)
      (res : PrepareExecutePlanResult)
      → prepare_execute_plan b api uuid now scope_id (some scope) rules results s repo
        ≡ ok (res, repo')
      → (mapped : List MappedRuleData) × (full : SdwanFullCatalog) × (catalog : SdwanPolicyCatalog)
        × (get_mapping_scope_rules rules results ≡ ok mapped)
        × (api.full_catalog s ≡ ok full)
        × (get_fingerprint b full ≡ scope.catalog_fingerprint)
        × IsCatalogOf scope.sdwan_target_id s catalog
        × IsPrepared b now scope_id scope.catalog_fingerprint mapped catalog res repo'
  unfolding prepare_execute_plan mapping_scope_data
  prepare_execute_plan_stores scope_id scope rules results s repo repo' res h =
      let target = mapping_scope_data scope in
      let (mapped, read, h1) =
        >>=-eq-ok (from_reader (get_mapping_scope_rules rules results))
          (λ mapped.
            load_catalogs b api scope_id target (sorted by_mapped_priority mapped) s >>= λ loaded.
            store_plan b uuid now scope_id target loaded.0 (sorted by_mapped_priority mapped)
              loaded.1 repo)
          h in
      let (loaded, got, h2) =
        >>=-eq-ok (load_catalogs b api scope_id target (sorted by_mapped_priority mapped) s)
          (λ loaded.
            store_plan b uuid now scope_id target loaded.0 (sorted by_mapped_priority mapped)
              loaded.1 repo)
          h1 in
      let (full, current, same, kept, catalog) =
        load_catalogs-eq-ok scope_id target (sorted by_mapped_priority mapped) s loaded got in
      (
        mapped,
        full,
        loaded.1,
        from_reader-eq-ok _ read,
        current,
        same,
        catalog,
        subst (λ f. IsPrepared b now scope_id f mapped loaded.1 res repo') kept
            (store_plan-IsPrepared scope_id target loaded.0 mapped loaded.1 repo repo' res h2),
      )
