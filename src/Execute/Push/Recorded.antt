-- ===== src/Execute/Push/Recorded.antt =====
-- The outcomes that the repository holds after a push.
use nsp_migrator.Prelude.{
  ℕ, ◌≡◌, ◌≢◌, refl, sym, ◌∙◌, inl, inr, Option, none, some, List, [], ◌∷◌, All, Elem, map,
  Option-cases, if◌then◌else◌,
}
use nsp_migrator.Prelude.Eq.{◌==◌, ==-cases, nat_eq}
use nsp_migrator.Prelude.Dict.{Dict, lookup, insert, lookup-insert, lookup-insert_same}
use nsp_migrator.Prelude.Result.{ok}
use nsp_migrator.Execute.Rules.{RulePushStatus}
use nsp_migrator.Execute.Plan.{ExecutePlanRule, mark_push_succeeded, mark_push_failed}
use nsp_migrator.Execute.Gateway.{PushRuleResult}
use nsp_migrator.Execute.Repository.{Repository, PlanEntry, update_plan_rule}
use nsp_migrator.Execute.Push.{updated_rule, record_results}

-- The rule `i` of the plan `k`.
abbrev pub stored_rule : ℕ → ℕ → Repository → Option ExecutePlanRule
stored_rule k i repo = elim (lookup k repo) [ none ↦ none | some entry ↦ lookup i entry.rules ]

-- An update of a rule that is stored succeeds, and changes this rule only.
update_plan_rule-stored :
    (rule old : ExecutePlanRule) (repo : Repository)
    → stored_rule rule.execute_plan_id rule.id repo ≡ some old
    → (repo' : Repository) × (update_plan_rule rule repo ≡ ok repo')
      × ((i : ℕ)
          → stored_rule rule.execute_plan_id i repo'
            ≡ (if i == rule.id then some rule else stored_rule rule.execute_plan_id i repo))
unfolding update_plan_rule
update_plan_rule-stored rule old repo h = elim (Option-cases (lookup rule.execute_plan_id repo)) [
  | inl f ↦ cc (rw (f, stored_rule) at h)
  | inr (entry, f) ↦
      let now : lookup rule.id entry.rules ≡ some old = rw (f, stored_rule) at h in
      let after : PlanEntry = record {
        plan = entry.plan;
        rules = insert rule.id rule entry.rules;
      } in
      (
        insert rule.execute_plan_id after repo,
        rw (f, update_plan_rule) (rw now refl),
        λ i.
            rw (stored_rule, lookup-insert_same rule.execute_plan_id after repo, f)
              (lookup-insert i rule.id rule entry.rules),
      )
]

update_plan_rule-at :
    (k x : ℕ) (rule old : ExecutePlanRule) (repo : Repository)
    → rule.execute_plan_id ≡ k
    → rule.id ≡ x
    → stored_rule k x repo ≡ some old
    → (repo' : Repository) × (update_plan_rule rule repo ≡ ok repo')
      × ((i : ℕ) → stored_rule k i repo' ≡ (if i == x then some rule else stored_rule k i repo))
update_plan_rule-at k x rule old repo e f h =
    rw (sym e, sym f) (update_plan_rule-stored rule old repo (rw (e, f) h))

updated_rule-ids :
    (rule : ExecutePlanRule) (r : PushRuleResult)
    → ((updated_rule rule r).id ≡ rule.id)
      × ((updated_rule rule r).execute_plan_id ≡ rule.execute_plan_id)
unfolding updated_rule mark_push_succeeded mark_push_failed
updated_rule-ids rule r = elim (Option-cases r.sdwan_rule_id) [
  | inl f ↦ (rw (f, updated_rule) refl, rw (f, updated_rule) refl)
  | inr (_, f) ↦ (rw (f, updated_rule) refl, rw (f, updated_rule) refl)
]

abbrev pub result_ids : List PushRuleResult → List ℕ
result_ids rs = map (λ (r : PushRuleResult). r.execute_plan_rule_id) rs

abbrev pub Distinct : List ℕ → Type 0
Distinct [] = Unit
Distinct (i ∷ is) = (¬ Elem i is) × Distinct is

-- A result is about a rule of the plan `k` that is given and stored.
abbrev pub IsAbout : ℕ → Dict ℕ ExecutePlanRule → Repository → PushRuleResult → Type 0
IsAbout k rules repo r =
    (rule : ExecutePlanRule) × (lookup r.execute_plan_rule_id rules ≡ some rule)
    × (rule.id ≡ r.execute_plan_rule_id)
    × (rule.execute_plan_id ≡ k)
    × (old : ExecutePlanRule) × (stored_rule k r.execute_plan_rule_id repo ≡ some old)

-- The push status and the identifier of the policy that a result stands for.
abbrev pub outcome : PushRuleResult → RulePushStatus × Option ℕ
outcome r = elim r.sdwan_rule_id [
  | some id ↦ (RulePushStatus.succeeded, some id)
  | none ↦ (RulePushStatus.failed, none)
]

-- The plan holds the rule of a result with the outcome of the result, and with the draft it had.
abbrev pub IsRecorded : ℕ → Dict ℕ ExecutePlanRule → Repository → PushRuleResult → Type 0
IsRecorded k rules repo r =
    (rule : ExecutePlanRule) × (stored : ExecutePlanRule) × (lookup r.execute_plan_rule_id rules
      ≡ some rule)
    × (stored_rule k r.execute_plan_rule_id repo ≡ some stored)
    × ((stored.push_status, stored.pushed_sdwan_rule_id) ≡ outcome r)
    × (stored.draft ≡ rule.draft)

updated_rule-outcome :
    (rule : ExecutePlanRule) (r : PushRuleResult)
    → (((updated_rule rule r).push_status, (updated_rule rule r).pushed_sdwan_rule_id) ≡ outcome r)
      × ((updated_rule rule r).draft ≡ rule.draft)
unfolding updated_rule mark_push_succeeded mark_push_failed
updated_rule-outcome rule r = elim (Option-cases r.sdwan_rule_id) [
  | inl f ↦ (rw (f, updated_rule) refl, rw (f, updated_rule) refl)
  | inr (_, f) ↦ (rw (f, updated_rule) refl, rw (f, updated_rule) refl)
]

abbrev pub Recorded : ℕ → Dict ℕ ExecutePlanRule → List PushRuleResult → Repository → Type 0
Recorded k rules rs repo =
    (repo' : Repository) × (record_results rules rs repo ≡ (ok tt, repo'))
    × All (IsRecorded k rules repo') rs
    × ((i : ℕ) → ¬ Elem i (result_ids rs) → stored_rule k i repo' ≡ stored_rule k i repo)

-- The results of the other rules stay about stored rules.
All-IsAbout :
    (k : ℕ) (rules : Dict ℕ ExecutePlanRule) (repo repo' : Repository) (x : ℕ)
    (new : ExecutePlanRule) (rs : List PushRuleResult)
    → ((i : ℕ) → stored_rule k i repo' ≡ (if i == x then some new else stored_rule k i repo))
    → All (IsAbout k rules repo) rs
    → All (IsAbout k rules repo') rs
All-IsAbout k rules repo repo' x new [] h a = tt
All-IsAbout k rules repo repo' x new (r ∷ rs) h ((rule, found, own, plan, old, stored), a) = (
  elim (==-cases r.execute_plan_rule_id x) [
    | inl (t, _) ↦ (rule, found, own, plan, new, h r.execute_plan_rule_id ∙ (rw t refl))
    | inr (t, _) ↦ (rule, found, own, plan, old, h r.execute_plan_rule_id ∙ (rw t stored))
  ],
  All-IsAbout k rules repo repo' x new rs h a,
)

self : {A : Type 0} (x : ℕ) (a b : A) → (if x == x then a else b) ≡ a
self x a b = elim (==-cases x x) [ inl (t, _) ↦ rw t refl | inr (_, n) ↦ absurd (n refl) ]

other : {A : Type 0} (i x : ℕ) (a b : A) → i ≢ x → (if i == x then a else b) ≡ b
other i x a b n = elim (==-cases i x) [ inl (_, e) ↦ absurd (n e) | inr (t, _) ↦ rw t refl ]

-- When each push result names another rule, and each of these rules is in the plan, the loop over
-- the results ends without an error; the repository then holds for every result its rule, with its
-- draft, as succeeded with the identifier of the policy or as failed without one, and every other
-- rule of the plan is as before.
pub record_results_exact :
    (k : ℕ) (rules : Dict ℕ ExecutePlanRule) (rs : List PushRuleResult) (repo : Repository)
    → Distinct (result_ids rs)
    → All (IsAbout k rules repo) rs
    → Recorded k rules rs repo
unfolding record_results
record_results_exact k rules [] repo d a = (repo, refl, tt, λ i n. refl)
record_results_exact k rules (r ∷ rs) repo (fresh, d) ((rule, found, own, plan, old, stored), a) =
    let (same_id, same_plan) = updated_rule-ids rule r in
    let (repo1, updated, changed) =
      update_plan_rule-at k r.execute_plan_rule_id (updated_rule rule r) old repo (same_plan ∙ plan)
        (same_id ∙ own) stored in
    let (repo', done, recorded, kept) =
      record_results_exact k rules rs repo1 d (
        All-IsAbout k rules repo repo1 r.execute_plan_rule_id (updated_rule rule r) rs changed a) in
    (
      repo',
      rw (found, record_results) (rw (updated, record_results) done),
      (
        (
          rule,
          updated_rule rule r,
          found,
          kept r.execute_plan_rule_id fresh
              ∙ changed r.execute_plan_rule_id
              ∙ self r.execute_plan_rule_id (some (updated_rule rule r)) _,
          (updated_rule-outcome rule r).0,
          (updated_rule-outcome rule r).1,
        ),
        recorded,
      ),
      λ i n.
          kept i (λ m. n (inr m))
          ∙ changed i
          ∙ other i r.execute_plan_rule_id (some (updated_rule rule r)) (stored_rule k i repo)
              (λ e. n (inl e)),
    )
