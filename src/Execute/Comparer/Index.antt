-- ===== src/Execute/Comparer/Index.antt =====
-- What the constructor of the comparer builds from the policies of the catalog.
use mathlib.Core.List.{append-nil, append_assoc}
use nsp_migrator.Prelude.{
  suc, ◌+◌, ◌≡◌, ◌⊎◌, refl, sym, Elem, subst, ◌∙◌, inl, inr, List, [], ◌∷◌, ◌++◌, arith, length,
  if◌then◌else◌,
}
use nsp_migrator.Prelude.Eq.{◌==◌, ==-cases, list_eq, nat_eq}
use nsp_migrator.Prelude.Dict.{get_list, get_list-append_at, lookup}
use nsp_migrator.Prelude.Result.{Result, ok, err}
use nsp_migrator.Prelude.Text.{Text}
use nsp_migrator.Hash.{Builtins}
use nsp_migrator.Execute.Rules.{SdwanRule, SdwanPolicyCatalog}
use nsp_migrator.Execute.Values.{NormalizationError}
use nsp_migrator.Execute.Resolver.{
  RuleValuesResolver, rule_values_resolver, ResolvedRuleValues, resolve_rule,
}
use nsp_migrator.Execute.ExactSignature.{exact_signature}
use nsp_migrator.Execute.Comparer.{
  RulesComparer, ResolvedSdwanRule, ExcludedExistingRule, load_resolved, load_rules, rules_comparer,
}

-- One outcome in front of those of the later rules.
abbrev pub add_resolved :
    SdwanRule
    → Result NormalizationError ResolvedRuleValues
    → List ResolvedSdwanRule
    → List ResolvedSdwanRule
add_resolved rule (ok v) rest = record { rule = rule; values = v } ∷ rest
add_resolved rule (err e) rest = rest

abbrev add_excluded :
    SdwanRule
    → Result NormalizationError ResolvedRuleValues
    → List ExcludedExistingRule
    → List ExcludedExistingRule
add_excluded rule (ok v) rest = rest
add_excluded rule (err e) rest = record { sdwan_rule_id = rule.id; reason = e } ∷ rest

-- The rules that resolve, and those that do not, in the order of the catalog.
abbrev pub resolved_rules : RuleValuesResolver → List SdwanRule → List ResolvedSdwanRule
resolved_rules r [] = []
resolved_rules r (x ∷ xs) = add_resolved x (resolve_rule r x.body) (resolved_rules r xs)

abbrev pub broken_rules : RuleValuesResolver → List SdwanRule → List ExcludedExistingRule
broken_rules r [] = []
broken_rules r (x ∷ xs) = add_excluded x (resolve_rule r x.body) (broken_rules r xs)

abbrev pub catalog_resolver : SdwanPolicyCatalog → RuleValuesResolver
catalog_resolver catalog =
    rule_values_resolver catalog.zones catalog.services catalog.address_objects

abbrev empty_comparer : SdwanPolicyCatalog → RulesComparer
empty_comparer catalog = record {
  resolver = catalog_resolver catalog;
  resolved_sdwan_rules = [];
  rules_index = [];
  excluded_existing_rules = [];
}

module _ (b : Builtins) where
  -- The rules whose signature is `s`.
  abbrev pub with_signature : Text → List ResolvedSdwanRule → List ResolvedSdwanRule
  with_signature s [] = []
  with_signature s (x ∷ xs) =
      let rest = with_signature s xs in
      if s == exact_signature b x.values.normalized then x ∷ rest else rest

  with_signature-append :
      (s : Text) (xs ys : List ResolvedSdwanRule)
      → with_signature s (xs ++ ys) ≡ with_signature s xs ++ with_signature s ys
  with_signature-append s [] ys = refl
  with_signature-append s (x ∷ xs) ys = ground (arith, with_signature-append s xs ys)

  -- `post` is `pre` with the resolved rules `rs` and the excluded ones `es` appended.
  record Extends (pre : RulesComparer) (rs : List ResolvedSdwanRule)
      (es : List ExcludedExistingRule) (post : RulesComparer) : Type 0 where
    resolver : post.resolver ≡ pre.resolver
    resolved : post.resolved_sdwan_rules ≡ pre.resolved_sdwan_rules ++ rs
    excluded : post.excluded_existing_rules ≡ pre.excluded_existing_rules ++ es
    indexed :
        (s : Text) → get_list s post.rules_index ≡ get_list s pre.rules_index ++ with_signature s rs

  Extends-refl : (c : RulesComparer) → Extends c [] [] c
  Extends-refl c = record {
    resolver = refl;
    resolved = rw append-nil;
    excluded = rw append-nil;
    indexed = λ s. rw append-nil;
  }

  Extends-trans :
      {u v w : RulesComparer} {rs rs' : List ResolvedSdwanRule} {es es' : List ExcludedExistingRule}
      → Extends u rs es v
      → Extends v rs' es' w
      → Extends u (rs ++ rs') (es ++ es') w
  Extends-trans {u} {rs = rs} {rs' = rs'} {es = es} {es' = es'} h k = record {
    resolver = k.resolver ∙ h.resolver;
    resolved = k.resolved ∙ (rw h.resolved (append_assoc u.resolved_sdwan_rules rs rs'));
    excluded = k.excluded ∙ (rw h.excluded (append_assoc u.excluded_existing_rules es es'));
    indexed = λ s.
        k.indexed s
        ∙ (rw (h.indexed s, with_signature-append s rs rs')
            (append_assoc (get_list s u.rules_index) (with_signature s rs) (with_signature s rs')));
  }

  Extends-load_resolved :
      (x : SdwanRule) (res : Result NormalizationError ResolvedRuleValues) (c : RulesComparer)
      → Extends c (add_resolved x res []) (add_excluded x res []) (load_resolved b x res c)
  unfolding load_resolved
  Extends-load_resolved x (err e) c = record {
    resolver = refl;
    resolved = rw append-nil;
    excluded = refl;
    indexed = λ s. rw append-nil;
  }
  Extends-load_resolved x (ok v) c = record {
    resolver = refl;
    resolved = refl;
    excluded = rw append-nil;
    indexed = λ s.
        get_list-append_at s (exact_signature b v.normalized) (record { rule = x; values = v })
          c.rules_index
        ∙ elim (==-cases s (exact_signature b v.normalized)) [
          | inl (t, _) ↦ rw t
          | inr (t, _) ↦ rw t (rw append-nil)
        ];
  }

  Extends-load_rules :
      (rules : List SdwanRule) (c : RulesComparer)
      → Extends c
          (resolved_rules c.resolver rules)
          (broken_rules c.resolver rules)
          (load_rules b rules c)
  unfolding load_rules
  Extends-load_rules [] c = Extends-refl c
  Extends-load_rules (x ∷ xs) c =
      after (resolve_rule c.resolver x.body) (load_resolved b x (resolve_rule c.resolver x.body) c)
        (Extends-load_resolved x (resolve_rule c.resolver x.body) c)
        (Extends-load_rules xs (load_resolved b x (resolve_rule c.resolver x.body) c))
    where
      same_resolver :
          (c' : RulesComparer)
          → c'.resolver ≡ c.resolver
          → Extends c'
              (resolved_rules c'.resolver xs)
              (broken_rules c'.resolver xs)
              (load_rules b xs c')
          → Extends c'
              (resolved_rules c.resolver xs)
              (broken_rules c.resolver xs)
              (load_rules b xs c')
      same_resolver c' e k =
          subst (λ r. Extends c' (resolved_rules r xs) (broken_rules r xs) (load_rules b xs c')) e k

      after :
          (res : Result NormalizationError ResolvedRuleValues) (c' : RulesComparer)
          → Extends c (add_resolved x res []) (add_excluded x res []) c'
          → Extends c'
              (resolved_rules c'.resolver xs)
              (broken_rules c'.resolver xs)
              (load_rules b xs c')
          → Extends c
              (add_resolved x res (resolved_rules c.resolver xs))
              (add_excluded x res (broken_rules c.resolver xs))
              (load_rules b xs c')
      after (ok v) c' h k = Extends-trans h (same_resolver c' h.resolver k)
      after (err e) c' h k = Extends-trans h (same_resolver c' h.resolver k)

  -- The comparer of a catalog holds the rules that resolve, in order; the index gives for each
  -- signature those of them that have it, in order; every other rule is excluded with its reason.
  pub rules_comparer_contents :
      (catalog : SdwanPolicyCatalog)
      → let r = catalog_resolver catalog in
        ((rules_comparer b catalog).resolved_sdwan_rules ≡ resolved_rules r catalog.rules)
        × ((rules_comparer b catalog).excluded_existing_rules ≡ broken_rules r catalog.rules)
        × ((s : Text)
            → get_list s (rules_comparer b catalog).rules_index
              ≡ with_signature s (resolved_rules r catalog.rules))
        × ((rules_comparer b catalog).resolver ≡ r)
  unfolding rules_comparer lookup
  rules_comparer_contents catalog =
      let h = Extends-load_rules catalog.rules (empty_comparer catalog) in
      (h.resolved, h.excluded, h.indexed, h.resolver)

resolved_and_broken :
    (x : SdwanRule) (res : Result NormalizationError ResolvedRuleValues)
    (rs : List ResolvedSdwanRule) (es : List ExcludedExistingRule)
    → length (add_resolved x res rs) + length (add_excluded x res es) ≡ suc (length rs + length es)
resolved_and_broken x (ok v) rs es = omega arith
resolved_and_broken x (err e) rs es = omega arith

length-resolved_and_broken :
    (r : RuleValuesResolver) (rules : List SdwanRule)
    → length (resolved_rules r rules) + length (broken_rules r rules) ≡ length rules
length-resolved_and_broken r [] = omega arith
length-resolved_and_broken r (x ∷ xs) = omega (
  arith,
  length-resolved_and_broken r xs,
  resolved_and_broken x (resolve_rule r x.body) (resolved_rules r xs) (broken_rules r xs),
)

-- The comparer holds the policy with its values, or excludes it with the reason.
abbrev pub Accounts : RulesComparer → SdwanRule → Type 0
Accounts c x =
    ((v : ResolvedRuleValues) × (resolve_rule c.resolver x.body ≡ ok v)
      × Elem (record { rule = x; values = v }) c.resolved_sdwan_rules)
    ⊎ ((e : NormalizationError) × (resolve_rule c.resolver x.body ≡ err e)
        × Elem (record { sdwan_rule_id = x.id; reason = e }) c.excluded_existing_rules)

Result-cases :
    (res : Result NormalizationError ResolvedRuleValues)
    → ((v : ResolvedRuleValues) × (res ≡ ok v)) ⊎ ((e : NormalizationError) × (res ≡ err e))
Result-cases (ok v) = inl (v, refl)
Result-cases (err e) = inr (e, refl)

resolved_or_broken :
    (r : RuleValuesResolver) (rules : List SdwanRule) (x : SdwanRule)
    → Elem x rules
    → ((v : ResolvedRuleValues) × (resolve_rule r x.body ≡ ok v)
        × Elem (record { rule = x; values = v }) (resolved_rules r rules))
      ⊎ ((e : NormalizationError) × (resolve_rule r x.body ≡ err e)
          × Elem (record { sdwan_rule_id = x.id; reason = e }) (broken_rules r rules))
resolved_or_broken r [] x m = absurd m
resolved_or_broken r (y ∷ ys) x (inl same) = elim (Result-cases (resolve_rule r x.body)) [
  | inl (v, e) ↦ inl (v, e, rw (sym same, e) (inl refl))
  | inr (n, e) ↦ inr (n, e, rw (sym same, e) (inl refl))
]
resolved_or_broken r (y ∷ ys) x (inr m) = elim (resolved_or_broken r ys x m) [
  | inl (v, e, k) ↦ inl (
    v,
    e,
    elim (Result-cases (resolve_rule r y.body)) [ inl (w, f) ↦ rw f (inr k) | inr (w, f) ↦ rw f k ],
  )
  | inr (n, e, k) ↦ inr (
    n,
    e,
    elim (Result-cases (resolve_rule r y.body)) [ inl (w, f) ↦ rw f k | inr (w, f) ↦ rw f (inr k) ],
  )
]

-- The comparer of a catalog accounts for every policy: it holds it with the values that it resolves
-- to, or excludes it with the reason for which it does not; and it holds and excludes no more
-- policies together than the catalog has.
pub rules_comparer-Accounts :
    (b : Builtins) (catalog : SdwanPolicyCatalog)
    → ((x : SdwanRule) → Elem x catalog.rules → Accounts (rules_comparer b catalog) x)
      × (length (rules_comparer b catalog).resolved_sdwan_rules
            + length (rules_comparer b catalog).excluded_existing_rules
          ≡ length catalog.rules)
rules_comparer-Accounts b catalog =
    let (resolved, excluded, _, resolver) = rules_comparer_contents b catalog in
    rw (resolved, excluded, resolver)
      (
        resolved_or_broken (catalog_resolver catalog) catalog.rules,
        length-resolved_and_broken (catalog_resolver catalog) catalog.rules,
      )
