-- ===== src/Execute/Comparer/Verdicts.antt =====
-- The verdicts of `compare_rule`, against a search through the resolved policies.
use nsp_migrator.Prelude.{
  ◌≡◌, refl, sym, subst, ap, ◌∙◌, inl, inr, ◌⊎◌, true, none, some, List, [], ◌∷◌, Elem, All,
  Bool-cases,
}
use nsp_migrator.Prelude.Eq.{==-cases, list_eq, nat_eq}
use nsp_migrator.Prelude.Dict.{get_list}
use nsp_migrator.Prelude.Result.{Result, ok, err}
use nsp_migrator.Hash.{Builtins}
use nsp_migrator.Execute.Rules.{
  exact_match, covered_match, new, match_error, RuleBody, SdwanRule, SdwanPolicyCatalog,
}
use nsp_migrator.Execute.Values.{NormalizationError}
use nsp_migrator.Execute.Resolver.{RuleValuesResolver, ResolvedRuleValues, resolve_rule}
use nsp_migrator.Execute.ExactSignature.{exact_signature}
use nsp_migrator.Execute.Coverage.{analyze_coverage}
use nsp_migrator.Execute.Comparer.{
  RuleCompareResult, RulesComparer, ResolvedSdwanRule, compare_coverage, compare_candidates,
  compare_resolved, compare_rule, rules_comparer,
}
use nsp_migrator.Execute.Comparer.Index.{
  add_resolved, resolved_rules, with_signature, catalog_resolver, rules_comparer_contents,
}

Elem-add :
    (r : RuleValuesResolver) (y : SdwanRule) (rest : List ResolvedSdwanRule)
    (res : Result NormalizationError ResolvedRuleValues) (x : ResolvedSdwanRule)
    → resolve_rule r y.body ≡ res
    → Elem x (add_resolved y res rest)
    → ((x.rule ≡ y) × (resolve_rule r x.rule.body ≡ ok x.values)) ⊎ Elem x rest
Elem-add r y rest (err e) x h m = inr m
Elem-add r y rest (ok v) x h (inl same) =
    inl (ap (λ (z : ResolvedSdwanRule). z.rule) same, rw same h)
Elem-add r y rest (ok v) x h (inr m) = inr m

-- The resolved policies are policies of the catalog with their values.
pub Elem-resolved_rules :
    (r : RuleValuesResolver) (rules : List SdwanRule) (x : ResolvedSdwanRule)
    → Elem x (resolved_rules r rules)
    → Elem x.rule rules × (resolve_rule r x.rule.body ≡ ok x.values)
Elem-resolved_rules r [] x m = absurd m
Elem-resolved_rules r (y ∷ ys) x m =
    elim (Elem-add r y (resolved_rules r ys) (resolve_rule r y.body) x refl m) [
      | inl (same, v) ↦ (inl same, v)
      | inr later ↦ let (there, v) = Elem-resolved_rules r ys x later in (inr there, v)
    ]

module _ (b : Builtins) where
  -- Two rules have one exact signature.
  abbrev pub SameSignature : ResolvedRuleValues → ResolvedSdwanRule → Type 0
  SameSignature p x = exact_signature b p.normalized ≡ exact_signature b x.values.normalized

  abbrev pub IsCoveredBy : ResolvedRuleValues → ResolvedSdwanRule → Type 0
  IsCoveredBy p x = (analyze_coverage x.values p).is_covered ≡ true

  -- Why `out` is the verdict on a rule that resolves to `res`, among the policies `existing`.
  pub data Verdict (existing : List ResolvedSdwanRule)
      (res : Result NormalizationError ResolvedRuleValues) (out : RuleCompareResult) : Type 0 where
    failed :
        (e : NormalizationError)
        → res ≡ err e
        → out.match_status ≡ match_error
        → out.matched_sdwan_rule_id ≡ none
        → Verdict existing res out
    exact :
        (p : ResolvedRuleValues) (x : ResolvedSdwanRule)
        → res ≡ ok p
        → Elem x existing
        → SameSignature p x
        → out.match_status ≡ exact_match
        → out.matched_sdwan_rule_id ≡ some x.rule.id
        → Verdict existing res out
    covered :
        (p : ResolvedRuleValues) (x : ResolvedSdwanRule)
        → res ≡ ok p
        → All (λ y. ¬ SameSignature p y) existing
        → Elem x existing
        → IsCoveredBy p x
        → out.match_status ≡ covered_match
        → out.matched_sdwan_rule_id ≡ some x.rule.id
        → Verdict existing res out
    fresh :
        (p : ResolvedRuleValues)
        → res ≡ ok p
        → All (λ y. ¬ SameSignature p y) existing
        → All (λ y. ¬ IsCoveredBy p y) existing
        → out.match_status ≡ new
        → out.matched_sdwan_rule_id ≡ none
        → Verdict existing res out

  with_signature-eq-nil :
      (p : ResolvedRuleValues) (xs : List ResolvedSdwanRule)
      → with_signature b (exact_signature b p.normalized) xs ≡ []
      → All (λ y. ¬ SameSignature p y) xs
  with_signature-eq-nil p [] h = tt
  with_signature-eq-nil p (x ∷ xs) h =
      elim (==-cases (exact_signature b p.normalized) (exact_signature b x.values.normalized)) [
        | inl (t, e) ↦ cc (rw t at h)
        | inr (t, n) ↦ (n, with_signature-eq-nil p xs (rw t at h))
      ]

  with_signature-eq-cons :
      (p : ResolvedRuleValues) (xs ys : List ResolvedSdwanRule) (y : ResolvedSdwanRule)
      → with_signature b (exact_signature b p.normalized) xs ≡ y ∷ ys
      → Elem y xs × SameSignature p y
  with_signature-eq-cons p [] ys y h = cc
  with_signature-eq-cons p (x ∷ xs) ys y h =
      elim (==-cases (exact_signature b p.normalized) (exact_signature b x.values.normalized)) [
        | inl (t, e) ↦
            let same : x ≡ y = cc (rw t at h) in
            (
              inl (sym same),
              e ∙ ap (λ (z : ResolvedSdwanRule). exact_signature b z.values.normalized) same,
            )
        | inr (t, n) ↦
            let (there, e) = with_signature-eq-cons p xs ys y (rw t at h) in (inr there, e)
      ]

  -- The search for a covering policy.
  compare_coverage_verdict :
      (xs : List ResolvedSdwanRule) (p : ResolvedRuleValues)
      → (All (λ y. ¬ IsCoveredBy p y) xs
          × ((compare_coverage xs p).match_status ≡ new)
          × ((compare_coverage xs p).matched_sdwan_rule_id ≡ none))
        ⊎ ((x : ResolvedSdwanRule) × Elem x xs
            × IsCoveredBy p x
            × ((compare_coverage xs p).match_status ≡ covered_match)
            × ((compare_coverage xs p).matched_sdwan_rule_id ≡ some x.rule.id))
  unfolding compare_coverage
  compare_coverage_verdict [] p = inl (tt, refl, refl)
  compare_coverage_verdict (x ∷ xs) p = elim (Bool-cases (analyze_coverage x.values p).is_covered) [
    | inl t ↦ inr (x, inl refl, t, rw t, rw t)
    | inr t ↦ elim (compare_coverage_verdict xs p) [
      | inl (none_covers, s, i) ↦ inl ((λ u. cc, none_covers), rw t s, rw t i)
      | inr (y, m, u, s, i) ↦ inr (y, inr m, u, rw t s, rw t i)
    ]
  ]

  compare_candidates-Verdict :
      (existing candidates : List ResolvedSdwanRule) (c : RulesComparer) (p : ResolvedRuleValues)
      → c.resolved_sdwan_rules ≡ existing
      → with_signature b (exact_signature b p.normalized) existing ≡ candidates
      → Verdict existing (ok p) (compare_candidates b candidates c p)
  unfolding compare_candidates
  compare_candidates-Verdict existing (x ∷ xs) c p e h =
      let (m, same) = with_signature-eq-cons p existing xs x h in exact p x refl m same refl refl
  compare_candidates-Verdict existing [] c p e h =
      let differ = with_signature-eq-nil p existing h in
      rw e (elim (compare_coverage_verdict existing p) [
        | inl (none_covers, s, i) ↦ fresh p refl differ none_covers s i
        | inr (x, m, u, s, i) ↦ covered p x refl differ m u s i
      ])

  compare_resolved-Verdict :
      (existing : List ResolvedSdwanRule) (c : RulesComparer)
      (res : Result NormalizationError ResolvedRuleValues)
      → c.resolved_sdwan_rules ≡ existing
      → ((p : ResolvedRuleValues)
          → get_list (exact_signature b p.normalized) c.rules_index
            ≡ with_signature b (exact_signature b p.normalized) existing)
      → Verdict existing res (compare_resolved b res c)
  unfolding compare_resolved
  compare_resolved-Verdict existing c (err e) h k = failed e refl refl refl
  compare_resolved-Verdict existing c (ok p) h k =
      compare_candidates-Verdict existing (get_list (exact_signature b p.normalized) c.rules_index)
        c p h (sym (k p))

  -- The verdict on a planned rule, through the index of signatures, is the one that a search
  -- through all resolved policies gives: an error if the rule does not resolve, an exact match if
  -- some policy has its signature, else covered by a policy that covers it, else new.
  pub compare_rule-Verdict :
      (catalog : SdwanPolicyCatalog) (rule : RuleBody)
      → Verdict
          (resolved_rules (catalog_resolver catalog) catalog.rules)
          (resolve_rule (catalog_resolver catalog) rule)
          (compare_rule b (rules_comparer b catalog) rule)
  unfolding compare_rule
  compare_rule-Verdict catalog rule =
      let (resolved, _, indexed, same) = rules_comparer_contents b catalog in
      subst
        (λ r.
          Verdict (resolved_rules (catalog_resolver catalog) catalog.rules)
            (resolve_rule (catalog_resolver catalog) rule)
            (compare_resolved b (resolve_rule r rule) (rules_comparer b catalog)))
        (sym same)
        (compare_resolved-Verdict (resolved_rules (catalog_resolver catalog) catalog.rules)
          (rules_comparer b catalog) (resolve_rule (catalog_resolver catalog) rule) resolved
          (λ p. indexed (exact_signature b p.normalized)))
