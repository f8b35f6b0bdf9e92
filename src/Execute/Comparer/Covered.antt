-- ===== src/Execute/Comparer/Covered.antt =====
-- What a verdict of coverage means for the traffic.
use nsp_migrator.Prelude.{◌≡◌, some, List, Elem}
use nsp_migrator.Prelude.Eq.{list_eq, nat_eq}
use nsp_migrator.Prelude.Result.{Result, ok}
use nsp_migrator.Hash.{Builtins}
use nsp_migrator.Execute.Rules.{covered_match, RuleBody, SdwanPolicyCatalog}
use nsp_migrator.Execute.Values.{NormalizationError}
use nsp_migrator.Execute.Resolver.{ResolvedRuleValues, resolve_rule}
use nsp_migrator.Execute.Coverage.Soundness.{Packet, Matches, analyze_coverage_sound}
use nsp_migrator.Execute.Comparer.{
  RuleCompareResult, ResolvedSdwanRule, compare_rule, rules_comparer,
}
use nsp_migrator.Execute.Comparer.Index.{resolved_rules, catalog_resolver}
use nsp_migrator.Execute.Comparer.Verdicts.{
  Verdict, failed, exact, covered, fresh, IsCoveredBy, Elem-resolved_rules, compare_rule-Verdict,
}

module _ (b : Builtins) where
  Verdict-covered :
      (xs : List ResolvedSdwanRule) (res : Result NormalizationError ResolvedRuleValues)
      (out : RuleCompareResult)
      → Verdict b xs res out
      → out.match_status ≡ covered_match
      → (p : ResolvedRuleValues) × (x : ResolvedSdwanRule) × (res ≡ ok p)
        × Elem x xs
        × IsCoveredBy b p x
        × (out.matched_sdwan_rule_id ≡ some x.rule.id)
  Verdict-covered xs res out (failed e _ s _) h = cc
  Verdict-covered xs res out (exact p x _ _ _ s _) h = cc
  Verdict-covered xs res out (covered p x r _ m u s i) h = (p, x, r, m, u, i)
  Verdict-covered xs res out (fresh p _ _ _ s _) h = cc

  -- A planned rule that is reported as covered may be left out of a migration: the policy that the
  -- report names stands in the catalog, has the same normalized action, and matches every packet
  -- that the planned rule matches.
  pub covered_match_sound :
      (catalog : SdwanPolicyCatalog) (rule : RuleBody)
      → (compare_rule b (rules_comparer b catalog) rule).match_status ≡ covered_match
      → (p : ResolvedRuleValues) × (x : ResolvedSdwanRule) × (resolve_rule
            (catalog_resolver catalog)
            rule
          ≡ ok p)
        × Elem x.rule catalog.rules
        × (resolve_rule (catalog_resolver catalog) x.rule.body ≡ ok x.values)
        × ((compare_rule b (rules_comparer b catalog) rule).matched_sdwan_rule_id ≡ some x.rule.id)
        × (x.values.normalized.action ≡ p.normalized.action)
        × ((k : Packet) → Matches p k → Matches x.values k)
  covered_match_sound catalog rule h =
      let (p, x, r, m, u, i) =
        Verdict-covered (resolved_rules (catalog_resolver catalog) catalog.rules)
          (resolve_rule (catalog_resolver catalog) rule)
          (compare_rule b (rules_comparer b catalog) rule) (compare_rule-Verdict b catalog rule)
          h in
      let (there, v) = Elem-resolved_rules (catalog_resolver catalog) catalog.rules x m in
      let (action, traffic) = analyze_coverage_sound x.values p u in
      (p, x, r, there, v, i, action, traffic)
