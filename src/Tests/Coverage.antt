-- ===== src/Tests/Coverage.antt =====
-- The comparison of a rule with the existing policies on small inputs.
use nsp_migrator.Prelude.{
  ℕ, ◌+◌, ◌≡◌, ◌≢◌, ◌↔◌, refl, true, none, some, List, [], ◌∷◌, Elem, length,
}
use nsp_migrator.Prelude.Eq.{nat_eq, list_eq, option_eq}
use nsp_migrator.Prelude.Dict.{get_list}
use nsp_migrator.Prelude.Result.{ok}
use nsp_migrator.Prelude.Text.{Text}
use nsp_migrator.Execute.Rules.{RuleMatchStatus, CoverageField, SdwanRuleAction, CoverageDetail}
use nsp_migrator.Execute.Values.{AddressValue, span}
use nsp_migrator.Execute.Signature.{ResolvedCoverageValue, address_coverable}
use nsp_migrator.Execute.Resolver.{ResolvedRuleValues, resolve_rule}
use nsp_migrator.Execute.ExactSignature.{exact_signature}
use nsp_migrator.Execute.Coverage.{analyze_values_coverage, analyze_coverage}
use nsp_migrator.Execute.Coverage.Values.{
  CoverableBy, evidence_under, Listed, analyze_values_coverage_exact,
  analyze_values_coverage_evidence,
}
use nsp_migrator.Execute.Coverage.Soundness.{
  Covers, Packet, Matches, analyze_coverage_exact, analyze_coverage_sound,
}
use nsp_migrator.Execute.Comparer.{compare_rule, rules_comparer, ResolvedSdwanRule}
use nsp_migrator.Execute.Comparer.Index.{
  catalog_resolver, resolved_rules, broken_rules, with_signature, rules_comparer_contents, Accounts,
  rules_comparer-Accounts,
}
use nsp_migrator.Execute.Comparer.Verdicts.{Verdict, compare_rule-Verdict}
use nsp_migrator.Execute.Comparer.Covered.{covered_match_sound}
use nsp_migrator.Execute.Values.{address_covers}
use nsp_migrator.Execute.Signature.{address_signature}
use nsp_migrator.Execute.Rules.{SdwanRule}
use nsp_migrator.Prelude.{Elem}
use native.Mathlib.Decide.{ℕ_discrete}
use nsp_migrator.Execute.Resolver.{rule_values_resolver}
use nsp_migrator.Prelude.Dict.{insert}
use nsp_migrator.Execute.Comparer.{compare_coverage}
use nsp_migrator.Execute.Services.{service_covers}
use nsp_migrator.Tests.Data.{plain, policy_catalog, narrow}

abbrev value : ℕ → ℕ → ResolvedCoverageValue AddressValue
value a b = record {
  value = span (record { start = a; end = b });
  evidence = record { object_id = a; object_name = []; value = [] };
}

analyze_values_coverage_exact_example :
    (analyze_values_coverage CoverageField.src_addr_objects (value 1 9 ∷ []) (value 2 3 ∷ [])
      ≢ none)
    ↔ CoverableBy (value 1 9 ∷ []) (value 2 3 ∷ [])
analyze_values_coverage_exact_example =
    analyze_values_coverage_exact CoverageField.src_addr_objects (value 1 9 ∷ []) (value 2 3 ∷ [])

abbrev found_details : List CoverageDetail
found_details =
    record {
      field = CoverageField.src_addr_objects;
      covering_value = (value 1 9).evidence;
      covered_values = (value 2 3).evidence ∷ [];
    }
    ∷ []

analyze_values_coverage_evidence_example :
    Listed
      (value 1 9).evidence
      (value 1 9 ∷ [])
      (value 2 3 ∷ [])
      (evidence_under (value 1 9).evidence found_details)
unfolding analyze_values_coverage address_covers address_signature ℕ_discrete
analyze_values_coverage_evidence_example =
    analyze_values_coverage_evidence CoverageField.src_addr_objects (value 1 9 ∷ [])
      (value 2 3 ∷ []) found_details (value 1 9).evidence refl

-- What the sites may send, and what the printer should.
abbrev wide_values : ResolvedRuleValues
wide_values = record {
  normalized = record {
    action = SdwanRuleAction.accept;
    src_zones = [];
    dst_zones = [];
    src_addresses = [];
    dst_addresses = [];
    services = [];
  };
  src_addresses = value 1 9 ∷ [];
  dst_addresses = value 1 9 ∷ [];
  services = [];
}

abbrev narrow_values : ResolvedRuleValues
narrow_values = record wide_values {
  src_addresses = value 2 3 ∷ [];
  dst_addresses = value 4 4 ∷ [];
}

analyze_coverage_exact_example :
    ((analyze_coverage wide_values narrow_values).is_covered ≡ true)
    ↔ Covers wide_values narrow_values
analyze_coverage_exact_example = analyze_coverage_exact wide_values narrow_values

analyze_coverage_sound_example :
    (wide_values.normalized.action ≡ narrow_values.normalized.action)
    × ((k : Packet) → Matches narrow_values k → Matches wide_values k)
unfolding analyze_coverage address_covers
analyze_coverage_sound_example = analyze_coverage_sound wide_values narrow_values refl

compare_rule-Verdict_example :
    Verdict plain
      (resolved_rules (catalog_resolver policy_catalog) policy_catalog.rules)
      (resolve_rule (catalog_resolver policy_catalog) narrow)
      (compare_rule plain (rules_comparer plain policy_catalog) narrow)
compare_rule-Verdict_example = compare_rule-Verdict plain policy_catalog narrow

narrow_is_covered :
    (compare_rule plain (rules_comparer plain policy_catalog) narrow).match_status
    ≡ RuleMatchStatus.covered_match
unfolding compare_rule rules_comparer resolve_rule exact_signature analyze_coverage
    rule_values_resolver insert ℕ_discrete compare_coverage address_covers service_covers
narrow_is_covered = refl

covered_match_sound_example :
    (p : ResolvedRuleValues) × (x : ResolvedSdwanRule) × (resolve_rule
        (catalog_resolver policy_catalog)
        narrow
      ≡ ok p)
    × Elem x.rule policy_catalog.rules
    × (resolve_rule (catalog_resolver policy_catalog) x.rule.body ≡ ok x.values)
    × ((compare_rule plain (rules_comparer plain policy_catalog) narrow).matched_sdwan_rule_id
        ≡ some x.rule.id)
    × (x.values.normalized.action ≡ p.normalized.action)
    × ((k : Packet) → Matches p k → Matches x.values k)
covered_match_sound_example = covered_match_sound plain policy_catalog narrow narrow_is_covered

rules_comparer_contents_example :
    let r = catalog_resolver policy_catalog in
    ((rules_comparer plain policy_catalog).resolved_sdwan_rules
      ≡ resolved_rules r policy_catalog.rules)
    × ((rules_comparer plain policy_catalog).excluded_existing_rules
        ≡ broken_rules r policy_catalog.rules)
    × ((s : Text)
        → get_list s (rules_comparer plain policy_catalog).rules_index
          ≡ with_signature plain s (resolved_rules r policy_catalog.rules))
    × ((rules_comparer plain policy_catalog).resolver ≡ r)
rules_comparer_contents_example = rules_comparer_contents plain policy_catalog

rules_comparer-Accounts_example :
    ((x : SdwanRule)
      → Elem x policy_catalog.rules
      → Accounts (rules_comparer plain policy_catalog) x)
    × (length (rules_comparer plain policy_catalog).resolved_sdwan_rules
          + length (rules_comparer plain policy_catalog).excluded_existing_rules
        ≡ 1)
rules_comparer-Accounts_example = rules_comparer-Accounts plain policy_catalog
