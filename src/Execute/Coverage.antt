-- ===== src/Execute/Coverage.antt =====
-- Coverage of a planned rule by an existing one, with its evidence
-- (src/app/modules/execute/services/rule_values_resolver.py, `analyze_coverage` and
-- `_analyze_values_coverage`).
pub mod Values
pub mod Meaning
pub mod Soundness
use nsp_migrator.Prelude.{
  Bool, true, false, ◌&&◌, ◌||◌, not, Option, none, some, List, [], ◌∷◌, ◌++◌, if◌then◌else◌,
}
use nsp_migrator.Prelude.Eq.{◌==◌}
use nsp_migrator.Prelude.Dict.{Dict, append_at}
use nsp_migrator.Execute.Rules.{
  CoverageField, src_addr_objects, dst_addr_objects, services, CoverageValue, CoverageDetail,
  coverage_value_eq, action_eq,
}
use nsp_migrator.Execute.Names.{str_set_covers}
use nsp_migrator.Execute.Signature.{
  Coverable, ResolvedCoverageValue, signature_eq, address_coverable, service_coverable,
}
use nsp_migrator.Execute.Resolver.{ResolvedRuleValues}

abbrev pub Covered : Type 0
Covered = Dict CoverageValue (List CoverageValue)

-- the tuple of details, one for each entry
unfoldable pub details_of : CoverageField → Covered → List CoverageDetail
details_of field [] = []
details_of field ((covering, covered) ∷ d) =
    record { field = field; covering_value = covering; covered_values = covered }
    ∷ details_of field d

module _ {A : Type 0} ⦃c : Coverable A⦄ where
  -- `next((existing for existing in existing_values if ...), None)`
  unfoldable pub first_covering :
      List (ResolvedCoverageValue A) → A → Option (ResolvedCoverageValue A)
  first_covering [] planned = none
  first_covering (e ∷ es) planned =
      let rest = first_covering es planned in if c.covers e.value planned then some e else rest

  -- the body of the loop after `covering` is found
  unfoldable pub record_coverage :
      ResolvedCoverageValue A → ResolvedCoverageValue A → Covered → Covered
  unfolding append_at signature_eq coverage_value_eq
  record_coverage covering planned d =
      if c.signature covering.value == c.signature planned.value
      then d
      else append_at covering.evidence planned.evidence d

  -- the loop over the planned values; `none` is the early return of `None`
  unfoldable pub collect_coverage :
      List (ResolvedCoverageValue A) → List (ResolvedCoverageValue A) → Covered → Option Covered
  unfolding first_covering record_coverage
  collect_coverage existing [] d = some d
  collect_coverage existing (p ∷ ps) d = elim (first_covering existing p.value) [
    | none ↦ none
    | some covering ↦ collect_coverage existing ps (record_coverage covering p d)
  ]

  -- `_analyze_values_coverage`
  unfoldable pub analyze_values_coverage :
      CoverageField
      → List (ResolvedCoverageValue A)
      → List (ResolvedCoverageValue A)
      → Option (List CoverageDetail)
  unfolding collect_coverage details_of
  analyze_values_coverage field [] [] = some []
  analyze_values_coverage field (e ∷ existing) [] = none
  analyze_values_coverage field [] (p ∷ planned) = none
  analyze_values_coverage field (e ∷ existing) (p ∷ planned) =
      elim (collect_coverage (e ∷ existing) (p ∷ planned) []) [
        | none ↦ none
        | some d ↦ some (details_of field d)
      ]

pub record CoverageAnalysis : Type 0 where
  pub is_covered : Bool
  pub details : List CoverageDetail

abbrev pub not_covered : CoverageAnalysis
not_covered = record { is_covered = false; details = [] }

-- the three analyses of values, each of which may end the call
unfoldable pub analyze_operands : ResolvedRuleValues → ResolvedRuleValues → CoverageAnalysis
unfolding analyze_values_coverage
analyze_operands existing planned =
    elim (analyze_values_coverage src_addr_objects existing.src_addresses planned.src_addresses) [
      | none ↦ not_covered
      | some src_details ↦
          elim (analyze_values_coverage dst_addr_objects existing.dst_addresses
            planned.dst_addresses) [
              | none ↦ not_covered
              | some dst_details ↦
                  elim (analyze_values_coverage services existing.services planned.services) [
                    | none ↦ not_covered
                    | some service_details ↦ record {
                      is_covered = true;
                      details = src_details ++ (dst_details ++ service_details);
                    }
                  ]
            ]
    ]

-- `analyze_coverage`
unfoldable pub analyze_coverage : ResolvedRuleValues → ResolvedRuleValues → CoverageAnalysis
unfolding analyze_operands str_set_covers action_eq
analyze_coverage existing planned =
    if not (existing.normalized.action == planned.normalized.action)
      || (not (str_set_covers existing.normalized.src_zones planned.normalized.src_zones)
          || not (str_set_covers existing.normalized.dst_zones planned.normalized.dst_zones))
    then not_covered
    else analyze_operands existing planned
