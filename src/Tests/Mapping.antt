-- ===== src/Tests/Mapping.antt =====
-- Candidates and zones on small inputs.
use nsp_migrator.Prelude.{ℕ, ◌≤◌, ◌≡◌, ◌↔◌, refl, List, [], ◌∷◌, Elem, length}
use nsp_migrator.Prelude.Text.{codes}
use nsp_migrator.Catalog.{SdwanZone}
use nsp_migrator.Mapping.Entities.{
  CandidateMatchStrategy, MappingEntityCandidatePayload, MappingEntityType, MappingResultStatus,
  Origin, create_unresolved, select_direct,
}
use nsp_migrator.Mapping.Entities.Selection.{
  IsConsistent, unresolved_one, directly_selected, Reachable-IsConsistent,
}
use nsp_migrator.Mapping.Candidates.{CandidateDraft, ranked, finalize, build_result}
use nsp_migrator.Mapping.Candidates.Best.{IsRanked, IsFalling, Shows, finalize_best}
use nsp_migrator.Mapping.Candidates.Outcome.{build_result_status}
use nsp_migrator.Mapping.Normalizer.{normalize_name, deduplicate_objects_by_id}
use nsp_migrator.Mapping.Zones.{zone_id, zones_catalog_index, match_zone}
use nsp_migrator.Mapping.Candidates.Named.{Names}
use nsp_migrator.Mapping.Zones.Named.{match_zone_exact}
use native.Mathlib.Decide.{ℕ_discrete}
use nsp_migrator.Tests.Data.{inside, outside}

abbrev new_address : Origin
new_address = record {
  id = 1;
  now = 0;
  mapping_scope_id = 1;
  entity_type = MappingEntityType.addr;
  canonical_entity_id = 5;
}

Reachable-IsConsistent_example : IsConsistent (select_direct (create_unresolved new_address) 3)
Reachable-IsConsistent_example =
    Reachable-IsConsistent (directly_selected 3 (unresolved_one new_address))

abbrev nothing_found : List MappingEntityCandidatePayload
nothing_found = []

build_result_status_example :
    (((build_result new_address 9 nothing_found).result_status ≡ MappingResultStatus.unresolved)
      ↔ (length nothing_found ≡ 0))
    × (((build_result new_address 9 nothing_found).result_status ≡ MappingResultStatus.matched)
        ↔ (length nothing_found ≡ 1))
    × IsConsistent (build_result new_address 9 nothing_found)
build_result_status_example = build_result_status new_address 9 nothing_found

abbrev draft : ℕ → ℕ → CandidateDraft
draft id score = record {
  sdwan_entity_id = id;
  score = score;
  strategy = CandidateMatchStrategy.exact_value;
}

abbrev drafts : List CandidateDraft
drafts = draft 4 50 ∷ draft 3 90 ∷ draft 4 100 ∷ []

finalize_test : finalize drafts ≡ ranked 1 (draft 4 100 ∷ draft 3 90 ∷ [])
unfolding finalize ℕ_discrete
finalize_test = refl

finalize_best_example :
    IsRanked 1 (finalize drafts)
    × IsFalling (finalize drafts)
    × ((p : MappingEntityCandidatePayload)
        → Elem p (finalize drafts)
        → (c : CandidateDraft) × Elem c drafts × Shows p c)
    × ((c : CandidateDraft)
        → Elem c drafts
        → (p : MappingEntityCandidatePayload) × Elem p (finalize drafts)
          × (p.sdwan_entity_id ≡ c.sdwan_entity_id)
          × (c.score ≤ p.score))
finalize_best_example = finalize_best drafts

normalize_name_test : normalize_name (codes " WEB-SERVER_01.") ≡ codes "web server 01"
unfolding normalize_name
normalize_name_test = refl

match_zone_exact_example :
    Names 1 (match_zone (codes "lan ") (zones_catalog_index (inside ∷ outside ∷ []))) ↔ (
      (z : SdwanZone) × Elem z (deduplicate_objects_by_id zone_id [] (inside ∷ outside ∷ []))
      × (normalize_name z.name ≡ normalize_name (codes "lan "))
      × (z.id ≡ 1))
match_zone_exact_example = match_zone_exact (codes "lan ") (inside ∷ outside ∷ []) 1
