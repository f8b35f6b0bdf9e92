-- ===== src/Mapping/Candidates.antt =====
-- Candidates of a mapping and the result that they lead to
-- (src/app/modules/mapping/services/mapping_objects/matchers/utils.py and `_build_result` of
-- src/app/modules/mapping/services/mapping_objects/mapping_objects_service.py).
pub mod Best
pub mod Named
pub mod Outcome
use nsp_migrator.Prelude.{ℕ, ◌+◌, Bool, Option, none, some, List, [], ◌∷◌, ltb, leb, if◌then◌else◌}
use nsp_migrator.Prelude.Eq.{◌==◌, nat_eq}
use nsp_migrator.Prelude.Dict.{Dict, lookup, insert, values}
use nsp_migrator.Prelude.Sort.{sorted}
use nsp_migrator.Mapping.Entities.{
  CandidateMatchStrategy, MappingEntityCandidatePayload, MappingEntityResult, Origin,
  create_unresolved, create_matched_auto, create_ambiguous,
}

pub record CandidateDraft : Type 0 where
  pub sdwan_entity_id : ℕ
  pub score : ℕ
  pub strategy : CandidateMatchStrategy

-- the body of the loop of `finalize`
unfoldable pub keep_better : CandidateDraft → Dict ℕ CandidateDraft → Dict ℕ CandidateDraft
unfolding lookup insert nat_eq
keep_better c d = elim (lookup c.sdwan_entity_id d) [
  | none ↦ insert c.sdwan_entity_id c d
  | some current ↦ if ltb current.score c.score then insert c.sdwan_entity_id c d else d
]

unfoldable pub best_by_id : List CandidateDraft → Dict ℕ CandidateDraft → Dict ℕ CandidateDraft
unfolding keep_better
best_by_id [] d = d
best_by_id (c ∷ cs) d = best_by_id cs (keep_better c d)

-- `key=lambda item: (-item.score, item.sdwan_entity_id)`
unfoldable pub by_score : CandidateDraft → CandidateDraft → Bool
unfolding nat_eq
by_score a b =
    if ltb b.score a.score
    then Bool.true
    else if a.score == b.score
    then leb a.sdwan_entity_id b.sdwan_entity_id
    else Bool.false

-- the enumeration of the sorted candidates
unfoldable pub ranked : ℕ → List CandidateDraft → List MappingEntityCandidatePayload
ranked index [] = []
ranked index (c ∷ cs) =
    record {
      rank = index;
      score = c.score;
      strategy = c.strategy;
      sdwan_entity_id = c.sdwan_entity_id;
    }
    ∷ ranked (index + 1) cs

unfoldable pub finalize : List CandidateDraft → List MappingEntityCandidatePayload
unfolding best_by_id values sorted by_score ranked
finalize candidates = ranked 1 (sorted by_score (values (best_by_id candidates [])))

-- `_build_result`
unfoldable pub build_result : Origin → ℕ → List MappingEntityCandidatePayload → MappingEntityResult
unfolding create_unresolved create_matched_auto create_ambiguous
build_result o fresh [] = create_unresolved o
build_result o fresh (p ∷ []) = create_matched_auto o fresh p
build_result o fresh (p ∷ q ∷ ps) = create_ambiguous o fresh (p ∷ q ∷ ps)
