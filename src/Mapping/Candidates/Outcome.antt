-- ===== src/Mapping/Candidates/Outcome.antt =====
-- The status of a result by the number of its candidates.
use nsp_migrator.Prelude.{ℕ, ◌≡◌, ◌↔◌, List, [], ◌∷◌, arith, length}
use nsp_migrator.Mapping.Entities.{
  MappingEntityCandidatePayload, MappingResultStatus, Origin, create_unresolved,
  create_matched_auto, create_ambiguous,
}
use nsp_migrator.Mapping.Entities.Selection.{
  IsConsistent, unresolved_one, ambiguous_one, matched_one, Reachable-IsConsistent,
}
use nsp_migrator.Mapping.Candidates.{build_result}

-- A new result is unresolved exactly when there is no candidate, matched exactly when there is one,
-- ambiguous otherwise, and consistent in each case.
pub build_result_status :
    (o : Origin) (fresh : ℕ) (ps : List MappingEntityCandidatePayload)
    → (((build_result o fresh ps).result_status ≡ MappingResultStatus.unresolved) ↔ (length ps ≡ 0))
      × (((build_result o fresh ps).result_status ≡ MappingResultStatus.matched) ↔ (length ps ≡ 1))
      × IsConsistent (build_result o fresh ps)
unfolding build_result create_unresolved create_matched_auto create_ambiguous
build_result_status o fresh [] = (
  (λ h. ground arith, λ h. ground arith),
  (λ h. ground arith, λ h. ground arith),
  Reachable-IsConsistent (unresolved_one o),
)
build_result_status o fresh (p ∷ []) = (
  (λ h. ground arith, λ h. ground arith),
  (λ h. ground arith, λ h. ground arith),
  Reachable-IsConsistent (matched_one o fresh p),
)
build_result_status o fresh (p ∷ q ∷ ps) = (
  (λ h. ground arith, λ h. ground arith),
  (λ h. ground arith, λ h. ground arith),
  Reachable-IsConsistent (ambiguous_one o fresh (p ∷ q ∷ ps)),
)
