-- ===== src/Mapping/Entities/Selection.antt =====
-- Results through their life: created by the mapper, and selected by a user or by creation.
use nsp_migrator.Prelude.{ℕ, ◌≡◌, ◌≢◌, ◌↔◌, none, List, arith}
use nsp_migrator.Prelude.Eq.{nat_eq}
use nsp_migrator.Prelude.Result.{ok}
use nsp_migrator.Mapping.Entities.{
  MappingEntityResult, MappingEntityCandidate, MappingEntityCandidatePayload, Origin, matched,
  create_unresolved, create_ambiguous, create_matched_auto, create_zone_manually_assigned,
  select_candidate, select_direct, select_created,
}

-- The results that the application can hold: each is created, and then selected any number of times.
pub data Reachable : MappingEntityResult → Type 0 where
  unresolved_one : (o : Origin) → Reachable (create_unresolved o)
  ambiguous_one :
      (o : Origin) (fresh : ℕ) (ps : List MappingEntityCandidatePayload)
      → Reachable (create_ambiguous o fresh ps)
  matched_one :
      (o : Origin) (fresh : ℕ) (p : MappingEntityCandidatePayload)
      → Reachable (create_matched_auto o fresh p)
  assigned_zone :
      (id now scope zone : ℕ) → Reachable (create_zone_manually_assigned id now scope zone)
  candidate_selected :
      {r s : MappingEntityResult} (c : MappingEntityCandidate)
      → Reachable r
      → select_candidate r c ≡ ok s
      → Reachable s
  directly_selected :
      {r : MappingEntityResult} (id : ℕ) → Reachable r → Reachable (select_direct r id)
  created_selected :
      {r : MappingEntityResult} (id : ℕ) → Reachable r → Reachable (select_created r id)

-- A result is matched exactly when an SD-WAN object is selected, and exactly then it has a method
-- of selection.
pub record IsConsistent (r : MappingEntityResult) : Type 0 where
  pub selected : (r.result_status ≡ matched) ↔ (r.selected_sdwan_entity_id ≢ none)
  pub by_method : (r.result_status ≡ matched) ↔ (r.selection_method ≢ none)

-- Every result that the operations can produce is consistent.
pub Reachable-IsConsistent : {r : MappingEntityResult} → Reachable r → IsConsistent r
unfolding create_unresolved create_ambiguous create_matched_auto create_zone_manually_assigned
    select_candidate select_direct select_created
Reachable-IsConsistent (unresolved_one o) = ground arith
Reachable-IsConsistent (ambiguous_one o fresh ps) = ground arith
Reachable-IsConsistent (matched_one o fresh p) = ground arith
Reachable-IsConsistent (assigned_zone id now scope zone) = ground arith
Reachable-IsConsistent (candidate_selected c h e) = ground arith
Reachable-IsConsistent (directly_selected id h) = ground arith
Reachable-IsConsistent (created_selected id h) = ground arith
