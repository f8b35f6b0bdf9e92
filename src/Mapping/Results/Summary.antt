-- ===== src/Mapping/Results/Summary.antt =====
-- The counters of the summary.
use nsp_migrator.Prelude.{◌+◌, ◌≡◌, refl, List, [], ◌∷◌, arith, length}
use nsp_migrator.Mapping.Entities.{
  MappingEntityType, MappingResultStatus, MappingEntityResult, result_status_eq, zone, addr,
  service, matched, ambiguous, unresolved,
}
use nsp_migrator.Mapping.Results.{
  of_entity_type, count_result_status, build_results_summary, entity_type_eq, entity_type_dec,
}
use nsp_migrator.Mapping.Entities.{result_status_dec}

-- The counters of a list, in terms of those of the three types and of the three statuses.
abbrev Counted : List MappingEntityResult → Type 0
Counted rs =
    (count_result_status matched rs
        + count_result_status ambiguous rs
        + count_result_status unresolved rs
      ≡ length rs)
    × (length (of_entity_type zone rs)
          + length (of_entity_type addr rs)
          + length (of_entity_type service rs)
        ≡ length rs)
    × (count_result_status matched (of_entity_type zone rs)
          + count_result_status matched (of_entity_type addr rs)
          + count_result_status matched (of_entity_type service rs)
        ≡ count_result_status matched rs)

step :
    (t : MappingEntityType) (s : MappingResultStatus) (r : MappingEntityResult)
    (rs : List MappingEntityResult)
    → Counted rs
    → Counted (record r { entity_type = t; result_status = s } ∷ rs)
unfolding of_entity_type count_result_status entity_type_eq entity_type_dec result_status_eq
    result_status_dec
step zone matched r rs h = (omega (arith, h.0), omega (arith, h.1), omega (arith, h.2))
step zone ambiguous r rs h = (omega (arith, h.0), omega (arith, h.1), omega (arith, h.2))
step zone unresolved r rs h = (omega (arith, h.0), omega (arith, h.1), omega (arith, h.2))
step addr matched r rs h = (omega (arith, h.0), omega (arith, h.1), omega (arith, h.2))
step addr ambiguous r rs h = (omega (arith, h.0), omega (arith, h.1), omega (arith, h.2))
step addr unresolved r rs h = (omega (arith, h.0), omega (arith, h.1), omega (arith, h.2))
step service matched r rs h = (omega (arith, h.0), omega (arith, h.1), omega (arith, h.2))
step service ambiguous r rs h = (omega (arith, h.0), omega (arith, h.1), omega (arith, h.2))
step service unresolved r rs h = (omega (arith, h.0), omega (arith, h.1), omega (arith, h.2))

counted : (rs : List MappingEntityResult) → Counted rs
unfolding of_entity_type count_result_status
counted [] = (refl, refl, refl)
counted (r ∷ rs) = step r.entity_type r.result_status r rs (counted rs)

-- In the summary of any results the counters of the three statuses add up to the total, and so do
-- the totals of zones, address objects and services; the matched ones of the three add up to all
-- that are matched.
pub build_results_summary_adds_up :
    (rs : List MappingEntityResult)
    → let s = build_results_summary rs in
      (s.total_entities ≡ length rs)
      × (s.matched_entities + s.ambiguous + s.unresolved ≡ s.total_entities)
      × (s.zones_total + s.addr_total + s.services_total ≡ s.total_entities)
      × (s.zones_matched + s.addr_matched + s.services_matched ≡ s.matched_entities)
unfolding build_results_summary
build_results_summary_adds_up rs = let (a, b, c) = counted rs in (refl, a, b, c)
