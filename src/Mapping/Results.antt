-- ===== src/Mapping/Results.antt =====
-- The results of mapping the objects of a scope
-- (src/app/modules/mapping/services/mapping_objects/mapping_objects_service.py; the summary is
-- declared in src/app/modules/mapping/application/dto.py).
-- Fresh identifiers are consecutive numbers, and a clock gives the time at which each was made.
pub mod Complete
pub mod Sound
pub mod Summary
use nsp_migrator.Prelude.{
  ℕ, suc, ◌+◌, Bool, true, false, ◌&&◌, List, [], ◌∷◌, ◌++◌, length, if◌then◌else◌,
}
use nsp_migrator.Prelude.Eq.{Eq, ◌==◌}
use nsp_migrator.Prelude.Result.{Result, ok, err, ◌>>=◌}
use nsp_migrator.Catalog.Fingerprint.{SdwanFullCatalog}
use nsp_migrator.Mapping.Entities.{
  MappingEntityType, MappingResultStatus, result_status_eq, MappingEntityResult,
  MappingEntityCandidatePayload, Origin,
}
use nsp_migrator.Mapping.Candidates.{build_result}
use nsp_migrator.Mapping.Canonical.{
  CanonicalZone, CanonicalAddrObject, CanonicalAddrObjKind, addr_obj_kind_eq, CanonicalService,
  CanonicalServiceKind, service_kind_eq, CanonicalScopeEntities,
}
use nsp_migrator.Mapping.Zones.{zones_catalog_index, match_zone}
use nsp_migrator.Mapping.Services.{services_catalog_index, match_service}
use nsp_migrator.Mapping.Addresses.{IpAddress, IndexError, addr_objs_catalog_index, match_address}

-- an entity to be mapped: its identifier and the candidates that its matcher finds
abbrev pub Matched : Type 0
Matched = ℕ × List MappingEntityCandidatePayload

module _ (clock : ℕ → ℕ) (mapping_scope_id : ℕ) where
  -- the calls of `_build_result` of one loop, from the given fresh identifier on
  unfoldable pub append_results :
      MappingEntityType → ℕ → List Matched → List MappingEntityResult × ℕ
  unfolding build_result
  append_results entity_type fresh [] = ([], fresh)
  append_results entity_type fresh ((canonical_entity_id, candidates) ∷ entities) =
      let origin : Origin = record {
        id = fresh;
        now = clock fresh;
        mapping_scope_id = mapping_scope_id;
        entity_type = entity_type;
        canonical_entity_id = canonical_entity_id;
      } in
      let (results, next) = append_results entity_type (suc fresh + length candidates) entities in
      (build_result origin (suc fresh) candidates ∷ results, next)

-- the zones, with their candidates
unfoldable pub matched_zones :
    (CanonicalZone → List MappingEntityCandidatePayload) → List CanonicalZone → List Matched
matched_zones find [] = []
matched_zones find (z ∷ zs) = (z.id, find z) ∷ matched_zones find zs

-- the address objects that are no groups
unfoldable pub matched_addresses :
    (CanonicalAddrObject → List MappingEntityCandidatePayload)
    → List CanonicalAddrObject
    → List Matched
unfolding addr_obj_kind_eq
matched_addresses find [] = []
matched_addresses find (o ∷ os) =
    let rest = matched_addresses find os in
    if o.kind == CanonicalAddrObjKind.addr_group then rest else (o.id, find o) ∷ rest

-- the services that are no groups
unfoldable pub matched_services :
    (CanonicalService → List MappingEntityCandidatePayload) → List CanonicalService → List Matched
unfolding service_kind_eq
matched_services find [] = []
matched_services find (s ∷ ss) =
    let rest = matched_services find ss in
    if s.kind == CanonicalServiceKind.service_group then rest else (s.id, find s) ∷ rest

-- `build_results`
unfoldable pub build_results :
    IpAddress
    → (ℕ → ℕ)
    → ℕ
    → ℕ
    → CanonicalScopeEntities
    → SdwanFullCatalog
    → Result IndexError (List MappingEntityResult)
unfolding zones_catalog_index services_catalog_index addr_objs_catalog_index match_zone
    match_service match_address append_results matched_zones matched_addresses matched_services
build_results ip clock fresh mapping_scope_id entities catalog =
    let zones_index = zones_catalog_index catalog.zones in
    addr_objs_catalog_index catalog.addr_objs >>= (λ addr_index.
      let services_index = services_catalog_index catalog.services in
      let (zones, n) =
        append_results clock mapping_scope_id MappingEntityType.zone fresh
          (matched_zones (λ z. match_zone z.name zones_index) entities.zones) in
      let (addrs, m) =
        append_results clock mapping_scope_id MappingEntityType.addr n
          (matched_addresses (λ o. match_address ip o addr_index) entities.addr_objects) in
      let (services, _) =
        append_results clock mapping_scope_id MappingEntityType.service m
          (matched_services (λ s. match_service s services_index) entities.services) in
      ok (zones ++ (addrs ++ services)))

entity_type_dec : Discrete MappingEntityType
entity_type_dec = hlevel

instance unfoldable pub entity_type_eq : Eq MappingEntityType
unfolding entity_type_dec
entity_type_eq = record { dec = entity_type_dec }

-- `[item for item in results if item.entity_type == t]`
unfoldable pub of_entity_type :
    MappingEntityType → List MappingEntityResult → List MappingEntityResult
unfolding entity_type_eq
of_entity_type t [] = []
of_entity_type t (r ∷ rs) =
    let rest = of_entity_type t rs in if r.entity_type == t then r ∷ rest else rest

-- `_count_status`
unfoldable pub count_result_status : MappingResultStatus → List MappingEntityResult → ℕ
unfolding result_status_eq
count_result_status status [] = 0
count_result_status status (r ∷ rs) =
    let rest = count_result_status status rs in if r.result_status == status then suc rest else rest

pub record MappingResultsSummary : Type 0 where
  pub total_entities : ℕ
  pub matched_entities : ℕ
  pub ambiguous : ℕ
  pub unresolved : ℕ
  pub zones_total : ℕ
  pub zones_matched : ℕ
  pub addr_total : ℕ
  pub addr_matched : ℕ
  pub services_total : ℕ
  pub services_matched : ℕ

-- `build_results_summary`
unfoldable pub build_results_summary : List MappingEntityResult → MappingResultsSummary
unfolding of_entity_type count_result_status
build_results_summary results =
    let zones = of_entity_type MappingEntityType.zone results in
    let addr = of_entity_type MappingEntityType.addr results in
    let services = of_entity_type MappingEntityType.service results in
    record {
      total_entities = length results;
      matched_entities = count_result_status MappingResultStatus.matched results;
      ambiguous = count_result_status MappingResultStatus.ambiguous results;
      unresolved = count_result_status MappingResultStatus.unresolved results;
      zones_total = length zones;
      zones_matched = count_result_status MappingResultStatus.matched zones;
      addr_total = length addr;
      addr_matched = count_result_status MappingResultStatus.matched addr;
      services_total = length services;
      services_matched = count_result_status MappingResultStatus.matched services;
    }
