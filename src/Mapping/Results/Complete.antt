-- ===== src/Mapping/Results/Complete.antt =====
-- Every entity of the scope that is no group has its result, in order.
use nsp_migrator.Prelude.{
  ℕ, suc, ◌+◌, ◌≡◌, refl, ◌∙◌, inl, inr, List, [], ◌∷◌, ◌++◌, map, filter, map-append, length, not,
}
use nsp_migrator.Prelude.Eq.{◌==◌, ==-cases}
use nsp_migrator.Prelude.Result.{Result, ok, err}
use nsp_migrator.Catalog.Fingerprint.{SdwanFullCatalog}
use nsp_migrator.Mapping.Entities.{
  MappingEntityType, zone, addr, service, MappingEntityResult, MappingEntityCandidatePayload,
  Origin, EntityError, canonical_entity_id, resolve_canonical_ids_fields, create_unresolved,
  create_matched_auto, create_ambiguous,
}
use nsp_migrator.Mapping.Candidates.{build_result}
use nsp_migrator.Mapping.Canonical.{
  CanonicalZone, CanonicalAddrObject, CanonicalAddrObjKind, addr_obj_kind_eq, CanonicalService,
  CanonicalServiceKind, service_kind_eq, CanonicalScopeEntities,
}
use nsp_migrator.Mapping.Zones.{zones_catalog_index, match_zone}
use nsp_migrator.Mapping.Services.{services_catalog_index, match_service}
use nsp_migrator.Mapping.Addresses.{
  IpAddress, IndexError, SdwanAddrObjsCatalogIndex, addr_objs_catalog_index, match_address,
}
use nsp_migrator.Mapping.Results.{
  Matched, append_results, matched_zones, matched_addresses, matched_services, build_results,
}

-- The entity that a result is about.
abbrev pub Subject : Type 0
Subject = MappingEntityType × Result EntityError ℕ

abbrev pub subject : MappingEntityResult → Subject
subject r = (r.entity_type, canonical_entity_id r.entity_type r)

abbrev subject_of : MappingEntityType → Matched → Subject
subject_of t m = (t, ok m.0)

pub build_result-subject :
    (t : MappingEntityType) (o : Origin) (fresh : ℕ) (ps : List MappingEntityCandidatePayload)
    → subject (build_result (record o { entity_type = t }) fresh ps) ≡ (t, ok o.canonical_entity_id)
unfolding build_result create_unresolved create_matched_auto create_ambiguous
    resolve_canonical_ids_fields canonical_entity_id
build_result-subject zone o fresh [] = refl
build_result-subject zone o fresh (p ∷ []) = refl
build_result-subject zone o fresh (p ∷ q ∷ ps) = refl
build_result-subject addr o fresh [] = refl
build_result-subject addr o fresh (p ∷ []) = refl
build_result-subject addr o fresh (p ∷ q ∷ ps) = refl
build_result-subject service o fresh [] = refl
build_result-subject service o fresh (p ∷ []) = refl
build_result-subject service o fresh (p ∷ q ∷ ps) = refl

append_results-subject :
    (clock : ℕ → ℕ) (scope : ℕ) (t : MappingEntityType) (fresh : ℕ) (ms : List Matched)
    → map subject (append_results clock scope t fresh ms).0 ≡ map (subject_of t) ms
unfolding append_results
append_results-subject clock scope t fresh [] = refl
append_results-subject clock scope t fresh ((id, ps) ∷ ms) =
    let o : Origin = record {
      id = fresh;
      now = clock fresh;
      mapping_scope_id = scope;
      entity_type = t;
      canonical_entity_id = id;
    } in
    let first : subject (build_result o (suc fresh) ps) ≡ (t, ok id) =
      build_result-subject t o (suc fresh) ps in
    rw (first, append_results-subject clock scope t (suc fresh + length ps) ms) refl

append_eq : {A : Type 0} {xs ys cs ds : List A} → xs ≡ cs → ys ≡ ds → xs ++ ys ≡ cs ++ ds
append_eq h k = cc

subjects_of_zones :
    (find : CanonicalZone → List MappingEntityCandidatePayload) (zs : List CanonicalZone)
    → map (subject_of zone) (matched_zones find zs)
      ≡ map (λ (z : CanonicalZone). (zone, ok z.id)) zs
unfolding matched_zones
subjects_of_zones find [] = refl
subjects_of_zones find (z ∷ zs) = rw (subjects_of_zones find zs) refl

-- The address objects and the services that are no groups.
abbrev pub flat_addresses : List CanonicalAddrObject → List CanonicalAddrObject
flat_addresses = filter (λ o. not (o.kind == CanonicalAddrObjKind.addr_group))

abbrev pub flat_services : List CanonicalService → List CanonicalService
flat_services = filter (λ s. not (s.kind == CanonicalServiceKind.service_group))

subjects_of_addresses :
    (find : CanonicalAddrObject → List MappingEntityCandidatePayload)
    (os : List CanonicalAddrObject)
    → map (subject_of addr) (matched_addresses find os)
      ≡ map (λ (o : CanonicalAddrObject). (addr, ok o.id)) (flat_addresses os)
unfolding matched_addresses
subjects_of_addresses find [] = refl
subjects_of_addresses find (o ∷ os) = elim (==-cases o.kind CanonicalAddrObjKind.addr_group) [
  | inl (t, _) ↦ rw t (subjects_of_addresses find os)
  | inr (t, _) ↦ rw (t, subjects_of_addresses find os) refl
]

subjects_of_services :
    (find : CanonicalService → List MappingEntityCandidatePayload) (ss : List CanonicalService)
    → map (subject_of service) (matched_services find ss)
      ≡ map (λ (s : CanonicalService). (service, ok s.id)) (flat_services ss)
unfolding matched_services
subjects_of_services find [] = refl
subjects_of_services find (s ∷ ss) = elim (==-cases s.kind CanonicalServiceKind.service_group) [
  | inl (t, _) ↦ rw t (subjects_of_services find ss)
  | inr (t, _) ↦ rw (t, subjects_of_services find ss) refl
]

-- If the address objects are indexed, the results are about the zones of the scope, then its address
-- objects, then its services, without the groups, each once and in order; otherwise the error of
-- the index is raised.
pub build_results_complete :
    (ip : IpAddress) (clock : ℕ → ℕ) (fresh scope : ℕ) (entities : CanonicalScopeEntities)
    (catalog : SdwanFullCatalog)
    → ((e : IndexError)
        → addr_objs_catalog_index catalog.addr_objs ≡ err e
        → build_results ip clock fresh scope entities catalog ≡ err e)
      × ((index : SdwanAddrObjsCatalogIndex)
          → addr_objs_catalog_index catalog.addr_objs ≡ ok index
          → (results : List MappingEntityResult) × (build_results ip clock fresh scope entities
                catalog
              ≡ ok results)
            × (map subject results
                ≡ map (λ (z : CanonicalZone). (zone, ok z.id)) entities.zones
                  ++ (map
                        (λ (o : CanonicalAddrObject). (addr, ok o.id))
                        (flat_addresses entities.addr_objects)
                      ++ map
                          (λ (s : CanonicalService). (service, ok s.id))
                          (flat_services entities.services))))
unfolding build_results
build_results_complete ip clock fresh scope entities catalog = (
  λ e h. rw (h, build_results) refl,
  λ index h.
      let zs =
        matched_zones (λ z. match_zone z.name (zones_catalog_index catalog.zones)) entities.zones in
      let os = matched_addresses (λ o. match_address ip o index) entities.addr_objects in
      let ss =
        matched_services (λ s. match_service s (services_catalog_index catalog.services))
          entities.services in
      let (zones, n) = append_results clock scope zone fresh zs in
      let (addrs, m) = append_results clock scope addr n os in
      let (services, _) = append_results clock scope service m ss in
      rw (h, build_results)
        (
          _,
          refl,
          map-append subject zones (addrs ++ services)
              ∙ append_eq
                  (append_results-subject clock scope zone fresh zs
                    ∙ subjects_of_zones _ entities.zones)
                  (map-append subject addrs services
                    ∙ append_eq
                        (append_results-subject clock scope addr n os
                          ∙ subjects_of_addresses _ entities.addr_objects)
                        (append_results-subject clock scope service m ss
                          ∙ subjects_of_services _ entities.services)),
        ),
)
