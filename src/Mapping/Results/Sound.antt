-- ===== src/Mapping/Results/Sound.antt =====
-- The results of the services and of the address objects, by what fits them.
use nsp_migrator.Prelude.{
  ℕ, suc, ◌+◌, ◌≡◌, ◌↔◌, refl, sym, ap, ◌∙◌, inl, inr, some, List, [], ◌∷◌, ◌++◌, length, Elem,
  Elem-append_left, Elem-append_right,
}
use nsp_migrator.Prelude.Eq.{==-cases}
use nsp_migrator.Prelude.Result.{ok}
use nsp_migrator.Catalog.Fingerprint.{SdwanFullCatalog}
use nsp_migrator.Mapping.Entities.{
  MappingEntityType, zone, addr, service, MappingEntityResult, MappingEntityCandidatePayload,
  Origin, unresolved, create_unresolved, create_matched_auto, create_ambiguous,
}
use nsp_migrator.Mapping.Candidates.{build_result}
use nsp_migrator.Mapping.Candidates.Named.{Names}
use nsp_migrator.Mapping.Canonical.{
  CanonicalZone, CanonicalAddrObject, CanonicalAddrObjKind, addr_obj_kind_eq, CanonicalService,
  CanonicalServiceKind, service_kind_eq, CanonicalScopeEntities,
}
use nsp_migrator.Mapping.Zones.{zones_catalog_index, match_zone}
use nsp_migrator.Mapping.Services.{services_catalog_index, match_service}
use nsp_migrator.Mapping.Services.Exact.{FittingService, match_service_exact}
use nsp_migrator.Mapping.Addresses.{
  IpAddress, SdwanAddrObjsCatalogIndex, addr_objs_catalog_index, match_address,
}
use nsp_migrator.Mapping.Addresses.Exact.{FittingAddress, AddressFits, match_address_exact}
use nsp_migrator.Mapping.Results.{
  Matched, append_results, matched_zones, matched_addresses, matched_services, build_results,
}
use nsp_migrator.Mapping.Results.Complete.{
  subject, build_result-subject, flat_addresses, flat_services,
}

-- Among the results is one of the entity that is unresolved exactly when no identifier has the
-- property, and that selects only identifiers that have it.
abbrev pub Judged : MappingEntityType → ℕ → (ℕ → Type 0) → List MappingEntityResult → Type 0
Judged t id P results =
    (r : MappingEntityResult) × Elem r results
    × (subject r ≡ (t, ok id))
    × ((r.result_status ≡ unresolved) ↔ ((i : ℕ) → P i → ⊥))
    × ((i : ℕ) → r.selected_sdwan_entity_id ≡ some i → P i)

build_result-Judged :
    (P : ℕ → Type 0) (o : Origin) (fresh : ℕ) (ps : List MappingEntityCandidatePayload)
    → ((i : ℕ) → Names i ps ↔ P i)
    → (((build_result o fresh ps).result_status ≡ unresolved) ↔ ((i : ℕ) → P i → ⊥))
      × ((i : ℕ) → (build_result o fresh ps).selected_sdwan_entity_id ≡ some i → P i)
unfolding build_result create_unresolved create_matched_auto create_ambiguous
build_result-Judged P o fresh [] exact = ((λ e i p. ((exact i).1 p).1, λ never. refl), λ i e. cc)
build_result-Judged P o fresh (p ∷ []) exact = (
  (
    λ e. cc,
    λ never. absurd (never p.sdwan_entity_id ((exact p.sdwan_entity_id).0 (p, inl refl, refl))),
  ),
  λ i e. (exact i).0 (p, inl refl, cc),
)
build_result-Judged P o fresh (p ∷ q ∷ ps) exact = (
  (
    λ e. cc,
    λ never. absurd (never p.sdwan_entity_id ((exact p.sdwan_entity_id).0 (p, inl refl, refl))),
  ),
  λ i e. cc,
)

append_results-Judged :
    (clock : ℕ → ℕ) (scope : ℕ) (t : MappingEntityType) (fresh : ℕ) (P : ℕ → Type 0) (id : ℕ)
    (ps : List MappingEntityCandidatePayload) (ms : List Matched)
    → Elem (id, ps) ms
    → ((i : ℕ) → Names i ps ↔ P i)
    → Judged t id P (append_results clock scope t fresh ms).0
unfolding append_results
append_results-Judged clock scope t fresh P id ps [] m exact = absurd m
append_results-Judged clock scope t fresh P id ps ((jd, qs) ∷ ms) (inl e) exact =
    let o : Origin = record {
      id = fresh;
      now = clock fresh;
      mapping_scope_id = scope;
      entity_type = t;
      canonical_entity_id = jd;
    } in
    let same : ps ≡ qs = ap (λ (m : Matched). m.1) e in
    let own : id ≡ jd = ap (λ (m : Matched). m.0) e in
    let (status, selects) = build_result-Judged P o (suc fresh) qs (rw same at exact) in
    (
      _,
      inl refl,
      build_result-subject t o (suc fresh) qs ∙ ap (λ x. (t, ok x)) (sym own),
      status,
      selects,
    )
append_results-Judged clock scope t fresh P id ps ((jd, qs) ∷ ms) (inr m) exact =
    let (r, k, about, status, selects) =
      append_results-Judged clock scope t (suc fresh + length qs) P id ps ms m exact in
    (r, inr k, about, status, selects)

Elem-matched_services :
    (find : CanonicalService → List MappingEntityCandidatePayload) (s : CanonicalService)
    (ss : List CanonicalService)
    → Elem s (flat_services ss)
    → Elem (s.id, find s) (matched_services find ss)
unfolding matched_services
Elem-matched_services find s [] m = absurd m
Elem-matched_services find s (x ∷ ss) m =
    elim (==-cases x.kind CanonicalServiceKind.service_group) [
      | inl (t, _) ↦ rw t (Elem-matched_services find s ss (rw t at m))
      | inr (t, _) ↦ rw t (elim (rw t at m) [
        | inl e ↦ inl (ap (λ (y : CanonicalService). (y.id, find y)) e)
        | inr k ↦ inr (Elem-matched_services find s ss k)
      ])
    ]

Elem-matched_addresses :
    (find : CanonicalAddrObject → List MappingEntityCandidatePayload) (o : CanonicalAddrObject)
    (os : List CanonicalAddrObject)
    → Elem o (flat_addresses os)
    → Elem (o.id, find o) (matched_addresses find os)
unfolding matched_addresses
Elem-matched_addresses find o [] m = absurd m
Elem-matched_addresses find o (x ∷ os) m = elim (==-cases x.kind CanonicalAddrObjKind.addr_group) [
  | inl (t, _) ↦ rw t (Elem-matched_addresses find o os (rw t at m))
  | inr (t, _) ↦ rw t (elim (rw t at m) [
    | inl e ↦ inl (ap (λ (y : CanonicalAddrObject). (y.id, find y)) e)
    | inr k ↦ inr (Elem-matched_addresses find o os k)
  ])
]

-- If the address objects are indexed, results are built, and every service and every address object
-- of the scope that is no group has among them a result that is unresolved exactly when nothing in
-- the catalog, of which the first object of each identifier counts, fits it, and that selects only
-- what fits it.
pub build_results_sound :
    (ip : IpAddress) (clock : ℕ → ℕ) (fresh scope : ℕ) (entities : CanonicalScopeEntities)
    (catalog : SdwanFullCatalog) (index : SdwanAddrObjsCatalogIndex)
    → addr_objs_catalog_index catalog.addr_objs ≡ ok index
    → (results : List MappingEntityResult) × (build_results ip clock fresh scope entities catalog
        ≡ ok results)
      × ((s : CanonicalService)
          → Elem s (flat_services entities.services)
          → Judged service s.id (λ i. FittingService s catalog.services i s.kind) results)
      × ((o : CanonicalAddrObject)
          → Elem o (flat_addresses entities.addr_objects)
          → Judged addr o.id
              (λ i. FittingAddress catalog.addr_objs i (AddressFits ip o o.kind))
              results)
unfolding build_results
build_results_sound ip clock fresh scope entities catalog index h =
    let find_zone = λ (z : CanonicalZone). match_zone z.name (zones_catalog_index catalog.zones) in
    let find_addr = λ (o : CanonicalAddrObject). match_address ip o index in
    let find_service =
      λ (s : CanonicalService). match_service s (services_catalog_index catalog.services) in
    let (zones, n) =
      append_results clock scope zone fresh (matched_zones find_zone entities.zones) in
    let (addrs, m) =
      append_results clock scope addr n (matched_addresses find_addr entities.addr_objects) in
    let (services, _) =
      append_results clock scope service m (matched_services find_service entities.services) in
    rw (h, build_results)
      (
        _,
        refl,
        λ s k.
            let (r, l, about, status, selects) =
              append_results-Judged clock scope service m _ s.id (find_service s) _
                (Elem-matched_services find_service s entities.services k)
                (λ i. match_service_exact s catalog.services i) in
            (
              r,
              Elem-append_right r zones (addrs ++ services) (Elem-append_right r addrs services l),
              about,
              status,
              selects,
            ),
        λ o k.
            let (r, l, about, status, selects) =
              append_results-Judged clock scope addr n _ o.id (find_addr o) _
                (Elem-matched_addresses find_addr o entities.addr_objects k)
                (λ i. match_address_exact catalog.addr_objs i index h ip o) in
            (
              r,
              Elem-append_right r zones (addrs ++ services) (Elem-append_left r addrs services l),
              about,
              status,
              selects,
            ),
      )
