-- ===== src/Tests/Objects.antt =====
-- Objects of a scope, mapped.
use nsp_migrator.Prelude.{
  ℕ, ◌≡◌, ◌↔◌, refl, inl, inr, none, some, List, [], ◌∷◌, map, Elem, length, ◌+◌, arith,
}
use nsp_migrator.Prelude.Result.{ok, err}
use nsp_migrator.Prelude.Text.{codes}
use nsp_migrator.Catalog.{SdwanAddrObject, check_addr_object, is_none, type_eq}
use nsp_migrator.Catalog.Fingerprint.{SdwanFullCatalog}
use nsp_migrator.Mapping.Entities.{
  MappingEntityType, MappingEntityResult, Origin, create_unresolved,
}
use nsp_migrator.Mapping.Canonical.{
  CanonicalAddrObject, CanonicalAddrObjKind, CanonicalService, CanonicalServiceKind,
  CanonicalScopeEntities,
}
use nsp_migrator.Mapping.Candidates.Named.{Names}
use nsp_migrator.Mapping.Services.{services_catalog_index, match_service}
use nsp_migrator.Mapping.Services.Exact.{FittingService, match_service_exact}
use nsp_migrator.Mapping.Addresses.{
  IpAddress, IndexError, SdwanAddrObjsCatalogIndex, addr_objs_catalog_index, match_address,
}
use nsp_migrator.Mapping.Addresses.Found.{addr_objs_catalog_index_total}
use nsp_migrator.Mapping.Addresses.Exact.{FittingAddress, AddressFits, match_address_exact}
use nsp_migrator.Mapping.Results.{build_results, build_results_summary}
use nsp_migrator.Mapping.Results.Complete.{
  subject, flat_addresses, flat_services, build_results_complete,
}
use nsp_migrator.Mapping.Results.Sound.{Judged, build_results_sound}
use nsp_migrator.Mapping.Results.Summary.{build_results_summary_adds_up}
use native.Mathlib.Decide.{ℕ_discrete}
use nsp_migrator.Mapping.Canonical.{addr_obj_kind_eq}
use nsp_migrator.Mapping.Canonical.{service_kind_eq}
use nsp_migrator.Tests.Data.{inside, outside, web, anything, sites, office, printer}

-- A reader that knows two texts.
abbrev reader : IpAddress
reader = record { ipv4_address = λ t. some (length t); ipv4_network = λ t. none }

abbrev any_service : CanonicalService
any_service = record {
  id = 7;
  kind = CanonicalServiceKind.any_service;
  name = codes "ip";
  parent_id = none;
  parent_ids = [];
  protocol = none;
  port_from = none;
  port_to = none;
  icmp_type = none;
  icmp_code = none;
}

abbrev ping : CanonicalService
ping = record any_service {
  id = 8;
  kind = CanonicalServiceKind.icmp;
  icmp_type = some 8;
  icmp_code = some 0;
}

abbrev bundle : CanonicalService
bundle = record any_service { id = 9; kind = CanonicalServiceKind.service_group }

abbrev any_address : CanonicalAddrObject
any_address = record {
  id = 5;
  kind = CanonicalAddrObjKind.any_addr;
  name = codes "any";
  parent_id = none;
  parent_ids = [];
  cidr = none;
  range_start = none;
  range_end = none;
  fqdn = none;
}

abbrev entities : CanonicalScopeEntities
entities = record {
  zones = record { id = 3; zone_key = codes "lan"; name = codes "lan" } ∷ [];
  addr_objects = any_address ∷ [];
  services = any_service ∷ bundle ∷ ping ∷ [];
}

abbrev catalog : SdwanFullCatalog
catalog = record {
  zones = inside ∷ outside ∷ [];
  services = web ∷ anything ∷ [];
  addr_objs = sites ∷ office ∷ printer ∷ [];
  networks = [];
}

match_service_exact_example :
    Names 2 (match_service any_service (services_catalog_index catalog.services))
    ↔ FittingService any_service catalog.services 2 any_service.kind
match_service_exact_example = match_service_exact any_service catalog.services 2

abbrev index : SdwanAddrObjsCatalogIndex
index = record {
  addr_by_name =
      (codes "sites", sites ∷ [])
      ∷ (codes "office", office ∷ [])
      ∷ (codes "printer", printer ∷ [])
      ∷ [];
  addr_by_host = (codes "10.0.0.5", printer ∷ []) ∷ [];
  addr_by_prefix = (codes "10.0.0.0/8", office ∷ []) ∷ [];
  addr_by_fqdn = [];
  addr_by_range = [];
}

indexed : addr_objs_catalog_index catalog.addr_objs ≡ ok index
unfolding addr_objs_catalog_index ℕ_discrete
indexed = refl

checked : (o : SdwanAddrObject) → Elem o (sites ∷ office ∷ []) → check_addr_object o ≡ ok o
unfolding check_addr_object is_none
checked o (inl e) = rw e (ground arith)
checked o (inr (inl e)) = rw e (ground arith)
checked o (inr (inr nowhere)) = absurd nowhere

addr_objs_catalog_index_total_example :
    (index : SdwanAddrObjsCatalogIndex) × (addr_objs_catalog_index (sites ∷ office ∷ []) ≡ ok index)
addr_objs_catalog_index_total_example = addr_objs_catalog_index_total (sites ∷ office ∷ []) checked

match_address_exact_example :
    Names 3 (match_address reader any_address index)
    ↔ FittingAddress catalog.addr_objs 3 (AddressFits reader any_address any_address.kind)
match_address_exact_example =
    match_address_exact catalog.addr_objs 3 index indexed reader any_address

build_results_complete_example :
    ((e : IndexError)
      → addr_objs_catalog_index catalog.addr_objs ≡ err e
      → build_results reader (λ n. n) 1 4 entities catalog ≡ err e)
    × ((index : SdwanAddrObjsCatalogIndex)
        → addr_objs_catalog_index catalog.addr_objs ≡ ok index
        → (results : List MappingEntityResult) × (build_results reader (λ n. n) 1 4 entities catalog
            ≡ ok results)
          × (map subject results
              ≡ (MappingEntityType.zone, ok 3)
                ∷ (MappingEntityType.addr, ok 5)
                ∷ (MappingEntityType.service, ok 7)
                ∷ (MappingEntityType.service, ok 8)
                ∷ []))
unfolding addr_obj_kind_eq service_kind_eq
build_results_complete_example = build_results_complete reader (λ n. n) 1 4 entities catalog

build_results_sound_example :
    (results : List MappingEntityResult) × (build_results reader (λ n. n) 1 4 entities catalog
      ≡ ok results)
    × ((s : CanonicalService)
        → Elem s (flat_services entities.services)
        → Judged MappingEntityType.service s.id
            (λ i. FittingService s catalog.services i s.kind)
            results)
    × ((o : CanonicalAddrObject)
        → Elem o (flat_addresses entities.addr_objects)
        → Judged MappingEntityType.addr o.id
            (λ i. FittingAddress catalog.addr_objs i (AddressFits reader o o.kind))
            results)
build_results_sound_example = build_results_sound reader (λ n. n) 1 4 entities catalog index indexed

abbrev origin : ℕ → MappingEntityType → Origin
origin id t = record {
  id = id;
  now = 0;
  mapping_scope_id = 4;
  entity_type = t;
  canonical_entity_id = 6;
}

abbrev two_results : List MappingEntityResult
two_results =
    create_unresolved (origin 1 MappingEntityType.zone)
    ∷ create_unresolved (origin 2 MappingEntityType.addr)
    ∷ []

build_results_summary_adds_up_example :
    let s = build_results_summary two_results in
    (s.total_entities ≡ 2)
    × (s.matched_entities + s.ambiguous + s.unresolved ≡ s.total_entities)
    × (s.zones_total + s.addr_total + s.services_total ≡ s.total_entities)
    × (s.zones_matched + s.addr_matched + s.services_matched ≡ s.matched_entities)
build_results_summary_adds_up_example = build_results_summary_adds_up two_results
