-- ===== src/Mapping/Services.antt =====
-- Services matched by their signature
-- (src/app/modules/mapping/services/mapping_objects/matchers/services_matcher.py and
-- sdwan_catalog_indexes/services_catalog_index.py).
pub mod Signatures
pub mod Exact
use nsp_migrator.Prelude.{
  ℕ, Bool, true, ◌||◌, ◌&&◌, Option, none, some, List, [], ◌∷◌, ◌++◌, map, ltb, leb, if◌then◌else◌,
  or_empty,
}
use nsp_migrator.Prelude.Eq.{◌==◌, nat_eq, list_eq, pair_eq}
use nsp_migrator.Prelude.Dict.{Dict, lookup, append_at, get_list}
use nsp_migrator.Prelude.Sort.{sorted}
use nsp_migrator.Prelude.Text.{Text, codes, text_leb}
use nsp_migrator.Catalog.{SdwanService, SdwanServiceL4Proto, proto_eq}
use nsp_migrator.Mapping.Entities.{CandidateMatchStrategy, MappingEntityCandidatePayload}
use nsp_migrator.Mapping.Candidates.{CandidateDraft, finalize}
use nsp_migrator.Mapping.Canonical.{
  CanonicalService, tcp, udp, icmp, ip_proto, any_service, service_group, unresolved_service,
}
use nsp_migrator.Mapping.Icmp.{canonical_icmp_codes}
use nsp_migrator.Mapping.Normalizer.{normalize_name, deduplicate_objects_by_id}

abbrev pub service_id : SdwanService → ℕ
service_id s = s.id

-- the order of two pairs of numbers
unfoldable pub range_leb : ℕ × ℕ → ℕ × ℕ → Bool
unfolding nat_eq
range_leb a b = ltb a.0 b.0 || (a.0 == b.0 && leb a.1 b.1)

abbrev pub SignatureKey : Type 0
SignatureKey = SdwanServiceL4Proto × (List (ℕ × ℕ) × List Text)

unfoldable pub signature_key : SdwanServiceL4Proto → List (ℕ × ℕ) → List Text → SignatureKey
unfolding sorted range_leb text_leb
signature_key l4_proto ranges codes = (l4_proto, (sorted range_leb ranges, sorted text_leb codes))

unfoldable pub service_key : SdwanService → SignatureKey
unfolding signature_key
service_key s = signature_key s.l4_proto (or_empty s.ranges) (or_empty s.codes)

pub record SdwanServicesCatalogIndex : Type 0 where
  pub services : List SdwanService
  pub services_by_name : Dict Text (List SdwanService)
  pub services_by_signature : Dict SignatureKey (List SdwanService)

-- `_build_indexes`
unfoldable pub build_indexes :
    List SdwanService → SdwanServicesCatalogIndex → SdwanServicesCatalogIndex
unfolding normalize_name append_at service_key list_eq nat_eq pair_eq proto_eq
build_indexes [] index = index
build_indexes (s ∷ ss) index = build_indexes ss (record index {
  services_by_name = append_at (normalize_name s.name) s index.services_by_name;
  services_by_signature = append_at (service_key s) s index.services_by_signature;
})

unfoldable pub services_catalog_index : List SdwanService → SdwanServicesCatalogIndex
unfolding deduplicate_objects_by_id build_indexes
services_catalog_index services =
    let unique = deduplicate_objects_by_id service_id [] services in
    build_indexes unique
      (record { services = unique; services_by_name = []; services_by_signature = [] })

unfoldable pub find_services_by_name : Text → SdwanServicesCatalogIndex → List SdwanService
unfolding lookup normalize_name list_eq nat_eq
find_services_by_name name index = get_list (normalize_name name) index.services_by_name

unfoldable pub find_services_by_signature :
    SdwanServiceL4Proto → List (ℕ × ℕ) → List Text → SdwanServicesCatalogIndex → List SdwanService
unfolding lookup signature_key list_eq nat_eq pair_eq proto_eq
find_services_by_signature l4_proto ranges codes index =
    get_list (signature_key l4_proto ranges codes) index.services_by_signature

unfoldable pub of_codes : List Text → List SdwanService → List SdwanService
unfolding sorted text_leb list_eq nat_eq proto_eq
of_codes target_codes [] = []
of_codes target_codes (s ∷ ss) =
    let rest = of_codes target_codes ss in
    if s.l4_proto == SdwanServiceL4Proto.icmp && sorted text_leb (or_empty s.codes) == target_codes
    then s ∷ rest
    else rest

unfoldable pub find_icmp_services_by_codes :
    List Text → SdwanServicesCatalogIndex → List SdwanService
unfolding sorted text_leb of_codes
find_icmp_services_by_codes codes index = of_codes (sorted text_leb codes) index.services

-- One set of identifiers serves both names, so that the two loops are one over both lists.
unfoldable pub find_builtin_any_services : SdwanServicesCatalogIndex → List SdwanService
unfolding find_services_by_name deduplicate_objects_by_id
find_builtin_any_services index =
    deduplicate_objects_by_id service_id []
      (find_services_by_name (codes "any") index ++ find_services_by_name (codes "all") index)

-- `_candidate`, with the score of both kinds of calls
unfoldable pub service_candidate : CandidateMatchStrategy → SdwanService → CandidateDraft
service_candidate strategy s = record { sdwan_entity_id = s.id; score = 100; strategy = strategy }

unfoldable pub match_any_service : SdwanServicesCatalogIndex → List MappingEntityCandidatePayload
unfolding find_builtin_any_services service_candidate finalize
match_any_service index =
    finalize
      (map (service_candidate CandidateMatchStrategy.builtin_any) (find_builtin_any_services index))

abbrev by_signature : List SdwanService → List MappingEntityCandidatePayload
unfolding service_candidate finalize
by_signature found =
    finalize (map (service_candidate CandidateMatchStrategy.service_signature) found)

unfoldable pub match_l4_service :
    CanonicalService
    → SdwanServiceL4Proto
    → SdwanServicesCatalogIndex
    → List MappingEntityCandidatePayload
unfolding find_services_by_signature service_candidate finalize
match_l4_service service l4_proto index = elim service.port_from [
  | none ↦ finalize []
  | some first ↦ elim service.port_to [
    | none ↦ finalize []
    | some last ↦ by_signature (find_services_by_signature l4_proto ((first, last) ∷ []) [] index)
  ]
]

unfoldable pub match_icmp_service :
    CanonicalService → SdwanServicesCatalogIndex → List MappingEntityCandidatePayload
unfolding canonical_icmp_codes find_icmp_services_by_codes service_candidate finalize
match_icmp_service service index = elim (canonical_icmp_codes service) [
  | [] ↦ finalize []
  | ◌∷◌ code more ↦ by_signature (find_icmp_services_by_codes (code ∷ more) index)
]

-- `match`
unfoldable pub match_service :
    CanonicalService → SdwanServicesCatalogIndex → List MappingEntityCandidatePayload
unfolding match_any_service match_l4_service match_icmp_service
match_service service index = elim service.kind [
  | any_service ↦ match_any_service index
  | tcp ↦ match_l4_service service SdwanServiceL4Proto.tcp index
  | udp ↦ match_l4_service service SdwanServiceL4Proto.udp index
  | icmp ↦ match_icmp_service service index
  | ip_proto ↦ []
  | service_group ↦ []
  | unresolved_service ↦ []
]
