-- ===== src/Mapping/Addresses.antt =====
-- Address objects matched by their values
-- (src/app/modules/mapping/services/mapping_objects/matchers/addr_objs_matcher.py and
-- sdwan_catalog_indexes/addr_objs_catalog_index.py).
pub mod Keys
pub mod Found
pub mod Exact
use nsp_migrator.Prelude.{ℕ, Bool, Option, none, some, List, [], ◌∷◌, ◌++◌, map, if◌then◌else◌}
use nsp_migrator.Prelude.Eq.{◌==◌, nat_eq, list_eq, pair_eq}
use nsp_migrator.Prelude.Result.{Result, ok, err, ◌>>=◌}
use nsp_migrator.Prelude.Dict.{Dict, lookup, append_at, get_list}
use nsp_migrator.Prelude.Text.{Text, codes, truthy}
use nsp_migrator.Catalog.{
  Ipv4Network, SdwanAddrObject, SdwanAddrObjectType, prefix, host, fqdn, ip_range, network,
  addr_group,
}
use nsp_migrator.Catalog.Fingerprint.{address_text, network_text}
use nsp_migrator.Mapping.Entities.{CandidateMatchStrategy, MappingEntityCandidatePayload}
use nsp_migrator.Mapping.Candidates.{CandidateDraft, finalize}
use nsp_migrator.Mapping.Canonical.{CanonicalAddrObject, CanonicalAddrObjKind}
use nsp_migrator.Mapping.Normalizer.{normalize_name, normalize_fqdn, deduplicate_objects_by_id}

-- The constructors of the library `ipaddress`, which reject a text by a `ValueError`; the second is
-- called with `strict=False`.
pub record IpAddress : Type 0 where
  pub ipv4_address : Text → Option ℕ
  pub ipv4_network : Text → Option Ipv4Network

abbrev pub address_id : SdwanAddrObject → ℕ
address_id o = o.id

pub record SdwanAddrObjsCatalogIndex : Type 0 where
  pub addr_by_name : Dict Text (List SdwanAddrObject)
  pub addr_by_host : Dict Text (List SdwanAddrObject)
  pub addr_by_prefix : Dict Text (List SdwanAddrObject)
  pub addr_by_fqdn : Dict Text (List SdwanAddrObject)
  pub addr_by_range : Dict (Text × Text) (List SdwanAddrObject)

-- the `MappingModuleDomainValidationError` of the index
pub data IndexError : Type 0 where
  unexpected_type : SdwanAddrObjectType → IndexError

-- what the loop of the index does with the value of one object
unfoldable pub index_value :
    SdwanAddrObject → SdwanAddrObjsCatalogIndex → Result IndexError SdwanAddrObjsCatalogIndex
unfolding append_at address_text network_text normalize_fqdn list_eq nat_eq pair_eq
index_value o index = elim o.type [
  | host ↦ elim o.host [
    | none ↦ err (unexpected_type o.type)
    | some h ↦ ok (record index { addr_by_host = append_at (address_text h) o index.addr_by_host })
  ]
  | prefix ↦ elim o.prefix [
    | none ↦ err (unexpected_type o.type)
    | some n ↦
        ok (record index { addr_by_prefix = append_at (network_text n) o index.addr_by_prefix })
  ]
  | network ↦ elim o.network [
    | none ↦ err (unexpected_type o.type)
    | some n ↦
        ok (record index { addr_by_prefix = append_at (network_text n) o index.addr_by_prefix })
  ]
  | fqdn ↦ elim o.fqdn [
    | none ↦ err (unexpected_type o.type)
    | some f ↦
        ok (record index { addr_by_fqdn = append_at (normalize_fqdn f) o index.addr_by_fqdn })
  ]
  | ip_range ↦ elim o.ip_range_from [
    | none ↦ err (unexpected_type o.type)
    | some first ↦ elim o.ip_range_to [
      | none ↦ err (unexpected_type o.type)
      | some last ↦ ok (record index {
        addr_by_range = append_at (address_text first, address_text last) o index.addr_by_range;
      })
    ]
  ]
  | addr_group ↦ ok index
]

-- `_build_indexes`
unfoldable pub build_indexes :
    List SdwanAddrObject → SdwanAddrObjsCatalogIndex → Result IndexError SdwanAddrObjsCatalogIndex
unfolding index_value normalize_name append_at list_eq nat_eq
build_indexes [] index = ok index
build_indexes (o ∷ os) index =
    index_value o
      (record index { addr_by_name = append_at (normalize_name o.name) o index.addr_by_name })
    >>= (λ next. build_indexes os next)

abbrev pub empty_index : SdwanAddrObjsCatalogIndex
empty_index = record {
  addr_by_name = [];
  addr_by_host = [];
  addr_by_prefix = [];
  addr_by_fqdn = [];
  addr_by_range = [];
}

unfoldable pub addr_objs_catalog_index :
    List SdwanAddrObject → Result IndexError SdwanAddrObjsCatalogIndex
unfolding deduplicate_objects_by_id build_indexes
addr_objs_catalog_index addr_objs =
    build_indexes (deduplicate_objects_by_id address_id [] addr_objs) empty_index

unfoldable pub find_addr_by_name : Text → SdwanAddrObjsCatalogIndex → List SdwanAddrObject
unfolding lookup normalize_name list_eq nat_eq
find_addr_by_name name index = get_list (normalize_name name) index.addr_by_name

unfoldable pub find_addr_by_host : ℕ → SdwanAddrObjsCatalogIndex → List SdwanAddrObject
unfolding lookup address_text list_eq nat_eq
find_addr_by_host h index = get_list (address_text h) index.addr_by_host

unfoldable pub find_addr_by_prefix : Ipv4Network → SdwanAddrObjsCatalogIndex → List SdwanAddrObject
unfolding lookup network_text list_eq nat_eq
find_addr_by_prefix n index = get_list (network_text n) index.addr_by_prefix

unfoldable pub find_addr_by_fqdn : Text → SdwanAddrObjsCatalogIndex → List SdwanAddrObject
unfolding lookup normalize_fqdn list_eq nat_eq
find_addr_by_fqdn f index = get_list (normalize_fqdn f) index.addr_by_fqdn

unfoldable pub find_addr_by_range : ℕ → ℕ → SdwanAddrObjsCatalogIndex → List SdwanAddrObject
unfolding lookup address_text list_eq nat_eq pair_eq
find_addr_by_range first last index =
    get_list (address_text first, address_text last) index.addr_by_range

-- `0.0.0.0/0`
abbrev pub everything : Ipv4Network
everything = record { network_address = 0; prefixlen = 0 }

-- One set of identifiers serves all the loops, so that they are one over the lists together.
unfoldable pub find_builtin_any_addr_objects : SdwanAddrObjsCatalogIndex → List SdwanAddrObject
unfolding find_addr_by_name find_addr_by_prefix deduplicate_objects_by_id
find_builtin_any_addr_objects index = deduplicate_objects_by_id address_id [] (
    find_addr_by_prefix everything index
    ++ (find_addr_by_name (codes "any") index ++ find_addr_by_name (codes "all") index))

-- `_candidate`, with the score of all calls
unfoldable pub address_candidate : CandidateMatchStrategy → SdwanAddrObject → CandidateDraft
address_candidate strategy o = record { sdwan_entity_id = o.id; score = 100; strategy = strategy }

-- `text.split("/")[0]`
unfoldable pub before_slash : Text → Text
unfolding nat_eq
before_slash [] = []
before_slash (c ∷ s) = let rest = before_slash s in if c == b'/' then [] else c ∷ rest

unfoldable pub match_any_addr : SdwanAddrObjsCatalogIndex → List MappingEntityCandidatePayload
unfolding find_builtin_any_addr_objects address_candidate finalize
match_any_addr index = finalize (
    map (address_candidate CandidateMatchStrategy.builtin_any)
      (find_builtin_any_addr_objects index))

abbrev by_value : List SdwanAddrObject → List MappingEntityCandidatePayload
unfolding address_candidate finalize
by_value found = finalize (map (address_candidate CandidateMatchStrategy.exact_value) found)

module _ (ip : IpAddress) (o : CanonicalAddrObject) (index : SdwanAddrObjsCatalogIndex) where
  unfoldable pub match_host : List MappingEntityCandidatePayload
  unfolding find_addr_by_host address_candidate finalize before_slash
  match_host = elim (truthy o.cidr) [
    | none ↦ finalize []
    | some cidr ↦ elim (ip.ipv4_address (before_slash cidr)) [
      | none ↦ []
      | some h ↦ by_value (find_addr_by_host h index)
    ]
  ]

  unfoldable pub match_subnet : List MappingEntityCandidatePayload
  unfolding find_addr_by_prefix address_candidate finalize
  match_subnet = elim (truthy o.cidr) [
    | none ↦ finalize []
    | some cidr ↦ elim (ip.ipv4_network cidr) [
      | none ↦ []
      | some n ↦ by_value (find_addr_by_prefix n index)
    ]
  ]

  unfoldable pub match_range : List MappingEntityCandidatePayload
  unfolding find_addr_by_range address_candidate finalize
  match_range = elim (truthy o.range_start) [
    | none ↦ finalize []
    | some start ↦ elim (truthy o.range_end) [
      | none ↦ finalize []
      | some end ↦ elim (ip.ipv4_address start) [
        | none ↦ []
        | some first ↦ elim (ip.ipv4_address end) [
          | none ↦ []
          | some last ↦ by_value (find_addr_by_range first last index)
        ]
      ]
    ]
  ]

  unfoldable pub match_fqdn : List MappingEntityCandidatePayload
  unfolding find_addr_by_fqdn address_candidate finalize
  match_fqdn = elim (truthy o.fqdn) [
    | none ↦ finalize []
    | some f ↦ by_value (find_addr_by_fqdn f index)
  ]

  -- `match`
  unfoldable pub match_address : List MappingEntityCandidatePayload
  unfolding match_any_addr match_host match_subnet match_range match_fqdn
  match_address = elim o.kind [
    | CanonicalAddrObjKind.any_addr ↦ match_any_addr index
    | CanonicalAddrObjKind.host ↦ match_host
    | CanonicalAddrObjKind.subnet ↦ match_subnet
    | CanonicalAddrObjKind.range ↦ match_range
    | CanonicalAddrObjKind.fqdn ↦ match_fqdn
    | CanonicalAddrObjKind.unresolved_addr ↦ []
    | CanonicalAddrObjKind.addr_group ↦ []
  ]
