-- ===== src/Mapping/Icmp.antt =====
-- The ICMP messages by type and code
-- (src/app/modules/mapping/services/mapping_objects/matchers/services_matcher.py).
pub mod Messages
use nsp_migrator.Prelude.{ℕ, none, some, List, [], ◌∷◌}
use nsp_migrator.Prelude.Eq.{nat_eq, pair_eq}
use nsp_migrator.Prelude.Dict.{Dict, lookup, get_list, append_at}
use nsp_migrator.Prelude.Text.{Text, codes}
use nsp_migrator.Mapping.Canonical.{CanonicalService}

-- `_ICMP_SD_WAN_CODE_BY_TYPE_AND_CODE`
abbrev pub icmp_code_by_type_and_code : Dict (ℕ × ℕ) Text
icmp_code_by_type_and_code =
    ((0, 0), codes "echo_reply")
    ∷ ((3, 0), codes "network_unreachable")
    ∷ ((3, 1), codes "host_unreachable")
    ∷ ((3, 2), codes "protocol_unreachable")
    ∷ ((3, 3), codes "port_unreachable")
    ∷ ((3, 4), codes "fragmentation_needed")
    ∷ ((3, 5), codes "source_route_failed")
    ∷ ((3, 6), codes "network_unknown")
    ∷ ((3, 7), codes "host_unknown")
    ∷ ((3, 8), codes "source_host_isolated")
    ∷ ((3, 9), codes "network_prohibited")
    ∷ ((3, 10), codes "host_prohibited")
    ∷ ((3, 11), codes "tos_network_unreachable")
    ∷ ((3, 12), codes "tos_host_unreachable")
    ∷ ((3, 13), codes "communication_prohibited")
    ∷ ((3, 14), codes "host_precedence_violation")
    ∷ ((3, 15), codes "precedence_cutoff")
    ∷ ((5, 0), codes "network_redirect")
    ∷ ((5, 1), codes "host_redirect")
    ∷ ((5, 2), codes "tos_network_redirect")
    ∷ ((5, 3), codes "tos_host_redirect")
    ∷ ((8, 0), codes "echo_request")
    ∷ ((9, 0), codes "router_advertisement")
    ∷ ((9, 16), codes "does_not_route_common_traffic")
    ∷ ((10, 0), codes "router_solicitation")
    ∷ ((11, 0), codes "ttl_zero_during_transit")
    ∷ ((11, 1), codes "ttl_zero_during_reassembly")
    ∷ ((12, 0), codes "ip_header_bad")
    ∷ ((12, 1), codes "required_option_missing")
    ∷ ((12, 2), codes "bad_length")
    ∷ ((13, 0), codes "timestamp_request")
    ∷ ((14, 0), codes "timestamp_reply")
    ∷ []

-- the loop that fills `_grouped_icmp_codes`
unfoldable pub grouped_icmp_codes : Dict (ℕ × ℕ) Text → Dict ℕ (List Text) → Dict ℕ (List Text)
unfolding append_at nat_eq
grouped_icmp_codes [] d = d
grouped_icmp_codes (((type, _), name) ∷ rows) d = grouped_icmp_codes rows (append_at type name d)

-- `_ICMP_SD_WAN_CODES_BY_TYPE`
unfoldable pub icmp_codes_by_type : Dict ℕ (List Text)
unfolding grouped_icmp_codes
icmp_codes_by_type = grouped_icmp_codes icmp_code_by_type_and_code []

-- `_canonical_icmp_codes`
unfoldable pub canonical_icmp_codes : CanonicalService → List Text
unfolding icmp_codes_by_type lookup nat_eq pair_eq
canonical_icmp_codes service = elim service.icmp_type [
  | none ↦ []
  | some type ↦ elim service.icmp_code [
    | none ↦ get_list type icmp_codes_by_type
    | some code ↦ elim (lookup (type, code) icmp_code_by_type_and_code) [
      | none ↦ []
      | some name ↦ name ∷ []
    ]
  ]
]
