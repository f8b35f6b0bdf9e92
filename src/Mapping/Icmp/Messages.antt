-- ===== src/Mapping/Icmp/Messages.antt =====
-- The messages of an ICMP service, by a scan of all messages.
use nsp_migrator.Prelude.{
  ℕ, suc, ◌≡◌, refl, ◌∙◌, inl, inr, Bool, Option, none, some, List, [], ◌∷◌, ◌++◌, if◌then◌else◌,
  Option-cases, append_assoc,
}
use mathlib.Core.List.{append-nil}
use nsp_migrator.Prelude.Eq.{◌==◌, ==-cases, nat_eq, pair_eq}
use nsp_migrator.Prelude.Dict.{Dict, lookup, get_list, append_at, get_list-append_at}
use nsp_migrator.Prelude.Text.{Text, codes}
use nsp_migrator.Mapping.Canonical.{CanonicalService}
use nsp_migrator.Mapping.Icmp.{
  icmp_code_by_type_and_code, grouped_icmp_codes, icmp_codes_by_type, canonical_icmp_codes,
}
use native.Mathlib.Decide.{ℕ_discrete}

-- A row is of the type, and of the code if one is given.
abbrev row_fits : ℕ → Option ℕ → ℕ × ℕ → Bool
row_fits type none row = type == row.0
row_fits type (some code) row = (type, code) == row

-- The names of the rows of a type, and of a code if one is given, in the order of the table.
abbrev pub messages_of : ℕ → Option ℕ → Dict (ℕ × ℕ) Text → List Text
messages_of type code [] = []
messages_of type code ((row, name) ∷ rows) =
    let rest = messages_of type code rows in if row_fits type code row then name ∷ rest else rest

grouped_icmp_codes-messages_of :
    (type : ℕ) (rows : Dict (ℕ × ℕ) Text) (d : Dict ℕ (List Text))
    → get_list type (grouped_icmp_codes rows d) ≡ get_list type d ++ messages_of type none rows
unfolding grouped_icmp_codes
grouped_icmp_codes-messages_of type [] d = rw append-nil
grouped_icmp_codes-messages_of type (((t, c), name) ∷ rows) d =
    grouped_icmp_codes-messages_of type rows (append_at t name d)
    ∙ rw (get_list-append_at type t name d) (elim (==-cases type t) [
      | inl (e, _) ↦ rw e (append_assoc (get_list type d) (name ∷ []) (messages_of type none rows))
      | inr (e, _) ↦ rw e refl
    ])

-- No key stands in two rows.
abbrev IsUnique : Dict (ℕ × ℕ) Text → Type 0
IsUnique [] = Unit
IsUnique ((row, name) ∷ rows) = (lookup row rows ≡ none) × IsUnique rows

messages_of-absent :
    (type code : ℕ) (rows : Dict (ℕ × ℕ) Text)
    → lookup (type, code) rows ≡ none
    → messages_of type (some code) rows ≡ []
unfolding lookup
messages_of-absent type code [] h = refl
messages_of-absent type code ((row, name) ∷ rows) h = elim (==-cases (type, code) row) [
  | inl (e, _) ↦ let bad = rw e at h in absurd cc
  | inr (e, _) ↦ rw e (messages_of-absent type code rows (rw e at h))
]

lookup-messages_of :
    (type code : ℕ) (rows : Dict (ℕ × ℕ) Text)
    → IsUnique rows
    → (elim (lookup (type, code) rows) [ none ↦ [] | some name ↦ name ∷ [] ])
      ≡ messages_of type (some code) rows
unfolding lookup
lookup-messages_of type code [] u = refl
lookup-messages_of type code ((row, name) ∷ rows) u = elim (==-cases (type, code) row) [
  | inl (e, same) ↦
      let alone : lookup (type, code) rows ≡ none = rw same u.0 in
      rw (e, messages_of-absent type code rows alone) refl
  | inr (e, _) ↦ rw e (lookup-messages_of type code rows u.1)
]

table-IsUnique : IsUnique icmp_code_by_type_and_code
unfolding lookup nat_eq pair_eq ℕ_discrete
table-IsUnique = (
  refl,
  (
    refl,
    (
      refl,
      (
        refl,
        (
          refl,
          (
            refl,
            (
              refl,
              (
                refl,
                (
                  refl,
                  (
                    refl,
                    (
                      refl,
                      (
                        refl,
                        (
                          refl,
                          (
                            refl,
                            (
                              refl,
                              (
                                refl,
                                (
                                  refl,
                                  (
                                    refl,
                                    (
                                      refl,
                                      (
                                        refl,
                                        (
                                          refl,
                                          (
                                            refl,
                                            (
                                              refl,
                                              (
                                                refl,
                                                (
                                                  refl,
                                                  (
                                                    refl,
                                                    (
                                                      refl,
                                                      (refl, (refl, (refl, (refl, (refl, tt))))),
                                                    ),
                                                  ),
                                                ),
                                              ),
                                            ),
                                          ),
                                        ),
                                      ),
                                    ),
                                  ),
                                ),
                              ),
                            ),
                          ),
                        ),
                      ),
                    ),
                  ),
                ),
              ),
            ),
          ),
        ),
      ),
    ),
  ),
)

-- The names of a type for the codes from a first one on.
abbrev numbered : ℕ → ℕ → List Text → Dict (ℕ × ℕ) Text
numbered type code [] = []
numbered type code (name ∷ names) = ((type, code), name) ∷ numbered type (suc code) names

-- The messages of ICMP under their SD-WAN names, by type and with the codes counted up.
abbrev pub icmp_messages : Dict (ℕ × ℕ) Text
icmp_messages =
    numbered 0 0 (codes "echo_reply" ∷ [])
    ++ numbered 3 0 (
        codes "network_unreachable"
        ∷ codes "host_unreachable"
        ∷ codes "protocol_unreachable"
        ∷ codes "port_unreachable"
        ∷ codes "fragmentation_needed"
        ∷ codes "source_route_failed"
        ∷ codes "network_unknown"
        ∷ codes "host_unknown"
        ∷ codes "source_host_isolated"
        ∷ codes "network_prohibited"
        ∷ codes "host_prohibited"
        ∷ codes "tos_network_unreachable"
        ∷ codes "tos_host_unreachable"
        ∷ codes "communication_prohibited"
        ∷ codes "host_precedence_violation"
        ∷ codes "precedence_cutoff"
        ∷ [])
    ++ numbered 5 0 (
        codes "network_redirect"
        ∷ codes "host_redirect"
        ∷ codes "tos_network_redirect"
        ∷ codes "tos_host_redirect"
        ∷ [])
    ++ numbered 8 0 (codes "echo_request" ∷ [])
    ++ numbered 9 0 (codes "router_advertisement" ∷ [])
    ++ numbered 9 16 (codes "does_not_route_common_traffic" ∷ [])
    ++ numbered 10 0 (codes "router_solicitation" ∷ [])
    ++ numbered 11 0 (codes "ttl_zero_during_transit" ∷ codes "ttl_zero_during_reassembly" ∷ [])
    ++ numbered 12 0
        (codes "ip_header_bad" ∷ codes "required_option_missing" ∷ codes "bad_length" ∷ [])
    ++ numbered 13 0 (codes "timestamp_request" ∷ [])
    ++ numbered 14 0 (codes "timestamp_reply" ∷ [])

icmp_messages-table : icmp_code_by_type_and_code ≡ icmp_messages
icmp_messages-table = refl

-- The messages that the code looks up are those of a scan of all messages.
pub canonical_icmp_codes-messages_of :
    (c : CanonicalService) (type : ℕ)
    → c.icmp_type ≡ some type
    → canonical_icmp_codes c ≡ messages_of type c.icmp_code icmp_messages
unfolding canonical_icmp_codes icmp_codes_by_type
canonical_icmp_codes-messages_of c type given = elim (Option-cases c.icmp_code) [
  | inl e ↦
      rw (given, e, canonical_icmp_codes)
        (grouped_icmp_codes-messages_of type icmp_code_by_type_and_code [])
  | inr (code, e) ↦
      rw (given, e, canonical_icmp_codes)
        (lookup-messages_of type code icmp_code_by_type_and_code table-IsUnique)
]

pub canonical_icmp_codes-none :
    (c : CanonicalService) → c.icmp_type ≡ none → canonical_icmp_codes c ≡ []
unfolding canonical_icmp_codes
canonical_icmp_codes-none c missing = rw (missing, canonical_icmp_codes) refl
