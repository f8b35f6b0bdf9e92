-- ===== src/Cisco/ProtocolGroups.antt =====
-- The protocol groups of a configuration
-- (src/app/modules/imports/cisco_asa/parsing/extractors/protocol_groups.py).
use nsp_migrator.Prelude.{ℕ, Option, none, some, List, [], ◌∷◌, ◌++◌, if◌then◌else◌}
use nsp_migrator.Prelude.Eq.{list_eq, nat_eq}
use nsp_migrator.Prelude.Text.{Text, codes, lower, starts_with}
use nsp_migrator.Cisco.Tree.{ConfigNode, stripped, children_of, source_span}
use nsp_migrator.Cisco.Index.{AsaIndex, one_after}
use nsp_migrator.Cisco.Objects.{
  protocol_group, ProtocolMember, protocol_object, group_object, ProtocolGroupPayload,
  ParsedProtocolGroup,
}

-- `_parse_protocol_group_member`; after the prefix, which ends in the first space, comes the rest
unfoldable pub parse_protocol_group_member : Text → Option ProtocolMember
unfolding lower starts_with one_after
parse_protocol_group_member line =
    if starts_with (codes "protocol-object ") (lower line)
    then some (protocol_object (one_after line))
    else if starts_with (codes "group-object ") (lower line)
    then some (group_object (one_after line))
    else none

-- one line of a group
unfoldable pub protocol_line : Text → ProtocolGroupPayload → ProtocolGroupPayload
unfolding lower starts_with one_after parse_protocol_group_member
protocol_line [] payload = payload
protocol_line (c ∷ s) payload =
    if starts_with (codes "description ") (lower (c ∷ s))
    then record payload { description = some (one_after (c ∷ s)) }
    else elim (parse_protocol_group_member (c ∷ s)) [
      | some member ↦ record payload { members = payload.members ++ (member ∷ []) }
      | none ↦ record payload { raw_lines = payload.raw_lines ++ ((c ∷ s) ∷ []) }
    ]

unfoldable pub protocol_lines : List ConfigNode → ProtocolGroupPayload → ProtocolGroupPayload
unfolding protocol_line stripped
protocol_lines [] payload = payload
protocol_lines (node ∷ nodes) payload =
    protocol_lines nodes (protocol_line (stripped node.line) payload)

-- one group of `extract`; none stands for an `IndexError`
unfoldable pub protocol_group_at : List ConfigNode → Text × ℕ → Option ParsedProtocolGroup
unfolding source_span children_of protocol_lines
protocol_group_at nodes (name, i) = elim (source_span nodes i) [
  | none ↦ none
  | some span ↦ some (record {
    name = name;
    kind = protocol_group;
    payload =
        protocol_lines (children_of nodes i)
          (record { members = []; description = none; raw_lines = [] });
    source_line = span.line_start;
    source_line_end = span.line_end;
    source_fragment = span.fragment;
  })
]

-- all groups, if each is there
unfoldable pub extract_groups :
    List ConfigNode → List (Text × ℕ) → Option (List ParsedProtocolGroup)
unfolding protocol_group_at
extract_groups nodes [] = some []
extract_groups nodes (header ∷ headers) = elim (protocol_group_at nodes header) [
  | none ↦ none
  | some group ↦ elim (extract_groups nodes headers) [
    | none ↦ none
    | some more ↦ some (group ∷ more)
  ]
]

-- `ProtocolGroupExtractor.extract`
unfoldable pub extract_protocol_groups :
    List ConfigNode → AsaIndex → Option (List ParsedProtocolGroup)
unfolding extract_groups
extract_protocol_groups nodes index = extract_groups nodes index.object_group_protocol
