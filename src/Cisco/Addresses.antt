-- ===== src/Cisco/Addresses.antt =====
-- The network objects and groups of a configuration
-- (src/app/modules/imports/cisco_asa/parsing/extractors/addresses.py and
-- parsing/address_group_members.py).
pub mod Reopened
use nsp_migrator.Prelude.{
  ℕ, Bool, true, false, Option, none, some, List, [], ◌∷◌, ◌++◌, map, if◌then◌else◌, concat_map,
}
use nsp_migrator.Prelude.Eq.{list_eq, nat_eq}
use nsp_migrator.Prelude.Text.{
  Text, codes, strip, lower, split, words, starts_with, is_space, truthy,
}
use nsp_migrator.Cisco.Tree.{ConfigNode, ConfigSourceSpan, stripped, children_of, source_span}
use nsp_migrator.Cisco.Index.{AsaIndex, one_after, two_after}
use nsp_migrator.Cisco.Objects.{
  ParsedObjectType, address, address_group, AddressPayload, AddressMember, host_member,
  object_member, group_member, reference_member, subnet_member, AddressGroupPayload, ParsedPayload,
  address_payload, group_payload, ParsedAddressObject,
}

abbrev pub empty_payload : AddressPayload
empty_payload = record {
  type = none;
  ip = none;
  mask = none;
  start = none;
  end = none;
  name = none;
  description = none;
  raw_lines = [];
}

-- `parts[1]` and `parts[2]`, if there are three parts
abbrev two_values : List Text → Option (Text × Text)
two_values (_ ∷ a ∷ b ∷ _) = some (a, b)
two_values [] = none
two_values (_ ∷ []) = none
two_values (_ ∷ _ ∷ []) = none

-- `parts[-1]`, of a line that is not empty
abbrev last_part : Text → List Text → Text
last_part last [] = last
last_part last (part ∷ parts) = last_part part parts

-- one line of `_parse_object_network_children`
unfoldable pub network_line : Text → AddressPayload → AddressPayload
unfolding lower starts_with one_after split
network_line line payload =
    let low = lower line in
    if starts_with (codes "host ") low
    then record payload { type = some (codes "host"); ip = some (one_after line) }
    else if starts_with (codes "subnet ") low
    then (elim (two_values (words line)) [
      | none ↦ payload
      | some (ip, mask) ↦ record payload {
        type = some (codes "subnet");
        ip = some ip;
        mask = some mask;
      }
    ])
    else if starts_with (codes "range ") low
    then (elim (two_values (words line)) [
      | none ↦ payload
      | some (start, end) ↦ record payload {
        type = some (codes "range");
        start = some start;
        end = some end;
      }
    ])
    else if starts_with (codes "fqdn") low
    then record payload { type = some (codes "fqdn"); name = some (last_part [] (words line)) }
    else if starts_with (codes "description ") low
    then record payload { description = some (one_after line) }
    else record payload { raw_lines = payload.raw_lines ++ (line ∷ []) }

unfoldable pub network_lines : List Text → AddressPayload → AddressPayload
unfolding network_line
network_lines [] payload = payload
network_lines (line ∷ lines) payload = network_lines lines (network_line line payload)

-- `_parse_object_network_children`
unfoldable pub parse_object_network_children : List Text → AddressPayload
unfolding network_lines
parse_object_network_children lines = network_lines lines empty_payload

-- The last declaration with a type, if there is one.
unfoldable pub last_typed : List (ℕ × AddressPayload) → Option (ℕ × AddressPayload)
last_typed [] = none
last_typed ((i, payload) ∷ more) = elim (last_typed more) [
  | some later ↦ some later
  | none ↦ elim payload.type [ none ↦ none | some t ↦ some (i, payload) ]
]

unfoldable pub last_declaration : List (ℕ × AddressPayload) → Option (ℕ × AddressPayload)
last_declaration [] = none
last_declaration (d ∷ []) = some d
last_declaration (_ ∷ d ∷ more) = last_declaration (d ∷ more)

-- the last description that is not empty
unfoldable pub last_description : List (ℕ × AddressPayload) → Option Text
last_description [] = none
last_description ((_, payload) ∷ more) = elim (last_description more) [
  | some later ↦ some later
  | none ↦ truthy payload.description
]

abbrev pub all_raw_lines : List (ℕ × AddressPayload) → List Text
all_raw_lines = concat_map (λ (d : ℕ × AddressPayload). d.1.raw_lines)

abbrev pub or_declaration :
    Option (ℕ × AddressPayload) → Option (ℕ × AddressPayload) → Option (ℕ × AddressPayload)
or_declaration none other = other
or_declaration (some d) other = some d

-- `_merge_object_network_declarations`; none stands for the `IndexError` without a declaration
unfoldable pub merge_object_network_declarations :
    List (ℕ × AddressPayload) → Option (ℕ × AddressPayload)
unfolding last_typed last_declaration last_description
merge_object_network_declarations declarations =
    elim (or_declaration (last_typed declarations) (last_declaration declarations)) [
      | none ↦ none
      | some (node_idx, base) ↦ some (
        node_idx,
        record base {
          description = last_description declarations;
          raw_lines = all_raw_lines declarations;
        },
      )
    ]

-- one line of `_parse_object_group_network_children`
unfoldable pub group_line : Text → AddressGroupPayload → AddressGroupPayload
unfolding lower starts_with one_after two_after split
group_line line payload =
    let low = lower line in
    let with_member =
      λ (member : AddressMember). record payload { members = payload.members ++ (member ∷ []) } in
    if starts_with (codes "network-object host ") low
    then with_member (host_member (two_after line))
    else if starts_with (codes "network-object object ") low
    then with_member (object_member (two_after line))
    else if starts_with (codes "network-object ") low
    then (elim (two_values (words line)) [
      | none ↦ payload
      | some (ip, mask) ↦ with_member (subnet_member ip mask)
    ])
    else if starts_with (codes "group-object ") low
    then with_member (group_member (one_after line))
    else if starts_with (codes "description ") low
    then record payload { description = some (one_after line) }
    else record payload { raw_lines = payload.raw_lines ++ (line ∷ []) }

unfoldable pub group_lines : List Text → AddressGroupPayload → AddressGroupPayload
unfolding group_line
group_lines [] payload = payload
group_lines (line ∷ lines) payload = group_lines lines (group_line line payload)

-- `_parse_object_group_network_children`
unfoldable pub parse_object_group_network_children : List Text → AddressGroupPayload
unfolding group_lines
parse_object_group_network_children lines =
    group_lines lines (record { members = []; description = none; raw_lines = [] })

-- `[c.line.stripped for c in tree.children(node_idx)]`
abbrev child_lines : List ConfigNode → ℕ → List Text
unfolding children_of stripped
child_lines nodes i = map (λ (c : ConfigNode). stripped c.line) (children_of nodes i)

abbrev parsed_object :
    Text → ParsedObjectType → ParsedPayload → ConfigSourceSpan → ParsedAddressObject
parsed_object name kind payload span = record {
  name = name;
  kind = kind;
  payload = payload;
  source_line = span.line_start;
  source_line_end = span.line_end;
  source_fragment = span.fragment;
}

-- one object of `extract`; none stands for an `IndexError`
unfoldable pub network_object : List ConfigNode → Text × List ℕ → Option ParsedAddressObject
unfolding children_of stripped parse_object_network_children merge_object_network_declarations
    source_span
network_object nodes (name, ids) =
    let declarations =
      map (λ (i : ℕ). (i, parse_object_network_children (child_lines nodes i))) ids in
    elim (merge_object_network_declarations declarations) [
      | none ↦ none
      | some (node_idx, payload) ↦ elim (source_span nodes node_idx) [
        | none ↦ none
        | some span ↦ some (parsed_object name address (address_payload payload) span)
      ]
    ]

unfoldable pub network_group : List ConfigNode → Text × ℕ → Option ParsedAddressObject
unfolding children_of stripped parse_object_group_network_children source_span
network_group nodes (name, i) =
    let payload = parse_object_group_network_children (child_lines nodes i) in
    elim (source_span nodes i) [
      | none ↦ none
      | some span ↦ some (parsed_object name address_group (group_payload payload) span)
    ]

-- all results, if each is there
unfoldable pub collected : List (Option ParsedAddressObject) → Option (List ParsedAddressObject)
collected [] = some []
collected (none ∷ os) = none
collected (some o ∷ os) = elim (collected os) [ none ↦ none | some rest ↦ some (o ∷ rest) ]

-- `AddressExtractor.extract`
unfoldable pub extract_addresses : List ConfigNode → AsaIndex → Option (List ParsedAddressObject)
unfolding collected network_object network_group
extract_addresses nodes index = collected (
    map (network_object nodes) index.object_network
    ++ map (network_group nodes) index.object_group_network)

-- a member as a reference of the normalizer; one without a value is dropped
unfoldable pub normalize_member : AddressMember → List Text
normalize_member (reference_member t) = t ∷ []
normalize_member (host_member ip) = elim (truthy (some ip)) [
  | none ↦ []
  | some t ↦ (codes "host:" ++ t) ∷ []
]
normalize_member (subnet_member ip mask) = elim (truthy (some ip)) [
  | none ↦ []
  | some t ↦ elim (truthy (some mask)) [
    | none ↦ []
    | some m ↦ (codes "net:" ++ (t ++ (codes "/" ++ m))) ∷ []
  ]
]
normalize_member (object_member name) = elim (truthy (some name)) [ none ↦ [] | some t ↦ t ∷ [] ]
normalize_member (group_member name) = elim (truthy (some name)) [ none ↦ [] | some t ↦ t ∷ [] ]

-- one object of `normalize_address_group_members`
unfoldable pub normalize_group : ParsedAddressObject → ParsedAddressObject
unfolding normalize_member
normalize_group obj = elim obj.payload [
  | address_payload p ↦ obj
  | group_payload g ↦ record obj {
    payload =
        group_payload
          (record g { members = map reference_member (concat_map normalize_member g.members) });
  }
]

unfoldable pub normalize_address_group_members : List ParsedAddressObject → List ParsedAddressObject
unfolding normalize_group
normalize_address_group_members objects = map normalize_group objects
