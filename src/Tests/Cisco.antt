-- ===== src/Tests/Cisco.antt =====
-- A small configuration, and a rule as it is written.
use nsp_migrator.Prelude.{inl, ◌≡◌, refl, true, false, none, some, [], ◌∷◌, Elem}
use nsp_migrator.Prelude.Text.{Text, codes, split, lower}
use nsp_migrator.Cisco.Config.{interface, directional, operand_kind_eq}
use nsp_migrator.Cisco.Tree.{ConfigNode, build}
use nsp_migrator.Cisco.Tree.Links.{IsForest}
use nsp_migrator.Cisco.Tree.WellFormed.{build-IsForest}
use nsp_migrator.Cisco.Zones.{ZoneResolution, ZoneResolver}
use nsp_migrator.Cisco.Usage.{AclUsageClassifier}
use nsp_migrator.Cisco.Endpoints.{is_ipv4}
use nsp_migrator.Cisco.Operands.{named_protocol}
use nsp_migrator.Prelude.Eq.{list_eq, nat_eq}
use nsp_migrator.Cisco.Acls.{AccessList, parse_parts, extract_rules}
use nsp_migrator.Cisco.Acls.Written.{host_at, network_at}
use nsp_migrator.Cisco.Acls.Tail.{port, eq}
use nsp_migrator.Cisco.Acls.RoundTrip.{
  WrittenRule, IsWritten, protocol_named, rule_tokens, operand_of, IsProtocol,
  parse_parts-rule_tokens,
}
use nsp_migrator.Cisco.Acls.Extracted.{rule_of}
use nsp_migrator.Cisco.Acls.InOrder.{Extracts, extract_rules_in_order}
use nsp_migrator.Cisco.Processing.{resolve_rule_processing}
use nsp_migrator.Cisco.Processing.Eligible.{
  auto_apply_eligible, resolve_rule_processing-extract_rules,
}
use nsp_migrator.Prelude.Dict.{lookup}
use nsp_migrator.Cisco.Objects.{AddressPayload}
use nsp_migrator.Cisco.Addresses.{
  empty_payload, parse_object_network_children, merge_object_network_declarations, last_description,
}
use nsp_migrator.Cisco.Addresses.Reopened.{merge_object_network_declarations-reopened}
use native.Mathlib.Decide.{ℕ_discrete}

abbrev config : Text
config =
    codes
      "interface Eth0\n nameif outside\naccess-list A extended permit tcp host 10.0.0.1 any eq 443 log\naccess-group A in interface Eth0"

build-IsForest_example : IsForest (build config)
build-IsForest_example = build-IsForest config

abbrev rule_line : ConfigNode
rule_line = record {
  idx = 0;
  line = record {
    line_no = 1;
    text = codes "access-list A extended permit tcp host 10.0.0.1 any eq 443 log";
    indent = 0;
  };
  parent_idx = none;
  children = [];
}

abbrev binding : ZoneResolver
binding = record {
  iface_to_zone = (codes "Eth0", codes "outside") ∷ [];
  acl_to_iface = (codes "A", (codes "Eth0", codes "in") ∷ []) ∷ [];
  acl_global = [];
}

abbrev no_maps : AclUsageClassifier
no_maps = record { firewall_acls = codes "A" ∷ []; crypto_map_by_acl = [] }

extract_rules_in_order_example :
    Extracts binding no_maps 0 (rule_line ∷ []) (extract_rules binding no_maps 0 (rule_line ∷ []))
extract_rules_in_order_example = extract_rules_in_order binding no_maps (rule_line ∷ [])

abbrev read : AccessList
read = record {
  acl = codes "A";
  action = codes "permit";
  proto = codes "tcp";
  rest =
      codes "host" ∷ codes "10.0.0.1" ∷ codes "any" ∷ codes "eq" ∷ codes "443" ∷ codes "log" ∷ [];
}

-- The list is bound to an interface with a zone.
abbrev outside : ZoneResolution
outside = record {
  src_zone = none;
  dst_zone = some (codes "outside");
  unresolved = false;
  binding_type = interface;
  zone_inference_status = directional;
  binding_interface = some (codes "Eth0");
  binding_direction = some (codes "in");
  binding_context_key = codes "interface:Eth0:in";
}

outside_rule :
    Elem
      (rule_of binding no_maps rule_line read 1 outside)
      (extract_rules binding no_maps 0 (rule_line ∷ []))
unfolding rule_of extract_rules ℕ_discrete
outside_rule = inl refl

resolve_rule_processing-extract_rules_example :
    auto_apply_eligible
      (resolve_rule_processing (rule_of binding no_maps rule_line read 1 outside) false)
    ≡ true
unfolding lookup rule_of
resolve_rule_processing-extract_rules_example =
    resolve_rule_processing-extract_rules binding no_maps (rule_line ∷ [])
      (rule_of binding no_maps rule_line read 1 outside) false outside_rule

abbrev written : WrittenRule
written = record {
  protocol = protocol_named (codes "TCP");
  src = network_at (codes "10.0.0.0") (codes "255.0.0.0");
  dst = host_at (codes "10.0.0.1");
  service = port eq (codes "443");
  log = true;
  time_range = some (codes "night");
  inactive = false;
}

written_test :
    rule_tokens written
    ≡ split [] (codes "10.0.0.0 255.0.0.0 host 10.0.0.1 eq 443 log time-range night")
unfolding split
written_test = refl

written-IsWritten : IsWritten written
unfolding IsProtocol is_ipv4 named_protocol lower ℕ_discrete operand_kind_eq
written-IsWritten = record {
  protocol = (refl, refl, refl);
  src = (refl, refl);
  quiet_src = tt;
  dst = tt;
  quiet_dst = (refl, refl, refl);
  service = record {
    object_group = refl;
    object = refl;
    eq = refl;
    lt = refl;
    gt = refl;
    neq = refl;
    range = refl;
    inactive = refl;
    log = refl;
    time_range = refl;
  };
}

parse_parts-rule_tokens_example : parse_parts (codes "TCP") (rule_tokens written) ≡ record {
  operand = operand_of (protocol_named (codes "TCP"));
  src_ref = codes "net:10.0.0.0/255.0.0.0";
  dst_ref = codes "host:10.0.0.1";
  service_ref = some (codes "443");
  mods = record { inactive = false; log = true; time_range = some (codes "night") };
}
parse_parts-rule_tokens_example = parse_parts-rule_tokens written written-IsWritten

-- A host, and the network address translation that is added to it later.
abbrev first_header : AddressPayload
first_header = record empty_payload { type = some (codes "host"); ip = some (codes "10.0.0.1") }

abbrev nat_header : AddressPayload
nat_header = record empty_payload {
  raw_lines = codes "nat (inside,outside) dynamic interface" ∷ [];
}

header_test : parse_object_network_children (codes "host 10.0.0.1" ∷ []) ≡ first_header
unfolding parse_object_network_children ℕ_discrete
header_test = refl

first_merged : merge_object_network_declarations ((4, first_header) ∷ []) ≡ some (4, first_header)
unfolding merge_object_network_declarations
first_merged = refl

merge_object_network_declarations-reopened_example :
    merge_object_network_declarations ((4, first_header) ∷ (9, nat_header) ∷ [])
    ≡ some (4, record first_header { raw_lines = nat_header.raw_lines })
unfolding last_description
merge_object_network_declarations-reopened_example =
    merge_object_network_declarations-reopened ((4, first_header) ∷ []) ((9, nat_header) ∷ []) 4
      first_header (codes "host") first_merged refl (refl, tt)
