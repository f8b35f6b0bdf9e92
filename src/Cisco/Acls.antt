-- ===== src/Cisco/Acls.antt =====
-- The extended access rules of a configuration
-- (src/app/modules/imports/cisco_asa/parsing/extractors/acls.py). The pattern of a rule is matched on
-- the words of its line.
pub mod Written
pub mod Tail
pub mod RoundTrip
pub mod Extracted
pub mod InOrder
use nsp_migrator.Prelude.{
  ℕ, suc, ◌+◌, Bool, true, false, ◌&&◌, ◌||◌, not, Option, none, some, List, [], ◌∷◌, ◌++◌, map,
  if◌then◌else◌, leb, ◌-◌,
}
use nsp_migrator.Prelude.Eq.{◌==◌, list_eq, nat_eq}
use nsp_migrator.Prelude.Text.{Text, codes, lower, words, split, show, truthy}
use nsp_migrator.Cisco.Config.{ParsedAccessRule}
use nsp_migrator.Cisco.Tokens.{AclModifiers, parse_modifiers}
use nsp_migrator.Cisco.Operands.{ParsedProtocolOperand, parse_protocol_operand}
use nsp_migrator.Cisco.Endpoints.{parse_endpoint, extract_service_ref}
use nsp_migrator.Cisco.Tree.{ConfigNode, stripped}
use nsp_migrator.Cisco.Zones.{ZoneResolution, ZoneResolver, resolve_all, or_text}
use nsp_migrator.Cisco.Usage.{AclUsageResolution, AclUsageClassifier, resolve_usage}

-- `s.upper()`
abbrev upper_char : ℕ → ℕ
upper_char c = if leb b'a' c && leb c b'z' then c - 32 else c

abbrev pub upper : Text → Text
upper [] = []
upper (c ∷ s) = upper_char c ∷ upper s

-- The groups of `_ACCESS_LIST_RE`; the rest is split already.
pub record AccessList : Type 0 where
  pub acl : Text
  pub action : Text
  pub proto : Text
  pub rest : List Text

unfoldable pub access_list : List Text → Option AccessList
unfolding lower list_eq nat_eq
access_list (word ∷ acl ∷ extended ∷ action ∷ proto ∷ token ∷ tokens) =
    if (lower word == codes "access-list" && lower extended == codes "extended")
      && (lower action == codes "permit" || lower action == codes "deny")
    then some (record { acl = acl; action = action; proto = proto; rest = token ∷ tokens })
    else none
access_list [] = none
access_list (_ ∷ []) = none
access_list (_ ∷ _ ∷ []) = none
access_list (_ ∷ _ ∷ _ ∷ []) = none
access_list (_ ∷ _ ∷ _ ∷ _ ∷ []) = none
access_list (_ ∷ _ ∷ _ ∷ _ ∷ _ ∷ []) = none

-- What is read of the tokens of a rule.
pub record Parts : Type 0 where
  pub operand : ParsedProtocolOperand
  pub src_ref : Text
  pub dst_ref : Text
  pub service_ref : Option Text
  pub mods : AclModifiers

unfoldable pub parse_parts : Text → List Text → Parts
unfolding parse_modifiers parse_protocol_operand parse_endpoint extract_service_ref
parse_parts proto_token rest =
    let (tokens, mods) = parse_modifiers rest in
    let (operand, endpoint_tokens) = parse_protocol_operand proto_token tokens in
    let (src_ref, after_src) = parse_endpoint endpoint_tokens in
    let (dst_ref, tail) = parse_endpoint after_src in
    record {
      operand = operand;
      src_ref = src_ref;
      dst_ref = dst_ref;
      service_ref = or_text operand.service_ref (extract_service_ref operand tail);
      mods = mods;
    }

-- one rule of the fan-out over the zones
unfoldable pub parsed_rule :
    ConfigNode → AccessList → ℕ → Parts → AclUsageResolution → ZoneResolution → ParsedAccessRule
unfolding stripped show
parsed_rule node line rule_order parts usage zone = record {
  acl_name = line.acl;
  rule_name = line.acl ++ (codes ":" ++ show rule_order);
  action = upper line.action;
  protocol = parts.operand.protocol;
  src_ref = parts.src_ref;
  dst_ref = parts.dst_ref;
  service_ref = parts.service_ref;
  enabled = not parts.mods.inactive;
  order = rule_order;
  line_start = node.line.line_no;
  line_end = node.line.line_no;
  src_zone = zone.src_zone;
  dst_zone = zone.dst_zone;
  unresolved_zone = zone.unresolved;
  acl_binding_type = zone.binding_type;
  zone_inference_status = zone.zone_inference_status;
  time_range = parts.mods.time_range;
  log = parts.mods.log;
  protocol_operand_kind = parts.operand.kind;
  protocol_group_ref = parts.operand.group_ref;
  protocol_number = parts.operand.protocol_number;
  acl_usage_type = usage.usage_type;
  crypto_map_name = usage.crypto_map_name;
  crypto_map_seq = usage.crypto_map_seq;
  raw_line_text = stripped node.line;
  binding_context_key = zone.binding_context_key;
  binding_interface = zone.binding_interface;
  binding_direction = zone.binding_direction;
}

-- the rules of one node that has the given order
unfoldable pub rules_of_line :
    ZoneResolver → AclUsageClassifier → ConfigNode → AccessList → ℕ → List ParsedAccessRule
unfolding parse_parts parsed_rule resolve_all resolve_usage
rules_of_line zones usage node line rule_order =
    map
      (parsed_rule node line rule_order (parse_parts line.proto line.rest)
        (resolve_usage usage line.acl))
      (resolve_all zones line.acl)

-- `extract`, with the zones and the usage that the parser gives, from the rules counted so far on
unfoldable pub extract_rules :
    ZoneResolver → AclUsageClassifier → ℕ → List ConfigNode → List ParsedAccessRule
unfolding access_list stripped split rules_of_line
extract_rules zones usage rule_order [] = []
extract_rules zones usage rule_order (node ∷ nodes) =
    elim (access_list (words (stripped node.line))) [
      | none ↦ extract_rules zones usage rule_order nodes
      | some line ↦
          rules_of_line zones usage node line (suc rule_order)
          ++ extract_rules zones usage (suc rule_order) nodes
    ]
