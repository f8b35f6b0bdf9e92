-- ===== src/Cisco/Operands.antt =====
-- The protocol of an access rule
-- (src/app/modules/imports/cisco_asa/parsing/protocol_operands.py).
use nsp_migrator.Prelude.{ℕ, ◌&&◌, Option, none, some, List, [], ◌∷◌, leb, if◌then◌else◌}
use nsp_migrator.Prelude.Eq.{◌==◌, contains, list_eq, nat_eq}
use nsp_migrator.Prelude.Text.{Text, codes, lower, show, is_digits, to_number}
use nsp_migrator.Cisco.Config.{
  ProtocolOperandKind, literal, protocol_group, service_object, ip_protocol_number,
}

-- `_KNOWN_LITERAL_PROTOCOLS`
abbrev pub known_literal_protocols : List Text
known_literal_protocols =
    codes "tcp"
    ∷ codes "udp"
    ∷ codes "icmp"
    ∷ codes "icmp6"
    ∷ codes "ip"
    ∷ codes "ah"
    ∷ codes "esp"
    ∷ codes "gre"
    ∷ codes "igmp"
    ∷ codes "eigrp"
    ∷ codes "ospf"
    ∷ codes "pim"
    ∷ codes "sctp"
    ∷ []

pub record ParsedProtocolOperand : Type 0 where
  pub kind : ProtocolOperandKind
  pub protocol : Text
  pub group_ref : Option Text
  pub service_ref : Option Text
  pub protocol_number : Option ℕ

abbrev pub plain_operand : ProtocolOperandKind → Text → ParsedProtocolOperand
plain_operand kind protocol = record {
  kind = kind;
  protocol = protocol;
  group_ref = none;
  service_ref = none;
  protocol_number = none;
}

-- the reference that follows `object-group` or `object`, and the tokens after it
abbrev pub reference : List Text → Option Text × List Text
reference [] = (none, [])
reference (t ∷ ts) = (some t, ts)

-- what is not a reference
unfoldable pub named_protocol : Text → ParsedProtocolOperand
unfolding is_digits to_number show list_eq nat_eq
named_protocol lowered =
    if is_digits lowered && leb (to_number 0 lowered) 255
    then record (plain_operand ip_protocol_number (show (to_number 0 lowered))) {
      protocol_number = some (to_number 0 lowered);
    }
    else if contains lowered known_literal_protocols
    then plain_operand literal lowered
    else if is_digits lowered
    then record (plain_operand ip_protocol_number lowered) {
      protocol_number = some (to_number 0 lowered);
    }
    else plain_operand literal lowered

unfoldable pub parse_protocol_operand : Text → List Text → ParsedProtocolOperand × List Text
unfolding lower named_protocol list_eq nat_eq
parse_protocol_operand proto_token rest_tokens =
    let lowered = lower proto_token in
    let (ref, rest) = reference rest_tokens in
    if lowered == codes "object-group"
    then (record (plain_operand protocol_group (codes "protocol-group")) { group_ref = ref }, rest)
    else if lowered == codes "object"
    then (
      record (plain_operand service_object (codes "service-object")) { service_ref = ref },
      rest,
    )
    else (named_protocol lowered, rest_tokens)
