-- ===== src/Cisco/Processing.antt =====
-- Which rules may be applied, and the keys of rules
-- (src/app/modules/imports/cisco_asa/adapters/rules/processing.py and key_builder.py).
pub mod Eligible
use nsp_migrator.Prelude.{
  ℕ, suc, Bool, true, false, ◌&&◌, not, Option, none, some, List, [], ◌∷◌, ◌++◌, map, if◌then◌else◌,
}
use nsp_migrator.Prelude.Eq.{◌==◌, list_eq, nat_eq}
use nsp_migrator.Prelude.Dict.{Dict, lookup, insert}
use nsp_migrator.Prelude.Text.{Text, codes, join, show, truthy}
use nsp_migrator.Cisco.Config.{
  ProtocolOperandKind, operand_kind_eq, AclUsageType, usage_type_eq, RuleProcessingStatus,
  fw_applicable, skipped_for_now, IssueReasonCode, AclBindingType, global, ZoneInferenceStatus,
  inference_status_eq, ParsedAccessRule,
}

-- the values of the enumerations
unfoldable pub operand_kind_text : ProtocolOperandKind → Text
operand_kind_text ProtocolOperandKind.literal = codes "literal"
operand_kind_text ProtocolOperandKind.protocol_group = codes "protocol_group"
operand_kind_text ProtocolOperandKind.service_object = codes "service_object"
operand_kind_text ProtocolOperandKind.ip_protocol_number = codes "ip_protocol_number"

unfoldable pub usage_type_text : AclUsageType → Text
usage_type_text AclUsageType.firewall_policy = codes "firewall_policy"
usage_type_text AclUsageType.crypto_map_selector = codes "crypto_map_selector"
usage_type_text AclUsageType.unknown = codes "unknown"
usage_type_text AclUsageType.conflict = codes "conflict"

unfoldable pub processing_status_text : RuleProcessingStatus → Text
processing_status_text fw_applicable = codes "fw_applicable"
processing_status_text skipped_for_now = codes "skipped_for_now"

unfoldable pub reason_text : IssueReasonCode → Text
reason_text IssueReasonCode.binding_missing = codes "binding_missing"
reason_text IssueReasonCode.mapping_missing = codes "mapping_missing"
reason_text IssueReasonCode.protocol_unresolved = codes "protocol_unresolved"
reason_text IssueReasonCode.usage_conflict = codes "usage_conflict"
reason_text IssueReasonCode.crypto_map_selector = codes "crypto_map_selector"
reason_text IssueReasonCode.global_scope = codes "global_scope"
reason_text IssueReasonCode.textual_duplicate = codes "textual_duplicate"

unfoldable pub inference_status_text : ZoneInferenceStatus → Text
inference_status_text ZoneInferenceStatus.directional = codes "directional"
inference_status_text ZoneInferenceStatus.non_directional = codes "non_directional"
inference_status_text ZoneInferenceStatus.global_scope = codes "global_scope"
inference_status_text ZoneInferenceStatus.unknown = codes "unknown"

-- `parts.append(...)`, under a condition
abbrev when : Bool → Text → List Text
when true part = part ∷ []
when false part = []

abbrev when_some : Text → Option Text → List Text
when_some label none = []
when_some label (some t) = (label ++ t) ∷ []

-- the first parts, of the binding
unfoldable pub binding_parts : ParsedAccessRule → List Text
unfolding inference_status_text inference_status_eq
binding_parts rule = elim rule.acl_binding_type [
  | global ↦ codes "acl_binding=global" ∷ codes "zone_inference=global_scope" ∷ []
  | AclBindingType.interface ↦
      when (not (rule.zone_inference_status == ZoneInferenceStatus.unknown))
        (codes "zone_inference=" ++ inference_status_text rule.zone_inference_status)
  | AclBindingType.unknown ↦
      when (not (rule.zone_inference_status == ZoneInferenceStatus.unknown))
        (codes "zone_inference=" ++ inference_status_text rule.zone_inference_status)
]

-- an optional number in a formatted text
abbrev format_number : Option ℕ → Text
unfolding show
format_number none = codes "None"
format_number (some n) = show n

-- the parts of the crypto map and of the reasons
unfoldable pub crypto_parts : ParsedAccessRule → List Text
unfolding show
crypto_parts rule = elim (truthy rule.crypto_map_name) [
  | none ↦ []
  | some name ↦
      (codes "crypto_map=" ++ (name ++ (codes ":" ++ format_number rule.crypto_map_seq))) ∷ []
]

abbrev reason_parts : List IssueReasonCode → List Text
unfolding join reason_text
reason_parts [] = []
reason_parts (code ∷ more) =
    (codes "skip_reasons=" ++ join (codes ",") (map reason_text (code ∷ more))) ∷ []

-- `build_rule_metadata`; there is always a part
unfoldable pub build_rule_metadata :
    ParsedAccessRule → RuleProcessingStatus → List IssueReasonCode → Bool → Option Text
unfolding binding_parts crypto_parts reason_text join show usage_type_text processing_status_text
    operand_kind_text operand_kind_eq
build_rule_metadata rule status reasons eligible = some (
    join (codes "; ") (
      binding_parts rule
      ++ ((codes "binding_context=" ++ rule.binding_context_key) ∷ [])
      ++ when_some (codes "binding_interface=") (truthy rule.binding_interface)
      ++ when_some (codes "binding_direction=") (truthy rule.binding_direction)
      ++ ((codes "acl_usage=" ++ usage_type_text rule.acl_usage_type)
          ∷ (codes "processing_status=" ++ processing_status_text status)
          ∷ (codes "auto_apply_eligible=" ++ (if eligible then codes "true" else codes "false"))
          ∷ [])
      ++ when (not (rule.protocol_operand_kind == ProtocolOperandKind.literal))
          (codes "protocol_operand=" ++ operand_kind_text rule.protocol_operand_kind)
      ++ when_some (codes "protocol_group=") (truthy rule.protocol_group_ref)
      ++ (elim rule.protocol_number [
        | none ↦ []
        | some n ↦ (codes "protocol_number=" ++ show n) ∷ []
      ])
      ++ crypto_parts rule
      ++ reason_parts reasons
      ++ when_some (codes "time-range=") (truthy rule.time_range)
      ++ when rule.log (codes "log")))

-- `skip_reasons.append(code)`, under a condition
abbrev pub reason_when : Bool → IssueReasonCode → List IssueReasonCode
reason_when true code = code ∷ []
reason_when false code = []

-- the reasons of `resolve_rule_processing`
unfoldable pub skip_reasons : ParsedAccessRule → Bool → List IssueReasonCode
unfolding usage_type_eq inference_status_eq
skip_reasons rule has_protocol_blocker =
    let global_status = rule.zone_inference_status == ZoneInferenceStatus.global_scope in
    reason_when (rule.acl_usage_type == AclUsageType.crypto_map_selector)
      IssueReasonCode.crypto_map_selector
    ++ (reason_when (rule.acl_usage_type == AclUsageType.conflict) IssueReasonCode.usage_conflict
        ++ (reason_when global_status IssueReasonCode.global_scope
            ++ (reason_when (rule.unresolved_zone && not global_status)
                  IssueReasonCode.binding_missing
                ++ reason_when has_protocol_blocker IssueReasonCode.protocol_unresolved)))

abbrev pub processed : List IssueReasonCode → RuleProcessingStatus × (List IssueReasonCode × Bool)
processed [] = (fw_applicable, ([], true))
processed (code ∷ more) = (skipped_for_now, (code ∷ more, false))

unfoldable pub resolve_rule_processing :
    ParsedAccessRule → Bool → RuleProcessingStatus × (List IssueReasonCode × Bool)
unfolding skip_reasons
resolve_rule_processing rule has_protocol_blocker =
    processed (skip_reasons rule has_protocol_blocker)

-- `DeterministicRuleKeyBuilder.build`, with the counts of the keys seen
unfoldable pub build_key : Text → Dict Text ℕ → Text × Dict Text ℕ
unfolding lookup insert show list_eq nat_eq
build_key base_key seen = elim (lookup base_key seen) [
  | none ↦ (base_key, insert base_key 1 seen)
  | some count ↦ (
    if count == 0 then base_key else base_key ++ (codes ":dup" ++ show count),
    insert base_key (suc count) seen,
  )
]

unfoldable pub build_keys : List Text → Dict Text ℕ → List Text
unfolding build_key
build_keys [] seen = []
build_keys (key ∷ keys) seen =
    let (built, next) = build_key key seen in built ∷ build_keys keys next
