-- ===== src/Cisco/Config.antt =====
-- What the parser produces of the access rules
-- (src/app/modules/imports/cisco_asa/domain/enums.py and parsed_config.py).
use nsp_migrator.Prelude.{ℕ, Bool, Option}
use nsp_migrator.Prelude.Eq.{Eq}
use nsp_migrator.Prelude.Text.{Text}

pub data ProtocolOperandKind : Type 0 where
  literal protocol_group service_object ip_protocol_number : ProtocolOperandKind

pub data AclUsageType : Type 0 where
  firewall_policy crypto_map_selector unknown conflict : AclUsageType

pub data RuleProcessingStatus : Type 0 where
  fw_applicable skipped_for_now : RuleProcessingStatus

pub data IssueReasonCode : Type 0 where
  binding_missing mapping_missing protocol_unresolved : IssueReasonCode
  usage_conflict crypto_map_selector global_scope textual_duplicate : IssueReasonCode

pub data AclBindingType : Type 0 where
  interface global unknown : AclBindingType

pub data ZoneInferenceStatus : Type 0 where
  directional non_directional global_scope unknown : ZoneInferenceStatus

operand_kind_dec : Discrete ProtocolOperandKind
operand_kind_dec = hlevel

usage_type_dec : Discrete AclUsageType
usage_type_dec = hlevel

inference_status_dec : Discrete ZoneInferenceStatus
inference_status_dec = hlevel

instance unfoldable pub operand_kind_eq : Eq ProtocolOperandKind
unfolding operand_kind_dec
operand_kind_eq = record { dec = operand_kind_dec }

instance unfoldable pub usage_type_eq : Eq AclUsageType
unfolding usage_type_dec
usage_type_eq = record { dec = usage_type_dec }

instance unfoldable pub inference_status_eq : Eq ZoneInferenceStatus
unfolding inference_status_dec
inference_status_eq = record { dec = inference_status_dec }

pub record CryptoMapLink : Type 0 where
  pub map_name : Text
  pub sequence : ℕ
  pub acl_name : Text
  pub source_line : ℕ

pub record ParsedAccessRule : Type 0 where
  pub acl_name : Text
  pub rule_name : Text
  pub action : Text
  pub protocol : Text
  pub src_ref : Text
  pub dst_ref : Text
  pub service_ref : Option Text
  pub enabled : Bool
  pub order : ℕ
  pub line_start : ℕ
  pub line_end : ℕ
  pub src_zone : Option Text
  pub dst_zone : Option Text
  pub unresolved_zone : Bool
  pub acl_binding_type : AclBindingType
  pub zone_inference_status : ZoneInferenceStatus
  pub time_range : Option Text
  pub log : Bool
  pub protocol_operand_kind : ProtocolOperandKind
  pub protocol_group_ref : Option Text
  pub protocol_number : Option ℕ
  pub acl_usage_type : AclUsageType
  pub crypto_map_name : Option Text
  pub crypto_map_seq : Option ℕ
  pub raw_line_text : Text
  pub binding_context_key : Text
  pub binding_interface : Option Text
  pub binding_direction : Option Text
