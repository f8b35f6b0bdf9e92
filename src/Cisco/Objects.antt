-- ===== src/Cisco/Objects.antt =====
-- The parsed objects (src/app/modules/imports/cisco_asa/domain/parsed_config.py).
use nsp_migrator.Prelude.{ℕ, Option, List}
use nsp_migrator.Prelude.Text.{Text}

pub data ParsedObjectType : Type 0 where
  address address_group service service_group protocol_group : ParsedObjectType

-- The payload of a network object: a dictionary with these keys, of which some are missing.
pub record AddressPayload : Type 0 where
  pub type : Option Text
  pub ip : Option Text
  pub mask : Option Text
  pub start : Option Text
  pub end : Option Text
  pub name : Option Text
  pub description : Option Text
  pub raw_lines : List Text

-- A member of a network group: a dictionary with a type, or a reference.
pub data AddressMember : Type 0 where
  host_member object_member group_member reference_member : Text → AddressMember
  subnet_member : Text → Text → AddressMember

pub record AddressGroupPayload : Type 0 where
  pub members : List AddressMember
  pub description : Option Text
  pub raw_lines : List Text

pub data ParsedPayload : Type 0 where
  address_payload : AddressPayload → ParsedPayload
  group_payload : AddressGroupPayload → ParsedPayload

pub record ParsedAddressObject : Type 0 where
  pub name : Text
  pub kind : ParsedObjectType
  pub payload : ParsedPayload
  pub source_line : ℕ
  pub source_line_end : ℕ
  pub source_fragment : Text

-- A member of a protocol group.
pub data ProtocolMember : Type 0 where
  protocol_object group_object : Text → ProtocolMember

-- The payload of a protocol group; its kind of group is always `protocol`.
pub record ProtocolGroupPayload : Type 0 where
  pub members : List ProtocolMember
  pub description : Option Text
  pub raw_lines : List Text

pub record ParsedProtocolGroup : Type 0 where
  pub name : Text
  pub kind : ParsedObjectType
  pub payload : ProtocolGroupPayload
  pub source_line : ℕ
  pub source_line_end : ℕ
  pub source_fragment : Text
