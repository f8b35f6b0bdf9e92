-- ===== src/Mapping/Canonical.antt =====
-- What the mapping module reads of the canonical rules
-- (src/app/modules/mapping/ports/canonical_reader/schemas.py).
use nsp_migrator.Prelude.{ℕ, Option, List}
use nsp_migrator.Prelude.Eq.{Eq}
use nsp_migrator.Prelude.Text.{Text}

pub data CanonicalAddrObjKind : Type 0 where
  host subnet range fqdn any_addr unresolved_addr addr_group : CanonicalAddrObjKind

pub data CanonicalServiceKind : Type 0 where
  tcp udp icmp ip_proto any_service service_group unresolved_service : CanonicalServiceKind

addr_obj_kind_dec : Discrete CanonicalAddrObjKind
addr_obj_kind_dec = hlevel

service_kind_dec : Discrete CanonicalServiceKind
service_kind_dec = hlevel

instance unfoldable pub addr_obj_kind_eq : Eq CanonicalAddrObjKind
unfolding addr_obj_kind_dec
addr_obj_kind_eq = record { dec = addr_obj_kind_dec }

instance unfoldable pub service_kind_eq : Eq CanonicalServiceKind
unfolding service_kind_dec
service_kind_eq = record { dec = service_kind_dec }

pub record CanonicalZone : Type 0 where
  pub id : ℕ
  pub zone_key : Text
  pub name : Text

pub record CanonicalAddrObject : Type 0 where
  pub id : ℕ
  pub kind : CanonicalAddrObjKind
  pub name : Text
  pub parent_id : Option ℕ
  pub parent_ids : List ℕ
  pub cidr : Option Text
  pub range_start : Option Text
  pub range_end : Option Text
  pub fqdn : Option Text

pub record CanonicalService : Type 0 where
  pub id : ℕ
  pub kind : CanonicalServiceKind
  pub name : Text
  pub parent_id : Option ℕ
  pub parent_ids : List ℕ
  pub protocol : Option Text
  pub port_from : Option ℕ
  pub port_to : Option ℕ
  pub icmp_type : Option ℕ
  pub icmp_code : Option ℕ

pub record CanonicalScopeEntities : Type 0 where
  pub zones : List CanonicalZone
  pub addr_objects : List CanonicalAddrObject
  pub services : List CanonicalService
