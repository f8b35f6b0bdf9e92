-- ===== src/Catalog.antt =====
-- The catalog of SD-WAN objects: zones, services and address objects
-- (src/app/integrations/sdwan_csp_api/gateways/enums.py and models.py).
-- An IPv4 address is the number that `int(address)` gives. Identifiers are numbers.
pub mod Groups
pub mod Fingerprint
use nsp_migrator.Prelude.{
  ℕ, ◌+◌, ◌-◌, ◌^◌, ◌<◌, ◌≡◌, Bool, true, false, ◌&&◌, ◌||◌, not, Option, none, some, List, [], ◌∷◌,
  if◌then◌else◌,
}
use nsp_migrator.Prelude.Eq.{Eq, ◌==◌}
use nsp_migrator.Prelude.Text.{Text}
use nsp_migrator.Prelude.Result.{Result, ok, err}

pub data SdwanZoneType : Type 0 where
  lan wan wgd wgra : SdwanZoneType

pub data SdwanServiceL4Proto : Type 0 where
  tcp udp icmp any ip_ip : SdwanServiceL4Proto

pub data SdwanAddrObjectType : Type 0 where
  prefix host fqdn ip_range network addr_group : SdwanAddrObjectType

pub data SdwanDeviceObjectType : Type 0 where
  device group : SdwanDeviceObjectType

pub data SdwanRulePriority : Type 0 where
  local pre post : SdwanRulePriority

proto_dec : Discrete SdwanServiceL4Proto
proto_dec = hlevel

type_dec : Discrete SdwanAddrObjectType
type_dec = hlevel

instance unfoldable pub proto_eq : Eq SdwanServiceL4Proto
unfolding proto_dec
proto_eq = record { dec = proto_dec }

instance unfoldable pub type_eq : Eq SdwanAddrObjectType
unfolding type_dec
type_eq = record { dec = type_dec }

-- `ipaddress.IPv4Network`: its first address, and the number of bits that its addresses share.
pub record Ipv4Network : Type 0 where
  pub network_address : ℕ
  pub prefixlen : ℕ

unfoldable pub broadcast_address : Ipv4Network → ℕ
broadcast_address n = n.network_address + 2 ^ (32 - n.prefixlen) - 1

pub record SdwanZone : Type 0 where
  pub id : ℕ
  pub zone_id : ℕ
  pub name : Text
  pub type : SdwanZoneType

pub record SdwanService : Type 0 where
  pub id : ℕ
  pub name : Text
  pub l4_proto : SdwanServiceL4Proto
  pub ranges : Option (List (ℕ × ℕ))
  pub codes : Option (List Text)

pub record SdwanAddrObject : Type 0 where
  pub id : ℕ
  pub parents : List ℕ
  pub name : Text
  pub type : SdwanAddrObjectType
  pub network_id : Option Text
  pub network : Option Ipv4Network
  pub prefix : Option Ipv4Network
  pub host : Option ℕ
  pub fqdn : Option Text
  pub ip_range_from : Option ℕ
  pub ip_range_to : Option ℕ
  pub addr_group : Option ℕ

-- `not values`, for an optional tuple
unfoldable pub is_missing {ℓ} : {A : Type ℓ} → Option (List A) → Bool
is_missing none = true
is_missing (some []) = true
is_missing (some (x ∷ xs)) = false

unfoldable pub is_none {ℓ} : {A : Type ℓ} → Option A → Bool
is_none none = true
is_none (some a) = false

-- The `ValueError`s of the two `__post_init__` methods.
pub data CatalogError : Type 0 where
  ranges_required codes_required : CatalogError
  network_required prefix_required host_required fqdn_required range_required : CatalogError
  cpe_forbidden cpe_required : CatalogError

-- `SdwanService.__post_init__`
unfoldable pub check_service : SdwanService → Result CatalogError SdwanService
unfolding is_missing
check_service s =
    if (s.l4_proto == tcp || s.l4_proto == udp) && is_missing s.ranges
    then err ranges_required
    else if s.l4_proto == icmp && is_missing s.codes
    then err codes_required
    else ok s

-- `SdwanAddrObject.__post_init__`
unfoldable pub check_addr_object : SdwanAddrObject → Result CatalogError SdwanAddrObject
unfolding is_none
check_addr_object o =
    if o.type == network && (is_none o.network_id || is_none o.network)
    then err network_required
    else if o.type == prefix && is_none o.prefix
    then err prefix_required
    else if o.type == host && is_none o.host
    then err host_required
    else if o.type == fqdn && is_none o.fqdn
    then err fqdn_required
    else if o.type == ip_range && (is_none o.ip_range_from || is_none o.ip_range_to)
    then err range_required
    else ok o

-- A device or a group of devices.
pub record SdwanDeviceObject : Type 0 where
  pub dev_obj_id : Text
  pub name : Text
  pub type : SdwanDeviceObjectType
  pub cpe_id : Option Text

-- `SdwanDeviceObject.__post_init__`
unfoldable pub check_device_object : SdwanDeviceObject → Result CatalogError SdwanDeviceObject
check_device_object o = elim o.type [
  | SdwanDeviceObjectType.group ↦ elim o.cpe_id [ none ↦ ok o | some id ↦ err cpe_forbidden ]
  | SdwanDeviceObjectType.device ↦ elim o.cpe_id [ none ↦ err cpe_required | some id ↦ ok o ]
]
