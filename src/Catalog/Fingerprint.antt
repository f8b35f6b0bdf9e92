-- ===== src/Catalog/Fingerprint.antt =====
-- The fingerprint of the full catalog
-- (src/app/integrations/sdwan_csp_api/gateways/models.py, `SdwanFullCatalog.get_fingerprint`).
pub mod Reorder
use nsp_migrator.Prelude.{ℕ, ◌/◌, ◌%◌, ◌^◌, Option, none, some, List, [], ◌∷◌, ◌++◌}
use nsp_migrator.Prelude.Text.{Text, codes, show, join}
use nsp_migrator.Hash.{
  Json, atom, list, dict, Items, nil, cons, Fields, end, field, Builtins, json_hash, text_items,
}
use nsp_migrator.Catalog.{
  Ipv4Network, SdwanZone, SdwanZoneType, lan, wan, wgd, wgra, SdwanService, SdwanServiceL4Proto,
  tcp, udp, icmp, any, ip_ip, SdwanAddrObject, SdwanAddrObjectType, prefix, host, fqdn, ip_range,
  network, addr_group,
}

pub record SdwanNetwork : Type 0 where
  pub network_id : Text
  pub net : Ipv4Network

pub record SdwanFullCatalog : Type 0 where
  pub zones : List SdwanZone
  pub services : List SdwanService
  pub addr_objs : List SdwanAddrObject
  pub networks : List SdwanNetwork

-- the values of the enumerations
unfoldable pub zone_type_text : SdwanZoneType → Text
zone_type_text lan = codes "lan"
zone_type_text wan = codes "wan"
zone_type_text wgd = codes "wgd"
zone_type_text wgra = codes "wgra"

unfoldable pub l4_proto_text : SdwanServiceL4Proto → Text
l4_proto_text tcp = codes "tcp"
l4_proto_text udp = codes "udp"
l4_proto_text icmp = codes "icmp"
l4_proto_text any = codes "any"
l4_proto_text ip_ip = codes "ip_ip"

unfoldable pub addr_type_text : SdwanAddrObjectType → Text
addr_type_text prefix = codes "prefix"
addr_type_text host = codes "host"
addr_type_text fqdn = codes "fqdn"
addr_type_text ip_range = codes "ip_range"
addr_type_text network = codes "network"
addr_type_text addr_group = codes "addr_group"

-- `str` of an address and of a network
unfoldable pub address_text : ℕ → Text
unfolding show join
address_text a = join (codes ".") (
    show (a / 2 ^ 24 % 256)
    ∷ show (a / 2 ^ 16 % 256)
    ∷ show (a / 2 ^ 8 % 256)
    ∷ show (a % 256)
    ∷ [])

unfoldable pub network_text : Ipv4Network → Text
unfolding address_text show
network_text n = address_text n.network_address ++ (codes "/" ++ show n.prefixlen)

-- an optional value; `json_hash` writes `None` as its `str`
abbrev pub optional : {A : Type 0} → (A → Json) → Option A → Json
optional f none = atom (codes "None")
optional f (some a) = f a

abbrev pub number : ℕ → Json
number n = atom (show n)

-- a list built from the elements of another
unfoldable pub items_of : {A : Type 0} → (A → Json) → List A → Items
items_of f [] = nil
items_of f (x ∷ xs) = cons (f x) (items_of f xs)

abbrev range_json : ℕ × ℕ → Json
range_json r = list (cons (number r.0) (cons (number r.1) nil))

abbrev pub zone_json : SdwanZone → Json
zone_json z = dict (
    field (codes "id") (number z.id) (
      field (codes "zone_id") (number z.zone_id) (
        field (codes "name") (atom z.name)
          (field (codes "type") (atom (zone_type_text z.type)) end))))

abbrev pub service_json : SdwanService → Json
service_json s = dict (
    field (codes "id") (number s.id) (
      field (codes "name") (atom s.name) (
        field (codes "l4_proto") (atom (l4_proto_text s.l4_proto)) (
          field (codes "ranges") (optional (λ rs. list (items_of range_json rs)) s.ranges)
            (field (codes "codes") (optional (λ cs. list (text_items cs)) s.codes) end)))))

abbrev pub addr_object_json : SdwanAddrObject → Json
addr_object_json o =
    let net = λ (n : Ipv4Network). atom (network_text n) in
    let ip = λ (a : ℕ). atom (address_text a) in
    dict (
      field (codes "id") (number o.id) (
        field (codes "parents") (list (items_of number o.parents)) (
          field (codes "name") (atom o.name) (
            field (codes "type") (atom (addr_type_text o.type)) (
              field (codes "network_id") (optional atom o.network_id) (
                field (codes "network") (optional net o.network) (
                  field (codes "prefix") (optional net o.prefix) (
                    field (codes "host") (optional ip o.host) (
                      field (codes "fqdn") (optional atom o.fqdn) (
                        field (codes "ip_range_from") (optional ip o.ip_range_from) (
                          field (codes "ip_range_to") (optional ip o.ip_range_to) (
                            field (codes "addr_group") (optional number o.addr_group)
                              end))))))))))))

abbrev pub network_json : SdwanNetwork → Json
network_json n = dict (
    field (codes "network_id") (atom n.network_id)
      (field (codes "net") (atom (network_text n.net)) end))

unfoldable pub catalog_json : SdwanFullCatalog → Json
unfolding items_of
catalog_json c = dict (
    field (codes "zones") (list (items_of zone_json c.zones)) (
      field (codes "services") (list (items_of service_json c.services)) (
        field (codes "addr_objects") (list (items_of addr_object_json c.addr_objs))
          (field (codes "networks") (list (items_of network_json c.networks)) end))))

-- `get_fingerprint`
unfoldable pub get_fingerprint : Builtins → SdwanFullCatalog → Text
unfolding catalog_json
get_fingerprint b c = json_hash b (catalog_json c)
