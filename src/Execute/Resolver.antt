-- ===== src/Execute/Resolver.antt =====
-- Rules resolved to normalized values through the loaded catalog objects
-- (src/app/modules/execute/services/rule_values_resolver.py, `RuleValuesResolver.resolve_rule` and
-- what it calls).
use nsp_migrator.Prelude.{ℕ, Option, none, some, List, [], ◌∷◌, ◌++◌, map}
use nsp_migrator.Prelude.Eq.{nat_eq, list_eq}
use nsp_migrator.Prelude.Dict.{Dict, lookup, index_by}
use nsp_migrator.Prelude.Result.{Result, ok, err, ◌>>=◌, traverse}
use nsp_migrator.Prelude.Text.{Text}
use nsp_migrator.Catalog.{
  SdwanZone, SdwanService, SdwanServiceL4Proto, tcp, udp, icmp, any, ip_ip, SdwanAddrObject,
  SdwanAddrObjectType, prefix, host, fqdn, ip_range, network, addr_group,
}
use nsp_migrator.Catalog.Groups.{LeavesResolver, leaves_resolver, GroupError, resolve_leaves}
use nsp_migrator.Execute.Rules.{SdwanRuleAction, accept, reject, drop, RuleBody}
use nsp_migrator.Execute.Values.{
  NormalizationError, unknown_zone, unknown_service, unresolved_address, missing_value,
  unexpanded_group, no_port_ranges, AddressValue, span, name, from_network, from_host, from_range,
  from_raw, display_address,
}
use nsp_migrator.Execute.Names.{normalize_text, frozenset}
use nsp_migrator.Execute.Services.{
  ServiceValue, any_service, protocol_only, port_range, icmp_service, display_service,
}
use nsp_migrator.Execute.Signature.{
  ResolvedCoverageValue, distinct_resolved_values, address_coverable, service_coverable,
}

-- The values of a frozen set of values are those of the distinct resolved values.
pub record NormalizedRuleValues : Type 0 where
  pub action : SdwanRuleAction
  pub src_zones : List Text
  pub dst_zones : List Text
  pub src_addresses : List AddressValue
  pub dst_addresses : List AddressValue
  pub services : List ServiceValue

pub record ResolvedRuleValues : Type 0 where
  pub normalized : NormalizedRuleValues
  pub src_addresses : List (ResolvedCoverageValue AddressValue)
  pub dst_addresses : List (ResolvedCoverageValue AddressValue)
  pub services : List (ResolvedCoverageValue ServiceValue)

pub record RuleValuesResolver : Type 0 where
  pub zones_by_id : Dict ℕ SdwanZone
  pub services_by_id : Dict ℕ SdwanService
  pub address_group_resolver : LeavesResolver

unfoldable pub rule_values_resolver :
    List SdwanZone → List SdwanService → List SdwanAddrObject → RuleValuesResolver
unfolding index_by leaves_resolver nat_eq
rule_values_resolver zones services address_objects = record {
  zones_by_id = index_by (λ z. z.id) zones;
  services_by_id = index_by (λ s. s.id) services;
  address_group_resolver = leaves_resolver address_objects;
}

-- `if action in (REJECT, DROP)`
unfoldable pub normalize_action : SdwanRuleAction → SdwanRuleAction
normalize_action reject = reject
normalize_action drop = reject
normalize_action accept = accept

-- An optional field that has to be there.
abbrev require_value : {A : Type 0} → SdwanAddrObject → Option A → Result NormalizationError A
require_value o none = err (missing_value o.type o.id)
require_value o (some a) = ok a

abbrev of_type : SdwanAddrObject → SdwanAddrObjectType → Result NormalizationError AddressValue
of_type o prefix = do n ← require_value o o.prefix; ok (span (from_network n))
of_type o network = do n ← require_value o o.network; ok (span (from_network n))
of_type o host = do a ← require_value o o.host; ok (span (from_host a))
of_type o ip_range = do
  start ← require_value o o.ip_range_from
  end ← require_value o o.ip_range_to
  s ← from_range start end
  ok (span s)
of_type o fqdn = do d ← require_value o o.fqdn; ok (name (from_raw d))
of_type o addr_group = err unexpanded_group

-- `_address_value_from_leaf`
unfoldable pub address_value_from_leaf : SdwanAddrObject → Result NormalizationError AddressValue
unfolding from_network from_host from_range from_raw
address_value_from_leaf o = of_type o o.type

-- `_resolved_address_value`
unfoldable pub resolved_address_value :
    SdwanAddrObject → Result NormalizationError (ResolvedCoverageValue AddressValue)
unfolding address_value_from_leaf display_address
resolved_address_value o = do
  v ← address_value_from_leaf o
  ok (record {
    value = v;
    evidence = record { object_id = o.id; object_name = o.name; value = display_address v };
  })

-- `except SDWANAddressGroupResolutionError`
abbrev pub wrap_error : {A : Type 0} → Result GroupError A → Result NormalizationError A
wrap_error (ok a) = ok a
wrap_error (err e) = err (unresolved_address e)

-- the case of TCP and UDP
abbrev of_ranges :
    SdwanService → Option (List (ℕ × ℕ)) → Result NormalizationError (List ServiceValue)
of_ranges s none = err (no_port_ranges s.id)
of_ranges s (some []) = err (no_port_ranges s.id)
of_ranges s (some (r ∷ rs)) = traverse (λ q. port_range s.l4_proto q.0 q.1) (r ∷ rs)

abbrev of_proto : SdwanService → SdwanServiceL4Proto → Result NormalizationError (List ServiceValue)
of_proto s tcp = of_ranges s s.ranges
of_proto s udp = of_ranges s s.ranges
of_proto s icmp = ok (icmp_service s.codes ∷ [])
of_proto s any = ok (any_service ∷ [])
of_proto s ip_ip = ok (protocol_only ip_ip ∷ [])

-- `_service_values_for_id`, after the service is found
unfoldable pub service_values : SdwanService → Result NormalizationError (List ServiceValue)
unfolding port_range protocol_only icmp_service traverse
service_values s = of_proto s s.l4_proto

abbrev with_evidence : SdwanService → ServiceValue → ResolvedCoverageValue ServiceValue
with_evidence s v = record {
  value = v;
  evidence = record { object_id = s.id; object_name = s.name; value = display_service v };
}

module _ (r : RuleValuesResolver) where
  -- the loop of `_normalize_zones`
  unfoldable pub zone_names : List ℕ → Result NormalizationError (List Text)
  unfolding lookup normalize_text nat_eq
  zone_names [] = ok []
  zone_names (id ∷ ids) =
      let rest = zone_names ids in
      elim (lookup id r.zones_by_id) [
        | none ↦ err (unknown_zone id)
        | some z ↦ rest >>= λ names. ok (normalize_text z.name ∷ names)
      ]

  unfoldable pub normalize_zones : List ℕ → Result NormalizationError (List Text)
  unfolding zone_names frozenset list_eq
  normalize_zones ids = do names ← zone_names ids; ok (frozenset names)

  -- the loop of `_resolve_address_values`
  unfoldable pub address_values :
      List ℕ → Result NormalizationError (List (ResolvedCoverageValue AddressValue))
  unfolding resolve_leaves resolved_address_value traverse
  address_values [] = ok []
  address_values (id ∷ ids) = do
    leaves ← wrap_error (resolve_leaves r.address_group_resolver id)
    here ← traverse resolved_address_value leaves
    rest ← address_values ids
    ok (here ++ rest)

  unfoldable pub resolve_address_values :
      List ℕ → Result NormalizationError (List (ResolvedCoverageValue AddressValue))
  unfolding address_values distinct_resolved_values
  resolve_address_values ids = do vs ← address_values ids; ok (distinct_resolved_values vs)

  -- the loop of `_resolve_service_values`
  unfoldable pub services_of :
      List ℕ → Result NormalizationError (List (ResolvedCoverageValue ServiceValue))
  unfolding lookup service_values display_service nat_eq
  services_of [] = ok []
  services_of (id ∷ ids) =
      let rest = services_of ids in
      elim (lookup id r.services_by_id) [
        | none ↦ err (unknown_service id)
        | some s ↦
            service_values s >>= λ here. rest >>= λ more. ok (map (with_evidence s) here ++ more)
      ]

  unfoldable pub resolve_service_values :
      List ℕ → Result NormalizationError (List (ResolvedCoverageValue ServiceValue))
  unfolding services_of distinct_resolved_values
  resolve_service_values ids = do vs ← services_of ids; ok (distinct_resolved_values vs)

  unfoldable pub resolve_rule : RuleBody → Result NormalizationError ResolvedRuleValues
  unfolding normalize_action normalize_zones resolve_address_values resolve_service_values
  resolve_rule rule = do
    src_addresses ← resolve_address_values rule.src_addr_objects
    dst_addresses ← resolve_address_values rule.dst_addr_objects
    services ← resolve_service_values rule.services
    src_zones ← normalize_zones rule.src_zones
    dst_zones ← normalize_zones rule.dst_zones
    ok (record {
      normalized = record {
        action = normalize_action rule.action;
        src_zones = src_zones;
        dst_zones = dst_zones;
        src_addresses = map (λ v. v.value) src_addresses;
        dst_addresses = map (λ v. v.value) dst_addresses;
        services = map (λ v. v.value) services;
      };
      src_addresses = src_addresses;
      dst_addresses = dst_addresses;
      services = services;
    })
