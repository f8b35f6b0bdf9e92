-- ===== src/Tests/Data.antt =====
-- A small catalog, two rules and a plan.
use nsp_migrator.Prelude.{ℕ, ◌+◌, ◌*◌, suc, ◌^◌, none, some, List, [], ◌∷◌}
use nsp_migrator.Prelude.Result.{ok}
use nsp_migrator.Prelude.Text.{codes}
use nsp_migrator.Hash.{Builtins}
use nsp_migrator.Catalog.{
  SdwanDeviceObject, SdwanZone, lan, wan, SdwanService, SdwanServiceL4Proto, SdwanAddrObject,
  SdwanAddrObjectType, SdwanDeviceObjectType,
}
use nsp_migrator.Catalog.Groups.{LeavesResolver, leaves_resolver}
use nsp_migrator.Catalog.Fingerprint.{SdwanFullCatalog}
use nsp_migrator.Execute.Rules.{SdwanRuleAction, RuleBody, SdwanPolicyCatalog}
use nsp_migrator.Execute.Gateway.{Sdwan}

-- Hashing and quoting that keep the text.
abbrev pub plain : Builtins
plain = record { sha256 = λ t. t; quote = λ t. t; repr = λ t. t }

abbrev pub inside : SdwanZone
inside = record { id = 1; zone_id = 10; name = codes "LAN"; type = lan }

abbrev pub outside : SdwanZone
outside = record { id = 2; zone_id = 20; name = codes "WAN"; type = wan }

abbrev pub web : SdwanService
web = record {
  id = 1;
  name = codes "web";
  l4_proto = SdwanServiceL4Proto.tcp;
  ranges = some ((80, 80) ∷ (443, 443) ∷ []);
  codes = none;
}

abbrev pub anything : SdwanService
anything = record {
  id = 2;
  name = codes "any";
  l4_proto = SdwanServiceL4Proto.any;
  ranges = none;
  codes = none;
}

-- the group of the sites, a network in it, and a host
abbrev pub sites : SdwanAddrObject
sites = record {
  id = 1;
  parents = [];
  name = codes "sites";
  type = SdwanAddrObjectType.addr_group;
  network_id = none;
  network = none;
  prefix = none;
  host = none;
  fqdn = none;
  ip_range_from = none;
  ip_range_to = none;
  addr_group = some 1;
}

abbrev pub office : SdwanAddrObject
office = record sites {
  id = 2;
  parents = 1 ∷ [];
  name = codes "office";
  type = SdwanAddrObjectType.prefix;
  prefix = some (record { network_address = 10 * 2 ^ 24; prefixlen = 8 });
  addr_group = none;
}

abbrev pub printer : SdwanAddrObject
printer = record sites {
  id = 3;
  name = codes "printer";
  type = SdwanAddrObjectType.host;
  host = some (10 * 2 ^ 24 + 5);
  addr_group = none;
}

abbrev pub objects : List SdwanAddrObject
objects = sites ∷ office ∷ printer ∷ []

abbrev pub groups : LeavesResolver
groups = leaves_resolver objects

-- an existing policy that lets the sites send anything, and a rule for the web traffic of the printer
abbrev pub wide : RuleBody
wide = record {
  action = SdwanRuleAction.accept;
  src_zones = 1 ∷ [];
  dst_zones = 2 ∷ [];
  src_addr_objects = 1 ∷ [];
  dst_addr_objects = 1 ∷ [];
  services = 2 ∷ [];
}

abbrev pub narrow : RuleBody
narrow = record wide { src_addr_objects = 3 ∷ []; dst_addr_objects = 3 ∷ []; services = 1 ∷ [] }

abbrev pub policy_catalog : SdwanPolicyCatalog
policy_catalog = record {
  target_id = codes "d";
  rules = record { body = wide; id = 7 } ∷ [];
  zones = inside ∷ outside ∷ [];
  services = web ∷ anything ∷ [];
  address_objects = objects;
}

abbrev pub full_catalog : SdwanFullCatalog
full_catalog = record { zones = []; services = []; addr_objs = []; networks = [] }

-- A system that has one device and no policies, and numbers the policies it creates.
abbrev pub device : SdwanDeviceObject
device = record {
  dev_obj_id = codes "d";
  name = codes "edge";
  type = SdwanDeviceObjectType.device;
  cpe_id = some (codes "c");
}

abbrev pub system : Sdwan
system = record {
  State = ℕ;
  acquire = λ _ _ _. ok tt;
  validation_text = λ t. t;
  full_catalog = λ _. ok full_catalog;
  get_policies = λ _ _. ok [];
  get_zones = λ _ _. ok (inside ∷ outside ∷ []);
  get_services = λ _ _. ok (web ∷ anything ∷ []);
  get_addr_objects = λ _ _. ok objects;
  device_object = λ _ _. ok (some device);
  create_policy = λ _ n. (ok n, suc n);
  policies_by_ids = λ _ _. ok [];
  commit_full_state = λ n. (ok 1, n);
  commit_info = λ id _. ok (record { commit_id = id; name = []; description = [] });
}
