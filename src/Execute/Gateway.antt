-- ===== src/Execute/Gateway.antt =====
-- The SD-WAN gateway of the execute module (src/app/modules/execute/adapters/sdwan_gateway.py).
-- The SD-WAN system behind the HTTP client is a parameter: a state, and what each request does.
pub mod Pushing
use nsp_migrator.Prelude.{ℕ, Option, none, some, List, [], ◌∷◌, ◌++◌, map, leb, Bool, true, false}
use nsp_migrator.Prelude.Eq.{nat_eq}
use nsp_migrator.Prelude.Result.{Result, ok, err, ◌>>=◌}
use nsp_migrator.Prelude.Sort.{sorted}
use nsp_migrator.Prelude.Text.{Text, codes}
use nsp_migrator.Catalog.{
  SdwanDeviceObject, SdwanDeviceObjectType, SdwanRulePriority, SdwanZone, SdwanService,
  SdwanAddrObject,
}
use nsp_migrator.Catalog.Fingerprint.{SdwanFullCatalog}
use nsp_migrator.Execute.Rules.{SdwanRuleAction, RuleBody, SdwanRule, SdwanPolicyCatalog}
use nsp_migrator.Execute.Names.{frozenset}
use nsp_migrator.Execute.Plan.{ExecutePlanRule}

-- The fields of a policy that the module reads.
pub record PolicyResponse : Type 0 where
  pub policy_id : ℕ
  pub action : SdwanRuleAction
  pub ingress_zone : List ℕ
  pub egress_zone : List ℕ
  pub src_address : List ℕ
  pub dst_address : List ℕ
  pub service : List ℕ

pub record CreatePolicyRequest : Type 0 where
  pub name : Text
  pub description : Text
  pub tags : List Text
  pub activated : Bool
  pub action : SdwanRuleAction
  pub log : Bool
  pub l4_inspection : Bool
  pub ingress_zone : List ℕ
  pub egress_zone : List ℕ
  pub src_address : List ℕ
  pub dst_address : List ℕ
  pub service : List ℕ
  pub parent : Text
  pub parent_type : SdwanDeviceObjectType
  pub priority : SdwanRulePriority
  pub policy_position : Text

pub record CommitInfo : Type 0 where
  pub commit_id : ℕ
  pub name : Text
  pub description : Text

-- The SD-WAN system. An exception of a request is the text that the code reports for it, and
-- `validation_text` is the text of the exception that a validator's message is wrapped in.
pub record Sdwan : Type 1 where
  pub State : Type 0
  pub acquire : ℕ → Text → State → Result Text Unit
  pub validation_text : Text → Text
  pub full_catalog : State → Result Text SdwanFullCatalog
  pub get_policies : Text → State → Result Text (List PolicyResponse)
  pub get_zones : List ℕ → State → Result Text (List SdwanZone)
  pub get_services : List ℕ → State → Result Text (List SdwanService)
  pub get_addr_objects : List ℕ → State → Result Text (List SdwanAddrObject)
  pub device_object : Text → State → Result Text (Option SdwanDeviceObject)
  pub create_policy : CreatePolicyRequest → State → Result Text ℕ × State
  pub policies_by_ids : List ℕ → State → Result Text (List PolicyResponse)
  pub commit_full_state : State → Result Text ℕ × State
  pub commit_info : ℕ → State → Result Text CommitInfo

-- The rules and the identifiers that the loop over the policies collects.
unfoldable pub policy_rule : PolicyResponse → SdwanRule
policy_rule p = record {
  body = record {
    action = p.action;
    src_zones = p.ingress_zone;
    dst_zones = p.egress_zone;
    src_addr_objects = p.src_address;
    dst_addr_objects = p.dst_address;
    services = p.service;
  };
  id = p.policy_id;
}

unfoldable pub policy_zone_ids : List PolicyResponse → List ℕ
policy_zone_ids [] = []
policy_zone_ids (p ∷ ps) = p.ingress_zone ++ (p.egress_zone ++ policy_zone_ids ps)

unfoldable pub policy_service_ids : List PolicyResponse → List ℕ
policy_service_ids [] = []
policy_service_ids (p ∷ ps) = p.service ++ policy_service_ids ps

unfoldable pub policy_addr_object_ids : List PolicyResponse → List ℕ
policy_addr_object_ids [] = []
policy_addr_object_ids (p ∷ ps) = p.src_address ++ (p.dst_address ++ policy_addr_object_ids ps)

-- `sorted(ids)` of a set
unfoldable pub sorted_set : List ℕ → List ℕ
unfolding frozenset sorted nat_eq
sorted_set ids = sorted leb (frozenset ids)

-- `PushRuleResultDTO`
pub record PushRuleResult : Type 0 where
  pub execute_plan_rule_id : ℕ
  pub rule_name : Text
  pub sdwan_rule_id : Option ℕ
  pub error : Option Text

unfoldable pub create_request :
    Text → SdwanDeviceObjectType → SdwanRulePriority → ExecutePlanRule → CreatePolicyRequest
create_request target_id target_type priority rule = record {
  name = rule.draft.name;
  description = [];
  tags = [];
  activated = true;
  action = rule.draft.action;
  log = false;
  l4_inspection = false;
  ingress_zone = rule.draft.src_zones;
  egress_zone = rule.draft.dst_zones;
  src_address = rule.draft.src_addr_objects;
  dst_address = rule.draft.dst_addr_objects;
  service = rule.draft.services;
  parent = target_id;
  parent_type = target_type;
  priority = priority;
  policy_position = codes "tail";
}

-- `validate_priority`: the placements of a device are local, those of a group are not
unfoldable pub validate_priority : SdwanDeviceObjectType → SdwanRulePriority → Option Text
validate_priority SdwanDeviceObjectType.device SdwanRulePriority.local = none
validate_priority SdwanDeviceObjectType.device _ =
    some (codes "Policies for DEVICE can be placed only in LOCAL placements")
validate_priority SdwanDeviceObjectType.group SdwanRulePriority.local =
    some (codes "Policies for GROUP can be placed only in PRE, POST placements")
validate_priority SdwanDeviceObjectType.group _ = none

unfoldable pub push_result : ExecutePlanRule → Result Text ℕ → PushRuleResult
push_result rule (ok id) = record {
  execute_plan_rule_id = rule.id;
  rule_name = rule.draft.name;
  sdwan_rule_id = some id;
  error = none;
}
push_result rule (err e) = record {
  execute_plan_rule_id = rule.id;
  rule_name = rule.draft.name;
  sdwan_rule_id = none;
  error = some e;
}

-- The failures of the gateway that end a use case.
pub data GatewayError : Type 0 where
  request_failed : Text → GatewayError
  target_not_found : Text → GatewayError

abbrev pub attempt : {A : Type 0} → Result Text A → Result GatewayError A
attempt (ok a) = ok a
attempt (err e) = err (request_failed e)

module _ (api : Sdwan) where
  -- `get_sdwan_policy_catalog`
  unfoldable pub get_sdwan_policy_catalog :
      Text → List ℕ → List ℕ → List ℕ → api.State → Result GatewayError SdwanPolicyCatalog
  unfolding policy_rule policy_zone_ids policy_service_ids policy_addr_object_ids sorted_set
  get_sdwan_policy_catalog target_id zone_ids service_ids addr_object_ids w = do
    policies ← attempt (api.get_policies target_id w)
    zones ← attempt (api.get_zones (sorted_set (zone_ids ++ policy_zone_ids policies)) w)
    services ←
        attempt (api.get_services (sorted_set (service_ids ++ policy_service_ids policies)) w)
    address_objects ←
        attempt
          (api.get_addr_objects (sorted_set (addr_object_ids ++ policy_addr_object_ids policies)) w)
    ok (record {
      target_id = target_id;
      rules = map policy_rule policies;
      zones = zones;
      services = services;
      address_objects = address_objects;
    })

  -- `create_policy(CreatePolicyRequest(...))`, where the constructor validates the request
  unfoldable pub create_policy : CreatePolicyRequest → api.State → Result Text ℕ × api.State
  unfolding validate_priority
  create_policy request w = elim (validate_priority request.parent_type request.priority) [
    | none ↦ api.create_policy request w
    | some message ↦ (err (api.validation_text message), w)
  ]

  -- the loop of `push_rules`: an exception of a request is recorded, and the loop goes on
  unfoldable pub push_loop :
      Text
      → SdwanDeviceObjectType
      → SdwanRulePriority
      → List ExecutePlanRule
      → api.State
      → List PushRuleResult × api.State
  unfolding create_request push_result create_policy
  push_loop target_id target_type priority [] w = ([], w)
  push_loop target_id target_type priority (rule ∷ rules) w =
      let (outcome, w') = create_policy (create_request target_id target_type priority rule) w in
      let (results, w'') = push_loop target_id target_type priority rules w' in
      (push_result rule outcome ∷ results, w'')

  unfoldable pub push_to_target :
      Option SdwanDeviceObject
      → Text
      → List ExecutePlanRule
      → SdwanRulePriority
      → api.State
      → Result GatewayError (List PushRuleResult) × api.State
  unfolding push_loop
  push_to_target none target_id rules priority w = (err (target_not_found target_id), w)
  push_to_target (some target) target_id rules priority w =
      let (results, w') = push_loop target_id target.type priority rules w in (ok results, w')

  -- `push_rules`
  unfoldable pub push_rules :
      Text
      → List ExecutePlanRule
      → SdwanRulePriority
      → api.State
      → Result GatewayError (List PushRuleResult) × api.State
  unfolding push_to_target
  push_rules target_id rules priority w = elim (api.device_object target_id w) [
    | err e ↦ (err (request_failed e), w)
    | ok target ↦ push_to_target target target_id rules priority w
  ]

  -- `get_rules`, before the responses are copied into the module's own class
  unfoldable pub get_rules : List ℕ → api.State → Result GatewayError (List PolicyResponse)
  get_rules ids w = attempt (api.policies_by_ids ids w)

  -- `commit_csp_changes`
  unfoldable pub commit_csp_changes : api.State → Result GatewayError CommitInfo × api.State
  commit_csp_changes w =
      let (outcome, w') = api.commit_full_state w in
      (attempt outcome >>= (λ id. attempt (api.commit_info id w')), w')
