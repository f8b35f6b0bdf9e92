-- ===== src/Execute/Gateway/Pushing.antt =====
-- The outcomes of `push_rules`.
use nsp_migrator.Prelude.{ℕ, ◌≡◌, ◌≢◌, refl, ◌⊎◌, inl, inr, none, some, List, [], ◌∷◌}
use nsp_migrator.Prelude.Result.{Result, ok, err}
use nsp_migrator.Prelude.Text.{Text, codes}
use nsp_migrator.Catalog.{SdwanDeviceObject, SdwanDeviceObjectType, SdwanRulePriority}
use nsp_migrator.Execute.Plan.{ExecutePlanRule}
use nsp_migrator.Execute.Gateway.{
  Sdwan, CreatePolicyRequest, PushRuleResult, validate_priority, create_request, create_policy,
  push_result, push_loop, push_to_target, push_rules,
}

-- A device takes the local placement only, a group the others only.
abbrev pub IsMisplaced : SdwanDeviceObjectType → SdwanRulePriority → Type 0
IsMisplaced type priority =
    ((type ≡ SdwanDeviceObjectType.device) × (priority ≢ SdwanRulePriority.local))
    ⊎ ((type ≡ SdwanDeviceObjectType.group) × (priority ≡ SdwanRulePriority.local))

-- What a misplaced rule is told.
abbrev pub misplaced_text : SdwanDeviceObjectType → Text
misplaced_text SdwanDeviceObjectType.device =
    codes "Policies for DEVICE can be placed only in LOCAL placements"
misplaced_text SdwanDeviceObjectType.group =
    codes "Policies for GROUP can be placed only in PRE, POST placements"

validate_priority-placed :
    (type : SdwanDeviceObjectType) (priority : SdwanRulePriority)
    → (IsMisplaced type priority → ⊥)
    → validate_priority type priority ≡ none
unfolding validate_priority
validate_priority-placed SdwanDeviceObjectType.device SdwanRulePriority.local h = refl
validate_priority-placed SdwanDeviceObjectType.device SdwanRulePriority.pre h =
    absurd (h (inl (refl, λ e. cc)))
validate_priority-placed SdwanDeviceObjectType.device SdwanRulePriority.post h =
    absurd (h (inl (refl, λ e. cc)))
validate_priority-placed SdwanDeviceObjectType.group SdwanRulePriority.local h =
    absurd (h (inr (refl, refl)))
validate_priority-placed SdwanDeviceObjectType.group SdwanRulePriority.pre h = refl
validate_priority-placed SdwanDeviceObjectType.group SdwanRulePriority.post h = refl

-- The request that asks for the policy of a rule.
pub record IsRequestOf (target_id : Text) (type : SdwanDeviceObjectType)
    (priority : SdwanRulePriority) (rule : ExecutePlanRule) (q : CreatePolicyRequest) : Type 0 where
  pub name : q.name ≡ rule.draft.name
  pub action : q.action ≡ rule.draft.action
  pub ingress_zone : q.ingress_zone ≡ rule.draft.src_zones
  pub egress_zone : q.egress_zone ≡ rule.draft.dst_zones
  pub src_address : q.src_address ≡ rule.draft.src_addr_objects
  pub dst_address : q.dst_address ≡ rule.draft.dst_addr_objects
  pub service : q.service ≡ rule.draft.services
  pub parent : q.parent ≡ target_id
  pub parent_type : q.parent_type ≡ type
  pub placement : q.priority ≡ priority
  pub position : q.policy_position ≡ codes "tail"

-- The result of a rule: the identifier that the system gave, or the error that it raised.
abbrev pub Reports : ExecutePlanRule → Result Text ℕ → PushRuleResult → Type 0
Reports rule (ok id) r =
    (r.execute_plan_rule_id ≡ rule.id)
    × (r.rule_name ≡ rule.draft.name)
    × (r.sdwan_rule_id ≡ some id)
    × (r.error ≡ none)
Reports rule (err e) r =
    (r.execute_plan_rule_id ≡ rule.id)
    × (r.rule_name ≡ rule.draft.name)
    × (r.sdwan_rule_id ≡ none)
    × (r.error ≡ some e)

push_result-Reports :
    (rule : ExecutePlanRule) (outcome : Result Text ℕ)
    → Reports rule outcome (push_result rule outcome)
unfolding push_result
push_result-Reports rule (ok id) = (refl, refl, refl, refl)
push_result-Reports rule (err e) = (refl, refl, refl, refl)

-- Every rule is refused with the error.
abbrev pub AllRefused : Text → List ExecutePlanRule → List PushRuleResult → Type 0
AllRefused e [] rs = rs ≡ []
AllRefused e (rule ∷ rules) rs =
    (r : PushRuleResult) × (rest : List PushRuleResult) × (rs ≡ (r ∷ rest))
    × Reports rule (err e) r
    × AllRefused e rules rest

module _ (api : Sdwan) (target_id : Text) (type : SdwanDeviceObjectType)
    (priority : SdwanRulePriority) where
  -- The requests of the rules are sent in order, each in the state that the one before left, and
  -- each result reports what the system answered.
  abbrev pub Sent : List ExecutePlanRule → api.State → List PushRuleResult → api.State → Type 0
  Sent [] w rs w' = (rs ≡ []) × (w' ≡ w)
  Sent (rule ∷ rules) w rs w' =
      (q : CreatePolicyRequest) × (r : PushRuleResult) × (rest : List PushRuleResult) × IsRequestOf
        target_id type priority rule q
      × (rs ≡ (r ∷ rest))
      × Reports rule (api.create_policy q w).0 r
      × Sent rules (api.create_policy q w).1 rest w'

  create_request-IsRequestOf :
      (rule : ExecutePlanRule)
      → IsRequestOf target_id type priority rule (create_request target_id type priority rule)
  unfolding create_request
  create_request-IsRequestOf rule = record {
    name = refl;
    action = refl;
    ingress_zone = refl;
    egress_zone = refl;
    src_address = refl;
    dst_address = refl;
    service = refl;
    parent = refl;
    parent_type = refl;
    placement = refl;
    position = refl;
  }

  create_policy-placed :
      (rule : ExecutePlanRule) (w : api.State)
      → (IsMisplaced type priority → ⊥)
      → create_policy api (create_request target_id type priority rule) w
        ≡ api.create_policy (create_request target_id type priority rule) w
  unfolding create_policy create_request
  create_policy-placed rule w h = rw (validate_priority-placed type priority h, create_policy) refl

  push_loop-Sent :
      (rules : List ExecutePlanRule) (w : api.State)
      → (IsMisplaced type priority → ⊥)
      → Sent rules w
          (push_loop api target_id type priority rules w).0
          (push_loop api target_id type priority rules w).1
  unfolding push_loop
  push_loop-Sent [] w h = (refl, refl)
  push_loop-Sent (rule ∷ rules) w h =
      let q = create_request target_id type priority rule in
      rw (create_policy-placed rule w h, push_loop)
        (
          q,
          push_result rule (api.create_policy q w).0,
          (push_loop api target_id type priority rules (api.create_policy q w).1).0,
          create_request-IsRequestOf rule,
          refl,
          push_result-Reports rule (api.create_policy q w).0,
          push_loop-Sent rules (api.create_policy q w).1 h,
        )

module _ (api : Sdwan) where
  -- If the target exists and takes the placement (a device the local one, a group the other two),
  -- `push_rules` sends one request for each rule, in order, with its name, action, zones, addresses
  -- and services for that target and placement; and returns one result for each rule, in order, that
  -- names it and holds the identifier that the system gave, or else the error that it raised.
  pub push_rules_outcomes :
      (target_id : Text) (target : SdwanDeviceObject) (rules : List ExecutePlanRule)
      (priority : SdwanRulePriority) (w : api.State)
      → api.device_object target_id w ≡ ok (some target)
      → (IsMisplaced target.type priority → ⊥)
      → (results : List PushRuleResult) × (w' : api.State) × (push_rules api target_id rules
            priority w
          ≡ (ok results, w'))
        × Sent api target_id target.type priority rules w results w'
  unfolding push_rules push_to_target
  push_rules_outcomes target_id target rules priority w h placed = (
    (push_loop api target_id target.type priority rules w).0,
    (push_loop api target_id target.type priority rules w).1,
    rw (h, push_rules) refl,
    push_loop-Sent api target_id target.type priority rules w placed,
  )
