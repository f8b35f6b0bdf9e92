-- ===== src/Execute/MappingReader.antt =====
-- Mapped rules read for execution (src/app/modules/execute/adapters/mapping_reader.py and
-- src/app/modules/execute/ports/mapping_reader/schemas.py).
pub mod Rules
use nsp_migrator.Prelude.{
  ℕ, Bool, true, false, Option, none, some, List, [], ◌∷◌, ◌++◌, leb, if◌then◌else◌,
}
use nsp_migrator.Prelude.Eq.{◌==◌, nat_eq}
use nsp_migrator.Prelude.Dict.{Dict, lookup, index_by}
use nsp_migrator.Prelude.Result.{Result, ok, err, ◌>>=◌}
use nsp_migrator.Prelude.Sort.{sorted}
use nsp_migrator.Prelude.Text.{Text}
use nsp_migrator.Catalog.{SdwanRulePriority}
use nsp_migrator.Mapping.Entities.{
  MappingEntityResult, MappingScopeRule, MappingScopeRuleOperand, MappingScopeRuleOperandRole,
  src_zone, dst_zone, src_addr_object, dst_addr_object, service, MappingScopeRuleAction, matched,
  result_status_eq, role_eq, MappingScope, MappingScopeRulesPriority,
}

-- The `ExecuteModuleError`s of the reader.
pub data ReaderError : Type 0 where
  unmatched_objects : ReaderError
  no_operands : ℕ → ReaderError
  no_mapping_result : ℕ → ReaderError
  no_assigned_id : ℕ → ReaderError
  missing_roles : ℕ → List MappingScopeRuleOperandRole → ReaderError

-- `MappedRuleDataAction` has the values of `MappingScopeRuleAction`.
pub record MappedRuleData : Type 0 where
  pub id : ℕ
  pub name : Text
  pub action : MappingScopeRuleAction
  pub priority : ℕ
  pub src_zones : List ℕ
  pub dst_zones : List ℕ
  pub src_addr_objects : List ℕ
  pub dst_addr_objects : List ℕ
  pub services : List ℕ

pub record MappingScopeData : Type 0 where
  pub id : ℕ
  pub title : Text
  pub csp_profile_id : ℕ
  pub vpc_id : Text
  pub sdwan_target_id : Text
  pub rules_priority : SdwanRulePriority
  pub catalog_fingerprint : Text

-- `SdwanRulePriority(priority)`
unfoldable pub rule_priority : MappingScopeRulesPriority → SdwanRulePriority
rule_priority MappingScopeRulesPriority.local = SdwanRulePriority.local
rule_priority MappingScopeRulesPriority.pre = SdwanRulePriority.pre
rule_priority MappingScopeRulesPriority.post = SdwanRulePriority.post

-- `get_mapping_scope_data`, after the scope is found
unfoldable pub mapping_scope_data : MappingScope → MappingScopeData
unfolding rule_priority
mapping_scope_data s = record {
  id = s.id;
  title = s.title;
  csp_profile_id = s.csp_profile_id;
  vpc_id = s.vpc_id;
  sdwan_target_id = s.sdwan_target_id;
  rules_priority = rule_priority s.rules_priority;
  catalog_fingerprint = s.catalog_fingerprint;
}

-- `rule_entities_ids_by_role`, whose keys are the five roles
pub record IdsByRole : Type 0 where
  pub src_zones : List ℕ
  pub dst_zones : List ℕ
  pub src_addr_objects : List ℕ
  pub dst_addr_objects : List ℕ
  pub services : List ℕ

abbrev pub no_ids : IdsByRole
no_ids = record {
  src_zones = [];
  dst_zones = [];
  src_addr_objects = [];
  dst_addr_objects = [];
  services = [];
}

abbrev pub ids_of_role : MappingScopeRuleOperandRole → IdsByRole → List ℕ
ids_of_role src_zone d = d.src_zones
ids_of_role dst_zone d = d.dst_zones
ids_of_role src_addr_object d = d.src_addr_objects
ids_of_role dst_addr_object d = d.dst_addr_objects
ids_of_role service d = d.services

unfoldable pub append_id : MappingScopeRuleOperandRole → ℕ → IdsByRole → IdsByRole
append_id src_zone id d = record d { src_zones = d.src_zones ++ (id ∷ []) }
append_id dst_zone id d = record d { dst_zones = d.dst_zones ++ (id ∷ []) }
append_id src_addr_object id d = record d { src_addr_objects = d.src_addr_objects ++ (id ∷ []) }
append_id dst_addr_object id d = record d { dst_addr_objects = d.dst_addr_objects ++ (id ∷ []) }
append_id service id d = record d { services = d.services ++ (id ∷ []) }

-- the loop over the operands of a rule
unfoldable pub collect_operands :
    Dict ℕ MappingEntityResult
    → List MappingScopeRuleOperand
    → IdsByRole
    → Result ReaderError IdsByRole
unfolding lookup append_id nat_eq
collect_operands results [] d = ok d
collect_operands results (o ∷ os) d = elim (lookup o.mapping_entity_result_id results) [
  | none ↦ err (no_mapping_result o.id)
  | some r ↦ elim r.selected_sdwan_entity_id [
    | none ↦ err (no_assigned_id o.id)
    | some id ↦ collect_operands results os (append_id o.role id d)
  ]
]

-- the roles with no identifiers
abbrev role_if_empty : MappingScopeRuleOperandRole → List ℕ → List MappingScopeRuleOperandRole
role_if_empty role [] = role ∷ []
role_if_empty role (id ∷ ids) = []

unfoldable pub missing : IdsByRole → List MappingScopeRuleOperandRole
missing d =
    role_if_empty src_zone d.src_zones
    ++ (role_if_empty dst_zone d.dst_zones
        ++ (role_if_empty src_addr_object d.src_addr_objects
            ++ (role_if_empty dst_addr_object d.dst_addr_objects
                ++ role_if_empty service d.services)))

abbrev pub mapped_rule : MappingScopeRule → IdsByRole → MappedRuleData
mapped_rule rule d = record {
  id = rule.id;
  name = rule.name;
  action = rule.action;
  priority = rule.priority;
  src_zones = d.src_zones;
  dst_zones = d.dst_zones;
  src_addr_objects = d.src_addr_objects;
  dst_addr_objects = d.dst_addr_objects;
  services = d.services;
}

unfoldable pub check_roles :
    MappingScopeRule
    → IdsByRole
    → List MappingScopeRuleOperandRole
    → Result ReaderError MappedRuleData
check_roles rule d (r ∷ rs) = err (missing_roles rule.id (r ∷ rs))
check_roles rule d [] = ok (mapped_rule rule d)

-- one round of the loop over the rules
unfoldable pub read_rule :
    Dict ℕ MappingEntityResult → MappingScopeRule → Result ReaderError MappedRuleData
unfolding collect_operands missing check_roles
read_rule results rule = elim rule.operands [
  | none ↦ err (no_operands rule.id)
  | some os ↦ collect_operands results os no_ids >>= λ d. check_roles rule d (missing d)
]

unfoldable pub read_rules :
    Dict ℕ MappingEntityResult → List MappingScopeRule → Result ReaderError (List MappedRuleData)
unfolding read_rule
read_rules results [] = ok []
read_rules results (rule ∷ rules) = do
  m ← read_rule results rule
  ms ← read_rules results rules
  ok (m ∷ ms)

-- `any(map_res.result_status != MATCHED ...)`
unfoldable pub any_unmatched : List MappingEntityResult → Bool
unfolding result_status_eq
any_unmatched [] = false
any_unmatched (r ∷ rs) =
    let rest = any_unmatched rs in if r.result_status == matched then rest else true

abbrev pub by_rule_priority : MappingScopeRule → MappingScopeRule → Bool
by_rule_priority a b = leb a.priority b.priority

-- `get_mapping_scope_rules`, from the rules and results that the mapping module returns
unfoldable pub get_mapping_scope_rules :
    List MappingScopeRule → List MappingEntityResult → Result ReaderError (List MappedRuleData)
unfolding any_unmatched read_rules index_by sorted nat_eq
get_mapping_scope_rules rules results =
    if any_unmatched results
    then err unmatched_objects
    else read_rules (index_by (λ r. r.id) results) (sorted by_rule_priority rules)
