-- ===== src/Mapping/Entities.antt =====
-- Mapping scopes, their rules and the results of mapping
-- (src/app/modules/mapping/domain/entities.py, enums.py and value_objects.py).
-- A UUID and a time are numbers, given by the caller where the code generates them.
pub mod Selection
use nsp_migrator.Prelude.{ℕ, ◌+◌, Option, none, some, List, [], ◌∷◌, if◌then◌else◌}
use nsp_migrator.Prelude.Eq.{Eq, ◌==◌, nat_eq}
use nsp_migrator.Prelude.Result.{Result, ok, err}
use nsp_migrator.Prelude.Text.{Text}

pub data MappingScopeRulesPriority : Type 0 where
  local pre post : MappingScopeRulesPriority

pub data MappingEntityType : Type 0 where
  zone addr service : MappingEntityType

pub data MappingResultStatus : Type 0 where
  matched ambiguous unresolved : MappingResultStatus

pub data SdwanObjectSelectionMethod : Type 0 where
  auto_selected manual_candidate manual_direct auto_created : SdwanObjectSelectionMethod

pub data CandidateMatchStrategy : Type 0 where
  normalized_name exact_value builtin_any service_signature : CandidateMatchStrategy

pub data MappingScopeRuleOperandRole : Type 0 where
  src_zone dst_zone src_addr_object dst_addr_object service : MappingScopeRuleOperandRole

pub data MappingScopeRuleAction : Type 0 where
  accept reject : MappingScopeRuleAction

unfoldable pub result_status_dec : Discrete MappingResultStatus
result_status_dec = hlevel

role_dec : Discrete MappingScopeRuleOperandRole
role_dec = hlevel

instance unfoldable pub result_status_eq : Eq MappingResultStatus
unfolding result_status_dec
result_status_eq = record { dec = result_status_dec }

instance unfoldable pub role_eq : Eq MappingScopeRuleOperandRole
unfolding role_dec
role_eq = record { dec = role_dec }

pub record MappingScopeRuleOperand : Type 0 where
  pub id : ℕ
  pub mapping_scope_rule_id : ℕ
  pub role : MappingScopeRuleOperandRole
  pub mapping_entity_result_id : ℕ

pub record MappingScopeRule : Type 0 where
  pub id : ℕ
  pub mapping_scope_id : ℕ
  pub canonical_rule_id : ℕ
  pub name : Text
  pub action : MappingScopeRuleAction
  pub priority : ℕ
  pub operands : Option (List MappingScopeRuleOperand)

pub record MappingScope : Type 0 where
  pub id : ℕ
  pub title : Text
  pub canonical_snapshot_id : ℕ
  pub csp_profile_id : ℕ
  pub vpc_id : Text
  pub sdwan_target_id : Text
  pub rules_priority : MappingScopeRulesPriority
  pub catalog_fingerprint : Text
  pub created_at : ℕ
  pub rules : Option (List MappingScopeRule)

pub record MappingEntityCandidate : Type 0 where
  pub id : ℕ
  pub result_id : ℕ
  pub rank : ℕ
  pub score : ℕ
  pub strategy : CandidateMatchStrategy
  pub sdwan_entity_id : ℕ

pub record MappingEntityCandidatePayload : Type 0 where
  pub rank : ℕ
  pub score : ℕ
  pub strategy : CandidateMatchStrategy
  pub sdwan_entity_id : ℕ

pub record MappingEntityResult : Type 0 where
  pub id : ℕ
  pub mapping_scope_id : ℕ
  pub entity_type : MappingEntityType
  pub canonical_zone_id : Option ℕ
  pub canonical_object_id : Option ℕ
  pub result_status : MappingResultStatus
  pub selection_method : Option SdwanObjectSelectionMethod
  pub selected_sdwan_entity_id : Option ℕ
  pub created_at : ℕ
  pub candidates : Option (List MappingEntityCandidate)

-- The `ValueError`s of the entity.
pub data EntityError : Type 0 where
  no_zone_id no_object_id foreign_candidate : EntityError

-- `canonical_entity_id`
unfoldable pub canonical_entity_id : MappingEntityType → MappingEntityResult → Result EntityError ℕ
canonical_entity_id zone r = elim r.canonical_zone_id [ none ↦ err no_zone_id | some id ↦ ok id ]
canonical_entity_id addr r = elim r.canonical_object_id [
  | none ↦ err no_object_id
  | some id ↦ ok id
]
canonical_entity_id service r = elim r.canonical_object_id [
  | none ↦ err no_object_id
  | some id ↦ ok id
]

-- `_resolve_canonical_ids_fields`
unfoldable pub resolve_canonical_ids_fields : MappingEntityType → ℕ → Option ℕ × Option ℕ
resolve_canonical_ids_fields zone id = (some id, none)
resolve_canonical_ids_fields addr id = (none, some id)
resolve_canonical_ids_fields service id = (none, some id)

-- What the creating methods share: the identity of the result.
pub record Origin : Type 0 where
  pub id : ℕ
  pub now : ℕ
  pub mapping_scope_id : ℕ
  pub entity_type : MappingEntityType
  pub canonical_entity_id : ℕ

unfoldable pub create_unresolved : Origin → MappingEntityResult
unfolding resolve_canonical_ids_fields
create_unresolved o =
    let (cz_id, co_id) = resolve_canonical_ids_fields o.entity_type o.canonical_entity_id in
    record {
      id = o.id;
      mapping_scope_id = o.mapping_scope_id;
      entity_type = o.entity_type;
      canonical_zone_id = cz_id;
      canonical_object_id = co_id;
      result_status = unresolved;
      selection_method = none;
      selected_sdwan_entity_id = none;
      created_at = o.now;
      candidates = some [];
    }

-- `MappingEntityCandidate.create` for each payload, with consecutive fresh identifiers
unfoldable pub create_candidates :
    ℕ → ℕ → List MappingEntityCandidatePayload → List MappingEntityCandidate
create_candidates result_id fresh [] = []
create_candidates result_id fresh (p ∷ ps) =
    record {
      id = fresh;
      result_id = result_id;
      rank = p.rank;
      score = p.score;
      strategy = p.strategy;
      sdwan_entity_id = p.sdwan_entity_id;
    }
    ∷ create_candidates result_id (fresh + 1) ps

unfoldable pub create_ambiguous :
    Origin → ℕ → List MappingEntityCandidatePayload → MappingEntityResult
unfolding resolve_canonical_ids_fields create_candidates
create_ambiguous o fresh payloads =
    let (cz_id, co_id) = resolve_canonical_ids_fields o.entity_type o.canonical_entity_id in
    record {
      id = o.id;
      mapping_scope_id = o.mapping_scope_id;
      entity_type = o.entity_type;
      canonical_zone_id = cz_id;
      canonical_object_id = co_id;
      result_status = ambiguous;
      selection_method = none;
      selected_sdwan_entity_id = none;
      created_at = o.now;
      candidates = some (create_candidates o.id fresh payloads);
    }

unfoldable pub create_matched_auto :
    Origin → ℕ → MappingEntityCandidatePayload → MappingEntityResult
unfolding resolve_canonical_ids_fields create_candidates
create_matched_auto o fresh payload =
    let (cz_id, co_id) = resolve_canonical_ids_fields o.entity_type o.canonical_entity_id in
    record {
      id = o.id;
      mapping_scope_id = o.mapping_scope_id;
      entity_type = o.entity_type;
      canonical_zone_id = cz_id;
      canonical_object_id = co_id;
      result_status = matched;
      selection_method = some auto_selected;
      selected_sdwan_entity_id = some payload.sdwan_entity_id;
      created_at = o.now;
      candidates = some (create_candidates o.id fresh (payload ∷ []));
    }

-- The arguments are the identifier, the time, the scope and the zone.
unfoldable pub create_zone_manually_assigned : ℕ → ℕ → ℕ → ℕ → MappingEntityResult
create_zone_manually_assigned id now mapping_scope_id sdwan_zone_id = record {
  id = id;
  mapping_scope_id = mapping_scope_id;
  entity_type = zone;
  canonical_zone_id = none;
  canonical_object_id = none;
  result_status = matched;
  selection_method = some manual_direct;
  selected_sdwan_entity_id = some sdwan_zone_id;
  created_at = now;
  candidates = none;
}

unfoldable pub select_candidate :
    MappingEntityResult → MappingEntityCandidate → Result EntityError MappingEntityResult
unfolding nat_eq
select_candidate r candidate =
    if candidate.result_id == r.id
    then ok (record r {
      result_status = matched;
      selection_method = some manual_candidate;
      selected_sdwan_entity_id = some candidate.sdwan_entity_id;
    })
    else err foreign_candidate

unfoldable pub select_direct : MappingEntityResult → ℕ → MappingEntityResult
select_direct r sdwan_entity_id = record r {
  result_status = matched;
  selection_method = some manual_direct;
  selected_sdwan_entity_id = some sdwan_entity_id;
}

unfoldable pub select_created : MappingEntityResult → ℕ → MappingEntityResult
select_created r sdwan_entity_id = record r {
  result_status = matched;
  selection_method = some auto_created;
  selected_sdwan_entity_id = some sdwan_entity_id;
}
