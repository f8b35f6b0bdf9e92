-- ===== src/Execute/Rules.antt =====
-- Enumerations and value objects of the execute domain
-- (src/app/modules/execute/domain/enums.py and value_objects.py).
use nsp_migrator.Prelude.{ℕ, List}
use native.Mathlib.Decide.{ℕ_discrete}
use nsp_migrator.Prelude.Eq.{Eq}
use nsp_migrator.Prelude.Text.{Text}
use nsp_migrator.Catalog.{SdwanZone, SdwanService, SdwanAddrObject}

pub data RuleMatchStatus : Type 0 where
  exact_match covered_match new match_error : RuleMatchStatus

pub data RulePushStatus : Type 0 where
  pending succeeded failed : RulePushStatus

pub data ExecutePlanPushStatus : Type 0 where
  pending executed : ExecutePlanPushStatus

pub data CoverageField : Type 0 where
  src_addr_objects dst_addr_objects services : CoverageField

pub data SdwanRuleAction : Type 0 where
  accept reject drop : SdwanRuleAction

match_status_dec : Discrete RuleMatchStatus
match_status_dec = hlevel

push_status_dec : Discrete RulePushStatus
push_status_dec = hlevel

action_dec : Discrete SdwanRuleAction
action_dec = hlevel

instance unfoldable pub match_status_eq : Eq RuleMatchStatus
unfolding match_status_dec
match_status_eq = record { dec = match_status_dec }

instance unfoldable pub push_status_eq : Eq RulePushStatus
unfolding push_status_dec
push_status_eq = record { dec = push_status_dec }

instance unfoldable pub action_eq : Eq SdwanRuleAction
unfolding action_dec
action_eq = record { dec = action_dec }

pub record RuleBody : Type 0 where
  pub action : SdwanRuleAction
  pub src_zones : List ℕ
  pub dst_zones : List ℕ
  pub src_addr_objects : List ℕ
  pub dst_addr_objects : List ℕ
  pub services : List ℕ

pub record PlannedRuleDraft : Type 0 where
  pub body : RuleBody
  pub open body use *
  pub name : Text

pub record SdwanRule : Type 0 where
  pub body : RuleBody
  pub open body use *
  pub id : ℕ

pub record SdwanPolicyCatalog : Type 0 where
  pub target_id : Text
  pub rules : List SdwanRule
  pub zones : List SdwanZone
  pub services : List SdwanService
  pub address_objects : List SdwanAddrObject

pub record CoverageValue : Type 0 where
  pub object_id : ℕ
  pub object_name : Text
  pub value : Text

pub record CoverageDetail : Type 0 where
  pub field : CoverageField
  pub covering_value : CoverageValue
  pub covered_values : List CoverageValue

-- Two values of coverage evidence are the same when all their fields are.
coverage_value_dec : Discrete CoverageValue
coverage_value_dec = hlevel (ℕ_discrete)

instance unfoldable pub coverage_value_eq : Eq CoverageValue
unfolding coverage_value_dec
coverage_value_eq = record { dec = coverage_value_dec }
