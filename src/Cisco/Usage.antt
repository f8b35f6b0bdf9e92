-- ===== src/Cisco/Usage.antt =====
-- What an access list is used for
-- (src/app/modules/imports/cisco_asa/parsing/extractors/usage.py).
use nsp_migrator.Prelude.{ℕ, Option, none, some, List, [], ◌∷◌, if◌then◌else◌}
use nsp_migrator.Prelude.Eq.{contains, list_eq, nat_eq}
use nsp_migrator.Prelude.Dict.{Dict, lookup, get_list}
use nsp_migrator.Prelude.Text.{Text, codes, lower, words, split, starts_with}
use nsp_migrator.Cisco.Config.{
  AclUsageType, firewall_policy, crypto_map_selector, unknown, conflict, CryptoMapLink,
}
use nsp_migrator.Cisco.Tree.{ConfigNode, stripped}
use nsp_migrator.Cisco.Index.{AsaIndex}

pub record AclUsageResolution : Type 0 where
  pub usage_type : AclUsageType
  pub crypto_map_name : Option Text
  pub crypto_map_seq : Option ℕ
  pub crypto_map_source_line : Option ℕ

pub record AclUsageClassifier : Type 0 where
  pub firewall_acls : List Text
  pub crypto_map_by_acl : Dict Text (List CryptoMapLink)

abbrev second : List Text → Option Text
second (_ ∷ t ∷ _) = some t
second [] = none
second (_ ∷ []) = none

-- the set of the access lists that an `access-group` names
unfoldable pub firewall_acls_of : List ConfigNode → List Text
unfolding stripped lower starts_with split
firewall_acls_of [] = []
firewall_acls_of (node ∷ nodes) =
    let rest = firewall_acls_of nodes in
    if starts_with (codes "access-group ") (lower (stripped node.line))
    then (elim (second (words (stripped node.line))) [ none ↦ rest | some acl ↦ acl ∷ rest ])
    else rest

-- `AclUsageClassifier.from_tree`
unfoldable pub usage_from_tree : List ConfigNode → AsaIndex → AclUsageClassifier
unfolding firewall_acls_of
usage_from_tree nodes index = record {
  firewall_acls = firewall_acls_of nodes;
  crypto_map_by_acl = index.crypto_map_by_acl;
}

abbrev linked_usage : AclUsageType → CryptoMapLink → AclUsageResolution
linked_usage usage_type link = record {
  usage_type = usage_type;
  crypto_map_name = some link.map_name;
  crypto_map_seq = some link.sequence;
  crypto_map_source_line = some link.source_line;
}

abbrev plain_usage : AclUsageType → AclUsageResolution
plain_usage usage_type = record {
  usage_type = usage_type;
  crypto_map_name = none;
  crypto_map_seq = none;
  crypto_map_source_line = none;
}

-- `resolve`; its last test of the links is reached by none
unfoldable pub resolve_usage : AclUsageClassifier → Text → AclUsageResolution
unfolding lookup list_eq nat_eq
resolve_usage usage acl_name =
    let is_firewall = contains acl_name usage.firewall_acls in
    elim (get_list acl_name usage.crypto_map_by_acl) [
      | [] ↦ if is_firewall then plain_usage firewall_policy else plain_usage unknown
      | ◌∷◌ link _ ↦
          if is_firewall then linked_usage conflict link else linked_usage crypto_map_selector link
    ]
