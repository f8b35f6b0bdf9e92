-- ===== src/Cisco/Processing/Eligible.antt =====
-- Which extracted rules may be applied without asking.
use nsp_migrator.Prelude.{
  ◌≡◌, ◌⊎◌, refl, inl, inr, Bool, true, false, ◌&&◌, ◌||◌, not, Option, List, [], ◌∷◌, ◌++◌, map,
  Elem, All, All-Elem, Bool-cases,
}
use nsp_migrator.Prelude.Eq.{◌==◌, contains, list_eq, nat_eq}
use nsp_migrator.Prelude.Dict.{get_list}
use nsp_migrator.Prelude.Text.{Text}
use nsp_migrator.Cisco.Config.{
  ParsedAccessRule, AclUsageType, AclBindingType, ZoneInferenceStatus, IssueReasonCode,
  RuleProcessingStatus, CryptoMapLink, usage_type_eq, inference_status_eq,
}
use nsp_migrator.Cisco.Tree.{ConfigNode}
use nsp_migrator.Cisco.Zones.{
  ZoneResolution, ZoneResolver, is_truthy, global_resolution, interface_resolution,
  unbound_resolution, or_unbound, resolve_all, infer_from_acl_name,
}
use nsp_migrator.Cisco.Usage.{AclUsageClassifier, resolve_usage}
use nsp_migrator.Cisco.Acls.{parsed_rule, extract_rules}
use nsp_migrator.Cisco.Acls.Extracted.{rule_of, extract_rules_exact}
use nsp_migrator.Cisco.Processing.{reason_when, processed, skip_reasons, resolve_rule_processing}

abbrev pub is_global : AclBindingType → Bool
is_global AclBindingType.global = true
is_global AclBindingType.interface = false
is_global AclBindingType.unknown = false

-- The status of a resolution and its binding agree, and it is unresolved without a zone only.
unfoldable IsConsistent : ZoneResolution → Type 0
unfolding inference_status_eq
IsConsistent z =
    ((z.zone_inference_status == ZoneInferenceStatus.global_scope) ≡ is_global z.binding_type)
    × (z.unresolved
        ≡ (not (is_global z.binding_type) && not (is_truthy z.src_zone || is_truthy z.dst_zone)))

unbound_resolution-IsConsistent :
    (inferred : Option Text × Option Text) → IsConsistent (unbound_resolution inferred)
unfolding unbound_resolution inference_status_eq IsConsistent
unbound_resolution-IsConsistent (src, dst) = elim (Bool-cases (is_truthy src || is_truthy dst)) [
  | inl t ↦ rw (t, unbound_resolution) (refl, rw t refl)
  | inr t ↦ rw (t, unbound_resolution) (refl, refl)
]

interfaces-IsConsistent :
    (zones : ZoneResolver) (inferred : Option Text × Option Text) (bindings : List (Text × Text))
    → All IsConsistent (map (interface_resolution zones inferred) bindings)
unfolding interface_resolution inference_status_eq IsConsistent
interfaces-IsConsistent zones inferred [] = tt
interfaces-IsConsistent zones inferred (b ∷ bs) =
    ((refl, refl), interfaces-IsConsistent zones inferred bs)

or_unbound-IsConsistent :
    (rs : List ZoneResolution) (inferred : Option Text × Option Text)
    → All IsConsistent rs
    → All IsConsistent (or_unbound rs inferred)
unfolding or_unbound
or_unbound-IsConsistent [] inferred h = (unbound_resolution-IsConsistent inferred, tt)
or_unbound-IsConsistent (r ∷ rs) inferred h = h

resolve_all-IsConsistent :
    (zones : ZoneResolver) (acl : Text) → All IsConsistent (resolve_all zones acl)
unfolding resolve_all inference_status_eq IsConsistent
resolve_all-IsConsistent zones acl =
    let inferred = infer_from_acl_name acl in
    let bindings = get_list acl zones.acl_to_iface in
    let rs : List ZoneResolution = map (interface_resolution zones inferred) bindings in
    let bound : All IsConsistent rs = interfaces-IsConsistent zones inferred bindings in
    let all : All IsConsistent (global_resolution ∷ rs) = ((refl, refl), bound) in
    elim (Bool-cases (contains acl zones.acl_global)) [
      | inl t ↦ rw (t, resolve_all) (or_unbound-IsConsistent (global_resolution ∷ rs) inferred all)
      | inr t ↦ rw (t, resolve_all) (or_unbound-IsConsistent rs inferred bound)
    ]

abbrev pub no_links : List CryptoMapLink → Bool
no_links [] = true
no_links (_ ∷ _) = false

links-cases :
    (links : List CryptoMapLink)
    → (links ≡ [])
      ⊎ ((link : CryptoMapLink) × (more : List CryptoMapLink) × (links ≡ (link ∷ more)))
links-cases [] = inl refl
links-cases (link ∷ more) = inr (link, more, refl)

-- A list is no selector and in no conflict exactly if no crypto map names it.
resolve_usage-links :
    (usage : AclUsageClassifier) (acl : Text)
    → (not ((resolve_usage usage acl).usage_type == AclUsageType.crypto_map_selector)
        && not ((resolve_usage usage acl).usage_type == AclUsageType.conflict))
      ≡ no_links (get_list acl usage.crypto_map_by_acl)
unfolding resolve_usage usage_type_eq
resolve_usage-links usage acl = elim (links-cases (get_list acl usage.crypto_map_by_acl)) [
  | inl e ↦ elim (Bool-cases (contains acl usage.firewall_acls)) [
    | inl t ↦ rw (e, t, resolve_usage) refl
    | inr t ↦ rw (e, t, resolve_usage) refl
  ]
  | inr (link, more, e) ↦ elim (Bool-cases (contains acl usage.firewall_acls)) [
    | inl t ↦ rw (e, t, resolve_usage) refl
    | inr t ↦ rw (e, t, resolve_usage) refl
  ]
]

-- the third part of the outcome of `resolve_rule_processing`
abbrev pub auto_apply_eligible : RuleProcessingStatus × (List IssueReasonCode × Bool) → Bool
auto_apply_eligible (_, (_, eligible)) = eligible

processed-reason_when :
    (b : Bool) (code : IssueReasonCode) (codes : List IssueReasonCode)
    → auto_apply_eligible (processed (reason_when b code ++ codes))
      ≡ (not b && auto_apply_eligible (processed codes))
processed-reason_when true code codes = refl
processed-reason_when false code codes = refl

processed-last :
    (b : Bool) (code : IssueReasonCode)
    → auto_apply_eligible (processed (reason_when b code)) ≡ not b
processed-last true code = refl
processed-last false code = refl

resolve_rule_processing-eligible :
    (rule : ParsedAccessRule) (blocked : Bool)
    → auto_apply_eligible (resolve_rule_processing rule blocked) ≡ (
        not (rule.acl_usage_type == AclUsageType.crypto_map_selector)
        && (not (rule.acl_usage_type == AclUsageType.conflict)
            && (not (rule.zone_inference_status == ZoneInferenceStatus.global_scope)
                && (not (
                      rule.unresolved_zone
                      && not (rule.zone_inference_status == ZoneInferenceStatus.global_scope))
                    && not blocked))))
unfolding resolve_rule_processing skip_reasons
resolve_rule_processing-eligible rule blocked =
    rw
      (
        resolve_rule_processing, skip_reasons, processed-reason_when, processed-reason_when,
        processed-reason_when, processed-reason_when, processed-last,
      )
      refl

eligible_tests :
    (a b g s blocked : Bool)
    → (a && (b && (not g && (not ((not g && not s) && not g) && not blocked))))
      ≡ ((a && b) && (not g && (s && not blocked)))
eligible_tests false b g s blocked = refl
eligible_tests true false g s blocked = refl
eligible_tests true true true s blocked = refl
eligible_tests true true false true blocked = refl
eligible_tests true true false false blocked = refl

-- An extracted rule may be applied without asking exactly if no crypto map names its list, it is not
-- bound globally, one of its zones is known, and nothing blocks its protocol.
pub resolve_rule_processing-extract_rules :
    (zones : ZoneResolver) (usage : AclUsageClassifier) (nodes : List ConfigNode)
    (r : ParsedAccessRule) (blocked : Bool)
    → Elem r (extract_rules zones usage 0 nodes)
    → auto_apply_eligible (resolve_rule_processing r blocked) ≡ (
        no_links (get_list r.acl_name usage.crypto_map_by_acl)
        && (not (is_global r.acl_binding_type)
            && ((is_truthy r.src_zone || is_truthy r.dst_zone) && not blocked)))
unfolding parsed_rule rule_of IsConsistent inference_status_eq
resolve_rule_processing-extract_rules zones usage nodes r blocked m =
    let (node, line, order, zone, _, _, found, e) = (extract_rules_exact zones usage nodes).0 r m in
    let (status, unresolved) =
      All-Elem IsConsistent zone (resolve_all zones line.acl)
        (resolve_all-IsConsistent zones line.acl) found in
    rw
      (
        e,
        resolve_rule_processing-eligible (rule_of zones usage node line order zone) blocked,
        status,
        unresolved,
        eligible_tests,
        resolve_usage-links usage line.acl,
      )
      refl
