-- ===== src/Cisco/Zones.antt =====
-- The zones of an access list, by its bindings and by its name
-- (src/app/modules/imports/cisco_asa/parsing/extractors/zones.py). A pattern over white space is
-- matched on the words of a line.
use nsp_migrator.Prelude.{
  Bool, true, false, ◌&&◌, ◌||◌, not, Option, none, some, List, [], ◌∷◌, ◌++◌, leb, map,
  if◌then◌else◌,
}
use nsp_migrator.Prelude.Eq.{◌==◌, contains, list_eq, nat_eq}
use nsp_migrator.Prelude.Dict.{Dict, lookup, append_at, get_list}
use nsp_migrator.Prelude.Text.{Text, codes, lower, words, split, truthy}
use nsp_migrator.Cisco.Config.{
  AclBindingType, ZoneInferenceStatus, interface, global, directional, global_scope,
}
use nsp_migrator.Cisco.Tree.{ConfigNode, stripped}
use nsp_migrator.Cisco.Index.{AsaIndex}

pub record ZoneResolution : Type 0 where
  pub src_zone : Option Text
  pub dst_zone : Option Text
  pub unresolved : Bool
  pub binding_type : AclBindingType
  pub zone_inference_status : ZoneInferenceStatus
  pub binding_interface : Option Text
  pub binding_direction : Option Text
  pub binding_context_key : Text

pub record ZoneResolver : Type 0 where
  pub iface_to_zone : Dict Text Text
  pub acl_to_iface : Dict Text (List (Text × Text))
  pub acl_global : List Text

-- `_ACCESS_GROUP_GLOBAL_RE`
abbrev global_acl : List Text → Option Text
unfolding lower list_eq nat_eq
global_acl (group ∷ acl ∷ word ∷ []) =
    if lower group == codes "access-group" && lower word == codes "global" then some acl else none
global_acl [] = none
global_acl (_ ∷ []) = none
global_acl (_ ∷ _ ∷ []) = none
global_acl (_ ∷ _ ∷ _ ∷ _ ∷ _) = none

-- `_ACCESS_GROUP_RE`: the list, the interface and the direction in lower case
abbrev bound_acl : List Text → Option (Text × (Text × Text))
unfolding lower list_eq nat_eq
bound_acl (group ∷ acl ∷ direction ∷ word ∷ iface ∷ _) =
    if (lower group == codes "access-group" && lower word == codes "interface")
      && (lower direction == codes "in" || lower direction == codes "out")
    then some (acl, (iface, lower direction))
    else none
bound_acl [] = none
bound_acl (_ ∷ []) = none
bound_acl (_ ∷ _ ∷ []) = none
bound_acl (_ ∷ _ ∷ _ ∷ []) = none
bound_acl (_ ∷ _ ∷ _ ∷ _ ∷ []) = none

-- one node of `from_tree`
unfoldable pub scan_binding : ConfigNode → ZoneResolver → ZoneResolver
unfolding stripped split lower append_at list_eq nat_eq
scan_binding node zones =
    let s = words (stripped node.line) in
    elim (global_acl s) [
      | some acl ↦ record zones { acl_global = acl ∷ zones.acl_global }
      | none ↦ elim (bound_acl s) [
        | none ↦ zones
        | some (acl, binding) ↦ record zones {
          acl_to_iface = append_at acl binding zones.acl_to_iface;
        }
      ]
    ]

unfoldable pub scan_bindings : List ConfigNode → ZoneResolver → ZoneResolver
unfolding scan_binding
scan_bindings [] zones = zones
scan_bindings (node ∷ nodes) zones = scan_bindings nodes (scan_binding node zones)

-- `ZoneResolver.from_tree`
unfoldable pub zones_from_tree : List ConfigNode → AsaIndex → ZoneResolver
unfolding scan_bindings
zones_from_tree nodes index =
    scan_bindings nodes
      (record { iface_to_zone = index.interfaces_nameif; acl_to_iface = []; acl_global = [] })

-- The parts of a name between the characters `_` and `-`.
unfoldable pub name_parts : Text → Text → List Text
unfolding nat_eq
name_parts part [] = part ∷ []
name_parts part (c ∷ s) =
    let rest = name_parts [] s in
    let longer = name_parts (part ++ (c ∷ [])) s in
    if c == b'_' || c == b'-' then part ∷ rest else longer

abbrev is_alnum : Text → Bool
is_alnum [] = true
is_alnum (c ∷ s) =
    ((leb b'a' c && leb c b'z') || ((leb b'A' c && leb c b'Z') || (leb b'0' c && leb c b'9')))
    && is_alnum s

-- `[A-Z0-9]+`, without regard to case
abbrev is_zone_word : Text → Bool
is_zone_word [] = false
is_zone_word (c ∷ s) = is_alnum (c ∷ s)

abbrev between : Text → Text → Text → Option (Text × Text)
unfolding lower list_eq nat_eq
between src to dst =
    if lower to == codes "to" && (is_zone_word src && is_zone_word dst)
    then some (lower src, lower dst)
    else none

-- `_ACL_NAME_ZONE_RE`: a name of three parts, or of four of which the first is `ACL`
abbrev zones_of_parts : List Text → Option (Text × Text)
unfolding lower list_eq nat_eq
zones_of_parts (src ∷ to ∷ dst ∷ []) = between src to dst
zones_of_parts (acl ∷ src ∷ to ∷ dst ∷ []) =
    if lower acl == codes "acl" then between src to dst else none
zones_of_parts [] = none
zones_of_parts (_ ∷ []) = none
zones_of_parts (_ ∷ _ ∷ []) = none
zones_of_parts (_ ∷ _ ∷ _ ∷ _ ∷ _ ∷ _) = none

-- `_infer_from_acl_name`
unfoldable pub infer_from_acl_name : Text → Option Text × Option Text
unfolding name_parts lower list_eq nat_eq
infer_from_acl_name acl_name = elim (zones_of_parts (name_parts [] acl_name)) [
  | none ↦ (none, none)
  | some (src, dst) ↦ (some src, some dst)
]

-- `a or b`, of optional texts
abbrev pub or_text : Option Text → Option Text → Option Text
or_text a b = elim (truthy a) [ none ↦ b | some t ↦ some t ]

abbrev pub is_truthy : Option Text → Bool
is_truthy a = elim (truthy a) [ none ↦ false | some t ↦ true ]

abbrev pub global_resolution : ZoneResolution
global_resolution = record {
  src_zone = none;
  dst_zone = none;
  unresolved = false;
  binding_type = global;
  zone_inference_status = global_scope;
  binding_interface = none;
  binding_direction = none;
  binding_context_key = codes "global";
}

-- the body of the loop over the bindings of a list
unfoldable pub interface_resolution :
    ZoneResolver → Option Text × Option Text → Text × Text → ZoneResolution
unfolding lookup list_eq nat_eq
interface_resolution zones (inferred_src, inferred_dst) (iface, direction) =
    let z = truthy (lookup iface zones.iface_to_zone) in
    let inward = direction == codes "in" in
    let src_zone = or_text (if inward then none else z) inferred_src in
    let dst_zone = or_text (if inward then z else none) inferred_dst in
    record {
      src_zone = src_zone;
      dst_zone = dst_zone;
      unresolved = not (is_truthy src_zone || is_truthy dst_zone);
      binding_type = interface;
      zone_inference_status = directional;
      binding_interface = some iface;
      binding_direction = some direction;
      binding_context_key = codes "interface:" ++ (iface ++ (codes ":" ++ direction));
    }

-- the resolution of a list that is not bound
unfoldable pub unbound_resolution : Option Text × Option Text → ZoneResolution
unbound_resolution (inferred_src, inferred_dst) =
    if is_truthy inferred_src || is_truthy inferred_dst
    then record {
      src_zone = inferred_src;
      dst_zone = inferred_dst;
      unresolved = false;
      binding_type = AclBindingType.unknown;
      zone_inference_status = directional;
      binding_interface = none;
      binding_direction = none;
      binding_context_key = codes "inferred";
    }
    else record {
      src_zone = none;
      dst_zone = none;
      unresolved = true;
      binding_type = AclBindingType.unknown;
      zone_inference_status = ZoneInferenceStatus.unknown;
      binding_interface = none;
      binding_direction = none;
      binding_context_key = codes "unbound";
    }

-- `results`, or the fallback if there are none
unfoldable pub or_unbound : List ZoneResolution → Option Text × Option Text → List ZoneResolution
unfolding unbound_resolution
or_unbound [] inferred = unbound_resolution inferred ∷ []
or_unbound (r ∷ rs) inferred = r ∷ rs

-- `resolve_all`
unfoldable pub resolve_all : ZoneResolver → Text → List ZoneResolution
unfolding infer_from_acl_name interface_resolution or_unbound lookup list_eq nat_eq
resolve_all zones acl_name =
    let inferred = infer_from_acl_name acl_name in
    let bound = map (interface_resolution zones inferred) (get_list acl_name zones.acl_to_iface) in
    or_unbound (if contains acl_name zones.acl_global then global_resolution ∷ bound else bound)
      inferred
