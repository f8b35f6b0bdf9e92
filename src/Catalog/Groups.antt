-- ===== src/Catalog/Groups.antt =====
-- Expansion of address groups
-- (src/app/integrations/sdwan_csp_api/gateways/address_group_resolver.py).
-- The recursion takes fuel, one unit for each nested call.
pub mod Leaves
pub mod Links
pub mod Nesting
use nsp_migrator.Prelude.{
  ℕ, zero, suc, ◌+◌, Option, none, some, List, [], ◌∷◌, ◌++◌, not, ltb, if◌then◌else◌,
}
use nsp_migrator.Prelude.Eq.{◌==◌, nat_eq}
use nsp_migrator.Prelude.Dict.{Dict, lookup, index_by, append_at, get_list}
use nsp_migrator.Prelude.Result.{Result, ok, err, ◌>>=◌}
use nsp_migrator.Catalog.{SdwanAddrObject, SdwanAddrObjectType, addr_group, type_eq}

abbrev pub max_addr_group_nesting_level : ℕ
max_addr_group_nesting_level = 3

-- `SDWANAddressGroupResolutionError`, with what its text names. `out_of_fuel` is the model's own.
pub data GroupError : Type 0 where
  unknown_object : ℕ → GroupError
  nesting_exceeded : ℕ → Option ℕ → ℕ → GroupError
  no_children : ℕ → GroupError
  no_leaves : ℕ → GroupError
  out_of_fuel : GroupError

-- `SDWANAddressGroupLeavesResolver`
pub record LeavesResolver : Type 0 where
  pub objects_by_id : Dict ℕ SdwanAddrObject
  pub children_by_parent : Dict ℕ (List SdwanAddrObject)

-- the inner loop of `__init__`
unfoldable pub link_parents :
    SdwanAddrObject → List ℕ → Dict ℕ (List SdwanAddrObject) → Dict ℕ (List SdwanAddrObject)
link_parents o [] d = d
link_parents o (p ∷ ps) d = link_parents o ps (append_at p o d)

-- the outer loop of `__init__`
unfoldable pub link_all :
    List SdwanAddrObject → Dict ℕ (List SdwanAddrObject) → Dict ℕ (List SdwanAddrObject)
unfolding link_parents append_at nat_eq
link_all [] d = d
link_all (o ∷ os) d = link_all os (link_parents o o.parents d)

unfoldable pub leaves_resolver : List SdwanAddrObject → LeavesResolver
unfolding link_all index_by
leaves_resolver objects = record {
  objects_by_id = index_by (λ o. o.id) objects;
  children_by_parent = link_all objects [];
}

-- `address_object.addr_group or address_object.id`; a zero counts as false
unfoldable pub group_id : SdwanAddrObject → ℕ
group_id o = elim o.addr_group [ none ↦ o.id | some g ↦ if g == 0 then o.id else g ]

abbrev pub Resolve : Type 0
Resolve = ℕ → Result GroupError (List SdwanAddrObject)

-- the loop over the children of the object `self`
unfoldable pub leaves_of_children :
    Resolve → ℕ → List SdwanAddrObject → Result GroupError (List SdwanAddrObject)
leaves_of_children resolve self [] = ok []
leaves_of_children resolve self (child ∷ children) =
    let rest = leaves_of_children resolve self children in
    if child.id == self
    then rest
    else do leaves ← resolve child.id; more ← rest; ok (leaves ++ more)

unfoldable pub check_leaves : ℕ → List SdwanAddrObject → Result GroupError (List SdwanAddrObject)
check_leaves self [] = err (no_leaves self)
check_leaves self (leaf ∷ leaves) = ok (leaf ∷ leaves)

unfoldable pub expand_children :
    Resolve → SdwanAddrObject → List SdwanAddrObject → Result GroupError (List SdwanAddrObject)
unfolding group_id leaves_of_children check_leaves
expand_children resolve o [] = err (no_children (group_id o))
expand_children resolve o (c ∷ cs) = do
  leaves ← leaves_of_children resolve o.id (c ∷ cs)
  check_leaves o.id leaves

-- `_resolve_leaves` after the object is found
unfoldable pub resolve_object :
    LeavesResolver → Resolve → ℕ → SdwanAddrObject → Result GroupError (List SdwanAddrObject)
unfolding expand_children type_eq
resolve_object r resolve level o =
    if not (o.type == addr_group)
    then ok (o ∷ [])
    else if ltb max_addr_group_nesting_level (level + 1)
    then err (nesting_exceeded o.id o.addr_group (level + 1))
    else expand_children resolve o (get_list (group_id o) r.children_by_parent)

unfoldable pub resolve_level : LeavesResolver → ℕ → ℕ → ℕ → Result GroupError (List SdwanAddrObject)
unfolding resolve_object lookup nat_eq
resolve_level r zero level id = err out_of_fuel
resolve_level r (suc fuel) level id = elim (lookup id r.objects_by_id) [
  | none ↦ err (unknown_object id)
  | some o ↦ resolve_object r (resolve_level r fuel (level + 1)) level o
]

-- `resolve_leaves`
unfoldable pub resolve_leaves : LeavesResolver → ℕ → Result GroupError (List SdwanAddrObject)
unfolding resolve_level
resolve_leaves r id = resolve_level r 4 0 id
