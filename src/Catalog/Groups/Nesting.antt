-- ===== src/Catalog/Groups/Nesting.antt =====
-- The nesting limit of `resolve_leaves` ends the recursion.
use nsp_migrator.Prelude.{ℕ, zero, suc, ◌+◌, ◌≡◌, ◌≢◌, inl, inr, List, [], ◌∷◌, arith, Option-cases}
use nsp_migrator.Prelude.Eq.{nat_eq}
use nsp_migrator.Prelude.Dict.{lookup, get_list}
use nsp_migrator.Prelude.Result.{err}
use nsp_migrator.Catalog.{SdwanAddrObject, type_eq}
use nsp_migrator.Catalog.Groups.{
  LeavesResolver, out_of_fuel, Resolve, group_id, leaves_of_children, check_leaves, expand_children,
  resolve_object, resolve_level, resolve_leaves,
}

module _ (resolve : Resolve) (ends : (id : ℕ) → resolve id ≢ err out_of_fuel) where
  leaves_of_children_ends :
      (self : ℕ) (cs : List SdwanAddrObject) → leaves_of_children resolve self cs ≢ err out_of_fuel
  unfolding leaves_of_children
  leaves_of_children_ends self [] h = cc
  leaves_of_children_ends self (c ∷ cs) h =
      ground (arith, leaves_of_children_ends self cs, ends c.id)

  expand_children_ends :
      (o : SdwanAddrObject) (cs : List SdwanAddrObject)
      → expand_children resolve o cs ≢ err out_of_fuel
  unfolding expand_children check_leaves
  expand_children_ends o [] h = cc
  expand_children_ends o (c ∷ cs) h = ground (arith, leaves_of_children_ends o.id (c ∷ cs))

resolve_level_ends :
    (r : LeavesResolver) (fuel level id : ℕ)
    → level + suc fuel ≡ 4
    → resolve_level r (suc fuel) level id ≢ err out_of_fuel
unfolding resolve_level resolve_object
resolve_level_ends r zero level id e h = ground arith
resolve_level_ends r (suc f) level id e h = elim (Option-cases (lookup id r.objects_by_id)) [
  | inl missing ↦ ground arith
  | inr (o, found) ↦ ground (
    arith,
    expand_children_ends (resolve_level r (suc f) (level + 1))
        (λ c. resolve_level_ends r f (level + 1) c (omega arith)) o
        (get_list (group_id o) r.children_by_parent),
  )
]

-- The expansion of any object of any catalog, also one with cyclic groups, ends: the fuel of four
-- calls is never used up.
pub resolve_leaves_ends : (r : LeavesResolver) (id : ℕ) → resolve_leaves r id ≢ err out_of_fuel
unfolding resolve_leaves
resolve_leaves_ends r id = resolve_level_ends r 3 0 id (omega arith)
