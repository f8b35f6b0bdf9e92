-- ===== src/Tests/Catalog.antt =====
-- The catalog and its hashes on small inputs.
use mathlib.Core.List.{Permᴰ}
use nsp_migrator.Prelude.{◌≡◌, ◌≢◌, ◌↔◌, refl, List, [], ◌∷◌, Elem}
use nsp_migrator.Prelude.Eq.{nat_eq}
use nsp_migrator.Prelude.Dict.{get_list}
use nsp_migrator.Prelude.Result.{err}
use nsp_migrator.Prelude.Text.{codes}
use nsp_migrator.Hash.{atom, list, nil, cons, json_hash}
use nsp_migrator.Hash.Order.{swap, json_hash-reorder}
use nsp_migrator.Catalog.{SdwanZone, SdwanAddrObject}
use nsp_migrator.Catalog.Groups.{resolve_leaves, leaves_resolver, out_of_fuel}
use nsp_migrator.Catalog.Groups.Leaves.{Reaches, resolve_leaves_exact}
use nsp_migrator.Catalog.Groups.Links.{children_exact}
use nsp_migrator.Catalog.Groups.Nesting.{resolve_leaves_ends}
use nsp_migrator.Catalog.Fingerprint.{SdwanFullCatalog, get_fingerprint}
use nsp_migrator.Catalog.Fingerprint.Reorder.{get_fingerprint-perm}
use nsp_migrator.Mapping.Entities.Selection.{}
use nsp_migrator.Prelude.Dict.{insert}
use native.Mathlib.Decide.{ℕ_discrete}
use nsp_migrator.Tests.Data.{plain, inside, outside, full_catalog, groups, objects, office}

-- The sites are the office.
resolve_leaves_exact_example :
    ((o : SdwanAddrObject) → Elem o (office ∷ []) ↔ Reaches groups o 1) × ((office ∷ []) ≢ [])
unfolding resolve_leaves leaves_resolver insert ℕ_discrete
resolve_leaves_exact_example = resolve_leaves_exact groups 1 (office ∷ []) refl

children_exact_example :
    Elem office (get_list 1 (leaves_resolver objects).children_by_parent)
    ↔ (Elem office objects × Elem 1 office.parents)
children_exact_example = children_exact objects office 1

resolve_leaves_ends_example : resolve_leaves groups 1 ≢ err out_of_fuel
resolve_leaves_ends_example = resolve_leaves_ends groups 1

json_hash-reorder_example :
    json_hash plain (list (cons (atom (codes "a")) (cons (atom (codes "b")) nil)))
    ≡ json_hash plain (list (cons (atom (codes "b")) (cons (atom (codes "a")) nil)))
json_hash-reorder_example = json_hash-reorder plain (swap (atom (codes "a")) (atom (codes "b")))

abbrev zones_of : List SdwanZone → SdwanFullCatalog
zones_of zs = record full_catalog { zones = zs }

get_fingerprint-perm_example :
    get_fingerprint plain (zones_of (inside ∷ outside ∷ []))
    ≡ get_fingerprint plain (zones_of (outside ∷ inside ∷ []))
get_fingerprint-perm_example =
    get_fingerprint-perm plain (zones_of (inside ∷ outside ∷ [])) (zones_of (outside ∷ inside ∷ []))
      (Permᴰ.swap refl refl) Permᴰ.nil Permᴰ.nil Permᴰ.nil
