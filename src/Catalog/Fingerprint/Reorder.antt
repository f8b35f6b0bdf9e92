-- ===== src/Catalog/Fingerprint/Reorder.antt =====
-- The fingerprint does not depend on the order in which the catalog is listed.
use mathlib.Core.List.{Permᴰ}
use nsp_migrator.Prelude.{◌≡◌, refl, ◌∙◌, sym, List, [], ◌∷◌, ◌++◌}
use nsp_migrator.Prelude.Text.{Text, codes, join}
use nsp_migrator.Hash.{Json, Items, Builtins, dumps_items, normalize_items, json_hash}
use nsp_migrator.Hash.Order.{Reorders, same, skip, swap, trans, dumps_items-normalize_items}
use nsp_migrator.Catalog.Fingerprint.{
  SdwanFullCatalog, items_of, get_fingerprint, zone_json, service_json, addr_object_json,
  network_json,
}

Reorders-items_of :
    {A : Type 0} (f : A → Json) {xs ys : List A}
    → Permᴰ xs ys
    → Reorders (items_of f xs) (items_of f ys)
unfolding items_of
Reorders-items_of f Permᴰ.nil = same
Reorders-items_of f (Permᴰ.cons {a = a} {l₂ = l₂} e p) =
    rw (← e) (skip (f a) (Reorders-items_of f p))
Reorders-items_of f (Permᴰ.swap {a = a} {b = b} e e') = rw (← e, ← e') (swap (f a) (f b))
Reorders-items_of f (Permᴰ.trans p q) = trans (Reorders-items_of f p) (Reorders-items_of f q)

module _ (b : Builtins) where
  -- the texts of the items of a list, sorted
  abbrev pieces : Items → List Text
  pieces xs = dumps_items b (normalize_items b xs)

  abbrev section : Text → List Text → Text
  section key ts = b.quote key ++ (codes ":" ++ (codes "[" ++ (join (codes ",") ts ++ codes "]")))

  -- the fingerprint from the sorted texts of the four lists
  abbrev assemble : List Text → List Text → List Text → List Text → Text
  assemble z s a n = b.sha256 (
      codes "{"
      ++ (join (codes ",") (
            section (codes "addr_objects") a
            ∷ section (codes "networks") n
            ∷ section (codes "services") s
            ∷ section (codes "zones") z
            ∷ [])
          ++ codes "}"))

  get_fingerprint_parts :
      (c : SdwanFullCatalog)
      → get_fingerprint b c
        ≡ assemble
            (pieces (items_of zone_json c.zones))
            (pieces (items_of service_json c.services))
            (pieces (items_of addr_object_json c.addr_objs))
            (pieces (items_of network_json c.networks))
  unfolding get_fingerprint json_hash
  get_fingerprint_parts c = refl

  -- Catalogs that list the same zones, services, address objects and networks, each in any order,
  -- have the same fingerprint.
  pub get_fingerprint-perm :
      (c c' : SdwanFullCatalog)
      → Permᴰ c.zones c'.zones
      → Permᴰ c.services c'.services
      → Permᴰ c.addr_objs c'.addr_objs
      → Permᴰ c.networks c'.networks
      → get_fingerprint b c ≡ get_fingerprint b c'
  get_fingerprint-perm c c' z s a n =
      get_fingerprint_parts c
      ∙ cc (
        dumps_items-normalize_items b (Reorders-items_of zone_json z),
        dumps_items-normalize_items b (Reorders-items_of service_json s),
        dumps_items-normalize_items b (Reorders-items_of addr_object_json a),
        dumps_items-normalize_items b (Reorders-items_of network_json n),
      )
      ∙ sym (get_fingerprint_parts c')
