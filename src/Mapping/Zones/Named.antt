-- ===== src/Mapping/Zones/Named.antt =====
-- The candidates of a zone are the zones of its normalized name.
use nsp_migrator.Prelude.{ℕ, ◌≡◌, ◌↔◌, refl, inl, inr, Option, some, List, [], ◌∷◌, Elem}
use nsp_migrator.Prelude.Eq.{list_eq, nat_eq}
use nsp_migrator.Prelude.Dict.{Dict, lookup, append_at, group_by, Elem-group_by}
use nsp_migrator.Prelude.Text.{Text}
use nsp_migrator.Catalog.{SdwanZone}
use nsp_migrator.Mapping.Normalizer.{normalize_name, deduplicate_objects_by_id}
use nsp_migrator.Mapping.Candidates.Named.{Names, Names-finalize}
use nsp_migrator.Mapping.Zones.{
  zone_id, build_indexes, zones_catalog_index, find_zones_by_name, zone_candidate, match_zone,
}

abbrev zone_key : SdwanZone → Option Text
zone_key z = some (normalize_name z.name)

-- The loop of the index groups the zones by their names.
build_indexes-group_by :
    (zs : List SdwanZone) (d : Dict Text (List SdwanZone))
    → build_indexes zs d ≡ group_by zone_key zs d
unfolding build_indexes group_by
build_indexes-group_by [] d = refl
build_indexes-group_by (z ∷ zs) d =
    build_indexes-group_by zs (append_at (normalize_name z.name) z d)

Elem-find_zones_by_name :
    (z : SdwanZone) (name : Text) (zones : List SdwanZone)
    → Elem z (find_zones_by_name name (zones_catalog_index zones)) ↔ (
        Elem z (deduplicate_objects_by_id zone_id [] zones)
        × (normalize_name z.name ≡ normalize_name name))
unfolding zones_catalog_index find_zones_by_name lookup
Elem-find_zones_by_name z name zones =
    let unique = deduplicate_objects_by_id zone_id [] zones in
    let (from, to) = Elem-group_by zone_key z (normalize_name name) unique [] in
    rw (build_indexes-group_by unique []) (
      λ m. elim (from m) [ inl nowhere ↦ absurd nowhere | inr (here, e) ↦ (here, cc) ],
      λ h. to (inr (h.0, cc)),
    )

-- The candidates of a canonical zone name exactly the SD-WAN zones, of which the first of each
-- identifier counts, whose normalized name is that of the zone.
pub match_zone_exact :
    (name : Text) (zones : List SdwanZone) (i : ℕ)
    → Names i (match_zone name (zones_catalog_index zones)) ↔ (
        (z : SdwanZone) × Elem z (deduplicate_objects_by_id zone_id [] zones)
        × (normalize_name z.name ≡ normalize_name name)
        × (z.id ≡ i))
unfolding match_zone zone_candidate
match_zone_exact name zones i =
    let index = zones_catalog_index zones in
    let (from, to) = Names-finalize zone_candidate i (find_zones_by_name name index) in
    (
      λ names.
          let (z, m, e) = from names in
          let (here, eq) = (Elem-find_zones_by_name z name zones).0 m in (z, here, eq, e),
      λ found.
          let (z, here, eq, e) = found in
          to (z, (Elem-find_zones_by_name z name zones).1 (here, eq), e),
    )
