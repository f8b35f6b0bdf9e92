-- ===== src/Mapping/Zones.antt =====
-- Zones matched by name
-- (src/app/modules/mapping/services/mapping_objects/matchers/zones_matcher.py,
-- sdwan_catalog_indexes/zones_catalog_index.py and normalizer.py beside it).
pub mod Named
use nsp_migrator.Prelude.{
  ℕ, Bool, true, false, ◌&&◌, ◌||◌, List, [], ◌∷◌, ◌++◌, map, leb, if◌then◌else◌,
}
use nsp_migrator.Prelude.Eq.{contains, nat_eq, list_eq}
use nsp_migrator.Prelude.Dict.{Dict, lookup, append_at, get_list}
use nsp_migrator.Prelude.Text.{Text, codes, strip, lower, is_space, join}
use nsp_migrator.Mapping.Normalizer.{normalize_name, deduplicate_objects_by_id}
use nsp_migrator.Catalog.{SdwanZone}
use nsp_migrator.Mapping.Entities.{CandidateMatchStrategy, MappingEntityCandidatePayload}
use nsp_migrator.Mapping.Candidates.{CandidateDraft, finalize}

abbrev pub zone_id : SdwanZone → ℕ
zone_id z = z.id

-- `_build_indexes`
unfoldable pub build_indexes :
    List SdwanZone → Dict Text (List SdwanZone) → Dict Text (List SdwanZone)
unfolding normalize_name append_at list_eq nat_eq
build_indexes [] d = d
build_indexes (z ∷ zs) d = build_indexes zs (append_at (normalize_name z.name) z d)

unfoldable pub zones_catalog_index : List SdwanZone → Dict Text (List SdwanZone)
unfolding deduplicate_objects_by_id build_indexes
zones_catalog_index zones = build_indexes (deduplicate_objects_by_id zone_id [] zones) []

unfoldable pub find_zones_by_name : Text → Dict Text (List SdwanZone) → List SdwanZone
unfolding lookup normalize_name list_eq nat_eq
find_zones_by_name name index = get_list (normalize_name name) index

-- `_candidate`, with the score and the strategy of the only call
unfoldable pub zone_candidate : SdwanZone → CandidateDraft
zone_candidate z = record {
  sdwan_entity_id = z.id;
  score = 90;
  strategy = CandidateMatchStrategy.normalized_name;
}

-- `match`, of a zone by its name
unfoldable pub match_zone : Text → Dict Text (List SdwanZone) → List MappingEntityCandidatePayload
unfolding find_zones_by_name zone_candidate finalize
match_zone name index = finalize (map zone_candidate (find_zones_by_name name index))
