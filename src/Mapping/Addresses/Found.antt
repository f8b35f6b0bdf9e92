-- ===== src/Mapping/Addresses/Found.antt =====
-- The objects that the index of the catalog finds.
use nsp_migrator.Prelude.{ℕ, ◌≡◌, ◌↔◌, inl, inr, Option, some, List, [], Elem}
use nsp_migrator.Prelude.Eq.{Eq, list_eq, nat_eq, pair_eq}
use nsp_migrator.Prelude.Result.{ok}
use nsp_migrator.Prelude.Dict.{lookup, get_list, group_by, Elem-group_by}
use nsp_migrator.Prelude.Text.{Text}
use nsp_migrator.Catalog.{Ipv4Network, SdwanAddrObject, check_addr_object}
use nsp_migrator.Catalog.Fingerprint.{address_text, network_text}
use nsp_migrator.Mapping.Canonical.{}
use nsp_migrator.Mapping.Normalizer.{
  normalize_name, normalize_fqdn, deduplicate_objects_by_id, deduplicate_objects_by_id-Elem,
}
use nsp_migrator.Mapping.Addresses.{
  address_id, SdwanAddrObjsCatalogIndex, empty_index, addr_objs_catalog_index, find_addr_by_name,
  find_addr_by_host, find_addr_by_prefix, find_addr_by_fqdn, find_addr_by_range,
}
use nsp_migrator.Mapping.Addresses.Keys.{
  name_key, host_key, prefix_key, fqdn_key, range_key, build_indexes-group_by, build_indexes-total,
}

-- The index accepts every catalog whose objects pass their own checks.
pub addr_objs_catalog_index_total :
    (objs : List SdwanAddrObject)
    → ((o : SdwanAddrObject) → Elem o objs → check_addr_object o ≡ ok o)
    → (index : SdwanAddrObjsCatalogIndex) × (addr_objs_catalog_index objs ≡ ok index)
unfolding addr_objs_catalog_index
addr_objs_catalog_index_total objs checked =
    build_indexes-total (deduplicate_objects_by_id address_id [] objs) empty_index
      (λ o m. checked o (deduplicate_objects_by_id-Elem address_id o [] objs m))

abbrev pub unique : List SdwanAddrObject → List SdwanAddrObject
unique = deduplicate_objects_by_id address_id []

-- Grouped objects are found under their keys.
grouped :
    {K : Type 0} ⦃e : Eq K⦄ (key : SdwanAddrObject → Option K) (objs : List SdwanAddrObject) (k : K)
    (o : SdwanAddrObject)
    → Elem o (get_list k (group_by key (unique objs) []))
      ↔ (Elem o (unique objs) × (key o ≡ some k))
unfolding lookup
grouped key objs k o = (
  λ m. elim ((Elem-group_by key o k (unique objs) []).0 m) [
    | inl nowhere ↦ absurd nowhere
    | inr here ↦ here
  ],
  λ here. (Elem-group_by key o k (unique objs) []).1 (inr here),
)

module _ (objs : List SdwanAddrObject) (index : SdwanAddrObjsCatalogIndex)
    (built : addr_objs_catalog_index objs ≡ ok index) where
  pub Elem-find_addr_by_name :
      (name : Text) (o : SdwanAddrObject)
      → Elem o (find_addr_by_name name index)
        ↔ (Elem o (unique objs) × (name_key o ≡ some (normalize_name name)))
  unfolding find_addr_by_name addr_objs_catalog_index lookup
  Elem-find_addr_by_name name o =
      rw ((build_indexes-group_by (unique objs) empty_index index built).0)
        (grouped name_key objs (normalize_name name) o)

  pub Elem-find_addr_by_host :
      (h : ℕ) (o : SdwanAddrObject)
      → Elem o (find_addr_by_host h index)
        ↔ (Elem o (unique objs) × (host_key o ≡ some (address_text h)))
  unfolding find_addr_by_host addr_objs_catalog_index lookup
  Elem-find_addr_by_host h o =
      rw ((build_indexes-group_by (unique objs) empty_index index built).1)
        (grouped host_key objs (address_text h) o)

  pub Elem-find_addr_by_prefix :
      (n : Ipv4Network) (o : SdwanAddrObject)
      → Elem o (find_addr_by_prefix n index)
        ↔ (Elem o (unique objs) × (prefix_key o ≡ some (network_text n)))
  unfolding find_addr_by_prefix addr_objs_catalog_index lookup
  Elem-find_addr_by_prefix n o =
      rw ((build_indexes-group_by (unique objs) empty_index index built).2)
        (grouped prefix_key objs (network_text n) o)

  pub Elem-find_addr_by_fqdn :
      (name : Text) (o : SdwanAddrObject)
      → Elem o (find_addr_by_fqdn name index)
        ↔ (Elem o (unique objs) × (fqdn_key o ≡ some (normalize_fqdn name)))
  unfolding find_addr_by_fqdn addr_objs_catalog_index lookup
  Elem-find_addr_by_fqdn name o =
      rw ((build_indexes-group_by (unique objs) empty_index index built).3)
        (grouped fqdn_key objs (normalize_fqdn name) o)

  pub Elem-find_addr_by_range :
      (first last : ℕ) (o : SdwanAddrObject)
      → Elem o (find_addr_by_range first last index)
        ↔ (Elem o (unique objs) × (range_key o ≡ some (address_text first, address_text last)))
  unfolding find_addr_by_range addr_objs_catalog_index lookup
  Elem-find_addr_by_range first last o =
      rw ((build_indexes-group_by (unique objs) empty_index index built).4)
        (grouped range_key objs (address_text first, address_text last) o)
