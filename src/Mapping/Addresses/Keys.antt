-- ===== src/Mapping/Addresses/Keys.antt =====
-- What the index of address objects holds.
use nsp_migrator.Prelude.{
  ℕ, ◌≡◌, refl, sym, ap, ◌∙◌, inl, inr, Option, none, some, List, [], ◌∷◌, Elem, Option-cases,
  arith,
}
use nsp_migrator.Prelude.Eq.{list_eq, nat_eq, pair_eq}
use nsp_migrator.Prelude.Result.{ok, >>=-eq-ok, ok-injective}
use nsp_migrator.Prelude.Dict.{append_at, group_by}
use nsp_migrator.Prelude.Text.{Text}
use nsp_migrator.Catalog.{
  Ipv4Network, SdwanAddrObject, SdwanAddrObjectType, prefix, host, fqdn, ip_range, network,
  addr_group, check_addr_object, is_none, type_eq,
}
use nsp_migrator.Catalog.Fingerprint.{address_text, network_text}
use nsp_migrator.Mapping.Normalizer.{normalize_name, normalize_fqdn}
use nsp_migrator.Mapping.Addresses.{SdwanAddrObjsCatalogIndex, index_value, build_indexes}

-- The key of an object in each of the indexes, by its type.
abbrev pub name_key : SdwanAddrObject → Option Text
name_key o = some (normalize_name o.name)

abbrev mapped : {A B : Type 0} → (A → B) → Option A → Option B
mapped f none = none
mapped f (some a) = some (f a)

abbrev both : {A : Type 0} → Option A → Option A → Option (A × A)
both none b = none
both (some a) none = none
both (some a) (some b) = some (a, b)

abbrev host_of : SdwanAddrObjectType → SdwanAddrObject → Option Text
host_of host o = mapped address_text o.host
host_of prefix o = none
host_of fqdn o = none
host_of ip_range o = none
host_of network o = none
host_of addr_group o = none

abbrev prefix_of : SdwanAddrObjectType → SdwanAddrObject → Option Text
prefix_of host o = none
prefix_of prefix o = mapped network_text o.prefix
prefix_of fqdn o = none
prefix_of ip_range o = none
prefix_of network o = mapped network_text o.network
prefix_of addr_group o = none

abbrev fqdn_of : SdwanAddrObjectType → SdwanAddrObject → Option Text
fqdn_of host o = none
fqdn_of prefix o = none
fqdn_of fqdn o = mapped normalize_fqdn o.fqdn
fqdn_of ip_range o = none
fqdn_of network o = none
fqdn_of addr_group o = none

abbrev range_of : SdwanAddrObjectType → SdwanAddrObject → Option (Text × Text)
range_of host o = none
range_of prefix o = none
range_of fqdn o = none
range_of ip_range o = both (mapped address_text o.ip_range_from) (mapped address_text o.ip_range_to)
range_of network o = none
range_of addr_group o = none

abbrev pub host_key : SdwanAddrObject → Option Text
host_key o = host_of o.type o

abbrev pub prefix_key : SdwanAddrObject → Option Text
prefix_key o = prefix_of o.type o

abbrev pub fqdn_key : SdwanAddrObject → Option Text
fqdn_key o = fqdn_of o.type o

abbrev pub range_key : SdwanAddrObject → Option (Text × Text)
range_key o = range_of o.type o

-- One object is filed under its keys.
abbrev filed : SdwanAddrObject → SdwanAddrObjsCatalogIndex → SdwanAddrObjsCatalogIndex
filed o index = record {
  addr_by_name = index.addr_by_name;
  addr_by_host = group_by host_key (o ∷ []) index.addr_by_host;
  addr_by_prefix = group_by prefix_key (o ∷ []) index.addr_by_prefix;
  addr_by_fqdn = group_by fqdn_key (o ∷ []) index.addr_by_fqdn;
  addr_by_range = group_by range_key (o ∷ []) index.addr_by_range;
}

-- An object of the given type and values.
abbrev valued :
    SdwanAddrObjectType
    → Option Ipv4Network
    → Option Ipv4Network
    → Option ℕ
    → Option Text
    → Option ℕ
    → Option ℕ
    → SdwanAddrObject
    → SdwanAddrObject
valued t n p h f a b o = record o {
  type = t;
  network = n;
  prefix = p;
  host = h;
  fqdn = f;
  ip_range_from = a;
  ip_range_to = b;
}

index_value-filed_as :
    (t : SdwanAddrObjectType) (n p : Option Ipv4Network) (h : Option ℕ) (f : Option Text)
    (a b : Option ℕ) (o : SdwanAddrObject) (index next : SdwanAddrObjsCatalogIndex)
    → index_value (valued t n p h f a b o) index ≡ ok next
    → next ≡ filed (valued t n p h f a b o) index
unfolding index_value group_by
index_value-filed_as addr_group n p h f a b o index next e = sym (ok-injective e)
index_value-filed_as host n p (some h) f a b o index next e = sym (ok-injective e)
index_value-filed_as host n p none f a b o index next e = absurd cc
index_value-filed_as prefix n (some p) h f a b o index next e = sym (ok-injective e)
index_value-filed_as prefix n none h f a b o index next e = absurd cc
index_value-filed_as network (some n) p h f a b o index next e = sym (ok-injective e)
index_value-filed_as network none p h f a b o index next e = absurd cc
index_value-filed_as fqdn n p h (some f) a b o index next e = sym (ok-injective e)
index_value-filed_as fqdn n p h none a b o index next e = absurd cc
index_value-filed_as ip_range n p h f (some a) (some b) o index next e = sym (ok-injective e)
index_value-filed_as ip_range n p h f none b o index next e = absurd cc
index_value-filed_as ip_range n p h f (some a) none o index next e = absurd cc

abbrev named : SdwanAddrObject → SdwanAddrObjsCatalogIndex → SdwanAddrObjsCatalogIndex
named o index = record index {
  addr_by_name = append_at (normalize_name o.name) o index.addr_by_name;
}

-- The loop of the index groups the objects by their keys.
pub build_indexes-group_by :
    (os : List SdwanAddrObject) (index result : SdwanAddrObjsCatalogIndex)
    → build_indexes os index ≡ ok result
    → (result.addr_by_name ≡ group_by name_key os index.addr_by_name)
      × (result.addr_by_host ≡ group_by host_key os index.addr_by_host)
      × (result.addr_by_prefix ≡ group_by prefix_key os index.addr_by_prefix)
      × (result.addr_by_fqdn ≡ group_by fqdn_key os index.addr_by_fqdn)
      × (result.addr_by_range ≡ group_by range_key os index.addr_by_range)
unfolding build_indexes group_by
build_indexes-group_by [] index result h =
    let same = ok-injective h in
    (
      ap (λ (d : SdwanAddrObjsCatalogIndex). d.addr_by_name) (sym same),
      ap (λ (d : SdwanAddrObjsCatalogIndex). d.addr_by_host) (sym same),
      ap (λ (d : SdwanAddrObjsCatalogIndex). d.addr_by_prefix) (sym same),
      ap (λ (d : SdwanAddrObjsCatalogIndex). d.addr_by_fqdn) (sym same),
      ap (λ (d : SdwanAddrObjsCatalogIndex). d.addr_by_range) (sym same),
    )
build_indexes-group_by (o ∷ os) index result h =
    let rest = λ (next : SdwanAddrObjsCatalogIndex). build_indexes os next in
    let (next, filing, more) = >>=-eq-ok (index_value o (named o index)) rest h in
    let same =
      index_value-filed_as o.type o.network o.prefix o.host o.fqdn o.ip_range_from o.ip_range_to o
        (named o index) next filing in
    build_indexes-group_by os (filed o (named o index)) result
      (ap (λ (d : SdwanAddrObjsCatalogIndex). build_indexes os d) (sym same) ∙ more)

-- An object that passes its own check is not refused by the index.
index_value-total :
    (t : SdwanAddrObjectType) (n p : Option Ipv4Network) (h : Option ℕ) (f : Option Text)
    (a b : Option ℕ) (o : SdwanAddrObject) (index : SdwanAddrObjsCatalogIndex)
    → check_addr_object (valued t n p h f a b o) ≡ ok (valued t n p h f a b o)
    → (next : SdwanAddrObjsCatalogIndex) × (index_value (valued t n p h f a b o) index ≡ ok next)
unfolding index_value check_addr_object is_none type_eq
index_value-total addr_group n p h f a b o index e = (_, refl)
index_value-total host n p (some h) f a b o index e = (_, refl)
index_value-total host n p none f a b o index e = cc
index_value-total prefix n (some p) h f a b o index e = (_, refl)
index_value-total prefix n none h f a b o index e = cc
index_value-total network (some n) p h f a b o index e = (_, refl)
index_value-total network none p h f a b o index e =
    absurd (elim (Option-cases o.network_id) [ inl m ↦ ground arith | inr m ↦ ground arith ])
index_value-total fqdn n p h (some f) a b o index e = (_, refl)
index_value-total fqdn n p h none a b o index e = cc
index_value-total ip_range n p h f (some a) (some b) o index e = (_, refl)
index_value-total ip_range n p h f none b o index e = cc
index_value-total ip_range n p h f (some a) none o index e = cc

pub build_indexes-total :
    (os : List SdwanAddrObject) (index : SdwanAddrObjsCatalogIndex)
    → ((o : SdwanAddrObject) → Elem o os → check_addr_object o ≡ ok o)
    → (result : SdwanAddrObjsCatalogIndex) × (build_indexes os index ≡ ok result)
unfolding build_indexes
build_indexes-total [] index checked = (index, refl)
build_indexes-total (o ∷ os) index checked =
    let (next, filing) =
      index_value-total o.type o.network o.prefix o.host o.fqdn o.ip_range_from o.ip_range_to o
        (named o index) (checked o (inl refl)) in
    let (result, e) = build_indexes-total os next (λ x m. checked x (inr m)) in
    (result, rw filing e)
