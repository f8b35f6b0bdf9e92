-- ===== src/Mapping/Services/Signatures.antt =====
-- The candidates of a service are the services of its signature.
use nsp_migrator.Prelude.{
  ℕ, ◌≡◌, ◌≢◌, ◌↔◌, ◌⊎◌, refl, ap, inl, inr, Option, some, List, [], ◌∷◌, Elem, or_empty,
}
use nsp_migrator.Prelude.Eq.{list_eq, nat_eq, pair_eq, ==-cases}
use nsp_migrator.Prelude.Dict.{lookup, append_at, group_by, Elem-group_by}
use nsp_migrator.Prelude.Sort.{sorted, sorted-one, sorted-nil}
use nsp_migrator.Prelude.Text.{Text, codes, text_leb}
use nsp_migrator.Catalog.{SdwanService, SdwanServiceL4Proto, proto_eq}
use nsp_migrator.Mapping.Canonical.{
  CanonicalService, CanonicalServiceKind, tcp, udp, icmp, ip_proto, any_service, service_group,
  unresolved_service,
}
use nsp_migrator.Mapping.Icmp.Messages.{messages_of, icmp_messages}
use nsp_migrator.Mapping.Normalizer.{normalize_name, deduplicate_objects_by_id}
use nsp_migrator.Mapping.Services.{
  service_id, range_leb, SignatureKey, signature_key, service_key, SdwanServicesCatalogIndex,
  build_indexes, services_catalog_index, find_services_by_name, find_services_by_signature,
  of_codes, find_icmp_services_by_codes,
}

abbrev name_key : SdwanService → Option Text
name_key s = some (normalize_name s.name)

abbrev sig_key : SdwanService → Option SignatureKey
sig_key s = some (service_key s)

-- The loop of the index groups the services by their names and by their signatures.
build_indexes-group_by :
    (ss : List SdwanService) (index : SdwanServicesCatalogIndex)
    → ((build_indexes ss index).services ≡ index.services)
      × ((build_indexes ss index).services_by_name ≡ group_by name_key ss index.services_by_name)
      × ((build_indexes ss index).services_by_signature
          ≡ group_by sig_key ss index.services_by_signature)
unfolding build_indexes group_by
build_indexes-group_by [] index = (refl, refl, refl)
build_indexes-group_by (s ∷ ss) index = build_indexes-group_by ss (record index {
  services_by_name = append_at (normalize_name s.name) s index.services_by_name;
  services_by_signature = append_at (service_key s) s index.services_by_signature;
})

module _ (services : List SdwanService) where
  abbrev pub unique : List SdwanService
  unique = deduplicate_objects_by_id service_id [] services

  abbrev empty : SdwanServicesCatalogIndex
  empty = record { services = unique; services_by_name = []; services_by_signature = [] }

  pub Elem-find_services_by_name :
      (s : SdwanService) (name : Text)
      → Elem s (find_services_by_name name (services_catalog_index services))
        ↔ (Elem s unique × (normalize_name s.name ≡ normalize_name name))
  unfolding services_catalog_index find_services_by_name lookup
  Elem-find_services_by_name s name =
      let (from, to) = Elem-group_by name_key s (normalize_name name) unique [] in
      rw ((build_indexes-group_by unique empty).1) (
        λ m. elim (from m) [ inl nowhere ↦ absurd nowhere | inr (here, e) ↦ (here, cc) ],
        λ h. to (inr (h.0, cc)),
      )

  pub Elem-find_services_by_signature :
      (s : SdwanService) (p : SdwanServiceL4Proto) (rs : List (ℕ × ℕ)) (cs : List Text)
      → Elem s (find_services_by_signature p rs cs (services_catalog_index services))
        ↔ (Elem s unique × (service_key s ≡ signature_key p rs cs))
  unfolding services_catalog_index find_services_by_signature lookup
  Elem-find_services_by_signature s p rs cs =
      let (from, to) = Elem-group_by sig_key s (signature_key p rs cs) unique [] in
      rw ((build_indexes-group_by unique empty).2) (
        λ m. elim (from m) [ inl nowhere ↦ absurd nowhere | inr (here, e) ↦ (here, cc) ],
        λ h. to (inr (h.0, cc)),
      )

-- The signature of one range of ports, without codes.
pub service_key-one_range :
    (s : SdwanService) (p : SdwanServiceL4Proto) (first last : ℕ)
    → (service_key s ≡ signature_key p ((first, last) ∷ []) [])
      ↔ ((s.l4_proto ≡ p) × (or_empty s.ranges ≡ (first, last) ∷ []) × (or_empty s.codes ≡ []))
unfolding service_key signature_key
service_key-one_range s p first last = (
  λ h. (
    ap (λ (k : SignatureKey). k.0) h,
    sorted-one range_leb (or_empty s.ranges) (first, last) (ap (λ (k : SignatureKey). k.1.0) h),
    sorted-nil text_leb (or_empty s.codes) (ap (λ (k : SignatureKey). k.1.1) h),
  ),
  λ h. let (proto, ranges, none_left) = h in rw (proto, ranges, none_left) refl,
)

abbrev pub HasCodes : List Text → SdwanService → Type 0
HasCodes target s =
    (s.l4_proto ≡ SdwanServiceL4Proto.icmp) × (sorted text_leb (or_empty s.codes) ≡ target)

Elem-of_codes :
    (s : SdwanService) (target : List Text) (ss : List SdwanService)
    → Elem s (of_codes target ss) ↔ (Elem s ss × HasCodes target s)
unfolding of_codes
Elem-of_codes s target [] = (λ m. absurd m, λ h. absurd h.0)
Elem-of_codes s target (x ∷ ss) =
    let (from, to) = Elem-of_codes s target ss in
    elim (==-cases x.l4_proto SdwanServiceL4Proto.icmp) [
      | inr (t, differ) ↦ rw t (
        λ m. (inr (from m).0, (from m).1),
        λ h. to (elim h.0 [ inl e ↦ absurd (differ cc) | inr k ↦ (k, h.1) ]),
      )
      | inl (t, proto) ↦ rw t (elim (==-cases (sorted text_leb (or_empty x.codes)) target) [
        | inr (u, differ) ↦ rw u (
          λ m. (inr (from m).0, (from m).1),
          λ h. to (elim h.0 [ inl e ↦ absurd (differ cc) | inr k ↦ (k, h.1) ]),
        )
        | inl (u, same) ↦ rw u (
          λ m. elim m [ inl e ↦ (inl e, (cc, cc)) | inr k ↦ (inr (from k).0, (from k).1) ],
          λ h. elim h.0 [ inl e ↦ inl e | inr k ↦ inr (to (k, h.1)) ],
        )
      ])
    ]

pub Elem-find_icmp_services_by_codes :
    (services : List SdwanService) (s : SdwanService) (cs : List Text)
    → Elem s (find_icmp_services_by_codes cs (services_catalog_index services))
      ↔ (Elem s (unique services) × HasCodes (sorted text_leb cs) s)
unfolding find_icmp_services_by_codes services_catalog_index
Elem-find_icmp_services_by_codes services s cs =
    rw ((build_indexes-group_by (unique services) (empty services)).0)
      (Elem-of_codes s (sorted text_leb cs) (unique services))

-- What a canonical service asks of the service that may stand for it.
abbrev pub ServiceFits : CanonicalService → SdwanService → CanonicalServiceKind → Type 0
ServiceFits c s any_service =
    (normalize_name s.name ≡ normalize_name (codes "any"))
    ⊎ (normalize_name s.name ≡ normalize_name (codes "all"))
ServiceFits c s tcp =
    (first last : ℕ) × (c.port_from ≡ some first)
    × (c.port_to ≡ some last)
    × (s.l4_proto ≡ SdwanServiceL4Proto.tcp)
    × (or_empty s.ranges ≡ (first, last) ∷ [])
    × (or_empty s.codes ≡ [])
ServiceFits c s udp =
    (first last : ℕ) × (c.port_from ≡ some first)
    × (c.port_to ≡ some last)
    × (s.l4_proto ≡ SdwanServiceL4Proto.udp)
    × (or_empty s.ranges ≡ (first, last) ∷ [])
    × (or_empty s.codes ≡ [])
ServiceFits c s icmp =
    (type : ℕ) × (c.icmp_type ≡ some type)
    × (messages_of type c.icmp_code icmp_messages ≢ [])
    × HasCodes (sorted text_leb (messages_of type c.icmp_code icmp_messages)) s
ServiceFits c s ip_proto = ⊥
ServiceFits c s service_group = ⊥
ServiceFits c s unresolved_service = ⊥
