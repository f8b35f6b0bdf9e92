-- ===== src/Mapping/Services/Exact.antt =====
-- The candidates of a service are the services that fit it.
use nsp_migrator.Prelude.{
  ℕ, ◌≡◌, ◌≢◌, ◌↔◌, or_empty, refl, ◌∙◌, inl, inr, some, List, [], ◌∷◌, ◌++◌, Elem, Elem-append,
  Elem-append_left, Elem-append_right, Option-cases,
}
use nsp_migrator.Prelude.Eq.{list_eq, nat_eq, pair_eq}
use nsp_migrator.Prelude.Sort.{sorted}
use nsp_migrator.Prelude.Text.{Text, codes, text_leb}
use nsp_migrator.Catalog.{SdwanService, SdwanServiceL4Proto, proto_eq}
use nsp_migrator.Mapping.Canonical.{
  CanonicalService, CanonicalServiceKind, tcp, udp, icmp, ip_proto, any_service, service_group,
  unresolved_service,
}
use nsp_migrator.Mapping.Candidates.Named.{Names, Names-finalize}
use nsp_migrator.Mapping.Icmp.{canonical_icmp_codes}
use nsp_migrator.Mapping.Icmp.Messages.{canonical_icmp_codes-messages_of, canonical_icmp_codes-none}
use nsp_migrator.Mapping.Normalizer.{
  deduplicate_objects_by_id-Elem, deduplicate_objects_by_id-keeps,
}
use nsp_migrator.Mapping.Services.{
  service_id, SdwanServicesCatalogIndex, services_catalog_index, find_services_by_name,
  find_services_by_signature, find_icmp_services_by_codes, find_builtin_any_services,
  service_candidate, match_any_service, match_l4_service, match_icmp_service, match_service,
}
use nsp_migrator.Mapping.Services.Signatures.{
  unique, ServiceFits, HasCodes, service_key-one_range, Elem-find_services_by_name,
  Elem-find_services_by_signature, Elem-find_icmp_services_by_codes,
}
use nsp_migrator.Mapping.Entities.{CandidateMatchStrategy}
use nsp_migrator.Mapping.Candidates.{CandidateDraft}

abbrev by_sig : SdwanService → CandidateDraft
unfolding service_candidate
by_sig = service_candidate CandidateMatchStrategy.service_signature

module _ (c : CanonicalService) (services : List SdwanService) (i : ℕ) where
  abbrev pub index : SdwanServicesCatalogIndex
  index = services_catalog_index services

  -- A service of the catalog with the identifier `i` fits a service of the kind.
  abbrev pub FittingService : CanonicalServiceKind → Type 0
  FittingService kind =
      (s : SdwanService) × Elem s (unique services) × ServiceFits c s kind × (s.id ≡ i)

  match_any_service-exact : Names i (match_any_service index) ↔ FittingService any_service
  unfolding match_any_service find_builtin_any_services service_candidate
  match_any_service-exact =
      let any_list = find_services_by_name (codes "any") index in
      let all_list = find_services_by_name (codes "all") index in
      let (from, to) =
        Names-finalize (service_candidate CandidateMatchStrategy.builtin_any) i
          (find_builtin_any_services index) in
      (
        λ names.
            let (s, m, e) = from names in
            elim (Elem-append s any_list all_list
              (deduplicate_objects_by_id-Elem service_id s [] (any_list ++ all_list) m)) [
                | inl k ↦
                    let (here, name) = (Elem-find_services_by_name services s (codes "any")).0 k in
                    (s, here, inl name, e)
                | inr k ↦
                    let (here, name) = (Elem-find_services_by_name services s (codes "all")).0 k in
                    (s, here, inr name, e)
              ],
        λ fitting.
            let (s, here, name, e) = fitting in
            let m : Elem s (any_list ++ all_list) = elim name [
              | inl t ↦
                  Elem-append_left s any_list all_list
                    ((Elem-find_services_by_name services s (codes "any")).1 (here, t))
              | inr t ↦
                  Elem-append_right s any_list all_list
                    ((Elem-find_services_by_name services s (codes "all")).1 (here, t))
            ] in
            elim (deduplicate_objects_by_id-keeps service_id s [] (any_list ++ all_list) m) [
              | inl known ↦ cc
              | inr (y, k, same) ↦ to (y, k, same ∙ e)
            ],
      )

  match_l4_service-exact :
      (p : SdwanServiceL4Proto)
      → Names i (match_l4_service c p index) ↔ (
          (s : SdwanService) × Elem s (unique services)
          × ((first last : ℕ) × (c.port_from ≡ some first)
              × (c.port_to ≡ some last)
              × (s.l4_proto ≡ p)
              × (or_empty s.ranges ≡ (first, last) ∷ [])
              × (or_empty s.codes ≡ []))
          × (s.id ≡ i))
  unfolding match_l4_service service_candidate
  match_l4_service-exact p = elim (Option-cases c.port_from) [
    | inl missing ↦ rw missing (
      λ names. absurd ((Names-finalize by_sig i []).0 names).1,
      λ fitting. let (_, _, (_, _, given, _, _, _, _), _) = fitting in cc,
    )
    | inr (first, from_given) ↦ rw from_given (elim (Option-cases c.port_to) [
      | inl missing ↦ rw missing (
        λ names. absurd ((Names-finalize by_sig i []).0 names).1,
        λ fitting. let (_, _, (_, _, _, given, _, _, _), _) = fitting in cc,
      )
      | inr (last, to_given) ↦
          let found = find_services_by_signature p ((first, last) ∷ []) [] index in
          let (from, to) = Names-finalize by_sig i found in
          rw to_given (
            λ names.
                let (s, m, e) = from names in
                let (here, key) =
                  (Elem-find_services_by_signature services s p ((first, last) ∷ []) []).0 m in
                let (proto, ranges, no_codes) = (service_key-one_range s p first last).0 key in
                (s, here, (first, last, refl, refl, proto, ranges, no_codes), e),
            λ fitting.
                let (s, here, (a, b, x, y, proto, ranges, no_codes), e) = fitting in
                let key = (service_key-one_range s p a b).1 (proto, ranges, no_codes) in
                let starts : a ≡ first = cc in
                let ends : b ≡ last = cc in
                to (
                  s,
                  (Elem-find_services_by_signature services s p ((first, last) ∷ []) []).1
                      (here, rw starts at (rw ends at key)),
                  e,
                ),
          )
    ])
  ]

  -- The services of the messages that are looked up.
  HasMessages : SdwanService → Type 0
  HasMessages s =
      (canonical_icmp_codes c ≢ []) × HasCodes (sorted text_leb (canonical_icmp_codes c)) s

  messages-exact :
      (messages : List Text)
      → canonical_icmp_codes c ≡ messages
      → Names i (match_icmp_service c index)
        ↔ ((s : SdwanService) × Elem s (unique services) × HasMessages s × (s.id ≡ i))
  unfolding match_icmp_service service_candidate HasMessages
  messages-exact [] known =
      rw (known, match_icmp_service)
        (
          λ names. absurd ((Names-finalize by_sig i []).0 names).1,
          λ fitting. let (_, _, (some_known, _), _) = fitting in absurd (some_known refl),
        )
  messages-exact (m ∷ ms) known =
      let (from, to) = Names-finalize by_sig i (find_icmp_services_by_codes (m ∷ ms) index) in
      let found = Elem-find_icmp_services_by_codes services in
      rw (known, match_icmp_service)
        (
          λ names.
              let (s, k, e) = from names in
              let (here, has) = (found s (m ∷ ms)).0 k in (s, here, (λ h. cc, has), e),
          λ fitting.
              let (s, here, (_, has), e) = fitting in to (s, (found s (m ∷ ms)).1 (here, has), e),
        )

  HasMessages-fits : (s : SdwanService) → HasMessages s ↔ ServiceFits c s icmp
  unfolding HasMessages
  HasMessages-fits s = elim (Option-cases c.icmp_type) [
    | inl missing ↦ (
      λ h. absurd (h.0 (canonical_icmp_codes-none c missing)),
      λ h. let (type, given, _, _) = h in cc,
    )
    | inr (type, given) ↦
        let same = canonical_icmp_codes-messages_of c type given in
        (
          λ h. (type, given, rw same at h.0, rw same at h.1),
          λ h.
              let (other, given', some_known, has) = h in
              let one : other ≡ type = cc in rw same (rw one at some_known, rw one at has),
        )
  ]

  match_icmp_service-exact : Names i (match_icmp_service c index) ↔ FittingService icmp
  match_icmp_service-exact =
      let (from, to) = messages-exact (canonical_icmp_codes c) refl in
      (
        λ names. let (s, here, has, e) = from names in (s, here, (HasMessages-fits s).0 has, e),
        λ fitting. let (s, here, fits, e) = fitting in to (s, here, (HasMessages-fits s).1 fits, e),
      )

  kind-exact :
      (kind : CanonicalServiceKind)
      → c.kind ≡ kind
      → Names i (match_service c index) ↔ FittingService kind
  unfolding match_service
  kind-exact any_service k = rw (k, match_service) match_any_service-exact
  kind-exact tcp k = rw (k, match_service) (match_l4_service-exact SdwanServiceL4Proto.tcp)
  kind-exact udp k = rw (k, match_service) (match_l4_service-exact SdwanServiceL4Proto.udp)
  kind-exact icmp k = rw (k, match_service) match_icmp_service-exact
  kind-exact ip_proto k = rw (k, match_service) (λ n. absurd n.1, λ f. absurd f.2)
  kind-exact service_group k = rw (k, match_service) (λ n. absurd n.1, λ f. absurd f.2)
  kind-exact unresolved_service k = rw (k, match_service) (λ n. absurd n.1, λ f. absurd f.2)

  -- The candidates of a canonical service name exactly the services of the catalog, of which the
  -- first of each identifier counts, that fit it: for any service those of the name any or all; for
  -- a TCP or UDP service with both ports those of the protocol whose only range are these ports and
  -- that have no codes; for an ICMP service of a type the ICMP services whose codes are just the
  -- messages of the type, and of the code if there is one, if there are any; none otherwise.
  pub match_service_exact : Names i (match_service c index) ↔ FittingService c.kind
  match_service_exact = kind-exact c.kind refl
