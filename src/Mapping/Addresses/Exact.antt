-- ===== src/Mapping/Addresses/Exact.antt =====
-- The candidates of an address object are the address objects that fit it.
use nsp_migrator.Prelude.{
  subst, ℕ, ◌≡◌, ◌↔◌, ◌⊎◌, refl, sym, ap, ◌∙◌, inl, inr, some, List, [], ◌++◌, map, Elem,
  Elem-append, Elem-append_left, Elem-append_right, Option-cases,
}
use nsp_migrator.Prelude.Eq.{list_eq, nat_eq, pair_eq}
use nsp_migrator.Prelude.Result.{ok}
use nsp_migrator.Prelude.Text.{Text, codes, truthy}
use nsp_migrator.Catalog.{Ipv4Network, SdwanAddrObject}
use nsp_migrator.Catalog.Fingerprint.{address_text, network_text}
use nsp_migrator.Mapping.Canonical.{
  CanonicalAddrObject, CanonicalAddrObjKind, any_addr, host, subnet, range, fqdn, unresolved_addr,
  addr_group,
}
use nsp_migrator.Mapping.Entities.{CandidateMatchStrategy, MappingEntityCandidatePayload}
use nsp_migrator.Mapping.Candidates.{finalize}
use nsp_migrator.Mapping.Candidates.Named.{Names, Names-finalize}
use nsp_migrator.Mapping.Normalizer.{
  normalize_name, normalize_fqdn, deduplicate_objects_by_id, deduplicate_objects_by_id-Elem,
  deduplicate_objects_by_id-keeps,
}
use nsp_migrator.Mapping.Addresses.{
  IpAddress, address_id, SdwanAddrObjsCatalogIndex, addr_objs_catalog_index, find_addr_by_name,
  find_addr_by_host, find_addr_by_prefix, find_addr_by_fqdn, find_addr_by_range, everything,
  find_builtin_any_addr_objects, address_candidate, before_slash, match_any_addr, match_host,
  match_subnet, match_range, match_fqdn, match_address,
}
use nsp_migrator.Mapping.Addresses.Keys.{host_key, prefix_key, fqdn_key, range_key}
use nsp_migrator.Mapping.Addresses.Found.{
  unique, Elem-find_addr_by_name, Elem-find_addr_by_prefix, Elem-find_addr_by_fqdn,
  Elem-find_addr_by_host, Elem-find_addr_by_range,
}

-- What a canonical object asks of the object that may stand for it.
abbrev pub AddressFits :
    IpAddress → CanonicalAddrObject → CanonicalAddrObjKind → SdwanAddrObject → Type 0
AddressFits ip c any_addr o =
    (prefix_key o ≡ some (network_text everything))
    ⊎ ((normalize_name o.name ≡ normalize_name (codes "any"))
        ⊎ (normalize_name o.name ≡ normalize_name (codes "all")))
AddressFits ip c host o =
    (cidr : Text) × (h : ℕ) × (truthy c.cidr ≡ some cidr)
    × (ip.ipv4_address (before_slash cidr) ≡ some h)
    × (host_key o ≡ some (address_text h))
AddressFits ip c subnet o =
    (cidr : Text) × (n : Ipv4Network) × (truthy c.cidr ≡ some cidr)
    × (ip.ipv4_network cidr ≡ some n)
    × (prefix_key o ≡ some (network_text n))
AddressFits ip c range o =
    (start : Text) × (end : Text) × (first : ℕ) × (last : ℕ) × (truthy c.range_start ≡ some start)
    × (truthy c.range_end ≡ some end)
    × (ip.ipv4_address start ≡ some first)
    × (ip.ipv4_address end ≡ some last)
    × (range_key o ≡ some (address_text first, address_text last))
AddressFits ip c fqdn o =
    (name : Text) × (truthy c.fqdn ≡ some name) × (fqdn_key o ≡ some (normalize_fqdn name))
AddressFits ip c unresolved_addr o = ⊥
AddressFits ip c addr_group o = ⊥

abbrev values_of : List SdwanAddrObject → List MappingEntityCandidatePayload
unfolding address_candidate finalize
values_of found = finalize (map (address_candidate CandidateMatchStrategy.exact_value) found)

module _ (objs : List SdwanAddrObject) (i : ℕ) where
  -- An object of the catalog with the identifier `i` has the property.
  abbrev pub FittingAddress : (SdwanAddrObject → Type 0) → Type 0
  FittingAddress P = (o : SdwanAddrObject) × Elem o (unique objs) × P o × (o.id ≡ i)

  found-exact :
      (P : SdwanAddrObject → Type 0) (strategy : CandidateMatchStrategy)
      (found : List SdwanAddrObject)
      → ((o : SdwanAddrObject) → Elem o found ↔ (Elem o (unique objs) × P o))
      → Names i (finalize (map (address_candidate strategy) found)) ↔ FittingAddress P
  unfolding address_candidate
  found-exact P strategy found exact =
      let (from, to) = Names-finalize (address_candidate strategy) i found in
      (
        λ names. let (o, m, e) = from names in let (here, p) = (exact o).0 m in (o, here, p, e),
        λ fitting. let (o, here, p, e) = fitting in to (o, (exact o).1 (here, p), e),
      )

  none-exact :
      (P : SdwanAddrObject → Type 0)
      → ((o : SdwanAddrObject) → P o → ⊥)
      → Names i [] ↔ FittingAddress P
  none-exact P never = (λ n. absurd n.1, λ f. absurd (never f.0 f.2))

  none_found-exact :
      (P : SdwanAddrObject → Type 0)
      → ((o : SdwanAddrObject) → P o → ⊥)
      → Names i (finalize []) ↔ FittingAddress P
  none_found-exact P never =
      found-exact P CandidateMatchStrategy.exact_value []
        (λ o. (λ m. absurd m, λ h. absurd (never o h.1)))

  same-exact :
      (P : SdwanAddrObject → Type 0) (ps qs : List MappingEntityCandidatePayload)
      → ps ≡ qs
      → Names i qs ↔ FittingAddress P
      → Names i ps ↔ FittingAddress P
  same-exact P ps qs e exact = subst (λ x. Names i x ↔ FittingAddress P) (sym e) exact

  module _ (index : SdwanAddrObjsCatalogIndex)
      (built : addr_objs_catalog_index objs ≡ ok index) where
    match_any_addr-exact :
        (ip : IpAddress) (c : CanonicalAddrObject)
        → Names i (match_any_addr index) ↔ FittingAddress (AddressFits ip c any_addr)
    unfolding match_any_addr find_builtin_any_addr_objects
    match_any_addr-exact ip c =
        let nets = find_addr_by_prefix everything index in
        let anys = find_addr_by_name (codes "any") index in
        let alls = find_addr_by_name (codes "all") index in
        let everywhere = nets ++ (anys ++ alls) in
        let found = deduplicate_objects_by_id address_id [] everywhere in
        let (from, to) =
          Names-finalize (address_candidate CandidateMatchStrategy.builtin_any) i found in
        (
          λ names.
              let (o, m, e) = from names in
              elim (Elem-append o nets (anys ++ alls)
                (deduplicate_objects_by_id-Elem address_id o [] everywhere m)) [
                  | inl k ↦
                      let (here, p) =
                        (Elem-find_addr_by_prefix objs index built everything o).0 k in
                      (o, here, inl p, e)
                  | inr rest ↦ elim (Elem-append o anys alls rest) [
                    | inl k ↦
                        let (here, p) =
                          (Elem-find_addr_by_name objs index built (codes "any") o).0 k in
                        (o, here, inr (inl cc), e)
                    | inr k ↦
                        let (here, p) =
                          (Elem-find_addr_by_name objs index built (codes "all") o).0 k in
                        (o, here, inr (inr cc), e)
                  ]
                ],
          λ fitting.
              let (o, here, fits, e) = fitting in
              let m : Elem o everywhere = elim fits [
                | inl p ↦
                    Elem-append_left o nets (anys ++ alls)
                      ((Elem-find_addr_by_prefix objs index built everything o).1 (here, p))
                | inr (inl p) ↦ Elem-append_right o nets (anys ++ alls) (
                    Elem-append_left o anys alls (
                      (Elem-find_addr_by_name objs index built (codes "any") o).1
                        (here, ap (λ (t : Text). some t) p)))
                | inr (inr p) ↦ Elem-append_right o nets (anys ++ alls) (
                    Elem-append_right o anys alls (
                      (Elem-find_addr_by_name objs index built (codes "all") o).1
                        (here, ap (λ (t : Text). some t) p)))
              ] in
              elim (deduplicate_objects_by_id-keeps address_id o [] everywhere m) [
                | inl known ↦ cc
                | inr (y, k, same) ↦ to (y, k, same ∙ e)
              ],
        )

    module _ (ip : IpAddress) (c : CanonicalAddrObject) where
      match_fqdn-exact : Names i (match_fqdn ip c index) ↔ FittingAddress (AddressFits ip c fqdn)
      unfolding match_fqdn
      match_fqdn-exact = elim (Option-cases (truthy c.fqdn)) [
        | inl missing ↦
            same-exact (AddressFits ip c fqdn) (match_fqdn ip c index) (finalize [])
              (rw (missing, match_fqdn) refl) (none_found-exact (AddressFits ip c fqdn) (λ o f. cc))
        | inr (name, given) ↦
            same-exact (AddressFits ip c fqdn) (match_fqdn ip c index)
              (values_of (find_addr_by_fqdn name index)) (rw (given, match_fqdn) refl)
              (found-exact (AddressFits ip c fqdn) CandidateMatchStrategy.exact_value
                (find_addr_by_fqdn name index)
                (λ o.
                  let (from, to) = Elem-find_addr_by_fqdn objs index built name o in
                  (λ m. ((from m).0, (name, given, (from m).1)), λ f. to (f.0, cc))))
      ]

      match_host-exact : Names i (match_host ip c index) ↔ FittingAddress (AddressFits ip c host)
      unfolding match_host
      match_host-exact = elim (Option-cases (truthy c.cidr)) [
        | inl missing ↦
            same-exact (AddressFits ip c host) (match_host ip c index) (finalize [])
              (rw (missing, match_host) refl) (none_found-exact (AddressFits ip c host) (λ o f. cc))
        | inr (text, given) ↦ elim (Option-cases (ip.ipv4_address (before_slash text))) [
          | inl bad ↦
              same-exact (AddressFits ip c host) (match_host ip c index) []
                (rw (given, bad, match_host) refl) (none-exact (AddressFits ip c host) (λ o f. cc))
          | inr (h, parsed) ↦
              same-exact (AddressFits ip c host) (match_host ip c index)
                (values_of (find_addr_by_host h index)) (rw (given, parsed, match_host) refl)
                (found-exact (AddressFits ip c host) CandidateMatchStrategy.exact_value
                  (find_addr_by_host h index)
                  (λ o.
                    let (from, to) = Elem-find_addr_by_host objs index built h o in
                    (λ m. ((from m).0, (text, h, given, parsed, (from m).1)), λ f. to (f.0, cc))))
        ]
      ]

      match_subnet-exact :
          Names i (match_subnet ip c index) ↔ FittingAddress (AddressFits ip c subnet)
      unfolding match_subnet
      match_subnet-exact = elim (Option-cases (truthy c.cidr)) [
        | inl missing ↦
            same-exact (AddressFits ip c subnet) (match_subnet ip c index) (finalize [])
              (rw (missing, match_subnet) refl)
              (none_found-exact (AddressFits ip c subnet) (λ o f. cc))
        | inr (text, given) ↦ elim (Option-cases (ip.ipv4_network text)) [
          | inl bad ↦
              same-exact (AddressFits ip c subnet) (match_subnet ip c index) []
                (rw (given, bad, match_subnet) refl)
                (none-exact (AddressFits ip c subnet) (λ o f. cc))
          | inr (n, parsed) ↦
              same-exact (AddressFits ip c subnet) (match_subnet ip c index)
                (values_of (find_addr_by_prefix n index)) (rw (given, parsed, match_subnet) refl)
                (found-exact (AddressFits ip c subnet) CandidateMatchStrategy.exact_value
                  (find_addr_by_prefix n index)
                  (λ o.
                    let (from, to) = Elem-find_addr_by_prefix objs index built n o in
                    (λ m. ((from m).0, (text, n, given, parsed, (from m).1)), λ f. to (f.0, cc))))
        ]
      ]

      match_range-exact : Names i (match_range ip c index) ↔ FittingAddress (AddressFits ip c range)
      unfolding match_range
      match_range-exact = elim (Option-cases (truthy c.range_start)) [
        | inl missing ↦
            same-exact (AddressFits ip c range) (match_range ip c index) (finalize [])
              (rw (missing, match_range) refl)
              (none_found-exact (AddressFits ip c range) (λ o f. cc))
        | inr (start, starts) ↦ elim (Option-cases (truthy c.range_end)) [
          | inl missing ↦
              same-exact (AddressFits ip c range) (match_range ip c index) (finalize [])
                (rw (starts, missing, match_range) refl)
                (none_found-exact (AddressFits ip c range) (λ o f. cc))
          | inr (end, ends) ↦ elim (Option-cases (ip.ipv4_address start)) [
            | inl bad ↦
                same-exact (AddressFits ip c range) (match_range ip c index) []
                  (rw (starts, ends, bad, match_range) refl)
                  (none-exact (AddressFits ip c range) (λ o f. cc))
            | inr (first, p) ↦ elim (Option-cases (ip.ipv4_address end)) [
              | inl bad ↦
                  same-exact (AddressFits ip c range) (match_range ip c index) []
                    (rw (starts, ends, p, bad, match_range) refl)
                    (none-exact (AddressFits ip c range) (λ o f. cc))
              | inr (last, q) ↦
                  same-exact (AddressFits ip c range) (match_range ip c index)
                    (values_of (find_addr_by_range first last index))
                    (rw (starts, ends, p, q, match_range) refl)
                    (found-exact (AddressFits ip c range) CandidateMatchStrategy.exact_value
                      (find_addr_by_range first last index)
                      (λ o.
                        let (from, to) = Elem-find_addr_by_range objs index built first last o in
                        (
                          λ m. (
                            (from m).0,
                            (start, end, first, last, starts, ends, p, q, (from m).1),
                          ),
                          λ f. to (f.0, cc),
                        )))
            ]
          ]
        ]
      ]

      kind-exact :
          (kind : CanonicalAddrObjKind)
          → c.kind ≡ kind
          → Names i (match_address ip c index) ↔ FittingAddress (AddressFits ip c kind)
      unfolding match_address
      kind-exact any_addr k = rw (k, match_address) (match_any_addr-exact ip c)
      kind-exact host k = rw (k, match_address) match_host-exact
      kind-exact subnet k = rw (k, match_address) match_subnet-exact
      kind-exact range k = rw (k, match_address) match_range-exact
      kind-exact fqdn k = rw (k, match_address) match_fqdn-exact
      kind-exact unresolved_addr k =
          rw (k, match_address) (none-exact (AddressFits ip c unresolved_addr) (λ o f. f))
      kind-exact addr_group k =
          rw (k, match_address) (none-exact (AddressFits ip c addr_group) (λ o f. f))

      -- The candidates of a canonical address object name exactly the objects of an indexed catalog,
      -- of which the first of each identifier counts, that fit it: for any address those of the
      -- network 0.0.0.0/0 or of the name any or all; for a host, a subnet, a range or a domain name
      -- those of the same value, if the text of the canonical object is read; none otherwise.
      pub match_address_exact :
          Names i (match_address ip c index) ↔ FittingAddress (AddressFits ip c c.kind)
      match_address_exact = kind-exact c.kind refl
