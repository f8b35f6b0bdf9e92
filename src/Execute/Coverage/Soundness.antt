-- ===== src/Execute/Coverage/Soundness.antt =====
-- A covered rule matches no traffic that the covering rule does not match.
use nsp_migrator.Prelude.{
  ◌≡◌, ◌≢◌, ◌↔◌, refl, inl, inr, true, none, List, [], ◌∷◌, arith, Any, Elem,
}
use nsp_migrator.Prelude.Text.{Text}
use nsp_migrator.Execute.Rules.{src_addr_objects, dst_addr_objects, services, action_eq}
use nsp_migrator.Prelude.Eq.{list_eq, nat_eq}
use nsp_migrator.Execute.Names.{str_set_covers, is_superset}
use nsp_migrator.Execute.Signature.{
  Coverable, ResolvedCoverageValue, address_coverable, service_coverable,
}
use nsp_migrator.Execute.Resolver.{ResolvedRuleValues}
use nsp_migrator.Execute.Coverage.{analyze_values_coverage, analyze_operands, analyze_coverage}
use nsp_migrator.Execute.Coverage.Values.{
  CoverableBy, IsCovered, AllCovered, analyze_values_coverage_exact,
}
use nsp_migrator.Execute.Coverage.Meaning.{
  Endpoint, Flow, MatchesAddress, MatchesService, address_covers_sound, service_covers_sound,
  str_set_covers_sound, Elem→contains,
}

pub record Packet : Type 0 where
  pub src_zone : Text
  pub dst_zone : Text
  pub src : Endpoint
  pub dst : Endpoint
  pub flow : Flow

-- The traffic of a resolved rule: one value of each operand matches.
pub record Matches (r : ResolvedRuleValues) (p : Packet) : Type 0 where
  pub from_zone : Elem p.src_zone r.normalized.src_zones
  pub to_zone : Elem p.dst_zone r.normalized.dst_zones
  pub from_address : Any (λ v. MatchesAddress v.value p.src) r.src_addresses
  pub to_address : Any (λ v. MatchesAddress v.value p.dst) r.dst_addresses
  pub service : Any (λ v. MatchesService v.value p.flow) r.services

-- Both sets of zones are empty, or neither is and each planned zone is an existing one.
abbrev pub ZonesCovered : List Text → List Text → Type 0
ZonesCovered [] [] = Unit
ZonesCovered (e ∷ existing) [] = ⊥
ZonesCovered [] (p ∷ planned) = ⊥
ZonesCovered (e ∷ existing) (p ∷ planned) =
    (z : Text) → Elem z (p ∷ planned) → Elem z (e ∷ existing)

is_superset-Elem : (a b : List Text) → ((z : Text) → Elem z b → Elem z a) → is_superset a b ≡ true
unfolding is_superset
is_superset-Elem a [] h = refl
is_superset-Elem a (y ∷ b) h =
    rw (Elem→contains y a (h y (inl refl)), is_superset-Elem a b (λ z m. h z (inr m)))

str_set_covers-ZonesCovered : (a b : List Text) → (str_set_covers a b ≡ true) ↔ ZonesCovered a b
unfolding str_set_covers
str_set_covers-ZonesCovered [] [] = (λ h. tt, λ h. refl)
str_set_covers-ZonesCovered (e ∷ a) [] = (λ h. cc, λ h. absurd h)
str_set_covers-ZonesCovered [] (t ∷ b) = (λ h. cc, λ h. absurd h)
str_set_covers-ZonesCovered (e ∷ a) (t ∷ b) =
    (λ h z m. str_set_covers_sound (e ∷ a) (t ∷ b) z h m, λ h. is_superset-Elem (e ∷ a) (t ∷ b) h)

ZonesCovered-Elem : (a b : List Text) (z : Text) → ZonesCovered a b → Elem z b → Elem z a
ZonesCovered-Elem [] [] z h m = m
ZonesCovered-Elem (e ∷ a) [] z h m = absurd h
ZonesCovered-Elem [] (t ∷ b) z h m = absurd h
ZonesCovered-Elem (e ∷ a) (t ∷ b) z h m = h z m

-- What `is_covered` stands for.
pub record Covers (existing planned : ResolvedRuleValues) : Type 0 where
  pub action : existing.normalized.action ≡ planned.normalized.action
  pub src_zones : ZonesCovered existing.normalized.src_zones planned.normalized.src_zones
  pub dst_zones : ZonesCovered existing.normalized.dst_zones planned.normalized.dst_zones
  pub src_addresses : CoverableBy existing.src_addresses planned.src_addresses
  pub dst_addresses : CoverableBy existing.dst_addresses planned.dst_addresses
  pub services : CoverableBy existing.services planned.services

analyze_operands_covered :
    (e p : ResolvedRuleValues)
    → (analyze_operands e p).is_covered ≡ true
    → (analyze_values_coverage src_addr_objects e.src_addresses p.src_addresses ≢ none)
      × (analyze_values_coverage dst_addr_objects e.dst_addresses p.dst_addresses ≢ none)
      × (analyze_values_coverage services e.services p.services ≢ none)
unfolding analyze_operands
analyze_operands_covered e p h = ground arith

operands_covered_analyze :
    (e p : ResolvedRuleValues)
    → (analyze_values_coverage src_addr_objects e.src_addresses p.src_addresses ≢ none)
    → (analyze_values_coverage dst_addr_objects e.dst_addresses p.dst_addresses ≢ none)
    → (analyze_values_coverage services e.services p.services ≢ none)
    → (analyze_operands e p).is_covered ≡ true
unfolding analyze_operands
operands_covered_analyze e p a b c = ground arith

-- A rule is reported as covered exactly when the actions agree; on either side both rules have no
-- zones, or both have some and each planned zone is an existing one; and the values of each operand
-- are covered.
pub analyze_coverage_exact :
    (e p : ResolvedRuleValues) → ((analyze_coverage e p).is_covered ≡ true) ↔ Covers e p
unfolding analyze_coverage
analyze_coverage_exact e p = (
  λ h.
      let operands : (analyze_operands e p).is_covered ≡ true = ground arith in
      let (src, dst, svc) = analyze_operands_covered e p operands in
      record {
        action = ground arith;
        src_zones =
            (str_set_covers-ZonesCovered e.normalized.src_zones p.normalized.src_zones).0
              (ground arith);
        dst_zones =
            (str_set_covers-ZonesCovered e.normalized.dst_zones p.normalized.dst_zones).0
              (ground arith);
        src_addresses =
            (analyze_values_coverage_exact src_addr_objects e.src_addresses p.src_addresses).0 src;
        dst_addresses =
            (analyze_values_coverage_exact dst_addr_objects e.dst_addresses p.dst_addresses).0 dst;
        services = (analyze_values_coverage_exact services e.services p.services).0 svc;
      },
  λ c.
      let src =
        (analyze_values_coverage_exact src_addr_objects e.src_addresses p.src_addresses).1
          c.src_addresses in
      let dst =
        (analyze_values_coverage_exact dst_addr_objects e.dst_addresses p.dst_addresses).1
          c.dst_addresses in
      let svc = (analyze_values_coverage_exact services e.services p.services).1 c.services in
      let from =
        (str_set_covers-ZonesCovered e.normalized.src_zones p.normalized.src_zones).1 c.src_zones in
      let to =
        (str_set_covers-ZonesCovered e.normalized.dst_zones p.normalized.dst_zones).1 c.dst_zones in
      ground (arith, operands_covered_analyze e p src dst svc, c.action, from, to),
)

module _ {A X : Type 0} ⦃c : Coverable A⦄ (M : A → X → Type 0)
    (sound : (a b : A) (x : X) → c.covers a b ≡ true → M b x → M a x) (x : X) where
  IsCovered-Any :
      (existing : List (ResolvedCoverageValue A)) (p : A)
      → IsCovered existing p
      → M p x
      → Any (λ v. M v.value x) existing
  IsCovered-Any [] p h m = absurd h
  IsCovered-Any (e ∷ es) p (inl h) m = inl (sound e.value p x h m)
  IsCovered-Any (e ∷ es) p (inr h) m = inr (IsCovered-Any es p h m)

  AllCovered-Any :
      (existing planned : List (ResolvedCoverageValue A))
      → AllCovered existing planned
      → Any (λ v. M v.value x) planned
      → Any (λ v. M v.value x) existing
  AllCovered-Any existing [] h m = absurd m
  AllCovered-Any existing (p ∷ ps) h (inl m) = IsCovered-Any existing p.value h.0 m
  AllCovered-Any existing (p ∷ ps) h (inr m) = AllCovered-Any existing ps h.1 m

  CoverableBy-Any :
      (existing planned : List (ResolvedCoverageValue A))
      → CoverableBy existing planned
      → Any (λ v. M v.value x) planned
      → Any (λ v. M v.value x) existing
  CoverableBy-Any [] [] h m = m
  CoverableBy-Any (e ∷ existing) [] h m = absurd m
  CoverableBy-Any [] (p ∷ planned) h m = absurd h
  CoverableBy-Any (e ∷ existing) (p ∷ planned) h m = AllCovered-Any (e ∷ existing) (p ∷ planned) h m

-- If a planned rule is reported as covered, the existing rule has the same normalized action and
-- matches every packet that the planned rule matches.
pub analyze_coverage_sound :
    (e p : ResolvedRuleValues)
    → (analyze_coverage e p).is_covered ≡ true
    → (e.normalized.action ≡ p.normalized.action) × ((k : Packet) → Matches p k → Matches e k)
analyze_coverage_sound e p h =
    let c = (analyze_coverage_exact e p).0 h in
    (
      c.action,
      λ k m. record {
        from_zone = ZonesCovered-Elem _ _ k.src_zone c.src_zones m.from_zone;
        to_zone = ZonesCovered-Elem _ _ k.dst_zone c.dst_zones m.to_zone;
        from_address =
            CoverableBy-Any MatchesAddress address_covers_sound k.src e.src_addresses
              p.src_addresses c.src_addresses m.from_address;
        to_address =
            CoverableBy-Any MatchesAddress address_covers_sound k.dst e.dst_addresses
              p.dst_addresses c.dst_addresses m.to_address;
        service =
            CoverableBy-Any MatchesService service_covers_sound k.flow e.services p.services
              c.services m.service;
      },
    )
