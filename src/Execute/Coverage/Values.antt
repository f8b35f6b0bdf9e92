-- ===== src/Execute/Coverage/Values.antt =====
-- What `_analyze_values_coverage` decides, and the evidence that it returns.
use nsp_migrator.Prelude.{
  ◌≡◌, ◌≢◌, ◌↔◌, ◌⊎◌, refl, sym, subst, ◌∙◌, inl, inr, true, false, none, some, List, [], ◌∷◌, ◌++◌,
  arith, if◌then◌else◌, All, Any, Bool-cases, Option-cases,
}
use mathlib.Core.List.{append-nil, append_assoc}
use nsp_migrator.Prelude.Eq.{◌==◌, ==-cases}
use nsp_migrator.Prelude.Dict.{lookup, get_list, get_list-append_at}
use nsp_migrator.Execute.Rules.{CoverageField, CoverageValue, CoverageDetail, coverage_value_eq}
use nsp_migrator.Execute.Signature.{Coverable, ResolvedCoverageValue, signature_eq}
use nsp_migrator.Execute.Coverage.{
  Covered, first_covering, record_coverage, collect_coverage, details_of, analyze_values_coverage,
}

module _ {A : Type 0} ⦃c : Coverable A⦄ where
  -- Some existing value covers `p`.
  abbrev pub IsCovered : List (ResolvedCoverageValue A) → A → Type 0
  IsCovered existing p = Any (λ e. c.covers e.value p ≡ true) existing

  -- Every planned value is covered by one existing value.
  abbrev pub AllCovered : List (ResolvedCoverageValue A) → List (ResolvedCoverageValue A) → Type 0
  AllCovered existing planned = All (λ p. IsCovered existing p.value) planned

  first_covering_found :
      (existing : List (ResolvedCoverageValue A)) (p : A) (e : ResolvedCoverageValue A)
      → first_covering existing p ≡ some e
      → IsCovered existing p
  unfolding first_covering
  first_covering_found [] p e h = cc
  first_covering_found (x ∷ xs) p e h = elim (Bool-cases (c.covers x.value p)) [
    | inl t ↦ inl t
    | inr t ↦ inr (first_covering_found xs p e (ground arith))
  ]

  first_covering_missing :
      (existing : List (ResolvedCoverageValue A)) (p : A)
      → first_covering existing p ≡ none
      → IsCovered existing p
      → ⊥
  unfolding first_covering
  first_covering_missing [] p h m = m
  first_covering_missing (x ∷ xs) p h (inl t) = ground arith
  first_covering_missing (x ∷ xs) p h (inr m) = first_covering_missing xs p (ground arith) m

  collect_coverage_sound :
      (existing planned : List (ResolvedCoverageValue A)) (d d' : Covered)
      → collect_coverage existing planned d ≡ some d'
      → AllCovered existing planned
  unfolding collect_coverage
  collect_coverage_sound existing [] d d' h = tt
  collect_coverage_sound existing (p ∷ ps) d d' h =
      elim (Option-cases (first_covering existing p.value)) [
        | inl missing ↦ absurd (ground arith)
        | inr (e, found) ↦ (
          first_covering_found existing p.value e found,
          collect_coverage_sound existing ps (record_coverage e p d) d' (ground arith),
        )
      ]

  collect_coverage_complete :
      (existing planned : List (ResolvedCoverageValue A)) (d : Covered)
      → AllCovered existing planned
      → (d' : Covered) × (collect_coverage existing planned d ≡ some d')
  unfolding collect_coverage
  collect_coverage_complete existing [] d h = (d, refl)
  collect_coverage_complete existing (p ∷ ps) d h =
      elim (Option-cases (first_covering existing p.value)) [
        | inl missing ↦ absurd (first_covering_missing existing p.value missing h.0)
        | inr (e, found) ↦
            let (d', done) = collect_coverage_complete existing ps (record_coverage e p d) h.1 in
            (d', ground arith)
      ]

  -- Both lists are empty, or neither is and all planned values are covered.
  abbrev pub CoverableBy : List (ResolvedCoverageValue A) → List (ResolvedCoverageValue A) → Type 0
  CoverableBy [] [] = Unit
  CoverableBy (e ∷ existing) [] = ⊥
  CoverableBy [] (p ∷ planned) = ⊥
  CoverableBy (e ∷ existing) (p ∷ planned) = AllCovered (e ∷ existing) (p ∷ planned)

  -- The analysis returns details exactly when both lists are empty, or neither is and every
  -- planned value is covered by one existing value.
  pub analyze_values_coverage_exact :
      (field : CoverageField) (existing planned : List (ResolvedCoverageValue A))
      → (analyze_values_coverage field existing planned ≢ none) ↔ CoverableBy existing planned
  unfolding analyze_values_coverage
  analyze_values_coverage_exact field [] [] = (λ h. tt, λ h. cc)
  analyze_values_coverage_exact field (e ∷ existing) [] = (λ h. h refl, λ h. absurd h)
  analyze_values_coverage_exact field [] (p ∷ planned) = (λ h. h refl, λ h. absurd h)
  analyze_values_coverage_exact field (e ∷ existing) (p ∷ planned) = (
    λ h. elim (Option-cases (collect_coverage (e ∷ existing) (p ∷ planned) [])) [
      | inl t ↦ absurd (h (ground arith))
      | inr (d, t) ↦ collect_coverage_sound (e ∷ existing) (p ∷ planned) [] d t
    ],
    λ h. let (d, t) = collect_coverage_complete (e ∷ existing) (p ∷ planned) [] h in ground arith,
  )

  -- The first of the existing values that covers `p`.
  abbrev pub FirstCovers : List (ResolvedCoverageValue A) → A → ResolvedCoverageValue A → Type 0
  FirstCovers [] p e = ⊥
  FirstCovers (x ∷ xs) p e =
      ((c.covers x.value p ≡ true) × (e ≡ x)) ⊎ ((c.covers x.value p ≡ false) × FirstCovers xs p e)

  first_covering-FirstCovers :
      (existing : List (ResolvedCoverageValue A)) (p : A) (e : ResolvedCoverageValue A)
      → first_covering existing p ≡ some e
      → FirstCovers existing p e
  unfolding first_covering
  first_covering-FirstCovers [] p e h = cc
  first_covering-FirstCovers (x ∷ xs) p e h = elim (Bool-cases (c.covers x.value p)) [
    | inl t ↦ let same : x ≡ e = cc (rw t at h) in inl (t, sym same)
    | inr t ↦ inr (t, first_covering-FirstCovers xs p e (rw t at h))
  ]

  -- The evidence of `p` under `v`, if `e` covers `p` and is another value.
  abbrev pub strict_delta :
      CoverageValue → ResolvedCoverageValue A → ResolvedCoverageValue A → List CoverageValue
  strict_delta v e p =
      if c.signature e.value == c.signature p.value
      then []
      else if v == e.evidence
      then p.evidence ∷ []
      else []

  -- The planned evidence under the covering value `v`: each planned value has a first value that
  -- covers it, and is listed if that one has the evidence `v` and another signature.
  abbrev pub Listed :
      CoverageValue
      → List (ResolvedCoverageValue A)
      → List (ResolvedCoverageValue A)
      → List CoverageValue
      → Type 0
  Listed v existing [] out = out ≡ []
  Listed v existing (p ∷ ps) out =
      (e : ResolvedCoverageValue A) × (rest : List CoverageValue) × FirstCovers existing p.value e
      × (out ≡ strict_delta v e p ++ rest)
      × Listed v existing ps rest

  -- The same, by the search of the code.
  abbrev strict_evidence :
      CoverageValue
      → List (ResolvedCoverageValue A)
      → List (ResolvedCoverageValue A)
      → List CoverageValue
  strict_evidence v existing [] = []
  strict_evidence v existing (p ∷ ps) =
      let rest = strict_evidence v existing ps in
      elim (first_covering existing p.value) [ none ↦ rest | some e ↦ strict_delta v e p ++ rest ]

  strict_evidence-Listed :
      (v : CoverageValue) (existing planned : List (ResolvedCoverageValue A)) (d d' : Covered)
      → collect_coverage existing planned d ≡ some d'
      → Listed v existing planned (strict_evidence v existing planned)
  unfolding collect_coverage
  strict_evidence-Listed v existing [] d d' h = refl
  strict_evidence-Listed v existing (p ∷ ps) d d' h =
      elim (Option-cases (first_covering existing p.value)) [
        | inl missing ↦ absurd (ground arith)
        | inr (e, found) ↦ (
          e,
          strict_evidence v existing ps,
          first_covering-FirstCovers existing p.value e found,
          rw (found, strict_evidence) refl,
          strict_evidence-Listed v existing ps (record_coverage e p d) d' (ground arith),
        )
      ]

  get_list-record_coverage :
      (v : CoverageValue) (e p : ResolvedCoverageValue A) (d : Covered)
      → get_list v (record_coverage e p d) ≡ get_list v d ++ strict_delta v e p
  unfolding record_coverage
  get_list-record_coverage v e p d = elim (==-cases (c.signature e.value) (c.signature p.value)) [
    | inl (t, _) ↦ rw t (rw append-nil)
    | inr (t, _) ↦ rw t (elim (==-cases v e.evidence) [
      | inl (same, _) ↦ rw (get_list-append_at v e.evidence p.evidence d, same)
      | inr (other, _) ↦ rw (get_list-append_at v e.evidence p.evidence d, other) (rw append-nil)
    ])
  ]

  -- After a successful walk the entry of a covering value holds, in the order of the plan, the
  -- evidence of the planned values that it is the first to cover and whose signature differs.
  collect_coverage_evidence :
      (v : CoverageValue) (existing planned : List (ResolvedCoverageValue A)) (d d' : Covered)
      → collect_coverage existing planned d ≡ some d'
      → get_list v d' ≡ get_list v d ++ strict_evidence v existing planned
  unfolding collect_coverage
  collect_coverage_evidence v existing [] d d' h = let e : d' ≡ d = cc in rw (e, append-nil)
  collect_coverage_evidence v existing (p ∷ ps) d d' h =
      elim (Option-cases (first_covering existing p.value)) [
        | inl missing ↦ absurd (ground arith)
        | inr (e, found) ↦
            let step : collect_coverage existing ps (record_coverage e p d) ≡ some d' =
              ground arith in
            rw (found, strict_evidence)
              (collect_coverage_evidence v existing ps (record_coverage e p d) d' step
                ∙ rw get_list-record_coverage (
                    append_assoc (get_list v d) (strict_delta v e p)
                      (strict_evidence v existing ps)))
      ]

-- The covered values of the detail with the covering value `v`.
abbrev pub evidence_under : CoverageValue → List CoverageDetail → List CoverageValue
evidence_under v [] = []
evidence_under v (x ∷ xs) =
    let rest = evidence_under v xs in if v == x.covering_value then x.covered_values else rest

evidence_under-details_of :
    (v : CoverageValue) (field : CoverageField) (d : Covered)
    → evidence_under v (details_of field d) ≡ get_list v d
unfolding details_of lookup
evidence_under-details_of v field [] = refl
evidence_under-details_of v field ((w, vs) ∷ d) =
    ground (arith, evidence_under-details_of v field d)

-- The details of a successful analysis list, under each covering value, exactly the planned
-- values that it is the first to cover and whose signature differs, in the order of the plan.
pub analyze_values_coverage_evidence :
    {A : Type 0} ⦃c : Coverable A⦄ (field : CoverageField)
    (existing planned : List (ResolvedCoverageValue A)) (ds : List CoverageDetail)
    (v : CoverageValue)
    → analyze_values_coverage field existing planned ≡ some ds
    → Listed v existing planned (evidence_under v ds)
unfolding analyze_values_coverage
analyze_values_coverage_evidence field [] [] ds v h = let e : ds ≡ [] = cc in rw e refl
analyze_values_coverage_evidence field (e ∷ existing) [] ds v h = cc
analyze_values_coverage_evidence field [] (p ∷ planned) ds v h = cc
analyze_values_coverage_evidence field (e ∷ existing) (p ∷ planned) ds v h =
    elim (Option-cases (collect_coverage (e ∷ existing) (p ∷ planned) [])) [
      | inl t ↦ absurd (ground arith)
      | inr (d, t) ↦
          let same : ds ≡ details_of field d = ground arith in
          let out : evidence_under v ds ≡ strict_evidence v (e ∷ existing) (p ∷ planned) = rw same (
            evidence_under-details_of v field d
            ∙ unfold lookup in collect_coverage_evidence v (e ∷ existing) (p ∷ planned) [] d t) in
          subst (Listed v (e ∷ existing) (p ∷ planned)) (sym out)
            (strict_evidence-Listed v (e ∷ existing) (p ∷ planned) [] d t)
    ]
