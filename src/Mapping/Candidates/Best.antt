-- ===== src/Mapping/Candidates/Best.antt =====
-- The finalized candidates are the best drafts, in the order of their scores.
use nsp_migrator.Prelude.{
  ℕ, ◌+◌, ◌≤◌, ◌<◌, ap, ◌≡◌, refl, sym, ◌∙◌, ◌⊎◌, inl, inr, true, some, List, [], ◌∷◌, arith, Elem,
  Option-cases, Bool-cases, ltb,
}
use nsp_migrator.Prelude.Eq.{==-cases, nat_eq}
use nsp_migrator.Prelude.Dict.{Dict, lookup, insert, values, lookup-insert, lookup-insert_same}
use nsp_migrator.Prelude.Sort.{sorted, Ordered, sorted-Ordered, Elem-sorted}
use nsp_migrator.Mapping.Entities.{MappingEntityCandidatePayload}
use nsp_migrator.Mapping.Candidates.{
  CandidateDraft, keep_better, best_by_id, by_score, ranked, finalize,
}

-- The entry of the identifier `i` is a draft of that identifier with at least the score `s`.
abbrev Holds : Dict ℕ CandidateDraft → ℕ → ℕ → Type 0
Holds d i s = (c : CandidateDraft) × (lookup i d ≡ some c) × (c.sdwan_entity_id ≡ i) × (s ≤ c.score)

abbrev IsKeyed : Dict ℕ CandidateDraft → Type 0
IsKeyed d = (i : ℕ) (c : CandidateDraft) → lookup i d ≡ some c → c.sdwan_entity_id ≡ i

insert-IsKeyed :
    (c : CandidateDraft) (d : Dict ℕ CandidateDraft)
    → IsKeyed d
    → IsKeyed (insert c.sdwan_entity_id c d)
insert-IsKeyed c d h i x e = elim (==-cases i c.sdwan_entity_id) [
  | inl (t, same) ↦
      let eq : c ≡ x = cc (rw t at (sym (lookup-insert i c.sdwan_entity_id c d) ∙ e)) in
      rw (sym eq) (sym same)
  | inr (t, _) ↦ h i x (rw t at (sym (lookup-insert i c.sdwan_entity_id c d) ∙ e))
]

keep_better-IsKeyed :
    (c : CandidateDraft) (d : Dict ℕ CandidateDraft) → IsKeyed d → IsKeyed (keep_better c d)
unfolding keep_better
keep_better-IsKeyed c d h = elim (Option-cases (lookup c.sdwan_entity_id d)) [
  | inl f ↦ rw (f, keep_better) (insert-IsKeyed c d h)
  | inr (x, f) ↦ elim (Bool-cases (ltb x.score c.score)) [
    | inl t ↦ rw (f, keep_better) (rw t (insert-IsKeyed c d h))
    | inr t ↦ rw (f, keep_better) (rw t h)
  ]
]

-- A draft is held after its round, and what was held stays held.
keep_better-Holds :
    (c : CandidateDraft) (d : Dict ℕ CandidateDraft)
    → IsKeyed d
    → Holds (keep_better c d) c.sdwan_entity_id c.score
unfolding keep_better
keep_better-Holds c d h = elim (Option-cases (lookup c.sdwan_entity_id d)) [
  | inl f ↦ (c, rw (f, keep_better) (lookup-insert_same c.sdwan_entity_id c d), refl, omega arith)
  | inr (x, f) ↦ elim (Bool-cases (ltb x.score c.score)) [
    | inl t ↦ (
      c,
      rw (f, keep_better) (rw t (lookup-insert_same c.sdwan_entity_id c d)),
      refl,
      omega arith,
    )
    | inr t ↦ (x, rw (f, keep_better) (rw t f), h c.sdwan_entity_id x f, ground (arith, t))
  ]
]

Holds-keep_better :
    (c : CandidateDraft) (d : Dict ℕ CandidateDraft) (i s : ℕ)
    → Holds d i s
    → Holds (keep_better c d) i s
unfolding keep_better
Holds-keep_better c d i s (x, e, own, le) = elim (Option-cases (lookup c.sdwan_entity_id d)) [
  | inl f ↦
      rw (f, keep_better)
        (elim (==-cases i c.sdwan_entity_id) [
          | inl (_, same) ↦ cc (rw same at e)
          | inr (t, _) ↦ (x, lookup-insert i c.sdwan_entity_id c d ∙ (rw t e), own, le)
        ])
  | inr (y, f) ↦ elim (Bool-cases (ltb y.score c.score)) [
    | inr u ↦ rw (f, keep_better) (rw u (x, e, own, le))
    | inl u ↦
        rw (f, keep_better)
          (rw u (elim (==-cases i c.sdwan_entity_id) [
            | inl (t, same) ↦
                let eq : x ≡ y = cc (e, f, same) in
                (
                  c,
                  lookup-insert i c.sdwan_entity_id c d ∙ (rw t refl),
                  sym same,
                  ground (arith, u, le, eq),
                )
            | inr (t, _) ↦ (x, lookup-insert i c.sdwan_entity_id c d ∙ (rw t e), own, le)
          ]))
  ]
]

Holds-best_by_id :
    (cs : List CandidateDraft) (d : Dict ℕ CandidateDraft) (i s : ℕ)
    → Holds d i s
    → Holds (best_by_id cs d) i s
unfolding best_by_id
Holds-best_by_id [] d i s h = h
Holds-best_by_id (c ∷ cs) d i s h =
    Holds-best_by_id cs (keep_better c d) i s (Holds-keep_better c d i s h)

best_by_id-Holds :
    (cs : List CandidateDraft) (d : Dict ℕ CandidateDraft) (c : CandidateDraft)
    → IsKeyed d
    → Elem c cs
    → Holds (best_by_id cs d) c.sdwan_entity_id c.score
unfolding best_by_id
best_by_id-Holds [] d c h m = absurd m
best_by_id-Holds (x ∷ cs) d c h (inl e) =
    rw e (Holds-best_by_id cs (keep_better x d) x.sdwan_entity_id x.score (keep_better-Holds x d h))
best_by_id-Holds (x ∷ cs) d c h (inr m) =
    best_by_id-Holds cs (keep_better x d) c (keep_better-IsKeyed x d h) m

-- Every entry is one of the drafts.
values-insert :
    (k : ℕ) (v x : CandidateDraft) (d : Dict ℕ CandidateDraft)
    → Elem x (values (insert k v d))
    → (x ≡ v) ⊎ Elem x (values d)
unfolding values insert
values-insert k v x [] (inl e) = inl e
values-insert k v x [] (inr m) = absurd m
values-insert k v x ((j, w) ∷ d) m = elim (==-cases k j) [
  | inl (t, _) ↦ elim (rw t at m) [ inl e ↦ inl e | inr n ↦ inr (inr n) ]
  | inr (t, _) ↦ elim (rw t at m) [
    | inl e ↦ inr (inl e)
    | inr n ↦ elim (values-insert k v x d n) [ inl e ↦ inl e | inr k' ↦ inr (inr k') ]
  ]
]

values-keep_better :
    (c x : CandidateDraft) (d : Dict ℕ CandidateDraft)
    → Elem x (values (keep_better c d))
    → (x ≡ c) ⊎ Elem x (values d)
unfolding keep_better
values-keep_better c x d m = elim (Option-cases (lookup c.sdwan_entity_id d)) [
  | inl f ↦ values-insert c.sdwan_entity_id c x d (rw (f, keep_better) at m)
  | inr (y, f) ↦ elim (Bool-cases (ltb y.score c.score)) [
    | inl t ↦ values-insert c.sdwan_entity_id c x d (rw t at (rw (f, keep_better) at m))
    | inr t ↦ inr (rw t at (rw (f, keep_better) at m))
  ]
]

values-best_by_id :
    (cs : List CandidateDraft) (x : CandidateDraft) (d : Dict ℕ CandidateDraft)
    → Elem x (values (best_by_id cs d))
    → Elem x cs ⊎ Elem x (values d)
unfolding best_by_id
values-best_by_id [] x d m = inr m
values-best_by_id (c ∷ cs) x d m = elim (values-best_by_id cs x (keep_better c d) m) [
  | inl n ↦ inl (inr n)
  | inr n ↦ elim (values-keep_better c x d n) [ inl e ↦ inl (inl e) | inr k ↦ inr k ]
]

Elem-lookup :
    (i : ℕ) (c : CandidateDraft) (d : Dict ℕ CandidateDraft)
    → lookup i d ≡ some c
    → Elem c (values d)
unfolding lookup values
Elem-lookup i c [] h = cc
Elem-lookup i c ((j, w) ∷ d) h = elim (==-cases i j) [
  | inl (t, _) ↦ let e : w ≡ c = cc (rw t at h) in inl (sym e)
  | inr (t, _) ↦ inr (Elem-lookup i c d (rw t at h))
]

by_score_total : (a b : CandidateDraft) → (by_score a b ≡ true) ⊎ (by_score b a ≡ true)
unfolding by_score
by_score_total a b = ground arith

nothing-IsKeyed : IsKeyed []
unfolding lookup
nothing-IsKeyed i c e = cc

-- The drafts that are kept, before they are ranked.
pub finalize-ranked :
    (cs : List CandidateDraft)
    → (ds : List CandidateDraft) × (finalize cs ≡ ranked 1 ds)
      × Ordered by_score ds
      × ((x : CandidateDraft) → Elem x ds → Elem x cs)
      × ((c : CandidateDraft)
          → Elem c cs
          → (x : CandidateDraft) × Elem x ds
            × (x.sdwan_entity_id ≡ c.sdwan_entity_id)
            × (c.score ≤ x.score))
unfolding finalize values
finalize-ranked cs =
    let kept = values (best_by_id cs []) in
    (
      sorted by_score kept,
      refl,
      sorted-Ordered by_score by_score_total kept,
      λ x m. elim (values-best_by_id cs x [] ((Elem-sorted by_score x kept).0 m)) [
        | inl n ↦ n
        | inr n ↦ absurd n
      ],
      λ c m.
          let (x, e, own, le) = best_by_id-Holds cs [] c nothing-IsKeyed m in
          (
            x,
            (Elem-sorted by_score x kept).1 (Elem-lookup c.sdwan_entity_id x (best_by_id cs []) e),
            own,
            le,
          ),
    )

-- The ranks count up from a number.
abbrev pub IsRanked : ℕ → List MappingEntityCandidatePayload → Type 0
IsRanked n [] = Unit
IsRanked n (p ∷ ps) = (p.rank ≡ n) × IsRanked (n + 1) ps

-- The scores fall, and the identifiers rise among equal scores.
abbrev pub IsFalling : List MappingEntityCandidatePayload → Type 0
IsFalling [] = Unit
IsFalling (p ∷ []) = Unit
IsFalling (p ∷ q ∷ ps) =
    ((q.score < p.score) ⊎ ((q.score ≡ p.score) × (p.sdwan_entity_id ≤ q.sdwan_entity_id)))
    × IsFalling (q ∷ ps)

-- The candidate shows the draft.
abbrev pub Shows : MappingEntityCandidatePayload → CandidateDraft → Type 0
Shows p c =
    (p.sdwan_entity_id ≡ c.sdwan_entity_id) × (p.score ≡ c.score) × (p.strategy ≡ c.strategy)

ranked-IsRanked : (n : ℕ) (cs : List CandidateDraft) → IsRanked n (ranked n cs)
unfolding ranked
ranked-IsRanked n [] = tt
ranked-IsRanked n (c ∷ cs) = (refl, ranked-IsRanked (n + 1) cs)

by_score-falls :
    (a b : CandidateDraft)
    → by_score a b ≡ true
    → (b.score < a.score) ⊎ ((b.score ≡ a.score) × (a.sdwan_entity_id ≤ b.sdwan_entity_id))
unfolding by_score
by_score-falls a b h = ground arith

ranked-IsFalling :
    (n : ℕ) (cs : List CandidateDraft) → Ordered by_score cs → IsFalling (ranked n cs)
unfolding ranked
ranked-IsFalling n [] h = tt
ranked-IsFalling n (c ∷ []) h = tt
ranked-IsFalling n (c ∷ d ∷ cs) h = (by_score-falls c d h.0, ranked-IsFalling (n + 1) (d ∷ cs) h.1)

Elem-of_ranked :
    (n : ℕ) (p : MappingEntityCandidatePayload) (cs : List CandidateDraft)
    → Elem p (ranked n cs)
    → (c : CandidateDraft) × Elem c cs × Shows p c
unfolding ranked
Elem-of_ranked n p [] m = absurd m
Elem-of_ranked n p (c ∷ cs) (inl e) = (
  c,
  inl refl,
  (
    ap (λ (x : MappingEntityCandidatePayload). x.sdwan_entity_id) e,
    ap (λ (x : MappingEntityCandidatePayload). x.score) e,
    ap (λ (x : MappingEntityCandidatePayload). x.strategy) e,
  ),
)
Elem-of_ranked n p (c ∷ cs) (inr m) =
    let (d, k, shown) = Elem-of_ranked (n + 1) p cs m in (d, inr k, shown)

Elem-ranked :
    (n : ℕ) (c : CandidateDraft) (cs : List CandidateDraft)
    → Elem c cs
    → (p : MappingEntityCandidatePayload) × Elem p (ranked n cs) × Shows p c
unfolding ranked
Elem-ranked n c [] m = absurd m
Elem-ranked n c (d ∷ cs) (inl e) = (
  _,
  inl refl,
  (
    ap (λ (x : CandidateDraft). x.sdwan_entity_id) (sym e),
    ap (λ (x : CandidateDraft). x.score) (sym e),
    ap (λ (x : CandidateDraft). x.strategy) (sym e),
  ),
)
Elem-ranked n c (d ∷ cs) (inr m) =
    let (p, k, shown) = Elem-ranked (n + 1) c cs m in (p, inr k, shown)

-- The finalized candidates have the ranks from one on; their scores fall, and among equal scores the
-- identifiers rise; each shows the object, the score and the strategy of one of the drafts; and for
-- every draft there is one of its SD-WAN object whose score is at least as high.
pub finalize_best :
    (cs : List CandidateDraft)
    → IsRanked 1 (finalize cs)
      × IsFalling (finalize cs)
      × ((p : MappingEntityCandidatePayload)
          → Elem p (finalize cs)
          → (c : CandidateDraft) × Elem c cs × Shows p c)
      × ((c : CandidateDraft)
          → Elem c cs
          → (p : MappingEntityCandidatePayload) × Elem p (finalize cs)
            × (p.sdwan_entity_id ≡ c.sdwan_entity_id)
            × (c.score ≤ p.score))
finalize_best cs =
    let (ds, e, ordered, drafts, best) = finalize-ranked cs in
    rw e (
      ranked-IsRanked 1 ds,
      ranked-IsFalling 1 ds ordered,
      λ p m. let (c, k, shown) = Elem-of_ranked 1 p ds m in (c, drafts c k, shown),
      λ c m.
          let (x, k, own, le) = best c m in
          let (p, l, (id, score, _)) = Elem-ranked 1 x ds k in
          (p, l, id ∙ own, omega (arith, score, le)),
    )
