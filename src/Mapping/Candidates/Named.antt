-- ===== src/Mapping/Candidates/Named.antt =====
-- The SD-WAN objects that the candidates name.
use nsp_migrator.Prelude.{
  ℕ, ◌+◌, ◌≡◌, ◌↔◌, refl, sym, ap, subst, ◌∙◌, inl, inr, List, [], ◌∷◌, map, Elem,
}
use nsp_migrator.Mapping.Entities.{MappingEntityCandidatePayload}
use nsp_migrator.Mapping.Candidates.{CandidateDraft, ranked, finalize}
use nsp_migrator.Mapping.Candidates.Best.{finalize-ranked}

-- Some payload names the SD-WAN object `i`.
abbrev pub Names : ℕ → List MappingEntityCandidatePayload → Type 0
Names i ps = (p : MappingEntityCandidatePayload) × Elem p ps × (p.sdwan_entity_id ≡ i)

Names-ranked :
    (n : ℕ) (c : CandidateDraft) (cs : List CandidateDraft)
    → Elem c cs
    → Names c.sdwan_entity_id (ranked n cs)
unfolding ranked
Names-ranked n c [] m = absurd m
Names-ranked n c (x ∷ cs) (inl e) =
    (_, inl refl, ap (λ (y : CandidateDraft). y.sdwan_entity_id) (sym e))
Names-ranked n c (x ∷ cs) (inr m) = let (p, k, e) = Names-ranked (n + 1) c cs m in (p, inr k, e)

ranked-Elem :
    (n : ℕ) (p : MappingEntityCandidatePayload) (cs : List CandidateDraft)
    → Elem p (ranked n cs)
    → (c : CandidateDraft) × Elem c cs × (p.sdwan_entity_id ≡ c.sdwan_entity_id)
unfolding ranked
ranked-Elem n p [] m = absurd m
ranked-Elem n p (x ∷ cs) (inl e) =
    (x, inl refl, ap (λ (y : MappingEntityCandidatePayload). y.sdwan_entity_id) e)
ranked-Elem n p (x ∷ cs) (inr m) = let (c, k, e) = ranked-Elem (n + 1) p cs m in (c, inr k, e)

module _ {A : Type 0} (candidate : A → CandidateDraft) where
  Elem-map : (x : A) (xs : List A) → Elem x xs → Elem (candidate x) (map candidate xs)
  Elem-map x [] m = absurd m
  Elem-map x (y ∷ ys) (inl e) = inl (ap candidate e)
  Elem-map x (y ∷ ys) (inr m) = inr (Elem-map x ys m)

  Elem-of_map :
      (c : CandidateDraft) (xs : List A)
      → Elem c (map candidate xs)
      → (x : A) × Elem x xs × (c ≡ candidate x)
  Elem-of_map c [] m = absurd m
  Elem-of_map c (x ∷ xs) (inl e) = (x, inl refl, e)
  Elem-of_map c (x ∷ xs) (inr m) = let (y, k, e) = Elem-of_map c xs m in (y, inr k, e)

  -- The finalized candidates of the objects found name exactly these objects.
  pub Names-finalize :
      (i : ℕ) (found : List A)
      → Names i (finalize (map candidate found))
        ↔ ((x : A) × Elem x found × ((candidate x).sdwan_entity_id ≡ i))
  Names-finalize i found =
      let (ds, same, _, from, covers) = finalize-ranked (map candidate found) in
      (
        λ names.
            let (p, m, e) = names in
            let (c, k, own) = ranked-Elem 1 p ds (subst (λ ps. Elem p ps) same m) in
            let (x, l, made) = Elem-of_map c found (from c k) in
            (x, l, ap (λ (y : CandidateDraft). y.sdwan_entity_id) (sym made) ∙ sym own ∙ e),
        λ object.
            let (x, l, e) = object in
            let (d, k, own, _) = covers (candidate x) (Elem-map x found l) in
            let (p, m, q) = Names-ranked 1 d ds k in
            (p, subst (λ ps. Elem p ps) (sym same) m, q ∙ own ∙ e),
      )
