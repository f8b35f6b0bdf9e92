-- ===== src/Mapping/Normalizer.antt =====
-- The normal forms of names and of the lists of a catalog
-- (src/app/modules/mapping/services/mapping_objects/normalizer.py).
use nsp_migrator.Prelude.{
  ℕ, ◌≡◌, ◌⊎◌, inl, inr, ap, sym, refl, ◌∙◌, Bool, true, false, ◌&&◌, ◌||◌, List, [], ◌∷◌, reverse,
  leb, if◌then◌else◌, Elem, Bool-cases,
}
use nsp_migrator.Prelude.Eq.{contains, nat_eq, ==-cases, ◌==◌}
use nsp_migrator.Prelude.Text.{Text, codes, strip, lower, split, join}

-- `[a-z0-9]`
unfoldable pub is_name_char : ℕ → Bool
is_name_char c = (leb b'a' c && leb c b'z') || (leb b'0' c && leb c b'9')

-- `_NORMALIZE_RE.sub(" ", s)`; the flag is set inside a run of other characters
unfoldable pub space_runs : Bool → Text → Text
unfolding is_name_char
space_runs in_run [] = []
space_runs in_run (c ∷ s) = elim (is_name_char c) [
  | true ↦ c ∷ space_runs false s
  | false ↦ if in_run then space_runs true s else b' ' ∷ space_runs true s
]

unfoldable pub normalize_name : Text → Text
unfolding strip lower space_runs split join
normalize_name value = join (codes " ") (split [] (space_runs false (lower (strip value))))

unfoldable pub drop_dots : Text → Text
unfolding nat_eq
drop_dots [] = []
drop_dots (c ∷ s) = let rest = drop_dots s in if c == b'.' then rest else c ∷ s

-- `normalize_fqdn`
unfoldable pub normalize_fqdn : Text → Text
unfolding strip lower drop_dots
normalize_fqdn value = reverse (drop_dots (reverse (lower (strip value))))

module _ {A : Type 0} (id_of : A → ℕ) where
  -- `deduplicate_objects_by_id`, with the identifiers seen
  unfoldable pub deduplicate_objects_by_id : List ℕ → List A → List A
  unfolding nat_eq
  deduplicate_objects_by_id seen [] = []
  deduplicate_objects_by_id seen (x ∷ xs) = elim (contains (id_of x) seen) [
    | true ↦ deduplicate_objects_by_id seen xs
    | false ↦ x ∷ deduplicate_objects_by_id (id_of x ∷ seen) xs
  ]

  pub deduplicate_objects_by_id-Elem :
      (x : A) (seen : List ℕ) (xs : List A) → Elem x (deduplicate_objects_by_id seen xs) → Elem x xs
  unfolding deduplicate_objects_by_id
  deduplicate_objects_by_id-Elem x seen [] m = absurd m
  deduplicate_objects_by_id-Elem x seen (y ∷ ys) m = elim (Bool-cases (contains (id_of y) seen)) [
    | inl t ↦
        inr (deduplicate_objects_by_id-Elem x seen ys (rw (t, deduplicate_objects_by_id) at m))
    | inr t ↦ elim (rw (t, deduplicate_objects_by_id) at m) [
      | inl e ↦ inl e
      | inr k ↦ inr (deduplicate_objects_by_id-Elem x (id_of y ∷ seen) ys k)
    ]
  ]

  -- Every identifier is kept.
  pub deduplicate_objects_by_id-keeps :
      (x : A) (seen : List ℕ) (xs : List A)
      → Elem x xs
      → (contains (id_of x) seen ≡ true)
        ⊎ ((y : A) × Elem y (deduplicate_objects_by_id seen xs) × (id_of y ≡ id_of x))
  unfolding deduplicate_objects_by_id
  deduplicate_objects_by_id-keeps x seen [] m = absurd m
  deduplicate_objects_by_id-keeps x seen (y ∷ ys) (inl e) =
      elim (Bool-cases (contains (id_of y) seen)) [
        | inl t ↦ inl (ap (λ i. contains i seen) (ap id_of e) ∙ t)
        | inr t ↦ inr (rw (t, deduplicate_objects_by_id) (y, inl refl, sym (ap id_of e)))
      ]
  deduplicate_objects_by_id-keeps x seen (y ∷ ys) (inr m) =
      elim (Bool-cases (contains (id_of y) seen)) [
        | inl t ↦ rw (t, deduplicate_objects_by_id) (deduplicate_objects_by_id-keeps x seen ys m)
        | inr t ↦ elim (deduplicate_objects_by_id-keeps x (id_of y ∷ seen) ys m) [
          | inr (z, k, e) ↦ inr (rw (t, deduplicate_objects_by_id) (z, inr k, e))
          | inl known ↦ elim (==-cases (id_of x) (id_of y)) [
            | inl (_, e) ↦ inr (rw (t, deduplicate_objects_by_id) (y, inl refl, sym e))
            | inr (differs, _) ↦ inl (rw differs at known)
          ]
        ]
      ]
