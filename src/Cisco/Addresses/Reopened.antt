-- ===== src/Cisco/Addresses/Reopened.antt =====
-- An object that is opened again without an address.
use nsp_migrator.Prelude.{
  ℕ, ◌≡◌, refl, sym, ap, ◌∙◌, inl, inr, none, some, List, [], ◌∷◌, ◌++◌, All, Option-cases,
  append_assoc,
}
use nsp_migrator.Prelude.Text.{Text}
use nsp_migrator.Cisco.Endpoints.{or_else}
use nsp_migrator.Cisco.Objects.{AddressPayload}
use nsp_migrator.Cisco.Addresses.{
  last_typed, last_declaration, last_description, all_raw_lines, merge_object_network_declarations,
}

-- No declaration has a type.
abbrev pub IsUntyped : List (ℕ × AddressPayload) → Type 0
IsUntyped = All (λ (d : ℕ × AddressPayload). d.1.type ≡ none)

last_typed-IsUntyped : (ds : List (ℕ × AddressPayload)) → IsUntyped ds → last_typed ds ≡ none
unfolding last_typed
last_typed-IsUntyped [] h = refl
last_typed-IsUntyped ((i, p) ∷ ds) h = rw (last_typed-IsUntyped ds h.1, h.0, last_typed) refl

last_typed-append :
    (ds more : List (ℕ × AddressPayload)) → IsUntyped more → last_typed (ds ++ more) ≡ last_typed ds
unfolding last_typed
last_typed-append [] more h = last_typed-IsUntyped more h
last_typed-append ((i, p) ∷ ds) more h = rw (last_typed-append ds more h, last_typed) refl

last_description-append :
    (ds more : List (ℕ × AddressPayload))
    → last_description (ds ++ more) ≡ or_else (last_description more) (last_description ds)
unfolding last_description
last_description-append [] more = elim (Option-cases (last_description more)) [
  | inl e ↦ rw e refl
  | inr (t, e) ↦ rw e refl
]
last_description-append ((i, p) ∷ ds) more = elim (Option-cases (last_description more)) [
  | inl e ↦ rw (last_description-append ds more, e) refl
  | inr (t, e) ↦ rw (last_description-append ds more, e) refl
]

all_raw_lines-append :
    (ds more : List (ℕ × AddressPayload))
    → all_raw_lines (ds ++ more) ≡ all_raw_lines ds ++ all_raw_lines more
all_raw_lines-append [] more = refl
all_raw_lines-append ((i, p) ∷ ds) more =
    rw
      (
        all_raw_lines-append ds more,
        append_assoc p.raw_lines (all_raw_lines ds) (all_raw_lines more),
      )
      refl

last_typed-none :
    (i : ℕ) (p : AddressPayload) (ds : List (ℕ × AddressPayload))
    → last_typed ((i, p) ∷ ds) ≡ none
    → (last_typed ds ≡ none) × (p.type ≡ none)
unfolding last_typed
last_typed-none i p ds h = elim (Option-cases (last_typed ds)) [
  | inr (d, e) ↦ let bad = rw (e, last_typed) at h in absurd cc
  | inl e ↦ elim (Option-cases p.type) [
    | inl f ↦ (e, f)
    | inr (t, f) ↦ let bad = rw (e, f, last_typed) at h in absurd cc
  ]
]

-- Without a type there is none in the last declaration.
last_declaration_without_type :
    (ds : List (ℕ × AddressPayload)) (d : ℕ × AddressPayload)
    → last_typed ds ≡ none
    → last_declaration ds ≡ some d
    → d.1.type ≡ none
unfolding last_declaration
last_declaration_without_type [] d h e = absurd cc
last_declaration_without_type ((i, p) ∷ []) d h e =
    let same : (i, p) ≡ d = cc in rw (sym same) (last_typed-none i p [] h).1
last_declaration_without_type ((i, p) ∷ x ∷ ds) d h e =
    last_declaration_without_type (x ∷ ds) d (last_typed-none i p (x ∷ ds) h).0 e

-- what is merged of declarations with the given base
abbrev merged : List (ℕ × AddressPayload) → ℕ × AddressPayload → ℕ × AddressPayload
unfolding last_description
merged ds (i, base) =
    (i, record base { description = last_description ds; raw_lines = all_raw_lines ds })

-- A merged payload with a type stems from the last declaration with one.
merge-typed :
    (ds : List (ℕ × AddressPayload)) (d : ℕ × AddressPayload) (t : Text)
    → merge_object_network_declarations ds ≡ some d
    → d.1.type ≡ some t
    → (base : ℕ × AddressPayload) × (last_typed ds ≡ some base) × (d ≡ merged ds base)
unfolding merge_object_network_declarations
merge-typed ds d t h typed = elim (Option-cases (last_typed ds)) [
  | inr (base, e) ↦
      let here = rw (e, merge_object_network_declarations) at h in
      let same : merged ds base ≡ d = cc in (base, e, sym same)
  | inl e ↦ elim (Option-cases (last_declaration ds)) [
    | inl f ↦ let bad = rw (e, f, merge_object_network_declarations) at h in absurd cc
    | inr (base, f) ↦
        let here = rw (e, f, merge_object_network_declarations) at h in
        let same : merged ds base ≡ d = cc in
        let untyped : base.1.type ≡ none = last_declaration_without_type ds base e f in
        let bad : base.1.type ≡ some t = ap (λ (x : ℕ × AddressPayload). x.1.type) same ∙ typed in
        absurd cc
  ]
]

-- If the merged declarations of an object have a type, and it is opened again by declarations without
-- one, then the merged object keeps its position and its address; it has the last new description,
-- or else its own; and the new raw lines follow its own.
pub merge_object_network_declarations-reopened :
    (ds more : List (ℕ × AddressPayload)) (i : ℕ) (p : AddressPayload) (t : Text)
    → merge_object_network_declarations ds ≡ some (i, p)
    → p.type ≡ some t
    → IsUntyped more
    → merge_object_network_declarations (ds ++ more)
      ≡ some (
        i,
        record p {
          description = or_else (last_description more) p.description;
          raw_lines = p.raw_lines ++ all_raw_lines more;
        },
      )
unfolding merge_object_network_declarations
merge_object_network_declarations-reopened ds more i p t h typed untyped =
    let ((j, base), e, same) = merge-typed ds (i, p) t h typed in
    let position : i ≡ j = ap (λ (d : ℕ × AddressPayload). d.0) same in
    let payload : p ≡ (merged ds (j, base)).1 = ap (λ (d : ℕ × AddressPayload). d.1) same in
    rw
      (
        position,
        payload,
        merge_object_network_declarations,
        last_typed-append ds more untyped,
        e,
        last_description-append ds more,
        all_raw_lines-append ds more,
      )
      refl
