-- ===== src/Catalog/Groups/Links.antt =====
-- The index of children that the constructor builds.
use nsp_migrator.Prelude.{
  ℕ, ◌≡◌, ◌↔◌, sym, subst, ◌⊎◌, inl, inr, List, [], ◌∷◌, Elem, Elem-append, Elem-append_left,
  Elem-append_right,
}
use nsp_migrator.Prelude.Eq.{==-cases, nat_eq}
use nsp_migrator.Prelude.Dict.{Dict, lookup, append_at, get_list, get_list-append_at}
use nsp_migrator.Catalog.{SdwanAddrObject}
use nsp_migrator.Catalog.Groups.{link_parents, link_all, leaves_resolver}

abbrev Children : Type 0
Children = Dict ℕ (List SdwanAddrObject)

module _ (c : SdwanAddrObject) (g : ℕ) where
  Elem-append_at :
      (o : SdwanAddrObject) (p : ℕ) (d : Children)
      → Elem c (get_list g (append_at p o d)) ↔ (Elem c (get_list g d) ⊎ ((c ≡ o) × (g ≡ p)))
  Elem-append_at o p d = elim (==-cases g p) [
    | inl (t, e) ↦ (
      λ m. elim (Elem-append c (get_list g d) (o ∷ []) (rw (get_list-append_at g p o d, t) at m)) [
        | inl old ↦ inl old
        | inr (inl new) ↦ inr (new, e)
        | inr (inr nowhere) ↦ absurd nowhere
      ],
      λ m.
          rw (get_list-append_at g p o d, t)
            (elim m [
              | inl old ↦ Elem-append_left c (get_list g d) (o ∷ []) old
              | inr (new, _) ↦ Elem-append_right c (get_list g d) (o ∷ []) (inl new)
            ]),
    )
    | inr (t, n) ↦ (
      λ m. inl (rw (get_list-append_at g p o d, t) at m),
      λ m.
          rw (get_list-append_at g p o d, t) (elim m [ inl old ↦ old | inr (_, e) ↦ absurd (n e) ]),
    )
  ]

  Elem-link_parents :
      (o : SdwanAddrObject) (ps : List ℕ) (d : Children)
      → Elem c (get_list g (link_parents o ps d)) ↔ (Elem c (get_list g d) ⊎ ((c ≡ o) × Elem g ps))
  unfolding link_parents
  Elem-link_parents o [] d =
      (λ m. inl m, λ m. elim m [ inl old ↦ old | inr (_, nowhere) ↦ absurd nowhere ])
  Elem-link_parents o (p ∷ ps) d = (
    λ m. elim ((Elem-link_parents o ps (append_at p o d)).0 m) [
      | inl older ↦ elim ((Elem-append_at o p d).0 older) [
        | inl old ↦ inl old
        | inr (e, here) ↦ inr (e, inl here)
      ]
      | inr (e, later) ↦ inr (e, inr later)
    ],
    λ m. (Elem-link_parents o ps (append_at p o d)).1 (elim m [
      | inl old ↦ inl ((Elem-append_at o p d).1 (inl old))
      | inr (e, inl here) ↦ inl ((Elem-append_at o p d).1 (inr (e, here)))
      | inr (e, inr later) ↦ inr (e, later)
    ]),
  )

  Elem-link_all :
      (os : List SdwanAddrObject) (d : Children)
      → Elem c (get_list g (link_all os d))
        ↔ (Elem c (get_list g d) ⊎ (Elem c os × Elem g c.parents))
  unfolding link_all
  Elem-link_all [] d =
      (λ m. inl m, λ m. elim m [ inl old ↦ old | inr (nowhere, _) ↦ absurd nowhere ])
  Elem-link_all (o ∷ os) d = (
    λ m. elim ((Elem-link_all os (link_parents o o.parents d)).0 m) [
      | inl older ↦ elim ((Elem-link_parents o o.parents d).0 older) [
        | inl old ↦ inl old
        | inr (e, p) ↦ inr (inl e, subst (λ (x : SdwanAddrObject). Elem g x.parents) (sym e) p)
      ]
      | inr (later, p) ↦ inr (inr later, p)
    ],
    λ m. (Elem-link_all os (link_parents o o.parents d)).1 (elim m [
      | inl old ↦ inl ((Elem-link_parents o o.parents d).1 (inl old))
      | inr (inl e, p) ↦ inl (
          (Elem-link_parents o o.parents d).1
            (inr (e, subst (λ (x : SdwanAddrObject). Elem g x.parents) e p)))
      | inr (inr later, p) ↦ inr (later, p)
    ]),
  )

-- The children of a group are exactly the objects of the catalog that name it as a parent.
pub children_exact :
    (objects : List SdwanAddrObject) (c : SdwanAddrObject) (g : ℕ)
    → Elem c (get_list g (leaves_resolver objects).children_by_parent)
      ↔ (Elem c objects × Elem g c.parents)
unfolding leaves_resolver lookup
children_exact objects c g = (
  λ m. elim ((Elem-link_all c g objects []).0 m) [
    | inl nowhere ↦ absurd nowhere
    | inr found ↦ found
  ],
  λ m. (Elem-link_all c g objects []).1 (inr m),
)
