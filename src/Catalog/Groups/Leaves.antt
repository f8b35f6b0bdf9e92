-- ===== src/Catalog/Groups/Leaves.antt =====
-- What `resolve_leaves` returns: the leaves that the parent links reach, and none else.
use nsp_migrator.Prelude.{
  ℕ, zero, suc, ◌+◌, ◌≡◌, ◌≢◌, ◌↔◌, refl, sym, ap, subst, ◌∙◌, ◌⊎◌, inl, inr, some, List, [], ◌∷◌,
  ◌++◌, arith, Elem, Elem-append, Elem-append_left, Elem-append_right, Option-cases,
}
use nsp_migrator.Prelude.Eq.{==-cases, nat_eq}
use nsp_migrator.Prelude.Dict.{lookup, get_list}
use nsp_migrator.Prelude.Result.{ok, ◌>>=◌, >>=-eq-ok, ok-injective}
use nsp_migrator.Catalog.{SdwanAddrObject, addr_group, type_eq}
use nsp_migrator.Catalog.Groups.{
  LeavesResolver, Resolve, group_id, leaves_of_children, check_leaves, expand_children,
  resolve_object, resolve_level, resolve_leaves,
}

-- The object `o` is the object `id`, or a leaf below a child of the group `id`.
pub data Reaches (r : LeavesResolver) (o : SdwanAddrObject) : ℕ → Type 0 where
  leaf : {id : ℕ} → lookup id r.objects_by_id ≡ some o → o.type ≢ addr_group → Reaches r o id
  child :
      {id : ℕ} (g c : SdwanAddrObject)
      → lookup id r.objects_by_id ≡ some g
      → g.type ≡ addr_group
      → Elem c (get_list (group_id g) r.children_by_parent)
      → c.id ≢ g.id
      → Reaches r o c.id
      → Reaches r o id

-- What a successful walk over the children of `self` did with the first of them.
leaves_of_children-cons :
    (resolve : Resolve) (self : ℕ) (c : SdwanAddrObject) (cs ls : List SdwanAddrObject)
    → leaves_of_children resolve self (c ∷ cs) ≡ ok ls
    → ((c.id ≡ self) × (leaves_of_children resolve self cs ≡ ok ls))
      ⊎ ((c.id ≢ self)
          × (xs : List SdwanAddrObject) × (ys : List SdwanAddrObject) × (resolve c.id ≡ ok xs)
          × (leaves_of_children resolve self cs ≡ ok ys)
          × (ls ≡ xs ++ ys))
unfolding leaves_of_children
leaves_of_children-cons resolve self c cs ls h = elim (==-cases c.id self) [
  | inl (t, e) ↦ inl (e, rw t at h)
  | inr (t, n) ↦
      let step : (resolve c.id >>= λ xs. leaves_of_children resolve self cs >>= λ ys. ok (xs ++ ys))
          ≡ ok ls =
        rw t at h in
      let (xs, p, q) = >>=-eq-ok (resolve c.id) _ step in
      let (ys, p', q') = >>=-eq-ok (leaves_of_children resolve self cs) _ q in
      inr (n, xs, ys, p, p', cc)
]

leaves_of_children-nil :
    (resolve : Resolve) (self : ℕ) (ls : List SdwanAddrObject)
    → leaves_of_children resolve self [] ≡ ok ls
    → [] ≡ ls
unfolding leaves_of_children
leaves_of_children-nil resolve self ls h = ok-injective h

module _ (resolve : Resolve) (self : ℕ) (o : SdwanAddrObject) where
  -- A leaf of the children comes from one of them, other than the group itself.
  leaves_of_children_sound :
      (cs ls : List SdwanAddrObject)
      → leaves_of_children resolve self cs ≡ ok ls
      → Elem o ls
      → (c : SdwanAddrObject) × Elem c cs
        × (c.id ≢ self)
        × (xs : List SdwanAddrObject) × (resolve c.id ≡ ok xs)
        × Elem o xs
  leaves_of_children_sound [] ls h m =
      absurd (subst (Elem o) (sym (leaves_of_children-nil resolve self ls h)) m)
  leaves_of_children_sound (c ∷ cs) ls h m = elim (leaves_of_children-cons resolve self c cs ls h) [
    | inl (e, rest) ↦
        let (d, md, nd, xs, p, mx) = leaves_of_children_sound cs ls rest m in
        (d, inr md, nd, xs, p, mx)
    | inr (n, xs, ys, p, q, e) ↦ elim (Elem-append o xs ys (subst (Elem o) e m)) [
      | inl here ↦ (c, inl refl, n, xs, p, here)
      | inr there ↦
          let (d, md, nd, zs, p', mx) = leaves_of_children_sound cs ys q there in
          (d, inr md, nd, zs, p', mx)
    ]
  ]

  -- Every leaf of a child other than the group itself is a leaf of the children.
  leaves_of_children_complete :
      (cs ls : List SdwanAddrObject) (c : SdwanAddrObject)
      → leaves_of_children resolve self cs ≡ ok ls
      → Elem c cs
      → c.id ≢ self
      → ((xs : List SdwanAddrObject) → resolve c.id ≡ ok xs → Elem o xs)
      → Elem o ls
  leaves_of_children_complete [] ls c h m n there = absurd m
  leaves_of_children_complete (d ∷ cs) ls c h m n there =
      elim (leaves_of_children-cons resolve self d cs ls h) [
        | inl (e, rest) ↦ elim m [
          | inl same ↦ absurd (n (ap (λ (x : SdwanAddrObject). x.id) same ∙ e))
          | inr later ↦ leaves_of_children_complete cs ls c rest later n there
        ]
        | inr (_, xs, ys, p, q, e) ↦ elim m [
          | inl same ↦ rw e (Elem-append_left o xs ys (there xs (rw same p)))
          | inr later ↦
              rw e (Elem-append_right o xs ys (leaves_of_children_complete cs ys c q later n there))
        ]
      ]

expand_children-eq-ok :
    (resolve : Resolve) (o : SdwanAddrObject) (cs ls : List SdwanAddrObject)
    → expand_children resolve o cs ≡ ok ls
    → (leaves_of_children resolve o.id cs ≡ ok ls) × (ls ≢ [])
unfolding expand_children check_leaves
expand_children-eq-ok resolve o [] ls h = cc
expand_children-eq-ok resolve o (c ∷ cs) ls h =
    let (xs, p, q) = >>=-eq-ok (leaves_of_children resolve o.id (c ∷ cs)) (check_leaves o.id) h in
    ground arith

-- What a successful call returned: the object itself, or the leaves of its children.
abbrev Resolved : LeavesResolver → Resolve → SdwanAddrObject → List SdwanAddrObject → Type 0
Resolved r resolve o ls =
    ((o.type ≢ addr_group) × (ls ≡ o ∷ []))
    ⊎ ((o.type ≡ addr_group)
        × (leaves_of_children resolve o.id (get_list (group_id o) r.children_by_parent) ≡ ok ls)
        × (ls ≢ []))

resolve_object-eq-ok :
    (r : LeavesResolver) (resolve : Resolve) (level : ℕ) (o : SdwanAddrObject)
    (ls : List SdwanAddrObject)
    → resolve_object r resolve level o ≡ ok ls
    → Resolved r resolve o ls
unfolding resolve_object
resolve_object-eq-ok r resolve level o ls h = elim (==-cases o.type addr_group) [
  | inl (t, e) ↦
      let (p, q) =
        expand_children-eq-ok resolve o (get_list (group_id o) r.children_by_parent) ls
          (ground arith) in
      inr (e, p, q)
  | inr (t, n) ↦ inl (n, ground arith)
]

resolve_level-eq-ok :
    (r : LeavesResolver) (fuel level id : ℕ) (ls : List SdwanAddrObject)
    → resolve_level r (suc fuel) level id ≡ ok ls
    → (o : SdwanAddrObject) × (lookup id r.objects_by_id ≡ some o)
      × Resolved r (resolve_level r fuel (level + 1)) o ls
unfolding resolve_level
resolve_level-eq-ok r fuel level id ls h = elim (Option-cases (lookup id r.objects_by_id)) [
  | inl missing ↦ absurd (ground arith)
  | inr (o, found) ↦ (
    o,
    found,
    resolve_object-eq-ok r (resolve_level r fuel (level + 1)) level o ls (ground arith),
  )
]

module _ (r : LeavesResolver) (o : SdwanAddrObject) where
  resolve_level_sound :
      (fuel level id : ℕ) (ls : List SdwanAddrObject)
      → resolve_level r fuel level id ≡ ok ls
      → Elem o ls
      → Reaches r o id
  unfolding resolve_level
  resolve_level_sound zero level id ls h m = cc
  resolve_level_sound (suc f) level id ls h m =
      let (g, found, cases) = resolve_level-eq-ok r f level id ls h in
      elim cases [
        | inl (n, e) ↦ elim (subst (Elem o) e m) [
          | inl same ↦
              leaf (found ∙ ap some (sym same))
                (λ t. n (ap (λ (x : SdwanAddrObject). x.type) (sym same) ∙ t))
          | inr nowhere ↦ absurd nowhere
        ]
        | inr (t, p, _) ↦
            let (c, mc, nc, xs, q, mx) =
              leaves_of_children_sound (resolve_level r f (level + 1)) g.id o
                (get_list (group_id g) r.children_by_parent) ls p m in
            child g c found t mc nc (resolve_level_sound f (level + 1) c.id xs q mx)
      ]

  resolve_level_complete :
      (fuel level id : ℕ) (ls : List SdwanAddrObject)
      → Reaches r o id
      → resolve_level r fuel level id ≡ ok ls
      → Elem o ls
  unfolding resolve_level
  resolve_level_complete zero level id ls w h = cc
  resolve_level_complete (suc f) level id ls (leaf found n) h =
      let (g, found', cases) = resolve_level-eq-ok r f level id ls h in
      let same : o ≡ g = cc (found, found') in
      elim cases [
        | inl (_, e) ↦ rw e (inl same)
        | inr (t, _, _) ↦ absurd (n (ap (λ (x : SdwanAddrObject). x.type) same ∙ t))
      ]
  resolve_level_complete (suc f) level id ls (child g c found t mc nc below) h =
      let (g', found', cases) = resolve_level-eq-ok r f level id ls h in
      let same : g' ≡ g = cc (found, found') in
      elim cases [
        | inl (n, _) ↦ absurd (n (ap (λ (x : SdwanAddrObject). x.type) same ∙ t))
        | inr (_, p, _) ↦
            leaves_of_children_complete (resolve_level r f (level + 1)) g.id o
              (get_list (group_id g) r.children_by_parent) ls c (rw same at p) mc nc
              (λ xs q. resolve_level_complete f (level + 1) c.id xs below q)
      ]

-- A successful expansion holds the leaves that the parent links reach and nothing else; it is
-- never empty.
pub resolve_leaves_exact :
    (r : LeavesResolver) (id : ℕ) (ls : List SdwanAddrObject)
    → resolve_leaves r id ≡ ok ls
    → ((o : SdwanAddrObject) → Elem o ls ↔ Reaches r o id) × (ls ≢ [])
unfolding resolve_leaves
resolve_leaves_exact r id ls h = (
  λ o. (resolve_level_sound r o 4 0 id ls h, λ w. resolve_level_complete r o 4 0 id ls w h),
  nonempty,
)
  where
    nonempty : ls ≢ []
    nonempty e =
        let (o, _, cases) = resolve_level-eq-ok r 3 0 id ls h in
        elim cases [ inl (_, single) ↦ cc | inr (_, _, some_leaf) ↦ some_leaf e ]
