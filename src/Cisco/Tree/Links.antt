-- ===== src/Cisco/Tree/Links.antt =====
-- The links of the nodes, and how a new node keeps them.
use nsp_migrator.Prelude.{
  ℕ, ◌<◌, ◌≡◌, ◌⊎◌, refl, sym, ap, ◌∙◌, subst, inl, inr, Option, none, some, List, [], ◌∷◌, ◌++◌,
  leb, length, Elem, Elem-append, Elem-append_left, Elem-append_right, arith, Bool-cases, All,
}
use nsp_migrator.Prelude.Eq.{◌==◌, ==-cases, nat_eq}
use nsp_migrator.Cisco.Tree.{ConfigLine, ConfigNode, node_at, add_child, pop_deeper, top_idx}
use nsp_migrator.Cisco.Tree.Growth.{
  node_at-length, node_at-append_old, node_at-append_new, node_at-append, with_child,
  node_at-add_child, add_child-node_at,
}

-- What the links of the node at a position say.
pub record IsLinked (nodes : List ConfigNode) (i : ℕ) (n : ConfigNode) : Type 0 where
  pub own : n.idx ≡ i
  pub parent :
      (p : ℕ)
      → n.parent_idx ≡ some p
      → (p < i)
        × ((m : ConfigNode) × (node_at p nodes ≡ some m)
            × (m.line.indent < n.line.indent)
            × Elem i m.children)
  pub child :
      (c : ℕ)
      → Elem c n.children
      → (m : ConfigNode) × (node_at c nodes ≡ some m) × (m.parent_idx ≡ some i)

-- Every node knows its position; its parent stands before it, is less indented and lists it; and its
-- children name it as their parent.
abbrev pub IsForest : List ConfigNode → Type 0
IsForest nodes = (i : ℕ) (n : ConfigNode) → node_at i nodes ≡ some n → IsLinked nodes i n

-- The stack holds positions of nodes with their indents.
abbrev pub IsStack : List ConfigNode → List (ℕ × ℕ) → Type 0
IsStack nodes =
    All (λ (e : ℕ × ℕ). (m : ConfigNode) × (node_at e.1 nodes ≡ some m) × (m.line.indent ≡ e.0))

pub pop_deeper-IsStack :
    (nodes : List ConfigNode) (indent : ℕ) (stack : List (ℕ × ℕ))
    → IsStack nodes stack
    → IsStack nodes (pop_deeper indent stack)
unfolding pop_deeper
pop_deeper-IsStack nodes indent [] h = tt
pop_deeper-IsStack nodes indent ((top, i) ∷ stack) h = elim (Bool-cases (leb indent top)) [
  | inl t ↦ rw t (pop_deeper-IsStack nodes indent stack h.1)
  | inr t ↦ rw t h
]

-- The node on top of what is left is less indented.
pub pop_deeper-top :
    (nodes : List ConfigNode) (indent p : ℕ) (stack : List (ℕ × ℕ))
    → IsStack nodes stack
    → top_idx (pop_deeper indent stack) ≡ some p
    → (m : ConfigNode) × (node_at p nodes ≡ some m) × (m.line.indent < indent)
unfolding pop_deeper
pop_deeper-top nodes indent p [] h e = absurd cc
pop_deeper-top nodes indent p ((top, i) ∷ stack) h e = elim (Bool-cases (leb indent top)) [
  | inl t ↦ pop_deeper-top nodes indent p stack h.1 (rw t at e)
  | inr t ↦
      let top_is = rw t at e in
      let same : i ≡ p = cc in
      let (m, there, indented) = h.0 in
      (m, subst (λ j. node_at j nodes ≡ some m) same there, ground arith)
]

-- The forest and the stack before a line is added, and the line's new node.
module _ (nodes : List ConfigNode) (forest : IsForest nodes) (line : ConfigLine) where
  abbrev pub new_node : Option ℕ → ConfigNode
  new_node parent = record { idx = length nodes; line = line; parent_idx = parent; children = [] }

  pub root-IsForest : IsForest (nodes ++ (new_node none ∷ []))
  root-IsForest i n h = elim (node_at-append i n (new_node none) nodes h) [
    | inl old ↦
        let links = forest i n old in
        record {
          own = links.own;
          parent = λ p e.
              let (before, (m, there, indented, listed)) = links.parent p e in
              (before, (m, node_at-append_old p m (new_node none) nodes there, indented, listed));
          child = λ c l.
              let (m, there, e) = links.child c l in
              (m, node_at-append_old c m (new_node none) nodes there, e);
        }
    | inr (e, same) ↦ record {
      own = ap (λ (x : ConfigNode). x.idx) same ∙ sym e;
      parent = λ p given.
          let bad = sym (ap (λ (x : ConfigNode). x.parent_idx) same) ∙ given in absurd cc;
      child = λ c l. absurd (subst (Elem c) (ap (λ (x : ConfigNode). x.children) same) l);
    }
  ]

  -- The new list below a parent: the old nodes, of which the parent has one more child, and the new.
  module _ (p : ℕ) (mp : ConfigNode) (there : node_at p nodes ≡ some mp)
      (indented : mp.line.indent < line.indent) where
    unfoldable pub later : List ConfigNode
    unfolding add_child
    later = add_child p (length nodes) (nodes ++ (new_node (some p) ∷ []))

    pub old_stays :
        (i : ℕ) (m : ConfigNode)
        → node_at i nodes ≡ some m
        → node_at i later ≡ some (with_child p (length nodes) i m)
    unfolding later
    old_stays i m h =
        node_at-add_child i p (length nodes) m (nodes ++ (new_node (some p) ∷ []))
          (node_at-append_old i m (new_node (some p)) nodes h)

    -- A child of a node stays one.
    child_stays :
        (i c : ℕ) (m : ConfigNode)
        → Elem c m.children
        → Elem c (with_child p (length nodes) i m).children
    child_stays i c m l = elim (Bool-cases (i == p)) [
      | inl t ↦ rw t (Elem-append_left c m.children (length nodes ∷ []) l)
      | inr t ↦ rw t l
    ]

    -- A child of a node was one, or is the new one of the parent.
    child_from :
        (i c : ℕ) (m : ConfigNode)
        → Elem c (with_child p (length nodes) i m).children
        → Elem c m.children ⊎ ((c ≡ length nodes) × (i ≡ p))
    child_from i c m l = elim (==-cases i p) [
      | inr (t, _) ↦ inl (rw t at l)
      | inl (t, e) ↦ elim (Elem-append c m.children (length nodes ∷ []) (rw t at l)) [
        | inl old ↦ inl old
        | inr (inl same) ↦ inr (same, e)
        | inr (inr nowhere) ↦ absurd nowhere
      ]
    ]

    pub new_stays :
        node_at (length nodes) later
        ≡ some (with_child p (length nodes) (length nodes) (new_node (some p)))
    unfolding later
    new_stays =
        node_at-add_child (length nodes) p (length nodes) (new_node (some p))
          (nodes ++ (new_node (some p) ∷ [])) (node_at-append_new (new_node (some p)) nodes)

    old-IsLinked :
        (i : ℕ) (m : ConfigNode)
        → node_at i nodes ≡ some m
        → IsLinked later i (with_child p (length nodes) i m)
    old-IsLinked i m h =
        let links = forest i m h in
        record {
          own = links.own;
          parent = λ q e.
              let (before, (mq, at, less, listed)) = links.parent q e in
              (
                before,
                (
                  with_child p (length nodes) q mq,
                  old_stays q mq at,
                  less,
                  child_stays q i mq listed,
                ),
              );
          child = λ c l. elim (child_from i c m l) [
            | inl old ↦
                let (mc, at, e) = links.child c old in
                (with_child p (length nodes) c mc, old_stays c mc at, e)
            | inr (new, e) ↦ (
              with_child p (length nodes) (length nodes) (new_node (some p)),
              subst
                  (λ j.
                    node_at j later
                    ≡ some (with_child p (length nodes) (length nodes) (new_node (some p))))
                  (sym new) new_stays,
              ap (λ (j : ℕ). some j) (sym e),
            )
          ];
        }

    new-IsLinked :
        IsLinked later
          (length nodes)
          (with_child p (length nodes) (length nodes) (new_node (some p)))
    new-IsLinked =
        let before = node_at-length p mp nodes there in
        record {
          own = refl;
          parent = λ q e.
              let same : p ≡ q = cc in
              (
                omega arith,
                (
                  with_child p (length nodes) p mp,
                  subst (λ j. node_at j later ≡ some (with_child p (length nodes) p mp)) same
                      (old_stays p mp there),
                  indented,
                  elim (==-cases p p) [
                    | inl (t, _) ↦ rw t (
                        Elem-append_right (length nodes) mp.children (length nodes ∷ []) (inl refl))
                    | inr (_, differ) ↦ absurd (differ refl)
                  ],
                ),
              );
          child = λ c l. elim (child_from (length nodes) c (new_node (some p)) l) [
            | inl nowhere ↦ absurd nowhere
            | inr (_, e) ↦ absurd (omega arith)
          ];
        }

    pub child-IsForest : IsForest later
    unfolding later
    child-IsForest i n h =
        let (m, at, same) =
          add_child-node_at i p (length nodes) n (nodes ++ (new_node (some p) ∷ [])) h in
        elim (node_at-append i m (new_node (some p)) nodes at) [
          | inl old ↦ subst (IsLinked later i) (sym same) (old-IsLinked i m old)
          | inr (e, new) ↦
              let whole : n ≡ with_child p (length nodes) (length nodes) (new_node (some p)) =
                same
                ∙ ap (λ j. with_child p (length nodes) j m) e
                ∙ ap (with_child p (length nodes) (length nodes)) new in
              subst (λ j. IsLinked later j n) (sym e)
                (subst (IsLinked later (length nodes)) (sym whole) new-IsLinked)
        ]
