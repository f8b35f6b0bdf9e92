-- ===== src/Cisco/Tree/WellFormed.antt =====
-- The nodes of a configuration form a forest.
use nsp_migrator.Prelude.{
  ℕ, suc, ◌≡◌, refl, sym, ◌∙◌, subst, inl, inr, none, some, List, [], ◌∷◌, ◌++◌, length,
  Option-cases, Bool-cases,
}
use nsp_migrator.Prelude.Eq.{nat_eq}
use nsp_migrator.Prelude.Text.{Text, strip, split_lines}
use nsp_migrator.Cisco.Tree.{
  ConfigLine, ConfigNode, node_at, pop_deeper, top_idx, Builder, add_line, add_lines, build,
  indent_of, is_skipped,
}
use nsp_migrator.Cisco.Tree.Growth.{node_at-append_old, node_at-append_new, with_child}
use nsp_migrator.Cisco.Tree.Links.{
  IsForest, IsStack, pop_deeper-IsStack, pop_deeper-top, new_node, later, root-IsForest, old_stays,
  new_stays, child-IsForest,
}

-- The builder after any line: a forest, and a stack of its nodes.
abbrev pub IsBuilt : Builder → Type 0
IsBuilt b = IsForest b.nodes × IsStack b.nodes b.stack

IsStack-map :
    (nodes grown : List ConfigNode) (stack : List (ℕ × ℕ))
    → ((i : ℕ) (m : ConfigNode)
        → node_at i nodes ≡ some m
        → (n : ConfigNode) × (node_at i grown ≡ some n) × (n.line.indent ≡ m.line.indent))
    → IsStack nodes stack
    → IsStack grown stack
IsStack-map nodes grown [] stays h = tt
IsStack-map nodes grown ((top, i) ∷ stack) stays ((m, there, e), h) =
    let (n, now, same) = stays i m there in
    ((n, now, same ∙ e), IsStack-map nodes grown stack stays h)

add_line-IsBuilt : (line : ConfigLine) (b : Builder) → IsBuilt b → IsBuilt (add_line line b)
unfolding add_line later
add_line-IsBuilt line b (forest, stack) =
    let left = pop_deeper line.indent b.stack in
    let kept = pop_deeper-IsStack b.nodes line.indent b.stack stack in
    let k = length b.nodes in
    elim (Option-cases (top_idx left)) [
      | inl root ↦
          let node = new_node b.nodes forest line none in
          let built : Builder = record {
            nodes = b.nodes ++ (node ∷ []);
            stack = (line.indent, k) ∷ left;
          } in
          let same : add_line line b ≡ built = rw (root, add_line) refl in
          subst IsBuilt (sym same) (
            root-IsForest b.nodes forest line,
            (
              (node, node_at-append_new node b.nodes, refl),
              IsStack-map b.nodes (b.nodes ++ (node ∷ [])) left
                  (λ i m h. (m, node_at-append_old i m node b.nodes h, refl)) kept,
            ),
          )
      | inr (p, below) ↦
          let (mp, there, indented) = pop_deeper-top b.nodes line.indent p b.stack stack below in
          let node = new_node b.nodes forest line (some p) in
          let built : Builder = record {
            nodes = later b.nodes forest line p mp there indented;
            stack = (line.indent, k) ∷ left;
          } in
          let same : add_line line b ≡ built = rw (below, add_line) refl in
          subst IsBuilt (sym same) (
            child-IsForest b.nodes forest line p mp there indented,
            (
              (with_child p k k node, new_stays b.nodes forest line p mp there indented, refl),
              IsStack-map b.nodes (later b.nodes forest line p mp there indented) left
                  (λ i m h. (
                    with_child p k i m,
                    old_stays b.nodes forest line p mp there indented i m h,
                    refl,
                  ))
                  kept,
            ),
          )
    ]

add_lines-IsBuilt :
    (line_no : ℕ) (texts : List Text) (b : Builder)
    → IsBuilt b
    → IsBuilt (add_lines line_no texts b)
unfolding add_lines
add_lines-IsBuilt line_no [] b h = h
add_lines-IsBuilt line_no (text ∷ texts) b h = elim (Bool-cases (is_skipped (strip text))) [
  | inl t ↦ rw (t, add_lines) (add_lines-IsBuilt (suc line_no) texts b h)
  | inr t ↦
      let line : ConfigLine = record { line_no = line_no; text = text; indent = indent_of text } in
      rw (t, add_lines)
        (add_lines-IsBuilt (suc line_no) texts (add_line line b) (add_line-IsBuilt line b h))
]

-- The nodes built from any text form a forest: each knows its position; its parent stands before it,
-- is less indented and lists it as a child; and its children name it as their parent.
pub build-IsForest : (raw_text : Text) → IsForest (build raw_text)
unfolding build node_at
build-IsForest raw_text =
    (add_lines-IsBuilt 1 (split_lines raw_text) (record { nodes = []; stack = [] })
      ((λ i n h. absurd cc), tt)).0
