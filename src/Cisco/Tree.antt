-- ===== src/Cisco/Tree.antt =====
-- The tree of a configuration by indentation
-- (src/app/modules/imports/cisco_asa/parsing/tree.py and lines.py).
pub mod Growth
pub mod Links
pub mod WellFormed
use nsp_migrator.Prelude.{
  ℕ, zero, suc, ◌+◌, Bool, true, false, ◌||◌, Option, none, some, List, [], ◌∷◌, ◌++◌, leb, length,
  map, if◌then◌else◌, concat_map,
}
use nsp_migrator.Prelude.Eq.{◌==◌, nat_eq}
use nsp_migrator.Prelude.Sort.{sorted}
use nsp_migrator.Prelude.Text.{Text, codes, strip, join, split_lines, starts_with}

pub record ConfigLine : Type 0 where
  pub line_no : ℕ
  pub text : Text
  pub indent : ℕ

-- `stripped`
unfoldable pub stripped : ConfigLine → Text
unfolding strip
stripped line = strip line.text

pub record ConfigNode : Type 0 where
  pub idx : ℕ
  pub line : ConfigLine
  pub parent_idx : Option ℕ
  pub children : List ℕ

pub record ConfigSourceSpan : Type 0 where
  pub line_start : ℕ
  pub line_end : ℕ
  pub fragment : Text

-- `nodes[i]`
unfoldable pub node_at : ℕ → List ConfigNode → Option ConfigNode
node_at i [] = none
node_at zero (n ∷ ns) = some n
node_at (suc i) (n ∷ ns) = node_at i ns

-- `[self.nodes[i] for i in ids]`, without those that are missing
unfoldable pub nodes_at : List ℕ → List ConfigNode → List ConfigNode
unfolding node_at
nodes_at [] nodes = []
nodes_at (i ∷ is) nodes =
    let rest = nodes_at is nodes in elim (node_at i nodes) [ none ↦ rest | some n ↦ n ∷ rest ]

-- `ConfigTree.children`
unfoldable pub children_of : List ConfigNode → ℕ → List ConfigNode
unfolding node_at nodes_at
children_of nodes i = elim (node_at i nodes) [ none ↦ [] | some n ↦ nodes_at n.children nodes ]

-- `append_subtree`, on fuel
unfoldable pub subtree : ℕ → List ConfigNode → ℕ → List ConfigNode
unfolding node_at
subtree zero nodes i = []
subtree (suc fuel) nodes i = elim (node_at i nodes) [
  | none ↦ []
  | some n ↦ n ∷ concat_map (subtree fuel nodes) n.children
]

abbrev by_line : ConfigNode → ConfigNode → Bool
by_line a b = leb a.line.line_no b.line.line_no

abbrev last_line : ConfigNode → List ConfigNode → ℕ
last_line n [] = n.line.line_no
last_line n (m ∷ ms) = last_line m ms

-- `ConfigTree.source_span`
unfoldable pub source_span : List ConfigNode → ℕ → Option ConfigSourceSpan
unfolding subtree sorted join
source_span nodes i = elim (sorted by_line (subtree (length nodes) nodes i)) [
  | [] ↦ none
  | ◌∷◌ n ns ↦ some (record {
    line_start = n.line.line_no;
    line_end = last_line n ns;
    fragment = join (codes "\n") (map (λ (m : ConfigNode). m.line.text) (n ∷ ns));
  })
]

-- `_indent_of`
unfoldable pub indent_of : Text → ℕ
unfolding nat_eq
indent_of [] = 0
indent_of (c ∷ s) =
    let rest = indent_of s in if c == b' ' then 1 + rest else if c == b'\t' then 4 + rest else 0

-- the loop that pops the stack of indents and positions
unfoldable pub pop_deeper : ℕ → List (ℕ × ℕ) → List (ℕ × ℕ)
pop_deeper indent [] = []
pop_deeper indent ((top, i) ∷ stack) =
    let rest = pop_deeper indent stack in if leb indent top then rest else (top, i) ∷ stack

abbrev pub top_idx : List (ℕ × ℕ) → Option ℕ
top_idx [] = none
top_idx ((_, i) ∷ _) = some i

-- `nodes[parent].children.append(idx)`
unfoldable pub add_child : ℕ → ℕ → List ConfigNode → List ConfigNode
add_child parent child [] = []
add_child zero child (n ∷ ns) = record n { children = n.children ++ (child ∷ []) } ∷ ns
add_child (suc parent) child (n ∷ ns) = n ∷ add_child parent child ns

abbrev pub linked : Option ℕ → ℕ → List ConfigNode → List ConfigNode
unfolding add_child
linked none child nodes = nodes
linked (some parent) child nodes = add_child parent child nodes

pub record Builder : Type 0 where
  pub nodes : List ConfigNode
  pub stack : List (ℕ × ℕ)

-- one line of the configuration that is kept
unfoldable pub add_line : ConfigLine → Builder → Builder
unfolding pop_deeper add_child
add_line line b =
    let stack = pop_deeper line.indent b.stack in
    let idx = length b.nodes in
    let node : ConfigNode = record {
      idx = idx;
      line = line;
      parent_idx = top_idx stack;
      children = [];
    } in
    record {
      nodes = linked (top_idx stack) idx (b.nodes ++ (node ∷ []));
      stack = (line.indent, idx) ∷ stack;
    }

-- `not stripped or stripped.startswith("!")`
abbrev pub is_skipped : Text → Bool
unfolding starts_with
is_skipped [] = true
is_skipped (c ∷ s) = starts_with (codes "!") (c ∷ s)

-- the loop of `build`
unfoldable pub add_lines : ℕ → List Text → Builder → Builder
unfolding strip starts_with indent_of add_line
add_lines line_no [] b = b
add_lines line_no (text ∷ texts) b = add_lines (suc line_no) texts (
    if is_skipped (strip text)
    then b
    else add_line (record { line_no = line_no; text = text; indent = indent_of text }) b)

-- `ConfigTreeBuilder.build`
unfoldable pub build : Text → List ConfigNode
unfolding add_lines split_lines
build raw_text = (add_lines 1 (split_lines raw_text) (record { nodes = []; stack = [] })).nodes
