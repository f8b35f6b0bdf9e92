-- ===== src/Cisco/Tree/Growth.antt =====
-- How the nodes grow by one line.
use nsp_migrator.Prelude.{
  ℕ, zero, suc, ◌<◌, ◌≡◌, ◌⊎◌, refl, sym, ap, ◌∙◌, inl, inr, none, some, List, [], ◌∷◌, ◌++◌,
  if◌then◌else◌, length, arith, Option-cases,
}
use nsp_migrator.Prelude.Eq.{◌==◌, ==-cases, nat_eq}
use nsp_migrator.Cisco.Tree.{ConfigNode, node_at, add_child}

pub node_at-length :
    (i : ℕ) (n : ConfigNode) (ns : List ConfigNode) → node_at i ns ≡ some n → i < length ns
unfolding node_at
node_at-length i n [] h = absurd cc
node_at-length zero n (x ∷ ns) h = omega arith
node_at-length (suc i) n (x ∷ ns) h = omega (arith, node_at-length i n ns h)

pub node_at-append_old :
    (i : ℕ) (n x : ConfigNode) (ns : List ConfigNode)
    → node_at i ns ≡ some n
    → node_at i (ns ++ (x ∷ [])) ≡ some n
unfolding node_at
node_at-append_old i n x [] h = absurd cc
node_at-append_old zero n x (y ∷ ns) h = h
node_at-append_old (suc i) n x (y ∷ ns) h = node_at-append_old i n x ns h

pub node_at-append_new :
    (x : ConfigNode) (ns : List ConfigNode) → node_at (length ns) (ns ++ (x ∷ [])) ≡ some x
unfolding node_at
node_at-append_new x [] = refl
node_at-append_new x (y ∷ ns) = node_at-append_new x ns

pub node_at-append :
    (i : ℕ) (n x : ConfigNode) (ns : List ConfigNode)
    → node_at i (ns ++ (x ∷ [])) ≡ some n
    → (node_at i ns ≡ some n) ⊎ ((i ≡ length ns) × (n ≡ x))
unfolding node_at
node_at-append zero n x [] h = inr (refl, cc)
node_at-append (suc i) n x [] h = absurd cc
node_at-append zero n x (y ∷ ns) h = inl h
node_at-append (suc i) n x (y ∷ ns) h = elim (node_at-append i n x ns h) [
  | inl old ↦ inl old
  | inr (e, same) ↦ inr (omega arith, same)
]

-- A node after a child is added to the parent.
abbrev pub with_child : ℕ → ℕ → ℕ → ConfigNode → ConfigNode
with_child parent child i n = record n {
  children = if i == parent then n.children ++ (child ∷ []) else n.children;
}

suc_test : (i j : ℕ) → (suc i == suc j) ≡ (i == j)
suc_test i j = elim (==-cases i j) [
  | inl (t, e) ↦ elim (==-cases (suc i) (suc j)) [
    | inl (u, _) ↦ u ∙ sym t
    | inr (_, n) ↦ absurd (n (ap suc e))
  ]
  | inr (t, n) ↦ elim (==-cases (suc i) (suc j)) [
    | inl (_, e) ↦ absurd (n (omega arith))
    | inr (u, _) ↦ u ∙ sym t
  ]
]

pub node_at-add_child :
    (i parent child : ℕ) (n : ConfigNode) (ns : List ConfigNode)
    → node_at i ns ≡ some n
    → node_at i (add_child parent child ns) ≡ some (with_child parent child i n)
unfolding node_at add_child
node_at-add_child i parent child n [] h = absurd cc
node_at-add_child zero zero child n (x ∷ ns) h =
    let same : x ≡ n = cc in
    elim (==-cases {A = ℕ} 0 0) [
      | inl (t, _) ↦
          rw t (
            ap (λ (y : ConfigNode). some (record y { children = y.children ++ (child ∷ []) })) same)
      | inr (_, differ) ↦ absurd (differ refl)
    ]
node_at-add_child zero (suc parent) child n (x ∷ ns) h = elim (==-cases 0 (suc parent)) [
  | inl (_, e) ↦ absurd (omega arith)
  | inr (t, _) ↦ rw t h
]
node_at-add_child (suc i) zero child n (x ∷ ns) h = elim (==-cases (suc i) 0) [
  | inl (_, e) ↦ absurd (omega arith)
  | inr (t, _) ↦ rw t h
]
node_at-add_child (suc i) (suc parent) child n (x ∷ ns) h =
    rw (suc_test i parent) (node_at-add_child i parent child n ns h)

node_at-add_child-none :
    (i parent child : ℕ) (ns : List ConfigNode)
    → node_at i ns ≡ none
    → node_at i (add_child parent child ns) ≡ none
unfolding node_at add_child
node_at-add_child-none i parent child [] h = refl
node_at-add_child-none zero parent child (x ∷ ns) h = absurd cc
node_at-add_child-none (suc i) zero child (x ∷ ns) h = h
node_at-add_child-none (suc i) (suc parent) child (x ∷ ns) h =
    node_at-add_child-none i parent child ns h

pub add_child-node_at :
    (i parent child : ℕ) (n : ConfigNode) (ns : List ConfigNode)
    → node_at i (add_child parent child ns) ≡ some n
    → (m : ConfigNode) × (node_at i ns ≡ some m) × (n ≡ with_child parent child i m)
add_child-node_at i parent child n ns h = elim (Option-cases (node_at i ns)) [
  | inl missing ↦ let bad = node_at-add_child-none i parent child ns missing in absurd cc
  | inr (m, there) ↦ let known = node_at-add_child i parent child m ns there in (m, there, cc)
]
