-- ===== src/Hash/Order.antt =====
-- A hash does not depend on the order of the items of a list.
use nsp_migrator.Prelude.{◌≡◌, refl, ◌∙◌, ap, sym, true, List, [], ◌∷◌, ◌++◌, arith, inl, inr, ◌⊎◌}
use nsp_migrator.Prelude.Text.{Text, text_leb, codes, join}
use nsp_migrator.Prelude.Sort.{insert_sorted}
use nsp_migrator.Hash.{
  Json, list, Items, nil, cons, Builtins, dumps, dumps_items, insert_item, normalize,
  normalize_items, json_hash,
}

text_leb_total : (s t : Text) → (text_leb s t ≡ true) ⊎ (text_leb t s ≡ true)
unfolding text_leb
text_leb_total [] t = inl refl
text_leb_total (c ∷ s) [] = inr refl
text_leb_total (c ∷ s) (d ∷ t) = ground (arith, text_leb_total s t)

text_leb_antisymm : (s t : Text) → text_leb s t ≡ true → text_leb t s ≡ true → s ≡ t
unfolding text_leb
text_leb_antisymm [] [] h k = refl
text_leb_antisymm [] (d ∷ t) h k = cc
text_leb_antisymm (c ∷ s) [] h k = cc
text_leb_antisymm (c ∷ s) (d ∷ t) h k = ground (arith, text_leb_antisymm s t)

text_leb_trans : (s t u : Text) → text_leb s t ≡ true → text_leb t u ≡ true → text_leb s u ≡ true
unfolding text_leb
text_leb_trans [] t u h k = refl
text_leb_trans (c ∷ s) [] u h k = cc
text_leb_trans (c ∷ s) (d ∷ t) [] h k = cc
text_leb_trans (c ∷ s) (d ∷ t) (e ∷ u) h k = ground (arith, text_leb_trans s t u)

insert_sorted_comm :
    (x y : Text) (zs : List Text)
    → insert_sorted text_leb x (insert_sorted text_leb y zs)
      ≡ insert_sorted text_leb y (insert_sorted text_leb x zs)
unfolding insert_sorted
insert_sorted_comm x y [] = ground (arith, text_leb_total x y, text_leb_antisymm x y)
insert_sorted_comm x y (z ∷ zs) = ground (
  arith,
  text_leb_total x y,
  text_leb_antisymm x y,
  text_leb_trans x y z,
  text_leb_trans y x z,
  insert_sorted_comm x y zs,
)

-- `ys` are the items of `xs` in another order.
pub data Reorders : Items → Items → Type 0 where
  same : {xs : Items} → Reorders xs xs
  skip : {xs ys : Items} (x : Json) → Reorders xs ys → Reorders (cons x xs) (cons x ys)
  swap : {xs : Items} (x y : Json) → Reorders (cons x (cons y xs)) (cons y (cons x xs))
  trans : {xs ys zs : Items} → Reorders xs ys → Reorders ys zs → Reorders xs zs

module _ (d : Builtins) where
  dumps_items-insert_item :
      (x : Json) (ys : Items)
      → dumps_items d (insert_item d x ys) ≡ insert_sorted text_leb (dumps d x) (dumps_items d ys)
  unfolding insert_item insert_sorted dumps_items
  dumps_items-insert_item x nil = refl
  dumps_items-insert_item x (cons y ys) = ground (arith, dumps_items-insert_item x ys)

  dumps_items-normalize_cons :
      (x : Json) (xs : Items)
      → dumps_items d (normalize_items d (cons x xs))
        ≡ insert_sorted text_leb (dumps d (normalize d x)) (dumps_items d (normalize_items d xs))
  unfolding normalize_items
  dumps_items-normalize_cons x xs = dumps_items-insert_item (normalize d x) (normalize_items d xs)

  normalize_two :
      (x y : Json) (xs : Items)
      → dumps_items d (normalize_items d (cons x (cons y xs)))
        ≡ insert_sorted text_leb (dumps d (normalize d x)) (
            insert_sorted text_leb (dumps d (normalize d y)) (dumps_items d (normalize_items d xs)))
  normalize_two x y xs =
      dumps_items-normalize_cons x (cons y xs)
      ∙ ap (insert_sorted text_leb (dumps d (normalize d x))) (dumps_items-normalize_cons y xs)

  pub dumps_items-normalize_items :
      {xs ys : Items}
      → Reorders xs ys
      → dumps_items d (normalize_items d xs) ≡ dumps_items d (normalize_items d ys)
  dumps_items-normalize_items same = refl
  dumps_items-normalize_items (skip {xs = xs} {ys = ys} x r) =
      dumps_items-normalize_cons x xs
      ∙ ap (insert_sorted text_leb (dumps d (normalize d x))) (dumps_items-normalize_items r)
      ∙ sym (dumps_items-normalize_cons x ys)
  dumps_items-normalize_items (swap {xs = xs} x y) =
      normalize_two x y xs
      ∙ insert_sorted_comm (dumps d (normalize d x)) (dumps d (normalize d y)) _
      ∙ sym (normalize_two y x xs)
  dumps_items-normalize_items (trans r s) =
      dumps_items-normalize_items r ∙ dumps_items-normalize_items s

  -- Lists that hold the same items in another order have the same hash.
  pub json_hash-reorder :
      {xs ys : Items} → Reorders xs ys → json_hash d (list xs) ≡ json_hash d (list ys)
  unfolding json_hash
  json_hash-reorder r =
      ap (λ ts. d.sha256 (codes "[" ++ (join (codes ",") ts ++ codes "]")))
        (dumps_items-normalize_items r)
