-- ===== src/Hash.antt =====
-- Deterministic hashes of JSON-like values (src/app/core/hashers.py).
-- SHA-256, and the quoting of a single text by `json.dumps` and by `repr`, are parameters.
pub mod Order
use nsp_migrator.Prelude.{List, [], ◌∷◌, ◌++◌, if◌then◌else◌}
use nsp_migrator.Prelude.Text.{Text, codes, join, text_leb}

-- A value for `json_hash`. An atom is any value but a `dict` and a `list`, by its `str(obj)`.
mutual
  pub data Json : Type 0 where
    atom : Text → Json
    list : Items → Json
    dict : Fields → Json

  pub data Items : Type 0 where
    nil : Items
    cons : Json → Items → Items

  pub data Fields : Type 0 where
    end : Fields
    field : Text → Json → Fields → Fields

-- The functions of the interpreter: the hex digest of a text, a text as `json.dumps` quotes it, and
-- a text as `repr` quotes it.
pub record Builtins : Type 0 where
  pub sha256 : Text → Text
  pub quote : Text → Text
  pub repr : Text → Text

module _ (d : Builtins) where
  -- `json.dumps(obj, ensure_ascii=False, separators=(",", ":"), sort_keys=True)` of a value whose
  -- leaves are texts and whose keys are sorted
  unfoldable mutual
    pub dumps : Json → Text
    dumps (atom t) = d.quote t
    dumps (list xs) = codes "[" ++ (join (codes ",") (dumps_items xs) ++ codes "]")
    dumps (dict fs) = codes "{" ++ (join (codes ",") (dumps_fields fs) ++ codes "}")

    pub dumps_items : Items → List Text
    dumps_items nil = []
    dumps_items (cons x xs) = dumps x ∷ dumps_items xs

    pub dumps_fields : Fields → List Text
    dumps_fields end = []
    dumps_fields (field k v fs) = (d.quote k ++ (codes ":" ++ dumps v)) ∷ dumps_fields fs

  -- `sorted(normalized_items, key=sort_key)`
  unfoldable pub insert_item : Json → Items → Items
  unfolding dumps text_leb join
  insert_item x nil = cons x nil
  insert_item x (cons y ys) =
      if text_leb (dumps x) (dumps y) then cons x (cons y ys) else cons y (insert_item x ys)

  -- `sorted(obj.items())`; the keys of a `dict` differ
  unfoldable pub insert_field : Text → Json → Fields → Fields
  unfolding text_leb
  insert_field k v end = field k v end
  insert_field k v (field j w fs) =
      if text_leb k j then field k v (field j w fs) else field j w (insert_field k v fs)

  unfoldable mutual
    unfolding insert_item insert_field

    pub normalize : Json → Json
    normalize (atom t) = atom t
    normalize (list xs) = list (normalize_items xs)
    normalize (dict fs) = dict (normalize_fields fs)

    pub normalize_items : Items → Items
    normalize_items nil = nil
    normalize_items (cons x xs) = insert_item (normalize x) (normalize_items xs)

    pub normalize_fields : Fields → Fields
    normalize_fields end = end
    normalize_fields (field k v fs) = insert_field k (normalize v) (normalize_fields fs)

  unfoldable pub json_hash : Json → Text
  unfolding dumps normalize
  json_hash value = d.sha256 (dumps (normalize value))

-- A `list` of texts, as a value.
unfoldable pub text_items : List Text → Items
text_items [] = nil
text_items (t ∷ ts) = cons (atom t) (text_items ts)
