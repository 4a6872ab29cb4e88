-- ===== src/Dict.antt =====
-- src/dict.c: string-keyed dictionaries as unbalanced search trees. A `void *` that is stored is
-- a value of `V`, and NULL is `none`. A callback's `void *aux` is a state that the calls pass on.
pub mod Order
pub mod Lookup
pub mod Position
pub mod RoundTrip
use dada_engine.Prelude.{
  ℕ, ◌+◌, List, [], ◌∷◌, ◌++◌, Option, none, some, Bool, true, false, Ordering, if◌then◌else◌,
}
use dada_engine.Prelude.Int.{ℤ, pos, negsuc, ◌+ℤ◌, ◌-ℤ◌, eqb_ℤ}
use dada_engine.Text.{Text, strcmp}

-- `struct dictnode *`
pub data Dict {ℓ} (V : Type ℓ) : Type ℓ where
  null : Dict V
  dictnode : Text → V → Dict V → Dict V → Dict V

module _ {ℓ} {V : Type ℓ} where
  pub nnode : Text → V → Dict V
  nnode k v = dictnode k v null null

  unfoldable pub insert : Dict V → Text → V → Dict V
  unfolding nnode
  insert null k val = nnode k val
  insert (dictnode key value left right) k val = elim (strcmp k key) [
    | Ordering.eq ↦ dictnode key val left right
    | Ordering.lt ↦ dictnode key value (insert left k val) right
    | Ordering.gt ↦ dictnode key value left (insert right k val)
  ]

  -- The new root, which the source writes through `pDict d`.
  unfoldable pub dict_def : Dict V → Text → V → Dict V
  unfolding insert
  dict_def d k value = insert d k value

  -- The node at which the search ends.
  unfoldable pub lookup : Dict V → Text → Dict V
  lookup null k = null
  lookup (dictnode key value left right) k = elim (strcmp k key) [
    | Ordering.eq ↦ dictnode key value left right
    | Ordering.lt ↦ lookup left k
    | Ordering.gt ↦ lookup right k
  ]

  abbrev pub value_of : Dict V → Option V
  value_of null = none
  value_of (dictnode key value left right) = some value

  unfoldable pub dict_get : Dict V → Text → Option V
  unfolding lookup
  dict_get d k = value_of (lookup d k)

  unfoldable pub dict_size : Dict V → ℕ
  dict_size null = 0
  dict_size (dictnode key value left right) = dict_size left + dict_size right + 1

  -- -1 stands for "not there". Below a right branch it is added to like any other number.
  unfoldable pub dict_ord : Dict V → Text → ℤ
  unfolding dict_size
  dict_ord null key = negsuc 0
  dict_ord (dictnode k value left right) key = elim (strcmp key k) [
    | Ordering.eq ↦ pos (dict_size left)
    | Ordering.lt ↦ dict_ord left key
    | Ordering.gt ↦ pos (dict_size left) +ℤ dict_ord right key +ℤ pos 1
  ]

-- `struct traverse_stamp`; its field `key` is never used.
pub record TraverseStamp {ℓ} (V : Type ℓ) : Type ℓ where
  pub result : Option V
  pub todo : ℤ

module _ {ℓ κ} {V : Type ℓ} {S : Type κ} where
  unfoldable pub dict_inorder_traverse : Dict V → (V → S → S) → S → S
  dict_inorder_traverse null fn aux = aux
  dict_inorder_traverse (dictnode key value left right) fn aux =
      dict_inorder_traverse right fn (fn value (dict_inorder_traverse left fn aux))

  -- The source calls the inorder traversal on both branches.
  unfoldable pub dict_preorder_traverse : Dict V → (V → S → S) → S → S
  unfolding dict_inorder_traverse
  dict_preorder_traverse null fn aux = aux
  dict_preorder_traverse (dictnode key value left right) fn aux =
      dict_inorder_traverse right fn (dict_inorder_traverse left fn (fn value aux))

module _ {ℓ} {V : Type ℓ} where
  unfoldable pub nth_traverse : V → TraverseStamp V → TraverseStamp V
  nth_traverse v s = record {
    result = if eqb_ℤ s.todo (pos 0) then some v else s.result;
    todo = s.todo -ℤ pos 1;
  }

  unfoldable pub dict_nth : Dict V → ℤ → Option V
  unfolding nth_traverse dict_inorder_traverse
  dict_nth d n = (dict_inorder_traverse d nth_traverse (record { result = none; todo = n })).result

-- What `dict_free` frees: the values, each behind those of its node's branches, in this order.
-- The keys are not freed.
module _ {ℓ} {V : Type ℓ} where
  unfoldable pub dict_free : Dict V → List V
  dict_free null = []
  dict_free (dictnode key value left right) = dict_free left ++ (dict_free right ++ value ∷ [])
