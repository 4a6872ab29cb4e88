-- ===== src/Dict/Order.antt =====
-- src/dict.c: the search-tree invariant of dictionaries.
use dada_engine.Prelude.{◌≡◌, arith, Ordering}
use dada_engine.Text.{Text, strcmp}
use dada_engine.Text.Order.{lt_of_gt}
use dada_engine.Dict.{Dict, null, dictnode, insert}

module _ {ℓ} {V : Type ℓ} where
  -- Every key of the tree satisfies `P`.
  abbrev pub Keys : (Text → Type 0) → Dict V → Type 0
  Keys P null = Unit
  Keys P (dictnode k v l r) = P k × Keys P l × Keys P r

  abbrev pub Below : Text → Dict V → Type 0
  Below b t = Keys (λ k. strcmp k b ≡ Ordering.lt) t

  abbrev pub Above : Text → Dict V → Type 0
  Above b t = Keys (λ k. strcmp b k ≡ Ordering.lt) t

  abbrev pub IsOrdered : Dict V → Type 0
  IsOrdered null = Unit
  IsOrdered (dictnode k v l r) = Below k l × Above k r × IsOrdered l × IsOrdered r

  pub Keys-insert :
      (P : Text → Type 0) (t : Dict V) (q : Text) (w : V) → P q → Keys P t → Keys P (insert t q w)
  unfolding insert
  Keys-insert P null q w p a = (p, tt, tt)
  Keys-insert P (dictnode k v l r) q w p a =
      ground (arith, Keys-insert P l q w, Keys-insert P r q w)

  -- Defining a key in an ordered tree leaves it ordered.
  pub insert-IsOrdered : (t : Dict V) (q : Text) (w : V) → IsOrdered t → IsOrdered (insert t q w)
  unfolding insert
  insert-IsOrdered null q w s = (tt, tt, tt, tt)
  insert-IsOrdered (dictnode k v l r) q w s = ground (
    arith,
    insert-IsOrdered l q w,
    insert-IsOrdered r q w,
    Keys-insert (λ x. strcmp x k ≡ Ordering.lt) l q w,
    Keys-insert (λ x. strcmp k x ≡ Ordering.lt) r q w,
    lt_of_gt q k,
  )
