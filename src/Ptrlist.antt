-- ===== src/Ptrlist.antt =====
-- src/ptrlist.c: linked lists of pointers. A list is the sequence of its `data`; a pointer to a node
-- is the list from there on, and NULL the empty list. What an iterator does is a change of a state
-- of the caller's.
pub mod Laws
use dada_engine.Prelude.{ℕ, suc, List, [], ◌∷◌, Bool, if◌then◌else◌}
use dada_engine.Prelude.Int.{ℤ, pos, negsuc, ◌+ℤ◌, ◌-ℤ◌, eqb_ℤ}

module _ {ℓ} {A : Type ℓ} where
  -- The end of `a` is found by walking its links, and `b` is hung there.
  unfoldable pub list_append : List A → List A → List A
  list_append [] b = b
  list_append (x ∷ a) b = x ∷ list_append a b

  unfoldable pub list_cons : A → List A → List A
  list_cons x next = x ∷ next

  unfoldable pub list_indexof : List A → (A → Bool) → ℤ
  list_indexof [] test = negsuc 0
  list_indexof (x ∷ next) test =
      let r = list_indexof next test in
      if test x then pos 0 else (if eqb_ℤ r (negsuc 0) then negsuc 0 else r +ℤ pos 1)

  unfoldable pub list_length : List A → ℤ
  list_length [] = pos 0
  list_length (x ∷ next) = list_length next +ℤ pos 1

  unfoldable pub list_mapcar {κ} : {S : Type κ} → List A → (A → S → S) → S → S
  list_mapcar [] iter s = s
  list_mapcar (x ∷ next) iter s = list_mapcar next iter (iter x s)

  -- The nodes from place `index` on.
  unfoldable pub list_nth : List A → ℤ → List A
  list_nth [] index = []
  list_nth (x ∷ next) index =
      let rest = list_nth next (index -ℤ pos 1) in if eqb_ℤ index (pos 0) then x ∷ next else rest

  -- The destructor sees each node, in order, before it is freed.
  unfoldable pub list_free {κ} : {S : Type κ} → List A → (A → S → S) → S → S
  list_free [] destructor s = s
  list_free (x ∷ next) destructor s = list_free next destructor (destructor x s)
