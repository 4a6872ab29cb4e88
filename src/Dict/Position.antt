-- ===== src/Dict/Position.antt =====
-- src/dict.c: the ordinal numbers of entries, `dict_nth` and `dict_ord`.
use mathlib.Core.Path.{subst}
use dada_engine.Prelude.{
  ℕ, zero, suc, ◌+◌, ◌≡◌, refl, List, [], ◌∷◌, ◌++◌, ◌∙◌, ap, sym, Option, none, some, arith,
  Ordering, length, get_elem?, length-append,
}
use dada_engine.Prelude.Int.{ℤ, pos, negsuc, ◌+ℤ◌, ◌-ℤ◌, sub_ℕ}
use dada_engine.Text.{Text, strcmp}
use dada_engine.Text.Order.{lt_trans, gt_of_lt, lt_of_gt, eq_of_strcmp, strcmp_refl}
use dada_engine.Dict.Order.{Below, Above, IsOrdered}
use dada_engine.Dict.Lookup.{found}
use dada_engine.Dict.{
  Dict, null, dictnode, dict_get, dict_size, dict_ord, dict_nth, nth_traverse, TraverseStamp,
  dict_inorder_traverse, dict_preorder_traverse,
}

abbrev by_order {ℓ} : {A : Type ℓ} → Ordering → A → A → A → A
by_order Ordering.lt a b c = a
by_order Ordering.eq a b c = b
by_order Ordering.gt a b c = c

-- One node of `dict_ord_lem`, in numbers: `o` compares the key with the root's, `p` the root's with
-- the key.
ord_step :
    (o p : Ordering) (ord_l ord_r : ℤ) (size_l rank_l rank_r found_l found_r : ℕ)
    → (o ≡ Ordering.eq → (rank_l ≡ size_l) × (rank_r ≡ 0) × (p ≡ Ordering.eq))
    → (o ≡ Ordering.lt → (rank_r ≡ 0) × (p ≡ Ordering.gt))
    → (o ≡ Ordering.gt → (rank_l ≡ size_l) × (p ≡ Ordering.lt))
    → ord_l ≡ sub_ℕ (rank_l + found_l) 1
    → ord_r ≡ sub_ℕ (rank_r + found_r) 1
    → by_order o ord_l (pos size_l) (pos size_l +ℤ ord_r +ℤ pos 1)
      ≡ sub_ℕ
          (rank_l + (elim p [ Ordering.lt ↦ 1 | _ ↦ 0 ]) + rank_r + by_order o found_l 1 found_r)
          1
unfolding ◌+ℤ◌
ord_step Ordering.lt p ol or sl rl rr fl fr he hl hg hol hor = ground (arith, hl refl)
ord_step Ordering.eq p ol or sl rl rr fl fr he hl hg hol hor = ground (arith, he refl)
ord_step Ordering.gt p ol or sl rl rr fl fr he hl hg hol hor = ground (arith, hg refl)

module _ {ℓ} {V : Type ℓ} where
  -- The values in the order of their keys.
  abbrev pub values : Dict V → List V
  values null = []
  values (dictnode k v l r) = values l ++ v ∷ values r

  abbrev pub visit {κ} : {S : Type κ} → (V → S → S) → List V → S → S
  visit fn [] s = s
  visit fn (v ∷ vs) s = visit fn vs (fn v s)

  visit-append {κ} :
      {S : Type κ} (fn : V → S → S) (xs ys : List V) (s : S)
      → visit fn (xs ++ ys) s ≡ visit fn ys (visit fn xs s)
  visit-append fn [] ys s = refl
  visit-append fn (x ∷ xs) ys s = visit-append fn xs ys (fn x s)

  -- The inorder traversal calls the function on the values in the order of their keys.
  pub dict_inorder_traverse-visit {κ} :
      {S : Type κ} (d : Dict V) (fn : V → S → S) (s : S)
      → dict_inorder_traverse d fn s ≡ visit fn (values d) s
  unfolding dict_inorder_traverse
  dict_inorder_traverse-visit null fn s = refl
  dict_inorder_traverse-visit (dictnode k v l r) fn s =
      rw (visit-append, dict_inorder_traverse-visit l fn, dict_inorder_traverse-visit r fn)

  -- The "preorder" traversal of a tree that is not empty calls the function on the root's value
  -- first, and then on the values of the left and of the right branch, each in the order that the
  -- inorder traversal takes them: only the root is taken in preorder.
  pub dict_preorder_traverse-visit {κ} :
      {S : Type κ} (k : Text) (v : V) (l r : Dict V) (fn : V → S → S) (s : S)
      → dict_preorder_traverse (dictnode k v l r) fn s ≡ visit fn (v ∷ values l ++ values r) s
  unfolding dict_preorder_traverse
  dict_preorder_traverse-visit k v l r fn s =
      rw (visit-append, dict_inorder_traverse-visit l fn, dict_inorder_traverse-visit r fn)

  pub length-values : (d : Dict V) → length (values d) ≡ dict_size d
  unfolding dict_size
  length-values null = refl
  length-values (dictnode k v l r) =
      omega (arith, length-append (values l) (v ∷ values r), length-values l, length-values r)

  abbrev or_else : Option V → Option V → Option V
  or_else (some v) o = some v
  or_else none o = o

  abbrev stamp : Option V → ℤ → TraverseStamp V
  stamp o n = record { result = o; todo = n }

  nth_traverse-negsuc :
      (v : V) (o : Option V) (n : ℕ)
      → nth_traverse v (stamp o (negsuc n)) ≡ stamp o (negsuc (suc n))
  unfolding nth_traverse ◌-ℤ◌
  nth_traverse-negsuc v o n = ground arith

  nth_traverse-suc :
      (v : V) (o : Option V) (i : ℕ) → nth_traverse v (stamp o (pos (suc i))) ≡ stamp o (pos i)
  unfolding nth_traverse ◌-ℤ◌
  nth_traverse-suc v o i = ground arith

  nth_traverse-zero :
      (v : V) (o : Option V) → nth_traverse v (stamp o (pos zero)) ≡ stamp (some v) (negsuc 0)
  unfolding nth_traverse ◌-ℤ◌
  nth_traverse-zero v o = refl

  abbrev scan : List V → TraverseStamp V → Option V
  scan vs s = (visit nth_traverse vs s).result

  visit-nth_past : (vs : List V) (o : Option V) (n : ℕ) → scan vs (stamp o (negsuc n)) ≡ o
  visit-nth_past [] o n = refl
  visit-nth_past (v ∷ vs) o n =
      ap (scan vs) (nth_traverse-negsuc v o n) ∙ visit-nth_past vs o (suc n)

  visit-nth :
      (vs : List V) (o : Option V) (i : ℕ) → scan vs (stamp o (pos i)) ≡ or_else (get_elem? vs i) o
  visit-nth [] o i = refl
  visit-nth (v ∷ vs) o zero = ap (scan vs) (nth_traverse-zero v o) ∙ visit-nth_past vs (some v) 0
  visit-nth (v ∷ vs) o (suc i) = ap (scan vs) (nth_traverse-suc v o i) ∙ visit-nth vs o i

  or_else-none : (o : Option V) → or_else o none ≡ o
  or_else-none none = refl
  or_else-none (some v) = refl

  -- `dict_nth` with a number that is not negative gives the value of that place in the order of
  -- the keys, and NULL past the end.
  pub dict_nth-pos : (d : Dict V) (i : ℕ) → dict_nth d (pos i) ≡ get_elem? (values d) i
  unfolding dict_nth
  dict_nth-pos d i =
      ap (λ s. s.result) (dict_inorder_traverse-visit d nth_traverse (stamp none (pos i)))
      ∙ visit-nth (values d) none i
      ∙ or_else-none (get_elem? (values d) i)

  -- With a negative number `dict_nth` gives NULL.
  pub dict_nth-negsuc : (d : Dict V) (n : ℕ) → dict_nth d (negsuc n) ≡ none
  unfolding dict_nth
  dict_nth-negsuc d n =
      ap (λ s. s.result) (dict_inorder_traverse-visit d nth_traverse (stamp none (negsuc n)))
      ∙ visit-nth_past (values d) none n

  -- The number of keys below `q`.
  abbrev pub rank : Dict V → Text → ℕ
  rank null q = 0
  rank (dictnode k v l r) q = rank l q + (elim (strcmp k q) [ Ordering.lt ↦ 1 | _ ↦ 0 ]) + rank r q

  rank-Below :
      (d : Dict V) (k q : Text) → Below k d → strcmp k q ≡ Ordering.lt → rank d q ≡ dict_size d
  unfolding dict_size
  rank-Below null k q b h = refl
  rank-Below (dictnode k₀ v l r) k q b h =
      ground (arith, rank-Below l k q, rank-Below r k q, lt_trans k₀ k q)

  rank-Below_self : (d : Dict V) (q : Text) → Below q d → rank d q ≡ dict_size d
  unfolding dict_size
  rank-Below_self null q b = refl
  rank-Below_self (dictnode k₀ v l r) q b = ground (arith, rank-Below_self l q, rank-Below_self r q)

  rank-Above_self : (d : Dict V) (q : Text) → Above q d → rank d q ≡ 0
  rank-Above_self null q b = refl
  rank-Above_self (dictnode k₀ v l r) q b =
      ground (arith, rank-Above_self l q, rank-Above_self r q, gt_of_lt q k₀)

  rank-Above : (d : Dict V) (k q : Text) → Above k d → strcmp q k ≡ Ordering.lt → rank d q ≡ 0
  rank-Above d k q b h = rank-Above_self d q (Keys-lt d k q b h)
    where
      Keys-lt : (t : Dict V) (k₁ q₁ : Text) → Above k₁ t → strcmp q₁ k₁ ≡ Ordering.lt → Above q₁ t
      Keys-lt null k₁ q₁ a e = tt
      Keys-lt (dictnode k₀ v l r) k₁ q₁ a e =
          (lt_trans q₁ k₁ k₀ e a.0, Keys-lt l k₁ q₁ a.1 e, Keys-lt r k₁ q₁ a.2 e)

  -- The root's own contribution, and that of its branches, by how the key compares.
  rank_eq :
      (d e : Dict V) (k q : Text)
      → Below k d
      → Above k e
      → strcmp q k ≡ Ordering.eq
      → (rank d q ≡ dict_size d) × (rank e q ≡ 0) × (strcmp k q ≡ Ordering.eq)
  rank_eq d e k q b a h =
      let p : k ≡ q = sym (eq_of_strcmp q k h) in
      (
        rank-Below_self d q (subst (λ x. Below x d) p b),
        rank-Above_self e q (subst (λ x. Above x e) p a),
        subst (λ x. strcmp k x ≡ Ordering.eq) p (strcmp_refl k),
      )

  found-dict_get :
      (k q : Text) (v : V) (l r : Dict V)
      → found (dict_get (dictnode k v l r) q)
        ≡ by_order (strcmp q k) (found (dict_get l q)) 1 (found (dict_get r q))
  unfolding dict_get
  found-dict_get k q v l r = ground arith

  dict_ord-node :
      (k q : Text) (v : V) (l r : Dict V)
      → dict_ord (dictnode k v l r) q
        ≡ by_order
            (strcmp q k)
            (dict_ord l q)
            (pos (dict_size l))
            (pos (dict_size l) +ℤ dict_ord r q +ℤ pos 1)
  unfolding dict_ord
  dict_ord-node k q v l r = ground arith

  -- `dict_ord` in an ordered dictionary: of a key that is there, the number of keys below it; of
  -- one that is missing, that number less 1.
  pub dict_ord_lem :
      (d : Dict V) (q : Text)
      → IsOrdered d
      → dict_ord d q ≡ sub_ℕ (rank d q + found (dict_get d q)) 1
  unfolding dict_ord dict_get
  dict_ord_lem null q s = refl
  dict_ord_lem (dictnode k v l r) q s =
      rw (dict_ord-node k q v l r, found-dict_get k q v l r)
        (ord_step (strcmp q k) (strcmp k q) (dict_ord l q) (dict_ord r q) (dict_size l) (rank l q)
          (rank r q) (found (dict_get l q)) (found (dict_get r q)) (rank_eq l r k q s.0 s.1)
          (λ h. (rank-Above r k q s.1 h, gt_of_lt q k h))
          (λ h. (rank-Below l k q s.0 (lt_of_gt q k h), lt_of_gt q k h)) (dict_ord_lem l q s.2)
          (dict_ord_lem r q s.3))
