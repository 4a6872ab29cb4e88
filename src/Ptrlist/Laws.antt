-- ===== src/Ptrlist/Laws.antt =====
-- src/ptrlist.c: places, lengths and ends of lists.
use dada_engine.Prelude.{
  ℕ, zero, suc, ◌<◌, ◌≡◌, refl, List, [], ◌∷◌, ◌++◌, Bool, true, false, arith, length, drop, ap,
  Option, none, some,
}
use dada_engine.Prelude.Int.{ℤ, pos, negsuc, ◌+ℤ◌, ◌-ℤ◌}
use dada_engine.Ptrlist.{list_append, list_indexof, list_length, list_nth}

sub_suc : (i : ℕ) → pos (suc i) -ℤ pos 1 ≡ pos i
unfolding ◌-ℤ◌
sub_suc i = ground arith

-- A place, or -1.
abbrev pub int_of_place : Option ℕ → ℤ
int_of_place none = negsuc 0
int_of_place (some i) = pos i

module _ {ℓ} {A : Type ℓ} where
  pub list_append-append : (a b : List A) → list_append a b ≡ a ++ b
  unfolding list_append
  list_append-append [] b = refl
  list_append-append (x ∷ a) b = ap (λ r. x ∷ r) (list_append-append a b)

  pub list_length-length : (l : List A) → list_length l ≡ pos (length l)
  unfolding list_length ◌+ℤ◌
  list_length-length [] = refl
  list_length-length (x ∷ l) = ground (arith, list_length-length l)

  pub list_nth-drop : (l : List A) (i : ℕ) → list_nth l (pos i) ≡ drop i l
  unfolding list_nth
  list_nth-drop [] zero = refl
  list_nth-drop [] (suc i) = refl
  list_nth-drop (x ∷ l) zero = refl
  list_nth-drop (x ∷ l) (suc i) = ground (arith, sub_suc i, list_nth-drop l i)

  -- The first place whose element passes the test, if there is one.
  abbrev pub first_place : List A → (A → Bool) → Option ℕ
  first_place [] test = none
  first_place (x ∷ l) test = elim (test x) [
    | true ↦ some 0
    | false ↦ elim (first_place l test) [ none ↦ none | some i ↦ some (suc i) ]
  ]

  -- `list_indexof` gives the first place whose element passes the test, and -1 if there is none.
  pub list_indexof-first_place :
      (l : List A) (test : A → Bool) → list_indexof l test ≡ int_of_place (first_place l test)
  unfolding list_indexof ◌+ℤ◌
  list_indexof-first_place [] test = refl
  list_indexof-first_place (x ∷ l) test = ground (arith, list_indexof-first_place l test)

  pub first_place-lt :
      (l : List A) (test : A → Bool) (i : ℕ) → first_place l test ≡ some i → i < length l
  first_place-lt [] test i h = cc
  first_place-lt (x ∷ l) test zero h = ground arith
  first_place-lt (x ∷ l) test (suc i) h = ground (arith, first_place-lt l test i)
