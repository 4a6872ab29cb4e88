-- ===== src/Transform/Case.antt =====
-- src/transform.c: the commands that change the case of a range.
use dada_engine.Prelude.{
  ◌<◌, ◌≤◌, ℕ, zero, suc, ◌+◌, ◌-◌, ◌≡◌, ◌⊎◌, refl, ap, sym, ◌∙◌, inl, inr, Bool, true, false, ◌&&◌,
  [], ◌∷◌, ◌++◌, Option, none, some, ok, leb, ltb, length, take, drop, get_elem?, arith,
}
use dada_engine.Prelude.Int.{ℤ}
use dada_engine.Text.{Text}
use dada_engine.Map.{Regex}
use dada_engine.Transform.{
  TransCmd, is_character, tolower, toupper, change_first, change_range, cmd_range, addr_normalise,
  xform_switch, apply_xform_cmd, first_char,
}
use dada_engine.Transform.Address.{place, addr_normalise_lem, addr_normalise_nil}

-- A character, changed if it is in the range.
abbrev pub changed : (ℕ → ℕ) → Bool → Option ℕ → Option ℕ
changed f true (some c) = some (f c)
changed f within o = o

-- Whether the range covers the place, in a text of length `l`.
abbrev pub covers : Option (ℤ × ℤ) → ℕ → ℕ → Bool
covers none l i = true
covers (some (a, b)) l i = leb (place a l) i && leb i (place b l)

changed-none : (f : ℕ → ℕ) (b : Bool) → none ≡ changed f b none
changed-none f true = refl
changed-none f false = refl

changed-false : (f : ℕ → ℕ) (b : Bool) (o : Option ℕ) → b ≡ false → o ≡ changed f b o
changed-false f b o e = rw e refl

changed-same : (f : ℕ → ℕ) (b b' : Bool) (o : Option ℕ) → b ≡ b' → changed f b o ≡ changed f b' o
changed-same f b b' o e = ap (λ c. changed f c o) e

-- The first characters changed.
unfoldable first_changed : (ℕ → ℕ) → ℕ → Text → Text
first_changed f zero s = s
first_changed f (suc n) [] = []
first_changed f (suc n) (c ∷ s) = f c ∷ first_changed f n s

-- The change succeeds where each character that it comes to is in the functions' domain.
change_first-first_changed :
    (f : ℕ → ℕ) (k : ℕ) (s : Text)
    → ((i c : ℕ) → i < k → get_elem? s i ≡ some c → is_character c ≡ true)
    → change_first f k s ≡ ok (first_changed f k s)
unfolding change_first first_changed
change_first-first_changed f zero s h = refl
change_first-first_changed f (suc k) [] h = refl
change_first-first_changed f (suc k) (c ∷ s) h =
    rw
      (
        h 0 c (omega arith) refl,
        change_first-first_changed f k s λ i d lt e. h (suc i) d (omega arith) e,
      )
      refl

get-drop : (n : ℕ) (s : Text) (i : ℕ) → get_elem? (drop n s) i ≡ get_elem? s (n + i)
get-drop zero s i = ap (get_elem? s) (omega arith)
get-drop (suc n) [] i = refl
get-drop (suc n) (c ∷ s) i =
    let e : suc n + i ≡ suc (n + i) = omega arith in get-drop n s i ∙ ap (get_elem? (c ∷ s)) (sym e)

abbrev range_changed : (ℕ → ℕ) → ℕ → ℕ → Text → Text
range_changed f from stop s = take from s ++ first_changed f (stop - from) (drop from s)

change_range-range_changed :
    (f : ℕ → ℕ) (from stop : ℕ) (s : Text)
    → ((i c : ℕ) → from ≤ i → i < stop → get_elem? s i ≡ some c → is_character c ≡ true)
    → change_range f from stop s ≡ ok (range_changed f from stop s)
unfolding change_range
change_range-range_changed f from stop s h =
    rw
      (change_first-first_changed f (stop - from) (drop from s)
        λ i c lt e. h (from + i) c (omega arith) (omega arith) (sym (get-drop from s i) ∙ e))
      refl

get-first_changed :
    (f : ℕ → ℕ) (k : ℕ) (s : Text) (i : ℕ)
    → get_elem? (first_changed f k s) i ≡ changed f (ltb i k) (get_elem? s i)
unfolding first_changed
get-first_changed f zero s i = changed-false f (ltb i 0) (get_elem? s i) (ground arith)
get-first_changed f (suc k) [] i = changed-none f _
get-first_changed f (suc k) (c ∷ s) zero = ground arith
get-first_changed f (suc k) (c ∷ s) (suc i) =
    get-first_changed f k s i
    ∙ changed-same f (ltb i k) (ltb (suc i) (suc k)) (get_elem? s i) (ground arith)

get-from :
    (f : ℕ → ℕ) (k from : ℕ) (s : Text) (i : ℕ)
    → get_elem? (take from s ++ first_changed f k (drop from s)) i
      ≡ changed f (leb from i && ltb i (from + k)) (get_elem? s i)
unfolding first_changed
get-from f k zero s i =
    get-first_changed f k s i
    ∙ changed-same f (ltb i k) (leb 0 i && ltb i (0 + k)) (get_elem? s i) (ground arith)
get-from f zero (suc n) [] i = changed-none f _
get-from f (suc k) (suc n) [] i = changed-none f _
get-from f k (suc n) (c ∷ s) zero =
    changed-false f (leb (suc n) 0 && ltb 0 (suc n + k)) (some c) (ground arith)
get-from f k (suc n) (c ∷ s) (suc i) =
    get-from f k n s i
    ∙ changed-same f (leb n i && ltb i (n + k)) (leb (suc n) (suc i) && ltb (suc i) (suc n + k))
        (get_elem? s i) (ground arith)

get-range_changed :
    (f : ℕ → ℕ) (from stop : ℕ) (s : Text) (i : ℕ)
    → get_elem? (range_changed f from stop s) i
      ≡ changed f (leb from i && ltb i stop) (get_elem? s i)
get-range_changed f from stop s i =
    get-from f (stop - from) from s i
    ∙ changed-same f (leb from i && ltb i (from + (stop - from))) (leb from i && ltb i stop)
        (get_elem? s i) (ground arith)

changed-whole :
    (f : ℕ → ℕ) (s : Text) (i : ℕ)
    → changed f (leb 0 i && ltb i (length s)) (get_elem? s i) ≡ changed f true (get_elem? s i)
changed-whole f [] i = sym (changed-none f _)
changed-whole f (c ∷ s) zero = ground arith
changed-whole f (c ∷ s) (suc i) =
    changed-same f (leb 0 (suc i) && ltb (suc i) (suc (length s))) (leb 0 i && ltb i (length s))
      (get_elem? s i) (ground arith)
    ∙ changed-whole f s i

-- The range of a command covers the places that it says.
module _ (f : ℕ → ℕ) where
  range-covers :
      (addr : Option (ℤ × ℤ)) (input : Text)
      → (from : ℕ) × (stop : ℕ) × (cmd_range addr input ≡ ok (from, stop))
        × ((i c : ℕ)
            → from ≤ i
            → i < stop
            → get_elem? input i ≡ some c
            → covers addr (length input) i ≡ true)
        × ((i : ℕ)
            → get_elem? (range_changed f from stop input) i
              ≡ changed f (covers addr (length input) i) (get_elem? input i))
  unfolding cmd_range addr_normalise
  range-covers none s = (
    0,
    length s,
    refl,
    λ i c lo hi e. refl,
    λ i. get-range_changed f 0 (length s) s i ∙ changed-whole f s i,
  )
  range-covers (some (a, b)) [] = (
    0,
    1,
    rw (addr_normalise_nil a, addr_normalise_nil b) refl,
    λ i c lo hi e. cc,
    λ i. get-range_changed f 0 1 [] i ∙ (sym (changed-none f _) ∙ changed-none f _),
  )
  range-covers (some (a, b)) (c ∷ s) =
      let (ea, la) = addr_normalise_lem a (c ∷ s) (omega arith) in
      let (eb, lb) = addr_normalise_lem b (c ∷ s) (omega arith) in
      (
        place a (suc (length s)),
        place b (suc (length s)) + 1,
        rw (ea, eb) refl,
        λ i c' lo hi e. ground arith,
        λ i.
            get-range_changed f _ _ (c ∷ s) i
            ∙ changed-same f _ _ (get_elem? (c ∷ s) i) (ground arith),
      )

  -- Let no byte of the text that the command's range covers be from 128 to 254. Then a command whose
  -- name begins with `u` or `l` succeeds with every address: each character that its range covers is
  -- put in upper or in lower case, and all else stays. The range
  -- is the whole text, or goes from the place of the first address to that of the second, both
  -- included; it covers nothing if the second place is before the first.
  pub apply_xform_cmd-changed :
      (re : Regex) (input : Text) (cmd : TransCmd)
      → ((first_char cmd.cmdname ≡ b'u') × (f ≡ toupper))
        ⊎ ((first_char cmd.cmdname ≡ b'l') × (f ≡ tolower))
      → ((i c : ℕ)
          → covers cmd.addr (length input) i ≡ true
          → get_elem? input i ≡ some c
          → is_character c ≡ true)
      → (out : Text) × (apply_xform_cmd re (some input) cmd ≡ ok (some out))
        × ((i : ℕ)
            → get_elem? out i ≡ changed f (covers cmd.addr (length input) i) (get_elem? input i))
  unfolding apply_xform_cmd xform_switch
  apply_xform_cmd-changed re input cmd h characters =
      let (from, stop, e, covered, places) = range-covers cmd.addr input in
      let inside : (i c : ℕ)
          → from ≤ i
          → i < stop
          → get_elem? input i ≡ some c
          → is_character c ≡ true =
        λ i c lo hi k. characters i c (covered i c lo hi k) k in
      (range_changed f from stop input, rw e (switched from stop inside h), places)
    where
      switched :
          (from stop : ℕ)
          → ((i c : ℕ) → from ≤ i → i < stop → get_elem? input i ≡ some c → is_character c ≡ true)
          → ((first_char cmd.cmdname ≡ b'u') × (f ≡ toupper))
            ⊎ ((first_char cmd.cmdname ≡ b'l') × (f ≡ tolower))
          → xform_switch re (first_char cmd.cmdname) input cmd.params from stop
            ≡ ok (some (range_changed f from stop input))
      switched from stop inside (inl (n, same)) =
          rw (n, sym same, change_range-range_changed f from stop input inside) refl
      switched from stop inside (inr (n, same)) =
          rw (n, sym same, change_range-range_changed f from stop input inside) refl
