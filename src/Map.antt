-- ===== src/Map.antt =====
-- src/map.c: mappings. The regular expressions are those of the C library's POSIX interface
-- (a copy of it stands in regex/): a parameter, the record `Regex`.
-- `regex_subst` works on text that is left rather than on an offset into the whole, and every write
-- into its buffer is checked against the size that was allocated.
pub mod Subst
use dada_engine.Prelude.{
  ℕ, zero, suc, ◌+◌, ◌-◌, List, [], ◌∷◌, ◌++◌, Bool, true, false, Option, none, some, Outcome, ok,
  fault, timeout, length, take, drop, leb, ◌==◌, if◌then◌else◌,
}
use dada_engine.Prelude.Ends.{◌>>=◌}
use dada_engine.Text.{Text, str_eq, codes}

-- `regcomp(&re, key, 0) == 0`, and `regexec(&re, s, 1, &match, flags)` with the first match's
-- `rm_so` and `rm_eo`; the Boolean is the flag `REG_NOTBOL`.
pub record Regex : Type 0 where
  pub regcomp : Text → Bool
  pub regexec : Text → Text → Bool → Option (ℕ × ℕ)

pub data MapAction : Type 0 where
  replace : Text → MapAction
  subst : Text → Text → MapAction

pub record MapOpt : Type 0 where
  pub key : Text
  pub action : MapAction

pub record Mapping : Type 0 where
  pub name : Text
  pub options : List MapOpt

unfoldable pub new_replace_action : Text → MapAction
new_replace_action out = replace out

unfoldable pub new_subst_action : Text → Text → MapAction
new_subst_action key out = subst key out

unfoldable pub mapopt_concat : List MapOpt → List MapOpt → List MapOpt
mapopt_concat [] b = b
mapopt_concat (x ∷ a) b = x ∷ mapopt_concat a b

unfoldable pub mapopt_cons : Text → MapAction → List MapOpt → List MapOpt
mapopt_cons key act cdr = record { key = key; action = act } ∷ cdr

unfoldable pub map_cons : Text → List MapOpt → List Mapping → List Mapping
map_cons n opts cdr = record { name = n; options = opts } ∷ cdr

unfoldable pub map_lookup : List Mapping → Text → Option Mapping
map_lookup [] name = none
map_lookup (m ∷ next) name = if str_eq m.name name then some m else map_lookup next name

-- `strcat` into a buffer with room for `size` characters and the NUL.
abbrev pub strcat : ℕ → Text → Text → Outcome Text
strcat size r t = if leb (length r + length t) size then ok (r ++ t) else fault

abbrev pub matched : Option (ℕ × ℕ) → Bool
matched none = false
matched (some m) = true

module _ (re : Regex) where
  -- The result of `regcomp` is not looked at.
  unfoldable pub mapopt_match : List MapOpt → Text → Option MapOpt
  mapopt_match [] string = none
  mapopt_match (opt ∷ next) string =
      if matched (re.regexec opt.key string false) then some opt else mapopt_match next string

  -- The first loop of `regex_subst`: the length of the result. `offset` is the text that is left,
  -- and the third argument the match in it.
  unfoldable pub subst_length : ℕ → Text → Option (ℕ × ℕ) → ℕ → Text → Text → Outcome ℕ
  subst_length zero rest m len from to = timeout
  subst_length (suc f) rest none len from to = ok len
  subst_length (suc f) rest (some (so, eo)) len from to =
      let rest' = drop eo rest in
      let len' = len + length to - (eo - so) in
      let more = subst_length f rest' (re.regexec from rest' true) len' from to in
      if eo == 0 then ok len' else more

  -- The second loop: the result itself, in a buffer of the given size.
  unfoldable pub subst_compose : ℕ → ℕ → Text → Option (ℕ × ℕ) → Text → Text → Text → Outcome Text
  subst_compose zero size rest m r from to = timeout
  subst_compose (suc f) size rest none r from to = ok r
  subst_compose (suc f) size rest (some (so, eo)) r from to =
      let rest' = drop eo rest in
      let m' = re.regexec from rest' false in
      let piece : Text = elim m' [ none ↦ rest' | some (so', eo') ↦ take so' rest' ] in
      let more = λ (q : Text). subst_compose f size rest' m' q from to in
      strcat size r to >>= λ q. if eo == 0 then ok q else (strcat size q piece >>= more)

  -- Where the pattern matches nowhere, `match.rm_so` is read with nothing written to it.
  unfoldable pub subst_buffer : ℕ → Text → Text → Text → Outcome Text
  unfolding subst_compose
  subst_buffer size input from to = elim (re.regexec from input false) [
    | none ↦ fault
    | some (so, eo) ↦ strcat size [] (take so input) >>= λ r.
        subst_compose (suc (length input)) size input (some (so, eo)) r from to
  ]

  -- `none` is NULL: the pattern does not compile.
  unfoldable pub regex_subst : Text → Text → Text → Outcome (Option Text)
  unfolding subst_length subst_buffer
  regex_subst input from to =
      let composed : Outcome (Option Text) =
        (subst_length (suc (length input)) input (re.regexec from input false) (length input) from
            to
          >>= λ size. subst_buffer size input from to >>= λ r. ok (some r)) in
      if str_eq from (codes "^")
      then ok (some (to ++ input))
      else if str_eq from (codes "$")
      then ok (some (input ++ to))
      else if re.regcomp from
      then composed
      else ok none

  abbrev pub or_input : Text → Option Text → Text
  or_input input none = input
  or_input input (some r) = r

  -- `regexec` on a NULL input is a fault, if there is an option to match.
  unfoldable pub apply_mapping : Option Text → Option Mapping → Outcome (Option Text)
  unfolding mapopt_match regex_subst
  apply_mapping input none = ok input
  apply_mapping none (some m) = elim m.options [ [] ↦ ok none | x ∷ xs ↦ fault ]
  apply_mapping (some s) (some m) = elim (mapopt_match m.options s) [
    | none ↦ ok (some s)
    | some opt ↦ elim opt.action [
      | replace out ↦ ok (some out)
      | subst key out ↦ regex_subst s key out >>= λ r. ok (some (or_input s r))
    ]
  ]
