-- ===== src/Tests/Map.antt =====
-- Substitution, with a pattern that matches the character `a`.
use dada_engine.Prelude.{
  ℕ, suc, ◌+◌, ◌≤◌, ◌≡◌, refl, true, [], ◌∷◌, Option, none, some, ok, length, arith, ◌==◌,
  if◌then◌else◌,
}
use dada_engine.Text.{Text, codes, strcmp}
use dada_engine.Map.{Regex, regex_subst, subst_length, subst_compose}
use dada_engine.Map.Subst.{Replaced, regex_subst-Replaced}

abbrev shifted : Option (ℕ × ℕ) → Option (ℕ × ℕ)
shifted none = none
shifted (some (so, eo)) = some (so + 1, eo + 1)

abbrev find_a : Text → Option (ℕ × ℕ)
find_a [] = none
find_a (c ∷ s) = if c == b'a' then some (0, 1) else shifted (find_a s)

abbrev letter_a : Regex
letter_a = record { regcomp = λ p. true; regexec = λ p s b. find_a s }

find_a-inside : (s : Text) (so eo : ℕ) → find_a s ≡ some (so, eo) → (so ≤ eo) × (eo ≤ length s)
find_a-inside [] so eo e = cc
find_a-inside (c ∷ s) so eo e = from_tail (find_a s) (λ so' eo' k. find_a-inside s so' eo' k) e
  where
    from_tail :
        (m : Option (ℕ × ℕ))
        → ((so' eo' : ℕ) → m ≡ some (so', eo') → (so' ≤ eo') × (eo' ≤ length s))
        → (if c == b'a' then some (0, 1) else shifted m) ≡ some (so, eo)
        → (so ≤ eo) × (eo ≤ suc (length s))
    from_tail none ih k = ground arith
    from_tail (some (so', eo')) ih k = ground (arith, ih so' eo' refl)

replaces :
    regex_subst letter_a (codes "banana") (codes "a") (codes "o!") ≡ ok (some (codes "bo!no!no!"))
unfolding regex_subst strcmp subst_length subst_compose
replaces = refl

regex_subst-Replaced_example :
    (t : Text) × (regex_subst letter_a (codes "ba") (codes "a") (codes "o") ≡ ok (some t))
    × Replaced letter_a (codes "a") (codes "o") (codes "ba") t
unfolding strcmp
regex_subst-Replaced_example =
    regex_subst-Replaced letter_a (codes "a") (codes "o") (codes "ba") (λ s b. find_a-inside s)
      (λ s. refl) refl refl refl (λ e. cc)
