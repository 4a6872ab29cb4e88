-- ===== src/Select/Walk.antt =====
-- src/resolve.c, `select_option`: where the walk along the weights ends.
use dada_engine.Prelude.{
  ℕ, zero, suc, ◌+◌, ◌-◌, ◌≤◌, ◌<◌, ◌≡◌, inl, inr, Bool-cases, ok, arith, ltb,
}
use dada_engine.Rtn.{Nodes, Options, end, option, option_length, option_nth}
use dada_engine.Select.{walk}

-- The sum of the options' weights, and of the first `i` of them.
abbrev pub total : (ℕ → ℕ) → Options → ℕ
total weight end = 0
total weight (option o atoms next) = weight o + total weight next

abbrev pub prefix : (ℕ → ℕ) → Options → ℕ → ℕ
prefix weight options zero = 0
prefix weight end (suc i) = 0
prefix weight (option o atoms next) (suc i) = weight o + prefix weight next i

-- With a number below the sum of the weights the walk ends at an option, never at the end of the
-- list.
pub walk-eq-ok :
    (weight : ℕ → ℕ) (options : Options) (ch : ℕ)
    → ch < total weight options
    → (i : ℕ) × (i < option_length options) × (walk weight options ch ≡ ok (option_nth options i))
unfolding walk option_length option_nth
walk-eq-ok weight end ch h = absurd (omega arith)
walk-eq-ok weight (option o atoms next) ch h = elim (Bool-cases (ltb (weight o) ch)) [
  | inl past ↦
      let (i, lt, e) = walk-eq-ok weight next (ch - weight o) (ground arith) in
      (suc i, omega arith, rw past e)
  | inr here ↦ (0, omega arith, rw here)
]

-- The walk takes option `i` for the numbers above the sum of the weights before it, and up to that
-- sum with its own weight.
pub walk_lands :
    (weight : ℕ → ℕ) (options : Options) (i ch o : ℕ) (atoms : Nodes) (next : Options)
    → option_nth options i ≡ option o atoms next
    → prefix weight options i < ch
    → ch ≤ prefix weight options i + weight o
    → walk weight options ch ≡ ok (option_nth options i)
unfolding walk option_nth
walk_lands weight end i ch o atoms next e h k = cc
walk_lands weight (option x n rest) zero ch o atoms next e h k = ground arith
walk_lands weight (option x n rest) (suc i) ch o atoms next e h k =
    ground (arith, walk_lands weight rest i (ch - weight x) o atoms next)
