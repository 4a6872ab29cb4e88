-- ===== src/Select/Weights.antt =====
-- src/resolve.c, `select_option`: the new weights.
use dada_engine.Prelude.{
  ℕ, zero, suc, ◌+◌, ◌*◌, ◌/◌, ◌%◌, ◌<◌, ◌≡◌, ◌≢◌, refl, Bool, true, false, ◌||◌, ok, arith, ◌==◌,
  if◌then◌else◌,
}
use mathlib.Core.Path.{fun_ext}
use native.Mathlib.Nat.{mod-lt}
use dada_engine.Rtn.{Options, end, option, option_length, option_nth, option_map}
use dada_engine.Engine.{Env, Engine, update}
use dada_engine.Select.{
  int_limit, sum_option_weights, incr_option_weight, reweight, draw, walk, select_new,
}
use dada_engine.Select.Walk.{total, walk-eq-ok}

-- Is there an option at this address?
abbrev pub has : Options → ℕ → Bool
has end x = false
has (option o atoms next) x = x == o || has next x

-- No two options are at one address.
abbrev pub Distinct : Options → Type 0
Distinct end = Unit
Distinct (option o atoms next) = (has next o ≡ false) × Distinct next

-- The weights are far enough below the limit to go up once more.
abbrev pub CanGrow : (ℕ → ℕ) → Options → Type 0
CanGrow weight end = Unit
CanGrow weight (option o atoms next) = ((weight o + 1) * 3 < int_limit) × CanGrow weight next

pub sum_option_weights-total :
    (weight : ℕ → ℕ) (options : Options) (s : ℕ)
    → s + total weight options < int_limit
    → option_map options (sum_option_weights weight) s ≡ ok (s + total weight options)
unfolding option_map sum_option_weights
sum_option_weights-total weight end s h = ground arith
sum_option_weights-total weight (option o atoms next) s h =
    ground (arith, sum_option_weights-total weight next (s + weight o))

-- What `incr_option_weight` makes of the weights.
abbrev pub grown : Options → (ℕ → ℕ) → ℕ → ℕ
grown end weight = weight
grown (option o atoms next) weight = grown next (update weight o ((weight o + 1) * 3 / 2))

CanGrow-update :
    (weight : ℕ → ℕ) (options : Options) (x v : ℕ)
    → has options x ≡ false
    → CanGrow weight options
    → CanGrow (update weight x v) options
CanGrow-update weight end x v n h = tt
CanGrow-update weight (option o atoms next) x v n h = ground (arith, CanGrow-update weight next x v)

pub incr_option_weight-grown :
    (weight : ℕ → ℕ) (options : Options)
    → Distinct options
    → CanGrow weight options
    → option_map options incr_option_weight weight ≡ ok (grown options weight)
unfolding option_map incr_option_weight
incr_option_weight-grown weight end d h = refl
incr_option_weight-grown weight (option o atoms next) d h =
    let weight' = update weight o ((weight o + 1) * 3 / 2) in
    ground (
      arith,
      incr_option_weight-grown weight' next d.1,
      CanGrow-update weight next o ((weight o + 1) * 3 / 2) d.0 h.1,
    )

grown_other :
    (options : Options) (weight : ℕ → ℕ) (x : ℕ)
    → has options x ≡ false
    → grown options weight x ≡ weight x
grown_other end weight x h = refl
grown_other (option o atoms next) weight x h =
    ground (arith, grown_other next (update weight o ((weight o + 1) * 3 / 2)) x)

-- Each option's weight `w` becomes (w + 1) * 3 / 2, and no other weight changes.
pub grown_lem :
    (options : Options) (weight : ℕ → ℕ) (x : ℕ)
    → Distinct options
    → grown options weight x ≡ (if has options x then (weight x + 1) * 3 / 2 else weight x)
grown_lem end weight x d = refl
grown_lem (option o atoms next) weight x d = ground (
  arith,
  grown_lem next (update weight o ((weight o + 1) * 3 / 2)) x,
  grown_other next (update weight o ((weight o + 1) * 3 / 2)) x,
)

-- The option `o` was taken: its weight is set to 1, and then all go up.
abbrev pub reweighted : Options → ℕ → (ℕ → ℕ) → ℕ → ℕ
reweighted options o weight x =
    if x == o then 3 else (if has options x then (weight x + 1) * 3 / 2 else weight x)

-- The address of the option that the list begins with, 0 for NULL.
abbrev pub head_address : Options → ℕ
head_address end = 0
head_address (option o atoms next) = o

has-option_nth :
    (options : Options) (i : ℕ)
    → i < option_length options
    → (has options (head_address (option_nth options i)) ≡ true) × (option_nth options i ≢ end)
unfolding option_length option_nth
has-option_nth end i h = absurd (omega arith)
has-option_nth (option o atoms next) zero h = ground arith
has-option_nth (option o atoms next) (suc i) h = ground (arith, has-option_nth next i (omega arith))

CanGrow-update_small :
    (weight : ℕ → ℕ) (options : Options) (x : ℕ)
    → CanGrow weight options
    → CanGrow (update weight x 1) options
CanGrow-update_small weight end x h = tt
CanGrow-update_small weight (option o atoms next) x h =
    ground (arith, CanGrow-update_small weight next x)

reweight-grown :
    (options o : Options) (weight : ℕ → ℕ)
    → o ≢ end
    → Distinct options
    → CanGrow weight options
    → reweight options o weight ≡ ok (grown options (update weight (head_address o) 1))
unfolding reweight
reweight-grown options end weight n d h = absurd (n refl)
reweight-grown options (option o atoms next) weight n d h =
    incr_option_weight-grown (update weight o 1) options d (CanGrow-update_small weight options o h)

grown-reweighted :
    (options : Options) (weight : ℕ → ℕ) (o : ℕ)
    → Distinct options
    → has options o ≡ true
    → grown options (update weight o 1) ≡ reweighted options o weight
grown-reweighted options weight o d h =
    fun_ext λ x. ground (arith, grown_lem options (update weight o 1) x d)

-- What the choice by weight does, once it is known where the walk ends.
pub select_new-walked :
    (env : Env) (options : Options) (s : Engine) (i : ℕ)
    → i < option_length options
    → walk s.randweight options (env.random s.randoms % total s.randweight options)
      ≡ ok (option_nth options i)
    → 0 < total s.randweight options
    → Distinct options
    → CanGrow s.randweight options
    → total s.randweight options < int_limit
    → select_new env options s
      ≡ ok (
        option_nth options i,
        record s {
          randweight = reweighted options (head_address (option_nth options i)) s.randweight;
          randoms = s.randoms + 1;
        },
      )
unfolding select_new draw
select_new-walked env options s i lt e positive d grow small =
    let sum = total s.randweight options in
    let (inside, ne) = has-option_nth options i lt in
    let summed = sum_option_weights-total s.randweight options 0 (omega arith) in
    let zero_sum : 0 + sum ≡ sum = omega arith in
    let rolled : (sum == 0) ≡ false = ground arith in
    let raised = reweight-grown options (option_nth options i) s.randweight ne d grow in
    let spread =
      grown-reweighted options s.randweight (head_address (option_nth options i)) d inside in
    rw (summed, zero_sum, rolled, e, raised, spread)

-- Let a rule have an option of positive weight, its options at different addresses, and their
-- weights so small that neither the sum nor any next weight overflows. Then the choice by weight
-- succeeds. It gives one of the options; that option's weight becomes 3 and every other option's
-- weight `w` becomes (w + 1) * 3 / 2; one random number is drawn, and nothing else changes.
pub select_new_lem :
    (env : Env) (options : Options) (s : Engine)
    → 0 < total s.randweight options
    → Distinct options
    → CanGrow s.randweight options
    → total s.randweight options < int_limit
    → (i : ℕ) × (i < option_length options)
      × (select_new env options s
          ≡ ok (
            option_nth options i,
            record s {
              randweight = reweighted options (head_address (option_nth options i)) s.randweight;
              randoms = s.randoms + 1;
            },
          ))
select_new_lem env options s positive d grow small =
    let (i, lt, e) =
      walk-eq-ok s.randweight options (env.random s.randoms % total s.randweight options)
        (mod-lt (env.random s.randoms) positive) in
    (i, lt, select_new-walked env options s i lt e positive d grow small)
