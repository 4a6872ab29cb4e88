-- ===== src/Select/Crowded.antt =====
-- src/resolve.c, `select_option`: how the weights grow when options are chosen again and again.
use dada_engine.Prelude.{
  ℕ, zero, suc, ◌+◌, ◌-◌, ◌*◌, ◌/◌, ◌≤◌, ◌<◌, ◌≡◌, ◌≢◌, refl, sym, ap, ◌∙◌, true, false, Outcome,
  ok, arith, ◌==◌, ltb, leb, if◌then◌else◌, inl, inr, Bool-cases,
}
use mathlib.Core.Path.{subst}
use native.Mathlib.Nat.{mul-le-mul_right}
use dada_engine.Prelude.Ends.{ok_inj}
use dada_engine.Rtn.{Options, end, option, option_map}
use dada_engine.Engine.{Env, Engine, M, ◌>>◌, pure, update}
use dada_engine.Select.{
  int_limit, sum_option_weights, incr_option_weight, reweight, walk, draw, select_new,
}
use dada_engine.Resolve.Yields.{
  Yields, gave, Yields-bind, Yields-lift, Yields-any, Yields-weaken, Yields-ok,
}
use dada_engine.Select.Walk.{total}
use dada_engine.Select.Weights.{has, Distinct, grown, grown_lem}

-- What a weight becomes in `k` choices of other options.
abbrev pub raised : ℕ → ℕ → ℕ
raised zero v = v
raised (suc k) v = raised k ((v + 1) * 3 / 2)

-- The number of options that weigh at least `v`.
abbrev pub heavy : ℕ → (ℕ → ℕ) → Options → ℕ
heavy v weight end = 0
heavy v weight (option o atoms next) = (if leb v (weight o) then 1 else 0) + heavy v weight next

heavy-total : (v : ℕ) (weight : ℕ → ℕ) (os : Options) → heavy v weight os * v ≤ total weight os
heavy-total v weight end = omega arith
heavy-total v weight (option o atoms next) = grind (arith, heavy-total v weight next)

-- One choice by weight, and `k` of them.
abbrev pub choices : Env → Options → ℕ → M (Unit {0})
choices env os zero = pure tt
choices env os (suc k) = select_new env os >> choices env os k

incr-grown :
    (os : Options) (weight w : ℕ → ℕ)
    → option_map os incr_option_weight weight ≡ ok w
    → grown os weight ≡ w
unfolding option_map incr_option_weight
incr-grown end weight w e = ok_inj e
incr-grown (option o atoms next) weight w e =
    elim (Bool-cases (ltb ((weight o + 1) * 3) int_limit)) [
      | inl small ↦ incr-grown next _ w (rw small at e)
      | inr large ↦ let none : Outcome.fault ≡ ok w = rw large at e in cc
    ]

sum-total :
    (os : Options) (weight : ℕ → ℕ) (s t : ℕ)
    → s < int_limit
    → option_map os (sum_option_weights weight) s ≡ ok t
    → s + total weight os < int_limit
unfolding option_map sum_option_weights
sum-total end weight s t h e = omega (arith, h)
sum-total (option o atoms next) weight s t h e = elim (Bool-cases (ltb (s + weight o) int_limit)) [
  | inl small ↦
      let rest = sum-total next weight (s + weight o) t (ground (arith, small)) (rw small at e) in
      omega (arith, rest)
  | inr large ↦ let none : Outcome.fault ≡ ok t = rw large at e in cc
]

eq_of : (a o : ℕ) → (a == o) ≡ true → a ≡ o
eq_of a o h = ground arith

-- All but one of the options grow.
grown-heavy :
    (os : Options) (v a : ℕ) (weight w : ℕ → ℕ)
    → Distinct os
    → ((x : ℕ) → has os x ≡ true → w x ≡ (update weight a 1 x + 1) * 3 / 2)
    → heavy v weight os ≤ heavy ((v + 1) * 3 / 2) w os + (if has os a then 1 else 0)
grown-heavy end v a weight w d h = omega arith
grown-heavy (option o atoms next) v a weight w d h =
    let here = h o (ground arith) in
    let rest = grown-heavy next v a weight w d.1 λ x i. h x (ground (arith, i)) in
    elim (Bool-cases (a == o)) [
      | inl same ↦
          let gone : has next a ≡ false =
            subst (λ x. has next x ≡ false) (sym (eq_of a o same)) d.0 in
          rw same (ground (arith, rest, gone))
      | inr other ↦ rw other (ground (arith, here, rest, other))
    ]

minus_zero : (m v : ℕ) → (m - 0) * v ≡ m * v
minus_zero m v = ap (λ n. n * v) (omega arith)

minus_suc : (m k : ℕ) → m - suc k ≡ m - 1 - k
minus_suc m k = omega arith

module _ (env : Env) (os : Options) (apart : Distinct os) where
  reweight-heavy :
      (o : Options) (v : ℕ) (weight w : ℕ → ℕ)
      → reweight os o weight ≡ ok w
      → heavy v weight os ≤ heavy ((v + 1) * 3 / 2) w os + 1
  unfolding reweight
  reweight-heavy end v weight w e = cc
  reweight-heavy (option a atoms next) v weight w e =
      let grew = incr-grown os (update weight a 1) w e in
      ground (
        arith,
        grown-heavy os v a weight w apart (λ x i.
            ap (λ f. f x) (sym grew) ∙ grown_lem os (update weight a 1) x apart ∙ rw i refl),
      )

  -- A choice by weight has room for the sum of the weights, and leaves all but one option heavier.
  select_new-heavy :
      (v : ℕ) (s : Engine)
      → Yields
          (λ _ t.
            (total s.randweight os < int_limit)
            × (heavy v s.randweight os ≤ heavy ((v + 1) * 3 / 2) t.randweight os + 1))
          (select_new env os s)
  unfolding select_new
  select_new-heavy v s =
      Yields-bind (Yields-lift (option_map os (sum_option_weights s.randweight) 0) s)
        λ sum t (e, st). Yields-bind (Yields-any (draw env sum t)) λ ch u d.
          Yields-bind (Yields-lift (walk s.randweight os ch) u) λ o y (l, m).
            Yields-bind (Yields-lift (reweight os o s.randweight) y) λ w z (r, q). gave (
              omega (arith, sum-total os s.randweight 0 sum (omega arith) e),
              reweight-heavy o v s.randweight w r,
            )

  choices_small :
      (k m v : ℕ) (s : Engine)
      → m ≤ heavy v s.randweight os
      → Yields (λ _ _. (m - k) * raised k v < int_limit) (choices env os (suc k) s)
  choices_small zero m v s h = Yields-bind (select_new-heavy v s) λ o t (small, grew).
      gave
        (omega (arith, mul-le-mul_right v h, heavy-total v s.randweight os, small, minus_zero m v))
  choices_small (suc k) m v s h = Yields-bind (select_new-heavy v s) λ o t (small, grew).
      Yields-weaken (λ u w few. rw (minus_suc m k) few)
        (choices_small k (m - 1) ((v + 1) * 3 / 2) t (omega (arith, grew, h)))

  -- Let the options of a rule be at different addresses, let at least m of them weigh v or more, and
  -- let (m - k) * w reach the limit of an int, where w is what k steps from a weight u to
  -- (u + 1) * 3 / 2 make of v. Then however the random numbers are, the rule's options cannot be
  -- chosen by weight k + 1 times: a weight or their sum overflows before.
  pub choices-overflow :
      (k m v : ℕ) (s : Engine) (x : Unit {0} × Engine)
      → m ≤ heavy v s.randweight os
      → int_limit ≤ (m - k) * raised k v
      → choices env os (suc k) s ≢ ok x
  choices-overflow k m v s (u, t) h big e =
      let small = Yields-ok (choices_small k m v s h) e in omega arith
