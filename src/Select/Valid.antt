-- ===== src/Select/Valid.antt =====
-- src/resolve.c, `select_option`, and the invariant of the engine's state.
use mathlib.Core.Path.{subst}
use dada_engine.Prelude.{
  ℕ, zero, suc, ◌*◌, ◌+◌, ◌%◌, ◌<◌, ◌&&◌, ◌≡◌, refl, inl, inr, Bool-cases, Outcome, ok, exited,
  fault, timeout, arith, ltb, ◌==◌,
}
use dada_engine.Prelude.Ends.{bind-eq-ok, ok_inj}
use dada_engine.Prelude.Int.{ℤ, pos, eqb_ℤ}
use dada_engine.Rtn.{ResMode, Options, end, option, option_map, option_length}
use dada_engine.Engine.{Env, Engine, lift, update}
use dada_engine.Select.{
  int_limit, sum_option_weights, incr_option_weight, walk, reweight, draw, redraw, is_plain,
  select_old, select_new, select_option,
}
use dada_engine.Resolve.Yields.{Yields, gave, quits, crashes, starves, Yields-bind}
use dada_engine.Machine.Valid.{
  IsValid, Keeps, Keeps-bind, Keeps-pure, Keeps-lift, Keeps-if, Keeps-random,
}

pub Keeps-redraw : (env : Env) (f n : ℕ) (last : ℤ) → Keeps (redraw env f n last)
unfolding redraw
Keeps-redraw env zero n last = λ s v. starves
Keeps-redraw env (suc f) n last = Keeps-bind (Keeps-random env) λ r.
    Keeps-if (n == 0) (λ s v. crashes)
      (Keeps-if (eqb_ℤ (pos (r % n)) last && ltb 1 n) (Keeps-redraw env f n last)
        (Keeps-pure (r % n)))

Keeps-select_old :
    (env : Env) (f : ℕ) (options : Options) (last : ℕ) → Keeps (select_old env f options last)
unfolding select_old
Keeps-select_old env f options last s v =
    Yields-bind (Keeps-redraw env f (option_length options) (s.last_choice last) s v)
      λ c t w. gave (record { fits = w.fits; ordered = w.ordered; positive = w.positive })

Keeps-draw : (env : Env) (sum : ℕ) → Keeps (draw env sum)
unfolding draw
Keeps-draw env sum =
    Keeps-if (sum == 0) (Keeps-pure 0) (Keeps-bind (Keeps-random env) λ r. Keeps-pure (r % sum))

abbrev Positive : (ℕ → ℕ) → Type 0
Positive weight = (o : ℕ) → 0 < weight o

incr-Positive : (x : ℕ) (w w' : ℕ → ℕ) → incr_option_weight x w ≡ ok w' → Positive w → Positive w'
unfolding incr_option_weight
incr-Positive x w w' e p = elim (Bool-cases (ltb ((w x + 1) * 3) int_limit)) [
  | inl fits ↦ subst Positive (ok_inj (rw fits at e)) λ y. ground (arith, p y)
  | inr over ↦ absurd (ground arith)
]

option_map-Positive :
    (options : Options) (w w' : ℕ → ℕ)
    → option_map options incr_option_weight w ≡ ok w'
    → Positive w
    → Positive w'
unfolding option_map
option_map-Positive end w w' e p = subst Positive (ok_inj e) p
option_map-Positive (option x n next) w w' e p =
    let (v, first, rest) =
      bind-eq-ok (incr_option_weight x w) (option_map next incr_option_weight) e in
    option_map-Positive next v w' rest (incr-Positive x w v first p)

reweight-Positive :
    (options o : Options) (w w' : ℕ → ℕ) → reweight options o w ≡ ok w' → Positive w → Positive w'
unfolding reweight
reweight-Positive options end w w' e p = cc
reweight-Positive options (option x n next) w w' e p =
    option_map-Positive options (update w x 1) w' e λ y. ground (arith, p y)

kept_weights :
    (r : Outcome (ℕ → ℕ)) (x : Engine)
    → IsValid x
    → ((w : ℕ → ℕ) → r ≡ ok w → Positive w)
    → Yields (λ w y. Positive w × IsValid y) (lift r x)
kept_weights (ok w) x v k = gave (k w refl, v)
kept_weights (exited n) x v k = quits
kept_weights fault x v k = crashes
kept_weights timeout x v k = starves

Keeps-select_new : (env : Env) (options : Options) → Keeps (select_new env options)
unfolding select_new
Keeps-select_new env options s v =
    Yields-bind (Keeps-lift (option_map options (sum_option_weights s.randweight) 0) s v) λ sum t a.
      Yields-bind (Keeps-draw env sum t a) λ ch u b.
        Yields-bind (Keeps-lift (walk s.randweight options ch) u b) λ o x c.
          Yields-bind
            (kept_weights (reweight options o s.randweight) x c
              (λ w e. reweight-Positive options o s.randweight w e v.positive))
            λ w y d. gave (record { fits = d.1.fits; ordered = d.1.ordered; positive = d.0 })

pub Keeps-select_option :
    (env : Env) (f : ℕ) (options : Options) (last : ℕ) (mode : ResMode)
    → Keeps (select_option env f options last mode)
unfolding select_option
Keeps-select_option env f options last mode =
    Keeps-if (env.old_probability && is_plain mode) (Keeps-select_old env f options last)
      (Keeps-select_new env options)
