-- ===== src/Resolve/Runs/Choice.antt =====
-- src/resolve.c, `select_option`: the variables and the stack at the choice of an option.
use dada_engine.Prelude.{
  ℕ, zero, suc, ◌%◌, ◌≡◌, refl, ◌∙◌, Bool, true, false, if◌then◌else◌, ◌&&◌, Outcome, ok, ltb, ◌==◌,
}
use dada_engine.Prelude.Int.{ℤ, pos, eqb_ℤ}
use dada_engine.Rtn.{ResMode, Options, option_length, option_map, option_nth}
use dada_engine.Engine.{Env, Engine, M, lift, pure, next_random, ◌>>=◌}
use dada_engine.Machine.World.{world}
use dada_engine.Select.{
  walk, reweight, draw, redraw, select_old, select_new, select_option, sum_option_weights, is_plain,
}
use dada_engine.Resolve.Yields.{
  Yields, gave, quits, crashes, starves, Yields-bind, Yields-weaken, NullOrAmong,
  option_nth-NullOrAmong, select_option-NullOrAmong,
}

-- Both postconditions hold of one action.
Yields-both {ℓ} :
    {A : Type ℓ} {P Q : A → Engine → Type 0} {o : Outcome (A × Engine)}
    → Yields P o
    → Yields Q o
    → Yields (λ a s. P a s × Q a s) o
Yields-both (gave h) (gave k) = gave (h, k)
Yields-both quits k = quits
Yields-both crashes k = crashes
Yields-both starves k = starves

abbrev SameWorld {ℓ} : {A : Type ℓ} → M A → Type ℓ
SameWorld m = (s : Engine) → Yields (λ _ t. world t ≡ world s) (m s)

SameWorld-bind {ℓ κ} :
    {A : Type ℓ} {B : Type κ} {m : M A} {f : A → M B}
    → SameWorld m
    → ((a : A) → SameWorld (f a))
    → SameWorld (m >>= f)
SameWorld-bind h k s = Yields-bind (h s) λ a t e. Yields-weaken (λ _ u d. d ∙ e) (k a t)

SameWorld-if {ℓ} :
    {A : Type ℓ} (b : Bool) {m k : M A} → SameWorld m → SameWorld k → SameWorld (if b then m else k)
SameWorld-if true hm hk = hm
SameWorld-if false hm hk = hk

SameWorld-pure {ℓ} : {A : Type ℓ} (a : A) → SameWorld (pure a)
SameWorld-pure a s = gave refl

SameWorld-random : (env : Env) → SameWorld (next_random env)
SameWorld-random env s = gave refl

SameWorld-lift {ℓ} : {A : Type ℓ} (o : Outcome A) → SameWorld (lift o)
SameWorld-lift (ok a) s = gave refl
SameWorld-lift (Outcome.exited n) s = quits
SameWorld-lift Outcome.fault s = crashes
SameWorld-lift Outcome.timeout s = starves

redraw-SameWorld : (env : Env) (f n : ℕ) (last : ℤ) → SameWorld (redraw env f n last)
unfolding redraw
redraw-SameWorld env zero n last = λ s. starves
redraw-SameWorld env (suc f) n last = SameWorld-bind (SameWorld-random env) λ r.
    SameWorld-if (n == 0) (λ s. crashes)
      (SameWorld-if (eqb_ℤ (pos (r % n)) last && ltb 1 n) (redraw-SameWorld env f n last)
        (SameWorld-pure (r % n)))

draw-SameWorld : (env : Env) (sum : ℕ) → SameWorld (draw env sum)
unfolding draw
draw-SameWorld env sum =
    SameWorld-if (sum == 0) (SameWorld-pure 0)
      (SameWorld-bind (SameWorld-random env) λ r. SameWorld-pure (r % sum))

select_new-SameWorld : (env : Env) (options : Options) → SameWorld (select_new env options)
unfolding select_new
select_new-SameWorld env options s =
    SameWorld-bind (SameWorld-lift (option_map options (sum_option_weights s.randweight) 0))
      (λ sum. SameWorld-bind (draw-SameWorld env sum) λ ch.
        SameWorld-bind (SameWorld-lift (walk s.randweight options ch))
          λ o. SameWorld-bind (SameWorld-lift (reweight options o s.randweight)) λ w x. gave refl)
      s

select_old-SameWorld :
    (env : Env) (f : ℕ) (options : Options) (last : ℕ) → SameWorld (select_old env f options last)
unfolding select_old
select_old-SameWorld env f options last s =
    SameWorld-bind (redraw-SameWorld env f (option_length options) (s.last_choice last))
      (λ c t. gave refl) s

-- What `select_option` gives is NULL or one of the options, and the variables are left alone.
pub select_option-Chosen :
    (env : Env) (f : ℕ) (options : Options) (last : ℕ) (mode : ResMode) (s : Engine)
    → Yields
        (λ o t. NullOrAmong options o × (world t ≡ (world s)))
        (select_option env f options last mode s)
unfolding select_option
select_option-Chosen env f options last mode s =
    Yields-both (select_option-NullOrAmong env f options last mode s) (
      SameWorld-if (env.old_probability && is_plain mode) (select_old-SameWorld env f options last)
        (select_new-SameWorld env options) s)

-- So is what the inline choice picks.
pub picked-Chosen :
    (env : Env) (f : ℕ) (options : Options) (last : ℤ) (s : Engine)
    → Yields
        (λ c t. NullOrAmong options (option_nth options c) × (world t ≡ (world s)))
        (redraw env f (option_length options) last s)
picked-Chosen env f options last s =
    Yields-weaken (λ c t e. (option_nth-NullOrAmong options c, e))
      (redraw-SameWorld env f (option_length options) last s)
