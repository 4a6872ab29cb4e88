-- ===== src/Resolve/Yields.antt =====
-- Postconditions of actions: what holds of the result, if there is one.
use dada_engine.Prelude.{
  ℕ, zero, suc, ◌-◌, ◌≡◌, refl, inl, inr, Bool-cases, arith, Bool, true, false, ◌&&◌, Outcome, ok,
  exited, fault, timeout, ltb, if◌then◌else◌,
}
use dada_engine.Prelude.Ends
use dada_engine.Rtn.{ResMode, Nodes, Options, end, option, option_nth, option_length, option_map}
use dada_engine.Engine.{Env, Engine, M, then_do, lift}
use dada_engine.Select.{
  walk, redraw, select_old, select_new, select_option, sum_option_weights, draw, reweight, is_plain,
}

pub data Yields {ℓ} {A : Type ℓ} (P : A → Engine → Type 0) : Outcome (A × Engine) → Type ℓ where
  gave : {a : A} {s : Engine} → P a s → Yields P (ok (a, s))
  quits : {n : ℕ} → Yields P (exited n)
  crashes : Yields P fault
  starves : Yields P timeout

module _ {ℓ κ} {A : Type ℓ} {B : Type κ} {Q : B → Engine → Type 0} where
  pub Yields-bind :
      {P : A → Engine → Type 0} {o : Outcome (A × Engine)} {f : A → M B}
      → Yields P o
      → ((a : A) (s : Engine) → P a s → Yields Q (f a s))
      → Yields Q (then_do o f)
  Yields-bind (gave {a} {s} h) k = k a s h
  Yields-bind quits k = quits
  Yields-bind crashes k = crashes
  Yields-bind starves k = starves

module _ {ℓ} {A : Type ℓ} {P : A → Engine → Type 0} where
  pub Yields-if :
      (b : Bool) {x y : Outcome (A × Engine)}
      → Yields P x
      → Yields P y
      → Yields P (if b then x else y)
  Yields-if true hx hy = hx
  Yields-if false hx hy = hy

pub Yields-weaken {ℓ} :
    {A : Type ℓ} {P Q : A → Engine → Type 0} {o : Outcome (A × Engine)}
    → ((a : A) (s : Engine) → P a s → Q a s)
    → Yields P o
    → Yields Q o
Yields-weaken f (gave h) = gave (f _ _ h)
Yields-weaken f quits = quits
Yields-weaken f crashes = crashes
Yields-weaken f starves = starves

-- Every action yields something of its type.
pub Yields-any {ℓ} : {A : Type ℓ} (o : Outcome (A × Engine)) → Yields (λ _ _. Unit) o
Yields-any (ok (a, s)) = gave tt
Yields-any (exited n) = quits
Yields-any fault = crashes
Yields-any timeout = starves

-- What an outcome that does not touch the state gives is its value, and the state stays.
pub Yields-lift :
    {A : Type 0} (o : Outcome A) (s : Engine) → Yields (λ y t. (o ≡ ok y) × (t ≡ s)) (lift o s)
Yields-lift (ok a) s = gave (refl, refl)
Yields-lift (exited n) s = quits
Yields-lift fault s = crashes
Yields-lift timeout s = starves

-- The bind of outcomes, where the state is carried by hand.
pub Yields-ends {ℓ κ} :
    {A : Type ℓ} {B : Type κ} {P : A → Engine → Type 0} {Q : B → Engine → Type 0}
    {o : Outcome (A × Engine)} (f : A × Engine → Outcome (B × Engine))
    → Yields P o
    → ((a : A) (s : Engine) → P a s → Yields Q (f (a, s)))
    → Yields Q (Ends.◌>>=◌ o f)
Yields-ends f (gave {a} {s} h) k = k a s h
Yields-ends f quits k = quits
Yields-ends f crashes k = crashes
Yields-ends f starves k = starves

-- The result itself, where there is one.
pub Yields-ok {ℓ} :
    {A : Type ℓ} {P : A → Engine → Type 0} {o : Outcome (A × Engine)} {a : A} {s : Engine}
    → Yields P o
    → o ≡ ok (a, s)
    → P a s
Yields-ok (gave h) e = ground arith
Yields-ok quits e = cc
Yields-ok crashes e = cc
Yields-ok starves e = cc

-- `o` is what is left of `options` from some option on: a pointer into the list, not NULL.
pub data Among : Options → Options → Type 0 where
  here :
      {x : ℕ} {atoms : Nodes} {next : Options} → Among (option x atoms next) (option x atoms next)
  there : {x : ℕ} {atoms : Nodes} {next o : Options} → Among next o → Among (option x atoms next) o

-- NULL or among the options.
abbrev pub NullOrAmong : Options → Options → Type 0
NullOrAmong options end = Unit
NullOrAmong options (option x atoms next) = Among options (option x atoms next)

NullOrAmong-there :
    (x : ℕ) (atoms : Nodes) (next o : Options)
    → NullOrAmong next o
    → NullOrAmong (option x atoms next) o
NullOrAmong-there x atoms next end h = tt
NullOrAmong-there x atoms next (option y a n) h = there h

pub option_nth-NullOrAmong :
    (options : Options) (i : ℕ) → NullOrAmong options (option_nth options i)
unfolding option_nth
option_nth-NullOrAmong end i = tt
option_nth-NullOrAmong (option x atoms next) zero = here
option_nth-NullOrAmong (option x atoms next) (suc i) =
    NullOrAmong-there x atoms next (option_nth next i) (option_nth-NullOrAmong next i)

walk-NullOrAmong :
    (weight : ℕ → ℕ) (options : Options) (ch : ℕ) (s : Engine)
    → Yields (λ o _. NullOrAmong options o) (lift (walk weight options ch) s)
unfolding walk
walk-NullOrAmong weight end ch s = crashes
walk-NullOrAmong weight (option x atoms next) ch s = elim (Bool-cases (ltb (weight x) ch)) [
  | inl past ↦ rw past (
      Yields-weaken (λ o _ h. NullOrAmong-there x atoms next o h)
        (walk-NullOrAmong weight next (ch - weight x) s))
  | inr stop ↦ rw stop (gave here)
]

select_old-NullOrAmong :
    (env : Env) (f : ℕ) (options : Options) (last : ℕ) (s : Engine)
    → Yields (λ o _. NullOrAmong options o) (select_old env f options last s)
unfolding select_old
select_old-NullOrAmong env f options last s =
    Yields-bind (Yields-any (redraw env f (option_length options) (s.last_choice last) s))
      λ c t _. gave (option_nth-NullOrAmong options c)

select_new-NullOrAmong :
    (env : Env) (options : Options) (s : Engine)
    → Yields (λ o _. NullOrAmong options o) (select_new env options s)
unfolding select_new
select_new-NullOrAmong env options s =
    Yields-bind (Yields-any (lift (option_map options (sum_option_weights s.randweight) 0) s))
      λ sum t _. Yields-bind (Yields-any (draw env sum t)) λ ch u _.
        Yields-bind (walk-NullOrAmong s.randweight options ch u) λ o v h.
          Yields-bind (Yields-any (lift (reweight options o s.randweight) v)) λ w x _. gave h

-- What `select_option` gives is NULL or one of the options.
pub select_option-NullOrAmong :
    (env : Env) (f : ℕ) (options : Options) (last : ℕ) (mode : ResMode) (s : Engine)
    → Yields (λ o _. NullOrAmong options o) (select_option env f options last mode s)
unfolding select_option
select_option-NullOrAmong env f options last mode s =
    elim (Bool-cases (env.old_probability && is_plain mode)) [
      | inl b ↦ rw b (select_old-NullOrAmong env f options last s)
      | inr b ↦ rw b (select_new-NullOrAmong env options s)
    ]
