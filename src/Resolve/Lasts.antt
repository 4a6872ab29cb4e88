-- ===== src/Resolve/Lasts.antt =====
-- src/resolve.c: the actions that run on no fuel, or on what they are given.
use dada_engine.Prelude.{
  ℕ, zero, suc, ◌+◌, ◌*◌, ◌≡◌, ◌≢◌, refl, inl, inr, Bool, false, Bool-cases, [], ◌∷◌, Option, none,
  some, Outcome, ok, exited, fault, timeout, ltb, ◌==◌, if◌then◌else◌,
}
use dada_engine.Prelude.Ends
use dada_engine.Prelude.Int.{ℤ, ltb_ℤ}
use dada_engine.Text.{Text}
use dada_engine.Strfunc.{dstrcat}
use dada_engine.Ptrlist.{list_length, list_nth}
use dada_engine.Rtn.{ResMode, Options, end, option, option_map}
use dada_engine.Engine.{Env, Engine, M, then_do, lift}
use dada_engine.Select.{
  sum_option_weights, incr_option_weight, walk, reweight, draw, select_new, select_option,
  int_limit,
}
use dada_engine.Resolve.{with_string, repeat_loop}
use dada_engine.Resolve.Passing.{Cooked, strdup, first_cell, actual}
use dada_engine.Resolve.Yields.{Yields, gave}

-- The fuel lasted.
pub data Lasts {ℓ} {A : Type ℓ} : Outcome A → Type ℓ where
  lasts_ok : {a : A} → Lasts (ok a)
  lasts_exited : {n : ℕ} → Lasts (exited n)
  lasts_fault : Lasts fault

pub Lasts-ne-timeout {ℓ} : {A : Type ℓ} {o : Outcome A} → Lasts o → o ≢ timeout
Lasts-ne-timeout lasts_ok e = cc
Lasts-ne-timeout lasts_exited e = cc
Lasts-ne-timeout lasts_fault e = cc

pub ne-timeout-Lasts {ℓ} : {A : Type ℓ} {o : Outcome A} → o ≢ timeout → Lasts o
ne-timeout-Lasts {o = ok a} h = lasts_ok
ne-timeout-Lasts {o = exited n} h = lasts_exited
ne-timeout-Lasts {o = fault} h = lasts_fault
ne-timeout-Lasts {o = timeout} h = absurd (h refl)

module _ {ℓ κ} {A : Type ℓ} {B : Type κ} where
  pub then_do-Lasts :
      {o : Outcome (A × Engine)} {f : A → M B}
      → Lasts o
      → ((a : A) (s : Engine) → Lasts (f a s))
      → Lasts (then_do o f)
  then_do-Lasts (lasts_ok {a}) h = h a.0 a.1
  then_do-Lasts lasts_exited h = lasts_exited
  then_do-Lasts lasts_fault h = lasts_fault

  pub bind-Lasts :
      {o : Outcome A} {f : A → Outcome B}
      → Lasts o
      → ((a : A) → Lasts (f a))
      → Lasts (Ends.◌>>=◌ o f)
  bind-Lasts (lasts_ok {a}) h = h a
  bind-Lasts lasts_exited h = lasts_exited
  bind-Lasts lasts_fault h = lasts_fault

pub lift-Lasts {ℓ} : {A : Type ℓ} {o : Outcome A} (s : Engine) → Lasts o → Lasts (lift o s)
lift-Lasts s lasts_ok = lasts_ok
lift-Lasts s lasts_exited = lasts_exited
lift-Lasts s lasts_fault = lasts_fault

pub if-Lasts {ℓ} :
    {A : Type ℓ} (b : Bool) {x y : Outcome A} → Lasts x → Lasts y → Lasts (if b then x else y)
if-Lasts Bool.true hx hy = hx
if-Lasts false hx hy = hy

option_map-Lasts {ℓ} :
    {S : Type ℓ} (options : Options) (iter : ℕ → S → Outcome S) (s : S)
    → ((x : ℕ) (t : S) → Lasts (iter x t))
    → Lasts (option_map options iter s)
unfolding option_map
option_map-Lasts end iter s h = lasts_ok
option_map-Lasts (option x n next) iter s h = bind-Lasts (h x s) λ t. option_map-Lasts next iter t h

walk-Lasts : (weight : ℕ → ℕ) (options : Options) (ch : ℕ) → Lasts (walk weight options ch)
unfolding walk
walk-Lasts weight end ch = lasts_fault
walk-Lasts weight (option o atoms next) ch =
    if-Lasts (ltb (weight o) ch) (walk-Lasts weight next _) lasts_ok

reweight-Lasts : (options o : Options) (weight : ℕ → ℕ) → Lasts (reweight options o weight)
unfolding reweight incr_option_weight
reweight-Lasts options end weight = lasts_fault
reweight-Lasts options (option o atoms next) weight =
    option_map-Lasts options incr_option_weight _
      λ x w. if-Lasts (ltb ((w x + 1) * 3) int_limit) lasts_ok lasts_fault

draw-Lasts : (env : Env) (sum : ℕ) (s : Engine) → Lasts (draw env sum s)
unfolding draw
draw-Lasts env sum s = elim (Bool-cases (sum == 0)) [
  | inl e ↦ rw e lasts_ok
  | inr e ↦ rw e lasts_ok
]

select_new-Lasts : (env : Env) (options : Options) (s : Engine) → Lasts (select_new env options s)
unfolding select_new sum_option_weights
select_new-Lasts env options s =
    then_do-Lasts
      (lift-Lasts s (
        option_map-Lasts options (sum_option_weights s.randweight) 0
          λ x t. if-Lasts (ltb (t + s.randweight x) int_limit) lasts_ok lasts_fault))
      λ sum t. then_do-Lasts (draw-Lasts env sum t) λ ch u.
        then_do-Lasts (lift-Lasts u (walk-Lasts s.randweight options ch)) λ o v.
          then_do-Lasts (lift-Lasts v (reweight-Lasts options o s.randweight)) λ w x. lasts_ok

pub select_option-Lasts :
    (env : Env) (f : ℕ) (options : Options) (last : ℕ) (mode : ResMode) (s : Engine)
    → env.old_probability ≡ false
    → Lasts (select_option env f options last mode s)
unfolding select_option
select_option-Lasts env f options last mode s e = simp e (select_new-Lasts env options s)

pub then_do-Yields {ℓ κ} :
    {A : Type ℓ} {B : Type κ} {P : A → Engine → Type 0} {o : Outcome (A × Engine)} {f : A → M B}
    → Lasts o
    → Yields P o
    → ((a : A) (s : Engine) → P a s → Lasts (f a s))
    → Lasts (then_do o f)
then_do-Yields lasts_ok (gave h) k = k _ _ h
then_do-Yields lasts_exited y k = lasts_exited
then_do-Yields lasts_fault y k = lasts_fault

pub with_string-Lasts :
    (o : Option Text) (s : Engine) (m : M (Option Text)) (f : Text → M (Option Text))
    → Lasts (m s)
    → ((t : Text) → Lasts (f t s))
    → Lasts (with_string o m f s)
unfolding with_string
with_string-Lasts none s m f h k = h
with_string-Lasts (some t) s m f h k = k t

pub repeat_loop-Lasts :
    (i : ℕ) (m : M (Option Text)) (before : Option Text) (s : Engine)
    → ((t : Engine) → Lasts (m t))
    → Lasts (repeat_loop i m before s)
unfolding repeat_loop
repeat_loop-Lasts zero m before s h = lasts_ok
repeat_loop-Lasts (suc i) m before s h =
    then_do-Lasts (h s) λ x t. repeat_loop-Lasts i m (dstrcat before x) t h

pub strdup-Lasts : (t : Option Text) (s : Engine) → Lasts (strdup t s)
strdup-Lasts none s = lasts_fault
strdup-Lasts (some t) s = lasts_ok

cell-Lasts : (cooked : Cooked) (s : Engine) → Lasts (first_cell cooked s)
cell-Lasts [] s = lasts_fault
cell-Lasts (t ∷ rest) s = strdup-Lasts t s

pub actual-Lasts : (i : ℤ) (cooked : Cooked) (s : Engine) → Lasts (actual i cooked s)
unfolding actual
actual-Lasts i cooked s = elim (Bool-cases (ltb_ℤ i (list_length cooked))) [
  | inl e ↦ rw e (cell-Lasts (list_nth cooked i) s)
  | inr e ↦ rw e lasts_ok
]
