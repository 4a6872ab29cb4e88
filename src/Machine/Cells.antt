-- ===== src/Machine/Cells.antt =====
-- src/machine.c: what arithmetic and a push leave of the state.
use mathlib.Core.Path.{subst}
use dada_engine.Prelude.{
  ℕ, ◌+◌, ◌≡◌, refl, ap, inl, inr, Bool-cases, Bool, true, false, ◌∷◌, none, some, Outcome, ok,
  fault, length, ltb, if◌then◌else◌,
}
use dada_engine.Prelude.Int.{ℤ, pos, ◌+ℤ◌, ◌-ℤ◌, rem, fits_int}
use dada_engine.Variables.{TypeT, int_t, string_t, Value, int, str}
use dada_engine.Engine.{Env, Engine, M, then_do, ◌>>=◌, checked}
use dada_engine.Machine.{stack_size, push_cell, divides, divide, random_between}

abbrev pub type_of : Value → TypeT
type_of (int i) = int_t
type_of (str t) = string_t

-- A fault, or a number; at most random numbers were drawn.
pub data Counted (s : Engine) : Outcome (ℤ × Engine) → Type 0 where
  no_number : Counted s fault
  number : {z : ℤ} {k : ℕ} → Counted s (ok (z, record s { randoms = k }))

-- A fault, or one more cell of the type; at most random numbers were drawn.
pub data Pushed (t : TypeT) (s : Engine) : Outcome (Unit {0} × Engine) → Type 0 where
  no_cell : Pushed t s fault
  cell :
      {v : Value} {k : ℕ}
      → type_of v ≡ t
      → Pushed t s (ok (tt, record s { stack = v ∷ s.stack; randoms = k }))

Counted-bind :
    {s : Engine} {o : Outcome (ℤ × Engine)} (f : ℤ → M ℤ)
    → Counted s o
    → ((z : ℤ) (k : ℕ) → Counted s (f z (record s { randoms = k })))
    → Counted s (then_do o f)
Counted-bind f no_number h = no_number
Counted-bind f (number {z} {k}) h = h z k

Counted-if :
    (b : Bool) (s : Engine) {o p : Outcome (ℤ × Engine)}
    → Counted s o
    → Counted s p
    → Counted s (if b then o else p)
Counted-if true s ho hp = ho
Counted-if false s ho hp = hp

pub Counted-checked :
    (z : ℤ) (s : Engine) (k : ℕ) → Counted s (checked z (record s { randoms = k }))
Counted-checked z s k = Counted-if (fits_int z) s number no_number

pub Counted-divide :
    (f : ℤ → ℤ → ℤ) (a b : ℤ) (s : Engine) (k : ℕ)
    → Counted s (divide f a b (record s { randoms = k }))
unfolding divide
Counted-divide f a b s k = elim (Bool-cases (divides a b)) [
  | inr e ↦ rw e no_number
  | inl e ↦ rw e (Counted-checked (f a b) s k)
]

pub Counted-random : (env : Env) (a b : ℤ) (s : Engine) → Counted s (random_between env a b s)
unfolding random_between
Counted-random env a b s =
    let scaled : ℤ → M ℤ =
      λ n. divide rem (pos (env.random s.randoms)) n >>= λ m. checked (m +ℤ a) in
    Counted-bind (λ d. checked (d +ℤ pos 1) >>= scaled) (Counted-checked (b -ℤ a) s (s.randoms + 1))
      λ d k. Counted-bind scaled (Counted-checked (d +ℤ pos 1) s k) λ n m.
        Counted-bind (λ m. checked (m +ℤ a)) (Counted-divide rem (pos (env.random s.randoms)) n s m)
          λ z j. Counted-checked (z +ℤ a) s j

pub Pushed-cell :
    (v : Value) (t : TypeT) (s : Engine) (k : ℕ)
    → type_of v ≡ t
    → Pushed t s (push_cell v (record s { randoms = k }))
unfolding push_cell
Pushed-cell v t s k e = elim (Bool-cases (ltb (length s.stack) stack_size)) [
  | inl b ↦ rw b (cell e)
  | inr b ↦ rw b no_cell
]

pub Pushed-number :
    {s : Engine} {o : Outcome (ℤ × Engine)}
    → Counted s o
    → Pushed int_t s (then_do o λ r. push_cell (int r))
Pushed-number no_number = no_cell
Pushed-number {s} (number {z} {k}) = Pushed-cell (int z) int_t s k refl

pub some_type : {t u : TypeT} → some t ≡ some u → t ≡ u
some_type {t} h = ap (λ o. elim o [ none ↦ t | some x ↦ x ]) h

pub typed :
    {t u : TypeT} {s : Engine} {o : Outcome (Unit {0} × Engine)}
    → some t ≡ some u
    → Pushed t s o
    → Pushed u s o
typed {s} {o} h p = subst (λ w. Pushed w s o) (some_type h) p
