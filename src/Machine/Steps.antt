-- ===== src/Machine/Steps.antt =====
-- src/machine.c: `exec_instr` held against the steps of `Machine.World`.
use mathlib.Core.Path.{subst}
use dada_engine.Prelude.{
  ok, ◌≢◌, ℕ, ◌≡◌, refl, ap, sym, ◌∙◌, inl, inr, Bool-cases, true, List, [], ◌∷◌, Option, none,
  some, length, ltb, arith,
}
use dada_engine.Prelude.Int.{ℤ, pos, ◌+ℤ◌, ◌-ℤ◌, ◌*ℤ◌, quot, rem, fits_int}
use dada_engine.Text.{Text}
use dada_engine.Variables.{Value, int, str, var_lookup, text_of_value, var_put, var_put_int}
use dada_engine.Instr.{
  Instr, set, pushv, invoke, push, add, sub, mul, div, emit, modulo, random, lesser, greater,
}
use dada_engine.Rtn.{RuleTree}
use dada_engine.Engine.{Env, Engine, M, then_do, ◌>>◌, pure, crash, checked}
use dada_engine.Machine.{
  stack_size, push_cell, temp_pop, pop_two, push_result, divides, divide, random_between, add_cells,
  min_ℤ, max_ℤ, exec_instr,
}
use dada_engine.Machine.World.{
  in_int, where_defined, world, Pushes, number_of, is_numeric, Steps, sets, emits, reads,
  pushes_number, pushes_text, computes, joins, drops,
}
use dada_engine.Resolve.Yields.{Yields, gave, crashes, Yields-bind, Yields-weaken}

pub push_cell-Pushes :
    (c : Value) (s : Engine) → Yields (λ _ t. Pushes c (world s) (world t)) (push_cell c s)
unfolding push_cell
push_cell-Pushes c s = elim (Bool-cases (ltb (length s.stack) stack_size)) [
  | inl room ↦ rw room (gave (ground arith, refl))
  | inr full ↦ rw full crashes
]

pop_two-Yields :
    (f : Value → Value → M (Unit {0})) (Q : Engine → Type 0) (st : List Value) (s : Engine)
    → ((a b : Value) (st' : List Value)
        → st ≡ b ∷ a ∷ st'
        → Yields (λ _ t. Q t) (f a b (record s { stack = st' })))
    → Yields (λ x t. (x ≡ none) × Q t) (pop_two f (record s { stack = st }))
unfolding pop_two temp_pop
pop_two-Yields f Q [] s h = crashes
pop_two-Yields f Q (b ∷ []) s h = crashes
pop_two-Yields f Q (b ∷ a ∷ st) s h = Yields-bind (h a b st refl) λ u t q. gave (refl, q)

checked-fits :
    (z : ℤ) (s : Engine)
    → Yields (λ y t. (y ≡ z) × (fits_int z ≡ true) × (world t ≡ world s)) (checked z s)
checked-fits z s = elim (Bool-cases (fits_int z)) [
  | inl e ↦ rw e (gave (refl, refl, refl))
  | inr e ↦ rw e crashes
]

-- What the arithmetic of an instruction gives, with the world as it was.
abbrev Gives : Instr → (ℤ → ℤ → M ℤ) → Type 0
Gives i f =
    (a b : ℤ) (s : Engine)
    → Yields (λ z t. (r : ℕ) × (number_of i r a b ≡ some z) × (world t ≡ world s)) (f a b s)

Gives-sub : Gives sub (λ a b. checked (a +ℤ b))
Gives-sub a b s =
    Yields-weaken (λ z t (e, k, same). (0, rw (k, e) refl, same)) (checked-fits (a +ℤ b) s)

Gives-mul : Gives mul (λ a b. checked (a *ℤ b))
Gives-mul a b s =
    Yields-weaken (λ z t (e, k, same). (0, rw (k, e) refl, same)) (checked-fits (a *ℤ b) s)

divide-fits :
    (f : ℤ → ℤ → ℤ) (a b : ℤ) (s : Engine)
    → Yields
        (λ y t.
          (y ≡ f a b) × (divides a b ≡ true) × (fits_int (f a b) ≡ true) × (world t ≡ world s))
        (divide f a b s)
unfolding divide
divide-fits f a b s = elim (Bool-cases (divides a b)) [
  | inr e ↦ rw e crashes
  | inl e ↦ rw e (Yields-weaken (λ y t (d, k, same). (d, refl, k, same)) (checked-fits (f a b) s))
]

Gives-div : Gives div (divide quot)
Gives-div a b s =
    Yields-weaken (λ z t (e, n, k, same). (0, rw (n, k, e) refl, same)) (divide-fits quot a b s)

Gives-modulo : Gives modulo (divide rem)
Gives-modulo a b s =
    Yields-weaken (λ z t (e, n, k, same). (0, rw (n, k, e) refl, same)) (divide-fits rem a b s)

Gives-random : (env : Env) → Gives random (random_between env)
unfolding random_between
Gives-random env a b s = Yields-bind (checked-fits (b -ℤ a) _) λ d t (ed, kd, wd).
    Yields-bind (checked-fits (d +ℤ pos 1) t) λ n u (en, kn, wn).
      Yields-bind (divide-fits rem (pos (env.random s.randoms)) n u) λ m v (em, zm, km, wm).
        Yields-weaken
          (λ z x (ez, kz, wz).
            (env.random s.randoms, scaled z m n d ez kz em zm en ed, wz ∙ (wm ∙ (wn ∙ wd))))
          (checked-fits (m +ℤ a) v)
  where
    scaled :
        (z m n d : ℤ)
        → z ≡ m +ℤ a
        → fits_int (m +ℤ a) ≡ true
        → m ≡ rem (pos (env.random s.randoms)) n
        → divides (pos (env.random s.randoms)) n ≡ true
        → n ≡ d +ℤ pos 1
        → d ≡ b -ℤ a
        → number_of random (env.random s.randoms) a b ≡ some z
    scaled z m n d ez kz em zm en ed =
        let r = pos (env.random s.randoms) in
        ap (λ k. where_defined r k (in_int (rem r k +ℤ a))) (sym (en ∙ ap (λ q. q +ℤ pos 1) ed))
        ∙ rw (zm, sym em, kz, ez) refl

Gives-lesser : Gives lesser (λ a b. pure (min_ℤ a b))
Gives-lesser a b s = gave (0, refl, refl)

Gives-greater : Gives greater (λ a b. pure (max_ℤ a b))
Gives-greater a b s = gave (0, refl, refl)

-- What the two cells of an operation on numbers become.
module _ (i : Instr) (f : ℤ → ℤ → M ℤ) (numeric : is_numeric i ≡ true) (gives : Gives i f) where
  push_result-Steps :
      (a b : Value) (st st' : List Value) (s : Engine)
      → st ≡ b ∷ a ∷ st'
      → Yields
          (λ _ t. Steps i (record { vars = s.vars; stack = st }) none (world t))
          (push_result f a b (record s { stack = st' }))
  unfolding push_result
  push_result-Steps (int a) (int b) st st' s e =
      Yields-bind (gives a b (record s { stack = st' })) λ z t (r, k, same).
        Yields-weaken
          (λ _ u pushed. computes r e k (subst (λ w. Pushes (int z) w (world u)) same pushed))
          (push_cell-Pushes (int z) t)
  push_result-Steps (int a) (str b) st st' s e = gave (drops (int a) (str b) e refl numeric)
  push_result-Steps (str a) d st st' s e = gave (drops (str a) d e refl numeric)

  arithmetic-Steps :
      (s : Engine) → Yields (λ x t. Steps i (world s) x (world t)) (pop_two (push_result f) s)
  arithmetic-Steps s =
      Yields-weaken (λ x t (e, step). subst (λ y. Steps i (world s) y (world t)) (sym e) step)
        (pop_two-Yields (push_result f) (λ t. Steps i (world s) none (world t)) s.stack s
          λ a b st e. push_result-Steps a b s.stack st s e)

add_cells-Steps :
    (a b : Value) (st st' : List Value) (s : Engine)
    → st ≡ b ∷ a ∷ st'
    → Yields
        (λ _ t. Steps add (record { vars = s.vars; stack = st }) none (world t))
        (add_cells a b (record s { stack = st' }))
unfolding add_cells
add_cells-Steps (int a) (int b) st st' s e =
    Yields-bind (checked-fits (a +ℤ b) (record s { stack = st' })) λ z t (k, fits, same).
      Yields-weaken
        (λ _ u pushed.
          computes 0 e (rw (fits, k) refl) (subst (λ w. Pushes (int z) w (world u)) same pushed))
        (push_cell-Pushes (int z) t)
add_cells-Steps (int a) (str b) st st' s e =
    Yields-weaken (λ _ u pushed. joins (int a) (str b) e refl pushed) (push_cell-Pushes _ _)
add_cells-Steps (str a) d st st' s e =
    Yields-weaken (λ _ u pushed. joins (str a) d e refl pushed) (push_cell-Pushes _ _)

set-Steps :
    (name : Text) (st : List Value) (s : Engine)
    → Yields
        (λ x t. Steps (set name) (record { vars = s.vars; stack = st }) x (world t))
        (then_do (temp_pop (record s { stack = st })) λ c t. ok (
          none,
          record t {
            vars = elim c [ str t' ↦ var_put t.vars name t' | int i ↦ var_put_int t.vars name i ];
          },
        ))
unfolding temp_pop
set-Steps name [] s = crashes
set-Steps name (int i ∷ st) s = gave (sets refl)
set-Steps name (str t ∷ st) s = gave (sets refl)

emit-Steps :
    (st : List Value) (s : Engine)
    → Yields
        (λ x t. Steps emit (record { vars = s.vars; stack = st }) x (world t))
        (then_do (temp_pop (record s { stack = st })) λ c. pure (text_of_value c))
unfolding temp_pop
emit-Steps [] s = crashes
emit-Steps (c ∷ st) s = gave (emits refl)

read-Steps :
    (name : Text) (o : Option Value) (s : Engine)
    → var_lookup s.vars name ≡ o
    → Yields
        (λ x t. Steps (pushv name) (world s) x (world t))
        ((elim o as (λ _. M (Option Text)) [ none ↦ crash | some v ↦ push_cell v >> pure none ]) s)
read-Steps name none s e = crashes
read-Steps name (some c) s e =
    Yields-bind (push_cell-Pushes c s) λ u t pushed. gave (reads e pushed)

-- An instruction that invokes no rule.
pub exec_instr-Steps :
    (env : Env) (run : RuleTree → M (Option Text)) (i : Instr) (s : Engine)
    → ((name : Text) → i ≢ invoke name)
    → Yields (λ x t. Steps i (world s) x (world t)) (exec_instr env run i s)
unfolding exec_instr
exec_instr-Steps env run (set name) s h = set-Steps name s.stack s
exec_instr-Steps env run emit s h = emit-Steps s.stack s
exec_instr-Steps env run (pushv name) s h = read-Steps name (var_lookup s.vars name) s refl
exec_instr-Steps env run (invoke name) s h = absurd (h name refl)
exec_instr-Steps env run (push (int i)) s h =
    Yields-bind (push_cell-Pushes (int i) s) λ u t pushed. gave (pushes_number pushed)
exec_instr-Steps env run (push (str none)) s h = crashes
exec_instr-Steps env run (push (str (some x))) s h =
    Yields-bind (push_cell-Pushes (str (some x)) s) λ u t pushed. gave (pushes_text pushed)
exec_instr-Steps env run add s h =
    Yields-weaken (λ x t (e, step). subst (λ y. Steps add (world s) y (world t)) (sym e) step)
      (pop_two-Yields add_cells (λ t. Steps add (world s) none (world t)) s.stack s
        λ a b st e. add_cells-Steps a b s.stack st s e)
exec_instr-Steps env run sub s h = arithmetic-Steps sub _ refl Gives-sub s
exec_instr-Steps env run mul s h = arithmetic-Steps mul _ refl Gives-mul s
exec_instr-Steps env run div s h = arithmetic-Steps div _ refl Gives-div s
exec_instr-Steps env run modulo s h = arithmetic-Steps modulo _ refl Gives-modulo s
exec_instr-Steps env run random s h = arithmetic-Steps random _ refl (Gives-random env) s
exec_instr-Steps env run lesser s h = arithmetic-Steps lesser _ refl Gives-lesser s
exec_instr-Steps env run greater s h = arithmetic-Steps greater _ refl Gives-greater s
