-- ===== src/Resolve/Termination/Code.antt =====
-- src/machine.c: the fuel of embedded code.
use dada_engine.Prelude.{
  ℕ, ◌≢◌, refl, List, [], ◌∷◌, Option, none, some, length, ltb, inl, inr, Bool-cases,
}
use dada_engine.Prelude.Int.{ℤ, pos, ◌+ℤ◌, ◌-ℤ◌, ◌*ℤ◌, quot, rem, fits_int}
use dada_engine.Text.{Text}
use dada_engine.Variables.{Value, int, str, var_lookup}
use dada_engine.Instr.{
  Instr, set, pushv, invoke, push, add, sub, mul, div, emit, modulo, random, lesser, greater,
}
use dada_engine.Rtn.{RuleTree, null, node, rule_find}
use dada_engine.Engine.{Env, Engine, M, ◌>>◌, pure, crash, checked}
use dada_engine.Machine.{
  stack_size, push_cell, temp_pop, pop_two, push_result, divides, divide, random_between, add_cells,
  invoked, exec_instr, exec_stream,
}
use dada_engine.Resolve.Lasts.{Lasts, lasts_ok, lasts_fault, then_do-Lasts}
use dada_engine.Resolve.Termination.Depth.{
  ShallowCode, ShallowRule, shallow_stop, shallow_invoke, shallow_instr,
}

push_cell-Lasts : (c : Value) (s : Engine) → Lasts (push_cell c s)
unfolding push_cell
push_cell-Lasts c s = elim (Bool-cases (ltb (length s.stack) stack_size)) [
  | inl e ↦ rw e lasts_ok
  | inr e ↦ rw e lasts_fault
]

checked-Lasts : (z : ℤ) (s : Engine) → Lasts (checked z s)
checked-Lasts z s = elim (Bool-cases (fits_int z)) [
  | inl e ↦ rw e lasts_ok
  | inr e ↦ rw e lasts_fault
]

divide-Lasts : (f : ℤ → ℤ → ℤ) (a b : ℤ) (s : Engine) → Lasts (divide f a b s)
unfolding divide
divide-Lasts f a b s = elim (Bool-cases (divides a b)) [
  | inr e ↦ rw e lasts_fault
  | inl e ↦ rw e (checked-Lasts (f a b) s)
]

pop_two-Lasts :
    (f : Value → Value → M (Unit {0})) (st : List Value) (s : Engine)
    → ((a b : Value) (t : Engine) → Lasts (f a b t))
    → Lasts (pop_two f (record s { stack = st }))
unfolding pop_two temp_pop
pop_two-Lasts f [] s h = lasts_fault
pop_two-Lasts f (b ∷ []) s h = lasts_fault
pop_two-Lasts f (b ∷ a ∷ st) s h = then_do-Lasts (h a b _) λ u t. lasts_ok

push_result-Lasts :
    (f : ℤ → ℤ → M ℤ) (a b : Value) (s : Engine)
    → ((x y : ℤ) (t : Engine) → Lasts (f x y t))
    → Lasts (push_result f a b s)
unfolding push_result
push_result-Lasts f (int a) (int b) s h = then_do-Lasts (h a b s) λ z t. push_cell-Lasts (int z) t
push_result-Lasts f (int a) (str b) s h = lasts_ok
push_result-Lasts f (str a) b s h = lasts_ok

add_cells-Lasts : (a b : Value) (s : Engine) → Lasts (add_cells a b s)
unfolding add_cells
add_cells-Lasts (int a) (int b) s =
    then_do-Lasts (checked-Lasts (a +ℤ b) s) λ z t. push_cell-Lasts (int z) t
add_cells-Lasts (int a) (str b) s = push_cell-Lasts _ s
add_cells-Lasts (str a) b s = push_cell-Lasts _ s

arithmetic-Lasts :
    (f : ℤ → ℤ → M ℤ) (s : Engine)
    → ((x y : ℤ) (t : Engine) → Lasts (f x y t))
    → Lasts (pop_two (push_result f) s)
arithmetic-Lasts f s h = pop_two-Lasts _ s.stack s λ a b t. push_result-Lasts f a b t h

random_between-Lasts : (env : Env) (a b : ℤ) (s : Engine) → Lasts (random_between env a b s)
unfolding random_between
random_between-Lasts env a b s = then_do-Lasts (checked-Lasts (b -ℤ a) _) λ d t.
    then_do-Lasts (checked-Lasts (d +ℤ pos 1) t)
      λ n u. then_do-Lasts (divide-Lasts rem _ n u) λ m v. checked-Lasts (m +ℤ a) v

temp_pop-Lasts : (st : List Value) (s : Engine) → Lasts (temp_pop (record s { stack = st }))
unfolding temp_pop
temp_pop-Lasts [] s = lasts_fault
temp_pop-Lasts (c ∷ st) s = lasts_ok

read-Lasts :
    (o : Option Value) (s : Engine)
    → Lasts
        ((elim o as (λ _. M (Option Text)) [ none ↦ crash | some v ↦ push_cell v >> pure none ]) s)
read-Lasts none s = lasts_fault
read-Lasts (some c) s = then_do-Lasts (push_cell-Lasts c s) λ u t. lasts_ok

module _ (env : Env) (run : RuleTree → M (Option Text)) where
  instr-Lasts :
      (i : Instr) (s : Engine) → ((name : Text) → i ≢ invoke name) → Lasts (exec_instr env run i s)
  unfolding exec_instr
  instr-Lasts (set name) s h = then_do-Lasts (temp_pop-Lasts s.stack s) λ c t. lasts_ok
  instr-Lasts emit s h = then_do-Lasts (temp_pop-Lasts s.stack s) λ c t. lasts_ok
  instr-Lasts (pushv name) s h = read-Lasts (var_lookup s.vars name) s
  instr-Lasts (invoke name) s h = absurd (h name refl)
  instr-Lasts (push (int i)) s h = then_do-Lasts (push_cell-Lasts (int i) s) λ u t. lasts_ok
  instr-Lasts (push (str none)) s h = lasts_fault
  instr-Lasts (push (str (some x))) s h =
      then_do-Lasts (push_cell-Lasts (str (some x)) s) λ u t. lasts_ok
  instr-Lasts add s h = pop_two-Lasts add_cells s.stack s add_cells-Lasts
  instr-Lasts sub s h = arithmetic-Lasts _ s λ a b t. checked-Lasts (a +ℤ b) t
  instr-Lasts mul s h = arithmetic-Lasts _ s λ a b t. checked-Lasts (a *ℤ b) t
  instr-Lasts div s h = arithmetic-Lasts _ s (divide-Lasts quot)
  instr-Lasts modulo s h = arithmetic-Lasts _ s (divide-Lasts rem)
  instr-Lasts random s h = arithmetic-Lasts _ s (random_between-Lasts env)
  instr-Lasts lesser s h = arithmetic-Lasts _ s λ a b t. lasts_ok
  instr-Lasts greater s h = arithmetic-Lasts _ s λ a b t. lasts_ok

  invoked-Lasts :
      (rule : RuleTree) (s : Engine)
      → ((t : Engine) → Lasts (run rule t))
      → Lasts (invoked run rule s)
  unfolding invoked
  invoked-Lasts null s h = then_do-Lasts (push_cell-Lasts (str none) s) λ u t. lasts_ok
  invoked-Lasts (node r left right) s h =
      then_do-Lasts (h s) λ x t. then_do-Lasts (push_cell-Lasts (str x) t) λ u v. lasts_ok

  next-Lasts :
      (is : List Instr) (x : Option Text) (s : Engine)
      → Lasts (exec_stream env run is s)
      → Lasts (
          (elim x as (λ _. M (Option Text)) [
            | some t ↦ pure (some t)
            | none ↦ exec_stream env run is
          ])
            s)
  next-Lasts is none s h = h
  next-Lasts is (some t) s h = lasts_ok

  module _ (k : ℕ)
      (ends : (rule : RuleTree) (s : Engine) → ShallowRule env k rule → Lasts (run rule s)) where
    pub stream-Lasts :
        (is : List Instr) (s : Engine) → ShallowCode env k is → Lasts (exec_stream env run is s)
    unfolding exec_stream exec_instr
    stream-Lasts [] s shallow_stop = lasts_ok
    stream-Lasts (i ∷ is) s (shallow_instr other p) =
        then_do-Lasts (instr-Lasts i s other) λ x t. next-Lasts is x t (stream-Lasts is t p)
    stream-Lasts (i ∷ is) s (shallow_invoke {name} r p) =
        then_do-Lasts
          (invoked-Lasts (rule_find env.rules name) s λ t. ends (rule_find env.rules name) t r)
          λ x t. next-Lasts is x t (stream-Lasts is t p)
