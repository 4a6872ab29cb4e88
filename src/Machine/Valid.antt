-- ===== src/Machine/Valid.antt =====
-- The invariant of the engine's state, for the actions of src/machine.c.
use dada_engine.Prelude.{
  ℕ, ◌≤◌, ◌<◌, Bool, true, false, inl, inr, Bool-cases, List, [], ◌∷◌, Option, none, some, Outcome,
  ok, arith, length, ltb, if◌then◌else◌,
}
use dada_engine.Prelude.Int.{ℤ, fits_int, pos, ◌+ℤ◌, ◌-ℤ◌, ◌*ℤ◌, quot, rem}
use dada_engine.Text.{Text}
use dada_engine.Variables.{Value, int, str, var_lookup, var_put, var_put_int, text_of_value}
use dada_engine.Variables.Order.{IsOrdered, var_insert_str-IsOrdered, var_insert_int-IsOrdered}
use dada_engine.Instr.{
  Instr, set, pushv, invoke, push, add, sub, mul, div, emit, modulo, random, lesser, greater,
}
use dada_engine.Rtn.{RuleTree, null, node}
use dada_engine.Engine.{
  Env, Engine, M, ◌>>=◌, ◌>>◌, crash, pure, lift, next_random, next_rand, checked,
}
use dada_engine.Machine.{
  stack_size, push_cell, temp_pop, pop_two, push_result, divide, random_between, add_cells, invoked,
  exec_instr, exec_stream,
}
use dada_engine.Resolve.Yields.{Yields, gave, quits, crashes, starves, Yields-bind}

-- The stack has not run over, the variables form a search tree, and every weight is positive.
pub record IsValid (s : Engine) : Type 0 where
  pub fits : length s.stack ≤ stack_size
  pub ordered : IsOrdered s.vars
  pub positive : (o : ℕ) → 0 < s.randweight o

-- The action leaves a valid state, if it succeeds.
abbrev pub Keeps {ℓ} : {A : Type ℓ} → M A → Type ℓ
Keeps m = (s : Engine) → IsValid s → Yields (λ _ t. IsValid t) (m s)

pub Keeps-bind {ℓ κ} :
    {A : Type ℓ} {B : Type κ} {m : M A} {f : A → M B}
    → Keeps m
    → ((a : A) → Keeps (f a))
    → Keeps (m >>= f)
Keeps-bind k l s v = Yields-bind (k s v) l

pub Keeps-pure {ℓ} : {A : Type ℓ} (a : A) → Keeps (pure a)
Keeps-pure a s v = gave v

pub Keeps-lift {ℓ} : {A : Type ℓ} (o : Outcome A) → Keeps (lift o)
Keeps-lift (Outcome.ok a) s v = gave v
Keeps-lift (Outcome.exited n) s v = quits
Keeps-lift Outcome.fault s v = crashes
Keeps-lift Outcome.timeout s v = starves

pub Keeps-if {ℓ} :
    {A : Type ℓ} (b : Bool) {m n : M A} → Keeps m → Keeps n → Keeps (if b then m else n)
Keeps-if true k l = k
Keeps-if false k l = l

pub Keeps-random : (env : Env) → Keeps (next_random env)
Keeps-random env s v = gave (record { fits = v.fits; ordered = v.ordered; positive = v.positive })

pub Keeps-rand : (env : Env) → Keeps (next_rand env)
Keeps-rand env s v = gave (record { fits = v.fits; ordered = v.ordered; positive = v.positive })

Keeps-checked : (z : ℤ) → Keeps (checked z)
Keeps-checked z s v = elim (Bool-cases (fits_int z)) [
  | inl yes_fits ↦ rw yes_fits (gave v)
  | inr over ↦ rw over crashes
]

Keeps-push : (c : Value) → Keeps (push_cell c)
unfolding push_cell
Keeps-push c s v = elim (Bool-cases (ltb (length s.stack) stack_size)) [
  | inl room ↦
      rw room (gave (record { fits = ground arith; ordered = v.ordered; positive = v.positive }))
  | inr full ↦ rw full crashes
]

Keeps-pop : Keeps temp_pop
unfolding temp_pop
Keeps-pop s v = popped s.stack v.fits
  where
    popped :
        (st : List Value)
        → length st ≤ stack_size
        → Yields
            (λ _ t. IsValid t)
            (elim st [ [] ↦ Outcome.fault | c ∷ rest ↦ ok (c, record s { stack = rest }) ])
    popped [] h = crashes
    popped (c ∷ rest) h =
        gave (record { fits = omega arith; ordered = v.ordered; positive = v.positive })

Keeps-pop_two :
    (f : Value → Value → M (Unit {0})) → ((a b : Value) → Keeps (f a b)) → Keeps (pop_two f)
unfolding pop_two
Keeps-pop_two f k =
    Keeps-bind Keeps-pop
      λ top. Keeps-bind Keeps-pop λ under. Keeps-bind (k under top) λ u. Keeps-pure none

Keeps-push_result :
    (f : ℤ → ℤ → M ℤ) → ((a b : ℤ) → Keeps (f a b)) → (c d : Value) → Keeps (push_result f c d)
unfolding push_result
Keeps-push_result f k (int a) (int b) = Keeps-bind (k a b) λ r. Keeps-push (int r)
Keeps-push_result f k (int a) (str b) = Keeps-pure tt
Keeps-push_result f k (str a) d = Keeps-pure tt

Keeps-divide : (f : ℤ → ℤ → ℤ) (a b : ℤ) → Keeps (divide f a b)
unfolding divide
Keeps-divide f a b = Keeps-if _ (Keeps-checked (f a b)) (λ s v. crashes)

Keeps-random_between : (env : Env) (a b : ℤ) → Keeps (random_between env a b)
unfolding random_between
Keeps-random_between env a b = Keeps-bind (Keeps-random env) λ r.
    Keeps-bind (Keeps-checked (b -ℤ a)) λ d.
      Keeps-bind (Keeps-checked (d +ℤ pos 1))
        λ n. Keeps-bind (Keeps-divide rem (pos r) n) λ m. Keeps-checked (m +ℤ a)

Keeps-add : (c d : Value) → Keeps (add_cells c d)
unfolding add_cells
Keeps-add (int a) (int b) = Keeps-bind (Keeps-checked (a +ℤ b)) λ r. Keeps-push (int r)
Keeps-add (int a) (str b) = Keeps-push _
Keeps-add (str a) d = Keeps-push _

Keeps-set_cell :
    (name : Text) (c : Value)
    → Keeps {A = Option Text} λ s. ok (
      none,
      record s {
        vars = elim c [ str t ↦ var_put s.vars name t | int i ↦ var_put_int s.vars name i ];
      },
    )
unfolding var_put var_put_int
Keeps-set_cell name (int i) s v = gave (record {
  fits = v.fits;
  ordered = var_insert_int-IsOrdered s.vars name i v.ordered;
  positive = v.positive;
})
Keeps-set_cell name (str t) s v = gave (record {
  fits = v.fits;
  ordered = var_insert_str-IsOrdered s.vars name t v.ordered;
  positive = v.positive;
})

Keeps-found :
    (o : Option Value)
    → Keeps {A = Option Text} (elim o [ none ↦ crash | some v ↦ push_cell v >> pure none ])
Keeps-found none = λ s v. crashes
Keeps-found (some c) = Keeps-bind (Keeps-push c) λ u. Keeps-pure none

Keeps-going :
    (r : Option Text) (next : M (Option Text))
    → Keeps next
    → Keeps (elim r [ some t ↦ pure (some t) | none ↦ next ])
Keeps-going none next k = k
Keeps-going (some t) next k = Keeps-pure (some t)

module _ (env : Env) (run : RuleTree → M (Option Text))
    (runs : (rule : RuleTree) → Keeps (run rule)) where
  Keeps-invoke : (rule : RuleTree) → Keeps (invoked run rule)
  unfolding invoked
  Keeps-invoke null = Keeps-bind (Keeps-push _) λ u. Keeps-pure none
  Keeps-invoke (node r left right) =
      Keeps-bind (runs _) λ t. Keeps-bind (Keeps-push (str t)) λ u. Keeps-pure none

  Keeps-instr : (i : Instr) → Keeps (exec_instr env run i)
  unfolding exec_instr
  Keeps-instr (set name) s v = (Keeps-bind Keeps-pop (Keeps-set_cell name)) s v
  Keeps-instr (pushv name) s v = Keeps-found (var_lookup s.vars name) s v
  Keeps-instr (invoke name) s v = (Keeps-invoke _) s v
  Keeps-instr (push (int i)) s v = (Keeps-bind (Keeps-push _) λ u. Keeps-pure none) s v
  Keeps-instr (push (str none)) s v = crashes
  Keeps-instr (push (str (some t))) s v = (Keeps-bind (Keeps-push _) λ u. Keeps-pure none) s v
  Keeps-instr add s v = (Keeps-pop_two _ Keeps-add) s v
  Keeps-instr sub s v = (Keeps-pop_two _ (Keeps-push_result _ λ a b. Keeps-checked (a +ℤ b))) s v
  Keeps-instr mul s v = (Keeps-pop_two _ (Keeps-push_result _ λ a b. Keeps-checked (a *ℤ b))) s v
  Keeps-instr div s v = (Keeps-pop_two _ (Keeps-push_result _ (Keeps-divide quot))) s v
  Keeps-instr modulo s v = (Keeps-pop_two _ (Keeps-push_result _ (Keeps-divide rem))) s v
  Keeps-instr emit s v = (Keeps-bind Keeps-pop λ c. Keeps-pure (text_of_value c)) s v
  Keeps-instr random s v = (Keeps-pop_two _ (Keeps-push_result _ (Keeps-random_between env))) s v
  Keeps-instr lesser s v = (Keeps-pop_two _ (Keeps-push_result _ λ a b. Keeps-pure _)) s v
  Keeps-instr greater s v = (Keeps-pop_two _ (Keeps-push_result _ λ a b. Keeps-pure _)) s v

  pub Keeps-stream : (is : List Instr) → Keeps (exec_stream env run is)
  unfolding exec_stream
  Keeps-stream [] = Keeps-pure none
  Keeps-stream (i ∷ next) =
      Keeps-bind (Keeps-instr i) (λ r. Keeps-going r (exec_stream env run next) (Keeps-stream next))
