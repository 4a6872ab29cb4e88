-- ===== src/Machine/Compiled.antt =====
-- src/machine.c on the code of an expression.
use dada_engine.Prelude.{
  ℕ, suc, ◌+◌, ◌≤◌, ◌<◌, ◌≡◌, refl, ap, ◌∙◌, List, [], ◌∷◌, Option, none, some, true, arith, length,
  if◌then◌else◌,
}
use Prim.Native.Nat.{max}
use dada_engine.Prelude.Int.{ℤ, ◌+ℤ◌, ◌*ℤ◌, quot, rem, fits_int}
use dada_engine.Text.{Text}
use dada_engine.Strfunc.{concat}
use dada_engine.Variables.{Value, int, str, Vars, var_lookup, text_of_value}
use dada_engine.Instr.{Instr, icat, e_simple, e_push_int, e_push_str, e_pushv, sub}
use dada_engine.Rtn.{RuleTree}
use dada_engine.Engine.{Env, Engine, M}
use dada_engine.Machine.{stack_size, divides, min_ℤ, max_ℤ, exec_stream}
use dada_engine.Machine.Expr.{
  BinOp, plus, minus, times, over, percent, lower, higher, Expr, integer, literal, ident, called,
  binary, opcode, compile,
}

-- A number that an `int` holds.
abbrev in_range : ℤ → Option Value
in_range z = if fits_int z then some (int z) else none

abbrev where_defined : ℤ → ℤ → Option Value → Option Value
where_defined a b r = if divides a b then r else none

-- What an operation means: `none` for an overflow, a division by zero or a wrong type, and for a
-- random number, which has no one value. `-` is left out here: see `minus_adds`.
abbrev pub apply_op : BinOp → Value → Value → Option Value
apply_op plus (int a) (int b) = in_range (a +ℤ b)
apply_op plus c d = some (str (concat (text_of_value c) (text_of_value d)))
apply_op times (int a) (int b) = in_range (a *ℤ b)
apply_op over (int a) (int b) = where_defined a b (in_range (quot a b))
apply_op percent (int a) (int b) = where_defined a b (in_range (rem a b))
apply_op lower (int a) (int b) = some (int (min_ℤ a b))
apply_op higher (int a) (int b) = some (int (max_ℤ a b))
apply_op _ c d = none

abbrev both : Option Value → Option Value → (Value → Value → Option Value) → Option Value
both (some a) (some b) f = f a b
both _ _ f = none

-- What an expression is to the operation that it is an operand of. A string that is read from a
-- variable is not counted: `+` frees its operands, and that one is the variable's own.
abbrev operand : Expr → Option Value → Option Value
operand (ident name) (some (str t)) = none
operand e o = o

-- The value of an expression that invokes no rule, and in which `+` frees no variable's string.
abbrev pub eval : Vars → Expr → Option Value
eval vars (integer i) = some (int i)
eval vars (literal t) = some (str (some t))
eval vars (ident name) = var_lookup vars name
eval vars (called name) = none
eval vars (binary op l r) = both (operand l (eval vars l)) (operand r (eval vars r)) (apply_op op)

-- The cells that its code needs.
abbrev pub depth : Expr → ℕ
depth (binary op l r) = max (depth l) (depth r + 1)
depth _ = 1

pub icat_assoc : (a b c : List Instr) → icat (icat a b) c ≡ icat a (icat b c)
unfolding icat
icat_assoc [] b c = refl
icat_assoc (x ∷ a) b c = ap (λ r. x ∷ r) (icat_assoc a b c)

both-eq-some :
    (o p : Option Value) (f : Value → Value → Option Value) {v : Value}
    → both o p f ≡ some v
    → (a : Value) × (b : Value) × (o ≡ some a) × (p ≡ some b) × (f a b ≡ some v)
both-eq-some none p f h = cc
both-eq-some (some a) none f h = cc
both-eq-some (some a) (some b) f h = (a, b, refl, refl, h)

operand-eq-some : (e : Expr) (o : Option Value) {v : Value} → operand e o ≡ some v → o ≡ some v
operand-eq-some (ident name) (some (int i)) h = h
operand-eq-some (ident name) (some (str t)) h = cc
operand-eq-some (ident name) none h = h
operand-eq-some (integer i) o h = h
operand-eq-some (literal t) o h = h
operand-eq-some (called name) o h = h
operand-eq-some (binary op l r) o h = h

room_left : (n a b c : ℕ) → n + max a (b + 1) ≤ c → n + a ≤ c
room_left n a b c h = omega arith

room_right : (n a b c : ℕ) → n + max a (b + 1) ≤ c → suc n + b ≤ c
room_right n a b c h = omega arith

room_op : (n a b c : ℕ) → n + max a (b + 1) ≤ c → n < c
room_op n a b c h = omega arith

module _ (env : Env) (run : RuleTree → M (Option Text)) where
  exec_op :
      (op : BinOp) (a b v : Value) (st : List Value) (rest : List Instr) (s : Engine)
      → apply_op op a b ≡ some v
      → length st < stack_size
      → exec_stream env run (opcode op ∷ rest) (record s { stack = b ∷ a ∷ st })
        ≡ exec_stream env run rest (record s { stack = v ∷ st })
  unfolding exec_stream opcode
  exec_op plus (int x) (int y) v st rest s h room = ground arith
  exec_op plus (int x) (str y) v st rest s h room = ground arith
  exec_op plus (str x) (int y) v st rest s h room = ground arith
  exec_op plus (str x) (str y) v st rest s h room = ground arith
  exec_op times (int x) (int y) v st rest s h room = ground arith
  exec_op over (int x) (int y) v st rest s h room = ground arith
  exec_op percent (int x) (int y) v st rest s h room = ground arith
  exec_op lower (int x) (int y) v st rest s h room = ground arith
  exec_op higher (int x) (int y) v st rest s h room = ground arith
  exec_op op a b v st rest s h room = cc

  exec_minus :
      (a b : ℤ) (st : List Value) (rest : List Instr) (s : Engine)
      → fits_int (a +ℤ b) ≡ true
      → length st < stack_size
      → exec_stream env run (sub ∷ rest) (record s { stack = int b ∷ int a ∷ st })
        ≡ exec_stream env run rest (record s { stack = int (a +ℤ b) ∷ st })
  unfolding exec_stream
  exec_minus a b st rest s fits room = ground arith

  pub split :
      (op : BinOp) (l r : Expr) (rest : List Instr) (s : Engine)
      → exec_stream env run (icat (compile (binary op l r)) rest) s
        ≡ exec_stream env run (icat (compile l) (icat (compile r) (opcode op ∷ rest))) s
  unfolding compile icat e_simple
  split op l r rest s =
      ap (λ c. exec_stream env run c s)
        (icat_assoc (compile l) (icat (compile r) (opcode op ∷ [])) rest
          ∙ ap (icat (compile l)) (icat_assoc (compile r) (opcode op ∷ []) rest))

  -- Let an expression have a value: it invokes no rule and draws no random number, no variable that
  -- it reads is missing, no operation overflows, divides by zero or has operands of a wrong type, `-`
  -- is not in it, and no operand of `+` is a variable that holds a string, which `+` would free. Then
  -- its code, run on a stack with room enough, pushes that value and goes on with what follows it;
  -- nothing else of the state changes.
  pub compile_correct :
      (e : Expr) (rest : List Instr) (s : Engine) (v : Value)
      → eval s.vars e ≡ some v
      → length s.stack + depth e ≤ stack_size
      → exec_stream env run (icat (compile e) rest) s
        ≡ exec_stream env run rest (record s { stack = v ∷ s.stack })
  unfolding compile icat exec_stream e_push_int e_push_str e_pushv e_simple
  compile_correct (integer i) rest s v h room = ground arith
  compile_correct (literal t) rest s v h room = ground arith
  compile_correct (ident name) rest s v h room = ground arith
  compile_correct (called name) rest s v h room = cc
  compile_correct (binary op l r) rest s v h room =
      let (a, b, la, lb, hv) =
        both-eq-some (operand l (eval s.vars l)) (operand r (eval s.vars r)) (apply_op op) h in
      let ha = operand-eq-some l (eval s.vars l) la in
      let hb = operand-eq-some r (eval s.vars r) lb in
      split op l r rest s
      ∙ compile_correct l _ s a ha (room_left (length s.stack) (depth l) (depth r) stack_size room)
      ∙ compile_correct r _ (record s { stack = a ∷ s.stack }) b hb
          (room_right (length s.stack) (depth l) (depth r) stack_size room)
      ∙ exec_op op a b v s.stack rest s hv
          (room_op (length s.stack) (depth l) (depth r) stack_size room)

  -- Let two expressions have numbers as values: neither invokes a rule, draws a random number, reads
  -- a missing variable, overflows, divides by zero, has operands of a wrong type or `-` in it, and no
  -- operand of `+` is a variable that holds a string. Then the code of `l - r`, run with room enough
  -- on the stack, pushes the sum of the two where that is in range.
  pub minus_adds :
      (l r : Expr) (rest : List Instr) (s : Engine) (a b : ℤ)
      → eval s.vars l ≡ some (int a)
      → eval s.vars r ≡ some (int b)
      → fits_int (a +ℤ b) ≡ true
      → length s.stack + depth (binary minus l r) ≤ stack_size
      → exec_stream env run (icat (compile (binary minus l r)) rest) s
        ≡ exec_stream env run rest (record s { stack = int (a +ℤ b) ∷ s.stack })
  unfolding compile icat e_simple exec_stream opcode
  minus_adds l r rest s a b ha hb fits room =
      split minus l r rest s
      ∙ compile_correct l _ s (int a) ha
          (room_left (length s.stack) (depth l) (depth r) stack_size room)
      ∙ compile_correct r _ (record s { stack = int a ∷ s.stack }) (int b) hb
          (room_right (length s.stack) (depth l) (depth r) stack_size room)
      ∙ exec_minus a b s.stack rest s fits
          (room_op (length s.stack) (depth l) (depth r) stack_size room)
