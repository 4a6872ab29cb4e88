-- ===== src/Machine/World.antt =====
-- What the stack machine does to the variables and the stack, told without the random numbers, and
-- without the machine's functions.
use dada_engine.Prelude.{
  ℕ, ◌<◌, ◌≡◌, Bool, true, false, List, ◌∷◌, Option, none, some, length, if◌then◌else◌,
}
use dada_engine.Prelude.Int.{ℤ, pos, ◌+ℤ◌, ◌-ℤ◌, ◌*ℤ◌, quot, rem, fits_int}
use dada_engine.Text.{Text}
use dada_engine.Strfunc.{concat}
use dada_engine.Variables.{Value, int, str, Vars, var_lookup, var_put, var_put_int, text_of_value}
use dada_engine.Instr.{
  Instr, set, pushv, push, add, sub, mul, div, emit, modulo, random, lesser, greater,
}
use dada_engine.Engine.{Engine}
use dada_engine.Machine.{stack_size, divides, min_ℤ, max_ℤ}

-- The part of the state that a grammar can see.
pub record World : Type 0 where
  pub vars : Vars
  pub stack : List Value

abbrev pub world : Engine → World
world s = record { vars = s.vars; stack = s.stack }

-- One more cell, where there is room.
abbrev pub Pushes : Value → World → World → Type 0
Pushes c w u = (length w.stack < stack_size) × (u ≡ record w { stack = c ∷ w.stack })

abbrev pub in_int : ℤ → Option ℤ
in_int z = if fits_int z then some z else none

abbrev pub where_defined : ℤ → ℤ → Option ℤ → Option ℤ
where_defined a b z = if divides a b then z else none

-- What an operation gives for two numbers, where the random number is `r`.
abbrev pub number_of : Instr → ℕ → ℤ → ℤ → Option ℤ
number_of add r a b = in_int (a +ℤ b)
number_of sub r a b = in_int (a +ℤ b)
number_of mul r a b = in_int (a *ℤ b)
number_of div r a b = where_defined a b (in_int (quot a b))
number_of modulo r a b = where_defined a b (in_int (rem a b))
number_of random r a b =
    let n = (b -ℤ a) +ℤ pos 1 in where_defined (pos r) n (in_int (rem (pos r) n +ℤ a))
number_of lesser r a b = some (min_ℤ a b)
number_of greater r a b = some (max_ℤ a b)
number_of _ r a b = none

abbrev pub both_numbers : Value → Value → Bool
both_numbers (int a) (int b) = true
both_numbers _ _ = false

-- The operations that drop two cells of which one is no number.
abbrev pub is_numeric : Instr → Bool
is_numeric sub = true
is_numeric mul = true
is_numeric div = true
is_numeric modulo = true
is_numeric random = true
is_numeric lesser = true
is_numeric greater = true
is_numeric _ = false

abbrev pub assigned : Text → Value → Vars → Vars
assigned name (str t) vars = var_put vars name t
assigned name (int i) vars = var_put_int vars name i

-- An instruction that invokes no rule, with what it returns.
pub data Steps : Instr → World → Option Text → World → Type 0 where
  sets :
      {name : Text} {w : World} {c : Value} {st : List Value}
      → w.stack ≡ c ∷ st
      → Steps (set name) w none (record { vars = assigned name c w.vars; stack = st })
  emits :
      {w : World} {c : Value} {st : List Value}
      → w.stack ≡ c ∷ st
      → Steps emit w (text_of_value c) (record w { stack = st })
  reads :
      {name : Text} {w u : World} {c : Value}
      → var_lookup w.vars name ≡ some c
      → Pushes c w u
      → Steps (pushv name) w none u
  pushes_number : {i : ℤ} {w u : World} → Pushes (int i) w u → Steps (push (int i)) w none u
  pushes_text :
      {t : Text} {w u : World} → Pushes (str (some t)) w u → Steps (push (str (some t))) w none u
  computes :
      (r : ℕ) {i : Instr} {a b z : ℤ} {w u : World} {st : List Value}
      → w.stack ≡ int b ∷ int a ∷ st
      → number_of i r a b ≡ some z
      → Pushes (int z) (record w { stack = st }) u
      → Steps i w none u
  joins :
      (a b : Value) {w u : World} {st : List Value}
      → w.stack ≡ b ∷ a ∷ st
      → both_numbers a b ≡ false
      → Pushes (str (concat (text_of_value a) (text_of_value b))) (record w { stack = st }) u
      → Steps add w none u
  drops :
      (a b : Value) {i : Instr} {w : World} {st : List Value}
      → w.stack ≡ b ∷ a ∷ st
      → both_numbers a b ≡ false
      → is_numeric i ≡ true
      → Steps i w none (record w { stack = st })
