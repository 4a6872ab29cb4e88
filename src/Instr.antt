-- ===== src/Instr.antt =====
-- src/machine.h and the instruction lists of src/machine.c: code for the embedded stack machine.
-- A list of instructions is linked by `next`; an opcode and its operand are one constructor.
use dada_engine.Prelude.{List, [], ◌∷◌, some}
use dada_engine.Prelude.Int.{ℤ}
use dada_engine.Text.{Text}
use dada_engine.Variables.{Value, int, str}

pub data Instr : Type 0 where
  set pushv invoke : Text → Instr
  push : Value → Instr
  add sub mul div emit modulo random lesser greater : Instr

-- A pointer to the last instruction: the list from there on.
unfoldable pub last : List Instr → List Instr
last [] = []
last (x ∷ []) = x ∷ []
last (x ∷ y ∷ a) = last (y ∷ a)

-- The last instruction's `next` is set to `b`.
unfoldable pub icat : List Instr → List Instr → List Instr
icat [] b = b
icat (x ∷ a) b = x ∷ icat a b

unfoldable pub e_simple : Instr → List Instr
e_simple op = op ∷ []

unfoldable pub e_set : Text → List Instr
unfolding e_simple
e_set name = e_simple (set name)

unfoldable pub e_pushv : Text → List Instr
unfolding e_simple
e_pushv name = e_simple (pushv name)

unfoldable pub e_push_int : ℤ → List Instr
unfolding e_simple
e_push_int i = e_simple (push (int i))

unfoldable pub e_push_str : Text → List Instr
unfolding e_simple
e_push_str s = e_simple (push (str (some s)))

unfoldable pub e_invoke : Text → List Instr
unfolding e_simple
e_invoke name = e_simple (invoke name)
