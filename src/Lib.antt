-- ===== src/Lib.antt =====
-- The Dada Engine generates random text from a grammar, which it keeps as a recursive transition
-- network. This library models the interpreter `pb` and its front end `dada`, the C files of src/.
--
-- Parts, and the files that model them:
--   Text            C strings as lists of bytes; `strcmp`, and "%i" and `atoi` of the C library
--   Dict            src/dict.c: string-keyed dictionaries as search trees
--   Ptrlist         src/ptrlist.c: linked lists
--   Strfunc         src/strfunc.c, src/dstring.c: string helpers
--   Variables       src/variables.c: global variables, a search tree over names
--   Instr, Machine  src/machine.h, src/machine.c: the stack machine for embedded code
--   Machine.Expr    src/parser.y, the actions that build this code
--   Machine.World   what the machine does to variables and stack, told without its functions
--   Rtn             src/rtn.h, src/rtn.c: nodes, options, rules and the tree of rules
--   Map, Transform  src/map.c, src/transform.c: mappings and transformations of texts
--   Engine          the state: variables, stack, option weights, last choices, and how many random
--                   numbers have been drawn
--   Select          `select_option` of src/resolve.c: the choice of an option
--   Resolve         the rest of src/resolve.c: the resolution of a rule to a text, and in
--                   `Passing` that of its parameters
--   Check           src/check.c: the search for undefined names
--   Wrap            src/wrap.c: word wrapping
--   Dump            src/dump.c, and `dump_code` of src/machine.c: the grammar printed for debugging
--   Pb              src/pb.c: from the grammar to the printed text, and the command line
--   Lexer           src/lexer.x: the actions on what a pattern has matched
--   Parser          src/parser.y: the other semantic actions, from the parse tree of a grammar file to
--                   the grammar, the initial rule and the first state that `Pb` starts with
--   Dada            src/dada.c: the front end, which runs the preprocessor and `pb`
--   Resstack        src/resstack.c: histories of options, which nothing uses yet
--   EmitPs          src/emit_ps.c: a grammar written as a PostScript program
-- `Resolve.resolve_atom` walks the grammar of `Rtn`, asks `Select` for an option, runs embedded code
-- on `Machine` (which calls back to resolve a rule), and sends texts through `Map` and `Transform`.
-- It is held against two descriptions of a grammar that know no random numbers, weights or fuel:
-- `Resolve.Language`, the texts of a grammar without variables, parameters and code, and
-- `Resolve.Runs`, what a grammar does with its variables and its stack. `Parser` builds the grammar
-- that `Pb` is given, `Dada` hands `Pb` its command line, and `Pb` checks the grammar, resolves it
-- and wraps the text.
--
-- How the code is read. An action takes the state `Engine` to an `Outcome`: a value and a new state,
-- `exited n` for `exit(n)`, `fault` for undefined behaviour (a NULL pointer followed, a signed
-- overflow, an access out of bounds, a read of what was never written), or `timeout`. Fields that the
-- engine changes inside the grammar (`randweight`, `last_choice`) are cells of a store, and the
-- grammar holds their addresses. `random()` and `rand()` are sequences of numbers given in `Env`.
-- Regular expressions are the parameter `Map.Regex`, since regex/ is a copy of another library.
-- Strings are values: which function frees a string is not modelled, so that the model still reads a
-- variable whose string `ADD` has freed; `Machine.Compiled.eval` gives no value to such a `+`.
-- `Env.raw` is a parameter: `resolve_params` reads the structure that an inline choice or code has at
-- `data` as a string, and these are the bytes that it finds. It relies on the structure to begin with
-- a word that resolution does not change and that has a zero byte.
-- `new_str_var` and `new_int_var` of src/variables.c end without a `return`; the model takes what
-- their callers rely on, that the new variable comes back.
-- Fuel: `resolve_atom` spends one unit for each call of itself inside a call; the loops of
-- `redraw`, `star_loop` take what is left, `subst_length` and `subst_compose` the length of the
-- input and one more, `raise` the number of its rounds and one more, and `wrap_loop` the length of
-- the text.
--
-- Not modelled: the code that yacc and lex generate from src/parser.y and src/lexer.x, so the actions
-- are given the parse tree, and a file with a syntax error has none, and the lexer's actions are given
-- the text of a match; what the child processes of src/dada.c do; src/emit_c.c, which does not compile
-- (a string is not closed, and a function it calls does not exist), and src/pbc.c, which only calls
-- it; and regex/.
pub mod Prelude
pub mod Text
pub mod Dict
pub mod Ptrlist
pub mod Strfunc
pub mod Variables
pub mod Instr
pub mod Rtn
pub mod Map
pub mod Transform
pub mod Engine
pub mod Select
pub mod Machine
pub mod Resolve
pub mod Check
pub mod Wrap
pub mod Pb
pub mod Lexer
pub mod Parser
pub mod Dump
pub mod Dada
pub mod EmitPs
pub mod Resstack
mod Tests
