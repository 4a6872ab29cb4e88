-- ===== src/Tests/Transform.antt =====
-- Addresses, and the commands that delete a range and change its case.
use dada_engine.Prelude.{
  ℕ, zero, suc, true, get_elem?, inl, [], ◌∷◌, some, ◌≡◌, ◌<◌, refl, ok, fault, arith,
}
use dada_engine.Prelude.Int.{pos, negsuc}
use dada_engine.Text.{Text, codes}
use dada_engine.Transform.{TransCmd, is_character, toupper, addr_normalise, apply_xform_cmd}
use dada_engine.Transform.Address.{addr_normalise_lem, delete-fault}
use dada_engine.Transform.Case.{changed, covers, apply_xform_cmd-changed}
use dada_engine.Tests.Samples.{no_regex}

abbrev delete_second : TransCmd
delete_second = record { addr = some (pos 1, pos 1); cmdname = codes "d"; params = [] }

addr_normalise_lem_example : (addr_normalise (negsuc 4) (codes "abc") ≡ ok 1) × (1 < 3)
addr_normalise_lem_example = addr_normalise_lem (negsuc 4) (codes "abc") (omega arith)

delete-fault_example : apply_xform_cmd no_regex (some (codes "abc")) delete_second ≡ fault
delete-fault_example = delete-fault no_regex (codes "abc") delete_second refl

abbrev capital_end : TransCmd
capital_end = record { addr = some (pos 1, negsuc 0); cmdname = codes "u"; params = [] }

capitals : apply_xform_cmd no_regex (some (codes "abc")) capital_end ≡ ok (some (codes "aBC"))
unfolding apply_xform_cmd addr_normalise
capitals = refl

high_byte : apply_xform_cmd no_regex (some (97 ∷ 98 ∷ 200 ∷ [])) capital_end ≡ fault
unfolding apply_xform_cmd addr_normalise
high_byte = refl

abc_characters :
    (i c : ℕ)
    → covers (some (pos 1, negsuc 0)) 3 i ≡ true
    → get_elem? (codes "abc") i ≡ some c
    → is_character c ≡ true
abc_characters zero c h e = cc
abc_characters (suc zero) c h e = ground arith
abc_characters (suc (suc zero)) c h e = ground arith
abc_characters (suc (suc (suc i))) c h e = cc

apply_xform_cmd-changed_example :
    (out : Text) × (apply_xform_cmd no_regex (some (codes "abc")) capital_end ≡ ok (some out))
    × ((i : ℕ)
        → get_elem? out i
          ≡ changed toupper (covers (some (pos 1, negsuc 0)) 3 i) (get_elem? (codes "abc") i))
apply_xform_cmd-changed_example =
    apply_xform_cmd-changed toupper no_regex (codes "abc") capital_end (inl (refl, refl))
      abc_characters
