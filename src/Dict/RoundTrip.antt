-- ===== src/Dict/RoundTrip.antt =====
-- src/dict.c: `dict_nth` after `dict_ord`.
use dada_engine.Prelude.{
  ℕ, suc, ◌+◌, ◌≡◌, ap, ◌∙◌, ◌∷◌, Option, some, arith, get_elem?, get_elem?-append_left,
  get_elem?-append_right,
}
use dada_engine.Prelude.Int.{ℤ, pos, ◌+ℤ◌, pos_part}
use dada_engine.Text.{Text}
use dada_engine.Dict.{Dict, null, dictnode, dict_get, dict_size, dict_ord, dict_nth}
use dada_engine.Dict.Position.{values, length-values, dict_nth-pos}

shift : (n : ℕ) (z : ℤ) → z ≡ pos (pos_part z) → pos n +ℤ z +ℤ pos 1 ≡ pos (n + suc (pos_part z))
unfolding ◌+ℤ◌
shift n z e = ground arith

module _ {ℓ} {V : Type ℓ} where
  abbrev IsPlace : Dict V → ℤ → Option V → Type ℓ
  IsPlace d n o = (n ≡ pos (pos_part n)) × (get_elem? (values d) (pos_part n) ≡ o)

  place :
      (d : Dict V) (q : Text) (v : V) → dict_get d q ≡ some v → IsPlace d (dict_ord d q) (some v)
  unfolding dict_get dict_ord
  place null q v h = cc
  place (dictnode k w l r) q v h =
      let right = get_elem?-append_right (values l) (w ∷ values r) in
      ground (
        arith,
        place l q v,
        place r q v,
        length-values l,
        get_elem?-append_left (values l) (w ∷ values r) (pos_part (dict_ord l q)) {a = v},
        right 0 (dict_size l),
        right (suc (pos_part (dict_ord r q))) (dict_size l + suc (pos_part (dict_ord r q))),
        shift (dict_size l) (dict_ord r q),
      )

  -- Of a key that is there, `dict_nth` at the key's ordinal number gives the value that `dict_get`
  -- gives at the key.
  pub dict_nth-dict_ord :
      (d : Dict V) (q : Text) (v : V) → dict_get d q ≡ some v → dict_nth d (dict_ord d q) ≡ some v
  dict_nth-dict_ord d q v h =
      let (e, g) = place d q v h in
      ap (dict_nth d) e ∙ (dict_nth-pos d (pos_part (dict_ord d q)) ∙ g)
