-- ===== src/Dict/Lookup.antt =====
-- src/dict.c: what `dict_get` and `dict_size` give after `dict_def`.
use dada_engine.Prelude.{ℕ, ◌+◌, ◌≡◌, refl, Option, none, some, arith, if◌then◌else◌}
use dada_engine.Text.{Text, str_eq}
use dada_engine.Text.Order.{eq_of_strcmp, strcmp_refl}
use dada_engine.Dict.{Dict, null, dictnode, dict_def, dict_get, dict_size}

module _ {ℓ} {V : Type ℓ} where
  -- After a definition of `k`, a look-up of `k` gives the new value, and a look-up of any other
  -- key what it gave before. This holds of any tree, ordered or not.
  pub dict_get-dict_def :
      (d : Dict V) (k j : Text) (v : V)
      → dict_get (dict_def d k v) j ≡ (if str_eq j k then some v else dict_get d j)
  unfolding dict_get dict_def
  dict_get-dict_def null k j v = ground arith
  dict_get-dict_def (dictnode q w l r) k j v = ground (
    arith,
    dict_get-dict_def l k j v,
    dict_get-dict_def r k j v,
    eq_of_strcmp k q,
    eq_of_strcmp j q,
    eq_of_strcmp j k,
    strcmp_refl j,
  )

  -- 1 for a hit and 0 for a miss.
  abbrev pub found : Option V → ℕ
  found none = 0
  found (some _) = 1

  -- A definition adds a node exactly when the key was missing.
  dict_size-dict_def :
      (d : Dict V) (k : Text) (v : V)
      → dict_size (dict_def d k v) + found (dict_get d k) ≡ dict_size d + 1
  unfolding dict_get dict_def dict_size
  dict_size-dict_def null k v = refl
  dict_size-dict_def (dictnode q w l r) k v =
      ground (arith, dict_size-dict_def l k v, dict_size-dict_def r k v)
