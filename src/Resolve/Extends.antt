-- ===== src/Resolve/Extends.antt =====
-- Results that are put together piece by piece with `dstrcat`.
use mathlib.Core.List.{append_assoc}
use dada_engine.Prelude.{◌≡◌, refl, ap, ◌∙◌, ◌++◌, Option}
use dada_engine.Text.{Text}
use dada_engine.Strfunc.{or_empty, dstrcat}

or_empty-dstrcat : (a b : Option Text) → or_empty (dstrcat a b) ≡ or_empty a ++ or_empty b
unfolding dstrcat
or_empty-dstrcat a b = refl

-- A text that was there, and then a text of the given kind.
abbrev pub Extends : (Text → Type 0) → Option Text → Option Text → Type 0
Extends P before x = (t : Text) × P t × (or_empty x ≡ or_empty before ++ t)

pub extend :
    {P Q : Text → Type 0} (before y x z : Option Text)
    → ((t : Text) → P t → Q (or_empty y ++ t))
    → x ≡ dstrcat before y
    → Extends P x z
    → Extends Q before z
extend before y x z step e (u, h, f) = (
  or_empty y ++ u,
  step u h,
  f
      ∙ (ap (λ q. or_empty q ++ u) e
          ∙ (ap (λ q. q ++ u) (or_empty-dstrcat before y)
              ∙ append_assoc (or_empty before) (or_empty y) u)),
)
