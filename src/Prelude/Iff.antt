-- ===== src/Prelude/Iff.antt =====
-- Equivalences of statements, put together.
use mathlib.Core.Path.{subst, ◌≡◌}
use mathlib.Core.Logic.{◌↔◌, ◌⊎◌, inl, inr}

pub iff_trans : {A B C : Type 0} → (A ↔ B) → (B ↔ C) → A ↔ C
iff_trans (f, g) (h, k) = (λ a. h (f a), λ c. g (k c))

pub iff_and : {A B C D : Type 0} → (A ↔ B) → (C ↔ D) → (A × C) ↔ (B × D)
iff_and (f, g) (h, k) = (λ (a, c). (f a, h c), λ (b, d). (g b, k d))

pub iff_sym : {A B : Type 0} → (A ↔ B) → B ↔ A
iff_sym (f, g) = (g, f)

pub iff_or : (A : Type 0) {B C : Type 0} → (B ↔ C) → (A ⊎ B) ↔ (A ⊎ C)
iff_or A (f, g) = (
  λ h. elim h [ inl a ↦ inl a | inr b ↦ inr (f b) ],
  λ h. elim h [ inl a ↦ inl a | inr c ↦ inr (g c) ],
)

pub iff_of : {A B : Type 0} → A ≡ B → A ↔ B
iff_of {A} e = subst (λ B. A ↔ B) e (λ a. a, λ a. a)

pub iff_unit : {A : Type 0} → A ↔ (A × Unit {0})
iff_unit = (λ a. (a, tt), λ (a, u). a)
