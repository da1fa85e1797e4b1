-- ===== src/Store/Triple.antt =====
-- What holds when a call returns, by what held before it: one rule for each way to build a call.
use vox_forge.Common.{◌≡◌, refl, ap, sym, ◌∙◌}
use mathlib.Core.Path.{subst}
use vox_forge.Store.World.{World}
use vox_forge.Store.Exec.{Exec, Result, ok, err, pure, ◌>>=◌}
use vox_forge.Store.Keep.{Keeps}

-- If the call starts where `P` holds and returns, then `Q` holds of its result and its final state.
pub record Triple (P : World → Type 0) {A : Type 0} (m : Exec A) (Q : A → World → Type 0)
    : Type 0 where
  pub at : (w : World) → P w → (a : A) (w' : World) → m w ≡ (ok a, w') → Q a w'

value_or : {A : Type 0} → A → Result A → A
value_or d (ok a) = a
value_or d (err e) = d

module _ {P : World → Type 0} {A : Type 0} where
  pub Triple-pure :
      {Q : A → World → Type 0} (a : A) → ((w : World) → P w → Q a w) → Triple P (pure a) Q
  unfolding value_or
  Triple-pure {Q} a h = record {
    at = λ w p b w' ran.
        subst (λ b. Q b w') (ap (λ r. value_or a r.0) ran)
          (subst (Q a) (ap (λ r. r.1) ran) (h w p));
  }

  pub Triple-bind :
      {B : Type 0} {R : A → World → Type 0} {Q : B → World → Type 0} (m : Exec A) (k : A → Exec B)
      → Triple P m R
      → ((a : A) → Triple (R a) (k a) Q)
      → Triple P (m >>= k) Q
  Triple-bind {B} {R} {Q} m k first second = record {
    at = λ w p b w' ran. by_first w p b w' (m w).0 (m w).1 refl ran;
  }
    where
      by_first :
          (w : World)
          → P w
          → (b : B) (w' : World) (r : Result A) (w₁ : World) → m w ≡ (r, w₁)
          → elim r as (λ _. Result B × World) [ ok a ↦ k a w₁ | err e ↦ (err e, w₁) ] ≡ (ok b, w')
          → Q b w'
      by_first w p b w' (ok a) w₁ e h = (second a).at w₁ (first.at w p a w₁ e) b w' h
      by_first w p b w' (err x) w₁ e h = cc

  pub Triple-any : (m : Exec A) → Triple P m (λ a w. Unit)
  Triple-any m = record { at = λ w p a w' ran. tt }

-- What does not depend on the state still holds after any call.
pub Triple-known : {P : Type 0} {A : Type 0} (m : Exec A) → Triple (λ w. P) m (λ a w. P)
Triple-known m = record { at = λ w p a w' ran. p }

-- A call that keeps a part of the state.
pub Triple-Keeps :
    {X : Type 0} (f : World → X) (x : X) {A : Type 0} (m : Exec A)
    → Keeps f m
    → Triple (λ w. f w ≡ x) m (λ a w. f w ≡ x)
Triple-Keeps f x m keeps = record {
  at = λ w p a w' ran. ap (λ r. f r.1) (sym ran) ∙ keeps.at w ∙ p;
}
