-- ===== src/Store/Keep.antt =====
-- What a call leaves alone, for any part of the state: one rule for each way to build a
-- call.
pub mod Messages
use vox_forge.Common.{
  ℕ, ◌≡◌, refl, ap, sym, ◌∙◌, Bool, true, false, Option, none, some, if◌then◌else◌,
}
use vox_forge.Store.World.{World}
use vox_forge.Store.Exec.{
  Exec, Error, Result, ok, err, pure, raise, raise_if, gets, modify, or_raise, lift, try, after,
  ◌>>=◌,
}

-- The call keeps the part `f` of the state, whether it returns or raises.
pub record Keeps {X : Type 0} (f : World → X) {A : Type 0} (m : Exec A) : Type 0 where
  pub at : (w : World) → f (after m w) ≡ f w

module _ {X : Type 0} (f : World → X) where
  module _ {A : Type 0} where
    pub Keeps-pure : (a : A) → Keeps f (pure a)
    Keeps-pure a = record { at = λ w. refl }

    pub Keeps-raise : (e : Error) → Keeps f {A = A} (raise e)
    Keeps-raise e = record { at = λ w. refl }

    pub Keeps-gets : (g : World → A) → Keeps f (gets g)
    Keeps-gets g = record { at = λ w. refl }

    pub Keeps-lift : (r : Result A) → Keeps f (lift r)
    Keeps-lift r = record { at = λ w. refl }

    pub Keeps-or_raise : (o : Option A) (e : Error) → Keeps f (or_raise o e)
    Keeps-or_raise none e = record { at = λ w. refl }
    Keeps-or_raise (some a) e = record { at = λ w. refl }

    pub Keeps-if : (b : Bool) {m n : Exec A} → Keeps f m → Keeps f n → Keeps f (if b then m else n)
    Keeps-if true hm hn = hm
    Keeps-if false hm hn = hn

    pub Keeps-try :
        (m : Exec A) (h : Error → Exec A)
        → Keeps f m
        → ((e : Error) → Keeps f (h e))
        → Keeps f (try m h)
    Keeps-try m h hm hh = record { at = λ w. handled w (m w).0 (m w).1 (hm.at w) }
      where
        handled :
            (w : World) (r : Result A) (w' : World)
            → f w' ≡ f w
            → f (after {A = A} (λ _. elim r [ ok a ↦ (ok a, w') | err e ↦ h e w' ]) w) ≡ f w
        handled w (ok a) w' e = e
        handled w (err x) w' e = (hh x).at w' ∙ e

  pub Keeps-raise_if : (b : Bool) (e : Error) → Keeps f (raise_if b e)
  Keeps-raise_if true e = record { at = λ w. refl }
  Keeps-raise_if false e = record { at = λ w. refl }

  pub Keeps-bind :
      {A B : Type 0} (m : Exec A) (k : A → Exec B)
      → Keeps f m
      → ((a : A) → Keeps f (k a))
      → Keeps f (m >>= k)
  Keeps-bind {A} {B} m k hm hk = record { at = λ w. goes_on w (m w).0 (m w).1 (hm.at w) }
    where
      goes_on :
          (w : World) (r : Result A) (w' : World)
          → f w' ≡ f w
          → f (after {A = B} (λ _. elim r [ ok a ↦ k a w' | err e ↦ (err e, w') ]) w) ≡ f w
      goes_on w (ok a) w' e = (hk a).at w' ∙ e
      goes_on w (err x) w' e = e

  pub Keeps-option :
      {A B : Type 0} (o : Option A) (m : Exec B) (k : A → Exec B)
      → Keeps f m
      → ((a : A) → Keeps f (k a))
      → Keeps f (elim o [ none ↦ m | some a ↦ k a ])
  Keeps-option none m k hm hk = hm
  Keeps-option (some a) m k hm hk = hk a
