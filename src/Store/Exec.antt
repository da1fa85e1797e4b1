-- ===== src/Store/Exec.antt =====
-- Coroutines that change the state and may raise. What was written before a raise stays written.
use vox_forge.Common.{◌≡◌, refl, ◌⊎◌, inl, inr, ℕ, String, Bool, true, false, Option, none, some}
use vox_forge.Domain.Handoff.{HandoffStatus}
use vox_forge.Store.World.{World}

pub data Error : Type 0 where
  session_not_found session_state : ℕ → Error
  redis_error : Error
  value_error runtime_error : String → Error
  -- ValueError(f"Handoff is {status}")
  handoff_is : HandoffStatus → Error
  -- an exception of code outside the repository
  provider_error : String → Error

pub data Result {ℓ} (A : Type ℓ) : Type ℓ where
  ok : A → Result A
  err : Error → Result A

abbrev pub Exec : Type 0 → Type 0
Exec A = World → Result A × World

module _ {A : Type 0} where
  abbrev pub pure : A → Exec A
  pure a w = (ok a, w)

  abbrev pub raise : Error → Exec A
  raise e w = (err e, w)

  abbrev pub gets : (World → A) → Exec A
  gets f w = (ok (f w), w)

  abbrev pub or_raise : Option A → Error → Exec A
  or_raise none e = raise e
  or_raise (some a) e = pure a

  abbrev pub lift : Result A → Exec A
  lift r w = (r, w)

abbrev pub modify : (World → World) → Exec Unit
modify f w = (ok tt, f w)

abbrev pub raise_if : Bool → Error → Exec Unit
raise_if true e = raise e
raise_if false e = pure tt

infixl 5 ◌>>=◌ ◌>>◌
abbrev pub ◌>>=◌ : {A B : Type 0} → Exec A → (A → Exec B) → Exec B
◌>>=◌ m f w = let (r, w') = m w in elim r [ ok a ↦ f a w' | err e ↦ (err e, w') ]

abbrev pub ◌>>◌ : {A B : Type 0} → Exec A → Exec B → Exec B
m >> k = m >>= λ _. k

-- `try: m except Exception as e: handler`
abbrev pub try : {A : Type 0} → Exec A → (Error → Exec A) → Exec A
try m h w = let (r, w') = m w in elim r [ ok a ↦ (ok a, w') | err e ↦ h e w' ]

-- The final state and the result of a run.
abbrev pub result : {A : Type 0} → Exec A → World → Result A
result m w = (m w).0

abbrev pub after : {A : Type 0} → Exec A → World → World
after m w = (m w).1

-- To split on how a call ended.
pub Result-cases :
    {A : Type 0} (r : Result A) → ((a : A) × (r ≡ ok a)) ⊎ ((e : Error) × (r ≡ err e))
Result-cases (ok a) = inl (a, refl)
Result-cases (err e) = inr (e, refl)
