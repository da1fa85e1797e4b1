-- ===== src/Store/Frame.antt =====
-- Calls that leave the handoff rows alone, whether they return or raise: one rule for each way to
-- build a call.
use vox_forge.Common.{
  ℕ, ◌≡◌, refl, ◌∙◌, Bool, true, false, Option, none, some, if◌then◌else◌, arith,
}
use vox_forge.Domain.Json.{Fields}
use vox_forge.Domain.Session.{SessionStatus, SessionState}
use vox_forge.Domain.Handoff.{HandoffStatus, HandoffEventType}
use vox_forge.Store.World.{World, Settings}
use vox_forge.Store.Exec.{
  Exec, Error, Result, ok, err, pure, raise, raise_if, gets, or_raise, try, after, ◌>>=◌,
}
use vox_forge.Store.Redis
use vox_forge.Store.Sessions
use vox_forge.Store.Handoffs

pub record Frames {A : Type 0} (m : Exec A) : Type 0 where
  pub at : (w : World) → (after m w).handoffs ≡ w.handoffs

module _ {A : Type 0} where
  pub Frames-pure : (a : A) → Frames (pure a)
  Frames-pure a = record { at = λ w. refl }

  pub Frames-raise : (e : Error) → Frames {A = A} (raise e)
  Frames-raise e = record { at = λ w. refl }

  pub Frames-gets : (f : World → A) → Frames (gets f)
  Frames-gets f = record { at = λ w. refl }

  pub Frames-or_raise : (o : Option A) (e : Error) → Frames (or_raise o e)
  Frames-or_raise none e = record { at = λ w. refl }
  Frames-or_raise (some a) e = record { at = λ w. refl }

  pub Frames-if : (b : Bool) {m n : Exec A} → Frames m → Frames n → Frames (if b then m else n)
  Frames-if true hm hn = hm
  Frames-if false hm hn = hn

  pub Frames-try :
      (m : Exec A) (h : Error → Exec A) → Frames m → ((e : Error) → Frames (h e)) → Frames (try m h)
  Frames-try m h hm hh = record { at = λ w. handled w (m w).0 (m w).1 (hm.at w) }
    where
      handled :
          (w : World) (r : Result A) (w' : World)
          → w'.handoffs ≡ w.handoffs
          → (after {A = A} (λ _. elim r [ ok a ↦ (ok a, w') | err e ↦ h e w' ]) w).handoffs
            ≡ w.handoffs
      handled w (ok a) w' e = e
      handled w (err x) w' e = (hh x).at w' ∙ e

pub Frames-raise_if : (b : Bool) (e : Error) → Frames (raise_if b e)
Frames-raise_if true e = record { at = λ w. refl }
Frames-raise_if false e = record { at = λ w. refl }

pub Frames-bind :
    {A B : Type 0} (m : Exec A) (f : A → Exec B)
    → Frames m
    → ((a : A) → Frames (f a))
    → Frames (m >>= f)
Frames-bind {A} {B} m f hm hf = record { at = λ w. goes_on w (m w).0 (m w).1 (hm.at w) }
  where
    goes_on :
        (w : World) (r : Result A) (w' : World)
        → w'.handoffs ≡ w.handoffs
        → (after {A = B} (λ _. elim r [ ok a ↦ f a w' | err e ↦ (err e, w') ]) w).handoffs
          ≡ w.handoffs
    goes_on w (ok a) w' e = (hf a).at w' ∙ e
    goes_on w (err x) w' e = e

pub Frames-option :
    {A B : Type 0} (o : Option A) (m : Exec B) (f : A → Exec B)
    → Frames m
    → ((a : A) → Frames (f a))
    → Frames (elim o [ none ↦ m | some a ↦ f a ])
Frames-option none m f hm hf = hm
Frames-option (some a) m f hm hf = hf a

module _ (settings : Settings) where
  pub Frames-save_state :
      (state : SessionState) (ttl : Option ℕ) → Frames (Redis.save_state settings state ttl)
  unfolding Redis.save_state
  Frames-save_state state ttl = record { at = λ w. ground arith }

  pub Frames-get_state : (session_id : ℕ) → Frames (Redis.get_state settings session_id)
  unfolding Redis.get_state
  Frames-get_state session_id = record { at = λ w. ground arith }

  pub Frames-get_state_or_none :
      (session_id : ℕ) → Frames (Redis.get_state_or_none settings session_id)
  unfolding Redis.get_state_or_none
  Frames-get_state_or_none session_id = record { at = λ w. ground arith }

  pub Frames-record_heartbeat :
      (session_id : ℕ) → Frames (Redis.record_heartbeat settings session_id)
  unfolding Redis.record_heartbeat
  Frames-record_heartbeat session_id = record { at = λ w. ground arith }

pub Frames-session_get : (id : ℕ) (org : Option ℕ) → Frames (Sessions.get id org)
unfolding Sessions.get
Frames-session_get id org = record { at = λ w. ground arith }

pub Frames-session_status : (id : ℕ) (s : SessionStatus) → Frames (Sessions.update_status id s)
unfolding Sessions.update_status
Frames-session_status id s = record { at = λ w. ground arith }

pub Frames-link_session :
    (session_id handoff_id : ℕ) (s : HandoffStatus)
    → Frames (Handoffs.link_session session_id handoff_id s)
unfolding Handoffs.link_session
Frames-link_session session_id handoff_id s = record { at = λ w. refl }

pub Frames-record_event :
    (handoff_id org_id : ℕ) (e : HandoffEventType) (payload : Fields)
    → Frames (Handoffs.record_event handoff_id org_id e payload)
unfolding Handoffs.record_event
Frames-record_event handoff_id org_id e payload = record { at = λ w. refl }

pub ruleset frame_rules = (
  Frames-pure, Frames-raise, Frames-gets, Frames-or_raise, Frames-if, Frames-try, Frames-raise_if,
  Frames-bind, Frames-option, Frames-save_state, Frames-get_state, Frames-get_state_or_none,
  Frames-record_heartbeat, Frames-session_get, Frames-session_status, Frames-link_session,
  Frames-record_event,
)
