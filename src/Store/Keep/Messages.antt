-- ===== src/Store/Keep/Messages.antt =====
-- Calls of the stores that leave the messages alone.
use vox_forge.Common.{ℕ, ◌+◌, refl, String, Bool, Option, List, arith}
use vox_forge.Domain.Json.{Fields}
use vox_forge.Domain.Session.{SessionStatus, SessionState, Message}
use vox_forge.Domain.Handoff.{Float, HandoffStatus, HandoffEventType, HandoffRecord}
use vox_forge.Store.World.{Settings}
use vox_forge.Store.Exec.{Exec, modify}
use vox_forge.Store.Redis
use vox_forge.Store.Sessions
use vox_forge.Store.Handoffs
use vox_forge.Store.Keep.{
  Keeps, Keeps-pure, Keeps-raise, Keeps-gets, Keeps-lift, Keeps-or_raise, Keeps-if, Keeps-try,
  Keeps-raise_if, Keeps-bind, Keeps-option,
}

abbrev pub Silent : {A : Type 0} → Exec A → Type 0
Silent m = Keeps (λ w. w.messages) m

pub Silent-next_id : Silent (modify λ w. record w { fresh = w.fresh + 1 })
Silent-next_id = record { at = λ w. refl }

pub Silent-save_state :
    (settings : Settings) (state : SessionState) (ttl : Option ℕ)
    → Silent (Redis.save_state settings state ttl)
unfolding Redis.save_state
Silent-save_state settings state ttl = record { at = λ w. ground arith }

pub Silent-get_state : (settings : Settings) (id : ℕ) → Silent (Redis.get_state settings id)
unfolding Redis.get_state
Silent-get_state settings id = record { at = λ w. ground arith }

pub Silent-get_state_or_none :
    (settings : Settings) (id : ℕ) → Silent (Redis.get_state_or_none settings id)
unfolding Redis.get_state_or_none Redis.get_state
Silent-get_state_or_none settings id = record { at = λ w. ground arith }

pub Silent-record_heartbeat :
    (settings : Settings) (id : ℕ) → Silent (Redis.record_heartbeat settings id)
unfolding Redis.record_heartbeat Redis.get_state Redis.save_state
Silent-record_heartbeat settings id = record { at = λ w. ground arith }

pub Silent-session_get : (id : ℕ) (org : Option ℕ) → Silent (Sessions.get id org)
unfolding Sessions.get
Silent-session_get id org = record { at = λ w. ground arith }

pub Silent-session_status : (id : ℕ) (s : SessionStatus) → Silent (Sessions.update_status id s)
unfolding Sessions.update_status
Silent-session_status id s = record { at = λ w. ground arith }

pub Silent-add_metric :
    (id : ℕ) (name : String) (v : Float) → Silent (Sessions.add_metric id name v)
unfolding Sessions.add_metric
Silent-add_metric id name v = record { at = λ w. ground arith }

pub Silent-get_messages : (id a b : ℕ) → Silent (Sessions.get_messages id a b)
unfolding Sessions.get_messages
Silent-get_messages id a b = record { at = λ w. ground arith }

pub Silent-link_session :
    (session_id handoff_id : ℕ) (s : HandoffStatus)
    → Silent (Handoffs.link_session session_id handoff_id s)
unfolding Handoffs.link_session
Silent-link_session session_id handoff_id s = record { at = λ w. ground arith }

pub Silent-record_event :
    (handoff_id org_id : ℕ) (e : HandoffEventType) (payload : Fields)
    → Silent (Handoffs.record_event handoff_id org_id e payload)
unfolding Handoffs.record_event
Silent-record_event handoff_id org_id e payload = record { at = λ w. ground arith }

pub Silent-get_handoff : (handoff_id org_id : ℕ) → Silent (Handoffs.get_handoff handoff_id org_id)
unfolding Handoffs.get_handoff
Silent-get_handoff handoff_id org_id = record { at = λ w. ground arith }

pub Silent-get_by_session :
    (session_id org_id : ℕ) → Silent (Handoffs.get_by_session session_id org_id)
unfolding Handoffs.get_by_session
Silent-get_by_session session_id org_id = record { at = λ w. ground arith }

pub Silent-insert_handoff : (row : HandoffRecord) → Silent (Handoffs.insert_handoff row)
unfolding Handoffs.insert_handoff
Silent-insert_handoff row = record { at = λ w. ground arith }

pub Silent-handoff_status :
    (handoff_id org_id : ℕ) (s : HandoffStatus) (allowed : Option (HandoffStatus → Bool))
    (fields : HandoffRecord → HandoffRecord)
    → Silent (Handoffs.update_status handoff_id org_id s allowed fields)
unfolding Handoffs.update_status Handoffs.get_handoff
Silent-handoff_status handoff_id org_id s allowed fields = record { at = λ w. ground arith }

pub Silent-save_snapshot :
    (handoff_id session_id org_id n : ℕ) (ms : List Message)
    → Silent (Handoffs.save_snapshot handoff_id session_id org_id n ms)
unfolding Handoffs.save_snapshot
Silent-save_snapshot handoff_id session_id org_id n ms = record { at = λ w. ground arith }

pub ruleset silent_rules = (
  Keeps-pure, Keeps-raise, Keeps-gets, Keeps-lift, Keeps-or_raise, Keeps-if, Keeps-try,
  Keeps-raise_if, Keeps-bind, Keeps-option, Silent-next_id, Silent-save_state, Silent-get_state,
  Silent-get_state_or_none, Silent-record_heartbeat, Silent-session_get, Silent-session_status,
  Silent-add_metric, Silent-get_messages, Silent-link_session, Silent-record_event,
  Silent-get_handoff, Silent-get_by_session, Silent-insert_handoff, Silent-handoff_status,
  Silent-save_snapshot,
)
