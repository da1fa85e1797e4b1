-- ===== src/Handoff/Orchestrator/Again.antt =====
-- A second handoff of a session: `initiate_handoff` and `create_handoff` hand out the first one.
use vox_forge.Common.{ℕ, ◌≡◌, Text, false, Option}
use vox_forge.Domain.Json.{Fields}
use vox_forge.Domain.Handoff.{
  Float, HandoffTrigger, EscalationPolicy, HandoffRecord, HandoffPackage,
}
use vox_forge.Store.World.{World, Settings}
use vox_forge.Store.Exec.{ok}
use vox_forge.Store.Handoffs
use vox_forge.Store.Handoffs.{create_handoff}
use vox_forge.Handoff.Orchestrator.{Services}
use vox_forge.Handoff.Orchestrator.Initiate.{initiate_handoff}

-- What asking again gives: the package of the row, from `create_handoff` the row itself, marked as
-- not created, and no change at all.
pub record Again (settings : Settings) (services : Services) (policy : EscalationPolicy)
    (org_id session_id : ℕ) (trigger : HandoffTrigger) (reason : Text) (score : Option Float)
    (email : Option Text) (priority : Text) (payload : Fields) (w : World) (r : HandoffRecord)
    : Type 0 where
  pub made : HandoffPackage
  pub handoff_id : made.handoff_id ≡ r.id
  pub session : made.session_id ≡ session_id
  pub initiated :
      initiate_handoff settings services policy org_id session_id trigger reason score email
        priority w
      ≡ (ok made, w)
  pub created : create_handoff org_id session_id trigger reason score payload w ≡ (ok (r, false), w)
