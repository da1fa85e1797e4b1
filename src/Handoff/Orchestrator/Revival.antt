-- ===== src/Handoff/Orchestrator/Revival.antt =====
-- Completing a handoff and the session behind it: `complete_handoff` ends in `clear_handoff`,
-- which does not look at the session's status.
use vox_forge.Common.{ℕ, ◌≡◌, refl, sym, ◌∙◌, Text, true, some, [], find, arith}
use vox_forge.Domain.Session.{SessionStatus, VoiceSession}
use vox_forge.Domain.Json.{text, field, end}
use vox_forge.Domain.Handoff.{HandoffStatus, HandoffRecord, HandoffEventType}
use vox_forge.Store.World.{World, Settings}
use vox_forge.Store.Exec.{ok, after}
use vox_forge.Store.Handoffs
use vox_forge.Store.Handoffs.{has_id}
use vox_forge.SessionManager.Reconcile.{IsLasting, IsFiled}
use vox_forge.SessionManager.Handoffs.{clear_handoff-activates}
use vox_forge.Handoff.Orchestrator.{
  complete_handoff, complete_read, after_complete, acceptable_for_complete, resolved,
}
use vox_forge.Handoff.Orchestrator.Rows.{updated, update-hit}

module _ (settings : Settings) (handoff_id org_id : ℕ) (w : World) (r : HandoffRecord)
    (session : VoiceSession) (found : find (has_id handoff_id org_id) w.handoffs ≡ some r)
    (up : w.outages ≡ []) (lasting : IsLasting settings) (filed : IsFiled w r.session_id)
    (known : w.sessions r.session_id ≡ some session) (keyed : session.id ≡ r.session_id) where
  abbrev linked : VoiceSession
  linked = record session {
    handoff_id = some handoff_id;
    handoff_status = some HandoffStatus.completed;
  }

  abbrev closing : Text → World
  closing resolution =
      after (Handoffs.link_session r.session_id handoff_id HandoffStatus.completed) (
        updated handoff_id org_id acceptable_for_complete HandoffStatus.completed
          (resolved resolution r w.clock) (λ q. refl) (λ q. refl) w r found)

  abbrev before_clear : Text → World
  before_clear resolution =
      after
        (Handoffs.record_event handoff_id org_id HandoffEventType.completed
          (field "resolution" (text resolution) end))
        (closing resolution)

  abbrev closed_row : Text → HandoffRecord
  closed_row resolution = record (resolved resolution r w.clock r) {
    status = HandoffStatus.completed;
    updated_at = w.clock;
  }

  -- With Redis up, states of a positive lifetime and a known session whose live state, if it has one, is
  -- filed under its id, completing an open handoff of it succeeds and makes the session active,
  -- whatever its status was, an ended one included.
  pub complete_handoff-revives :
      (resolution : Text)
      → acceptable_for_complete r.status ≡ true
      → (w' : World) × (r' : HandoffRecord) × (complete_handoff settings handoff_id org_id
            resolution w
          ≡ (ok r', w'))
        × (r'.status ≡ HandoffStatus.completed)
        × (w'.sessions r.session_id ≡ some (record linked { status = SessionStatus.active }))
  unfolding complete_handoff complete_read after_complete Handoffs.get_handoff Handoffs.link_session
      Handoffs.record_event
  complete_handoff-revives resolution open_ =
      let (runs, held) =
        update-hit handoff_id org_id acceptable_for_complete HandoffStatus.completed
          (resolved resolution r w.clock) (λ q. refl) (λ q. refl) w r found open_ in
      let (w', cleared, row, rest) =
        clear_handoff-activates settings (before_clear resolution) linked up lasting
          (λ state live. filed state (rw (← keyed) live) ∙ sym keyed)
          (ground (arith, known, keyed)) in
      (
        w',
        closed_row resolution,
        ground (arith, found, runs, cleared, keyed),
        refl,
        rw (← keyed) row,
      )
