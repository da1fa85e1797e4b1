-- ===== src/Handoff/Orchestrator/Accept.antt =====
-- `accept_handoff` among several agents. `accept_read` takes the record as it was when the call
-- read it, so that other requests may have run between the read and the conditional update.
use vox_forge.Common.{ℕ, ◌≡◌, refl, true, false, Option, some, ◌==◌, if◌then◌else◌, find, arith}
use vox_forge.Domain.Handoff.{HandoffStatus, HandoffRecord}
use vox_forge.Store.World.{World, Settings}
use vox_forge.Store.Exec.{ok, err, handoff_is, after}
use vox_forge.Store.Handoffs
use vox_forge.Store.Handoffs.{has_id, status_eq}
use vox_forge.Store.Frame.{Frames, Frames-link_session, Frames-record_event}
use vox_forge.SessionManager.Frame.{Frames-resume_session, Frames-apply_handoff_active}
use vox_forge.Handoff.Orchestrator.{
  activate, after_claim, accept_lost, accepted_by, accept_read, accept_handoff,
  acceptable_for_accept, is_assigned_to, already_accepted,
}
use vox_forge.Handoff.Orchestrator.Rows.{Unique, updated, update-hit, update-miss, map-Unique}

-- After it has claimed the row, an accept writes no handoff row, also where it fails later.
pub Frames-activate :
    (settings : Settings) (r : HandoffRecord) (handoff_id org_id user_id : ℕ)
    → Frames (activate settings r handoff_id org_id user_id)
unfolding activate
Frames-activate settings r handoff_id org_id user_id = record {
  at = λ w. grind (
    arith, Frames.at, Frames-link_session, Frames-record_event, Frames-resume_session,
    Frames-apply_handoff_active,
  );
}

module _ (settings : Settings) (handoff_id org_id : ℕ) (w : World) (r : HandoffRecord)
    (found : find (has_id handoff_id org_id) w.handoffs ≡ some r) where
  abbrev row_of : World → Option HandoffRecord
  row_of w' = find (has_id handoff_id org_id) w'.handoffs

  -- The row after `user_id` has claimed it.
  abbrev claimed : ℕ → HandoffRecord
  claimed user_id = record (accepted_by user_id w.clock r) {
    status = HandoffStatus.active;
    updated_at = w.clock;
  }

  abbrev claiming : ℕ → World
  claiming user_id =
      updated handoff_id org_id acceptable_for_accept HandoffStatus.active
        (accepted_by user_id w.clock) (λ q. refl) (λ q. refl) w r found

  accept_read-rows :
      (stale : HandoffRecord) (user_id : ℕ)
      → acceptable_for_accept stale.status ≡ true
      → acceptable_for_accept r.status ≡ true
      → (after (accept_read settings stale handoff_id org_id user_id) w).handoffs
        ≡ (claiming user_id).handoffs
  unfolding accept_read after_claim
  accept_read-rows stale user_id h e =
      let (runs, held) =
        update-hit handoff_id org_id acceptable_for_accept HandoffStatus.active
          (accepted_by user_id w.clock) (λ q. refl) (λ q. refl) w r found e in
      ground (
        arith,
        runs,
        (Frames-activate settings (claimed user_id) handoff_id org_id user_id).at
            (claiming user_id),
      )

  -- A call that read an open record and still finds it open claims it, whatever comes after.
  pub accept_read-claims :
      (stale : HandoffRecord) (user_id : ℕ)
      → acceptable_for_accept stale.status ≡ true
      → acceptable_for_accept r.status ≡ true
      → Unique w.handoffs
      → let w' = after (accept_read settings stale handoff_id org_id user_id) w in
        (row_of w' ≡ some (claimed user_id)) × Unique w'.handoffs
  accept_read-claims stale user_id h e u =
      let held =
        update-hit handoff_id org_id acceptable_for_accept HandoffStatus.active
          (accepted_by user_id w.clock) (λ q. refl) (λ q. refl) w r found e in
      (
        rw (accept_read-rows stale user_id h e) held.1,
        rw (accept_read-rows stale user_id h e) (map-Unique _ w.handoffs (λ q. ground arith) u),
      )

  -- A call that read an open record, but finds it claimed or closed, changes nothing: it returns
  -- the record to the agent who holds it, and raises for any other, or if it is closed.
  pub accept_read-late :
      (stale : HandoffRecord) (user_id : ℕ)
      → Unique w.handoffs
      → acceptable_for_accept stale.status ≡ true
      → acceptable_for_accept r.status ≡ false
      → accept_read settings stale handoff_id org_id user_id w ≡ (
        (if status_eq r.status HandoffStatus.active
            then (if is_assigned_to user_id r then ok r else err already_accepted)
            else err (handoff_is r.status)),
        w,
      )
  unfolding accept_read after_claim accept_lost Handoffs.get_handoff
  accept_read-late stale user_id u h e =
      let runs =
        update-miss handoff_id org_id acceptable_for_accept HandoffStatus.active
          (accepted_by user_id w.clock) (λ q. refl) (λ q. refl) w r found u e in
      ground (arith, runs)

module _ (settings : Settings) (handoff_id org_id : ℕ) (w : World) (r : HandoffRecord)
    (found : find (has_id handoff_id org_id) w.handoffs ≡ some r) where
  -- Two agents read the same open handoff, then the first claims it: the second is refused and
  -- changes nothing, and the first may ask again and gets the record that it holds.
  pub accept_race :
      (first second : HandoffRecord) (user rival : ℕ)
      → Unique w.handoffs
      → acceptable_for_accept r.status ≡ true
      → acceptable_for_accept first.status ≡ true
      → acceptable_for_accept second.status ≡ true
      → (user == rival) ≡ false
      → let w' = after (accept_read settings first handoff_id org_id user) w in
        (accept_read settings second handoff_id org_id rival w' ≡ (err already_accepted, w'))
        × (accept_handoff settings handoff_id org_id user w'
            ≡ (ok (claimed settings handoff_id org_id w r found user), w'))
  unfolding accept_handoff Handoffs.get_handoff accept_read
  accept_race first second user rival u e h₁ h₂ ne =
      let w' = after (accept_read settings first handoff_id org_id user) w in
      let (held, u') = accept_read-claims settings handoff_id org_id w r found first user h₁ e u in
      let mine : HandoffRecord = claimed settings handoff_id org_id w r found user in
      (
        ground (
          arith,
          accept_read-late settings handoff_id org_id w' mine held second rival u' h₂ refl,
          ne,
        ),
        ground (arith, held),
      )
