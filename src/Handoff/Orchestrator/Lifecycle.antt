-- ===== src/Handoff/Orchestrator/Lifecycle.antt =====
-- The life of a handoff record under `accept_handoff`, `complete_handoff` and `cancel_handoff`,
-- each from the record that it has read, however old that is.
use vox_forge.Common.{
  ℕ, ◌≡◌, refl, Text, Bool, true, Option, none, some, List, [], ◌∷◌, map, if◌then◌else◌, find,
  arith, Bool-cases, inl, inr, ◌⊎◌,
}
use vox_forge.Domain.Handoff.{HandoffStatus, HandoffRecord}
use vox_forge.Store.World.{World, Settings}
use vox_forge.Store.Exec.{after, Exec, ◌>>=◌, Result-cases}
use vox_forge.Store.Handoffs
use vox_forge.Store.Handoffs.{has_id, status_eq, matches}
use vox_forge.Store.Frame.{Frames, Frames-link_session, Frames-record_event}
use vox_forge.SessionManager.Frame.{Frames-clear_handoff}
use vox_forge.Handoff.Orchestrator.{
  after_claim, accept_lost, accepted_by, accept_read, complete_read, cancel_read, after_complete,
  after_cancel, finish_lost, resolved, acceptable_for_accept, acceptable_for_complete, is_terminal,
}
use vox_forge.Handoff.Orchestrator.Rows.{find-map-if}
use vox_forge.Handoff.Orchestrator.Accept.{Frames-activate}

-- The moves of a handoff's status: an open handoff is accepted, completed or cancelled, and an active
-- one is completed or cancelled.
pub data Advance : HandoffStatus → HandoffStatus → Type 0 where
  pending_active : Advance HandoffStatus.pending HandoffStatus.active
  assigned_active : Advance HandoffStatus.assigned HandoffStatus.active
  pending_completed : Advance HandoffStatus.pending HandoffStatus.completed
  assigned_completed : Advance HandoffStatus.assigned HandoffStatus.completed
  active_completed : Advance HandoffStatus.active HandoffStatus.completed
  pending_cancelled : Advance HandoffStatus.pending HandoffStatus.cancelled
  assigned_cancelled : Advance HandoffStatus.assigned HandoffStatus.cancelled
  active_cancelled : Advance HandoffStatus.active HandoffStatus.cancelled

claim : (s : HandoffStatus) → acceptable_for_accept s ≡ true → Advance s HandoffStatus.active
claim HandoffStatus.pending h = pending_active
claim HandoffStatus.assigned h = assigned_active
claim HandoffStatus.active h = ground (arith, h)
claim HandoffStatus.completed h = ground (arith, h)
claim HandoffStatus.cancelled h = ground (arith, h)

complete :
    (s : HandoffStatus) → acceptable_for_complete s ≡ true → Advance s HandoffStatus.completed
complete HandoffStatus.pending h = pending_completed
complete HandoffStatus.assigned h = assigned_completed
complete HandoffStatus.active h = active_completed
complete HandoffStatus.completed h = ground (arith, h)
complete HandoffStatus.cancelled h = ground (arith, h)

cancel : (s : HandoffStatus) → acceptable_for_complete s ≡ true → Advance s HandoffStatus.cancelled
cancel HandoffStatus.pending h = pending_cancelled
cancel HandoffStatus.assigned h = assigned_cancelled
cancel HandoffStatus.active h = active_cancelled
cancel HandoffStatus.completed h = ground (arith, h)
cancel HandoffStatus.cancelled h = ground (arith, h)

-- The three operations, with what they read before the other requests ran.
pub data Operation : Type 0 where
  accept : ℕ → Operation
  complete_with : Text → Operation
  cancel_it : Operation

unfoldable pub run_operation : Settings → Operation → HandoffRecord → ℕ → ℕ → World → World
run_operation settings (accept user) stale id org w =
    after (accept_read settings stale id org user) w
run_operation settings (complete_with resolution) stale id org w =
    after (complete_read settings resolution stale id org) w
run_operation settings cancel_it stale id org w = after (cancel_read settings stale id org) w

Frames-accept_lost : (id org user : ℕ) → Frames (accept_lost id org user)
unfolding accept_lost Handoffs.get_handoff
Frames-accept_lost id org user = record { at = λ w. ground arith }

Frames-finish_lost : (s : HandoffStatus) (id org : ℕ) → Frames (finish_lost s id org)
unfolding finish_lost Handoffs.get_handoff
Frames-finish_lost s id org = record { at = λ w. ground arith }

Frames-after_claim :
    (settings : Settings) (id org user : ℕ) (o : Option HandoffRecord)
    → Frames (after_claim settings id org user o)
unfolding after_claim
Frames-after_claim settings id org user none = Frames-accept_lost id org user
Frames-after_claim settings id org user (some r) = Frames-activate settings r id org user

Frames-after_complete :
    (settings : Settings) (resolution : Text) (id org : ℕ) (o : Option HandoffRecord)
    → Frames (after_complete settings resolution id org o)
unfolding after_complete
Frames-after_complete settings resolution id org none =
    Frames-finish_lost HandoffStatus.completed id org
Frames-after_complete settings resolution id org (some r) = record {
  at =
      λ w. grind (arith, Frames.at, Frames-link_session, Frames-record_event, Frames-clear_handoff);
}

Frames-after_cancel :
    (settings : Settings) (id org : ℕ) (o : Option HandoffRecord)
    → Frames (after_cancel settings id org o)
unfolding after_cancel
Frames-after_cancel settings id org none = Frames-finish_lost HandoffStatus.cancelled id org
Frames-after_cancel settings id org (some r) = record {
  at =
      λ w. grind (arith, Frames.at, Frames-link_session, Frames-record_event, Frames-clear_handoff);
}

-- What the conditional update does to the rows, matched or not.
abbrev rewritten :
    ℕ
    → ℕ
    → HandoffStatus
    → (HandoffStatus → Bool)
    → (HandoffRecord → HandoffRecord)
    → World
    → List HandoffRecord
rewritten id org status allowed fields w =
    map
      (λ q.
        if matches id org (some allowed) q
        then record (fields q) { status = status; updated_at = w.clock }
        else q)
      w.handoffs

update_status-rows :
    (id org : ℕ) (status : HandoffStatus) (allowed : HandoffStatus → Bool)
    (fields : HandoffRecord → HandoffRecord) (w : World)
    → (after (Handoffs.update_status id org status (some allowed) fields) w).handoffs
      ≡ rewritten id org status allowed fields w
unfolding Handoffs.update_status Handoffs.get_handoff
update_status-rows id org status allowed fields w = ground arith

-- The update and whatever follows it, if that writes no handoff row.
update_then-rows :
    (id org : ℕ) (status : HandoffStatus) (allowed : HandoffStatus → Bool)
    (fields : HandoffRecord → HandoffRecord) (k : Option HandoffRecord → Exec HandoffRecord)
    (w : World)
    → ((o : Option HandoffRecord) → Frames (k o))
    → (after (Handoffs.update_status id org status (some allowed) fields >>= k) w).handoffs
      ≡ rewritten id org status allowed fields w
update_then-rows id org status allowed fields k w quiet =
    let m = Handoffs.update_status id org status (some allowed) fields in
    elim (Result-cases (m w).0) [
      | inl (o, e) ↦
          ground (arith, (quiet o).at (m w).1, update_status-rows id org status allowed fields w)
      | inr (x, e) ↦ ground (arith, update_status-rows id org status allowed fields w)
    ]

-- Either no row is written, or the conditional update is all that is written.
abbrev Writes :
    ℕ
    → ℕ
    → HandoffStatus
    → (HandoffStatus → Bool)
    → (HandoffRecord → HandoffRecord)
    → World
    → World
    → Type 0
Writes id org status allowed fields w w' =
    (w'.handoffs ≡ w.handoffs) ⊎ (w'.handoffs ≡ rewritten id org status allowed fields w)

accept_read-Writes :
    (settings : Settings) (stale : HandoffRecord) (id org user : ℕ) (w : World)
    → Writes id org HandoffStatus.active acceptable_for_accept
        (accepted_by user w.clock)
        w
        (after (accept_read settings stale id org user) w)
unfolding accept_read
accept_read-Writes settings stale id org user w =
    let claims =
      update_then-rows id org HandoffStatus.active acceptable_for_accept (accepted_by user w.clock)
        (after_claim settings id org user) w (Frames-after_claim settings id org user) in
    elim (Bool-cases (status_eq stale.status HandoffStatus.active)) [
      | inl e ↦ inl (ground arith)
      | inr e ↦ elim (Bool-cases (is_terminal stale.status)) [
        | inl t ↦ inl (ground arith)
        | inr t ↦ inr (rw (e, t) claims)
      ]
    ]

complete_read-Writes :
    (settings : Settings) (resolution : Text) (stale : HandoffRecord) (id org : ℕ) (w : World)
    → Writes id org HandoffStatus.completed acceptable_for_complete
        (resolved resolution stale w.clock)
        w
        (after (complete_read settings resolution stale id org) w)
unfolding complete_read
complete_read-Writes settings resolution stale id org w =
    let closes =
      update_then-rows id org HandoffStatus.completed acceptable_for_complete
        (resolved resolution stale w.clock) (after_complete settings resolution id org) w
        (Frames-after_complete settings resolution id org) in
    elim (Bool-cases (status_eq stale.status HandoffStatus.completed)) [
      | inl e ↦ inl (ground arith)
      | inr e ↦ elim (Bool-cases (status_eq stale.status HandoffStatus.cancelled)) [
        | inl t ↦ inl (ground arith)
        | inr t ↦ inr (rw (e, t) closes)
      ]
    ]

cancel_read-Writes :
    (settings : Settings) (stale : HandoffRecord) (id org : ℕ) (w : World)
    → Writes id org HandoffStatus.cancelled acceptable_for_complete
        (λ row. row)
        w
        (after (cancel_read settings stale id org) w)
unfolding cancel_read
cancel_read-Writes settings stale id org w =
    let closes =
      update_then-rows id org HandoffStatus.cancelled acceptable_for_complete (λ row. row)
        (after_cancel settings id org) w (Frames-after_cancel settings id org) in
    elim (Bool-cases (status_eq stale.status HandoffStatus.cancelled)) [
      | inl e ↦ inl (ground arith)
      | inr e ↦ elim (Bool-cases (status_eq stale.status HandoffStatus.completed)) [
        | inl t ↦ inl (ground arith)
        | inr t ↦ inr (rw (e, t) closes)
      ]
    ]

module _ (id org : ℕ) (status : HandoffStatus) (allowed : HandoffStatus → Bool)
    (fields : HandoffRecord → HandoffRecord) (w w' : World)
    (writes : Writes id org status allowed fields w w')
    (keeps_id : (r : HandoffRecord) → (fields r).id ≡ r.id)
    (keeps_org : (r : HandoffRecord) → (fields r).org_id ≡ r.org_id) (k o : ℕ) (q : HandoffRecord)
    (found : find (has_id k o) w.handoffs ≡ some q) where
  abbrev fresh_row : HandoffRecord
  fresh_row = record (fields q) { status = status; updated_at = w.clock }

  -- Each row is left as it was, or had an allowed status and has the new columns.
  Writes-row :
      (find (has_id k o) w'.handoffs ≡ some q)
      ⊎ ((find (has_id k o) w'.handoffs ≡ some fresh_row) × (allowed q.status ≡ true))
  Writes-row = elim writes [
    | inl same ↦ inl (rw same found)
    | inr e ↦
        let held =
          find-map-if (has_id k o) (matches id org (some allowed))
            (λ r. record (fields r) { status = status; updated_at = w.clock }) w.handoffs q
            (λ r. ground (arith, keeps_id r, keeps_org r)) found in
        elim (Bool-cases (matches id org (some allowed) q)) [
          | inl hit ↦ inr (rw e (ground (arith, held, hit)), ground arith)
          | inr miss ↦ inl (rw e (ground (arith, held, miss)))
        ]
  ]

-- What one operation may do to any row of the table.
run_operation-row :
    (settings : Settings) (op : Operation) (stale : HandoffRecord) (id org : ℕ) (w : World)
    (k o : ℕ) (q : HandoffRecord)
    → find (has_id k o) w.handoffs ≡ some q
    → (find (has_id k o) (run_operation settings op stale id org w).handoffs ≡ some q)
      ⊎ ((q' : HandoffRecord) × (find
              (has_id k o)
              (run_operation settings op stale id org w).handoffs
            ≡ some q')
          × (acceptable_for_complete q.status ≡ true)
          × Advance q.status q'.status)
unfolding run_operation
run_operation-row settings (accept user) stale id org w k o q found =
    elim (Writes-row id org HandoffStatus.active acceptable_for_accept (accepted_by user w.clock) w
      (after (accept_read settings stale id org user) w)
      (accept_read-Writes settings stale id org user w) (λ r. refl) (λ r. refl) k o q found) [
        | inl same ↦ inl same
        | inr (held, open_) ↦ inr (_, held, ground arith, claim q.status open_)
      ]
run_operation-row settings (complete_with resolution) stale id org w k o q found =
    elim (Writes-row id org HandoffStatus.completed acceptable_for_complete
      (resolved resolution stale w.clock) w
      (after (complete_read settings resolution stale id org) w)
      (complete_read-Writes settings resolution stale id org w) (λ r. refl) (λ r. refl) k o q
      found) [
        | inl same ↦ inl same
        | inr (held, open_) ↦ inr (_, held, open_, complete q.status open_)
      ]
run_operation-row settings cancel_it stale id org w k o q found =
    elim (Writes-row id org HandoffStatus.cancelled acceptable_for_complete (λ row. row) w
      (after (cancel_read settings stale id org) w) (cancel_read-Writes settings stale id org w)
      (λ r. refl) (λ r. refl) k o q found) [
        | inl same ↦ inl same
        | inr (held, open_) ↦ inr (_, held, open_, cancel q.status open_)
      ]

-- A request of a schedule: the operation, what it read, the handoff and the organisation.
abbrev pub Request : Type 0
Request = Operation × HandoffRecord × ℕ × ℕ

unfoldable pub run_requests : Settings → List Request → World → World
run_requests settings [] w = w
run_requests settings ((op, stale, id, org) ∷ rest) w =
    run_requests settings rest (run_operation settings op stale id org w)

-- Every status that a record takes is reached by the moves of `Advance`.
pub data Reaches (s : HandoffStatus) : HandoffStatus → Type 0 where
  here : Reaches s s
  next : {t u : HandoffStatus} → Reaches s t → Advance t u → Reaches s u

join : {s t u : HandoffStatus} → Reaches s t → Reaches t u → Reaches s u
join r here = r
join r (next q a) = next (join r q) a

-- Through any interleaving of accepts, completions and cancellations, each acting on a record that
-- it may have read long ago, no row is lost, and its status moves only from pending or assigned to
-- active, and from these three to completed or cancelled.
pub run_requests-Reaches :
    (settings : Settings) (requests : List Request) (w : World) (k o : ℕ) (q : HandoffRecord)
    → find (has_id k o) w.handoffs ≡ some q
    → (q' : HandoffRecord) × (find (has_id k o) (run_requests settings requests w).handoffs
        ≡ some q')
      × Reaches q.status q'.status
unfolding run_requests
run_requests-Reaches settings [] w k o q found = (q, found, here)
run_requests-Reaches settings ((op, stale, id, org) ∷ rest) w k o q found =
    elim (run_operation-row settings op stale id org w k o q found) [
      | inl same ↦
          run_requests-Reaches settings rest (run_operation settings op stale id org w) k o q same
      | inr (q₁, held, open_, move) ↦
          let (q', last, path) =
            run_requests-Reaches settings rest (run_operation settings op stale id org w) k o q₁
              held in
          (q', last, join (next here move) path)
    ]

-- A record that is completed or cancelled is never written again, by any interleaving.
pub run_requests-closed :
    (settings : Settings) (requests : List Request) (w : World) (k o : ℕ) (q : HandoffRecord)
    → find (has_id k o) w.handoffs ≡ some q
    → is_terminal q.status ≡ true
    → find (has_id k o) (run_requests settings requests w).handoffs ≡ some q
unfolding run_requests
run_requests-closed settings [] w k o q found closed = found
run_requests-closed settings ((op, stale, id, org) ∷ rest) w k o q found closed =
    elim (run_operation-row settings op stale id org w k o q found) [
      | inl same ↦
          run_requests-closed settings rest (run_operation settings op stale id org w) k o q same
            closed
      | inr (q₁, held, open_, move) ↦ absurd (ground arith)
    ]
