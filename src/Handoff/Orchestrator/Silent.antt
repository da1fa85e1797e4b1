-- ===== src/Handoff/Orchestrator/Silent.antt =====
-- Initiating a handoff leaves the messages alone.
use vox_forge.Common.{
  ℕ, ◌≡◌, ap, ◌∙◌, Text, Bool, Option, none, find, if◌then◌else◌, arith, Option-cases, inl, inr,
}
use vox_forge.Domain.Json.{Fields, field, text, end}
use vox_forge.Domain.Handoff.{
  Float, HandoffTrigger, AssignmentStrategy, EscalationPolicy, HandoffRecord, HandoffAssignment,
  HandoffPackage,
}
use vox_forge.Store.World.{Settings}
use vox_forge.Store.Exec.{Exec, pure, after, ◌>>=◌}
use vox_forge.Store.Handoffs
use vox_forge.Store.Keep.{Keeps-bind, Keeps-if, Keeps-pure}
use vox_forge.Store.Keep.Messages.{Silent, silent_rules}
use vox_forge.SessionManager.Silent.{Silent-apply_handoff_pending}
use vox_forge.Handoff.Summary.{summarize}
use vox_forge.Handoff.Orchestrator.{Services, trigger_value}
use vox_forge.Handoff.Orchestrator.Initiate.{
  initiate_handoff, prepare, open_ticket, store_package, to_package,
}

Silent-summarize : (session_id n : ℕ) → Silent (summarize session_id n)
unfolding summarize
Silent-summarize session_id n = search silent_rules

Silent-create_handoff :
    (org_id session_id : ℕ) (trigger : HandoffTrigger) (reason : Text) (score : Option Float)
    (payload : Fields)
    → Silent (Handoffs.create_handoff org_id session_id trigger reason score payload)
unfolding Handoffs.create_handoff Handoffs.get_by_session Handoffs.insert_handoff
    Handoffs.record_event Handoffs.get_handoff
Silent-create_handoff org_id session_id trigger reason score payload = record {
  at = λ w. ground arith;
}

Silent-open_ticket :
    (services : Services) (policy : EscalationPolicy) (r : HandoffRecord) (reason : Text)
    (email : Option Text) (priority url : Text)
    → Silent (open_ticket services policy r reason email priority url)
unfolding open_ticket
Silent-open_ticket services policy r reason email priority url =
    search (silent_rules, Silent-summarize) depth 20

Silent-store_package :
    (settings : Settings) (policy : EscalationPolicy) (r : HandoffRecord) (ticket : Option Text)
    (summary : Text) (link : Text × Text) (a : HandoffAssignment)
    → Silent (store_package settings policy r ticket summary link a)
unfolding store_package
Silent-store_package settings policy r ticket summary link a =
    search (silent_rules, Silent-apply_handoff_pending) depth 40

module _ (settings : Settings) (services : Services)
    (quiet : (org_id handoff_id : ℕ) (strategy : AssignmentStrategy)
      → Silent (services.assign org_id handoff_id strategy)) where
  Silent-prepare :
      (policy : EscalationPolicy) (r : HandoffRecord) (reason : Text) (email : Option Text)
      (priority : Text)
      → Silent (prepare settings services policy r reason email priority)
  unfolding prepare
  Silent-prepare policy r reason email priority =
      search (silent_rules, quiet, Silent-open_ticket, Silent-summarize, Silent-store_package) depth
        60

  pub Silent-initiate_handoff :
      (policy : EscalationPolicy) (org_id session_id : ℕ) (trigger : HandoffTrigger) (reason : Text)
      (score : Option Float) (email : Option Text) (priority : Text)
      → Silent (
          initiate_handoff settings services policy org_id session_id trigger reason score email
            priority)
  unfolding initiate_handoff Handoffs.get_by_session
  Silent-initiate_handoff policy org_id session_id trigger reason score email priority = record {
    at = λ w. elim (Option-cases (find (Handoffs.in_session session_id org_id) w.handoffs)) [
      | inr (r, found) ↦ ground (arith, found)
      | inl absent ↦
          let starts : after initiate w ≡ after creating w = ground (arith, absent) in
          ap (λ w. w.messages) starts ∙ created.at w
    ];
  }
    where
      initiate : Exec HandoffPackage
      initiate =
          initiate_handoff settings services policy org_id session_id trigger reason score email
            priority

      goes_on : HandoffRecord × Bool → Exec HandoffPackage
      goes_on made =
          if made.1
          then prepare settings services policy made.0 reason email priority
          else pure (to_package made.0 policy none)

      creating : Exec HandoffPackage
      creating =
          Handoffs.create_handoff org_id session_id trigger reason score
            (field "trigger" (text (trigger_value trigger)) (field "reason" (text reason) end))
          >>= goes_on

      created : Silent creating
      created =
          Keeps-bind (λ w. w.messages) _ goes_on
            (Silent-create_handoff org_id session_id trigger reason score _)
            λ made.
              Keeps-if (λ w. w.messages) made.1 (Silent-prepare policy made.0 reason email priority)
                (Keeps-pure (λ w. w.messages) (to_package made.0 policy none))
