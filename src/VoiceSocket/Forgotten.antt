-- ===== src/VoiceSocket/Forgotten.antt =====
-- The session of a connection after a control message, and what the disconnect then ends.
use mathlib.Core.Path.{subst}
use mathlib.Core.List.{append_assoc, append-nil}
use vox_forge.Common.{
  ℕ, ◌≡◌, refl, ap, sym, ◌∙◌, Bool, true, false, Option, none, some, List, zero, suc, take, drop,
  ◌++◌, [], ◌∷◌, arith, is_some, if◌then◌else◌, any,
}
use vox_forge.Domain.Session.{VoiceSession, is_terminal}
use vox_forge.Store.World.{World}
use vox_forge.Store.Exec.{ok, err, Result, after}
use vox_forge.SessionManager
use vox_forge.SessionManager.Lifecycle.{end_session-ends}
use vox_forge.VoiceGateway.Pipeline.{Pipeline, interrupt}
use vox_forge.VoiceSocket.Channel.{
  Connection, Control, broken, not_object, unknown, interrupts, ends, ping, start, Door, Handled,
  Outcome, continues, fails, send, pong, unanswered, invalid_json, interrupted, next, attempt,
  session_after, after_control, Event, control, audio, takes, works, calls_back, Reply, AudioQueue,
  with_frame, with_taken,
}
use vox_forge.VoiceSocket.{handle_control, end_call, stopped, hang_up, go_on, serve}

abbrev pub is_start : Control → Bool
is_start (start msg) = true
is_start _ = false

abbrev pub is_control : Event → Bool
is_control (control message) = true
is_control _ = false

-- What the tasks do to the stores in the course of the events.
unfoldable pub worked : List Event → World → World
worked [] w = w
worked (works f ∷ events) w = worked events (f w)
worked (control message ∷ events) w = worked events w
worked (audio frame ∷ events) w = worked events w
worked (takes ∷ events) w = worked events w
worked (calls_back reply ∷ events) w = worked events w

-- What the tasks send in the course of the events.
unfoldable pub called_back : List Event → List Reply
called_back [] = []
called_back (calls_back reply ∷ events) = reply ∷ called_back events
called_back (works f ∷ events) = called_back events
called_back (control message ∷ events) = called_back events
called_back (audio frame ∷ events) = called_back events
called_back (takes ∷ events) = called_back events

-- How many elements the listening task asks for in the course of the events.
unfoldable pub asked : List Event → ℕ
asked [] = 0
asked (takes ∷ events) = suc (asked events)
asked (calls_back reply ∷ events) = asked events
asked (works f ∷ events) = asked events
asked (control message ∷ events) = asked events
asked (audio frame ∷ events) = asked events

-- The end of a connection without a session: the stores are what the tasks made of them, the socket has
-- sent what the tasks sent, and the listening task has had nothing but what was queued before.
pub record Forgotten (events : List Event) (c : Connection) (w : World) (r : Connection × World)
    : Type 0 where
  pub stores : r.1 ≡ worked events w
  pub sent : r.0.sent ≡ c.sent ++ called_back events
  pub taken : r.0.taken ≡ c.taken ++ take (asked events) c.audio_queue
  pub overflow : r.0.audio_overflow_logged ≡ c.audio_overflow_logged

take-one : (n : ℕ) (q : AudioQueue) → take 1 q ++ take n (drop 1 q) ≡ take (suc n) q
take-one zero [] = refl
take-one (suc n) [] = refl
take-one n (x ∷ q) = refl

module _ (door : Door) (p : Pipeline) where
  -- A connection without a session.
  serve-Forgotten :
      (events : List Event) (c : Connection) (w : World)
      → any is_control events ≡ false
      → c.session_id ≡ none
      → Forgotten events c w (serve door p events c w)
  unfolding serve worked hang_up called_back asked
  serve-Forgotten [] c w quiet gone = record {
    stores = rw gone refl;
    sent = sym (append-nil c.sent);
    taken = sym (append-nil c.taken);
    overflow = refl;
  }
  serve-Forgotten (control message ∷ events) c w quiet gone = ground (arith, quiet)
  serve-Forgotten (takes ∷ events) c w quiet gone =
      let f = serve-Forgotten events (with_taken c) w quiet gone in
      record {
        stores = f.stores;
        sent = f.sent;
        taken =
            f.taken
            ∙ append_assoc c.taken (take 1 c.audio_queue)
                (take (asked events) (drop 1 c.audio_queue))
            ∙ ap (λ t. c.taken ++ t) (take-one (asked events) c.audio_queue);
        overflow = f.overflow;
      }
  serve-Forgotten (calls_back reply ∷ events) c w quiet gone =
      let f = serve-Forgotten events (send reply c) w quiet gone in
      record {
        stores = f.stores;
        sent = f.sent ∙ append_assoc c.sent (reply ∷ []) (called_back events);
        taken = f.taken;
        overflow = f.overflow;
      }
  serve-Forgotten (works f ∷ events) c w quiet gone =
      let g = serve-Forgotten events c (f w) quiet gone in
      record { stores = g.stores; sent = g.sent; taken = g.taken; overflow = g.overflow }
  serve-Forgotten (audio frame ∷ events) c w quiet gone =
      let f =
        subst (Forgotten events c w)
          (sym (
            ap (λ b. serve door p events (if b then with_frame c frame else c) w)
              (ap is_some gone)))
          (serve-Forgotten events c w quiet gone) in
      record { stores = f.stores; sent = f.sent; taken = f.taken; overflow = f.overflow }

  -- A connection with a session.
  serve-kept :
      (id : ℕ) (events : List Event) (c : Connection) (w : World)
      → any is_control events ≡ false
      → c.session_id ≡ some id
      → (serve door p events c w).1
        ≡ after (SessionManager.end_session p.settings id "disconnect") (worked events w)
  unfolding serve worked hang_up
  serve-kept id [] c w quiet kept = rw kept refl
  serve-kept id (control message ∷ events) c w quiet kept = ground (arith, quiet)
  serve-kept id (takes ∷ events) c w quiet kept = serve-kept id events _ w quiet kept
  serve-kept id (calls_back reply ∷ events) c w quiet kept =
      serve-kept id events (send reply c) w quiet kept
  serve-kept id (works f ∷ events) c w quiet kept = serve-kept id events c (f w) quiet kept
  serve-kept id (audio frame ∷ events) c w quiet kept =
      ap (λ b. (serve door p events (if b then with_frame c frame else c) w).1) (ap is_some kept)
      ∙ serve-kept id events (with_frame c frame) w quiet kept

  abbrev Forgets : Outcome → Type 0
  Forgets (continues h) = (after_control h).session_id ≡ none
  Forgets (fails c) = Unit

  attempt-Forgets :
      {A : Type 0} (r : Result A) (c : Connection) (k : A → Handled)
      → ((a : A) → (after_control (k a)).session_id ≡ none)
      → Forgets (elim r as (λ _. Outcome) [ ok a ↦ continues (k a) | err e ↦ fails c ])
  attempt-Forgets (ok a) c k forgets = forgets a
  attempt-Forgets (err e) c k forgets = tt

  unanswered-forgets : (c : Connection) → (after_control (unanswered c)).session_id ≡ none
  unanswered-forgets c = by_session c.session_id
    where
      by_session : (o : Option ℕ) → session_after o none ≡ none
      by_session none = refl
      by_session (some id) = refl

  handle-Forgets :
      (message : Control) (c : Connection) (w : World)
      → is_start message ≡ false
      → Forgets (handle_control door p message c w).0
  unfolding handle_control end_call
  handle-Forgets broken c w other = unanswered-forgets (send invalid_json c)
  handle-Forgets not_object c w other = tt
  handle-Forgets unknown c w other = unanswered-forgets c
  handle-Forgets interrupts c w other = by_session c.session_id
    where
      by_session :
          (o : Option ℕ)
          → Forgets
              ((elim o as (λ _. World → Outcome × World) [
                | none ↦ next (unanswered c)
                | some id ↦ attempt (interrupt p id) c (λ _. unanswered (send interrupted c))
              ])
                w).0
      by_session none = unanswered-forgets c
      by_session (some id) =
          attempt-Forgets (interrupt p id w).0 c _ (λ _. unanswered-forgets (send interrupted c))
  handle-Forgets ends c w other = by_session c.session_id
    where
      by_session :
          (o : Option ℕ)
          → Forgets
              ((elim o as (λ _. World → Outcome × World) [
                | none ↦ next (unanswered c)
                | some id ↦ end_call door p id c
              ])
                w).0
      by_session none = unanswered-forgets c
      by_session (some id) = attempt-Forgets _ (stopped door p c) _ (λ _. refl)
  handle-Forgets ping c w other = attempt-Forgets _ c _ (λ _. unanswered-forgets (send pong c))
  handle-Forgets (start msg) c w other = ground (arith, other)

  -- After a control message that succeeds and is no start, a ping or an interrupt say, and without
  -- further control messages, no later audio reaches the listening task, which goes on with what was
  -- queued before, and the disconnect ends no session: the stores change, and replies are sent, only by
  -- the tasks.
  pub handle-forgets :
      (message : Control) (events : List Event) (c : Connection) (w w' : World) (h : Handled)
      → is_start message ≡ false
      → any is_control events ≡ false
      → handle_control door p message c w ≡ (continues h, w')
      → Forgotten events h.connection w' (serve door p (control message ∷ events) c w)
  unfolding serve
  handle-forgets message events c w w' h other quiet ran =
      let f =
        subst (Forgotten events (after_control h) w')
          (sym (ap (go_on door p (serve door p events)) ran))
          (serve-Forgotten events (after_control h) w' quiet
            (subst (λ r. Forgets r.0) ran (handle-Forgets message c w other))) in
      record { stores = f.stores; sent = f.sent; taken = f.taken; overflow = f.overflow }

  -- Without control messages, the disconnect ends the session of the connection, whatever Redis does:
  -- its row, as the tasks have left it, then has a terminal status.
  pub serve-ends :
      (session : VoiceSession) (events : List Event) (c : Connection) (w : World)
      → any is_control events ≡ false
      → c.session_id ≡ some session.id
      → (worked events w).sessions session.id ≡ some session
      → (ended : VoiceSession) × ((serve door p events c w).1.sessions session.id ≡ some ended)
        × (is_terminal ended.status ≡ true)
  serve-ends session events c w quiet kept known =
      let ends = end_session-ends p.settings (worked events w) session known "disconnect" in
      (
        ends.0,
        ap (λ v. v.sessions session.id) (serve-kept session.id events c w quiet kept) ∙ ends.2,
        ends.3,
      )
