-- ===== src/VoiceSocket.antt =====
-- api/ws/voice.py: the WebSocket of a call. The admission of a caller (api/ws/auth.py and the rate
-- limits) and the agent configuration are an interface. Messages are the parsed ones; the two tasks
-- of a call are known by the session that they serve, and what they do between two messages is an event.
pub mod Channel
pub mod Queue
pub mod Forgotten
mod Tests
use vox_forge.Common.{
  ℕ, ◌+◌, String, Text, Bool, true, false, not, Option, none, some, List, [], ◌∷◌, ◌++◌, ltb,
  length, drop, if◌then◌else◌, ◌||◌, ◌&&◌, is_some,
}
use vox_forge.Domain.Json.{Value, Values, Fields, insert, array, text, no_values, one_more}
use vox_forge.Domain.Session.{Message, VoiceSession, TransportType}
use vox_forge.Store.World.{World}
use vox_forge.Store.Exec.{
  Exec, after, Error, Result, ok, err, session_not_found, value_error, runtime_error, pure, raise,
  ◌>>=◌, ◌>>◌,
}
use vox_forge.Store.Redis
use vox_forge.Store.Sessions
use vox_forge.SessionManager
use vox_forge.Auth.Scopes.{Principal, effective_scopes}
use vox_forge.Agents.Service.{init_session, load_history, clear_session}
use vox_forge.VoiceGateway.Pipeline.{Pipeline, interrupt}
use vox_forge.VoiceSocket.Channel.{
  AudioQueue, max_frames, enqueue_audio_frame, signal_audio_end, Reply, Connection, new_connection,
  Resume, StartMessage, Control, Admission, Door, Handled, send, unanswered, texts, found_or_none,
  unless_missing, Outcome, attempt, next, Opened, after_start, session_after, Event, with_frame,
  with_taken, cancel, calls_back, after_control, denied, invalid_json, session_missing,
  internal_error, interrupted, pong, started, ended, afresh, malformed, resumes, broken, not_object,
  unknown, interrupts, ends, ping, start, refused, admitted, continues, fails, control, audio,
  takes, works,
}

module _ (door : Door) (p : Pipeline) where
  -- The session of a start, `none` if it is not found.
  unfoldable pub open_session : StartMessage → Principal → Exec (Option VoiceSession)
  open_session msg principal = elim msg.resume [
    | afresh ↦ (do
      session ←
          SessionManager.create_session p.settings TransportType.websocket
            (insert "caller_scopes" (array (texts (effective_scopes principal))) msg.config)
            (some principal.org_id) principal.user_id
      pure (some session))
    | malformed ↦ raise (value_error "badly formed hexadecimal UUID string")
    | resumes id ↦ unless_missing (do
      Sessions.get id (some principal.org_id)
      SessionManager.resume_session p.settings id msg.last_sequence)
  ]

  -- `if messages: response_generator.load_history(...)`
  abbrev pub load_messages : ℕ → List Message → Exec Unit
  load_messages id [] = pure tt
  load_messages id (m ∷ messages) = load_history (p.system_prompt id) id (m ∷ messages)

  unfoldable pub set_up : Principal → VoiceSession → Exec Opened
  set_up principal found = do
    session ← SessionManager.activate_session p.settings found.id
    door.bootstrap principal.org_id session.id
    init_session (p.system_prompt session.id) session.id
    messages ← Sessions.get_messages session.id 0 50
    load_messages session.id messages
    pure (started session.id, some session.id)

  unfoldable pub start_call : StartMessage → Exec Opened
  start_call msg = do
    admission ← door.admit msg
    elim admission [
      | refused code reason ↦ pure (denied code reason, none)
      | admitted principal ↦ (do
        session ← open_session msg principal
        elim session [ none ↦ pure (session_missing, none) | some found ↦ set_up principal found ])
    ]

  -- `end`: the queue and the tasks are stopped before the session manager is called.
  abbrev pub stopped : Connection → Connection
  stopped c = record c {
    audio_queue = signal_audio_end c.audio_queue;
    listening_task = cancel c.listening_task;
    heartbeat_task = cancel c.heartbeat_task;
  }

  unfoldable pub end_call : ℕ → Connection → World → Outcome × World
  end_call id c =
      attempt (do SessionManager.end_session p.settings id "normal"; clear_session id) (stopped c)
        (λ _. record { connection = send (ended id) (stopped c); answer = some none })

  unfoldable pub ping_call : Option ℕ → Exec Unit
  ping_call none = pure tt
  ping_call (some id) = Redis.record_heartbeat p.settings id

  -- `_handle_control_message`
  unfoldable pub handle_control : Control → Connection → World → Outcome × World
  handle_control broken c = next (unanswered (send invalid_json c))
  handle_control not_object c = λ w. (fails c, w)
  handle_control unknown c = next (unanswered c)
  handle_control (start msg) c = attempt (start_call msg) c (after_start c)
  handle_control interrupts c = elim c.session_id [
    | none ↦ next (unanswered c)
    | some id ↦ attempt (interrupt p id) c (λ _. unanswered (send interrupted c))
  ]
  handle_control ends c = elim c.session_id [ none ↦ next (unanswered c) | some id ↦ end_call id c ]
  handle_control ping c = attempt (ping_call c.session_id) c (λ _. unanswered (send pong c))

  -- The `finally`: the tasks and the queue end, and so does the session; what fails here is logged.
  unfoldable pub hang_up : Connection → World → Connection × World
  hang_up c w = (
    stopped c,
    elim c.session_id [
      | none ↦ w
      | some id ↦ after (SessionManager.end_session p.settings id "disconnect") w
    ],
  )

  -- After a control message: the next event, or the `except` with the `finally`.
  abbrev pub go_on :
      (Connection → World → Connection × World) → Outcome × World → Connection × World
  go_on later (continues h, w) = later (after_control h) w
  go_on later (fails c, w) = hang_up (send internal_error c) w

  -- `voice_websocket` after it has accepted; the end of the list is the disconnect.
  unfoldable pub serve : List Event → Connection → World → Connection × World
  serve [] c w = hang_up c w
  serve (takes ∷ events) c w = serve events (with_taken c) w
  serve (calls_back reply ∷ events) c w = serve events (send reply c) w
  serve (works f ∷ events) c w = serve events c (f w)
  serve (audio frame ∷ events) c w =
      serve events (if is_some c.session_id then with_frame c frame else c) w
  serve (control message ∷ events) c w = go_on (serve events) (handle_control message c w)
