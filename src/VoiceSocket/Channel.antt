-- ===== src/VoiceSocket/Channel.antt =====
-- api/ws/voice.py: the audio queue, the messages and the local variables of `voice_websocket`.
use vox_forge.Common.{
  ℕ, Text, Bool, true, false, not, Option, none, some, List, [], ◌∷◌, ◌++◌, ltb, length, take, drop,
  if◌then◌else◌, ◌||◌, ◌&&◌, is_some,
}
use vox_forge.Domain.Json.{Values, Fields, text, no_values, one_more}
use vox_forge.Domain.Session.{VoiceSession}
use vox_forge.SessionManager.{TurnMetrics}
use vox_forge.VoiceGateway.Listening.{TranscriptEvent}
use vox_forge.Store.World.{World}
use vox_forge.Store.Exec.{Exec, Result, ok, err, session_not_found}
use vox_forge.Auth.Scopes.{Principal}

-- `asyncio.Queue[bytes | None]`, the next element first; `none` is the end of the audio.
abbrev pub AudioQueue : Type 0
AudioQueue = List (Option Text)

abbrev pub max_frames : ℕ
max_frames = 256

-- `_enqueue_audio_frame`; the Boolean says whether a frame was dropped.
unfoldable pub enqueue_audio_frame : ℕ → Text → AudioQueue → Bool × AudioQueue
enqueue_audio_frame maxsize frame queue =
    if ltb (length queue) maxsize
    then (false, queue ++ some frame ∷ [])
    else if ltb (length (drop 1 queue)) maxsize
    then (true, drop 1 queue ++ some frame ∷ [])
    else (true, drop 1 queue)

-- `_signal_audio_end`
abbrev pub signal_audio_end : AudioQueue → AudioQueue
signal_audio_end queue = none ∷ []

-- What is sent on the socket: the answers, and what the callbacks of the pipeline send.
pub data Reply : Type 0 where
  denied : Text → Text → Reply
  invalid_json session_missing internal_error interrupted pong : Reply
  started ended : ℕ → Reply
  on_transcript : TranscriptEvent → Reply
  on_token on_audio : Text → Reply
  on_metrics : TurnMetrics → Reply
  on_error : Text → Text → Reply
  on_agent_step : Text → Text → Fields → Reply

-- A task of a call: the session that it serves, and whether it has been cancelled.
pub record Task : Type 0 where
  pub session : ℕ
  pub cancelled : Bool

abbrev pub new_task : ℕ → Option Task
new_task id = some (record { session = id; cancelled = false })

abbrev pub cancel : Option Task → Option Task
cancel none = none
cancel (some t) = some (record t { cancelled = true })

-- The local variables of `voice_websocket`, what has been sent on the socket, and what the listening
-- tasks have taken from the queue.
pub record Connection : Type 0 where
  pub session_id : Option ℕ
  pub audio_queue : AudioQueue
  pub audio_overflow_logged : Bool
  pub listening_task : Option Task
  pub heartbeat_task : Option Task
  pub sent : List Reply
  pub taken : AudioQueue

abbrev pub new_connection : Connection
new_connection = record {
  session_id = none;
  audio_queue = [];
  audio_overflow_logged = false;
  listening_task = none;
  heartbeat_task = none;
  sent = [];
  taken = [];
}

-- `msg.get("session_id")`: absent, not a UUID, or one.
pub data Resume : Type 0 where
  afresh malformed : Resume
  resumes : ℕ → Resume

pub record StartMessage : Type 0 where
  pub config : Fields
  pub resume : Resume
  pub last_sequence : ℕ
  pub token : Option Text
  pub api_key : Option Text

pub data Control : Type 0 where
  broken not_object unknown interrupts ends ping : Control
  start : StartMessage → Control

pub data Admission : Type 0 where
  refused : Text → Text → Admission
  admitted : Principal → Admission

pub record Door : Type 0 where
  pub admit : StartMessage → Exec Admission
  pub bootstrap : ℕ → ℕ → Exec Unit

-- What a control message does: the local variables that it leaves, and the answer's `session_id`,
-- `none` where the dictionary has no such key.
pub record Handled : Type 0 where
  pub connection : Connection
  pub answer : Option (Option ℕ)

abbrev pub send : Reply → Connection → Connection
send reply c = record c { sent = c.sent ++ reply ∷ [] }

abbrev pub unanswered : Connection → Handled
unanswered c = record { connection = c; answer = none }

unfoldable pub texts : List Text → Values
texts [] = no_values
texts (t ∷ ts) = one_more (text t) (texts ts)

-- `except SessionNotFoundError`
abbrev pub found_or_none : Result VoiceSession → Result (Option VoiceSession)
found_or_none (ok session) = ok (some session)
found_or_none (err (session_not_found id)) = ok none
found_or_none (err e) = err e

abbrev pub unless_missing : Exec VoiceSession → Exec (Option VoiceSession)
unless_missing m w = (found_or_none (m w).0, (m w).1)

-- A coroutine that leaves the local variables alone if it raises, as `fails` says.
pub data Outcome : Type 0 where
  continues : Handled → Outcome
  fails : Connection → Outcome

abbrev pub attempt : {A : Type 0} → Exec A → Connection → (A → Handled) → World → Outcome × World
attempt m c k w =
    let (r, w') = m w in (elim r as (λ _. Outcome) [ ok a ↦ continues (k a) | err e ↦ fails c ], w')

abbrev pub next : Handled → World → Outcome × World
next h w = (continues h, w)

-- The answer to a start: the reply and, if there is one, the session.
abbrev pub Opened : Type 0
Opened = Reply × Option ℕ

abbrev pub after_start : Connection → Opened → Handled
after_start c (reply, none) = unanswered (send reply c)
after_start c (reply, some id) = record {
  connection = send reply (record c { listening_task = new_task id; heartbeat_task = new_task id });
  answer = some (some id);
}

-- `session_id` after a control message: `result.get("session_id", session_id)`, then the test of
-- `result.get("session_id")`.
abbrev pub session_after : Option ℕ → Option (Option ℕ) → Option ℕ
session_after old answer =
    let session_id = elim answer as (λ _. Option ℕ) [ none ↦ old | some id ↦ id ] in
    let given = elim answer as (λ _. Option ℕ) [ none ↦ none | some id ↦ id ] in
    if not (is_some given) && is_some session_id then none else session_id

-- What reaches a connection: messages, and between them what its tasks do. The listening task takes
-- elements from the queue and sends by the callbacks; both tasks work on the stores.
pub data Event : Type 0 where
  control : Control → Event
  audio : Text → Event
  takes : Event
  works : (World → World) → Event
  calls_back : Reply → Event

abbrev pub with_frame : Connection → Text → Connection
with_frame c frame = record c {
  audio_queue = (enqueue_audio_frame max_frames frame c.audio_queue).1;
  audio_overflow_logged =
      c.audio_overflow_logged || (enqueue_audio_frame max_frames frame c.audio_queue).0;
}

abbrev pub after_control : Handled → Connection
after_control h = record h.connection {
  session_id = session_after h.connection.session_id h.answer;
}

-- The listening task's `get` from the queue.
abbrev pub with_taken : Connection → Connection
with_taken c = record c {
  audio_queue = drop 1 c.audio_queue;
  taken = c.taken ++ take 1 c.audio_queue;
}
