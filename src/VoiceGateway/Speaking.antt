-- ===== src/VoiceGateway/Speaking.antt =====
-- modules/voice_gateway/application/pipeline.py: the part of `_process_turn` that turns the events of
-- the response generator into tokens and audio (`token_iter` and the loop around it). The interrupt
-- flag is set by another task at some moment and stays set: `looks` counts the looks at it that still
-- find it clear, and is `none` if nobody interrupts.

mod Invariant
pub mod Interrupt
pub mod Uninterrupted
use vox_forge.Common.{
  ℕ, zero, suc, Text, Bool, true, false, not, Option, none, some, List, [], ◌∷◌, ◌++◌, ◌&&◌,
  is_empty, if◌then◌else◌,
}
use vox_forge.VoiceGateway.Sentences.{Scan, index_error, scanned, add, flush}
use vox_forge.VoiceGateway.Audio.{AudioChunk, Stream}

-- The locals of the turn, and what the callbacks `on_token` and `on_audio` were given.
pub record Speech : Type 0 where
  pub looks : Option ℕ
  pub assistant_text : Text
  pub was_interrupted : Bool
  pub tokens : List Text
  pub audio : List AudioChunk

abbrev pub silence : Option ℕ → Speech
silence looks = record {
  looks = looks;
  assistant_text = [];
  was_interrupted = false;
  tokens = [];
  audio = [];
}

-- How a piece of the loop ends: it goes on, it is left by a `break`, or it raises.
pub data Ending : Type 0 where
  goes_on breaks raises : Ending

-- `self._interrupt_event.is_set()`
abbrev pub is_set : Option ℕ → Bool
is_set (some zero) = true
is_set _ = false

abbrev pub looked : Option ℕ → Option ℕ
looked (some (suc n)) = some n
looked o = o

-- A look that finds the flag clear, and one that finds it set.
abbrev pub look : Speech → Speech
look s = record s { looks = looked s.looks }

abbrev pub interrupted : Speech → Speech
interrupted s = record s { was_interrupted = true }

abbrev pub heard : AudioChunk → Speech → Speech
heard c s = record s { audio = s.audio ++ c ∷ [] }

abbrev pub told : Text → Speech → Speech
told text s = record s { assistant_text = s.assistant_text ++ text; tokens = s.tokens ++ text ∷ [] }

-- The chunks of one sentence.
unfoldable pub play : List AudioChunk → Bool → Speech → Ending × Speech
play [] failed s = (if failed then raises else goes_on, s)
play (c ∷ chunks) failed s =
    let rest = play chunks failed (heard c (look s)) in
    if is_set s.looks then (breaks, interrupted s) else rest

module _ (synthesize : Text → Stream) where
  -- One sentence: a look, and its audio. A `break` from the chunks does not leave the loop over the
  -- sentences.
  unfoldable pub say : Text → Speech → Ending × Speech
  say sentence s =
      let stream = synthesize sentence in
      let (ending, s') = play stream.chunks stream.failed (look s) in
      if is_set s.looks
      then (breaks, interrupted s)
      else (elim ending [ raises ↦ raises | _ ↦ goes_on ], s')

  -- The end of the token stream: what is left in the buffer is the last sentence.
  unfoldable pub say_rest : Text → Speech → Ending × Speech
  say_rest buffer s = elim (flush buffer) [ none ↦ (goes_on, s) | some sentence ↦ say sentence s ]

  -- The loop goes on if nothing has ended it.
  abbrev pub after_say : (Speech → Ending × Speech) → Ending × Speech → Ending × Speech
  after_say later (goes_on, s) = later s
  after_say later (breaks, s) = (breaks, s)
  after_say later (raises, s) = (raises, s)

  -- What happens to the outcome of the sentence buffer.
  abbrev pub after_add : (Text → Speech → Ending × Speech) → Scan → Speech → Ending × Speech
  after_add later index_error s = (raises, s)
  after_add later (scanned none rest) s = later rest s
  after_add later (scanned (some sentence) rest) s = after_say (later rest) (say sentence s)

  -- The loop from a buffer on, over the texts of the events to come; `failed` says whether the
  -- generator raises at its end.
  unfoldable pub speak_from : List Text → Bool → Text → Speech → Ending × Speech
  speak_from [] failed buffer s = if failed then (raises, s) else say_rest buffer s
  speak_from (text ∷ events) failed buffer s =
      let later = speak_from events failed in
      let s' = told text (look s) in
      let silent = later buffer (look s) in
      if is_set s.looks
      then say_rest buffer (interrupted s)
      else if is_empty text
      then silent
      else after_add later (add buffer text) s'

  unfoldable pub speak : List Text → Bool → Option ℕ → Ending × Speech
  speak events failed looks = speak_from events failed [] (silence looks)
