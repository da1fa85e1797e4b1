-- ===== src/VoiceGateway/Speaking/Uninterrupted.antt =====
-- A turn that nobody interrupts speaks what the reference pipeline speaks: the sentences of the token
-- stream, one after the other.
use mathlib.Core.List.{append_assoc, append-nil}
use vox_forge.Common.{
  ◌≡◌, refl, sym, ap, ◌∙◌, Text, Bool, true, false, not, Option, none, some, List, [], ◌∷◌, ◌++◌,
  is_empty, filter_by, inl, inr, ◌⊎◌, if◌then◌else◌,
}
use vox_forge.VoiceGateway.Sentences.{
  Scan, index_error, scanned, add, flush, Spoken, speak_first, sentences_from,
  token_stream_to_sentences,
}
use vox_forge.VoiceGateway.Sentences.Stream.{concat, next}
use vox_forge.VoiceGateway.Audio.{AudioChunk, Stream}
use vox_forge.VoiceGateway.Speaking.{
  Speech, Ending, goes_on, raises, play, say, say_rest, after_add, speak_from, speak,
}

-- The texts that the generator's events carry, without the empty ones.
abbrev pub texts_of : List Text → List Text
texts_of = filter_by (λ t. not (is_empty t))

abbrev free : Text → List Text → List AudioChunk → Speech
free text tokens audio = record {
  looks = none;
  assistant_text = text;
  was_interrupted = false;
  tokens = tokens;
  audio = audio;
}

play-free :
    (chunks : List AudioChunk) (text : Text) (tokens : List Text) (audio : List AudioChunk)
    → play chunks false (free text tokens audio) ≡ (goes_on, free text tokens (audio ++ chunks))
unfolding play
play-free [] text tokens audio = ap (λ a. (goes_on, free text tokens a)) (sym (append-nil audio))
play-free (c ∷ chunks) text tokens audio =
    play-free chunks text tokens (audio ++ c ∷ [])
    ∙ ap (λ a. (goes_on, free text tokens a)) (append_assoc audio (c ∷ []) chunks)

module _ (synthesize : Text → Stream) (works : (t : Text) → (synthesize t).failed ≡ false) where
  -- The audio of the sentences.
  abbrev pub chunks_of : List Text → List AudioChunk
  chunks_of [] = []
  chunks_of (t ∷ ts) = (synthesize t).chunks ++ chunks_of ts

  say-free :
      (sentence text : Text) (tokens : List Text) (audio : List AudioChunk)
      → say synthesize sentence (free text tokens audio)
        ≡ (goes_on, free text tokens (audio ++ (synthesize sentence).chunks))
  unfolding say
  say-free sentence text tokens audio =
      rw (works sentence, play-free (synthesize sentence).chunks text tokens audio) refl

  -- What a run from a state on has to give: the audio of the sentences, the IndexError if the
  -- sentence buffer meets it, and all the text if it does not.
  record Speaks (spoken : Spoken) (events : List Text) (text : Text) (audio : List AudioChunk)
      (r : Ending × Speech) : Type 0 where
    sound : r.1.audio ≡ audio ++ chunks_of spoken.sentences
    clear : r.1.was_interrupted ≡ false
    ending : r.0 ≡ (if spoken.failed then raises else goes_on)
    whole : (spoken.failed ≡ true) ⊎ (r.1.assistant_text ≡ text ++ concat events)

  appended :
      (event text : Text) (events : List Text) (f : Bool) (t : Text)
      → (f ≡ true) ⊎ (t ≡ (text ++ event) ++ concat events)
      → (f ≡ true) ⊎ (t ≡ text ++ (event ++ concat events))
  appended event text events failed t (inl f) = inl f
  appended event text events failed t (inr e) = inr (e ∙ append_assoc text event (concat events))

  -- The runs that the induction gives for the events to come.
  abbrev Later : List Text → Type 0
  Later events =
      (buffer text : Text) (tokens : List Text) (audio : List AudioChunk)
      → Speaks (sentences_from buffer (texts_of events)) events text audio
          (speak_from synthesize events false buffer (free text tokens audio))

  after_add-Speaks :
      (event : Text) (events : List Text)
      → Later events
      → (r : Scan) (text : Text) (tokens : List Text) (audio : List AudioChunk)
      → Speaks (next (texts_of events) r) (event ∷ events) text audio (
          after_add synthesize
            (speak_from synthesize events false)
            r
            (free (text ++ event) tokens audio))
  after_add-Speaks event events later index_error text tokens audio = record {
    sound = sym (append-nil audio);
    clear = refl;
    ending = refl;
    whole = inl refl;
  }
  after_add-Speaks event events later (scanned none rest) text tokens audio =
      let k = later rest (text ++ event) tokens audio in
      record {
        sound = k.sound;
        clear = k.clear;
        ending = k.ending;
        whole = appended event text events _ _ k.whole;
      }
  after_add-Speaks event events later (scanned (some sentence) rest) text tokens audio =
      rw (say-free sentence (text ++ event) tokens audio) (
        let chunks = (synthesize sentence).chunks in
        let k = later rest (text ++ event) tokens (audio ++ chunks) in
        record {
          sound = k.sound ∙ append_assoc audio chunks (chunks_of _);
          clear = k.clear;
          ending = k.ending;
          whole = appended event text events _ _ k.whole;
        })

  say_rest-Speaks :
      (o : Option Text) (text : Text) (tokens : List Text) (audio : List AudioChunk)
      → Speaks
          (speak_first o (record { sentences = []; failed = false }))
          []
          text
          audio
          (elim o as (λ _. Ending × Speech) [
            | none ↦ (goes_on, free text tokens audio)
            | some sentence ↦ say synthesize sentence (free text tokens audio)
          ])
  say_rest-Speaks none text tokens audio = record {
    sound = sym (append-nil audio);
    clear = refl;
    ending = refl;
    whole = inr (sym (append-nil text));
  }
  say_rest-Speaks (some sentence) text tokens audio =
      rw (say-free sentence text tokens audio) (record {
        sound = ap (λ t. audio ++ t) (sym (append-nil (synthesize sentence).chunks));
        clear = refl;
        ending = refl;
        whole = inr (sym (append-nil text));
      })

  speak_from-Speaks : (events : List Text) → Later events
  unfolding speak_from sentences_from say_rest
  speak_from-Speaks [] buffer text tokens audio = say_rest-Speaks (flush buffer) text tokens audio
  speak_from-Speaks ([] ∷ events) buffer text tokens audio =
      let k = speak_from-Speaks events buffer text tokens audio in
      record { sound = k.sound; clear = k.clear; ending = k.ending; whole = k.whole }
  speak_from-Speaks ((c ∷ event) ∷ events) buffer text tokens audio =
      after_add-Speaks (c ∷ event) events (speak_from-Speaks events) (add buffer (c ∷ event)) text
        (tokens ++ (c ∷ event) ∷ []) audio

  -- If nobody interrupts, no synthesis fails and the token generator does not raise, then the audio of
  -- a turn is that of the sentences of the token stream, in order, and nothing is marked as
  -- interrupted. The turn then fails exactly if the sentence buffer meets its IndexError, and keeps the
  -- whole text if it does not.
  pub speak-uninterrupted :
      (events : List Text)
      → let spoken = token_stream_to_sentences (texts_of events) in
        let (ending, s) = speak synthesize events false none in
        (s.audio ≡ chunks_of spoken.sentences)
        × (s.was_interrupted ≡ false)
        × (ending ≡ (if spoken.failed then raises else goes_on))
        × ((spoken.failed ≡ true) ⊎ (s.assistant_text ≡ concat events))
  unfolding speak token_stream_to_sentences
  speak-uninterrupted events =
      let k = speak_from-Speaks events [] [] [] [] in (k.sound, k.clear, k.ending, k.whole)
