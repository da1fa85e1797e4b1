-- ===== src/VoiceGateway/Sentences.antt =====
-- infrastructure/providers/tts/cartesia.py: SentenceBuffer and token_stream_to_sentences.
pub mod Add
pub mod Squeeze
pub mod Stream
use vox_forge.Common.{
  ℕ, zero, suc, ◌+◌, Text, Bool, true, false, Option, none, some, List, [], ◌∷◌, ◌++◌, ◌==◌, ◌||◌,
  if◌then◌else◌, take, drop, length, get_elem?, strip, is_empty,
}

-- `SENTENCE_ENDINGS`
unfoldable pub is_ending : ℕ → Bool
is_ending c = c == 46 || c == 33 || c == 63 || c == 59 || c == 10

-- How a call of `add` ends: with the sentence that it returns and the buffer that it leaves, or with
-- the IndexError of `self._buffer[i]`.
pub data Scan : Type 0 where
  index_error : Scan
  scanned : Option Text → Text → Scan

-- The loop of `add`, which has the indices below the given one still to look at. A prefix that is
-- blank is cut off, and the loop goes on over the shorter buffer with the index that it had.
unfoldable pub scan_from : ℕ → Text → Scan
scan_from zero buffer = scanned none buffer
scan_from (suc i) buffer =
    let sentence = strip (take (suc i) buffer) in
    let cut = scan_from i (drop (suc i) buffer) in
    let lower = scan_from i buffer in
    elim (get_elem? buffer i) [
      | none ↦ index_error
      | some c ↦
          if is_ending c
          then if is_empty sentence then cut else scanned (some sentence) (drop (suc i) buffer)
          else lower
    ]

unfoldable pub add : Text → Text → Scan
add buffer token = scan_from (length (buffer ++ token)) (buffer ++ token)

unfoldable pub flush : Text → Option Text
flush buffer = let remaining = strip buffer in if is_empty remaining then none else some remaining

-- What a token stream has given to the speaker, and whether it ended with the IndexError.
pub record Spoken : Type 0 where
  pub sentences : List Text
  pub failed : Bool

abbrev pub speak_first : Option Text → Spoken → Spoken
speak_first none later = later
speak_first (some s) later = record later { sentences = s ∷ later.sentences }

-- The stream from a buffer on.
unfoldable pub sentences_from : Text → List Text → Spoken
sentences_from buffer [] = speak_first (flush buffer) (record { sentences = []; failed = false })
sentences_from buffer (token ∷ tokens) = elim (add buffer token) [
  | index_error ↦ record { sentences = []; failed = true }
  | scanned sentence rest ↦ speak_first sentence (sentences_from rest tokens)
]

unfoldable pub token_stream_to_sentences : List Text → Spoken
token_stream_to_sentences tokens = sentences_from [] tokens
