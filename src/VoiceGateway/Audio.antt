-- ===== src/VoiceGateway/Audio.antt =====
-- infrastructure/providers/tts/cartesia.py: CartesiaTTSProvider. Bytes are numbers; the HTTP client
-- is a parameter: for a text and a voice, the status and the pieces of the body that arrive.
use mathlib.Core.List.{append_assoc, append-nil}
use mathlib.Core.Path.{subst}
use vox_forge.Common.{
  ℕ, zero, suc, ◌-◌, ◌%◌, ◌≡◌, refl, ap, ◌∙◌, sym, Text, String, Bool, true, false, not, List, [],
  ◌∷◌, ◌++◌, ◌==◌, ◌||◌, ◌≤◌, if◌then◌else◌, take, drop, length, All, length-append, length-take,
  length-drop, strip, is_empty, arith, Bool-cases, inl, inr, ◌≢◌, ◌⊎◌,
}

pub record AudioChunk : Type 0 where
  pub data_bytes : Text
  pub sample_rate : ℕ
  pub encoding : String

-- An answer of the service; the connection may break after the pieces.
pub record Answer : Type 0 where
  pub status_code : ℕ
  pub pieces : List Text
  pub broken : Bool

-- The chunks that an async generator yields, and whether a ProviderError ends it.
pub record Stream : Type 0 where
  pub chunks : List AudioChunk
  pub failed : Bool

abbrev pub chunk_of : Text → AudioChunk
chunk_of bytes = record { data_bytes = bytes; sample_rate = 24000; encoding = "pcm_s16le" }

abbrev pub emit : Text → Stream → Stream
emit bytes later =
    if is_empty bytes then later else record later { chunks = chunk_of bytes ∷ later.chunks }

-- The loop over the body with the byte left over from the pieces before, and what follows the loop.
unfoldable pub frames_from : Text → List Text → Bool → Stream
frames_from leftover [] broken =
    if broken
    then record { chunks = []; failed = true }
    else if length leftover == 1
    then record { chunks = chunk_of (leftover ++ 0 ∷ []) ∷ []; failed = false }
    else record { chunks = []; failed = false }
frames_from leftover (raw ∷ pieces) broken =
    let bytes = leftover ++ raw in
    let last = length bytes - 1 in
    let skipped = frames_from leftover pieces broken in
    let kept = frames_from (drop last bytes) pieces broken in
    let whole = frames_from [] pieces broken in
    if is_empty raw
    then skipped
    else if length bytes % 2 == 1
    then emit (take last bytes) kept
    else emit bytes whole

unfoldable pub synthesize_text : (Text → Text → Answer) → Text → Text → Stream
synthesize_text post text voice_id =
    let answer = post text voice_id in
    if not (answer.status_code == 200)
    then record { chunks = []; failed = true }
    else frames_from [] answer.pieces answer.broken

abbrev and_then : Stream → Stream → Stream
and_then s later =
    if s.failed then s else record { chunks = s.chunks ++ later.chunks; failed = later.failed }

-- The texts of the stream one after the other.
unfoldable pub synthesize_texts : (Text → Text → Answer) → Text → List Text → Stream
synthesize_texts post voice_id [] = record { chunks = []; failed = false }
synthesize_texts post voice_id (text ∷ texts) =
    let later = synthesize_texts post voice_id texts in
    if is_empty (strip text) then later else and_then (synthesize_text post text voice_id) later

unfoldable pub synthesize_stream : Text → (Text → Text → Answer) → Text → List Text → Stream
synthesize_stream api_key post voice_id texts =
    if is_empty api_key
    then record { chunks = []; failed = true }
    else synthesize_texts post voice_id texts

abbrev pub bytes_of : List AudioChunk → Text
bytes_of [] = []
bytes_of (c ∷ cs) = c.data_bytes ++ bytes_of cs

abbrev pub concat_pieces : List Text → Text
concat_pieces [] = []
concat_pieces (p ∷ ps) = p ++ concat_pieces ps

-- A chunk of whole 16-bit samples that holds something.
abbrev pub IsAligned : AudioChunk → Type 0
IsAligned c = (length c.data_bytes % 2 ≡ 0) × (is_empty c.data_bytes ≡ false)

take-drop : {A : Type 0} (n : ℕ) (xs : List A) → take n xs ++ drop n xs ≡ xs
take-drop zero xs = refl
take-drop (suc n) [] = refl
take-drop (suc n) (x ∷ xs) = ap (λ t. x ∷ t) (take-drop n xs)

emit-All :
    (bytes : Text) (later : Stream)
    → length bytes % 2 ≡ 0
    → All IsAligned later.chunks
    → All IsAligned (emit bytes later).chunks
emit-All [] later h k = k
emit-All (b ∷ bs) later h k = ((h, refl), k)

emit-bytes :
    (bytes : Text) (later : Stream)
    → bytes_of (emit bytes later).chunks ≡ bytes ++ bytes_of later.chunks
emit-bytes [] later = refl
emit-bytes (b ∷ bs) later = refl

emit-failed : (bytes : Text) (later : Stream) → (emit bytes later).failed ≡ later.failed
emit-failed [] later = refl
emit-failed (b ∷ bs) later = refl

-- How the loop cuts what it has: whole samples go out, at most one byte is left over.
record Step (leftover raw : Text) (pieces : List Text) (broken : Bool) : Type 0 where
  piece : Text
  left : Text
  whole : leftover ++ raw ≡ piece ++ left
  even : length piece % 2 ≡ 0
  short : length left ≤ 1
  same : frames_from leftover (raw ∷ pieces) broken ≡ emit piece (frames_from left pieces broken)

frames-Step :
    (leftover raw : Text) (pieces : List Text) (broken : Bool)
    → length leftover ≤ 1
    → Step leftover raw pieces broken
unfolding frames_from
frames-Step leftover [] pieces broken h = record {
  piece = [];
  left = leftover;
  whole = append-nil leftover;
  even = refl;
  short = h;
  same = refl;
}
frames-Step leftover (r ∷ raw) pieces broken h = elim (Bool-cases (length bytes % 2 == 1)) [
  | inl o ↦
      let odd : length bytes % 2 ≡ 1 = ground arith in
      record {
        piece = take last bytes;
        left = drop last bytes;
        whole = sym (take-drop last bytes);
        even = omega (arith, length-take last bytes);
        short = omega (arith, length-drop last bytes);
        same = rw o refl;
      }
  | inr o ↦
      let odd : length bytes % 2 ≢ 1 = ground arith in
      record {
        piece = bytes;
        left = [];
        whole = sym (append-nil bytes);
        even = omega arith;
        short = omega arith;
        same = rw o refl;
      }
]
  where
    bytes : Text
    bytes = leftover ++ r ∷ raw

    last : ℕ
    last = length bytes - 1

frames_from-All :
    (leftover : Text) (pieces : List Text) (broken : Bool)
    → length leftover ≤ 1
    → All IsAligned (frames_from leftover pieces broken).chunks
unfolding frames_from
frames_from-All [] [] broken h = ground arith
frames_from-All (x ∷ []) [] true h = tt
frames_from-All (x ∷ []) [] false h = ((refl, refl), tt)
frames_from-All (x ∷ y ∷ leftover) [] broken h = absurd (omega arith)
frames_from-All leftover (raw ∷ pieces) broken h =
    let s = frames-Step leftover raw pieces broken h in
    subst (λ t. All IsAligned t.chunks) (sym s.same)
      (emit-All s.piece (frames_from s.left pieces broken) s.even
        (frames_from-All s.left pieces broken s.short))

-- One zero byte behind an odd number of bytes.
abbrev pub padding : Text → Text
padding bytes = if length bytes % 2 == 1 then 0 ∷ [] else []

padding-even : (s t : Text) → length s % 2 ≡ 0 → padding (s ++ t) ≡ padding t
padding-even s t h =
    let same : length (s ++ t) % 2 ≡ length t % 2 = omega (arith, length-append s t) in rw same refl

-- What a piece of even length in front adds.
frames-step :
    (s t : Text) (later : Stream)
    → length s % 2 ≡ 0
    → bytes_of later.chunks ≡ t ++ padding t
    → bytes_of (emit s later).chunks ≡ (s ++ t) ++ padding (s ++ t)
frames-step s t later even h =
    emit-bytes s later
    ∙ ap (λ r. s ++ r) h
    ∙ sym (append_assoc s t (padding t))
    ∙ ap (λ r. (s ++ t) ++ r) (sym (padding-even s t even))

frames_from-bytes :
    (leftover : Text) (pieces : List Text)
    → length leftover ≤ 1
    → bytes_of (frames_from leftover pieces false).chunks
      ≡ (leftover ++ concat_pieces pieces) ++ padding (leftover ++ concat_pieces pieces)
unfolding frames_from
frames_from-bytes [] [] h = refl
frames_from-bytes (x ∷ []) [] h = refl
frames_from-bytes (x ∷ y ∷ leftover) [] h = absurd (omega arith)
frames_from-bytes leftover (raw ∷ pieces) h =
    let s = frames-Step leftover raw pieces false h in
    let body = concat_pieces pieces in
    let same : leftover ++ (raw ++ body) ≡ s.piece ++ (s.left ++ body) =
      sym (append_assoc leftover raw body)
      ∙ ap (λ t. t ++ body) s.whole
      ∙ append_assoc s.piece s.left body in
    ap (λ t. bytes_of t.chunks) s.same
    ∙ frames-step s.piece (s.left ++ body) (frames_from s.left pieces false) s.even
        (frames_from-bytes s.left pieces s.short)
    ∙ ap (λ t. t ++ padding t) (sym same)

frames_from-failed :
    (leftover : Text) (pieces : List Text) (broken : Bool)
    → (frames_from leftover pieces broken).failed ≡ broken
unfolding frames_from
frames_from-failed leftover [] broken = ground arith
frames_from-failed leftover (raw ∷ pieces) broken = ground (
  arith,
  frames_from-failed leftover pieces broken,
  frames_from-failed [] pieces broken,
  frames_from-failed (drop (length (leftover ++ raw) - 1) (leftover ++ raw)) pieces broken,
)

frames_from-body :
    (pieces : List Text) (broken : Bool)
    → let s = frames_from [] pieces broken in
      (s.failed ≡ true)
      ⊎ (bytes_of s.chunks ≡ concat_pieces pieces ++ padding (concat_pieces pieces))
frames_from-body pieces true = inl (frames_from-failed [] pieces true)
frames_from-body pieces false = inr (frames_from-bytes [] pieces (omega arith))

-- The synthesis of a text raises exactly if the service does not answer with 200 or the connection
-- breaks. Whatever pieces the body comes in, each chunk holds whole 16-bit samples; and if it does not
-- raise, the chunks in order are the body, with one zero byte behind it if its length is odd.
pub synthesize_text-frames :
    (post : Text → Text → Answer) (text voice_id : Text)
    → let answer = post text voice_id in
      let s = synthesize_text post text voice_id in
      let body = concat_pieces answer.pieces in
      (s.failed ≡ not (answer.status_code == 200) || answer.broken)
      × All IsAligned s.chunks
      × ((s.failed ≡ true) ⊎ (bytes_of s.chunks ≡ body ++ padding body))
unfolding synthesize_text
synthesize_text-frames post text voice_id = by_answer (post text voice_id)
  where
    by_answer :
        (answer : Answer)
        → let s =
            if not (answer.status_code == 200)
            then record { chunks = []; failed = true }
            else frames_from [] answer.pieces answer.broken in
          let body = concat_pieces answer.pieces in
          (s.failed ≡ not (answer.status_code == 200) || answer.broken)
          × All IsAligned s.chunks
          × ((s.failed ≡ true) ⊎ (bytes_of s.chunks ≡ body ++ padding body))
    by_answer answer = elim (Bool-cases (answer.status_code == 200)) [
      | inr e ↦ rw e (refl, tt, inl refl)
      | inl e ↦ rw e (
        frames_from-failed [] answer.pieces answer.broken,
        frames_from-All [] answer.pieces answer.broken (omega arith),
        frames_from-body answer.pieces answer.broken,
      )
    ]
