-- ===== src/VoiceGateway/Speaking/Interrupt.antt =====
-- An interrupt stops the speech.
use vox_forge.Common.{
  ℕ, ◌+◌, ◌≤◌, ◌≡◌, refl, Text, Bool, true, false, Option, none, some, List, [], ◌∷◌, length,
  length-append, arith, not, ◌||◌,
}
use vox_forge.VoiceGateway.Audio.{AudioChunk, Stream}
use vox_forge.VoiceGateway.Speaking.{Speech, silence, is_set, look, heard, told, speak_from, speak}
use vox_forge.VoiceGateway.Speaking.Invariant.{Kept, speak_from-keeps}

-- What has gone out, and the looks that will still find the flag clear, are at most `n`.
abbrev IsWithin : ℕ → Speech → Type 0
IsWithin n s = elim s.looks [ none ↦ ⊥ | some left ↦ length s.tokens + length s.audio + left ≤ n ]

gone_out : (n : ℕ) (s : Speech) → IsWithin n s → length s.tokens + length s.audio ≤ n
gone_out n s h = ground arith

heard-IsWithin :
    (n : ℕ) (c : AudioChunk) (s : Speech)
    → is_set s.looks ≡ false
    → IsWithin n s
    → IsWithin n (heard c (look s))
heard-IsWithin n c s clear h = ground (arith, length-append s.audio (c ∷ []))

told-IsWithin :
    (n : ℕ) (text : Text) (s : Speech)
    → is_set s.looks ≡ false
    → IsWithin n s
    → IsWithin n (told text (look s))
told-IsWithin n text s clear h = ground (arith, length-append s.tokens (text ∷ []))

look-IsWithin : (n : ℕ) (s : Speech) → IsWithin n s → IsWithin n (look s)
look-IsWithin n s h = ground arith

IsWithin-Kept : (n : ℕ) → Kept (IsWithin n)
IsWithin-Kept n = record {
  hears = heard-IsWithin n;
  tells = told-IsWithin n;
  goes = λ s clear h. look-IsWithin n s h;
  stops = λ s set h. h;
}

-- If the interrupt comes while the flag has been found clear `n` times, then at most `n` tokens and
-- audio chunks go out together, however the turn ends.
pub speak-interrupted :
    (synthesize : Text → Stream) (events : List Text) (failed : Bool) (n : ℕ)
    → let s = (speak synthesize events failed (some n)).1 in length s.tokens + length s.audio ≤ n
unfolding speak
speak-interrupted synthesize events failed n =
    gone_out n (speak_from synthesize events failed [] (silence (some n))).1 (
      speak_from-keeps (IsWithin n) (IsWithin-Kept n) synthesize events failed [] (silence (some n))
        (omega arith))

-- A turn that was interrupted ends with its flag set.
abbrev IsNoted : Speech → Type 0
IsNoted s = (not s.was_interrupted || is_set s.looks) ≡ true

IsNoted-Kept : Kept IsNoted
IsNoted-Kept = record {
  hears = λ c s clear h. ground arith;
  tells = λ t s clear h. ground arith;
  goes = λ s clear h. ground arith;
  stops = λ s set h. ground arith;
}

pub speak-IsNoted :
    (synthesize : Text → Stream) (events : List Text) (failed : Bool) (looks : Option ℕ)
    → let s = (speak synthesize events failed looks).1 in
      s.was_interrupted ≡ true → is_set s.looks ≡ true
unfolding speak
speak-IsNoted synthesize events failed looks h =
    ground (
      arith,
      speak_from-keeps IsNoted IsNoted-Kept synthesize events failed [] (silence looks) refl,
    )
