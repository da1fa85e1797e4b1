-- ===== src/VoiceGateway/Speaking/Invariant.antt =====
-- What every step of the speech keeps holds at its end.
use vox_forge.Common.{
  ◌≡◌, Text, Bool, true, false, Option, none, some, List, [], ◌∷◌, is_empty, arith, Bool-cases, inl,
  inr,
}
use vox_forge.VoiceGateway.Sentences.{Scan, index_error, scanned, add, flush}
use vox_forge.VoiceGateway.Audio.{AudioChunk, Stream}
use vox_forge.VoiceGateway.Speaking.{
  Speech, Ending, goes_on, breaks, raises, is_set, look, interrupted, heard, told, play, say,
  say_rest, speak_from, after_say, after_add,
}

-- A property of the locals that the steps keep: audio and text go out only after a look that finds the
-- flag clear, and the interrupt is noted only after one that finds it set.
pub record Kept (P : Speech → Type 0) : Type 0 where
  pub hears : (c : AudioChunk) (s : Speech) → is_set s.looks ≡ false → P s → P (heard c (look s))
  pub tells : (t : Text) (s : Speech) → is_set s.looks ≡ false → P s → P (told t (look s))
  pub goes : (s : Speech) → is_set s.looks ≡ false → P s → P (look s)
  pub stops : (s : Speech) → is_set s.looks ≡ true → P s → P (interrupted s)

module _ (P : Speech → Type 0) (kept : Kept P) where
  play-keeps :
      (chunks : List AudioChunk) (failed : Bool) (s : Speech) → P s → P (play chunks failed s).1
  unfolding play
  play-keeps [] failed s h = h
  play-keeps (c ∷ chunks) failed s h = elim (Bool-cases (is_set s.looks)) [
    | inl e ↦ rw e (kept.stops s e h)
    | inr e ↦ rw e (play-keeps chunks failed (heard c (look s)) (kept.hears c s e h))
  ]

  module _ (synthesize : Text → Stream) where
    say-keeps : (sentence : Text) (s : Speech) → P s → P (say synthesize sentence s).1
    unfolding say
    say-keeps sentence s h = elim (Bool-cases (is_set s.looks)) [
      | inl e ↦ rw e (kept.stops s e h)
      | inr e ↦
          let stream = synthesize sentence in
          rw e (play-keeps stream.chunks stream.failed (look s) (kept.goes s e h))
    ]

    say_rest-keeps : (buffer : Text) (s : Speech) → P s → P (say_rest synthesize buffer s).1
    unfolding say_rest
    say_rest-keeps buffer s h = at (flush buffer)
      where
        at :
            (o : Option Text)
            → P
                (elim o as (λ _. Ending × Speech) [
                  | none ↦ (goes_on, s)
                  | some sentence ↦ say synthesize sentence s
                ]).1
        at none = h
        at (some sentence) = say-keeps sentence s h

    after_say-keeps :
        (later : Speech → Ending × Speech)
        → ((s : Speech) → P s → P (later s).1)
        → (e : Ending) (s : Speech) → P s
        → P (after_say synthesize later (e, s)).1
    after_say-keeps later k goes_on s h = k s h
    after_say-keeps later k breaks s h = h
    after_say-keeps later k raises s h = h

    after_add-keeps :
        (later : Text → Speech → Ending × Speech)
        → ((rest : Text) (s : Speech) → P s → P (later rest s).1)
        → (r : Scan) (s : Speech) → P s
        → P (after_add synthesize later r s).1
    after_add-keeps later k index_error s h = h
    after_add-keeps later k (scanned none rest) s h = k rest s h
    after_add-keeps later k (scanned (some sentence) rest) s h =
        let said = say synthesize sentence s in
        after_say-keeps (later rest) (k rest) said.0 said.1 (say-keeps sentence s h)

    pub speak_from-keeps :
        (events : List Text) (failed : Bool) (buffer : Text) (s : Speech)
        → P s
        → P (speak_from synthesize events failed buffer s).1
    unfolding speak_from
    speak_from-keeps [] failed buffer s h = ground (arith, say_rest-keeps buffer s h)
    speak_from-keeps (text ∷ events) failed buffer s h = elim (Bool-cases (is_set s.looks)) [
      | inl e ↦ rw e (say_rest-keeps buffer (interrupted s) (kept.stops s e h))
      | inr e ↦ rw e (elim (Bool-cases (is_empty text)) [
        | inl b ↦ rw b (speak_from-keeps events failed buffer (look s) (kept.goes s e h))
        | inr b ↦ rw b (
            after_add-keeps (speak_from synthesize events failed)
              (λ rest s' h'. speak_from-keeps events failed rest s' h') (add buffer text)
              (told text (look s)) (kept.tells text s e h))
      ])
    ]
