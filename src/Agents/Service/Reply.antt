-- ===== src/Agents/Service/Reply.antt =====
-- A reply of the agents is spoken in whole.
use mathlib.Core.Path.{subst}
use mathlib.Core.List.{append_assoc, append-nil}
use vox_forge.Common.{
  ℕ, none, ◌≡◌, refl, sym, ap, ◌∙◌, Text, Bool, true, false, not, List, [], ◌∷◌, ◌++◌, ◌==◌, map,
  All, is_empty, is_space, if◌then◌else◌, arith, Bool-cases, inl, inr, ◌⊎◌,
}
use vox_forge.Agents.Service.{split_from, reply_events}
use vox_forge.VoiceGateway.Sentences.{token_stream_to_sentences}
use vox_forge.VoiceGateway.Sentences.Squeeze.{squeeze, squeeze-append}
use vox_forge.VoiceGateway.Sentences.Stream.{
  concat, has_newline, newline-append, token_stream-completes,
}
use vox_forge.VoiceGateway.Speaking.Uninterrupted.{texts_of, chunks_of, speak-uninterrupted}
use vox_forge.VoiceGateway.Speaking.{speak, goes_on, raises}
use vox_forge.VoiceGateway.Audio.{Stream}

abbrev spaced : List Text → List Text
spaced = map (λ word. word ++ 32 ∷ [])

squeeze-spaced : (word : Text) → squeeze (word ++ 32 ∷ []) ≡ squeeze word
unfolding is_space
squeeze-spaced word = squeeze-append word (32 ∷ []) ∙ append-nil (squeeze word)

-- The first word in front of the others.
squeeze-first :
    (word : Text) (words : List Text)
    → squeeze (concat (spaced (word ∷ words))) ≡ squeeze word ++ squeeze (concat (spaced words))
squeeze-first word words =
    squeeze-append (word ++ 32 ∷ []) (concat (spaced words))
    ∙ ap (λ t. t ++ squeeze (concat (spaced words))) (squeeze-spaced word)

-- A word that has ended, if it has begun.
abbrev ended_word : Text → List Text → List Text
ended_word word words = if is_empty word then words else word ∷ words

ended :
    (word : Text) (words : List Text)
    → squeeze (concat (spaced (ended_word word words)))
      ≡ squeeze word ++ squeeze (concat (spaced words))
ended [] words = refl
ended (d ∷ word) words = squeeze-first (d ∷ word) words

ended-lines :
    (word : Text) (words : List Text)
    → has_newline word ≡ false
    → All (λ t. has_newline t ≡ false) (spaced words)
    → All (λ t. has_newline t ≡ false) (spaced (ended_word word words))
ended-lines [] words h k = k
ended-lines (d ∷ word) words h k = (ground (arith, newline-append (d ∷ word) (32 ∷ [])), k)

not_newline : (c : ℕ) → is_space c ≡ false → (c == 10) ≡ false
unfolding is_space
not_newline c h = ground arith

split_from-squeeze :
    (word s : Text) → squeeze (concat (spaced (split_from word s))) ≡ squeeze word ++ squeeze s
unfolding split_from
split_from-squeeze [] [] = refl
split_from-squeeze (d ∷ word) [] = squeeze-first (d ∷ word) []
split_from-squeeze word (c ∷ s) = elim (Bool-cases (is_space c)) [
  | inl e ↦
      rw e (ended word (split_from [] s) ∙ ap (λ t. squeeze word ++ t) (split_from-squeeze [] s))
  | inr e ↦ rw e (
      split_from-squeeze (word ++ c ∷ []) s
      ∙ ap (λ t. t ++ squeeze s) (squeeze-append word (c ∷ []))
      ∙ rw e (append_assoc (squeeze word) (c ∷ []) (squeeze s)))
]

split_from-lines :
    (word s : Text)
    → has_newline word ≡ false
    → All (λ t. has_newline t ≡ false) (spaced (split_from word s))
unfolding split_from
split_from-lines [] [] h = tt
split_from-lines (d ∷ word) [] h = (ground (arith, newline-append (d ∷ word) (32 ∷ [])), tt)
split_from-lines word (c ∷ s) h = elim (Bool-cases (is_space c)) [
  | inl e ↦ rw e (ended-lines word (split_from [] s) h (split_from-lines [] s refl))
  | inr e ↦ rw e (
      split_from-lines (word ++ c ∷ []) s
        (ground (arith, newline-append word (c ∷ []), not_newline c e)))
]

texts_of-spaced : (words : List Text) → texts_of (spaced words ++ [] ∷ []) ≡ spaced words
texts_of-spaced [] = refl
texts_of-spaced ([] ∷ words) = ap (λ t. (32 ∷ []) ∷ t) (texts_of-spaced words)
texts_of-spaced ((c ∷ w) ∷ words) = ap (λ t. (c ∷ w ++ 32 ∷ []) ∷ t) (texts_of-spaced words)

concat-closed : (texts : List Text) → concat (texts ++ [] ∷ []) ≡ concat texts
concat-closed [] = refl
concat-closed (t ∷ texts) = ap (λ r. t ++ r) (concat-closed texts)

reply_events-words :
    (final draft : Text)
    → is_empty final ≡ false
    → reply_events final draft ≡ spaced (split_from [] final) ++ [] ∷ []
unfolding reply_events
reply_events-words [] draft h = cc
reply_events-words (c ∷ final) draft h = refl

kept : {A : Type 0} (failed : Bool) (x y : A) → failed ≡ false → (failed ≡ true) ⊎ (x ≡ y) → x ≡ y
kept failed x y e (inl f) = cc
kept failed x y e (inr h) = h

-- The words of a text, each of them followed by one space; the flag says whether a word has begun.
unfoldable pub spaced_out : Bool → Text → Text
spaced_out begun [] = if begun then 32 ∷ [] else []
spaced_out begun (c ∷ s) =
    let between = spaced_out false s in
    let within = spaced_out true s in
    if is_space c then if begun then 32 ∷ between else between else c ∷ within

split_from-spaced :
    (word s : Text)
    → concat (spaced (split_from word s)) ≡ word ++ spaced_out (not (is_empty word)) s
unfolding split_from spaced_out
split_from-spaced [] [] = refl
split_from-spaced (d ∷ word) [] = append-nil ((d ∷ word) ++ 32 ∷ [])
split_from-spaced [] (c ∷ s) = elim (Bool-cases (is_space c)) [
  | inl e ↦ rw e (split_from-spaced [] s)
  | inr e ↦ rw e (split_from-spaced (c ∷ []) s)
]
split_from-spaced (d ∷ word) (c ∷ s) = elim (Bool-cases (is_space c)) [
  | inl e ↦ rw e (
      ap (λ t. (d ∷ word ++ 32 ∷ []) ++ t) (split_from-spaced [] s)
      ∙ append_assoc (d ∷ word) (32 ∷ []) (spaced_out false s))
  | inr e ↦ rw e (
      split_from-spaced (d ∷ word ++ c ∷ []) s
      ∙ append_assoc (d ∷ word) (c ∷ []) (spaced_out true s))
]

-- A reply of the agents that is not empty and that nobody interrupts is spoken, as long as the synthesis
-- works: the turn does not fail, its audio is that of the sentences of the stream, these hold every
-- visible character of the reply in order, and the text that the turn keeps is the reply's words, each
-- followed by one space.
pub reply-spoken :
    (synthesize : Text → Stream) (works : (t : Text) → (synthesize t).failed ≡ false)
    (final draft : Text)
    → is_empty final ≡ false
    → let events = reply_events final draft in
      let sentences = (token_stream_to_sentences (texts_of events)).sentences in
      let (ending, s) = speak synthesize events false none in
      (ending ≡ goes_on)
      × (s.audio ≡ chunks_of synthesize works sentences)
      × (squeeze (concat sentences) ≡ squeeze final)
      × (s.assistant_text ≡ spaced_out false final)
reply-spoken synthesize works final draft h =
    let words = split_from [] final in
    let events = reply_events final draft in
    let shape = reply_events-words final draft h in
    let texts : texts_of events ≡ spaced words = ap texts_of shape ∙ texts_of-spaced words in
    let visible = split_from-squeeze [] final in
    let (sound, clear, ending, whole) = speak-uninterrupted synthesize works events in
    let (completes, speaks) =
      token_stream-completes (texts_of events)
        (subst (All (λ t. has_newline t ≡ false)) (sym texts) (split_from-lines [] final refl)) in
    (
      ending ∙ ap (λ f. if f then raises else goes_on) completes,
      sound,
      speaks ∙ ap (λ t. squeeze (concat t)) texts ∙ visible,
      kept _ _ _ completes whole
          ∙ ap concat shape
          ∙ concat-closed (spaced words)
          ∙ split_from-spaced [] final,
    )
