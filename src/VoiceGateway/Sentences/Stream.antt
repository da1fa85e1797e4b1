-- ===== src/VoiceGateway/Sentences/Stream.antt =====
-- What a whole token stream gives to the speaker.
use mathlib.Core.List.{append_assoc, append-nil}
use vox_forge.Common.{
  ℕ, ◌≡◌, refl, ap, ◌∙◌, sym, Text, Bool, true, false, Option, none, some, List, [], ◌∷◌, ◌++◌,
  ◌==◌, any, All, all, is_space, strip, arith, ◌||◌,
}
use vox_forge.VoiceGateway.Sentences.{
  Scan, index_error, scanned, is_ending, add, flush, Spoken, speak_first, sentences_from,
  token_stream_to_sentences,
}
use vox_forge.VoiceGateway.Sentences.Add.{
  Cut, last_ending, joined, CutsAt, last_ending-CutsAt, add_cut, add-cuts,
}
use vox_forge.VoiceGateway.Sentences.Squeeze.{
  squeeze, squeeze-append, squeeze-strip, visible-strip, strip-blank, blank-squeeze,
}

abbrev pub concat : List Text → Text
concat [] = []
concat (t ∷ ts) = t ++ concat ts

abbrev spoken : Option Text → Text
spoken none = []
spoken (some s) = s

-- The visible text goes to the speaker or stays in the buffer.
abbrev Keeps : Text → Scan → Type 0
Keeps s index_error = Unit
Keeps s (scanned o rest) = squeeze (spoken o) ++ squeeze rest ≡ squeeze s

squeeze-joined :
    (k : Cut) → squeeze (joined k) ≡ squeeze (k.before ++ k.ending ∷ []) ++ squeeze k.rest
squeeze-joined k =
    rw
      (
        squeeze-append k.before (k.ending ∷ k.rest),
        squeeze-append k.before (k.ending ∷ []),
        squeeze-append (k.ending ∷ []) k.rest,
      )
      (sym (append_assoc (squeeze k.before) (squeeze (k.ending ∷ [])) (squeeze k.rest)))

add_cut-Keeps : (s : Text) (o : Option Cut) → CutsAt s o → Keeps s (add_cut s o)
unfolding add_cut
add_cut-Keeps s none h = refl
add_cut-Keeps s (some k) h =
    let sentence : Text = k.before ++ k.ending ∷ [] in
    ground
      (arith, ap squeeze h.whole, squeeze-joined k, squeeze-strip sentence, blank-squeeze sentence)

add-Keeps : (buffer token : Text) → Keeps (buffer ++ token) (add buffer token)
add-Keeps buffer token = rw (add-cuts buffer token) (
    add_cut-Keeps (buffer ++ token) (last_ending (buffer ++ token))
      (last_ending-CutsAt (buffer ++ token)))

flush-squeeze : (s : Text) → squeeze (spoken (flush s)) ≡ squeeze s
unfolding flush
flush-squeeze s = ground (arith, squeeze-strip s)

speak_first-failed :
    (o : Option Text) (later : Spoken) → (speak_first o later).failed ≡ later.failed
speak_first-failed none later = refl
speak_first-failed (some s) later = refl

concat-squeeze :
    (o : Option Text) (later : Spoken)
    → squeeze (concat (speak_first o later).sentences)
      ≡ squeeze (spoken o) ++ squeeze (concat later.sentences)
concat-squeeze none later = refl
concat-squeeze (some s) later = squeeze-append s (concat later.sentences)

-- What `sentences_from` does with the outcome of `add`.
abbrev pub next : List Text → Scan → Spoken
next tokens index_error = record { sentences = []; failed = true }
next tokens (scanned o rest) = speak_first o (sentences_from rest tokens)

sentences_from-squeeze :
    (buffer : Text) (tokens : List Text)
    → (sentences_from buffer tokens).failed ≡ false
    → squeeze (concat (sentences_from buffer tokens).sentences) ≡ squeeze (buffer ++ concat tokens)
unfolding sentences_from
sentences_from-squeeze buffer [] ends =
    concat-squeeze (flush buffer) (record { sentences = []; failed = false })
    ∙ append-nil (squeeze (spoken (flush buffer)))
    ∙ flush-squeeze buffer
    ∙ ap squeeze (sym (append-nil buffer))
sentences_from-squeeze buffer (token ∷ tokens) ends =
    at (add buffer token) (add-Keeps buffer token) (λ rest. sentences_from-squeeze rest tokens) ends
  where
    at :
        (r : Scan)
        → Keeps (buffer ++ token) r
        → ((rest : Text)
            → (sentences_from rest tokens).failed ≡ false
            → squeeze (concat (sentences_from rest tokens).sentences)
              ≡ squeeze (rest ++ concat tokens))
        → (next tokens r).failed ≡ false
        → squeeze (concat (next tokens r).sentences) ≡ squeeze (buffer ++ (token ++ concat tokens))
    at index_error k goes_on e = cc
    at (scanned o rest) k goes_on e =
        concat-squeeze o (sentences_from rest tokens)
        ∙ ap (λ t. squeeze (spoken o) ++ t)
            (goes_on rest (sym (speak_first-failed o _) ∙ e) ∙ squeeze-append rest (concat tokens))
        ∙ sym (append_assoc (squeeze (spoken o)) (squeeze rest) (squeeze (concat tokens)))
        ∙ ap (λ t. t ++ squeeze (concat tokens)) k
        ∙ sym (squeeze-append (buffer ++ token) (concat tokens))
        ∙ ap squeeze (append_assoc buffer token (concat tokens))

-- If the stream does not end with the IndexError, then the sentences that are spoken hold every
-- visible character of the tokens, in order.
token_stream-speaks :
    (tokens : List Text)
    → (token_stream_to_sentences tokens).failed ≡ false
    → squeeze (concat (token_stream_to_sentences tokens).sentences) ≡ squeeze (concat tokens)
unfolding token_stream_to_sentences
token_stream-speaks tokens ends = sentences_from-squeeze [] tokens ends

abbrev pub has_newline : Text → Bool
has_newline = any (λ c. c == 10)

pub newline-append : (s t : Text) → has_newline (s ++ t) ≡ has_newline s || has_newline t
newline-append [] t = refl
newline-append (c ∷ s) t = ground (arith, newline-append s t)

-- What the buffer needs: no IndexError, and no newline left in it.
abbrev IsFine : Scan → Type 0
IsFine index_error = ⊥
IsFine (scanned o rest) = has_newline rest ≡ false

ending-visible : (c : ℕ) → is_ending c ≡ true → (c == 10) ≡ false → is_space c ≡ false
unfolding is_ending is_space
ending-visible c h n = ground arith

add_cut-IsFine :
    (s : Text) (o : Option Cut) → CutsAt s o → has_newline s ≡ false → IsFine (add_cut s o)
unfolding add_cut
add_cut-IsFine s none h n = n
add_cut-IsFine s (some k) h n =
    let visible : (k.ending == 10) ≡ false =
      ground (arith, ap has_newline h.whole, newline-append k.before (k.ending ∷ k.rest), n) in
    ground (
      arith,
      visible-strip k.before k.ending (ending-visible k.ending h.ends visible),
      ap has_newline h.whole,
      newline-append k.before (k.ending ∷ k.rest),
    )

sentences_from-fine :
    (buffer : Text) (tokens : List Text)
    → has_newline buffer ≡ false
    → All (λ t. has_newline t ≡ false) tokens
    → (sentences_from buffer tokens).failed ≡ false
unfolding sentences_from
sentences_from-fine buffer [] n h = speak_first-failed (flush buffer) _
sentences_from-fine buffer (token ∷ tokens) n (h, hs) =
    at (add buffer token)
      (rw (add-cuts buffer token) (
        add_cut-IsFine (buffer ++ token) (last_ending (buffer ++ token))
          (last_ending-CutsAt (buffer ++ token)) (ground (arith, newline-append buffer token))))
      (λ rest f. sentences_from-fine rest tokens f hs)
  where
    at :
        (r : Scan)
        → IsFine r
        → ((rest : Text) → has_newline rest ≡ false → (sentences_from rest tokens).failed ≡ false)
        → (next tokens r).failed ≡ false
    at index_error f goes_on = absurd f
    at (scanned o rest) f goes_on = speak_first-failed o _ ∙ goes_on rest f

token_stream-fine :
    (tokens : List Text)
    → All (λ t. has_newline t ≡ false) tokens
    → (token_stream_to_sentences tokens).failed ≡ false
unfolding token_stream_to_sentences
token_stream-fine tokens h = sentences_from-fine [] tokens refl h

-- A stream whose tokens hold no newline never ends with the IndexError, and the sentences that are
-- spoken hold every visible character of the tokens, in order.
pub token_stream-completes :
    (tokens : List Text)
    → All (λ t. has_newline t ≡ false) tokens
    → ((token_stream_to_sentences tokens).failed ≡ false)
      × (squeeze (concat (token_stream_to_sentences tokens).sentences) ≡ squeeze (concat tokens))
token_stream-completes tokens h =
    (token_stream-fine tokens h, token_stream-speaks tokens (token_stream-fine tokens h))

last_ending-rest :
    (xs : Text) (e : ℕ) (ys : Text)
    → is_ending e ≡ true
    → last_ending ys ≡ none
    → last_ending (xs ++ e ∷ ys) ≡ some (record { before = xs; ending = e; rest = ys })
unfolding last_ending
last_ending-rest [] e ys h n = ground arith
last_ending-rest (x ∷ xs) e ys h n = ground (arith, last_ending-rest xs e ys h n)

all-snoc :
    (s : Text) (e : ℕ)
    → all is_space s ≡ true
    → is_space e ≡ true
    → all is_space (s ++ e ∷ []) ≡ true
all-snoc [] e h k = ground arith
all-snoc (c ∷ s) e h k = ground (arith, all-snoc s e)

-- The first token is a sentence.
add-sentence :
    (speech : Text) → add [] (speech ++ 46 ∷ []) ≡ scanned (some (strip (speech ++ 46 ∷ []))) []
unfolding add_cut is_ending is_space last_ending
add-sentence speech =
    add-cuts [] (speech ++ 46 ∷ [])
    ∙ ap (add_cut _) (last_ending-rest speech 46 [] refl refl)
    ∙ ground (arith, visible-strip speech 46 refl)

-- A blank token that ends with a newline meets the IndexError in an empty buffer.
add-blank :
    (space : ℕ) (blank : Text)
    → all is_space (space ∷ blank) ≡ true
    → add [] (space ∷ blank ++ 10 ∷ []) ≡ index_error
unfolding add_cut is_ending is_space last_ending
add-blank space blank h =
    add-cuts [] (space ∷ blank ++ 10 ∷ [])
    ∙ ap (add_cut _) (last_ending-rest (space ∷ blank) 10 [] refl refl)
    ∙ ground (arith, strip-blank (space ∷ blank ++ 10 ∷ []) (all-snoc (space ∷ blank) 10 h refl))

-- Once a sentence is complete, a token of blank text with two characters or more that ends with a
-- newline ends the stream with the IndexError: nothing after it is spoken.
pub token_stream-blank_line :
    (speech blank : Text) (space : ℕ) (later : List Text)
    → all is_space (space ∷ blank) ≡ true
    → token_stream_to_sentences ((speech ++ 46 ∷ []) ∷ (space ∷ blank ++ 10 ∷ []) ∷ later)
      ≡ record { sentences = strip (speech ++ 46 ∷ []) ∷ []; failed = true }
unfolding token_stream_to_sentences sentences_from
token_stream-blank_line speech blank space later h =
    ap (next ((space ∷ blank ++ 10 ∷ []) ∷ later)) (add-sentence speech)
    ∙ ap (λ later. speak_first (some (strip (speech ++ 46 ∷ []))) later)
        (ap (next later) (add-blank space blank h))
