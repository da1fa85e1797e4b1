-- ===== src/VoiceSocket/Queue.antt =====
-- What the audio queue holds after a run of frames that nobody takes.
use vox_forge.Common.{
  ℕ, zero, suc, ◌+◌, ◌-◌, ◌≤◌, ◌≡◌, refl, ap, sym, ◌∙◌, Text, some, List, [], ◌∷◌, ◌++◌, map,
  length, drop, ltb, length-append, length-drop, arith, Bool-cases, ltb→lt, inl, inr,
}
use mathlib.Core.List.{append_assoc, append-nil}
use vox_forge.VoiceSocket.Channel.{AudioQueue, enqueue_audio_frame}

unfoldable pub enqueue_all : ℕ → List Text → AudioQueue → AudioQueue
enqueue_all maxsize [] queue = queue
enqueue_all maxsize (frame ∷ frames) queue =
    enqueue_all maxsize frames (enqueue_audio_frame maxsize frame queue).1

module _ {A : Type 0} where
  drop-append : (n : ℕ) (xs ys : List A) → n ≤ length xs → drop n xs ++ ys ≡ drop n (xs ++ ys)
  drop-append zero xs ys h = refl
  drop-append (suc n) [] ys h = ground (arith, h)
  drop-append (suc n) (x ∷ xs) ys h = drop-append n xs ys (omega arith)

  drop_none : (n : ℕ) → drop {A = A} n [] ≡ []
  drop_none zero = refl
  drop_none (suc n) = refl

  drop-drop : (m n : ℕ) (xs : List A) → drop m (drop n xs) ≡ drop (n + m) xs
  drop-drop m zero xs = ap (λ k. drop k xs) (omega arith)
  drop-drop m (suc n) (x ∷ xs) = drop-drop m n xs ∙ ap (λ k. drop k (x ∷ xs)) (the_sum)
    where
      the_sum : suc (n + m) ≡ suc n + m
      the_sum = omega arith
  drop-drop m (suc n) [] = drop_none m ∙ sym (drop_none (suc n + m))

-- The newest `n` elements.
abbrev pub newest : ℕ → AudioQueue → AudioQueue
newest n queue = drop (length queue - n) queue

enqueue-newest :
    (n : ℕ) (frame : Text) (queue : AudioQueue)
    → 1 ≤ n
    → length queue ≤ n
    → (enqueue_audio_frame n frame queue).1 ≡ newest n (queue ++ some frame ∷ [])
unfolding enqueue_audio_frame
enqueue-newest n frame queue pos fits =
    elim (Bool-cases (ltb (length queue) n))
      as (λ _. (enqueue_audio_frame n frame queue).1 ≡ newest n (queue ++ some frame ∷ [])) [
        | inl e ↦
            ground (arith, e)
            ∙ ap (λ k. drop k (queue ++ some frame ∷ []))
                (sym (excess 0 (omega (arith, ltb→lt (length queue) n e))))
        | inr e ↦
            ground (arith, e, length-drop 1 queue, pos)
            ∙ drop-append 1 queue (some frame ∷ []) (ground (arith, e, pos))
            ∙ ap (λ k. drop k (queue ++ some frame ∷ [])) (sym (excess 1 (ground (arith, e, fits))))
      ]
  where
    excess : (k : ℕ) → length queue + 1 - n ≡ k → length (queue ++ some frame ∷ []) - n ≡ k
    excess k h = omega (arith, length-append queue (some frame ∷ []))

length-newest : (n : ℕ) (queue : AudioQueue) → length (newest n queue) ≤ n
length-newest n queue = omega (arith, length-drop (length queue - n) queue)

newest-drop :
    (n k : ℕ) (queue : AudioQueue) → k ≤ length queue - n → newest n (drop k queue) ≡ newest n queue
newest-drop n k queue h =
    drop-drop (length (drop k queue) - n) k queue ∙ ap (λ j. drop j queue) (together)
  where
    together : k + (length (drop k queue) - n) ≡ length queue - n
    together = omega (arith, length-drop k queue)

-- The queue after a run of frames, from any queue within the bound.
enqueue_all-newest :
    (n : ℕ) (frames : List Text) (queue : AudioQueue)
    → 1 ≤ n
    → length queue ≤ n
    → enqueue_all n frames queue ≡ newest n (queue ++ map some frames)
unfolding enqueue_all
enqueue_all-newest n [] queue pos fits =
    ap (λ k. drop k queue) (sym none_over) ∙ ap (newest n) (sym (append-nil queue))
  where
    none_over : length queue - n ≡ 0
    none_over = omega arith
enqueue_all-newest n (frame ∷ frames) queue pos fits =
    ap (enqueue_all n frames) (enqueue-newest n frame queue pos fits)
    ∙ enqueue_all-newest n frames (newest n longer) pos (length-newest n longer)
    ∙ ap (newest n) (
        drop-append (length longer - n) longer (map some frames) (omega arith)
        ∙ ap (drop (length longer - n)) (append_assoc queue (some frame ∷ []) (map some frames)))
    ∙ newest-drop n (length longer - n) (queue ++ some frame ∷ map some frames) (
        omega (
          arith,
          length-append queue (some frame ∷ []),
          length-append queue (some frame ∷ map some frames),
        ))
  where
    longer : AudioQueue
    longer = queue ++ some frame ∷ []

-- Frames that nobody takes from a queue of at least one place leave the newest of them in it, in
-- order, as many as fit.
pub enqueue_all-latest :
    (n : ℕ) (frames : List Text)
    → 1 ≤ n
    → enqueue_all n frames [] ≡ drop (length (map some frames) - n) (map some frames)
enqueue_all-latest n frames pos = enqueue_all-newest n frames [] pos (omega arith)
