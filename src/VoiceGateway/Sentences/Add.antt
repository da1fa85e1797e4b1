-- ===== src/VoiceGateway/Sentences/Add.antt =====
-- What one call of SentenceBuffer.add does, without its loop: it cuts the buffer behind the last
-- sentence ending.
use vox_forge.Common.{
  ℕ, zero, suc, ◌≤◌, ◌<◌, ◌≡◌, refl, ap, ◌∙◌, Text, true, false, Option, none, some, [], ◌∷◌, ◌++◌,
  if◌then◌else◌, take, drop, length, any, get_elem?, get_elem?-beyond, take_past, drop_past,
  get_past, length-append, strip, is_empty, ltb, arith, Bool-cases, inl, inr, ◌⊎◌,
}
use vox_forge.VoiceGateway.Sentences.{Scan, index_error, scanned, is_ending, scan_from, add}

-- The text up to its last sentence ending, without it; the ending; and what follows it.
pub record Cut : Type 0 where
  pub before : Text
  pub ending : ℕ
  pub rest : Text

abbrev pub cut_before : ℕ → Cut → Cut
cut_before c k = record k { before = c ∷ k.before }

unfoldable pub last_ending : Text → Option Cut
last_ending [] = none
last_ending (c ∷ s) = elim (last_ending s) [
  | some k ↦ some (cut_before c k)
  | none ↦ if is_ending c then some (record { before = []; ending = c; rest = s }) else none
]

abbrev pub joined : Cut → Text
joined k = k.before ++ k.ending ∷ k.rest

pub record IsLast (s : Text) (k : Cut) : Type 0 where
  pub whole : s ≡ joined k
  pub ends : is_ending k.ending ≡ true
  pub quiet : any is_ending k.rest ≡ false

abbrev pub CutsAt : Text → Option Cut → Type 0
CutsAt s none = any is_ending s ≡ false
CutsAt s (some k) = IsLast s k

pub last_ending-CutsAt : (s : Text) → CutsAt s (last_ending s)
unfolding last_ending
last_ending-CutsAt [] = refl
last_ending-CutsAt (c ∷ s) = here (last_ending s) (last_ending-CutsAt s) (Bool-cases (is_ending c))
  where
    here :
        (o : Option Cut)
        → CutsAt s o
        → (is_ending c ≡ true) ⊎ (is_ending c ≡ false)
        → CutsAt (c ∷ s) (elim o [
          | some k ↦ some (cut_before c k)
          | none ↦ if is_ending c then some (record { before = []; ending = c; rest = s }) else none
        ])
    here (some k) h _ = record { whole = ap (λ t. c ∷ t) h.whole; ends = h.ends; quiet = h.quiet }
    here none h (inl e) = rw e (record { whole = refl; ends = e; quiet = h })
    here none h (inr e) = rw e (ground arith)

-- The indices from `m` on, below `n`, are in the text and hold no ending.
abbrev QuietAt : Option ℕ → Type 0
QuietAt none = ⊥
QuietAt (some c) = is_ending c ≡ false

quiet-get : (s : Text) (n : ℕ) → any is_ending s ≡ false → n < length s → QuietAt (get_elem? s n)
quiet-get [] n h below = omega (arith, below)
quiet-get (c ∷ s) zero h below = ground arith
quiet-get (c ∷ s) (suc n) h below = quiet-get s n (ground arith) (omega arith)

scan_step : (n : ℕ) (s : Text) → QuietAt (get_elem? s n) → scan_from (suc n) s ≡ scan_from n s
unfolding scan_from
scan_step n s q = at (get_elem? s n) q
  where
    at :
        (o : Option ℕ)
        → QuietAt o
        → (elim o [
          | none ↦ index_error
          | some c ↦
              if is_ending c
              then (if is_empty (strip (take (suc n) s))
                  then scan_from n (drop (suc n) s)
                  else scanned (some (strip (take (suc n) s))) (drop (suc n) s))
              else scan_from n s
        ])
          ≡ scan_from n s
    at none q = absurd q
    at (some c) q = rw q refl

scan_down :
    (m n : ℕ) (s : Text)
    → ((k : ℕ) → m ≤ k → k < n → QuietAt (get_elem? s k))
    → m ≤ n
    → scan_from n s ≡ scan_from m s
scan_down m zero s q h = ap (λ k. scan_from k s) (omega arith)
scan_down m (suc n) s q h = elim (Bool-cases (ltb m (suc n))) [
  | inl e ↦
      scan_step n s (q n (ground arith) (omega arith))
      ∙ scan_down m n s (λ k low high. q k low (omega arith)) (ground arith)
  | inr e ↦ ap (λ k. scan_from k s) (ground arith)
]

-- Over a text without an ending the loop finds nothing, and raises if its index lies behind the text.
scan-quiet :
    (n : ℕ) (s : Text)
    → any is_ending s ≡ false
    → scan_from n s ≡ (if ltb (length s) n then index_error else scanned none s)
unfolding scan_from
scan-quiet zero s h = ground arith
scan-quiet (suc n) s h = elim (Bool-cases (ltb n (length s))) [
  | inl e ↦ scan_step n s (quiet-get s n h (ground arith)) ∙ scan-quiet n s h ∙ ground arith
  | inr e ↦ ground (arith, get_elem?-beyond s n)
]

-- What `add` does by the last ending of the buffer with the token: without one it returns nothing
-- and keeps everything; behind a blank prefix it cuts or raises, by whether the rest is long enough.
unfoldable pub add_cut : Text → Option Cut → Scan
add_cut s none = scanned none s
add_cut s (some k) =
    let sentence = strip (k.before ++ k.ending ∷ []) in
    if is_empty sentence
    then if ltb (length k.rest) (length k.before) then index_error else scanned none k.rest
    else scanned (some sentence) k.rest

scan-joined :
    (k : Cut)
    → is_ending k.ending ≡ true
    → any is_ending k.rest ≡ false
    → scan_from (suc (length k.before)) (joined k) ≡ add_cut (joined k) (some k)
unfolding scan_from add_cut
scan-joined k ends quiet = ground (
  arith,
  ends,
  get_past k.before k.ending k.rest,
  take_past k.before k.ending k.rest,
  drop_past k.before k.ending k.rest,
  scan-quiet (length k.before) k.rest quiet,
)

quiet-behind :
    (xs : Text) (e : ℕ) (ys : Text) (n : ℕ)
    → any is_ending ys ≡ false
    → suc (length xs) ≤ n
    → n < length (xs ++ e ∷ ys)
    → QuietAt (get_elem? (xs ++ e ∷ ys) n)
quiet-behind xs e ys zero quiet low high = absurd (omega (arith, low))
quiet-behind [] e ys (suc n) quiet low high = quiet-get ys n quiet (omega arith)
quiet-behind (x ∷ xs) e ys (suc n) quiet low high =
    quiet-behind xs e ys n quiet (omega arith) (omega arith)

-- A call of `add` cuts the buffer behind the last sentence ending: it returns the text before the cut,
-- stripped, and keeps the rest; a blank text is dropped without a result, and the call raises an
-- IndexError if the rest is then shorter than the blank text without its ending.
pub add-cuts :
    (buffer token : Text)
    → add buffer token ≡ add_cut (buffer ++ token) (last_ending (buffer ++ token))
unfolding add add_cut
add-cuts buffer token = at (buffer ++ token) (last_ending (buffer ++ token)) (last_ending-CutsAt _)
  where
    at : (s : Text) (o : Option Cut) → CutsAt s o → scan_from (length s) s ≡ add_cut s o
    at s none h = scan-quiet (length s) s h ∙ ground arith
    at s (some k) h = rw h.whole (
        scan_down (suc (length k.before)) (length (joined k)) (joined k)
          (λ n low high. quiet-behind k.before k.ending k.rest n h.quiet low high)
          (omega (arith, length-append k.before (k.ending ∷ k.rest)))
        ∙ scan-joined k h.ends h.quiet)
