-- ===== src/VoiceGateway/Sentences/Squeeze.antt =====
-- The visible characters of a text: what stripping keeps.
use vox_forge.Common.{
  ℕ, ◌≡◌, refl, ◌∙◌, Text, true, false, not, [], ◌∷◌, ◌++◌, filter_by, all, is_space, lstrip,
  rstrip, strip, is_empty, arith,
}

abbrev pub squeeze : Text → Text
squeeze = filter_by (λ c. not (is_space c))

pub squeeze-append : (s t : Text) → squeeze (s ++ t) ≡ squeeze s ++ squeeze t
squeeze-append [] t = refl
squeeze-append (c ∷ s) t = ground (arith, squeeze-append s t)

squeeze-lstrip : (s : Text) → squeeze (lstrip s) ≡ squeeze s
unfolding lstrip
squeeze-lstrip [] = refl
squeeze-lstrip (c ∷ s) = ground (arith, squeeze-lstrip s)

squeeze-rstrip : (s : Text) → squeeze (rstrip s) ≡ squeeze s
unfolding rstrip
squeeze-rstrip [] = refl
squeeze-rstrip (c ∷ s) = ground (arith, squeeze-rstrip s)

pub squeeze-strip : (s : Text) → squeeze (strip s) ≡ squeeze s
unfolding strip
squeeze-strip s = squeeze-rstrip (lstrip s) ∙ squeeze-lstrip s

snoc-is_empty : (s : Text) (e : ℕ) → is_empty (s ++ e ∷ []) ≡ false
snoc-is_empty [] e = refl
snoc-is_empty (c ∷ s) e = refl

-- A text that ends with a visible character is not blank.
pub visible-strip : (s : Text) (e : ℕ) → is_space e ≡ false → is_empty (strip (s ++ e ∷ [])) ≡ false
visible-strip s e h =
    ground
      (arith, squeeze-strip (s ++ e ∷ []), squeeze-append s (e ∷ []), snoc-is_empty (squeeze s) e)

lstrip-blank : (s : Text) → all is_space s ≡ true → lstrip s ≡ []
unfolding lstrip
lstrip-blank [] h = refl
lstrip-blank (c ∷ s) h = ground (arith, lstrip-blank s)

pub strip-blank : (s : Text) → all is_space s ≡ true → strip s ≡ []
unfolding strip rstrip
strip-blank s h = rw (lstrip-blank s h) refl

pub blank-squeeze : (s : Text) → is_empty (strip s) ≡ true → squeeze s ≡ []
blank-squeeze s h = ground (arith, squeeze-strip s)
