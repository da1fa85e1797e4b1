-- ===== src/Handoff/Replay.antt =====
-- modules/handoff/application/replay_link.py: ReplayLinkService. The HMAC, the token source and
-- the text of a UUID are parameters; SESSION, ORG and HANDOFF ids are given by their texts.
use vox_forge.Common.{
  ℕ, zero, suc, ◌≡◌, refl, Text, codes, Bool, true, false, Option, none, some, [], ◌∷◌, ◌++◌, take,
  arith, ◌==◌, text_eq, text_eq_refl, if◌then◌else◌, is_empty, text_eq→eq, Option-cases, inl, inr,
  ◌∙◌, ap,
}
use mathlib.Core.List.{append_assoc}

-- What the service calls: `hmac.new(secret, payload, sha256).hexdigest()[:32]`.
pub record Signing : Type 0 where
  pub digest : Text → Text → Text
  pub handoff_replay_signing_secret : Text
  pub jwt_secret_key : Text
  pub public_base_url : Text

-- `text.rsplit(c, 1)` as the part before the last `c` and the part behind it; none if there is no `c`
unfoldable pub split_last : ℕ → Text → Option (Text × Text)
split_last c [] = none
split_last c (a ∷ s) = elim (split_last c s) [
  | some (before, behind) ↦ some (a ∷ before, behind)
  | none ↦ if a == c then some ([], s) else none
]

-- `s.rstrip("/")`
abbrev rstrip_slash : Text → Text
rstrip_slash [] = []
rstrip_slash (c ∷ s) =
    let rest = rstrip_slash s in
    if c == b'/' then (if is_empty rest then [] else c ∷ rest) else c ∷ rest

-- `a or b` on texts
abbrev or_text : Text → Text → Text
or_text [] b = b
or_text (c ∷ s) b = c ∷ s

module _ (s : Signing) where
  unfoldable pub signing_secret : Text
  signing_secret = or_text s.handoff_replay_signing_secret s.jwt_secret_key

  -- `hexdigest()[:32]` of the payload that binds the three ids and the token
  unfoldable pub signature : Text → Text → Text → Text → Text
  unfolding signing_secret
  signature session_id org_id handoff_id token = take 32 (
      s.digest signing_secret
        (session_id ++ codes ":" ++ org_id ++ codes ":" ++ handoff_id ++ codes ":" ++ token))

  -- The URL and the signed token, from the fresh token that `secrets.token_urlsafe(24)` gave.
  unfoldable pub generate : Text → Text → Text → Text → Text × Text
  unfolding signature
  generate session_id org_id handoff_id token =
      let signed_token = token ++ codes "." ++ signature session_id org_id handoff_id token in
      let base = or_text (rstrip_slash s.public_base_url) (codes "http://localhost:8000") in
      (
        base ++ codes "/dashboard#replay=" ++ session_id ++ codes "&token=" ++ signed_token,
        signed_token,
      )

  -- `compare_digest` raises a TypeError on a signature with characters beyond ASCII; this answers false.
  unfoldable pub verify : Text → Text → Text → Text → Bool
  unfolding signature split_last
  verify session_id org_id handoff_id token = elim (split_last b'.' token) [
    | none ↦ false
    | some (raw, sig) ↦ text_eq sig (signature session_id org_id handoff_id raw)
  ]

-- `c` does not occur in the text.
abbrev pub Lacks : ℕ → Text → Type 0
Lacks c [] = Unit
Lacks c (a ∷ s) = ((a == c) ≡ false) × Lacks c s

split_last-none : (c : ℕ) (s : Text) → Lacks c s → split_last c s ≡ none
unfolding split_last
split_last-none c [] h = refl
split_last-none c (a ∷ s) h = ground (arith, split_last-none c s h.1)

split_last-append : (c : ℕ) (s t : Text) → Lacks c t → split_last c (s ++ c ∷ t) ≡ some (s, t)
unfolding split_last
split_last-append c [] t h = ground (arith, split_last-none c t h)
split_last-append c (a ∷ s) t h = ground (arith, split_last-append c s t h)

Lacks-take : (c n : ℕ) (s : Text) → Lacks c s → Lacks c (take n s)
Lacks-take c zero s h = tt
Lacks-take c (suc n) [] h = tt
Lacks-take c (suc n) (a ∷ s) h = (h.0, Lacks-take c n s h.1)

-- A digest in hexadecimal has no dot, so a link that was generated verifies for its own ids.
pub verify-generate :
    (s : Signing) (session_id org_id handoff_id token : Text)
    → ((secret payload : Text) → Lacks b'.' (s.digest secret payload))
    → verify s session_id org_id handoff_id (generate s session_id org_id handoff_id token).1 ≡ true
unfolding verify generate
verify-generate s session_id org_id handoff_id token hex =
    let sig = signature s session_id org_id handoff_id token in
    let dotless : Lacks b'.' sig = Lacks-take b'.' 32 _ (hex _ _) in
    let cut : split_last b'.' (token ++ b'.' ∷ sig) ≡ some (token, sig) =
      split_last-append b'.' token sig dotless in
    rw append_assoc (ground (arith, cut, text_eq_refl sig))

split_last_sound : (c : ℕ) (s : Text) {a b : Text} → split_last c s ≡ some (a, b) → s ≡ a ++ c ∷ b
unfolding split_last
split_last_sound c [] h = cc
split_last_sound c (x ∷ s) {a} {b} h = elim (Option-cases (split_last c s)) [
  | inl e ↦ ground arith
  | inr ((before, behind), e) ↦ ground (arith, split_last_sound c s e)
]

-- A token that verifies is some raw token, a dot, and the signature of that raw token with the
-- three ids: without the digest of these very ids no token is accepted.
pub verify-signed :
    (s : Signing) (session_id org_id handoff_id token : Text)
    → verify s session_id org_id handoff_id token ≡ true
    → (raw : Text) × (token ≡ raw ++ b'.' ∷ signature s session_id org_id handoff_id raw)
unfolding verify
verify-signed s session_id org_id handoff_id token h = elim (Option-cases (split_last b'.' token)) [
  | inl e ↦ absurd (ground (arith))
  | inr ((raw, sig), e) ↦ (
    raw,
    split_last_sound b'.' token e
        ∙ ap (λ (t : Text). raw ++ b'.' ∷ t) (text_eq→eq sig _ (ground (arith, e, h))),
  )
]
