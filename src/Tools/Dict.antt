-- ===== src/Tools/Dict.antt =====
-- Python dictionaries with text keys: insertion order, a repeated key is overwritten in place.
use vox_forge.Common.{
  ◌≡◌, refl, Text, text_eq, text_eq_iff, Option, none, some, List, [], ◌∷◌, map, if◌then◌else◌,
  arith,
}

abbrev pub Dict : Type 0 → Type 0
Dict A = List (Text × A)

module _ {A : Type 0} where
  -- `d.get(k)`
  unfoldable pub get : Text → Dict A → Option A
  get k [] = none
  get k (e ∷ d) = let rest = get k d in if text_eq e.0 k then some e.1 else rest

  -- `d[k] = v`
  unfoldable pub put : Text → A → Dict A → Dict A
  put k v [] = (k, v) ∷ []
  put k v (e ∷ d) = let rest = put k v d in if text_eq e.0 k then (e.0, v) ∷ d else e ∷ rest

  -- `d.pop(k, None)`; a dictionary holds a key once, the model removes every copy
  unfoldable pub pop : Text → Dict A → Dict A
  pop k [] = []
  pop k (e ∷ d) = let rest = pop k d in if text_eq e.0 k then rest else e ∷ rest

  -- `list(d.values())`
  abbrev pub values : Dict A → List A
  values d = map (λ e. e.1) d

  pub get-put :
      (j k : Text) (v : A) (d : Dict A)
      → get j (put k v d) ≡ (if text_eq k j then some v else get j d)
  unfolding get put
  get-put j k v [] = refl
  get-put j k v (e ∷ d) =
      ground (arith, text_eq_iff e.0 k, text_eq_iff k j, text_eq_iff e.0 j, get-put j k v d)

  pub get-pop :
      (j k : Text) (d : Dict A) → get j (pop k d) ≡ (if text_eq k j then none else get j d)
  unfolding get pop
  get-pop j k [] = ground arith
  get-pop j k (e ∷ d) =
      ground (arith, text_eq_iff e.0 k, text_eq_iff k j, text_eq_iff e.0 j, get-pop j k d)
