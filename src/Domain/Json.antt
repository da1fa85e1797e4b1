-- ===== src/Domain/Json.antt =====
-- Python dictionaries that come from JSON: session configs, handoff contexts, event payloads.
-- A dictionary keeps insertion order; a repeated key is overwritten in place.
use vox_forge.Common.{
  ℕ, String, Text, ◌≡◌, refl, Bool, Option, none, some, arith, str_eq, eq_iff, eq_refl,
  if◌then◌else◌, true, false, not, ◌==◌, is_empty,
}

mutual
  pub data Value : Type 0 where
    null : Value
    flag : Bool → Value
    num : ℕ → Value
    text : Text → Value
    array : Values → Value
    obj : Fields → Value

  pub data Values : Type 0 where
    no_values : Values
    one_more : Value → Values → Values

  pub data Fields : Type 0 where
    end : Fields
    field : String → Value → Fields → Fields

-- `d.get(k)`
unfoldable pub lookup : String → Fields → Option Value
lookup k end = none
lookup k (field j v d) = let rest = lookup k d in if str_eq j k then some v else rest

-- `bool` of a JSON value
unfoldable pub truth : Value → Bool
truth null = false
truth (flag b) = b
truth (num n) = not (n == 0)
truth (text t) = not (is_empty t)
truth (array no_values) = false
truth (array vs) = true
truth (obj end) = false
truth (obj d) = true

-- `d[k] = v`, and `{**d, k: v}`
pub insert : String → Value → Fields → Fields
insert k v end = field k v end
insert k v (field j w d) =
    let rest = insert k v d in if str_eq j k then field j v d else field j w rest

-- `d.pop(k, None)`; a dictionary holds a key once, the model removes every copy
pub remove : String → Fields → Fields
remove k end = end
remove k (field j w d) = let rest = remove k d in if str_eq j k then rest else field j w rest

pub lookup-insert :
    (k j : String) (v : Value) (d : Fields)
    → lookup j (insert k v d) ≡ (if str_eq k j then some v else lookup j d)
unfolding lookup insert
lookup-insert k j v end = refl
lookup-insert k j v (field i w d) =
    ground (arith, eq_iff k j, eq_iff i k, eq_iff i j, lookup-insert k j v d)

pub lookup-remove :
    (k j : String) (d : Fields) → lookup j (remove k d) ≡ (if str_eq k j then none else lookup j d)
unfolding lookup remove
lookup-remove k j end = ground arith
lookup-remove k j (field i w d) =
    ground (arith, eq_iff k j, eq_iff i k, eq_iff i j, lookup-remove k j d)

pub ruleset json_laws = (lookup-insert, lookup-remove, eq_refl)
