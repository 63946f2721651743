-- ===== src/GoMap.antt =====
-- Go's maps with string keys: nil or made, as an association list. Reading a nil map is allowed,
-- writing one panics (`none`). The order of `range` is that of the list; Go leaves it open.
pub mod Laws
use kl_internal_operator.Base.{
  ℕ, String, Bool, true, false, Option, none, some, List, [], ◌∷◌, length, text_beq, if◌then◌else◌,
}

pub data GoMap {ℓ} (V : Type ℓ) : Type ℓ where
  nil_map : GoMap V
  made : List (String × V) → GoMap V

module _ {ℓ} {V : Type ℓ} where
  abbrev pub entries : GoMap V → List (String × V)
  entries nil_map = []
  entries (made l) = l

  abbrev pub is_nil : GoMap V → Bool
  is_nil nil_map = true
  is_nil (made l) = false

  -- `if m == nil { m = map[string]V{} }`
  abbrev pub or_made : GoMap V → GoMap V
  or_made nil_map = made []
  or_made (made l) = made l

  unfoldable pub lookup : List (String × V) → String → Option V
  lookup [] k = none
  lookup ((j, v) ∷ l) k = if text_beq j k then some v else lookup l k

  unfoldable pub insert : String → V → List (String × V) → List (String × V)
  insert key new [] = (key, new) ∷ []
  insert key new ((k, old) ∷ rest) =
      if text_beq k key then (key, new) ∷ rest else (k, old) ∷ insert key new rest

  unfoldable pub without : String → List (String × V) → List (String × V)
  without k [] = []
  without k ((j, v) ∷ l) = let rest = without k l in if text_beq j k then rest else (j, v) ∷ rest

  -- m[k], with `none` for a key that is not there
  abbrev pub get : GoMap V → String → Option V
  get m k = lookup (entries m) k

  -- m[k] = v
  abbrev pub assign : GoMap V → String → V → Option (GoMap V)
  assign nil_map k v = none
  assign (made l) k v = some (made (insert k v l))

  -- delete(m, k)
  abbrev pub delete : GoMap V → String → GoMap V
  delete nil_map k = nil_map
  delete (made l) k = made (without k l)

  abbrev pub len : GoMap V → ℕ
  len m = length (entries m)

  -- `for k, v := range src { m[k] = v }` over a made map
  unfoldable pub insert_all : List (String × V) → List (String × V) → List (String × V)
  insert_all [] l = l
  insert_all ((k, v) ∷ src) l = insert_all src (insert k v l)
