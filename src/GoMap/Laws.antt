-- ===== src/GoMap/Laws.antt =====
-- Reading Go's maps after a write.
use kl_internal_operator.Base.{
  ◌+◌, ◌≡◌, refl, String, none, some, List, [], ◌∷◌, length, arith, text_beq, text_beq_iff,
  if◌then◌else◌,
}
use kl_internal_operator.GoMap.{lookup, insert, without, insert_all}

module _ {ℓ} {V : Type ℓ} where
  pub lookup-insert :
      (k j : String) (v : V) (l : List (String × V))
      → lookup (insert k v l) j ≡ (if text_beq k j then some v else lookup l j)
  unfolding lookup insert
  lookup-insert k j v [] = refl
  lookup-insert k j v ((i, w) ∷ l) =
      ground (arith, text_beq_iff k j, text_beq_iff i k, text_beq_iff i j, lookup-insert k j v l)

  pub lookup-without :
      (gone k : String) (l : List (String × V))
      → lookup (without gone l) k ≡ (if text_beq gone k then none else lookup l k)
  unfolding lookup without
  lookup-without gone k [] = ground arith
  lookup-without gone k ((key, v) ∷ l) = ground (
    arith,
    text_beq_iff key gone,
    text_beq_iff key k,
    text_beq_iff gone k,
    lookup-without gone k l,
  )

  -- A write adds an entry exactly where the key was not there.
  pub length-insert :
      (k : String) (v : V) (l : List (String × V))
      → length (insert k v l) ≡ elim (lookup l k) [ none ↦ length l + 1 | some _ ↦ length l ]
  unfolding lookup insert
  length-insert k v [] = omega arith
  length-insert k v ((i, w) ∷ l) = ground (arith, length-insert k v l)

  -- A copied map wins over what was there, its last entry for a key first.
  pub lookup-insert_all_absent :
      (src l : List (String × V)) (k : String)
      → lookup src k ≡ none
      → lookup (insert_all src l) k ≡ lookup l k
  unfolding lookup insert_all
  lookup-insert_all_absent [] l k h = refl
  lookup-insert_all_absent ((j, v) ∷ src) l k h =
      ground (arith, lookup-insert_all_absent src (insert j v l) k, lookup-insert j k v l)
