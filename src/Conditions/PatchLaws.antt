-- ===== src/Conditions/PatchLaws.antt =====
-- What `Patch` leaves in the list.
use mathlib.Core.List.{append-nil}
use kl_internal_operator.Base.{
  ℕ, ◌≡◌, refl, ◌⊎◌, inl, inr, String, false, Option, none, some, List, [], ◌∷◌, ◌++◌, arith,
  text_beq, text_beq_iff, All, All-map, Option-cases, if◌then◌else◌,
}
use kl_internal_operator.Kube.{Condition}
use kl_internal_operator.Conditions.{
  specified, reasondiff, normalise, millis, differs, patch_one, patch_dest, patch_new, patch,
  FindsFirst,
}

-- The same answer to a reader: both absent, or both there with one status, message and reason,
-- where an empty reason counts as "NotSpecified".
abbrev pub SameCondition : Condition → Condition → Type 0
SameCondition a b =
    (a.ctype ≡ b.ctype)
    × (a.status ≡ b.status)
    × (a.message ≡ b.message)
    × (specified a.reason ≡ specified b.reason)

abbrev pub SameAnswer : Option Condition → Option Condition → Type 0
SameAnswer none none = Unit
SameAnswer (some a) (some b) = SameCondition a b
SameAnswer _ _ = ⊥

module _ (find : List Condition → String → Option Condition) (law : FindsFirst find) where
  pub find-append :
      (xs ys : List Condition) (t : String)
      → find (xs ++ ys) t ≡ elim (find xs t) [ none ↦ find ys t | some c ↦ some c ]
  find-append [] ys t = rw (law.find-nil t)
  find-append (c ∷ xs) ys t =
      ground (arith, law.find-cons c (xs ++ ys) t, law.find-cons c xs t, find-append xs ys t)

  find-ctype : (xs : List Condition) (t : String) (c : Condition) → find xs t ≡ some c → c.ctype ≡ t
  find-ctype [] t c h = ground (arith, law.find-nil t)
  find-ctype (x ∷ xs) t c h =
      ground (arith, law.find-cons x xs t, find-ctype xs t c, text_beq_iff x.ctype t)

  -- What one round puts in front of the rest is found under the type of its condition.
  find-patch_one :
      (x : ℕ) (source rest : List Condition) (d : Condition) (t : String)
      → find ((patch_one find x source d).0 ++ rest) t ≡ (
          if text_beq d.ctype t
          then elim (find source t) [
            | none ↦ find rest t
            | some s ↦ some (if differs s d then normalise x s else d)
          ]
          else find rest t)
  unfolding patch_one
  find-patch_one x source rest d t = elim (Option-cases (find source d.ctype)) [
    | inl gone ↦ ground (arith, gone, text_beq_iff d.ctype t)
    | inr (s, there) ↦ ground (
      arith,
      there,
      find-ctype source d.ctype s there,
      text_beq_iff d.ctype t,
      text_beq_iff s.ctype t,
      law.find-cons (normalise x s) rest t,
      law.find-cons d rest t,
    )
  ]

  find-patch_dest_absent :
      (x : ℕ) (source dest : List Condition) (t : String)
      → (find source t ≡ none) ⊎ (find dest t ≡ none)
      → find (patch_dest find x source dest).0 t ≡ none
  unfolding patch_dest
  find-patch_dest_absent x source [] t h = law.find-nil t
  find-patch_dest_absent x source (d ∷ dest) t h = ground (
    arith,
    find-patch_one x source (patch_dest find x source dest).0 d t,
    find-patch_dest_absent x source dest t,
    law.find-cons d dest t,
  )

  -- The first loop answers for the types of `dest`.
  find-patch_dest :
      (x : ℕ) (source dest : List Condition) (t : String) (c : Condition)
      → find dest t ≡ some c
      → SameAnswer (find (patch_dest find x source dest).0 t) (find source t)
  unfolding patch_dest reasondiff
  find-patch_dest x source [] t c h = ground (arith, law.find-nil t)
  find-patch_dest x source (d ∷ dest) t c h = elim (Option-cases (find source t)) [
    | inl gone ↦ ground (
      arith,
      gone,
      find-patch_one x source (patch_dest find x source dest).0 d t,
      find-patch_dest_absent x source dest t (inl gone),
    )
    | inr (s, there) ↦ ground (
      arith,
      there,
      find-patch_one x source (patch_dest find x source dest).0 d t,
      find-ctype source t s there,
      find-patch_dest x source dest t c,
      law.find-cons d dest t,
      text_beq_iff d.ctype t,
      text_beq_iff s.status d.status,
      text_beq_iff s.message d.message,
      text_beq_iff (specified s.reason) (specified d.reason),
      text_beq_iff s.reason "",
      text_beq_iff "NotSpecified" "",
    )
  ]

  abbrev pub new_answer : ℕ → Option Condition → Option Condition → Option Condition
  new_answer x none (some c) = some (normalise x c)
  new_answer x _ _ = none

  pub find-patch_new :
      (x : ℕ) (dest source : List Condition) (t : String)
      → find (patch_new find x dest source).0 t ≡ new_answer x (find dest t) (find source t)
  unfolding patch_new
  find-patch_new x dest [] t = ground (arith, law.find-nil t, Option-cases (find dest t))
  find-patch_new x dest (c ∷ source) t = ground (
    arith,
    find-patch_new x dest source t,
    law.find-cons c source t,
    law.find-cons (normalise x c) (patch_new find x dest source).0 t,
    text_beq_iff c.ctype t,
  )

  SameAnswer-normalise : (x : ℕ) (o : Option Condition) → SameAnswer (new_answer x none o) o
  SameAnswer-normalise x none = tt
  SameAnswer-normalise x (some c) =
      ground (arith, text_beq_iff c.reason "", text_beq_iff "NotSpecified" "")

  -- If the search finds the first condition of a type, a reader of the patched list gets, for every
  -- type, the answer of the source: the same status and message, the reason up to its default, and
  -- nothing where the source has nothing.
  pub patch-SameAnswer :
      (now : ℕ) (dest source : List Condition) (t : String)
      → SameAnswer (find (patch find now dest source).0 t) (find source t)
  unfolding patch
  patch-SameAnswer now dest source t =
      let both =
        find-append (patch_dest find (millis now) source dest).0
          (patch_new find (millis now) dest source).0 t in
      let added = find-patch_new (millis now) dest source t in
      elim (Option-cases (find dest t)) [
        | inl gone ↦ ground (
          arith,
          gone,
          both,
          added,
          find-patch_dest_absent (millis now) source dest t (inr gone),
          SameAnswer-normalise (millis now) (find source t),
        )
        | inr (c, there) ↦
            ground (arith, there, both, added, find-patch_dest (millis now) source dest t c there)
      ]

  patch_dest_same :
      (x : ℕ) (source dest : List Condition)
      → (patch_dest find x source dest).1 ≡ false
      → (patch_dest find x source dest).0 ≡ dest
  unfolding patch_dest patch_one
  patch_dest_same x source [] h = refl
  patch_dest_same x source (d ∷ dest) h = ground (arith, patch_dest_same x source dest)

  patch_new_same :
      (x : ℕ) (dest source : List Condition)
      → (patch_new find x dest source).1 ≡ false
      → (patch_new find x dest source).0 ≡ []
  unfolding patch_new
  patch_new_same x dest [] h = refl
  patch_new_same x dest (c ∷ source) h = ground (arith, patch_new_same x dest source)

  -- If the search finds the first condition of a type, and `Patch` reports no update, it returns
  -- the list that it was given.
  pub patch_not_updated :
      (now : ℕ) (dest source : List Condition)
      → (patch find now dest source).1 ≡ false
      → (patch find now dest source).0 ≡ dest
  unfolding patch
  patch_not_updated now dest source h = ground (
    arith,
    patch_dest_same (millis now) source dest,
    patch_new_same (millis now) dest source,
    append-nil dest,
  )

  -- Every condition of the list is the one that is found under its type.
  abbrev Found : List Condition → List Condition → Type 0
  Found source = All (λ c. find source c.ctype ≡ some c)

  patch_dest-Found :
      (x : ℕ) (source dest : List Condition)
      → Found source dest
      → patch_dest find x source dest ≡ (dest, false)
  unfolding patch_dest patch_one reasondiff
  patch_dest-Found x source [] h = refl
  patch_dest-Found x source (c ∷ dest) h = ground (
    arith,
    patch_dest-Found x source dest h.1,
    text_beq_iff c.status c.status,
    text_beq_iff c.message c.message,
    text_beq_iff (specified c.reason) (specified c.reason),
  )

  -- No type stands twice in the list.
  abbrev pub DistinctTypes : List Condition → Type 0
  DistinctTypes [] = Unit
  DistinctTypes (c ∷ cs) = (find cs c.ctype ≡ none) × DistinctTypes cs

  Found-self : (cs : List Condition) → DistinctTypes cs → Found cs cs
  Found-self [] h = tt
  Found-self (c ∷ cs) h = (
    ground (arith, law.find-cons c cs c.ctype, text_beq_iff c.ctype c.ctype),
    All-map _ _ cs
        (λ d e. ground (arith, h.0, law.find-cons c cs d.ctype, text_beq_iff c.ctype d.ctype))
        (Found-self cs h.1),
  )

  Found-append : (xs ys cs : List Condition) → Found xs cs → Found (xs ++ ys) cs
  Found-append xs ys cs = All-map _ _ cs (λ c e. ground (arith, e, find-append xs ys c.ctype))

  -- Patching a list by itself with more conditions behind keeps every condition of the list: what
  -- stands behind reaches the list only for types that it lacks.
  pub patch-append :
      (now : ℕ) (dest more : List Condition)
      → DistinctTypes dest
      → (patch find now dest (dest ++ more)).0
        ≡ dest ++ (patch_new find (millis now) dest (dest ++ more)).0
  unfolding patch
  patch-append now dest more h = rw (
      patch_dest-Found (millis now) (dest ++ more) dest
        (Found-append dest more dest (Found-self dest h)))
