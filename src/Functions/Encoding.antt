-- ===== src/Functions/Encoding.antt =====
-- lib/functions/main.go: JSON, base64 and hashes, and the names of random ids. encoding/json,
-- encoding/base64, encoding/hex, crypto/md5, reflect, regexp, nanoid and strings are the record
-- `Codec`.
pub mod Ids
use Prim.Native.String.{◌++◌ as ◌<>◌}
use kl_internal_operator.Base.{ℕ, String, Bool, Option, none, some, List, [], ◌∷◌, if◌then◌else◌}
use kl_internal_operator.GoMap.{GoMap, nil_map, made, get}
use kl_internal_operator.Kube.{Error, Result, ok, err}

-- Over values `V` and bytes `B`. `marshal` gives its bytes also with an error; `digest` is the MD5 sum
-- of bytes, and `append` joins bytes. `deep_equal` is reflect.DeepEqual; `nanoid` draws an id of a
-- length in the world `W`; `dashed` replaces each run of other signs than letters and digits by a
-- dash.
pub record Codec (W V B : Type 0) : Type 0 where
  pub marshal : V → B × Option Error
  pub unmarshal : B → Result V
  pub encode_url : B → String
  pub encode_std : B → String
  pub decode_url : String → Result B
  pub hex : B → String
  pub digest : B → B
  pub append : B → B → B
  pub no_bytes : B
  pub deep_equal : V → V → Bool
  pub new_ef : Error → String → Error
  pub nanoid : W → ℕ → String × W
  pub dashed : String → String
  pub has_prefix : String → String → Bool
  pub has_suffix : String → String → Bool

unfoldable pub if_then_else : {T : Type 0} → Bool → T → T → T
if_then_else cond v y = if cond then v else y

unfoldable pub if_then_else_fn : {T : Type 0} → Bool → (Unit {0} → T) → (Unit {0} → T) → T
if_then_else_fn cond v1 v2 = if cond then v1 tt else v2 tt

-- `mapGet`; `assert` is the type assertion.
unfoldable pub map_get : {V T : Type 0} → (V → Option T) → GoMap V → String → Option T
map_get assert nil_map key = none
map_get assert (made l) key = elim (get (made l) key) [ none ↦ none | some v ↦ assert v ]

module _ {W V B : Type 0} (k : Codec W V B) where
  abbrev pub encoded : (B → String) → B × Option Error → String × Option Error
  encoded encode (b, e) = (encode b, e)

  unfoldable pub to_b64_url : V → String × Option Error
  to_b64_url v = encoded k.encode_url (k.marshal v)

  unfoldable pub to_b64_string : V → String × Option Error
  to_b64_string v = encoded k.encode_std (k.marshal v)

  abbrev pub unmarshalled : Result V → Result V
  unmarshalled (err e) = err (k.new_ef e "could not unmarshal")
  unmarshalled (ok v) = ok v

  abbrev pub of_decoded : Result B → Result V
  of_decoded (err e) = err (k.new_ef e "not a valid b64-url string")
  of_decoded (ok b) = unmarshalled (k.unmarshal b)

  unfoldable pub from_b64_url : String → Result V
  from_b64_url s = of_decoded (k.decode_url s)

  abbrev pub unless_failed : {A : Type 0} → B × Option Error → (B → Result A) → Result A
  unless_failed (b, none) f = f b
  unless_failed (b, some e) f = err e

  unfoldable pub from_to : V → Result V
  from_to from = unless_failed (k.marshal from) k.unmarshal

  unfoldable pub hash : V → Result String
  hash v = unless_failed (k.marshal v) (λ b. ok (k.hex (k.digest b)))

  -- `md5.New().Sum(b)` appends the sum of no bytes to `b`.
  unfoldable pub md5 : B → String
  md5 b = k.hex (k.append b (k.digest k.no_bytes))

  abbrev pub both_equal : Result V → Result V → Result Bool
  both_equal (err e) second = err e
  both_equal (ok j) (err e) = err e
  both_equal (ok j) (ok j2) = ok (k.deep_equal j2 j)

  unfoldable pub json_bytes_equal : B → B → Result Bool
  json_bytes_equal a b = both_equal (k.unmarshal a) (k.unmarshal b)

  -- `CleanerNanoid` after the draw.
  unfoldable pub clean_id : String → String
  clean_id id =
      let res = k.dashed id in
      let started = if k.has_prefix res "-" then "k" <> res else res in
      if k.has_suffix started "-" then started <> "k" else started

  unfoldable pub cleaner_nanoid : ℕ → W → String × W
  cleaner_nanoid n w = let (id, w2) = k.nanoid w n in (clean_id id, w2)
