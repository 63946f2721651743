-- ===== src/RawJson.antt =====
-- lib/raw-json/main.go: an object of JSON values, kept as a map and as its text.
-- `encoding/json` is not the operator's code: `Json` holds the calls made of it, over any type of
-- values (`any`) and of texts (`json.RawMessage`).
pub mod Laws
use Prim.Native.String.{◌++◌ as ◌<>◌}
use kl_internal_operator.Base.{
  ℕ, String, Bool, true, false, Option, none, some, List, [], ◌∷◌, nat_beq, not, if◌then◌else◌,
}
use kl_internal_operator.Exec.{
  Exec, Outcome, returned, panicked, pure, panic, gets, modify, ◌>>=◌, ◌>>◌,
}
use kl_internal_operator.GoMap.{
  GoMap, nil_map, made, entries, or_made, get, len, insert, insert_all, delete,
}
use kl_internal_operator.Kube.{Error, Result, ok, err, new_error}

-- `marshal` is json.Marshal of the map; `unmarshal` is RawMessage.MarshalJSON and json.Unmarshal
-- into a fresh map, which JSON's null leaves nil; `as_string` is the type assertion
-- `x.(string)`, and `of_string` passes a string as an `any`.
pub record Json (V B : Type 0) : Type 0 where
  pub marshal : GoMap V → Result B
  pub unmarshal : B → Result (GoMap V)
  pub as_string : V → Option String
  pub of_string : String → V

pub record RawJson (V B : Type 0) : Type 0 where
  pub items : GoMap V
  pub raw_message : Option B

-- `rawJson.RawJson{}`
abbrev pub empty : {V B : Type 0} → RawJson V B
empty = record { items = nil_map; raw_message = none }

module _ {V B : Type 0} (js : Json V B) where
  fill_items : Option B → Exec (RawJson V B) (Unit {0})
  fill_items none s = (returned tt, s)
  fill_items (some b) s = elim (js.unmarshal b) [
    | ok m ↦ (returned tt, record s { items = m })
    | err e ↦ (panicked, record s { items = made [] })
  ]

  unfoldable pub fill_map : Exec (RawJson V B) (Unit {0})
  unfolding fill_items
  fill_map = do
    raw ← gets (λ s. s.raw_message)
    fill_items raw
    modify (λ s. record s { items = or_made s.items })

  unfoldable pub complete : Exec (RawJson V B) (Option Error)
  complete s = elim (js.marshal s.items) [
    | ok b ↦ (returned none, record s { raw_message = some b })
    | err e ↦ (returned (some e), s)
  ]

  unfoldable pub reset : Exec (RawJson V B) (Unit {0})
  reset = modify (λ s. record s { items = nil_map; raw_message = none })

  unfoldable pub json_len : Exec (RawJson V B) ℕ
  json_len = do fill_map; gets (λ s. len s.items)

  -- The map is made when `fill_map` returns, so the write cannot panic.
  unfoldable pub set : String → V → Exec (RawJson V B) (Option Error)
  set key value = do
    fill_map
    modify (λ s. record s { items = made (insert key value (entries s.items)) })
    complete

  unfoldable pub set_from_map : GoMap V → Exec (RawJson V B) (Option Error)
  set_from_map m = do
    fill_map
    modify (λ s. record s { items = made (insert_all (entries m) (entries s.items)) })
    complete

  any_key : GoMap V → List String → Bool
  any_key m [] = false
  any_key m (k ∷ ks) = elim (get m k) [ some _ ↦ true | none ↦ any_key m ks ]

  unfoldable pub exists : List String → Exec (RawJson V B) Bool
  unfolding any_key
  exists keys = do fill_map; gets (λ s. any_key s.items keys)

  unfoldable pub delete_key : String → Exec (RawJson V B) (Option Error)
  delete_key key = do
    fill_map
    c ← gets (λ s. len s.items)
    modify (λ s. record s { items = delete s.items key })
    c' ← gets (λ s. len s.items)
    if not (nat_beq c c') then complete else pure none

  -- `GetString`: `none` for ("", false).
  unfoldable pub get_string : String → Exec (RawJson V B) (Option String)
  get_string key = do
    fill_map
    s ← gets (λ s. s)
    pure (elim (get s.items key) [ none ↦ none | some x ↦ js.as_string x ])

  -- `Get` into a value of `T`: `marshal_value` and `unmarshal_value` are json.Marshal and
  -- json.Unmarshal. `Newf` prints the list of its arguments.
  unfoldable pub get_value :
      {T : Type 0} → (V → Result B) → (B → Result T) → String → Exec (RawJson V B) (Result T)
  get_value marshal_value unmarshal_value key = do
    fill_map
    s ← gets (λ s. s)
    pure (elim (get s.items key) [
      | none ↦ err (new_error ("key [" <> (key <> "] does not exist")))
      | some value ↦ elim (marshal_value value) [ err e ↦ err e | ok b ↦ unmarshal_value b ]
    ])
