-- ===== src/RawJson/Laws.antt =====
-- lib/raw-json/main.go: what is read back after a write.
use kl_internal_operator.Base.{
  ◌≡◌, refl, String, Option, none, some, arith, text_beq, if◌then◌else◌,
}
use kl_internal_operator.Exec.{returned}
use kl_internal_operator.GoMap.{GoMap, made, entries, or_made, get, insert}
use kl_internal_operator.GoMap.Laws.{lookup-insert}
use kl_internal_operator.Kube.{Result, ok, err}
use kl_internal_operator.RawJson.{Json, RawJson, fill_map, complete, set, get_string}

module _ {V B : Type 0} (js : Json V B) where
  -- The string that a key has.
  abbrev pub string_at : GoMap V → String → Option String
  string_at m k = elim (get m k) [ none ↦ none | some x ↦ js.as_string x ]

  -- A key that has a text, or nothing.
  abbrev pub text_value : Option String → Option V
  text_value none = none
  text_value (some text) = some (js.of_string text)

  -- What is relied on of encoding/json: the text of a map is read back as a map, in which a key with a
  -- Go string has that string, and a key that was not there is not there. Nothing is said of the keys
  -- with other values: an int comes back as a float64, a []byte as a string. A text is valid UTF-8.
  pub record KeepsStrings : Type 0 where
    pub as_string-of_string : (text : String) → js.as_string (js.of_string text) ≡ some text
    pub decoded : B → GoMap V
    pub unmarshal-marshal :
        (m : GoMap V) (b : B) → js.marshal m ≡ ok b → js.unmarshal b ≡ ok (decoded b)
    pub get-decoded :
        (m : GoMap V) (b : B) (k : String) (text : Option String)
        → js.marshal m ≡ ok b
        → get m k ≡ text_value text
        → get (or_made (decoded b)) k ≡ text_value text

  module _ (law : KeepsStrings) where
    string_at-text_value :
        (m : GoMap V) (k : String) (text : Option String)
        → get m k ≡ text_value text
        → string_at m k ≡ text
    string_at-text_value m k none e = ground (arith, e)
    string_at-text_value m k (some text) e = ground (arith, e, law.as_string-of_string text)

    -- What is read after a write that succeeded.
    by_marshal :
        (m : GoMap V) (raw : Option B) (k : String) (text : Option String) (r : Result B)
        → js.marshal m ≡ r
        → get m k ≡ text_value text
        → (complete js (record { items = m; raw_message = raw })).0 ≡ returned none
        → (get_string js k (complete js (record { items = m; raw_message = raw })).1).0
          ≡ returned text
    unfolding complete get_string fill_map
    by_marshal m raw k text (ok b) e there h = ground (
      arith,
      e,
      law.unmarshal-marshal m b e,
      string_at-text_value (or_made (law.decoded b)) k text (law.get-decoded m b k text e there),
    )
    by_marshal m raw k text (err x) e there h = absurd (ground (arith, e, h))

    -- If the text of a map is read back with the same strings under the same keys, and with nothing
    -- where nothing was, whatever becomes of other values, then a `Set` of a string that reports no
    -- error is seen by `GetString`: the key that was set has the string that was set, and any other
    -- key that had a string, or was not there, has that string, or none.
    pub get_string-set :
        (key k new : String) (s : RawJson V B) (old : Option String)
        → (set js key (js.of_string new) s).0 ≡ returned none
        → get (fill_map js s).1.items k ≡ text_value old
        → (get_string js k (set js key (js.of_string new) s).1).0
          ≡ returned (if text_beq key k then some new else old)
    unfolding set get_string
    get_string-set key k new s old written before =
        let s' = (fill_map js s).1 in
        let m = insert key (js.of_string new) (entries s'.items) in
        let after_set = lookup-insert key k (js.of_string new) (entries s'.items) in
        let text : Option String = if text_beq key k then some new else old in
        let there : get (made m) k ≡ text_value text = ground (arith, before, after_set) in
        ground (
          arith,
          written,
          by_marshal (made m) s'.raw_message k text (js.marshal (made m)) refl there,
        )
