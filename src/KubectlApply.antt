-- ===== src/KubectlApply.antt =====
-- lib/functions/kubectl.go: `KubectlApply`, which creates an object, or writes its spec and data over
-- the stored one. An object is any type `O`, and a document is a map of values `V`.
pub mod Overlay
use kl_internal_operator.Base.{String, Bool, true, false, not, if◌then◌else◌, Option, none, some}
use kl_internal_operator.Exec.{Exec, returned, pure, act, or_panic, ◌>>=◌, ◌>>◌}
use kl_internal_operator.GoMap.{GoMap, get, assign}
use kl_internal_operator.Kube.{Error, Result, ok, err}

-- encoding/json there and back (`to_document`, one answer for equal objects), the client of the API
-- server, the key of an object, and the text of errors.NewEf. `get` fills the document that it is
-- given.
pub record ApplyClient (W O V : Type 0) : Type 0 where
  pub to_document : O → Result (GoMap V)
  pub key_of : O → String × String
  pub get_document : W → String × String → GoMap V → Option Error × GoMap V × W
  pub create : W → O → Option Error × W
  pub update : W → GoMap V → Option Error × W
  pub new_ef : Error → String → Error

-- `if _, ok := j[key]; ok { t.Object[key] = j[key] }`; a write to a nil map panics.
unfoldable pub copy_field : {V : Type 0} → String → GoMap V → GoMap V → Option (GoMap V)
copy_field key j t = elim (get j key) [ none ↦ some t | some v ↦ assign t key v ]

module _ {W O V : Type 0} (k : ApplyClient W O V) where
  -- What follows the comment "UPDATE it".
  unfoldable pub update_document : GoMap V → Result (GoMap V) → Exec W (Option Error)
  update_document t (err e) = pure (some e)
  update_document t (ok j) = do
    with_spec ← or_panic (copy_field "spec" j t)
    with_data ← or_panic (copy_field "data" j with_spec)
    with_strings ← or_panic (copy_field "stringData" j with_data)
    act (λ w. k.update w with_strings)

  -- The branches on the error of `cli.Get`.
  unfoldable pub create_or_update : O → Option Error → GoMap V → Exec W (Option Error)
  create_or_update obj none t = update_document t (k.to_document obj)
  create_or_update obj (some e) t =
      if not e.not_found
      then pure (some (k.new_ef e "could not get k8s resource"))
      else act (λ w. k.create w obj)

  -- `t` is what `toUnstructured` gives.
  unfoldable pub apply_document : O → Result (GoMap V) → Exec W (Option Error)
  apply_document obj (err e) = pure (some e)
  apply_document obj (ok t) = do
    (e, stored) ← act (λ w. let (e, d, w2) = k.get_document w (k.key_of obj) t in ((e, d), w2))
    create_or_update obj e stored

  unfoldable pub kubectl_apply : O → Exec W (Option Error)
  kubectl_apply obj = apply_document obj (k.to_document obj)
