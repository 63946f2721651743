-- ===== src/KubectlApply/Overlay.antt =====
-- What `KubectlApply` sends for an object that is stored.
use kl_internal_operator.Base.{◌≡◌, refl, String, if◌then◌else◌, Option, none, some, List, text_beq}
use kl_internal_operator.Exec.{returned}
use kl_internal_operator.GoMap.{GoMap, made, get, lookup, insert}
use kl_internal_operator.GoMap.Laws.{lookup-insert}
use kl_internal_operator.Kube.{ok}
use kl_internal_operator.KubectlApply.{
  ApplyClient, copy_field, update_document, create_or_update, apply_document, kubectl_apply,
}

-- What a reader of `q` gets, after the field `key` was written over `old` if there is one.
pub overlaid : {V : Type 0} → String → String → Option V → Option V → Option V
overlaid key q none old = old
overlaid key q (some v) old = if text_beq key q then some v else old

Copied : {V : Type 0} → String → Option V → List (String × V) → List (String × V) → Type 0
Copied key field before after =
    (q : String) → lookup after q ≡ overlaid key q field (lookup before q)

copy_field-Copied :
    {V : Type 0} (key : String) (j : GoMap V) (l : List (String × V)) (field : Option V)
    → get j key ≡ field
    → (after : List (String × V)) × (copy_field key j (made l) ≡ some (made after))
      × Copied key field l after
unfolding Copied copy_field overlaid
copy_field-Copied key j l none e = (l, rw (e, copy_field) refl, λ q. refl)
copy_field-Copied key j l (some v) e =
    (insert key v l, rw (e, copy_field) refl, λ q. lookup-insert key q v l)

-- If the object to apply can be written as a document, and the read of the stored one succeeds with
-- a map that is made, the answer is that of one update: of a document with the spec, the data and
-- the stringData of the object where it has them, and all else as it is stored.
pub kubectl_apply-Overlays :
    {W O V : Type 0} (k : ApplyClient W O V) (obj : O) (j : GoMap V) (w w2 : W)
    (l : List (String × V))
    → k.to_document obj ≡ ok j
    → k.get_document w (k.key_of obj) j ≡ (none, made l, w2)
    → (sent : List (String × V)) × (kubectl_apply k obj w
        ≡ (returned (k.update w2 (made sent)).0, (k.update w2 (made sent)).1))
      × ((q : String)
          → lookup sent q
            ≡ overlaid "stringData" q
                (get j "stringData")
                (overlaid "data" q (get j "data") (overlaid "spec" q (get j "spec") (lookup l q))))
unfolding kubectl_apply apply_document create_or_update update_document Copied
kubectl_apply-Overlays k obj j w w2 l document stored =
    let (spec, a, reads_spec) = copy_field-Copied "spec" j l (get j "spec") refl in
    let (with_data, b, reads_data) = copy_field-Copied "data" j spec (get j "data") refl in
    let (sent, c, reads) = copy_field-Copied "stringData" j with_data (get j "stringData") refl in
    (
      sent,
      rw (document, stored, document, a, b, c) refl,
      λ q. rw (reads q, reads_data q, reads_spec q) refl,
    )
