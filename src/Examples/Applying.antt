-- ===== src/Examples/Applying.antt =====
-- The overlay of `KubectlApply` at a concrete object.
use kl_internal_operator.Base.{◌≡◌, refl, String, none, some, List, [], ◌∷◌}
use kl_internal_operator.Exec.{returned}
use kl_internal_operator.GoMap.{made, entries, lookup}
use kl_internal_operator.Kube.{ok}
use kl_internal_operator.KubectlApply.{ApplyClient, kubectl_apply}
use kl_internal_operator.KubectlApply.Overlay.{overlaid, kubectl_apply-Overlays}

-- The world is the stored document, and an object is its document.
abbrev client : ApplyClient (List (String × String)) (List (String × String)) String
client = record {
  to_document = λ o. ok (made o);
  key_of = λ o. ("ns", "name");
  get_document = λ w key t. (none, made w, w);
  create = λ w o. (none, o);
  update = λ w d. (none, entries d);
  new_ef = λ e text. e;
}

abbrev stored : List (String × String)
stored = ("status", "s") ∷ ("spec", "old") ∷ []

abbrev applied : List (String × String)
applied = ("spec", "new") ∷ ("data", "d") ∷ []

kubectl_apply-Overlays_example :
    (sent : List (String × String)) × (kubectl_apply client applied stored ≡ (returned none, sent))
    × ((q : String)
        → lookup sent q
          ≡ overlaid "stringData" q none
              (overlaid "data" q (some "d") (overlaid "spec" q (some "new") (lookup stored q))))
unfolding lookup
kubectl_apply-Overlays_example =
    kubectl_apply-Overlays client applied (made applied) stored stored stored refl refl
