-- ===== src/Edge/Labels.antt =====
-- apis/infra/v1/edge_types.go: the labels and annotations that an edge is to have.
use kl_internal_operator.Base.{ℕ, ◌≡◌, refl, String, [], ◌∷◌, length}
use kl_internal_operator.GoMap.{GoMap, made, lookup}
use kl_internal_operator.Operator.{Object}
use kl_internal_operator.Request.{Client, State, ensure_labels_and_annotations}
use kl_internal_operator.Request.Stopping.{Proceeds}
use kl_internal_operator.Request.Converging.{Keeps, ensure_labels_and_annotations_again}
use kl_internal_operator.Edge.{EdgeSpec}

abbrev pub edge_labels : {V B : Type 0} → Object EdgeSpec V B → GoMap String
edge_labels o = made (
    ("kloudlite.io/provider", o.spec.provider)
    ∷ ("kloudlite.io/account.name", o.spec.account_name)
    ∷ ("kloudlite.io/edge.name", o.metadata.name)
    ∷ ("kloudlite.io/provider.name", o.spec.provider_name)
    ∷ [])

-- `print` is fmt.Sprint of an int, and `gvk` the text of the group, version and kind.
abbrev pub edge_annotations :
    {V B : Type 0} → (ℕ → String) → String → Object EdgeSpec V B → GoMap String
edge_annotations print gvk o = made (
    ("kloudlite.io/group-version-kind", gvk)
    ∷ ("node-pools-count", print (length o.spec.pools))
    ∷ [])

module _ {W V B : Type 0} (c : Client W EdgeSpec V B) (keeps : Keeps c) where
  -- Where the labels and annotations to be ensured are those of an edge, and the server keeps what
  -- it is sent, `EnsureLabelsAndAnnotations` proceeds after it, whether it wrote or not.
  pub edge_labels_again :
      (s : State W EdgeSpec V B Unit) (print : ℕ → String) (gvk : String)
      → ((o : Object EdgeSpec V B) → c.ensured_labels o ≡ edge_labels o)
      → ((o : Object EdgeSpec V B) → c.ensured_annotations o ≡ edge_annotations print gvk o)
      → Proceeds (ensure_labels_and_annotations c (ensure_labels_and_annotations c s).1).0
  unfolding lookup
  edge_labels_again s print gvk labels annotations =
      ensure_labels_and_annotations_again c keeps s (record {
        label_list =
            ("kloudlite.io/provider", s.object.spec.provider)
            ∷ ("kloudlite.io/account.name", s.object.spec.account_name)
            ∷ ("kloudlite.io/edge.name", s.object.metadata.name)
            ∷ ("kloudlite.io/provider.name", s.object.spec.provider_name)
            ∷ [];
        annotation_list =
            ("kloudlite.io/group-version-kind", gvk)
            ∷ ("node-pools-count", print (length s.object.spec.pools))
            ∷ [];
        labels-HasDistinctKeys = (refl, (refl, (refl, (refl, tt))));
        annotations-HasDistinctKeys = (refl, (refl, tt));
        ensured_labels-apart = λ l a. labels _;
        ensured_annotations-apart = λ l a. annotations _;
      })
