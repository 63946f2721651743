-- ===== src/OlderOperator/Unlabelled.antt =====
-- What `EnsureLabels` of lib/operator/main.go does for a resource without labels.
use kl_internal_operator.Base.{◌≡◌, refl, String, false, some, arith, string_eq}
use kl_internal_operator.Exec.{returned}
use kl_internal_operator.GoMap.{GoMap, nil_map, made}
use kl_internal_operator.Functions.{map_contains}
use kl_internal_operator.Kube.{empty_result}
use kl_internal_operator.OlderOperator.{Client, State, new_step_result, filled, ensure_labels}

filled-nil_map : (labels el : GoMap String) → labels ≡ nil_map → filled labels el ≡ labels
unfolding filled
filled-nil_map nil_map el h = refl
filled-nil_map (made l) el h = ground (arith, h)

-- A resource whose labels are nil and that lacks one is sent to the API server as it is, without
-- the label, and the step stops the reconciliation.
ensure_labels_unlabelled :
    {W S V B L : Type 0} (c : Client W S V B) (s : State W S V B L)
    → s.object.metadata.labels ≡ nil_map
    → map_contains "" s.object.metadata.labels (c.ensured_labels s.object) ≡ false
    → ensure_labels c s ≡ (
        let (e, o, w) = c.update s.world s.object in
        (returned (new_step_result (some empty_result) e), record s { object = o; world = w }))
unfolding ensure_labels
ensure_labels_unlabelled c s nil lacks =
    rw (lacks, filled-nil_map s.object.metadata.labels (c.ensured_labels s.object) nil)
