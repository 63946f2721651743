-- ===== src/Region/Addresses.antt =====
-- Which addresses of a region's nodes go into its DNS record.
use kl_internal_operator.Base.{◌≡◌, ◌↔◌, ◌⊎◌, String, none, some, List, [], ◌∷◌, Any, arith}
use kl_internal_operator.GoMap.{get}
use kl_internal_operator.Kube.{ObjectMeta}
use kl_internal_operator.Region.{external_ip, public_ip, node_ips}

-- The address of a node: that of its annotation, or without one that of its label.
abbrev pub IsAddress : String → ObjectMeta → Type 0
IsAddress ip node =
    (get node.annotations external_ip ≡ some ip)
    ⊎ ((get node.annotations external_ip ≡ none) × (get node.labels public_ip ≡ some ip))

-- An address is one of those that `reconUpdateRecord` sends exactly when some node has it in its
-- annotation of the external address or, where it has no such annotation, in its label of the
-- public address.
pub node_ips_iff :
    (ip : String) (nodes : List ObjectMeta)
    → Any (λ j. j ≡ ip) (node_ips nodes) ↔ Any (IsAddress ip) nodes
unfolding node_ips
node_ips_iff ip [] = (λ h. h, λ h. h)
node_ips_iff ip (node ∷ nodes) =
    let rest = node_ips_iff ip nodes in
    (λ h. ground (arith, rest.0), λ h. ground (arith, h, rest.1))
