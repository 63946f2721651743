-- ===== src/Account/ProxyPorts.antt =====
-- controllers/common/account/account_controller.go, in `reconDevProxyConfig`: the proxy ports of the
-- devices' ports, kept from the old configuration or drawn at random.
pub mod Bounds
pub mod Served
use kl_internal_operator.Base.{
  ℕ, zero, suc, ◌++◌, ◌+◌, String, Bool, true, false, ◌==◌, ◌!=◌, string_eq, List, [], ◌∷◌, Option,
  none, some, if◌then◌else◌,
}
use kl_internal_operator.Base.Integers.{ℤ, pos, int_eq}
use kl_internal_operator.GoMap.{GoMap, made, entries, get, insert}
use kl_internal_operator.Kube.{Error, Result, ok, err}
use kl_internal_operator.Operator.{Object}
use kl_internal_operator.Management.{
  Port, DeviceSpec, ConfigService, service_id, get_remote_device_ip,
}

-- `configData`: the entries of the old configuration by their id; a later one replaces an earlier.
unfoldable pub config_data :
    List ConfigService → List (String × ConfigService) → List (String × ConfigService)
config_data [] m = m
config_data (cs ∷ css) m = config_data css (insert cs.id cs m)

-- `isContains`: the service ports are compared, not the proxy ports.
unfoldable pub is_contains : List (String × ConfigService) → ℤ → Bool
is_contains [] port = false
is_contains ((k, s) ∷ svce) port = if s.service_port == port then true else is_contains svce port

-- `port.TargetPort`, or the port itself where that is zero.
abbrev pub service_port : Port → ℤ
service_port p = if p.target_port != pos 0 then p.target_port else p.port

module _ {W : Type 0} (rand_intn : W → ℕ → ℕ × W) where
  -- The loop that draws a port: `tries` is 3001 - count, so that at 0 the count is above 3000 and
  -- the port is taken as it is.
  unfoldable pub draw_port : ℕ → List (String × ConfigService) → W → ℤ × W
  draw_port zero config w = let (n, w') = rand_intn w 3000 in (pos (n + 3000), w')
  draw_port (suc fewer) config w =
      let (n, w') = rand_intn w 3000 in
      elim (is_contains config (pos (n + 3000))) [
        | false ↦ (pos (n + 3000), w')
        | true ↦ draw_port fewer config w'
      ]

  unfoldable pub get_temp_port : List (String × ConfigService) → String → W → ℤ × W
  get_temp_port config id w = elim (get (made config) id) [
    | some cs ↦ (cs.proxy_port, w)
    | none ↦ draw_port 3001 config w
  ]

-- A device without an address has no entry (`continue`).
unfoldable pub with_address :
    {W : Type 0}
    → Result String
    → (String → ConfigService)
    → List ConfigService × W
    → List ConfigService × W
with_address (err e) entry (rest, w) = (rest, w)
with_address (ok ip) entry (rest, w) = (entry ip ∷ rest, w)

module _ {W V B : Type 0} (rand_intn : W → ℕ → ℕ × W) (ip_at : ℤ → Result String)
    (print : ℤ → String) where
  -- The loop over the ports of a device: the port is drawn before the address is asked for.
  unfoldable pub port_configs :
      List (String × ConfigService) → Object DeviceSpec V B → List Port → W → List ConfigService × W
  port_configs config d [] w = ([], w)
  port_configs config d (p ∷ ps) w =
      let id = service_id print d.metadata.name p.port in
      let (proxy, w1) = get_temp_port rand_intn config id w in
      let (rest, w2) = port_configs config d ps w1 in
      with_address (get_remote_device_ip ip_at d.spec.offset)
        (λ ip. record { id = id; name = ip; service_port = service_port p; proxy_port = proxy })
        (rest, w2)

  -- The loop over the devices. `config` is never written, so every port is drawn against the old
  -- configuration alone.
  unfoldable pub new_configs :
      List (String × ConfigService) → List (Object DeviceSpec V B) → W → List ConfigService × W
  new_configs config [] w = ([], w)
  new_configs config (d ∷ ds) w =
      let (own, w1) = port_configs config d d.spec.ports w in
      let (rest, w2) = new_configs config ds w1 in (own ++ rest, w2)
