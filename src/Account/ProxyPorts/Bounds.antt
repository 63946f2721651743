-- ===== src/Account/ProxyPorts/Bounds.antt =====
-- Which proxy port each port of a device has in the new configuration.
use kl_internal_operator.Base.{
  ℕ, zero, suc, ◌<◌, ◌≡◌, refl, String, Option, none, some, List, [], ◌∷◌, ◌++◌, All, arith,
}
use kl_internal_operator.Base.Integers.{ℤ, pos, ◌≤ℤ◌, ◌<ℤ◌}
use kl_internal_operator.GoMap.{lookup}
use kl_internal_operator.Kube.{Result, ok, err}
use kl_internal_operator.Operator.{Object}
use kl_internal_operator.Management.{
  Port, DeviceSpec, ConfigService, service_id, get_remote_device_ip,
}
use kl_internal_operator.Account.ProxyPorts.{
  draw_port, get_temp_port, with_address, port_configs, new_configs,
}

-- The port that the old configuration has, or one of the range from which ports are drawn.
abbrev pub Assigned : Option ConfigService → ℤ → Type 0
Assigned (some old) port = port ≡ old.proxy_port
Assigned none port = (pos 3000 ≤ℤ port) × (port <ℤ pos 6000)

-- What is relied on of rand.Intn.
abbrev pub DrawsBelow : {W : Type 0} → (W → ℕ → ℕ × W) → Type 0
DrawsBelow {W} rand_intn = (w : W) (n : ℕ) → 0 < n → (rand_intn w n).0 < n

All-append : {A : Type 0} (P : A → Type 0) (xs ys : List A) → All P xs → All P ys → All P (xs ++ ys)
All-append P [] ys p q = q
All-append P (x ∷ xs) ys (p, ps) q = (p, All-append P xs ys ps q)

module _ {W : Type 0} (rand_intn : W → ℕ → ℕ × W) (law : DrawsBelow rand_intn) where
  draw_port-Assigned :
      (tries : ℕ) (config : List (String × ConfigService)) (w : W)
      → Assigned none (draw_port rand_intn tries config w).0
  unfolding draw_port
  draw_port-Assigned zero config w = ground (arith, law w 3000)
  draw_port-Assigned (suc fewer) config w =
      ground (arith, law w 3000, draw_port-Assigned fewer config (rand_intn w 3000).1)

  by_lookup :
      (config : List (String × ConfigService)) (id : String) (w : W) (o : Option ConfigService)
      → lookup config id ≡ o
      → Assigned o (get_temp_port rand_intn config id w).0
  unfolding get_temp_port
  by_lookup config id w (some old) e = ground (arith, e)
  by_lookup config id w none e = ground (arith, e, draw_port-Assigned 3001 config w)

-- The port of an entry is what its id has to have.
abbrev pub IsAssigned : List (String × ConfigService) → ConfigService → Type 0
IsAssigned config cs = Assigned (lookup config cs.id) cs.proxy_port

All-with_address :
    {W : Type 0} (P : ConfigService → Type 0) (ip : Result String) (entry : String → ConfigService)
    (rest : List ConfigService × W)
    → ((ip : String) → P (entry ip))
    → All P rest.0
    → All P (with_address ip entry rest).0
unfolding with_address
All-with_address P (err e) entry (rest, w) p ps = ps
All-with_address P (ok ip) entry (rest, w) p ps = (p ip, ps)

module _ {W V B : Type 0} (rand_intn : W → ℕ → ℕ × W) (law : DrawsBelow rand_intn)
    (ip_at : ℤ → Result String) (print : ℤ → String) where
  port_configs-IsAssigned :
      (config : List (String × ConfigService)) (d : Object DeviceSpec V B) (ps : List Port) (w : W)
      → All (IsAssigned config) (port_configs rand_intn ip_at print config d ps w).0
  unfolding port_configs
  port_configs-IsAssigned config d [] w = tt
  port_configs-IsAssigned config d (p ∷ ps) w =
      let id = service_id print d.metadata.name p.port in
      All-with_address _ (get_remote_device_ip ip_at d.spec.offset) _ _
        (λ ip. by_lookup rand_intn law config id w (lookup config id) refl)
        (port_configs-IsAssigned config d ps (get_temp_port rand_intn config id w).1)

  -- Every entry of the new configuration has the proxy port of the old entry of its id where there
  -- is one, and else a port from 3000 to 5999, when `rand.Intn` draws below its argument.
  pub new_configs-IsAssigned :
      (config : List (String × ConfigService)) (ds : List (Object DeviceSpec V B)) (w : W)
      → All (IsAssigned config) (new_configs rand_intn ip_at print config ds w).0
  unfolding new_configs
  new_configs-IsAssigned config [] w = tt
  new_configs-IsAssigned config (d ∷ ds) w =
      All-append _ _ _ (port_configs-IsAssigned config d d.spec.ports w) (
        new_configs-IsAssigned config ds
          (port_configs rand_intn ip_at print config d d.spec.ports w).1)
