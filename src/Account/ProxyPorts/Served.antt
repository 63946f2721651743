-- ===== src/Account/ProxyPorts/Served.antt =====
-- The device controller finds in the account's proxy configuration what it looks for: the proxy
-- port of every port of a device.
use mathlib.Core.Path.{subst}
use kl_internal_operator.Base.{
  ℕ, ◌≡◌, refl, sym, ◌⊎◌, inl, inr, String, Bool, true, false, List, [], ◌∷◌, ◌++◌, if◌then◌else◌,
  All, All-map, Any, arith, text_beq_iff, string_eq, ◌==◌,
}
use kl_internal_operator.Base.Integers.{ℤ}
use kl_internal_operator.Kube.{Result, ok, err}
use kl_internal_operator.Operator.{Object}
use kl_internal_operator.Management.{
  Port, DeviceSpec, ConfigService, ServicePort, service_id, get_remote_device_ip,
}
use kl_internal_operator.Device.Services.{get_port, then_port, service_ports}
use kl_internal_operator.Account.ProxyPorts.{get_temp_port, with_address, port_configs, new_configs}

-- An entry has this id.
abbrev pub HasId : String → List ConfigService → Type 0
HasId id css = Any (λ cs. cs.id ≡ id) css

-- What is relied on of sort.Slice: no entry is lost.
abbrev pub LosesNone : (List ConfigService → List ConfigService) → Type 0
LosesNone sort = (css : List ConfigService) (id : String) → HasId id css → HasId id (sort css)

-- A value is there.
abbrev pub Succeeds : {A : Type 0} → Result A → Type 0
Succeeds (ok a) = Unit
Succeeds (err e) = ⊥

if-Succeeds :
    {A : Type 0} (b : Bool) (a : A) (r : Result A) → Succeeds r → Succeeds (if b then ok a else r)
if-Succeeds true a r h = tt
if-Succeeds false a r h = h

get_port-Succeeds :
    (css : List ConfigService) (id : String) → HasId id css → Succeeds (get_port css id)
unfolding get_port
get_port-Succeeds [] id h = absurd h
get_port-Succeeds (cs ∷ css) id (inl e) = ground (arith, e, text_beq_iff cs.id id)
get_port-Succeeds (cs ∷ css) id (inr h) =
    if-Succeeds (cs.id == id) cs.proxy_port (get_port css id) (get_port-Succeeds css id h)

then_port-Succeeds :
    (r : Result ℤ) (sp : ServicePort) (rest : Result (List ServicePort))
    → Succeeds r
    → Succeeds rest
    → Succeeds (then_port r sp rest)
unfolding then_port
then_port-Succeeds (err e) sp rest h h' = h
then_port-Succeeds (ok n) sp (err e) h h' = h'
then_port-Succeeds (ok n) sp (ok sps) h h' = tt

service_ports-Succeeds :
    (print : ℤ → String) (css : List ConfigService) (name : String) (ps : List Port)
    → All (λ p. HasId (service_id print name p.port) css) ps
    → Succeeds (service_ports print css name ps)
unfolding service_ports
service_ports-Succeeds print css name [] h = tt
service_ports-Succeeds print css name (p ∷ ps) (h, hs) =
    then_port-Succeeds _ _ _ (get_port-Succeeds css (service_id print name p.port) h)
      (service_ports-Succeeds print css name ps hs)

Any-append : {A : Type 0} (P : A → Type 0) (xs ys : List A) → Any P xs ⊎ Any P ys → Any P (xs ++ ys)
Any-append P [] ys (inl p) = absurd p
Any-append P [] ys (inr q) = q
Any-append P (x ∷ xs) ys (inl (inl p)) = inl p
Any-append P (x ∷ xs) ys (inl (inr p)) = inr (Any-append P xs ys (inl p))
Any-append P (x ∷ xs) ys (inr q) = inr (Any-append P xs ys (inr q))

Any-with_address :
    {W : Type 0} (P : ConfigService → Type 0) (r : Result String) (ip : String)
    (entry : String → ConfigService) (rest : List ConfigService × W)
    → r ≡ ok ip
    → Any P (entry ip ∷ rest.0)
    → Any P (with_address r entry rest).0
unfolding with_address
Any-with_address P (err x) ip entry rest e h = absurd (cc e)
Any-with_address P (ok x) ip entry rest e h =
    subst (λ r. Any P (with_address r entry rest).0) (sym e) h

module _ {W V B : Type 0} (rand_intn : W → ℕ → ℕ × W) (ip_at : ℤ → Result String)
    (print : ℤ → String) where
  port_configs-HasId :
      (config : List (String × ConfigService)) (d : Object DeviceSpec V B) (ip : String)
      (ps : List Port) (w : W)
      → get_remote_device_ip ip_at d.spec.offset ≡ ok ip
      → All
          (λ p.
            HasId
              (service_id print d.metadata.name p.port)
              (port_configs rand_intn ip_at print config d ps w).0)
          ps
  unfolding port_configs with_address
  port_configs-HasId config d ip [] w e = tt
  port_configs-HasId config d ip (p ∷ ps) w e =
      let id = service_id print d.metadata.name p.port in
      let found = Any-with_address _ (get_remote_device_ip ip_at d.spec.offset) ip _ _ e in
      (
        found (inl refl),
        All-map _ _ ps (λ q h. Any-with_address _ _ ip _ _ e (inr h))
            (port_configs-HasId config d ip ps (get_temp_port rand_intn config id w).1 e),
      )

  new_configs-HasId :
      (config : List (String × ConfigService)) (d : Object DeviceSpec V B) (ip : String)
      (ds : List (Object DeviceSpec V B)) (w : W)
      → get_remote_device_ip ip_at d.spec.offset ≡ ok ip
      → Any (λ e. e ≡ d) ds
      → All
          (λ p.
            HasId
              (service_id print d.metadata.name p.port)
              (new_configs rand_intn ip_at print config ds w).0)
          d.spec.ports
  unfolding new_configs
  new_configs-HasId config d ip [] w e h = absurd h
  new_configs-HasId config d ip (x ∷ ds) w e (inl same) =
      All-map _ _ d.spec.ports (λ q h. Any-append _ _ _ (inl h))
        (subst
          (λ x.
            All
              (λ p.
                HasId (service_id print d.metadata.name p.port)
                  (port_configs rand_intn ip_at print config x x.spec.ports w).0)
              d.spec.ports)
          (sym same) (port_configs-HasId config d ip d.spec.ports w e))
  new_configs-HasId config d ip (x ∷ ds) w e (inr h) =
      All-map _ _ d.spec.ports (λ q h. Any-append _ _ _ (inr h))
        (new_configs-HasId config d ip ds
          (port_configs rand_intn ip_at print config x x.spec.ports w).1 e h)

  -- With the configuration that the account's controller makes of a list of devices, in an order
  -- that loses no entry, the ports of the service are computed without an error for every device of
  -- the list whose address can be computed.
  pub service_ports-new_configs :
      (sort : List ConfigService → List ConfigService) (config : List (String × ConfigService))
      (ds : List (Object DeviceSpec V B)) (w : W) (d : Object DeviceSpec V B) (ip : String)
      → LosesNone sort
      → Any (λ e. e ≡ d) ds
      → get_remote_device_ip ip_at d.spec.offset ≡ ok ip
      → Succeeds (
          service_ports print
            (sort (new_configs rand_intn ip_at print config ds w).0)
            d.metadata.name
            d.spec.ports)
  service_ports-new_configs sort config ds w d ip law h e =
      service_ports-Succeeds print _ d.metadata.name d.spec.ports
        (All-map _ _ d.spec.ports (λ p has. law _ _ has) (new_configs-HasId config d ip ds w e h))
