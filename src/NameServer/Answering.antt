-- ===== src/NameServer/Answering.antt =====
-- What a response of the nameserver means to the controller of domains.
use Prim.Native.String.{◌++◌ as ◌<>◌}
use kl_internal_operator.Base.{◌≡◌, refl, none}
use kl_internal_operator.Kube.{ok}
use kl_internal_operator.Request.{Client, State, finalize}
use kl_internal_operator.Domain.{DomainSpec, finalize_domain}
use kl_internal_operator.NameServer.{NameServer, Http, delete_domain, as_nameserver}

-- If the request that deletes the record of a domain can be made and gets any response, whatever
-- its status, the finalizer of the domain goes on to `Finalize`, in the world after the request.
pub finalize_domain_answered :
    {W Q R B V C : Type 0} (h : Http W Q R B) (n : NameServer) (c : Client W DomainSpec V C)
    (s : State W DomainSpec V C Unit) (req : Q) (response : R) (w : W)
    → h.new_request "DELETE" (n.endpoint <> ("/delete-domain/" <> s.object.spec.name)) none ≡ ok req
    → h.send s.world 0 (h.set_basic_auth req n.user n.password) ≡ (ok response, w)
    → finalize_domain c (as_nameserver h n) s ≡ finalize c (record s { world = w })
unfolding finalize_domain as_nameserver delete_domain
finalize_domain_answered h n c s req response w made sent = rw (made, sent) refl
