-- ===== src/Domain/Records.antt =====
-- Which records of the nameserver a domain is content with.
use kl_internal_operator.Base.{
  ◌≡◌, refl, ◌↔◌, String, false, List, [], ◌∷◌, ◌++◌, arith, string_eq, text_beq_iff,
}
use kl_internal_operator.Base.{some}
use kl_internal_operator.Kube.{Error}
use kl_internal_operator.Request.{Client, State}
use kl_internal_operator.Request.Stopping.{Stops, fail_with_status_error-Stops}
use kl_internal_operator.Request.Converging.{Keeps}
use kl_internal_operator.Request.Keeping.{fail_with_status_error_metadata}
use kl_internal_operator.Domain.{DomainSpec, Nameserver, finalize_domain, not_matched}

-- The addresses are the first answers, in their order.
abbrev pub Starts : List String → List String → Type 0
Starts ips answers = (rest : List String) × (answers ≡ ips ++ rest)

pub not_matched-Starts :
    (ips answers : List String) → not_matched ips answers ≡ false → Starts ips answers
unfolding not_matched
not_matched-Starts [] answers h = (answers, refl)
not_matched-Starts (v ∷ ips) [] h = absurd (ground arith)
not_matched-Starts (v ∷ ips) (a ∷ answers) h =
    let (rest, e) = not_matched-Starts ips answers (ground (arith, h, text_beq_iff v a)) in
    (rest, ground (arith, h, e, text_beq_iff v a))

not_matched-append : (ips rest : List String) → not_matched ips (ips ++ rest) ≡ false
unfolding not_matched
not_matched-append [] rest = refl
not_matched-append (v ∷ ips) rest = ground (arith, not_matched-append ips rest, text_beq_iff v v)

-- The comparison of `reconUpdateRecord` finds no mismatch exactly when the answers start with the
-- addresses of the domain: further answers are no mismatch.
pub not_matched_iff :
    (ips answers : List String) → (not_matched ips answers ≡ false) ↔ Starts ips answers
not_matched_iff ips answers =
    (not_matched-Starts ips answers, λ p. rw p.1 (not_matched-append ips p.0))

module _ {W V B : Type 0} (c : Client W DomainSpec V B) (k : Nameserver W) (keeps : Keeps c) where
  -- If the DNS record of a domain that is being deleted could not be deleted, the domain keeps its
  -- metadata, finalizers included, with a server that keeps what it is sent, and the reconciliation
  -- ends.
  pub finalize_domain_waits :
      (s : State W DomainSpec V B Unit) (e : Error)
      → (k.delete_domain s.world s.object.spec.name).0 ≡ some e
      → ((finalize_domain c k s).1.object.metadata ≡ s.object.metadata)
        × Stops (finalize_domain c k s).0
  unfolding finalize_domain
  finalize_domain_waits s e h =
      let w = (k.delete_domain s.world s.object.spec.name).1 in
      (
        ground (arith, h, fail_with_status_error_metadata c keeps e (record s { world = w })),
        rw h (fail_with_status_error-Stops c e [] (record s { world = w })),
      )
