-- ===== src/Linkerd.antt =====
-- lib/linkerd/main.go: linkerd on a cluster, by its command and kubectl. What is logged is left out.
pub mod Files
pub mod Issuer
use Prim.Native.String.{◌++◌ as ◌<>◌}
use kl_internal_operator.Base.{
  String, Bool, true, false, Option, none, some, List, [], ◌∷◌, ◌++◌, if◌then◌else◌,
}
use kl_internal_operator.Kube.{Result, ok, err}
use kl_internal_operator.Cluster.{
  Command, plain, Os, Sys, answer, deferring, ignoring, ◌>>=◌, ◌>>◌, Cluster, run_only,
  kubectl_apply, kubectl_delete, exec,
}

module _ {W : Type 0} (o : Os W) where
  -- The answer of a command is applied, or deleted.
  abbrev pub applying : Cluster → Sys W String → Sys W (Unit {0})
  applying l m = m >>= λ yml. kubectl_apply o l yml

  abbrev pub deleting : Cluster → Sys W String → Sys W (Unit {0})
  deleting l m = m >>= λ yml. kubectl_delete o l yml

  unfoldable pub pre_check : Cluster → Sys W (Unit {0})
  pre_check l = exec o l "linkerd" ("check" ∷ "--pre" ∷ []) >>= λ _. answer tt

  unfoldable pub check : Cluster → Sys W (Unit {0})
  check l =
      exec o l "kubectl" ("get" ∷ "cm/linkerd-config" ∷ "-n" ∷ "linkerd" ∷ "-o" ∷ "json" ∷ [])
      >>= λ _. answer tt

  unfoldable pub check_mc : Cluster → Sys W (Unit {0})
  check_mc l =
      exec o l "kubectl" ("get" ∷ "ns" ∷ "linkerd-multicluster" ∷ "-o" ∷ "json" ∷ []) >>= λ _.
      answer tt

  -- A certificate or key that is given is in a file of /tmp, told by a flag, while the rest runs; an
  -- error of the write is ignored.
  abbrev pub in_file :
      String → String → String → List String → (List String → Sys W (Unit {0})) → Sys W (Unit {0})
  in_file path text flag opts rest =
      deferring (λ w. (o.remove w path).1)
        (ignoring (λ w. o.write_file w path text) (rest (opts ++ ((flag <> path) ∷ []))))

  unfoldable pub with_file :
      Option String
      → String
      → String
      → List String
      → (List String → Sys W (Unit {0}))
      → Sys W (Unit {0})
  with_file none suffix flag opts rest = rest opts
  with_file (some text) suffix flag opts rest = do
    id ← o.nanoid
    in_file ("/tmp/" <> (id <> suffix)) text flag opts rest

  abbrev pub with_certificates :
      Option String
      → Option String
      → Option String
      → List String
      → (List String → Sys W (Unit {0}))
      → Sys W (Unit {0})
  with_certificates trust cert key opts rest =
      with_file trust ".crt" "--identity-trust-anchors-file=" opts (λ opts.
        with_file cert ".crt" "--identity-issuer-certificate-file=" opts
          (λ opts. with_file key ".key" "--identity-issuer-key-file=" opts rest))

  unfoldable pub install :
      Cluster → Option String → Option String → Option String → Sys W (Unit {0})
  install l trust_certs identity_cert identity_key =
      with_certificates trust_certs identity_cert identity_key ("install" ∷ [])
        (λ opts. applying l (exec o l "linkerd" opts))

  unfoldable pub upgrade :
      Cluster → Option String → Option String → Option String → Sys W (Unit {0})
  upgrade l trust_certs identity_cert identity_key =
      with_certificates trust_certs identity_cert identity_key ("upgrade" ∷ [])
        (λ opts. applying l (exec o l "linkerd" opts))

  unfoldable pub install_mc : Cluster → Sys W (Unit {0})
  install_mc l = applying l (exec o l "linkerd" ("mc" ∷ "install" ∷ []))

  unfoldable pub uninstall : Cluster → Sys W (Unit {0})
  uninstall l = deleting l (exec o l "linkerd" ("uninstall" ∷ []))

  unfoldable pub uninstall_mc : Cluster → Sys W (Unit {0})
  uninstall_mc l = deleting l (exec o l "linkerd" ("mc" ∷ "uninstall" ∷ []))

  -- `linkerd uninject -` on the resources; both `UnInject` and `Inject` run it.
  abbrev pub uninjected : String → Sys W String
  uninjected yml w = o.run w (record (plain "linkerd" ("uninject" ∷ "-" ∷ [])) { stdin = some yml })

  unfoldable pub un_inject : Cluster → Sys W (Unit {0})
  un_inject l = do
    yml ← exec o l "kubectl" ("get" ∷ "namespaces" ∷ "-o" ∷ "yaml" ∷ [])
    applying l (uninjected yml)

  unfoldable pub inject : Cluster → String → Sys W (Unit {0})
  inject l namespace = do
    yml ← exec o l "kubectl" ("get" ∷ "ns" ∷ namespace ∷ "-o" ∷ "yaml" ∷ [])
    applying l (uninjected yml)

  abbrev pub reading : String → Sys W String
  reading path w = (o.read_file w path, w)

  abbrev pub both_files : String → String → Sys W (String × String)
  both_files cert_path key_path = do
    cert ← reading cert_path
    key ← reading key_path
    answer (cert, key)

  -- The directory is made unless it is there.
  abbrev pub made_directory : String → W → W
  made_directory path w = if o.is_not_exist w path then (o.mkdir w path).1 else w

  unfoldable pub create_root_certificate : Sys W (String × String)
  create_root_certificate w =
      deferring (λ w. (o.remove_all w "/tmp/root-cert").1)
        (do
          run_only o (
              plain "step-cli" (
                "certificate" ∷ "create" ∷ "root.linkerd.cluster.local" ∷ "/tmp/root-cert/root.crt"
                ∷ "/tmp/root-cert/root.key" ∷ "--profile" ∷ "root-ca" ∷ "--no-password"
                ∷ "--insecure" ∷ []))
          both_files "/tmp/root-cert/root.crt" "/tmp/root-cert/root.key")
        (made_directory "/tmp/root-cert" w)

  abbrev pub issuer_command : String → Command
  issuer_command id = plain "step-cli" (
      "certificate"
      ∷ "create"
      ∷ "identity.linkerd.cluster.local"
      ∷ ("/tmp/" <> (id <> "-issuer.crt"))
      ∷ ("/tmp/" <> (id <> "-issuer.key"))
      ∷ "--profile=intermediate-ca"
      ∷ "--not-after=8760h"
      ∷ "--no-password"
      ∷ "--insecure"
      ∷ ("--ca=" <> ("/tmp/" <> (id <> "-root.crt")))
      ∷ ("--ca-key=" <> ("/tmp/" <> (id <> "-root.key")))
      ∷ [])

  -- A file that is written, and removed once the rest has run; an error of the write ends it.
  abbrev pub while_written : {A : Type 0} → String → String → Sys W A → Sys W A
  while_written path text rest =
      (λ w. o.write_file w path text) >>= λ _. deferring (λ w. (o.remove w path).1) rest

  unfoldable pub generate_issuer_cert : String → String → Sys W (String × String)
  generate_issuer_cert root_ca root_key = do
    id ← o.nanoid
    let cert_path = "/tmp/" <> (id <> "-root.crt")
    let key_path = "/tmp/" <> (id <> "-root.key")
    while_written cert_path root_ca (
        while_written key_path root_key
          (do run_only o (issuer_command id); both_files cert_path key_path))

  abbrev pub succeeded : Result String → Bool
  succeeded (ok out) = true
  succeeded (err e) = false

  unfoldable pub check_is_linked : Cluster → String → W → Bool × W
  check_is_linked l cluster_name w =
      let (r, w') =
        exec o l "kubectl"
          ("get"
            ∷ ("links.multicluster.linkerd.io/" <> cluster_name)
            ∷ "-n"
            ∷ "linkerd-multicluster"
            ∷ [])
          w in
      (succeeded r, w')

  unfoldable pub link : Cluster → Cluster → Sys W (Unit {0})
  link l cluster =
      applying l
        (exec o cluster "linkerd" ("multicluster" ∷ "link" ∷ "--cluster-name" ∷ cluster.name ∷ []))
