-- ===== src/Examples/Clusters.antt =====
-- The files of linkerd at a concrete system: its files are a function, every command answers a text
-- and leaves them, and every id is the same.

use kl_internal_operator.Base.{
  [], String, Option, none, some, ◌≡◌, refl, ap, text_beq, text_beq_iff, if◌then◌else◌, arith,
}
use kl_internal_operator.Kube.{Result, ok, err, new_error}
use kl_internal_operator.Cluster.{Os, Cluster}
use kl_internal_operator.Linkerd.{install, upgrade, generate_issuer_cert}
use kl_internal_operator.Linkerd.Files.{recording, IsCleaned, install_cleans_up}
use kl_internal_operator.Linkerd.Issuer.{RootFiles, generate_issuer_cert_root}

abbrev FileMap : Type 0
FileMap = String → Option String

abbrev of_option : Option String → Result String
of_option none = err (new_error "no such file")
of_option (some text) = ok text

abbrev machine : Os FileMap
machine = record {
  run = λ w c. (ok "out", w);
  write_file = λ w p t. (ok tt, λ q. if text_beq q p then some t else w q);
  read_file = λ w p. of_option (w p);
  remove = λ w p. (ok tt, λ q. if text_beq q p then none else w q);
  remove_all = λ w p. (ok tt, w);
  is_not_exist = λ w p. text_beq p "/tmp/root-cert";
  mkdir = λ w p. (ok tt, w);
  nanoid = λ w. (ok "id", w);
}

abbrev one_file : FileMap
one_file q = if text_beq q "/etc/hosts" then some "local" else none

abbrev cluster : Cluster
cluster = record { name = "c"; id = ""; kubeconfig = "k"; temp_file_path = "/tmp/clus_k" }

machine-RootFiles : RootFiles machine (λ w q. w q)
machine-RootFiles = record {
  write-there = λ w p t wrote. ground (arith, text_beq_iff p p);
  write-elsewhere = λ w p t q apart. ground (arith, apart, text_beq_iff q p);
  read-there = λ w p t there. ap of_option there;
  run-Keeps = λ w args q named. refl;
}

install_cleans_up_example :
    IsCleaned (install (recording machine) cluster (some "ca") none (some "key") (one_file, [])).1.1
    × IsCleaned
        (upgrade (recording machine) cluster (some "ca") none (some "key") (one_file, [])).1.1
install_cleans_up_example = install_cleans_up machine cluster (some "ca") none (some "key") one_file

abbrev root_pair : String × String
root_pair = ("ca", "key")

generate_issuer_cert_root_example : root_pair ≡ ("ca", "key")
generate_issuer_cert_root_example =
    generate_issuer_cert_root machine-RootFiles "ca" "key" one_file root_pair
      (unfold generate_issuer_cert in refl)
