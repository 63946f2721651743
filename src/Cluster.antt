-- ===== src/Cluster.antt =====
-- lib/cluster/main.go: a cluster that other commands are run against. os, os/exec and gonanoid are
-- the record `Os`.
use Prim.Native.String.{◌++◌ as ◌<>◌}
use kl_internal_operator.Base.{String, Bool, Option, none, some, List, [], ◌∷◌}
use kl_internal_operator.Kube.{Result, ok, err}

-- exec.Cmd: the input, and the variable KUBECONFIG where it is added.
pub record Command : Type 0 where
  pub name : String
  pub args : List String
  pub stdin : Option String
  pub kubeconfig : Option String

abbrev pub plain : String → List String → Command
plain name args = record { name = name; args = args; stdin = none; kubeconfig = none }

-- Over a world `W`. `run` gives the output of a command; the texts stand for their bytes.
pub record Os (W : Type 0) : Type 0 where
  pub run : W → Command → Result String × W
  pub write_file : W → String → String → Result (Unit {0}) × W
  pub read_file : W → String → Result String
  pub remove : W → String → Result (Unit {0}) × W
  pub remove_all : W → String → Result (Unit {0}) × W
  pub is_not_exist : W → String → Bool
  pub mkdir : W → String → Result (Unit {0}) × W
  pub nanoid : W → Result String × W

-- Go code that returns early on an error.
abbrev pub Sys : Type 0 → Type 0 → Type 0
Sys W A = W → Result A × W

module _ {W A : Type 0} where
  abbrev pub answer : A → Sys W A
  answer a w = (ok a, w)

  -- The call of `defer` runs however `m` ends.
  abbrev pub deferring : (W → W) → Sys W A → Sys W A
  deferring d m w = let (r, w') = m w in (r, d w')

module _ {W A B : Type 0} where
  abbrev pub resume : Result A → (A → Sys W B) → Sys W B
  resume (ok a) f w = f a w
  resume (err e) f w = (err e, w)

  infixl 10 ◌>>=◌ ◌>>◌
  abbrev pub ◌>>=◌ : Sys W A → (A → Sys W B) → Sys W B
  ◌>>=◌ m f w = let (r, w') = m w in resume r f w'

  -- The result of the first is dropped, its error as well.
  abbrev pub ignoring : Sys W A → Sys W B → Sys W B
  ignoring m n w = n (m w).1

  abbrev pub ◌>>◌ : Sys W A → Sys W B → Sys W B
  m >> n = m >>= λ _. n

-- The struct `Client`.
pub record Cluster : Type 0 where
  pub name : String
  pub id : String
  pub kubeconfig : String
  pub temp_file_path : String

unfoldable pub new_cluster : String → String → Cluster
new_cluster kubeconfig name = record {
  name = name;
  id = "";
  kubeconfig = kubeconfig;
  temp_file_path = "";
}

module _ {W : Type 0} (o : Os W) where
  abbrev pub run_only : Command → Sys W (Unit {0})
  run_only cmd = (λ w. o.run w cmd) >>= λ _. answer tt

  abbrev pub kubectl_with : Cluster → String → String → Command
  kubectl_with c verb input = record {
    name = "kubectl";
    args = "--kubeconfig" ∷ c.temp_file_path ∷ verb ∷ "-f" ∷ "-" ∷ [];
    stdin = some input;
    kubeconfig = none;
  }

  unfoldable pub kubectl_apply : Cluster → String → Sys W (Unit {0})
  kubectl_apply c input = run_only (kubectl_with c "apply" input)

  unfoldable pub kubectl_delete : Cluster → String → Sys W (Unit {0})
  kubectl_delete c input = run_only (kubectl_with c "delete" input)

  unfoldable pub exec : Cluster → String → List String → Sys W String
  exec c cmd args w = o.run w (record (plain cmd args) { kubeconfig = some c.temp_file_path })

  -- `Init`; the client that it leaves is the last part of the value.
  unfoldable pub init_with : Cluster → Result String → Sys W (Unit {0}) × Cluster
  init_with c (err e) = ((λ w. (err e, w)), c)
  init_with c (ok file_name) =
      let path = "/tmp/clus_" <> file_name in
      ((λ w. o.write_file w path c.kubeconfig), record c { temp_file_path = path })

  unfoldable pub init : Cluster → W → (Result (Unit {0}) × Cluster) × W
  unfolding init_with
  init c w =
      let (drawn, w') = o.nanoid w in
      let (write, c') = init_with c drawn in let (r, w'') = write w' in ((r, c'), w'')

  unfoldable pub destroy : Cluster → Sys W (Unit {0})
  destroy c w = o.remove w c.temp_file_path
