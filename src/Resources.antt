-- ===== src/Resources.antt =====
-- lib/kresource/main.go: the resources that pods request and nodes offer, from kubectl's answer.
-- Go's string and number functions are the parameter `Strings`; running kubectl and decoding its
-- JSON is the parameter `query`, which is given the whole command line.
use Prim.Native.String.{◌++◌ as ◌<>◌}
use kl_internal_operator.Base.{String, none, some, List, [], ◌∷◌, ◌!=◌, string_eq, if◌then◌else◌}
use kl_internal_operator.Base.Integers.{ℤ, pos, ◌+ℤ◌, ◌*ℤ◌, quot}
use kl_internal_operator.Kube.{Result, ok, err}

-- strings.ReplaceAll, strings.TrimSpace and strconv.ParseInt(_, 10, 32)
pub record Strings : Type 0 where
  pub replace_all : String → String → String → String
  pub trim_space : String → String
  pub parse_int : String → Result ℤ

pub record Res : Type 0 where
  pub cpu : ℤ
  pub memory : ℤ

-- One element of kubectl's answer: the struct `resource`.
pub record ResourceText : Type 0 where
  pub cpu : String
  pub memory : String

join_labels : List (String × String) → String
join_labels [] = ""
join_labels ((k, v) ∷ []) = k <> ("=" <> v)
join_labels ((k, v) ∷ l ∷ ls) = k <> ("=" <> (v <> ("," <> join_labels (l ∷ ls))))

abbrev pub then_ok {ℓ κ} : {A : Type ℓ} {B : Type κ} → Result A → (A → Result B) → Result B
then_ok (ok a) f = f a
then_ok (err e) f = err e

module _ (t : Strings) where
  -- A quantity with its unit taken off, added to the total; a blank one adds nothing.
  unfoldable pub add_quantity : String → String → ℤ → ℤ → Result ℤ
  add_quantity unit text factor total =
      let bare = t.replace_all text unit "" in
      if t.trim_space bare != ""
      then then_ok (t.parse_int bare) (λ n. ok (total +ℤ n *ℤ factor))
      else ok total

  -- The loop of `GetTotalPodRequest`.
  unfoldable pub total_requests : Res → List ResourceText → Result Res
  total_requests acc [] = ok acc
  total_requests acc (v ∷ vs) = then_ok (add_quantity "Mi" v.memory (pos 1) acc.memory) λ memory.
      then_ok (add_quantity "m" v.cpu (pos 1) acc.cpu)
        λ cpu. total_requests (record { cpu = cpu; memory = memory }) vs

  -- A number of cores is a thousand of the thousandths that the suffix `m` counts.
  abbrev cpu_factor : String → ℤ
  cpu_factor cpu = if t.replace_all cpu "m" "" != cpu then pos 1 else pos 1000

  -- Here the code tests the text itself for blanks, and then takes the unit off.
  add_cpu : String → ℤ → Result ℤ
  add_cpu cpu total =
      if t.trim_space cpu != ""
      then then_ok (t.parse_int (t.replace_all cpu "m" "")) (λ n. ok (total +ℤ n *ℤ cpu_factor cpu))
      else ok total

  -- The loop of `GetTotalResource`, whose memory stays in Ki until the end.
  unfoldable pub total_capacity : Res → List ResourceText → Result Res
  unfolding add_cpu
  total_capacity acc [] = ok acc
  total_capacity acc (r ∷ rs) = then_ok (add_quantity "Ki" r.memory (pos 1) acc.memory) λ memory.
      then_ok (add_cpu r.cpu acc.cpu)
        λ cpu. total_capacity (record { cpu = cpu; memory = memory }) rs

  abbrev no_res : Res
  no_res = record { cpu = pos 0; memory = pos 0 }

  unfoldable pub get_total_pod_request :
      (String → Result (List ResourceText)) → List (String × String) → String → Result Res
  unfolding join_labels
  get_total_pod_request query labels limit_or_request =
      then_ok
        (query (
          "kubectl get pods -A -o jsonpath-as-json={.items[*].spec.containers[*].resources."
          <> (limit_or_request <> ("} -l " <> join_labels labels))))
        (total_requests no_res)

  -- The division by 1024 is by a constant, so that `quot` never panics.
  unfoldable pub get_total_resource :
      (String → Result (List ResourceText)) → List (String × String) → Result Res
  unfolding join_labels
  get_total_resource query labels =
      then_ok
        (query (
          "kubectl get nodes -o jsonpath-as-json={.items[*].status.allocatable} -l "
          <> join_labels labels))
        λ answer. then_ok (total_capacity no_res answer) λ total. ok (record total {
          memory = elim (quot total.memory (pos 1024)) [ none ↦ pos 0 | some m ↦ m ];
        })
