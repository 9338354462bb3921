-- ===== src/Pods/Build/Addresses.antt =====
-- What BuildPod tells a pod of the others (pkg/context/pod.go), and where the pod itself is found.
use di_orchestrator.Base.{
  ℕ, zero, suc, ◌+◌, ◌≤◌, ◌≡◌, refl, sym, subst, ap, ◌∙◌, true, false, Bool-cases, inl, inr, Option,
  none, some, List, [], ◌∷◌, ◌++◌, arith, length, length-append, get_elem?, map,
}
use di_orchestrator.Text.{Text, codes, text_eq, text_eq_iff, join, itoa, replace_byte}
use di_orchestrator.Dict.{Dict, lookup, lookup-insert}
use di_orchestrator.Kube.{Pod}
use di_orchestrator.Job.{DiJob, Task}
use di_orchestrator.Machine.{Settings}
use di_orchestrator.Utils.Names.{replica_name, pod_fqdn}
use di_orchestrator.Utils.Spec.{
  add_labels_to_pod, add_annotations_to_pod, add_envs_to_pod, get_env_from_pod,
}
use di_orchestrator.Utils.Spec.Envs.{IsUnset, get_env_from_pod-added}
use di_orchestrator.Controller.Replicas.Built.{slots, slots_of}
use di_orchestrator.Pods.Build.{
  svc_name, fqdns_of_task, fqdns, task_nodes_env, pod_envs, pod_on, NodeChoice, node_for,
  pod_on_node, build_pod,
}

-- The host name under which the pod is found.
abbrev pub address : Settings → Pod → Text
address settings pod =
    pod_fqdn pod.spec.hostname pod.spec.subdomain pod.namespace settings.service_domain_name

-- The name of the variable of a task is too long to be one of these two.
task_nodes_env-length :
    (settings : Settings) (name : Text) → 9 ≤ length (task_nodes_env settings name)
task_nodes_env-length settings name =
    omega (arith, length-append (replace_byte b'-' b'_' (settings.to_upper name)) (codes "_NODES"))

other_name :
    (settings : Settings) (name k : Text)
    → length k ≤ 8
    → text_eq (task_nodes_env settings name) k ≡ false
other_name settings name k h = elim (Bool-cases (text_eq (task_nodes_env settings name) k)) [
  | inl same ↦ absurd (
      omega (
        arith,
        task_nodes_env-length settings name,
        ap length ((text_eq_iff (task_nodes_env settings name) k).0 same),
      ))
  | inr other ↦ other
]

lookup-pod_envs :
    (settings : Settings) (job : DiJob) (task : Task) (rank : ℕ)
    → (lookup (codes "DI_RANK") (pod_envs settings job task rank) ≡ some (itoa rank))
      × (lookup (codes "DI_NODES") (pod_envs settings job task rank)
          ≡ some (join (codes ",") (fqdns settings job job.spec.tasks)))
unfolding pod_envs lookup text_eq
lookup-pod_envs settings job task rank = (
  lookup-insert (task_nodes_env settings task.name) (codes "DI_RANK") _ _
      ∙ rw (other_name settings task.name (codes "DI_RANK") (omega arith)) refl,
  lookup-insert (task_nodes_env settings task.name) (codes "DI_NODES") _ _
      ∙ rw (other_name settings task.name (codes "DI_NODES") (omega arith)) refl,
)

-- The template of the task has a container for the variables, which leaves both of them unset.
abbrev pub Untold : Task → Type 0
Untold task =
    IsUnset (codes "DI_RANK") task.template.containers
    × IsUnset (codes "DI_NODES") task.template.containers

-- What a pod is told of its rank and of the host names of the job, and where it is found itself.
pub record Told (settings : Settings) (job : DiJob) (rank : ℕ) (task : Task) (local_rank : ℕ)
    (pod : Pod) : Type 0 where
  pub rank_told : get_env_from_pod pod (codes "DI_RANK") ≡ (itoa rank, true)
  pub nodes_told :
      get_env_from_pod pod (codes "DI_NODES")
      ≡ (join (codes ",") (fqdns settings job job.spec.tasks), true)
  pub found_at :
      address settings pod
      ≡ pod_fqdn
          (replica_name job.name task.name local_rank)
          (svc_name job.name)
          job.namespace
          settings.service_domain_name

pub pod_on-Told :
    (settings : Settings) (job : DiJob) (rank : ℕ) (assigned : Option Text) (task : Task)
    (local_rank : ℕ)
    → Untold task
    → Told settings job rank task local_rank (pod_on settings job rank assigned task local_rank)
unfolding pod_on add_envs_to_pod add_labels_to_pod add_annotations_to_pod
pod_on-Told settings job rank assigned task local_rank (no_rank, no_nodes) =
    let (rank_is, nodes_are) = lookup-pod_envs settings job task rank in
    record {
      rank_told =
          get_env_from_pod-added (codes "DI_RANK") (itoa rank) envs bare built refl no_rank rank_is;
      nodes_told =
          get_env_from_pod-added (codes "DI_NODES") _ envs bare built refl no_nodes nodes_are;
      found_at = refl;
    }
  where
    envs : Dict Text
    envs = pod_envs settings job task rank

    built : Pod
    built = pod_on settings job rank assigned task local_rank

    bare : Pod
    bare = record built { spec = record built.spec { containers = task.template.containers } }

pub build_pod-Told :
    (settings : Settings) (job : DiJob) (rank : ℕ) (allocation : List Text) (num local_rank : ℕ)
    (task : Task) (pod : Pod)
    → get_elem? job.spec.tasks num ≡ some task
    → Untold task
    → build_pod settings job rank allocation num local_rank ≡ some pod
    → Told settings job rank task local_rank pod
unfolding build_pod
build_pod-Told settings job rank allocation num local_rank task pod e untold built =
    go (node_for job.spec.preemptible allocation rank) (rw e at built)
  where
    some-inj : {a b : Pod} → some a ≡ some b → a ≡ b
    some-inj h = cc

    go :
        (choice : NodeChoice)
        → pod_on_node settings job rank task local_rank choice ≡ some pod
        → Told settings job rank task local_rank pod
    go NodeChoice.out_of_range f = cc
    go NodeChoice.unassigned f =
        subst (Told settings job rank task local_rank) (some-inj f)
          (pod_on-Told settings job rank none task local_rank untold)
    go (NodeChoice.node name) f =
        subst (Told settings job rank task local_rank) (some-inj f)
          (pod_on-Told settings job rank (some name) task local_rank untold)

-- The host name of the replica of a task.
abbrev pub slot_address : Settings → DiJob → Task × ℕ → Text
slot_address settings job (task, i) =
    pod_fqdn (replica_name job.name task.name i) (svc_name job.name) job.namespace
      settings.service_domain_name

map-append : {A B : Type 0} (f : A → B) (xs ys : List A) → map f (xs ++ ys) ≡ map f xs ++ map f ys
map-append f [] ys = refl
map-append f (x ∷ xs) ys = ap (λ l. f x ∷ l) (map-append f xs ys)

-- The replicas of a task, with the last one apart.
slots_of-last :
    (task : Task) (n i : ℕ) → slots_of task (suc n) i ≡ slots_of task n i ++ (task, n + i) ∷ []
slots_of-last task zero i = ap (λ j. (task, j) ∷ []) (omega arith)
slots_of-last task (suc n) i =
    ap (λ l. (task, i) ∷ l)
      (slots_of-last task n (suc i)
        ∙ ap (λ j. slots_of task n (suc i) ++ (task, j) ∷ []) (omega arith))

fqdns_of_task-slots_of :
    (settings : Settings) (job : DiJob) (task : Task) (n : ℕ)
    → fqdns_of_task settings job task.name n ≡ map (slot_address settings job) (slots_of task n 0)
unfolding fqdns_of_task
fqdns_of_task-slots_of settings job task zero = refl
fqdns_of_task-slots_of settings job task (suc n) =
    ap (λ l. l ++ slot_address settings job (task, n) ∷ [])
      (fqdns_of_task-slots_of settings job task n)
    ∙ (sym (map-append (slot_address settings job) (slots_of task n 0) ((task, n) ∷ []))
        ∙ sym (
            ap (map (slot_address settings job)) (
              slots_of-last task n 0
              ∙ ap (λ j. slots_of task n 0 ++ (task, j) ∷ []) (omega arith))))

pub fqdns-slots :
    (settings : Settings) (job : DiJob) (tasks : List Task)
    → fqdns settings job tasks ≡ map (slot_address settings job) (slots tasks)
unfolding fqdns
fqdns-slots settings job [] = refl
fqdns-slots settings job (task ∷ tasks) =
    rw (fqdns_of_task-slots_of settings job task task.replicas, fqdns-slots settings job tasks)
      (sym (map-append (slot_address settings job) (slots_of task task.replicas 0) (slots tasks)))
