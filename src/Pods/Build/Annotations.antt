-- ===== src/Pods/Build/Annotations.antt =====
-- What BuildPod writes on a pod: its ranks, its task, its node, its name.
use mathlib.Core.Option
use di_orchestrator.Base.{
  ℕ, zero, suc, ◌<◌, ◌≡◌, refl, sym, ◌∙◌, ◌⊎◌, Bool-cases, Option-cases, inl, inr, true, Option,
  none, some, List, [], ◌∷◌, arith, length, get_elem?, if◌then◌else◌,
}
use di_orchestrator.Text.{Text, text_eq, itoa}
use di_orchestrator.Dict.{lookup, insert, insert_all, text_at}
use di_orchestrator.Kube.{Pod}
use di_orchestrator.Job.{
  DiJob, Task, annotation_replicas, annotation_rank, annotation_node, annotation_task_rank,
  label_task_name, label_task_type, label_job, label_operator,
}
use di_orchestrator.Machine.{Settings}
use di_orchestrator.Utils.Names.{replica_name}
use di_orchestrator.Utils.Spec.{
  gen_labels, add_labels_to_pod, add_annotations_to_pod, add_envs_to_pod,
}
use di_orchestrator.Pods.Build.{out_of_range, node, node_for, pod_on, build_pod, total_replicas}

-- The node that a pod of this rank is to run on, if any: it has one for a preemptible job alone.
abbrev pub assigned_node : DiJob → List Text → ℕ → Text
assigned_node job allocation rank =
    if job.spec.preemptible then Option.get_or (get_elem? allocation rank) [] else []

-- The marks of a pod, for a job, the node that the allocation gives, a task and two ranks; the pod is
-- assigned to that node, unless its name is empty.
pub record IsBuilt (job : DiJob) (allocation : List Text) (rank : ℕ) (task : Task) (local_rank : ℕ)
    (pod : Pod) : Type 0 where
  pub name_is : pod.name ≡ replica_name job.name task.name local_rank
  pub namespace_is : pod.namespace ≡ job.namespace
  pub owner_is : pod.owner ≡ some job.name
  pub job_label_is : lookup label_job pod.labels ≡ lookup label_job (gen_labels job)
  pub operator_label_is : lookup label_operator pod.labels ≡ lookup label_operator (gen_labels job)
  pub new : pod.deletion_timestamp ≡ none
  pub rank_is : text_at annotation_rank pod.annotations ≡ itoa rank
  pub replicas_is :
      text_at annotation_replicas pod.annotations ≡ itoa (total_replicas job.spec.tasks)
  pub task_rank_is : text_at annotation_task_rank pod.annotations ≡ itoa local_rank
  pub task_name_is : text_at label_task_name pod.labels ≡ task.name
  pub task_type_is : text_at label_task_type pod.labels ≡ task.type
  pub node_is : text_at annotation_node pod.annotations ≡ assigned_node job allocation rank
  pub runs_on :
      (assigned_node job allocation rank ≡ [])
      ⊎ (pod.spec.node_name ≡ assigned_node job allocation rank)

pod_on-marks :
    (settings : Settings) (job : DiJob) (rank : ℕ) (assigned : Option Text) (task : Task)
    (local_rank : ℕ)
    → let pod = pod_on settings job rank assigned task local_rank in
      (pod.name ≡ replica_name job.name task.name local_rank)
      × (pod.deletion_timestamp ≡ none)
      × (text_at annotation_rank pod.annotations ≡ itoa rank)
      × (text_at annotation_replicas pod.annotations ≡ itoa (total_replicas job.spec.tasks))
      × (text_at annotation_task_rank pod.annotations ≡ itoa local_rank)
      × (text_at label_task_name pod.labels ≡ task.name)
      × (text_at label_task_type pod.labels ≡ task.type)
      × (text_at annotation_node pod.annotations ≡ Option.get_or assigned [])
      × (pod.namespace ≡ job.namespace)
      × (pod.owner ≡ some job.name)
      × (lookup label_job pod.labels ≡ lookup label_job (gen_labels job))
      × (lookup label_operator pod.labels ≡ lookup label_operator (gen_labels job))
      × (pod.spec.node_name ≡ Option.get_or assigned task.template.node_name)
unfolding pod_on insert_all insert lookup text_eq gen_labels add_labels_to_pod
    add_annotations_to_pod add_envs_to_pod
pod_on-marks settings job rank assigned task local_rank =
    (refl, refl, refl, refl, refl, refl, refl, refl, refl, refl, refl, refl, refl)

pod_on-IsBuilt :
    (settings : Settings) (job : DiJob) (allocation : List Text) (rank : ℕ) (assigned : Option Text)
    (task : Task) (local_rank : ℕ)
    → Option.get_or assigned [] ≡ assigned_node job allocation rank
    → IsBuilt job allocation rank task local_rank
        (pod_on settings job rank assigned task local_rank)
pod_on-IsBuilt settings job allocation rank assigned task local_rank at =
    let m = pod_on-marks settings job rank assigned task local_rank in
    record {
      name_is = m.0;
      new = m.1;
      rank_is = m.2;
      replicas_is = m.3;
      task_rank_is = m.4;
      task_name_is = m.5;
      task_type_is = m.6;
      node_is = m.7 ∙ at;
      namespace_is = m.8;
      owner_is = m.9;
      job_label_is = m.10;
      operator_label_is = m.11;
      runs_on = placed assigned (m.12) at;
    }
  where
    placed :
        (o : Option Text) {n : Text}
        → n ≡ Option.get_or o task.template.node_name
        → Option.get_or o [] ≡ assigned_node job allocation rank
        → (assigned_node job allocation rank ≡ []) ⊎ (n ≡ assigned_node job allocation rank)
    placed none e f = inl (sym f)
    placed (some name) e f = inr (e ∙ f)

get_elem?-length :
    {A : Type 0} (xs : List A) (i : ℕ) → i < length xs → (a : A) × (get_elem? xs i ≡ some a)
get_elem?-length [] i h = elim h [ ]
get_elem?-length (x ∷ xs) zero h = (x, refl)
get_elem?-length (x ∷ xs) (suc i) h = get_elem?-length xs i (omega arith)

get_elem?-end : {A : Type 0} (xs : List A) → get_elem? xs (length xs) ≡ none
get_elem?-end [] = refl
get_elem?-end (x ∷ xs) = get_elem?-end xs

node_for_end :
    (allocation : List Text) → node_for true allocation (length allocation) ≡ out_of_range
unfolding node_for
node_for_end allocation = rw (get_elem?-end allocation) (ground arith)

node_for_assigned :
    (allocation : List Text) (rank : ℕ) (name : Text)
    → rank < length allocation
    → get_elem? allocation rank ≡ some name
    → node_for true allocation rank ≡ node name
unfolding node_for
node_for_assigned allocation rank name h e = rw e (ground arith)

-- A preemptible job has no pod for the rank that equals the length of its allocation: BuildPod
-- reads the allocation one past its end.
pub build_pod_past_end :
    (settings : Settings) (job : DiJob) (allocation : List Text) (task_num local_rank : ℕ)
    → job.spec.preemptible ≡ true
    → build_pod settings job (length allocation) allocation task_num local_rank ≡ none
unfolding build_pod
build_pod_past_end settings job allocation task_num local_rank h =
    elim (Option-cases (get_elem? job.spec.tasks task_num)) [
      | inl missing ↦ rw missing
      | inr (task, e) ↦ rw (e, h, node_for_end allocation)
    ]

-- For a job that is not preemptible, or a rank below the length of the allocation, BuildPod builds
-- the pod of a task of the job, in the job's namespace, owned by the job and with its two labels; its
-- name, labels and annotations name the task, both ranks, the number of all replicas and the node
-- that the allocation assigns to the rank.
pub build_pod-IsBuilt :
    (settings : Settings) (job : DiJob) (rank : ℕ) (allocation : List Text)
    (task_num local_rank : ℕ) (task : Task)
    → get_elem? job.spec.tasks task_num ≡ some task
    → (job.spec.preemptible ≡ true → rank < length allocation)
    → (pod : Pod) × (build_pod settings job rank allocation task_num local_rank ≡ some pod)
      × IsBuilt job allocation rank task local_rank pod
unfolding build_pod
build_pod-IsBuilt settings job rank allocation task_num local_rank task e fits =
    elim (Bool-cases job.spec.preemptible) [
      | inl preemptible ↦
          let (name, at) = get_elem?-length allocation rank (fits preemptible) in
          (
            pod_on settings job rank (some name) task local_rank,
            rw (e, preemptible, node_for_assigned allocation rank name (fits preemptible) at),
            pod_on-IsBuilt settings job allocation rank (some name) task local_rank
                (rw (preemptible, at) refl),
          )
      | inr fixed ↦ (
        pod_on settings job rank none task local_rank,
        rw (e, fixed) (unfold node_for in refl),
        pod_on-IsBuilt settings job allocation rank none task local_rank (rw fixed refl),
      )
    ]

-- The node that a built pod is marked with is the allocation's.
pub node_is_assigned :
    (job : DiJob) (allocation : List Text) (rank : ℕ) (task : Task) (local_rank : ℕ) (pod : Pod)
    → IsBuilt job allocation rank task local_rank pod
    → job.spec.preemptible ≡ true
    → rank < length allocation
    → get_elem? allocation rank ≡ some (text_at annotation_node pod.annotations)
node_is_assigned job allocation rank task local_rank pod b p lt =
    let (name, at) = get_elem?-length allocation rank lt in rw (b.node_is, p, at) refl
