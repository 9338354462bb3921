-- ===== src/Controller/Replicas.antt =====
-- pkg/controllers/dijob.go: creating the pods of a job, removing the redundant and the failed ones.
pub mod Deletes
pub mod Frames
pub mod Ranks
pub mod Built
pub mod Missing
pub mod Filled
pub mod Complete
pub mod Neighbours
pub mod Names
use di_orchestrator.Base.{
  ℕ, zero, suc, ◌+◌, ◌-◌, Bool, true, false, not, Option, none, some, List, [], ◌∷◌, ◌++◌, ◌⊎◌, inl,
  inr, ℤ, pos, negsuc, ltb, leb, length, replicate, set, ltb_ℤ, if◌then◌else◌,
}
use di_orchestrator.Text.{Text, codes, text_eq, atoi}
use di_orchestrator.Dict.{Dict, insert, get_or, text_at}
use di_orchestrator.Kube.{Pod}
use di_orchestrator.Job.{
  DiJob, Task, label_task_type, label_task_name, annotation_task_rank, annotation_rank,
}
use di_orchestrator.Machine.{
  Error, failure, Result, Settings, Action, Api, pure, throw, crash, lift, get, attempt, for_each,
  ◌>>=◌, ◌>>◌,
}
use di_orchestrator.Utils.Pods.{is_pod_failed}
use di_orchestrator.Status.{update_job_status_by_backoff_limit}
use di_orchestrator.Pods.Build.{build_pod}
use di_orchestrator.Pods.Calls.{create_pod, delete_pod, delete_pods}

-- A call that may panic, as an action.
abbrev pub or_crash : {A : Type 0} → Option A → Action A
or_crash none = crash
or_crash (some a) = pure a

abbrev push : Option Pod → Option (List Pod) → Option (List Pod)
push (some pod) (some pods) = some (pod ∷ pods)
push none _ = none
push (some _) none = none

abbrev append : Option (List Pod) → Option (List Pod) → Option (List Pod)
append (some ps) (some qs) = some (ps ++ qs)
append none _ = none
append (some _) none = none

-- The inner loop: `n` replicas of a task, the next with local rank `i` and rank `rank`.
unfoldable pub build_task : Settings → DiJob → List Text → ℕ → ℕ → ℕ → ℕ → Option (List Pod)
build_task settings job allocation task_num zero i rank = some []
build_task settings job allocation task_num (suc n) i rank =
    push (build_pod settings job rank allocation task_num i)
      (build_task settings job allocation task_num n (suc i) (suc rank))

-- The outer loop, over the tasks from `task_num` on.
unfoldable pub build_pods : Settings → DiJob → List Text → ℕ → ℕ → List Task → Option (List Pod)
unfolding build_task
build_pods settings job allocation task_num rank [] = some []
build_pods settings job allocation task_num rank (task ∷ tasks) =
    append (build_task settings job allocation task_num task.replicas 0 rank)
      (build_pods settings job allocation (suc task_num) (rank + task.replicas) tasks)

-- The second loop: at the first pod that cannot be created the job is restarted or fails, and all
-- the built pods are deleted.
unfoldable pub give_up : Api → List Pod → Pod → Action (Unit {0})
give_up api built pod = do
  update_job_status_by_backoff_limit api (codes "pod " ++ pod.name ++ codes " failed to create.")
  delete_pods api built

unfoldable pub create_built : Api → List Pod → List Pod → Action (Unit {0})
create_built api built [] = pure tt
create_built api built (pod ∷ pods) = do
  r ← attempt (create_pod api pod)
  elim r [ inr _ ↦ create_built api built pods | inl _ ↦ give_up api built pod ]

-- buildAndCreatePods
unfoldable pub build_and_create_pods : Api → List Text → Action (Unit {0})
unfolding create_built give_up
build_and_create_pods api allocation = do
  s ← get
  built ← or_crash (build_pods s.settings s.job allocation 0 0 s.job.spec.tasks)
  create_built api built built

-- The required number of replicas by task type; a later task of the same type replaces an earlier.
unfoldable pub type_numbers : List Task → Dict ℕ → Dict ℕ
type_numbers [] m = m
type_numbers (task ∷ tasks) m = type_numbers tasks (insert task.type task.replicas m)

unfoldable pub delete_redundant : Api → List Pod → Dict ℕ → Action (Unit {0})
delete_redundant api [] m = pure tt
delete_redundant api (pod ∷ pods) m =
    let type = text_at label_task_type pod.labels in
    let left = get_or type m 0 in
    let kept = delete_redundant api pods (insert type (left - 1) m) in
    let removed = delete_pod api pod >> delete_redundant api pods m in
    if ltb 0 left then kept else removed

-- deleteRedundantReplicas
unfoldable pub delete_redundant_replicas : Api → List Pod → Action (Unit {0})
unfolding delete_redundant type_numbers
delete_redundant_replicas api pods = do
  s ← get
  delete_redundant api pods (type_numbers s.job.spec.tasks [])

-- `localTrace[localRank] = true`, with the test of the upper bound before it; a negative rank is a
-- panic.
abbrev mark : Pod → Option ℤ → List Bool → Result (List Bool)
mark pod none trace = Result.err (failure (codes "annotation is not a valid number"))
mark pod (some (negsuc _)) trace = Result.panic
mark pod (some (pos rank)) trace =
    if leb (length trace) rank
    then Result.err (failure (codes "pod " ++ pod.name ++ codes " local rank is out of range"))
    else Result.ok (set trace rank true)

abbrev then_trace : Result (List Bool) → (List Bool → Result (List Bool)) → Result (List Bool)
then_trace (Result.ok trace) k = k trace
then_trace (Result.err e) k = Result.err e
then_trace Result.panic k = Result.panic

-- Which local ranks of a task have a pod.
unfoldable pub local_trace : Task → List Pod → List Bool → Result (List Bool)
local_trace task [] trace = Result.ok trace
local_trace task (pod ∷ pods) trace =
    if text_eq (text_at label_task_name pod.labels) task.name
    then then_trace (mark pod (atoi (text_at annotation_task_rank pod.annotations)) trace)
        (λ t. local_trace task pods t)
    else local_trace task pods trace

abbrev larger : ℤ → ℕ → ℕ
larger (pos n) max = if ltb max n then n else max
larger (negsuc _) max = max

unfoldable pub max_rank : List Pod → ℕ → Error ⊎ ℕ
max_rank [] max = inr max
max_rank (pod ∷ pods) max = elim (atoi (text_at annotation_rank pod.annotations)) [
  | none ↦ inl (failure (codes "annotation is not a valid number"))
  | some rank ↦ max_rank pods (larger rank max)
]

-- findMaxGlobalRank: 0 where there is no pod.
unfoldable pub find_max_global_rank : List Pod → Error ⊎ ℕ
unfolding max_rank
find_max_global_rank pods = max_rank pods 0

-- The next global rank: found once, `none` standing for -1. It stands for Go's int up to 2^63 - 1; the
-- theorem about the ranks that are given asks that they stay below.
abbrev next_rank : List Pod → Option ℕ → Action ℕ
next_rank pods (some rank) = pure rank
next_rank pods none = do max ← lift (find_max_global_rank pods); pure (max + 1)

-- The loop over the local ranks of a task, from `i` on.
create_missing : Api → List Pod → List Text → ℕ → ℕ → List Bool → Option ℕ → Action (Option ℕ)
create_missing api pods allocation index i [] next = pure next
create_missing api pods allocation index i (true ∷ trace) next =
    create_missing api pods allocation index (suc i) trace next
create_missing api pods allocation index i (false ∷ trace) next = do
  rank ← next_rank pods next
  s ← get
  pod ← or_crash (build_pod s.settings s.job rank allocation index i)
  create_pod api pod
  create_missing api pods allocation index (suc i) trace (some (rank + 1))

abbrev of_result : {A : Type 0} → Result A → Action A
of_result r s = (r, s)

create_missed : Api → List Pod → List Text → ℕ → List Task → Option ℕ → Action (Unit {0})
unfolding create_missing
create_missed api pods allocation index [] next = pure tt
create_missed api pods allocation index (task ∷ tasks) next = do
  trace ← of_result (local_trace task pods (replicate task.replicas false))
  next' ← create_missing api pods allocation index 0 trace next
  create_missed api pods allocation (suc index) tasks next'

-- createMissedReplicas
unfoldable pub create_missed_replicas : Api → List Pod → List Text → Action (Unit {0})
unfolding create_missed
create_missed_replicas api pods allocation = do
  s ← get
  create_missed api pods allocation 0 s.job.spec.tasks none

unfoldable pub delete_failed : Api → List Pod → Bool → Bool → Action Bool
delete_failed api [] preemptible all_ready = pure all_ready
delete_failed api (pod ∷ pods) preemptible all_ready =
    let removed = delete_pod api pod >> delete_failed api pods preemptible false in
    let kept = delete_failed api pods preemptible all_ready in
    if is_pod_failed pod preemptible then removed else kept

-- deleteFailedReplicas
unfoldable pub delete_failed_replicas : Api → List Pod → Action Bool
unfolding delete_failed
delete_failed_replicas api pods = do s ← get; delete_failed api pods s.job.spec.preemptible true
