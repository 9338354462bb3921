-- ===== src/Controller/Replicas/Complete.antt =====
-- After createMissedReplicas (pkg/controllers/dijob.go) no replica is without a pod.
use di_orchestrator.Base.{
  ℕ, zero, suc, ◌+◌, ◌<◌, ◌≤◌, ◌≡◌, refl, Bool, true, false, ◌||◌, Bool-cases, inl, inr, List, [],
  ◌∷◌, ◌++◌, arith, All, All-append, ◌==◌, if◌then◌else◌,
}
use di_orchestrator.Text.{Text, text_eq, text_eq_refl, atoi}
use di_orchestrator.Text.Numbers.{atoi-itoa}
use di_orchestrator.Dict.{text_at}
use di_orchestrator.Kube.{Pod}
use di_orchestrator.Job.{DiJob, Task, label_task_name, annotation_task_rank}
use di_orchestrator.Machine.{State, Api}
use di_orchestrator.Machine.Log.{created_pods}
use di_orchestrator.Pods.Build.Annotations.{IsBuilt}
use di_orchestrator.Controller.Replicas.{find_max_global_rank, create_missed_replicas}
use di_orchestrator.Controller.Replicas.Built.{Slot, Stand, slots_of, slots}
use di_orchestrator.Controller.Replicas.Missing.{filled, missing, is_rank}
use di_orchestrator.Controller.Replicas.Filled.{IsAccepting, IsTraced, create_missed_replicas-fills}

-- A replica whose local rank strconv can read back.
abbrev IsSmall : Slot → Type 0
IsSmall slot = slot.1 < 9223372036854775808

slots_of-IsSmall :
    (task : Task) (n i : ℕ) → n + i ≤ 9223372036854775807 → All IsSmall (slots_of task n i)
slots_of-IsSmall task zero i h = tt
slots_of-IsSmall task (suc n) i h = (omega arith, slots_of-IsSmall task n (suc i) (omega arith))

slots-IsSmall :
    (tasks : List Task)
    → All (λ t. t.replicas ≤ 9223372036854775807) tasks
    → All IsSmall (slots tasks)
slots-IsSmall [] h = tt
slots-IsSmall (task ∷ tasks) h =
    All-append IsSmall (slots_of task task.replicas 0) (slots tasks)
      (slots_of-IsSmall task task.replicas 0 (omega (arith, h.0))) (slots-IsSmall tasks h.1)

All-missing :
    (P : Slot → Type 0) (pods : List Pod) (ss : List Slot) → All P ss → All P (missing pods ss)
All-missing P pods [] h = tt
All-missing P pods (x ∷ ss) h = elim (Bool-cases (filled pods x)) [
  | inl there ↦ rw there (All-missing P pods ss h.1)
  | inr absent ↦ rw absent (h.0, All-missing P pods ss h.1)
]

-- One pod more fills no fewer.
filled-cons :
    (pod : Pod) (pods : List Pod) (slot : Slot)
    → filled pods slot ≡ true
    → filled (pod ∷ pods) slot ≡ true
filled-cons pod pods (task, i) e =
    elim (Bool-cases (text_eq (text_at label_task_name pod.labels) task.name)) [
      | inl here ↦
          rw (here, e) (or_true (is_rank i (atoi (text_at annotation_task_rank pod.annotations))))
      | inr other ↦ rw (other, e) refl
    ]
  where
    or_true : (b : Bool) → (b || true) ≡ true
    or_true true = refl
    or_true false = refl

filled-append_right :
    (pods new : List Pod) (slot : Slot) → filled new slot ≡ true → filled (pods ++ new) slot ≡ true
filled-append_right [] new slot e = e
filled-append_right (pod ∷ pods) new slot e =
    filled-cons pod (pods ++ new) slot (filled-append_right pods new slot e)

filled-append_left :
    (pods new : List Pod) (slot : Slot) → filled pods slot ≡ true → filled (pods ++ new) slot ≡ true
filled-append_left [] new slot e = cc
filled-append_left (pod ∷ pods) new (task, i) e =
    go (text_eq (text_at label_task_name pod.labels) task.name)
      (is_rank i (atoi (text_at annotation_task_rank pod.annotations))) e
      (filled-append_left pods new (task, i))
  where
    go :
        (here ranked : Bool)
        → (if here then ranked || filled pods (task, i) else filled pods (task, i)) ≡ true
        → (filled pods (task, i) ≡ true → filled (pods ++ new) (task, i) ≡ true)
        → (if here
            then ranked || filled (pods ++ new) (task, i)
            else filled (pods ++ new) (task, i))
          ≡ true
    go true true f rest = refl
    go true false f rest = rest f
    go false ranked f rest = rest f

-- A pod that was built for a replica fills it.
IsBuilt-filled :
    (job : DiJob) (allocation : List Text) (rank : ℕ) (task : Task) (i : ℕ) (pod : Pod)
    (pods : List Pod)
    → IsBuilt job allocation rank task i pod
    → i < 9223372036854775808
    → filled (pod ∷ pods) (task, i) ≡ true
IsBuilt-filled job allocation rank task i pod pods built small =
    rw (built.task_name_is, text_eq_refl task.name, built.task_rank_is, atoi-itoa i small, same i)
      refl
  where
    same : (n : ℕ) → (n == n) ≡ true
    same n = ground arith

Stand-filled :
    (job : DiJob) (allocation : List Text) (rank : ℕ) (ss : List Slot) (new : List Pod)
    → Stand job allocation rank ss new
    → All IsSmall ss
    → All (λ slot. filled new slot ≡ true) ss
Stand-filled job allocation rank [] new h small = tt
Stand-filled job allocation rank (_ ∷ _) [] h small = absurd h
Stand-filled job allocation rank ((task, i) ∷ ss) (pod ∷ pods) h small = (
  IsBuilt-filled job allocation rank task i pod pods h.0 small.0,
  later ss (Stand-filled job allocation (suc rank) ss pods h.1 small.1),
)
  where
    later :
        (xs : List Slot)
        → All (λ slot. filled pods slot ≡ true) xs
        → All (λ slot. filled (pod ∷ pods) slot ≡ true) xs
    later [] k = tt
    later (x ∷ xs) k = (filled-cons pod pods x k.0, later xs k.1)

none_missing :
    (pods new : List Pod) (ss : List Slot)
    → All (λ slot. filled new slot ≡ true) (missing pods ss)
    → missing (pods ++ new) ss ≡ []
none_missing pods new [] h = refl
none_missing pods new (x ∷ ss) h = elim (Bool-cases (filled pods x)) [
  | inl there ↦ rw (filled-append_left pods new x there) (none_missing pods new ss (rw there at h))
  | inr absent ↦
      let both : (filled new x ≡ true) × All (λ slot. filled new slot ≡ true) (missing pods ss) =
        rw absent at h in
      rw (filled-append_right pods new x both.0) (none_missing pods new ss both.1)
]

-- For a job that is not preemptible and whose tasks ask for fewer than 2^63 replicas each, on a cluster
-- that accepts every pod, where each pod of a task has a local rank in range and each pod a global rank,
-- each replica has a pod once createMissedReplicas is done: one of the pods that there were, or one of
-- those that it has created.
pub create_missed_replicas-missing :
    (api : Api) (pods : List Pod) (allocation : List Text) (s : State) (largest : ℕ)
    → IsAccepting api
    → s.job.spec.preemptible ≡ false
    → All (IsTraced pods) s.job.spec.tasks
    → find_max_global_rank pods ≡ inr largest
    → All (λ t. t.replicas ≤ 9223372036854775807) s.job.spec.tasks
    → (new : List Pod) × (created_pods (create_missed_replicas api pods allocation s).1.calls
        ≡ created_pods s.calls ++ new)
      × (missing (pods ++ new) (slots s.job.spec.tasks) ≡ [])
create_missed_replicas-missing api pods allocation s largest accepts fixed traced found small =
    let c = create_missed_replicas-fills api pods allocation s largest accepts fixed traced found in
    let ss = slots s.job.spec.tasks in
    (
      c.created,
      c.effect.created_now,
      none_missing pods c.created ss (
          Stand-filled s.job allocation (largest + 1) (missing pods ss) c.created c.stand
            (All-missing IsSmall pods ss (slots-IsSmall s.job.spec.tasks small))),
    )
