-- ===== src/Controller/Replicas/Built.antt =====
-- The pods that buildAndCreatePods builds: one for each replica, ranked from 0 upwards.
use native.Mathlib.Nat.{add-zero}
use di_orchestrator.Base.{
  ℕ, zero, suc, ◌+◌, ◌≤◌, ◌<◌, ◌≡◌, refl, sym, ap, subst, ◌∙◌, true, inl, inr, Option, none, some,
  List, [], ◌∷◌, ◌++◌, append_assoc, arith, length, length-append, get_elem?, ltb, Bool-cases,
  ==_iff, ◌==◌,
}
use di_orchestrator.Text.{Text}
use di_orchestrator.Kube.{Pod}
use di_orchestrator.Job.{DiJob, Task}
use di_orchestrator.Machine.{Settings}
use di_orchestrator.Pods.Build.{total_replicas}
use di_orchestrator.Pods.Build.Annotations.{IsBuilt, build_pod_past_end, build_pod-IsBuilt}
use di_orchestrator.Controller.Replicas.{build_task, build_pods, push, append}

push-none : (o : Option Pod) → push o none ≡ none
push-none none = refl
push-none (some pod) = refl

append-none : (o : Option (List Pod)) → append o none ≡ none
append-none none = refl
append-none (some pods) = refl

-- The replicas that a job asks for: each task with its local ranks, in order.
abbrev pub Slot : Type 0
Slot = Task × ℕ

abbrev pub slots_of : Task → ℕ → ℕ → List Slot
slots_of task zero i = []
slots_of task (suc n) i = (task, i) ∷ slots_of task n (suc i)

abbrev pub slots : List Task → List Slot
slots [] = []
slots (task ∷ tasks) = slots_of task task.replicas 0 ++ slots tasks

-- The pods stand for the slots one by one, with ranks from `rank` upwards.
abbrev pub Stand : DiJob → List Text → ℕ → List Slot → List Pod → Type 0
Stand job allocation rank [] [] = Unit
Stand job allocation rank [] (_ ∷ _) = ⊥
Stand job allocation rank (_ ∷ _) [] = ⊥
Stand job allocation rank ((task, i) ∷ ss) (pod ∷ pods) =
    IsBuilt job allocation rank task i pod × Stand job allocation (suc rank) ss pods

pub Stand-append :
    (job : DiJob) (allocation : List Text) (rank : ℕ) (ss : List Slot) (pods : List Pod)
    (ss' : List Slot) (pods' : List Pod)
    → Stand job allocation rank ss pods
    → Stand job allocation (rank + length ss) ss' pods'
    → Stand job allocation rank (ss ++ ss') (pods ++ pods')
Stand-append job allocation rank [] [] ss' pods' h k =
    subst (λ r. Stand job allocation r ss' pods') (add-zero rank) k
Stand-append job allocation rank [] (_ ∷ _) ss' pods' h k = absurd h
Stand-append job allocation rank (_ ∷ _) [] ss' pods' h k = absurd h
Stand-append job allocation rank (s ∷ ss) (pod ∷ pods) ss' pods' h k = (
  h.0,
  Stand-append job allocation (suc rank) ss pods ss' pods' h.1
      (subst (λ r. Stand job allocation r ss' pods') (one_more rank (length ss)) k),
)
  where
    one_more : (a b : ℕ) → a + suc b ≡ suc a + b
    one_more a b = omega arith

pub length-slots_of : (task : Task) (n i : ℕ) → length (slots_of task n i) ≡ n
length-slots_of task zero i = refl
length-slots_of task (suc n) i = ap suc (length-slots_of task n (suc i))

pub get_elem?-middle :
    (before : List Task) (task : Task) (after : List Task)
    → get_elem? (before ++ task ∷ after) (length before) ≡ some task
get_elem?-middle [] task after = refl
get_elem?-middle (t ∷ before) task after = get_elem?-middle before task after

pub one_longer :
    (before : List Task) (task : Task) → length (before ++ task ∷ []) ≡ suc (length before)
one_longer before task = omega (arith, length-append before (task ∷ []))

module _ (settings : Settings) (job : DiJob) (allocation : List Text) where
  build_task_past_end :
      (task_num n i rank : ℕ)
      → job.spec.preemptible ≡ true
      → rank ≤ length allocation
      → length allocation < rank + n
      → build_task settings job allocation task_num n i rank ≡ none
  unfolding build_task
  build_task_past_end task_num zero i rank p lo hi = absurd (omega arith)
  build_task_past_end task_num (suc n) i rank p lo hi =
      elim (Bool-cases (rank == length allocation)) [
        | inl last ↦
            rw ((==_iff rank (length allocation)).0 last)
              (rw (build_pod_past_end settings job allocation task_num i p))
        | inr before ↦
            rw (build_task_past_end task_num n (suc i) (suc rank) p (ground arith) (omega arith))
              (push-none _)
      ]

  build_pods_past_end :
      (task_num rank : ℕ) (tasks : List Task)
      → job.spec.preemptible ≡ true
      → rank ≤ length allocation
      → length allocation < rank + total_replicas tasks
      → build_pods settings job allocation task_num rank tasks ≡ none
  unfolding build_pods total_replicas
  build_pods_past_end task_num rank [] p lo hi = absurd (omega arith)
  build_pods_past_end task_num rank (task ∷ tasks) p lo hi =
      elim (Bool-cases (ltb (length allocation) (rank + task.replicas))) [
        | inl here ↦ rw (build_task_past_end task_num task.replicas 0 rank p lo (ground arith))
        | inr later ↦
            rw
              (build_pods_past_end (suc task_num) (rank + task.replicas) tasks p (ground arith)
                (omega arith))
              (append-none _)
      ]

  build_task-Stand :
      (task_num n i rank : ℕ) (task : Task)
      → get_elem? job.spec.tasks task_num ≡ some task
      → (job.spec.preemptible ≡ true → rank + n ≤ length allocation)
      → (pods : List Pod) × (build_task settings job allocation task_num n i rank ≡ some pods)
        × Stand job allocation rank (slots_of task n i) pods
  unfolding build_task
  build_task-Stand task_num zero i rank task e fits = ([], refl, tt)
  build_task-Stand task_num (suc n) i rank task e fits =
      let (pod, one, built) =
        build_pod-IsBuilt settings job rank allocation task_num i task e
          (λ p. omega (arith, fits p)) in
      let (pods, more, stand) =
        build_task-Stand task_num n (suc i) (suc rank) task e (λ p. omega (arith, fits p)) in
      (pod ∷ pods, rw (one, more), (built, stand))

  build_pods-Stand :
      (before : List Task) (rank : ℕ) (tasks : List Task)
      → job.spec.tasks ≡ before ++ tasks
      → (job.spec.preemptible ≡ true → rank + total_replicas tasks ≤ length allocation)
      → (pods : List Pod) × (build_pods settings job allocation (length before) rank tasks
          ≡ some pods)
        × Stand job allocation rank (slots tasks) pods
  unfolding build_pods total_replicas
  build_pods-Stand before rank [] e fits = ([], refl, tt)
  build_pods-Stand before rank (task ∷ tasks) e fits =
      let (pods, one, stand) =
        build_task-Stand (length before) task.replicas 0 rank task
          (rw e (get_elem?-middle before task tasks)) (λ p. omega (arith, fits p)) in
      let (pods', more, stand') =
        build_pods-Stand (before ++ task ∷ []) (rank + task.replicas) tasks
          (e ∙ sym (append_assoc before (task ∷ []) tasks)) (λ p. omega (arith, fits p)) in
      (
        pods ++ pods',
        rw (one, (rw (one_longer before task) at more)),
        Stand-append job allocation rank (slots_of task task.replicas 0) pods (slots tasks) pods'
            stand (rw length-slots_of stand'),
      )

-- A job that is not preemptible, or whose allocation names a node for each replica, has a pod built
-- for each of its replicas: the tasks in order, each with local ranks from 0, and the ranks from
-- 0 upwards over all tasks.
pub build_pods_lem :
    (settings : Settings) (job : DiJob) (allocation : List Text)
    → (job.spec.preemptible ≡ true → total_replicas job.spec.tasks ≤ length allocation)
    → (pods : List Pod) × (build_pods settings job allocation 0 0 job.spec.tasks ≡ some pods)
      × Stand job allocation 0 (slots job.spec.tasks) pods
build_pods_lem settings job allocation fits =
    build_pods-Stand settings job allocation [] 0 job.spec.tasks refl (λ p. omega (arith, fits p))

-- A preemptible job with fewer allocated nodes than replicas has none.
pub build_pods_short :
    (settings : Settings) (job : DiJob) (allocation : List Text)
    → job.spec.preemptible ≡ true
    → length allocation < total_replicas job.spec.tasks
    → build_pods settings job allocation 0 0 job.spec.tasks ≡ none
build_pods_short settings job allocation p short =
    build_pods_past_end settings job allocation 0 0 job.spec.tasks p (omega arith) (omega arith)

pub length-Stand :
    (job : DiJob) (allocation : List Text) (rank : ℕ) (ss : List Slot) (pods : List Pod)
    → Stand job allocation rank ss pods
    → length pods ≡ length ss
length-Stand job allocation rank [] [] h = refl
length-Stand job allocation rank [] (_ ∷ _) h = absurd h
length-Stand job allocation rank (_ ∷ _) [] h = absurd h
length-Stand job allocation rank (s ∷ ss) (pod ∷ pods) h =
    ap suc (length-Stand job allocation (suc rank) ss pods h.1)

pub length-slots : (tasks : List Task) → length (slots tasks) ≡ total_replicas tasks
unfolding total_replicas
length-slots [] = refl
length-slots (task ∷ tasks) = omega (
  arith,
  length-append (slots_of task task.replicas 0) (slots tasks),
  length-slots_of task task.replicas 0,
  length-slots tasks,
)
