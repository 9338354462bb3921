-- ===== src/Controller/Replicas/Names.antt =====
-- The names of the pods of a job (replicaPodName of pkg/utils/util.go, given by BuildPod), for a job
-- that TaskTypeNameValidator accepts: no two replicas share one.
use di_orchestrator.Base.{
  ℕ, zero, suc, ◌<◌, ◌≤◌, ◌≡◌, ◌≢◌, ◌∙◌, sym, subst, Bool-cases, inl, inr, none, some, List, [],
  ◌∷◌, ◌++◌, arith, length, ltb, All, All-append,
}
use di_orchestrator.Text.{Text, text_eq_iff, itoa}
use di_orchestrator.Text.Bytes.{append_cancel, last_part, tail_eq}
use di_orchestrator.Text.Numbers.{itoa_inj, itoa-IsFree}
use di_orchestrator.Kube.{Pod}
use di_orchestrator.Job.{DiJob, Task}
use di_orchestrator.Machine.{Settings}
use di_orchestrator.Utils.Names.{replica_name}
use di_orchestrator.Utils.Validator.{task_type_name_validator}
use di_orchestrator.Utils.Validator.Laws.{count_name, task_type_name_validator-IsWellFormed}
use di_orchestrator.Pods.Build.{total_replicas}
use di_orchestrator.Pods.Build.Annotations.{IsBuilt}
use di_orchestrator.Controller.Replicas.{build_pods}
use di_orchestrator.Controller.Replicas.Built.{
  Slot, Stand, slots_of, slots, build_pods_lem, build_pods_short,
}

-- The name of a pod of one job says which task and which local rank it has.
pub replica_name_inj :
    (job s t : Text) (i k : ℕ) → replica_name job s i ≡ replica_name job t k → (s ≡ t) × (i ≡ k)
unfolding replica_name
replica_name_inj job s t i k e =
    let (front, back) =
      last_part b'-' (job ++ b'-' ∷ s) (job ++ b'-' ∷ t) (itoa i) (itoa k) (itoa-IsFree i)
        (itoa-IsFree k) e in
    (tail_eq (append_cancel job (b'-' ∷ s) (b'-' ∷ t) front), itoa_inj i k back)

-- Two replicas that differ in the name of the task or in the local rank.
abbrev pub Apart : Slot → Slot → Type 0
Apart (s, i) (t, k) = s.name ≡ t.name → i ≡ k → ⊥

-- Each element stands in a relation to all that come after it.
abbrev pub Pairwise : {A : Type 0} → (A → A → Type 0) → List A → Type 0
Pairwise R [] = Unit
Pairwise R (x ∷ xs) = All (R x) xs × Pairwise R xs

Pairwise-append :
    {A : Type 0} (R : A → A → Type 0) (xs ys : List A)
    → Pairwise R xs
    → Pairwise R ys
    → All (λ x. All (R x) ys) xs
    → Pairwise R (xs ++ ys)
Pairwise-append R [] ys h k across = k
Pairwise-append R (x ∷ xs) ys h k across =
    (All-append (R x) xs ys h.0 across.0, Pairwise-append R xs ys h.1 k across.1)

slots_of-later : (task : Task) (k n i : ℕ) → k < i → All (Apart (task, k)) (slots_of task n i)
slots_of-later task k zero i h = tt
slots_of-later task k (suc n) i h =
    (λ _ e. omega arith, slots_of-later task k n (suc i) (omega arith))

slots_of-Pairwise : (task : Task) (n i : ℕ) → Pairwise Apart (slots_of task n i)
slots_of-Pairwise task zero i = tt
slots_of-Pairwise task (suc n) i =
    (slots_of-later task i n (suc i) (omega arith), slots_of-Pairwise task n (suc i))

slots_of-other :
    (task : Task) (k : ℕ) (other : Task) (n i : ℕ)
    → task.name ≢ other.name
    → All (Apart (task, k)) (slots_of other n i)
slots_of-other task k other zero i h = tt
slots_of-other task k other (suc n) i h = (λ e _. h e, slots_of-other task k other n (suc i) h)

slots-other :
    (task : Task) (k : ℕ) (tasks : List Task)
    → All (λ t. task.name ≢ t.name) tasks
    → All (Apart (task, k)) (slots tasks)
slots-other task k [] h = tt
slots-other task k (t ∷ tasks) h =
    All-append (Apart (task, k)) (slots_of t t.replicas 0) (slots tasks)
      (slots_of-other task k t t.replicas 0 h.0) (slots-other task k tasks h.1)

slots_of-across :
    (task : Task) (n i : ℕ) (tasks : List Task)
    → All (λ t. task.name ≢ t.name) tasks
    → All (λ s. All (Apart s) (slots tasks)) (slots_of task n i)
slots_of-across task zero i tasks h = tt
slots_of-across task (suc n) i tasks h =
    (slots-other task i tasks h, slots_of-across task n (suc i) tasks h)

abbrev pub Named : Task → Task → Type 0
Named s t = s.name ≢ t.name

slots-Pairwise : (tasks : List Task) → Pairwise Named tasks → Pairwise Apart (slots tasks)
slots-Pairwise [] h = tt
slots-Pairwise (task ∷ tasks) h =
    Pairwise-append Apart (slots_of task task.replicas 0) (slots tasks)
      (slots_of-Pairwise task task.replicas 0) (slots-Pairwise tasks h.1)
      (slots_of-across task task.replicas 0 tasks h.0)

count_name-zero :
    (n : Text) (tasks : List Task) → count_name n tasks ≡ 0 → All (λ t. n ≢ t.name) tasks
count_name-zero n [] h = tt
count_name-zero n (t ∷ tasks) h =
    (λ e. ground (arith, text_eq_iff t.name n), count_name-zero n tasks (ground arith))

count_name-Named :
    (tasks : List Task) → ((n : Text) → count_name n tasks ≤ 1) → Pairwise Named tasks
count_name-Named [] h = tt
count_name-Named (t ∷ tasks) h = (
  count_name-zero t.name tasks (ground (arith, h t.name, text_eq_iff t.name t.name)),
  count_name-Named tasks (λ n. ground (arith, h n)),
)

-- Two pods with different names.
abbrev pub Distinguished : Pod → Pod → Type 0
Distinguished p q = p.name ≢ q.name

module _ (job : DiJob) (allocation : List Text) where
  built-Apart :
      {rank rank' : ℕ} {s t : Slot} {p q : Pod}
      → IsBuilt job allocation rank s.0 s.1 p
      → IsBuilt job allocation rank' t.0 t.1 q
      → Apart s t
      → Distinguished p q
  built-Apart {s = s} {t = t} b c apart e =
      let (names, ranks) =
        replica_name_inj job.name s.0.name t.0.name s.1 t.1 (sym b.name_is ∙ (e ∙ c.name_is)) in
      apart names ranks

  Stand-other :
      {rank : ℕ} {s : Slot} {p : Pod} (rank' : ℕ) (ss : List Slot) (pods : List Pod)
      → IsBuilt job allocation rank s.0 s.1 p
      → Stand job allocation rank' ss pods
      → All (Apart s) ss
      → All (Distinguished p) pods
  Stand-other rank' [] [] b h k = tt
  Stand-other rank' [] (_ ∷ _) b h k = absurd h
  Stand-other rank' (_ ∷ _) [] b h k = absurd h
  Stand-other rank' (t ∷ ss) (q ∷ pods) b h k =
      (built-Apart b h.0 k.0, Stand-other (suc rank') ss pods b h.1 k.1)

  pub Stand-Distinguished :
      (rank : ℕ) (ss : List Slot) (pods : List Pod)
      → Stand job allocation rank ss pods
      → Pairwise Apart ss
      → Pairwise Distinguished pods
  Stand-Distinguished rank [] [] h k = tt
  Stand-Distinguished rank [] (_ ∷ _) h k = absurd h
  Stand-Distinguished rank (_ ∷ _) [] h k = absurd h
  Stand-Distinguished rank (s ∷ ss) (p ∷ pods) h k =
      (Stand-other (suc rank) ss pods h.0 h.1 k.0, Stand-Distinguished (suc rank) ss pods h.1 k.1)

-- The replicas of a job that the validator accepts are told apart by task name and local rank.
pub slots-Apart :
    (job : DiJob) → task_type_name_validator job ≡ none → Pairwise Apart (slots job.spec.tasks)
slots-Apart job accepted =
    let w = (task_type_name_validator-IsWellFormed job).0 accepted in
    slots-Pairwise job.spec.tasks (count_name-Named job.spec.tasks w.names_once)

-- For a job that the validator accepts, preemptible or not, no two of the pods that are built for it
-- have the same name.
pub build_pods-Distinguished :
    (settings : Settings) (job : DiJob) (allocation : List Text) (pods : List Pod)
    → task_type_name_validator job ≡ none
    → build_pods settings job allocation 0 0 job.spec.tasks ≡ some pods
    → Pairwise Distinguished pods
build_pods-Distinguished settings job allocation pods accepted built =
    elim (Bool-cases (ltb (length allocation) (total_replicas job.spec.tasks))) [
      | inl short ↦ elim (Bool-cases job.spec.preemptible) [
        | inl p ↦ cc (build_pods_short settings job allocation p (ground arith))
        | inr fixed ↦ named (build_pods_lem settings job allocation (λ p. cc))
      ]
      | inr long ↦ named (build_pods_lem settings job allocation (λ p. ground arith))
    ]
  where
    named :
        (pods' : List Pod) × (build_pods settings job allocation 0 0 job.spec.tasks ≡ some pods')
          × Stand job allocation 0 (slots job.spec.tasks) pods'
        → Pairwise Distinguished pods
    named (pods', e, stand) =
        let same : pods' ≡ pods = cc in
        subst (Pairwise Distinguished) same (
          Stand-Distinguished job allocation 0 (slots job.spec.tasks) pods' stand
            (slots-Apart job accepted))
