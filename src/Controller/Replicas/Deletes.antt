-- ===== src/Controller/Replicas/Deletes.antt =====
-- The two loops of dijob.go that remove pods: the redundant ones and the failed ones.
use di_orchestrator.Base.{
  ℕ, suc, ◌+◌, ◌-◌, ◌≤◌, ◌≡◌, ap, sym, ◌∙◌, drop, drop-nil, zero, ◌↔◌, refl, Bool, Bool-cases, inl,
  inr, true, false, List, [], ◌∷◌, filter, arith, ltb, if◌then◌else◌,
}
use di_orchestrator.Text.{Text, text_eq, text_eq_iff}
use di_orchestrator.Dict.{Dict, insert, lookup, lookup-insert, get_or, text_at}
use di_orchestrator.Kube.{Pod}
use di_orchestrator.Job.{Task, label_task_type}
use di_orchestrator.Utils.Validator.{number}
use di_orchestrator.Utils.Validator.Laws.{count_type}
use di_orchestrator.Machine.{State, Api, ok, after-ok}
use di_orchestrator.Utils.Pods.{is_pod_failed}
use di_orchestrator.Pods.Calls.{delete_pod}
use di_orchestrator.Pods.Calls.Deletes.{delete_pod-Effect}
use di_orchestrator.Pods.Calls.Loops.{Deletes, Deletes-nil, Deletes-cons}
use di_orchestrator.Controller.Replicas.{
  delete_failed, delete_failed_replicas, delete_redundant, delete_redundant_replicas, type_numbers,
}

abbrev pub failed_pods : Bool → List Pod → List Pod
failed_pods preemptible pods = filter (λ pod. is_pod_failed pod preemptible) pods

delete_failed-Deletes :
    (api : Api) (pods : List Pod) (preemptible all_ready : Bool) (s : State)
    → Deletes s (delete_failed api pods preemptible all_ready s) (failed_pods preemptible pods)
unfolding delete_failed
delete_failed-Deletes api [] preemptible all_ready s = Deletes-nil s all_ready
delete_failed-Deletes api (pod ∷ pods) preemptible all_ready s =
    elim (Bool-cases (is_pod_failed pod preemptible)) [
      | inl failed ↦ rw failed (
          Deletes-cons (delete_pod api pod s) _ pod (delete_pod-Effect api pod s)
            (λ a e. delete_failed-Deletes api pods preemptible false (delete_pod api pod s).1))
      | inr fine ↦ rw fine (delete_failed-Deletes api pods preemptible all_ready s)
    ]

-- The Boolean that the loop returns.
delete_failed-ready :
    (api : Api) (pods : List Pod) (preemptible all_ready : Bool) (s : State) {ready : Bool}
    → (delete_failed api pods preemptible all_ready s).0 ≡ ok ready
    → (ready ≡ true) ↔ ((all_ready ≡ true) × (failed_pods preemptible pods ≡ []))
unfolding delete_failed
delete_failed-ready api [] preemptible all_ready s e =
    (λ r. (ground arith, refl), λ h. ground arith)
delete_failed-ready api (pod ∷ pods) preemptible all_ready s e =
    elim (Bool-cases (is_pod_failed pod preemptible)) [
      | inl failed ↦
          let (a, _, last) = after-ok (delete_pod api pod s) _ (rw failed at e) in
          let rest = delete_failed-ready api pods preemptible false (delete_pod api pod s).1 last in
          rw failed (λ r. cc (rest.0 r).0, λ h. cc h.1)
      | inr fine ↦ rw fine (delete_failed-ready api pods preemptible all_ready s (rw fine at e))
    ]

delete_failed-none :
    (api : Api) (pods : List Pod) (preemptible : Bool) (s : State)
    → failed_pods preemptible pods ≡ []
    → delete_failed api pods preemptible true s ≡ (ok true, s)
unfolding delete_failed
delete_failed-none api [] preemptible s e = refl
delete_failed-none api (pod ∷ pods) preemptible s e =
    elim (Bool-cases (is_pod_failed pod preemptible)) [
      | inl failed ↦ cc (rw failed at e)
      | inr fine ↦ rw fine (delete_failed-none api pods preemptible s (rw fine at e))
    ]

-- deleteFailedReplicas asks for the deletion of the failed pods alone, in order: of all of them, or,
-- if it returns an error, of the first few. It returns true exactly if no pod has failed.
pub delete_failed_replicas-Deletes :
    (api : Api) (pods : List Pod) (s : State)
    → let out = delete_failed_replicas api pods s in
      let failed = failed_pods s.job.spec.preemptible pods in
      Deletes s out failed × ((out.0 ≡ ok true) ↔ (failed ≡ []))
unfolding delete_failed_replicas
delete_failed_replicas-Deletes api pods s =
    let p = s.job.spec.preemptible in
    (
      delete_failed-Deletes api pods p true s,
      (
        λ e. ((delete_failed-ready api pods p true s e).0 refl).1,
        λ e. ap (λ out. out.0) (delete_failed-none api pods p s e),
      ),
    )

abbrev type_of : Pod → Text
type_of pod = text_at label_task_type pod.labels

-- What the loop removes, given the numbers that are still required: a pod whose type has none.
redundant : List Pod → Dict ℕ → List Pod
redundant [] m = []
redundant (pod ∷ pods) m =
    let left = get_or (type_of pod) m 0 in
    let kept = redundant pods (insert (type_of pod) (left - 1) m) in
    let removed = pod ∷ redundant pods m in if ltb 0 left then kept else removed

abbrev pub has_type : Text → Pod → Bool
has_type t pod = text_eq (type_of pod) t

number-insert :
    (k t : Text) (n : ℕ) (m : Dict ℕ)
    → number t (insert k n m) ≡ (if text_eq k t then n else number t m)
number-insert k t n m = ground (arith, lookup-insert k t n m)

drop-cons :
    {A : Type 0} (n : ℕ) (x : A) (xs : List A)
    → drop n (x ∷ xs) ≡ (if ltb 0 n then drop (n - 1) xs else x ∷ xs)
drop-cons zero x xs = refl
drop-cons (suc n) x xs = rw (positive n, one_less n) refl
  where
    positive : (k : ℕ) → ltb 0 (suc k) ≡ true
    positive k = ground arith

    one_less : (k : ℕ) → suc k - 1 ≡ k
    one_less k = omega arith

-- Of each type, the pods beyond the number that is required.
filter-redundant :
    (t : Text) (pods : List Pod) (m : Dict ℕ)
    → filter (has_type t) (redundant pods m) ≡ drop (number t m) (filter (has_type t) pods)
unfolding redundant
filter-redundant t [] m = sym (drop-nil (number t m))
filter-redundant t (pod ∷ pods) m =
    let k = type_of pod in
    let left = number k m in
    let rest = filter (has_type t) pods in
    let over = filter-redundant t pods m in
    let kept =
      filter-redundant t pods (insert k (left - 1) m)
      ∙ ap (λ n. drop n rest) (number-insert k t (left - 1) m) in
    elim (Bool-cases (text_eq k t)) [
      | inl same ↦
          let same_number = ap (λ x. number x m) (sym ((text_eq_iff k t).0 same)) in
          let cons = ap (λ n. drop n (pod ∷ rest)) same_number ∙ drop-cons left pod rest in
          elim (Bool-cases (ltb 0 left)) [
            | inl required ↦ rw (same, required) ((rw same at kept) ∙ sym (rw required at cons))
            | inr none_left ↦
                rw (same, none_left)
                  (rw same (
                    ap (λ l. pod ∷ l)
                      (over ∙ ap (λ n. drop n rest) (same_number ∙ is_zero left none_left))
                    ∙ sym (rw none_left at cons)))
          ]
      | inr other ↦ elim (Bool-cases (ltb 0 left)) [
        | inl required ↦ rw (other, required) (rw other at kept)
        | inr none_left ↦ rw (other, none_left) (rw other over)
      ]
    ]
  where
    is_zero : (n : ℕ) → ltb 0 n ≡ false → n ≡ 0
    is_zero n h = ground arith

-- The replicas of the tasks of a type.
abbrev pub replicas_of : Text → List Task → ℕ
replicas_of t [] = 0
replicas_of t (task ∷ tasks) =
    if text_eq task.type t then task.replicas + replicas_of t tasks else replicas_of t tasks

number-type_numbers_none :
    (t : Text) (tasks : List Task) (m : Dict ℕ)
    → count_type t tasks ≡ 0
    → (number t (type_numbers tasks m) ≡ number t m) × (replicas_of t tasks ≡ 0)
unfolding type_numbers
number-type_numbers_none t [] m h = (refl, refl)
number-type_numbers_none t (task ∷ tasks) m h = ground (
  arith,
  number-type_numbers_none t tasks (insert task.type task.replicas m),
  lookup-insert task.type t task.replicas m,
)

number-type_numbers :
    (t : Text) (tasks : List Task) (m : Dict ℕ)
    → number t m ≡ 0
    → count_type t tasks ≤ 1
    → number t (type_numbers tasks m) ≡ replicas_of t tasks
unfolding type_numbers
number-type_numbers t [] m z h = z
number-type_numbers t (task ∷ tasks) m z h = ground (
  arith,
  number-type_numbers t tasks (insert task.type task.replicas m),
  number-type_numbers_none t tasks (insert task.type task.replicas m),
  lookup-insert task.type t task.replicas m,
)

delete_redundant-Deletes :
    (api : Api) (pods : List Pod) (m : Dict ℕ) (s : State)
    → Deletes s (delete_redundant api pods m s) (redundant pods m)
unfolding delete_redundant redundant
delete_redundant-Deletes api [] m s = Deletes-nil s tt
delete_redundant-Deletes api (pod ∷ pods) m s =
    elim (Bool-cases (ltb 0 (get_or (type_of pod) m 0))) [
      | inl required ↦ rw required (
          delete_redundant-Deletes api pods (insert (type_of pod) (get_or (type_of pod) m 0 - 1) m)
            s)
      | inr over ↦ rw over (
          Deletes-cons (delete_pod api pod s) _ pod (delete_pod-Effect api pod s)
            (λ a e. delete_redundant-Deletes api pods m (delete_pod api pod s).1))
    ]

-- For a type that one task at most has, deleteRedundantReplicas asks for the deletion of a list of
-- pods, in order, of all of them if it returns no error and else of the first few; those of the type in
-- this list are the pods of the type beyond the first few that are kept, as many as the task has
-- replicas, and all of them if no task has the type. It creates no pod and leaves the job as it is.
pub delete_redundant_replicas-surplus :
    (api : Api) (pods : List Pod) (s : State) (t : Text)
    → count_type t s.job.spec.tasks ≤ 1
    → (surplus : List Pod) × Deletes s (delete_redundant_replicas api pods s) surplus
      × (filter (has_type t) surplus
          ≡ drop (replicas_of t s.job.spec.tasks) (filter (has_type t) pods))
unfolding delete_redundant_replicas
delete_redundant_replicas-surplus api pods s t once =
    let m = type_numbers s.job.spec.tasks [] in
    let required = number-type_numbers t s.job.spec.tasks [] (unfold lookup in refl) once in
    (
      redundant pods m,
      delete_redundant-Deletes api pods m s,
      filter-redundant t pods m ∙ ap (λ n. drop n (filter (has_type t) pods)) required,
    )

pub delete_redundant_replicas-job :
    (api : Api) (pods : List Pod) (s : State) → (delete_redundant_replicas api pods s).1.job ≡ s.job
unfolding delete_redundant_replicas
delete_redundant_replicas-job api pods s =
    (delete_redundant-Deletes api pods (type_numbers s.job.spec.tasks []) s).effect.job_kept
