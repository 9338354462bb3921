-- ===== src/Utils/Validator/Laws.antt =====
-- What the validator accepts, in terms of the tasks alone.
use di_orchestrator.Base.{
  ℕ, suc, ◌+◌, ◌≤◌, ◌≡◌, ◌≢◌, ◌↔◌, ◌∙◌, ◌⊎◌, subst, refl, none, inl, inr, List, [], ◌∷◌, arith, All,
  false, if◌then◌else◌,
}
use di_orchestrator.Text.{Text, text_eq, text_eq_iff, is_empty}
use di_orchestrator.Dict.{Dict, lookup}
use di_orchestrator.Job.{DiJob, Task, task_type_none}
use di_orchestrator.Machine.{Error}
use di_orchestrator.Utils.Validator.{
  number, increase, count_tasks, check_names, checked, task_type_name_validator,
}
use di_orchestrator.Utils.Validator.Maps.{
  IsMap, insert-IsMap, number-increase, AtMostOne, All-number, number-All,
}

-- How many tasks have this type, or this name.
abbrev pub count_type : Text → List Task → ℕ
count_type t [] = 0
count_type t (task ∷ tasks) =
    if text_eq task.type t then suc (count_type t tasks) else count_type t tasks

abbrev pub count_name : Text → List Task → ℕ
count_name n [] = 0
count_name n (task ∷ tasks) =
    if text_eq task.name n then suc (count_name n tasks) else count_name n tasks

-- A task of type none has a name.
abbrev pub IsNamed : Task → Type 0
IsNamed task = task.type ≡ task_type_none → is_empty task.name ≡ false

-- Each type but none occurs once at most, the tasks of type none are named, and no name is used
-- twice.
pub record IsWellFormed (tasks : List Task) : Type 0 where
  pub types_once : (t : Text) → t ≢ task_type_none → count_type t tasks ≤ 1
  pub named : All IsNamed tasks
  pub names_once : (n : Text) → count_name n tasks ≤ 1

-- What the checks of one round say of the task.
abbrev Passes : Task → Dict ℕ → Type 0
Passes task types =
    (task.type ≢ task_type_none → number task.type (increase task.type types) ≤ 1) × IsNamed task

count_tasks_step :
    (task : Task) (tasks : List Task) (types names : Dict ℕ) {out : Dict ℕ}
    → count_tasks (task ∷ tasks) types names ≡ inr out
    → (count_tasks tasks (increase task.type types) (increase task.name names) ≡ inr out)
      × Passes task types
unfolding count_tasks
count_tasks_step task tasks types names e = ground (arith, text_eq_iff task.type task_type_none)

count_tasks_pass :
    (task : Task) (tasks : List Task) (types names : Dict ℕ)
    → Passes task types
    → count_tasks (task ∷ tasks) types names
      ≡ count_tasks tasks (increase task.type types) (increase task.name names)
unfolding count_tasks
count_tasks_pass task tasks types names h = ground (arith, text_eq_iff task.type task_type_none)

abbrev FewTypes : List Task → Dict ℕ → Type 0
FewTypes tasks types = (t : Text) → t ≢ task_type_none → number t types + count_type t tasks ≤ 1

count_tasks_nil :
    (types names : Dict ℕ) {out : Dict ℕ} → count_tasks [] types names ≡ inr out → names ≡ out
unfolding count_tasks
count_tasks_nil types names e = cc

count_tasks_sound :
    (tasks : List Task) (types names : Dict ℕ) {out : Dict ℕ}
    → count_tasks tasks types names ≡ inr out
    → IsMap names
    → FewTypes [] types
    → FewTypes tasks types
      × All IsNamed tasks
      × ((n : Text) → number n out ≡ number n names + count_name n tasks)
      × IsMap out
count_tasks_sound [] types names {out} e u h =
    let same : names ≡ out = count_tasks_nil types names e in
    (h, tt, λ n. ground arith, subst IsMap same u)
count_tasks_sound (task ∷ tasks) types names {out} e u h =
    let step = count_tasks_step task tasks types names e in
    let rest =
      count_tasks_sound tasks (increase task.type types) (increase task.name names) step.0
        (insert-IsMap task.name (number task.name names + 1) names u)
        (λ t ne.
          ground
            (arith, number-increase task.type t types, h t ne, step.1, text_eq_iff task.type t)) in
    (
      λ t ne. ground (arith, number-increase task.type t types, rest.0 t ne),
      (step.1.1, rest.1),
      λ n. ground (arith, number-increase task.name n names, rest.2 n),
      rest.3,
    )

count_tasks_complete :
    (tasks : List Task) (types names : Dict ℕ)
    → FewTypes tasks types
    → All IsNamed tasks
    → (out : Dict ℕ) × (count_tasks tasks types names ≡ inr out)
count_tasks_complete [] types names few named = (names, unfold count_tasks in refl)
count_tasks_complete (task ∷ tasks) types names few named =
    let pass = count_tasks_pass task tasks types names (
      λ ne. ground (
        arith,
        number-increase task.type task.type types,
        few task.type ne,
        text_eq_iff task.type task.type,
      ),
      named.0,
    ) in
    let (out, e) =
      count_tasks_complete tasks (increase task.type types) (increase task.name names)
        (λ t ne. ground (arith, number-increase task.type t types, few t ne)) named.1 in
    (out, pass ∙ e)

check_names-none : (names : Dict ℕ) → check_names names ≡ none → All AtMostOne names
unfolding check_names
check_names-none [] e = tt
check_names-none ((k, n) ∷ names) e = (ground arith, check_names-none names (ground arith))

check_names_pass : (names : Dict ℕ) → All AtMostOne names → check_names names ≡ none
unfolding check_names
check_names_pass [] h = refl
check_names_pass ((k, n) ∷ names) h = ground (arith, check_names_pass names h.1)

few_empty : FewTypes [] []
few_empty t ne = unfold lookup in omega arith

accepted_sound : (job : DiJob) → task_type_name_validator job ≡ none → IsWellFormed job.spec.tasks
unfolding task_type_name_validator lookup
accepted_sound job e = go (count_tasks job.spec.tasks [] []) refl e
  where
    go :
        (r : Error ⊎ Dict ℕ)
        → count_tasks job.spec.tasks [] [] ≡ r
        → checked r ≡ none
        → IsWellFormed job.spec.tasks
    go (inl x) p q = cc
    go (inr out) p q =
        let facts = count_tasks_sound job.spec.tasks [] [] p tt few_empty in
        let few = All-number out (check_names-none out q) in
        record {
          types_once = λ t ne. omega (arith, facts.0 t ne);
          named = facts.1;
          names_once = λ n. omega (arith, facts.2 n, few n);
        }

accepted_complete :
    (job : DiJob) → IsWellFormed job.spec.tasks → task_type_name_validator job ≡ none
unfolding task_type_name_validator lookup
accepted_complete job w =
    let (out, e) =
      count_tasks_complete job.spec.tasks [] [] (λ t ne. omega (arith, w.types_once t ne))
        w.named in
    let facts = count_tasks_sound job.spec.tasks [] [] e tt few_empty in
    let once : All AtMostOne out =
      number-All out facts.3 (λ n. omega (arith, facts.2 n, w.names_once n)) in
    rw e (check_names_pass out once)

-- The validator accepts a job exactly if its tasks are well formed: each type but none occurs once
-- at most, tasks of type none have a name, and no name is used twice.
pub task_type_name_validator-IsWellFormed :
    (job : DiJob) → (task_type_name_validator job ≡ none) ↔ IsWellFormed job.spec.tasks
task_type_name_validator-IsWellFormed job = (accepted_sound job, accepted_complete job)
