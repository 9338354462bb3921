-- ===== src/Utils/Validator.antt =====
-- pkg/utils/validator.go: which jobs are accepted.
pub mod Maps
pub mod Laws
use di_orchestrator.Base.{
  ℕ, ◌+◌, Bool, true, not, ◌&&◌, Option, none, some, List, [], ◌∷◌, ◌++◌, ◌⊎◌, inl, inr, ltb,
  if◌then◌else◌,
}
use di_orchestrator.Text.{Text, codes, text_eq, is_empty}
use di_orchestrator.Dict.{Dict, insert, get_or}
use di_orchestrator.Job.{DiJob, Task, task_type_none}
use di_orchestrator.Machine.{Error, failure}

-- The value of a counter.
abbrev pub number : Text → Dict ℕ → ℕ
number k m = get_or k m 0

-- `m[k]++`
abbrev pub increase : Text → Dict ℕ → Dict ℕ
increase k m = insert k (number k m + 1) m

abbrev is_none_type : Task → Bool
is_none_type task = text_eq task.type task_type_none

-- The first loop: the numbers of tasks by name, unless a check fails.
unfoldable pub count_tasks : List Task → Dict ℕ → Dict ℕ → Error ⊎ Dict ℕ
count_tasks [] types names = inr names
count_tasks (task ∷ tasks) types names =
    let types' = increase task.type types in
    let rest = count_tasks tasks types' (increase task.name names) in
    if ltb 1 (number task.type types') && not (is_none_type task)
    then inl (failure (codes "the number of " ++ task.type ++ codes " task is more than one"))
    else if is_none_type task && is_empty task.name
    then inl (failure (codes "none type task has no name"))
    else rest

-- The second loop, over the map of names.
unfoldable pub check_names : Dict ℕ → Option Error
check_names [] = none
check_names ((name, n) ∷ names) =
    if ltb 1 n
    then some (failure (codes "there is more than one task named " ++ name))
    else check_names names

abbrev checked : Error ⊎ Dict ℕ → Option Error
checked (inl e) = some e
checked (inr names) = check_names names

-- TaskTypeNameValidator
unfoldable pub task_type_name_validator : DiJob → Option Error
unfolding count_tasks check_names
task_type_name_validator job = checked (count_tasks job.spec.tasks [] [])

abbrev pub Validator : Type 0
Validator = DiJob → Option Error

-- Validators.Apply
unfoldable pub apply_validators : List Validator → DiJob → Option Error
apply_validators [] job = none
apply_validators (f ∷ fs) job = elim (f job) [ some e ↦ some e | none ↦ apply_validators fs job ]
