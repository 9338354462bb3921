-- ===== src/Tests/Stored.antt =====
-- The theorems about a cluster that keeps its pods, at such a cluster.
use di_orchestrator.Base.{◌≡◌, refl, true, none, some, List, [], inr, filter, if◌then◌else◌}
use di_orchestrator.Text.{codes, text_eq}
use di_orchestrator.Kube.{Pod}
use di_orchestrator.Job.{Phase}
use di_orchestrator.Machine.{State, Error, Api}
use di_orchestrator.Machine.Store.{kept, holds, is_selected}
use di_orchestrator.Utils.Validator.{task_type_name_validator, count_tasks, check_names}
use di_orchestrator.Dict.{lookup, insert}
use di_orchestrator.Controller.Replicas.Names.{Pairwise, Distinguished, build_pods-Distinguished}
use di_orchestrator.Tests.{api, job_in, state_of, settings, nodes}
use di_orchestrator.Tests.Neighbours.{free, built, three_built}

taken : Error
taken = Error.client (codes "already exists")

missing : Error
missing = Error.client (codes "not found")

-- A cluster that begins with these pods and keeps those that are created and not deleted.
abbrev store : List Pod → Api
store initial = record api {
  create_pod =
      λ calls pod. if holds pod.namespace pod.name (kept initial calls) then some taken else none;
  list_pods = λ calls options. inr (filter (is_selected options) (kept initial calls));
  is_already_exists = λ e. true;
  delete_pod =
      λ calls pod. if holds pod.namespace pod.name (kept initial calls) then none else some missing;
  is_not_found = λ e. true;
}

accepted : task_type_name_validator free ≡ none
unfolding task_type_name_validator count_tasks check_names lookup insert text_eq
accepted = refl

abbrev start : State
start = state_of free

build_pods-Distinguished_example : Pairwise Distinguished built
build_pods-Distinguished_example =
    build_pods-Distinguished settings free [] built accepted three_built

-- A preemptible job whose learner is there when it is rescheduled.
abbrev moved : State
moved = state_of (job_in true Phase.rescheduling nodes)
