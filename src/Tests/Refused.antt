-- ===== src/Tests/Refused.antt =====
-- The theorem about a job that the validators refuse, at a concrete job.
use di_orchestrator.Base.{◌≡◌, refl, some, [], ◌∷◌, false, inr}
use di_orchestrator.Text.{codes, text_eq}
use di_orchestrator.Dict.{lookup, insert}
use di_orchestrator.Job.{DiJob, Phase}
use di_orchestrator.Machine.{Error, State, Api, ok}
use di_orchestrator.Machine.Along.{Adds}
use di_orchestrator.Status.Cluster.{
  set_default_job_name_in_cluster, default_round, default_names, rename_task,
}
use di_orchestrator.Status.Cluster.Updates.{IsUpdate}
use di_orchestrator.Utils.Validator.{task_type_name_validator, count_tasks, check_names}
use di_orchestrator.Controller.Reconcile.{ignore, reconcile_job}
use di_orchestrator.Controller.Reconcile.Refused.{reconcile_job_refused}
use di_orchestrator.Tests.{api, poll_once_law, job_in, state_of, task}

-- Two tasks that both learn.
abbrev twins : DiJob
twins =
    let job = job_in false Phase.pending [] in
    record job {
      spec = record job.spec { tasks = task 1 (codes "learner") ∷ task 1 (codes "learner") ∷ [] };
    }

abbrev holding : Api
holding = record api { get_job = λ calls key. inr twins }

abbrev named : State
named = (set_default_job_name_in_cluster holding (state_of twins)).1

named_now : ignore (set_default_job_name_in_cluster holding) (state_of twins) ≡ (ok tt, named)
unfolding set_default_job_name_in_cluster default_round default_names rename_task
named_now = refl

refused :
    task_type_name_validator named.job
    ≡ some (Error.failure (codes "the number of learner task is more than one"))
unfolding set_default_job_name_in_cluster default_round default_names rename_task
    task_type_name_validator count_tasks check_names lookup insert text_eq
refused = refl

reconcile_job_refused_example :
    Adds IsUpdate (state_of twins) (reconcile_job holding (state_of twins)).1
    × ((reconcile_job holding (state_of twins)).1.job.status.phase ≡ Phase.failed)
reconcile_job_refused_example =
    reconcile_job_refused holding (state_of twins) named
      (Error.failure (codes "the number of learner task is more than one")) poll_once_law named_now
      refused
