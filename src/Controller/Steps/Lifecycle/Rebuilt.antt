-- ===== src/Controller/Steps/Lifecycle/Rebuilt.antt =====
-- pkg/controllers/dijob.go: the two reconciliations of a preemptible job that is rescheduled, on a
-- cluster that keeps the pods.
use di_orchestrator.Base.{◌<◌, ◌≤◌, ◌≡◌, ap, ◌∙◌, true, none, List, [], ◌++◌, length, All}
use di_orchestrator.Text.{Text}
use di_orchestrator.Kube.{Pod}
use di_orchestrator.Job.{Phase}
use di_orchestrator.Machine.{State, Result, ok, err, panic, Api, after}
use di_orchestrator.Machine.Store.{kept, Keeps}
use di_orchestrator.Utils.Validator.{task_type_name_validator}
use di_orchestrator.Status.{update_job_status}
use di_orchestrator.Status.Phases.{update_job_status-Reaches}
use di_orchestrator.Pods.Build.{total_replicas}
use di_orchestrator.Controller.Replicas.{build_and_create_pods}
use di_orchestrator.Controller.Replicas.Built.{Stand, slots, build_pods_lem}
use di_orchestrator.Controller.Replicas.Names.{Stand-Distinguished, slots-Apart}
use di_orchestrator.Controller.Checks.{update_status_replicas}
use di_orchestrator.Controller.Steps.{on_rescheduling, by_phase, reconcile_with_job_status}
use di_orchestrator.Controller.Steps.Crash.{update_status_replicas-Kept}
use di_orchestrator.Controller.Steps.Lifecycle.{
  Gets, counted, reconcile-by_phase, IsStanding, live-IsStanding, none_zero,
}
use di_orchestrator.Controller.Steps.Lifecycle.Stored.{
  Stored, HasSlot, create_built-Stored, Stand-HasRoom,
}
use di_orchestrator.Controller.Steps.Lifecycle.Emptied.{Emptied, delete_pods-Emptied}

-- With pods there, all of them are deleted.
pub reconcile-Emptied :
    (api : Api) (initial pods : List Pod) (s : State)
    → Keeps api initial
    → s.job.status.phase ≡ Phase.rescheduling
    → s.job.spec.preemptible ≡ true
    → All IsStanding pods
    → 0 < length pods
    → Emptied initial (counted pods s) (reconcile_with_job_status api pods s) pods
unfolding by_phase on_rescheduling
reconcile-Emptied api initial pods s keeps p moving standing some_there =
    rw
      (
        reconcile-by_phase api pods s Phase.rescheduling true p moving,
        live-IsStanding pods standing,
        none_zero (length pods) some_there,
      )
      (delete_pods-Emptied api initial pods (counted pods s) keeps)

-- With no pod there, those of the new allocation are created, and the job starts.
pub record Rebuilt (initial : List Pod) (s : State) (out : Result (Unit {0}) × State) : Type 0 where
  pub gets : Gets Phase.starting s out
  pub namespace_kept : out.1.job.namespace ≡ s.job.namespace
  pub name_kept : out.1.job.name ≡ s.job.name
  pub new : List Pod
  pub kept_now : kept initial out.1.calls ≡ kept initial s.calls ++ new
  pub stand : Stand (counted [] s).job s.job.status.allocation 0 (slots s.job.spec.tasks) new

starts-Rebuilt :
    (api : Api) (initial new : List Pod) (reason msg : Text) (s : State)
    (out : Result (Unit {0}) × State)
    → Stored initial (counted [] s) out new
    → Stand (counted [] s).job s.job.status.allocation 0 (slots s.job.spec.tasks) new
    → Rebuilt initial s (after out (λ _. update_job_status api Phase.starting reason msg))
starts-Rebuilt api initial new reason msg s (err x, t) h stand = cc h.ends_ok
starts-Rebuilt api initial new reason msg s (panic, t) h stand = cc h.ends_ok
starts-Rebuilt api initial new reason msg s (ok a, t) h stand =
    let k = update_status_replicas-Kept [] (total_replicas s.job.spec.tasks) s.job in
    let r = update_job_status-Reaches api Phase.starting reason msg t in
    record {
      gets = record {
        ends_ok = r.ends_ok;
        phase_now = r.phase_now;
        spec_kept = r.spec_kept ∙ (ap (λ j. j.spec) h.job_kept ∙ k.spec_kept);
      };
      namespace_kept = r.namespace_kept ∙ (ap (λ j. j.namespace) h.job_kept ∙ k.namespace_kept);
      name_kept = r.name_kept ∙ (ap (λ j. j.name) h.job_kept ∙ k.name_kept);
      new = new;
      kept_now = ap (kept initial) r.calls_kept ∙ h.kept_now;
      stand = stand;
    }

pub reconcile-Rebuilt :
    (api : Api) (initial : List Pod) (s : State)
    → Keeps api initial
    → task_type_name_validator s.job ≡ none
    → s.job.status.phase ≡ Phase.rescheduling
    → s.job.spec.preemptible ≡ true
    → total_replicas s.job.spec.tasks ≤ length s.job.status.allocation
    → All (HasSlot s.job (kept initial s.calls)) (slots s.job.spec.tasks)
    → Rebuilt initial s (reconcile_with_job_status api [] s)
unfolding by_phase on_rescheduling build_and_create_pods update_status_replicas
reconcile-Rebuilt api initial s keeps accepted p moving fits room =
    let t = counted [] s in
    let allocation = s.job.status.allocation in
    let (new, built, stand) = build_pods_lem t.settings t.job allocation (λ _. fits) in
    let c =
      create_built-Stored api initial new new t keeps
        (Stand-HasRoom t.job allocation 0 (slots s.job.spec.tasks) new (kept initial s.calls) stand
          room)
        (Stand-Distinguished t.job allocation 0 (slots s.job.spec.tasks) new stand
          (slots-Apart s.job accepted)) in
    rw (reconcile-by_phase api [] s Phase.rescheduling true p moving, live-IsStanding [] tt, built)
      (starts-Rebuilt api initial new _ _ s _ c stand)
