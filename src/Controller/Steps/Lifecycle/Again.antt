-- ===== src/Controller/Steps/Lifecycle/Again.antt =====
-- pkg/controllers/dijob.go and pkg/context/pod.go together: the first reconciliation of a job, and what
-- is listed after it.
use di_orchestrator.Base.{
  ◌<◌, ◌≤◌, ◌≡◌, subst, ap, ◌∙◌, true, none, List, [], ◌∷◌, ◌++◌, length, filter, All,
}
use di_orchestrator.Text.{Text}
use di_orchestrator.Kube.{Pod}
use di_orchestrator.Job.{DiJob, Phase}
use di_orchestrator.Machine.{State, Result, ok, Api, Call, logged}
use di_orchestrator.Machine.Store.{
  kept, kept-append, is_selected, Keeps, Seen, filter-append, filter-All,
}
use di_orchestrator.Utils.Spec.{gen_labels}
use di_orchestrator.Utils.Validator.{task_type_name_validator}
use di_orchestrator.Pods.Build.{total_replicas}
use di_orchestrator.Pods.Calls.{list_job_pods, options_for}
use di_orchestrator.Controller.Replicas.{build_and_create_pods}
use di_orchestrator.Controller.Replicas.Built.{
  Stand, slots, build_pods_lem, length-Stand, length-slots,
}
use di_orchestrator.Controller.Replicas.Names.{
  Pairwise, Distinguished, Stand-Distinguished, slots-Apart,
}
use di_orchestrator.Controller.Checks.{update_status_replicas}
use di_orchestrator.Controller.Steps.{on_pending, reconcile_with_job_status}
use di_orchestrator.Controller.Steps.Crash.{update_status_replicas-Kept}
use di_orchestrator.Controller.Steps.Lifecycle.{Gets, counted, reconcile-on_pending, none_zero}
use di_orchestrator.Controller.Steps.Lifecycle.Stored.{
  HasSlot, create_built-Stored, Stand-HasRoom, Stand-selected, Seen-Stand,
}

-- ListJobPods on a cluster that keeps the pods.
pub list_job_pods-Seen :
    (api : Api) (initial : List Pod) (s : State)
    → Keeps api initial
    → api.selector_error (gen_labels s.job) ≡ none
    → (pods : List Pod) × (list_job_pods api s
        ≡ (ok pods, logged (Call.list_pods (options_for s.job)) s))
      × Seen pods (filter (is_selected (options_for s.job)) (kept initial s.calls))
unfolding list_job_pods
list_job_pods-Seen api initial s keeps valid =
    let (pods, e, seen) = keeps.lists s.calls (options_for s.job) in (pods, rw (valid, e), seen)

-- The first reconciliation, where the names of all the replicas are free.
pub record Begun (initial : List Pod) (s : State) (out : Result (Unit {0}) × State) : Type 0 where
  pub gets : Gets Phase.pending s out
  pub new : List Pod
  pub job_now : out.1.job ≡ (counted [] s).job
  pub kept_now : kept initial out.1.calls ≡ kept initial s.calls ++ new
  pub stand : Stand (counted [] s).job s.job.status.allocation 0 (slots s.job.spec.tasks) new

pub reconcile-Begun :
    (api : Api) (initial : List Pod) (s : State)
    → Keeps api initial
    → task_type_name_validator s.job ≡ none
    → s.job.status.phase ≡ Phase.pending
    → (s.job.spec.preemptible ≡ true
        → total_replicas s.job.spec.tasks ≤ length s.job.status.allocation)
    → 0 < total_replicas s.job.spec.tasks
    → All (HasSlot s.job (kept initial s.calls)) (slots s.job.spec.tasks)
    → Begun initial s (reconcile_with_job_status api [] s)
unfolding on_pending build_and_create_pods update_status_replicas
reconcile-Begun api initial s keeps accepted p fits asked room =
    let n = total_replicas s.job.spec.tasks in
    let t = counted [] s in
    let k = update_status_replicas-Kept [] n s.job in
    let (new, built, stand) = build_pods_lem t.settings t.job s.job.status.allocation fits in
    let c =
      create_built-Stored api initial new new t keeps
        (Stand-HasRoom t.job s.job.status.allocation 0 (slots s.job.spec.tasks) new
          (kept initial s.calls) stand room)
        (Stand-Distinguished t.job s.job.status.allocation 0 (slots s.job.spec.tasks) new stand
          (slots-Apart s.job accepted)) in
    rw (reconcile-on_pending api [] s p, none_zero n asked, built)
      (record {
        gets = record {
          ends_ok = c.ends_ok;
          phase_now = ap (λ j. j.status.phase) c.job_kept ∙ (k.phase_kept ∙ p);
          spec_kept = ap (λ j. j.spec) c.job_kept ∙ k.spec_kept;
        };
        new = new;
        job_now = c.job_kept;
        kept_now = c.kept_now;
        stand = stand;
      })

-- A call of a list changes no pod.
pub kept_listed :
    (initial : List Pod) (s : State)
    → kept initial (logged (Call.list_pods (options_for s.job)) s).calls ≡ kept initial s.calls
unfolding kept
kept_listed initial s = kept-append initial s.calls (Call.list_pods (options_for s.job) ∷ [])

-- Where nothing was selected, what is selected now are the new pods.
pub selected_new :
    (job : DiJob) (held new : List Pod)
    → filter (is_selected (options_for job)) held ≡ []
    → All (λ p. is_selected (options_for job) p ≡ true) new
    → filter (is_selected (options_for job)) (held ++ new) ≡ new
selected_new job held new none_yet all_new =
    filter-append (is_selected (options_for job)) held new
    ∙ (ap (λ l. l ++ filter (is_selected (options_for job)) new) none_yet
        ∙ filter-All (is_selected (options_for job)) new all_new)

-- The pods that are seen are as many as the slots, and none is being removed.
pub record Found (job : DiJob) (allocation : List Text) (pods : List Pod) : Type 0 where
  pub stand : Stand job allocation 0 (slots job.spec.tasks) pods
  pub apart : Pairwise Distinguished pods
  pub all : length pods ≡ total_replicas job.spec.tasks

Found-Stand :
    (job : DiJob) (allocation : List Text) (pods : List Pod)
    → task_type_name_validator job ≡ none
    → Stand job allocation 0 (slots job.spec.tasks) pods
    → Found job allocation pods
Found-Stand job allocation pods accepted stand = record {
  stand = stand;
  apart =
      Stand-Distinguished job allocation 0 (slots job.spec.tasks) pods stand
        (slots-Apart job accepted);
  all =
      length-Stand job allocation 0 (slots job.spec.tasks) pods stand ∙ length-slots job.spec.tasks;
}

-- The list after the first reconciliation.
pub record Again (api : Api) (s t : State) : Type 0 where
  pub pods : List Pod
  pub listed : list_job_pods api t ≡ (ok pods, logged (Call.list_pods (options_for t.job)) t)
  pub found : Found s.job s.job.status.allocation pods

pub list_job_pods-Again :
    (api : Api) (initial : List Pod) (s : State) (out : Result (Unit {0}) × State)
    → Keeps api initial
    → api.selector_error (gen_labels s.job) ≡ none
    → task_type_name_validator s.job ≡ none
    → filter (is_selected (options_for s.job)) (kept initial s.calls) ≡ []
    → Begun initial s out
    → Again api s out.1
unfolding update_status_replicas gen_labels
list_job_pods-Again api initial s out keeps valid accepted none_yet b =
    let job_is = b.job_now in
    let (pods, e, seen) =
      list_job_pods-Seen api initial out.1 keeps
        (ap (λ j. api.selector_error (gen_labels j)) job_is ∙ valid) in
    let opts : options_for out.1.job ≡ options_for s.job = ap options_for job_is in
    let all_new =
      Stand-selected (counted [] s).job s.job.status.allocation 0 (slots s.job.spec.tasks) b.new
        b.stand in
    let same =
      ap (λ o. filter (is_selected o) (kept initial out.1.calls)) opts
      ∙ (ap (filter (is_selected (options_for s.job))) b.kept_now
          ∙ selected_new s.job (kept initial s.calls) b.new none_yet all_new) in
    record {
      pods = pods;
      listed = e;
      found = Found-Stand s.job s.job.status.allocation pods accepted (
          Seen-Stand s.job (counted [] s).job.status s.job.status.allocation 0
            (slots s.job.spec.tasks) pods b.new (subst (Seen pods) same seen) b.stand);
    }
