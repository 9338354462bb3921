-- ===== src/Controller/Steps/Restarts.antt =====
-- When a job is made to restart: no step of pkg/controllers/dijob.go does it once the restarts are
-- used up, and none touches the counter or the limit.
pub mod Reconciled
pub mod Rounds
use di_orchestrator.Base.{
  ℕ, ◌≡◌, ◌≢◌, refl, sym, subst, ap, ◌∙◌, ◌⊎◌, inl, inr, Bool, true, false, not, Bool-cases, List,
  [], ◌∷◌, ltb, ◌==◌, ◌&&◌, length, if◌then◌else◌, arith, Option, ◌++◌,
}
use di_orchestrator.Text.{Text, codes, itoa}
use di_orchestrator.Kube.{Pod}
use di_orchestrator.Job.{DiJob, Phase}
use di_orchestrator.Machine.{
  State, Result, ok, err, panic, Error, Action, Api, after, pure, lift, caught, ◌>>=◌, ◌>>◌,
  attempt,
}
use di_orchestrator.Machine.Along.{
  Preorder, pure-IsAlong, bind-IsAlong, if-IsAlong, attempt-IsAlong,
}
use di_orchestrator.Utils.Pods.{count_scheduled_pods, count_ready_pods, count_completed_pods}
use di_orchestrator.Utils.Filters.{filter_pods, terminating_pod_filter, non_terminating_pod_filter}
use di_orchestrator.Status.{update_job_status, update_job_status_by_backoff_limit}
use di_orchestrator.Status.Phases.{
  Reaches, IsExhausted, update_job_status-Reaches, update_job_status_by_backoff_limit-Reaches,
  update_job_status_by_backoff_limit-phase,
}
use di_orchestrator.Pods.Calls.{delete_pods, create_pod}
use di_orchestrator.Pods.Calls.Deletes.{delete_pods_lem, create_pod-Effect}
use di_orchestrator.Pods.Build.{total_replicas}
use di_orchestrator.Controller.Replicas.{
  or_crash, build_pods, create_built, give_up, build_and_create_pods, delete_redundant_replicas,
  create_missed_replicas, delete_failed_replicas,
}
use di_orchestrator.Controller.Replicas.Deletes.{
  delete_failed_replicas-Deletes, delete_redundant_replicas-job,
}
use di_orchestrator.Controller.Replicas.Frames.{or_crash-job, create_missed_replicas-job}
use di_orchestrator.Controller.Checks.{
  check_all_pods_succeeded, check_pods_failed, check_pods_completion, detect_reschedule,
  update_status_replicas,
}
use di_orchestrator.Controller.Steps.{
  on_pending, on_starting, on_running, on_restarting, on_rescheduling, by_phase,
  reconcile_with_job_status,
}
use di_orchestrator.Controller.Steps.Crash.{update_status_replicas-Kept}

-- From one job to a later one: the specification and the counter stay, and a job that has come to
-- restart had restarts left.
pub record Tame (old new : DiJob) : Type 0 where
  pub spec_kept : new.spec ≡ old.spec
  pub restarts_kept : new.status.restarts ≡ old.status.restarts
  pub gate :
      (new.status.phase ≡ old.status.phase)
      ⊎ ((new.status.phase ≢ Phase.restarting) ⊎ ¬ (IsExhausted old))

Tame-refl : {old new : DiJob} → new ≡ old → Tame old new
Tame-refl e = record {
  spec_kept = ap (λ j. j.spec) e;
  restarts_kept = ap (λ j. j.status.restarts) e;
  gate = inl (ap (λ j. j.status.phase) e);
}

IsExhausted-kept :
    (a b : DiJob)
    → b.spec ≡ a.spec
    → b.status.restarts ≡ a.status.restarts
    → IsExhausted a
    → IsExhausted b
IsExhausted-kept a b s r (limit, e, h) = (limit, ap (λ x. x.backoff_limit) s ∙ e, rw r h)

pub Tame-trans : {a b c : DiJob} → Tame a b → Tame b c → Tame a c
Tame-trans {a} {b} {c} h k = record {
  spec_kept = k.spec_kept ∙ h.spec_kept;
  restarts_kept = k.restarts_kept ∙ h.restarts_kept;
  gate = go h.gate k.gate;
}
  where
    Gate : DiJob → DiJob → Type 0
    Gate x y =
        (y.status.phase ≡ x.status.phase)
        ⊎ ((y.status.phase ≢ Phase.restarting) ⊎ ¬ (IsExhausted x))

    go : Gate a b → Gate b c → Gate a c
    go (inl e) (inl f) = inl (f ∙ e)
    go (inr (inl ne)) (inl f) = inr (inl (λ r. ne (sym f ∙ r)))
    go (inr (inr left)) (inl f) = inr (inr left)
    go g (inr (inl ne)) = inr (inl ne)
    go g (inr (inr left)) =
        inr (inr (λ x. left (IsExhausted-kept a b h.spec_kept h.restarts_kept x)))

-- An action that is tame however it ends.
abbrev pub IsTame : {A : Type 0} → Action A → Type 0
IsTame m = (s : State) → Tame s.job (m s).1.job

pub kept-IsTame : {A : Type 0} (m : Action A) → ((s : State) → (m s).1.job ≡ s.job) → IsTame m
kept-IsTame m h s = Tame-refl (h s)

Tame-order : Preorder (λ s t. Tame s.job t.job)
Tame-order = record { same = λ s. Tame-refl refl; trans = λ h k. Tame-trans h k }

pub pure-IsTame : {A : Type 0} (a : A) → IsTame (pure a)
pure-IsTame a = pure-IsAlong Tame-order a

pub bind-IsTame :
    {A B : Type 0} (m : Action A) (k : A → Action B)
    → IsTame m
    → ((a : A) → IsTame (k a))
    → IsTame (m >>= k)
bind-IsTame m k h next = bind-IsAlong Tame-order m k h next

pub if-IsTame :
    {A : Type 0} (b : Bool) (m n : Action A) → IsTame m → IsTame n → IsTame (if b then m else n)
if-IsTame b m n h k = if-IsAlong Tame-order b m n h k

pub update-IsTame :
    (api : Api) (phase : Phase) (reason msg : Text)
    → phase ≢ Phase.restarting
    → IsTame (update_job_status api phase reason msg)
update-IsTame api phase reason msg ne s =
    let r = update_job_status-Reaches api phase reason msg s in
    record {
      spec_kept = r.spec_kept;
      restarts_kept = r.restarts_kept;
      gate = inr (inl (λ e. ne (sym r.phase_now ∙ e)));
    }

pub backoff-IsTame : (api : Api) (msg : Text) → IsTame (update_job_status_by_backoff_limit api msg)
backoff-IsTame api msg s =
    let (phase, r, _) = update_job_status_by_backoff_limit-Reaches api msg s in
    record {
      spec_kept = r.spec_kept;
      restarts_kept = r.restarts_kept;
      gate = inr (elim (update_job_status_by_backoff_limit-phase api msg s) [
        | inl (failed, spent) ↦ inl (λ e. cc)
        | inr (again, left) ↦ inr left
      ]);
    }

pub delete_pods-IsTame : (api : Api) (pods : List Pod) → IsTame (delete_pods api pods)
delete_pods-IsTame api pods =
    kept-IsTame (delete_pods api pods) (λ s. (delete_pods_lem api pods s).0.job_kept)

attempt-IsTame : (api : Api) (pod : Pod) → IsTame (attempt (create_pod api pod))
attempt-IsTame api pod =
    attempt-IsAlong Tame-order (create_pod api pod)
      (λ s. Tame-refl (create_pod-Effect api pod s).job_kept)

give_up-IsTame : (api : Api) (built : List Pod) (pod : Pod) → IsTame (give_up api built pod)
unfolding give_up
give_up-IsTame api built pod =
    bind-IsTame (update_job_status_by_backoff_limit api _) (λ x. delete_pods api built)
      (backoff-IsTame api _) (λ x. delete_pods-IsTame api built)

create_built-IsTame : (api : Api) (built pods : List Pod) → IsTame (create_built api built pods)
unfolding create_built
create_built-IsTame api built [] = pure-IsTame tt
create_built-IsTame api built (pod ∷ pods) =
    bind-IsTame (attempt (create_pod api pod)) step (attempt-IsTame api pod)
      (each (create_built-IsTame api built pods))
  where
    step : Error ⊎ Unit {0} → Action (Unit {0})
    step r = elim r [ inr _ ↦ create_built api built pods | inl _ ↦ give_up api built pod ]

    each : IsTame (create_built api built pods) → (r : Error ⊎ Unit {0}) → IsTame (step r)
    each rest (inl e) = give_up-IsTame api built pod
    each rest (inr a) = rest

pub build-IsTame :
    (api : Api) (allocation : List Text) → IsTame (build_and_create_pods api allocation)
unfolding build_and_create_pods
build-IsTame api allocation s =
    let built = build_pods s.settings s.job allocation 0 0 s.job.spec.tasks in
    bind-IsTame (or_crash built) (λ b. create_built api b b)
      (kept-IsTame (or_crash built) (or_crash-job built)) (λ b. create_built-IsTame api b b) s
