-- ===== src/Status/Cluster/Updates.antt =====
-- What the functions that write a job to the cluster (pkg/context/status.go) call.
use di_orchestrator.Base.{
  ℕ, suc, ◌≡◌, refl, ◌∙◌, Bool, true, false, set, if◌then◌else◌, Option, none, some, List, [], ◌∷◌,
  ◌⊎◌, inl, inr, get_elem?,
}
use di_orchestrator.Kube.{NamespacedName}
use di_orchestrator.Job.{DiJob, DiJobStatus, Task}
use di_orchestrator.Machine.{
  Error, State, Action, Api, Call, pure, crash, logged, send_error, attempt, modify_job, ◌>>=◌,
}
use di_orchestrator.Machine.Poll.{PollLaw}
use di_orchestrator.Machine.Along.{
  Preorder, pure-IsAlong, lift-IsAlong, lift_error-IsAlong, bind-IsAlong, if-IsAlong,
  attempt-IsAlong, poll-IsAlong, Adds, Adds-same, Adds-trans, Adds-order,
}
use di_orchestrator.Status.{with_status}
use di_orchestrator.Status.Cluster.{
  key_of, get_job, update_job, update_status, succeeds, write_status, copy_phase,
  update_phase_in_cluster, needs_name, named, rename_task, default_names, default_round,
  set_default_job_name_in_cluster, with_tasks,
}

-- A call that reads the job, writes it or its status, or records an event.
abbrev pub IsUpdate : Call → Type 0
IsUpdate (Call.get_job _) = Unit
IsUpdate (Call.update_job _) = Unit
IsUpdate (Call.update_status _) = Unit
IsUpdate (Call.event _ _ _) = Unit
IsUpdate _ = ⊥

-- Such calls alone were made, and the handler's job stays.
abbrev pub Updates : State → State → Type 0
Updates s t = Adds IsUpdate s t × (t.job ≡ s.job)

Updates-order : Preorder Updates
Updates-order = record {
  same = λ s. (Adds-same refl, refl);
  trans = λ h k. (Adds-trans h.0 k.0, k.1 ∙ h.1);
}

logged-Updates : (c : Call) (s : State) → IsUpdate c → Updates s (logged c s)
logged-Updates c s h = (record { added = c ∷ []; calls_now = refl; only = (h, tt) }, refl)

abbrev IsUpdater : {A : Type 0} → Action A → Type 0
IsUpdater m = (s : State) → Updates s (m s).1

get_job-IsUpdater : (api : Api) (key : NamespacedName) → IsUpdater (get_job api key)
get_job-IsUpdater api key s =
    Updates-order.trans (logged-Updates (Call.get_job key) s tt)
      (lift-IsAlong Updates-order (api.get_job s.calls key) (logged (Call.get_job key) s))

send_error-IsUpdater :
    (c : Call) (answer : List Call → Option Error) → IsUpdate c → IsUpdater (send_error c answer)
send_error-IsUpdater c answer h s =
    Updates-order.trans (logged-Updates c s h)
      (lift_error-IsAlong Updates-order (answer s.calls) (logged c s))

succeeds-IsUpdater : (m : Action (Unit {0})) → IsUpdater m → IsUpdater (succeeds m)
succeeds-IsUpdater m h =
    bind-IsAlong Updates-order (attempt m) by_result (attempt-IsAlong Updates-order m h) each
  where
    by_result : Error ⊎ Unit {0} → Action Bool
    by_result r = elim r [ inl _ ↦ pure false | inr _ ↦ pure true ]

    each : (r : Error ⊎ Unit {0}) → IsUpdater (by_result r)
    each (inl e) = pure-IsAlong Updates-order false
    each (inr a) = pure-IsAlong Updates-order true

write_status-IsUpdater :
    (api : Api) (key : NamespacedName) (edit : DiJobStatus → DiJobStatus)
    → IsUpdater (write_status api key edit)
unfolding write_status
write_status-IsUpdater api key edit =
    bind-IsAlong Updates-order (attempt (get_job api key)) by_result
      (attempt-IsAlong Updates-order (get_job api key) (get_job-IsUpdater api key)) each
  where
    by_result : Error ⊎ DiJob → Action Bool
    by_result r = elim r [
      | inl _ ↦ pure false
      | inr new_job ↦ succeeds (update_status api (with_status edit new_job))
    ]

    each : (r : Error ⊎ DiJob) → IsUpdater (by_result r)
    each (inl e) = pure-IsAlong Updates-order false
    each (inr new_job) =
        succeeds-IsUpdater (update_status api (with_status edit new_job))
          (send_error-IsUpdater _ _ tt)

pub update_phase_in_cluster-Updates :
    (api : Api) (old new : DiJob) (s : State)
    → PollLaw api
    → Updates s (update_phase_in_cluster api old new s).1
unfolding update_phase_in_cluster
update_phase_in_cluster-Updates api old new s law =
    if-IsAlong Updates-order _ _ _ (pure-IsAlong Updates-order tt)
      (poll-IsAlong Updates-order api (write_status api (key_of new) (copy_phase new.status)) law
        (write_status-IsUpdater api (key_of new) (copy_phase new.status)))
      s

-- The names of tasks, which the handler's job is given too.
abbrev IsAdder : {A : Type 0} → Action A → Type 0
IsAdder m = (s : State) → Adds IsUpdate s (m s).1

rename_task-IsAdder : (index : ℕ) (task : Task) → IsAdder (rename_task index task)
unfolding rename_task
rename_task-IsAdder index task s = go (get_elem? s.job.spec.tasks index)
  where
    by_place : Option Task → Action (Unit {0})
    by_place o = elim o [
      | none ↦ crash
      | some old ↦
          modify_job (with_tasks (set s.job.spec.tasks index (record old { name = task.type })))
    ]

    go : (o : Option Task) → Adds IsUpdate s (by_place o s).1
    go none = Adds-same refl
    go (some old) = Adds-same refl

default_names-IsAdder : (index : ℕ) (tasks : List Task) → IsAdder (default_names index tasks)
unfolding default_names
default_names-IsAdder index [] = λ s. Adds-same refl
default_names-IsAdder index (task ∷ tasks) =
    bind-IsAlong (Adds-order IsUpdate) (if needs_name task then rename_task index task else pure tt)
      _
      (if-IsAlong (Adds-order IsUpdate) (needs_name task) (rename_task index task) (pure tt)
        (rename_task-IsAdder index task) (pure-IsAlong (Adds-order IsUpdate) tt))
      (λ x.
        bind-IsAlong (Adds-order IsUpdate) (default_names (suc index) tasks)
          (λ rest. pure (named task ∷ rest)) (default_names-IsAdder (suc index) tasks)
          (λ rest. pure-IsAlong (Adds-order IsUpdate) (named task ∷ rest)))

default_round-IsAdder : (api : Api) (key : NamespacedName) → IsAdder (default_round api key)
unfolding default_round
default_round-IsAdder api key =
    bind-IsAlong (Adds-order IsUpdate) (attempt (get_job api key)) by_result
      (λ s. (attempt-IsAlong Updates-order (get_job api key) (get_job-IsUpdater api key) s).0) each
  where
    write : DiJob → List Task → Action Bool
    write new_job tasks = succeeds (update_job api (with_tasks tasks new_job))

    by_result : Error ⊎ DiJob → Action Bool
    by_result r = elim r [
      | inl _ ↦ pure false
      | inr new_job ↦ default_names 0 new_job.spec.tasks >>= write new_job
    ]

    each : (r : Error ⊎ DiJob) → IsAdder (by_result r)
    each (inl e) = pure-IsAlong (Adds-order IsUpdate) false
    each (inr new_job) =
        bind-IsAlong (Adds-order IsUpdate) (default_names 0 new_job.spec.tasks) (write new_job)
          (default_names-IsAdder 0 new_job.spec.tasks)
          (λ tasks s.
            (succeeds-IsUpdater (update_job api (with_tasks tasks new_job))
              (send_error-IsUpdater _ _ tt) s).0)

pub set_default_job_name_in_cluster-Adds :
    (api : Api) (s : State)
    → PollLaw api
    → Adds IsUpdate s (set_default_job_name_in_cluster api s).1
unfolding set_default_job_name_in_cluster
set_default_job_name_in_cluster-Adds api s law =
    poll-IsAlong (Adds-order IsUpdate) api (default_round api (key_of s.job)) law
      (default_round-IsAdder api (key_of s.job)) s
