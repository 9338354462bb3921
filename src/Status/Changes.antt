-- ===== src/Status/Changes.antt =====
-- UpdateJobStatus as a whole: what it makes of the phase and the conditions.
use di_orchestrator.Base.{
  subst, sym, ◌∙◌, ◌+◌, ◌≡◌, ◌≢◌, refl, Bool-cases, inl, inr, false, some, List, ◌||◌, arith,
}
use di_orchestrator.Text.{Text}
use di_orchestrator.Kube.{condition_true}
use di_orchestrator.Job.{Phase, phase_eq, phase_eq→eq, phase_eq_refl, JobCondition}
use di_orchestrator.Machine.{State, Result, Api, ok, err, panic, after, modify_job, ◌>>◌}
use di_orchestrator.Utils.Pods.{is_succeeded, is_failed}
use di_orchestrator.Status.{
  end_running, set_condition, get_condition, update_dijob_conditions, update_job_status, with_phase,
  with_conditions,
}
use di_orchestrator.Status.Conditions.{IsValid, set_condition-IsValid}
use di_orchestrator.Status.Ended.{Ended, end_running-Ended, IsValid-Ended}

-- The job after a change: the phase, valid conditions, and a True condition for the phase with
-- the given reason.
pub record Changed (s t : State) (phase : Phase) (reason : Text) : Type 0 where
  pub conditions : List JobCondition
  pub job_now : t.job ≡ with_phase phase (with_conditions (λ _. conditions) s.job)
  pub calls_kept : t.calls ≡ s.calls
  pub settings_kept : t.settings ≡ s.settings
  pub still_valid : IsValid s.job.status.conditions → IsValid conditions
  pub current :
      IsValid s.job.status.conditions
      → (c : JobCondition) × (get_condition conditions phase ≡ some c)
        × (c.status ≡ condition_true)
        × (c.reason ≡ reason)

-- The condition is stored, and then the phase.
stored-Changed :
    (s t : State) (cs : List JobCondition) (new : JobCondition)
    → t.job ≡ with_conditions (λ _. cs) s.job
    → t.calls ≡ s.calls
    → t.settings ≡ s.settings
    → (IsValid s.job.status.conditions → IsValid cs)
    → new.status ≡ condition_true
    → Changed s
        (record t {
          job = with_phase new.type (with_conditions (λ cs. set_condition cs new) t.job);
        })
        new.type
        new.reason
stored-Changed s t cs new job calls settings valid now = record {
  conditions = set_condition cs new;
  job_now = rw job refl;
  calls_kept = calls;
  settings_kept = settings;
  still_valid = λ v. (set_condition-IsValid cs new (valid v)).0;
  current = λ v.
      let (c, e, same) = (set_condition-IsValid cs new (valid v)).1 in (c, e, same.1 ∙ now, same.2);
}

set_phase : Api → Phase → Text → Text → State → Result (Unit {0}) × State
set_phase api phase reason msg =
    update_dijob_conditions api phase reason msg >> modify_job (with_phase phase)

set_phase-Changed :
    (api : Api) (phase : Phase) (reason msg : Text) (s : State)
    → ((set_phase api phase reason msg s).0 ≡ ok tt)
      × Changed s (set_phase api phase reason msg s).1 phase reason
unfolding set_phase update_dijob_conditions
set_phase-Changed api phase reason msg s =
    elim (Bool-cases (is_succeeded s.job || is_failed s.job)) [
      | inl ended ↦
          let later = record s { ticks = s.ticks + 1 + 1 } in
          let (cs', h) = end_running-Ended api s.job.status.conditions later in
          rw ended (go cs' (end_running api s.job.status.conditions later) h)
      | inr going ↦ rw going (
        refl,
        stored-Changed s (record s { ticks = s.ticks + 1 + 1 }) s.job.status.conditions new refl
            refl refl (λ v. v) refl,
      )
    ]
  where
    new : JobCondition
    new = record {
      type = phase;
      status = condition_true;
      reason = reason;
      message = msg;
      last_update_time = api.now s.ticks;
      last_transition_time = api.now (s.ticks + 1);
    }

    go :
        (cs' : List JobCondition) (out : Result (List JobCondition) × State)
        → Ended (record s { ticks = s.ticks + 1 + 1 }) out s.job.status.conditions cs'
        → let last =
            after
              (after
                (after out (λ ended. modify_job (with_conditions (λ _. ended))))
                (λ _. modify_job (with_conditions (λ cs. set_condition cs new))))
              (λ _. modify_job (with_phase phase)) in
          (last.0 ≡ ok tt) × Changed s last.1 phase reason
    go cs' (ok ds, t) h = (
      refl,
      stored-Changed s (record t { job = with_conditions (λ _. ds) t.job }) ds new
          (rw h.job_kept refl) h.calls_kept h.settings_kept
          (λ v. subst IsValid (sym (ds-eq h)) (IsValid-Ended h v)) refl,
    )
      where
        ds-eq :
            Ended (record s { ticks = s.ticks + 1 + 1 }) (ok ds, t) s.job.status.conditions cs'
            → ds ≡ cs'
        ds-eq k = cc k.ends_ok
    go cs' (err e, t) h = cc h.ends_ok
    go cs' (panic, t) h = cc h.ends_ok

-- What UpdateJobStatus does: nothing where the job is in the phase already, and else a change.
pub update_job_status_lem :
    (api : Api) (phase : Phase) (reason msg : Text) (s : State)
    → ((update_job_status api phase reason msg s).0 ≡ ok tt)
      × ((s.job.status.phase ≡ phase → (update_job_status api phase reason msg s).1 ≡ s)
          × (s.job.status.phase ≢ phase
              → Changed s (update_job_status api phase reason msg s).1 phase reason))
unfolding update_job_status
update_job_status_lem api phase reason msg s =
    elim (Bool-cases (phase_eq s.job.status.phase phase)) [
      | inl same ↦
          rw same (refl, (λ e. refl, λ ne. absurd (ne (phase_eq→eq s.job.status.phase phase same))))
      | inr other ↦
          let (done, changed) = set_phase-Changed api phase reason msg s in
          rw other (
            unfold set_phase in done,
            (λ e. absurd (same_differs e other), λ ne. unfold set_phase in changed),
          )
    ]
  where
    same_differs : s.job.status.phase ≡ phase → phase_eq s.job.status.phase phase ≡ false → ⊥
    same_differs e h = ground (arith, phase_eq_refl phase)

-- UpdateJobStatus, for a job with valid conditions that is not in the phase yet: it ends well and
-- makes no call to the cluster; the job is in the phase, its conditions are valid, the one of that
-- phase is True and has the given reason, and nothing else of the job has changed.
pub update_job_status-IsValid :
    (api : Api) (phase : Phase) (reason msg : Text) (s : State)
    → s.job.status.phase ≢ phase
    → IsValid s.job.status.conditions
    → let out = update_job_status api phase reason msg s in
      (out.0 ≡ ok tt)
      × (out.1.calls ≡ s.calls)
      × ((cs : List JobCondition) × (out.1.job ≡ with_phase phase (with_conditions (λ _. cs) s.job))
          × IsValid cs
          × ((c : JobCondition) × (get_condition cs phase ≡ some c)
              × (c.status ≡ condition_true)
              × (c.reason ≡ reason)))
update_job_status-IsValid api phase reason msg s ne v =
    let (done, both) = update_job_status_lem api phase reason msg s in
    let c = both.1 ne in
    (done, c.calls_kept, (c.conditions, c.job_now, c.still_valid v, c.current v))
