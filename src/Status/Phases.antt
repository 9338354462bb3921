-- ===== src/Status/Phases.antt =====
-- UpdateJobStatus and UpdateJobStatusByBackoffLimit: the phase that a job reaches.
use di_orchestrator.Base.{
  true, Option, ltb_ℤ, ◌≡◌, ◌≢◌, refl, ap, ◌∙◌, Bool-cases, inl, inr, ◌⊎◌, false, none, some, arith,
  ℤ, ◌≤ℤ◌,
}
use di_orchestrator.Text.{Text}
use di_orchestrator.Job.{DiJob, Phase, phase_eq, phase_eq→eq, phase_eq_refl}
use di_orchestrator.Machine.{State, Result, Api, ok}
use di_orchestrator.Status.{
  update_job_status, update_job_status_by_backoff_limit, restart_msg, failed_msg, may_restart,
  restarting_reason, failed_reason,
}
use di_orchestrator.Status.Changes.{Changed, update_job_status_lem}

-- The job differs at most in its phase, which is `phase`, and its conditions.
pub record Reaches (s : State) (out : Result (Unit {0}) × State) (phase : Phase) : Type 0 where
  pub ends_ok : out.0 ≡ ok tt
  pub phase_now : out.1.job.status.phase ≡ phase
  pub namespace_kept : out.1.job.namespace ≡ s.job.namespace
  pub name_kept : out.1.job.name ≡ s.job.name
  pub spec_kept : out.1.job.spec ≡ s.job.spec
  pub restarts_kept : out.1.job.status.restarts ≡ s.job.status.restarts
  pub allocation_kept : out.1.job.status.allocation ≡ s.job.status.allocation
  pub calls_kept : out.1.calls ≡ s.calls
  pub settings_kept : out.1.settings ≡ s.settings

phase_differs : (p q : Phase) → p ≡ q → phase_eq p q ≡ false → ⊥
phase_differs p q e h = ground (arith, phase_eq_refl q)

Reaches-same :
    (s t : State) (r : Result (Unit {0})) (phase : Phase)
    → r ≡ ok tt
    → t ≡ s
    → s.job.status.phase ≡ phase
    → Reaches s (r, t) phase
Reaches-same s t r phase done same old = record {
  ends_ok = done;
  phase_now = ap (λ u. u.job.status.phase) same ∙ old;
  namespace_kept = ap (λ u. u.job.namespace) same;
  name_kept = ap (λ u. u.job.name) same;
  spec_kept = ap (λ u. u.job.spec) same;
  restarts_kept = ap (λ u. u.job.status.restarts) same;
  allocation_kept = ap (λ u. u.job.status.allocation) same;
  calls_kept = ap (λ u. u.calls) same;
  settings_kept = ap (λ u. u.settings) same;
}

pub update_job_status-Reaches :
    (api : Api) (phase : Phase) (reason msg : Text) (s : State)
    → Reaches s (update_job_status api phase reason msg s) phase
update_job_status-Reaches api phase reason msg s =
    let (done, both) = update_job_status_lem api phase reason msg s in
    go (update_job_status api phase reason msg s) done both.0 both.1
  where
    go :
        (out : Result (Unit {0}) × State)
        → out.0 ≡ ok tt
        → (s.job.status.phase ≡ phase → out.1 ≡ s)
        → (s.job.status.phase ≢ phase → Changed s out.1 phase reason)
        → Reaches s out phase
    go (r, t) done same moved = elim (Bool-cases (phase_eq s.job.status.phase phase)) [
      | inl e ↦
          let old = phase_eq→eq s.job.status.phase phase e in
          Reaches-same s t r phase done (same old) old
      | inr e ↦
          let c = moved (λ old. phase_differs s.job.status.phase phase old e) in
          record {
            ends_ok = done;
            phase_now = ap (λ j. j.status.phase) c.job_now;
            namespace_kept = ap (λ j. j.namespace) c.job_now;
            name_kept = ap (λ j. j.name) c.job_now;
            spec_kept = ap (λ j. j.spec) c.job_now;
            restarts_kept = ap (λ j. j.status.restarts) c.job_now;
            allocation_kept = ap (λ j. j.status.allocation) c.job_now;
            calls_kept = c.calls_kept;
            settings_kept = c.settings_kept;
          }
    ]

-- The job has a limit and has been restarted as often as that.
abbrev pub IsExhausted : DiJob → Type 0
IsExhausted job =
    (limit : ℤ) × (job.spec.backoff_limit ≡ some limit) × (limit ≤ℤ job.status.restarts)

may_restart_cases :
    (job : DiJob)
    → ((may_restart job ≡ false) × IsExhausted job)
      ⊎ ((may_restart job ≡ true) × ¬ (IsExhausted job))
may_restart_cases job = go job.spec.backoff_limit refl
  where
    go :
        (o : Option ℤ)
        → job.spec.backoff_limit ≡ o
        → ((may_restart job ≡ false) × IsExhausted job)
          ⊎ ((may_restart job ≡ true) × ¬ (IsExhausted job))
    go none e = inr (rw e refl, λ (limit, f, h). cc)
    go (some limit) e = elim (Bool-cases (ltb_ℤ job.status.restarts limit)) [
      | inl below ↦ inr (rw e below, λ (other, f, h). ground arith)
      | inr over ↦ inl (rw e over, (limit, e, ground arith))
    ]

-- UpdateJobStatusByBackoffLimit fails a job that has used up its restarts, and makes any other job
-- restart.
pub update_job_status_by_backoff_limit-phase :
    (api : Api) (msg : Text) (s : State)
    → let phase = (update_job_status_by_backoff_limit api msg s).1.job.status.phase in
      ((phase ≡ Phase.failed) × IsExhausted s.job)
      ⊎ ((phase ≡ Phase.restarting) × ¬ (IsExhausted s.job))
unfolding update_job_status_by_backoff_limit
update_job_status_by_backoff_limit-phase api msg s = elim (may_restart_cases s.job) [
  | inl (over, spent) ↦ rw over (
      inl (
        (update_job_status-Reaches api Phase.failed failed_reason (failed_msg msg) s).phase_now,
        spent,
      ))
  | inr (may, left) ↦ rw may (
      inr (
        (update_job_status-Reaches api Phase.restarting restarting_reason (restart_msg msg)
            s).phase_now,
        left,
      ))
]

-- The job restarts or fails, and nothing else of it changes but its conditions.
pub update_job_status_by_backoff_limit-Reaches :
    (api : Api) (msg : Text) (s : State)
    → (phase : Phase) × Reaches s (update_job_status_by_backoff_limit api msg s) phase
      × ((phase ≡ Phase.restarting) ⊎ (phase ≡ Phase.failed))
unfolding update_job_status_by_backoff_limit
update_job_status_by_backoff_limit-Reaches api msg s = elim (Bool-cases (may_restart s.job)) [
  | inl may ↦ rw may (
    Phase.restarting,
    update_job_status-Reaches api Phase.restarting restarting_reason (restart_msg msg) s,
    inl refl,
  )
  | inr over ↦ rw over (
    Phase.failed,
    update_job_status-Reaches api Phase.failed failed_reason (failed_msg msg) s,
    inr refl,
  )
]
