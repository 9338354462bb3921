-- ===== src/Controller/Handlers/Table.antt =====
-- The table of handlers: what a change of phase counts and records.
use di_orchestrator.Base.{
  ℕ, ◌≡◌, ◌≢◌, refl, some, List, [], ◌∷◌, arith, pos, ◌+ℤ◌, int32, if◌then◌else◌, ◌||◌,
}
use di_orchestrator.Job.{DiJob, DiJobStatus, Phase, phase_eq}
use di_orchestrator.Machine.{State, Api, for_each}
use di_orchestrator.Controller.Handlers.{Handler, run_handler, handlers_for, handle_job_status}

-- The phases that the operator sets.
abbrev pub IsLive : Phase → Type 0
IsLive Phase.unset = ⊥
IsLive Phase.unknown = ⊥
IsLive _ = Unit

-- The handlers by the new phase alone.
abbrev on_entry : Phase → List Handler
on_entry Phase.starting = Handler.on_starting ∷ []
on_entry Phase.restarting = Handler.on_restarting ∷ Handler.increase_restart_count ∷ []
on_entry Phase.rescheduling = Handler.on_rescheduling ∷ Handler.increase_reschedule_count ∷ []
on_entry Phase.running = Handler.on_running ∷ []
on_entry Phase.failed = Handler.on_failed ∷ Handler.update_ready_replicas ∷ []
on_entry Phase.succeeded = Handler.on_succeeded ∷ Handler.update_ready_replicas ∷ []
on_entry _ = Handler.nothing ∷ []

-- The one change for which a row is missing.
abbrev pub IsGap : Phase → Phase → Type 0
IsGap old new = (old ≡ Phase.succeeded) × (new ≡ Phase.rescheduling)

handlers_for-on_entry :
    (old new : Phase)
    → IsLive old
    → IsLive new
    → old ≢ new
    → ¬ IsGap old new
    → handlers_for old new ≡ on_entry new
unfolding handlers_for
handlers_for-on_entry old new p q ne gap = ground arith

-- How the status `t` comes from the status `s` by an entry into `new` at the time `now`: what it
-- says of the counters, the ready replicas, the completion time and the phase.
pub record Entered (new : Phase) (now : ℕ) (s t : DiJobStatus) : Type 0 where
  pub restarts_now :
      t.restarts
      ≡ (if phase_eq new Phase.restarting then int32 (s.restarts +ℤ pos 1) else s.restarts)
  pub reschedules_now :
      t.reschedules
      ≡ (if phase_eq new Phase.rescheduling then int32 (s.reschedules +ℤ pos 1) else s.reschedules)
  pub ready_now : t.ready_replicas ≡ (
      if phase_eq new Phase.succeeded || phase_eq new Phase.failed then pos 0 else s.ready_replicas)
  pub completed : t.completion_timestamp ≡ (
      if phase_eq new Phase.succeeded || phase_eq new Phase.failed
      then some now
      else s.completion_timestamp)
  pub phase_kept : t.phase ≡ s.phase

on_entry-Entered :
    (api : Api) (p : Phase) (s : State)
    → IsLive p
    → Entered p
        (api.now s.ticks)
        s.job.status
        (for_each (on_entry p) (run_handler api) s).1.job.status
unfolding for_each run_handler phase_eq
on_entry-Entered api Phase.unset s h = absurd h
on_entry-Entered api Phase.unknown s h = absurd h
on_entry-Entered api Phase.succeeded s h = record {
  restarts_now = refl;
  reschedules_now = refl;
  ready_now = refl;
  completed = refl;
  phase_kept = refl;
}
on_entry-Entered api Phase.failed s h = record {
  restarts_now = refl;
  reschedules_now = refl;
  ready_now = refl;
  completed = refl;
  phase_kept = refl;
}
on_entry-Entered api _ s h = record {
  restarts_now = refl;
  reschedules_now = refl;
  ready_now = refl;
  completed = refl;
  phase_kept = refl;
}

-- When the phase of a job has changed between two of the phases that the operator sets, but for the
-- pair that has no row, HandleJobStatus does what the new phase asks: the counter of restarts, or
-- that of reschedules, goes up by one in the phase of that name and stays in any other; in
-- Succeeded and Failed the ready replicas become 0 and the completion time is set, and in any
-- other phase both stay; the phase stays.
pub handle_job_status-Entered :
    (api : Api) (old : DiJob) (s : State)
    → IsLive old.status.phase
    → IsLive s.job.status.phase
    → old.status.phase ≢ s.job.status.phase
    → ¬ IsGap old.status.phase s.job.status.phase
    → Entered s.job.status.phase
        (api.now s.ticks)
        s.job.status
        (handle_job_status api old s).1.job.status
unfolding handle_job_status
handle_job_status-Entered api old s p q ne gap =
    rw (handlers_for-on_entry old.status.phase s.job.status.phase p q ne gap)
      (on_entry-Entered api s.job.status.phase s q)
