-- ===== src/Controller/Handlers.antt =====
-- pkg/controllers/handler.go: what is done when the phase of a job has changed.
pub mod Table
use di_orchestrator.Base.{Option, none, some, List, [], ◌∷◌, pos, ◌+ℤ◌, int32, ◌&&◌, if◌then◌else◌}
use di_orchestrator.Text.{Text, codes}
use di_orchestrator.Job.{DiJob, Phase, phase_eq}
use di_orchestrator.Machine.{
  EventType, Action, Api, pure, get, modify_job, read_clock, record_event, for_each, ◌>>=◌, ◌>>◌,
}
use di_orchestrator.Status.{
  with_status, starting_reason, running_reason, restarting_reason, rescheduling_reason,
  failed_reason, succeeded_reason,
}

-- The functions that are registered.
pub data Handler : Type 0 where
  nothing update_ready_replicas increase_restart_count increase_reschedule_count : Handler
  on_starting on_running on_restarting on_rescheduling on_failed on_succeeded : Handler

abbrev on_completed : Api → EventType → Text → Text → Action (Unit {0})
on_completed api type reason msg = do
  record_event type reason msg
  now ← read_clock api
  modify_job (with_status (λ st. record st { completion_timestamp = some now }))

unfoldable pub run_handler : Api → Handler → Action (Unit {0})
run_handler api Handler.nothing = pure tt
run_handler api Handler.update_ready_replicas =
    modify_job (with_status (λ st. record st { ready_replicas = pos 0 }))
run_handler api Handler.increase_restart_count =
    modify_job (with_status (λ st. record st { restarts = int32 (st.restarts +ℤ pos 1) }))
run_handler api Handler.increase_reschedule_count =
    modify_job (with_status (λ st. record st { reschedules = int32 (st.reschedules +ℤ pos 1) }))
run_handler api Handler.on_starting =
    record_event EventType.normal starting_reason
      (codes "job is starting since all replicas are created.")
run_handler api Handler.on_running =
    record_event EventType.normal running_reason
      (codes "job is running since all replicas are ready.")
run_handler api Handler.on_restarting =
    record_event EventType.warning restarting_reason
      (codes "job is restarting since conditions changed.")
run_handler api Handler.on_rescheduling =
    record_event EventType.warning rescheduling_reason
      (codes "job is rescheduling since replicas or allocation changed.")
run_handler api Handler.on_failed =
    on_completed api EventType.warning failed_reason
      (codes "job is failed since some replicas are failed.")
run_handler api Handler.on_succeeded =
    on_completed api EventType.normal succeeded_reason
      (codes "job is succeeded since all the replicas are succeeded.")

-- The rows of `registerJobStatusHandlers`, in order.
abbrev pub Row : Type 0
Row = Phase × Phase × List Handler

abbrev pub registrations : List Row
registrations =
    (Phase.pending, Phase.pending, Handler.nothing ∷ [])
    ∷ (Phase.pending, Phase.starting, Handler.on_starting ∷ [])
    ∷ (Phase.pending, Phase.restarting, Handler.on_restarting ∷ Handler.increase_restart_count ∷ [])
    ∷ (
      Phase.pending,
      Phase.rescheduling,
      Handler.on_rescheduling ∷ Handler.increase_reschedule_count ∷ [],
    )
    ∷ (Phase.pending, Phase.running, Handler.on_running ∷ [])
    ∷ (Phase.pending, Phase.failed, Handler.on_failed ∷ Handler.update_ready_replicas ∷ [])
    ∷ (Phase.pending, Phase.succeeded, Handler.on_succeeded ∷ Handler.update_ready_replicas ∷ [])
    ∷ (Phase.starting, Phase.pending, Handler.nothing ∷ [])
    ∷ (Phase.starting, Phase.starting, Handler.nothing ∷ [])
    ∷ (
      Phase.starting,
      Phase.restarting,
      Handler.on_restarting ∷ Handler.increase_restart_count ∷ [],
    )
    ∷ (
      Phase.starting,
      Phase.rescheduling,
      Handler.on_rescheduling ∷ Handler.increase_reschedule_count ∷ [],
    )
    ∷ (Phase.starting, Phase.running, Handler.on_running ∷ [])
    ∷ (Phase.starting, Phase.failed, Handler.on_failed ∷ Handler.update_ready_replicas ∷ [])
    ∷ (Phase.starting, Phase.succeeded, Handler.on_succeeded ∷ Handler.update_ready_replicas ∷ [])
    ∷ (Phase.restarting, Phase.pending, Handler.nothing ∷ [])
    ∷ (Phase.restarting, Phase.starting, Handler.on_starting ∷ [])
    ∷ (Phase.restarting, Phase.restarting, Handler.nothing ∷ [])
    ∷ (
      Phase.restarting,
      Phase.rescheduling,
      Handler.on_rescheduling ∷ Handler.increase_reschedule_count ∷ [],
    )
    ∷ (Phase.restarting, Phase.running, Handler.on_running ∷ [])
    ∷ (Phase.restarting, Phase.failed, Handler.on_failed ∷ Handler.update_ready_replicas ∷ [])
    ∷ (Phase.restarting, Phase.succeeded, Handler.on_succeeded ∷ Handler.update_ready_replicas ∷ [])
    ∷ (Phase.rescheduling, Phase.pending, Handler.nothing ∷ [])
    ∷ (Phase.rescheduling, Phase.starting, Handler.on_starting ∷ [])
    ∷ (
      Phase.rescheduling,
      Phase.restarting,
      Handler.on_restarting ∷ Handler.increase_restart_count ∷ [],
    )
    ∷ (Phase.rescheduling, Phase.rescheduling, Handler.nothing ∷ [])
    ∷ (Phase.rescheduling, Phase.running, Handler.on_running ∷ [])
    ∷ (Phase.rescheduling, Phase.failed, Handler.on_failed ∷ Handler.update_ready_replicas ∷ [])
    ∷ (
      Phase.rescheduling,
      Phase.succeeded,
      Handler.on_succeeded ∷ Handler.update_ready_replicas ∷ [],
    )
    ∷ (Phase.running, Phase.pending, Handler.nothing ∷ [])
    ∷ (Phase.running, Phase.starting, Handler.on_starting ∷ [])
    ∷ (Phase.running, Phase.restarting, Handler.on_restarting ∷ Handler.increase_restart_count ∷ [])
    ∷ (
      Phase.running,
      Phase.rescheduling,
      Handler.on_rescheduling ∷ Handler.increase_reschedule_count ∷ [],
    )
    ∷ (Phase.running, Phase.running, Handler.nothing ∷ [])
    ∷ (Phase.running, Phase.failed, Handler.on_failed ∷ Handler.update_ready_replicas ∷ [])
    ∷ (Phase.running, Phase.succeeded, Handler.on_succeeded ∷ Handler.update_ready_replicas ∷ [])
    ∷ (Phase.failed, Phase.pending, Handler.nothing ∷ [])
    ∷ (Phase.failed, Phase.starting, Handler.on_starting ∷ [])
    ∷ (Phase.failed, Phase.restarting, Handler.on_restarting ∷ Handler.increase_restart_count ∷ [])
    ∷ (
      Phase.failed,
      Phase.rescheduling,
      Handler.on_rescheduling ∷ Handler.increase_reschedule_count ∷ [],
    )
    ∷ (Phase.failed, Phase.running, Handler.on_running ∷ [])
    ∷ (Phase.failed, Phase.failed, Handler.nothing ∷ [])
    ∷ (Phase.failed, Phase.succeeded, Handler.on_succeeded ∷ Handler.update_ready_replicas ∷ [])
    ∷ (Phase.succeeded, Phase.pending, Handler.nothing ∷ [])
    ∷ (Phase.succeeded, Phase.starting, Handler.on_starting ∷ [])
    ∷ (
      Phase.succeeded,
      Phase.restarting,
      Handler.on_restarting ∷ Handler.increase_restart_count ∷ [],
    )
    ∷ (
      Phase.failed,
      Phase.rescheduling,
      Handler.on_rescheduling ∷ Handler.increase_reschedule_count ∷ [],
    )
    ∷ (Phase.succeeded, Phase.running, Handler.on_running ∷ [])
    ∷ (Phase.succeeded, Phase.failed, Handler.on_failed ∷ Handler.update_ready_replicas ∷ [])
    ∷ (Phase.succeeded, Phase.succeeded, Handler.nothing ∷ [])
    ∷ []

-- `jobStatusHandlers[old][new]` after the rows were registered one after the other: a later row
-- for the same pair replaces an earlier one, and a pair with no row has no handler.
unfoldable pub handlers_from : List Row → List Handler → Phase → Phase → List Handler
handlers_from [] found old new = found
handlers_from ((o, n, hs) ∷ rows) found old new =
    handlers_from rows (if phase_eq o old && phase_eq n new then hs else found) old new

unfoldable pub handlers_for : Phase → Phase → List Handler
unfolding handlers_from phase_eq
handlers_for = handlers_from registrations []

-- HandleJobStatus, on the new job
unfoldable pub handle_job_status : Api → DiJob → Action (Unit {0})
handle_job_status api old = do
  s ← get
  for_each (handlers_for old.status.phase s.job.status.phase) (run_handler api)
