-- ===== src/Status.antt =====
-- pkg/context/status.go: the phase and the conditions of a job, in memory.
pub mod Conditions
pub mod Ended
pub mod Changes
pub mod Phases
pub mod Cluster
pub mod Incorrect
use di_orchestrator.Base.{
  Bool, ◌&&◌, ◌||◌, Option, none, some, List, [], ◌∷◌, ◌++◌, ltb_ℤ, if◌then◌else◌,
}
use di_orchestrator.Text.{Text, codes, text_eq}
use di_orchestrator.Kube.{ConditionStatus, condition_true, condition_false}
use di_orchestrator.Job.{DiJob, DiJobStatus, JobCondition, Phase, phase_eq}
use di_orchestrator.Machine.{State, Action, Api, pure, get, modify_job, read_clock, ◌>>=◌, ◌>>◌}
use di_orchestrator.Utils.Pods.{is_succeeded, is_failed}

abbrev pub successful_delete_reason : Text
successful_delete_reason = codes "SuccessfulDelete"

abbrev pub failed_delete_reason : Text
failed_delete_reason = codes "FailedDelete"

abbrev pub successful_create_reason : Text
successful_create_reason = codes "SuccessfulCreate"

abbrev pub failed_create_reason : Text
failed_create_reason = codes "FailedCreate"

abbrev pub pending_reason : Text
pending_reason = codes "JobPending"

abbrev pub starting_reason : Text
starting_reason = codes "JobStarting"

abbrev pub running_reason : Text
running_reason = codes "JobRunning"

abbrev pub restarting_reason : Text
restarting_reason = codes "JobRestarting"

abbrev pub rescheduling_reason : Text
rescheduling_reason = codes "JobRescheduling"

abbrev pub failed_reason : Text
failed_reason = codes "JobFailed"

abbrev pub succeeded_reason : Text
succeeded_reason = codes "JobSucceeded"

-- `a == b` on corev1.ConditionStatus
abbrev pub status_eq : ConditionStatus → ConditionStatus → Bool
status_eq ConditionStatus.condition_true ConditionStatus.condition_true = Bool.true
status_eq ConditionStatus.condition_false ConditionStatus.condition_false = Bool.true
status_eq ConditionStatus.condition_unknown ConditionStatus.condition_unknown = Bool.true
status_eq _ _ = Bool.false

-- The first condition of that type.
unfoldable pub get_condition : List JobCondition → Phase → Option JobCondition
get_condition [] type = none
get_condition (c ∷ cs) type = if phase_eq c.type type then some c else get_condition cs type

-- The conditions of other types, each with the status False.
unfoldable pub filter_out_conditions : List JobCondition → Phase → List JobCondition
filter_out_conditions [] type = []
filter_out_conditions (c ∷ cs) type =
    let rest = filter_out_conditions cs type in
    if phase_eq c.type type then rest else record c { status = condition_false } ∷ rest

-- The condition that is stored: the time of the last transition stays if the status does.
abbrev kept_time : Option JobCondition → JobCondition → JobCondition
kept_time none new = new
kept_time (some current) new =
    if status_eq current.status new.status
    then record new { last_transition_time = current.last_transition_time }
    else new

abbrev is_current : Option JobCondition → JobCondition → Bool
is_current none new = Bool.false
is_current (some current) new =
    text_eq current.reason new.reason && status_eq current.status new.status

unfoldable pub set_condition : List JobCondition → JobCondition → List JobCondition
unfolding filter_out_conditions
set_condition conditions new =
    let current = get_condition conditions new.type in
    if is_current current new
    then conditions
    else filter_out_conditions conditions new.type ++ kept_time current new ∷ []

unfoldable pub new_condition : Api → Phase → Text → Text → Action JobCondition
new_condition api type reason msg = do
  updated ← read_clock api
  changed ← read_clock api
  pure (record {
    type = type;
    status = condition_true;
    reason = reason;
    message = msg;
    last_update_time = updated;
    last_transition_time = changed;
  })

-- Running becomes False, with two readings of the clock.
end_one : Api → JobCondition → Action JobCondition
end_one api c =
    if phase_eq c.type Phase.running
    then (do
      changed ← read_clock api
      updated ← read_clock api
      pure (record c {
        status = condition_false;
        last_transition_time = changed;
        last_update_time = updated;
      }))
    else pure c

-- The loop over the conditions of a job that has ended.
unfoldable pub end_running : Api → List JobCondition → Action (List JobCondition)
unfolding end_one
end_running api [] = pure []
end_running api (c ∷ cs) = do ended ← end_one api c; rest ← end_running api cs; pure (ended ∷ rest)

abbrev pub with_status : (DiJobStatus → DiJobStatus) → DiJob → DiJob
with_status f job = record job { status = f job.status }

abbrev pub with_conditions : (List JobCondition → List JobCondition) → DiJob → DiJob
with_conditions f = with_status (λ st. record st { conditions = f st.conditions })

abbrev pub with_phase : Phase → DiJob → DiJob
with_phase p = with_status (λ st. record st { phase = p })

-- The phase of the job is still the old one here.
unfoldable pub update_dijob_conditions : Api → Phase → Text → Text → Action (Unit {0})
unfolding new_condition end_running
update_dijob_conditions api type reason msg = do
  new ← new_condition api type reason msg
  s ← get
  if is_succeeded s.job || is_failed s.job
      then (do
        ended ← end_running api s.job.status.conditions
        modify_job (with_conditions (λ _. ended)))
      else pure tt
  modify_job (with_conditions (λ cs. set_condition cs new))

-- UpdateJobStatus
unfoldable pub update_job_status : Api → Phase → Text → Text → Action (Unit {0})
update_job_status api phase reason msg = do
  s ← get
  if phase_eq s.job.status.phase phase
      then pure tt
      else (do update_dijob_conditions api phase reason msg; modify_job (with_phase phase))

-- No limit, or fewer restarts than the limit.
abbrev pub may_restart : DiJob → Bool
may_restart job = elim job.spec.backoff_limit [
  | none ↦ Bool.true
  | some limit ↦ ltb_ℤ job.status.restarts limit
]

abbrev pub restart_msg : Text → Text
restart_msg msg = codes "job is restarting since " ++ msg

abbrev pub failed_msg : Text → Text
failed_msg msg = codes "job failed since " ++ msg ++ codes " and exceed backoff limit"

-- UpdateJobStatusByBackoffLimit
unfoldable pub update_job_status_by_backoff_limit : Api → Text → Action (Unit {0})
update_job_status_by_backoff_limit api msg = do
  s ← get
  if may_restart s.job
      then update_job_status api Phase.restarting restarting_reason (restart_msg msg)
      else update_job_status api Phase.failed failed_reason (failed_msg msg)
