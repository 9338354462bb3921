-- ===== src/Allocator/Allocate.antt =====
-- pkg/allocator/allocator.go and types/fit_policy.go: the allocation of nodes to jobs. Times are in
-- nanoseconds; `last` is the field of that name of the Allocator.
pub mod Laws
use di_orchestrator.Base.{
  ℕ, ◌+◌, Bool, ◌⊎◌, inl, inr, List, [], ◌∷◌, ℤ, pos, ◌-ℤ◌, ltb_ℤ, length, ◌==◌, not, if◌then◌else◌,
}
use di_orchestrator.Text.{Text, codes, is_empty}
use di_orchestrator.Dict.{Dict, insert}
use di_orchestrator.Kube.{NamespacedName}
use di_orchestrator.Job.{DiJob}
use di_orchestrator.Machine.{
  Error, Result, ok, State, Action, Api, pure, lift, get, attempt, modify_job, read_clock, ◌>>=◌,
  ◌>>◌,
}
use di_orchestrator.Status.{with_status}
use di_orchestrator.Status.Cluster.{get_job, update_allocation_in_cluster}
use di_orchestrator.Utils.Names.{namespaced_name}
use di_orchestrator.Allocator.Resources.{Library}
use di_orchestrator.Allocator.Jobs.{JobInfo, get_job_info}
use di_orchestrator.Allocator.Nodes.{NodeInfo, list_nodes, get_node_infos}

-- FitPolicy.Allocate
unfoldable pub fit_allocate : JobInfo → Dict NodeInfo → Error ⊎ List Text
fit_allocate job nodes = inr []

-- FitPolicy.Optimize
unfoldable pub fit_optimize :
    Dict JobInfo → Dict NodeInfo → Dict (List Text) → Error ⊎ Dict (List Text)
fit_optimize jobs nodes previous = inr []

-- The branch of `allocate` for a preemptible job.
unfoldable pub allocate_nodes : Library → Api → Action (Unit {0})
allocate_nodes lib api = do
  s ← get
  jobinfo ← get_job_info lib s.job
  nodes ← list_nodes api
  nodeinfos ← get_node_infos lib api nodes
  allocation ← lift (fit_allocate jobinfo nodeinfos)
  if not (length allocation == 0)
      then modify_job (with_status (λ st. record st { allocation = allocation }))
      else pure tt

-- allocate
unfoldable pub allocate : Library → Api → Action (Unit {0})
unfolding allocate_nodes
allocate lib api = do
  s ← get
  if s.job.spec.preemptible then allocate_nodes lib api else pure tt
  t ← get
  update_allocation_in_cluster api s.job t.job

-- onJobAddHandler of the allocator, for an object that is a DIJob: an error is only logged.
unfoldable pub on_job_add : Library → Api → Action (Unit {0})
unfolding allocate
on_job_add lib api = attempt (allocate lib api) >> pure tt

-- allocateAll
unfoldable pub allocate_all : Dict JobInfo → Dict NodeInfo → Dict (List Text) → Action (Unit {0})
allocate_all jobs nodes previous = lift (fit_optimize jobs nodes previous) >> pure tt

abbrev second : ℤ
second = pos 1000000000

-- needReconcile, at the time `now`.
unfoldable pub need_reconcile : ℤ → ℕ → ℕ → Bool
need_reconcile schedule_duration last now =
    ltb_ℤ (schedule_duration -ℤ (pos now -ℤ pos last)) second

-- What Reconcile does once the time has come.
unfoldable pub reconcile_job : Library → Api → NamespacedName → Action (Unit {0})
unfolding allocate_all
reconcile_job lib api key = do
  job ← get_job api key
  modify_job (λ _. job)
  jobinfo ← get_job_info lib job
  nodes ← list_nodes api
  nodeinfos ← get_node_infos lib api nodes
  allocate_all (insert (namespaced_name job.namespace job.name) jobinfo []) nodeinfos []

-- One reading of the clock.
abbrev ticked : State → State
ticked s = record s { ticks = s.ticks + 1 }

-- Reconcile, with the time at which it last went on: on the way out that is the time of this run,
-- if it goes on, whether or not it ends well.
unfoldable pub reconcile :
    Library → Api → ℤ → ℕ → NamespacedName → State → ℕ × (Result (Unit {0}) × State)
unfolding reconcile_job
reconcile lib api schedule_duration last key s =
    if need_reconcile schedule_duration last (api.now s.ticks)
    then (api.now (ticked s).ticks, reconcile_job lib api key (ticked (ticked s)))
    else (last, (ok tt, ticked s))
