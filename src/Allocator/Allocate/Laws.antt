-- ===== src/Allocator/Allocate/Laws.antt =====
-- What the allocator does to the cluster under the policy that it is started with.
use di_orchestrator.Base.{
  ℕ, ℤ, ◌≡◌, refl, sym, subst, Bool-cases, true, List, inl, inr, [], if◌then◌else◌,
}
use di_orchestrator.Text.{Text}
use di_orchestrator.Dict.{insert}
use di_orchestrator.Kube.{NamespacedName, Node}
use di_orchestrator.Job.{DiJob}
use di_orchestrator.Machine.{
  Result, ok, err, panic, State, Action, Api, Call, after, pure, attempt, modify_job, ◌>>=◌, ◌>>◌,
}
use di_orchestrator.Status.Cluster.{get_job, update_allocation_in_cluster}
use di_orchestrator.Utils.Names.{namespaced_name}
use di_orchestrator.Pods.Calls.{list_pods}
use di_orchestrator.Machine.Along.{Adds-same, Adds-trans}
use di_orchestrator.Allocator.Readers.{
  Reads, IsReader, bind-IsReader, if-IsReader, pure-IsReader, send-IsReader, attempt-IsReader,
}
use di_orchestrator.Allocator.Resources.{Library}
use di_orchestrator.Allocator.Jobs.{get_job_info}
use di_orchestrator.Allocator.Jobs.Reads.{get_job_info-IsReader}
use di_orchestrator.Allocator.Nodes.{list_nodes, get_node_infos}
use di_orchestrator.Allocator.Allocate.{
  fit_allocate, fit_optimize, allocate_nodes, allocate, on_job_add, allocate_all, reconcile_job,
  reconcile, need_reconcile,
}

list_nodes-IsReader : (api : Api) → IsReader (list_nodes api)
unfolding list_nodes
list_nodes-IsReader api = send-IsReader Call.list_nodes (λ calls. api.list_nodes calls) tt

get_node_infos-IsReader :
    (lib : Library) (api : Api) (nodes : List Node) → IsReader (get_node_infos lib api nodes)
unfolding get_node_infos list_pods
get_node_infos-IsReader lib api nodes =
    bind-IsReader (list_pods api (record { namespace = []; match_labels = [] })) _
      (send-IsReader _ _ tt) (λ pods s. (Adds-same refl, refl))

allocate_nodes-IsReader : (lib : Library) (api : Api) → IsReader (allocate_nodes lib api)
unfolding allocate_nodes fit_allocate
allocate_nodes-IsReader lib api s =
    bind-IsReader (get_job_info lib s.job) _ (get_job_info-IsReader lib s.job)
      (λ jobinfo. bind-IsReader (list_nodes api) _ (list_nodes-IsReader api) (λ nodes.
        bind-IsReader (get_node_infos lib api nodes) (λ nodeinfos. pure tt)
          (get_node_infos-IsReader lib api nodes) (λ nodeinfos. pure-IsReader tt)))
      s

unchanged-unwritten :
    (api : Api) (old new : DiJob)
    → ((a : List Text) → api.allocation_equal a a ≡ true)
    → new ≡ old
    → update_allocation_in_cluster api old new ≡ pure tt
unfolding update_allocation_in_cluster
unchanged-unwritten api old new same e =
    subst (λ j. update_allocation_in_cluster api old j ≡ pure tt) (sym e)
      (rw (same old.status.allocation) refl)

allocate-IsReader :
    (lib : Library) (api : Api)
    → ((a : List Text) → api.allocation_equal a a ≡ true)
    → IsReader (allocate lib api)
unfolding allocate
allocate-IsReader lib api same s =
    go ((if s.job.spec.preemptible then allocate_nodes lib api else pure tt) s) (
      if-IsReader s.job.spec.preemptible (allocate_nodes lib api) (pure tt)
        (allocate_nodes-IsReader lib api) (pure-IsReader tt) s)
  where
    Read : State → Type 0
    Read t = Reads s t × (t.job ≡ s.job)

    go :
        (out : Result (Unit {0}) × State)
        → Read out.1
        → Read (after out (λ _ t. update_allocation_in_cluster api s.job t.job t)).1
    go (ok a, t) (r, e) =
        subst (λ m. Read (m t).1) (sym (unchanged-unwritten api s.job t.job same e)) (r, e)
    go (err x, t) r = r
    go (panic, t) r = r

reconcile_job-Reads :
    (lib : Library) (api : Api) (key : NamespacedName) (s : State)
    → Reads s (reconcile_job lib api key s).1
unfolding reconcile_job allocate_all fit_optimize
reconcile_job-Reads lib api key s =
    go (get_job api key s)
      (send-IsReader (Call.get_job key) (λ calls. api.get_job calls key) tt s).0
  where
    rest : DiJob → Action (Unit {0})
    rest job = get_job_info lib job >>= λ jobinfo. list_nodes api >>= λ nodes.
        get_node_infos lib api nodes >>= λ nodeinfos.
        allocate_all (insert (namespaced_name job.namespace job.name) jobinfo []) nodeinfos []

    rest-IsReader : (job : DiJob) → IsReader (rest job)
    rest-IsReader job =
        bind-IsReader (get_job_info lib job) _ (get_job_info-IsReader lib job) (λ jobinfo.
          bind-IsReader (list_nodes api) _ (list_nodes-IsReader api) (λ nodes.
            bind-IsReader (get_node_infos lib api nodes) (λ nodeinfos. pure tt)
              (get_node_infos-IsReader lib api nodes) (λ nodeinfos. pure-IsReader tt)))

    go :
        (out : Result DiJob × State)
        → Reads s out.1
        → Reads s (after out (λ job. modify_job (λ _. job) >> rest job)).1
    go (ok job, t) r =
        Adds-trans r (Adds-trans (Adds-same refl) (rest-IsReader job (record t { job = job })).0)
    go (err x, t) r = r
    go (panic, t) r = r

-- If two equal allocations are found equal, the allocator only reads from the cluster: neither its
-- handler of a new job, which leaves the job as it was, nor its Reconcile makes any call but reads.
pub allocator-Reads :
    (lib : Library) (api : Api) (schedule_duration : ℤ) (last : ℕ) (key : NamespacedName)
    (s : State)
    → ((a : List Text) → api.allocation_equal a a ≡ true)
    → (Reads s (on_job_add lib api s).1 × ((on_job_add lib api s).1.job ≡ s.job))
      × Reads s (reconcile lib api schedule_duration last key s).1.1
unfolding on_job_add reconcile
allocator-Reads lib api schedule_duration last key s same = (
  bind-IsReader (attempt (allocate lib api)) (λ _. pure tt)
      (attempt-IsReader (allocate lib api) (allocate-IsReader lib api same)) (λ r. pure-IsReader tt)
      s,
  elim (Bool-cases (need_reconcile schedule_duration last (api.now s.ticks))) [
    | inl due ↦ rw due (Adds-trans (Adds-same refl) (reconcile_job-Reads lib api key _))
    | inr early ↦ rw early (Adds-same refl)
  ],
)
