-- ===== src/Server/Laws.antt =====
-- What requests to add and delete replicas do to the cluster (pkg/server/processor.go).
use di_orchestrator.Base.{
  ◌+ℤ◌, ◌-ℤ◌, int32, ◌≡◌, refl, ap, ◌∙◌, Bool, Bool-cases, true, false, Option, none, List, [], ◌∷◌,
  ◌⊎◌, inl, inr, ℤ, append-nil, if◌then◌else◌,
}
use di_orchestrator.Text.{Text}
use di_orchestrator.Kube.{NamespacedName}
use di_orchestrator.Job.{DiJob}
use di_orchestrator.Machine.{
  throw, pure, di, not_found, modify_job, ◌>>◌, ◌>>=◌, attempt, Error, Result, ok, err, panic,
  State, Api, Call, after, caught, logged, lift,
}
use di_orchestrator.Machine.Log.{written_statuses, written_statuses-append}
use di_orchestrator.Status.Cluster.{update_allocation_in_cluster, get_job}
use di_orchestrator.Server.Requests.{
  parse_job_id, get_request_job, bad_request_if_error, change_replicas, add_replicas,
  delete_replicas,
}

-- Nothing was written, and the job that was returned is the one that the handler works on.
abbrev Reads : State → Result DiJob × State → Type 0
Reads s out =
    (written_statuses out.1.calls ≡ written_statuses s.calls)
    × ((job : DiJob) → out.0 ≡ ok job → out.1.job ≡ job)

read_unwritten :
    (key : NamespacedName) (s : State)
    → written_statuses (logged (Call.get_job key) s).calls ≡ written_statuses s.calls
read_unwritten key s =
    written_statuses-append s.calls (Call.get_job key ∷ []) ∙ append-nil (written_statuses s.calls)

get_request_job-Reads : (api : Api) (id : Text) (s : State) → Reads s (get_request_job api id s)
unfolding get_request_job
get_request_job-Reads api id s = parsed (parse_job_id id)
  where
    refused :
        (b : Bool) (key : NamespacedName) (e : Error)
        → Reads s ((if b then throw (di not_found e) else throw e) (logged (Call.get_job key) s))
    refused true key e = (read_unwritten key s, λ job f. cc)
    refused false key e = (read_unwritten key s, λ job f. cc)

    answered :
        (key : NamespacedName) (r : Error ⊎ DiJob)
        → Reads s (
            after (caught (lift r (logged (Call.get_job key) s))) (λ r. elim r [
              | inl e ↦ if api.is_not_found e then throw (di not_found e) else throw e
              | inr job ↦ modify_job (λ _. job) >> pure job
            ]))
    answered key (inl e) = refused (api.is_not_found e) key e
    answered key (inr job) = (read_unwritten key s, λ j f. cc)

    parsed :
        (r : Error ⊎ NamespacedName)
        → Reads s (
            (bad_request_if_error r >>= λ key. attempt (get_job api key) >>= λ r. elim r [
              | inl e ↦ if api.is_not_found e then throw (di not_found e) else throw e
              | inr job ↦ modify_job (λ _. job) >> pure job
            ])
              s)
    parsed (inl e) = (refl, λ job f. cc)
    parsed (inr key) = answered key (api.get_job s.calls key)

change_replicas-unwritten :
    (api : Api) (change : ℤ → ℤ) (job : DiJob) (s : State)
    → api.allocation_equal job.status.allocation job.status.allocation ≡ true
    → s.job ≡ job
    → ((change_replicas api change job s).0 ≡ ok tt)
      × ((change_replicas api change job s).1.calls ≡ s.calls)
unfolding update_allocation_in_cluster
change_replicas-unwritten api change job s same e = elim (Bool-cases job.spec.preemptible) [
  | inl fixed ↦ rw fixed (refl, refl)
  | inr moving ↦ rw (moving, e, same) (refl, refl)
]

abbrev none_yet : Option (List Text)
none_yet = none

-- The number was changed, and the answer is nil.
changed-unwritten :
    (api : Api) (change : ℤ → ℤ) (job : DiJob) (s t : State)
    → api.allocation_equal job.status.allocation job.status.allocation ≡ true
    → t.job ≡ job
    → written_statuses t.calls ≡ written_statuses s.calls
    → let out = after (change_replicas api change job t) (λ _. pure none_yet) in
      (out.0 ≡ ok none) × (written_statuses out.1.calls ≡ written_statuses s.calls)
changed-unwritten api change job s t same e h =
    go (change_replicas api change job t) (change_replicas-unwritten api change job t same e)
  where
    go :
        (out : Result (Unit {0}) × State)
        → (out.0 ≡ ok tt) × (out.1.calls ≡ t.calls)
        → let last = after out (λ _. pure none_yet) in
          (last.0 ≡ ok none) × (written_statuses last.1.calls ≡ written_statuses s.calls)
    go (ok a, u) (done, calls) = (refl, ap written_statuses calls ∙ h)
    go (err x, u) (done, calls) = cc
    go (panic, u) (done, calls) = cc

-- If two equal allocations are found equal, AddReplicas and DeleteReplicas write no status to the
-- cluster for a job that exists and a request that is valid, and yet return no error.
pub replicas-unwritten :
    (api : Api) (id : Text) (replicas : ℤ) (s : State) (job : DiJob)
    → ((a : List Text) → api.allocation_equal a a ≡ true)
    → (get_request_job api id s).0 ≡ ok job
    → let added = add_replicas api id (inr replicas) s in
      let deleted = delete_replicas api id (inr replicas) s in
      ((added.0 ≡ ok none) × (written_statuses added.1.calls ≡ written_statuses s.calls))
      × ((deleted.0 ≡ ok none) × (written_statuses deleted.1.calls ≡ written_statuses s.calls))
unfolding add_replicas delete_replicas
replicas-unwritten api id replicas s job same e =
    go (get_request_job api id s) (get_request_job-Reads api id s) e
  where
    go :
        (out : Result DiJob × State)
        → Reads s out
        → out.0 ≡ ok job
        → let added =
            after out
              (λ job. change_replicas api (λ n. n +ℤ int32 replicas) job >> pure none_yet) in
          let deleted = after (caught out) (λ r. bad_request_if_error r >>= λ job.
          change_replicas api (λ n. n -ℤ int32 replicas) job >> pure none_yet) in
          ((added.0 ≡ ok none) × (written_statuses added.1.calls ≡ written_statuses s.calls))
          × ((deleted.0 ≡ ok none) × (written_statuses deleted.1.calls ≡ written_statuses s.calls))
    go (ok found, t) h f = (
      changed-unwritten api (λ n. n +ℤ int32 replicas) found s t (same found.status.allocation)
          (h.1 found refl) h.0,
      changed-unwritten api (λ n. n -ℤ int32 replicas) found s t (same found.status.allocation)
          (h.1 found refl) h.0,
    )
    go (err x, t) h f = cc
    go (panic, t) h f = cc
