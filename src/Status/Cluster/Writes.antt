-- ===== src/Status/Cluster/Writes.antt =====
-- What a status update in the cluster has done once it returns no error.
use di_orchestrator.Base.{
  ◌≡◌, ◌≢◌, refl, ap, sym, Bool, Bool-cases, true, Option, none, some, List, [], ◌∷◌, ◌++◌, ◌⊎◌,
  inl, inr,
}
use di_orchestrator.Kube.{NamespacedName}
use di_orchestrator.Job.{DiJob, DiJobStatus, phase_eq, phase_eq→eq}
use di_orchestrator.Machine.{State, Result, ok, Error, Action, Api, Call, lift_error, logged}
use di_orchestrator.Machine.Poll.{Polls, PollLaw}
use di_orchestrator.Status.{with_status}
use di_orchestrator.Status.Cluster.{
  write_status, succeeds, key_of, copy_phase, update_phase_in_cluster,
}

-- The last two calls: the job was read, and its status was written with the edit, which the
-- cluster accepted.
pub record Written (api : Api) (key : NamespacedName) (edit : DiJobStatus → DiJobStatus) (t : State)
    : Type 0 where
  pub before : List Call
  pub read : DiJob
  pub calls_now :
      t.calls ≡ (before ++ Call.get_job key ∷ []) ++ Call.update_status (with_status edit read) ∷ []
  pub read_now : api.get_job before key ≡ inr read
  pub accepted : api.update_status (before ++ Call.get_job key ∷ []) (with_status edit read) ≡ none

write_status-Written :
    (api : Api) (key : NamespacedName) (edit : DiJobStatus → DiJobStatus) (s t : State)
    → write_status api key edit s ≡ (ok true, t)
    → Written api key edit t
unfolding write_status
write_status-Written api key edit s t e = go (api.get_job s.calls key) refl
  where
    go : (r : Error ⊎ DiJob) → api.get_job s.calls key ≡ r → Written api key edit t
    go (inl x) g = cc (rw g at e)
    go (inr read) g =
        wrote (api.update_status (s.calls ++ Call.get_job key ∷ []) (with_status edit read)) refl
          (rw g at e)
      where
        wrote :
            (o : Option Error)
            → api.update_status (s.calls ++ Call.get_job key ∷ []) (with_status edit read) ≡ o
            → succeeds
                (λ u.
                  lift_error
                    (api.update_status (s.calls ++ Call.get_job key ∷ []) (with_status edit read))
                    (logged (Call.update_status (with_status edit read)) u))
                (logged (Call.get_job key) s)
              ≡ (ok true, t)
            → Written api key edit t
        wrote (some x) h f = cc (rw h at f)
        wrote none h f = record {
          before = s.calls;
          read = read;
          calls_now = sym (ap (λ out. out.1.calls) (rw h at f));
          read_now = g;
          accepted = h;
        }

-- A poll that ended well ended with a run of the condition that said true.
pub Polls-ok :
    {cond : Action Bool} {s t : State} {r : Result (Unit {0})}
    → Polls cond s r t
    → r ≡ ok tt
    → (u : State) × (cond u ≡ (ok true, t))
Polls-ok {s} (Polls.done e) h = (s, e)
Polls-ok (Polls.failed x e) h = cc
Polls-ok (Polls.crashed e) h = cc
Polls-ok (Polls.again e rest) h = Polls-ok rest h
Polls-ok (Polls.timed_out x) h = cc

-- If the phase has changed and UpdateJobPhaseAndConditionsInCluster returns no error, the last two
-- calls to the cluster were a read of the job and a write of what was read, with the phase and the
-- conditions of the new status in the place of its own, and the cluster has accepted the write.
pub update_phase_in_cluster-Written :
    (api : Api) (old new : DiJob) (s : State)
    → PollLaw api
    → old.status.phase ≢ new.status.phase
    → (update_phase_in_cluster api old new s).0 ≡ ok tt
    → Written api (key_of new) (copy_phase new.status) (update_phase_in_cluster api old new s).1
unfolding update_phase_in_cluster
update_phase_in_cluster-Written api old new s law ne e =
    elim (Bool-cases (phase_eq old.status.phase new.status.phase)) [
      | inl same ↦ absurd (ne (phase_eq→eq old.status.phase new.status.phase same))
      | inr other ↦
          let cond = write_status api (key_of new) (copy_phase new.status) in
          let (u, f) = Polls-ok (law cond s) (rw other at e) in
          rw other
            (write_status-Written api (key_of new) (copy_phase new.status) u (api.poll cond s).1 f)
    ]
