-- ===== src/Controller/Steps/Lifecycle/Emptied.antt =====
-- Deleting pods on a cluster that keeps them (DeletePod and DeletePods of pkg/context/pod.go).
use di_orchestrator.Base.{
  ◌≡◌, refl, ap, ◌∙◌, Bool-cases, inl, inr, ◌⊎◌, List, [], ◌∷◌, ◌++◌, filter,
}
use di_orchestrator.Kube.{Pod}
use di_orchestrator.Machine.{Error, State, Result, ok, err, panic, Action, Api, Call, after, caught}
use di_orchestrator.Machine.Store.{kept, kept-append, holds, Keeps}
use di_orchestrator.Machine.Store.Removed.{other_than, remove_all}
use di_orchestrator.Pods.Calls.{delete_pod, delete_pods, delete_pods_from, finish}

-- The calls ended well, and the cluster holds the pods that it held but for these.
pub record Emptied (initial : List Pod) (s : State) (out : Result (Unit {0}) × State)
    (pods : List Pod) : Type 0 where
  pub ends_ok : out.0 ≡ ok tt
  pub job_kept : out.1.job ≡ s.job
  pub kept_now : kept initial out.1.calls ≡ remove_all pods (kept initial s.calls)

delete_pod-Emptied :
    (api : Api) (initial : List Pod) (pod : Pod) (s : State)
    → Keeps api initial
    → Emptied initial s (delete_pod api pod s) (pod ∷ [])
unfolding delete_pod finish kept
delete_pod-Emptied api initial pod s keeps =
    elim (Bool-cases (holds pod.namespace pod.name (kept initial s.calls))) [
      | inl there ↦
          rw (keeps.deletes s.calls pod there)
            (record { ends_ok = refl; job_kept = refl; kept_now = removed _ })
      | inr gone ↦
          let (e, refused, not_found) = keeps.misses s.calls pod gone in
          rw (refused, finish, not_found)
            (record { ends_ok = refl; job_kept = refl; kept_now = removed _ })
    ]
  where
    removed :
        (last : Call)
        → kept initial ((s.calls ++ Call.delete_pod pod ∷ []) ++ last ∷ [])
          ≡ kept (filter (other_than pod) (kept initial s.calls)) (last ∷ [])
    removed last =
        kept-append initial (s.calls ++ Call.delete_pod pod ∷ []) (last ∷ [])
        ∙ ap (λ held. kept held (last ∷ []))
            (kept-append initial s.calls (Call.delete_pod pod ∷ []))

Emptied-cons :
    {initial : List Pod} {s : State} {pod : Pod} {pods : List Pod} (out : Result (Unit {0}) × State)
    (k : Error ⊎ Unit {0} → Action (Unit {0}))
    → Emptied initial s out (pod ∷ [])
    → ((t : State) → Emptied initial t (k (inr tt) t) pods)
    → Emptied initial s (after (caught out) k) (pod ∷ pods)
Emptied-cons {pods = pods} (ok a, t) k h rest =
    let r = rest t in
    record {
      ends_ok = r.ends_ok;
      job_kept = r.job_kept ∙ h.job_kept;
      kept_now = r.kept_now ∙ ap (remove_all pods) h.kept_now;
    }
Emptied-cons (err x, t) k h rest = cc h.ends_ok
Emptied-cons (panic, t) k h rest = cc h.ends_ok

-- DeletePods deletes all of them.
pub delete_pods-Emptied :
    (api : Api) (initial pods : List Pod) (s : State)
    → Keeps api initial
    → Emptied initial s (delete_pods api pods s) pods
unfolding delete_pods delete_pods_from
delete_pods-Emptied api initial [] s keeps = record {
  ends_ok = refl;
  job_kept = refl;
  kept_now = refl;
}
delete_pods-Emptied api initial (pod ∷ pods) s keeps =
    Emptied-cons (delete_pod api pod s) _ (delete_pod-Emptied api initial pod s keeps)
      (λ t. delete_pods-Emptied api initial pods t keeps)
