-- ===== src/Machine/Log.antt =====
-- The pods that a log of calls asks the cluster to create and to delete, in order, and the
-- statuses that it writes.
use di_orchestrator.Base.{◌≡◌, refl, ap, List, [], ◌∷◌, ◌++◌}
use di_orchestrator.Kube.{Pod}
use di_orchestrator.Job.{DiJob}
use di_orchestrator.Machine.{Call}

abbrev pub deleted_pods : List Call → List Pod
deleted_pods [] = []
deleted_pods (Call.delete_pod pod ∷ calls) = pod ∷ deleted_pods calls
deleted_pods (_ ∷ calls) = deleted_pods calls

abbrev pub created_pods : List Call → List Pod
created_pods [] = []
created_pods (Call.create_pod pod ∷ calls) = pod ∷ created_pods calls
created_pods (_ ∷ calls) = created_pods calls

abbrev pub written_statuses : List Call → List DiJob
written_statuses [] = []
written_statuses (Call.update_status job ∷ calls) = job ∷ written_statuses calls
written_statuses (_ ∷ calls) = written_statuses calls

pub deleted_pods-append :
    (xs ys : List Call) → deleted_pods (xs ++ ys) ≡ deleted_pods xs ++ deleted_pods ys
deleted_pods-append [] ys = refl
deleted_pods-append (Call.delete_pod pod ∷ xs) ys = ap (λ l. pod ∷ l) (deleted_pods-append xs ys)
deleted_pods-append (_ ∷ xs) ys = deleted_pods-append xs ys

pub created_pods-append :
    (xs ys : List Call) → created_pods (xs ++ ys) ≡ created_pods xs ++ created_pods ys
created_pods-append [] ys = refl
created_pods-append (Call.create_pod pod ∷ xs) ys = ap (λ l. pod ∷ l) (created_pods-append xs ys)
created_pods-append (_ ∷ xs) ys = created_pods-append xs ys

pub written_statuses-append :
    (xs ys : List Call) → written_statuses (xs ++ ys) ≡ written_statuses xs ++ written_statuses ys
written_statuses-append [] ys = refl
written_statuses-append (Call.update_status job ∷ xs) ys =
    ap (λ l. job ∷ l) (written_statuses-append xs ys)
written_statuses-append (_ ∷ xs) ys = written_statuses-append xs ys
