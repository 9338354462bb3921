-- ===== src/Controller/Steps/Lifecycle/Listed.antt =====
-- pkg/controllers/dijob.go and pkg/context/pod.go together: the pods that a reconciliation creates are
-- those that the next one finds.
use di_orchestrator.Base.{◌≡◌, List, []}
use di_orchestrator.Kube.{Pod}
use di_orchestrator.Job.{Phase}
use di_orchestrator.Machine.{State, Result, ok, Api}
use di_orchestrator.Controller.Steps.{reconcile_with_job_status}
use di_orchestrator.Controller.Steps.Lifecycle.{Gets}
use di_orchestrator.Controller.Steps.Lifecycle.Again.{Again}

-- From the first list to the second reconciliation.
record Converges (api : Api) (s : State) (listed : Result (List Pod) × State) : Type 0 where
  nothing : listed.0 ≡ ok []
  first : Gets Phase.pending listed.1 (reconcile_with_job_status api [] listed.1)
  again : Again api s (reconcile_with_job_status api [] listed.1).1
  second :
      (t : State)
      → t.job ≡ (reconcile_with_job_status api [] listed.1).1.job
      → Gets Phase.starting t (reconcile_with_job_status api again.pods t)
        × ((reconcile_with_job_status api again.pods t).1.calls ≡ t.calls)
