-- ===== src/Commands/Watches.antt =====
-- What SetupWithManager registers: pkg/controllers/dijob_controller.go and pkg/allocator/allocator.go.
use di_orchestrator.Base.{Bool, true, List, [], ◌∷◌}
use di_orchestrator.Machine.{Action, Api, crash, modify_job, ◌>>◌}
use di_orchestrator.Status.Incorrect.{Dynamic}
use di_orchestrator.Controller.Events.{Object, EventHandler, job_events}
use di_orchestrator.Allocator.Resources.{Library}
use di_orchestrator.Allocator.Allocate.{on_job_add}

pub data Kind : Type 0 where
  job pod service node : Kind

-- What happens to the events of a kind: handlers of their own, or a request for the owner of the
-- object, which is the controller alone if the flag is set.
pub data Watch : Type 0 where
  events : Kind → EventHandler → Watch
  owner : Kind → Kind → Bool → Watch

pub data ReconcilerName : Type 0 where
  dijob_reconciler allocator : ReconcilerName

-- A controller: the kind that it is for, what it watches besides, and who reconciles.
pub record Registration : Type 0 where
  pub kind : Kind
  pub watches : List Watch
  pub complete : ReconcilerName

-- SetupWithManager of DIJobReconciler
unfoldable pub reconciler_setup : {U F : Type 0} → Api → Dynamic U F → Registration
reconciler_setup api dynamic = record {
  kind = Kind.job;
  watches =
      Watch.events Kind.job (job_events api dynamic)
      ∷ Watch.owner Kind.pod Kind.job true
      ∷ Watch.owner Kind.service Kind.job true
      ∷ [];
  complete = ReconcilerName.dijob_reconciler;
}

-- onJobAddHandler of the allocator: the type assertion panics for an object that is no DIJob.
unfoldable pub allocator_on_object_add : Library → Api → Object → Action (Unit {0})
allocator_on_object_add lib api (Object.di_job new) = modify_job (λ _. new) >> on_job_add lib api
allocator_on_object_add lib api (Object.other _ _) = crash

abbrev no_handlers : EventHandler
no_handlers = record { on_create_handlers = []; on_update_handlers = []; on_delete_handlers = [] }

-- SetupWithManager of Allocator
unfoldable pub allocator_setup : Library → Api → Registration
unfolding allocator_on_object_add
allocator_setup lib api = record {
  kind = Kind.job;
  watches =
      Watch.events Kind.job
        (record no_handlers { on_create_handlers = allocator_on_object_add lib api ∷ [] })
      ∷ Watch.events Kind.node no_handlers
      ∷ Watch.events Kind.pod no_handlers
      ∷ [];
  complete = ReconcilerName.allocator;
}
