-- ===== src/Controller/Events.antt =====
-- pkg/common/event_handler.go and the handlers that pkg/controllers/dijob_controller.go gives it, for
-- objects that may be no DIJobs.
use di_orchestrator.Base.{List, [], ◌∷◌}
use di_orchestrator.Text.{Text}
use di_orchestrator.Kube.{NamespacedName}
use di_orchestrator.Job.{DiJob}
use di_orchestrator.Machine.{Action, Api, pure, modify_job, for_each, ◌>>◌}
use di_orchestrator.Status.Incorrect.{Dynamic, mark_incorrect_job_failed}
use di_orchestrator.Controller.Reconcile.{on_job_add, on_job_update}

-- A client.Object: a DIJob, or another object with its key and its type.
pub data Object : Type 0 where
  di_job : DiJob → Object
  other : NamespacedName → Text → Object

-- EventHandler
pub record EventHandler : Type 0 where
  pub on_create_handlers : List (Object → Action (Unit {0}))
  pub on_update_handlers : List (Object → Object → Action (Unit {0}))
  pub on_delete_handlers : List (Object → Action (Unit {0}))

-- Create, Update, Delete, Generic
unfoldable pub create : EventHandler → Object → Action (Unit {0})
create e obj = for_each e.on_create_handlers (λ handler. handler obj)

unfoldable pub update : EventHandler → Object → Object → Action (Unit {0})
update e old new = for_each e.on_update_handlers (λ handler. handler old new)

unfoldable pub delete : EventHandler → Object → Action (Unit {0})
delete e obj = for_each e.on_delete_handlers (λ handler. handler obj)

unfoldable pub generic : EventHandler → Object → Action (Unit {0})
generic e obj = pure tt

module _ {U F : Type 0} (api : Api) (dynamic : Dynamic U F) where
  -- onJobAddHandler
  unfoldable pub on_object_add : Object → Action (Unit {0})
  on_object_add (Object.other key type) = mark_incorrect_job_failed api dynamic key type
  on_object_add (Object.di_job job) = modify_job (λ _. job) >> on_job_add api

  -- onJobUpdateHandler: an object that is no DIJob is only logged.
  unfoldable pub on_object_update : Object → Object → Action (Unit {0})
  on_object_update (Object.di_job old) (Object.di_job new) =
      modify_job (λ _. new) >> on_job_update api old
  on_object_update (Object.di_job old) (Object.other _ _) = pure tt
  on_object_update (Object.other _ _) new = pure tt

  -- onJobDeleteHandler: a log line.
  unfoldable pub on_object_delete : Object → Action (Unit {0})
  on_object_delete obj = pure tt

  -- The handlers that SetupWithManager registers.
  unfoldable pub job_events : EventHandler
  unfolding on_object_add on_object_update on_object_delete
  job_events = record {
    on_create_handlers = on_object_add ∷ [];
    on_update_handlers = on_object_update ∷ [];
    on_delete_handlers = on_object_delete ∷ [];
  }
