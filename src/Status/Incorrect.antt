-- ===== src/Status/Incorrect.antt =====
-- pkg/context/status.go: MarkIncorrectJobFailed, for an object that is no DIJob of this version.
use di_orchestrator.Base.{Option, none, some, [], ◌∷◌, ◌++◌, ◌⊎◌, inl, inr, pos}
use di_orchestrator.Text.{Text, codes}
use di_orchestrator.Kube.{ConditionStatus, NamespacedName}
use di_orchestrator.Job.{DiJobStatus, Phase}
use di_orchestrator.Machine.{Error, Action, Api, pure, crash, attempt, ◌>>=◌, ◌>>◌}
use di_orchestrator.Status.Cluster.{succeeds}

-- k8s.io/client-go/dynamic and the converter: the objects are `U`, a status in their form is `F`.
-- `Get` returns nil beside an error.
pub record Dynamic (U F : Type 0) : Type 0 where
  pub new_for_config : Option Error
  pub to_unstructured : DiJobStatus → Error ⊎ F
  pub set_status : F → U → U
  pub get : NamespacedName → Action U
  pub update_status : U → Action (Unit {0})

-- The status that is built; the zero time is 0.
unfoldable pub incorrect_status : Text → DiJobStatus
incorrect_status type = record {
  completion_timestamp = none;
  restarts = pos 0;
  reschedules = pos 0;
  phase = Phase.failed;
  replicas = pos 0;
  task_status = [];
  ready_replicas = pos 0;
  allocation = [];
  conditions =
      record {
        type = Phase.failed;
        status = ConditionStatus.condition_true;
        reason = [];
        message = codes "failed to convert type " ++ type ++ codes " to v2alpha1.DIJob";
        last_update_time = 0;
        last_transition_time = 0;
      }
      ∷ [];
}

module _ {U F : Type 0} (api : Api) (dynamic : Dynamic U F) where
  -- What follows the Get: after an error, which is only logged, the field of a nil pointer is read.
  unfoldable pub set_and_update : F → Error ⊎ U → Action (Unit {0})
  set_and_update fields (inl e) = crash
  set_and_update fields (inr un) =
      attempt (api.poll (succeeds (dynamic.update_status (dynamic.set_status fields un))))
      >> pure tt

  -- MarkIncorrectJobFailed, for an object with this key and of this type.
  unfoldable pub mark_incorrect_job_failed : NamespacedName → Text → Action (Unit {0})
  mark_incorrect_job_failed key type = elim dynamic.new_for_config [
    | some e ↦ pure tt
    | none ↦ elim (dynamic.to_unstructured (incorrect_status type)) [
      | inl e ↦ pure tt
      | inr fields ↦ attempt (dynamic.get key) >>= λ r. set_and_update fields r
    ]
  ]
