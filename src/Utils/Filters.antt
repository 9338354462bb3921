-- ===== src/Utils/Filters.antt =====
-- pkg/utils/filters.go, and the functions of util.go that select and group pods.
use di_orchestrator.Base.{Bool, true, not, ◌&&◌, List, [], ◌∷◌, ◌++◌, if◌then◌else◌}
use di_orchestrator.Dict.{Dict, insert, get_or, text_at}
use di_orchestrator.Kube.{Pod}
use di_orchestrator.Job.{label_task_name}
use di_orchestrator.Utils.Pods.{is_pod_terminating}

abbrev pub Filter : Type 0
Filter = Pod → Bool

unfoldable pub apply_filters : List Filter → Pod → Bool
apply_filters [] pod = true
apply_filters (f ∷ fs) pod = f pod && apply_filters fs pod

unfoldable pub terminating_pod_filter : Filter
terminating_pod_filter pod = is_pod_terminating pod

unfoldable pub non_terminating_pod_filter : Filter
non_terminating_pod_filter pod = not (is_pod_terminating pod)

unfoldable pub filter_pods : List Pod → List Filter → List Pod
filter_pods [] filters = []
filter_pods (pod ∷ pods) filters =
    let rest = filter_pods pods filters in if apply_filters filters pod then pod ∷ rest else rest

split_typed : List Pod → Dict (List Pod) → Dict (List Pod)
split_typed [] out = out
split_typed (pod ∷ pods) out =
    let name = text_at label_task_name pod.labels in
    split_typed pods (insert name (get_or name out [] ++ pod ∷ []) out)

-- The pods by the name of their task.
unfoldable pub split_typed_pods : List Pod → Dict (List Pod)
unfolding split_typed
split_typed_pods pods = split_typed pods []
