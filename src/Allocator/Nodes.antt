-- ===== src/Allocator/Nodes.antt =====
-- pkg/context/node.go and pkg/allocator/node.go: what the pods of a node take, and what it has free.
pub mod Free
pub mod Infos
use di_orchestrator.Base.{
  Bool, true, false, ◌&&◌, Option, none, some, List, [], ◌∷◌, ◌++◌, filter, inr, ◌⊎◌, if◌then◌else◌,
}
use di_orchestrator.Text.{Text, text_eq}
use di_orchestrator.Dict.{Dict, lookup, insert, get_or}
use di_orchestrator.Kube.{
  Pod, PodPhase, PodCondition, PodConditionType, ConditionStatus, Node, Quantity, Resources,
}
use di_orchestrator.Machine.{Error, Action, Api, Call, pure, lift, send, ◌>>=◌}
use di_orchestrator.Utils.Pods.{is_scheduled}
use di_orchestrator.Pods.Calls.{list_pods}
use di_orchestrator.Allocator.Resources.{Library}

-- pkg/allocator/types/infos.go: the resources are those that are free.
pub record NodeInfo : Type 0 where
  pub key : Text
  pub resources : Resources

-- ListNodes
unfoldable pub list_nodes : Api → Action (List Node)
list_nodes api = send Call.list_nodes (λ calls. api.list_nodes calls)

-- The loop over the conditions of a pending pod: the pod, once for each that says it is scheduled.
scheduled : Pod → List PodCondition → List Pod
scheduled pod [] = []
scheduled pod (c ∷ cs) = let rest = scheduled pod cs in if is_scheduled c then pod ∷ rest else rest

-- What the loop appends for one pod.
unfoldable pub effective : Pod → List Pod
unfolding scheduled
effective pod = elim pod.status.phase [
  | PodPhase.running ↦ pod ∷ []
  | PodPhase.pending ↦ scheduled pod pod.status.conditions
  | _ ↦ []
]

-- filterOutIneffectivePods
unfoldable pub filter_out_ineffective_pods : List Pod → List Pod
filter_out_ineffective_pods [] = []
filter_out_ineffective_pods (pod ∷ pods) = effective pod ++ filter_out_ineffective_pods pods

-- `total[name] += q`, with no entry for a name that is new.
unfoldable pub add_quantity : Library → Text → Quantity → Resources → Resources
add_quantity lib name q total = elim (lookup name total) [
  | none ↦ insert name q total
  | some value ↦ insert name (lib.add value q) total
]

-- One loop over the requests, or the limits, of a pod.
unfoldable pub add_resources : Library → Resources → Resources → Resources
add_resources lib [] total = total
add_resources lib ((name, q) ∷ from) total = add_resources lib from (add_quantity lib name q total)

unfoldable pub add_pods : Library → List Pod → Resources → Resources → Resources × Resources
add_pods lib [] reqs limits = (reqs, limits)
add_pods lib (pod ∷ pods) reqs limits =
    let (pod_reqs, pod_limits) = lib.pod_requests_and_limits pod in
    add_pods lib pods (add_resources lib pod_reqs reqs) (add_resources lib pod_limits limits)

-- getPodsTotalRequestsAndLimits
unfoldable pub get_pods_total_requests_and_limits : Library → List Pod → Resources × Resources
get_pods_total_requests_and_limits lib pods = add_pods lib pods [] []

-- GetNodeAllocatedResources; its error is always nil.
unfoldable pub get_node_allocated_resources : Library → Node → List Pod → Resources × Resources
get_node_allocated_resources lib node pods =
    get_pods_total_requests_and_limits lib (filter_out_ineffective_pods pods)

-- The loop of getNodeInfo over what can be allocated.
unfoldable pub free_from : Library → Resources → Resources → Resources → Resources
free_from lib reqs [] free = free
free_from lib reqs ((name, value) ∷ allocatable) free =
    free_from lib reqs allocatable (insert name (lib.sub value (get_or name reqs lib.zero)) free)

-- getNodeInfo; its error is always nil.
unfoldable pub get_node_info : Library → Node → List Pod → NodeInfo
get_node_info lib node pods =
    let (reqs, limits) = get_node_allocated_resources lib node pods in
    record { key = node.name; resources = free_from lib reqs node.allocatable [] }

-- The inner loop of getNodeInfos.
unfoldable pub pods_on : Text → List Pod → List Pod
pods_on name pods = filter (λ pod. text_eq pod.spec.node_name name) pods

unfoldable pub add_node_infos : Library → List Pod → List Node → Dict NodeInfo → Dict NodeInfo
add_node_infos lib pods [] infos = infos
add_node_infos lib pods (node ∷ nodes) infos =
    add_node_infos lib pods nodes
      (insert node.name (get_node_info lib node (pods_on node.name pods)) infos)

-- getNodeInfos
unfoldable pub get_node_infos : Library → Api → List Node → Action (Dict NodeInfo)
get_node_infos lib api nodes = do
  pods ← list_pods api (record { namespace = []; match_labels = [] })
  pure (add_node_infos lib pods nodes [])
