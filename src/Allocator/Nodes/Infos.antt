-- ===== src/Allocator/Nodes/Infos.antt =====
-- What getNodeInfos says of each node, and of what is free on it.
use di_orchestrator.Base.{
  ◌≡◌, ◌≢◌, refl, subst, ap, ◌∙◌, Bool-cases, Option, none, some, List, [], ◌∷◌, ◌++◌, All, inl,
  inr, if◌then◌else◌,
}
use di_orchestrator.Text.{Text, text_eq, text_eq_iff, text_eq_refl}
use di_orchestrator.Dict.{Dict, lookup, insert, get_or, lookup-insert}
use di_orchestrator.Kube.{Pod, Node, Quantity, Resources}
use di_orchestrator.Machine.{State, Api, ok}
use di_orchestrator.Pods.Calls.{list_pods}
use di_orchestrator.Allocator.Resources.{Library}
use di_orchestrator.Allocator.Nodes.{
  NodeInfo, filter_out_ineffective_pods, get_pods_total_requests_and_limits,
  get_node_allocated_resources, free_from, get_node_info, pods_on, add_node_infos, get_node_infos,
}
use di_orchestrator.Allocator.Nodes.Free.{sum_onto, taken, amounts_of-pods_on, lookup-add_pods}

-- Each key occurs once.
abbrev pub IsMap : {V : Type 0} → Dict V → Type 0
IsMap [] = Unit
IsMap ((k, v) ∷ m) = (lookup k m ≡ none) × IsMap m

-- What is left of an amount, if there is one.
abbrev pub left_of : Library → Option Quantity → Option Quantity → Option Quantity
left_of lib none used = none
left_of lib (some value) none = some (lib.sub value lib.zero)
left_of lib (some value) (some q) = some (lib.sub value q)

abbrev first_of : Option Quantity → Option Quantity → Option Quantity
first_of none o = o
first_of (some q) o = some q

lookup-free_from :
    (lib : Library) (name : Text) (reqs allocatable free : Resources)
    → IsMap allocatable
    → lookup name (free_from lib reqs allocatable free)
      ≡ first_of (left_of lib (lookup name allocatable) (lookup name reqs)) (lookup name free)
unfolding free_from lookup
lookup-free_from lib name reqs [] free h = refl
lookup-free_from lib name reqs ((n, v) ∷ allocatable) free h =
    lookup-free_from lib name reqs allocatable (insert n (lib.sub v (get_or n reqs lib.zero)) free)
      h.1
    ∙ elim (Bool-cases (text_eq n name)) [
      | inl same ↦ subst Same ((text_eq_iff n name).0 same) here
      | inr other ↦ rw (lookup-insert n name (lib.sub v (get_or n reqs lib.zero)) free, other) refl
    ]
  where
    use_first :
        (o : Option Quantity)
        → some (lib.sub v (elim o [ none ↦ lib.zero | some q ↦ q ]))
          ≡ first_of (left_of lib (some v) o) (lookup n free)
    use_first none = refl
    use_first (some q) = refl

    Same : Text → Type 0
    Same k =
        first_of (left_of lib (lookup k allocatable) (lookup k reqs))
          (lookup k (insert n (lib.sub v (get_or n reqs lib.zero)) free))
        ≡ first_of
            (left_of lib (if text_eq n k then some v else lookup k allocatable) (lookup k reqs))
            (lookup k free)

    here : Same n
    here =
        rw (h.0, lookup-insert n n (lib.sub v (get_or n reqs lib.zero)) free, text_eq_refl n)
          (use_first (lookup n reqs))

lookup-add_node_infos :
    (lib : Library) (pods : List Pod) (name : Text) (nodes : List Node) (infos : Dict NodeInfo)
    → All (λ n. n.name ≢ name) nodes
    → lookup name (add_node_infos lib pods nodes infos) ≡ lookup name infos
unfolding add_node_infos
lookup-add_node_infos lib pods name [] infos h = refl
lookup-add_node_infos lib pods name (node ∷ nodes) infos h =
    elim (Bool-cases (text_eq node.name name)) [
      | inl same ↦ absurd (h.0 ((text_eq_iff node.name name).0 same))
      | inr other ↦
          lookup-add_node_infos lib pods name nodes _ h.1
          ∙ (lookup-insert node.name name _ infos ∙ rw other refl)
    ]

lookup-last :
    (lib : Library) (pods : List Pod) (before : List Node) (node : Node) (after : List Node)
    (infos : Dict NodeInfo)
    → All (λ n. n.name ≢ node.name) after
    → lookup node.name (add_node_infos lib pods (before ++ node ∷ after) infos)
      ≡ some (get_node_info lib node (pods_on node.name pods))
unfolding add_node_infos
lookup-last lib pods [] node after infos h =
    lookup-add_node_infos lib pods node.name after _ h
    ∙ (lookup-insert node.name node.name _ infos ∙ rw (text_eq_refl node.name) refl)
lookup-last lib pods (n ∷ before) node after infos h = lookup-last lib pods before node after _ h

-- getNodeInfos says of a node: its name, and of each resource the amount that can be allocated less
-- the amount taken; a resource that cannot be allocated has no entry.
pub record Informed (lib : Library) (pods : List Pod) (node : Node) (infos : Dict NodeInfo)
    : Type 0 where
  pub info : NodeInfo
  pub found : lookup node.name infos ≡ some info
  pub key_now : info.key ≡ node.name
  pub left :
      (name : Text)
      → lookup name info.resources
        ≡ left_of lib
            (lookup name node.allocatable)
            (sum_onto lib none (taken lib node.name name pods))

get_node_info-Informed :
    (lib : Library) (pods : List Pod) (node : Node) (infos : Dict NodeInfo)
    → IsMap node.allocatable
    → lookup node.name infos ≡ some (get_node_info lib node (pods_on node.name pods))
    → Informed lib pods node infos
unfolding get_node_info get_node_allocated_resources get_pods_total_requests_and_limits lookup
get_node_info-Informed lib pods node infos map e =
    let bound = filter_out_ineffective_pods (pods_on node.name pods) in
    let reqs = (get_node_allocated_resources lib node (pods_on node.name pods)).0 in
    record {
      info = get_node_info lib node (pods_on node.name pods);
      found = e;
      key_now = refl;
      left = λ name.
          lookup-free_from lib name reqs node.allocatable [] map
          ∙ (first_of-none (left_of lib (lookup name node.allocatable) (lookup name reqs))
              ∙ ap (λ o. left_of lib (lookup name node.allocatable) o)
                  (lookup-add_pods lib name bound [] []
                    ∙ ap (λ l. sum_onto lib none l) (amounts_of-pods_on lib name node.name pods)));
    }
  where
    first_of-none : (o : Option Quantity) → first_of o none ≡ o
    first_of-none none = refl
    first_of-none (some q) = refl

-- If the pods of the cluster are listed, getNodeInfos returns a map that has, for each of the nodes
-- (the last, where two have one name), the node's name and, for each resource, the amount that can be
-- allocated less the sum of what the pods on the node request: those that run, each once, and those
-- that are pending, once for each condition that says they are scheduled. No other resource has an entry.
pub get_node_infos-Informed :
    (lib : Library) (api : Api) (s : State) (pods : List Pod) (before : List Node) (node : Node)
    (after : List Node)
    → api.list_pods s.calls (record { namespace = []; match_labels = [] }) ≡ inr pods
    → IsMap node.allocatable
    → All (λ n. n.name ≢ node.name) after
    → (infos : Dict NodeInfo) × ((get_node_infos lib api (before ++ node ∷ after) s).0 ≡ ok infos)
      × Informed lib pods node infos
unfolding get_node_infos list_pods
get_node_infos-Informed lib api s pods before node after listed map last = (
  add_node_infos lib pods (before ++ node ∷ after) [],
  rw listed refl,
  get_node_info-Informed lib pods node _ map (lookup-last lib pods before node after [] last),
)
