-- ===== src/Allocator/Nodes/Free.antt =====
-- What getNodeInfos says is free on a node, against a sum over the pods of the cluster.
use di_orchestrator.Base.{
  ℕ, zero, suc, ◌≡◌, refl, sym, ap, ◌∙◌, Bool-cases, Option-cases, Option, none, some, List, [],
  ◌∷◌, ◌++◌, append_assoc, inl, inr, if◌then◌else◌,
}
use di_orchestrator.Text.{Text, text_eq, text_eq_iff}
use di_orchestrator.Dict.{lookup, lookup-insert}
use di_orchestrator.Kube.{Pod, PodPhase, PodCondition, Quantity, Resources}
use di_orchestrator.Allocator.Resources.{Library}
use di_orchestrator.Utils.Pods.{is_scheduled}
use di_orchestrator.Allocator.Nodes.{
  scheduled, effective, filter_out_ineffective_pods, add_quantity, add_resources, add_pods, pods_on,
}

-- Quantities added to an entry that may be missing.
abbrev pub sum_onto : Library → Option Quantity → List Quantity → Option Quantity
sum_onto lib o [] = o
sum_onto lib none (q ∷ qs) = sum_onto lib (some q) qs
sum_onto lib (some v) (q ∷ qs) = sum_onto lib (some (lib.add v q)) qs

-- What a list of resources says under a name.
abbrev pub amounts : Text → Resources → List Quantity
amounts name [] = []
amounts name ((n, q) ∷ m) = let rest = amounts name m in if text_eq n name then q ∷ rest else rest

abbrev pub repeat : ℕ → List Quantity → List Quantity
repeat zero qs = []
repeat (suc n) qs = qs ++ repeat n qs

abbrev pub scheduled_times : List PodCondition → ℕ
scheduled_times [] = 0
scheduled_times (c ∷ cs) =
    let rest = scheduled_times cs in if is_scheduled c then suc rest else rest

-- How often the requests of a pod count: once if it runs, once for each condition that says it is
-- scheduled if it is pending, and not at all in any other phase.
abbrev pub shares : Pod → ℕ
shares pod = elim pod.status.phase [
  | PodPhase.running ↦ 1
  | PodPhase.pending ↦ scheduled_times pod.status.conditions
  | _ ↦ 0
]

abbrev pub requests : Library → Text → Pod → List Quantity
requests lib name pod = amounts name (lib.pod_requests_and_limits pod).0

-- What the pods on a node take of a resource.
abbrev pub taken : Library → Text → Text → List Pod → List Quantity
taken lib node name [] = []
taken lib node name (pod ∷ pods) =
    let rest = taken lib node name pods in
    if text_eq pod.spec.node_name node
    then repeat (shares pod) (requests lib name pod) ++ rest
    else rest

module _ (lib : Library) where
  abbrev pub amounts_of : Text → List Pod → List Quantity
  amounts_of name [] = []
  amounts_of name (pod ∷ pods) = requests lib name pod ++ amounts_of name pods

  sum_onto-append :
      (o : Option Quantity) (xs ys : List Quantity)
      → sum_onto lib o (xs ++ ys) ≡ sum_onto lib (sum_onto lib o xs) ys
  sum_onto-append o [] ys = refl
  sum_onto-append none (x ∷ xs) ys = sum_onto-append (some x) xs ys
  sum_onto-append (some v) (x ∷ xs) ys = sum_onto-append (some (lib.add v x)) xs ys

  lookup-add_quantity :
      (name n : Text) (q : Quantity) (total : Resources)
      → lookup name (add_quantity lib n q total)
        ≡ (if text_eq n name then sum_onto lib (lookup name total) (q ∷ []) else lookup name total)
  unfolding add_quantity
  lookup-add_quantity name n q total = elim (Option-cases (lookup n total)) [
    | inl missing ↦
        rw (add_quantity, missing)
          (lookup-insert n name q total
            ∙ entry q (λ e. rw (ap (λ k. lookup k total) (sym e) ∙ missing) refl))
    | inr (v, found) ↦
        rw (add_quantity, found)
          (lookup-insert n name (lib.add v q) total
            ∙ entry (lib.add v q) (λ e. rw (ap (λ k. lookup k total) (sym e) ∙ found) refl))
  ]
    where
      entry :
          (new : Quantity)
          → (n ≡ name → sum_onto lib (lookup name total) (q ∷ []) ≡ some new)
          → (if text_eq n name then some new else lookup name total) ≡ (
              if text_eq n name
              then sum_onto lib (lookup name total) (q ∷ [])
              else lookup name total)
      entry new h = elim (Bool-cases (text_eq n name)) [
        | inl same ↦ rw same (sym (h ((text_eq_iff n name).0 same)))
        | inr other ↦ rw other refl
      ]

  lookup-add_resources :
      (name : Text) (from total : Resources)
      → lookup name (add_resources lib from total)
        ≡ sum_onto lib (lookup name total) (amounts name from)
  unfolding add_resources
  lookup-add_resources name [] total = refl
  lookup-add_resources name ((n, q) ∷ from) total =
      lookup-add_resources name from (add_quantity lib n q total)
      ∙ elim (Bool-cases (text_eq n name)) [
        | inl same ↦
            rw (lookup-add_quantity name n q total, same)
              (sym (sum_onto-append (lookup name total) (q ∷ []) (amounts name from)))
        | inr other ↦ rw (lookup-add_quantity name n q total, other) refl
      ]

  pub lookup-add_pods :
      (name : Text) (pods : List Pod) (reqs limits : Resources)
      → lookup name (add_pods lib pods reqs limits).0
        ≡ sum_onto lib (lookup name reqs) (amounts_of name pods)
  unfolding add_pods
  lookup-add_pods name [] reqs limits = refl
  lookup-add_pods name (pod ∷ pods) reqs limits =
      lookup-add_pods name pods _ _
      ∙ (ap (λ o. sum_onto lib o (amounts_of name pods)) (lookup-add_resources name _ reqs)
          ∙ sym (sum_onto-append (lookup name reqs) (requests lib name pod) (amounts_of name pods)))

  amounts_of-append :
      (name : Text) (xs ys : List Pod)
      → amounts_of name (xs ++ ys) ≡ amounts_of name xs ++ amounts_of name ys
  amounts_of-append name [] ys = refl
  amounts_of-append name (x ∷ xs) ys =
      ap (λ l. requests lib name x ++ l) (amounts_of-append name xs ys)
      ∙ sym (append_assoc (requests lib name x) _ _)

  amounts_of-scheduled :
      (name : Text) (pod : Pod) (cs : List PodCondition)
      → amounts_of name (scheduled pod cs) ≡ repeat (scheduled_times cs) (requests lib name pod)
  unfolding scheduled
  amounts_of-scheduled name pod [] = refl
  amounts_of-scheduled name pod (c ∷ cs) = elim (Bool-cases (is_scheduled c)) [
    | inl bound ↦ rw bound (ap (λ l. requests lib name pod ++ l) (amounts_of-scheduled name pod cs))
    | inr free ↦ rw free (amounts_of-scheduled name pod cs)
  ]

  amounts_of-effective :
      (name : Text) (pod : Pod)
      → amounts_of name (effective pod) ≡ repeat (shares pod) (requests lib name pod)
  unfolding effective
  amounts_of-effective name pod = go pod.status.phase
    where
      go :
          (p : PodPhase)
          → amounts_of name (elim p [
            | PodPhase.running ↦ pod ∷ []
            | PodPhase.pending ↦ scheduled pod pod.status.conditions
            | _ ↦ []
          ])
            ≡ repeat
                (elim p [
                  | PodPhase.running ↦ 1
                  | PodPhase.pending ↦ scheduled_times pod.status.conditions
                  | _ ↦ 0
                ])
                (requests lib name pod)
      go PodPhase.running = refl
      go PodPhase.pending = amounts_of-scheduled name pod pod.status.conditions
      go _ = refl

  pub amounts_of-pods_on :
      (name node : Text) (pods : List Pod)
      → amounts_of name (filter_out_ineffective_pods (pods_on node pods)) ≡ taken lib node name pods
  unfolding filter_out_ineffective_pods pods_on
  amounts_of-pods_on name node [] = refl
  amounts_of-pods_on name node (pod ∷ pods) = elim (Bool-cases (text_eq pod.spec.node_name node)) [
    | inl here ↦ rw here (
        amounts_of-append name (effective pod) (filter_out_ineffective_pods (pods_on node pods))
        ∙ (ap (λ l. l ++ amounts_of name (filter_out_ineffective_pods (pods_on node pods)))
              (amounts_of-effective name pod)
            ∙ ap (λ l. repeat (shares pod) (requests lib name pod) ++ l)
                (amounts_of-pods_on name node pods)))
    | inr elsewhere ↦ rw elsewhere (amounts_of-pods_on name node pods)
  ]
