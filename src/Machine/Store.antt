-- ===== src/Machine/Store.antt =====
-- What the API server promises of pods, a hypothesis of some theorems: it holds the pods that were
-- created and not deleted, refuses a pod whose name is taken in its namespace, says of a pod that is not
-- there that it is not found, and lists those that a request selects, each with the metadata that it was
-- created with. The cluster completes a pod's specification and writes its status, and does not move
-- a pod that was created for a node. A pod that is deleted is gone at once.
pub mod Removed
use di_orchestrator.Base.{
  ◌≡◌, ◌⊎◌, refl, ap, Bool, true, false, not, ◌&&◌, ◌||◌, inr, Option, none, some, List, [], ◌∷◌,
  ◌++◌, arith, filter, All, if◌then◌else◌,
}
use di_orchestrator.Text.{Text, text_eq}
use di_orchestrator.Dict.{Dict, lookup}
use di_orchestrator.Kube.{Pod, ListOptions}
use di_orchestrator.Machine.{Error, Call, Api}

abbrev pub is_pod : Text → Text → Pod → Bool
is_pod namespace name pod = text_eq pod.namespace namespace && text_eq pod.name name

-- A pod of that name is there.
abbrev pub holds : Text → Text → List Pod → Bool
holds namespace name [] = false
holds namespace name (pod ∷ pods) = is_pod namespace name pod || holds namespace name pods

-- What one call does to the pods.
abbrev pub after_call : Call → List Pod → List Pod
after_call (Call.create_pod pod) pods =
    if holds pod.namespace pod.name pods then pods else pods ++ pod ∷ []
after_call (Call.delete_pod pod) pods = filter (λ p. not (is_pod pod.namespace pod.name p)) pods
after_call _ pods = pods

-- The pods that are there after a log of calls.
unfoldable pub kept : List Pod → List Call → List Pod
kept pods [] = pods
kept pods (c ∷ calls) = kept (after_call c pods) calls

pub kept-append :
    (pods : List Pod) (xs ys : List Call) → kept pods (xs ++ ys) ≡ kept (kept pods xs) ys
unfolding kept
kept-append pods [] ys = refl
kept-append pods (c ∷ xs) ys = kept-append (after_call c pods) xs ys

abbrev has_label : Option Text → Text → Bool
has_label none v = false
has_label (some w) v = text_eq w v

-- The labels of a pod include these.
abbrev pub has_labels : Dict Text → Pod → Bool
has_labels [] pod = true
has_labels ((k, v) ∷ labels) pod = has_label (lookup k pod.labels) v && has_labels labels pod

abbrev pub is_selected : ListOptions → Pod → Bool
is_selected options pod =
    text_eq pod.namespace options.namespace && has_labels options.match_labels pod

-- The same pod: what its author wrote in its metadata stays, the status and the specification are the
-- cluster's to complete, but a node that the specification has is not replaced.
abbrev pub IsSame : Pod → Pod → Type 0
IsSame p q =
    (p ≡ record q { status = p.status; spec = p.spec })
    × ((q.spec.node_name ≡ []) ⊎ (p.spec.node_name ≡ q.spec.node_name))

abbrev pub Seen : List Pod → List Pod → Type 0
Seen [] [] = Unit
Seen [] (_ ∷ _) = ⊥
Seen (_ ∷ _) [] = ⊥
Seen (p ∷ ps) (q ∷ qs) = IsSame p q × Seen ps qs

pub record Keeps (api : Api) (initial : List Pod) : Type 0 where
  pub creates :
      (calls : List Call) (pod : Pod)
      → holds pod.namespace pod.name (kept initial calls) ≡ false
      → api.create_pod calls pod ≡ none
  pub refuses :
      (calls : List Call) (pod : Pod)
      → holds pod.namespace pod.name (kept initial calls) ≡ true
      → (e : Error) × (api.create_pod calls pod ≡ some e) × (api.is_already_exists e ≡ true)
  pub deletes :
      (calls : List Call) (pod : Pod)
      → holds pod.namespace pod.name (kept initial calls) ≡ true
      → api.delete_pod calls pod ≡ none
  pub misses :
      (calls : List Call) (pod : Pod)
      → holds pod.namespace pod.name (kept initial calls) ≡ false
      → (e : Error) × (api.delete_pod calls pod ≡ some e) × (api.is_not_found e ≡ true)
  pub lists :
      (calls : List Call) (options : ListOptions)
      → (pods : List Pod) × (api.list_pods calls options ≡ inr pods)
        × Seen pods (filter (is_selected options) (kept initial calls))

-- A name that is free stays free when a pod with another name is added.
pub holds-append :
    (namespace name : Text) (pods : List Pod) (pod : Pod)
    → holds namespace name pods ≡ false
    → text_eq pod.name name ≡ false
    → holds namespace name (pods ++ pod ∷ []) ≡ false
holds-append namespace name [] pod h k = ground arith
holds-append namespace name (p ∷ pods) pod h k =
    ground (arith, holds-append namespace name pods pod)

pub filter-append :
    {A : Type 0} (p : A → Bool) (xs ys : List A) → filter p (xs ++ ys) ≡ filter p xs ++ filter p ys
filter-append p [] ys = refl
filter-append p (x ∷ xs) ys = ground (arith, filter-append p xs ys)

pub filter-All :
    {A : Type 0} (p : A → Bool) (xs : List A) → All (λ x. p x ≡ true) xs → filter p xs ≡ xs
filter-All p [] h = refl
filter-All p (x ∷ xs) h = rw h.0 (ap (λ l. x ∷ l) (filter-All p xs h.1))

-- A pod that the store has no pod of the name for is put at the end.
pub after_create :
    (pods : List Pod) (pod : Pod)
    → holds pod.namespace pod.name pods ≡ false
    → after_call (Call.create_pod pod) pods ≡ pods ++ pod ∷ []
after_create pods pod h = rw h refl
