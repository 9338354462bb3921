-- ===== src/Tests/Nodes.antt =====
-- The theorems about the allocator, at a concrete cluster. A quantity is written as that many ones.
use di_orchestrator.Base.{
  ◌≡◌, refl, inr, none, some, List, [], ◌∷◌, ◌++◌, pos, Bool, true, false, ◌&&◌,
}
use di_orchestrator.Text.{Text, codes, text_eq, text_eq_refl}
use di_orchestrator.Dict.{Dict, lookup}
use di_orchestrator.Kube.{
  Pod, PodPhase, Node, Quantity, Resources, ResourceRequirements, NamespacedName,
}
use di_orchestrator.Job.{Phase}
use di_orchestrator.Machine.{State, Api, ok, panic}
use di_orchestrator.Allocator.Readers.{Reads}
use di_orchestrator.Allocator.Resources.{Library}
use di_orchestrator.Allocator.Jobs.{JobInfo, get_job_info}
use di_orchestrator.Allocator.Jobs.Defaults.{get_job_info-panics, get_job_info-IsShared, IsShared}
use di_orchestrator.Allocator.Nodes.{NodeInfo, get_node_infos}
use di_orchestrator.Allocator.Nodes.Infos.{Informed, get_node_infos-Informed}
use di_orchestrator.Allocator.Allocate.{on_job_add, reconcile}
use di_orchestrator.Allocator.Allocate.Laws.{allocator-Reads}
use di_orchestrator.Tests.{api, template, pod_in, job_in, state_of}

abbrev pub minus : Quantity → Quantity → Quantity
minus a [] = a
minus [] (_ ∷ _) = []
minus (_ ∷ a) (_ ∷ b) = minus a b

abbrev pub ones : Resources
ones = (codes "cpu", codes "1") ∷ []

-- Resources with limits alone.
abbrev limited : ResourceRequirements
limited = record { limits = some ones; requests = none }

-- Each pod requests one processor; the default resources are the text given.
abbrev pub lib_with : Text → Library
lib_with defaults = record {
  zero = [];
  add = λ a b. a ++ b;
  sub = minus;
  must_parse = λ t. t;
  cpu = λ m. lookup (codes "cpu") m;
  memory = λ m. lookup (codes "memory") m;
  pod_requests_and_limits = λ pod. (ones, []);
  unmarshal = λ t. inr ((codes "resources", limited) ∷ []);
  default_resources = defaults;
}

abbrev pending : State
pending = state_of (job_in true Phase.pending [])

only_resources : lookup (codes "resources") ((codes "resources", limited) ∷ []) ≡ some limited
unfolding lookup text_eq
only_resources = refl

get_job_info-panics_example : (get_job_info (lib_with (codes "{}")) pending.job pending).0 ≡ panic
get_job_info-panics_example =
    get_job_info-panics (lib_with (codes "{}")) pending.job pending _ _ refl refl only_resources
      refl

get_job_info-IsShared_example :
    (info : JobInfo) × ((get_job_info (lib_with []) pending.job pending).0 ≡ ok info)
    × IsShared info.resources
get_job_info-IsShared_example = get_job_info-IsShared (lib_with []) pending.job pending refl

abbrev worker : Pod
worker = record (pod_in PodPhase.running (codes "a") (codes "collector")) {
  spec = record template { node_name = codes "n0" };
}

abbrev machine : Text → Node
machine name = record { name = name; allocatable = (codes "cpu", codes "111") ∷ [] }

abbrev busy : Api
busy = record api { list_pods = λ calls options. inr (worker ∷ worker ∷ []) }

get_node_infos-Informed_example :
    (infos : Dict NodeInfo) × ((get_node_infos
        (lib_with [])
        busy
        (machine (codes "n1") ∷ machine (codes "n0") ∷ [])
        pending).0
      ≡ ok infos)
    × Informed (lib_with []) (worker ∷ worker ∷ []) (machine (codes "n0")) infos
unfolding lookup
get_node_infos-Informed_example =
    get_node_infos-Informed (lib_with []) busy pending (worker ∷ worker ∷ [])
      (machine (codes "n1") ∷ []) (machine (codes "n0")) [] refl (refl, tt) tt

abbrev key : NamespacedName
key = record { namespace = codes "default"; name = codes "cartpole" }

-- Equality of lists of names.
same_names : List Text → List Text → Bool
same_names [] [] = true
same_names [] (_ ∷ _) = false
same_names (_ ∷ _) [] = false
same_names (a ∷ xs) (b ∷ ys) = text_eq a b && same_names xs ys

same_names_refl : (xs : List Text) → same_names xs xs ≡ true
unfolding same_names
same_names_refl [] = refl
same_names_refl (a ∷ xs) = rw (text_eq_refl a, same_names_refl xs) refl

abbrev settled : Api
settled = record busy { allocation_equal = same_names }

allocator-Reads_example :
    (Reads pending (on_job_add (lib_with []) settled pending).1
      × ((on_job_add (lib_with []) settled pending).1.job ≡ pending.job))
    × Reads pending (reconcile (lib_with []) settled (pos 5) 0 key pending).1.1
allocator-Reads_example =
    allocator-Reads (lib_with []) settled (pos 5) 0 key pending same_names_refl
