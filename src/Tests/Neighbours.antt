-- ===== src/Tests/Neighbours.antt =====
-- The theorem about what pods know of each other, at a concrete job.
use di_orchestrator.Base.{ℕ, ◌≡◌, refl, true, false, none, some, List, [], ◌∷◌, map}
use di_orchestrator.Text.{Text, codes, join, itoa, text_eq}
use di_orchestrator.Kube.{Pod}
use di_orchestrator.Job.{DiJob, Phase}
use di_orchestrator.Utils.Spec.{get_env_from_pod, env_of}
use di_orchestrator.Pods.Build.{build_pod, node_for, pod_on}
use di_orchestrator.Pods.Build.Addresses.{address, Untold}
use di_orchestrator.Controller.Replicas.{build_task, build_pods}
use di_orchestrator.Controller.Replicas.Neighbours.{build_pods-told}
use di_orchestrator.Tests.{settings, job_in, task}

abbrev pub free : DiJob
free = job_in false Phase.pending []

abbrev pub learner : Pod
learner = pod_on settings free 2 none (task 1 (codes "learner")) 0

abbrev pub built : List Pod
built =
    pod_on settings free 0 none (task 2 (codes "collector")) 0
    ∷ pod_on settings free 1 none (task 2 (codes "collector")) 1
    ∷ learner
    ∷ []

pub three_built : build_pods settings free [] 0 0 free.spec.tasks ≡ some built
unfolding build_pods build_task build_pod node_for
three_built = refl

untold : (n : ℕ) (type : Text) → Untold (task n type)
unfolding text_eq env_of
untold n type = (([], refl, refl), ([], refl, refl))

build_pods-told_example :
    (get_env_from_pod learner (codes "DI_RANK") ≡ (itoa 2, true))
    × (get_env_from_pod learner (codes "DI_NODES")
        ≡ (join (codes ",") (map (address settings) built), true))
build_pods-told_example =
    build_pods-told settings free [] built 2 learner
      (untold 2 (codes "collector"), (untold 1 (codes "learner"), tt)) three_built refl
