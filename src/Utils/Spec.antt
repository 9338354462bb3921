-- ===== src/Utils/Spec.antt =====
-- pkg/utils/util.go: ports, labels, annotations and environment of a pod.
pub mod Envs
use di_orchestrator.Base.{
  Bool, true, false, Option, none, some, List, [], ◌∷◌, ◌++◌, ℤ, negsuc, if◌then◌else◌,
}
use di_orchestrator.Text.{Text, text_eq, replace_byte}
use di_orchestrator.Dict.{Dict, insert_all}
use di_orchestrator.Kube.{Pod, Container, ContainerPort, EnvVar}
use di_orchestrator.Job.{
  DiJob, default_container_name, default_port_name, label_job, label_operator, operator_name,
}

-- The first port of that name, in one container.
unfoldable pub default_port_of : List ContainerPort → Option ℤ
default_port_of [] = none
default_port_of (p ∷ ps) =
    if text_eq p.name default_port_name then some p.container_port else default_port_of ps

default_port_in : List Container → ℤ × Bool
default_port_in [] = (negsuc 0, false)
default_port_in (c ∷ cs) =
    let rest = default_port_in cs in
    if text_eq c.name default_container_name
    then (elim (default_port_of c.ports) [ some p ↦ (p, true) | none ↦ rest ])
    else rest

unfoldable pub get_default_port_from_pod : Pod → ℤ × Bool
unfolding default_port_in default_port_of
get_default_port_from_pod pod = default_port_in pod.spec.containers

add_port : ContainerPort → List Container → List Container
add_port port [] = []
add_port port (c ∷ cs) =
    (if text_eq c.name default_container_name then record c { ports = c.ports ++ port ∷ [] } else c)
    ∷ add_port port cs

unfoldable pub add_port_to_pod : Pod → ContainerPort → Pod
unfolding add_port
add_port_to_pod pod port = record pod {
  spec = record pod.spec { containers = add_port port pod.spec.containers };
}

unfoldable pub gen_labels : DiJob → Dict Text
gen_labels job = (label_job, replace_byte b'/' b'-' job.name) ∷ (label_operator, operator_name) ∷ []

unfoldable pub add_labels_to_pod : Pod → Dict Text → Pod
add_labels_to_pod pod labels = record pod { labels = insert_all labels pod.labels }

unfoldable pub add_annotations_to_pod : Pod → Dict Text → Pod
add_annotations_to_pod pod annotations = record pod {
  annotations = insert_all annotations pod.annotations;
}

-- The variables come in the order of the map's list; Go leaves the order of a map open.
env_vars : Dict Text → List EnvVar
env_vars [] = []
env_vars ((k, v) ∷ envs) = record { name = k; value = v } ∷ env_vars envs

add_envs : Dict Text → List Container → List Container
add_envs envs [] = []
add_envs envs (c ∷ cs) = record c { env = c.env ++ env_vars envs } ∷ add_envs envs cs

unfoldable pub add_envs_to_pod : Pod → Dict Text → Pod
unfolding add_envs env_vars
add_envs_to_pod pod envs = record pod {
  spec = record pod.spec { containers = add_envs envs pod.spec.containers };
}

unfoldable pub env_of : Text → List EnvVar → Option Text
env_of name [] = none
env_of name (e ∷ es) = if text_eq e.name name then some e.value else env_of name es

env_in : Text → List Container → Text × Bool
env_in name [] = ([], false)
env_in name (c ∷ cs) =
    let rest = env_in name cs in
    if text_eq c.name default_container_name
    then (elim (env_of name c.env) [ some v ↦ (v, true) | none ↦ rest ])
    else rest

unfoldable pub get_env_from_pod : Pod → Text → Text × Bool
unfolding env_in env_of
get_env_from_pod pod name = env_in name pod.spec.containers
