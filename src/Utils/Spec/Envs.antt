-- ===== src/Utils/Spec/Envs.antt =====
-- pkg/utils/util.go: GetEnvFromPod reads what AddEnvsToPod has added.
use di_orchestrator.Base.{
  ◌≡◌, refl, ap, ◌∙◌, true, Bool-cases, inl, inr, Option, none, some, List, [], ◌∷◌, ◌++◌,
  if◌then◌else◌,
}
use di_orchestrator.Text.{Text, text_eq}
use di_orchestrator.Dict.{Dict, lookup}
use di_orchestrator.Kube.{Pod, Container, EnvVar}
use di_orchestrator.Job.{default_container_name}
use di_orchestrator.Utils.Spec.{
  env_vars, add_envs, add_envs_to_pod, env_of, env_in, get_env_from_pod,
}

env_of-append :
    (name : Text) (xs ys : List EnvVar)
    → env_of name xs ≡ none
    → env_of name (xs ++ ys) ≡ env_of name ys
unfolding env_of
env_of-append name [] ys e = refl
env_of-append name (x ∷ xs) ys e = elim (Bool-cases (text_eq x.name name)) [
  | inl here ↦ cc (rw here at e)
  | inr other ↦ rw other (env_of-append name xs ys (rw other at e))
]

env_of-env_vars : (name : Text) (envs : Dict Text) → env_of name (env_vars envs) ≡ lookup name envs
unfolding env_of env_vars lookup
env_of-env_vars name [] = refl
env_of-env_vars name ((k, v) ∷ envs) = elim (Bool-cases (text_eq k name)) [
  | inl here ↦ rw here refl
  | inr other ↦ rw other (env_of-env_vars name envs)
]

-- The environment of the first container with the default name.
abbrev pub default_env : List Container → Option (List EnvVar)
default_env [] = none
default_env (c ∷ cs) =
    let rest = default_env cs in if text_eq c.name default_container_name then some c.env else rest

-- There is such a container, and it does not have the variable.
abbrev pub IsUnset : Text → List Container → Type 0
IsUnset name cs = (env : List EnvVar) × (default_env cs ≡ some env) × (env_of name env ≡ none)

env_in-add_envs :
    (name v : Text) (envs : Dict Text) (cs : List Container)
    → IsUnset name cs
    → lookup name envs ≡ some v
    → env_in name (add_envs envs cs) ≡ (v, true)
unfolding env_in add_envs
env_in-add_envs name v envs [] (env, found, unset) e = cc
env_in-add_envs name v envs (c ∷ cs) (env, found, unset) e =
    elim (Bool-cases (text_eq c.name default_container_name)) [
      | inl here ↦
          rw
            (
              here,
              env_of-append name c.env (env_vars envs)
                  (ap (env_of name) (some-inj (rw here at found)) ∙ unset),
              env_of-env_vars name envs,
              e,
            )
            refl
      | inr other ↦ rw other (env_in-add_envs name v envs cs (env, (rw other at found), unset) e)
    ]
  where
    some-inj : {a b : List EnvVar} → some a ≡ some b → a ≡ b
    some-inj h = cc

pub get_env_from_pod-added :
    (name v : Text) (envs : Dict Text) (bare pod : Pod)
    → pod.spec.containers ≡ (add_envs_to_pod bare envs).spec.containers
    → IsUnset name bare.spec.containers
    → lookup name envs ≡ some v
    → get_env_from_pod pod name ≡ (v, true)
unfolding get_env_from_pod add_envs_to_pod
get_env_from_pod-added name v envs bare pod same unset e =
    ap (env_in name) same ∙ env_in-add_envs name v envs bare.spec.containers unset e
