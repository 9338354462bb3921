-- ===== src/Utils/Names.antt =====
-- pkg/utils/util.go: the names of jobs, pods and hosts.
use di_orchestrator.Base.{ℕ, List, [], ◌∷◌, ◌++◌, ◌⊎◌, inl, inr}
use di_orchestrator.Text.{Text, codes, split, itoa}
use di_orchestrator.Kube.{NamespacedName}
use di_orchestrator.Machine.{Error, failure}

unfoldable pub namespaced_name : Text → Text → Text
namespaced_name namespace name = namespace ++ b'/' ∷ name

abbrev pub pair_of : Text → List Text → Error ⊎ NamespacedName
pair_of whole (namespace ∷ name ∷ []) = inr (record { namespace = namespace; name = name })
pair_of whole [] = inl (failure (codes "invalid namespace/name " ++ whole))
pair_of whole (_ ∷ []) = inl (failure (codes "invalid namespace/name " ++ whole))
pair_of whole (_ ∷ _ ∷ _ ∷ _) = inl (failure (codes "invalid namespace/name " ++ whole))

unfoldable pub split_namespace_name : Text → Error ⊎ NamespacedName
split_namespace_name whole = pair_of whole (split b'/' whole)

unfoldable pub replica_name : Text → Text → ℕ → Text
replica_name job_name task_name rank = job_name ++ b'-' ∷ task_name ++ b'-' ∷ itoa rank

unfoldable pub pod_fqdn : Text → Text → Text → Text → Text
pod_fqdn name subdomain namespace domain =
    name ++ b'.' ∷ subdomain ++ b'.' ∷ namespace ++ b'.' ∷ domain

-- GenerateName: the random text is that of the library, of the length that is asked for.
unfoldable pub generate_name : (ℕ → Text) → Text → Text
generate_name random name = name ++ b'-' ∷ random 5
