-- ===== src/Server/Requests.antt =====
-- pkg/server/processor.go and utils.go: the operations on the job that a request names.
use di_orchestrator.Base.{
  Bool, true, false, not, Option, none, some, List, [], ◌∷◌, ◌++◌, ◌⊎◌, inl, inr, ℤ, pos, negsuc,
  ◌+ℤ◌, ◌-ℤ◌, int32, leb, length, set, replicate, if◌then◌else◌,
}
use di_orchestrator.Text.{Text, codes, is_empty, split, atoi, itoa_ℤ}
use di_orchestrator.Dict.{text_at}
use di_orchestrator.Kube.{Pod, NamespacedName}
use di_orchestrator.Job.{DiJob, annotation_replicas, annotation_rank, default_port}
use di_orchestrator.Machine.{
  Error, failure, di, bad_request, not_found, Action, Api, pure, throw, get, attempt, modify_job,
  ◌>>=◌, ◌>>◌,
}
use di_orchestrator.Utils.Spec.{get_default_port_from_pod}
use di_orchestrator.Status.{with_status}
use di_orchestrator.Status.Cluster.{
  get_job, update_allocation_in_cluster, update_profilings_in_cluster,
}
use di_orchestrator.Pods.Calls.{list_job_pods}
use di_orchestrator.Controller.Replicas.{or_crash}

abbrev pub not_a_job_id : Text → Error
not_a_job_id id = failure (codes "job id " ++ id ++ codes " must be in namespace.name format")

abbrev pub two_items : Text → List Text → Error ⊎ NamespacedName
two_items id (namespace ∷ name ∷ []) = inr (record { namespace = namespace; name = name })
two_items id [] = inl (not_a_job_id id)
two_items id (_ ∷ []) = inl (not_a_job_id id)
two_items id (_ ∷ _ ∷ _ ∷ _) = inl (not_a_job_id id)

-- parseJobID
unfoldable pub parse_job_id : Text → Error ⊎ NamespacedName
parse_job_id id = two_items id (split b'.' id)

-- An error of a library as a DIError.
abbrev pub bad_request_if_error : {A : Type 0} → Error ⊎ A → Action A
bad_request_if_error (inl e) = throw (di bad_request e)
bad_request_if_error (inr a) = pure a

-- getRequestJob: the job that was read is the one that the handler works on.
unfoldable pub get_request_job : Api → Text → Action DiJob
get_request_job api id = do
  key ← bad_request_if_error (parse_job_id id)
  r ← attempt (get_job api key)
  elim r [
    | inl e ↦ if api.is_not_found e then throw (di not_found e) else throw e
    | inr job ↦ (do modify_job (λ _. job); pure job)
  ]

-- The number that Atoi returns: with an error it is the library's choice, `on_error`.
abbrev pub number_of : (Text → ℤ) → Text → ℤ
number_of on_error t = elim (atoi t) [ some n ↦ n | none ↦ on_error t ]

-- `make([]string, n)`; `none` is a panic.
abbrev pub make_urls : ℤ → Option (List Text)
make_urls (pos n) = some (replicate n [])
make_urls (negsuc _) = none

-- `urls[rank] = url`
abbrev pub set_url : List Text → ℤ → Text → Option (List Text)
set_url urls (pos rank) url = if leb (length urls) rank then none else some (set urls rank url)
set_url urls (negsuc _) url = none

abbrev pub allocated_urls : Option (List Text) → ℤ → Option (List Text)
allocated_urls none replicas = make_urls replicas
allocated_urls (some urls) replicas = some urls

abbrev port_of : ℤ × Bool → ℤ
port_of (port, true) = port
port_of (port, false) = default_port

abbrev pub url_of : Pod → Text
url_of pod = pod.status.pod_ip ++ b':' ∷ itoa_ℤ (port_of (get_default_port_from_pod pod))

abbrev pub place : Option (List Text) → ℤ → Text → Option (List Text)
place none rank url = none
place (some urls) rank url = set_url urls rank url

-- One round of the loop over the pods; `urls` is `none` while it is nil.
unfoldable pub put_url : (Text → ℤ) → Pod → Option (List Text) → Option (List Text)
put_url on_error pod urls =
    place (allocated_urls urls (number_of on_error (text_at annotation_replicas pod.annotations)))
      (number_of on_error (text_at annotation_rank pod.annotations)) (url_of pod)

abbrev pub unless_panic :
    Option (List Text) → (List Text → Option (Option (List Text))) → Option (Option (List Text))
unless_panic none k = none
unless_panic (some urls) k = k urls

-- The loop of getNamespacedReplicas: `none` is a panic, and then nil or the list.
unfoldable pub collect_urls :
    (Text → ℤ) → List Pod → Option (List Text) → Option (Option (List Text))
unfolding put_url
collect_urls on_error [] urls = some urls
collect_urls on_error (pod ∷ pods) urls =
    let skipped = collect_urls on_error pods urls in
    let placed =
      unless_panic (put_url on_error pod urls) (λ all. collect_urls on_error pods (some all)) in
    if is_empty pod.status.pod_ip then skipped else placed

-- GetReplicas
unfoldable pub get_replicas : Api → (Text → ℤ) → Text → Action (Option (List Text))
unfolding get_request_job
get_replicas api on_error id = do
  get_request_job api id
  pods ← list_job_pods api
  or_crash (collect_urls on_error pods none)

-- What AddReplicas and DeleteReplicas have in common once the job and the number are known.
abbrev pub change_replicas : Api → (ℤ → ℤ) → DiJob → Action (Unit {0})
change_replicas api change job =
    if not job.spec.preemptible
    then (do
      modify_job (with_status (λ st. record st { replicas = int32 (change st.replicas) }))
      s ← get
      update_allocation_in_cluster api job s.job)
    else pure tt

-- AddReplicas
unfoldable pub add_replicas : Api → Text → Error ⊎ ℤ → Action (Option (List Text))
unfolding get_request_job
add_replicas api id request = do
  job ← get_request_job api id
  replicas ← bad_request_if_error request
  change_replicas api (λ n. n +ℤ int32 replicas) job
  pure none

-- DeleteReplicas: every error of getRequestJob is a bad request here.
unfoldable pub delete_replicas : Api → Text → Error ⊎ ℤ → Action (Option (List Text))
unfolding get_request_job
delete_replicas api id request = do
  r ← attempt (get_request_job api id)
  job ← bad_request_if_error r
  replicas ← bad_request_if_error request
  change_replicas api (λ n. n -ℤ int32 replicas) job
  pure none

-- PostProfilings
unfoldable pub post_profilings : Api → Text → Error ⊎ Unit {0} → Action (Option (List Text))
unfolding get_request_job
post_profilings api id request = do
  r ← attempt (get_request_job api id)
  job ← bad_request_if_error r
  bad_request_if_error request
  update_profilings_in_cluster api job job
  pure none
