-- ===== src/Tests/Requests.antt =====
-- The theorems about pkg/server, at concrete requests.
use di_orchestrator.Base.{
  ◌≡◌, ◌≢◌, ◌↔◌, refl, true, false, Option, none, some, List, [], ◌∷◌, inr, pos, ℕ, arith, All,
}
use di_orchestrator.Text.{Text, codes, split, split_from, atoi, parse_digits, text_eq}
use di_orchestrator.Dict.{lookup}
use di_orchestrator.Kube.{Pod, PodPhase}
use di_orchestrator.Job.{DiJob, Phase, annotation_replicas, annotation_rank}
use di_orchestrator.Machine.{State, Api, Action, ok, panic}
use di_orchestrator.Machine.Log.{written_statuses}
use di_orchestrator.Status.Cluster.{update_allocation_in_cluster}
use di_orchestrator.Utils.Names.{namespaced_name, split_namespace_name}
use di_orchestrator.Server.Requests.{
  parse_job_id, get_request_job, collect_urls, add_replicas, delete_replicas,
}
use di_orchestrator.Server.Responses.{Response, answer}
use di_orchestrator.Server.Laws.{replicas-unwritten}
use di_orchestrator.Server.Urls.{IsPlaced, addresses, collect_urls-addresses}
use di_orchestrator.Server.Ids.{split_namespace_name-namespaced_name}
use di_orchestrator.Server.Answers.{IsOk, answer-IsOk}
use di_orchestrator.Tests.{api, job_in, state_of, pod_in}

split_namespace_name-namespaced_name_example :
    split_namespace_name (namespaced_name (codes "ns") (codes "job"))
    ≡ inr (record { namespace = codes "ns"; name = codes "job" })
split_namespace_name-namespaced_name_example =
    split_namespace_name-namespaced_name (codes "ns") (codes "job") (refl, (refl, tt))
      (refl, (refl, (refl, tt)))

abbrev exact_api : Api
exact_api = record api { allocation_equal = λ a b. true }

abbrev found_job : DiJob
found_job = job_in false Phase.pending []

abbrev start : State
start = state_of (job_in true Phase.running [])

job_found : (get_request_job exact_api (codes "ns.job") start).0 ≡ ok found_job
unfolding get_request_job parse_job_id split split_from
job_found = refl

replicas-unwritten_example :
    let added = add_replicas exact_api (codes "ns.job") (inr (pos 2)) start in
    let deleted = delete_replicas exact_api (codes "ns.job") (inr (pos 2)) start in
    ((added.0 ≡ ok none) × (written_statuses added.1.calls ≡ []))
    × ((deleted.0 ≡ ok none) × (written_statuses deleted.1.calls ≡ []))
replicas-unwritten_example =
    replicas-unwritten exact_api (codes "ns.job") (pos 2) start found_job (λ a. refl) job_found

abbrev addressed : Pod
addressed =
    let pod = pod_in PodPhase.running (codes "a") (codes "collector") in
    record pod {
      annotations = (annotation_replicas, codes "2") ∷ (annotation_rank, codes "1") ∷ [];
      status = record pod.status { pod_ip = codes "10.0.0.7" };
    }

addressed-IsPlaced : All (IsPlaced 2) (addressed ∷ [])
unfolding atoi parse_digits lookup text_eq
addressed-IsPlaced = (inr (refl, (1, refl, omega arith)), tt)

collect_urls-addresses_example :
    collect_urls (λ t. pos 0) (addressed ∷ []) none ≡ some (addresses 2 (addressed ∷ []))
collect_urls-addresses_example =
    collect_urls-addresses (λ t. pos 0) 2 (addressed ∷ []) addressed-IsPlaced

abbrev adding : Action (Option (List Text))
adding = add_replicas exact_api (codes "ns.job") (inr (pos 2))

adding_ends : (adding start).0 ≢ panic
unfolding add_replicas get_request_job parse_job_id split split_from update_allocation_in_cluster
adding_ends e = cc e

answer-IsOk_example :
    (rep : Response) × (status : ℕ) × ((answer exact_api
        (codes "successfully add replicas")
        adding
        start).0
      ≡ ok (rep, status))
    × ((status ≡ 200) ↔ IsOk (adding start).0)
    × ((rep.success ≡ true) ↔ IsOk (adding start).0)
    × ((rep.code ≡ 0) ↔ IsOk (adding start).0)
answer-IsOk_example =
    answer-IsOk exact_api (codes "successfully add replicas") adding start adding_ends
