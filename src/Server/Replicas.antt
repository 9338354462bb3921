-- ===== src/Server/Replicas.antt =====
-- GetReplicas (pkg/server/processor.go) for a job whose pods buildAndCreatePods has built.
use di_orchestrator.Base.{
  ℕ, suc, ◌+◌, ◌<◌, ◌≤◌, ◌≡◌, refl, sym, ap, ◌∙◌, Bool, Bool-cases, true, false, not, ◌&&◌, none,
  some, List, [], ◌∷◌, ◌++◌, inl, inr, Option, ℤ, pos, ◌==◌, All, length, replicate, map, arith,
  if◌then◌else◌,
}
use di_orchestrator.Text.{Text, codes, is_empty, atoi}
use di_orchestrator.Text.Bytes.{IsFree}
use di_orchestrator.Text.Numbers.{atoi-itoa}
use di_orchestrator.Dict.{text_at}
use di_orchestrator.Kube.{Pod, NamespacedName}
use di_orchestrator.Job.{DiJob, Task, annotation_rank}
use di_orchestrator.Machine.{State, ok, Action, Api, Call, logged}
use di_orchestrator.Utils.Spec.{gen_labels}
use di_orchestrator.Pods.Build.{total_replicas}
use di_orchestrator.Pods.Build.Annotations.{IsBuilt}
use di_orchestrator.Pods.Calls.{list_pods, list_job_pods, options_for}
use di_orchestrator.Controller.Replicas.Built.{Stand, Slot, slots, length-slots}
use di_orchestrator.Server.Requests.{url_of, collect_urls, get_request_job, get_replicas}
use di_orchestrator.Server.Responses.{answer, build_response, handle_get}
use di_orchestrator.Server.Ids.{parse_job_id_dotted}
use di_orchestrator.Server.Urls.{
  IsPlaced, address_at, overlay, overlay_none, overlay_later, some_address, collect_urls-addresses,
}

-- The address of a pod, or an empty text for a pod that has none yet.
abbrev pub address_of : Pod → Text
address_of pod = if is_empty pod.status.pod_ip then [] else url_of pod

abbrev pub max_int : ℕ
max_int = 9223372036854775808

module _ (job : DiJob) (allocation : List Text) where
  rank_of_built :
      (rank : ℕ) (task : Task) (i : ℕ) (pod : Pod)
      → IsBuilt job allocation rank task i pod
      → rank < max_int
      → atoi (text_at annotation_rank pod.annotations) ≡ some (pos rank)
  rank_of_built rank task i pod b h = ap atoi b.rank_is ∙ atoi-itoa rank h

  Stand-IsPlaced :
      (rank : ℕ) (ss : List Slot) (pods : List Pod)
      → Stand job allocation rank ss pods
      → rank + length ss ≤ total_replicas job.spec.tasks
      → total_replicas job.spec.tasks < max_int
      → All (IsPlaced (total_replicas job.spec.tasks)) pods
  Stand-IsPlaced rank [] [] h fits small = tt
  Stand-IsPlaced rank [] (_ ∷ _) h fits small = absurd h
  Stand-IsPlaced rank (_ ∷ _) [] h fits small = absurd h
  Stand-IsPlaced rank ((task, i) ∷ ss) (pod ∷ pods) h fits small = (
    inr (
      ap atoi h.0.replicas_is ∙ atoi-itoa (total_replicas job.spec.tasks) small,
      (rank, rank_of_built rank task i pod h.0 (omega arith), omega arith),
    ),
    Stand-IsPlaced (suc rank) ss pods h.1 (omega arith) small,
  )

  -- Pods with larger ranks have no address for this rank.
  address_at_later :
      (r rank : ℕ) (ss : List Slot) (pods : List Pod) (url : Text)
      → Stand job allocation rank ss pods
      → rank + length ss ≤ max_int
      → r < rank
      → address_at pods r url ≡ url
  address_at_later r rank [] [] url h fits lt = refl
  address_at_later r rank [] (_ ∷ _) url h fits lt = absurd h
  address_at_later r rank (_ ∷ _) [] url h fits lt = absurd h
  address_at_later r rank ((task, i) ∷ ss) (pod ∷ pods) url h fits lt =
      rw
        (
          rank_of_built rank task i pod h.0 (omega arith),
          differs,
          never (not (is_empty pod.status.pod_ip)),
        )
        (address_at_later r (suc rank) ss pods url h.1 (omega arith) (omega arith))
    where
      differs : (rank == r) ≡ false
      differs = ground arith

      never : (b : Bool) → (b && false) ≡ false
      never true = refl
      never false = refl

  overlay-Stand :
      (rank : ℕ) (ss : List Slot) (pods : List Pod)
      → Stand job allocation rank ss pods
      → rank + length ss ≤ max_int
      → overlay pods rank (replicate (length ss) []) ≡ map address_of pods
  overlay-Stand rank [] [] h fits = refl
  overlay-Stand rank [] (_ ∷ _) h fits = absurd h
  overlay-Stand rank (_ ∷ _) [] h fits = absurd h
  overlay-Stand rank ((task, i) ∷ ss) (pod ∷ pods) h fits =
      let n = length ss in
      let at = rank_of_built rank task i pod h.0 (omega arith) in
      let later = λ (url : Text).
        address_at_later rank (suc rank) ss pods url h.1 (omega arith) (omega arith) in
      let rest = overlay-Stand (suc rank) ss pods h.1 (omega arith) in
      elim (Bool-cases (is_empty pod.status.pod_ip)) [
        | inl no_ip ↦
            overlay_none pod pods rank (replicate (suc n) []) no_ip
            ∙ (ap (λ u. u ∷ overlay pods (suc rank) (replicate n [])) (later [])
                ∙ (ap (λ l. [] ∷ l) rest ∙ ap (λ u. u ∷ map address_of pods) (sym (rw no_ip refl))))
        | inr has ↦
            ap (λ l. address_at (pod ∷ pods) rank [] ∷ l)
              (overlay_later pod pods rank has at (suc rank) (replicate n []) (omega arith) ∙ rest)
            ∙ ap (λ u. u ∷ map address_of pods) (rw (has, at, same rank) (later (url_of pod)))
      ]
    where
      same : (r : ℕ) → (r == r) ≡ true
      same r = ground arith

-- The addresses of the built pods, in the order of their ranks.
addresses-Stand :
    (on_error : Text → ℤ) (job : DiJob) (allocation : List Text) (pods : List Pod)
    → Stand job allocation 0 (slots job.spec.tasks) pods
    → total_replicas job.spec.tasks < max_int
    → some_address pods ≡ true
    → collect_urls on_error pods none ≡ some (some (map address_of pods))
addresses-Stand on_error job allocation pods stand small some_has =
    let ss = slots job.spec.tasks in
    let n = total_replicas job.spec.tasks in
    let all : length ss ≡ n = length-slots job.spec.tasks in
    collect_urls-addresses on_error n pods
      (Stand-IsPlaced job allocation 0 ss pods stand (omega arith) small)
    ∙ rw some_has (
        ap (λ l. some (some l))
          (ap (λ k. overlay pods 0 (replicate k [])) (sym all)
            ∙ overlay-Stand job allocation 0 ss pods stand (omega arith)))

-- For a job `namespace.name`, where neither part has a dot, whose pods are listed in the order of their
-- ranks, each as it was built but for its status, fewer than 2^63 and one at least with an address:
-- GetReplicas reads the job, lists its pods and returns their addresses in the order of their ranks,
-- with an empty text for a pod that has none yet.
pub get_replicas-Stand :
    (api : Api) (on_error : Text → ℤ) (namespace name : Text) (s : State) (job : DiJob)
    (allocation : List Text) (pods : List Pod)
    → IsFree b'.' namespace
    → IsFree b'.' name
    → let read = logged (Call.get_job (record { namespace = namespace; name = name })) s in
      api.get_job s.calls (record { namespace = namespace; name = name }) ≡ inr job
      → api.selector_error (gen_labels job) ≡ none
      → api.list_pods read.calls (options_for job) ≡ inr pods
      → Stand job allocation 0 (slots job.spec.tasks) pods
      → total_replicas job.spec.tasks < max_int
      → some_address pods ≡ true
      → get_replicas api on_error (namespace ++ b'.' ∷ name) s ≡ (
        ok (some (map address_of pods)),
        logged (Call.list_pods (options_for job)) (record read { job = job }),
      )
unfolding get_replicas get_request_job list_job_pods list_pods
get_replicas-Stand api on_error namespace name s job allocation pods free free' found valid listed
      stand small some_has =
    rw
      (
        parse_job_id_dotted namespace name free free',
        found,
        valid,
        listed,
        addresses-Stand on_error job allocation pods stand small some_has,
      )
      refl

-- An operation that returned a list is answered with it.
answer-ok :
    (api : Api) (msg : Text) (operation : Action (Option (List Text))) (s t : State)
    (urls : List Text)
    → operation s ≡ (ok (some urls), t)
    → (answer api msg operation s).0
      ≡ ok (record { success = true; code = 0; message = msg; reps = some urls }, 200)
unfolding answer build_response
answer-ok api msg operation s t urls e = rw e refl

-- The handler of a GET request for the replicas of the job `namespace.name` (neither part with a dot),
-- if the cluster finds the job, its labels make a selector, and its pods are listed in the order of
-- their ranks, marked as they were built, fewer than 2^63 and one at least with an address: it answers
-- with status 200, success and the addresses in the order of the ranks, an empty text standing for a pod
-- that has none yet.
pub handle_get-Stand :
    (api : Api) (on_error : Text → ℤ) (namespace name : Text) (s : State) (job : DiJob)
    (allocation : List Text) (pods : List Pod)
    → IsFree b'.' namespace
    → IsFree b'.' name
    → let key : NamespacedName = record { namespace = namespace; name = name } in
      api.get_job s.calls key ≡ inr job
      → api.selector_error (gen_labels job) ≡ none
      → api.list_pods (logged (Call.get_job key) s).calls (options_for job) ≡ inr pods
      → Stand job allocation 0 (slots job.spec.tasks) pods
      → total_replicas job.spec.tasks < max_int
      → some_address pods ≡ true
      → (handle_get api on_error (namespace ++ b'.' ∷ name) s).0
        ≡ ok (
          record {
            success = true;
            code = 0;
            message = codes "successfully get replicas";
            reps = some (map address_of pods);
          },
          200,
        )
unfolding handle_get
handle_get-Stand api on_error namespace name s job allocation pods free free' found valid listed
      stand small some_has =
    answer-ok api (codes "successfully get replicas")
      (get_replicas api on_error (namespace ++ b'.' ∷ name)) s _ (map address_of pods)
      (get_replicas-Stand api on_error namespace name s job allocation pods free free' found valid
        listed stand small some_has)
