-- ===== src/Allocator/Jobs/Defaults.antt =====
-- What the default resources do to getJobInfo.
use di_orchestrator.Base.{
  pos, ◌≡◌, refl, subst, true, false, ◌⊎◌, inl, inr, Option, none, some, List, [], ◌∷◌,
}
use di_orchestrator.Text.{Text, codes, is_empty}
use di_orchestrator.Dict.{Dict, lookup, get_or}
use di_orchestrator.Kube.{Quantity, Resources, ResourceRequirements}
use di_orchestrator.Job.{DiJob, Task}
use di_orchestrator.Machine.{State, Result, ok, err, panic, Action, after, after-panic, pure}
use di_orchestrator.Controller.Replicas.{or_crash}
use di_orchestrator.Allocator.Resources.{
  Library, Requirements, set_request, set_limit, resource_cpu, resource_memory, resource_gpu,
  get_dijob_default_resources, get_pod_resources,
}
use di_orchestrator.Allocator.Jobs.{
  JobInfo, Write, set_pointed, copy_resources, add_task, add_tasks, request_gpu, or_zero,
  get_job_resources, get_job_info,
}

ok-inj : {a b : Requirements} → ok a ≡ ok b → b ≡ a
ok-inj e = cc

-- A property of requirements that the writes keep, and what holds where a write panics.
module _ (P : Requirements → Type 0) (Bad : Type 0) where
  -- The action panics, or returns requirements with the property.
  abbrev Holds : Result Requirements → Type 0
  Holds r = ((r ≡ panic) × Bad) ⊎ ((res : Requirements) × (r ≡ ok res) × P res)

  -- A write that keeps the property, unless it panics.
  abbrev IsKept : Write → Type 0
  IsKept write =
      (name : Text) (q : Quantity) (res : Requirements)
      → P res
      → (s : State) → Holds (or_crash (write name q res) s).0

  bind-Holds :
      (m : Result Requirements × State) (k : Requirements → Action Requirements)
      → Holds m.0
      → ((res : Requirements) → P res → (s : State) → Holds (k res s).0)
      → Holds (after m k).0
  bind-Holds (ok a, t) k (inl (e, b)) next = cc
  bind-Holds (ok a, t) k (inr (res, e, p)) next = next a (subst P (ok-inj e) p) t
  bind-Holds (err x, t) k (inl (e, b)) next = cc
  bind-Holds (err x, t) k (inr (res, e, p)) next = cc
  bind-Holds (panic, t) k (inl (e, b)) next = inl (refl, b)
  bind-Holds (panic, t) k (inr (res, e, p)) next = cc

  set_pointed-Holds :
      (write : Write)
      → IsKept write
      → (name : Text) (o : Option Quantity) (res : Requirements) → P res
      → (s : State) → Holds (set_pointed write name o res s).0
  unfolding set_pointed
  set_pointed-Holds write kept name none res p s = inr (res, refl, p)
  set_pointed-Holds write kept name (some q) res p s = kept name q res p s

  copy_resources-Holds :
      (lib : Library) (write : Write)
      → IsKept write
      → (from : Resources) (res : Requirements) → P res
      → (s : State) → Holds (copy_resources lib write from res s).0
  unfolding copy_resources
  copy_resources-Holds lib write kept from res p s =
      bind-Holds (set_pointed write resource_cpu (lib.cpu from) res s) _
        (set_pointed-Holds write kept _ _ res p s)
        (λ a pa t.
          bind-Holds (set_pointed write resource_memory (lib.memory from) a t) _
            (set_pointed-Holds write kept _ _ a pa t)
            (λ b pb u. kept resource_gpu (get_or resource_gpu from lib.zero) b pb u))

  add_tasks-Holds :
      (lib : Library)
      → IsKept set_request
      → IsKept set_limit
      → (tasks : List Task) (res : Requirements) → P res
      → (s : State) → Holds (add_tasks lib tasks res s).0
  unfolding add_tasks add_task
  add_tasks-Holds lib asked limited [] res p s = inr (res, refl, p)
  add_tasks-Holds lib asked limited (task ∷ tasks) res p s =
      let r = get_pod_resources task.template in
      bind-Holds (add_task lib r res s) (λ next. add_tasks lib tasks next) (one r.requests r.limits)
        (λ next q t. add_tasks-Holds lib asked limited tasks next q t)
    where
      limited_by : Option Resources → Action Requirements
      limited_by o = elim o [ some m ↦ copy_resources lib set_limit m res | none ↦ pure res ]

      asked_for : Option Resources → Option Resources → Action Requirements
      asked_for requests limits = elim requests [
        | some m ↦ copy_resources lib set_request m res
        | none ↦ limited_by limits
      ]

      one : (requests limits : Option Resources) → Holds (asked_for requests limits s).0
      one (some m) limits = copy_resources-Holds lib set_request asked m res p s
      one none (some m) = copy_resources-Holds lib set_limit limited m res p s
      one none none = inr (res, refl, p)

-- No map for the requests.
abbrev Unasked : Requirements → Type 0
Unasked res = (limits : Option Resources) × (res ≡ Requirements.separate none limits)

-- One map for both.
abbrev pub IsShared : Requirements → Type 0
IsShared res = (m : Resources) × (res ≡ Requirements.shared m)

set_request-Unasked : IsKept Unasked Unit set_request
unfolding set_request
set_request-Unasked name q res (limits, e) s = rw e (inl (refl, tt))

set_limit-Unasked : IsKept Unasked Unit set_limit
unfolding set_limit
set_limit-Unasked name q res (none, e) s = rw e (inl (refl, tt))
set_limit-Unasked name q res (some m, e) s = rw e (inr (_, refl, (_, refl)))

set_request-IsShared : IsKept IsShared ⊥ set_request
unfolding set_request
set_request-IsShared name q res (m, e) s = rw e (inr (_, refl, (_, refl)))

set_limit-IsShared : IsKept IsShared ⊥ set_limit
unfolding set_limit
set_limit-IsShared name q res (m, e) s = rw e (inr (_, refl, (_, refl)))

request_gpu-Unasked :
    (lib : Library) (res : Requirements)
    → Unasked res
    → (s : State) → (request_gpu lib res s).0 ≡ panic
unfolding request_gpu set_request
request_gpu-Unasked lib res (limits, e) s = rw e refl

request_gpu-IsShared :
    (lib : Library) (res : Requirements)
    → IsShared res
    → (s : State) → Holds IsShared ⊥ (request_gpu lib res s).0
unfolding request_gpu set_request
request_gpu-IsShared lib res (m, e) s = rw e (go (lookup resource_gpu m))
  where
    given : Requirements
    given = Requirements.shared m

    asked : Action Requirements
    asked = or_crash (set_request resource_gpu (or_zero lib (lookup resource_gpu m)) given)

    run : Option Quantity → Action Requirements
    run o = elim o [ some _ ↦ pure given | none ↦ asked ]

    go : (o : Option Quantity) → Holds IsShared ⊥ (run o s).0
    go (some q) = inr (given, refl, (m, refl))
    go none = inr (_, refl, (_, refl))

then-panic :
    {P : Requirements → Type 0} {Bad : Type 0} (out : Result Requirements × State)
    (k : Requirements → Action Requirements)
    → Holds P Bad out.0
    → ((res : Requirements) → P res → (s : State) → (k res s).0 ≡ panic)
    → (after out k).0 ≡ panic
then-panic {P = P} (ok a, t) k (inr (res, e, p)) next = next a (subst P (ok-inj e) p) t
then-panic (ok a, t) k (inl (e, b)) next = cc
then-panic (err x, t) k (inl (e, b)) next = cc
then-panic (err x, t) k (inr (res, e, p)) next = cc
then-panic (panic, t) k h next = refl

-- If DI_JOB_DEFAULT_RESOURCES is set and the resources that it names have no requests, getJobInfo
-- panics, for every job.
pub get_job_info-panics :
    (lib : Library) (job : DiJob) (s : State) (m : Dict ResourceRequirements)
    (r : ResourceRequirements)
    → is_empty lib.default_resources ≡ false
    → lib.unmarshal lib.default_resources ≡ inr m
    → lookup (codes "resources") m ≡ some r
    → r.requests ≡ none
    → (get_job_info lib job s).0 ≡ panic
unfolding get_job_info get_job_resources get_dijob_default_resources
get_job_info-panics lib job s m r given parsed found unasked =
    rw (given, parsed, found, unasked)
      (after-panic _ _ (
        then-panic _ _
          (add_tasks-Holds Unasked Unit lib set_request-Unasked set_limit-Unasked job.spec.tasks
            (Requirements.separate none r.limits) (r.limits, refl) s)
          (λ res p t. request_gpu-Unasked lib res p t)))

-- If DI_JOB_DEFAULT_RESOURCES is not set, getJobInfo returns no error and does not panic, and the
-- requests and the limits that it returns are one map.
pub get_job_info-IsShared :
    (lib : Library) (job : DiJob) (s : State)
    → is_empty lib.default_resources ≡ true
    → (info : JobInfo) × ((get_job_info lib job s).0 ≡ ok info) × IsShared info.resources
unfolding get_job_info get_job_resources get_dijob_default_resources
get_job_info-IsShared lib job s unset = rw unset (
    finish _ (
      bind-Holds IsShared ⊥ (add_tasks lib job.spec.tasks (Requirements.shared _) s)
        (request_gpu lib)
        (add_tasks-Holds IsShared ⊥ lib set_request-IsShared set_limit-IsShared job.spec.tasks
          (Requirements.shared _) (_, refl) s)
        (λ res p t. request_gpu-IsShared lib res p t)))
  where
    info_of : Requirements → JobInfo
    info_of res = record {
      key = record { namespace = job.namespace; name = job.name };
      resources = res;
      min_replicas = pos 1;
      max_replicas = pos 1;
      preemptible = job.spec.preemptible;
    }

    finish :
        (out : Result Requirements × State)
        → Holds IsShared ⊥ out.0
        → (info : JobInfo) × ((after out (λ res. pure (info_of res))).0 ≡ ok info)
          × IsShared info.resources
    finish out (inl (e, b)) = absurd b
    finish (ok a, t) (inr (res, e, p)) = (info_of a, refl, subst IsShared (ok-inj e) p)
    finish (err x, t) (inr (res, e, p)) = cc
    finish (panic, t) (inr (res, e, p)) = cc
