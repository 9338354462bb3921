-- ===== src/Pods/CleanUp/Policies.antt =====
-- Which pods DeletePodsAndServices removes (pkg/context/pod.go), for each policy, in terms of the pods.
use di_orchestrator.Base.{
  ◌≡◌, ◌≢◌, ◌↔◌, ◌⊎◌, refl, ap, Bool, true, false, not, ◌&&◌, ◌||◌, Bool-cases, Option-cases,
  Option, none, some, ℤ, inl, inr, List, [], ◌∷◌, filter, All, arith, if◌then◌else◌,
}
use di_orchestrator.Text.{Text, codes, text_eq_iff}
use di_orchestrator.Kube.{Pod, PodPhase, pod_phase_eq, ContainerStatus}
use di_orchestrator.Job.{CleanPodPolicy}
use di_orchestrator.Utils.Pods.{is_pod_terminating}
use di_orchestrator.Pods.CleanUp.{has_ended, is_looping, any_ended, is_active, needs_delete, cleans}

-- The container has ended, or waits to be started again after a crash.
abbrev IsOver : ContainerStatus → Type 0
IsOver c = (c.terminated ≢ none) ⊎ (c.waiting ≡ some (codes "CrashLoopBackOff"))

-- The pods that a policy gives up, of those that are not being removed yet: under All every pod, under
-- Running those that run or wait and have no container that is over, under another policy none.
abbrev pub IsGivenUp : CleanPodPolicy → Pod → Type 0
IsGivenUp CleanPodPolicy.all pod = pod.deletion_timestamp ≡ none
IsGivenUp CleanPodPolicy.running pod =
    (pod.deletion_timestamp ≡ none)
    × ((pod.status.phase ≡ PodPhase.running) ⊎ (pod.status.phase ≡ PodPhase.pending))
    × All (λ c. IsOver c → ⊥) pod.status.container_statuses
IsGivenUp _ pod = ⊥

-- The elements that meet the predicate, in order, and no other.
pub data Picked (P : Pod → Type 0) : List Pod → List Pod → Type 0 where
  done : Picked P [] []
  pick : {x : Pod} {xs ys : List Pod} → P x → Picked P xs ys → Picked P (x ∷ xs) (x ∷ ys)
  skip : {x : Pod} {xs ys : List Pod} → (P x → ⊥) → Picked P xs ys → Picked P (x ∷ xs) ys

is_some_iff : (o : Option ℤ) → (has_ended o ≡ false) ↔ (o ≡ none)
is_some_iff none = (λ h. refl, λ h. refl)
is_some_iff (some t) = (λ h. cc, λ h. cc)

is_looping_iff : (o : Option Text) → (is_looping o ≡ true) ↔ (o ≡ some (codes "CrashLoopBackOff"))
is_looping_iff none = (λ h. cc, λ h. cc)
is_looping_iff (some reason) =
    let same = text_eq_iff reason (codes "CrashLoopBackOff") in
    (λ h. ap some (same.0 h), λ h. same.1 (some-inj h))
  where
    some-inj : {x y : Text} → some x ≡ some y → x ≡ y
    some-inj h = cc

none_over :
    (c : ContainerStatus)
    → has_ended c.terminated ≡ false
    → is_looping c.waiting ≡ false
    → IsOver c
    → ⊥
none_over c h k (inl ended) = ended ((is_some_iff c.terminated).0 h)
none_over c h k (inr looping) = let e = (is_looping_iff c.waiting).1 looping in cc

or_false : (a b c : Bool) → (a || b || c ≡ false) ↔ ((a ≡ false) × (b ≡ false) × (c ≡ false))
or_false true b c = (λ h. cc, λ h. cc h.0)
or_false false true c = (λ h. cc, λ h. cc h.1)
or_false false false c = (λ h. (refl, refl, h), λ h. h.2)

not_true : (b : Bool) → ((b ≡ true) → ⊥) → b ≡ false
not_true true h = absurd (h refl)
not_true false h = refl

any_ended-IsOver : (cs : List ContainerStatus) → (any_ended cs ≡ false) ↔ All (λ c. IsOver c → ⊥) cs
unfolding any_ended
any_ended-IsOver [] = (λ h. tt, λ h. refl)
any_ended-IsOver (c ∷ cs) =
    let parts = or_false (has_ended c.terminated) (is_looping c.waiting) (any_ended cs) in
    let rest = any_ended-IsOver cs in
    (
      λ h. let p = parts.0 h in (none_over c p.0 p.1, rest.0 p.2),
      λ h. parts.1 (
        not_true (has_ended c.terminated)
            (λ e. h.0 (inl (λ n. absurd (clash e ((is_some_iff c.terminated).1 n))))),
        not_true (is_looping c.waiting) (λ e. h.0 (inr ((is_looping_iff c.waiting).0 e))),
        rest.1 h.1,
      ),
    )
  where
    clash : {b : Bool} → b ≡ true → b ≡ false → ⊥
    clash e f = cc

terminating_iff : (pod : Pod) → (is_pod_terminating pod ≡ false) ↔ (pod.deletion_timestamp ≡ none)
unfolding is_pod_terminating
terminating_iff pod = elim (Option-cases pod.deletion_timestamp) [
  | inl e ↦ rw e (λ h. refl, λ h. refl)
  | inr (t, e) ↦ rw e (λ h. cc, λ h. cc)
]

active_iff :
    (p : PodPhase)
    → (pod_phase_eq p PodPhase.running || pod_phase_eq p PodPhase.pending ≡ true)
      ↔ ((p ≡ PodPhase.running) ⊎ (p ≡ PodPhase.pending))
active_iff p = (λ h. ground arith, λ h. ground arith)

and_true : (a b c : Bool) → (a && not b && not c ≡ true) ↔ ((a ≡ true) × (b ≡ false) × (c ≡ false))
and_true false b c = (λ h. cc, λ h. cc h.0)
and_true true true c = (λ h. cc, λ h. cc h.1)
and_true true false true = (λ h. cc, λ h. cc h.2)
and_true true false false = (λ h. (refl, refl, refl), λ h. refl)

not_iff : (b : Bool) → (not b ≡ true) ↔ (b ≡ false)
not_iff true = (λ h. cc, λ h. cc)
not_iff false = (λ h. refl, λ h. refl)

needs_delete-running :
    (pod : Pod)
    → (needs_delete CleanPodPolicy.running pod ≡ true) ↔ IsGivenUp CleanPodPolicy.running pod
unfolding needs_delete
needs_delete-running pod =
    let parts =
      and_true (is_active pod) (any_ended pod.status.container_statuses) (is_pod_terminating pod) in
    let active = active_iff pod.status.phase in
    let over = any_ended-IsOver pod.status.container_statuses in
    let standing = terminating_iff pod in
    (
      λ h. let p = parts.0 h in (standing.0 p.2, active.0 p.0, over.0 p.1),
      λ h. parts.1 (active.1 h.1, over.1 h.2, standing.1 h.0),
    )

needs_delete-all :
    (pod : Pod) → (needs_delete CleanPodPolicy.all pod ≡ true) ↔ IsGivenUp CleanPodPolicy.all pod
unfolding needs_delete
needs_delete-all pod =
    let flipped = not_iff (is_pod_terminating pod) in
    let standing = terminating_iff pod in
    (λ h. standing.0 (flipped.0 h), λ h. flipped.1 (standing.1 h))

Picked-filter :
    {P : Pod → Type 0} (p : Pod → Bool)
    → ((x : Pod) → (p x ≡ true) ↔ P x)
    → (xs : List Pod) → Picked P xs (filter p xs)
Picked-filter p iff [] = Picked.done
Picked-filter p iff (x ∷ xs) = elim (Bool-cases (p x)) [
  | inl yes_ ↦ rw yes_ (Picked.pick ((iff x).0 yes_) (Picked-filter p iff xs))
  | inr no_ ↦ rw no_ (Picked.skip (λ h. absurd (cc ((iff x).1 h))) (Picked-filter p iff xs))
]

Picked-nil : {P : Pod → Type 0} → ((x : Pod) → P x → ⊥) → (xs : List Pod) → Picked P xs []
Picked-nil no_ [] = Picked.done
Picked-nil no_ (x ∷ xs) = Picked.skip (no_ x) (Picked-nil no_ xs)

-- What the loop deletes.
abbrev pub given_up : CleanPodPolicy → List Pod → List Pod
given_up policy pods = if cleans policy then filter (needs_delete policy) pods else []

pub given_up-Picked :
    (policy : CleanPodPolicy) (pods : List Pod)
    → Picked (IsGivenUp policy) pods (given_up policy pods)
given_up-Picked CleanPodPolicy.unset pods = Picked-nil (λ x h. h) pods
given_up-Picked CleanPodPolicy.running pods = Picked-filter _ needs_delete-running pods
given_up-Picked CleanPodPolicy.all pods = Picked-filter _ needs_delete-all pods
given_up-Picked CleanPodPolicy.keep pods = Picked-nil (λ x h. h) pods

pub given_up-nil : (policy : CleanPodPolicy) → given_up policy [] ≡ []
given_up-nil CleanPodPolicy.unset = refl
given_up-nil CleanPodPolicy.running = refl
given_up-nil CleanPodPolicy.all = refl
given_up-nil CleanPodPolicy.keep = refl
