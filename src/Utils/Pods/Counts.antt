-- ===== src/Utils/Pods/Counts.antt =====
-- The counts over pods (pkg/utils/util.go), where every pod counts alike.
use di_orchestrator.Base.{
  ℕ, suc, ◌+◌, ◌≡◌, refl, ap, ◌∙◌, Bool, Bool-cases, inl, inr, List, [], ◌∷◌, arith, length, All,
}
use di_orchestrator.Kube.{Pod, PodPhase, PodCondition, ContainerStatus}
use di_orchestrator.Utils.Pods.{
  is_scheduled, count_conditions, count_scheduled, count_scheduled_pods, is_pod_terminating,
  count_containers, count_ready, count_ready_pods, is_pod_succeeded, is_pod_failed, count_completed,
  count_completed_pods,
}

count_conditions-add :
    (cs : List PodCondition) (k : ℕ) → count_conditions cs k ≡ count_conditions cs 0 + k
unfolding count_conditions
count_conditions-add [] k = omega arith
count_conditions-add (c ∷ cs) k = elim (Bool-cases (is_scheduled c)) [
  | inl here ↦ rw here (omega (arith, count_conditions-add cs (suc k), count_conditions-add cs 1))
  | inr other ↦ rw other (count_conditions-add cs k)
]

-- As many pods count as scheduled as there are, where each has one condition that says so.
pub count_scheduled_pods-length :
    (pods : List Pod)
    → All (λ p. count_scheduled_pods (p ∷ []) ≡ 1) pods
    → count_scheduled_pods pods ≡ length pods
unfolding count_scheduled_pods
count_scheduled_pods-length pods h = go pods 0 h ∙ omega arith
  where
    go :
        (ps : List Pod) (n : ℕ)
        → All (λ p. count_scheduled (p ∷ []) 0 ≡ 1) ps
        → count_scheduled ps n ≡ length ps + n
    go [] n h = omega arith
    go (p ∷ ps) n h =
        go ps (count_conditions p.status.conditions n) h.1
        ∙ omega (arith, count_conditions-add p.status.conditions n, h.0)

count_containers-add :
    (cs : List ContainerStatus) (k : ℕ) → count_containers cs k ≡ count_containers cs 0 + k
unfolding count_containers
count_containers-add [] k = omega arith
count_containers-add (c ∷ cs) k = elim (Bool-cases c.ready) [
  | inl here ↦ rw here (omega (arith, count_containers-add cs (suc k), count_containers-add cs 1))
  | inr other ↦ rw other (count_containers-add cs k)
]

-- As many pods count as ready as there are, where each counts as one.
pub count_ready_pods-length :
    (pods : List Pod)
    → All (λ p. count_ready_pods (p ∷ []) ≡ 1) pods
    → count_ready_pods pods ≡ length pods
unfolding count_ready_pods count_ready
count_ready_pods-length pods h = go pods 0 h ∙ omega arith
  where
    one : (p : Pod) (n : ℕ) → count_ready (p ∷ []) 0 ≡ 1 → count_ready (p ∷ []) n ≡ suc n
    one p n e = elim (Bool-cases (is_pod_terminating p)) [
      | inl gone ↦ cc (rw gone at e)
      | inr here ↦
          rw here
            (omega (arith, count_containers-add p.status.container_statuses n, (rw here at e)))
    ]

    go :
        (ps : List Pod) (n : ℕ)
        → All (λ p. count_ready (p ∷ []) 0 ≡ 1) ps
        → count_ready ps n ≡ length ps + n
    go [] n h = omega arith
    go (p ∷ ps) n h = ap (count_ready ps) (one p n h.0) ∙ (go ps (suc n) h.1 ∙ omega arith)

-- Pods that all run: none has succeeded and none failed.
pub count_completed_pods-running :
    (pods : List Pod) (preemptible : Bool)
    → All (λ p. p.status.phase ≡ PodPhase.running) pods
    → count_completed_pods pods preemptible ≡ (0, 0)
unfolding count_completed_pods count_completed is_pod_succeeded is_pod_failed
count_completed_pods-running pods preemptible h = go pods h
  where
    go :
        (ps : List Pod)
        → All (λ p. p.status.phase ≡ PodPhase.running) ps
        → count_completed ps preemptible 0 0 ≡ (0, 0)
    go [] h = refl
    go (p ∷ ps) h = rw (h.0) (go ps h.1)

-- Pods that have all succeeded.
pub count_completed_pods-succeeded :
    (pods : List Pod) (preemptible : Bool)
    → All (λ p. p.status.phase ≡ PodPhase.succeeded) pods
    → (count_completed_pods pods preemptible).0 ≡ length pods
unfolding count_completed_pods count_completed is_pod_succeeded is_pod_failed
count_completed_pods-succeeded pods preemptible h = go pods 0 h ∙ omega arith
  where
    go :
        (ps : List Pod) (n : ℕ)
        → All (λ p. p.status.phase ≡ PodPhase.succeeded) ps
        → (count_completed ps preemptible n 0).0 ≡ length ps + n
    go [] n h = omega arith
    go (p ∷ ps) n h = rw (h.0) (go ps (suc n) h.1 ∙ omega arith)
