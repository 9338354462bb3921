-- ===== src/Controller/Steps/Stable.antt =====
-- Pods that stand where they were built give no reason to reschedule.
use mathlib.Core.Path.{subst₂}
use di_orchestrator.Base.{
  ℕ, suc, ◌+◌, ◌≤◌, ◌<◌, ◌≡◌, refl, sym, ap, ◌∙◌, Bool-cases, inl, inr, true, false, some, List, [],
  ◌∷◌, arith, length, pos, eqb_ℤ-refl, ==_iff,
}
use di_orchestrator.Text.{Text, text_eq_refl, atoi}
use di_orchestrator.Text.Numbers.{atoi-itoa}
use di_orchestrator.Dict.{text_at}
use di_orchestrator.Kube.{Pod}
use di_orchestrator.Job.{DiJob, Task, annotation_node}
use di_orchestrator.Machine.{Settings}
use di_orchestrator.Pods.Build.{total_replicas}
use di_orchestrator.Pods.Build.Annotations.{IsBuilt, node_is_assigned}
use di_orchestrator.Controller.Replicas.{build_pods}
use di_orchestrator.Controller.Replicas.Built.{
  Slot, slots, Stand, build_pods_lem, length-Stand, length-slots,
}
use di_orchestrator.Controller.Checks.{is_moved, moved_by, pod_moved, any_moved, detect_reschedule}

module _ (job : DiJob) (allocation : List Text) (p : job.spec.preemptible ≡ true)
    (same : total_replicas job.spec.tasks ≡ length allocation)
    (small : total_replicas job.spec.tasks < 9223372036854775808) where
  pod_moved-IsBuilt :
      (rank : ℕ) (task : Task) (i : ℕ) (pod : Pod)
      → IsBuilt job allocation rank task i pod
      → rank < length allocation
      → pod_moved allocation pod ≡ some false
  pod_moved-IsBuilt rank task i pod b lt =
      subst₂ (λ a b. moved_by allocation (text_at annotation_node pod.annotations) a b ≡ some false)
        (sym (ap atoi b.replicas_is ∙ atoi-itoa (total_replicas job.spec.tasks) small))
        (sym (ap atoi b.rank_is ∙ atoi-itoa rank (omega arith)))
        (rw
          (
            same,
            eqb_ℤ-refl (pos (length allocation)),
            node_is_assigned job allocation rank task i pod b p lt,
            is_moved,
          )
          (rw (text_eq_refl (text_at annotation_node pod.annotations))))

  any_moved-Stand :
      (rank : ℕ) (ss : List Slot) (pods : List Pod)
      → Stand job allocation rank ss pods
      → rank + length ss ≤ length allocation
      → any_moved allocation pods ≡ some false
  unfolding any_moved
  any_moved-Stand rank [] [] h fits = refl
  any_moved-Stand rank [] (_ ∷ _) h fits = absurd h
  any_moved-Stand rank (_ ∷ _) [] h fits = absurd h
  any_moved-Stand rank ((task, i) ∷ ss) (pod ∷ pods) h fits =
      rw (pod_moved-IsBuilt rank task i pod h.0 (omega arith))
        (any_moved-Stand (suc rank) ss pods h.1 (omega arith))

-- For a job with less than 2 ^ 63 replicas, under an allocation with one node for each replica if it
-- is preemptible, buildAndCreatePods builds its pods, and detectReschedule finds in them no reason to
-- reschedule the job under that allocation.
pub detect_reschedule-build_pods :
    (settings : Settings) (job : DiJob) (allocation : List Text)
    → (job.spec.preemptible ≡ true → total_replicas job.spec.tasks ≡ length allocation)
    → total_replicas job.spec.tasks < 9223372036854775808
    → (pods : List Pod) × (build_pods settings job allocation 0 0 job.spec.tasks ≡ some pods)
      × (detect_reschedule job pods allocation (total_replicas job.spec.tasks) ≡ some false)
unfolding detect_reschedule
detect_reschedule-build_pods settings job allocation same small =
    let (pods, built, stand) =
      build_pods_lem settings job allocation (λ p. omega (arith, same p)) in
    let many : length pods ≡ total_replicas job.spec.tasks =
      length-Stand job allocation 0 (slots job.spec.tasks) pods stand
      ∙ length-slots job.spec.tasks in
    (
      pods,
      built,
      elim (Bool-cases job.spec.preemptible) [
        | inl p ↦ rw p (
            any_moved-Stand job allocation p (same p) small 0 (slots job.spec.tasks) pods stand
              (omega (arith, same p, length-slots job.spec.tasks)))
        | inr fixed ↦ rw (fixed, (==_iff (length pods) (total_replicas job.spec.tasks)).1 many)
      ],
    )
