-- ===== src/Controller/Replicas/Ranks.antt =====
-- The ranks that createMissedReplicas gives (pkg/controllers/dijob.go).
use di_orchestrator.Base.{
  ℕ, ◌≤◌, ◌≡◌, ◌⊎◌, ◌∙◌, refl, sym, ap, Bool-cases, ltb, Option-cases, some, List, [], ◌∷◌, inl,
  inr, ℤ, pos, negsuc, ◌≤ℤ◌, All, arith,
}
use di_orchestrator.Text.{atoi}
use di_orchestrator.Dict.{text_at}
use di_orchestrator.Kube.{Pod}
use di_orchestrator.Job.{annotation_rank}
use di_orchestrator.Controller.Replicas.{max_rank, find_max_global_rank, larger}

-- The pod is marked with a rank that is at most `n`.
abbrev pub IsRanked : ℕ → Pod → Type 0
IsRanked n pod =
    (rank : ℤ) × (atoi (text_at annotation_rank pod.annotations) ≡ some rank) × (rank ≤ℤ pos n)

larger_bounds : (rank : ℤ) (max m : ℕ) → larger rank max ≤ m → (max ≤ m) × (rank ≤ℤ pos m)
larger_bounds (pos n) max m h = ground arith
larger_bounds (negsuc n) max m h = ground arith

max_rank-IsRanked :
    (pods : List Pod) (max m : ℕ) → max_rank pods max ≡ inr m → (max ≤ m) × All (IsRanked m) pods
unfolding max_rank
max_rank-IsRanked [] max m e = (ground arith, tt)
max_rank-IsRanked (pod ∷ pods) max m e =
    elim (Option-cases (atoi (text_at annotation_rank pod.annotations))) [
      | inl unmarked ↦ cc (rw (unmarked, max_rank) at e)
      | inr (rank, marked) ↦
          let rest = max_rank-IsRanked pods (larger rank max) m (rw (marked, max_rank) at e) in
          let bounds = larger_bounds rank max m rest.0 in
          (bounds.0, ((rank, marked, bounds.1), rest.1))
    ]

-- A pod is marked with exactly this rank.
abbrev HasRank : ℕ → List Pod → Type 0
HasRank n [] = ⊥
HasRank n (pod ∷ pods) =
    (atoi (text_at annotation_rank pod.annotations) ≡ some (pos n)) ⊎ HasRank n pods

larger_cases : (rank : ℤ) (max : ℕ) → (larger rank max ≡ max) ⊎ (rank ≡ pos (larger rank max))
larger_cases (pos n) max = elim (Bool-cases (ltb max n)) [
  | inl above ↦ rw above (inr refl)
  | inr below ↦ rw below (inl refl)
]
larger_cases (negsuc n) max = inl refl

max_rank-HasRank :
    (pods : List Pod) (max m : ℕ) → max_rank pods max ≡ inr m → (m ≡ max) ⊎ HasRank m pods
unfolding max_rank
max_rank-HasRank [] max m e = inl (ground arith)
max_rank-HasRank (pod ∷ pods) max m e =
    elim (Option-cases (atoi (text_at annotation_rank pod.annotations))) [
      | inl unmarked ↦ cc (rw (unmarked, max_rank) at e)
      | inr (rank, marked) ↦
          elim (max_rank-HasRank pods (larger rank max) m (rw (marked, max_rank) at e)) [
            | inl same ↦ elim (larger_cases rank max) [
              | inl before ↦ inl (same ∙ before)
              | inr here ↦ inr (inl (marked ∙ ap some (here ∙ ap pos (sym same))))
            ]
            | inr there ↦ inr (inr there)
          ]
    ]

-- Every pod is marked with a rank that is `m` at most; and a pod is marked with `m`, or it is 0.
abbrev pub IsLargest : ℕ → List Pod → Type 0
IsLargest m pods = All (IsRanked m) pods × ((m ≡ 0) ⊎ HasRank m pods)

-- If findMaxGlobalRank returns no error, every pod is marked with a rank, none of them is above the
-- rank that it returns, and it is the rank of one of the pods, or 0.
pub find_max_global_rank-IsLargest :
    (pods : List Pod) (m : ℕ) → find_max_global_rank pods ≡ inr m → IsLargest m pods
unfolding find_max_global_rank
find_max_global_rank-IsLargest pods m e =
    ((max_rank-IsRanked pods 0 m e).1, max_rank-HasRank pods 0 m e)
