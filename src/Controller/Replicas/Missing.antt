-- ===== src/Controller/Replicas/Missing.antt =====
-- createMissedReplicas (pkg/controllers/dijob.go): which replicas have no pod.
use di_orchestrator.Base.{
  ℕ, zero, suc, ◌+◌, ◌<◌, ◌≡◌, refl, sym, ap, ◌∙◌, Bool, true, false, not, ◌||◌, Bool-cases, inl,
  inr, Option, none, some, List, [], ◌∷◌, ◌++◌, filter, arith, length, replicate, set, leb, ◌==◌, ℤ,
  pos, negsuc, if◌then◌else◌,
}
use di_orchestrator.Text.{text_eq, atoi}
use di_orchestrator.Dict.{text_at}
use di_orchestrator.Kube.{Pod}
use di_orchestrator.Job.{Task, label_task_name, annotation_task_rank}
use di_orchestrator.Machine.{ok}
use di_orchestrator.Controller.Replicas.{local_trace, mark, then_trace}
use di_orchestrator.Controller.Replicas.Built.{Slot, slots_of}

abbrev pub is_rank : ℕ → Option ℤ → Bool
is_rank i none = false
is_rank i (some (pos n)) = n == i
is_rank i (some (negsuc n)) = false

-- The replica has a pod: one with the label of its task and with its local rank.
abbrev pub filled : List Pod → Slot → Bool
filled [] slot = false
filled (pod ∷ pods) (task, i) =
    let rest = filled pods (task, i) in
    if text_eq (text_at label_task_name pod.labels) task.name
    then is_rank i (atoi (text_at annotation_task_rank pod.annotations)) || rest
    else rest

-- The replicas that have no pod, in order.
abbrev pub missing : List Pod → List Slot → List Slot
missing pods ss = filter (λ slot. not (filled pods slot)) ss

-- A trace, with what the pods fill marked on it.
abbrev pub joined : Task → List Pod → ℕ → List Bool → List Bool
joined task pods i [] = []
joined task pods i (b ∷ trace) = (b || filled pods (task, i)) ∷ joined task pods (suc i) trace

-- The replicas that a trace leaves open.
abbrev pub open_slots : Task → ℕ → List Bool → List Slot
open_slots task i [] = []
open_slots task i (true ∷ trace) = open_slots task (suc i) trace
open_slots task i (false ∷ trace) = (task, i) ∷ open_slots task (suc i) trace

module _ (task : Task) (pod : Pod) (pods : List Pod) where
  joined-other :
      (i : ℕ) (trace : List Bool)
      → text_eq (text_at label_task_name pod.labels) task.name ≡ false
      → joined task (pod ∷ pods) i trace ≡ joined task pods i trace
  joined-other i [] e = refl
  joined-other i (b ∷ trace) e = rw (e, joined-other (suc i) trace e) refl

  module _ (k : ℕ) (here : text_eq (text_at label_task_name pod.labels) task.name ≡ true)
      (rank : atoi (text_at annotation_task_rank pod.annotations) ≡ some (pos k)) where
    joined-later :
        (i : ℕ) (trace : List Bool)
        → k < i
        → joined task (pod ∷ pods) i trace ≡ joined task pods i trace
    joined-later i [] h = refl
    joined-later i (b ∷ trace) h =
        rw (here, rank, other i h, joined-later (suc i) trace (omega arith)) refl
      where
        other : (j : ℕ) → k < j → (k == j) ≡ false
        other j h = ground arith

    joined-set :
        (i r : ℕ) (trace : List Bool)
        → k ≡ i + r
        → r < length trace
        → joined task pods i (set trace r true) ≡ joined task (pod ∷ pods) i trace
    joined-set i r [] e h = absurd (omega arith)
    joined-set i zero (b ∷ trace) e h =
        rw (here, rank, same, joined-later (suc i) trace (omega arith)) (marked b)
      where
        same : (k == i) ≡ true
        same = ground arith

        marked :
            (b : Bool)
            → true ∷ joined task pods (suc i) trace ≡ (b || true) ∷ joined task pods (suc i) trace
        marked true = refl
        marked false = refl
    joined-set i (suc r) (b ∷ trace) e h =
        rw (here, rank, other, joined-set (suc i) r trace (omega arith) (omega arith)) refl
      where
        other : (k == i) ≡ false
        other = ground arith

local_trace-joined :
    (task : Task) (pods : List Pod) (trace t : List Bool)
    → local_trace task pods trace ≡ ok t
    → t ≡ joined task pods 0 trace
unfolding local_trace
local_trace-joined task [] trace t e = ok-inj e ∙ sym (unmarked 0 trace)
  where
    ok-inj : {a b : List Bool} → ok a ≡ ok b → b ≡ a
    ok-inj h = cc

    unmarked : (i : ℕ) (bs : List Bool) → joined task [] i bs ≡ bs
    unmarked i [] = refl
    unmarked i (true ∷ bs) = ap (λ l. true ∷ l) (unmarked (suc i) bs)
    unmarked i (false ∷ bs) = ap (λ l. false ∷ l) (unmarked (suc i) bs)
local_trace-joined task (pod ∷ pods) trace t e =
    elim (Bool-cases (text_eq (text_at label_task_name pod.labels) task.name)) [
      | inl here ↦
          marked here (atoi (text_at annotation_task_rank pod.annotations)) refl (rw here at e)
            (λ next f. local_trace-joined task pods next t f)
      | inr other ↦
          local_trace-joined task pods trace t (rw other at e)
          ∙ sym (joined-other task pod pods 0 trace other)
    ]
  where
    marked :
        text_eq (text_at label_task_name pod.labels) task.name ≡ true
        → (rank : Option ℤ) → atoi (text_at annotation_task_rank pod.annotations) ≡ rank
        → then_trace (mark pod rank trace) (λ next. local_trace task pods next) ≡ ok t
        → ((next : List Bool) → local_trace task pods next ≡ ok t → t ≡ joined task pods 0 next)
        → t ≡ joined task (pod ∷ pods) 0 trace
    marked here none r f rest = cc
    marked here (some (negsuc k)) r f rest = cc
    marked here (some (pos k)) r f rest = elim (Bool-cases (leb (length trace) k)) [
      | inl over ↦ cc (rw over at f)
      | inr within ↦
          rest (set trace k true) (rw within at f)
          ∙ joined-set task pod pods k here r 0 k trace (omega arith) (ground arith)
    ]

open_slots-joined :
    (task : Task) (pods : List Pod) (n i : ℕ)
    → open_slots task i (joined task pods i (replicate n false)) ≡ missing pods (slots_of task n i)
open_slots-joined task pods zero i = refl
open_slots-joined task pods (suc n) i = elim (Bool-cases (filled pods (task, i))) [
  | inl there ↦ rw there (open_slots-joined task pods n (suc i))
  | inr absent ↦ rw absent (ap (λ l. (task, i) ∷ l) (open_slots-joined task pods n (suc i)))
]

-- The trace of a task leaves open the replicas that have no pod.
pub open_slots-local_trace :
    (task : Task) (pods : List Pod) (t : List Bool)
    → local_trace task pods (replicate task.replicas false) ≡ ok t
    → open_slots task 0 t ≡ missing pods (slots_of task task.replicas 0)
open_slots-local_trace task pods t e =
    ap (open_slots task 0) (local_trace-joined task pods (replicate task.replicas false) t e)
    ∙ open_slots-joined task pods task.replicas 0

pub missing-append :
    (pods : List Pod) (xs ys : List Slot)
    → missing pods (xs ++ ys) ≡ missing pods xs ++ missing pods ys
missing-append pods [] ys = refl
missing-append pods (x ∷ xs) ys = elim (Bool-cases (filled pods x)) [
  | inl there ↦ rw there (missing-append pods xs ys)
  | inr absent ↦ rw absent (ap (λ l. x ∷ l) (missing-append pods xs ys))
]
