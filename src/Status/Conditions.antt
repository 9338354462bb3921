-- ===== src/Status/Conditions.antt =====
-- The conditions of a job: one for each type, and at most one of them True.
use di_orchestrator.Base.{
  ℕ, suc, ◌+◌, ◌≤◌, ◌≡◌, refl, Bool-cases, inl, inr, true, Option, none, some, List, [], ◌∷◌, ◌++◌,
  arith, if◌then◌else◌,
}
use di_orchestrator.Text.{text_eq_iff}
use di_orchestrator.Kube.{ConditionStatus, condition_true}
use di_orchestrator.Job.{Phase, phase_eq, phase_eq→eq, phase_eq_refl, JobCondition}
use di_orchestrator.Status.{
  status_eq, get_condition, filter_out_conditions, set_condition, is_current, kept_time,
}

abbrev pub count_type : Phase → List JobCondition → ℕ
count_type p [] = 0
count_type p (c ∷ cs) = if phase_eq c.type p then suc (count_type p cs) else count_type p cs

abbrev pub count_true : List JobCondition → ℕ
count_true [] = 0
count_true (c ∷ cs) =
    if status_eq c.status condition_true then suc (count_true cs) else count_true cs

pub record IsValid (cs : List JobCondition) : Type 0 where
  pub one_each : (p : Phase) → count_type p cs ≤ 1
  pub one_true : count_true cs ≤ 1

count_type-filter_out :
    (t p : Phase) (cs : List JobCondition)
    → count_type p (filter_out_conditions cs t) ≡ (if phase_eq t p then 0 else count_type p cs)
unfolding filter_out_conditions
count_type-filter_out t p [] = ground arith
count_type-filter_out t p (c ∷ cs) = ground (
  arith,
  count_type-filter_out t p cs,
  phase_eq→eq c.type t,
  phase_eq→eq c.type p,
  phase_eq→eq t p,
  phase_eq_refl t,
  phase_eq_refl p,
)

count_true-filter_out :
    (t : Phase) (cs : List JobCondition) → count_true (filter_out_conditions cs t) ≡ 0
unfolding filter_out_conditions
count_true-filter_out t [] = refl
count_true-filter_out t (c ∷ cs) = ground (arith, count_true-filter_out t cs)

get_condition-filter_out :
    (t : Phase) (cs : List JobCondition) (new : JobCondition)
    → new.type ≡ t
    → get_condition (filter_out_conditions cs t ++ new ∷ []) t ≡ some new
unfolding filter_out_conditions get_condition
get_condition-filter_out t [] new e = ground (arith, phase_eq_refl t)
get_condition-filter_out t (c ∷ cs) new e = ground (arith, get_condition-filter_out t cs new e)

count_type-append :
    (p : Phase) (cs ds : List JobCondition)
    → count_type p (cs ++ ds) ≡ count_type p cs + count_type p ds
count_type-append p [] ds = omega arith
count_type-append p (c ∷ cs) ds = ground (arith, count_type-append p cs ds)

count_true-append :
    (cs ds : List JobCondition) → count_true (cs ++ ds) ≡ count_true cs + count_true ds
count_true-append [] ds = omega arith
count_true-append (c ∷ cs) ds = ground (arith, count_true-append cs ds)

-- What the stored condition shares with the one that was handed over.
abbrev pub Same : JobCondition → JobCondition → Type 0
Same c new = (c.type ≡ new.type) × (c.status ≡ new.status) × (c.reason ≡ new.reason)

kept_time-Same : (o : Option JobCondition) (new : JobCondition) → Same (kept_time o new) new
kept_time-Same none new = (refl, refl, refl)
kept_time-Same (some c) new = ground arith

appended-IsValid :
    (cs : List JobCondition) (new stored : JobCondition)
    → IsValid cs
    → Same stored new
    → IsValid (filter_out_conditions cs new.type ++ stored ∷ [])
appended-IsValid cs new stored v same = record {
  one_each = λ p.
      rw (count_type-append p) (ground (arith, count_type-filter_out new.type p cs, v.one_each p));
  one_true = rw (count_true-append, count_true-filter_out) (ground arith);
}

status_eq→eq : (a b : ConditionStatus) → status_eq a b ≡ true → a ≡ b
status_eq→eq a b h = ground arith

get_condition-type :
    (cs : List JobCondition) (t : Phase) (c : JobCondition)
    → get_condition cs t ≡ some c
    → c.type ≡ t
unfolding get_condition
get_condition-type [] t c' e = cc
get_condition-type (c ∷ cs) t c' e =
    ground (arith, get_condition-type cs t c', phase_eq→eq c.type t)

-- setCondition keeps the conditions valid: one for each type, one True at most; and afterwards the
-- condition of the new type has the status and the reason of the new one.
pub set_condition-IsValid :
    (cs : List JobCondition) (new : JobCondition)
    → IsValid cs
    → IsValid (set_condition cs new)
      × ((c : JobCondition) × (get_condition (set_condition cs new) new.type ≡ some c) × Same c new)
unfolding set_condition
set_condition-IsValid cs new v = go (get_condition cs new.type) refl
  where
    go :
        (o : Option JobCondition)
        → get_condition cs new.type ≡ o
        → let out =
            if is_current o new
            then cs
            else filter_out_conditions cs new.type ++ kept_time o new ∷ [] in
          IsValid out × ((c : JobCondition) × (get_condition out new.type ≡ some c) × Same c new)
    go none e = (
      appended-IsValid cs new new v (refl, refl, refl),
      (new, get_condition-filter_out new.type cs new refl, (refl, refl, refl)),
    )
    go (some c) e = elim (Bool-cases (is_current (some c) new)) [
      | inl current ↦ rw current (
        v,
        (
          c,
          e,
          ground (
            arith,
            text_eq_iff c.reason new.reason,
            status_eq→eq c.status new.status,
            get_condition-type cs new.type c e,
          ),
        ),
      )
      | inr stale ↦
          let same = kept_time-Same (some c) new in
          let stored = kept_time (some c) new in
          rw stale (
            appended-IsValid cs new stored v same,
            (stored, get_condition-filter_out new.type cs stored same.0, same),
          )
    ]
