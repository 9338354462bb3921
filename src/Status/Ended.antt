-- ===== src/Status/Ended.antt =====
-- The loop of updateDIJobConditions that ends the Running condition (pkg/context/status.go).
use di_orchestrator.Base.{
  ℕ, ◌+◌, ◌≤◌, ◌≡◌, refl, Bool-cases, inl, inr, List, [], ◌∷◌, arith, if◌then◌else◌,
}
use di_orchestrator.Kube.{condition_false}
use di_orchestrator.Job.{Phase, phase_eq, JobCondition}
use di_orchestrator.Machine.{State, Result, Api, ok, err, panic, after, pure}
use di_orchestrator.Status.{end_running, end_one}
use di_orchestrator.Status.Conditions.{count_type, count_true, IsValid}

-- What the loop that ends Running makes of the conditions.
pub record Ended (s : State) (out : Result (List JobCondition) × State) (cs cs' : List JobCondition)
    : Type 0 where
  pub ends_ok : out.0 ≡ ok cs'
  pub job_kept : out.1.job ≡ s.job
  pub calls_kept : out.1.calls ≡ s.calls
  pub settings_kept : out.1.settings ≡ s.settings
  pub same_types : (p : Phase) → count_type p cs' ≡ count_type p cs
  pub fewer_true : count_true cs' ≤ count_true cs

abbrev ended_condition : Api → JobCondition → State → JobCondition
ended_condition api c s =
    if phase_eq c.type Phase.running
    then record c {
      status = condition_false;
      last_transition_time = api.now s.ticks;
      last_update_time = api.now (s.ticks + 1);
    }
    else c

end_one-lem :
    (api : Api) (c : JobCondition) (s : State)
    → (n : ℕ) × (end_one api c s ≡ (ok (ended_condition api c s), record s { ticks = n }))
unfolding end_one
end_one-lem api c s = elim (Bool-cases (phase_eq c.type Phase.running)) [
  | inl running ↦ (s.ticks + 1 + 1, rw running refl)
  | inr other ↦ (s.ticks, rw other refl)
]

pub end_running-Ended :
    (api : Api) (cs : List JobCondition) (s : State)
    → (cs' : List JobCondition) × Ended s (end_running api cs s) cs cs'
unfolding end_running
end_running-Ended api [] s = (
  [],
  record {
    ends_ok = refl;
    job_kept = refl;
    calls_kept = refl;
    settings_kept = refl;
    same_types = λ p. refl;
    fewer_true = omega arith;
  },
)
end_running-Ended api (c ∷ cs) s =
    let (n, one) = end_one-lem api c s in
    let (cs', rest) = end_running-Ended api cs (record s { ticks = n }) in
    (
      ended_condition api c s ∷ cs',
      rw one (grown cs' (end_running api cs (record s { ticks = n })) rest),
    )
  where
    grown :
        {n : ℕ} (cs' : List JobCondition) (out : Result (List JobCondition) × State)
        → Ended (record s { ticks = n }) out cs cs'
        → Ended s
            (after out (λ rest. pure (ended_condition api c s ∷ rest)))
            (c ∷ cs)
            (ended_condition api c s ∷ cs')
    grown cs' (ok ds, t) h = record {
      ends_ok = ground arith;
      job_kept = h.job_kept;
      calls_kept = h.calls_kept;
      settings_kept = h.settings_kept;
      same_types = λ p. ground (arith, h.same_types p);
      fewer_true = ground arith;
    }
    grown cs' (err e, t) h = cc h.ends_ok
    grown cs' (panic, t) h = cc h.ends_ok

pub IsValid-Ended :
    {s : State} {out : Result (List JobCondition) × State} {cs cs' : List JobCondition}
    → Ended s out cs cs'
    → IsValid cs
    → IsValid cs'
IsValid-Ended h v = record {
  one_each = λ p. ground (arith, h.same_types p, v.one_each p);
  one_true = omega arith;
}
