-- ===== src/Controller/Steps/Restarts/Rounds.antt =====
-- pkg/controllers/dijob.go and handler.go together: reconciliations, each followed by the handling
-- of the change that it made to the job.
use di_orchestrator.Base.{
  ℕ, ◌≡◌, ◌≢◌, refl, sym, subst, ap, ◌∙◌, ◌⊎◌, inl, inr, Bool, not, List, [], ◌∷◌, ◌==◌, ◌&&◌, ◌+◌,
  ◌-◌, ◌≤◌, ◌<◌, if◌then◌else◌, arith, some, ℤ, pos, ◌+ℤ◌, ◌≤ℤ◌, int32, int32-pos,
}
use di_orchestrator.Text.{Text}
use di_orchestrator.Kube.{Pod}
use di_orchestrator.Job.{DiJob, Phase, phase_eq}
use di_orchestrator.Machine.{State, Api, for_each}
use di_orchestrator.Utils.Filters.{filter_pods, non_terminating_pod_filter}
use di_orchestrator.Pods.Build.{total_replicas}
use di_orchestrator.Controller.Steps.Crash.{update_status_replicas-Kept}
use di_orchestrator.Status.Phases.{IsExhausted}
use di_orchestrator.Controller.Handlers.{Handler, run_handler, handlers_for, handle_job_status}
use di_orchestrator.Controller.Handlers.Table.{IsLive}
use di_orchestrator.Controller.Steps.{by_phase, reconcile_with_job_status}
use di_orchestrator.Controller.Checks.{update_status_replicas}
use di_orchestrator.Controller.Steps.Restarts.Reconciled.{reconcile_with_job_status-Tame}

-- The change from `old` to `new` makes a job restart.
abbrev pub restarts_by : Phase → Phase → ℕ
restarts_by old new =
    if phase_eq new Phase.restarting && not (phase_eq old Phase.restarting) then 1 else 0

-- The job before a reconciliation, the one after it once its change was handled, and how often it
-- came to restart.
pub data Round (api : Api) : DiJob → DiJob → ℕ → Type 0 where
  round :
      (pods : List Pod) (s t : State)
      → t.job ≡ (reconcile_with_job_status api pods s).1.job
      → Round api s.job
          (handle_job_status api s.job t).1.job
          (restarts_by s.job.status.phase t.job.status.phase)

pub data Rounds (api : Api) : DiJob → DiJob → ℕ → Type 0 where
  stop : {a : DiJob} → Rounds api a a 0
  next : {a b c : DiJob} {m n : ℕ} → Round api a b m → Rounds api b c n → Rounds api a c (m + n)

-- The counter of restarts after some handlers.
abbrev bumped : List Handler → ℤ → ℤ
bumped [] z = z
bumped (Handler.increase_restart_count ∷ hs) z = bumped hs (int32 (z +ℤ pos 1))
bumped (_ ∷ hs) z = bumped hs z

for_each-restarts :
    (api : Api) (hs : List Handler) (s : State)
    → (for_each hs (run_handler api) s).1.job.status.restarts ≡ bumped hs s.job.status.restarts
unfolding for_each run_handler
for_each-restarts api [] s = refl
for_each-restarts api (Handler.nothing ∷ hs) s = for_each-restarts api hs _
for_each-restarts api (Handler.update_ready_replicas ∷ hs) s = for_each-restarts api hs _
for_each-restarts api (Handler.increase_restart_count ∷ hs) s = for_each-restarts api hs _
for_each-restarts api (Handler.increase_reschedule_count ∷ hs) s = for_each-restarts api hs _
for_each-restarts api (Handler.on_starting ∷ hs) s = for_each-restarts api hs _
for_each-restarts api (Handler.on_running ∷ hs) s = for_each-restarts api hs _
for_each-restarts api (Handler.on_restarting ∷ hs) s = for_each-restarts api hs _
for_each-restarts api (Handler.on_rescheduling ∷ hs) s = for_each-restarts api hs _
for_each-restarts api (Handler.on_failed ∷ hs) s = for_each-restarts api hs _
for_each-restarts api (Handler.on_succeeded ∷ hs) s = for_each-restarts api hs _

for_each-spec :
    (api : Api) (hs : List Handler) (s : State)
    → (for_each hs (run_handler api) s).1.job.spec ≡ s.job.spec
unfolding for_each run_handler
for_each-spec api [] s = refl
for_each-spec api (Handler.nothing ∷ hs) s = for_each-spec api hs _
for_each-spec api (Handler.update_ready_replicas ∷ hs) s = for_each-spec api hs _
for_each-spec api (Handler.increase_restart_count ∷ hs) s = for_each-spec api hs _
for_each-spec api (Handler.increase_reschedule_count ∷ hs) s = for_each-spec api hs _
for_each-spec api (Handler.on_starting ∷ hs) s = for_each-spec api hs _
for_each-spec api (Handler.on_running ∷ hs) s = for_each-spec api hs _
for_each-spec api (Handler.on_restarting ∷ hs) s = for_each-spec api hs _
for_each-spec api (Handler.on_rescheduling ∷ hs) s = for_each-spec api hs _
for_each-spec api (Handler.on_failed ∷ hs) s = for_each-spec api hs _
for_each-spec api (Handler.on_succeeded ∷ hs) s = for_each-spec api hs _

IsCounted : Phase → Phase → Type 0
IsCounted old new = IsLive old ⊎ (new ≡ old)

bumped-handlers_for :
    (old new : Phase) (z : ℤ)
    → IsCounted old new
    → bumped (handlers_for old new) z ≡ (if restarts_by old new == 1 then int32 (z +ℤ pos 1) else z)
unfolding handlers_for phase_eq IsCounted
bumped-handlers_for old new z h = ground arith

-- A job in a phase that the operator does not set stays in it.
by_phase-IsCounted :
    (api : Api) (p : Phase) (preemptible : Bool) (total pods : List Pod) (replicas : ℕ)
    (allocation : List Text) (s : State)
    → s.job.status.phase ≡ p
    → IsCounted p (by_phase api p preemptible total pods replicas allocation s).1.job.status.phase
unfolding by_phase IsCounted
by_phase-IsCounted api Phase.unset preemptible total pods replicas allocation s e = inr e
by_phase-IsCounted api Phase.unknown preemptible total pods replicas allocation s e = inr e
by_phase-IsCounted api _ preemptible total pods replicas allocation s e = inl tt

reconciled-IsCounted :
    (api : Api) (pods : List Pod) (s : State)
    → IsCounted s.job.status.phase (reconcile_with_job_status api pods s).1.job.status.phase
unfolding reconcile_with_job_status
reconciled-IsCounted api pods s =
    let replicas = total_replicas s.job.spec.tasks in
    let job = update_status_replicas pods replicas s.job in
    subst (λ p. IsCounted p (reconcile_with_job_status api pods s).1.job.status.phase)
      (update_status_replicas-Kept pods replicas s.job).phase_kept
      (by_phase-IsCounted api job.status.phase job.spec.preemptible pods
        (filter_pods pods (non_terminating_pod_filter ∷ [])) replicas s.job.status.allocation
        (record s { job = job }) refl)

-- What a round does to the counter of restarts and to the specification.
record Counted (a b : DiJob) (n : ℕ) : Type 0 where
  spec_kept : b.spec ≡ a.spec
  counted :
      (b.status.restarts
        ≡ (if n == 1 then int32 (a.status.restarts +ℤ pos 1) else a.status.restarts))
  few : (n ≡ 0) ⊎ ((n ≡ 1) × ¬ (IsExhausted a))

restarts_by_cases :
    (old new : Phase) {A : Type 0}
    → ((new ≡ old) ⊎ ((new ≢ Phase.restarting) ⊎ A))
    → (restarts_by old new ≡ 0) ⊎ ((restarts_by old new ≡ 1) × A)
unfolding phase_eq
restarts_by_cases old new h = ground arith

Round-Counted : (api : Api) (a b : DiJob) (n : ℕ) → Round api a b n → Counted a b n
unfolding handle_job_status
Round-Counted api a b n (round pods s t e) =
    let tame = reconcile_with_job_status-Tame api pods s in
    let hs = handlers_for s.job.status.phase t.job.status.phase in
    let kept = ap (λ j. j.status.restarts) e ∙ tame.restarts_kept in
    record {
      spec_kept = for_each-spec api hs t ∙ (ap (λ j. j.spec) e ∙ tame.spec_kept);
      counted =
          for_each-restarts api hs t
          ∙ (ap (λ z. bumped hs z) kept
              ∙ bumped-handlers_for s.job.status.phase t.job.status.phase s.job.status.restarts (
                  subst (λ j. IsCounted s.job.status.phase j.status.phase) (sym e)
                    (reconciled-IsCounted api pods s)));
      few = restarts_by_cases s.job.status.phase t.job.status.phase (
          subst
            (λ j.
              (j.status.phase ≡ s.job.status.phase)
              ⊎ ((j.status.phase ≢ Phase.restarting) ⊎ ¬ (IsExhausted s.job)))
            (sym e) tame.gate);
    }

-- A job that has not used up its restarts was restarted less often than its limit.
still_left :
    (a : DiJob) (limit r m : ℕ)
    → a.spec.backoff_limit ≡ some (pos limit)
    → a.status.restarts ≡ pos r
    → ((m ≡ 0) ⊎ ((m ≡ 1) × ¬ (IsExhausted a)))
    → (m ≡ 0) ⊎ ((m ≡ 1) × (r < limit))
still_left a limit r m e now (inl none) = inl none
still_left a limit r m e now (inr (one, left)) =
    inr (one, not_le→lt (λ h. left (pos limit, e, rw now h)))
  where
    not_le→lt : ¬ (pos limit ≤ℤ pos r) → r < limit
    not_le→lt h = ground arith

plus_one : (r : ℕ) → pos r +ℤ pos 1 ≡ pos (r + 1)
unfolding ◌+ℤ◌
plus_one r = ground arith

counted_on :
    (limit r m : ℕ)
    → limit < 2147483648
    → ((m ≡ 0) ⊎ ((m ≡ 1) × (r < limit)))
    → (if m == 1 then int32 (pos r +ℤ pos 1) else pos r) ≡ pos (if m == 1 then r + 1 else r)
counted_on limit r m small (inl none) = rw none refl
counted_on limit r m small (inr (one, h)) = rw (one, plus_one r) (int32-pos (r + 1) (omega arith))

step_bound :
    (limit r m n r' : ℕ)
    → ((m ≡ 0) ⊎ ((m ≡ 1) × (r < limit)))
    → r' ≡ (if m == 1 then r + 1 else r)
    → n ≤ limit - r'
    → m + n ≤ limit - r
step_bound limit r m n r' few now h = ground arith

-- Over any sequence of reconciliations, each followed by the handling of the change it made, a job
-- whose backoff limit is `limit`, below 2^31, and that was restarted `r` times comes to restart at
-- most `limit - r` times more (not at all where `r` is above `limit`).
pub restarts_bound :
    (api : Api) (a b : DiJob) (n limit r : ℕ)
    → Rounds api a b n
    → a.spec.backoff_limit ≡ some (pos limit)
    → limit < 2147483648
    → a.status.restarts ≡ pos r
    → n ≤ limit - r
restarts_bound api a b n limit r stop e small now = ground arith
restarts_bound api a b n limit r (next {b = mid} {m = m} {n = k} one rest) e small now =
    let c = Round-Counted api a mid m one in
    let may = still_left a limit r m e now c.few in
    step_bound limit r m k _ may refl (
      restarts_bound api mid b k limit (if m == 1 then r + 1 else r) rest
        (ap (λ x. x.backoff_limit) c.spec_kept ∙ e) small
        (c.counted
          ∙ (ap (λ z. if m == 1 then int32 (z +ℤ pos 1) else z) now
              ∙ counted_on limit r m small may)))
