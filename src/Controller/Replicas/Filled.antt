-- ===== src/Controller/Replicas/Filled.antt =====
-- createMissedReplicas (pkg/controllers/dijob.go) creates exactly the pods that are missing.
use di_orchestrator.Base.{
  ℕ, suc, ◌+◌, ◌<◌, ◌≡◌, refl, sym, subst, ap, ◌∙◌, Bool, true, false, inr, Option, none, some,
  List, [], ◌∷◌, ◌++◌, append_assoc, arith, length, replicate, get_elem?, All,
}
use di_orchestrator.Text.{Text}
use di_orchestrator.Kube.{Pod}
use di_orchestrator.Job.{Task}
use di_orchestrator.Machine.{Result, ok, err, panic, State, Action, Api, Call, after}
use di_orchestrator.Pods.Build.Annotations.{IsBuilt, build_pod-IsBuilt}
use di_orchestrator.Pods.Calls.{create_pod, finish}
use di_orchestrator.Pods.Calls.Deletes.{Effect, Effect-trans, same-Effect, create_pod-Effect}
use di_orchestrator.Controller.Replicas.{
  local_trace, find_max_global_rank, next_rank, create_missing, create_missed,
  create_missed_replicas,
}
use di_orchestrator.Controller.Replicas.Built.{
  Slot, Stand, Stand-append, slots_of, slots, get_elem?-middle, one_longer,
}
use di_orchestrator.Controller.Replicas.Ranks.{IsLargest, find_max_global_rank-IsLargest}
use di_orchestrator.Controller.Replicas.Missing.{
  missing, open_slots, open_slots-local_trace, missing-append,
}

-- The cluster accepts every pod.
abbrev pub IsAccepting : Api → Type 0
IsAccepting api = (calls : List Call) (pod : Pod) → api.create_pod calls pod ≡ none

pub create_pod-ok :
    (api : Api) (pod : Pod) (s : State) → IsAccepting api → (create_pod api pod s).0 ≡ ok tt
unfolding create_pod finish
create_pod-ok api pod s accepts = rw (accepts s.calls pod) refl

-- The next rank to be given is `rank`.
abbrev Next : List Pod → Option ℕ → ℕ → Type 0
Next pods next rank = (s : State) → next_rank pods next s ≡ (ok rank, s)

-- The loop ended well, has asked for pods that stand for the slots, and goes on with the next rank.
record Filled (pods : List Pod) (allocation : List Text) (rank : ℕ) (ss : List Slot) (s : State)
    (out : Result (Option ℕ) × State) : Type 0 where
  next : Option ℕ
  ends_ok : out.0 ≡ ok next
  next_is : Next pods next (rank + length ss)
  created : List Pod
  effect : Effect s out created []
  stand : Stand s.job allocation rank ss created

-- One pod created, and the rest of the loop.
Filled-cons :
    {pods : List Pod} {allocation : List Text} {rank : ℕ} {task : Task} {i : ℕ} {ss : List Slot}
    {s : State} {pod : Pod} (out : Result (Unit {0}) × State) (k : Action (Option ℕ))
    → out.0 ≡ ok tt
    → Effect s out (pod ∷ []) []
    → IsBuilt s.job allocation rank task i pod
    → ((t : State) → t.job ≡ s.job → Filled pods allocation (rank + 1) ss t (k t))
    → Filled pods allocation rank ((task, i) ∷ ss) s (after out (λ _. k))
Filled-cons (err x, t) k e effect built rest = cc
Filled-cons (panic, t) k e effect built rest = cc
Filled-cons {pods} {allocation} {rank} {task} {i} {ss} {s} {pod} (ok a, t) k e effect built rest =
    let f = rest t effect.job_kept in
    record {
      next = f.next;
      ends_ok = f.ends_ok;
      next_is = subst (λ r. Next pods f.next r) (omega arith) f.next_is;
      created = pod ∷ f.created;
      effect = Effect-trans effect f.effect;
      stand = (
        built,
        subst (λ j. Stand j allocation (suc rank) ss f.created) effect.job_kept
            (subst (λ r. Stand t.job allocation r ss f.created) (omega arith) f.stand),
      );
    }

create_missing-Filled :
    (api : Api) (pods : List Pod) (allocation : List Text) (index : ℕ) (task : Task) (i : ℕ)
    (trace : List Bool) (next : Option ℕ) (rank : ℕ) (s : State)
    → IsAccepting api
    → s.job.spec.preemptible ≡ false
    → get_elem? s.job.spec.tasks index ≡ some task
    → Next pods next rank
    → Filled pods allocation rank
        (open_slots task i trace)
        s
        (create_missing api pods allocation index i trace next s)
unfolding create_missing
create_missing-Filled api pods allocation index task i [] next rank s accepts fixed at first =
    record {
      next = next;
      ends_ok = refl;
      next_is = subst (λ r. Next pods next r) (omega arith) first;
      created = [];
      effect = same-Effect s (ok next) (λ e. cc);
      stand = tt;
    }
create_missing-Filled api pods allocation index task i (true ∷ trace) next rank s accepts fixed at
      first =
    create_missing-Filled api pods allocation index task (suc i) trace next rank s accepts fixed at
      first
create_missing-Filled api pods allocation index task i (false ∷ trace) next rank s accepts fixed at
      first =
    let (pod, built, is_built) =
      build_pod-IsBuilt s.settings s.job rank allocation index i task at (λ p. cc) in
    rw (first s, built)
      (Filled-cons (create_pod api pod s)
        (create_missing api pods allocation index (suc i) trace (some (rank + 1)))
        (create_pod-ok api pod s accepts) (create_pod-Effect api pod s) is_built
        (λ t e.
          create_missing-Filled api pods allocation index task (suc i) trace (some (rank + 1))
            (rank + 1) t accepts (ap (λ j. j.spec.preemptible) e ∙ fixed)
            (ap (λ j. get_elem? j.spec.tasks index) e ∙ at) (λ u. refl)))

-- The pods of the tasks can be counted: none has a local rank that is no number or out of range.
abbrev pub IsTraced : List Pod → Task → Type 0
IsTraced pods task =
    (t : List Bool) × (local_trace task pods (replicate task.replicas false) ≡ ok t)

-- What the loop over the tasks has done: it ended well, and asked for pods that stand for the slots.
pub record Completed (allocation : List Text) (rank : ℕ) (ss : List Slot) (s : State)
    (out : Result (Unit {0}) × State) : Type 0 where
  pub ends_ok : out.0 ≡ ok tt
  pub created : List Pod
  pub effect : Effect s out created []
  pub stand : Stand s.job allocation rank ss created

Completed-append :
    {pods : List Pod} {allocation : List Text} {rank : ℕ} {ss ss' : List Slot} {s : State}
    (out : Result (Option ℕ) × State) (k : Option ℕ → Action (Unit {0}))
    → Filled pods allocation rank ss s out
    → ((next : Option ℕ) (t : State)
        → Next pods next (rank + length ss)
        → t.job ≡ s.job
        → Completed allocation (rank + length ss) ss' t (k next t))
    → Completed allocation rank (ss ++ ss') s (after out k)
Completed-append (err x, t) k f rest = cc f.ends_ok
Completed-append (panic, t) k f rest = cc f.ends_ok
Completed-append {pods} {allocation} {rank} {ss} {ss'} {s} (ok next, t) k f rest =
    let c =
      rest next t (subst (λ o. Next pods o (rank + length ss)) (ok-inj f.ends_ok) f.next_is)
        f.effect.job_kept in
    record {
      ends_ok = c.ends_ok;
      created = f.created ++ c.created;
      effect = Effect-trans f.effect c.effect;
      stand = Stand-append s.job allocation rank ss f.created ss' c.created f.stand (
          subst (λ j. Stand j allocation (rank + length ss) ss' c.created) f.effect.job_kept
            c.stand);
    }
  where
    ok-inj : {a b : Option ℕ} → ok a ≡ ok b → b ≡ a
    ok-inj e = cc

create_missed-Completed :
    (api : Api) (pods : List Pod) (allocation : List Text) (before tasks : List Task)
    (next : Option ℕ) (rank : ℕ) (s : State)
    → IsAccepting api
    → s.job.spec.preemptible ≡ false
    → s.job.spec.tasks ≡ before ++ tasks
    → All (IsTraced pods) tasks
    → Next pods next rank
    → Completed allocation rank
        (missing pods (slots tasks))
        s
        (create_missed api pods allocation (length before) tasks next s)
unfolding create_missed
create_missed-Completed api pods allocation before [] next rank s accepts fixed e traced first =
    record { ends_ok = refl; created = []; effect = same-Effect s (ok tt) (λ e. cc); stand = tt }
create_missed-Completed api pods allocation before (task ∷ tasks) next rank s accepts fixed e
      ((trace, found), traced) first =
    let here =
      create_missing-Filled api pods allocation (length before) task 0 trace next rank s accepts
        fixed (rw e (get_elem?-middle before task tasks)) first in
    rw (found, missing-append pods (slots_of task task.replicas 0) (slots tasks))
      (Completed-append (create_missing api pods allocation (length before) 0 trace next s)
        (λ next'. create_missed api pods allocation (suc (length before)) tasks next')
        (subst
          (λ ss.
            Filled pods allocation rank ss s
              (create_missing api pods allocation (length before) 0 trace next s))
          (open_slots-local_trace task pods trace found) here)
        (λ next' t first' kept.
          subst
            (λ n.
              Completed allocation (rank + length (missing pods (slots_of task task.replicas 0)))
                (missing pods (slots tasks)) t (create_missed api pods allocation n tasks next' t))
            (one_longer before task)
            (create_missed-Completed api pods allocation (before ++ task ∷ []) tasks next' _ t
              accepts (ap (λ j. j.spec.preemptible) kept ∙ fixed)
              (ap (λ j. j.spec.tasks) kept ∙ (e ∙ sym (append_assoc before (task ∷ []) tasks)))
              traced first')))

-- The whole run, from the rank above the one that is found.
pub create_missed_replicas-fills :
    (api : Api) (pods : List Pod) (allocation : List Text) (s : State) (largest : ℕ)
    → IsAccepting api
    → s.job.spec.preemptible ≡ false
    → All (IsTraced pods) s.job.spec.tasks
    → find_max_global_rank pods ≡ inr largest
    → Completed allocation
        (largest + 1)
        (missing pods (slots s.job.spec.tasks))
        s
        (create_missed_replicas api pods allocation s)
unfolding create_missed_replicas
create_missed_replicas-fills api pods allocation s largest accepts fixed traced found =
    create_missed-Completed api pods allocation [] s.job.spec.tasks none (largest + 1) s accepts
      fixed refl traced (λ t. rw found refl)

-- For a job that is not preemptible, on a cluster that accepts every pod, where each pod of a task has
-- a local rank in range, each pod has a global rank, and the largest of them (0 where none is above)
-- is so far below 2^63 that there is room for the ranks of the missing pods: createMissedReplicas returns
-- no error and creates a pod for each replica that has none, in order, with its task and its local rank,
-- and none else; their global ranks are consecutive, from one above the largest.
pub create_missed_replicas-Completed :
    (api : Api) (pods : List Pod) (allocation : List Text) (s : State) (largest : ℕ)
    → IsAccepting api
    → s.job.spec.preemptible ≡ false
    → All (IsTraced pods) s.job.spec.tasks
    → find_max_global_rank pods ≡ inr largest
    → largest + length (missing pods (slots s.job.spec.tasks)) < 9223372036854775808
    → IsLargest largest pods
      × Completed allocation
          (largest + 1)
          (missing pods (slots s.job.spec.tasks))
          s
          (create_missed_replicas api pods allocation s)
create_missed_replicas-Completed api pods allocation s largest accepts fixed traced found small = (
  find_max_global_rank-IsLargest pods largest found,
  create_missed_replicas-fills api pods allocation s largest accepts fixed traced found,
)
