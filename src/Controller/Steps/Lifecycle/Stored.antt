-- ===== src/Controller/Steps/Lifecycle/Stored.antt =====
-- Creating the pods of a job on a cluster that keeps them (pkg/controllers/dijob.go, pkg/context/pod.go).
use di_orchestrator.Base.{
  ℕ, suc, ◌≡◌, refl, sym, subst, ap, ◌∙◌, true, false, ◌⊎◌, inl, inr, List, [], ◌∷◌, ◌++◌,
  append_assoc, append-nil, arith, All,
}
use di_orchestrator.Text.{Text, text_eq, text_eq_iff, text_eq_refl}
use di_orchestrator.Dict.{lookup}
use di_orchestrator.Kube.{Pod}
use di_orchestrator.Job.{DiJob, DiJobStatus, Task}
use di_orchestrator.Machine.{Error, State, Result, ok, err, panic, Action, Api, Call, after, caught}
use di_orchestrator.Machine.Store.{
  kept, kept-append, holds, holds-append, after_create, is_selected, Keeps, Seen, IsSame,
}
use di_orchestrator.Utils.Names.{replica_name}
use di_orchestrator.Utils.Spec.{gen_labels}
use di_orchestrator.Pods.Build.Annotations.{IsBuilt}
use di_orchestrator.Pods.Calls.{create_pod, finish, options_for}
use di_orchestrator.Controller.Replicas.{create_built}
use di_orchestrator.Controller.Replicas.Built.{Slot, Stand}
use di_orchestrator.Controller.Replicas.Names.{Pairwise, Distinguished}

-- The calls ended well, and the cluster now holds these pods besides those it held.
pub record Stored (initial : List Pod) (s : State) (out : Result (Unit {0}) × State)
    (new : List Pod) : Type 0 where
  pub ends_ok : out.0 ≡ ok tt
  pub job_kept : out.1.job ≡ s.job
  pub kept_now : kept initial out.1.calls ≡ kept initial s.calls ++ new

-- No pod of that name is there.
abbrev pub HasRoom : List Pod → Pod → Type 0
HasRoom held pod = holds pod.namespace pod.name held ≡ false

create_pod-Stored :
    (api : Api) (initial : List Pod) (pod : Pod) (s : State)
    → Keeps api initial
    → HasRoom (kept initial s.calls) pod
    → Stored initial s (create_pod api pod s) (pod ∷ [])
unfolding create_pod finish kept
create_pod-Stored api initial pod s keeps room = rw (keeps.creates s.calls pod room) (record {
  ends_ok = refl;
  job_kept = refl;
  kept_now =
      kept-append initial (s.calls ++ Call.create_pod pod ∷ []) (_ ∷ [])
      ∙ (kept-append initial s.calls (Call.create_pod pod ∷ []) ∙ after_create _ pod room);
})

Stored-cons :
    {initial : List Pod} {s : State} {pod : Pod} {pods : List Pod} (out : Result (Unit {0}) × State)
    (k : Error ⊎ Unit {0} → Action (Unit {0}))
    → Stored initial s out (pod ∷ [])
    → ((t : State)
        → kept initial t.calls ≡ kept initial s.calls ++ pod ∷ []
        → Stored initial t (k (inr tt) t) pods)
    → Stored initial s (after (caught out) k) (pod ∷ pods)
Stored-cons {initial} {s} {pod} {pods} (ok a, t) k h rest =
    let r = rest t h.kept_now in
    record {
      ends_ok = r.ends_ok;
      job_kept = r.job_kept ∙ h.job_kept;
      kept_now =
          r.kept_now
          ∙ (ap (λ l. l ++ pods) h.kept_now ∙ append_assoc (kept initial s.calls) (pod ∷ []) pods);
    }
Stored-cons (err x, t) k h rest = cc h.ends_ok
Stored-cons (panic, t) k h rest = cc h.ends_ok

HasRoom-append :
    (held : List Pod) (pod : Pod) (pods : List Pod)
    → All (HasRoom held) pods
    → All (Distinguished pod) pods
    → All (HasRoom (held ++ pod ∷ [])) pods
HasRoom-append held pod [] h k = tt
HasRoom-append held pod (p ∷ pods) h k = (
  holds-append p.namespace p.name held pod h.0 (ground (arith, text_eq_iff pod.name p.name, k.0)),
  HasRoom-append held pod pods h.1 k.1,
)

-- Pods with names that are free and different are all created.
pub create_built-Stored :
    (api : Api) (initial built pods : List Pod) (s : State)
    → Keeps api initial
    → All (HasRoom (kept initial s.calls)) pods
    → Pairwise Distinguished pods
    → Stored initial s (create_built api built pods s) pods
unfolding create_built
create_built-Stored api initial built [] s keeps room apart = record {
  ends_ok = refl;
  job_kept = refl;
  kept_now = sym (append-nil _);
}
create_built-Stored api initial built (pod ∷ pods) s keeps room apart =
    Stored-cons (create_pod api pod s) _ (create_pod-Stored api initial pod s keeps room.0) (λ t e.
      create_built-Stored api initial built pods t keeps
        (subst (λ l. All (HasRoom l) pods) (sym e)
          (HasRoom-append (kept initial s.calls) pod pods room.1 apart.0))
        apart.1)

-- The name of a replica is free.
abbrev pub HasSlot : DiJob → List Pod → Slot → Type 0
HasSlot job held (task, i) = holds job.namespace (replica_name job.name task.name i) held ≡ false

pub Stand-HasRoom :
    (job : DiJob) (allocation : List Text) (rank : ℕ) (ss : List Slot) (pods held : List Pod)
    → Stand job allocation rank ss pods
    → All (HasSlot job held) ss
    → All (HasRoom held) pods
Stand-HasRoom job allocation rank [] [] held h k = tt
Stand-HasRoom job allocation rank [] (_ ∷ _) held h k = absurd h
Stand-HasRoom job allocation rank (_ ∷ _) [] held h k = absurd h
Stand-HasRoom job allocation rank ((task, i) ∷ ss) (pod ∷ pods) held h k = (
  rw (h.0.namespace_is, h.0.name_is) k.0,
  Stand-HasRoom job allocation (suc rank) ss pods held h.1 k.1,
)

built_selected :
    (job : DiJob) (allocation : List Text) (rank : ℕ) (task : Task) (i : ℕ) (pod : Pod)
    → IsBuilt job allocation rank task i pod
    → is_selected (options_for job) pod ≡ true
unfolding gen_labels lookup text_eq
built_selected job allocation rank task i pod b =
    rw (b.namespace_is, b.job_label_is, b.operator_label_is)
      (rw (text_eq_refl job.namespace, text_eq_refl _) refl)

-- The pods that are built for a job are those that the job's own selector finds.
pub Stand-selected :
    (job : DiJob) (allocation : List Text) (rank : ℕ) (ss : List Slot) (pods : List Pod)
    → Stand job allocation rank ss pods
    → All (λ p. is_selected (options_for job) p ≡ true) pods
Stand-selected job allocation rank [] [] h = tt
Stand-selected job allocation rank [] (_ ∷ _) h = absurd h
Stand-selected job allocation rank (_ ∷ _) [] h = absurd h
Stand-selected job allocation rank ((task, i) ∷ ss) (pod ∷ pods) h = (
  built_selected job allocation rank task i pod h.0,
  Stand-selected job allocation (suc rank) ss pods h.1,
)

-- A node that is assigned is the one of the pod that is seen.
runs_on-IsSame :
    {n : Text} (p q : Pod)
    → IsSame p q
    → (n ≡ []) ⊎ (q.spec.node_name ≡ n)
    → (n ≡ []) ⊎ (p.spec.node_name ≡ n)
runs_on-IsSame p q e (inl unassigned) = inl unassigned
runs_on-IsSame p q (e, inl unset) (inr at) = inl (sym at ∙ unset)
runs_on-IsSame p q (e, inr same) (inr at) = inr (same ∙ at)

-- What BuildPod writes does not depend on the status of the job, and is there in a pod that is seen.
IsBuilt-IsSame :
    (job : DiJob) (st : DiJobStatus) (allocation : List Text) (rank : ℕ) (task : Task) (i : ℕ)
    (p q : Pod)
    → IsSame p q
    → IsBuilt (record job { status = st }) allocation rank task i q
    → IsBuilt job allocation rank task i p
IsBuilt-IsSame job st allocation rank task i p q e b =
    subst (IsBuilt job allocation rank task i) (sym e.0) (record {
      name_is = b.name_is;
      namespace_is = b.namespace_is;
      owner_is = b.owner_is;
      job_label_is = unfold gen_labels in b.job_label_is;
      operator_label_is = unfold gen_labels in b.operator_label_is;
      new = b.new;
      rank_is = b.rank_is;
      replicas_is = b.replicas_is;
      task_rank_is = b.task_rank_is;
      task_name_is = b.task_name_is;
      task_type_is = b.task_type_is;
      node_is = b.node_is;
      runs_on = runs_on-IsSame p q e b.runs_on;
    })

-- Pods that are seen stand for the same replicas as the pods that were created.
pub Seen-Stand :
    (job : DiJob) (st : DiJobStatus) (allocation : List Text) (rank : ℕ) (ss : List Slot)
    (seen pods : List Pod)
    → Seen seen pods
    → Stand (record job { status = st }) allocation rank ss pods
    → Stand job allocation rank ss seen
Seen-Stand job st allocation rank [] [] [] e h = tt
Seen-Stand job st allocation rank (_ ∷ _) [] [] e h = absurd h
Seen-Stand job st allocation rank ss [] (_ ∷ _) e h = absurd e
Seen-Stand job st allocation rank ss (_ ∷ _) [] e h = absurd e
Seen-Stand job st allocation rank [] (_ ∷ _) (_ ∷ _) e h = absurd h
Seen-Stand job st allocation rank ((task, i) ∷ ss) (p ∷ seen) (q ∷ pods) e h = (
  IsBuilt-IsSame job st allocation rank task i p q e.0 h.0,
  Seen-Stand job st allocation (suc rank) ss seen pods e.1 h.1,
)

pub Seen-nil : (seen : List Pod) → Seen seen [] → seen ≡ []
Seen-nil [] h = refl
Seen-nil (_ ∷ _) h = absurd h
