-- ===== src/Controller/Steps/Lifecycle/Resumed.antt =====
-- pkg/controllers/dijob.go and pkg/context/pod.go together: what is listed and built once the pods of a
-- job that is rescheduled are deleted, on a cluster that keeps the pods.
use mathlib.Core.Path.{subst₂}
use di_orchestrator.Base.{
  inr, suc, ◌≤◌, ◌≡◌, refl, sym, subst, ap, ◌∙◌, true, not, none, List, [], ◌∷◌, ◌++◌, length,
  filter, All, append-nil,
}
use di_orchestrator.Text.{Text, replace_byte}
use di_orchestrator.Dict.{Dict}
use di_orchestrator.Kube.{Pod, ListOptions}
use di_orchestrator.Job.{DiJob, Phase, label_job, label_operator, operator_name}
use di_orchestrator.Machine.{State, ok, Api, Call, logged}
use di_orchestrator.Machine.Store.{kept, is_selected, holds, Keeps, Seen}
use di_orchestrator.Machine.Store.Removed.{
  remove_all, remove_all-filter, remove_all-Seen, remove_all-holds, filter-not,
}
use di_orchestrator.Utils.Names.{replica_name}
use di_orchestrator.Utils.Spec.{gen_labels}
use di_orchestrator.Utils.Validator.{task_type_name_validator}
use di_orchestrator.Pods.Build.{total_replicas}
use di_orchestrator.Pods.Calls.{list_job_pods, options_for}
use di_orchestrator.Controller.Replicas.Built.{Slot, Stand, slots}
use di_orchestrator.Controller.Checks.{update_status_replicas}
use di_orchestrator.Controller.Steps.{reconcile_with_job_status}
use di_orchestrator.Controller.Steps.Crash.{update_status_replicas-Kept}
use di_orchestrator.Controller.Steps.Lifecycle.{Gets, counted, IsStanding}
use di_orchestrator.Controller.Steps.Lifecycle.Stored.{
  HasSlot, Stand-selected, Seen-Stand, Seen-nil,
}
use di_orchestrator.Controller.Steps.Lifecycle.Again.{list_job_pods-Seen, kept_listed, selected_new}
use di_orchestrator.Controller.Steps.Lifecycle.Rebuilt.{reconcile-Rebuilt}

pub Seen-IsStanding :
    (seen pods : List Pod) → Seen seen pods → All IsStanding pods → All IsStanding seen
Seen-IsStanding [] [] h k = tt
Seen-IsStanding [] (_ ∷ _) h k = absurd h
Seen-IsStanding (_ ∷ _) [] h k = absurd h
Seen-IsStanding (p ∷ seen) (q ∷ pods) h k =
    (ap (λ r. r.deletion_timestamp) h.0.0 ∙ k.0, Seen-IsStanding seen pods h.1 k.1)

pub Seen-length : (seen pods : List Pod) → Seen seen pods → length seen ≡ length pods
Seen-length [] [] h = refl
Seen-length [] (_ ∷ _) h = absurd h
Seen-length (_ ∷ _) [] h = absurd h
Seen-length (p ∷ seen) (q ∷ pods) h = ap suc (Seen-length seen pods h.1)

Seen-refl : (pods : List Pod) → Seen pods pods
Seen-refl [] = tt
Seen-refl (p ∷ pods) = ((refl, inr refl), Seen-refl pods)

-- The pods of a job among those that are held, and the others.
abbrev pub own : DiJob → List Pod → List Pod
own job held = filter (is_selected (options_for job)) held

abbrev pub others : DiJob → List Pod → List Pod
others job held = filter (λ p. not (is_selected (options_for job) p)) held

-- Once the job's pods are deleted, those that are left are the others.
own-removed :
    (job : DiJob) (old held : List Pod)
    → Seen old (own job held)
    → own job (remove_all old held) ≡ []
own-removed job old held seen =
    remove_all-filter (is_selected (options_for job)) old held ∙ remove_all-Seen old _ seen

removed-others :
    (job : DiJob) (old held : List Pod)
    → Seen old (own job held)
    → remove_all old held ≡ remove_all old (others job held)
removed-others job old held seen =
    sym (
      filter-not (is_selected (options_for job)) (remove_all old held)
        (own-removed job old held seen))
    ∙ remove_all-filter (λ p. not (is_selected (options_for job) p)) old held

HasSlot-removed :
    (job : DiJob) (old held : List Pod) (ss : List Slot)
    → Seen old (own job held)
    → All (HasSlot job (others job held)) ss
    → All (HasSlot job (remove_all old held)) ss
HasSlot-removed job old held [] seen room = tt
HasSlot-removed job old held ((task, i) ∷ ss) seen room = (
  ap (holds job.namespace (replica_name job.name task.name i)) (removed-others job old held seen)
      ∙ remove_all-holds old job.namespace (replica_name job.name task.name i) (others job held)
          room.0,
  HasSlot-removed job old held ss seen room.1,
)

-- The labels and the selector of a job depend on its namespace and its name alone.
gen_labels-name : (a b : DiJob) → a.name ≡ b.name → gen_labels a ≡ gen_labels b
unfolding gen_labels
gen_labels-name a b e =
    ap (λ n. (label_job, replace_byte b'/' b'-' n) ∷ (label_operator, operator_name) ∷ []) e

options_for-name :
    (a b : DiJob) → a.namespace ≡ b.namespace → a.name ≡ b.name → options_for a ≡ options_for b
options_for-name a b e f =
    let with_namespace : Text → ListOptions =
      λ n. record { namespace = n; match_labels = gen_labels a } in
    let with_labels : Dict Text → ListOptions =
      λ l. record { namespace = b.namespace; match_labels = l } in
    ap with_namespace e ∙ ap with_labels (gen_labels-name a b f)

-- What comes after the pods of a job were deleted, in the state `f`.
pub record Resumes (api : Api) (s f : State) : Type 0 where
  pub none_left : (list_job_pods api f).0 ≡ ok []
  pub second :
      Gets Phase.starting
        (list_job_pods api f).1
        (reconcile_with_job_status api [] (list_job_pods api f).1)
  pub new : List Pod
  pub listed :
      (list_job_pods api (reconcile_with_job_status api [] (list_job_pods api f).1).1).0 ≡ ok new
  pub stand : Stand s.job s.job.status.allocation 0 (slots s.job.spec.tasks) new

module _ (api : Api) (initial old : List Pod) (s : State) (keeps : Keeps api initial)
    (valid : api.selector_error (gen_labels s.job) ≡ none)
    (seen : Seen old (own s.job (kept initial s.calls))) where
  abbrev pub left : List Pod
  left = remove_all old (kept initial s.calls)

  -- The list of a state in which the job has its namespace and its name, and new pods are held.
  relisted :
      (g : State) (new : List Pod)
      → g.job.namespace ≡ s.job.namespace
      → g.job.name ≡ s.job.name
      → kept initial g.calls ≡ left ++ new
      → All (λ p. is_selected (options_for s.job) p ≡ true) new
      → (pods : List Pod) × (list_job_pods api g
          ≡ (ok pods, logged (Call.list_pods (options_for g.job)) g))
        × Seen pods new
  relisted g new ns name now all_new =
      let (pods, e, found) =
        list_job_pods-Seen api initial g keeps
          (ap api.selector_error (gen_labels-name g.job s.job name) ∙ valid) in
      let same =
        ap (λ o. filter (is_selected o) (kept initial g.calls))
          (options_for-name g.job s.job ns name)
        ∙ (ap (filter (is_selected (options_for s.job))) now
            ∙ selected_new s.job left new (own-removed s.job old (kept initial s.calls) seen)
                all_new) in
      (pods, e, subst (Seen pods) same found)

  pub resumes :
      (f : State)
      → f.job ≡ (counted old s).job
      → kept initial f.calls ≡ left
      → task_type_name_validator s.job ≡ none
      → s.job.status.phase ≡ Phase.rescheduling
      → s.job.spec.preemptible ≡ true
      → total_replicas s.job.spec.tasks ≤ length s.job.status.allocation
      → All (HasSlot s.job (others s.job (kept initial s.calls))) (slots s.job.spec.tasks)
      → Resumes api s f
  unfolding update_status_replicas task_type_name_validator gen_labels
  resumes f job_is now accepted p moving fits room =
      let k = update_status_replicas-Kept old (total_replicas s.job.spec.tasks) s.job in
      let (none_, e, found) =
        relisted f [] (ap (λ j. j.namespace) job_is) (ap (λ j. j.name) job_is)
          (now ∙ sym (append-nil left)) tt in
      let t = logged (Call.list_pods (options_for f.job)) f in
      let same = kept_listed initial f ∙ now in
      let allocation_is = ap (λ j. j.status.allocation) job_is ∙ k.allocation_kept in
      let free =
        HasSlot-removed s.job old (kept initial s.calls) (slots s.job.spec.tasks) seen room in
      let r =
        reconcile-Rebuilt api initial t keeps (ap task_type_name_validator job_is ∙ accepted)
          (ap (λ j. j.status.phase) job_is ∙ (k.phase_kept ∙ p))
          (ap (λ j. j.spec.preemptible) job_is ∙ moving)
          (subst₂ (λ a b. total_replicas a ≤ length b) (sym (ap (λ j. j.spec.tasks) job_is))
            (sym allocation_is) fits)
          (subst (λ l. All (HasSlot f.job l) (slots f.job.spec.tasks)) (sym same)
            (subst (λ j. All (HasSlot j left) (slots j.spec.tasks)) (sym job_is) free)) in
      let all_new =
        subst (λ o. All (λ q. is_selected o q ≡ true) r.new) (ap options_for job_is)
          (Stand-selected (counted [] t).job f.job.status.allocation 0 (slots f.job.spec.tasks)
            r.new r.stand) in
      let (pods, e', found') =
        relisted (reconcile_with_job_status api [] t).1 r.new
          (r.namespace_kept ∙ ap (λ j. j.namespace) job_is) (r.name_kept ∙ ap (λ j. j.name) job_is)
          (r.kept_now ∙ ap (λ l. l ++ r.new) same) all_new in
      let stand =
        Seen-Stand f.job (counted [] t).job.status f.job.status.allocation 0
          (slots f.job.spec.tasks) pods r.new found' r.stand in
      let stand' =
        Seen-Stand s.job (counted old s).job.status f.job.status.allocation 0
          (slots s.job.spec.tasks) pods pods (Seen-refl pods)
          (subst (λ j. Stand j f.job.status.allocation 0 (slots j.spec.tasks) pods) job_is stand) in
      let at = sym (ap (λ out. out.1) e) in
      record {
        none_left = ap (λ out. out.0) e ∙ ap ok (Seen-nil none_ found);
        second = subst (λ u. Gets Phase.starting u (reconcile_with_job_status api [] u)) at r.gets;
        new = pods;
        listed =
            subst (λ u. (list_job_pods api (reconcile_with_job_status api [] u).1).0 ≡ ok pods) at
              (ap (λ out. out.0) e');
        stand = subst (λ a. Stand s.job a 0 (slots s.job.spec.tasks) pods) allocation_is stand';
      }
