-- ===== src/Controller/Replicas/Neighbours.antt =====
-- What the pods of a job know of each other, once buildAndCreatePods has built them.
use di_orchestrator.Base.{
  ℕ, zero, suc, ◌+◌, ◌≡◌, refl, sym, subst, ap, ◌∙◌, true, Option, none, some, List, [], ◌∷◌, ◌++◌,
  append_assoc, arith, length, get_elem?, map, All,
}
use di_orchestrator.Text.{Text, codes, join, itoa}
use di_orchestrator.Kube.{Pod}
use di_orchestrator.Job.{DiJob, Task}
use di_orchestrator.Machine.{Settings}
use di_orchestrator.Utils.Spec.{get_env_from_pod}
use di_orchestrator.Pods.Build.{fqdns}
use di_orchestrator.Pods.Build.Addresses.{
  address, slot_address, Untold, Told, build_pod-Told, fqdns-slots,
}
use di_orchestrator.Controller.Replicas.{build_task, build_pods, push, append}
use di_orchestrator.Controller.Replicas.Built.{
  Slot, slots_of, slots, get_elem?-middle, one_longer, length-slots_of,
}

-- The pods are told of the slots one by one, with ranks from `rank` upwards.
abbrev AllTold : Settings → DiJob → ℕ → List Slot → List Pod → Type 0
AllTold settings job rank [] [] = Unit
AllTold settings job rank [] (_ ∷ _) = ⊥
AllTold settings job rank (_ ∷ _) [] = ⊥
AllTold settings job rank ((task, i) ∷ ss) (pod ∷ pods) =
    Told settings job rank task i pod × AllTold settings job (suc rank) ss pods

push-some :
    (o : Option Pod) (r : Option (List Pod)) (pods : List Pod)
    → push o r ≡ some pods
    → (pod : Pod) × (rest : List Pod) × (o ≡ some pod) × (r ≡ some rest) × (pod ∷ rest ≡ pods)
push-some none r pods e = cc
push-some (some pod) none pods e = cc
push-some (some pod) (some rest) pods e = (pod, rest, refl, refl, cc)

append-some :
    (o r : Option (List Pod)) (pods : List Pod)
    → append o r ≡ some pods
    → (ps : List Pod) × (rest : List Pod) × (o ≡ some ps) × (r ≡ some rest) × (ps ++ rest ≡ pods)
append-some none r pods e = cc
append-some (some ps) none pods e = cc
append-some (some ps) (some rest) pods e = (ps, rest, refl, refl, cc)

module _ (settings : Settings) (job : DiJob) (allocation : List Text) where
  AllTold-append :
      (rank : ℕ) (ss : List Slot) (pods : List Pod) (ss' : List Slot) (pods' : List Pod)
      → AllTold settings job rank ss pods
      → AllTold settings job (length ss + rank) ss' pods'
      → AllTold settings job rank (ss ++ ss') (pods ++ pods')
  AllTold-append rank [] [] ss' pods' h k =
      subst (λ r. AllTold settings job r ss' pods') (omega arith) k
  AllTold-append rank [] (_ ∷ _) ss' pods' h k = absurd h
  AllTold-append rank (_ ∷ _) [] ss' pods' h k = absurd h
  AllTold-append rank (s ∷ ss) (pod ∷ pods) ss' pods' h k = (
    h.0,
    AllTold-append (suc rank) ss pods ss' pods' h.1
        (subst (λ r. AllTold settings job r ss' pods') (omega arith) k),
  )

  build_task-AllTold :
      (num n i rank : ℕ) (task : Task) (pods : List Pod)
      → get_elem? job.spec.tasks num ≡ some task
      → Untold task
      → build_task settings job allocation num n i rank ≡ some pods
      → AllTold settings job rank (slots_of task n i) pods
  unfolding build_task
  build_task-AllTold num zero i rank task [] at untold e = tt
  build_task-AllTold num zero i rank task (_ ∷ _) at untold e = cc
  build_task-AllTold num (suc n) i rank task pods at untold e =
      let (pod, rest, one, more, all) = push-some _ _ pods e in
      subst (λ ps. AllTold settings job rank ((task, i) ∷ slots_of task n (suc i)) ps) all
        (
          build_pod-Told settings job rank allocation num i task pod at untold one,
          build_task-AllTold num n (suc i) (suc rank) task rest at untold more,
        )

  build_pods-AllTold :
      (before tasks : List Task) (rank : ℕ) (pods : List Pod)
      → job.spec.tasks ≡ before ++ tasks
      → All Untold tasks
      → build_pods settings job allocation (length before) rank tasks ≡ some pods
      → AllTold settings job rank (slots tasks) pods
  unfolding build_pods
  build_pods-AllTold before [] rank [] same untold e = tt
  build_pods-AllTold before [] rank (_ ∷ _) same untold e = cc
  build_pods-AllTold before (task ∷ tasks) rank pods same untold e =
      let (ps, rest, one, more, all) = append-some _ _ pods e in
      subst (λ qs. AllTold settings job rank (slots (task ∷ tasks)) qs) all
        (AllTold-append rank (slots_of task task.replicas 0) ps (slots tasks) rest
          (build_task-AllTold (length before) task.replicas 0 rank task ps
            (rw same (get_elem?-middle before task tasks)) untold.0 one)
          (subst (λ r. AllTold settings job r (slots tasks) rest)
            (omega (arith, length-slots_of task task.replicas 0))
            (build_pods-AllTold (before ++ task ∷ []) tasks (rank + task.replicas) rest
              (same ∙ sym (append_assoc before (task ∷ []) tasks)) untold.1
              (subst
                (λ n. build_pods settings job allocation n (rank + task.replicas) tasks ≡ some rest)
                (sym (one_longer before task)) more))))

AllTold-address :
    (settings : Settings) (job : DiJob) (rank : ℕ) (ss : List Slot) (pods : List Pod)
    → AllTold settings job rank ss pods
    → map (address settings) pods ≡ map (slot_address settings job) ss
AllTold-address settings job rank [] [] h = refl
AllTold-address settings job rank [] (_ ∷ _) h = absurd h
AllTold-address settings job rank (_ ∷ _) [] h = absurd h
AllTold-address settings job rank ((task, i) ∷ ss) (pod ∷ pods) h =
    rw (h.0.found_at, AllTold-address settings job (suc rank) ss pods h.1) refl

-- What the pod at an index is told.
AllTold-get_elem? :
    (settings : Settings) (job : DiJob) (rank r : ℕ) (ss : List Slot) (pods : List Pod) (pod : Pod)
    → AllTold settings job rank ss pods
    → get_elem? pods r ≡ some pod
    → (get_env_from_pod pod (codes "DI_RANK") ≡ (itoa (rank + r), true))
      × (get_env_from_pod pod (codes "DI_NODES")
          ≡ (join (codes ",") (fqdns settings job job.spec.tasks), true))
AllTold-get_elem? settings job rank r [] [] pod h e = cc
AllTold-get_elem? settings job rank r [] (_ ∷ _) pod h e = absurd h
AllTold-get_elem? settings job rank r (_ ∷ _) [] pod h e = absurd h
AllTold-get_elem? settings job rank zero ((task, i) ∷ ss) (p ∷ pods) pod h e =
    subst
      (λ q.
        (get_env_from_pod q (codes "DI_RANK") ≡ (itoa (rank + 0), true))
        × (get_env_from_pod q (codes "DI_NODES")
            ≡ (join (codes ",") (fqdns settings job job.spec.tasks), true)))
      (some-inj e) (h.0.rank_told ∙ ap (λ n. (itoa n, true)) (omega arith), h.0.nodes_told)
  where
    some-inj : {a b : Pod} → some a ≡ some b → a ≡ b
    some-inj f = cc
AllTold-get_elem? settings job rank (suc r) ((task, i) ∷ ss) (p ∷ pods) pod h e =
    let (rank_is, nodes_are) = AllTold-get_elem? settings job (suc rank) r ss pods pod h.1 e in
    (rank_is ∙ ap (λ n. (itoa n, true)) (omega arith), nodes_are)

-- If the template of each task has a container for them that does not set these variables itself, each
-- of the pods that are built for a job finds its own index among them in DI_RANK, and the host names of
-- all of them, in order and separated by commas, in DI_NODES: its own stands at the place that DI_RANK
-- says.
pub build_pods-told :
    (settings : Settings) (job : DiJob) (allocation : List Text) (pods : List Pod) (r : ℕ)
    (pod : Pod)
    → All Untold job.spec.tasks
    → build_pods settings job allocation 0 0 job.spec.tasks ≡ some pods
    → get_elem? pods r ≡ some pod
    → (get_env_from_pod pod (codes "DI_RANK") ≡ (itoa r, true))
      × (get_env_from_pod pod (codes "DI_NODES")
          ≡ (join (codes ",") (map (address settings) pods), true))
build_pods-told settings job allocation pods r pod untold built at =
    let told =
      build_pods-AllTold settings job allocation [] job.spec.tasks 0 pods refl untold built in
    let (rank_is, nodes_are) =
      AllTold-get_elem? settings job 0 r (slots job.spec.tasks) pods pod told at in
    let found =
      AllTold-address settings job 0 (slots job.spec.tasks) pods told
      ∙ sym (fqdns-slots settings job job.spec.tasks) in
    (
      rank_is ∙ ap (λ n. (itoa n, true)) (omega arith),
      nodes_are ∙ ap (λ l. (join (codes ",") l, true)) (sym found),
    )
