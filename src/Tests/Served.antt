-- ===== src/Tests/Served.antt =====
-- The theorem about a request for the replicas of a job, at a job with its pods.
use di_orchestrator.Base.{◌≡◌, subst, refl, true, some, List, [], ◌∷◌, ◌++◌, inr, pos, arith, map}
use di_orchestrator.Text.{codes}
use di_orchestrator.Kube.{Pod}
use di_orchestrator.Machine.{ok, Api}
use di_orchestrator.Pods.Build.{total_replicas}
use di_orchestrator.Controller.Replicas.{build_pods}
use di_orchestrator.Controller.Replicas.Built.{Stand, slots, build_pods_lem}
use di_orchestrator.Controller.Steps.Lifecycle.Stored.{Seen-Stand}
use di_orchestrator.Server.Responses.{handle_get}
use di_orchestrator.Server.Replicas.{address_of, handle_get-Stand}
use di_orchestrator.Tests.{api, settings, state_of}
use di_orchestrator.Tests.Neighbours.{free, built, three_built}

-- The pods of the job, each with an address.
abbrev addressed : Pod → Pod
addressed pod = record pod { status = record pod.status { pod_ip = codes "10.0.0.7" } }

abbrev peopled : Api
peopled = record api {
  get_job = λ calls key. inr free;
  list_pods = λ calls options. inr (map addressed built);
}

built-Stand : Stand free [] 0 (slots free.spec.tasks) built
built-Stand =
    let (pods, e, stand) = build_pods_lem settings free [] (λ p. cc) in
    subst (Stand free [] 0 (slots free.spec.tasks)) (same pods e) stand
  where
    same :
        (pods : List Pod)
        → build_pods settings free [] 0 0 free.spec.tasks ≡ some pods
        → pods ≡ built
    same pods e = cc three_built

addressed-Stand : Stand free [] 0 (slots free.spec.tasks) (map addressed built)
addressed-Stand =
    Seen-Stand free free.status [] 0 (slots free.spec.tasks) (map addressed built) built
      ((refl, inr refl), ((refl, inr refl), ((refl, inr refl), tt))) built-Stand

handle_get-Stand_example :
    (handle_get peopled (λ t. pos 0) (codes "default" ++ b'.' ∷ codes "cartpole") (state_of free)).0
    ≡ ok (
      record {
        success = true;
        code = 0;
        message = codes "successfully get replicas";
        reps = some (map address_of (map addressed built));
      },
      200,
    )
unfolding total_replicas
handle_get-Stand_example =
    handle_get-Stand peopled (λ t. pos 0) (codes "default") (codes "cartpole") (state_of free) free
      [] (map addressed built) (refl, (refl, (refl, (refl, (refl, (refl, (refl, tt)))))))
      (refl, (refl, (refl, (refl, (refl, (refl, (refl, (refl, tt)))))))) refl refl refl
      addressed-Stand (omega arith) refl
