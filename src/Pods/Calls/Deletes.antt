-- ===== src/Pods/Calls/Deletes.antt =====
-- The effect of one call of CreatePod and DeletePod, and of DeletePods.
use di_orchestrator.Base.{
  ◌≡◌, refl, ◌∙◌, sym, ◌≢◌, ◌⊎◌, inl, inr, Option, none, some, List, [], ◌∷◌, ◌++◌, append_assoc,
  append-nil, Bool,
}
use di_orchestrator.Text.{Text, codes}
use di_orchestrator.Kube.{Pod, Service}
use di_orchestrator.Machine.{
  Error, Result, ok, err, panic, EventType, State, Action, Api, Call, after, caught, lift_error,
  logged, record_event,
}
use di_orchestrator.Machine.Log.{
  deleted_pods, created_pods, deleted_pods-append, created_pods-append,
}
use di_orchestrator.Pods.Calls.{
  create_pod, create_service, delete_pod, delete_service, tolerated, finish, report_failure,
  delete_pods_from, delete_pods, next_error,
}

-- A call that began at `s` has ended with a value or an error and no panic, the job stays, and the
-- log asks for these pods to be created and to be deleted.
pub record Effect {A : Type 0} (s : State) (out : Result A × State) (created deleted : List Pod)
    : Type 0 where
  pub ends : out.0 ≢ panic
  pub job_kept : out.1.job ≡ s.job
  pub settings_kept : out.1.settings ≡ s.settings
  pub created_now : created_pods out.1.calls ≡ created_pods s.calls ++ created
  pub deleted_now : deleted_pods out.1.calls ≡ deleted_pods s.calls ++ deleted

-- Nothing was asked.
pub same-Effect : {A : Type 0} (s : State) (r : Result A) → r ≢ panic → Effect s (r, s) [] []
same-Effect s r h = record {
  ends = h;
  job_kept = refl;
  settings_kept = refl;
  created_now = sym (append-nil (created_pods s.calls));
  deleted_now = sym (append-nil (deleted_pods s.calls));
}

-- One more call in the log.
logged-Effect :
    (c : Call) (s : State) (r : Result (Unit {0}))
    → r ≢ panic
    → Effect s (r, logged c s) (created_pods (c ∷ [])) (deleted_pods (c ∷ []))
logged-Effect c s r h = record {
  ends = h;
  job_kept = refl;
  settings_kept = refl;
  created_now = created_pods-append s.calls (c ∷ []);
  deleted_now = deleted_pods-append s.calls (c ∷ []);
}

lift_error-Effect :
    (c : Call) (s : State) (o : Option Error)
    → Effect s (lift_error o (logged c s)) (created_pods (c ∷ [])) (deleted_pods (c ∷ []))
lift_error-Effect c s none = logged-Effect c s (ok tt) (λ e. cc)
lift_error-Effect c s (some x) = logged-Effect c s (err x) (λ e. cc)

-- One effect after another.
pub Effect-trans :
    {A B : Type 0} {s : State} {t : Result A × State} {out : Result B × State}
    {c d c' d' : List Pod}
    → Effect s t c d
    → Effect t.1 out c' d'
    → Effect s out (c ++ c') (d ++ d')
Effect-trans {s} {t} {c} {d} {c'} {d'} h k = record {
  ends = k.ends;
  job_kept = k.job_kept ∙ h.job_kept;
  settings_kept = k.settings_kept ∙ h.settings_kept;
  created_now = rw (k.created_now, h.created_now) (append_assoc (created_pods s.calls) c c');
  deleted_now = rw (k.deleted_now, h.deleted_now) (append_assoc (deleted_pods s.calls) d d');
}

-- What comes after a call whose error is caught.
pub caught-Effect :
    {A B : Type 0} {s : State} (out : Result A × State) (k : Error ⊎ A → Action B)
    {c d c' d' : List Pod}
    → Effect s out c d
    → ((r : Error ⊎ A) → Effect out.1 (k r out.1) c' d')
    → Effect s (after (caught out) k) (c ++ c') (d ++ d')
caught-Effect (ok a, t) k h next = Effect-trans h (next (inr a))
caught-Effect (err e, t) k h next = Effect-trans h (next (inl e))
caught-Effect (panic, t) k h next = absurd (h.ends refl)

-- The event, and the error if there is one.
finish-Effect :
    (passed : Error → Bool) (verb done failed_reason done_reason kind name : Text)
    (r : Error ⊎ Unit {0}) (s : State)
    → Effect s (finish passed verb done failed_reason done_reason kind name r s) [] []
unfolding finish
finish-Effect passed verb done failed_reason done_reason kind name r s = go (tolerated passed r)
  where
    go :
        (o : Option Error)
        → Effect s
            ((elim o as (λ _. Action (Unit {0})) [
              | some e ↦ report_failure verb failed_reason kind name e
              | none ↦
                  record_event EventType.normal done_reason
                    (kind ++ codes " " ++ name ++ codes " was successfully " ++ done)
            ])
              s)
            []
            []
    go none = logged-Effect _ s (ok tt) (λ e. cc)
    go (some x) = logged-Effect _ s (err _) (λ e. cc)

pub delete_pod-Effect :
    (api : Api) (pod : Pod) (s : State) → Effect s (delete_pod api pod s) [] (pod ∷ [])
unfolding delete_pod
delete_pod-Effect api pod s =
    caught-Effect (lift_error (api.delete_pod s.calls pod) (logged (Call.delete_pod pod) s)) _
      (lift_error-Effect (Call.delete_pod pod) s (api.delete_pod s.calls pod))
      (λ r. finish-Effect _ _ _ _ _ _ _ r _)

pub delete_service-Effect :
    (api : Api) (svc : Service) (s : State) → Effect s (delete_service api svc s) [] []
unfolding delete_service
delete_service-Effect api svc s =
    caught-Effect (lift_error (api.delete_service s.calls svc) (logged (Call.delete_service svc) s))
      _ (lift_error-Effect (Call.delete_service svc) s (api.delete_service s.calls svc))
      (λ r. finish-Effect _ _ _ _ _ _ _ r _)

pub create_pod-Effect :
    (api : Api) (pod : Pod) (s : State) → Effect s (create_pod api pod s) (pod ∷ []) []
unfolding create_pod
create_pod-Effect api pod s =
    caught-Effect (lift_error (api.create_pod s.calls pod) (logged (Call.create_pod pod) s)) _
      (lift_error-Effect (Call.create_pod pod) s (api.create_pod s.calls pod))
      (λ r. finish-Effect _ _ _ _ _ _ _ r _)

pub create_service-Effect :
    (api : Api) (svc : Service) (s : State) → Effect s (create_service api svc s) [] []
unfolding create_service
create_service-Effect api svc s =
    caught-Effect (lift_error (api.create_service s.calls svc) (logged (Call.create_service svc) s))
      _ (lift_error-Effect (Call.create_service svc) s (api.create_service s.calls svc))
      (λ r. finish-Effect _ _ _ _ _ _ _ r _)

delete_pods_from-lem :
    (api : Api) (pods : List Pod) (s : State)
    → Effect s (delete_pods_from api pods none s) [] pods
      × ((delete_pods_from api pods none s).0 ≡ ok tt)
unfolding delete_pods_from
delete_pods_from-lem api [] s = (same-Effect s (ok tt) (λ e. cc), refl)
delete_pods_from-lem api (pod ∷ pods) s =
    let one = delete_pod-Effect api pod s in
    let rest = delete_pods_from-lem api pods (delete_pod api pod s).1 in
    go (delete_pod api pod s) one rest
  where
    go :
        (out : Result (Unit {0}) × State)
        → Effect s out [] (pod ∷ [])
        → Effect out.1 (delete_pods_from api pods none out.1) [] pods
          × ((delete_pods_from api pods none out.1).0 ≡ ok tt)
        → let last = after (caught out) (λ r. delete_pods_from api pods (next_error none r)) in
          Effect s last [] (pod ∷ pods) × (last.0 ≡ ok tt)
    go (ok a, t) h k = (Effect-trans h k.0, k.1)
    go (err e, t) h k = (Effect-trans h k.0, k.1)
    go (panic, t) h k = absurd (h.ends refl)

-- DeletePods asks the cluster to delete every pod, in order, and says that all went well, whatever
-- the cluster answers.
pub delete_pods_lem :
    (api : Api) (pods : List Pod) (s : State)
    → Effect s (delete_pods api pods s) [] pods × ((delete_pods api pods s).0 ≡ ok tt)
unfolding delete_pods
delete_pods_lem api pods s = delete_pods_from-lem api pods s
