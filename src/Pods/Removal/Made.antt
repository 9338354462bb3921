-- ===== src/Pods/Removal/Made.antt =====
-- The calls that an action has made once it ends well, and the listing of a job's pods and services.
use di_orchestrator.Base.{
  ◌≡◌, refl, sym, ap, subst, ◌∙◌, List, [], ◌∷◌, ◌++◌, map, append-nil, append_assoc, ◌⊎◌, inl, inr,
  Option, none, some,
}
use di_orchestrator.Kube.{Pod, Service}
use di_orchestrator.Job.{DiJob}
use di_orchestrator.Machine.{
  State, Result, ok, err, panic, Error, Action, Api, Call, after, lift, lift_error, logged, send,
  send_error, for_each,
}
use di_orchestrator.Utils.Spec.{gen_labels}
use di_orchestrator.Pods.Calls.{
  list_pods, list_services, list_job_pods, list_job_services, options_for,
}

-- An action that ended well made these calls, and left the job as it was.
pub record Made {A : Type 0} (s : State) (out : Result A × State) (calls : List Call) : Type 0 where
  pub job_kept : out.1.job ≡ s.job
  pub calls_now : out.1.calls ≡ s.calls ++ calls

pub Made-trans :
    {A B : Type 0} {s t : State} {r : Result A} {out : Result B × State} {xs ys : List Call}
    → Made s (r, t) xs
    → Made t out ys
    → Made s out (xs ++ ys)
Made-trans {s} {xs} {ys} h k = record {
  job_kept = k.job_kept ∙ h.job_kept;
  calls_now = k.calls_now ∙ (ap (λ l. l ++ ys) h.calls_now ∙ append_assoc s.calls xs ys);
}

pub send-Made :
    (c : Call) (answer : List Call → Option Error) (s : State)
    → (send_error c answer s).0 ≡ ok tt
    → Made s (send_error c answer s) (c ∷ [])
send-Made c answer s e = go (answer s.calls) e
  where
    go :
        (o : Option Error)
        → (lift_error o (logged c s)).0 ≡ ok tt
        → Made s (lift_error o (logged c s)) (c ∷ [])
    go none f = record { job_kept = refl; calls_now = refl }
    go (some x) f = cc

-- A loop of such calls that ended well made one for each element, in order.
pub for_each-Made :
    {A : Type 0} (call : A → Call) (answer : A → List Call → Option Error) (xs : List A) (s : State)
    → (for_each xs (λ x. send_error (call x) (answer x)) s).0 ≡ ok tt
    → Made s (for_each xs (λ x. send_error (call x) (answer x)) s) (map call xs)
unfolding for_each
for_each-Made call answer [] s e = record { job_kept = refl; calls_now = sym (append-nil s.calls) }
for_each-Made call answer (x ∷ xs) s e =
    go (send_error (call x) (answer x) s) (send-Made (call x) (answer x) s) e
      (λ t f. for_each-Made call answer xs t f)
  where
    loop : Action (Unit {0})
    loop = for_each xs (λ y. send_error (call y) (answer y))

    go :
        (out : Result (Unit {0}) × State)
        → (out.0 ≡ ok tt → Made s out (call x ∷ []))
        → (after out (λ _. loop)).0 ≡ ok tt
        → ((t : State) → (loop t).0 ≡ ok tt → Made t (loop t) (map call xs))
        → Made s (after out (λ _. loop)) (call x ∷ map call xs)
    go (ok tt, t) one f rest = Made-trans (one refl) (rest t f)
    go (err x, t) one f rest = cc
    go (panic, t) one f rest = cc

-- A chain that ended well is its rest, run on what its first action returned.
pub record Chained {A B : Type 0} (out : Result A × State) (k : A → Action B) (b : B) : Type 0 where
  pub value : A
  pub first_ok : out.0 ≡ ok value
  pub rest_ok : (k value out.1).0 ≡ ok b
  pub rest_is : after out k ≡ k value out.1

pub chained :
    {A B : Type 0} (out : Result A × State) (k : A → Action B) (b : B)
    → (after out k).0 ≡ ok b
    → Chained out k b
chained (ok a, t) k b e = record { value = a; first_ok = refl; rest_ok = e; rest_is = refl }
chained (err x, t) k b e = cc
chained (panic, t) k b e = cc

-- Each of the calls for these elements, made one after the other, was answered with no error.
abbrev pub Accepted :
    {A : Type 0} → (A → Call) → (A → List Call → Option Error) → List A → List Call → Type 0
Accepted call answer [] calls = Unit
Accepted call answer (x ∷ xs) calls =
    (answer x calls ≡ none) × Accepted call answer xs (calls ++ call x ∷ [])

pub send-accepted :
    (c : Call) (answer : List Call → Option Error) (s : State)
    → (send_error c answer s).0 ≡ ok tt
    → answer s.calls ≡ none
send-accepted c answer s e = go (answer s.calls) e
  where
    go : (o : Option Error) → (lift_error o (logged c s)).0 ≡ ok tt → o ≡ none
    go none f = refl
    go (some x) f = cc

-- A loop of such calls that ended well had each of them answered with no error.
pub for_each-Accepted :
    {A : Type 0} (call : A → Call) (answer : A → List Call → Option Error) (xs : List A) (s : State)
    → (for_each xs (λ x. send_error (call x) (answer x)) s).0 ≡ ok tt
    → Accepted call answer xs s.calls
unfolding for_each
for_each-Accepted call answer [] s e = tt
for_each-Accepted call answer (x ∷ xs) s e =
    let c = chained (send_error (call x) (answer x) s) (λ _. loop) tt e in
    let m = send-Made (call x) (answer x) s c.first_ok in
    (
      send-accepted (call x) (answer x) s c.first_ok,
      subst (Accepted call answer xs) m.calls_now (for_each-Accepted call answer xs _ c.rest_ok),
    )
  where
    loop : Action (Unit {0})
    loop = for_each xs (λ y. send_error (call y) (answer y))

-- A list that was answered: the call, and its answer.
pub record Listed {A : Type 0} (s : State) (out : Result (List A) × State) (call : Call)
    (answer : Error ⊎ List A) (xs : List A) : Type 0 where
  pub made : Made s out (call ∷ [])
  pub answered : answer ≡ inr xs

listing-Listed :
    {A : Type 0} (refused : Option Error) (c : Call) (answer : List Call → Error ⊎ List A)
    (s : State) (xs : List A)
    → (after (lift_error refused s) (λ _. send c answer)).0 ≡ ok xs
    → Listed s (after (lift_error refused s) (λ _. send c answer)) c (answer s.calls) xs
listing-Listed (some x) c answer s xs e = cc
listing-Listed {A = A} none c answer s xs e = go (answer s.calls) e
  where
    go :
        (r : Error ⊎ List A)
        → (lift r (logged c s)).0 ≡ ok xs
        → Listed s (lift r (logged c s)) c r xs
    go (inr ys) f = record { made = record { job_kept = refl; calls_now = refl }; answered = cc }
    go (inl x) f = cc

pub list_job_pods-Listed :
    (api : Api) (s : State) (pods : List Pod) (job : DiJob)
    → s.job ≡ job
    → (list_job_pods api s).0 ≡ ok pods
    → Listed s
        (list_job_pods api s)
        (Call.list_pods (options_for job))
        (api.list_pods s.calls (options_for job))
        pods
unfolding list_job_pods list_pods
list_job_pods-Listed api s pods job same e =
    subst
      (λ j.
        Listed s (list_job_pods api s) (Call.list_pods (options_for j))
          (api.list_pods s.calls (options_for j)) pods)
      same
      (listing-Listed (api.selector_error (gen_labels s.job)) (Call.list_pods (options_for s.job))
        (λ calls. api.list_pods calls (options_for s.job)) s pods e)

pub list_job_services-Listed :
    (api : Api) (s : State) (svcs : List Service) (job : DiJob)
    → s.job ≡ job
    → (list_job_services api s).0 ≡ ok svcs
    → Listed s
        (list_job_services api s)
        (Call.list_services (options_for job))
        (api.list_services s.calls (options_for job))
        svcs
unfolding list_job_services list_services
list_job_services-Listed api s svcs job same e =
    subst
      (λ j.
        Listed s (list_job_services api s) (Call.list_services (options_for j))
          (api.list_services s.calls (options_for j)) svcs)
      same
      (listing-Listed (api.selector_error (gen_labels s.job))
        (Call.list_services (options_for s.job))
        (λ calls. api.list_services calls (options_for s.job)) s svcs e)
