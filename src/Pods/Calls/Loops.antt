-- ===== src/Pods/Calls/Loops.antt =====
-- Loops that delete pods one by one and stop at the first error.
use di_orchestrator.Base.{
  ◌⊎◌, inl, inr, ◌≡◌, refl, sym, ◌∙◌, ap, subst, append-nil, List, [], ◌∷◌, ◌++◌,
}
use di_orchestrator.Kube.{Pod}
use di_orchestrator.Machine.{Error, Result, ok, err, panic, State, Action, after}
use di_orchestrator.Pods.Calls.Deletes.{Effect, Effect-trans, same-Effect}

-- The loop was to delete `all`: it has asked for the first of them, in order, and for all if it
-- ended with no error. It created nothing and left the job as it was.
pub record Deletes {A : Type 0} (s : State) (out : Result A × State) (all : List Pod) : Type 0 where
  pub done : List Pod
  pub rest : List Pod
  pub effect : Effect s out [] done
  pub prefix : done ++ rest ≡ all
  pub complete : (rest ≡ []) ⊎ ((x : Error) × (out.0 ≡ err x))

pub Deletes-nil : {A : Type 0} (s : State) (a : A) → Deletes s (ok a, s) []
Deletes-nil s a = record {
  done = [];
  rest = [];
  effect = same-Effect s (ok a) (λ e. cc);
  prefix = refl;
  complete = inl refl;
}

pub Deletes-cons :
    {A B : Type 0} {s : State} (out : Result A × State) (k : A → Action B) (pod : Pod)
    {all : List Pod}
    → Effect s out [] (pod ∷ [])
    → ((a : A) → out.0 ≡ ok a → Deletes out.1 (k a out.1) all)
    → Deletes s (after out k) (pod ∷ all)
Deletes-cons (ok a, t) k pod h next =
    let d = next a refl in
    record {
      done = pod ∷ d.done;
      rest = d.rest;
      effect = Effect-trans h d.effect;
      prefix = ap (λ l. pod ∷ l) d.prefix;
      complete = d.complete;
    }
Deletes-cons {s} (err e, t) k pod {all} h next = record {
  done = pod ∷ [];
  rest = all;
  effect = Effect-trans h (same-Effect t (err e) (λ e. cc));
  prefix = refl;
  complete = inr (e, refl);
}
Deletes-cons (panic, t) k pod h next = absurd (h.ends refl)

-- The loop comes after a call that deletes no pod.
pub Deletes-after :
    {A B : Type 0} {s : State} (out : Result A × State) (k : A → Action B) {all : List Pod}
    → Effect s out [] []
    → ((a : A) → out.0 ≡ ok a → Deletes out.1 (k a out.1) all)
    → Deletes s (after out k) all
Deletes-after (ok a, t) k h next =
    let d = next a refl in
    record {
      done = d.done;
      rest = d.rest;
      effect = Effect-trans h d.effect;
      prefix = d.prefix;
      complete = d.complete;
    }
Deletes-after {s} (err e, t) k {all} h next = record {
  done = [];
  rest = all;
  effect = Effect-trans h (same-Effect t (err e) (λ e. cc));
  prefix = refl;
  complete = inr (e, refl);
}
Deletes-after (panic, t) k h next = absurd (h.ends refl)

append-eq-nil : (xs ys : List Pod) → xs ++ ys ≡ [] → xs ≡ []
append-eq-nil [] ys e = refl
append-eq-nil (x ∷ xs) ys e = cc

-- A loop that was to delete nothing.
pub nothing_deleted :
    {A : Type 0} {s : State} {out : Result A × State} → Deletes s out [] → Effect s out [] []
nothing_deleted {s} {out} d =
    subst (λ ds. Effect s out [] ds) (append-eq-nil d.done d.rest d.prefix) d.effect

pub all_done :
    {A : Type 0} {s : State} {out : Result A × State} {all : List Pod} {a : A}
    → (d : Deletes s out all) → out.0 ≡ ok a
    → d.done ≡ all
all_done {out} {all} {a} d e = go d.complete
  where
    go : (d.rest ≡ []) ⊎ ((x : Error) × (out.0 ≡ err x)) → d.done ≡ all
    go (inl none_left) = sym (append-nil d.done) ∙ ap (λ l. d.done ++ l) (sym none_left) ∙ d.prefix
    go (inr (x, failed)) = cc
