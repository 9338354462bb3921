-- ===== src/Machine/Along.antt =====
-- Relations between the state before an action and the state after it: what holds of each part of an
-- action holds of the whole, for a relation that is reflexive and transitive.
use di_orchestrator.Base.{
  ◌≡◌, refl, sym, subst, ap, ◌∙◌, Bool, true, false, Option, none, some, List, [], ◌++◌, append-nil,
  append_assoc, All, All-append, ◌⊎◌, inl, inr, if◌then◌else◌,
}
use di_orchestrator.Machine.{
  Error, Result, ok, err, panic, State, Action, Api, Call, after, caught, pure, lift, lift_error,
  attempt, ◌>>=◌,
}
use di_orchestrator.Machine.Poll.{Polls, PollLaw}

pub record Preorder (R : State → State → Type 0) : Type 0 where
  pub same : (s : State) → R s s
  pub trans : {s t u : State} → R s t → R t u → R s u

module _ {R : State → State → Type 0} (order : Preorder R) where
  -- The action goes along the relation, however it ends.
  abbrev pub IsAlong : {A : Type 0} → Action A → Type 0
  IsAlong m = (s : State) → R s (m s).1

  pub pure-IsAlong : {A : Type 0} (a : A) → IsAlong (pure a)
  pure-IsAlong a s = order.same s

  pub lift-IsAlong : {A : Type 0} (r : Error ⊎ A) → IsAlong (lift r)
  lift-IsAlong (inl e) s = order.same s
  lift-IsAlong (inr a) s = order.same s

  pub lift_error-IsAlong : (o : Option Error) → IsAlong (lift_error o)
  lift_error-IsAlong none s = order.same s
  lift_error-IsAlong (some e) s = order.same s

  pub bind-IsAlong :
      {A B : Type 0} (m : Action A) (k : A → Action B)
      → IsAlong m
      → ((a : A) → IsAlong (k a))
      → IsAlong (m >>= k)
  bind-IsAlong {A} {B} m k h next s = go (m s) (h s)
    where
      go : (out : Result A × State) → R s out.1 → R s (after out k).1
      go (ok a, t) r = order.trans r (next a t)
      go (err x, t) r = r
      go (panic, t) r = r

  pub if-IsAlong :
      {A : Type 0} (b : Bool) (m n : Action A)
      → IsAlong m
      → IsAlong n
      → IsAlong (if b then m else n)
  if-IsAlong true m n h k = h
  if-IsAlong false m n h k = k

  pub attempt-IsAlong : {A : Type 0} (m : Action A) → IsAlong m → IsAlong (attempt m)
  attempt-IsAlong {A} m h s = go (m s) (h s)
    where
      go : (out : Result A × State) → R s out.1 → R s (caught out).1
      go (ok a, t) r = r
      go (err x, t) r = r
      go (panic, t) r = r

  Polls-Along :
      {cond : Action Bool} {s t : State} {r : Result (Unit {0})}
      → IsAlong cond
      → Polls cond s r t
      → R s t
  Polls-Along {s = s} h (Polls.done e) = subst (λ o. R s o.1) e (h s)
  Polls-Along {s = s} h (Polls.failed x e) = subst (λ o. R s o.1) e (h s)
  Polls-Along {s = s} h (Polls.crashed e) = subst (λ o. R s o.1) e (h s)
  Polls-Along {s = s} h (Polls.again e rest) =
      order.trans (subst (λ o. R s o.1) e (h s)) (Polls-Along h rest)
  Polls-Along {s = s} h (Polls.timed_out x) = order.same s

  pub poll-IsAlong :
      (api : Api) (cond : Action Bool) → PollLaw api → IsAlong cond → IsAlong (api.poll cond)
  poll-IsAlong api cond law h s = Polls-Along h (law cond s)

-- From one state to a later one, only calls of one kind were made.
pub record Adds (P : Call → Type 0) (s t : State) : Type 0 where
  pub added : List Call
  pub calls_now : t.calls ≡ s.calls ++ added
  pub only : All P added

pub Adds-same : {P : Call → Type 0} {s t : State} → t.calls ≡ s.calls → Adds P s t
Adds-same {P} {s} e = record { added = []; calls_now = e ∙ sym (append-nil s.calls); only = tt }

pub Adds-trans : {P : Call → Type 0} {s t u : State} → Adds P s t → Adds P t u → Adds P s u
Adds-trans {P} {s} h k = record {
  added = h.added ++ k.added;
  calls_now =
      k.calls_now ∙ (ap (λ l. l ++ k.added) h.calls_now ∙ append_assoc s.calls h.added k.added);
  only = All-append P h.added k.added h.only k.only;
}

pub Adds-order : (P : Call → Type 0) → Preorder (Adds P)
Adds-order P = record { same = λ s. Adds-same refl; trans = λ h k. Adds-trans h k }
