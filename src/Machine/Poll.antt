-- ===== src/Machine/Poll.antt =====
-- What wait.Poll promises: it runs the condition until that says true or fails, or until the time
-- is over; between two runs of the condition nothing else happens.
use di_orchestrator.Base.{◌≡◌, Bool, true, false}
use di_orchestrator.Machine.{State, Result, ok, err, panic, Error, Action, Api}

pub data Polls (cond : Action Bool) : State → Result (Unit {0}) → State → Type 0 where
  done : {s t : State} → cond s ≡ (ok true, t) → Polls cond s (ok tt) t
  failed : {s t : State} (e : Error) → cond s ≡ (err e, t) → Polls cond s (err e) t
  crashed : {s t : State} → cond s ≡ (panic, t) → Polls cond s panic t
  again :
      {s t u : State} {r : Result (Unit {0})}
      → cond s ≡ (ok false, t)
      → Polls cond t r u
      → Polls cond s r u
  timed_out : {s : State} (e : Error) → Polls cond s (err e) s

-- The hypothesis on the library, for one `Api`.
abbrev pub PollLaw : Api → Type 0
PollLaw api =
    (cond : Action Bool) (s : State) → Polls cond s (api.poll cond s).0 (api.poll cond s).1
