-- ===== src/Allocator/Readers.antt =====
-- Actions that only read from the cluster.
use di_orchestrator.Base.{
  ◌≡◌, refl, ◌∙◌, Bool, Option, none, some, List, [], ◌∷◌, ◌⊎◌, if◌then◌else◌,
}
use di_orchestrator.Machine.{Error, State, Action, Call, pure, lift, logged, send, attempt, ◌>>=◌}
use di_orchestrator.Machine.Along.{
  Preorder, bind-IsAlong, if-IsAlong, pure-IsAlong, lift-IsAlong, attempt-IsAlong, Adds, Adds-same,
  Adds-trans,
}
use di_orchestrator.Controller.Replicas.{or_crash}

-- A call that changes nothing in the cluster.
abbrev pub IsRead : Call → Type 0
IsRead (Call.get_job _) = Unit
IsRead (Call.list_pods _) = Unit
IsRead (Call.list_services _) = Unit
IsRead Call.list_nodes = Unit
IsRead _ = ⊥

-- From one state to a later one, the cluster was only read.
abbrev pub Reads : State → State → Type 0
Reads = Adds IsRead

abbrev Unmoved : State → State → Type 0
Unmoved s t = Reads s t × (t.job ≡ s.job)

Unmoved-order : Preorder Unmoved
Unmoved-order = record {
  same = λ s. (Adds-same refl, refl);
  trans = λ h k. (Adds-trans h.0 k.0, k.1 ∙ h.1);
}

-- An action that only reads, and leaves the job as it was.
abbrev pub IsReader : {A : Type 0} → Action A → Type 0
IsReader m = (s : State) → Reads s (m s).1 × ((m s).1.job ≡ s.job)

pub bind-IsReader :
    {A B : Type 0} (m : Action A) (k : A → Action B)
    → IsReader m
    → ((a : A) → IsReader (k a))
    → IsReader (m >>= k)
bind-IsReader m k h next = bind-IsAlong Unmoved-order m k h next

pub if-IsReader :
    {A : Type 0} (b : Bool) (m n : Action A)
    → IsReader m
    → IsReader n
    → IsReader (if b then m else n)
if-IsReader b m n h k = if-IsAlong Unmoved-order b m n h k

pub pure-IsReader : {A : Type 0} (a : A) → IsReader (pure a)
pure-IsReader a = pure-IsAlong Unmoved-order a

pub lift-IsReader : {A : Type 0} (r : Error ⊎ A) → IsReader (lift r)
lift-IsReader r = lift-IsAlong Unmoved-order r

pub crash-IsReader : {A : Type 0} (o : Option A) → IsReader (or_crash o)
crash-IsReader none s = (Adds-same refl, refl)
crash-IsReader (some a) s = (Adds-same refl, refl)

pub send-IsReader :
    {A : Type 0} (c : Call) (answer : List Call → Error ⊎ A) → IsRead c → IsReader (send c answer)
send-IsReader c answer h s =
    let one = lift-IsReader (answer s.calls) (logged c s) in
    (Adds-trans (record { added = c ∷ []; calls_now = refl; only = (h, tt) }) one.0, one.1)

pub attempt-IsReader : {A : Type 0} (m : Action A) → IsReader m → IsReader (attempt m)
attempt-IsReader m h = attempt-IsAlong Unmoved-order m h
