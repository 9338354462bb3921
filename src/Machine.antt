-- ===== src/Machine.antt =====
-- The machine on which the operator and the server run: Go errors, outcomes of a call (a value, an
-- error, a panic), the log of the calls made to the cluster, and the state that a handler works on.
-- The cluster itself (controller-runtime's client, the event recorder, the clock, wait.Poll) is a
-- parameter: an `Api` whose answers may depend on everything that was asked before.
pub mod Poll
pub mod Log
pub mod Along
pub mod Store
use di_orchestrator.Base.{
  ℕ, suc, ◌+◌, Bool, Option, none, some, List, [], ◌∷◌, ◌++◌, ◌⊎◌, inl, inr, ◌≡◌, refl,
}
use di_orchestrator.Text.{Text}
use di_orchestrator.Dict.{Dict}
use di_orchestrator.Kube.{Pod, Service, Node, NamespacedName, ListOptions}
use di_orchestrator.Job.{DiJob, JobCondition, TaskStatus}

-- pkg/server/types/error.go: ErrorType
pub data ErrorType : Type 0 where
  unknown not_found already_exists bad_request not_implemented : ErrorType

-- A Go error: one returned by a library, known by its text; one made by fmt.Errorf; a DIError,
-- which has a type and wraps another error.
pub data Error : Type 0 where
  client : Text → Error
  failure : Text → Error
  di : ErrorType → Error → Error

-- `err.Error()`
abbrev pub error_text : Error → Text
error_text (client t) = t
error_text (failure t) = t
error_text (di _ e) = error_text e

pub data Result (A : Type 0) : Type 0 where
  ok : A → Result A
  err : Error → Result A
  panic : Result A

-- corev1.EventTypeNormal, corev1.EventTypeWarning
pub data EventType : Type 0 where
  normal warning : EventType

-- A call made to the cluster.
pub data Call : Type 0 where
  create_pod delete_pod : Pod → Call
  create_service delete_service : Service → Call
  delete_job update_job update_status : DiJob → Call
  get_job : NamespacedName → Call
  list_pods list_services : ListOptions → Call
  list_nodes : Call
  event : EventType → Text → Text → Call

-- The settings that pkg/common/config.go keeps in two variables, and strings.ToUpper, a map of Unicode
-- letters, as a parameter.
pub record Settings : Type 0 where
  pub service_domain_name : Text
  pub di_server_url : Text
  pub to_upper : Text → Text

-- `job` is the object that the handler's pointer refers to, `calls` the log, the oldest call
-- first, and `ticks` the number of times that the clock was read.
pub record State : Type 0 where
  pub job : DiJob
  pub calls : List Call
  pub ticks : ℕ
  pub settings : Settings

abbrev pub Action : Type 0 → Type 0
Action A = State → Result A × State

pub record Api : Type 0 where
  pub create_pod : List Call → Pod → Option Error
  pub delete_pod : List Call → Pod → Option Error
  pub create_service : List Call → Service → Option Error
  pub delete_service : List Call → Service → Option Error
  pub delete_job : List Call → DiJob → Option Error
  pub update_job : List Call → DiJob → Option Error
  pub update_status : List Call → DiJob → Option Error
  pub get_job : List Call → NamespacedName → Error ⊎ DiJob
  pub list_pods : List Call → ListOptions → Error ⊎ List Pod
  pub list_services : List Call → ListOptions → Error ⊎ List Service
  pub list_nodes : List Call → Error ⊎ List Node
  -- metav1.LabelSelectorAsSelector: the error for labels that are not valid.
  pub selector_error : Dict Text → Option Error
  -- k8s.io/apimachinery/pkg/api/errors
  pub is_not_found : Error → Bool
  pub is_already_exists : Error → Bool
  pub is_bad_request : Error → Bool
  -- metav1.Now, at the n-th reading
  pub now : ℕ → ℕ
  -- apiequality.Semantic.DeepEqual
  pub conditions_equal : List JobCondition → List JobCondition → Bool
  pub allocation_equal : List Text → List Text → Bool
  pub task_status_equal : Dict TaskStatus → Dict TaskStatus → Bool
  -- wait.Poll with the interval and the timeout of pkg/context/status.go
  pub poll : Action Bool → Action (Unit {0})

module _ {A : Type 0} where
  abbrev pub pure : A → Action A
  pure a s = (ok a, s)

  abbrev pub throw : Error → Action A
  throw e s = (err e, s)

  abbrev pub crash : Action A
  crash s = (panic, s)

  -- The value that a call returned, or its error.
  abbrev pub lift : Error ⊎ A → Action A
  lift (inl e) s = (err e, s)
  lift (inr a) s = (ok a, s)

  -- What comes after a call, by its outcome.
  abbrev pub after : {B : Type 0} → Result A × State → (A → Action B) → Result B × State
  after (ok a, s) k = k a s
  after (err e, s) k = (err e, s)
  after (panic, s) k = (panic, s)

  -- `if err := …; err != nil { log }`: the error is a value, and a panic goes on.
  abbrev pub caught : Result A × State → Result (Error ⊎ A) × State
  caught (ok a, s) = (ok (inr a), s)
  caught (err e, s) = (ok (inl e), s)
  caught (panic, s) = (panic, s)

  abbrev pub attempt : Action A → Action (Error ⊎ A)
  attempt m s = caught (m s)

infixl 5 ◌>>=◌ ◌>>◌
abbrev pub ◌>>=◌ : {A B : Type 0} → Action A → (A → Action B) → Action B
◌>>=◌ m k s = after (m s) k

abbrev pub ◌>>◌ : {A B : Type 0} → Action A → Action B → Action B
m >> k = m >>= λ _. k

abbrev pub get : Action State
get s = (ok s, s)

-- A write to the job that the handler's pointer refers to.
abbrev pub modify_job : (DiJob → DiJob) → Action (Unit {0})
modify_job f s = (ok tt, record s { job = f s.job })

-- `nil`, or the error.
abbrev pub lift_error : Option Error → Action (Unit {0})
lift_error none s = (ok tt, s)
lift_error (some e) s = (err e, s)

abbrev pub logged : Call → State → State
logged c s = record s { calls = s.calls ++ c ∷ [] }

-- The call is logged, and the answer is what the cluster says after the calls before it.
abbrev pub send : {A : Type 0} → Call → (List Call → Error ⊎ A) → Action A
send c answer s = lift (answer s.calls) (logged c s)

abbrev pub send_error : Call → (List Call → Option Error) → Action (Unit {0})
send_error c answer s = lift_error (answer s.calls) (logged c s)

-- `metav1.Now()`
abbrev pub read_clock : Api → Action ℕ
read_clock api s = (ok (api.now s.ticks), record s { ticks = s.ticks + 1 })

-- `Recorder.Eventf`
abbrev pub record_event : EventType → Text → Text → Action (Unit {0})
record_event t reason msg s = (ok tt, logged (event t reason msg) s)

-- A loop that runs an action for each element and stops at the first error.
unfoldable pub for_each : {A : Type 0} → List A → (A → Action (Unit {0})) → Action (Unit {0})
for_each [] f = pure tt
for_each (x ∷ xs) f = f x >> for_each xs f

-- A chain that ends well: its first call returned a value, and the rest ended well.
pub after-ok :
    {A B : Type 0} (out : Result A × State) (k : A → Action B) {b : B}
    → (after out k).0 ≡ ok b
    → (a : A) × (out.0 ≡ ok a) × ((k a out.1).0 ≡ ok b)
after-ok (ok a, s) k e = (a, refl, e)
after-ok (err x, s) k e = cc
after-ok (panic, s) k e = cc

-- A chain whose first action panics.
pub after-panic :
    {A B : Type 0} (out : Result A × State) (k : A → Action B)
    → out.0 ≡ panic
    → (after out k).0 ≡ panic
after-panic (ok a, s) k e = cc
after-panic (err x, s) k e = cc
after-panic (panic, s) k e = refl
