-- ===== src/Server/Answers.antt =====
-- The answers to requests (pkg/server/handlers.go).
use di_orchestrator.Base.{
  ℕ, ◌≡◌, ◌≢◌, ◌↔◌, ◌||◌, refl, Bool, true, false, Option, none, some, List, inl, inr, arith, ℤ,
  ◌⊎◌, if◌then◌else◌,
}
use di_orchestrator.Text.{Text}
use di_orchestrator.Kube.{NamespacedName}
use di_orchestrator.Machine.{
  error_text, Error, ErrorType, Result, ok, err, panic, di, not_found, bad_request, State, Action,
  Api, after, caught, pure, logged, Call,
}
use di_orchestrator.Server.Requests.{parse_job_id, get_request_job, add_replicas, delete_replicas}
use di_orchestrator.Server.Responses.{
  Response, build_response, status_code, type_for_error, is_type, answer, handle_add, handle_delete,
}

-- Four tests in a row, each with a status of its own.
abbrev code_of : Bool → Bool → Bool → Bool → ℕ
code_of a b c d = if a then 404 else if b then 409 else if c then 400 else if d then 501 else 500

first_code : (a b c d : Bool) → code_of a b c d ≢ 200
first_code a b c d = ground arith

status_code-≢ : (api : Api) (e : Error) → status_code api e ≢ 200
unfolding status_code
status_code-≢ api e =
    first_code (is_type ErrorType.not_found e || api.is_not_found e)
      (is_type ErrorType.already_exists e || api.is_already_exists e)
      (is_type ErrorType.bad_request e || api.is_bad_request e)
      (is_type ErrorType.not_implemented e)

-- The operation returned a value.
abbrev pub IsOk : {A : Type 0} → Result A → Type 0
IsOk (ok a) = Unit
IsOk (err e) = ⊥
IsOk panic = ⊥

-- An operation that does not panic is answered: with status 200, success and code 0 if it returned
-- no error, and else with another status, no success and code 1.
pub answer-IsOk :
    (api : Api) (msg : Text) (operation : Action (Option (List Text))) (s : State)
    → (operation s).0 ≢ panic
    → (rep : Response) × (status : ℕ) × ((answer api msg operation s).0 ≡ ok (rep, status))
      × ((status ≡ 200) ↔ IsOk (operation s).0)
      × ((rep.success ≡ true) ↔ IsOk (operation s).0)
      × ((rep.code ≡ 0) ↔ IsOk (operation s).0)
unfolding answer build_response
answer-IsOk api msg operation s ne = go (operation s) ne
  where
    go :
        (out : Result (Option (List Text)) × State)
        → out.0 ≢ panic
        → (rep : Response) × (status : ℕ) × ((after (caught out) (λ r.
              elim r as (λ _. Action (Response × ℕ)) [
                | inl e ↦ pure (build_response api none msg (some e))
                | inr reps ↦ pure (build_response api reps msg none)
              ])).0
            ≡ ok (rep, status))
          × ((status ≡ 200) ↔ IsOk out.0)
          × ((rep.success ≡ true) ↔ IsOk out.0)
          × ((rep.code ≡ 0) ↔ IsOk out.0)
    go (ok reps, t) h =
        (_, _, refl, (λ e. tt, λ e. refl), (λ e. tt, λ e. refl), (λ e. tt, λ e. refl))
    go (err x, t) h = (
      _,
      _,
      refl,
      (λ e. status_code-≢ api x e, λ e. absurd e),
      (λ e. cc, λ e. absurd e),
      (λ e. omega arith, λ e. absurd e),
    )
    go (panic, t) h = absurd (h refl)

missing_job :
    (api : Api) (id : Text) (s : State) (key : NamespacedName) (e : Error)
    → parse_job_id id ≡ inr key
    → api.get_job s.calls key ≡ inl e
    → api.is_not_found e ≡ true
    → get_request_job api id s ≡ (err (di not_found e), logged (Call.get_job key) s)
unfolding get_request_job
missing_job api id s key e p g n = rw (p, g, n) refl

abbrev refused : Error → Response
refused e = record { success = false; code = 1; message = error_text e; reps = none }

-- For a job that the cluster does not have, a request to add replicas is answered with 404, and one
-- to delete replicas with 400, if the Kubernetes tests of errors do not match a DIError.
handle_missing_job :
    (api : Api) (id : Text) (request : Error ⊎ ℤ) (s : State) (key : NamespacedName) (e : Error)
    → parse_job_id id ≡ inr key
    → api.get_job s.calls key ≡ inl e
    → api.is_not_found e ≡ true
    → ((w : Error) → api.is_not_found (di bad_request w) ≡ false)
    → ((w : Error) → api.is_already_exists (di bad_request w) ≡ false)
    → ((added : Response) × ((handle_add api id request s).0 ≡ ok (added, 404)))
      × ((deleted : Response) × ((handle_delete api id request s).0 ≡ ok (deleted, 400)))
unfolding handle_add handle_delete answer add_replicas delete_replicas build_response status_code
    type_for_error
handle_missing_job api id request s key e p g n nf ae =
    let missing = missing_job api id s key e p g n in
    (
      (refused e, rw missing refl),
      (refused e, rw missing (rw (nf (di not_found e), ae (di not_found e)) refl)),
    )
