-- ===== src/Server/Responses.antt =====
-- pkg/server/handlers.go, types/error.go and types/types.go: the answer to a request.
use di_orchestrator.Base.{
  ℕ, Bool, true, false, ◌||◌, Option, none, some, List, ◌⊎◌, inl, inr, ℤ, if◌then◌else◌, ◌==◌,
}
use di_orchestrator.Text.{Text, codes}
use di_orchestrator.Machine.{ErrorType, Error, error_text, Action, Api, pure, attempt, ◌>>=◌}
use di_orchestrator.Server.Requests.{get_replicas, add_replicas, delete_replicas, post_profilings}

abbrev error_index : ErrorType → ℕ
error_index ErrorType.unknown = 0
error_index ErrorType.not_found = 1
error_index ErrorType.already_exists = 2
error_index ErrorType.bad_request = 3
error_index ErrorType.not_implemented = 4

-- TypeForError
unfoldable pub type_for_error : Error → ErrorType
type_for_error (Error.di t _) = t
type_for_error (Error.client _) = ErrorType.unknown
type_for_error (Error.failure _) = ErrorType.unknown

-- IsNotFound and the like
abbrev pub is_type : ErrorType → Error → Bool
is_type t e = error_index (type_for_error e) == error_index t

pub record Response : Type 0 where
  pub success : Bool
  pub code : ℕ
  pub message : Text
  pub reps : Option (List Text)

-- The HTTP status of an error.
unfoldable pub status_code : Api → Error → ℕ
unfolding type_for_error
status_code api e =
    if is_type ErrorType.not_found e || api.is_not_found e
    then 404
    else if is_type ErrorType.already_exists e || api.is_already_exists e
    then 409
    else if is_type ErrorType.bad_request e || api.is_bad_request e
    then 400
    else if is_type ErrorType.not_implemented e
    then 501
    else 500

-- buildResponse
unfoldable pub build_response : Api → Option (List Text) → Text → Option Error → Response × ℕ
unfolding status_code
build_response api reps msg none =
    (record { success = true; code = 0; message = msg; reps = reps }, 200)
build_response api reps msg (some e) =
    (record { success = false; code = 1; message = error_text e; reps = reps }, status_code api e)

-- A handler: the operation, and the answer to what it returned.
unfoldable pub answer : Api → Text → Action (Option (List Text)) → Action (Response × ℕ)
unfolding build_response
answer api msg operation = do
  r ← attempt operation
  elim r [
    | inl e ↦ pure (build_response api none msg (some e))
    | inr reps ↦ pure (build_response api reps msg none)
  ]

unfoldable pub handle_get : Api → (Text → ℤ) → Text → Action (Response × ℕ)
unfolding answer
handle_get api on_error id =
    answer api (codes "successfully get replicas") (get_replicas api on_error id)

unfoldable pub handle_add : Api → Text → Error ⊎ ℤ → Action (Response × ℕ)
unfolding answer
handle_add api id request =
    answer api (codes "successfully add replicas") (add_replicas api id request)

unfoldable pub handle_delete : Api → Text → Error ⊎ ℤ → Action (Response × ℕ)
unfolding answer
handle_delete api id request =
    answer api (codes "successfully delete replicas") (delete_replicas api id request)

unfoldable pub handle_profilings : Api → Text → Error ⊎ Unit {0} → Action (Response × ℕ)
unfolding answer
handle_profilings api id request =
    answer api (codes "successfully report profilings") (post_profilings api id request)
