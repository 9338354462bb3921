-- ===== src/Server/Routes.antt =====
-- pkg/server/server.go: the routes of the server and the handlers behind them. What gin does
-- with them is not modelled.
use di_orchestrator.Base.{ℕ, ◌⊎◌, Option, List, [], ◌∷◌, ℤ}
use di_orchestrator.Text.{Text, codes}
use di_orchestrator.Machine.{Error, Action, Api}
use di_orchestrator.Server.Responses.{
  Response, handle_get, handle_add, handle_delete, handle_profilings,
}

pub data Method : Type 0 where
  get post delete put patch head options : Method

-- What ShouldBindJSON makes of the body of a request, for each of the two types that are asked for.
pub record Body : Type 0 where
  pub replicas : Error ⊎ ℤ
  pub profilings : Error ⊎ Unit {0}

-- A handler is given the `id` of the path and the body.
pub record Route : Type 0 where
  pub method : Method
  pub pattern : Text
  pub handler : Text → Body → Action (Response × ℕ)

abbrev pub api_version : Text
api_version = codes "v2alpha1"

abbrev pub replicas_pattern : Text
replicas_pattern = codes "job/:id/replicas"

abbrev pub profilings_pattern : Text
profilings_pattern = codes "job/:id/profilings"

-- The routes that Start registers in the group of the version.
unfoldable pub routes : Api → (Text → ℤ) → List Route
routes api on_error =
    record {
      method = Method.get;
      pattern = replicas_pattern;
      handler = λ id body. handle_get api on_error id;
    }
    ∷ record {
      method = Method.post;
      pattern = replicas_pattern;
      handler = λ id body. handle_add api id body.replicas;
    }
    ∷ record {
      method = Method.delete;
      pattern = replicas_pattern;
      handler = λ id body. handle_delete api id body.replicas;
    }
    ∷ record {
      method = Method.post;
      pattern = profilings_pattern;
      handler = λ id body. handle_profilings api id body.profilings;
    }
    ∷ []

-- DIServer, the context and the processor left out.
pub record DiServer : Type 0 where
  pub server_bind_address : Text

-- NewDIServer
unfoldable pub new_di_server : Text → DiServer
new_di_server address = record { server_bind_address = address }

-- Start: the error of `r.Run`, which serves the routes at an address until it fails.
unfoldable pub start :
    Api → (Text → ℤ) → (List Route → Text → Option Error) → DiServer → Option Error
unfolding routes
start api on_error run server = run (routes api on_error) server.server_bind_address
