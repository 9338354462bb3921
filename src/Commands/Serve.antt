-- ===== src/Commands/Serve.antt =====
-- cmd/server/server.go: the command that runs the server.
use di_orchestrator.Base.{false, none, List, [], ◌∷◌}
use di_orchestrator.Text.{Text, codes}
use di_orchestrator.Commands.{
  GenericFlags, Flag, string_flag, ManagerOptions, new_context, Setup, Libraries, Boot, ask,
  ask_only, get_config_or_die, set_service_domain_name, set_di_server_url, ◌>>=◌, ◌>>◌,
}

-- CreateOptions
pub record CreateOptions (F : Type 0) : Type 0 where
  pub generic : GenericFlags F
  pub server_bind_address : Text
  pub probe_address : Text
  pub metric_address : Text

module _ {F : Type 0} where
  -- NewCreateOptions
  unfoldable pub new_create_options : GenericFlags F → CreateOptions F
  new_create_options flags = record {
    generic = flags;
    server_bind_address = codes ":8081";
    probe_address = codes ":8080";
    metric_address = codes ":8443";
  }

  -- CreateOptions.AddFlags
  unfoldable pub server_flags : List (Flag (CreateOptions F))
  server_flags =
      string_flag (codes "server-bind-address") (codes "s")
        (λ v o. record o { server_bind_address = v })
      ∷ string_flag (codes "probe-address") (codes "p") (λ v o. record o { probe_address = v })
      ∷ string_flag (codes "metric-addr") [] (λ v o. record o { metric_address = v })
      ∷ []

  abbrev pub manager_options : CreateOptions F → ManagerOptions
  manager_options o = record {
    sync_period = none;
    metrics_bind_address = o.metric_address;
    health_probe_bind_address = o.probe_address;
    leader_election = false;
    leader_election_id = [];
  }

-- runCommand; the error of `mgr.Add` is dropped.
unfoldable pub run_server :
    {C F G : Type 0} → Libraries C F G → CreateOptions F → Boot C G (Unit {0})
run_server lib o = do
  set_service_domain_name o.generic.service_domain_name
  set_di_server_url o.generic.di_server_url
  base ← get_config_or_die lib
  let config = record base { qps = lib.float32 o.generic.qps; burst = o.generic.burst }
  ask lib (Setup.new_manager config (manager_options o))
  ask_only lib (Setup.add_server (new_context config (codes "di-server")) o.server_bind_address)
  ask lib (Setup.add_healthz_check (codes "healthz"))
  ask lib (Setup.add_readyz_check (codes "readyz"))
  ask lib Setup.start
