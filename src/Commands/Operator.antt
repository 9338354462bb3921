-- ===== src/Commands/Operator.antt =====
-- cmd/operator/operator.go: the command that runs the operator.
use di_orchestrator.Base.{Bool, false, some, List, [], ◌∷◌, ℤ, pos}
use di_orchestrator.Text.{Text, codes}
use di_orchestrator.Machine.{Api}
use di_orchestrator.Status.Incorrect.{Dynamic}
use di_orchestrator.Allocator.Resources.{Library}
use di_orchestrator.Commands.{
  GenericFlags, Parsers, Flag, string_flag, parsed_flag, ManagerOptions, new_context, Setup,
  Libraries, Boot, ask, get_config_or_die, set_service_domain_name, set_di_server_url, ◌>>=◌, ◌>>◌,
}
use di_orchestrator.Commands.Watches.{Registration, reconciler_setup, allocator_setup}

-- CreateOptions; the period is in nanoseconds.
pub record CreateOptions (F : Type 0) : Type 0 where
  pub generic : GenericFlags F
  pub sync_period : ℤ
  pub metric_address : Text
  pub probe_address : Text
  pub enable_leader_election : Bool

module _ {F : Type 0} where
  -- NewCreateOptions
  unfoldable pub new_create_options : GenericFlags F → CreateOptions F
  new_create_options flags = record {
    generic = flags;
    sync_period = pos 60000000000;
    metric_address = codes ":8443";
    probe_address = codes ":8080";
    enable_leader_election = false;
  }

  -- CreateOptions.AddFlags
  unfoldable pub operator_flags : Parsers F → List (Flag (CreateOptions F))
  operator_flags p =
      parsed_flag (codes "sync-period") p.duration (λ v o. record o { sync_period = v })
      ∷ string_flag (codes "metric-addr") [] (λ v o. record o { metric_address = v })
      ∷ string_flag (codes "probe-addr") [] (λ v o. record o { probe_address = v })
      ∷ parsed_flag (codes "leader-elect") p.bool (λ v o. record o { enable_leader_election = v })
      ∷ []

  abbrev pub manager_options : CreateOptions F → ManagerOptions
  manager_options o = record {
    sync_period = some o.sync_period;
    metrics_bind_address = o.metric_address;
    health_probe_bind_address = o.probe_address;
    leader_election = o.enable_leader_election;
    leader_election_id = codes "12841a5d.opendilab.org";
  }

-- runCommand
unfoldable pub run_operator :
    {F G U V : Type 0}
    → Libraries Registration F G
    → Library
    → Api
    → Dynamic U V
    → CreateOptions F
    → Boot Registration G (Unit {0})
unfolding reconciler_setup allocator_setup
run_operator lib resources api dynamic o = do
  set_service_domain_name o.generic.service_domain_name
  set_di_server_url o.generic.di_server_url
  base ← get_config_or_die lib
  let config = record base { qps = lib.float32 o.generic.qps; burst = o.generic.burst }
  ask lib (Setup.new_manager config (manager_options o))
  ask lib
      (Setup.controller (new_context config (codes "di-operator")) (reconciler_setup api dynamic))
  ask lib
      (Setup.controller (new_context config (codes "di-allocator")) (allocator_setup resources api))
  ask lib (Setup.add_healthz_check (codes "healthz"))
  ask lib (Setup.add_readyz_check (codes "readyz"))
  ask lib Setup.start
