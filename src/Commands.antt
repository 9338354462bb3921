-- ===== src/Commands.antt =====
-- cmd: what the two commands do before they serve: the flags, the settings, the manager and what is
-- registered with it. The manager, the client's configuration and the parsing of values are
-- parameters.
pub mod Watches
pub mod Operator
pub mod Serve
pub mod Root
pub mod Laws
use mathlib.Core.Option
use di_orchestrator.Base.{ℕ, Bool, Option, none, some, List, [], ◌∷◌, ◌++◌, ℤ, pos}
use di_orchestrator.Text.{Text, codes}
use di_orchestrator.Machine.{Error, Result, ok, err, panic, Settings}

-- GenericFlags; the options of the logger are left out. `F` is Go's float64.
pub record GenericFlags (F : Type 0) : Type 0 where
  pub qps : F
  pub burst : ℤ
  pub service_domain_name : Text
  pub di_server_url : Text

-- What pflag and flag read from the text of a value; `none` is an error.
pub record Parsers (F : Type 0) : Type 0 where
  pub float64 : Text → Option F
  pub int : Text → Option ℤ
  pub duration : Text → Option ℤ
  pub bool : Text → Option Bool

-- A flag that is bound to a field of the options: its name, its letter and the write of its value.
pub record Flag (O : Type 0) : Type 0 where
  pub name : Text
  pub shorthand : Text
  pub assign : Text → O → Option O

-- A variable of type string takes every text.
abbrev pub string_flag : {O : Type 0} → Text → Text → (Text → O → O) → Flag O
string_flag name shorthand write = record {
  name = name;
  shorthand = shorthand;
  assign = λ t o. some (write t o);
}

abbrev pub parsed_flag : {O A : Type 0} → Text → (Text → Option A) → (A → O → O) → Flag O
parsed_flag name parse write = record {
  name = name;
  shorthand = [];
  assign = λ t o. Option.map (λ a. write a o) (parse t);
}

module _ {F : Type 0} where
  -- NewGenericFlags; `float` is the conversion of a constant.
  unfoldable pub new_generic_flags : (ℕ → F) → GenericFlags F
  new_generic_flags float = record {
    qps = float 5;
    burst = pos 10;
    service_domain_name = codes "svc.cluster.local";
    di_server_url = codes "http://di-server.di-system.svc.cluster.local:8081";
  }

  -- GenericFlags.AddFlags
  unfoldable pub generic_flags : Parsers F → List (Flag (GenericFlags F))
  generic_flags p =
      parsed_flag (codes "qps") p.float64 (λ v f. record f { qps = v })
      ∷ parsed_flag (codes "burst") p.int (λ v f. record f { burst = v })
      ∷ string_flag (codes "service-domain-name") [] (λ v f. record f { service_domain_name = v })
      ∷ string_flag (codes "di-server-url") [] (λ v f. record f { di_server_url = v })
      ∷ []

-- ctrl.Options, without the scheme; `sync_period` is nil for the server.
pub record ManagerOptions : Type 0 where
  pub sync_period : Option ℤ
  pub metrics_bind_address : Text
  pub health_probe_bind_address : Text
  pub leader_election : Bool
  pub leader_election_id : Text

-- rest.Config, with the fields that the commands write; `G` is Go's float32.
pub record ClientConfig (G : Type 0) : Type 0 where
  pub qps : G
  pub burst : ℤ

-- Context, the client and the logger left out: its configuration and the name of its recorder.
pub record Context (G : Type 0) : Type 0 where
  pub config : ClientConfig G
  pub recorder : Text

-- NewContext
unfoldable pub new_context : {G : Type 0} → ClientConfig G → Text → Context G
new_context config recorder = record { config = config; recorder = recorder }

-- What is asked of the manager. `C` is what is registered as a controller.
pub data Setup (C G : Type 0) : Type 0 where
  new_manager : ClientConfig G → ManagerOptions → Setup C G
  controller : Context G → C → Setup C G
  add_server : Context G → Text → Setup C G
  add_healthz_check add_readyz_check : Text → Setup C G
  start : Setup C G

-- The process: the settings of pkg/common/config.go and what was asked so far, the oldest first.
pub record Process (C G : Type 0) : Type 0 where
  pub settings : Settings
  pub asked : List (Setup C G)

-- `config` is what GetConfigOrDie returns: with `none` it ends the process.
pub record Libraries (C F G : Type 0) : Type 0 where
  pub config : Option (ClientConfig G)
  pub float32 : F → G
  pub answer : List (Setup C G) → Setup C G → Option Error

abbrev pub Boot : Type 0 → Type 0 → Type 0 → Type 0
Boot C G A = Process C G → Result A × Process C G

module _ {C G : Type 0} where
  abbrev pub then_boot :
      {A B : Type 0} → Result A × Process C G → (A → Boot C G B) → Result B × Process C G
  then_boot (ok a, p) k = k a p
  then_boot (err e, p) k = (err e, p)
  then_boot (panic, p) k = (panic, p)

infixl 5 ◌>>=◌ ◌>>◌
abbrev pub ◌>>=◌ : {C G A B : Type 0} → Boot C G A → (A → Boot C G B) → Boot C G B
◌>>=◌ m k p = then_boot (m p) k

abbrev pub ◌>>◌ : {C G A B : Type 0} → Boot C G A → Boot C G B → Boot C G B
m >> k = m >>= λ _. k

module _ {C F G : Type 0} (lib : Libraries C F G) where
  abbrev answered : Option Error → Process C G → Result (Unit {0}) × Process C G
  answered none p = (ok tt, p)
  answered (some e) p = (err e, p)

  -- A call whose error is returned.
  abbrev pub ask : Setup C G → Boot C G (Unit {0})
  ask call p = answered (lib.answer p.asked call) (record p { asked = p.asked ++ call ∷ [] })

  -- A call whose error is dropped.
  abbrev pub ask_only : Setup C G → Boot C G (Unit {0})
  ask_only call p = (ok tt, record p { asked = p.asked ++ call ∷ [] })

  abbrev found_config : Option (ClientConfig G) → Boot C G (ClientConfig G)
  found_config none p = (panic, p)
  found_config (some c) p = (ok c, p)

  -- ctrl.GetConfigOrDie
  abbrev pub get_config_or_die : Boot C G (ClientConfig G)
  get_config_or_die = found_config lib.config

-- SetServiceDomainName, SetDIServerURL
unfoldable pub set_service_domain_name : {C G : Type 0} → Text → Boot C G (Unit {0})
set_service_domain_name name p =
    (ok tt, record p { settings = record p.settings { service_domain_name = name } })

unfoldable pub set_di_server_url : {C G : Type 0} → Text → Boot C G (Unit {0})
set_di_server_url url p = (ok tt, record p { settings = record p.settings { di_server_url = url } })
