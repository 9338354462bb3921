-- ===== src/Tests/Commands.antt =====
-- The theorems about the start of the two commands, at a manager that refuses a call. Floating-point
-- numbers are written as natural numbers.
use di_orchestrator.Base.{ℕ, ◌≡◌, refl, false, inr, Option, none, some, List, [], ◌∷◌, ◌++◌, pos}
use di_orchestrator.Text.{codes}
use di_orchestrator.Machine.{Error, ok, throw, pure}
use di_orchestrator.Commands.{ClientConfig, Setup, Process, Libraries, new_generic_flags}
use di_orchestrator.Commands.Watches.{Registration}
use di_orchestrator.Commands.Operator
use di_orchestrator.Commands.Operator.{run_operator}
use di_orchestrator.Commands.Serve
use di_orchestrator.Commands.Serve.{run_server}
use di_orchestrator.Commands.Laws.{
  Ran, operator_config, operator_steps, settings_of, run_operator-Ran, is_add, run_server_unserved,
}
use di_orchestrator.Tests.{api, settings}
use di_orchestrator.Status.Incorrect.{Dynamic}
use di_orchestrator.Tests.Nodes.{lib_with}

-- A client that finds no object.
abbrev blind : Dynamic (Unit {0}) (Unit {0})
blind = record {
  new_for_config = none;
  to_unstructured = λ status. inr tt;
  set_status = λ fields un. un;
  get = λ key. throw (Error.client (codes "not found"));
  update_status = λ un. pure tt;
}

abbrev base : ClientConfig ℕ
base = record { qps = 0; burst = pos 0 }

abbrev refusal : Option Error
refusal = some (Error.client (codes "no such port"))

-- The second check and the server are refused.
abbrev picky : Setup Registration ℕ → Option Error
picky (Setup.add_readyz_check name) = refusal
picky (Setup.add_server context address) = refusal
picky _ = none

abbrev libraries : Libraries Registration ℕ ℕ
libraries = record { config = some base; float32 = λ x. x; answer = λ asked call. picky call }

abbrev idle : Process Registration ℕ
idle = record { settings = settings; asked = [] }

abbrev operator_options : Operator.CreateOptions ℕ
operator_options = Operator.new_create_options (new_generic_flags (λ n. n))

run_operator-Ran_example :
    let out = run_operator libraries (lib_with []) api blind operator_options idle in
    Ran libraries []
      (operator_steps
        (operator_config libraries operator_options base)
        (lib_with [])
        api
        blind
        operator_options)
      out.0
      out.1.asked
    × (out.1.settings ≡ settings_of operator_options idle.settings)
run_operator-Ran_example =
    run_operator-Ran libraries (lib_with []) api blind operator_options base idle refl

abbrev lenient : Setup Registration ℕ → Option Error
lenient (Setup.add_server context address) = refusal
lenient _ = none

abbrev without_server : Libraries Registration ℕ ℕ
without_server = record {
  config = some base;
  float32 = λ x. x;
  answer = λ asked call. lenient call;
}

accepts_rest : (call : Setup Registration ℕ) → is_add call ≡ false → lenient call ≡ none
accepts_rest (Setup.add_server context address) e = cc
accepts_rest (Setup.new_manager config options) e = refl
accepts_rest (Setup.controller context c) e = refl
accepts_rest (Setup.add_healthz_check name) e = refl
accepts_rest (Setup.add_readyz_check name) e = refl
accepts_rest Setup.start e = refl

abbrev server_options : Serve.CreateOptions ℕ
server_options = Serve.new_create_options (new_generic_flags (λ n. n))

run_server_unserved_example :
    let out = run_server without_server server_options idle in
    (out.0 ≡ ok tt)
    × ((before : List (Setup Registration ℕ)) × (out.1.asked ≡ before ++ Setup.start ∷ []))
run_server_unserved_example =
    run_server_unserved without_server server_options base idle refl
      (λ asked call e. accepts_rest call e)
