-- ===== src/Commands/Laws.antt =====
-- The start of the operator and of the server (cmd/operator/operator.go, cmd/server/server.go), with
-- the answers of the manager left open.
use di_orchestrator.Base.{
  ◌≡◌, refl, sym, subst, Bool, true, false, Option, none, some, List, [], ◌∷◌, ◌++◌,
}
use di_orchestrator.Text.{codes}
use di_orchestrator.Machine.{Error, Result, ok, err, Api, Settings}
use di_orchestrator.Status.Incorrect.{Dynamic}
use di_orchestrator.Allocator.Resources.{Library}
use di_orchestrator.Commands.{
  ClientConfig, new_context, Setup, Process, Libraries, Boot, then_boot, ask, answered,
  get_config_or_die, found_config, set_service_domain_name, set_di_server_url,
}
use di_orchestrator.Commands.Watches.{Registration, reconciler_setup, allocator_setup}
use di_orchestrator.Commands.Operator.{CreateOptions, manager_options, run_operator}
use di_orchestrator.Commands.Serve
use di_orchestrator.Commands.Serve.{run_server}

-- Calls are made in the order of a list until one is refused, whose error is the result.
pub data Ran {C F G : Type 0} (lib : Libraries C F G)
    : List (Setup C G) → List (Setup C G) → Result (Unit {0}) → List (Setup C G) → Type 0 where
  ended : {asked : List (Setup C G)} → Ran lib asked [] (ok tt) asked
  accepted :
      {asked steps after : List (Setup C G)} {r : Result (Unit {0})} (c : Setup C G)
      → lib.answer asked c ≡ none
      → Ran lib (asked ++ c ∷ []) steps r after
      → Ran lib asked (c ∷ steps) r after
  refused :
      {asked steps : List (Setup C G)} (c : Setup C G) (e : Error)
      → lib.answer asked c ≡ some e
      → Ran lib asked (c ∷ steps) (err e) (asked ++ c ∷ [])

-- The process has made the calls of a list, as far as they were accepted, and kept its settings.
abbrev Goes :
    {C F G : Type 0}
    → Libraries C F G
    → List (Setup C G)
    → Process C G
    → Result (Unit {0}) × Process C G
    → Type 0
Goes lib steps p out = Ran lib p.asked steps out.0 out.1.asked × (out.1.settings ≡ p.settings)

module _ {C F G : Type 0} (lib : Libraries C F G) (c : Setup C G) (p : Process C G) where
  abbrev after_ask : Process C G
  after_ask = record p { asked = p.asked ++ c ∷ [] }

  ask-Goes :
      (steps : List (Setup C G)) (k : Boot C G (Unit {0}))
      → Goes lib steps after_ask (k after_ask)
      → Goes lib (c ∷ steps) p (then_boot (ask lib c p) (λ _. k))
  ask-Goes steps k rest = go (lib.answer p.asked c) refl
    where
      go :
          (o : Option Error)
          → lib.answer p.asked c ≡ o
          → Goes lib (c ∷ steps) p (then_boot (answered lib o after_ask) (λ _. k))
      go none e = (Ran.accepted c e rest.0, rest.1)
      go (some x) e = (Ran.refused c x e, refl)

  ask_last-Goes : Goes lib (c ∷ []) p (ask lib c p)
  ask_last-Goes = go (lib.answer p.asked c) refl
    where
      go :
          (o : Option Error)
          → lib.answer p.asked c ≡ o
          → Goes lib (c ∷ []) p (answered lib o after_ask)
      go none e = (Ran.accepted c e Ran.ended, refl)
      go (some x) e = (Ran.refused c x e, refl)

config-Goes :
    {C F G : Type 0} (lib : Libraries C F G) (base : ClientConfig G) (steps : List (Setup C G))
    (p : Process C G) (k : ClientConfig G → Boot C G (Unit {0}))
    → lib.config ≡ some base
    → Goes lib steps p (k base p)
    → Goes lib steps p (then_boot (get_config_or_die lib p) k)
config-Goes lib base steps p k e rest =
    subst (λ c. Goes lib steps p (then_boot (found_config lib c p) k)) (sym e) rest

-- The configuration of the client, with the limits of the flags.
abbrev pub operator_config :
    {C F G : Type 0} → Libraries C F G → CreateOptions F → ClientConfig G → ClientConfig G
operator_config lib o base = record base {
  qps = lib.float32 o.generic.qps;
  burst = o.generic.burst;
}

-- What the operator asks for, in order: the reconciler and the allocator, both with the limits of the
-- flags, the two checks, and the start at the very end.
abbrev pub operator_steps :
    {F G U V : Type 0}
    → ClientConfig G
    → Library
    → Api
    → Dynamic U V
    → CreateOptions F
    → List (Setup Registration G)
operator_steps config resources api dynamic o =
    Setup.new_manager config (manager_options o)
    ∷ Setup.controller (new_context config (codes "di-operator")) (reconciler_setup api dynamic)
    ∷ Setup.controller (new_context config (codes "di-allocator")) (allocator_setup resources api)
    ∷ Setup.add_healthz_check (codes "healthz")
    ∷ Setup.add_readyz_check (codes "readyz")
    ∷ Setup.start
    ∷ []

abbrev pub settings_of : {F : Type 0} → CreateOptions F → Settings → Settings
settings_of o settings = record settings {
  service_domain_name = o.generic.service_domain_name;
  di_server_url = o.generic.di_server_url;
}

-- Where the client has a configuration, the operator sets the service domain and the server's URL to
-- those of its flags before anything else, and then makes a manager, registers the reconciler, the
-- allocator, the health check and the ready check, and starts the manager, in this order. At the first
-- of these that is refused it stops and returns that error; if none is, it returns nil.
pub run_operator-Ran :
    {F G U V : Type 0} (lib : Libraries Registration F G) (resources : Library) (api : Api)
    (dynamic : Dynamic U V) (o : CreateOptions F) (base : ClientConfig G)
    (p : Process Registration G)
    → lib.config ≡ some base
    → let out = run_operator lib resources api dynamic o p in
      Ran lib p.asked
        (operator_steps (operator_config lib o base) resources api dynamic o)
        out.0
        out.1.asked
      × (out.1.settings ≡ settings_of o p.settings)
unfolding run_operator set_service_domain_name set_di_server_url
run_operator-Ran lib resources api dynamic o base p e = config-Goes lib base _ _ _ e (
    ask-Goes lib _ _ _ _ (
      ask-Goes lib _ _ _ _ (
        ask-Goes lib _ _ _ _
          (ask-Goes lib _ _ _ _ (ask-Goes lib _ _ _ _ (ask_last-Goes lib Setup.start _))))))

-- `mgr.Add`, the call that gives the server to the manager.
abbrev pub is_add : {C G : Type 0} → Setup C G → Bool
is_add (Setup.add_server context address) = true
is_add (Setup.new_manager config options) = false
is_add (Setup.controller context c) = false
is_add (Setup.add_healthz_check name) = false
is_add (Setup.add_readyz_check name) = false
is_add Setup.start = false

-- Where the client has a configuration and the manager accepts all but the server, and maybe refuses
-- that one, the server's command still starts the manager, as its last call, and returns nil.
pub run_server_unserved :
    {C F G : Type 0} (lib : Libraries C F G) (o : Serve.CreateOptions F) (base : ClientConfig G)
    (p : Process C G)
    → lib.config ≡ some base
    → ((asked : List (Setup C G)) (call : Setup C G)
        → is_add call ≡ false
        → lib.answer asked call ≡ none)
    → let out = run_server lib o p in
      (out.0 ≡ ok tt) × ((before : List (Setup C G)) × (out.1.asked ≡ before ++ Setup.start ∷ []))
unfolding run_server set_service_domain_name set_di_server_url
run_server_unserved lib o base p e accepts =
    rw
      (
        e,
        accepts p.asked _ refl,
        accepts _ (Setup.add_healthz_check (codes "healthz")) refl,
        accepts _ (Setup.add_readyz_check (codes "readyz")) refl,
        accepts _ Setup.start refl,
      )
      (refl, (_, refl))
