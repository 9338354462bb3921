-- ===== src/Commands/Root.antt =====
-- cmd/root.go, NewCmdOperator and NewCmdServer: the command line of the program. cobra and pflag, which
-- choose a command and assign the flags, are left out; an error of a command goes to cobra.CheckErr.
use di_orchestrator.Base.{ℕ, List}
use di_orchestrator.Text.{Text, codes}
use di_orchestrator.Machine.{Api}
use di_orchestrator.Status.Incorrect.{Dynamic}
use di_orchestrator.Allocator.Resources.{Library}
use di_orchestrator.Commands.{
  GenericFlags, Parsers, Flag, Libraries, Boot, new_generic_flags, generic_flags,
}
use di_orchestrator.Commands.Watches.{Registration}
use di_orchestrator.Commands.Operator
use di_orchestrator.Commands.Operator.{operator_flags, run_operator}
use di_orchestrator.Commands.Serve
use di_orchestrator.Commands.Serve.{server_flags, run_server}

-- A command: its name, its options before the flags are read, its flags, and what it runs.
pub record Command (O R : Type 0) : Type 0 where
  pub use_line : Text
  pub defaults : O
  pub flags : List (Flag O)
  pub run : O → R

-- NewCmdOperator
unfoldable pub new_cmd_operator :
    {F G U V : Type 0}
    → Parsers F
    → Libraries Registration F G
    → Library
    → Api
    → Dynamic U V
    → GenericFlags F
    → Command (Operator.CreateOptions F) (Boot Registration G (Unit {0}))
unfolding operator_flags run_operator
new_cmd_operator p lib resources api dynamic flags = record {
  use_line = codes "operator";
  defaults = Operator.new_create_options flags;
  flags = operator_flags p;
  run = run_operator lib resources api dynamic;
}

-- NewCmdServer
unfoldable pub new_cmd_server :
    {F G : Type 0}
    → Libraries Registration F G
    → GenericFlags F
    → Command (Serve.CreateOptions F) (Boot Registration G (Unit {0}))
unfolding server_flags run_server
new_cmd_server lib flags = record {
  use_line = codes "server";
  defaults = Serve.new_create_options flags;
  flags = server_flags;
  run = run_server lib;
}

-- rootCmd with what `init` gives it: the flags that both commands share, and the commands, whose
-- options begin with the defaults of those flags.
pub record Root (F G : Type 0) : Type 0 where
  pub use_line : Text
  pub flags : List (Flag (GenericFlags F))
  pub server : Command (Serve.CreateOptions F) (Boot Registration G (Unit {0}))
  pub operator : Command (Operator.CreateOptions F) (Boot Registration G (Unit {0}))

unfoldable pub root_cmd :
    {F G U V : Type 0}
    → (ℕ → F)
    → Parsers F
    → Libraries Registration F G
    → Library
    → Api
    → Dynamic U V
    → Root F G
unfolding new_generic_flags generic_flags new_cmd_operator new_cmd_server
root_cmd float p lib resources api dynamic = record {
  use_line = codes "di-orchestrator";
  flags = generic_flags p;
  server = new_cmd_server lib (new_generic_flags float);
  operator = new_cmd_operator p lib resources api dynamic (new_generic_flags float);
}
