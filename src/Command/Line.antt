-- ===== src/Command/Line.antt =====
-- pkg/cwlexec/clt_cmdline.go and `collect` of clt_binding.go: the command line of a tool.
use cwl_go.Prelude.{
  ℕ, suc, String, Bool, true, false, Option, none, some, List, [], ◌∷◌, ◌++◌, Result, ok, ◌>>=◌,
}
use cwl_go.Value.{at_key}
use cwl_go.Sorting.Keys.{Order, greater, compare_keys, text_key}
use cwl_go.Schema.{Binding, TypeRef}
use cwl_go.Requirements.Scope.{Scope, get_requirement}
use cwl_go.Command.Values.{Forms}
use cwl_go.Names.{short_name}
use cwl_go.Command.Bindings.{
  BoundArg, BindTarget, CmdBuilder, Argument, bind_argument, bind_input, both,
}
use cwl_go.Command.Walk.{bind_nested}
use cwl_go.Command.Render.{render_arg}
use cwl_go.Command.Shell.{Arg}

pub record ToolInput : Type 0 where
  pub id : String
  pub type : TypeRef
  pub binding : Option Binding

-- What `BuildCommandLine` reads of a `CommandLineTool`.
pub record CommandLineTool : Type 0 where
  pub base_command : List String
  pub inputs : List ToolInput
  pub arguments : List Argument

pub record CommandLine : Type 0 where
  pub args : List Arg
  pub shell : Bool

abbrev pub root_target : CmdBuilder → ToolInput → BindTarget
root_target b input = record {
  binding = input.binding;
  value = at_key b.inputs (short_name input.id);
  key = [];
  tie = text_key (b.forms.bytes (short_name input.id));
}

unfoldable pub collect_inputs : CmdBuilder → List ToolInput → Result (List BoundArg)
unfolding bind_input bind_nested short_name
collect_inputs b [] = ok []
collect_inputs b (input ∷ inputs) =
    both (bind_input b (λ t k. bind_nested b (b.resolve input.type) t k) (root_target b input))
      (collect_inputs b inputs)

unfoldable pub collect_arguments : CmdBuilder → ℕ → List Argument → Result (List BoundArg)
unfolding bind_argument
collect_arguments b index [] = ok []
collect_arguments b index (a ∷ arguments) =
    both (bind_argument b index a) (collect_arguments b (suc index) arguments)

unfoldable pub collect : CmdBuilder → CommandLineTool → Result (List BoundArg)
unfolding collect_inputs collect_arguments
collect b tool = both (collect_inputs b tool.inputs) (collect_arguments b 0 tool.arguments)

-- slices.SortStableFunc with `compareKeys`: a leaf goes before the first whose key is not smaller.
abbrev pub place : Order → BoundArg → BoundArg → List BoundArg → List BoundArg → List BoundArg
place greater a b bs placed = b ∷ placed
place _ a b bs placed = a ∷ b ∷ bs

unfoldable pub insert : BoundArg → List BoundArg → List BoundArg
unfolding compare_keys
insert a [] = a ∷ []
insert a (b ∷ bs) = place (compare_keys a.key b.key) a b bs (insert a bs)

unfoldable pub sort_bound : List BoundArg → List BoundArg
unfolding insert
sort_bound [] = []
sort_bound (a ∷ bs) = insert a (sort_bound bs)

abbrev pub base_args : List String → List Arg
base_args [] = []
base_args (command ∷ commands) = record { value = command; quote = true } ∷ base_args commands

unfoldable pub render_all : Forms → List BoundArg → Result (List Arg)
unfolding render_arg
render_all f [] = ok []
render_all f (a ∷ bs) = render_arg f a >>= λ args. render_all f bs >>= λ rest. ok (args ++ rest)

unfoldable pub assemble : Forms → List String → List BoundArg → Result (List Arg)
unfolding sort_bound render_all
assemble f base_command bound =
    render_all f (sort_bound bound) >>= λ args. ok (base_args base_command ++ args)

abbrev pub is_found : {A B : Type 0} → Option A × B → Bool
is_found (some a, b) = true
is_found (none, b) = false

unfoldable pub shell_requested : Option Scope → Bool
unfolding get_requirement
shell_requested none = false
shell_requested (some scope) = is_found (get_requirement scope "ShellCommandRequirement")

unfoldable pub build_command_line : CmdBuilder → Option Scope → CommandLineTool → Result CommandLine
unfolding collect assemble shell_requested
build_command_line b scope tool = collect b tool >>= λ bound.
    assemble b.forms tool.base_command bound >>= λ args.
    ok record { args = args; shell = shell_requested scope }
