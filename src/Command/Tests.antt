-- ===== src/Command/Tests.antt =====
-- The command line of a tool with a string, an array and an argument, and its form for a shell.
use Prim.Native.Char.{code}
use cwl_go.Prelude.{
  ℕ, zero, suc, String, false, true, none, some, [], ◌∷◌, ◌≡◌, refl, ok, List, All, lookup,
  contains,
}
use cwl_go.Prelude.Int.{ℤ, pos, negsuc}
use cwl_go.Value.{int, text, arr, nil, cons}
use cwl_go.Sorting.Keys.{num_key}
use cwl_go.Schema.{Binding, at, TypeRef, primitive, array_of}
use cwl_go.Command.Values.{Forms}
use cwl_go.Command.Bindings.{
  BoundArg, BindTarget, CmdBuilder, position, literal, bind_input, leaf, empty_binding,
}
use cwl_go.Command.Walk.{bind_nested}
use cwl_go.Command.Line.{CommandLineTool, build_command_line, sort_bound}
use cwl_go.Command.Shell.{Arg, shell_command, argv}
use cwl_go.Command.Words.{shell_words, is_name}
use cwl_go.Command.Quoted.{IsQuoted, IsCommand, shell_words-shell_command}
use cwl_go.Command.Keyed.{Leaves, bind_nested-KeepsKey}
use cwl_go.Command.Ahead.{IsAhead, IsPlaced, bind_input-IsAhead}
use cwl_go.Command.Sorted.{Sorts, sort_bound-Sorts}

abbrev digit : ℤ → String
digit (pos zero) = "0"
digit (pos (suc zero)) = "1"
digit (pos _) = "2"
digit (negsuc _) = "-1"

-- The bytes of an ASCII text.
abbrev ascii : String → List ℕ
ascii String.[] = []
ascii (String.◌∷◌ c s) = code c ∷ ascii s

abbrev forms : Forms
forms = record {
  opaque_file = λ n. none;
  opaque_number = λ n. none;
  opaque_integer = λ n. none;
  decimal = digit;
  bytes = ascii;
}

-- An evaluator that knows texts only.
abbrev builder : CmdBuilder
builder = record {
  forms = forms;
  eval = λ code self. ok (text code);
  inputs =
      ("file", text "my file")
      ∷ ("numbers", arr (cons (int (pos 2)) (cons (int (pos 1)) nil)))
      ∷ [];
  resolve = λ type. type;
}

abbrev flag : String → ℕ → Binding
flag prefix n = record empty_binding { prefix = prefix; position = at (pos n) }

abbrev array_type : TypeRef
array_type = array_of none (primitive "int")

abbrev sample_tool : CommandLineTool
sample_tool = record {
  base_command = "run" ∷ [];
  inputs =
      record { id = "tool.cwl#file"; type = primitive "string"; binding = some (flag "" 2) }
      ∷ record { id = "tool.cwl#numbers"; type = array_type; binding = some (flag "-n" 1) }
      ∷ [];
  arguments = literal "--fast" ∷ [];
}

abbrev plain_arg : String → Arg
plain_arg s = record { value = s; quote = true }

abbrev sample_args : List Arg
sample_args =
    plain_arg "run"
    ∷ plain_arg "--fast"
    ∷ plain_arg "-n"
    ∷ plain_arg "2"
    ∷ plain_arg "1"
    ∷ plain_arg "my file"
    ∷ []

sample_line :
    build_command_line builder none sample_tool ≡ ok record { args = sample_args; shell = false }
unfolding build_command_line lookup
sample_line = refl

sample_shell : shell_command sample_args ≡ "run --fast -n 2 1 'my file'"
unfolding shell_command
sample_shell = refl

args-IsQuoted : All IsQuoted sample_args
args-IsQuoted = (refl, (refl, (refl, (refl, (refl, (refl, tt))))))

args-IsCommand : IsCommand sample_args
unfolding is_name contains
args-IsCommand = refl

sample_words : shell_words "run --fast -n 2 1 'my file'" ≡ some (argv sample_args)
unfolding argv shell_command
sample_words = shell_words-shell_command sample_args args-IsQuoted args-IsCommand

shell_words-shell_command_example :
    shell_words (shell_command sample_args) ≡ some (argv sample_args)
shell_words-shell_command_example =
    shell_words-shell_command sample_args args-IsQuoted args-IsCommand

abbrev numbers_target : BindTarget
numbers_target = record {
  binding = some (flag "-n" 1);
  value = arr (cons (int (pos 2)) (cons (int (pos 1)) nil));
  key = [];
  tie = num_key (pos 0);
}

abbrev file_target : BindTarget
file_target = record {
  binding = some (flag "" 2);
  value = text "my file";
  key = [];
  tie = num_key (pos 0);
}

bind_nested-KeepsKey_example :
    Leaves
      (num_key (pos 1) ∷ [])
      (bind_nested builder array_type numbers_target (num_key (pos 1) ∷ []))
bind_nested-KeepsKey_example =
    bind_nested-KeepsKey builder array_type numbers_target (num_key (pos 1) ∷ [])

abbrev number_leaves : List BoundArg
number_leaves =
    leaf (num_key (pos 1) ∷ num_key (pos 0) ∷ []) (flag "-n" 1)
      (arr (cons (int (pos 2)) (cons (int (pos 1)) nil))) false
    ∷ leaf (num_key (pos 1) ∷ num_key (pos 0) ∷ num_key (pos 0) ∷ num_key (pos 0) ∷ [])
        empty_binding (int (pos 2)) false
    ∷ leaf (num_key (pos 1) ∷ num_key (pos 0) ∷ num_key (pos 0) ∷ num_key (pos 1) ∷ [])
        empty_binding (int (pos 1)) false
    ∷ []

abbrev file_leaves : List BoundArg
file_leaves = leaf (num_key (pos 2) ∷ num_key (pos 0) ∷ []) (flag "" 2) (text "my file") false ∷ []

number_leaves_bound :
    bind_input builder (bind_nested builder array_type) numbers_target ≡ ok number_leaves
unfolding bind_input bind_nested
number_leaves_bound = refl

file_leaves_bound :
    bind_input builder (bind_nested builder (primitive "string")) file_target ≡ ok file_leaves
unfolding bind_input bind_nested
file_leaves_bound = refl

numbers-IsPlaced : IsPlaced builder numbers_target (pos 1)
unfolding position
numbers-IsPlaced = record { binding = flag "-n" 1; full = refl; same = refl; evaluated = refl }

file-IsPlaced : IsPlaced builder file_target (pos 2)
unfolding position
file-IsPlaced = record { binding = flag "" 2; full = refl; same = refl; evaluated = refl }

bind_input-IsAhead_example : IsAhead number_leaves file_leaves
bind_input-IsAhead_example =
    bind_input-IsAhead builder array_type (primitive "string") numbers_target file_target (pos 1)
      (pos 2) number_leaves file_leaves refl numbers-IsPlaced file-IsPlaced refl number_leaves_bound
      file_leaves_bound

sort_bound-Sorts_example : Sorts number_leaves (sort_bound number_leaves)
sort_bound-Sorts_example = sort_bound-Sorts number_leaves
