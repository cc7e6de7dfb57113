-- ===== src/Command/Shell.antt =====
-- pkg/cwlexec/clt_cmdline.go: the command line as one string for a shell.
use Prim.Native.Char.{code}
use Prim.Native.String.{◌++◌}
use cwl_go.Prelude.{ℕ, String, Bool, false, not, ◌||◌, List, [], ◌∷◌, ◌==◌, str_eq, if◌then◌else◌}

-- `Arg`
pub record Arg : Type 0 where
  pub value : String
  pub quote : Bool

abbrev pub shell_safe_chars : String
shell_safe_chars = "abcdefghijklmnopqrstuvwxyzABCDEFGHIJKLMNOPQRSTUVWXYZ0123456789@%+=:,./-_"

-- strings.ContainsRune, of the rune with this code
unfoldable pub contains_rune : String → ℕ → Bool
contains_rune String.[] n = false
contains_rune (String.◌∷◌ c s) n = code c == n || contains_rune s n

abbrev pub unsafe_in_shell : ℕ → Bool
unsafe_in_shell n = not (contains_rune shell_safe_chars n)

-- strings.ContainsFunc
unfoldable pub any_unsafe : String → Bool
unfolding contains_rune
any_unsafe String.[] = false
any_unsafe (String.◌∷◌ c s) = unsafe_in_shell (code c) || any_unsafe s

-- strings.ReplaceAll of a single quote
unfoldable pub escape_quotes : String → String
escape_quotes String.[] = ""
escape_quotes (String.◌∷◌ c s) =
    let rest = escape_quotes s in if code c == 39 then "'\\''" ++ rest else String.◌∷◌ c rest

unfoldable pub shell_quote : String → String
unfolding any_unsafe escape_quotes
shell_quote text =
    if str_eq text ""
    then "''"
    else if any_unsafe text
    then "'" ++ (escape_quotes text ++ "'")
    else text

-- strings.Join with a space
unfoldable pub join_spaces : List String → String
join_spaces [] = ""
join_spaces (part ∷ []) = part
join_spaces (part ∷ other ∷ parts) = part ++ (" " ++ join_spaces (other ∷ parts))

unfoldable pub shell_parts : List Arg → List String
unfolding shell_quote
shell_parts [] = []
shell_parts (arg ∷ args) =
    (if arg.quote then shell_quote arg.value else arg.value) ∷ shell_parts args

-- `ShellCommand`
unfoldable pub shell_command : List Arg → String
unfolding join_spaces shell_parts
shell_command args = join_spaces (shell_parts args)

-- `Argv`
unfoldable pub argv : List Arg → List String
argv [] = []
argv (arg ∷ args) = arg.value ∷ argv args
