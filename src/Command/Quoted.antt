-- ===== src/Command/Quoted.antt =====
-- pkg/cwlexec/clt_cmdline.go: a shell reads a quoted command line back as the arguments.
use Prim.Native.Char.{Char}
use Prim.Native.String.{◌++◌}
use text.Mathlib.TextLemmas.{nil-append, cons-append, append-nil, append_assoc}
use cwl_go.Prelude.{
  String, ◌≡◌, refl, sym, ap, ◌∙◌, true, false, none, some, List, [], ◌∷◌, arith, str_eq, if-elim,
  All, if◌then◌else◌, eq_iff,
}
use cwl_go.Command.Shell.{
  Arg, any_unsafe, escape_quotes, shell_quote, join_spaces, shell_parts, shell_command, argv,
}
use cwl_go.Command.Words.{
  read, plain, quoted, shell_words, simple_command, is_name, cons_word, read_safe_one, read_safe,
  read_escaped, close_quote,
}

open_quote : (s : String) → read plain none ("'" ++ s) ≡ read quoted (some "") s
open_quote s =
    ap (read plain none) (cons-append "'" "" s ∙ ap (String.◌∷◌ "'") (nil-append s))
    ∙ unfold read in refl

read_empty : (s : String) → read plain none ("''" ++ s) ≡ read plain (some "") s
read_empty s =
    ap (read plain none) (append_assoc "'" "'" s) ∙ open_quote ("'" ++ s) ∙ close_quote "" s

read_wrapped :
    (t s : String)
    → read plain none (("'" ++ (escape_quotes t ++ "'")) ++ s) ≡ read plain (some t) s
read_wrapped t s =
    ap (read plain none) (
      append_assoc "'" (escape_quotes t ++ "'") s
      ∙ ap (λ v. "'" ++ v) (append_assoc (escape_quotes t) "'" s))
    ∙ open_quote (escape_quotes t ++ ("'" ++ s))
    ∙ read_escaped t "" s
    ∙ ap (λ v. read plain (some v) s) (nil-append t)

read_bare :
    (c : Char) (t s : String)
    → any_unsafe (String.◌∷◌ c t) ≡ false
    → read plain none (String.◌∷◌ c t ++ s) ≡ read plain (some (String.◌∷◌ c t)) s
unfolding any_unsafe
read_bare c t s h =
    ap (read plain none) (cons-append c t s)
    ∙ read_safe_one c none (t ++ s) (ground arith)
    ∙ ap (λ v. read plain (some v) (t ++ s)) (nil-append (String.◌∷◌ c ""))
    ∙ read_safe t (String.◌∷◌ c "") s (ground arith)
    ∙ ap (λ v. read plain (some v) s) (cons-append c "" t ∙ ap (String.◌∷◌ c) (nil-append t))

bare_or_empty :
    (t s : String)
    → str_eq t "" ≡ false
    → any_unsafe t ≡ false
    → read plain none (t ++ s) ≡ read plain (some t) s
bare_or_empty String.[] s full safe = absurd (ground arith)
bare_or_empty (String.◌∷◌ c t) s full safe = read_bare c t s safe

-- A quoted text is read as the text.
read_literal : (t s : String) → read plain none (shell_quote t ++ s) ≡ read plain (some t) s
unfolding shell_quote
read_literal t s =
    let Reads : String → Type 0 = λ q. read plain none (q ++ s) ≡ read plain (some t) s in
    if-elim Reads (str_eq t "") "''" _
      (λ e. read_empty s ∙ ap (λ v. read plain (some v) s) (sym ((eq_iff t "").0 e)))
      (λ full.
        if-elim Reads (any_unsafe t) ("'" ++ (escape_quotes t ++ "'")) t (λ _. read_wrapped t s)
          (λ safe. bare_or_empty t s full safe))

abbrev pub IsQuoted : Arg → Type 0
IsQuoted arg = arg.quote ≡ true

next_word : (w s : String) → read plain (some w) (" " ++ s) ≡ cons_word (some w) (read plain none s)
next_word w s =
    ap (read plain (some w)) (cons-append " " "" s ∙ ap (String.◌∷◌ " ") (nil-append s))
    ∙ unfold read in refl

quoted_part :
    (a : Arg)
    → IsQuoted a
    → (if a.quote then shell_quote a.value else a.value) ≡ shell_quote a.value
quoted_part a h = rw h refl

words_of_parts :
    (args : List Arg)
    → All IsQuoted args
    → read plain none (join_spaces (shell_parts args)) ≡ some (argv args)
unfolding join_spaces shell_parts argv
words_of_parts [] h = unfold read in refl
words_of_parts (a ∷ []) h =
    ap (read plain none) (quoted_part a (h.0) ∙ sym (append-nil (shell_quote a.value)))
    ∙ read_literal a.value ""
    ∙ unfold read in refl
words_of_parts (a ∷ b ∷ args) h =
    let tail = join_spaces (shell_parts (b ∷ args)) in
    ap (λ q. read plain none (q ++ (" " ++ tail))) (quoted_part a (h.0))
    ∙ read_literal a.value (" " ++ tail)
    ∙ next_word a.value tail
    ∙ ap (cons_word (some a.value)) (words_of_parts (b ∷ args) (h.1))

-- The first argument, if there is one, is no assignment and no reserved word.
abbrev pub IsCommand : List Arg → Type 0
IsCommand [] = Unit
IsCommand (a ∷ args) = is_name a.value ≡ true

command_kept :
    (args : List Arg) → IsCommand args → simple_command (some (argv args)) ≡ some (argv args)
unfolding argv
command_kept [] h = refl
command_kept (a ∷ args) h = rw h refl

-- Where every argument is quoted, and the first is neither an assignment nor a reserved word, the
-- words that a shell reads in ShellCommand are the arguments of Argv.
pub shell_words-shell_command :
    (args : List Arg)
    → All IsQuoted args
    → IsCommand args
    → shell_words (shell_command args) ≡ some (argv args)
unfolding shell_command
shell_words-shell_command args h command =
    ap simple_command (words_of_parts args h) ∙ command_kept args command
