-- ===== src/Command/Words.antt =====
-- The words that a POSIX shell reads in a command, and what it reads in a quoted command line.
use Prim.Native.Char.{Char, code}
use Prim.Native.String.{◌++◌}
use text.Mathlib.TextLemmas.{nil-append, cons-append, append-nil, append_assoc}
use text.Mathlib.TextEquality.{Char-path}
use mathlib.Core.Bool.{false≢true}
use cwl_go.Prelude.{
  ℕ, String, Bool, not, ◌||◌, ◌&&◌, ltb, contains, ◌≡◌, refl, sym, ap, ◌∙◌, true, false, Option,
  none, some, List, [], ◌∷◌, ◌==◌, arith, if◌then◌else◌, inl, inr, Bool-cases,
}
use cwl_go.Command.Shell.{contains_rune, shell_safe_chars, any_unsafe, escape_quotes}

-- Where the shell stands: outside quotes, inside single quotes, or behind a backslash.
pub data Mode : Type 0 where
  plain quoted escaped : Mode

abbrev pub or_empty : Option String → String
or_empty none = ""
or_empty (some w) = w

-- The word read so far, with one character more.
abbrev pub grow : Option String → Char → Option String
grow w c = some (or_empty w ++ String.◌∷◌ c "")

abbrev pub cons_word : Option String → Option (List String) → Option (List String)
cons_word none rest = rest
cons_word (some w) none = none
cons_word (some w) (some words) = some (w ∷ words)

-- The characters that are special to a shell, by their codes: ! " # $ & ' ( ) * ; < > ? [ \ ] ^ `
-- { | } and ~.
abbrev specials : List ℕ
specials =
    33 ∷ 34 ∷ 35 ∷ 36 ∷ 38 ∷ 39 ∷ 40 ∷ 41 ∷ 42 ∷ 59 ∷ 60 ∷ 62 ∷ 63 ∷ 91 ∷ 92 ∷ 93 ∷ 94 ∷ 96 ∷ 123
    ∷ 124 ∷ 125 ∷ 126 ∷ []

abbrev is_special : List ℕ → ℕ → Bool
is_special [] n = false
is_special (k ∷ ks) n = n == k || is_special ks n

-- A character that stands for itself: printable, not a space, and not special.
unfoldable pub is_literal : ℕ → Bool
is_literal n = (ltb 32 n && ltb n 127) && not (is_special specials n)

-- The words of a text. A character that is special to the shell, or an open quote, gives `none`.
unfoldable pub read : Mode → Option String → String → Option (List String)
read plain w String.[] = cons_word w (some [])
read quoted w String.[] = none
read escaped w String.[] = none
read quoted w (String.◌∷◌ c s) =
    let close = read plain (some (or_empty w)) s in
    let more = read quoted (grow w c) s in if code c == 39 then close else more
read escaped w (String.◌∷◌ c s) = read plain (grow w c) s
read plain w (String.◌∷◌ c s) =
    let next = read plain none s in
    let open_quote = read quoted (some (or_empty w)) s in
    let escape = read escaped w s in
    let more = read plain (grow w c) s in
    if code c == 32
    then cons_word w next
    else if code c == 39
    then open_quote
    else if code c == 92
    then escape
    else if is_literal (code c)
    then more
    else none

abbrev has_equals : String → Bool
has_equals w = contains_rune w 61

-- The reserved words of a shell.
abbrev reserved : List String
reserved =
    "if" ∷ "then" ∷ "else" ∷ "elif" ∷ "fi" ∷ "do" ∷ "done" ∷ "case" ∷ "esac" ∷ "while" ∷ "until"
    ∷ "for" ∷ "in" ∷ "{" ∷ "}" ∷ "!" ∷ []

-- A first word that is no assignment and no reserved word.
unfoldable pub is_name : String → Bool
unfolding contains_rune
is_name w = not (has_equals w || contains reserved w)

-- A simple command: its first word is a name.
abbrev pub simple_command : Option (List String) → Option (List String)
simple_command none = none
simple_command (some []) = some []
simple_command (some (w ∷ ws)) = if is_name w then some (w ∷ ws) else none

abbrev pub shell_words : String → Option (List String)
shell_words s = simple_command (read plain none s)

all_literal : String → Bool
all_literal String.[] = true
all_literal (String.◌∷◌ c s) = is_literal (code c) && all_literal s

literal_member :
    (s : String) (n : ℕ) → all_literal s ≡ true → contains_rune s n ≡ true → is_literal n ≡ true
unfolding contains_rune all_literal
literal_member String.[] n all h = cc
literal_member (String.◌∷◌ c s) n all h = elim (Bool-cases (code c == n)) [
  | inl same ↦
      let equal : code c ≡ n = ground arith in
      let own : is_literal (code c) ≡ true = ground arith in ap is_literal (sym equal) ∙ own
  | inr other ↦ literal_member s n (ground arith) (ground arith)
]

safe_literals : all_literal shell_safe_chars ≡ true
unfolding all_literal is_literal
safe_literals = refl

other_code : (n k : ℕ) → is_literal n ≡ true → is_literal k ≡ false → (n == k) ≡ false
other_code n k h e = elim (Bool-cases (n == k)) [
  | inl same ↦
      let equal : n ≡ k = ground arith in
      absurd (false≢true (sym e ∙ ap is_literal (sym equal) ∙ h))
  | inr other ↦ other
]

space_special : is_literal 32 ≡ false
unfolding is_literal
space_special = refl

quote_special : is_literal 39 ≡ false
unfolding is_literal
quote_special = refl

backslash_special : is_literal 92 ≡ false
unfolding is_literal
backslash_special = refl

pub read_safe_one :
    (c : Char) (w : Option String) (s : String)
    → contains_rune shell_safe_chars (code c) ≡ true
    → read plain w (String.◌∷◌ c s) ≡ read plain (grow w c) s
unfolding read
read_safe_one c w s h =
    let literal = literal_member shell_safe_chars (code c) safe_literals h in
    rw
      (
        other_code (code c) 32 literal space_special,
        other_code (code c) 39 literal quote_special,
        other_code (code c) 92 literal backslash_special,
        literal,
      )
      refl

grown : (w : String) (c : Char) (t : String) → (w ++ String.◌∷◌ c "") ++ t ≡ w ++ String.◌∷◌ c t
grown w c t =
    append_assoc w (String.◌∷◌ c "") t
    ∙ ap (λ v. w ++ v) (cons-append c "" t ∙ ap (String.◌∷◌ c) (nil-append t))

-- A text without special characters is read as it is.
pub read_safe :
    (t : String) (w s : String)
    → any_unsafe t ≡ false
    → read plain (some w) (t ++ s) ≡ read plain (some (w ++ t)) s
unfolding any_unsafe
read_safe String.[] w s h =
    ap (read plain (some w)) (nil-append s) ∙ ap (λ v. read plain (some v) s) (sym (append-nil w))
read_safe (String.◌∷◌ c t) w s h =
    let safe : contains_rune shell_safe_chars (code c) ≡ true = ground arith in
    ap (read plain (some w)) (cons-append c t s)
    ∙ read_safe_one c (some w) (t ++ s) safe
    ∙ read_safe t (w ++ String.◌∷◌ c "") s (ground arith)
    ∙ ap (λ v. read plain (some v) s) (grown w c t)

-- The four characters that stand for a quote inside quotes.
read_quote : (w s : String) → read quoted (some w) ("'\\''" ++ s) ≡ read quoted (some (w ++ "'")) s
read_quote w s =
    ap (read quoted (some w)) (
      cons-append "'" "\\''" s
      ∙ ap (String.◌∷◌ "'") (
          cons-append "\\" "''" s
          ∙ ap (String.◌∷◌ "\\") (
              cons-append "'" "'" s
              ∙ ap (String.◌∷◌ "'") (cons-append "'" "" s ∙ ap (String.◌∷◌ "'") (nil-append s)))))
    ∙ unfold read in refl

read_in_quotes :
    (c : Char) (w s : String)
    → (code c == 39) ≡ false
    → read quoted (some w) (String.◌∷◌ c s) ≡ read quoted (some (w ++ String.◌∷◌ c "")) s
unfolding read
read_in_quotes c w s e = rw e refl

pub close_quote : (w s : String) → read quoted (some w) ("'" ++ s) ≡ read plain (some w) s
close_quote w s =
    ap (read quoted (some w)) (cons-append "'" "" s ∙ ap (String.◌∷◌ "'") (nil-append s))
    ∙ unfold read in refl

escaped_one :
    (c : Char) (w rest s : String)
    → read quoted (some w) ((if code c == 39 then "'\\''" ++ rest else String.◌∷◌ c rest) ++ s)
      ≡ read quoted (some (w ++ String.◌∷◌ c "")) (rest ++ s)
escaped_one c w rest s = elim (Bool-cases (code c == 39)) [
  | inl same ↦
      let quote : c ≡ "'" = Char-path c "'" (ground arith) in
      rw same (
        ap (read quoted (some w)) (append_assoc "'\\''" rest s)
        ∙ read_quote w (rest ++ s)
        ∙ ap (λ d. read quoted (some (w ++ String.◌∷◌ d "")) (rest ++ s)) (sym quote))
  | inr other ↦
      rw other
        (ap (read quoted (some w)) (cons-append c rest s) ∙ read_in_quotes c w (rest ++ s) other)
]

-- Inside quotes, an escaped text is read as the text.
pub read_escaped :
    (t : String) (w s : String)
    → read quoted (some w) (escape_quotes t ++ ("'" ++ s)) ≡ read plain (some (w ++ t)) s
unfolding escape_quotes
read_escaped String.[] w s =
    ap (read quoted (some w)) (nil-append ("'" ++ s))
    ∙ close_quote w s
    ∙ ap (λ v. read plain (some v) s) (sym (append-nil w))
read_escaped (String.◌∷◌ c t) w s =
    escaped_one c w (escape_quotes t) ("'" ++ s)
    ∙ read_escaped t (w ++ String.◌∷◌ c "") s
    ∙ ap (λ v. read plain (some v) s) (grown w c t)
