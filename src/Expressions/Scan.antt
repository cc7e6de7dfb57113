-- ===== src/Expressions/Scan.antt =====
-- pkg/cwlcore/expression_scan.go: a text is its runes, as utf8.DecodeRuneInString reads them, and a
-- position counts bytes.
use cwl_go.Prelude.{
  ℕ, zero, suc, ◌+◌, Bool, true, false, ◌&&◌, ◌||◌, Option, none, some, List, [], ◌∷◌, ◌==◌,
  if◌then◌else◌,
}

pub record Rune : Type 0 where
  pub char : ℕ
  pub size : ℕ

pub data ScanState : Type 0 where
  in_text in_dollar in_paren in_brace in_single_quote in_double_quote in_backslash : ScanState

pub record ScanWindow : Type 0 where
  pub start : ℕ
  pub stop : ℕ
  pub escape : Bool

-- `exprScanner`: the stack is its top and what lies below, so that it is never empty, and `rest`
-- are the runes of `src[pos:]`.
pub record Scanner : Type 0 where
  pub top : ScanState
  pub below : List ScanState
  pub rest : List Rune
  pub pos : ℕ
  pub frag_start : ℕ
  pub esc_start : ℕ

-- A step: the scanner behind it, and a window if one is complete.
abbrev pub Stepped : Type 0
Stepped = Scanner × Option ScanWindow

abbrev pub push : ScanState → Scanner → Scanner
push state s = record s { top = state; below = s.top ∷ s.below }

abbrev pub pop_to : List ScanState → Scanner → Scanner
pop_to [] s = s
pop_to (state ∷ below) s = record s { top = state; below = below }

abbrev pub pop : Scanner → Scanner
pop s = pop_to s.below s

-- `s.pos += size`, behind the rune
abbrev pub advance : Rune → List Rune → Scanner → Scanner
advance r rest s = record s { pos = s.pos + r.size; rest = rest }

abbrev pub go_on : Scanner → Stepped
go_on s = (s, none)

unfoldable pub step_text : Rune → List Rune → Scanner → Stepped
step_text r rest s =
    if r.char == 36
    then go_on (advance r rest (push in_dollar (record s { frag_start = s.pos })))
    else if r.char == 92
    then go_on (advance r rest (push in_backslash (record s { esc_start = s.pos })))
    else go_on (advance r rest s)

unfoldable pub opens_fragment : List Rune → Bool
opens_fragment [] = false
opens_fragment (r ∷ rest) = r.char == 40 || r.char == 123

abbrev pub escape_end : Rune → List Rune → ℕ → ℕ
escape_end r rest pos = if r.char == 36 && opens_fragment rest then pos + 1 else pos

-- `stepBackslash` behind its `pop` and the advance of `pos`
abbrev pub unescape : ScanState → Rune → Scanner → Stepped
unescape in_text r s =
    (s, some record { start = s.esc_start; stop = escape_end r s.rest s.pos; escape = true })
unescape _ r s = go_on s

unfoldable pub step_backslash : Rune → List Rune → Scanner → Stepped
unfolding opens_fragment
step_backslash r rest s = let t = advance r rest (pop s) in unescape t.top r t

unfoldable pub step_dollar : Rune → List Rune → Scanner → Stepped
step_dollar r rest s =
    if r.char == 40
    then go_on (advance r rest (push in_paren s))
    else if r.char == 123
    then go_on (advance r rest (push in_brace s))
    else go_on (pop s)

abbrev pub close_group : ScanState → Scanner → Stepped
close_group in_dollar s = (s, some record { start = s.frag_start; stop = s.pos; escape = false })
close_group _ s = go_on s

unfoldable pub step_group : ℕ → ℕ → Rune → List Rune → Scanner → Stepped
step_group open_rune close_rune r rest s =
    let t = advance r rest s in
    if r.char == open_rune
    then go_on (push s.top t)
    else if r.char == close_rune
    then close_group (pop t).top (pop t)
    else if r.char == 39
    then go_on (push in_single_quote t)
    else if r.char == 34
    then go_on (push in_double_quote t)
    else go_on t

unfoldable pub step_quoted : ℕ → Rune → List Rune → Scanner → Stepped
step_quoted quote r rest s =
    let t = advance r rest s in
    if r.char == quote
    then go_on (pop t)
    else if r.char == 92
    then go_on (push in_backslash (record t { esc_start = s.pos }))
    else go_on t

unfoldable pub step_by : ScanState → Rune → List Rune → Scanner → Stepped
unfolding step_text step_backslash step_dollar step_group step_quoted
step_by in_text r rest s = step_text r rest s
step_by in_backslash r rest s = step_backslash r rest s
step_by in_dollar r rest s = step_dollar r rest s
step_by in_paren r rest s = step_group 40 41 r rest s
step_by in_brace r rest s = step_group 123 125 r rest s
step_by in_single_quote r rest s = step_quoted 39 r rest s
step_by in_double_quote r rest s = step_quoted 34 r rest s

-- What `scanFragment` returns: a window, nothing, or the syntax error; or the fuel is out.
pub data Scanned : Type 0 where
  window : ScanWindow → Scanned
  no_window unterminated out_of_fuel : Scanned

-- `unterminated`, by the stack below its top
unfoldable pub at_end : ScanState → List ScanState → Scanned
at_end top [] = no_window
at_end in_backslash (state ∷ []) = no_window
at_end in_dollar (state ∷ []) = no_window
at_end top (state ∷ below) = unterminated

-- The loop of `scanFragment`.
unfoldable pub scan : ℕ → Scanner → List Rune → Scanned
unfolding step_by at_end
scan zero s rest = out_of_fuel
scan (suc fuel) s [] = at_end s.top s.below
scan (suc fuel) s (r ∷ rest) =
    let next = step_by s.top r rest s in
    let more = scan fuel (next.0) (next.0).rest in elim next.1 [ some w ↦ window w | none ↦ more ]

abbrev pub new_scanner : List Rune → Scanner
new_scanner src = record {
  top = in_text;
  below = [];
  rest = src;
  pos = 0;
  frag_start = 0;
  esc_start = 0;
}

unfoldable pub scan_fragment : ℕ → List Rune → Scanned
unfolding scan
scan_fragment fuel src = scan fuel (new_scanner src) src
