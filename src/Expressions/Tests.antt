-- ===== src/Expressions/Tests.antt =====
-- The scanner on "a $(b) c", on an escaped dollar, and on an expression that is left open.
use cwl_go.Prelude.{ℕ, ◌≡◌, refl, List, [], ◌∷◌, false, true, arith, All}
use cwl_go.Expressions.Scan.{Rune, window, no_window, unterminated, scan_fragment}
use cwl_go.Expressions.Sound.{HasSize, bytes}
use cwl_go.Expressions.Scanned.{EndsWell, scan_fragment-EndsWell}

abbrev byte : ℕ → Rune
byte n = record { char = n; size = 1 }

-- "a $(b) c", where the first letter takes two bytes
abbrev sample : List Rune
sample =
    record { char = 228; size = 2 }
    ∷ byte 32
    ∷ byte 36
    ∷ byte 40
    ∷ byte 98
    ∷ byte 41
    ∷ byte 32
    ∷ byte 99
    ∷ []

sample_window : scan_fragment 17 sample ≡ window record { start = 3; stop = 7; escape = false }
unfolding scan_fragment
sample_window = refl

escape_window :
    scan_fragment 9 (byte 92 ∷ byte 36 ∷ byte 40 ∷ byte 98 ∷ [])
    ≡ window record { start = 0; stop = 3; escape = true }
unfolding scan_fragment
escape_window = refl

left_open_expression : scan_fragment 9 (byte 36 ∷ byte 40 ∷ byte 39 ∷ byte 41 ∷ []) ≡ unterminated
unfolding scan_fragment
left_open_expression = refl

trailing_dollar : scan_fragment 5 (byte 97 ∷ byte 36 ∷ []) ≡ no_window
unfolding scan_fragment
trailing_dollar = refl

sample-HasSize : All HasSize sample
sample-HasSize = (
  omega arith,
  (
    omega arith,
    (omega arith, (omega arith, (omega arith, (omega arith, (omega arith, (omega arith, tt)))))),
  ),
)

scan_fragment-EndsWell_example : EndsWell (bytes sample) (scan_fragment 17 sample)
scan_fragment-EndsWell_example = scan_fragment-EndsWell sample 17 sample-HasSize (omega arith)
