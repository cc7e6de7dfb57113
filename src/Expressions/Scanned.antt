-- ===== src/Expressions/Scanned.antt =====
-- pkg/cwlcore/expression_scan.go: the scanner ends, and its window lies in the text.
use cwl_go.Prelude.{
  ℕ, zero, suc, ◌*◌, ◌<◌, ◌≡◌, refl, none, some, List, [], ◌∷◌, arith, length, All,
}
use cwl_go.Expressions.Scan.{
  Rune, ScanState, in_text, in_dollar, in_paren, in_brace, in_single_quote, in_double_quote,
  in_backslash, ScanWindow, Scanner, Stepped, step_by, Scanned, window, no_window, unterminated,
  at_end, scan, new_scanner, scan_fragment,
}
use cwl_go.Expressions.Sound.{HasSize, bytes, IsWithin, Sound, measure, Good}
use cwl_go.Expressions.Steps.{step_by-Good}

-- The scanner ends, and a window that it returns lies in the text.
pub data EndsWell (total : ℕ) : Scanned → Type 0 where
  found : {w : ScanWindow} → IsWithin total w → EndsWell total (window w)
  nothing_found : EndsWell total no_window
  left_open : EndsWell total unterminated

at_end-EndsWell :
    (total : ℕ) (top : ScanState) (below : List ScanState) → EndsWell total (at_end top below)
unfolding at_end
at_end-EndsWell total top [] = nothing_found
at_end-EndsWell total in_backslash (state ∷ []) = nothing_found
at_end-EndsWell total in_dollar (state ∷ []) = nothing_found
at_end-EndsWell total in_text (state ∷ below) = left_open
at_end-EndsWell total in_paren (state ∷ below) = left_open
at_end-EndsWell total in_brace (state ∷ below) = left_open
at_end-EndsWell total in_single_quote (state ∷ below) = left_open
at_end-EndsWell total in_double_quote (state ∷ below) = left_open
at_end-EndsWell total in_backslash (state ∷ other ∷ below) = left_open
at_end-EndsWell total in_dollar (state ∷ other ∷ below) = left_open

one_scan :
    (total : ℕ) (s : Scanner) (x : Stepped) (more : Scanned)
    → Good total s x
    → (Sound total x.0 → measure x.0 < measure s → EndsWell total more)
    → EndsWell total (elim x.1 [ some w ↦ window w | none ↦ more ])
one_scan total s (t, none) more (sound, less) rest = rest sound less
one_scan total s (t, some w) more within rest = found within

scan-EndsWell :
    (total fuel : ℕ) (s : Scanner) (rest : List Rune)
    → s.rest ≡ rest
    → Sound total s
    → measure s < fuel
    → EndsWell total (scan fuel s rest)
unfolding scan
scan-EndsWell total zero s rest at h enough = absurd (omega arith)
scan-EndsWell total (suc fuel) s [] at h enough = at_end-EndsWell total s.top s.below
scan-EndsWell total (suc fuel) s (r ∷ rest) at h enough =
    let next = step_by s.top r rest s in
    one_scan total s next (scan fuel next.0 next.0.rest)
      (step_by-Good total s r rest at h s.top refl)
      (λ sound less. scan-EndsWell total fuel next.0 next.0.rest refl sound (omega arith))

-- Where every rune takes a byte or more, scanFragment ends within twice as many steps as there are
-- runes, and a window that it returns is not empty and lies in the text.
pub scan_fragment-EndsWell :
    (src : List Rune) (fuel : ℕ)
    → All HasSize src
    → 2 * length src < fuel
    → EndsWell (bytes src) (scan_fragment fuel src)
unfolding scan_fragment
scan_fragment-EndsWell src fuel sizes enough =
    scan-EndsWell (bytes src) fuel (new_scanner src) src refl
      record {
        placed = omega arith;
        sizes = sizes;
        frag = omega arith;
        esc = omega arith;
        bottom = refl;
      }
      (omega arith)
