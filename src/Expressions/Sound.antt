-- ===== src/Expressions/Sound.antt =====
-- pkg/cwlcore/expression_scan.go: what holds of the scanner between its steps.
use mathlib.Core.Path.{subst}
use cwl_go.Prelude.{
  ℕ, ◌+◌, ◌*◌, ◌<◌, ◌≤◌, ◌≡◌, refl, ap, none, some, List, [], ◌∷◌, arith, length, All,
}
use cwl_go.Expressions.Scan.{Rune, ScanState, in_text, ScanWindow, Scanner, Stepped, pop, pop_to}

-- A rune takes at least one byte.
abbrev pub HasSize : Rune → Type 0
HasSize r = 1 ≤ r.size

unfoldable pub bytes : List Rune → ℕ
bytes [] = 0
bytes (r ∷ rest) = r.size + bytes rest

-- The window is not empty, and ends in the text.
pub record IsWithin (total : ℕ) (w : ScanWindow) : Type 0 where
  pub forward : w.start < w.stop
  pub inside : w.stop ≤ total

-- Text lies at the bottom of the stack.
abbrev pub Bottom : ScanState → List ScanState → Type 0
Bottom top [] = top ≡ in_text
Bottom top (state ∷ below) = Bottom state below

pub record Sound (total : ℕ) (s : Scanner) : Type 0 where
  pub placed : s.pos + bytes s.rest ≡ total
  pub sizes : All HasSize s.rest
  pub frag : s.frag_start ≤ s.pos
  pub esc : s.esc_start ≤ s.pos
  pub bottom : Bottom s.top s.below

-- What is left to do: a step reads a rune, or takes a state off the stack.
abbrev pub measure : Scanner → ℕ
measure s = 2 * length s.rest + length s.below

-- A step that went well: a window in the text, or a scanner with less to do.
abbrev pub Good : ℕ → Scanner → Stepped → Type 0
Good total s (t, none) = Sound total t × (measure t < measure s)
Good total s (t, some w) = IsWithin total w

-- Taking a state off the stack changes the stack only, and its bottom stays.
pub record Pops (s t : Scanner) : Type 0 where
  pub rest : t.rest ≡ s.rest
  pub pos : t.pos ≡ s.pos
  pub frag : t.frag_start ≡ s.frag_start
  pub esc : t.esc_start ≡ s.esc_start
  pub bottom : Bottom s.top s.below → Bottom t.top t.below
  pub depth : length t.below ≤ length s.below

pop_to-Pops : (below : List ScanState) (s : Scanner) → s.below ≡ below → Pops s (pop_to below s)
pop_to-Pops [] s e = record {
  rest = refl;
  pos = refl;
  frag = refl;
  esc = refl;
  bottom = λ h. h;
  depth = omega arith;
}
pop_to-Pops (state ∷ below) s e = record {
  rest = refl;
  pos = refl;
  frag = refl;
  esc = refl;
  bottom = λ h. subst (Bottom s.top) e h;
  depth = omega (arith, ap length e);
}

pub pop-Pops : (s : Scanner) → Pops s (pop s)
pop-Pops s = pop_to-Pops s.below s refl
