-- ===== src/Expressions/Steps.antt =====
-- pkg/cwlcore/expression_scan.go: every step keeps the scanner sound and leaves less to do.
use mathlib.Core.Path.{subst}
use cwl_go.Prelude.{
  ℕ, suc, ◌+◌, ◌≤◌, ◌≡◌, refl, sym, ap, ◌∙◌, true, ◌&&◌, List, [], ◌∷◌, ◌==◌, arith, if-elim,
  length, All,
}
use cwl_go.Expressions.Scan.{
  Rune, ScanState, in_text, in_dollar, in_paren, in_brace, in_single_quote, in_double_quote,
  in_backslash, Scanner, push, pop, pop_to, advance, go_on, step_text, opens_fragment, escape_end,
  unescape, step_backslash, step_dollar, close_group, step_group, step_quoted, step_by,
}
use cwl_go.Expressions.Sound.{HasSize, bytes, IsWithin, Bottom, Sound, Good, pop-Pops}

module _ (total : ℕ) (s : Scanner) (r : Rune) (rest : List Rune) (at : s.rest ≡ r ∷ rest)
    (h : Sound total s) where
  size_lem : 1 ≤ r.size
  size_lem = (subst (All HasSize) at h.sizes).0

  sizes_lem : All HasSize rest
  sizes_lem = (subst (All HasSize) at h.sizes).1

  placed_lem : s.pos + (r.size + bytes rest) ≡ total
  unfolding bytes
  placed_lem = ap (λ t. s.pos + t) (ap bytes (sym at)) ∙ h.placed

  length_lem : length s.rest ≡ suc (length rest)
  length_lem = ap length at

  -- A scanner that has read the rune and put at most one state on the stack.
  record Reads (t : Scanner) : Type 0 where
    same_rest : t.rest ≡ rest
    same_pos : t.pos ≡ s.pos + r.size
    frag : t.frag_start ≤ s.pos
    esc : t.esc_start ≤ s.pos
    bottom : Bottom t.top t.below
    depth : length t.below ≤ suc (length s.below)

  go_on-Good : (t : Scanner) → Reads t → Good total s (go_on t)
  go_on-Good t i = (
    record {
      placed = rw (i.same_pos, i.same_rest) (omega (arith, placed_lem));
      sizes = subst (All HasSize) (sym i.same_rest) sizes_lem;
      frag = omega (arith, i.frag, i.same_pos);
      esc = omega (arith, i.esc, i.same_pos);
      bottom = i.bottom;
    },
    omega (arith, ap length i.same_rest, length_lem, i.depth),
  )

  advance-Reads : Reads (advance r rest s)
  advance-Reads = record {
    same_rest = refl;
    same_pos = refl;
    frag = h.frag;
    esc = h.esc;
    bottom = h.bottom;
    depth = omega arith;
  }

  push-Reads : (state : ScanState) → Reads (push state (advance r rest s))
  push-Reads state = record {
    same_rest = refl;
    same_pos = refl;
    frag = h.frag;
    esc = h.esc;
    bottom = h.bottom;
    depth = omega arith;
  }

  pop-Reads : Reads (pop (advance r rest s))
  pop-Reads =
      let p = pop-Pops (advance r rest s) in
      record {
        same_rest = p.rest;
        same_pos = p.pos;
        frag = omega (arith, p.frag, h.frag);
        esc = omega (arith, p.esc, h.esc);
        bottom = p.bottom h.bottom;
        depth = omega (arith, p.depth);
      }

  step_text-Good : Good total s (step_text r rest s)
  unfolding step_text
  step_text-Good =
      if-elim (Good total s) (r.char == 36) _ _
        (λ _. go_on-Good _ record {
          same_rest = refl;
          same_pos = refl;
          frag = omega arith;
          esc = h.esc;
          bottom = h.bottom;
          depth = omega arith;
        })
        (λ _.
          if-elim (Good total s) (r.char == 92) _ _
            (λ _. go_on-Good _ record {
              same_rest = refl;
              same_pos = refl;
              frag = h.frag;
              esc = omega arith;
              bottom = h.bottom;
              depth = omega arith;
            })
            (λ _. go_on-Good (advance r rest s) advance-Reads))

  step_dollar-Good : s.top ≡ in_dollar → Good total s (step_dollar r rest s)
  unfolding step_dollar
  step_dollar-Good top =
      if-elim (Good total s) (r.char == 40) _ _
        (λ _. go_on-Good (push in_paren (advance r rest s)) (push-Reads in_paren))
        (λ _.
          if-elim (Good total s) (r.char == 123) _ _
            (λ _. go_on-Good (push in_brace (advance r rest s)) (push-Reads in_brace))
            (λ _. leaves_dollar s.below refl))
    where
      leaves_dollar :
          (below : List ScanState) → s.below ≡ below → Good total s (go_on (pop_to below s))
      leaves_dollar [] e =
          let text_top : s.top ≡ in_text = subst (Bottom s.top) e h.bottom in
          let clash : in_dollar ≡ in_text = sym top ∙ text_top in cc
      leaves_dollar (state ∷ below) e = (
        record {
          placed = h.placed;
          sizes = h.sizes;
          frag = h.frag;
          esc = h.esc;
          bottom = subst (Bottom s.top) e h.bottom;
        },
        omega (arith, ap length e),
      )

  close_group-Good : (top : ScanState) (t : Scanner) → Reads t → Good total s (close_group top t)
  close_group-Good in_dollar t i = record {
    forward = omega (arith, size_lem, i.frag, i.same_pos);
    inside = omega (arith, placed_lem, i.same_pos);
  }
  close_group-Good in_text t i = go_on-Good t i
  close_group-Good in_paren t i = go_on-Good t i
  close_group-Good in_brace t i = go_on-Good t i
  close_group-Good in_single_quote t i = go_on-Good t i
  close_group-Good in_double_quote t i = go_on-Good t i
  close_group-Good in_backslash t i = go_on-Good t i

  step_group-Good :
      (open_rune close_rune : ℕ) → Good total s (step_group open_rune close_rune r rest s)
  unfolding step_group
  step_group-Good open_rune close_rune =
      if-elim (Good total s) (r.char == open_rune) _ _
        (λ _. go_on-Good (push s.top (advance r rest s)) (push-Reads s.top))
        (λ _.
          if-elim (Good total s) (r.char == close_rune) _ _
            (λ _. close_group-Good (pop (advance r rest s)).top (pop (advance r rest s)) pop-Reads)
            (λ _.
              if-elim (Good total s) (r.char == 39) _ _
                (λ _.
                  go_on-Good (push in_single_quote (advance r rest s)) (push-Reads in_single_quote))
                (λ _.
                  if-elim (Good total s) (r.char == 34) _ _
                    (λ _.
                      go_on-Good (push in_double_quote (advance r rest s))
                        (push-Reads in_double_quote))
                    (λ _. go_on-Good (advance r rest s) advance-Reads))))

  step_quoted-Good : (quote : ℕ) → Good total s (step_quoted quote r rest s)
  unfolding step_quoted
  step_quoted-Good quote =
      if-elim (Good total s) (r.char == quote) _ _
        (λ _. go_on-Good (pop (advance r rest s)) pop-Reads)
        (λ _.
          if-elim (Good total s) (r.char == 92) _ _
            (λ _. go_on-Good _ record {
              same_rest = refl;
              same_pos = refl;
              frag = h.frag;
              esc = omega arith;
              bottom = h.bottom;
              depth = omega arith;
            })
            (λ _. go_on-Good (advance r rest s) advance-Reads))

  backslash-Reads : Reads (advance r rest (pop s))
  backslash-Reads =
      let p = pop-Pops s in
      record {
        same_rest = refl;
        same_pos = ap (λ n. n + r.size) p.pos;
        frag = omega (arith, p.frag, h.frag);
        esc = omega (arith, p.esc, h.esc);
        bottom = p.bottom h.bottom;
        depth = omega (arith, p.depth);
      }

  -- A fragment opens only where a rune follows.
  room_behind : (l : List Rune) → All HasSize l → opens_fragment l ≡ true → 1 ≤ bytes l
  unfolding opens_fragment bytes
  room_behind [] sizes e = cc
  room_behind (next ∷ l) sizes e = omega (arith, sizes.0)

  escape_end-IsWithin :
      (start : ℕ)
      → start ≤ s.pos
      → IsWithin total
          record { start = start; stop = escape_end r rest (s.pos + r.size); escape = true }
  escape_end-IsWithin start before =
      if-elim (λ (n : ℕ). IsWithin total record { start = start; stop = n; escape = true })
        (r.char == 36 && opens_fragment rest) _ _
        (λ e.
          let more = room_behind rest sizes_lem (ground arith) in
          record {
            forward = omega (arith, size_lem, before);
            inside = omega (arith, placed_lem, more);
          })
        (λ e. record {
          forward = omega (arith, size_lem, before);
          inside = omega (arith, placed_lem);
        })

  unescape-Good : (top : ScanState) (t : Scanner) → Reads t → Good total s (unescape top r t)
  unescape-Good in_text t i = rw (i.same_rest, i.same_pos) (escape_end-IsWithin t.esc_start i.esc)
  unescape-Good in_dollar t i = go_on-Good t i
  unescape-Good in_paren t i = go_on-Good t i
  unescape-Good in_brace t i = go_on-Good t i
  unescape-Good in_single_quote t i = go_on-Good t i
  unescape-Good in_double_quote t i = go_on-Good t i
  unescape-Good in_backslash t i = go_on-Good t i

  step_backslash-Good : Good total s (step_backslash r rest s)
  unfolding step_backslash
  step_backslash-Good = unescape-Good (pop s).top (advance r rest (pop s)) backslash-Reads

  pub step_by-Good : (top : ScanState) → s.top ≡ top → Good total s (step_by top r rest s)
  unfolding step_by
  step_by-Good in_text e = step_text-Good
  step_by-Good in_dollar e = step_dollar-Good e
  step_by-Good in_paren e = step_group-Good 40 41
  step_by-Good in_brace e = step_group-Good 123 125
  step_by-Good in_single_quote e = step_quoted-Good 39
  step_by-Good in_double_quote e = step_quoted-Good 34
  step_by-Good in_backslash e = step_backslash-Good
