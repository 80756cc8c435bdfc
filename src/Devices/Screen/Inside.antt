-- ===== src/Devices/Screen/Inside.antt =====
-- What is written to the screen stays on it.
use sched_v2_solution.Base.{
  ℕ, zero, suc, ◌+◌, ◌-◌, ◌%◌, ◌<◌, ◌≤◌, ◌≡◌, ◌≢◌, false, inl, inr, List, [], ◌∷◌, arith, ◌==◌, ltb,
  leb, Bool-cases, update, update_ne, ◌∙◌,
}
use sched_v2_solution.Devices.Ports.{Hardware, Trace, serial_putc, lpt_putc}
use sched_v2_solution.Devices.Screen.{
  Screen, crt_cols, crt_size, with_attribute, put_cell, scroll, cga_plain, cga_putc, put_spaces,
  cons_putc, put_text, move_cursor,
}

-- The cursor is on the screen, and what lies behind the screen is as in `cells`.
pub record Inside (cells : ℕ → ℕ) (s : Screen) : Type 0 where
  pub on_screen : s.crt_pos < crt_size
  pub behind : (i : ℕ) → crt_size ≤ i → s.crt_buf i ≡ cells i

-- The same between a cell and the scrolling: the cursor may be on the line behind the screen.
record Near (cells : ℕ → ℕ) (s : Screen) : Type 0 where
  near : s.crt_pos < crt_size + crt_cols
  rest : (i : ℕ) → crt_size ≤ i → s.crt_buf i ≡ cells i

put_cell-Near : (cells : ℕ → ℕ) (c : ℕ) (s : Screen) → Inside cells s → Near cells (put_cell c s)
unfolding put_cell
put_cell-Near cells c s h = elim (Bool-cases (c % 256 == 8)) [
  | inl backspace ↦ rw backspace (elim (Bool-cases (ltb 0 s.crt_pos)) [
    | inl some_left ↦
        rw some_left
          (record { near = omega arith; rest = λ i le. kept i (s.crt_pos - 1) _ (omega arith) le })
    | inr at_start ↦ rw at_start (record { near = omega arith; rest = h.behind })
  ])
  | inr other ↦ rw other (elim (Bool-cases (c % 256 == 10)) [
    | inl newline ↦ rw newline (record { near = omega arith; rest = h.behind })
    | inr not_newline ↦ rw not_newline (elim (Bool-cases (c % 256 == 13)) [
      | inl return ↦ rw return (record { near = omega arith; rest = h.behind })
      | inr plain ↦
          rw plain (record { near = omega arith; rest = λ i le. kept i s.crt_pos _ h.on_screen le })
    ])
  ])
]
  where
    kept : (i p v : ℕ) → p < 2000 → 2000 ≤ i → update s.crt_buf p v i ≡ cells i
    kept i p v inside le =
        let apart : p ≢ i = λ e. absurd (omega arith) in
        update_ne s.crt_buf p i v apart ∙ h.behind i le

scroll-Inside : (cells : ℕ → ℕ) (s : Screen) → Near cells s → Inside cells (scroll s)
unfolding scroll
scroll-Inside cells s h = elim (Bool-cases (leb crt_size s.crt_pos)) [
  | inl full ↦ rw full (record {
    on_screen = omega arith;
    behind = λ i le.
        let far : ltb i 1920 ≡ false = ground arith in
        let off : ltb i 2000 ≡ false = ground arith in rw (far, off) (h.rest i le);
  })
  | inr fits ↦
      let inside : s.crt_pos < 2000 = ground arith in
      rw fits (record { on_screen = inside; behind = h.rest })
]

cga_plain-Inside :
    (cells : ℕ → ℕ) (c : ℕ) (s : Screen) (hw : Hardware) (t : Trace)
    → Inside cells s
    → Inside cells (cga_plain c s hw t).0
unfolding cga_plain move_cursor
cga_plain-Inside cells c s hw t h =
    scroll-Inside cells (put_cell (with_attribute c) s) (put_cell-Near cells (with_attribute c) s h)

put_spaces-Inside :
    (cells : ℕ → ℕ) (n : ℕ) (s : Screen) (hw : Hardware) (t : Trace)
    → Inside cells s
    → Inside cells (put_spaces n s hw t).0
unfolding put_spaces
put_spaces-Inside cells zero s hw t h = h
put_spaces-Inside cells (suc n) s hw t h =
    let t' = (lpt_putc 32 hw (serial_putc 32 hw t).1).1 in
    let r = cga_plain 32 s hw t' in
    put_spaces-Inside cells n r.0 hw r.1 (cga_plain-Inside cells 32 s hw t' h)

-- A screen on which nothing is past the end needs no scrolling.
widen : {cells : ℕ → ℕ} {s : Screen} → Inside cells s → Near cells s
widen h = record { near = omega (arith, h.on_screen); rest = h.behind }

cga_putc-Inside :
    (cells : ℕ → ℕ) (c : ℕ) (s : Screen) (hw : Hardware) (t : Trace)
    → Inside cells s
    → Inside cells (cga_putc c s hw t).0
unfolding cga_putc move_cursor
cga_putc-Inside cells c s hw t h = elim (Bool-cases (with_attribute c % 256 == 9)) [
  | inl tab ↦
      rw tab
        (scroll-Inside cells (put_spaces 5 s hw t).0 (widen (put_spaces-Inside cells 5 s hw t h)))
  | inr plain ↦ rw plain (cga_plain-Inside cells c s hw t h)
]

-- Whatever is printed, and whatever the devices answer, the cursor stays among the 2000 cells of
-- the screen, and no memory behind them changes.
pub put_text-Inside :
    (cells : ℕ → ℕ) (cs : List ℕ) (s : Screen) (hw : Hardware) (t : Trace)
    → Inside cells s
    → Inside cells (put_text cs s hw t).0
unfolding put_text cons_putc
put_text-Inside cells [] s hw t h = h
put_text-Inside cells (c ∷ cs) s hw t h =
    let r = cons_putc c s hw t in
    put_text-Inside cells cs r.0 hw r.1
      (cga_putc-Inside cells c s hw (lpt_putc c hw (serial_putc c hw t).1).1 h)
