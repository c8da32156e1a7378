-- ===== src/CanvasTable/Fits.antt =====
-- web/components/canvastable.tsx: the measured size and the texts.
use native.Mathlib.Nat.{lt-div-mul-add}
use rbmq_demo.Common.{
  ℕ, ◌+◌, ◌*◌, ◌/◌, ◌≤◌, ◌<◌, ◌≡◌, refl, max, String, List, [], ◌∷◌, ◌++◌, All, All-impl, arith,
}
use rbmq_demo.Trace.{or_else}
use rbmq_demo.CanvasTable.{
  Cell, Row, TextMetrics, LineDrawCtx, DrawnText, Painted, ColDrawCtx, DimensionCtx, draw_line,
  draw_cells, draw_col, draw_cols, draw_first, draw_preamble, paint_table, do_paint,
  re_structure_table,
}
use rbmq_demo.CanvasTable.Texts.{first_lines, contents, lines, IsBoxed, paint_table-lines}

-- The box of a text ends within a width and a height.
abbrev pub Within : ℕ → ℕ → DrawnText → Type 0
Within right bottom t = (t.x + t.width ≤ right) × (t.y + t.height ≤ bottom)

abbrev Measured : LineDrawCtx → List DrawnText → Type 0
Measured ctx texts = All (Within (or_else ctx.max_right 0) (or_else ctx.max_height 0)) texts

All-snoc {ℓ κ} :
    {A : Type ℓ} (P : A → Type κ) (xs : List A) (x : A) → All P xs → P x → All P (xs ++ x ∷ [])
All-snoc P [] x h p = (p, tt)
All-snoc P (y ∷ xs) x (q, h) p = (q, All-snoc P xs x h p)

module _ (measure : String → TextMetrics) where
  draw_line-Measured :
      (p : Painted) (line : String)
      → Measured p.line_ctx p.texts
      → Measured (draw_line measure p line).line_ctx (draw_line measure p line).texts
  unfolding draw_line
  draw_line-Measured p line h =
      All-snoc _ p.texts _ (All-impl (λ t k. (omega arith, omega arith)) p.texts h)
        (omega arith, omega arith)

  draw_cells-Measured :
      (p : Painted) (cells : List Cell)
      → Measured p.line_ctx p.texts
      → Measured (draw_cells measure p cells).line_ctx (draw_cells measure p cells).texts
  unfolding draw_cells
  draw_cells-Measured p [] h = h
  draw_cells-Measured p (c ∷ cells) h =
      draw_cells-Measured (draw_line measure p c.content) cells (draw_line-Measured p c.content h)

  draw_col-Measured :
      (ctx : ColDrawCtx) (cells : List Cell)
      → Measured ctx.painted.line_ctx ctx.painted.texts
      → Measured
          (draw_col measure ctx cells).painted.line_ctx
          (draw_col measure ctx cells).painted.texts
  unfolding draw_col
  draw_col-Measured ctx cells h = draw_cells-Measured _ cells h

  draw_cols-Measured :
      (ctx : ColDrawCtx) (cols : List (List Cell))
      → Measured ctx.painted.line_ctx ctx.painted.texts
      → Measured
          (draw_cols measure ctx cols).painted.line_ctx
          (draw_cols measure ctx cols).painted.texts
  unfolding draw_cols
  draw_cols-Measured ctx [] h = h
  draw_cols-Measured ctx (cells ∷ cols) h =
      draw_cols-Measured (draw_col measure ctx cells) cols (draw_col-Measured ctx cells h)

  draw_first-Measured :
      (p : Painted) (row : Row)
      → Measured p.line_ctx p.texts
      → Measured (draw_first measure p row).line_ctx (draw_first measure p row).texts
  unfolding draw_first
  draw_first-Measured p [] h = h
  draw_first-Measured p (c ∷ cells) h = draw_line-Measured p c.content h

  draw_preamble-Measured :
      (p : Painted) (rows : List Row)
      → Measured p.line_ctx p.texts
      → Measured (draw_preamble measure p rows).line_ctx (draw_preamble measure p rows).texts
  unfolding draw_preamble
  draw_preamble-Measured p [] h = h
  draw_preamble-Measured p (row ∷ rows) h =
      draw_preamble-Measured (draw_first measure p row) rows (draw_first-Measured p row h)

  paint_table-Measured :
      (dpi : ℕ) (preamble tabular_data : List Row)
      → Measured
          (paint_table measure dpi preamble tabular_data).line_ctx
          (paint_table measure dpi preamble tabular_data).texts
  unfolding paint_table
  paint_table-Measured dpi preamble tabular_data =
      draw_cols-Measured _ (re_structure_table tabular_data) (draw_preamble-Measured _ preamble tt)

  -- A length that is at most a size is less than a pixel over the whole pixels of the size.
  below_pixel :
      (length size unit : ℕ) → 0 < unit → length ≤ size → length < size / unit * unit + unit
  below_pixel length size unit h k = omega (arith, lt-div-mul-add {a = size} {b = unit} h)

  -- Painted once more with the dimensions that the first painting has measured, whatever its size
  -- was before, the canvas holds each text with a margin of 10 CSS pixels on both sides of it, but
  -- for a part of a pixel, since its size is cut to whole pixels. The texts are the first cells of
  -- the rows before the table and the cells of its columns, in this order, and their boxes are as
  -- large as they are measured.
  pub do_paint-fits :
      (unit dpi : ℕ) (dim : DimensionCtx) (preamble tabular_data : List Row)
      → 0 < unit
      → let first = do_paint measure unit dpi dim preamble tabular_data in
        let again = do_paint measure unit dpi first.dim preamble tabular_data in
        All
          (λ t.
            (10 * dpi + t.x + t.width + 10 * dpi < again.canvas_w * unit + unit)
            × (10 * dpi + t.y + t.height + 10 * dpi < again.canvas_h * unit + unit))
          again.texts
        × (again.margin ≡ 10 * dpi)
        × (lines again.texts ≡ first_lines preamble ++ contents (re_structure_table tabular_data))
        × All (IsBoxed measure) again.texts
  unfolding do_paint
  do_paint-fits unit dpi dim preamble tabular_data h =
      let painted = paint_table-lines measure dpi preamble tabular_data in
      let drawn : Painted = paint_table measure dpi preamble tabular_data in
      let right : ℕ = or_else drawn.line_ctx.max_right 0 + 2 * (10 * dpi) in
      let bottom : ℕ = or_else drawn.line_ctx.max_height 0 + 2 * (10 * dpi) in
      (
        All-impl
            (λ t k. (
              below_pixel (10 * dpi + t.x + t.width + 10 * dpi) (max (dim.w * dpi / unit) right)
                  unit h (omega (arith, k.0)),
              below_pixel (10 * dpi + t.y + t.height + 10 * dpi) (max (dim.h * dpi / unit) bottom)
                  unit h (omega (arith, k.1)),
            ))
            drawn.texts (paint_table-Measured dpi preamble tabular_data),
        refl,
        painted.0,
        painted.1,
      )
