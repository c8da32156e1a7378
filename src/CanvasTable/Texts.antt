-- ===== src/CanvasTable/Texts.antt =====
-- web/components/canvastable.tsx: which texts are drawn, and the sizes of their boxes.
use rbmq_demo.Common.{
  ◌+◌, ℕ, ◌≡◌, refl, sym, ap, ◌∙◌, String, List, [], ◌∷◌, ◌++◌, append_assoc, append-nil, map, All,
}
use rbmq_demo.CanvasTable.{
  Cell, Row, TextMetrics, DrawnText, Painted, ColDrawCtx, draw_line, draw_cells, draw_col,
  draw_cols, draw_first, draw_preamble, paint_table, re_structure_table,
}

-- The texts before the table: the first cell of each row that has one.
abbrev pub first_lines : List Row → List String
first_lines [] = []
first_lines ([] ∷ rows) = first_lines rows
first_lines ((c ∷ cells) ∷ rows) = c.content ∷ first_lines rows

-- The texts of some columns, column by column.
abbrev pub contents : List (List Cell) → List String
contents [] = []
contents (cells ∷ cols) = map (λ (c : Cell). c.content) cells ++ contents cols

abbrev pub lines : List DrawnText → List String
lines texts = map (λ (t : DrawnText). t.line) texts

lines-append : (ts us : List DrawnText) → lines (ts ++ us) ≡ lines ts ++ lines us
lines-append [] us = refl
lines-append (t ∷ ts) us = ap (◌∷◌ t.line) (lines-append ts us)

module _ (measure : String → TextMetrics) where
  -- The box of a text is as large as the text is measured.
  abbrev pub IsBoxed : DrawnText → Type 0
  IsBoxed t =
      (t.width ≡ (measure t.line).width)
      × (t.height ≡ (measure t.line).ascent + (measure t.line).descent)

  All-snoc-IsBoxed :
      (ts : List DrawnText) (t : DrawnText)
      → All IsBoxed ts
      → IsBoxed t
      → All IsBoxed (ts ++ t ∷ [])
  All-snoc-IsBoxed [] t h b = (b, tt)
  All-snoc-IsBoxed (u ∷ ts) t (a, h) b = (a, All-snoc-IsBoxed ts t h b)

  -- The second painting has these texts more than the first.
  abbrev Adds : Painted → Painted → List String → Type 0
  Adds p q ls = (lines q.texts ≡ lines p.texts ++ ls) × (All IsBoxed p.texts → All IsBoxed q.texts)

  Adds-none : (p : Painted) → Adds p p []
  Adds-none p = (sym (append-nil (lines p.texts)), λ h. h)

  Adds-++ :
      (p q r : Painted) (ls ms : List String) → Adds p q ls → Adds q r ms → Adds p r (ls ++ ms)
  Adds-++ p q r ls ms (e, f) (d, g) =
      (d ∙ ap (λ xs. xs ++ ms) e ∙ append_assoc (lines p.texts) ls ms, λ h. g (f h))

  draw_line-Adds : (p : Painted) (line : String) → Adds p (draw_line measure p line) (line ∷ [])
  unfolding draw_line
  draw_line-Adds p line = (lines-append p.texts _, λ h. All-snoc-IsBoxed p.texts _ h (refl, refl))

  draw_cells-Adds :
      (p : Painted) (cells : List Cell)
      → Adds p (draw_cells measure p cells) (map (λ (c : Cell). c.content) cells)
  unfolding draw_cells
  draw_cells-Adds p [] = Adds-none p
  draw_cells-Adds p (c ∷ cells) =
      Adds-++ p (draw_line measure p c.content)
        (draw_cells measure (draw_line measure p c.content) cells) (c.content ∷ [])
        (map (λ (c : Cell). c.content) cells) (draw_line-Adds p c.content)
        (draw_cells-Adds (draw_line measure p c.content) cells)

  draw_col-Adds :
      (ctx : ColDrawCtx) (cells : List Cell)
      → Adds ctx.painted (draw_col measure ctx cells).painted (map (λ (c : Cell). c.content) cells)
  unfolding draw_col
  draw_col-Adds ctx cells = draw_cells-Adds _ cells

  draw_cols-Adds :
      (ctx : ColDrawCtx) (cols : List (List Cell))
      → Adds ctx.painted (draw_cols measure ctx cols).painted (contents cols)
  unfolding draw_cols
  draw_cols-Adds ctx [] = Adds-none ctx.painted
  draw_cols-Adds ctx (cells ∷ cols) =
      Adds-++ ctx.painted (draw_col measure ctx cells).painted
        (draw_cols measure (draw_col measure ctx cells) cols).painted
        (map (λ (c : Cell). c.content) cells) (contents cols) (draw_col-Adds ctx cells)
        (draw_cols-Adds (draw_col measure ctx cells) cols)

  draw_preamble-Adds :
      (p : Painted) (rows : List Row) → Adds p (draw_preamble measure p rows) (first_lines rows)
  unfolding draw_preamble draw_first
  draw_preamble-Adds p [] = Adds-none p
  draw_preamble-Adds p ([] ∷ rows) = draw_preamble-Adds p rows
  draw_preamble-Adds p ((c ∷ cells) ∷ rows) =
      Adds-++ p (draw_line measure p c.content)
        (draw_preamble measure (draw_line measure p c.content) rows) (c.content ∷ [])
        (first_lines rows) (draw_line-Adds p c.content)
        (draw_preamble-Adds (draw_line measure p c.content) rows)

  pub paint_table-lines :
      (dpi : ℕ) (preamble tabular_data : List Row)
      → (lines (paint_table measure dpi preamble tabular_data).texts
          ≡ first_lines preamble ++ contents (re_structure_table tabular_data))
        × All IsBoxed (paint_table measure dpi preamble tabular_data).texts
  unfolding paint_table
  paint_table-lines dpi preamble tabular_data =
      let before = draw_preamble-Adds _ preamble in
      let after = draw_cols-Adds _ (re_structure_table tabular_data) in
      (
        after.0 ∙ ap (λ ls. ls ++ contents (re_structure_table tabular_data)) before.0,
        after.1 (before.1 tt),
      )
