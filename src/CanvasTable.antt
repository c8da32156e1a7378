-- ===== src/CanvasTable.antt =====
-- web/components/canvastable.tsx: a table cut into columns, and where its texts are drawn.
pub mod Columns
pub mod Fits
pub mod Texts
use rbmq_demo.Common.{
  ◌+◌, ◌*◌, ◌/◌, max, ◌++◌, Option, none, some, ℕ, zero, suc, String, List, [], ◌∷◌, map, Bool,
  true, false, length, get_elem?,
}
use rbmq_demo.Trace.{or_else}

pub record Cell : Type 0 where
  pub content : String
  pub is_blank : Bool

abbrev pub Row : Type 0
Row = List Cell

abbrev pub cell : String → Cell
cell t = record { content = t; is_blank = false }

abbrev pub blank : Cell
blank = record { content = ""; is_blank = true }

abbrev pub cell_at : ℕ → Row → Cell
cell_at c row = or_else (get_elem? row c) blank

abbrev pub column : ℕ → List Row → List Cell
column c rows = map (cell_at c) rows

-- `for (let c = 0; c < nCols; c++)`, with the number of columns left.
abbrev pub columns_from : ℕ → ℕ → List Row → List (List Cell)
columns_from zero c rows = []
columns_from (suc left) c rows = column c rows ∷ columns_from left (suc c) rows

unfoldable pub re_structure_table : List Row → List (List Cell)
re_structure_table [] = []
re_structure_table (row ∷ rows) = columns_from (length row) 0 (row ∷ rows)

-- What `measureText` gives of a text in the font that is set. All lengths are whole numbers of a
-- unit that a pixel has `unit` of, chosen so small that each length of a painting is one.
pub record TextMetrics : Type 0 where
  pub width : ℕ
  pub ascent : ℕ
  pub descent : ℕ

-- The fields of `LineDrawCtx` that are lengths; the others are handed to the canvas.
pub record LineDrawCtx : Type 0 where
  pub x : ℕ
  pub y : ℕ
  pub line_gap : ℕ
  pub max_width : Option ℕ
  pub max_right : Option ℕ
  pub max_height : Option ℕ

-- A text on the canvas, by its box.
pub record DrawnText : Type 0 where
  pub line : String
  pub x : ℕ
  pub y : ℕ
  pub width : ℕ
  pub height : ℕ

-- The context after some texts, and these.
pub record Painted : Type 0 where
  pub line_ctx : LineDrawCtx
  pub texts : List DrawnText

pub record ColDrawCtx : Type 0 where
  pub painted : Painted
  pub column_gap : ℕ
  pub y0 : Option ℕ

pub record DimensionCtx : Type 0 where
  pub w : ℕ
  pub h : ℕ
  pub max_w : ℕ
  pub max_h : ℕ

-- The size of the canvas in whole pixels, which is what its attributes hold of the text of a number,
-- the texts on it, moved by the margin, and the new dimensions.
pub record PaintResult : Type 0 where
  pub canvas_w : ℕ
  pub canvas_h : ℕ
  pub margin : ℕ
  pub texts : List DrawnText
  pub dim : DimensionCtx

module _ (measure : String → TextMetrics) where
  unfoldable pub draw_line : Painted → String → Painted
  draw_line p line =
      let ctx : LineDrawCtx = p.line_ctx in
      let ms : TextMetrics = measure line in
      let new_height : ℕ = ctx.y + ms.ascent + ms.descent + ctx.line_gap in
      record {
        line_ctx = record ctx {
          y = new_height;
          max_width = some (max (or_else ctx.max_width 0) ms.width);
          max_right = some (max (or_else ctx.max_right 0) (ctx.x + ms.width));
          max_height = some (max (or_else ctx.max_height 0) new_height);
        };
        texts =
            p.texts
            ++ record {
              line = line;
              x = ctx.x;
              y = ctx.y;
              width = ms.width;
              height = ms.ascent + ms.descent;
            }
              ∷ [];
      }

  unfoldable pub draw_cells : Painted → List Cell → Painted
  unfolding draw_line
  draw_cells p [] = p
  draw_cells p (c ∷ cells) = draw_cells (draw_line p c.content) cells

  unfoldable pub draw_col : ColDrawCtx → List Cell → ColDrawCtx
  unfolding draw_cells
  draw_col ctx cells =
      let top : ℕ = or_else ctx.y0 ctx.painted.line_ctx.y in
      let start : LineDrawCtx = record ctx.painted.line_ctx { max_width = some 0; y = top } in
      let drawn : Painted = draw_cells (record ctx.painted { line_ctx = start }) cells in
      record ctx {
        y0 = some top;
        painted = record drawn {
          line_ctx = record drawn.line_ctx {
            x = drawn.line_ctx.x + or_else drawn.line_ctx.max_width 0 + ctx.column_gap;
            max_width = some 0;
          };
        };
      }

  unfoldable pub draw_cols : ColDrawCtx → List (List Cell) → ColDrawCtx
  unfolding draw_col
  draw_cols ctx [] = ctx
  draw_cols ctx (cells ∷ cols) = draw_cols (draw_col ctx cells) cols

  abbrev pub draw_first : Painted → Row → Painted
  unfolding draw_line
  draw_first p [] = p
  draw_first p (c ∷ cells) = draw_line p c.content

  unfoldable pub draw_preamble : Painted → List Row → Painted
  unfolding draw_first
  draw_preamble p [] = p
  draw_preamble p (row ∷ rows) = draw_preamble (draw_first p row) rows

  unfoldable pub paint_table : ℕ → List Row → List Row → Painted
  unfolding draw_preamble draw_cols re_structure_table
  paint_table dpi preamble tabular_data =
      let start : LineDrawCtx = record {
        x = 0;
        y = 0;
        line_gap = 6 * dpi;
        max_width = none;
        max_right = none;
        max_height = none;
      } in
      let lines : Painted = draw_preamble (record { line_ctx = start; texts = [] }) preamble in
      (draw_cols (record { painted = lines; column_gap = 30 * dpi; y0 = none })
        (re_structure_table tabular_data)).painted

  -- `dpi` is in the unit, as the lengths are.
  unfoldable pub do_paint : ℕ → ℕ → DimensionCtx → List Row → List Row → PaintResult
  unfolding paint_table
  do_paint unit dpi dim preamble tabular_data =
      let delta : ℕ = 10 * dpi in
      let painted : Painted = paint_table dpi preamble tabular_data in
      record {
        canvas_w = max (dim.w * dpi / unit) dim.max_w / unit;
        canvas_h = max (dim.h * dpi / unit) dim.max_h / unit;
        margin = delta;
        texts = painted.texts;
        dim = record dim {
          max_w = or_else painted.line_ctx.max_right 0 + 2 * delta;
          max_h = or_else painted.line_ctx.max_height 0 + 2 * delta;
        };
      }
