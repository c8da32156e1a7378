-- ===== src/CanvasTable/Columns.antt =====
-- web/components/canvastable.tsx: which cells stand in a column.
use rbmq_demo.Common.{
  ℕ, zero, suc, ◌+◌, ◌<◌, ◌≡◌, refl, ap, ◌∙◌, some, List, ◌∷◌, length, get_elem?, arith,
}
use rbmq_demo.CanvasTable.{Row, column, columns_from, re_structure_table}

length-columns_from : (left c : ℕ) (rows : List Row) → length (columns_from left c rows) ≡ left
length-columns_from zero c rows = refl
length-columns_from (suc left) c rows = ap suc (length-columns_from left (suc c) rows)

columns_from-column :
    (left c i : ℕ) (rows : List Row)
    → i < left
    → get_elem? (columns_from left c rows) i ≡ some (column (c + i) rows)
columns_from-column zero c i rows h = absurd (omega arith)
columns_from-column (suc left) c zero rows h = ap (λ n. some (column n rows)) (omega arith)
columns_from-column (suc left) c (suc i) rows h =
    columns_from-column left (suc c) i rows (omega arith)
    ∙ ap (λ n. some (column n rows)) (omega arith)

-- There is a column for each cell of the first row; it has a cell for each row, the row's own or a
-- blank one where the row is too short.
pub re_structure_table_columns :
    (row : Row) (rows : List Row)
    → (length (re_structure_table (row ∷ rows)) ≡ length row)
      × ((c : ℕ)
          → c < length row
          → get_elem? (re_structure_table (row ∷ rows)) c ≡ some (column c (row ∷ rows)))
unfolding re_structure_table
re_structure_table_columns row rows = (
  length-columns_from (length row) 0 (row ∷ rows),
  λ c h.
      columns_from-column (length row) 0 c (row ∷ rows) h
      ∙ ap (λ n. some (column n (row ∷ rows))) (omega arith),
)
