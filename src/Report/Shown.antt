-- ===== src/Report/Shown.antt =====
-- web/components/traceroutereport.tsx: what the table of a ping report shows in each column, from
-- the samples of the task on.
use rbmq_demo.Common.{
  ℕ, zero, suc, ◌<◌, ◌≡◌, refl, ap, ◌∙◌, String, Option, none, some, List, [], ◌∷◌, map, length,
  get_elem?, filter, arith, true, ◌++◌, All, length-append, string_key,
}
use mathlib.Core.Path.{fun_ext, ap₂}
use rbmq_demo.Common.Cells.{get_cell}
use rbmq_demo.Common.Dict.{is_some}
use rbmq_demo.Common.Options.{◌>>=◌}
use rbmq_demo.Common.Decimal.{texts}
use rbmq_demo.CanvasTable.{Row, Cell, cell, cell_at, re_structure_table}
use rbmq_demo.CanvasTable.Columns.{re_structure_table_columns}
use rbmq_demo.Samples.{PingSample}
use rbmq_demo.PingTable.{read_samples, get_latest_data_from_map}
use rbmq_demo.PingTable.Latest.{shown_of, is_of, newest_first, get_latest-read_samples}
use rbmq_demo.Report.{
  PingReport, PendingTask, latency_at, build_ping_report, render_ping_report, rtt_cells, push_rtt,
  format_num_str, target_row, is_nonempty,
}
use rbmq_demo.Report.Build.{get_cell-build_ping_report}

-- The times of the sources that have one, in the order of the sources.
abbrev pub times_of : Option ℕ → List ℕ → List ℕ
times_of none rest = rest
times_of (some n) rest = n ∷ rest

abbrev pub times : (String → Option ℕ) → List String → List ℕ
times rtt [] = []
times rtt (src ∷ srcs) = let rest = times rtt srcs in times_of (rtt src) rest

abbrev pub ms_cell : (ℕ → String) → ℕ → Cell
ms_cell to_fixed n = cell (texts (format_num_str (to_fixed n) ∷ "ms" ∷ []))

rtt_cells-times :
    (to_fixed : ℕ → String) (rtt : String → Option ℕ) (srcs : List String)
    → rtt_cells to_fixed rtt srcs ≡ map (ms_cell to_fixed) (times rtt srcs)
rtt_cells-times to_fixed rtt [] = refl
rtt_cells-times to_fixed rtt (src ∷ srcs) =
    ap (push_rtt to_fixed (rtt src)) (rtt_cells-times to_fixed rtt srcs) ∙ pushed (rtt src)
  where
    pushed :
        (o : Option ℕ)
        → push_rtt to_fixed o (map (ms_cell to_fixed) (times rtt srcs))
          ≡ map (ms_cell to_fixed) (times_of o (times rtt srcs))
    pushed none = refl
    pushed (some n) = refl

length-map {ℓ κ} :
    {A : Type ℓ} {B : Type κ} (f : A → B) (xs : List A) → length (map f xs) ≡ length xs
length-map f [] = refl
length-map f (x ∷ xs) = ap suc (length-map f xs)

map-map_cells :
    (f : Row → Cell) (g : String → Row) (h : String → Cell) (ts : List String)
    → ((t : String) → f (g t) ≡ h t)
    → map f (map g ts) ≡ map h ts
map-map_cells f g h [] e = refl
map-map_cells f g h (t ∷ ts) e = ap₂ ◌∷◌ (e t) (map-map_cells f g h ts e)

-- The cells before a place whose sources have all a time are those of these sources.
cell_at-times :
    (to_fixed : ℕ → String) (rtt : String → Option ℕ) (before srcs : List String)
    → All (λ src. is_some (rtt src) ≡ true) before
    → cell_at (length before) (map (ms_cell to_fixed) (times rtt (before ++ srcs)))
      ≡ cell_at 0 (map (ms_cell to_fixed) (times rtt srcs))
cell_at-times to_fixed rtt [] srcs h = refl
cell_at-times to_fixed rtt (src ∷ before) srcs (h, hs) =
    after (rtt src) _ h ∙ cell_at-times to_fixed rtt before srcs hs
  where
    after :
        (o : Option ℕ) (rest : List ℕ)
        → is_some o ≡ true
        → cell_at (suc (length before)) (map (ms_cell to_fixed) (times_of o rest))
          ≡ cell_at (length before) (map (ms_cell to_fixed) rest)
    after none rest h = ground arith
    after (some n) rest h = refl

get_elem?-map {ℓ κ} :
    {A : Type ℓ} {B : Type κ} (f : A → B) (xs : List A) (i : ℕ) {x : A}
    → get_elem? xs i ≡ some x
    → get_elem? (map f xs) i ≡ some (f x)
get_elem?-map f [] i h = ground arith
get_elem?-map f (x ∷ xs) zero h = ground arith
get_elem?-map f (x ∷ xs) (suc i) h = get_elem?-map f xs i h

module _ {L : Type 0} (samples : List (PingSample L)) where
  -- The time of the last sample of a target and a source, if it has one.
  abbrev pub newest_rtt : String → String → Option ℕ
  newest_rtt tgt src = (shown_of (newest_first (filter (is_of tgt src) samples) [])).latency

  latency-newest_rtt :
      (tgt src : String)
      → latency_at (get_cell (read_samples [] samples) tgt src) ≡ newest_rtt tgt src
  latency-newest_rtt tgt src =
      unfold get_latest_data_from_map in
      ap (λ d. d.latency) (get_latest-read_samples tgt src samples)

  module _ (iso_string : ℕ → String) (to_upper_case : String → String) (to_fixed : ℕ → String)
      (now : ℕ) (task : PendingTask) where
    -- The report of the samples of a task, drawn as columns.
    abbrev pub report_columns : List (List Cell)
    report_columns =
        re_structure_table
          (render_ping_report iso_string to_upper_case to_fixed
            (build_ping_report now (read_samples [] samples) task)).tabular_data

    row_cell :
        (c : ℕ) (tgt : String)
        → cell_at c (
            rtt_cells to_fixed
              (get_cell (build_ping_report now (read_samples [] samples) task).rtts tgt)
              task.sources)
          ≡ cell_at c (map (ms_cell to_fixed) (times (newest_rtt tgt) task.sources))
    row_cell c tgt =
        ap (λ rtt. cell_at c (rtt_cells to_fixed rtt task.sources))
          (fun_ext (λ src.
            get_cell-build_ping_report (read_samples [] samples) now task tgt src
            ∙ latency-newest_rtt tgt src))
        ∙ ap (cell_at c) (rtt_cells-times to_fixed (newest_rtt tgt) task.sources)

    -- Under each source the report has a cell for each target: the one at the source's place among
    -- the times of the sources that have one for the target, in the order of the sources.
    pub report_column :
        (c : ℕ)
        → c < length task.sources
        → get_elem? report_columns (suc c)
          ≡ some (
              cell_at c (map (λ src. cell (to_upper_case src)) task.sources)
              ∷ map
                  (λ tgt. cell_at c (map (ms_cell to_fixed) (times (newest_rtt tgt) task.sources)))
                  task.targets)
    unfolding render_ping_report build_ping_report
    report_column c h =
        ap (λ rows. get_elem? (re_structure_table rows) (suc c))
          (rendered (nonempty task.sources h))
        ∙ (re_structure_table_columns header rows).1 (suc c) (omega (arith, width))
        ∙ ap
            (λ cells. some (cell_at c (map (λ src. cell (to_upper_case src)) task.sources) ∷ cells))
            (map-map_cells (cell_at (suc c)) (target_row iso_string to_upper_case to_fixed report) _
              task.targets (row_cell c))
      where
        report : PingReport
        report = build_ping_report now (read_samples [] samples) task

        header : Row
        header = cell "Tgt\\Src" ∷ map (λ src. cell (to_upper_case src)) task.sources

        rows : List Row
        rows = map (target_row iso_string to_upper_case to_fixed report) task.targets

        width : length header ≡ suc (length task.sources)
        width = ap suc (length-map (λ src. cell (to_upper_case src)) task.sources)

        nonempty : (srcs : List String) {n : ℕ} → n < length srcs → is_nonempty srcs ≡ true
        nonempty [] h = absurd (omega arith)
        nonempty (_ ∷ _) h = refl

        rendered :
            is_nonempty task.sources ≡ true
            → (render_ping_report iso_string to_upper_case to_fixed report).tabular_data
              ≡ header ∷ rows
        rendered e = rw e refl

    -- If each source before one has a time for a target, the cell of the target's row under that
    -- source shows the time of the first source from it on that has one, and is blank if none has.
    pub report_cell :
        (before srcs : List String) (src tgt : String) (r : ℕ)
        → task.sources ≡ before ++ src ∷ srcs
        → get_elem? task.targets r ≡ some tgt
        → All (λ s. is_some (newest_rtt tgt s) ≡ true) before
        → (get_elem? report_columns (suc (length before)) >>= λ cells. get_elem? cells (suc r))
          ≡ some (cell_at 0 (map (ms_cell to_fixed) (times (newest_rtt tgt) (src ∷ srcs))))
    report_cell before srcs src tgt r e at h =
        ap (λ col. col >>= λ cells. get_elem? cells (suc r)) (report_column (length before) inside)
        ∙ get_elem?-map
            (λ t.
              cell_at (length before) (map (ms_cell to_fixed) (times (newest_rtt t) task.sources)))
            task.targets r at
        ∙ ap some (
            ap (λ ss. cell_at (length before) (map (ms_cell to_fixed) (times (newest_rtt tgt) ss)))
              e
            ∙ cell_at-times to_fixed (newest_rtt tgt) before (src ∷ srcs) h)
      where
        size : length task.sources ≡ length (before ++ src ∷ srcs)
        size = ap length e

        inside : length before < length task.sources
        inside = omega (arith, size, length-append before (src ∷ srcs))
