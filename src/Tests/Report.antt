-- ===== src/Tests/Report.antt =====
-- web/components/pingdisplay.tsx and web/components/traceroutereport.tsx: two targets and two
-- sources, of which one does not answer.
use rbmq_demo.Common.{
  ◌≡◌, refl, ℕ, String, Option, none, some, false, List, [], ◌∷◌, filter, get_elem?, string_key,
  All, ◌+◌, ◌*◌, ◌<◌, ◌++◌, arith,
}
use rbmq_demo.Common.Decimal.{number_text, decimal}
use rbmq_demo.Common.Dict.{get, set}
use rbmq_demo.Common.Options.{◌>>=◌}
use rbmq_demo.CanvasTable.{
  cell, blank, re_structure_table, Row, TextMetrics, DimensionCtx, do_paint, paint_table,
  draw_preamble, draw_cols, draw_col, draw_cells, draw_line,
}
use rbmq_demo.CanvasTable.Fits.{do_paint-fits}
use rbmq_demo.CanvasTable.Texts.{first_lines, contents, lines, IsBoxed}
use rbmq_demo.Samples.{PingSample}
use rbmq_demo.PingTable.{read_samples, update_table_cell_data_map, get_latest_data_from_map}
use rbmq_demo.PingTable.Latest.{shown_of, is_of, newest_first, get_latest-read_samples}
use rbmq_demo.PingTable.Replay.{history_at, update_replayed}
use rbmq_demo.Report.{
  PendingTask, format_num_str, render_ping_report, build_ping_report, copy_targets, copy_sources,
}
use rbmq_demo.Report.Shown.{ms_cell, report_columns, report_cell}

abbrev sample_of : String → String → Option ℕ → PingSample ℕ
sample_of target source latency = record {
  is_timeout = false;
  sent_from = source;
  target = target;
  latency_ns = latency;
  mss = none;
  ttl = 64;
  received_ttl = none;
  received_size = none;
  seq = 1;
  peer = none;
  peer_rdns = none;
  peer_asn = none;
  peer_location = none;
  peer_isp = none;
  peer_exact_location = none;
  last_hop = none;
  pmtu = none;
  peer_ip_info = none;
}

-- The source a has no time for the target u.
abbrev pings : List (PingSample ℕ)
pings =
    sample_of "t" "a" (some 7)
    ∷ sample_of "t" "b" (some 9)
    ∷ sample_of "u" "b" (some 5)
    ∷ sample_of "t" "a" (some 8)
    ∷ []

abbrev task : PendingTask
task = record {
  sources = "a" ∷ "b" ∷ [];
  targets = "t" ∷ "u" ∷ [];
  is_tcpping = false;
  prefer_v4 = false;
  prefer_v6 = false;
  use_udp = false;
}

abbrev as_is : String → String
as_is t = t

format_run : (format_num_str "100.00" ≡ "100") × (format_num_str "7.10" ≡ "7.1")
unfolding format_num_str
format_run = (refl, refl)

-- The time of b stands under a.
shifted_run :
    report_columns pings number_text as_is number_text 0 task
    ≡ (cell "Tgt\\Src" ∷ cell "t" ∷ cell "u" ∷ [])
      ∷ (cell "a" ∷ cell "8ms" ∷ cell "5ms" ∷ [])
      ∷ (cell "b" ∷ cell "9ms" ∷ blank ∷ [])
      ∷ []
unfolding re_structure_table render_ping_report build_ping_report copy_targets copy_sources
    read_samples update_table_cell_data_map get set format_num_str number_text decimal
shifted_run = refl

get_latest-read_samples_example :
    get_latest_data_from_map (read_samples [] pings) "t" "a"
    ≡ shown_of (newest_first (filter (is_of "t" "a") pings) [])
get_latest-read_samples_example = get_latest-read_samples "t" "a" pings

update_replayed_example :
    history_at
      (update_table_cell_data_map
        (update_table_cell_data_map (read_samples [] pings) (sample_of "u" "a" none)).prev
        (sample_of "u" "a" none)).new_map
      "u"
      "a"
    ≡ sample_of "u" "a" none ∷ sample_of "u" "a" none ∷ []
unfolding read_samples update_table_cell_data_map get set
update_replayed_example = update_replayed (read_samples [] pings) (sample_of "u" "a" none)

report_cell_example :
    (get_elem? (report_columns pings number_text as_is number_text 0 task) 1 >>= λ cells.
    get_elem? cells 2)
    ≡ some (ms_cell number_text 5)
report_cell_example =
    report_cell pings number_text as_is number_text 0 task [] ("b" ∷ []) "a" "u" 1 refl refl tt

-- Every text is as wide here.
abbrev measured : String → TextMetrics
measured t = record { width = 30; ascent = 12; descent = 4 }

abbrev dimension : DimensionCtx
dimension = record { w = 10; h = 10; max_w = 0; max_h = 0 }

abbrev table_rows : List Row
table_rows = (cell "a" ∷ cell "b" ∷ []) ∷ (cell "c" ∷ []) ∷ []

-- A pixel of 4 units at a ratio of 5/4: the canvas is cut to whole pixels.
painted_run :
    let first = do_paint measured 4 5 dimension ((cell "d" ∷ []) ∷ []) table_rows in
    (first.canvas_w ≡ 3) × (first.dim.max_w ≡ 310) × (first.dim.max_h ≡ 238)
unfolding do_paint paint_table draw_preamble draw_cols draw_col draw_cells draw_line
    re_structure_table
painted_run = (refl, refl, refl)

do_paint-fits_example :
    let first = do_paint measured 4 5 dimension ((cell "d" ∷ []) ∷ []) table_rows in
    let again = do_paint measured 4 5 first.dim ((cell "d" ∷ []) ∷ []) table_rows in
    All
      (λ t.
        (10 * 5 + t.x + t.width + 10 * 5 < again.canvas_w * 4 + 4)
        × (10 * 5 + t.y + t.height + 10 * 5 < again.canvas_h * 4 + 4))
      again.texts
    × (again.margin ≡ 10 * 5)
    × (lines again.texts
        ≡ first_lines ((cell "d" ∷ []) ∷ []) ++ contents (re_structure_table table_rows))
    × All (IsBoxed measured) again.texts
do_paint-fits_example =
    do_paint-fits measured 4 5 dimension ((cell "d" ∷ []) ∷ []) table_rows (omega arith)
