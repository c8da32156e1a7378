-- ===== src/Report.antt =====
-- web/components/traceroutereport.tsx: the rows of the reports, and
-- web/components/pingdisplay.tsx: the report of a ping task. The texts of a date, of a name in
-- capitals and of a number with two decimals are the language's: `iso_string`, `to_upper_case` and
-- `to_fixed` are parameters.
pub mod Build
pub mod Shown
use Prim.Native.Char.{code}
use Prim.Native.String.{◌++◌ as append_text}
use rbmq_demo.Common.{
  ℕ, String, Option, none, some, List, [], ◌∷◌, ◌++◌, map, Bool, true, false, not, ◌&&◌, ◌==◌,
  string_key, nat_beq, zero, suc, length, get_elem?, if◌then◌else◌,
}
use rbmq_demo.Common.Cells.{get_cell, set_cell, or_empty}
use rbmq_demo.Common.Decimal.{texts}
use rbmq_demo.Common.Dict.{Assoc, get, set, keys, is_some}
use rbmq_demo.Common.Groups.{foldl}
use rbmq_demo.Trace.{or_else, is_set}
use rbmq_demo.Trace.Table
use rbmq_demo.CanvasTable.{Cell, Row, cell, blank}
use rbmq_demo.Samples.{field_of}
use rbmq_demo.PingTable.{TableCellData, TableCellDataMap}

pub data TracerouteReportMode : Type 0 where
  tcp icmp udp : TracerouteReportMode

abbrev pub mode_text : TracerouteReportMode → String
mode_text tcp = "TCP"
mode_text icmp = "ICMP"
mode_text udp = "UDP"

-- `num.replace(/0+$/, "")`
unfoldable pub without_zeros : String → String
without_zeros String.[] = ""
without_zeros (String.◌∷◌ c s) =
    let rest = without_zeros s in
    if nat_beq (code c) b'0' && rest == "" then "" else String.◌∷◌ c rest

-- `num.replace(/\.$/, "")`
unfoldable pub without_dot : String → String
without_dot String.[] = ""
without_dot (String.◌∷◌ c s) =
    let rest = without_dot s in if nat_beq (code c) b'.' && s == "" then "" else String.◌∷◌ c rest

unfoldable pub format_num_str : String → String
unfolding without_zeros without_dot
format_num_str num = without_dot (without_zeros num)

-- `words.join(separator)`
abbrev pub join : String → List String → String
join separator [] = ""
join separator (w ∷ []) = w
join separator (w ∷ v ∷ ws) = texts (w ∷ separator ∷ join separator (v ∷ ws) ∷ [])

-- Texts pushed one by one, if they are not empty.
abbrev pub push_set : List (Option String) → List String
push_set [] = []
push_set (o ∷ os) = let rest = push_set os in if is_set o then or_else o "" ∷ rest else rest

pub record TracerouteReportLocation : Type 0 where
  pub city : Option String
  pub country_alpha2 : Option String

pub record TracerouteReportIsp : Type 0 where
  pub isp_name : String
  pub asn : String
  pub network : Option String

pub record TracerouteReportSource : Type 0 where
  pub node_name : String
  pub isp : Option TracerouteReportIsp
  pub loc : Option TracerouteReportLocation

pub record TracerouteReport : Type 0 where
  pub date : ℕ
  pub sources : List TracerouteReportSource
  pub destination : String
  pub mode : TracerouteReportMode

pub record PingReport : Type 0 where
  pub date : ℕ
  pub mode : TracerouteReportMode
  pub sources : List String
  pub targets : List String
  pub prefer_v4 : Bool
  pub prefer_v6 : Bool
  pub rtts : Assoc String (Assoc String ℕ)

pub record Rendered : Type 0 where
  pub preamble : List Row
  pub tabular_data : List Row

unfoldable pub render_loc : Option TracerouteReportLocation → String
render_loc none = ""
render_loc (some loc) = join ", " (push_set (loc.city ∷ loc.country_alpha2 ∷ []))

unfoldable pub render_isp : Option TracerouteReportIsp → String
render_isp none = ""
render_isp (some isp) =
    if is_set isp.network
    then or_else isp.network ""
    else join " " (push_set (some isp.asn ∷ some isp.isp_name ∷ []))

unfoldable pub render_source : TracerouteReportSource → String
unfolding render_isp render_loc
render_source src =
    if src.node_name == ""
    then ""
    else join ", " (
        texts ("Node " ∷ src.node_name ∷ [])
        ∷ push_set (some (render_isp src.isp) ∷ some (render_loc src.loc) ∷ []))

abbrev pub line_if : Bool → String → List Row
line_if b t = if b then (cell t ∷ []) ∷ [] else []

unfoldable pub source_lines : List TracerouteReportSource → List Row
unfolding render_source
source_lines [] = []
source_lines (src ∷ srcs) =
    let line : String = render_source src in
    line_if (not (line == "")) (texts ("Source: " ∷ line ∷ [])) ++ source_lines srcs

abbrev pub body_row : Table.Row → Row
body_row row = if row.spacer then blank ∷ [] else map cell row.cells

abbrev pub push_rtt : (ℕ → String) → Option ℕ → Row → Row
push_rtt to_fixed none rest = rest
push_rtt to_fixed (some n) rest = cell (texts (format_num_str (to_fixed n) ∷ "ms" ∷ [])) ∷ rest

-- `for (const src of report.sources)`, a cell for each source that has a number.
abbrev pub rtt_cells : (ℕ → String) → (String → Option ℕ) → List String → Row
rtt_cells to_fixed rtt [] = []
rtt_cells to_fixed rtt (src ∷ srcs) =
    let rest : Row = rtt_cells to_fixed rtt srcs in push_rtt to_fixed (rtt src) rest

abbrev pub is_nonempty {ℓ} : {A : Type ℓ} → List A → Bool
is_nonempty [] = false
is_nonempty (_ ∷ _) = true

module _ (iso_string : ℕ → String) (to_upper_case : String → String) (to_fixed : ℕ → String) where
  abbrev date_line : ℕ → List Row
  date_line date = line_if (not (nat_beq date 0)) (texts ("Date: " ∷ iso_string date ∷ []))

  abbrev mode_line : TracerouteReportMode → List Row
  mode_line mode = line_if true (texts ("Mode: " ∷ mode_text mode ∷ []))

  unfoldable pub render_traceroute_report : TracerouteReport → Table.Table → Rendered
  unfolding source_lines
  render_traceroute_report report table = record {
    preamble =
        date_line report.date
        ++ source_lines report.sources
        ++ line_if (not (report.destination == ""))
            (texts ("Destination: " ∷ report.destination ∷ []))
        ++ mode_line report.mode;
    tabular_data =
        map (λ row. map cell row.cells) table.header ++ (blank ∷ []) ∷ map body_row table.rows;
  }

  abbrev target_row : PingReport → String → Row
  target_row report tgt = cell tgt ∷ rtt_cells to_fixed (get_cell report.rtts tgt) report.sources

  unfoldable pub render_ping_report : PingReport → Rendered
  unfolding get
  render_ping_report report = record {
    preamble =
        date_line report.date
        ++ mode_line report.mode
        ++ line_if report.prefer_v4 "Prefer IPv4: true"
        ++ line_if report.prefer_v6 "Prefer IPv6: true";
    tabular_data =
        if is_nonempty report.sources
        then (cell "Tgt\\Src" ∷ map (λ src. cell (to_upper_case src)) report.sources)
          ∷ map (target_row report) report.targets
        else [];
  }

-- The fields of a task that the report is made from.
pub record PendingTask : Type 0 where
  pub sources : List String
  pub targets : List String
  pub is_tcpping : Bool
  pub prefer_v4 : Bool
  pub prefer_v6 : Bool
  pub use_udp : Bool

abbrev pub write_rtt :
    String → String → Option ℕ → Assoc String (Assoc String ℕ) → Assoc String (Assoc String ℕ)
write_rtt tgt src none rtts = rtts
write_rtt tgt src (some rtt) rtts = set_cell rtts tgt src rtt

abbrev pub with_row :
    String → Option (Assoc String ℕ) → Assoc String (Assoc String ℕ) → Assoc String (Assoc String ℕ)
with_row tgt none rtts = set rtts tgt []
with_row tgt (some row) rtts = rtts

module _ {L : Type 0} where
  abbrev pub latency_at : Option (TableCellData L) → Option ℕ
  latency_at cell = field_of cell (λ c. c.latest_latency)

  unfoldable pub copy_sources :
      TableCellDataMap L
      → String
      → Assoc String (Assoc String ℕ)
      → List String
      → Assoc String (Assoc String ℕ)
  unfolding get set
  copy_sources samples tgt rtts [] = rtts
  copy_sources samples tgt rtts (src ∷ srcs) =
      copy_sources samples tgt (write_rtt tgt src (latency_at (get_cell samples tgt src)) rtts) srcs

  unfoldable pub copy_targets :
      TableCellDataMap L
      → Assoc String (Assoc String ℕ)
      → List String
      → Assoc String (Assoc String ℕ)
  unfolding copy_sources get set
  copy_targets samples rtts [] = rtts
  copy_targets samples rtts (tgt ∷ tgts) =
      copy_targets samples
        (copy_sources samples tgt (with_row tgt (get rtts tgt) rtts)
          (keys (or_empty (get samples tgt))))
        tgts

  unfoldable pub build_ping_report : ℕ → TableCellDataMap L → PendingTask → PingReport
  unfolding copy_targets
  build_ping_report now samples task = record {
    date = now;
    mode = if task.use_udp then udp else if task.is_tcpping then tcp else icmp;
    sources = task.sources;
    targets = task.targets;
    prefer_v4 = task.prefer_v4;
    prefer_v6 = task.prefer_v6;
    rtts = copy_targets samples [] (keys samples);
  }
