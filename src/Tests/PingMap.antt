-- ===== src/Tests/PingMap.antt =====
-- web/components/pingdisplay.tsx: two samples of one hop, and the line about a sample.
use rbmq_demo.Common.{◌≡◌, refl, ℕ, ◌/◌, none, some, false, List, [], ◌∷◌, filter, string_key, map}
use rbmq_demo.Common.Decimal.{number_text, decimal}
use rbmq_demo.Common.Dict.{get, set}
use rbmq_demo.Samples.{PingSample}
use rbmq_demo.PingTable.{read_samples, update_table_cell_data_map}
use rbmq_demo.PingTable.Latest.{is_of}
use rbmq_demo.Report.{format_num_str}
use rbmq_demo.Colors.{color_red}
use rbmq_demo.PingMap.{all_markers, has_index, trim_prefix, after_prefix, sample_line}
use rbmq_demo.PingMap.Markers.{first_of, marked, all_markers-oldest}

abbrev sample_of : ℕ → ℕ → PingSample ℕ
sample_of seq latency = record {
  is_timeout = false;
  sent_from = "a";
  target = "t";
  latency_ns = some latency;
  mss = none;
  ttl = 2;
  received_ttl = some 60;
  received_size = some 64;
  seq = seq;
  peer = some "p";
  peer_rdns = none;
  peer_asn = none;
  peer_location = none;
  peer_isp = none;
  peer_exact_location = some 5;
  last_hop = none;
  pmtu = none;
  peer_ip_info = none;
}

-- The first answer took 300 milliseconds, and the second one 5.
abbrev answers : List (PingSample ℕ)
answers = sample_of 1 300000000 ∷ sample_of 2 5000000 ∷ []

all_markers-oldest_example :
    filter (has_index "TTL=2, IP=p") (all_markers 1 (read_samples [] answers) "t" [] ("a" ∷ []))
    ≡ first_of (marked 1 "TTL=2, IP=p" (filter (is_of "t" "a") answers))
all_markers-oldest_example = all_markers-oldest 1 "TTL=2, IP=p" "t" "a" answers

-- The colour stays that of the first answer.
stale_run :
    map (λ m. m.fill) (all_markers 1 (read_samples [] answers) "t" [] ("a" ∷ [])) ≡ color_red ∷ []
unfolding all_markers read_samples update_table_cell_data_map get set number_text decimal
stale_run = refl

prefix_run : (trim_prefix "eu/lax1" ≡ "lax1") × (trim_prefix "/lax1" ≡ "/lax1")
unfolding trim_prefix after_prefix
prefix_run = (refl, refl)

line_run :
    sample_line (λ n. number_text (n / 1000000)) (sample_of 2 5000000)
    ≡ "64 bytes from p: seq=2 ttl=60 time=5ms"
unfolding sample_line format_num_str number_text decimal
line_run = refl
