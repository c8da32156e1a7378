-- ===== src/TraceMap/NodeText.antt =====
-- web/components/traceroutedisplay.tsx: the report of a trace, and the line about its node. The text
-- of a name in capitals is the parameter `to_upper_case`.
use rbmq_demo.Common.{
  ℕ, String, Option, none, some, List, [], ◌∷◌, ◌++◌, Bool, ◌&&◌, ◌||◌, string_key, if◌then◌else◌,
}
use rbmq_demo.Common.Decimal.{texts}
use rbmq_demo.Common.Dict.{get}
use rbmq_demo.Common.Options.{◌>>=◌}
use rbmq_demo.Nodes.{ConnNodeEntry}
use rbmq_demo.Report.{join, push_set, TracerouteReport, TracerouteReportMode}
use rbmq_demo.Trace.{is_set, or_else}

abbrev pub attribute : ConnNodeEntry → String → Option String
unfolding get
attribute node key = node.attributes >>= λ m. get m key

-- `${t}` of a text that may be undefined.
abbrev pub printed : Option String → String
printed none = "undefined"
printed (some t) = t

-- `t || "unknown"`
abbrev pub or_unknown : Option String → String
or_unknown t = if is_set t then or_else t "" else "unknown"

abbrev pub with_isp : Option String → Option String → Option String
with_isp asn isp =
    if is_set asn && is_set isp then some (texts (printed asn ∷ " " ∷ printed isp ∷ [])) else asn

abbrev pub with_dn42_isp : Option String → Option String → Option String
with_dn42_isp asn isp =
    if is_set asn || is_set isp then some (texts (printed asn ∷ " " ∷ printed isp ∷ [])) else asn

unfoldable pub network_of : ConnNodeEntry → String
unfolding attribute
network_of node = join " | " (
    push_set (
      with_isp (attribute node "ProviderASN") (attribute node "ProviderName")
      ∷ with_dn42_isp (attribute node "DN42ProviderASN") (attribute node "DN42ProviderName")
      ∷ []))

module _ (to_upper_case : String → String) where
  abbrev pub upper_name : ConnNodeEntry → Option String
  upper_name node = node.node_name >>= λ name. some (to_upper_case name)

  unfoldable pub build_traceroute_report :
      ℕ → ConnNodeEntry → String → TracerouteReportMode → TracerouteReport
  unfolding network_of
  build_traceroute_report now node target mode = record {
    date = now;
    sources =
        record {
          node_name = or_unknown (upper_name node);
          isp = some (record { isp_name = ""; asn = ""; network = some (network_of node) });
          loc = some (record {
            city = some (or_unknown (attribute node "CityName"));
            country_alpha2 = some (or_unknown (attribute node "CountryCode"));
          });
        }
        ∷ [];
    destination = target;
    mode = mode;
  }

  -- The pieces that are not undefined, joined by spaces: an entry of `nodeInfos`.
  abbrev pub info_if : Bool → List (Option String) → List String
  info_if b words = if b then join " " (push_set words) ∷ [] else []

  unfoldable pub node_infos : ConnNodeEntry → List String
  unfolding attribute
  node_infos node =
      info_if (is_set (upper_name node)) (some "Node" ∷ upper_name node ∷ [])
      ++ info_if (is_set (attribute node "ProviderASN"))
          (attribute node "ProviderASN" ∷ attribute node "ProviderName" ∷ [])
      ++ info_if (is_set (attribute node "CountryCode"))
          (attribute node "CityName" ∷ attribute node "CountryCode" ∷ [])
      ++ info_if (is_set (attribute node "DN42ProviderASN"))
          (some "DN42" ∷ attribute node "DN42ProviderASN" ∷ attribute node "DN42ProviderName" ∷ [])

  -- The line after "From: ".
  unfoldable pub from_line : ConnNodeEntry → String
  unfolding node_infos
  from_line node = join ", " (node_infos node)
