-- ===== src/PingStream.antt =====
-- web/apis/globalping.ts: the request of a ping task, and the stream of its samples from the
-- response on, as the runtime calls it: the response comes, a read of the reader is answered, the
-- page cancels. The text of the parameters in a URL is the platform's and not modelled.
pub mod Cancelled
use rbmq_demo.Common.{
  ℕ, suc, String, Option, none, some, List, [], ◌∷◌, ◌++◌, Bool, true, false, not, ◌&&◌, ltb,
  if◌then◌else◌, string_key,
}
use rbmq_demo.Common.Decimal.{number_text}
use rbmq_demo.Common.Dict.{Assoc, get, set}
use rbmq_demo.Common.Groups.{foldl}
use rbmq_demo.Report.{join}
use rbmq_demo.Trace.{is_set, or_else}

pub data L4PacketType : Type 0 where
  icmp udp tcp : L4PacketType

abbrev pub packet_text : L4PacketType → String
packet_text icmp = "icmp"
packet_text udp = "udp"
packet_text tcp = "tcp"

pub record PingRequest : Type 0 where
  pub sources : List String
  pub targets : List String
  pub count : Option ℕ
  pub interval_ms : ℕ
  pub pkt_timeout_ms : ℕ
  pub resolver : Option String
  pub ttl : Option String
  pub ip_info_provider_name : Option String
  pub prefer_v4 : Option Bool
  pub prefer_v6 : Option Bool
  pub l4_packet_type : Option L4PacketType
  pub random_payload_size : Option ℕ

abbrev pub text_param : String → Option String → List (String × String)
text_param key value = if is_set value then (key, or_else value "") ∷ [] else []

abbrev pub count_param : String → Option ℕ → List (String × String)
count_param key none = []
count_param key (some n) = if ltb 0 n then (key, number_text n) ∷ [] else []

abbrev pub flag_param : String → Option Bool → List (String × String)
flag_param key (some true) = (key, "true") ∷ []
flag_param key _ = []

abbrev pub packet_param : Option L4PacketType → List (String × String)
packet_param none = []
packet_param (some p) = ("l4PacketType", packet_text p) ∷ []

-- The parameters that `getPingSampleStreamURL` sets, in its order.
unfoldable pub ping_params : PingRequest → Assoc String String
ping_params req =
    ("from", join "," req.sources)
      ∷ ("targets", join "," req.targets)
      ∷ count_param "count" req.count
    ++ ("intervalMs", number_text req.interval_ms)
      ∷ ("pktTimeoutMs", number_text req.pkt_timeout_ms)
      ∷ text_param "resolver" req.resolver
    ++ text_param "ttl" req.ttl
    ++ text_param "ipInfoProviderName" req.ip_info_provider_name
    ++ flag_param "preferV4" req.prefer_v4
    ++ flag_param "preferV6" req.prefer_v6
    ++ packet_param req.l4_packet_type
    ++ count_param "randomPayloadSize" req.random_payload_size

module _ (S : Type 0) where
  -- `reading` is whether a read of the reader is waiting; `consumed` is what its reads have taken
  -- from the response, and `enqueued` what the page gets.
  pub record ControlScope : Type 0 where
    pub awaits_response : Bool
    pub has_reader : Bool
    pub stopped : Bool
    pub reading : Bool
    pub closed : Bool
    pub consumed : List S
    pub enqueued : List S

  -- A read is answered with a sample, or with the end of the response.
  pub data Event : Type 0 where
    response : Bool → Event
    read : S → Event
    read_done : Event
    cancel : Event

module _ {S : Type 0} where
  abbrev pub started : ControlScope S
  started = record {
    awaits_response = true;
    has_reader = false;
    stopped = false;
    reading = false;
    closed = false;
    consumed = [];
    enqueued = [];
  }

  -- A response with a body gets a reader, and `push` reads from it.
  abbrev pub on_response : Bool → ControlScope S → ControlScope S
  on_response has_body sc = record sc {
    awaits_response = false;
    has_reader = has_body;
    reading = has_body;
  }

  abbrev pub on_read : S → ControlScope S → ControlScope S
  on_read value sc = record sc {
    consumed = sc.consumed ++ value ∷ [];
    enqueued = if not sc.stopped then sc.enqueued ++ value ∷ [] else sc.enqueued;
  }

  -- The reader, if there is one, answers the read that waits with the end.
  abbrev pub on_cancel : ControlScope S → ControlScope S
  on_cancel sc = record sc { stopped = true; reading = sc.reading && not sc.has_reader }

  -- An event that the state does not allow does not come.
  unfoldable pub step : ControlScope S → Event S → ControlScope S
  step sc (response has_body) = if sc.awaits_response then on_response has_body sc else sc
  step sc (read value) = if sc.reading then on_read value sc else sc
  step sc read_done = record sc { reading = false }
  step sc cancel = on_cancel sc

  abbrev pub run_events : ControlScope S → List (Event S) → ControlScope S
  run_events sc events = foldl step sc events
