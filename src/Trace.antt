-- ===== src/Trace.antt =====
-- web/apis/trace.ts: the events of a traceroute, and what TraceEvent.fromRaw makes of an event of
-- the API (the types of web/apis/types.ts).

pub mod Peer
pub mod Hop
pub mod Stats
pub mod Table
use rbmq_demo.Common.{
  ℕ, String, Option, none, some, List, [], ◌∷◌, Bool, true, false, ◌&&◌, ◌||◌, not, ◌==◌,
  string_key, last?, if◌then◌else◌,
}

-- The fields that the client reads. `L` is the type ExactLocation, which it only passes on.
pub record BasicIpInfo (L : Type 0) : Type 0 where
  pub asn : Option String
  pub isp : Option String
  pub city : Option String
  pub iso3166_alpha2 : Option String
  pub exact : Option L

pub record RawPingEventIcmpReply (L : Type 0) : Type 0 where
  pub peer : Option String
  pub peer_rdns : Option (List String)
  pub peer_asn : Option String
  pub peer_location : Option String
  pub peer_isp : Option String
  pub peer_exact_location : Option L
  pub size : Option ℕ
  pub ttl : Option ℕ
  pub last_hop : Option Bool
  pub set_mtu_to : Option ℕ
  pub peer_ip_info : Option (BasicIpInfo L)

pub record RawPingEventData (L : Type 0) : Type 0 where
  pub rtt_milli_secs : Option (List ℕ)
  pub rtt_nano_secs : Option (List ℕ)
  pub raw : Option (List (RawPingEventIcmpReply L))
  pub received_at : Option (List String)
  pub seq : Option ℕ
  pub ttl : Option ℕ

pub record RawPingEventMetadata : Type 0 where
  pub sent_from : Option String
  pub target : Option String

pub record RawPingEvent (D : Type 0) : Type 0 where
  pub data_of : Option D
  pub metadata : Option RawPingEventMetadata
  pub err : Option String
  pub error : Option String

pub record TraceEvent (L : Type 0) : Type 0 where
  pub err : String
  pub seq : ℕ
  pub rtt_ms : ℕ
  pub peer : String
  pub peer_rdns : String
  pub ip_packet_size : ℕ
  pub timeout : Bool
  pub asn : String
  pub isp : String
  pub country_alpha2 : String
  pub city : String
  pub exact_location : Option L
  pub ttl : ℕ
  pub origin_ttl : ℕ
  pub last_hop : Bool
  pub pmtu : Option ℕ

-- `o ?? d`
abbrev pub or_else {ℓ} : {A : Type ℓ} → Option A → A → A
or_else none d = d
or_else (some a) d = a

-- Whether a text that may be missing is there and not empty, as `if (text)` asks.
abbrev pub is_set : Option String → Bool
is_set none = false
is_set (some s) = not (s == "")

abbrev pub first_or {ℓ} : {A : Type ℓ} → Option (List A) → A → A
first_or none d = d
first_or (some []) d = d
first_or (some (a ∷ _)) d = a

abbrev pub is_empty {ℓ} : {A : Type ℓ} → Option (List A) → Bool
is_empty none = true
is_empty (some []) = true
is_empty (some (_ ∷ _)) = false

-- What the address information says, else what the reply says itself.
abbrev pub text_or : String → Option String → String
text_or text fallback = if text == "" then or_else fallback text else text

abbrev pub has_target : Option RawPingEventMetadata → Bool
has_target none = false
has_target (some m) = is_set m.target

module _ {L : Type 0} where
  abbrev pub from_error : String → TraceEvent L
  from_error e = record {
    err = e;
    seq = 0;
    rtt_ms = 0;
    peer = "";
    peer_rdns = "";
    ip_packet_size = 0;
    timeout = false;
    asn = "";
    isp = "";
    country_alpha2 = "";
    city = "";
    exact_location = none;
    ttl = 0;
    origin_ttl = 0;
    last_hop = false;
    pmtu = none;
  }

  -- `data.Raw[data.Raw.length - 1]`, where there is one.
  abbrev pub last_reply : Option (List (RawPingEventIcmpReply L)) → Option (RawPingEventIcmpReply L)
  last_reply none = none
  last_reply (some replies) = last? replies

  abbrev pub info_text : (BasicIpInfo L → Option String) → Option (BasicIpInfo L) → String
  info_text field none = ""
  info_text field (some info) = or_else (field info) ""

  abbrev pub location_or : Option (BasicIpInfo L) → Option L → Option L
  location_or none fallback = fallback
  location_or (some info) fallback = first_location info.exact fallback
    where
      first_location : Option L → Option L → Option L
      first_location none fallback = fallback
      first_location (some l) fallback = some l

  -- The event of data whose last reply is given.
  abbrev pub from_data : RawPingEventData L → Option (RawPingEventIcmpReply L) → TraceEvent L
  from_data d none = record {
    err = "";
    seq = or_else d.seq 0;
    rtt_ms = first_or d.rtt_milli_secs 0;
    peer = "";
    peer_rdns = "";
    ip_packet_size = 0;
    timeout = is_empty d.received_at;
    asn = "";
    isp = "";
    country_alpha2 = "";
    city = "";
    exact_location = none;
    ttl = 0;
    origin_ttl = or_else d.ttl 0;
    last_hop = false;
    pmtu = none;
  }
  from_data d (some r) = record {
    err = "";
    seq = or_else d.seq 0;
    rtt_ms = first_or d.rtt_milli_secs 0;
    peer = or_else r.peer "";
    peer_rdns = first_or r.peer_rdns "";
    ip_packet_size = or_else r.size 0;
    timeout = is_empty d.received_at;
    asn = text_or (info_text (λ i. i.asn) r.peer_ip_info) r.peer_asn;
    isp = text_or (info_text (λ i. i.isp) r.peer_ip_info) r.peer_isp;
    country_alpha2 = info_text (λ i. i.iso3166_alpha2) r.peer_ip_info;
    city = info_text (λ i. i.city) r.peer_ip_info;
    exact_location = location_or r.peer_ip_info r.peer_exact_location;
    ttl = or_else r.ttl 0;
    origin_ttl = or_else d.ttl 0;
    last_hop = or_else r.last_hop false;
    pmtu = r.set_mtu_to;
  }

  abbrev pub from_some_data : Option (RawPingEventData L) → TraceEvent L
  from_some_data none = from_error "ping event data is nil"
  from_some_data (some d) = from_data d (last_reply d.raw)

  -- `TraceEvent.fromRaw`, none for null.
  unfoldable pub from_raw : RawPingEvent (RawPingEventData L) → Option (TraceEvent L)
  from_raw raw =
      if is_set raw.err
      then some (from_error (or_else raw.err ""))
      else if is_set raw.error
      then some (from_error (or_else raw.error ""))
      else if has_target raw.metadata
      then some (from_some_data raw.data_of)
      else none
