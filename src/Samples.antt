-- ===== src/Samples.antt =====
-- web/apis/globalping.ts: the samples that the pages show, made from the events of the API.
pub mod Events
use rbmq_demo.Common.{
  ℕ, String, Option, none, some, List, [], ◌∷◌, Bool, true, false, not, ◌||◌, ◌==◌, string_key,
  nat_beq, last?, if◌then◌else◌,
}
use rbmq_demo.JsonLines.{Text, tokenize, decode_lines}
use rbmq_demo.Trace.{
  BasicIpInfo, RawPingEventIcmpReply, RawPingEventData, RawPingEventMetadata, RawPingEvent, or_else,
  is_set, last_reply, is_empty,
}

-- `latency_ns` is `latencyMs` in millionths of a millisecond, the unit that it is divided from. `L`
-- is the type ExactLocation.
pub record PingSample (L : Type 0) : Type 0 where
  pub is_timeout : Bool
  pub sent_from : String
  pub target : String
  pub latency_ns : Option ℕ
  pub mss : Option ℕ
  pub ttl : ℕ
  pub received_ttl : Option ℕ
  pub received_size : Option ℕ
  pub seq : ℕ
  pub peer : Option String
  pub peer_rdns : Option String
  pub peer_asn : Option String
  pub peer_location : Option String
  pub peer_isp : Option String
  pub peer_exact_location : Option L
  pub last_hop : Option Bool
  pub pmtu : Option ℕ
  pub peer_ip_info : Option (BasicIpInfo L)

-- The fields of the raw events that are read.
pub record RawTcpRequest : Type 0 where
  pub dst_ip : Option String

pub record RawTcpPacket (L : Type 0) : Type 0 where
  pub ttl : Option ℕ
  pub size : Option ℕ
  pub mss : Option ℕ
  pub peer_rdns : Option (List String)
  pub peer_asn : Option String
  pub peer_isp : Option String
  pub peer_location : Option String
  pub peer_exact_location : Option L

pub record RawTcpPingEventDataDetails (L : Type 0) : Type 0 where
  pub seq : Option ℕ
  pub request : Option RawTcpRequest
  pub received_pkt : Option (RawTcpPacket L)
  pub rtt : Option ℕ
  pub sent_ttl : Option ℕ

pub data TcpEventType : Type 0 where
  received timeout : TcpEventType

pub record RawTcpPingEventData (L : Type 0) : Type 0 where
  pub type_of : TcpEventType
  pub details : Option (RawTcpPingEventDataDetails L)

-- `o?.field`
abbrev pub field_of {ℓ κ} : {A : Type ℓ} {B : Type κ} → Option A → (A → Option B) → Option B
field_of none f = none
field_of (some a) f = f a

abbrev pub sent_from_of : Option RawPingEventMetadata → String
sent_from_of m = or_else (field_of m (λ m. m.sent_from)) ""

abbrev pub target_of : Option RawPingEventMetadata → String
target_of m = or_else (field_of m (λ m. m.target)) ""

-- `n ? n : undefined`
abbrev pub unless_zero : Option ℕ → Option ℕ
unless_zero none = none
unless_zero (some n) = if nat_beq n 0 then none else some n

-- `texts?.[0] || undefined`
abbrev pub first_text : Option (List String) → Option String
first_text none = none
first_text (some []) = none
first_text (some (t ∷ _)) = if t == "" then none else some t

abbrev pub last_text : Option (List String) → Option String
last_text none = none
last_text (some texts) = last? texts

module _ {L : Type 0} where
  abbrev pub tcp_timeout : String → String → RawTcpPingEventDataDetails L → PingSample L
  tcp_timeout sent_from target d = record {
    is_timeout = true;
    sent_from = sent_from;
    target = target;
    latency_ns = none;
    mss = none;
    ttl = or_else d.sent_ttl 0;
    received_ttl = none;
    received_size = none;
    seq = or_else d.seq 0;
    peer = none;
    peer_rdns = none;
    peer_asn = none;
    peer_location = none;
    peer_isp = none;
    peer_exact_location = none;
    last_hop = none;
    pmtu = none;
    peer_ip_info = none;
  }

  abbrev pub tcp_received : String → String → RawTcpPingEventDataDetails L → ℕ → ℕ → PingSample L
  tcp_received sent_from target d ttl seq = record {
    is_timeout = false;
    sent_from = sent_from;
    target = target;
    latency_ns = unless_zero d.rtt;
    mss = field_of d.received_pkt (λ p. p.mss);
    ttl = ttl;
    received_ttl = field_of d.received_pkt (λ p. p.ttl);
    received_size = field_of d.received_pkt (λ p. p.size);
    seq = seq;
    peer = field_of d.request (λ r. r.dst_ip);
    peer_rdns = first_text (field_of d.received_pkt (λ p. p.peer_rdns));
    peer_asn = field_of d.received_pkt (λ p. p.peer_asn);
    peer_location = field_of d.received_pkt (λ p. p.peer_location);
    peer_isp = field_of d.received_pkt (λ p. p.peer_isp);
    peer_exact_location = field_of d.received_pkt (λ p. p.peer_exact_location);
    last_hop = none;
    pmtu = none;
    peer_ip_info = none;
  }

  -- A received packet needs the time to live and the sequence number.
  abbrev pub tcp_numbered :
      String → String → RawTcpPingEventDataDetails L → Option ℕ → Option ℕ → Option (PingSample L)
  tcp_numbered sent_from target d (some ttl) (some seq) =
      some (tcp_received sent_from target d ttl seq)
  tcp_numbered sent_from target d _ _ = none

  abbrev pub tcp_detailed :
      String → String → TcpEventType → RawTcpPingEventDataDetails L → Option (PingSample L)
  tcp_detailed sent_from target timeout d = some (tcp_timeout sent_from target d)
  tcp_detailed sent_from target received d =
      if sent_from == "" || target == ""
      then none
      else tcp_numbered sent_from target d d.sent_ttl d.seq

  -- `pingSampleFromTCPEvent`
  unfoldable pub ping_sample_from_tcp_event :
      RawPingEvent (RawTcpPingEventData L) → Option (PingSample L)
  ping_sample_from_tcp_event event = field_of event.data_of λ data_of.
      field_of data_of.details λ details.
        tcp_detailed (sent_from_of event.metadata) (target_of event.metadata) data_of.type_of
          details

  -- The sample of an event with a sequence number; the reply is the last one, if there is any.
  abbrev pub sample_of :
      Option RawPingEventMetadata
      → Option (RawPingEventData L)
      → Option (RawPingEventIcmpReply L)
      → ℕ
      → PingSample L
  sample_of metadata data_of reply seq = record {
    is_timeout = is_empty (field_of data_of (λ d. d.raw));
    sent_from = sent_from_of metadata;
    target = target_of metadata;
    latency_ns = field_of (field_of data_of (λ d. d.rtt_nano_secs)) last?;
    mss = none;
    ttl = or_else (field_of data_of (λ d. d.ttl)) 0;
    received_ttl = field_of reply (λ r. r.ttl);
    received_size = field_of reply (λ r. r.size);
    seq = seq;
    peer = field_of reply (λ r. r.peer);
    peer_rdns = last_text (field_of reply (λ r. r.peer_rdns));
    peer_asn = field_of reply (λ r. r.peer_asn);
    peer_location = field_of reply (λ r. r.peer_location);
    peer_isp = field_of reply (λ r. r.peer_isp);
    peer_exact_location = field_of reply (λ r. r.peer_exact_location);
    last_hop = field_of reply (λ r. r.last_hop);
    pmtu = field_of reply (λ r. r.set_mtu_to);
    peer_ip_info = field_of reply (λ r. r.peer_ip_info);
  }

  -- `pingSampleFromEvent`
  unfoldable pub ping_sample_from_event : RawPingEvent (RawPingEventData L) → Option (PingSample L)
  ping_sample_from_event event = field_of (field_of event.data_of (λ d. d.seq)) λ seq. some (
      sample_of event.metadata event.data_of (last_reply (field_of event.data_of (λ d. d.raw))) seq)

abbrev pub enqueue_some {ℓ} : {B : Type ℓ} → Option B → List B → List B
enqueue_some none samples = samples
enqueue_some (some s) samples = s ∷ samples

-- The adapters TCPPingEventAdapter and PingEventAdapter: what is no sample is dropped.
unfoldable pub adapt : {A B : Type 0} → (A → Option B) → List A → List B
adapt sample [] = []
adapt sample (event ∷ events) = enqueue_some (sample event) (adapt sample events)

-- The pipeline of `generatePingSampleStream`, from the chunks of the response to its samples.
-- `json_parse` is JSON.parse, and `tcp_event` and `ping_event` are the views that its result is cast
-- to.
module _ {L J : Type 0} (json_parse : Text → Option J)
    (tcp_event : J → RawPingEvent (RawTcpPingEventData L))
    (ping_event : J → RawPingEvent (RawPingEventData L)) where
  abbrev pub sample_from : Bool → J → Option (PingSample L)
  sample_from true object = ping_sample_from_tcp_event (tcp_event object)
  sample_from false object = ping_sample_from_event (ping_event object)

  unfoldable pub generate_ping_sample_stream : Bool → List Text → List (PingSample L)
  unfolding adapt
  generate_ping_sample_stream is_tcp chunks =
      adapt (sample_from is_tcp) (decode_lines json_parse (tokenize chunks))
