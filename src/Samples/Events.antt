-- ===== src/Samples/Events.antt =====
-- globalping.ts: which events become samples, and that the way the response is cut into chunks does
-- not matter.
use rbmq_demo.Common.{
  ℕ, String, Option, none, some, List, [], ◌∷◌, Bool, true, false, not, ◌&&◌, ◌||◌, ◌==◌,
  string_key, ◌≡◌, refl, sym, ap, ◌∙◌, ◌⊎◌, arith, Bool-cases, inl, inr, if◌then◌else◌,
}
use rbmq_demo.Common.Dict.{is_some}
use rbmq_demo.JsonLines.{Text, decode_lines}
use rbmq_demo.JsonLines.Tokens.{join, lines_of, tokenize-lines_of}
use rbmq_demo.Trace.{
  RawPingEvent, RawPingEventData, RawPingEventMetadata, RawPingEventIcmpReply, is_empty, last_reply,
}
use rbmq_demo.Samples.{
  PingSample, RawTcpPingEventData, RawTcpPingEventDataDetails, TcpEventType, timeout, received,
  field_of, sent_from_of, target_of, tcp_detailed, tcp_numbered, sample_of,
  ping_sample_from_tcp_event, ping_sample_from_event, adapt, sample_from,
  generate_ping_sample_stream,
}

-- The names of the node and of the target are there.
abbrev pub is_named : Option RawPingEventMetadata → Bool
is_named m = not (sent_from_of m == "") && not (target_of m == "")

module _ {L : Type 0} where
  -- What an event of a TCP ping needs to count: its details, and if a packet was received, both
  -- names, the time to live and the sequence number.
  abbrev pub is_detailed :
      Option RawPingEventMetadata → TcpEventType → Option (RawTcpPingEventDataDetails L) → Bool
  is_detailed m t none = false
  is_detailed m timeout (some d) = true
  is_detailed m received (some d) = is_named m && (is_some d.sent_ttl && is_some d.seq)

  abbrev pub is_complete : Option RawPingEventMetadata → Option (RawTcpPingEventData L) → Bool
  is_complete m none = false
  is_complete m (some data_of) = is_detailed m data_of.type_of data_of.details

  numbered_lem :
      (from_empty target_empty : Bool) (sent_from target : String)
      (d : RawTcpPingEventDataDetails L) (ttl seq : Option ℕ)
      → is_some
          (if from_empty || target_empty then none else tcp_numbered sent_from target d ttl seq)
        ≡ (not from_empty && not target_empty) && (is_some ttl && is_some seq)
  numbered_lem true b f t d ttl seq = refl
  numbered_lem false true f t d ttl seq = refl
  numbered_lem false false f t d none seq = refl
  numbered_lem false false f t d (some ttl) none = refl
  numbered_lem false false f t d (some ttl) (some seq) = refl

  detailed_lem :
      (m : Option RawPingEventMetadata) (t : TcpEventType)
      (o : Option (RawTcpPingEventDataDetails L))
      → is_some (field_of o (tcp_detailed (sent_from_of m) (target_of m) t)) ≡ is_detailed m t o
  detailed_lem m t none = refl
  detailed_lem m timeout (some d) = refl
  detailed_lem m received (some d) =
      numbered_lem (sent_from_of m == "") (target_of m == "") (sent_from_of m) (target_of m) d
        d.sent_ttl d.seq

  complete_lem :
      (m : Option RawPingEventMetadata) (o : Option (RawTcpPingEventData L))
      → is_some (
          field_of o λ data_of.
            field_of data_of.details (tcp_detailed (sent_from_of m) (target_of m) data_of.type_of))
        ≡ is_complete m o
  complete_lem m none = refl
  complete_lem m (some data_of) = detailed_lem m data_of.type_of data_of.details

  -- An event of a TCP ping becomes a sample exactly if it has details and, where a packet was
  -- received, both names, the time to live and the sequence number.
  pub is_some-ping_sample_from_tcp_event :
      (event : RawPingEvent (RawTcpPingEventData L))
      → is_some (ping_sample_from_tcp_event event) ≡ is_complete event.metadata event.data_of
  unfolding ping_sample_from_tcp_event
  is_some-ping_sample_from_tcp_event event = complete_lem event.metadata event.data_of

  no_reply : (o : Option (List (RawPingEventIcmpReply L))) → is_empty o ≡ true → last_reply o ≡ none
  no_reply none h = refl
  no_reply (some []) h = refl
  no_reply (some (r ∷ rs)) h = absurd (ground arith)

  -- An event of an ICMP ping with a sequence number becomes a sample with this number; if the sample
  -- is a timeout, it has nothing that only a reply tells.
  pub ping_sample_from_event_lem :
      (event : RawPingEvent (RawPingEventData L)) (d : RawPingEventData L) (seq : ℕ)
      → event.data_of ≡ some d
      → d.seq ≡ some seq
      → (s : PingSample L) × (ping_sample_from_event event ≡ some s)
        × (s.seq ≡ seq)
        × (s.is_timeout ≡ is_empty d.raw)
        × ((s.is_timeout ≡ false)
            ⊎ ((s.peer ≡ none) × (s.received_ttl ≡ none) × (s.received_size ≡ none)))
  unfolding ping_sample_from_event
  ping_sample_from_event_lem event d seq has_data has_seq =
      let m = event.metadata in
      let reply = last_reply d.raw in
      (
        sample_of m (some d) reply seq,
        ap
              (λ o.
                field_of (field_of o (λ d. d.seq))
                  λ n. some (sample_of m o (last_reply (field_of o (λ d. d.raw))) n))
              has_data
            ∙ ap (λ o. field_of o (λ n. some (sample_of m (some d) reply n))) has_seq,
        refl,
        refl,
        elim (Bool-cases (is_empty d.raw)) [
          | inl e ↦
              let gone = no_reply d.raw e in
              inr (
                ap (λ r. field_of r (λ r. r.peer)) gone,
                ap (λ r. field_of r (λ r. r.ttl)) gone,
                ap (λ r. field_of r (λ r. r.size)) gone,
              )
          | inr e ↦ inl e
        ],
      )

module _ {L J : Type 0} (json_parse : Text → Option J)
    (tcp_event : J → RawPingEvent (RawTcpPingEventData L))
    (ping_event : J → RawPingEvent (RawPingEventData L)) where
  -- If two ways to cut a response into chunks give the same text, they give the same samples.
  pub generate_ping_sample_stream-join :
      (is_tcp : Bool) (chunks cut : List Text)
      → join chunks ≡ join cut
      → generate_ping_sample_stream json_parse tcp_event ping_event is_tcp chunks
        ≡ generate_ping_sample_stream json_parse tcp_event ping_event is_tcp cut
  unfolding generate_ping_sample_stream
  generate_ping_sample_stream-join is_tcp chunks cut e =
      ap
        (λ tokens.
          adapt (sample_from json_parse tcp_event ping_event is_tcp)
            (decode_lines json_parse tokens))
        (tokenize-lines_of chunks ∙ ap lines_of e ∙ sym (tokenize-lines_of cut))
