-- ===== src/HttpProbe/Labels.antt =====
-- httpprobe.ts: which events become objects, and what these say.
use rbmq_demo.Common.{
  ℕ, zero, suc, String, Option, none, some, [], ◌∷◌, true, false, not, ◌||◌, ◌==◌, string_key,
  nat_beq, if◌then◌else◌, ◌≡◌, ◌≢◌, ◌⊎◌, refl, sym, ap, subst, ◌∙◌, Bool-cases, inl, inr, arith,
}
use rbmq_demo.Common.Decimal.{texts, number_text}
use rbmq_demo.Common.Integers.{ℤ, pos, negsuc, is_zero}
use rbmq_demo.Trace.{RawPingEvent, is_set, or_else}
use rbmq_demo.Samples.{field_of}
use rbmq_demo.HttpProbe.{HttpProbeEvent, EventObject, transport_field, dated_object, convert}

-- A text that is there and not empty.
abbrev pub IsText : Option String → String → Type 0
IsText o text = (o ≡ some text) × (text ≢ "")

abbrev NoText : Option String → Type 0
NoText o = (text : String) → ¬ (IsText o text)

not_empty : (t : String) → (t == "") ≡ false → t ≢ ""
not_empty t e h = let k = (string_key.same_iff t "").1 h in ground (arith, e, k)

IsText-cases :
    (o : Option String)
    → ((is_set o ≡ true) × ((text : String) × IsText o text)) ⊎ ((is_set o ≡ false) × NoText o)
IsText-cases none = inr (refl, λ text h. ground (arith, h.0))
IsText-cases (some t) = elim (Bool-cases (t == "")) [
  | inl e ↦
      let empty : t ≡ "" = (string_key.same_iff t "").0 e in
      inr (rw e refl, λ text h. h.1 (sym (ap (λ o. or_else o "") h.0) ∙ empty))
  | inr e ↦ inl (rw e refl, (t, (refl, not_empty t e)))
]

abbrev pub error_of : RawPingEvent HttpProbeEvent → Option String
error_of raw = field_of raw.data_of (λ d. d.error)

module _ (date_parse : String → Option ℤ) (now : ℤ) where
  -- The node, the correlation and the time that an event names.
  abbrev pub Names : RawPingEvent HttpProbeEvent → String → String → ℤ → Type 0
  Names raw sent_from corr_id time =
      IsText (field_of raw.metadata (λ m. m.sent_from)) sent_from
      × IsText (field_of raw.data_of (λ d. d.correlation_id)) corr_id
      × ((date : String) × (IsText (transport_field raw.data_of (λ t. t.date)) date
            × (date_parse date ≡ some time)))

  abbrev pub or_now : ℤ → ℤ
  or_now (pos zero) = now
  or_now (pos (suc n)) = pos (suc n)
  or_now (negsuc n) = negsuc n

  -- The object of an error has its text, and the present where the time is 0.
  abbrev pub IsErrorObject : String → ℤ → ℕ → EventObject → Type 0
  unfolding number_text
  IsErrorObject error time idx o =
      (o.id ≡ texts ("err-" ∷ number_text idx ∷ []))
      × (o.message ≡ error)
      × (o.timestamp ≡ or_now time)

  -- The object of any other event has the name and the value of the event.
  abbrev pub IsEventObject :
      RawPingEvent HttpProbeEvent → String → String → ℤ → ℕ → EventObject → Type 0
  unfolding number_text
  IsEventObject raw sent_from corr_id time idx o =
      (o.id ≡ texts (sent_from ∷ ":" ∷ corr_id ∷ ":" ∷ number_text idx ∷ []))
      × (o.message
          ≡ texts (
              or_else (transport_field raw.data_of (λ t. t.name)) ""
              ∷ ": "
              ∷ or_else (transport_field raw.data_of (λ t. t.value)) ""
              ∷ []))
      × (o.timestamp ≡ time)

  abbrev pub IsObjectOf : RawPingEvent HttpProbeEvent → ℕ → Option EventObject → Type 0
  IsObjectOf raw idx none =
      (sent_from corr_id : String) (time : ℤ) → ¬ (Names raw sent_from corr_id time)
  IsObjectOf raw idx (some o) =
      (sent_from : String) × ((corr_id : String) × ((time : ℤ) × (Names raw sent_from corr_id time
            × (o.labels ≡ ("from", sent_from) ∷ ("correlationId", corr_id) ∷ [])
            × (((error : String) × (IsText (error_of raw) error × IsErrorObject error time idx o))
                ⊎ (((error : String) → ¬ (IsText (error_of raw) error))
                    × IsEventObject raw sent_from corr_id time idx o)))))

  zero_or_now : (time : ℤ) → (if is_zero time then now else time) ≡ or_now time
  zero_or_now (pos zero) = refl
  zero_or_now (pos (suc n)) =
      let not_zero : nat_beq (suc n) 0 ≡ false = ground arith in rw not_zero refl
  zero_or_now (negsuc n) = refl

  -- `convert` by the three texts that it reads.
  abbrev guarded :
      RawPingEvent HttpProbeEvent
      → ℕ
      → Option String
      → Option String
      → Option String
      → Option EventObject
  unfolding number_text
  guarded raw idx s c d =
      if not (is_set s) || not (is_set c) || not (is_set d)
      then none
      else dated_object date_parse now raw.data_of (or_else s "") (or_else c "") idx
          (date_parse (or_else d ""))

  set_text : (o : Option String) (t : String) → IsText o t → is_set o ≡ true
  set_text o t h = elim (IsText-cases o) [ inl k ↦ k.0 | inr k ↦ absurd (k.1 t h) ]

  guarded_set :
      (raw : RawPingEvent HttpProbeEvent) (idx : ℕ) (so co d : Option String)
      (sent_from corr_id date : String)
      → IsText so sent_from
      → IsText co corr_id
      → IsText d date
      → guarded raw idx so co d
        ≡ dated_object date_parse now raw.data_of sent_from corr_id idx (date_parse date)
  unfolding guarded
  guarded_set raw idx so co d sent_from corr_id date hs hc hd =
      rw (set_text so sent_from hs, set_text co corr_id hc, set_text d date hd)
        (rw (hs.0, hc.0, hd.0) refl)

  dated_object-IsObjectOf :
      (raw : RawPingEvent HttpProbeEvent) (idx : ℕ) (sent_from corr_id : String) (time : ℤ)
      → Names raw sent_from corr_id time
      → IsObjectOf raw idx
          (dated_object date_parse now raw.data_of sent_from corr_id idx (some time))
  unfolding number_text
  dated_object-IsObjectOf raw idx sent_from corr_id time names =
      elim (IsText-cases (error_of raw)) [
        | inl (e, (error, h)) ↦ rw e (
          sent_from,
          (
            corr_id,
            (
              time,
              (names, refl, inl (error, (h, (refl, ap (λ o. or_else o "") h.0, zero_or_now time)))),
            ),
          ),
        )
        | inr (e, h) ↦
            rw e (sent_from, (corr_id, (time, (names, refl, inr (h, (refl, refl, refl))))))
      ]

  -- An event becomes an object exactly if it names its node and its correlation and has a date that
  -- can be read. The object is labelled with the two names. If the event has an error, the object
  -- has its text, the number of the event and the time, or the present for the time 0; else it has
  -- the name and the value of the event, the two names and the number, and the time.
  pub convert-IsObjectOf :
      (raw : RawPingEvent HttpProbeEvent) (idx : ℕ)
      → IsObjectOf raw idx (convert date_parse now raw idx)
  unfolding convert guarded
  convert-IsObjectOf raw idx =
      let so : Option String = field_of raw.metadata (λ m. m.sent_from) in
      let co : Option String = field_of raw.data_of (λ d. d.correlation_id) in
      let d : Option String = transport_field raw.data_of (λ t. t.date) in
      elim (IsText-cases so) [
        | inr (e, h) ↦ rw e (λ s c t names. h s names.0)
        | inl (es, (s, hs)) ↦ elim (IsText-cases co) [
          | inr (e, h) ↦ rw (es, e) (λ s c t names. h c names.1)
          | inl (ec, (c, hc)) ↦ elim (IsText-cases d) [
            | inr (e, h) ↦ rw (es, ec, e) (λ s c t names. h names.2.0 names.2.1.0)
            | inl (ed, (date, hd)) ↦
                subst (IsObjectOf raw idx) (sym (guarded_set raw idx so co d s c date hs hc hd))
                  (read raw idx s c date hs hc hd (date_parse date) refl)
          ]
        ]
      ]
    where
      read :
          (raw : RawPingEvent HttpProbeEvent) (idx : ℕ) (s c date : String)
          → IsText (field_of raw.metadata (λ m. m.sent_from)) s
          → IsText (field_of raw.data_of (λ d. d.correlation_id)) c
          → IsText (transport_field raw.data_of (λ t. t.date)) date
          → (o : Option ℤ) → date_parse date ≡ o
          → IsObjectOf raw idx (dated_object date_parse now raw.data_of s c idx o)
      read raw idx s c date hs hc hd none e = λ s c t names.
          let same : date ≡ names.2.0 = ap (λ o. or_else o "") (sym hd.0 ∙ names.2.1.0.0) in
          let found : none ≡ some t = sym e ∙ ap date_parse same ∙ names.2.1.1 in
          ground (arith, found)
      read raw idx s c date hs hc hd (some time) e =
          dated_object-IsObjectOf raw idx s c time (hs, hc, (date, (hd, e)))
