-- ===== src/IpQuery/Answers.antt =====
-- ip-query.ts: what the map holds for each provider once the stream has ended.
use rbmq_demo.Common.{
  String, Option, none, some, List, [], ◌∷◌, ◌++◌, map, filter, Bool, true, false, ◌||◌, ◌==◌,
  string_key, if◌then◌else◌, ◌≡◌, refl, sym, ap, ap₂, ◌∙◌, arith, Bool-cases, Option-cases, inl,
  inr, append_assoc, append-nil,
}
use rbmq_demo.Common.Dict.{get, set, get-set}
use rbmq_demo.Common.Groups.{foldl, group_from, get-foldl}
use rbmq_demo.IpQuery.{
  IpQueryResultEntry, ProviderIpQueryState, ProviderIpQueryMap, QueryRead, entry, done,
  contains_text, add_text, fresh_state, add_result, stop_running, either_error, write_entry,
  update_state, update_running, process_ip_query_stream, initial_states, use_ip_query_by_provider,
}

abbrev changed {ℓ} : {A : Type ℓ} → (A → A) → Option A → Option A
changed f none = none
changed f (some a) = some (f a)

abbrev not_empty {ℓ} : {A : Type ℓ} → List A → Bool
not_empty [] = false
not_empty (x ∷ xs) = true

contains_text_snoc :
    (q t : String) (texts : List String)
    → contains_text q (texts ++ t ∷ []) ≡ (t == q || contains_text q texts)
contains_text_snoc q t [] = refl
contains_text_snoc q t (s ∷ ss) =
    ap (λ b. s == q || b) (contains_text_snoc q t ss)
    ∙ swapped (s == q) (t == q) (contains_text q ss)
  where
    swapped : (a b c : Bool) → (a || (b || c)) ≡ (b || (a || c))
    swapped true true c = refl
    swapped true false c = refl
    swapped false b c = refl

contains-add_text :
    (q t : String) (texts : List String)
    → contains_text q (add_text texts t) ≡ (t == q || contains_text q texts)
contains-add_text q t texts = elim (Bool-cases (contains_text t texts)) [
  | inl e ↦ rw e (elim (Bool-cases (t == q)) [
    | inl same ↦
        rw same (ap (λ u. contains_text u texts) (sym ((string_key.same_iff t q).0 same)) ∙ e)
    | inr other ↦ rw other refl
  ])
  | inr e ↦ rw e (contains_text_snoc q t texts)
]

module _ {L : Type 0} where
  -- The entries of a provider.
  abbrev pub answers : String → List (IpQueryResultEntry L) → List (IpQueryResultEntry L)
  answers p es = filter (λ e. e.sent_from == p) es

  -- The last error that some entries name, or the one before them.
  abbrev pub last_error : Option String → List (IpQueryResultEntry L) → Option String
  last_error before [] = before
  last_error before (e ∷ es) = elim e.err [
    | none ↦ last_error before es
    | some err ↦ last_error (some err) es
  ]

  -- The state of a provider after its entries and the end of the stream: untouched if there are
  -- none, else stopped, with the entries after the results that it had.
  abbrev pub after_answers :
      Option (ProviderIpQueryState L)
      → List (IpQueryResultEntry L)
      → Option (ProviderIpQueryState L)
  after_answers none [] = none
  after_answers (some s) [] = some s
  after_answers none (e ∷ es) =
      some (record { results = e ∷ es; is_running = false; error = last_error none (e ∷ es) })
  after_answers (some s) (e ∷ es) = some (record {
    results = s.results ++ e ∷ es;
    is_running = false;
    error = last_error s.error (e ∷ es);
  })

  stop_running-foldl :
      (s : ProviderIpQueryState L) (es : List (IpQueryResultEntry L))
      → stop_running (foldl add_result s es)
        ≡ record { results = s.results ++ es; is_running = false; error = last_error s.error es }
  stop_running-foldl s [] =
      ap (λ rs. record { results = rs; is_running = false; error = s.error })
        (sym (append-nil s.results))
  stop_running-foldl s (e ∷ es) =
      stop_running-foldl (add_result s e) es
      ∙ ap₂ (λ rs err. record { results = rs; is_running = false; error = err })
          (append_assoc s.results (e ∷ []) es) (with_error e.err)
    where
      with_error :
          (err : Option String)
          → last_error (either_error err s.error) es
            ≡ elim err [ none ↦ last_error s.error es | some t ↦ last_error (some t) es ]
      with_error none = refl
      with_error (some t) = refl

  get-update_state :
      (f : ProviderIpQueryState L → ProviderIpQueryState L) (m : ProviderIpQueryMap L)
      (p q : String)
      → get (update_state f m p) q ≡ (if p == q then changed f (get m q) else get m q)
  unfolding update_state
  get-update_state f m p q = elim (Option-cases (get m p)) [
    | inl e ↦ rw e (elim (Bool-cases (p == q)) [
      | inl same ↦
          let here = ap (get m) (sym ((string_key.same_iff p q).0 same)) ∙ e in
          rw same (here ∙ sym (ap (changed f) here))
      | inr other ↦ rw other refl
    ])
    | inr (s, e) ↦ rw e (
        get-set m p q (f s) ∙ elim (Bool-cases (p == q)) [
          | inl same ↦
              let here = ap (get m) (sym ((string_key.same_iff p q).0 same)) ∙ e in
              rw same (sym (ap (changed f) here))
          | inr other ↦ rw other refl
        ])
  ]

  get-update_running :
      (f : ProviderIpQueryState L → ProviderIpQueryState L)
      → ((s : ProviderIpQueryState L) → f (f s) ≡ f s)
      → (running : List String) (m : ProviderIpQueryMap L) (q : String)
      → get (update_running f m running) q
        ≡ (if contains_text q running then changed f (get m q) else get m q)
  get-update_running f twice [] m q = refl
  get-update_running f twice (p ∷ ps) m q =
      get-update_running f twice ps (update_state f m p) q
      ∙ ap (λ o. if contains_text q ps then changed f o else o) (get-update_state f m p q)
      ∙ again (p == q) (contains_text q ps) (get m q)
    where
      again :
          (b c : Bool) (o : Option (ProviderIpQueryState L))
          → (if c then changed f (if b then changed f o else o) else if b then changed f o else o)
            ≡ (if b || c then changed f o else o)
      again true true none = refl
      again true true (some s) = ap some (twice s)
      again true false o = refl
      again false c o = refl

  contains-running :
      (es : List (IpQueryResultEntry L)) (running : List String) (q : String)
      → contains_text q (foldl (λ r e. add_text r e.sent_from) running es)
        ≡ (contains_text q running || not_empty (answers q es))
  contains-running [] running q = ground arith
  contains-running (e ∷ es) running q =
      contains-running es (add_text running e.sent_from) q
      ∙ ap (λ b. b || not_empty (answers q es)) (contains-add_text q e.sent_from running)
      ∙ elim (Bool-cases (e.sent_from == q)) [
        | inl same ↦ rw same (or_true (contains_text q running))
        | inr other ↦ rw other refl
      ]
    where
      or_true : (b : Bool) → true ≡ (b || true)
      or_true true = refl
      or_true false = refl

  process_entries :
      (es : List (IpQueryResultEntry L)) (m : ProviderIpQueryMap L) (running : List String)
      (reads : List (QueryRead L))
      → process_ip_query_stream m running (map entry es ++ reads)
        ≡ process_ip_query_stream
            (foldl write_entry m es)
            (foldl (λ r e. add_text r e.sent_from) running es)
            reads
  unfolding process_ip_query_stream
  process_entries [] m running reads = refl
  process_entries (e ∷ es) m running reads =
      process_entries es (write_entry m e) (add_text running e.sent_from) reads

  ended :
      (o : Option (ProviderIpQueryState L)) (p : String) (es : List (IpQueryResultEntry L))
      → (if not_empty es
          then changed stop_running
              (group_from (λ e. e.sent_from) (λ p. fresh_state) add_result p o es)
          else group_from (λ e. e.sent_from) (λ p. fresh_state) add_result p o es)
        ≡ after_answers o es
  ended none p [] = refl
  ended (some s) p [] = refl
  ended none p (e ∷ es) = ap some (stop_running-foldl fresh_state (e ∷ es))
  ended (some s) p (e ∷ es) = ap some (stop_running-foldl s (e ∷ es))

  -- When the stream has ended after some entries, a provider with entries has its own, in their
  -- order, after the results that it had, has stopped running, and has the last error that they
  -- name, or the one that it had if they name none; a provider without any is as it was before.
  pub process_ip_query_stream-done :
      (es : List (IpQueryResultEntry L)) (m : ProviderIpQueryMap L) (p : String)
      → get (process_ip_query_stream m [] (map entry es ++ done ∷ [])) p
        ≡ after_answers (get m p) (answers p es)
  unfolding process_ip_query_stream write_entry
  process_ip_query_stream-done es m p =
      ap (λ n. get n p) (process_entries es m [] (done ∷ []))
      ∙ get-update_running stop_running (λ s. refl) (foldl (λ r e. add_text r e.sent_from) [] es)
          (foldl write_entry m es) p
      ∙ ap₂ (λ b o. if b then changed stop_running o else o) (contains-running es [] p)
          (get-foldl (λ e. e.sent_from) (λ p. fresh_state) add_result es m p)
      ∙ ended (get m p) p (answers p es)

  get-initial_states :
      (ps : List String) (m : ProviderIpQueryMap L) (p : String)
      → get (foldl (λ m p. set m p fresh_state) m ps) p
        ≡ (if contains_text p ps then some fresh_state else get m p)
  get-initial_states [] m p = refl
  get-initial_states (q ∷ ps) m p =
      get-initial_states ps (set m q fresh_state) p
      ∙ ap (λ o. if contains_text p ps then some fresh_state else o) (get-set m q p fresh_state)
      ∙ either (q == p) (contains_text p ps) (get m p)
    where
      either :
          (b c : Bool) (o : Option (ProviderIpQueryState L))
          → (if c then some fresh_state else if b then some fresh_state else o)
            ≡ (if b || c then some fresh_state else o)
      either true true o = refl
      either true false o = refl
      either false c o = refl

  -- A provider that is asked and sends no entry goes on saying that it runs after the end of the
  -- stream.
  pub use_ip_query_by_provider_silent :
      (ip : String) (ips providers : List String) (es : List (IpQueryResultEntry L)) (p : String)
      → contains_text p providers ≡ true
      → answers p es ≡ []
      → get (use_ip_query_by_provider (ip ∷ ips) providers (map entry es ++ done ∷ [])) p
        ≡ some fresh_state
  unfolding use_ip_query_by_provider
  use_ip_query_by_provider_silent ip ips providers es p asked silent =
      process_ip_query_stream-done es (initial_states providers) p
      ∙ ap₂ after_answers
          (get-initial_states providers [] p
            ∙ ap (λ b. if b then some fresh_state else get [] p) asked)
          silent
