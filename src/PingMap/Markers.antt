-- ===== src/PingMap/Markers.antt =====
-- web/components/pingdisplay.tsx: the one marker of an address at a distance.
use rbmq_demo.Common.{
  ℕ, ◌≡◌, refl, sym, ap, ◌∙◌, String, Option, none, some, List, [], ◌∷◌, ◌++◌, true, false, ◌==◌,
  string_key, filter, filter-append, append-nil, Bool-cases, inl, inr, if◌then◌else◌, arith,
}
use rbmq_demo.Common.Groups.{foldl}
use rbmq_demo.Common.Options.{◌>>=◌}
use rbmq_demo.Samples.{PingSample}
use rbmq_demo.TraceMap.{Marker}
use rbmq_demo.PingTable.{read_samples}
use rbmq_demo.PingTable.Latest.{is_of, newest_first, shown_of, get_latest-read_samples}
use rbmq_demo.PingMap.{
  same_index, has_index, any_index, other_index, push_marker, push_if, index_of_sample, marker_of,
  sample_marker_of, update_markers, all_markers,
}

module _ {A : Type 0} where
  -- The last one, if there is one.
  abbrev pub last_of : List A → List A
  last_of [] = []
  last_of (x ∷ []) = x ∷ []
  last_of (x ∷ y ∷ ys) = last_of (y ∷ ys)

  abbrev pub first_of : List A → List A
  first_of [] = []
  first_of (x ∷ xs) = x ∷ []

  abbrev pub or_these : List A → List A → List A
  or_these [] ys = ys
  or_these (x ∷ xs) ys = x ∷ xs

  these-nil : (xs : List A) → xs ≡ or_these xs []
  these-nil [] = refl
  these-nil (x ∷ xs) = refl

  or_these-last_of :
      (x : A) (xs ys zs : List A) → or_these (last_of (x ∷ xs)) ys ≡ or_these (last_of (x ∷ xs)) zs
  or_these-last_of x [] ys zs = refl
  or_these-last_of x (y ∷ xs) ys zs = or_these-last_of y xs ys zs

  last_of-cons :
      (x : A) (xs ys : List A) → or_these (last_of xs) (x ∷ []) ≡ or_these (last_of (x ∷ xs)) ys
  last_of-cons x [] ys = refl
  last_of-cons x (y ∷ xs) ys = or_these-last_of y xs (x ∷ []) ys

  last_of-first_of :
      (x : A) (xs ys : List A)
      → or_these (last_of (x ∷ xs)) (first_of ys) ≡ or_these (last_of xs) (first_of (x ∷ ys))
  last_of-first_of x [] ys = refl
  last_of-first_of x (y ∷ xs) ys = or_these-last_of y xs (first_of ys) (x ∷ [])

same_index-apart :
    (index other : String) (o : Option String)
    → (other == index) ≡ false
    → same_index o other ≡ true
    → same_index o index ≡ false
same_index-apart index other none apart h = ground arith
same_index-apart index other (some i) apart h =
    let same : i ≡ other = (string_key.same_iff i other).0 h in ap (λ j. j == index) same ∙ apart

module _ {L : Type 0} (index : String) where
  filter-other :
      (ms : List (Marker L)) → filter (has_index index) (filter (other_index index) ms) ≡ []
  filter-other [] = refl
  filter-other (m ∷ ms) = elim (Bool-cases (has_index index m)) [
    | inl e ↦ rw e (filter-other ms)
    | inr e ↦ rw (e, e) (filter-other ms)
  ]

  filter-any_index :
      (ms : List (Marker L)) → any_index index ms ≡ false → filter (has_index index) ms ≡ []
  filter-any_index [] h = refl
  filter-any_index (m ∷ ms) h = elim (Bool-cases (has_index index m)) [
    | inl e ↦ ground (arith, e, h)
    | inr e ↦ rw e (filter-any_index ms (ground (arith, e, h)))
  ]

  filter-apart :
      (other : String) (ms : List (Marker L))
      → (other == index) ≡ false
      → filter (has_index index) (filter (other_index other) ms) ≡ filter (has_index index) ms
  filter-apart other [] apart = refl
  filter-apart other (m ∷ ms) apart = elim (Bool-cases (has_index other m)) [
    | inl e ↦ rw (e, same_index-apart index other m.index apart e) (filter-apart other ms apart)
    | inr e ↦ rw e (elim (Bool-cases (has_index index m)) [
      | inl a ↦ rw a (ap (◌∷◌ m) (filter-apart other ms apart))
      | inr a ↦ rw a (filter-apart other ms apart)
    ])
  ]

  filter-left_over :
      (other : String) (ms : List (Marker L))
      → filter (has_index index) (if any_index other ms then filter (other_index other) ms else ms)
        ≡ (if other == index then [] else filter (has_index index) ms)
  filter-left_over other ms = elim (Bool-cases (other == index)) [
    | inl e ↦
        let same : other ≡ index = (string_key.same_iff other index).0 e in
        rw e (
          rw same (elim (Bool-cases (any_index index ms)) [
            | inl a ↦ rw a (filter-other ms)
            | inr a ↦ rw a (filter-any_index ms a)
          ]))
    | inr e ↦ rw e (elim (Bool-cases (any_index other ms)) [
      | inl a ↦ rw a (filter-apart other ms e)
      | inr a ↦ rw a refl
    ])
  ]

  filter-push_marker :
      (other : String) (marker : Marker L) (ms : List (Marker L))
      → marker.index ≡ some other
      → filter (has_index index) (push_marker other marker ms)
        ≡ (if has_index index marker then marker ∷ [] else filter (has_index index) ms)
  filter-push_marker other marker ms named =
      filter-append (has_index index)
        (if any_index other ms then filter (other_index other) ms else ms) (marker ∷ [])
      ∙ ap (λ ns. ns ++ filter (has_index index) (marker ∷ [])) (filter-left_over other ms)
      ∙ (let at : has_index index marker ≡ (other == index) = ap (λ o. same_index o index) named in
          elim (Bool-cases (other == index)) [
            | inl e ↦ rw (e, at ∙ e) refl
            | inr e ↦ rw (e, at ∙ e) (append-nil (filter (has_index index) ms))
          ])

module _ {L : Type 0} (ratio : ℕ) (index : String) where
  -- The markers of the located samples that have this index, one for each.
  abbrev pub add_marked : Option (Marker L) → List (Marker L) → List (Marker L)
  add_marked none rest = rest
  add_marked (some m) rest = if has_index index m then m ∷ rest else rest

  abbrev pub marked : List (PingSample L) → List (Marker L)
  unfolding sample_marker_of
  marked [] = []
  marked (s ∷ samples) = let rest = marked samples in add_marked (sample_marker_of ratio s) rest

  index_in : Option (Marker L) → Option String
  index_in none = none
  index_in (some m) = m.index

  named_marker :
      (s : PingSample L) (loc : Option L) (latency : Option ℕ) (m : Marker L)
      → (loc >>= λ l. latency >>= λ n. some (marker_of ratio s l n)) ≡ some m
      → m.index ≡ some (index_of_sample s)
  unfolding marker_of index_in
  named_marker s none latency m h = ground arith
  named_marker s (some l) none m h = ground arith
  named_marker s (some l) (some n) m h = ap index_in (sym h)

  filter-push_if :
      (s : PingSample L) (o : Option (Marker L)) (ms : List (Marker L))
      → sample_marker_of ratio s ≡ o
      → filter (has_index index) (push_if (index_of_sample s) o ms)
        ≡ or_these (add_marked o []) (filter (has_index index) ms)
  filter-push_if s none ms h = refl
  filter-push_if s (some m) ms h =
      filter-push_marker index (index_of_sample s) m ms
        (named_marker s s.peer_exact_location s.latency_ns m (unfold sample_marker_of in h))
      ∙ elim (Bool-cases (has_index index m)) [ inl e ↦ rw e refl | inr e ↦ rw e refl ]

  or_these-add_marked :
      (o : Option (Marker L)) (rest base : List (Marker L))
      → or_these (last_of rest) (or_these (add_marked o []) base)
        ≡ or_these (last_of (add_marked o rest)) base
  or_these-add_marked none rest base = refl
  or_these-add_marked (some m) rest base = elim (Bool-cases (has_index index m)) [
    | inl e ↦ rw e (last_of-cons m rest base)
    | inr e ↦ rw e refl
  ]

  filter-foldl :
      (samples : List (PingSample L)) (ms : List (Marker L))
      → filter (has_index index) (foldl (update_markers ratio) ms samples)
        ≡ or_these (last_of (marked samples)) (filter (has_index index) ms)
  unfolding update_markers marked
  filter-foldl [] ms = refl
  filter-foldl (s ∷ samples) ms =
      filter-foldl samples (push_if (index_of_sample s) (sample_marker_of ratio s) ms)
      ∙ ap (or_these (last_of (marked samples)))
          (filter-push_if s (sample_marker_of ratio s) ms refl)
      ∙ or_these-add_marked (sample_marker_of ratio s) (marked samples)
          (filter (has_index index) ms)

  last_of-add_marked :
      (o : Option (Marker L)) (older rest : List (Marker L))
      → or_these (last_of (add_marked o older)) (first_of rest)
        ≡ or_these (last_of older) (first_of (add_marked o rest))
  last_of-add_marked none older rest = refl
  last_of-add_marked (some m) older rest = elim (Bool-cases (has_index index m)) [
    | inl e ↦ rw e (last_of-first_of m older rest)
    | inr e ↦ rw e refl
  ]

  -- The last of the newest first is the first of those that came.
  last_of-newest_first :
      (samples older : List (PingSample L))
      → last_of (marked (newest_first samples older))
        ≡ or_these (last_of (marked older)) (first_of (marked samples))
  unfolding marked
  last_of-newest_first [] older = these-nil (last_of (marked older))
  last_of-newest_first (s ∷ samples) older =
      last_of-newest_first samples (s ∷ older)
      ∙ last_of-add_marked (sample_marker_of ratio s) (marked older) (marked samples)

  history_samples-shown_of :
      (samples : List (PingSample L)) → (shown_of samples).history_samples ≡ samples
  history_samples-shown_of [] = refl
  history_samples-shown_of (s ∷ samples) = refl

  -- After any samples a source puts on the map for each index one marker at most: that of the
  -- first sample that came for the target and the source with a location and a latency under this
  -- index, and no later sample changes it.
  pub all_markers-oldest :
      (target source : String) (samples : List (PingSample L))
      → filter
          (has_index index)
          (all_markers ratio (read_samples [] samples) target [] (source ∷ []))
        ≡ first_of (marked (filter (is_of target source) samples))
  unfolding all_markers marked
  all_markers-oldest target source samples =
      let of_cell = filter (is_of target source) samples in
      ap (λ d. filter (has_index index) (foldl (update_markers ratio) [] d.history_samples))
        (get_latest-read_samples target source samples)
      ∙ ap (λ ss. filter (has_index index) (foldl (update_markers ratio) [] ss))
          (history_samples-shown_of (newest_first of_cell []))
      ∙ filter-foldl (newest_first of_cell []) []
      ∙ sym (these-nil (last_of (marked (newest_first of_cell []))))
      ∙ last_of-newest_first of_cell []
