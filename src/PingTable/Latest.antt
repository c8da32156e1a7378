-- ===== src/PingTable/Latest.antt =====
-- web/components/pingdisplay.tsx: what a cell shows after any samples.
use rbmq_demo.Common.{
  ◌≡◌, refl, ap, sym, ◌∙◌, String, Option, none, some, List, [], ◌∷◌, Bool, true, false, ◌&&◌, ◌==◌,
  string_key, filter, Bool-cases, inl, inr, if◌then◌else◌, arith, both_true, ap₂, ◌≢◌, ◌⊎◌,
}
use rbmq_demo.Common.Cells.{get_cell, set_cell, get_cell-set_cell, or_empty}
use rbmq_demo.Common.Dict.{Assoc, get}
use rbmq_demo.Samples.{PingSample, field_of}
use rbmq_demo.PingTable.{
  TableCellData, TableCellDataMap, LatestData, cell_of, update_cell, samples_of,
  update_table_cell_data_map, get_latest_data_from_map, read_samples,
}

module _ {L : Type 0} where
  -- What is shown of samples, the newest first.
  abbrev pub shown_of : List (PingSample L) → LatestData L
  shown_of [] = record { datum = none; latency = none; mss = none; history_samples = [] }
  shown_of (s ∷ ss) = record {
    datum = some s;
    latency = s.latency_ns;
    mss = s.mss;
    history_samples = s ∷ ss;
  }

  abbrev pub is_of : String → String → PingSample L → Bool
  is_of target source s = s.target == target && s.sent_from == source

  -- The samples on top of older ones, the newest first.
  abbrev pub newest_first : List (PingSample L) → List (PingSample L) → List (PingSample L)
  newest_first [] older = older
  newest_first (s ∷ ss) older = newest_first ss (s ∷ older)

  update_cell-new_map :
      (m : TableCellDataMap L) (s : PingSample L) (row : Option (Assoc String (TableCellData L)))
      (cell : Option (TableCellData L))
      → get m s.target ≡ row
      → get_cell m s.target s.sent_from ≡ cell
      → (update_cell m s row cell).new_map
        ≡ set_cell m s.target s.sent_from (cell_of s (samples_of cell))
  unfolding get
  update_cell-new_map m s none none e h = refl
  update_cell-new_map m s (some row) none e h = refl
  update_cell-new_map m s (some row) (some cell) e h = refl
  update_cell-new_map m s none (some cell) e h =
      absurd (none-ne-some cell (ap (λ r. get (or_empty r) s.sent_from) (sym e) ∙ h))
    where
      none-ne-some : (c : TableCellData L) → none ≢ some c
      none-ne-some c = ground arith

  pub new_map-cell :
      (m : TableCellDataMap L) (s : PingSample L)
      → (update_table_cell_data_map m s).new_map
        ≡ set_cell m s.target s.sent_from (cell_of s (samples_of (get_cell m s.target s.sent_from)))
  unfolding update_table_cell_data_map
  new_map-cell m s =
      update_cell-new_map m s (get m s.target) (get_cell m s.target s.sent_from) refl refl

  latest_of_cell : Option (TableCellData L) → LatestData L
  latest_of_cell cell = record {
    datum = field_of cell (λ c. some c.latest_sample);
    latency = field_of cell (λ c. c.latest_latency);
    mss = field_of cell (λ c. c.latest_mss);
    history_samples = samples_of cell;
  }

  -- One sample changes its own cell only.
  pub get_latest-update :
      (m : TableCellDataMap L) (s : PingSample L) (target source : String)
      → get_latest_data_from_map (update_table_cell_data_map m s).new_map target source ≡ (
          if is_of target source s
          then shown_of (s ∷ (get_latest_data_from_map m target source).history_samples)
          else get_latest_data_from_map m target source)
  unfolding get_latest_data_from_map latest_of_cell
  get_latest-update m s target source =
      ap (λ n. latest_of_cell (get_cell n target source)) (new_map-cell m s)
      ∙ ap latest_of_cell (
          get_cell-set_cell m s.target target s.sent_from source
            (cell_of s (samples_of (get_cell m s.target s.sent_from))))
      ∙ own (Bool-cases (is_of target source s))
    where
      own :
          ((is_of target source s) ≡ true) ⊎ ((is_of target source s) ≡ false)
          → latest_of_cell (
              if is_of target source s
              then some (cell_of s (samples_of (get_cell m s.target s.sent_from)))
              else get_cell m target source)
            ≡ (if is_of target source s
                then shown_of (s ∷ (get_latest_data_from_map m target source).history_samples)
                else get_latest_data_from_map m target source)
      own (inl e) =
          let both : (s.target == target ≡ true) × (s.sent_from == source ≡ true) =
            both_true (s.target == target) (s.sent_from == source) e in
          let at : s.target ≡ target = (string_key.same_iff s.target target).0 both.0 in
          let by : s.sent_from ≡ source = (string_key.same_iff s.sent_from source).0 both.1 in
          rw e (ap₂ (λ a b. shown_of (s ∷ samples_of (get_cell m a b))) at by)
      own (inr e) = rw e refl

  read_samples_from :
      (target source : String) (samples older : List (PingSample L)) (m : TableCellDataMap L)
      → get_latest_data_from_map m target source ≡ shown_of older
      → get_latest_data_from_map (read_samples m samples) target source
        ≡ shown_of (newest_first (filter (is_of target source) samples) older)
  unfolding read_samples
  read_samples_from target source [] older m h = h
  read_samples_from target source (s ∷ samples) older m h =
      elim (Bool-cases (is_of target source s)) [
        | inl e ↦ rw e (
            read_samples_from target source samples (s ∷ older) _ (
              get_latest-update m s target source
              ∙ rw e (ap (λ d. shown_of (s ∷ d.history_samples)) h ∙ shown_again older)))
        | inr e ↦ rw e (
            read_samples_from target source samples older _
              (get_latest-update m s target source ∙ rw e h))
      ]
    where
      shown_again :
          (older : List (PingSample L))
          → shown_of (s ∷ (shown_of older).history_samples) ≡ shown_of (s ∷ older)
      shown_again [] = refl
      shown_again (o ∷ os) = refl

  -- After any samples the cell of a target and a source shows the samples of these two, the newest
  -- first, and the newest one's latency and segment size, and no other sample.
  pub get_latest-read_samples :
      (target source : String) (samples : List (PingSample L))
      → get_latest_data_from_map (read_samples [] samples) target source
        ≡ shown_of (newest_first (filter (is_of target source) samples) [])
  get_latest-read_samples target source samples =
      read_samples_from target source samples [] [] (unfold get_latest_data_from_map in refl)
