-- ===== src/PingTable/Replay.antt =====
-- web/components/pingdisplay.tsx: the update run again on the map that it was given, as React runs
-- an updater twice in development.
use rbmq_demo.Common.{
  ◌≡◌, refl, ap, ◌∙◌, String, Option, none, some, List, [], ◌∷◌, Bool, true, false, ◌&&◌, not,
  ==_self, string_key, if◌then◌else◌,
}
use rbmq_demo.Common.Cells.{get_cell, get_cell-set_cell}
use rbmq_demo.Common.Dict.{Assoc, get, is_some}
use rbmq_demo.Samples.{PingSample}
use rbmq_demo.PingTable.{
  TableCellData, TableCellDataMap, cell_of, update_cell, samples_of, update_table_cell_data_map,
  get_latest_data_from_map,
}
use rbmq_demo.PingTable.Latest.{get_latest-update}

module _ {L : Type 0} where
  -- The target has a row, and the source has no cell in it.
  abbrev pub shares_row : Option (Assoc String (TableCellData L)) → Option (TableCellData L) → Bool
  shares_row row cell = is_some row && not (is_some cell)

  update_cell-prev :
      (m : TableCellDataMap L) (s : PingSample L) (row : Option (Assoc String (TableCellData L)))
      (cell : Option (TableCellData L))
      → get_cell m s.target s.sent_from ≡ cell
      → samples_of (get_cell (update_cell m s row cell).prev s.target s.sent_from)
        ≡ (if shares_row row cell then s ∷ [] else samples_of cell)
  update_cell-prev m s none none h = ap samples_of h
  update_cell-prev m s none (some cell) h = ap samples_of h
  update_cell-prev m s (some row) (some cell) h = ap samples_of h
  update_cell-prev m s (some row) none h =
      ap samples_of (get_cell-set_cell m s.target s.target s.sent_from s.sent_from (cell_of s []))
      ∙ rw (==_self s.target, ==_self s.sent_from) refl

  abbrev pub history_at : TableCellDataMap L → String → String → List (PingSample L)
  history_at m target source = (get_latest_data_from_map m target source).history_samples

  history-update :
      (m : TableCellDataMap L) (s : PingSample L)
      → history_at (update_table_cell_data_map m s).new_map s.target s.sent_from
        ≡ s ∷ history_at m s.target s.sent_from
  history-update m s =
      ap (λ d. d.history_samples) (get_latest-update m s s.target s.sent_from)
      ∙ rw (==_self s.target, ==_self s.sent_from) refl

  history-prev :
      (m : TableCellDataMap L) (s : PingSample L)
      → history_at (update_table_cell_data_map m s).prev s.target s.sent_from ≡ (
          if shares_row (get m s.target) (get_cell m s.target s.sent_from)
          then s ∷ []
          else history_at m s.target s.sent_from)
  unfolding get_latest_data_from_map update_table_cell_data_map
  history-prev m s = update_cell-prev m s (get m s.target) (get_cell m s.target s.sent_from) refl

  -- The update run again on the map that it was given puts the sample on the history that the
  -- cell had, except where the target has a row without the source: there the first run has
  -- written to that map, and the sample is in the history twice.
  pub update_replayed :
      (m : TableCellDataMap L) (s : PingSample L)
      → let again = update_table_cell_data_map (update_table_cell_data_map m s).prev s in
        history_at again.new_map s.target s.sent_from ≡ (
          if shares_row (get m s.target) (get_cell m s.target s.sent_from)
          then s ∷ s ∷ []
          else s ∷ history_at m s.target s.sent_from)
  update_replayed m s =
      history-update (update_table_cell_data_map m s).prev s
      ∙ ap (◌∷◌ s) (history-prev m s)
      ∙ under_test (shares_row (get m s.target) (get_cell m s.target s.sent_from))
    where
      under_test :
          (b : Bool)
          → s ∷ (if b then s ∷ [] else history_at m s.target s.sent_from)
            ≡ (if b then s ∷ s ∷ [] else s ∷ history_at m s.target s.sent_from)
      under_test true = refl
      under_test false = refl
