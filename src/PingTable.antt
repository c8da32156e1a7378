-- ===== src/PingTable.antt =====
-- web/components/pingdisplay.tsx: the table of the samples of a ping task, a row for each target
-- and a cell for each source. Latencies are numbers of nanoseconds, as in Samples.
pub mod Latest
pub mod Replay
use rbmq_demo.Common.{
  ℕ, String, Option, none, some, List, [], ◌∷◌, Bool, true, false, ◌&&◌, string_key, leb, ltb,
  if◌then◌else◌,
}
use rbmq_demo.Common.Cells.{get_cell, set_cell, or_empty}
use rbmq_demo.Common.Dict.{Assoc, get, set}
use rbmq_demo.Samples.{PingSample, field_of}

module _ (L : Type 0) where
  pub record TableCellData : Type 0 where
    pub latest_latency : Option ℕ
    pub latest_mss : Option ℕ
    pub latest_sample : PingSample L
    pub samples : List (PingSample L)

  abbrev pub TableCellDataMap : Type 0
  TableCellDataMap = Assoc String (Assoc String TableCellData)

-- What `getLatestDataFromMap` returns.
pub record LatestData (L : Type 0) : Type 0 where
  pub datum : Option (PingSample L)
  pub latency : Option ℕ
  pub mss : Option ℕ
  pub history_samples : List (PingSample L)

-- The object that the caller holds after the call, and the object returned.
pub record Updated (L : Type 0) : Type 0 where
  pub prev : TableCellDataMap L
  pub new_map : TableCellDataMap L

module _ {L : Type 0} where
  abbrev pub cell_of : PingSample L → List (PingSample L) → TableCellData L
  cell_of sample earlier = record {
    latest_latency = sample.latency_ns;
    latest_mss = sample.mss;
    latest_sample = sample;
    samples = sample ∷ earlier;
  }

  -- A row that is there is the row of the previous map too, so writing to it changes both.
  abbrev pub update_cell :
      TableCellDataMap L
      → PingSample L
      → Option (Assoc String (TableCellData L))
      → Option (TableCellData L)
      → Updated L
  update_cell prev sample none cell = record {
    prev = prev;
    new_map = set_cell prev sample.target sample.sent_from (cell_of sample []);
  }
  update_cell prev sample (some row) none =
      let written : TableCellDataMap L =
        set_cell prev sample.target sample.sent_from (cell_of sample []) in
      record { prev = written; new_map = written }
  update_cell prev sample (some row) (some cell) = record {
    prev = prev;
    new_map = set_cell prev sample.target sample.sent_from (cell_of sample cell.samples);
  }

  unfoldable pub update_table_cell_data_map : TableCellDataMap L → PingSample L → Updated L
  unfolding get set
  update_table_cell_data_map prev sample =
      update_cell prev sample (get prev sample.target)
        (get_cell prev sample.target sample.sent_from)

  abbrev pub samples_of : Option (TableCellData L) → List (PingSample L)
  samples_of none = []
  samples_of (some cell) = cell.samples

  unfoldable pub get_latest_data_from_map : TableCellDataMap L → String → String → LatestData L
  unfolding get
  get_latest_data_from_map m target source =
      let cell : Option (TableCellData L) = get_cell m target source in
      record {
        datum = field_of cell (λ c. some c.latest_sample);
        latency = field_of cell (λ c. c.latest_latency);
        mss = field_of cell (λ c. c.latest_mss);
        history_samples = samples_of cell;
      }

  -- `setTableCellDataMap` for each sample that is read.
  unfoldable pub read_samples : TableCellDataMap L → List (PingSample L) → TableCellDataMap L
  unfolding update_table_cell_data_map
  read_samples m [] = m
  read_samples m (sample ∷ samples) =
      read_samples (update_table_cell_data_map m sample).new_map samples
