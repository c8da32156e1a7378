-- ===== src/Report/Build.antt =====
-- web/components/pingdisplay.tsx: the times of a report are those of the table.
use rbmq_demo.Common.{
  ℕ, ◌≡◌, refl, ap, sym, ◌∙◌, String, Option, none, some, List, [], ◌∷◌, Bool, true, false, ◌&&◌,
  ◌||◌, ◌==◌, string_key, Bool-cases, inl, inr, if◌then◌else◌, arith,
}
use rbmq_demo.Common.Cells.{get_cell, get_cell-set_cell, or_empty}
use rbmq_demo.Common.Dict.{Assoc, get, get-set, keys, is_some}
use rbmq_demo.IpQuery.{contains_text}
use rbmq_demo.PingTable.{TableCellData, TableCellDataMap}
use rbmq_demo.Report.{
  PendingTask, latency_at, write_rtt, with_row, copy_sources, copy_targets, build_ping_report,
}

-- A second write under another test.
either_test {ℓ} :
    {A : Type ℓ} (a b h v : Bool) (x y : A)
    → (if a && (h && v) then x else if a && (b && v) then x else y)
      ≡ (if a && ((b || h) && v) then x else y)
either_test false b h v x y = refl
either_test true true true v x y = under v
  where
    under : (v : Bool) → (if v then x else if v then x else y) ≡ (if v then x else y)
    under true = refl
    under false = refl
either_test true true false v x y = refl
either_test true false h v x y = refl

unchosen : (a : Bool) (x y : Option ℕ) → y ≡ (if a && false then x else y)
unchosen true x y = refl
unchosen false x y = refl

module _ (tgt src : String) (val : String → Option ℕ) (rtts : Assoc String (Assoc String ℕ)) where
  write_rtt-cell :
      (t f : String) (o : Option ℕ)
      → val src ≡ o
      → get_cell (write_rtt tgt src o rtts) t f
        ≡ (if tgt == t && (src == f && is_some (val f)) then val f else get_cell rtts t f)
  write_rtt-cell t f o e = elim (Bool-cases (src == f)) [
    | inl same ↦
        let at : val f ≡ o = ap val (sym ((string_key.same_iff src f).0 same)) ∙ e in
        rw (same, at) (own o same)
    | inr other ↦ rw other (away o other)
  ]
    where
      own :
          (o : Option ℕ)
          → (src == f) ≡ true
          → get_cell (write_rtt tgt src o rtts) t f
            ≡ (if tgt == t && is_some o then o else get_cell rtts t f)
      own none same = unchosen (tgt == t) _ _
      own (some n) same = get_cell-set_cell rtts tgt t src f n ∙ rw same refl

      away :
          (o : Option ℕ)
          → (src == f) ≡ false
          → get_cell (write_rtt tgt src o rtts) t f
            ≡ (if tgt == t && false then val f else get_cell rtts t f)
      away none other = unchosen (tgt == t) _ _
      away (some n) other =
          get_cell-set_cell rtts tgt t src f n
          ∙ rw other (sym (unchosen (tgt == t) (some n) _) ∙ unchosen (tgt == t) (val f) _)

with_row-cell :
    (tgt : String) (o : Option (Assoc String ℕ)) (rtts : Assoc String (Assoc String ℕ))
    (t f : String)
    → get rtts tgt ≡ o
    → get_cell (with_row tgt o rtts) t f ≡ get_cell rtts t f
with_row-cell tgt (some row) rtts t f h = refl
with_row-cell tgt none rtts t f h =
    ap (λ row. get (or_empty row) f) (get-set rtts tgt t []) ∙ elim (Bool-cases (tgt == t)) [
      | inl same ↦
          let at : get rtts t ≡ none =
            ap (get rtts) (sym ((string_key.same_iff tgt t).0 same)) ∙ h in
          rw (same, at) refl
      | inr other ↦ rw other refl
    ]

is_some-contains :
    {V : Type 0} (m : Assoc String V) (k : String)
    → is_some (get m k) ≡ true
    → contains_text k (keys m) ≡ true
unfolding get
is_some-contains [] k h = ground (arith, h)
is_some-contains ((j, v) ∷ m) k h = elim (Bool-cases (j == k)) [
  | inl same ↦ rw same refl
  | inr other ↦ rw other (is_some-contains m k (rw other at h))
]

either_row {ℓ} :
    {A : Type ℓ} (a h w : Bool) (x y : A)
    → (if h && w then x else if a && w then x else y) ≡ (if (a || h) && w then x else y)
either_row true true true x y = refl
either_row true true false x y = refl
either_row true false w x y = refl
either_row false true w x y = refl
either_row false false w x y = refl

-- Under the test that two keys are one, either may be named.
at_same_key :
    (j k : String) (g : String → Bool) (v : String → Option ℕ) (y : Option ℕ)
    → (if j == k && g j then v j else y) ≡ (if j == k && g k then v k else y)
at_same_key j k g v y = elim (Bool-cases (j == k)) [
  | inl same ↦ rw same (ap (λ i. if g i then v i else y) ((string_key.same_iff j k).0 same))
  | inr other ↦ rw other refl
]

chosen_if_there :
    (o : Option ℕ) (a b : Bool)
    → (is_some o ≡ true → (a ≡ true) × (b ≡ true))
    → (if a && (b && is_some o) then o else none) ≡ o
chosen_if_there none true true h = refl
chosen_if_there none true false h = refl
chosen_if_there none false b h = refl
chosen_if_there (some n) a b h = rw ((h refl).0, (h refl).1) refl

module _ {L : Type 0} (samples : TableCellDataMap L) where
  abbrev latency : String → String → Option ℕ
  latency t f = latency_at (get_cell samples t f)

  copy_sources-cell :
      (tgt t f : String) (srcs : List String) (rtts : Assoc String (Assoc String ℕ))
      → get_cell (copy_sources samples tgt rtts srcs) t f ≡ (
          if tgt == t && (contains_text f srcs && is_some (latency tgt f))
          then latency tgt f
          else get_cell rtts t f)
  unfolding copy_sources
  copy_sources-cell tgt t f [] rtts = unchosen (tgt == t) _ _
  copy_sources-cell tgt t f (src ∷ srcs) rtts =
      copy_sources-cell tgt t f srcs (write_rtt tgt src (latency tgt src) rtts)
      ∙ ap
          (λ c.
            if tgt == t && (contains_text f srcs && is_some (latency tgt f))
            then latency tgt f
            else c)
          (write_rtt-cell tgt src (latency tgt) rtts t f (latency tgt src) refl)
      ∙ either_test (tgt == t) (src == f) (contains_text f srcs) (is_some (latency tgt f))
          (latency tgt f) (get_cell rtts t f)

  has_cell : List String → String → String → Bool
  has_cell tgts t f =
      contains_text t tgts
      && (contains_text f (keys (or_empty (get samples t))) && is_some (latency t f))

  copy_targets-cell :
      (t f : String) (tgts : List String) (rtts : Assoc String (Assoc String ℕ))
      → get_cell (copy_targets samples rtts tgts) t f
        ≡ (if has_cell tgts t f then latency t f else get_cell rtts t f)
  unfolding copy_targets has_cell
  copy_targets-cell t f [] rtts = refl
  copy_targets-cell t f (tgt ∷ tgts) rtts =
      let before : Assoc String (Assoc String ℕ) = with_row tgt (get rtts tgt) rtts in
      let srcs : List String = keys (or_empty (get samples tgt)) in
      copy_targets-cell t f tgts (copy_sources samples tgt before srcs)
      ∙ ap (λ c. if has_cell tgts t f then latency t f else c)
          (copy_sources-cell tgt t f srcs before
            ∙ ap
                (λ c.
                  if tgt == t && (contains_text f srcs && is_some (latency tgt f))
                  then latency tgt f
                  else c)
                (with_row-cell tgt (get rtts tgt) rtts t f refl)
            ∙ at_same_key tgt t
                (λ x. contains_text f (keys (or_empty (get samples x))) && is_some (latency x f))
                (λ x. latency x f) (get_cell rtts t f))
      ∙ either_row (tgt == t) (contains_text t tgts) _ (latency t f) (get_cell rtts t f)

  cell_there : (c : Option (TableCellData L)) → is_some (latency_at c) ≡ true → is_some c ≡ true
  cell_there none h = h
  cell_there (some c) h = refl

  row_there :
      (f : String) (row : Option (Assoc String (TableCellData L)))
      → is_some (get (or_empty row) f) ≡ true
      → is_some row ≡ true
  unfolding get
  row_there f none h = h
  row_there f (some row) h = refl

  pub get_cell-build_ping_report :
      (now : ℕ) (task : PendingTask) (t f : String)
      → get_cell (build_ping_report now samples task).rtts t f ≡ latency t f
  unfolding build_ping_report has_cell get
  get_cell-build_ping_report now task t f =
      copy_targets-cell t f (keys samples) []
      ∙ chosen_if_there (latency t f) (contains_text t (keys samples))
          (contains_text f (keys (or_empty (get samples t))))
          (λ h. (
            is_some-contains samples t
                (row_there f (get samples t) (cell_there (get_cell samples t f) h)),
            is_some-contains (or_empty (get samples t)) f (cell_there (get_cell samples t f) h),
          ))
