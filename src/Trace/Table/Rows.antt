-- ===== src/Trace/Table/Rows.antt =====
-- ToTable: the shape of the table, and its percentages.
use rbmq_demo.Common.{
  ℕ, ◌+◌, ◌-◌, ◌*◌, ◌/◌, ◌≤◌, ◌<◌, String, Option, none, some, List, [], ◌∷◌, ◌++◌, Bool, true,
  false, length, All, All-append, length-append, ◌≡◌, refl, ◌⊎◌, inl, inr, arith, Option-cases,
  string_key, nat_key,
}
use native.Mathlib.Nat.{lt-mul-div-succ, mul-div-le, div-lt_iff_lt-mul}
use rbmq_demo.Common.Dict.{Assoc, get, is_some}
use rbmq_demo.Trace.Peer.{PeerStats}
use rbmq_demo.Trace.Hop.{HopGroup}
use rbmq_demo.Trace.Stats.{TraceStats}
use rbmq_demo.Trace.Table.{Row, loss_percent, peers_rows, hop_rows, hops_rows, blank_row, to_table}

-- A spacer, or a row of four cells.
abbrev pub IsRow : Row → Type 0
IsRow r = ((r.spacer ≡ true) × (r.cells ≡ [])) ⊎ ((r.spacer ≡ false) × (length r.cells ≡ 4))

abbrev one_if : Bool → ℕ
one_if true = 1
one_if false = 0

blank_row_lem : (first : Bool) → All IsRow (blank_row first)
blank_row_lem true = tt
blank_row_lem false = (inl (refl, refl), tt)

module _ {L : Type 0} where
  -- The peers in the order that have statistics.
  abbrev pub peers_shown : Assoc String (PeerStats L) → List String → ℕ
  peers_shown peers [] = 0
  peers_shown peers (key ∷ order) = one_if (is_some (get peers key)) + peers_shown peers order

  abbrev pub at_hop_shown : Option (HopGroup L) → ℕ
  at_hop_shown none = 0
  at_hop_shown (some g) = peers_shown g.peers g.peer_order

  abbrev pub hops_shown : Assoc ℕ (HopGroup L) → List ℕ → ℕ
  hops_shown hops [] = 0
  hops_shown hops (ttl ∷ order) = at_hop_shown (get hops ttl) + hops_shown hops order

  peers_rows_lem :
      (ttl : ℕ) (first : Bool) (peers : Assoc String (PeerStats L)) (order : List String)
      → All IsRow (peers_rows ttl first peers order)
        × (length (peers_rows ttl first peers order) ≡ 2 * peers_shown peers order)
  unfolding peers_rows
  peers_rows_lem ttl first peers [] = (tt, refl)
  peers_rows_lem ttl first peers (key ∷ order) = elim (Option-cases (get peers key)) [
    | inl e ↦ let (rows, count) = peers_rows_lem ttl first peers order in rw e (rows, omega arith)
    | inr (p, e) ↦
        let (rows, count) = peers_rows_lem ttl false peers order in
        rw e ((inr (refl, refl), (inr (refl, refl), rows)), omega arith)
  ]

  hop_rows_lem :
      (ttl : ℕ) (o : Option (HopGroup L))
      → All IsRow (hop_rows ttl o) × (length (hop_rows ttl o) ≡ 2 * at_hop_shown o)
  hop_rows_lem ttl none = (tt, refl)
  hop_rows_lem ttl (some g) = peers_rows_lem ttl true g.peers g.peer_order

  hops_rows_lem :
      (first : Bool) (hops : Assoc ℕ (HopGroup L)) (order : List ℕ)
      → All IsRow (hops_rows first hops order)
        × (length (hops_rows first hops order)
            ≡ (length order - one_if first) + 2 * hops_shown hops order)
  unfolding hops_rows
  hops_rows_lem first hops [] = (tt, omega arith)
  hops_rows_lem first hops (ttl ∷ order) =
      let (rows, count) = hop_rows_lem ttl (get hops ttl) in
      let (later, more) = hops_rows_lem false hops order in
      (
        All-append IsRow (blank_row first) _ (blank_row_lem first) (
            All-append IsRow (hop_rows ttl (get hops ttl)) (hops_rows false hops order) rows later),
        omega (
          arith,
          length-append (blank_row first)
              (hop_rows ttl (get hops ttl) ++ hops_rows false hops order),
          length-append (hop_rows ttl (get hops ttl)) (hops_rows false hops order),
          length_blank first,
        ),
      )
    where
      length_blank : (first : Bool) → length (blank_row first) + one_if first ≡ 1
      length_blank true = refl
      length_blank false = refl

  -- Each row of the table is a spacer or has four cells, and there are two rows for each peer that
  -- is shown and one spacer between two hops.
  pub to_table-rows :
      (s : TraceStats L)
      → All IsRow (to_table s).rows
        × (length (to_table s).rows ≡ (length s.hop_order - 1) + 2 * hops_shown s.hops s.hop_order)
  unfolding to_table
  to_table-rows s = hops_rows_lem true s.hops s.hop_order

-- If something was sent and no more is lost than sent, the percentage is the loss over the total
-- rounded to the nearest whole number, a half up, and it is at most 100.
pub loss_percent-bounds :
    (loss total : ℕ)
    → 0 < total
    → loss ≤ total
    → (2 * total * loss_percent loss total ≤ loss * 200 + total)
      × (loss * 200 + total < 2 * total * (loss_percent loss total + 1))
      × (loss_percent loss total ≤ 100)
unfolding loss_percent
loss_percent-bounds loss total h all =
    let q = (loss * 200 + total) / (2 * total) in
    let some : loss_percent loss total ≡ q = ground arith in
    rw some (
      mul-div-le (loss * 200 + total) (2 * total),
      lt-mul-div-succ (loss * 200 + total) (omega arith),
      (let below : q < 101 = (div-lt_iff_lt-mul {k = 2 * total} (omega arith)).1 (omega arith) in
          omega arith),
    )
