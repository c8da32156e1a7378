-- ===== src/Trace/Hop/Filed.antt =====
-- HopGroup: the key that an event is filed under.
use rbmq_demo.Common.{
  String, Bool, true, false, ◌||◌, ◌==◌, if◌then◌else◌, string_key, ◌≢◌, ◌↔◌, ◌⊎◌, inl, inr,
  Bool-cases, ◌≡◌, refl, sym, arith,
}
use rbmq_demo.Trace.{TraceEvent}
use rbmq_demo.Trace.Hop.{peer_key}

module _ {L : Type 0} where
  -- A reply is filed under its peer; a timeout under "*", and so is an event without a peer.
  abbrev pub IsFiled : String → TraceEvent L → Type 0
  IsFiled k ev =
      ((ev.timeout ≡ false) × (ev.peer ≢ "") × (ev.peer ≡ k))
      ⊎ (((ev.timeout ≡ true) ⊎ (ev.peer ≡ "")) × (k ≡ "*"))

  pub peer_key_iff : (k : String) (ev : TraceEvent L) → ((peer_key ev == k) ≡ true) ↔ IsFiled k ev
  peer_key_iff k ev = filed ev.timeout ev.peer
    where
      full : (peer : String) → (peer == "") ≡ false → peer ≢ ""
      full peer e h = let k = (string_key.same_iff peer "").1 h in ground (arith, e, k)

      starred : ("*" == k) ≡ true → k ≡ "*"
      starred h = sym ((string_key.same_iff "*" k).0 h)

      filed :
          (timeout : Bool) (peer : String)
          → (((if timeout || peer == "" then "*" else peer) == k) ≡ true) ↔ (
              ((timeout ≡ false) × (peer ≢ "") × (peer ≡ k))
              ⊎ (((timeout ≡ true) ⊎ (peer ≡ "")) × (k ≡ "*")))
      filed true peer = (
        λ h. inr (inl refl, starred h),
        λ o. elim o [
          | inl h ↦ ground (arith, h.0)
          | inr h ↦ (string_key.same_iff "*" k).1 (sym h.1)
        ],
      )
      filed false peer = elim (Bool-cases (peer == "")) [
        | inl e ↦
            let none : peer ≡ "" = (string_key.same_iff peer "").0 e in
            rw e (
              λ h. inr (inr none, starred h),
              λ o. elim o [
                | inl h ↦ absurd (h.1 none)
                | inr h ↦ (string_key.same_iff "*" k).1 (sym h.1)
              ],
            )
        | inr e ↦ rw e (
          λ h. inl (refl, full peer e, (string_key.same_iff peer k).0 h),
          λ o. elim o [
            | inl h ↦ (string_key.same_iff peer k).1 h.2
            | inr (inl h, star) ↦ ground (arith, h)
            | inr (inr h, star) ↦ absurd (full peer e h)
          ],
        )
      ]
