-- ===== src/Nodes/Offered.antt =====
-- web/apis/globalping.ts: which nodes are offered, by their attributes.
use rbmq_demo.Common.{
  ◌≡◌, ◌≢◌, ◌↔◌, both_true, refl, sym, ap, ◌∙◌, String, inl, inr, List, [], Bool, true, false, ◌&&◌,
  ◌==◌, string_key, all, All, Bool-cases, arith, none, some, Option,
}
use rbmq_demo.Common.Dict.{Assoc, get}
use rbmq_demo.Common.Filters.{all_iff}
use rbmq_demo.Trace.{is_set, or_else}
use rbmq_demo.Nodes.{ConnNodeEntry, has_label, is_pinger}

-- The attribute is there with this text, which is not empty.
abbrev pub HasText : Assoc String String → String → String → Type 0
HasText attributes name text = (get attributes name ≡ some text) × (text ≢ "")

-- Each label that is asked for is an attribute with its text, and there is a NodeName and a
-- CapabilityPing.
abbrev pub IsOffered : List (String × String) → Option (Assoc String String) → Type 0
IsOffered labels none = ⊥
IsOffered labels (some attributes) =
    All (λ (label : String × String). HasText attributes label.0 label.1) labels
    × ((text : String) × HasText attributes "NodeName" text)
    × ((text : String) × HasText attributes "CapabilityPing" text)

same_text_iff :
    (o : Option String) (text : String)
    → ((is_set o && or_else o "" == text) ≡ true) ↔ ((o ≡ some text) × (text ≢ ""))
same_text_iff none text = (λ h. ground arith, λ h. ground (arith, h.0))
same_text_iff (some t) text = (
  λ h.
      let both = both_true (is_set (some t)) (t == text) h in
      let same : t ≡ text = (string_key.same_iff t text).0 both.1 in
      (
        ap some same,
        λ e.
            let empty : (t == "") ≡ true = (string_key.same_iff t "").1 (same ∙ e) in
            ground (arith, empty, both.0),
      ),
  λ (e, ne).
      let same : t ≡ text = ap (λ o. or_else o "") e in
      let full : (t == "") ≡ false = elim (Bool-cases (t == "")) [
        | inl h ↦ absurd (ne (sym same ∙ (string_key.same_iff t "").0 h))
        | inr h ↦ h
      ] in
      let eq : (t == text) ≡ true = (string_key.same_iff t text).1 same in rw (full, eq) refl,
)

some_text_iff :
    (o : Option String) → (is_set o ≡ true) ↔ ((text : String) × ((o ≡ some text) × (text ≢ "")))
some_text_iff none = (λ h. ground arith, λ h. ground (arith, h.1.0))
some_text_iff (some t) = (
  λ h. (
    t,
    (
      refl,
      λ e.
          let empty : (t == "") ≡ true = (string_key.same_iff t "").1 e in ground (arith, empty, h),
    ),
  ),
  λ (text, (e, ne)).
      let eq : (t == t) ≡ true = (string_key.same_iff t t).1 refl in
      let same : t ≡ text = ap (λ o. or_else o "") e in
      (both_true (is_set (some t)) (t == t)
        ((same_text_iff (some t) t).1 (refl, λ k. ne (sym same ∙ k)))).0,
)

pub is_pinger_iff :
    (extra_labels : Option (Assoc String String)) (node : ConnNodeEntry)
    → (is_pinger extra_labels node ≡ true) ↔ IsOffered (or_else extra_labels []) node.attributes
is_pinger_iff extra_labels node = offered node.attributes
  where
    offered :
        (o : Option (Assoc String String))
        → (is_pinger extra_labels (record { attributes = o; node_name = none }) ≡ true)
          ↔ IsOffered (or_else extra_labels []) o
    offered none = (λ h. ground arith, λ h. absurd h)
    offered (some attributes) = (
      λ h.
          let named : Bool = is_set (get attributes "NodeName") in
          let able : Bool = is_set (get attributes "CapabilityPing") in
          let outer =
            both_true (all (has_label attributes) (or_else extra_labels []) && named) able h in
          let inner =
            both_true (all (has_label attributes) (or_else extra_labels [])) named outer.0 in
          (
            (all_iff (has_label attributes)
                  (λ label. same_text_iff (get attributes label.0) label.1)
                  (or_else extra_labels [])).0
                inner.0,
            (some_text_iff (get attributes "NodeName")).0 inner.1,
            (some_text_iff (get attributes "CapabilityPing")).0 outer.1,
          ),
      λ (each, name, cap).
          let a =
            (all_iff (has_label attributes)
                (λ label. same_text_iff (get attributes label.0) label.1)
                (or_else extra_labels [])).1
              each in
          let b = (some_text_iff (get attributes "NodeName")).1 name in
          let c = (some_text_iff (get attributes "CapabilityPing")).1 cap in rw (a, b, c) refl,
    )
