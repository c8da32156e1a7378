-- ===== src/Zones/Texts.antt =====
-- web/apis/nwdesc.ts: what the tests of texts decide, and the labels of a name.
use rbmq_demo.Common.{
  ◌≡◌, refl, ap, append_assoc, ℕ, sym, ◌∙◌, inl, inr, List, [], ◌∷◌, ◌++◌, true, nat_beq,
  Bool-cases, if◌then◌else◌, arith, ◌≢◌, ap₂,
}
use rbmq_demo.Zones.{Text, dot, same_text, ends_with}

pub same_text_self : (s : Text) → same_text s s ≡ true
unfolding same_text
same_text_self [] = refl
same_text_self (c ∷ s) = ground (arith, same_text_self s)

pub same_text_eq : (s t : Text) → same_text s t ≡ true → s ≡ t
unfolding same_text
same_text_eq [] [] h = refl
same_text_eq [] (d ∷ t) h = ground arith
same_text_eq (c ∷ s) [] h = ground arith
same_text_eq (c ∷ s) (d ∷ t) h =
    let head : c ≡ d = ground arith in
    let tail : same_text s t ≡ true = ground arith in ap₂ ◌∷◌ head (same_text_eq s t tail)

pub ends_with-append : (p t : Text) → ends_with (p ++ t) t ≡ true
unfolding ends_with
ends_with-append [] [] = same_text_self []
ends_with-append [] (d ∷ t) = ground (arith, same_text_self (d ∷ t))
ends_with-append (c ∷ p) t = ground (arith, ends_with-append p t)

pub ends_with_split : (s t : Text) → ends_with s t ≡ true → (p : Text) × (s ≡ p ++ t)
unfolding ends_with
ends_with_split [] t h = ([], same_text_eq [] t h)
ends_with_split (c ∷ s) t h = elim (Bool-cases (same_text (c ∷ s) t)) [
  | inl e ↦ ([], same_text_eq (c ∷ s) t e)
  | inr e ↦
      let rest : ends_with s t ≡ true = ground arith in
      let found : (p : Text) × (s ≡ p ++ t) = ends_with_split s t rest in
      (c ∷ found.0, ap (◌∷◌ c) found.1)
]

-- `name.split(".")`.
abbrev pub longer_label : Text → List Text → List Text
longer_label l [] = l ∷ []
longer_label l (m ∷ ms) = (l ++ m) ∷ ms

unfoldable pub labels : Text → List Text
labels [] = [] ∷ []
labels (c ∷ s) =
    let rest = labels s in if nat_beq c dot then [] ∷ rest else longer_label (c ∷ []) rest

-- `labels.join(".")`.
unfoldable pub joined : List Text → Text
joined [] = []
joined (l ∷ []) = l
joined (l ∷ m ∷ ms) = l ++ dot ∷ joined (m ∷ ms)

longer_label_ne : (l : Text) (ms : List Text) → longer_label l ms ≢ []
longer_label_ne l [] = ground arith
longer_label_ne l (m ∷ ms) = ground arith

pub labels_ne : (s : Text) → labels s ≢ []
unfolding labels
labels_ne [] = ground arith
labels_ne (c ∷ s) = elim (Bool-cases (nat_beq c dot)) [
  | inl e ↦ rw e (ground arith)
  | inr e ↦ rw e (longer_label_ne (c ∷ []) (labels s))
]

longer_label-append :
    (l : Text) (ms ns : List Text) → ms ≢ [] → longer_label l ms ++ ns ≡ longer_label l (ms ++ ns)
longer_label-append l [] ns h = ground arith
longer_label-append l (m ∷ ms) ns h = refl

pub labels-append : (p s : Text) → labels (p ++ dot ∷ s) ≡ labels p ++ labels s
unfolding labels
labels-append [] s = refl
labels-append (c ∷ p) s = elim (Bool-cases (nat_beq c dot)) [
  | inl e ↦ rw (e, labels-append p s) refl
  | inr e ↦
      rw (e, labels-append p s)
        (sym (longer_label-append (c ∷ []) (labels p) (labels s) (labels_ne p)))
]

joined-longer_label : (c : ℕ) (ms : List Text) → joined (longer_label (c ∷ []) ms) ≡ c ∷ joined ms
unfolding joined
joined-longer_label c [] = refl
joined-longer_label c (m ∷ []) = refl
joined-longer_label c (m ∷ n ∷ ns) = refl

joined-empty : (ms : List Text) → ms ≢ [] → joined ([] ∷ ms) ≡ dot ∷ joined ms
unfolding joined
joined-empty [] h = ground arith
joined-empty (m ∷ ms) h = refl

pub joined-labels : (s : Text) → joined (labels s) ≡ s
unfolding labels joined
joined-labels [] = refl
joined-labels (c ∷ s) = elim (Bool-cases (nat_beq c dot)) [
  | inl e ↦
      let same : c ≡ dot = ground arith in
      rw e (joined-empty (labels s) (labels_ne s) ∙ ap₂ ◌∷◌ (sym same) (joined-labels s))
  | inr e ↦ rw e (joined-longer_label c (labels s) ∙ ap (◌∷◌ c) (joined-labels s))
]

pub joined-append :
    (l : Text) (ls ms : List Text)
    → ms ≢ []
    → joined ((l ∷ ls) ++ ms) ≡ joined (l ∷ ls) ++ dot ∷ joined ms
unfolding joined
joined-append l [] [] h = ground arith
joined-append l [] (m ∷ ms) h = refl
joined-append l (k ∷ ks) ms h =
    ap (λ t. l ++ dot ∷ t) (joined-append k ks ms h)
    ∙ sym (append_assoc l (dot ∷ joined (k ∷ ks)) (dot ∷ joined ms))
