-- ===== src/Router/Inserted.antt =====
-- router.ts: how `doInsertRoute` changes a node: its own routes and its subtrees.
use rbmq_demo.Common.{
  ℕ, ◌+◌, ◌≤◌, Bool, true, false, Option, some, List, [], ◌∷◌, ◌++◌, filter, nat_beq, nat_beq_iff,
  if◌then◌else◌, ◌≡◌, refl, sym, ap, ◌∙◌, inl, inr, arith, All, Bool-cases, append-nil,
  append_assoc,
}
use rbmq_demo.Router.{
  AddrLike, Route, NodeEntry, node, NextHeader, no_header, header, SubTrees, nil, sub, or_empty,
  find_sub, set_sub, header_subs, root_or_empty, node_next, node_routes, push_route, with_sub,
  do_insert_route, insert_routes,
}
use rbmq_demo.Router.Levels.{stops_at, goes_into}

module _ {R : Type 0} where
  find_sub-set_sub :
      (subs : SubTrees R) (k j : ℕ) (t : NodeEntry R)
      → find_sub (set_sub subs k t) j ≡ (if nat_beq k j then some t else find_sub subs j)
  unfolding find_sub set_sub
  find_sub-set_sub nil k j t = refl
  find_sub-set_sub (sub i old rest) k j t = ground (arith, find_sub-set_sub rest k j t)

  abbrev pub child : Option (NodeEntry R) → ℕ → Option (NodeEntry R)
  child root key = find_sub (header_subs (node_next (root_or_empty root))) key

  abbrev pub own : Option (NodeEntry R) → List R
  own root = or_empty (node_routes (root_or_empty root))

  own-push_route : (n : NodeEntry R) (r : R) → own (some (push_route n r)) ≡ own (some n) ++ r ∷ []
  own-push_route (node next routes) r = refl

  next-push_route : (n : NodeEntry R) (r : R) → node_next (push_route n r) ≡ node_next n
  next-push_route (node next routes) r = refl

  own-with_sub :
      (n t : NodeEntry R) (segment key : ℕ) → own (some (with_sub n segment key t)) ≡ own (some n)
  own-with_sub (node next routes) t segment key = refl

  child-with_sub :
      (n t : NodeEntry R) (segment key j : ℕ)
      → child (some (with_sub n segment key t)) j
        ≡ (if nat_beq key j then some t else child (some n) j)
  child-with_sub (node next routes) t segment key j = find_sub-set_sub (header_subs next) key j t

  -- The header of a node, if there is one, has this segment, which fits into the address.
  abbrev pub HeaderFits : ℕ → ℕ → ℕ → NextHeader R → Type 0
  HeaderFits segment eaten max_bits no_header = Unit
  HeaderFits segment eaten max_bits (header len subs) =
      (len ≡ segment) × (eaten + segment ≤ max_bits)

HeaderFits-with_sub :
    {R : Type 0} (n t : NodeEntry R) (segment eaten max_bits key : ℕ)
    → eaten + segment ≤ max_bits
    → HeaderFits segment eaten max_bits (node_next (with_sub n segment key t))
HeaderFits-with_sub (node next routes) t segment eaten max_bits key h = (refl, h)

if_same_key :
    {B : Type 0} (f : ℕ → B) (other : B) (j k : ℕ)
    → (if nat_beq j k then f j else other) ≡ (if nat_beq j k then f k else other)
if_same_key f other j k = elim (Bool-cases (nat_beq j k)) [
  | inl same ↦ rw same (ap f ((nat_beq_iff j k).0 same))
  | inr apart ↦ rw apart
]

module _ {A V : Type 0} ⦃addr : AddrLike A⦄ where
  abbrev insert :
      Option (NodeEntry (Route A V)) → Route A V → List ℕ → ℕ → Option (NodeEntry (Route A V))
  insert root r segments eaten = some (do_insert_route root r segments eaten)

  abbrev step_own : Bool → Option (NodeEntry (Route A V)) → Route A V → List (Route A V)
  step_own b root r = if b then own root ++ r ∷ [] else own root

  own-insert :
      (root : Option (NodeEntry (Route A V))) (r : Route A V) (segment : ℕ) (segments : List ℕ)
      (eaten : ℕ)
      → own (insert root r (segment ∷ segments) eaten) ≡ step_own (stops_at eaten segment r) root r
  unfolding do_insert_route
  own-insert root r segment segments eaten = elim (Bool-cases (stops_at eaten segment r)) [
    | inl h ↦ rw h (own-push_route (root_or_empty root) r)
    | inr h ↦ rw h (own-with_sub (root_or_empty root) _ segment _)
  ]

  child-insert :
      (root : Option (NodeEntry (Route A V))) (r : Route A V) (segment : ℕ) (segments : List ℕ)
      (eaten key : ℕ)
      → child (insert root r (segment ∷ segments) eaten) key ≡ (
          if goes_into eaten segment key r
          then insert (child root key) r segments (eaten + segment)
          else child root key)
  unfolding do_insert_route
  child-insert root r segment segments eaten key = elim (Bool-cases (stops_at eaten segment r)) [
    | inl h ↦ rw h (ap (λ h. find_sub (header_subs h) key) (next-push_route (root_or_empty root) r))
    | inr h ↦ rw h (
        child-with_sub (root_or_empty root) _ segment _ key
        ∙ if_same_key (λ k. insert (child root k) r segments (eaten + segment)) (child root key) _
            key)
  ]

  own_shift :
      (b : Bool) (root : Option (NodeEntry (Route A V))) (r : Route A V) (l rest : List (Route A V))
      → l ≡ step_own b root r
      → l ++ rest ≡ own root ++ (if b then r ∷ rest else rest)
  own_shift true root r l rest e = ap (λ l. l ++ rest) e ∙ append_assoc (own root) (r ∷ []) rest
  own_shift false root r l rest e = ap (λ l. l ++ rest) e

  child_shift :
      (b : Bool) (root : Option (NodeEntry (Route A V))) (r : Route A V) (rs : List (Route A V))
      (segments : List ℕ) (eaten : ℕ) (rest : List (Route A V))
      → insert_routes (if b then insert root r segments eaten else root) rest segments eaten
        ≡ insert_routes root (if b then r ∷ rest else rest) segments eaten
  unfolding insert_routes
  child_shift true root r rs segments eaten rest = refl
  child_shift false root r rs segments eaten rest = refl

  pub own-insert_routes :
      (root : Option (NodeEntry (Route A V))) (rs : List (Route A V)) (segment : ℕ)
      (segments : List ℕ) (eaten : ℕ)
      → own (insert_routes root rs (segment ∷ segments) eaten)
        ≡ own root ++ filter (stops_at eaten segment) rs
  unfolding insert_routes
  own-insert_routes root [] segment segments eaten = sym (append-nil _)
  own-insert_routes root (r ∷ rs) segment segments eaten =
      own-insert_routes (insert root r (segment ∷ segments) eaten) rs segment segments eaten
      ∙ own_shift (stops_at eaten segment r) root r _ _ (own-insert root r segment segments eaten)

  pub child-insert_routes :
      (root : Option (NodeEntry (Route A V))) (rs : List (Route A V)) (segment : ℕ)
      (segments : List ℕ) (eaten key : ℕ)
      → child (insert_routes root rs (segment ∷ segments) eaten) key
        ≡ insert_routes
            (child root key)
            (filter (goes_into eaten segment key) rs)
            segments
            (eaten + segment)
  unfolding insert_routes
  child-insert_routes root [] segment segments eaten key = refl
  child-insert_routes root (r ∷ rs) segment segments eaten key =
      child-insert_routes (insert root r (segment ∷ segments) eaten) rs segment segments eaten key
      ∙ rw child-insert (
          child_shift (goes_into eaten segment key r) (child root key) r rs segments
            (eaten + segment) _)

  pub own-insert_routes_end :
      (root : Option (NodeEntry (Route A V))) (rs : List (Route A V)) (eaten : ℕ)
      → own (insert_routes root rs [] eaten) ≡ own root ++ rs
  unfolding insert_routes do_insert_route
  own-insert_routes_end root [] eaten = sym (append-nil _)
  own-insert_routes_end root (r ∷ rs) eaten =
      own-insert_routes_end (insert root r [] eaten) rs eaten
      ∙ ap (λ l. l ++ rs) (own-push_route (root_or_empty root) r)
      ∙ append_assoc (own root) (r ∷ []) rs

  next-insert :
      (root : Option (NodeEntry (Route A V))) (r : Route A V) (segment : ℕ) (segments : List ℕ)
      (eaten max_bits : ℕ)
      → r.prefix_length ≤ max_bits
      → HeaderFits segment eaten max_bits (node_next (root_or_empty root))
      → HeaderFits segment eaten max_bits
          (node_next (root_or_empty (insert root r (segment ∷ segments) eaten)))
  unfolding do_insert_route
  next-insert root r segment segments eaten max_bits fits h =
      elim (Bool-cases (stops_at eaten segment r)) [
        | inl e ↦ rw e (rw next-push_route h)
        | inr e ↦
            rw e
              (HeaderFits-with_sub (root_or_empty root) _ segment eaten max_bits _ (ground arith))
      ]

  pub next-insert_routes :
      (root : Option (NodeEntry (Route A V))) (rs : List (Route A V)) (segment : ℕ)
      (segments : List ℕ) (eaten max_bits : ℕ)
      → All (λ r. r.prefix_length ≤ max_bits) rs
      → HeaderFits segment eaten max_bits (node_next (root_or_empty root))
      → HeaderFits segment eaten max_bits
          (node_next (root_or_empty (insert_routes root rs (segment ∷ segments) eaten)))
  unfolding insert_routes
  next-insert_routes root [] segment segments eaten max_bits fits h = h
  next-insert_routes root (r ∷ rs) segment segments eaten max_bits (fit, fits) h =
      next-insert_routes (insert root r (segment ∷ segments) eaten) rs segment segments eaten
        max_bits fits (next-insert root r segment segments eaten max_bits fit h)

  pub next-insert_routes_end :
      (root : Option (NodeEntry (Route A V))) (rs : List (Route A V)) (eaten : ℕ)
      → node_next (root_or_empty (insert_routes root rs [] eaten)) ≡ node_next (root_or_empty root)
  unfolding insert_routes do_insert_route
  next-insert_routes_end root [] eaten = refl
  next-insert_routes_end root (r ∷ rs) eaten =
      next-insert_routes_end (insert root r [] eaten) rs eaten
      ∙ next-push_route (root_or_empty root) r
