-- ===== src/NodeGroups/Grouped.antt =====
-- web/apis/utils.ts: what the group under a key holds.
use rbmq_demo.Common.{
  ℕ, ◌≡◌, refl, ap, sym, ◌∙◌, String, Option, none, some, List, [], ◌∷◌, ◌++◌, append_assoc,
  append-nil, Bool, true, false, not, ◌&&◌, ◌==◌, string_key, filter, Bool-cases, inl, inr,
  if◌then◌else◌, arith,
}
use rbmq_demo.Common.Codes.{Codes, codes_key}
use rbmq_demo.Common.Dict.{Assoc, get, get-set, is_some}
use rbmq_demo.Nodes.{ConnNodeEntry}
use rbmq_demo.NodeGroups.{
  NodeGroup, get_node_lat_lon, get_grid_key, is_left_out, pushed, add_located, add_conn,
  node_groups,
}

module _ {F I : Type 0} (parse_float : Codes → Option F) (floor_div : F → ℕ → I)
    (index_text : I → Codes) where
  -- Whether a node that may be shown has a place in the cell of a key.
  abbrev pub in_cell : Codes → Option (F × F) → Bool
  in_cell key none = false
  in_cell key (some lat_lon) = get_grid_key parse_float floor_div index_text lat_lon == key

  abbrev pub belongs : List String → Codes → ConnNodeEntry → Bool
  belongs sources key conn =
      not (is_left_out sources conn)
      && in_cell key (get_node_lat_lon parse_float floor_div index_text conn)

  abbrev lat_lon_of : ConnNodeEntry → Option (F × F)
  lat_lon_of conn = get_node_lat_lon parse_float floor_div index_text conn

  abbrev key_of : F × F → Codes
  key_of lat_lon = get_grid_key parse_float floor_div index_text lat_lon

  -- The group of some nodes at the place of the first one.
  abbrev pub group_at : Option (F × F) → List ConnNodeEntry → Option (NodeGroup F)
  group_at none conns = none
  group_at (some p) conns = some (record { nodes = conns; group_name = key_of p; lat_lon = p })

  abbrev pub group_of_nodes : List ConnNodeEntry → Option (NodeGroup F)
  group_of_nodes [] = none
  group_of_nodes (conn ∷ conns) = group_at (lat_lon_of conn) (conn ∷ conns)

  abbrev IsLocated : List ConnNodeEntry → Type 0
  IsLocated [] = Unit
  IsLocated (conn ∷ conns) = is_some (lat_lon_of conn) ≡ true

  pushed-snoc :
      (seen : List ConnNodeEntry) (conn : ConnNodeEntry) (p : F × F)
      → IsLocated seen
      → lat_lon_of conn ≡ some p
      → some (pushed parse_float floor_div index_text (group_of_nodes seen) conn p)
        ≡ group_of_nodes (seen ++ conn ∷ [])
  pushed-snoc [] conn p h e = ap (λ o. group_at o (conn ∷ [])) (sym e)
  pushed-snoc (c ∷ cs) conn p h e = at (lat_lon_of c) h
    where
      at :
          (o : Option (F × F))
          → is_some o ≡ true
          → some (pushed parse_float floor_div index_text (group_at o (c ∷ cs)) conn p)
            ≡ group_at o (c ∷ cs ++ conn ∷ [])
      at none h = ground arith
      at (some q) h = refl

  IsLocated-snoc :
      (seen : List ConnNodeEntry) (conn : ConnNodeEntry)
      → IsLocated seen
      → is_some (lat_lon_of conn) ≡ true
      → IsLocated (seen ++ conn ∷ [])
  IsLocated-snoc [] conn h e = e
  IsLocated-snoc (c ∷ cs) conn h e = h

  abbrev Holds : List String → Codes → Assoc Codes (NodeGroup F) → List ConnNodeEntry → Type 0
  Holds sources key groups seen = IsLocated seen × (get groups key ≡ group_of_nodes seen)

  add_located-Holds :
      (sources : List String) (key : Codes) (groups : Assoc Codes (NodeGroup F))
      (seen : List ConnNodeEntry) (conn : ConnNodeEntry) (o : Option (F × F))
      → lat_lon_of conn ≡ o
      → Holds sources key groups seen
      → Holds sources key
          (add_located parse_float floor_div index_text groups conn o)
          (seen ++ (if in_cell key o then conn ∷ [] else []))
  unfolding add_located
  add_located-Holds sources key groups seen conn none e (l, h) = rw (append-nil) (l, h)
  add_located-Holds sources key groups seen conn (some p) e (l, h) =
      elim (Bool-cases (key_of p == key)) [
        | inl same ↦
            let at : key_of p ≡ key = (codes_key.same_iff (key_of p) key).0 same in
            rw same (
              IsLocated-snoc seen conn l (rw e refl),
              get-set groups (key_of p) key _
                  ∙ rw same (
                      ap (λ k. some (pushed parse_float floor_div index_text (get groups k) conn p))
                        at
                      ∙ ap (λ g. some (pushed parse_float floor_div index_text g conn p)) h
                      ∙ pushed-snoc seen conn p l e),
            )
        | inr other ↦ rw (other, append-nil) (l, get-set groups (key_of p) key _ ∙ rw other h)
      ]

  add_conn-Holds :
      (sources : List String) (key : Codes) (groups : Assoc Codes (NodeGroup F))
      (seen : List ConnNodeEntry) (conn : ConnNodeEntry)
      → Holds sources key groups seen
      → Holds sources key
          (add_conn parse_float floor_div index_text sources groups conn)
          (seen ++ (if belongs sources key conn then conn ∷ [] else []))
  unfolding add_conn
  add_conn-Holds sources key groups seen conn h = elim (Bool-cases (is_left_out sources conn)) [
    | inl out ↦ rw (out, append-nil) h
    | inr kept ↦ rw kept (add_located-Holds sources key groups seen conn (lat_lon_of conn) refl h)
  ]

  one_more :
      (b : Bool) (conn : ConnNodeEntry) (seen rest : List ConnNodeEntry)
      → (seen ++ (if b then conn ∷ [] else [])) ++ rest ≡ seen ++ (if b then conn ∷ rest else rest)
  one_more true conn seen rest = append_assoc seen (conn ∷ []) rest
  one_more false conn seen rest = ap (λ s. s ++ rest) (append-nil seen)

  node_groups-Holds :
      (sources : List String) (key : Codes) (conns : List ConnNodeEntry)
      (groups : Assoc Codes (NodeGroup F)) (seen : List ConnNodeEntry)
      → Holds sources key groups seen
      → get (node_groups parse_float floor_div index_text sources groups conns) key
        ≡ group_of_nodes (seen ++ filter (belongs sources key) conns)
  unfolding node_groups
  node_groups-Holds sources key [] groups seen h = h.1 ∙ ap group_of_nodes (sym (append-nil seen))
  node_groups-Holds sources key (conn ∷ conns) groups seen h =
      node_groups-Holds sources key conns _ _ (add_conn-Holds sources key groups seen conn h)
      ∙ ap group_of_nodes
          (one_more (belongs sources key conn) conn seen (filter (belongs sources key) conns))

  pub get-node_groups :
      (sources : List String) (key : Codes) (conns : List ConnNodeEntry)
      → get (node_groups parse_float floor_div index_text sources [] conns) key
        ≡ group_of_nodes (filter (belongs sources key) conns)
  get-node_groups sources key conns =
      node_groups-Holds sources key conns [] [] (tt, unfold get in refl)
