-- ===== src/Tests/MapShapes.antt =====
-- web/components/worldmap.tsx: two small shapes, and paths over the edge of the map and over 0.
use rbmq_demo.Common.{◌≡◌, refl, ℕ, none, some, List, [], ◌∷◌, map}
use rbmq_demo.Common.Integers.{ℤ, pos, negsuc}
use rbmq_demo.MapShapes.{
  number, array, nil, cons, yield_polygons, to_flat_shape, mark_vector3, cut_paths,
}
use rbmq_demo.MapShapes.Rings.{
  Ring, ring_of, polygon_of, multi_polygon_of, concat, yield_polygons-rings,
}
use rbmq_demo.MapShapes.Cuts.{IsCut, cut_paths-IsCut}

abbrev outer : Ring ℕ
outer = ((0, 0), (4, 0) ∷ (4, 4) ∷ [])

abbrev hole : Ring ℕ
hole = ((1, 1), (2, 1) ∷ [])

yield_polygons-rings_example :
    (yield_polygons (multi_polygon_of ((outer ∷ hole ∷ []) ∷ (hole ∷ []) ∷ []))
      ≡ map ring_of (concat ((outer ∷ hole ∷ []) ∷ (hole ∷ []) ∷ [])))
    × (yield_polygons (polygon_of (outer ∷ [])) ≡ map ring_of (outer ∷ []))
yield_polygons-rings_example =
    yield_polygons-rings ((outer ∷ hole ∷ []) ∷ (hole ∷ []) ∷ []) (outer ∷ [])

-- A feature without coordinates counts as a group. Points of three numbers are no ring.
shapes_run :
    (map
        (λ s. s.group_id)
        (to_flat_shape
          (record { coordinates = none } ∷ record { coordinates = some (ring_of outer) } ∷ []))
      ≡ 1 ∷ [])
    × (yield_polygons {F = ℕ}
          (array (cons (array (cons (number 1) (cons (number 2) (cons (number 3) nil)))) nil))
        ≡ [])
unfolding to_flat_shape yield_polygons
shapes_run = (refl, refl)

abbrev own_lon : ℤ → ℤ
own_lon x = x

-- West over the edge of the map.
abbrev edge_path : List ℤ
edge_path = negsuc 169 ∷ negsuc 174 ∷ pos 175 ∷ pos 170 ∷ []

cut_run :
    cut_paths 180 own_lon edge_path ≡ (negsuc 169 ∷ negsuc 174 ∷ []) ∷ (pos 175 ∷ pos 170 ∷ []) ∷ []
unfolding cut_paths mark_vector3
cut_run = refl

-- East from -10 over 0 and the edge to -170: the cut is at 0, where the first part is one point, so
-- the piece that is left leads over the edge.
zero_run :
    cut_paths 180 own_lon (negsuc 9 ∷ pos 10 ∷ pos 170 ∷ negsuc 169 ∷ [])
    ≡ (pos 10 ∷ pos 170 ∷ negsuc 169 ∷ []) ∷ []
unfolding cut_paths mark_vector3
zero_run = refl

cut_paths-IsCut_example : IsCut 180 own_lon edge_path (cut_paths 180 own_lon edge_path)
cut_paths-IsCut_example = cut_paths-IsCut 180 own_lon edge_path
