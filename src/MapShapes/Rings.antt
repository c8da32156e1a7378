-- ===== src/MapShapes/Rings.antt =====
-- web/components/worldmap.tsx: coordinates of the depth of a MultiPolygon give all their rings.
use rbmq_demo.Common.{◌≡◌, refl, sym, ap, ap₂, ◌∙◌, List, [], ◌∷◌, ◌++◌, map, false}
use rbmq_demo.MapShapes.{
  Coordinates, Items, number, array, nil, cons, is_number, is_position, is_polygon, yield_polygons,
  yield_items,
}

abbrev pub items_of : {A F : Type 0} → (A → Coordinates F) → List A → Items F
items_of f [] = nil
items_of f (x ∷ xs) = cons (f x) (items_of f xs)

-- A ring has a point at least.
abbrev pub Ring : Type 0 → Type 0
Ring F = (F × F) × List (F × F)

abbrev pub concat : {A : Type 0} → List (List A) → List A
concat [] = []
concat (xs ∷ xss) = xs ++ concat xss

map-append : {A B : Type 0} (f : A → B) (xs ys : List A) → map f (xs ++ ys) ≡ map f xs ++ map f ys
map-append f [] ys = refl
map-append f (x ∷ xs) ys = ap (◌∷◌ (f x)) (map-append f xs ys)

module _ {F : Type 0} where
  abbrev pub point_of : F × F → Coordinates F
  point_of (lon, lat) = array (cons (number lon) (cons (number lat) nil))

  abbrev pub ring_of : Ring F → Coordinates F
  ring_of (p, ps) = array (cons (point_of p) (items_of point_of ps))

  abbrev pub polygon_of : List (Ring F) → Coordinates F
  polygon_of rings = array (items_of ring_of rings)

  abbrev pub multi_polygon_of : List (List (Ring F)) → Coordinates F
  multi_polygon_of polygons = array (items_of polygon_of polygons)

  not_position :
      {A : Type 0} (f : A → Coordinates F) (xs : List A)
      → ((x : A) → is_number (f x) ≡ false)
      → is_position (array (items_of f xs)) ≡ false
  not_position f [] h = refl
  not_position f (x ∷ []) h = refl
  not_position f (x ∷ y ∷ []) h = rw (h x) refl
  not_position f (x ∷ y ∷ z ∷ xs) h = refl

  polygon_of-is_polygon : (rings : List (Ring F)) → is_polygon (polygon_of rings) ≡ false
  polygon_of-is_polygon [] = refl
  polygon_of-is_polygon ((p, ps) ∷ rings) = not_position point_of (p ∷ ps) (λ q. refl)

  multi_polygon_of-is_polygon :
      (polygons : List (List (Ring F))) → is_polygon (multi_polygon_of polygons) ≡ false
  multi_polygon_of-is_polygon [] = refl
  multi_polygon_of-is_polygon (rings ∷ polygons) = not_position ring_of rings (λ r. refl)

  yield_items-rings :
      (rings : List (Ring F)) → yield_items (items_of ring_of rings) ≡ map ring_of rings
  unfolding yield_polygons
  yield_items-rings [] = refl
  yield_items-rings ((p, ps) ∷ rings) = ap (◌∷◌ (ring_of (p, ps))) (yield_items-rings rings)

  yield_polygons-polygon_of :
      (rings : List (Ring F)) → yield_polygons (polygon_of rings) ≡ map ring_of rings
  unfolding yield_polygons
  yield_polygons-polygon_of rings = rw (polygon_of-is_polygon rings) (yield_items-rings rings)

  yield_items-polygons :
      (polygons : List (List (Ring F)))
      → yield_items (items_of polygon_of polygons) ≡ map ring_of (concat polygons)
  unfolding yield_polygons
  yield_items-polygons [] = refl
  yield_items-polygons (rings ∷ polygons) =
      ap₂ ◌++◌ (yield_polygons-polygon_of rings) (yield_items-polygons polygons)
      ∙ sym (map-append ring_of rings (concat polygons))

  -- Coordinates of the depth of a MultiPolygon give the rings of all their polygons, in order, and
  -- those of the depth of a Polygon theirs.
  pub yield_polygons-rings :
      (polygons : List (List (Ring F))) (rings : List (Ring F))
      → (yield_polygons (multi_polygon_of polygons) ≡ map ring_of (concat polygons))
        × (yield_polygons (polygon_of rings) ≡ map ring_of rings)
  unfolding yield_polygons
  yield_polygons-rings polygons rings = (
    rw (multi_polygon_of-is_polygon polygons) (yield_items-polygons polygons),
    yield_polygons-polygon_of rings,
  )
