-- ===== src/MapShapes.antt =====
-- web/components/worldmap.tsx: the rings of the shapes on the map, found in coordinates of any
-- depth, and the cut of a path where it passes from one half of the map to the other. The
-- numbers of the shapes are of type `F`.
pub mod Rings
pub mod Cuts
use rbmq_demo.Common.{
  ℕ, zero, suc, nat_beq, Option, none, some, List, [], ◌∷◌, ◌++◌, map, Bool, true, false, ◌&&◌, ltb,
  length, take, drop, if◌then◌else◌,
}
use rbmq_demo.Common.Codes.{index_after}
use rbmq_demo.Common.Integers.{ℤ, pos, negsuc}

-- What `JSON.parse` may have made of the coordinates: a number, an array, or any other value.
mutual
  pub data Coordinates (F : Type 0) : Type 0 where
    number : F → Coordinates F
    other : Coordinates F
    array : Items F → Coordinates F

  pub data Items (F : Type 0) : Type 0 where
    nil : Items F
    cons : Coordinates F → Items F → Items F

pub record Feature (F : Type 0) : Type 0 where
  pub coordinates : Option (Coordinates F)

pub record FlatShape (F : Type 0) : Type 0 where
  pub group_id : ℕ
  pub feature : Feature F
  pub polygon : Coordinates F

module _ {F : Type 0} where
  abbrev pub is_number : Coordinates F → Bool
  is_number (number x) = true
  is_number other = false
  is_number (array items) = false

  -- An array of two numbers.
  abbrev pub is_position : Coordinates F → Bool
  is_position (array (cons a (cons b nil))) = is_number a && is_number b
  is_position _ = false

  abbrev pub is_polygon : Coordinates F → Bool
  is_polygon (array (cons a items)) = is_position a
  is_polygon _ = false

unfoldable mutual
  pub yield_polygons : {F : Type 0} → Coordinates F → List (Coordinates F)
  yield_polygons (number x) = []
  yield_polygons other = []
  yield_polygons (array items) =
      let inner = yield_items items in if is_polygon (array items) then array items ∷ [] else inner

  pub yield_items : {F : Type 0} → Items F → List (Coordinates F)
  yield_items nil = []
  yield_items (cons v items) = yield_polygons v ++ yield_items items

module _ {F : Type 0} where
  abbrev pub shapes_of : ℕ → Feature F → Option (Coordinates F) → List (FlatShape F)
  unfolding yield_polygons
  shapes_of group_id feature none = []
  shapes_of group_id feature (some v) =
      map (λ p. record { group_id = group_id; feature = feature; polygon = p }) (yield_polygons v)

  abbrev pub shapes_from : ℕ → List (Feature F) → List (FlatShape F)
  unfolding shapes_of
  shapes_from group_id [] = []
  shapes_from group_id (feature ∷ features) =
      shapes_of group_id feature feature.coordinates ++ shapes_from (suc group_id) features

  unfoldable pub to_flat_shape : List (Feature F) → List (FlatShape F)
  unfolding shapes_from
  to_flat_shape features = shapes_from 0 features

module _ {P : Type 0} where
  abbrev pub push_piece : List P → List (List P) → List (List P)
  push_piece piece pieces = if ltb 1 (length piece) then piece ∷ pieces else pieces

  -- A piece of one point is dropped.
  abbrev pub cut_at : List P → Option ℕ → List (List P)
  cut_at points none = points ∷ []
  cut_at points (some i) = push_piece (take (suc i) points) (push_piece (drop (suc i) points) [])

-- The sign of `Math.sin(((lon + 180) * Math.PI) / 180)` for a longitude from -180 to 180, which
-- `xyzToLatLon` gives, in a unit that 180 degrees have `half` of. `Math.PI` is a little less than
-- half a turn, so that the sine at 0 is above 0 and the one at 180 below.
pub data Sign : Type 0 where
  below at_zero above : Sign

abbrev pub sine : ℕ → ℤ → Sign
sine half (pos zero) = above
sine half (pos (suc n)) = below
sine half (negsuc n) = if nat_beq (suc n) half then at_zero else above

-- The product of two sines is less than 0.
abbrev pub opposite : Sign → Sign → Bool
opposite below above = true
opposite above below = true
opposite _ _ = false

module _ {P : Type 0} (half : ℕ) (lon : P → ℤ) where
  -- The index of the first point whose sine and that of the next one have opposite signs.
  unfoldable pub mark_vector3 : List P → Option ℕ
  mark_vector3 [] = none
  mark_vector3 (p ∷ []) = none
  mark_vector3 (p ∷ q ∷ ps) =
      let later = mark_vector3 (q ∷ ps) in
      if opposite (sine half (lon p)) (sine half (lon q)) then some 0 else index_after later

  -- `toGeodesicPaths` from its points on.
  unfoldable pub cut_paths : List P → List (List P)
  unfolding mark_vector3
  cut_paths points = cut_at points (mark_vector3 points)
