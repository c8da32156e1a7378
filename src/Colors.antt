-- ===== src/Colors.antt =====
-- web/components/colorfunc.tsx: the colour of a latency, in whole milliseconds.
use rbmq_demo.Common.{
  ℕ, Option, none, some, List, [], ◌∷◌, Bool, true, ◌&&◌, leb, ltb, if◌then◌else◌,
}

pub data LatencyColor : Type 0 where
  inherit color_green color_yellow color_red color_grey : LatencyColor

-- The range is [left, right), without a right end where the source has Infinity.
pub record ColorEncoding : Type 0 where
  pub color : LatencyColor
  pub left : ℕ
  pub right : Option ℕ

abbrev pub encodings : List ColorEncoding
encodings =
    record { color = color_green; left = 0; right = some 100 }
    ∷ record { color = color_yellow; left = 100; right = some 250 }
    ∷ record { color = color_red; left = 250; right = none }
    ∷ []

abbrev pub below : ℕ → Option ℕ → Bool
below n none = true
below n (some right) = ltb n right

abbrev pub encoded : List ColorEncoding → ℕ → LatencyColor
encoded [] latency = color_grey
encoded (e ∷ es) latency =
    if leb e.left latency && below latency e.right then e.color else encoded es latency

unfoldable pub get_latency_color : Option ℕ → LatencyColor
get_latency_color none = inherit
get_latency_color (some latency) = encoded encodings latency
