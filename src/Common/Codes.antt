-- ===== src/Common/Codes.antt =====
-- Texts by their code units, and what the language does with them: `===`, `split`, `trim`,
-- `indexOf`, and the set that `new Set(list)` makes.
use Prim.Native.Char.{code}
use Prim.Native.Nat.{ℕ, suc}
use Prim.Native.String.{String}
use mathlib.Core.Path.{◌≡◌, refl, ap₂}
use mathlib.Core.Logic.{◌↔◌}
use mathlib.Core.Bool.{Bool, true, false, ◌&&◌, ◌||◌}
use mathlib.Core.Option.{Option, none, some}
use mathlib.Core.List.{List, [], ◌∷◌, ◌++◌}
use native.Mathlib.Omega.{arith}
use rbmq_demo.Common.Tests.{Key, ◌==◌, leb, nat_beq, nat_beq_iff, if◌then◌else◌, both_true}
use rbmq_demo.Common.Groups.{foldl}

abbrev pub Codes : Type 0
Codes = List ℕ

-- The units of a text whose letters are one unit each.
abbrev pub codes : String → Codes
codes String.[] = []
codes (String.◌∷◌ c s) = code c ∷ codes s

abbrev pub same_codes : Codes → Codes → Bool
same_codes [] [] = true
same_codes (c ∷ s) (d ∷ t) = nat_beq c d && same_codes s t
same_codes _ _ = false

pub same_codes_self : (s : Codes) → same_codes s s ≡ true
same_codes_self [] = refl
same_codes_self (c ∷ s) = ground (arith, same_codes_self s)

same_codes_eq : (s t : Codes) → same_codes s t ≡ true → s ≡ t
same_codes_eq [] [] h = refl
same_codes_eq [] (d ∷ t) h = ground arith
same_codes_eq (c ∷ s) [] h = ground arith
same_codes_eq (c ∷ s) (d ∷ t) h =
    let both : (nat_beq c d ≡ true) × (same_codes s t ≡ true) =
      both_true (nat_beq c d) (same_codes s t) h in
    ap₂ ◌∷◌ ((nat_beq_iff c d).0 both.0) (same_codes_eq s t both.1)

pub same_codes_iff : (s t : Codes) → (same_codes s t ≡ true) ↔ (s ≡ t)
same_codes_iff s t = (same_codes_eq s t, λ e. rw e (same_codes_self t))

instance abbrev pub codes_key : Key Codes
codes_key = record { same = same_codes; same_iff = same_codes_iff }

abbrev pub is_empty : Codes → Bool
is_empty [] = true
is_empty (_ ∷ _) = false

-- White space and line ends, as `trim` takes them.
abbrev pub is_white_space : ℕ → Bool
is_white_space c =
    (leb 9 c && leb c 13)
    || nat_beq c 32
    || nat_beq c 160
    || nat_beq c 5760
    || (leb 8192 c && leb c 8202)
    || (leb 8232 c && leb c 8233)
    || nat_beq c 8239
    || nat_beq c 8287
    || nat_beq c 12288
    || nat_beq c 65279

unfoldable pub trim_start : Codes → Codes
trim_start [] = []
trim_start (c ∷ s) = if is_white_space c then trim_start s else c ∷ s

unfoldable pub trim_end : Codes → Codes
trim_end [] = []
trim_end (c ∷ s) =
    let rest = trim_end s in if is_white_space c && is_empty rest then [] else c ∷ rest

unfoldable pub trim : Codes → Codes
unfolding trim_start trim_end
trim s = trim_end (trim_start s)

abbrev pub push_code : ℕ → List Codes → List Codes
push_code c [] = (c ∷ []) ∷ []
push_code c (w ∷ ws) = (c ∷ w) ∷ ws

unfoldable pub split : ℕ → Codes → List Codes
split separator [] = [] ∷ []
split separator (c ∷ s) =
    let rest = split separator s in if nat_beq c separator then [] ∷ rest else push_code c rest

abbrev pub index_after : Option ℕ → Option ℕ
index_after none = none
index_after (some i) = some (suc i)

-- `s.indexOf(c)`, none for -1.
unfoldable pub index_of : ℕ → Codes → Option ℕ
index_of c [] = none
index_of c (d ∷ s) = if nat_beq d c then some 0 else index_after (index_of c s)

module _ {ℓ} {K : Type ℓ} ⦃e : Key K⦄ where
  abbrev pub among : K → List K → Bool
  among k [] = false
  among k (j ∷ js) = j == k || among k js

  abbrev pub add_new : List K → K → List K
  add_new js k = if among k js then js else js ++ k ∷ []

  -- `Array.from(new Set(ks))`
  unfoldable pub dedup : List K → List K
  dedup ks = foldl add_new [] ks
