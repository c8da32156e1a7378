-- ===== src/RouteDisplay/Stats.antt =====
-- web/components/RouteQueryResultDisplay.tsx: the least and the greatest length of the paths.
use rbmq_demo.Common.{
  ℕ, ◌≤◌, ◌≡◌, refl, sym, subst, ◌∙◌, ◌⊎◌, inl, inr, min, max, leb, Bool-cases, Option, none, some,
  List, [], ◌∷◌, length, All, arith,
}
use rbmq_demo.Common.Groups.{foldl}
use rbmq_demo.Common.Members.{IsIn}
use rbmq_demo.Mrt.{MrtEntry}
use rbmq_demo.RouteDisplay.{StatsScope, empty_scope, min_of, add_path, add_stats, stats_of}

-- A least length, if there is one, is at most this.
abbrev pub AtMost : Option ℕ → ℕ → Type 0
AtMost none n = ⊥
AtMost (some m) n = m ≤ n

-- A path that is not empty has a length between these two.
abbrev pub PathWithin : Option ℕ → ℕ → Option (List ℕ) → Type 0
PathWithin least most none = Unit
PathWithin least most (some []) = Unit
PathWithin least most (some (n ∷ path)) =
    AtMost least (length (n ∷ path)) × (length (n ∷ path) ≤ most)

abbrev Holds : StatsScope → List MrtEntry → Type 0
Holds sc es = All (λ e. PathWithin sc.min_len sc.max_len e.as_path) es

-- What the bounds of the one allow, those of the other do.
abbrev Grows : StatsScope → StatsScope → Type 0
Grows sc td = ((n : ℕ) → AtMost sc.min_len n → AtMost td.min_len n) × (sc.max_len ≤ td.max_len)

min_of-AtMost : (o : Option ℕ) (k n : ℕ) → AtMost o n → AtMost (some (min_of o k)) n
min_of-AtMost none k n h = absurd h
min_of-AtMost (some m) k n h = omega arith

min_of_le : (o : Option ℕ) (k : ℕ) → min_of o k ≤ k
min_of_le none k = omega arith
min_of_le (some m) k = omega arith

add_path-Grows : (sc : StatsScope) (o : Option (List ℕ)) → Grows sc (add_path sc o)
add_path-Grows sc none = (λ n h. h, omega arith)
add_path-Grows sc (some []) = (λ n h. h, omega arith)
add_path-Grows sc (some (p ∷ path)) =
    (λ n h. min_of-AtMost sc.min_len (length (p ∷ path)) n h, omega arith)

add_path-PathWithin :
    (sc : StatsScope) (o : Option (List ℕ))
    → PathWithin (add_path sc o).min_len (add_path sc o).max_len o
add_path-PathWithin sc none = tt
add_path-PathWithin sc (some []) = tt
add_path-PathWithin sc (some (p ∷ path)) = (min_of_le sc.min_len (length (p ∷ path)), omega arith)

foldl-Grows : (sc : StatsScope) (es : List MrtEntry) → Grows sc (foldl add_stats sc es)
foldl-Grows sc [] = (λ n h. h, omega arith)
foldl-Grows sc (e ∷ es) =
    let first = add_path-Grows sc e.as_path in
    let rest = foldl-Grows (add_stats sc e) es in
    (λ n h. rest.0 n (first.0 n h), omega (arith, first.1, rest.1))

PathWithin-Grows :
    (sc td : StatsScope) (o : Option (List ℕ))
    → Grows sc td
    → PathWithin sc.min_len sc.max_len o
    → PathWithin td.min_len td.max_len o
PathWithin-Grows sc td none g h = tt
PathWithin-Grows sc td (some []) g h = tt
PathWithin-Grows sc td (some (p ∷ path)) g (least, most) =
    (g.0 (length (p ∷ path)) least, omega (arith, g.1, most))

foldl-Holds : (sc : StatsScope) (es : List MrtEntry) → Holds (foldl add_stats sc es) es
foldl-Holds sc [] = tt
foldl-Holds sc (e ∷ es) = (
  PathWithin-Grows (add_stats sc e) (foldl add_stats (add_stats sc e) es) e.as_path
      (foldl-Grows (add_stats sc e) es) (add_path-PathWithin sc e.as_path),
  foldl-Holds (add_stats sc e) es,
)

abbrev pub add_length : Option (List ℕ) → List ℕ → List ℕ
add_length none ns = ns
add_length (some []) ns = ns
add_length (some (n ∷ path)) ns = length (n ∷ path) ∷ ns

-- The lengths of the paths that are not empty.
abbrev pub path_lengths : List MrtEntry → List ℕ
path_lengths [] = []
path_lengths (e ∷ es) = add_length e.as_path (path_lengths es)

-- The least length is that of a path, or there is no path.
abbrev pub IsLeastOf : Option ℕ → List ℕ → Type 0
IsLeastOf none ns = ns ≡ []
IsLeastOf (some n) ns = IsIn n ns

-- The greatest length is that of a path, or 0 if there is no path.
abbrev pub IsMostOf : ℕ → List ℕ → Type 0
IsMostOf n [] = n ≡ 0
IsMostOf n (m ∷ ms) = IsIn n (m ∷ ms)

-- The two lengths after some lengths.
abbrev least_after : Option ℕ → List ℕ → Option ℕ
least_after o [] = o
least_after o (n ∷ ns) = least_after (some (min_of o n)) ns

abbrev most_after : ℕ → List ℕ → ℕ
most_after m [] = m
most_after m (n ∷ ns) = most_after (max m n) ns

foldl-least_after :
    (sc : StatsScope) (es : List MrtEntry)
    → (foldl add_stats sc es).min_len ≡ least_after sc.min_len (path_lengths es)
foldl-least_after sc [] = refl
foldl-least_after sc (e ∷ es) = foldl-least_after (add_stats sc e) es ∙ one e.as_path
  where
    one :
        (o : Option (List ℕ))
        → least_after (add_path sc o).min_len (path_lengths es)
          ≡ least_after sc.min_len (add_length o (path_lengths es))
    one none = refl
    one (some []) = refl
    one (some (n ∷ path)) = refl

foldl-most_after :
    (sc : StatsScope) (es : List MrtEntry)
    → (foldl add_stats sc es).max_len ≡ most_after sc.max_len (path_lengths es)
foldl-most_after sc [] = refl
foldl-most_after sc (e ∷ es) = foldl-most_after (add_stats sc e) es ∙ one e.as_path
  where
    one :
        (o : Option (List ℕ))
        → most_after (add_path sc o).max_len (path_lengths es)
          ≡ most_after sc.max_len (add_length o (path_lengths es))
    one none = refl
    one (some []) = refl
    one (some (n ∷ path)) = refl

-- Of two lengths the one that is taken stands for both.
IsIn-either :
    (k m n p : ℕ) (ns : List ℕ) → (p ≡ m) ⊎ (p ≡ n) → IsIn k (p ∷ ns) → IsIn k (m ∷ n ∷ ns)
IsIn-either k m n p ns (inl e) (inl h) = inl (h ∙ e)
IsIn-either k m n p ns (inr e) (inl h) = inr (inl (h ∙ e))
IsIn-either k m n p ns e (inr h) = inr (inr h)

min_either : (m n : ℕ) → (min m n ≡ m) ⊎ (min m n ≡ n)
min_either m n = elim (Bool-cases (leb m n)) [
  | inl e ↦ inl (ground arith)
  | inr e ↦ inr (ground arith)
]

max_either : (m n : ℕ) → (max m n ≡ m) ⊎ (max m n ≡ n)
max_either m n = elim (Bool-cases (leb n m)) [
  | inl e ↦ inl (ground arith)
  | inr e ↦ inr (ground arith)
]

least_after-IsLeastOf : (m : ℕ) (ns : List ℕ) → IsLeastOf (least_after (some m) ns) (m ∷ ns)
least_after-IsLeastOf m [] = inl refl
least_after-IsLeastOf m (n ∷ ns) =
    wider (least_after (some (min m n)) ns) (least_after-IsLeastOf (min m n) ns)
  where
    wider : (o : Option ℕ) → IsLeastOf o (min m n ∷ ns) → IsLeastOf o (m ∷ n ∷ ns)
    wider none h = ground arith
    wider (some k) h = IsIn-either k m n (min m n) ns (min_either m n) h

most_after-IsIn : (m : ℕ) (ns : List ℕ) → IsIn (most_after m ns) (m ∷ ns)
most_after-IsIn m [] = inl refl
most_after-IsIn m (n ∷ ns) =
    IsIn-either (most_after (max m n) ns) m n (max m n) ns (max_either m n)
      (most_after-IsIn (max m n) ns)

IsLeastOf-none : (ns : List ℕ) → IsLeastOf (least_after none ns) ns
IsLeastOf-none [] = refl
IsLeastOf-none (n ∷ ns) = least_after-IsLeastOf n ns

IsMostOf-zero : (ns : List ℕ) → IsMostOf (most_after 0 ns) ns
IsMostOf-zero [] = refl
IsMostOf-zero (n ∷ ns) =
    let same : max 0 n ≡ n = omega arith in
    subst (λ k. IsIn (most_after (max 0 n) ns) (k ∷ ns)) same (most_after-IsIn (max 0 n) ns)

-- If some entry has a path that is not empty, then the least and the greatest length that the
-- display shows are those of two such paths, else there is no least length and the greatest is 0;
-- and the length of each path that is not empty lies between the two.
pub stats_of-PathWithin :
    (es : List MrtEntry)
    → let stats = stats_of es in
      IsLeastOf stats.min_path_len (path_lengths es)
      × IsMostOf stats.max_path_len (path_lengths es)
      × All (λ e. PathWithin stats.min_path_len stats.max_path_len e.as_path) es
unfolding stats_of
stats_of-PathWithin es = (
  subst (λ o. IsLeastOf o (path_lengths es)) (sym (foldl-least_after empty_scope es))
      (IsLeastOf-none (path_lengths es)),
  subst (λ n. IsMostOf n (path_lengths es)) (sym (foldl-most_after empty_scope es))
      (IsMostOf-zero (path_lengths es)),
  foldl-Holds empty_scope es,
)
