-- ===== src/Common/Ascending.antt =====
-- Strictly ascending lists of numbers: what `xs.sort((a, b) => a - b)` keeps of distinct ones.
use Prim.Native.Nat.{ℕ}
use mathlib.Core.Path.{◌≡◌, refl, ap, ◌∙◌}
use mathlib.Core.Logic.{inl, inr}
use mathlib.Core.Bool.{Bool, true, false, ◌||◌, ◌&&◌}
use mathlib.Core.List.{List, [], ◌∷◌, ◌++◌}
use native.Mathlib.Omega.{arith}
use rbmq_demo.Common.Tests.{ltb, leb, nat_beq, Bool-cases}
use rbmq_demo.Common.Lists.{All, All-impl, All-filter, filter}
use rbmq_demo.Common.Sort.{insert_by, sort_by, insert_by-All, IsSorted}

abbrev pub contains : ℕ → List ℕ → Bool
contains n [] = false
contains n (m ∷ ms) = nat_beq m n || contains n ms

abbrev pub IsAscending : List ℕ → Type 0
IsAscending ns = IsSorted ltb ns

abbrev pub AreDistinct : List ℕ → Type 0
AreDistinct [] = Unit
AreDistinct (n ∷ ns) = (contains n ns ≡ false) × AreDistinct ns

pub contains-append :
    (n : ℕ) (ns ms : List ℕ) → contains n (ns ++ ms) ≡ (contains n ns || contains n ms)
contains-append n [] ms = refl
contains-append n (m ∷ ns) ms = ground (arith, contains-append n ns ms)

contains-insert_by :
    (n m : ℕ) (ns : List ℕ) → contains n (insert_by leb m ns) ≡ (nat_beq m n || contains n ns)
unfolding insert_by
contains-insert_by n m [] = refl
contains-insert_by n m (k ∷ ns) = ground (arith, contains-insert_by n m ns)

pub contains-sort_by : (n : ℕ) (ns : List ℕ) → contains n (sort_by leb ns) ≡ contains n ns
unfolding sort_by
contains-sort_by n [] = refl
contains-sort_by n (m ∷ ns) =
    contains-insert_by n m (sort_by leb ns) ∙ ap (λ b. nat_beq m n || b) (contains-sort_by n ns)

pub contains-filter :
    (p : ℕ → Bool) (n : ℕ) (ns : List ℕ) → contains n (filter p ns) ≡ (p n && contains n ns)
contains-filter p n [] = ground arith
contains-filter p n (m ∷ ns) = elim (Bool-cases (nat_beq m n)) [
  | inl e ↦
      let same : m ≡ n = ground arith in
      let here : p m ≡ p n = ap p same in ground (arith, here, contains-filter p n ns)
  | inr e ↦ ground (arith, contains-filter p n ns)
]

absent_All : (n : ℕ) (ns : List ℕ) → contains n ns ≡ false → All (λ m. nat_beq m n ≡ false) ns
absent_All n [] h = tt
absent_All n (m ∷ ns) h = (ground arith, absent_All n ns (ground arith))

insert_by-IsAscending :
    (n : ℕ) (ns : List ℕ)
    → contains n ns ≡ false
    → IsAscending ns
    → IsAscending (insert_by leb n ns)
unfolding insert_by
insert_by-IsAscending n [] h s = (tt, tt)
insert_by-IsAscending n (m ∷ ns) h (below, s) = elim (Bool-cases (leb n m)) [
  | inl e ↦ rw e ((ground arith, All-impl (λ k l. ground arith) ns below), (below, s))
  | inr e ↦ rw e (
    insert_by-All leb (λ k. ltb m k ≡ true) n ns (ground arith) below,
    insert_by-IsAscending n ns (ground arith) s,
  )
]

pub sort_by-IsAscending : (ns : List ℕ) → AreDistinct ns → IsAscending (sort_by leb ns)
unfolding sort_by
sort_by-IsAscending [] h = tt
sort_by-IsAscending (n ∷ ns) (p, h) =
    insert_by-IsAscending n (sort_by leb ns) (contains-sort_by n ns ∙ p) (sort_by-IsAscending ns h)

above_absent : (n : ℕ) (ns : List ℕ) → All (λ m. ltb n m ≡ true) ns → contains n ns ≡ false
above_absent n [] h = refl
above_absent n (m ∷ ns) (p, h) = ground (arith, above_absent n ns h)

-- A new number after ascending ones leaves them distinct.
pub snoc-AreDistinct :
    (ns : List ℕ) (n : ℕ) → IsAscending ns → contains n ns ≡ false → AreDistinct (ns ++ n ∷ [])
snoc-AreDistinct [] n s h = (refl, tt)
snoc-AreDistinct (m ∷ ns) n (below, s) h = (
  ground (arith, contains-append m ns (n ∷ []), above_absent m ns below),
  snoc-AreDistinct ns n s (ground arith),
)

pub filter-IsAscending : (p : ℕ → Bool) (ns : List ℕ) → IsAscending ns → IsAscending (filter p ns)
filter-IsAscending p [] s = tt
filter-IsAscending p (n ∷ ns) (below, s) = elim (Bool-cases (p n)) [
  | inl e ↦ rw e (All-filter _ p ns below, filter-IsAscending p ns s)
  | inr e ↦ rw e (filter-IsAscending p ns s)
]
