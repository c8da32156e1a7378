-- ===== src/Common/Integers.antt =====
-- Whole numbers below zero as well: `negsuc n` is -1 - n.
use Prim.Native.Nat.{ℕ}
use mathlib.Core.Path.{◌≡◌, refl}
use mathlib.Core.Bool.{Bool, true, false}
use native.Mathlib.Omega.{arith}
use rbmq_demo.Common.Tests.{leb, nat_beq}

pub data ℤ : Type 0 where
  pos negsuc : ℕ → ℤ

abbrev pub is_zero : ℤ → Bool
is_zero (pos n) = nat_beq n 0
is_zero (negsuc n) = false

-- `j - k <= 0`
abbrev pub int_leb : ℤ → ℤ → Bool
int_leb (pos m) (pos n) = leb m n
int_leb (pos m) (negsuc n) = false
int_leb (negsuc m) (pos n) = true
int_leb (negsuc m) (negsuc n) = leb n m

pub int_leb_trans : (i j k : ℤ) → int_leb i j ≡ true → int_leb j k ≡ true → int_leb i k ≡ true
int_leb_trans (pos i) (pos j) (pos k) h l = ground arith
int_leb_trans (pos i) (pos j) (negsuc k) h l = ground arith
int_leb_trans (pos i) (negsuc j) k h l = ground arith
int_leb_trans (negsuc i) (pos j) (pos k) h l = refl
int_leb_trans (negsuc i) (pos j) (negsuc k) h l = ground arith
int_leb_trans (negsuc i) (negsuc j) (pos k) h l = refl
int_leb_trans (negsuc i) (negsuc j) (negsuc k) h l = ground arith

pub int_leb_total : (i j : ℤ) → int_leb i j ≡ false → int_leb j i ≡ true
int_leb_total (pos i) (pos j) h = ground arith
int_leb_total (pos i) (negsuc j) h = refl
int_leb_total (negsuc i) (pos j) h = ground arith
int_leb_total (negsuc i) (negsuc j) h = ground arith
