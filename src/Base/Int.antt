-- ===== src/Base/Int.antt =====
-- Signed integers over the native numbers: Go's `int`.
use Prim.Native.Nat.{ℕ, zero, suc, ◌+◌, ◌-◌, ◌%◌, ◌<◌}
use mathlib.Core.Path.{◌≡◌}
use mathlib.Core.Logic.{◌↔◌}
use mathlib.Core.Bool.{Bool, true, false}
use native.Mathlib.Omega.{arith}
use transiter.Base.Tests.{ltb, nat_same, Comparable, if◌then◌else◌}

-- `negsuc n` is -(n + 1).
pub data ℤ : Type 0 where
  pos : ℕ → ℤ
  negsuc : ℕ → ℤ

abbrev pub pred_ℤ : ℤ → ℤ
pred_ℤ (pos zero) = negsuc 0
pred_ℤ (pos (suc n)) = pos n
pred_ℤ (negsuc n) = negsuc (suc n)

abbrev pub is_zero : ℤ → Bool
is_zero (pos zero) = true
is_zero _ = false

abbrev pub pos_part : ℤ → ℕ
pos_part (pos n) = n
pos_part (negsuc n) = 0

abbrev pub neg_part : ℤ → ℕ
neg_part (pos n) = 0
neg_part (negsuc n) = suc n

abbrev pub ltb_ℤ : ℤ → ℤ → Bool
ltb_ℤ a b = ltb (pos_part a + neg_part b) (pos_part b + neg_part a)

infix 50 ◌<ℤ◌
abbrev pub ◌<ℤ◌ : ℤ → ℤ → Type 0
a <ℤ b = pos_part a + neg_part b < pos_part b + neg_part a

abbrev pub int_same : ℤ → ℤ → Bool
int_same (pos a) (pos b) = nat_same a b
int_same (negsuc a) (negsuc b) = nat_same a b
int_same _ _ = false

pub int_same_iff : (a b : ℤ) → (int_same a b ≡ true) ↔ (a ≡ b)
int_same_iff a b = ground arith

instance abbrev pub int_keys : Comparable ℤ
int_keys = record { same = int_same; same_iff = int_same_iff }

abbrev pub suc_ℤ : ℤ → ℤ
suc_ℤ (pos n) = pos (suc n)
suc_ℤ (negsuc zero) = pos 0
suc_ℤ (negsuc (suc n)) = negsuc n

-- `int32(x)` of a `uint32`.
abbrev pub int32_of_uint32 : ℕ → ℤ
int32_of_uint32 x =
    let r = x % 4_294_967_296 in if ltb r 2_147_483_648 then pos r else negsuc (4_294_967_295 - r)

-- `uint32(x)` of an `int64`.
abbrev pub uint32_of_int64 : ℤ → ℕ
uint32_of_int64 (pos n) = n % 4_294_967_296
uint32_of_int64 (negsuc n) = 4_294_967_295 - n % 4_294_967_296
