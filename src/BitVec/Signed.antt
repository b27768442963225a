-- ===== src/BitVec/Signed.antt =====
-- Signed division: lines 806-892 of src/core/util.cpp.

mod Tests
use smtlibparser.Prelude.{
  ℕ, ◌+◌, ◌-◌, ◌/◌, ◌^◌, Bool, ◌&&◌, ◌||◌, Bytes, ◌==◌, bytes, if◌then◌else◌, length,
}
use smtlibparser.Prelude.Int.{ℤ, pos, negsuc, pos_part, neg_part, ◌+ℤ◌, ◌-ℤ◌, ◌*ℤ◌, ltb_ℤ}
use smtlibparser.Result.{Result, ok, ◌>>=◌}
use smtlibparser.BitVec.{Gmp}
use smtlibparser.BitVec.Arith.{neg, trunc_mod, bv_to_int, int_to_bv}

-- a == b
pub equal_ℤ : ℤ → ℤ → Bool
equal_ℤ a b = (pos_part a == pos_part b) && (neg_part a == neg_part b)

-- a < 0 ? -a : a
pub magnitude : ℤ → ℕ
magnitude a = pos_part a + neg_part a

pub is_negative : ℤ → Bool
is_negative a = ltb_ℤ a (pos 0)

-- neg = (a < 0) ^ (b < 0); its callers give a divisor that is not zero.
pub trunc_div : ℤ → ℤ → ℤ
unfolding magnitude is_negative
trunc_div a b =
    let q = magnitude a / magnitude b in
    if is_negative a
    then (if is_negative b then pos q else neg q)
    else (if is_negative b then neg q else pos q)

-- Its caller gives a divisor above zero, |b|.
pub math_mod : ℤ → ℕ → ℤ
unfolding ◌+ℤ◌
math_mod a b = let m = trunc_mod a b in if ltb_ℤ m (pos 0) then m +ℤ pos b else m

module _ (gmp : Gmp) where
  -- The zero divisor has its own answers; min / -1 is min.
  pub bv_sdiv : Bytes → Bytes → Result Bytes
  unfolding equal_ℤ is_negative trunc_div
  bv_sdiv bv1 bv2 = do
    let n = length bv1 - 2
    a ← bv_to_int bv1
    b ← bv_to_int bv2
    let min_val = neg (2 ^ (n - 1))
    if equal_ℤ b (pos 0)
        then if n == 1
          then ok (bytes "#b1")
          else int_to_bv gmp (if is_negative a then pos 1 else a) n
        else if equal_ℤ a min_val && equal_ℤ b (negsuc 0)
        then int_to_bv gmp min_val n
        else int_to_bv gmp (trunc_div a b) n

  pub bv_srem : Bytes → Bytes → Result Bytes
  unfolding equal_ℤ trunc_div ◌-ℤ◌ ◌*ℤ◌
  bv_srem bv1 bv2 = do
    let n = length bv1 - 2
    a ← bv_to_int bv1
    b ← bv_to_int bv2
    if equal_ℤ b (pos 0) then ok bv1 else int_to_bv gmp (a -ℤ trunc_div a b *ℤ b) n

  pub bv_smod : Bytes → Bytes → Result Bytes
  unfolding equal_ℤ math_mod magnitude is_negative ◌-ℤ◌
  bv_smod bv1 bv2 = do
    let n = length bv1 - 2
    a ← bv_to_int bv1
    b ← bv_to_int bv2
    let absb = magnitude b
    let m = math_mod a absb
    let r = pos absb -ℤ m
    let same_sign = (ltb_ℤ (pos 0) a && ltb_ℤ (pos 0) b) || (is_negative a && is_negative b)
    if equal_ℤ b (pos 0)
        then ok bv1
        else if equal_ℤ m (pos 0)
        then int_to_bv gmp (pos 0) n
        else if same_sign
        then int_to_bv gmp m n
        else int_to_bv gmp (if is_negative b then pos 0 -ℤ r else r) n
