-- ===== src/BitVec/Compare.antt =====
-- Comparisons and bit patterns: lines 996-1071 of src/core/util.cpp.
pub mod Laws
use smtlibparser.Prelude.{
  ℕ, ◌+◌, ◌-◌, ◌^◌, Bool, true, false, not, ◌&&◌, List, [], ◌∷◌, Bytes, ltb, leb, same, ◌==◌,
  if◌then◌else◌, length, get_or, take, drop, replicate,
}
use Prim.Native.Nat.{compare, Ordering}
use smtlibparser.Prelude.Int.{ℤ, ltb_ℤ}
use smtlibparser.Result.{Result, ok, err, ◌>>=◌, ◌>>◌, cond_assert}
use smtlibparser.Kind.{
  NodeKind, nt_eq_other, nt_distinct_other, nt_bv_ult, nt_bv_ule, nt_bv_ugt, nt_bv_uge, nt_bv_slt,
  nt_bv_sle, nt_bv_sgt, nt_bv_sge,
}
use smtlibparser.BitVec.{is_literal, lit, to_ulong, read_bits_64}
use smtlibparser.BitVec.Arith.{bv_to_nat, bv_to_int, is_zero}

-- The test of two numbers of the same reading.
abbrev both {ℓ} : {A : Type ℓ} → Result A → Result A → (A → A → Bool) → Result Bool
both x y test = do a ← x; b ← y; ok (test a b)

-- The switch of bvComp.
pub comp : NodeKind → Bytes → Bytes → Result Bool
comp nt_eq_other bv1 bv2 = ok (same bv1 bv2)
comp nt_distinct_other bv1 bv2 = ok (not (same bv1 bv2))
comp nt_bv_ult bv1 bv2 = both (bv_to_nat bv1) (bv_to_nat bv2) (λ a b. ltb a b)
comp nt_bv_ule bv1 bv2 = both (bv_to_nat bv1) (bv_to_nat bv2) (λ a b. leb a b)
comp nt_bv_ugt bv1 bv2 = both (bv_to_nat bv1) (bv_to_nat bv2) (λ a b. ltb b a)
comp nt_bv_uge bv1 bv2 = both (bv_to_nat bv1) (bv_to_nat bv2) (λ a b. leb b a)
comp nt_bv_slt bv1 bv2 = both (bv_to_int bv1) (bv_to_int bv2) (λ a b. ltb_ℤ a b)
comp nt_bv_sle bv1 bv2 = both (bv_to_int bv1) (bv_to_int bv2) (λ a b. not (ltb_ℤ b a))
comp nt_bv_sgt bv1 bv2 = both (bv_to_int bv1) (bv_to_int bv2) (λ a b. ltb_ℤ b a)
comp nt_bv_sge bv1 bv2 = both (bv_to_int bv1) (bv_to_int bv2) (λ a b. not (ltb_ℤ a b))
comp _ bv1 bv2 = ok false

pub bv_comp : Bytes → Bytes → NodeKind → Result Bool
unfolding is_literal comp
bv_comp bv1 bv2 kind = do
  cond_assert (is_literal bv1)
  cond_assert (is_literal bv2)
  comp kind bv1 bv2

-- std::all_of(from, to, c == bit)
pub all_are : ℕ → Bytes → Bool
all_are bit [] = true
all_are bit (c ∷ cs) = (c == bit) && all_are bit cs

pub bv_is_max_signed : Bytes → Result Bool
unfolding is_literal all_are
bv_is_max_signed bv = do
  cond_assert (ltb 2 (length bv) && is_literal bv)
  ok (if get_or bv 2 0 == b'0' then all_are b'1' (drop 3 bv) else false)

pub bv_is_min_signed : Bytes → Result Bool
unfolding is_literal all_are
bv_is_min_signed bv = do
  cond_assert (ltb 2 (length bv) && is_literal bv)
  ok (if get_or bv 2 0 == b'1' then all_are b'0' (drop 3 bv) else false)

pub bv_is_max_unsigned : Bytes → Result Bool
unfolding is_literal all_are
bv_is_max_unsigned bv = do
  cond_assert (ltb 2 (length bv) && is_literal bv)
  ok (all_are b'1' (drop 2 bv))

pub bv_is_neg_one : Bytes → Result Bool
unfolding bv_is_max_unsigned
bv_is_neg_one bv = bv_is_max_unsigned bv

-- The results -1, 0 and 1 are the three orderings. A set bit above bit 63 decides at once.
pub bv_compare_to_uint : Bytes → ℕ → Result Ordering
unfolding is_literal
bv_compare_to_uint bv u = do
  cond_assert (ltb 2 (length bv) && is_literal bv)
  let width = length bv - 2
  let high = width - 64
  ok (
      if is_zero (take high (drop 2 bv))
      then compare (read_bits_64 0 (drop high (drop 2 bv))) u
      else Ordering.gt)

pub mk_ones : ℕ → Result Bytes
unfolding to_ulong
mk_ones n = do w ← to_ulong n; ok (lit (replicate w b'1'))
