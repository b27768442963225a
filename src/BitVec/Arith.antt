-- ===== src/BitVec/Arith.antt =====
-- Conversions and arithmetic: lines 680-805, 1025-1032, 1072-1082 and 1191-1236 of
-- src/core/util.cpp. GMP prints numbers for the unbounded paths.
pub mod Convert
pub mod Ring
pub mod Divide
use smtlibparser.Prelude.{
  ℕ, zero, suc, ◌+◌, ◌-◌, ◌*◌, ◌/◌, ◌%◌, ◌^◌, Bool, true, false, List, [], ◌∷◌, ◌++◌, Bytes, ltb,
  leb, ◌==◌, if◌then◌else◌, length, get_or, drop, take, replicate,
}
use Prim.Native.Nat.{max}
use smtlibparser.Prelude.Int.{ℤ, pos, negsuc, ◌+ℤ◌, ◌-ℤ◌, ltb_ℤ}
use smtlibparser.Result.{Result, ok, err, undefined, ◌>>=◌, ◌>>◌, cond_assert}
use smtlibparser.BitVec.{
  read_bits, read_bits_64, write_bits, is_literal, to_ulong, lit, value, to_bits, Gmp,
}

-- -n
unfoldable pub neg : ℕ → ℤ
neg zero = pos 0
neg (suc n) = negsuc n

-- mpz_class operator%, whose result has the sign of the dividend.
unfoldable pub trunc_mod : ℤ → ℕ → ℤ
unfolding neg
trunc_mod (pos a) m = pos (a % m)
trunc_mod (negsuc a) m = neg (suc a % m)

unfoldable pub bv_to_nat : Bytes → Result ℕ
unfolding is_literal
bv_to_nat bv = do cond_assert (is_literal bv); ok (value (drop 2 bv))

-- bv.substr(0, 2) == "#b"; bv[2] of an empty literal reads the terminating zero.
unfoldable pub bv_to_int : Bytes → Result ℤ
unfolding is_literal
bv_to_int bv = do
  cond_assert (is_literal bv)
  let u = value (drop 2 bv)
  ok (if get_or bv 2 0 == b'1' then pos u -ℤ pos (2 ^ (length bv - 2)) else pos u)

-- Padded with zeros on the left, or cut to the low digits.
unfoldable pub fit : ℕ → Bytes → Bytes
fit bits bin =
    if ltb (length bin) bits
    then replicate (bits - length bin) b'0' ++ bin
    else drop (length bin - bits) bin

-- The remainder moved into [0, 2^n).
unfoldable pub wrap : ℤ → ℕ → ℤ
unfolding trunc_mod ◌+ℤ◌
wrap i two_n = let m = trunc_mod i two_n in if ltb_ℤ m (pos 0) then m +ℤ pos two_n else m

module _ (gmp : Gmp) where
  open gmp use {to_string}

  unfoldable pub int_to_bv : ℤ → ℕ → Result Bytes
  unfolding to_ulong wrap fit
  int_to_bv i n = do
    bits ← to_ulong n
    cond_assert (ltb 0 bits)
    ok (lit (fit bits (to_string (wrap i (2 ^ bits)))))

  -- natToBv(const Integer&, const Integer&)
  pub nat_to_bv : ℤ → ℕ → Result Bytes
  unfolding to_ulong fit
  nat_to_bv i n = do bits ← to_ulong n; ok (lit (fit bits (to_string i)))

  -- The common shape of bvAdd, bvSub and bvMul: `fast` on uint64_t up to 64 bits, `slow` beyond.
  abbrev ring_op : (ℕ → ℕ → ℕ) → (ℕ → ℕ → ℤ) → Bytes → Bytes → Result Bytes
  ring_op fast slow bv1 bv2 = do
    cond_assert (is_literal bv1)
    cond_assert (is_literal bv2)
    let w = max (length bv1) (length bv2) - 2
    let u1 = drop 2 bv1
    let u2 = drop 2 bv2
    if leb w 64
        then ok (lit (to_bits w (fast (read_bits_64 0 u1) (read_bits_64 0 u2) % 2 ^ w)))
        else int_to_bv (slow (value u1) (value u2)) w

  pub bv_add : Bytes → Bytes → Result Bytes
  bv_add = ring_op (λ a b. (a + b) % 2 ^ 64) (λ a b. pos a +ℤ pos b)

  -- uint64_t subtraction wraps around.
  pub bv_sub : Bytes → Bytes → Result Bytes
  bv_sub = ring_op (λ a b. (a + 2 ^ 64 - b) % 2 ^ 64) (λ a b. pos a -ℤ pos b)

  pub bv_mul : Bytes → Bytes → Result Bytes
  bv_mul = ring_op (λ a b. a * b % 2 ^ 64) (λ a b. pos (a * b))

-- bool bv2IsZero: the loop stops at the first '1'.
pub is_zero : Bytes → Bool
is_zero [] = true
is_zero (c ∷ cs) = if c == b'1' then false else is_zero cs

-- u1 / u2 and u1 % u2 over uint64_t; a zero divisor is undefined, where u2 has wrapped to 0.
abbrev div_64 : (ℕ → ℕ → ℕ) → ℕ → ℕ → Result ℕ
div_64 f a b = if b == 0 then err undefined else ok (f a b)

module _ (gmp : Gmp) where
  -- The common shape of bvUdiv and bvUrem, with what they return at a zero divisor.
  abbrev div_op : (ℕ → ℕ → ℕ) → (Bytes → Bytes) → Bytes → Bytes → Result Bytes
  div_op f at_zero bv1 bv2 = do
    cond_assert (is_literal bv1)
    cond_assert (is_literal bv2)
    let w = length bv1 - 2
    let u1 = drop 2 bv1
    let u2 = drop 2 bv2
    if is_zero u2
        then ok (at_zero bv1)
        else if leb w 64
        then (do r ← div_64 f (read_bits_64 0 u1) (read_bits_64 0 u2); ok (lit (to_bits w r)))
        else int_to_bv gmp (pos (f (value u1) (value u2))) w

  pub bv_udiv : Bytes → Bytes → Result Bytes
  bv_udiv = div_op (λ a b. a / b) (λ bv1. lit (replicate (length bv1 - 2) b'1'))

  pub bv_urem : Bytes → Bytes → Result Bytes
  bv_urem = div_op (λ a b. a % b) (λ bv1. bv1)

  pub bv_umod : Bytes → Bytes → Result Bytes
  unfolding bv_urem is_literal
  bv_umod bv1 bv2 = do cond_assert (is_literal bv1); cond_assert (is_literal bv2); bv_urem bv1 bv2
