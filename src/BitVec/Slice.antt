-- ===== src/BitVec/Slice.antt =====
-- Concatenation, extraction, repetition, extension and rotation: lines 952-994 of
-- src/core/util.cpp. The Integer arguments are not negative; toULong limits them to 64 bits.
pub mod Laws
use smtlibparser.Prelude.{
  ℕ, zero, suc, ◌+◌, ◌-◌, ◌/◌, ◌%◌, ◌^◌, List, [], ◌∷◌, ◌++◌, Bytes, ltb, leb, ◌==◌, if◌then◌else◌,
  length, get_or, take, drop, replicate,
}
use smtlibparser.Result.{Result, ok, err, out_of_range, domain, ◌>>=◌, ◌>>◌, cond_assert}
use smtlibparser.BitVec.{is_literal, lit, to_ulong}

-- s.substr(start, count), which throws where start is past the end.
pub substr : Bytes → ℕ → ℕ → Result Bytes
substr s start count =
    if ltb (length s) start then err out_of_range else ok (take count (drop start s))

pub bv_concat : Bytes → Bytes → Result Bytes
unfolding is_literal
bv_concat bv1 bv2 = do
  cond_assert (is_literal bv1)
  cond_assert (is_literal bv2)
  ok (lit (take (length bv1 - 2) (drop 2 bv1) ++ take (length bv2 - 2) (drop 2 bv2)))

-- The positions are size_t: a bit outside the vector wraps around.
pub bv_extract : Bytes → ℕ → ℕ → Result Bytes
unfolding is_literal to_ulong substr
bv_extract bv i j = do
  cond_assert (is_literal bv)
  cond_assert (leb j i)
  hi ← to_ulong i
  lo ← to_ulong j
  let bit_width = length bv - 2
  let start_pos = (2 + (bit_width + 2 ^ 64 - 1 - hi)) % 2 ^ 64
  bits ← substr bv start_pos ((hi - lo + 1) % 2 ^ 64)
  ok (lit bits)

repeat_bits : ℕ → Bytes → Bytes
repeat_bits zero bits = []
repeat_bits (suc n) bits = bits ++ repeat_bits n bits

pub bv_repeat : Bytes → ℕ → Result Bytes
unfolding is_literal to_ulong repeat_bits
bv_repeat bv n = do
  cond_assert (is_literal bv)
  times ← to_ulong n
  ok (lit (repeat_bits times (drop 2 bv)))

pub bv_zero_extend : Bytes → ℕ → Result Bytes
unfolding is_literal to_ulong
bv_zero_extend bv n = do
  cond_assert (is_literal bv)
  times ← to_ulong n
  ok (lit (replicate times b'0' ++ drop 2 bv))

pub bv_sign_extend : Bytes → ℕ → Result Bytes
unfolding is_literal to_ulong
bv_sign_extend bv n = do
  cond_assert (is_literal bv)
  times ← to_ulong n
  ok (lit (replicate times (get_or bv 2 0) ++ drop 2 bv))

-- `real_n` is computed and not used. A remainder by the width 0 is an exception of the Integer.
pub bv_rotate_left : Bytes → ℕ → Result Bytes
unfolding is_literal to_ulong substr
bv_rotate_left bv n = do
  cond_assert (is_literal bv)
  let width = length bv - 2
  if width == 0 then err domain else ok tt
  amount ← to_ulong n
  low ← substr bv (2 + amount) ((width + 2 ^ 64 - amount) % 2 ^ 64)
  high ← substr bv 2 amount
  ok (lit (low ++ high))

pub bv_rotate_right : Bytes → ℕ → Result Bytes
unfolding is_literal to_ulong substr
bv_rotate_right bv n = do
  cond_assert (is_literal bv)
  let width = length bv - 2
  if width == 0 then err domain else ok tt
  amount ← to_ulong n
  low ← substr bv ((2 + width + 2 ^ 64 - amount) % 2 ^ 64) amount
  high ← substr bv 2 ((width + 2 ^ 64 - amount) % 2 ^ 64)
  ok (lit (low ++ high))
