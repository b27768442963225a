-- ===== src/BitVec/Shift.antt =====
-- Shifts: lines 895-950 of src/core/util.cpp. They accept hexadecimal literals.
pub mod Laws
use smtlibparser.Prelude.{
  ℕ, zero, suc, ◌+◌, ◌-◌, ◌/◌, ◌%◌, ◌^◌, Bool, ◌&&◌, List, [], ◌∷◌, ◌++◌, Bytes, ltb, leb, ◌==◌,
  if◌then◌else◌, length, get_or, take, drop, replicate,
}
use smtlibparser.Result.{Result, ok, ◌>>=◌}
use smtlibparser.BitVec.{digit, is_literal, lit, to_ulong, write_bits}
use smtlibparser.BitVec.Arith.{bv_to_nat}

-- The value of a hexadecimal digit, 0 for any other byte.
pub hex_digit : ℕ → ℕ
hex_digit c =
    if leb b'0' c && leb c b'9'
    then c - b'0'
    else if leb b'a' c && leb c b'f'
    then c - b'a' + 10
    else if leb b'A' c && leb c b'F'
    then c - b'A' + 10
    else 0

-- for (b = 3; b >= 0; --b) r += ((d >> b) & 1) ? '1' : '0';
pub hex_bits : Bytes → Bytes
unfolding digit hex_digit
hex_bits [] = []
hex_bits (c ∷ cs) =
    let d = hex_digit c in digit (d / 8) ∷ digit (d / 4) ∷ digit (d / 2) ∷ digit d ∷ hex_bits cs

pub norm_bv_bin : Bytes → Bytes
unfolding hex_bits is_literal
norm_bv_bin s =
    if leb 2 (length s) && is_literal s
    then s
    else if leb 2 (length s) && (get_or s 0 0 == b'#') && (get_or s 1 0 == b'x')
    then lit (hex_bits (drop 2 s))
    else s

-- bvToNat(n).toULong()
pub shift_amount : Bytes → Result ℕ
unfolding to_ulong
shift_amount n = do v ← bv_to_nat n; to_ulong v

pub bv_shl : Bytes → Bytes → Result Bytes
unfolding norm_bv_bin shift_amount
bv_shl bv_in n_in = do
  let bv = norm_bv_bin bv_in
  let width = length bv - 2
  shift ← shift_amount (norm_bv_bin n_in)
  ok (
      if leb width shift
      then lit (replicate width b'0')
      else lit (drop (2 + shift) bv ++ replicate shift b'0'))

pub bv_lshr : Bytes → Bytes → Result Bytes
unfolding norm_bv_bin shift_amount
bv_lshr bv_in n_in = do
  let bv = norm_bv_bin bv_in
  let width = length bv - 2
  shift ← shift_amount (norm_bv_bin n_in)
  ok (
      if leb width shift
      then lit (replicate width b'0')
      else lit (replicate shift b'0' ++ take (width - shift) (drop 2 bv)))

pub bv_ashr : Bytes → Bytes → Result Bytes
unfolding norm_bv_bin shift_amount
bv_ashr bv_in n_in = do
  let bv = norm_bv_bin bv_in
  let width = length bv - 2
  shift ← shift_amount (norm_bv_bin n_in)
  let sign = get_or bv 2 0
  ok (
      if leb width shift
      then lit (replicate width sign)
      else lit (replicate shift sign ++ take (width - shift) (drop 2 bv)))
