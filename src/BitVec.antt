-- ===== src/BitVec.antt =====
-- BitVectorUtils of src/core/util.cpp: bit-vector literals, "#b" and their bits from the highest
-- down, as strings. HighPrecisionInteger is GMP's unbounded integer, here ℤ; its text in base 2,
-- which GMP prints, is the parameter `Gmp`.
pub mod Value
pub mod Split
pub mod Bitwise
pub mod Arith
pub mod Shift
pub mod Slice
pub mod Signed
pub mod Compare
mod Tests
use smtlibparser.Prelude.{
  ℕ, zero, suc, ◌+◌, ◌*◌, ◌/◌, ◌%◌, ◌^◌, ◌<◌, ◌≤◌, ◌≡◌, ◌⊎◌, Bool, ◌&&◌, List, [], ◌∷◌, Bytes, ltb,
  ◌==◌, if◌then◌else◌, length, get_or,
}
use smtlibparser.Prelude.Int.{ℤ, pos}
use smtlibparser.Result.{Result, ok, err, overflow}

-- '1' ? 1 : 0
unfoldable pub bit : ℕ → ℕ
bit c = if c == b'1' then 1 else 0

-- (v & 1) ? '1' : '0'
unfoldable pub digit : ℕ → ℕ
digit v = if v % 2 == 1 then b'1' else b'0'

-- u = u * 2 + bit, over the unbounded integers: the loop of bvToNat, and of the GMP paths.
unfoldable pub read_bits : ℕ → Bytes → ℕ
unfolding bit
read_bits u [] = u
read_bits u (c ∷ cs) = read_bits (u * 2 + bit c) cs

-- u = (u << 1) | bit, over uint64_t. The bit joins an even number, so `|` is a sum.
unfoldable pub read_bits_64 : ℕ → Bytes → ℕ
unfolding bit
read_bits_64 u [] = u
read_bits_64 u (c ∷ cs) = read_bits_64 (u * 2 % 2 ^ 64 + bit c) cs

-- for (i = 0; i < w; ++i) { bin[w-1-i] = (tmp & 1) ? '1' : '0'; tmp >>= 1; }, from the right end.
unfoldable pub write_bits : ℕ → ℕ → Bytes → Bytes
unfolding digit
write_bits zero tmp bin = bin
write_bits (suc w) tmp bin = write_bits w (tmp / 2) (digit tmp ∷ bin)

-- bv[0] == '#' && bv[1] == 'b'; the byte behind the last one reads as 0.
unfoldable pub is_literal : Bytes → Bool
is_literal bv = (get_or bv 0 0 == b'#') && (get_or bv 1 0 == b'b')

abbrev pub lit : Bytes → Bytes
lit bits = b'#' ∷ b'b' ∷ bits

-- HighPrecisionInteger::toULong of a number that is not negative.
unfoldable pub to_ulong : ℕ → Result ℕ
to_ulong n = if ltb n (2 ^ 64) then ok n else err overflow

-- The number that bits stand for, and the bits of a number modulo 2 ^ w.
abbrev pub value : Bytes → ℕ
value bits = read_bits 0 bits

abbrev pub to_bits : ℕ → ℕ → Bytes
to_bits w n = write_bits w n []

abbrev pub AllBits : Bytes → Type 0
AllBits [] = Unit
AllBits (c ∷ cs) = ((c ≡ b'0') ⊎ (c ≡ b'1')) × AllBits cs

-- mpz_get_str(nullptr, 2, z): at z ≥ 0 the binary digits of z.
pub record Gmp : Type 0 where
  pub to_string : ℤ → Bytes
  pub digits : (n : ℕ) → AllBits (to_string (pos n))
  pub value_of : (n : ℕ) → value (to_string (pos n)) ≡ n
