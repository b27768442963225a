-- ===== src/BitVec/Bitwise.antt =====
-- The bitwise operations: lines 593-678 of src/core/util.cpp.
pub mod Laws
use smtlibparser.Prelude.{
  ℕ, Bool, true, false, not, ◌&&◌, List, [], ◌∷◌, ◌++◌, Bytes, ◌==◌, if◌then◌else◌, drop,
}
use smtlibparser.Result.{Result, ok, err, undefined, ◌>>=◌, ◌>>◌, cond_assert}
use smtlibparser.BitVec.{is_literal, lit}

-- bv[i] == '0' ? '1' : '0'
pub flip : ℕ → ℕ
flip c = if c == b'0' then b'1' else b'0'

pub flip_all : Bytes → Bytes
unfolding flip
flip_all [] = []
flip_all (c ∷ cs) = flip c ∷ flip_all cs

pub bv_not : Bytes → Result Bytes
unfolding is_literal flip_all
bv_not bv = do cond_assert (is_literal bv); ok (lit (flip_all (drop 2 bv)))

-- bv2[i] as i runs on, from the bytes of bv2 and the terminating zero; beyond that it is undefined.
pub next : Bytes → Result ℕ
next [] = err undefined
next (c ∷ cs) = ok c

-- for (i = 2; i < bv1.size(); i++) res += f(bv1[i], bv2[i]). A test that && or || skips is not read.
pub zip_bits : (ℕ → Result ℕ → Result Bool) → Bytes → Bytes → Result Bytes
unfolding next
zip_bits f [] ys = ok []
zip_bits f (x ∷ xs) ys = do
  b ← f x (next ys)
  rest ← zip_bits f xs (drop 1 ys)
  ok ((if b then b'1' else b'0') ∷ rest)

pub zip_literals : (ℕ → Result ℕ → Result Bool) → Bytes → Bytes → Result Bytes
unfolding zip_bits is_literal
zip_literals f bv1 bv2 = do
  cond_assert (is_literal bv1)
  cond_assert (is_literal bv2)
  bits ← zip_bits f (drop 2 bv1) (drop 2 bv2 ++ 0 ∷ [])
  ok (lit bits)

-- bv1[i] == '1' && bv2[i] == '1' ? '1' : '0'
pub and_bit : ℕ → Result ℕ → Result Bool
and_bit x y = elim (x == b'1') [ false ↦ ok false | true ↦ do c ← y; ok (c == b'1') ]

-- bv1[i] == '1' || bv2[i] == '1' ? '1' : '0'
pub or_bit : ℕ → Result ℕ → Result Bool
or_bit x y = elim (x == b'1') [ true ↦ ok true | false ↦ do c ← y; ok (c == b'1') ]

-- bv1[i] != bv2[i] ? '1' : '0'
pub xor_bit : ℕ → Result ℕ → Result Bool
xor_bit x y = do c ← y; ok (not (x == c))

-- bv1[i] == '1' && bv2[i] == '1' ? '0' : '1'
pub nand_bit : ℕ → Result ℕ → Result Bool
unfolding and_bit
nand_bit x y = do b ← and_bit x y; ok (not b)

-- bv1[i] == '0' && bv2[i] == '0' ? '1' : '0'
pub nor_bit : ℕ → Result ℕ → Result Bool
nor_bit x y = elim (x == b'0') [ false ↦ ok false | true ↦ do c ← y; ok (c == b'0') ]

-- bv1[i] == bv2[i] ? '1' : '0'
pub xnor_bit : ℕ → Result ℕ → Result Bool
xnor_bit x y = do c ← y; ok (x == c)

pub bv_and : Bytes → Bytes → Result Bytes
unfolding zip_literals and_bit
bv_and = zip_literals and_bit

pub bv_or : Bytes → Bytes → Result Bytes
unfolding zip_literals or_bit
bv_or = zip_literals or_bit

pub bv_xor : Bytes → Bytes → Result Bytes
unfolding zip_literals xor_bit
bv_xor = zip_literals xor_bit

pub bv_nand : Bytes → Bytes → Result Bytes
unfolding zip_literals nand_bit
bv_nand = zip_literals nand_bit

pub bv_nor : Bytes → Bytes → Result Bytes
unfolding zip_literals nor_bit
bv_nor = zip_literals nor_bit

pub bv_xnor : Bytes → Bytes → Result Bytes
unfolding zip_literals xnor_bit
bv_xnor = zip_literals xnor_bit

-- The second loop of bvNeg, from the lowest bit up while there is a carry: the bits, and the carry.
pub add_one : Bytes → Bytes × Bool
add_one [] = ([], true)
add_one (c ∷ cs) =
    let (rest, carry) = add_one cs in
    if carry
    then (if c == b'0' then (b'1' ∷ rest, false) else (b'0' ∷ rest, true))
    else (c ∷ rest, false)

pub bv_neg : Bytes → Result Bytes
unfolding is_literal flip_all add_one
bv_neg bv = do cond_assert (is_literal bv); ok (lit (add_one (flip_all (drop 2 bv))).0)
