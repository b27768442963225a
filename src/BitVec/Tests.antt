-- ===== src/BitVec/Tests.antt =====
-- The bit-vector routines at concrete inputs, with a concrete function in the place of GMP.
use smtlibparser.Prelude.{
  ℕ, zero, suc, ◌+◌, ◌-◌, ◌/◌, ◌%◌, ◌^◌, ◌<◌, ◌≡◌, refl, ◌∙◌, ◌∷◌, Bytes, bytes, true, arith, ◌==◌,
  if◌then◌else◌, length, inl, inr, replicate, not, ◌&&◌, ◌||◌,
}
use smtlibparser.Prelude.Arith.{pow_two_suc}
use smtlibparser.Prelude.Int.{ℤ, pos, negsuc}
use smtlibparser.Result.{ok, ◌>>=◌}
use smtlibparser.BitVec.{bit, read_bits, value, to_bits, lit, AllBits, Gmp}
use smtlibparser.BitVec.Value.{value-to_bits, AllBits-to_bits}
use smtlibparser.BitVec.Bitwise.{bv_and, bv_or, bv_xor, bv_nand, bv_nor, bv_xnor}
use smtlibparser.BitVec.Bitwise.Laws.{bitwise_pointwise, pointwise, differ}
use smtlibparser.BitVec.Arith.{int_to_bv, bv_to_int, bv_add, bv_udiv, bv_urem}
use smtlibparser.BitVec.Arith.Convert.{int_to_bv-bv_to_int}
use smtlibparser.BitVec.Arith.Ring.{bv_add-eq}
use smtlibparser.BitVec.Arith.Divide.{bv_udiv-bv_urem}
use smtlibparser.Kind.{nt_bv_slt}
use smtlibparser.Kind.Duals.{get_negated_kind}
use smtlibparser.BitVec.Compare.{bv_comp}
use smtlibparser.BitVec.Compare.Laws.{is_comparison, negate, bv_comp-get_negated_kind}
use smtlibparser.BitVec.Slice.{bv_extract}
use smtlibparser.BitVec.Slice.Laws.{bv_extract-eq}
use native.Mathlib.Nat.{mod-eq_of_lt}

pub n_lt_pow : (n : ℕ) → n < 2 ^ n
n_lt_pow zero = omega arith
n_lt_pow (suc n) = omega (arith, n_lt_pow n, pow_two_suc n)

-- Digits of a number at a width that is enough for it.
abbrev pub print : ℤ → Bytes
print (pos n) = to_bits n n
print (negsuc n) = b'-' ∷ to_bits (suc n) (suc n)

abbrev pub printer : Gmp
printer = record {
  to_string = print;
  digits = λ n. AllBits-to_bits n n;
  value_of = λ n. value-to_bits n n ∙ mod-eq_of_lt (n_lt_pow n);
}

abbrev nine : Bytes
nine = bytes "1001"

abbrev nine_bits : AllBits nine
nine_bits = (inr refl, (inl refl, (inl refl, (inr refl, tt))))

abbrev twelve : Bytes
twelve = bytes "1100"

abbrev twelve_bits : AllBits twelve
twelve_bits = (inr refl, (inr refl, (inl refl, (inl refl, tt))))

bitwise_pointwise_example :
    (bv_and (lit nine) (lit twelve) ≡ ok (lit (pointwise ◌&&◌ nine twelve)))
    × (bv_or (lit nine) (lit twelve) ≡ ok (lit (pointwise ◌||◌ nine twelve)))
    × (bv_xor (lit nine) (lit twelve) ≡ ok (lit (pointwise differ nine twelve)))
    × (bv_nand (lit nine) (lit twelve) ≡ ok (lit (pointwise (λ x y. not (x && y)) nine twelve)))
    × (bv_nor (lit nine) (lit twelve) ≡ ok (lit (pointwise (λ x y. not (x || y)) nine twelve)))
    × (bv_xnor (lit nine) (lit twelve) ≡ ok (lit (pointwise (λ x y. not (differ x y)) nine twelve)))
bitwise_pointwise_example = bitwise_pointwise nine twelve nine_bits twelve_bits refl

int_to_bv-bv_to_int_example :
    (bv_to_int (lit nine) >>= λ i. int_to_bv printer i (length nine)) ≡ ok (lit nine)
int_to_bv-bv_to_int_example = int_to_bv-bv_to_int printer nine nine_bits (omega arith) (omega arith)

bv_add-eq_example :
    bv_add printer (lit nine) (lit twelve) ≡ ok (lit (to_bits 4 (value nine + value twelve)))
bv_add-eq_example = bv_add-eq printer nine twelve (omega arith)

bv_udiv-bv_urem_example :
    (bv_udiv printer (lit twelve) (lit nine)
      ≡ ok (
          if value nine == 0
          then lit (replicate (length twelve) b'1')
          else lit (to_bits (length twelve) (value twelve / value nine))))
    × (bv_urem printer (lit twelve) (lit nine)
        ≡ ok (
            if value nine == 0
            then lit twelve
            else lit (to_bits (length twelve) (value twelve % value nine))))
bv_udiv-bv_urem_example = bv_udiv-bv_urem printer twelve nine (omega arith) (omega arith) refl

value_two : value (bytes "10") ≡ 2
unfolding read_bits bit
value_two = refl

two_small : value (bytes "10") < 2 ^ 64
two_small = rw value_two (omega arith)

bv_extract-eq_example :
    bv_extract (lit nine) 2 1 ≡ ok (lit (to_bits (2 - 1 + 1) (value nine / 2 ^ 1)))
bv_extract-eq_example = bv_extract-eq nine nine_bits (omega arith) 2 1 (omega arith) (omega arith)

slt_compares : is_comparison nt_bv_slt ≡ true
unfolding is_comparison
slt_compares = refl

bv_comp-get_negated_kind_example :
    bv_comp (lit nine) (lit twelve) (get_negated_kind nt_bv_slt)
    ≡ negate (bv_comp (lit nine) (lit twelve) nt_bv_slt)
bv_comp-get_negated_kind_example = bv_comp-get_negated_kind nine twelve nt_bv_slt slt_compares
