-- ===== src/BitVec/Signed/Tests.antt =====
-- Signed division at concrete bit-vectors, with a concrete function in the place of GMP.
use smtlibparser.Prelude.{◌≡◌, refl, bytes}
use smtlibparser.Prelude.Int.{◌+ℤ◌, ◌-ℤ◌, ◌*ℤ◌}
use smtlibparser.Result.{ok}
use smtlibparser.BitVec.{bit, digit, read_bits, write_bits, is_literal, to_ulong}
use smtlibparser.BitVec.Arith.{neg, trunc_mod, wrap, fit, bv_to_int, int_to_bv}
use smtlibparser.BitVec.Tests.{printer}
use smtlibparser.BitVec.Signed.{
  equal_ℤ, magnitude, is_negative, trunc_div, math_mod, bv_sdiv, bv_srem, bv_smod,
}

-- -7 / 2 = -3
seven_by_two : bv_sdiv printer (bytes "#b1001") (bytes "#b0010") ≡ ok (bytes "#b1101")
unfolding bv_sdiv equal_ℤ magnitude is_negative trunc_div neg trunc_mod wrap fit bv_to_int int_to_bv
    bit digit read_bits write_bits is_literal to_ulong ◌+ℤ◌ ◌-ℤ◌ ◌*ℤ◌
seven_by_two = refl

-- The remainder of -7 by 2 is -1, and -7 modulo 2 is 1.
seven_rem_two : bv_srem printer (bytes "#b1001") (bytes "#b0010") ≡ ok (bytes "#b1111")
unfolding bv_srem equal_ℤ magnitude is_negative trunc_div neg trunc_mod wrap fit bv_to_int int_to_bv
    bit digit read_bits write_bits is_literal to_ulong ◌+ℤ◌ ◌-ℤ◌ ◌*ℤ◌
seven_rem_two = refl

seven_mod_two : bv_smod printer (bytes "#b1001") (bytes "#b0010") ≡ ok (bytes "#b0001")
unfolding bv_smod equal_ℤ magnitude is_negative math_mod neg trunc_mod wrap fit bv_to_int int_to_bv
    bit digit read_bits write_bits is_literal to_ulong ◌+ℤ◌ ◌-ℤ◌ ◌*ℤ◌
seven_mod_two = refl
