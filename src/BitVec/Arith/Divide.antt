-- ===== src/BitVec/Arith/Divide.antt =====
-- bvUdiv and bvUrem: total division, with the SMT-LIB results at a zero divisor.
use smtlibparser.Prelude.{
  ℕ, suc, ◌+◌, ◌-◌, ◌*◌, ◌/◌, ◌%◌, ◌^◌, ◌<◌, ◌≤◌, ◌≡◌, refl, ap, ◌∙◌, Bool, true, false, [], ◌∷◌,
  Bytes, arith, leb, ◌==◌, length, inl, inr, Bool-cases, replicate, if◌then◌else◌,
}
use smtlibparser.Prelude.Arith.{pow_two_pos}
use smtlibparser.Prelude.Int.{pos}
use smtlibparser.Result.{ok}
use smtlibparser.BitVec.{bit, read_bits, value, to_bits, lit, is_literal, Gmp}
use smtlibparser.BitVec.Value.{value-cons}
use smtlibparser.BitVec.Arith.{div_op, is_zero, bv_udiv, bv_urem}
use smtlibparser.BitVec.Arith.Convert.{int_to_bv-eq, to_bits-residue}
use smtlibparser.BitVec.Arith.Ring.{read_bits_64-value}

bit_one : (c : ℕ) → (c == b'1') ≡ true → bit c ≡ 1
unfolding bit
bit_one c e = rw e

bit_none : (c : ℕ) → (c == b'1') ≡ false → bit c ≡ 0
unfolding bit
bit_none c e = rw e

if-ok : (test : Bool) (x y : Bytes) → (if test then ok x else ok y) ≡ ok (if test then x else y)
if-ok true x y = refl
if-ok false x y = refl

-- The loop over the divisor finds a one exactly where the number is not zero.
pub is_zero-eq : (cs : Bytes) → is_zero cs ≡ (value cs == 0)
unfolding is_zero
is_zero-eq [] = unfold read_bits in refl
is_zero-eq (c ∷ cs) = elim (Bool-cases (c == b'1')) [
  | inl e ↦
      let p = 2 ^ length cs in
      let v : value (c ∷ cs) ≡ 1 * p + value cs =
        value-cons c cs ∙ ap (λ b. b * p + value cs) (bit_one c e) in
      ground (arith, v, pow_two_pos (length cs))
  | inr e ↦
      let p = 2 ^ length cs in
      let v : value (c ∷ cs) ≡ 0 * p + value cs =
        value-cons c cs ∙ ap (λ b. b * p + value cs) (bit_none c e) in
      ground (arith, v, is_zero-eq cs)
]

module _ (gmp : Gmp) (a b : Bytes) (positive : 0 < length a) (small : length a < 2 ^ 64)
    (same_width : length a ≡ length b) where
  div_op-eq :
      (f : ℕ → ℕ → ℕ) (at_zero : Bytes → Bytes)
      → div_op gmp f at_zero (lit a) (lit b) ≡ (
          if value b == 0
          then ok (at_zero (lit a))
          else ok (lit (to_bits (length a) (f (value a) (value b)))))
  unfolding is_literal
  div_op-eq f at_zero =
      let width : suc (suc (length a)) - 2 ≡ length a = omega arith in
      rw (width, is_zero-eq b)
        (elim (Bool-cases (value b == 0)) [
          | inl e ↦ rw e refl
          | inr e ↦ rw e (elim (Bool-cases (leb (length a) 64)) [
            | inl short ↦
                let narrow : length a ≤ 64 = ground arith in
                rw (short, read_bits_64-value a narrow, read_bits_64-value b (omega arith), e) refl
            | inr long ↦
                rw
                  (
                    long,
                    int_to_bv-eq gmp (pos (f (value a) (value b))) (length a) positive small,
                    to_bits-residue (length a) (f (value a) (value b)),
                  )
                  refl
          ])
        ])

  -- On two literals of one width, from 1 below 2 ^ 64, bvUdiv gives the quotient, or all ones at
  -- a zero divisor, and bvUrem the remainder, or the dividend at a zero divisor. Neither fails.
  pub bv_udiv-bv_urem :
      (bv_udiv gmp (lit a) (lit b)
        ≡ ok (
            if value b == 0
            then lit (replicate (length a) b'1')
            else lit (to_bits (length a) (value a / value b))))
      × (bv_urem gmp (lit a) (lit b)
          ≡ ok (if value b == 0 then lit a else lit (to_bits (length a) (value a % value b))))
  unfolding bv_udiv bv_urem
  bv_udiv-bv_urem = (
    div_op-eq (λ x y. x / y) (λ bv. lit (replicate (length bv - 2) b'1'))
        ∙ ap
            (λ n.
              if value b == 0
              then ok (lit (replicate n b'1'))
              else ok (lit (to_bits (length a) (value a / value b))))
            width
        ∙ if-ok (value b == 0) _ _,
    div_op-eq (λ x y. x % y) (λ bv. bv) ∙ if-ok (value b == 0) _ _,
  )
    where
      width : length (lit a) - 2 ≡ length a
      width = omega arith
