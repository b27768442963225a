-- ===== src/BitVec/Shift/Laws.antt =====
-- A shift by any amount below 2 ^ 64 multiplies or divides by a power of two.
use native.Mathlib.Nat.{
  mul-mod_left, div-add-mod, zero-mod, mul_assoc, mul-add-mod_self_right, div-eq_of_lt,
  pow-le-pow_right,
}
use smtlibparser.Prelude.{
  ℕ, zero, suc, ◌+◌, ◌-◌, ◌*◌, ◌/◌, ◌%◌, ◌^◌, ◌<◌, ◌≤◌, ◌≡◌, refl, ap, sym, ◌∙◌, true, ◌++◌, Bytes,
  arith, leb, lt→ltb, length, length-append, length-drop, length-take, length-replicate, inl, inr,
  Bool-cases, replicate, take, drop,
}
use smtlibparser.Prelude.Arith.{pow_two_add}
use smtlibparser.Result.{ok}
use smtlibparser.BitVec.{read_bits, value, to_bits, lit, AllBits}
use smtlibparser.BitVec.Value.{value_zero, to_bits-value, to_bits_congr, value-lt}
use smtlibparser.BitVec.Split.{
  value-append, AllBits-append, AllBits-drop, AllBits-take, AllBits-replicate, value-replicate,
  value-drop, value-take,
}
use smtlibparser.BitVec.Arith.{bv_to_nat}
use smtlibparser.BitVec.Shift.{norm_bv_bin, shift_amount, bv_shl, bv_lshr}

-- A literal in binary is its own normal form.
norm_bv_bin-lit : (a : Bytes) → norm_bv_bin (lit a) ≡ lit a
unfolding norm_bv_bin
norm_bv_bin-lit a = let long : leb 2 (length (lit a)) ≡ true = ground arith in rw long

shift_amount-lit : (n : Bytes) → value n < 2 ^ 64 → shift_amount (lit n) ≡ ok (value n)
unfolding shift_amount bv_to_nat
shift_amount-lit n small = rw (lt→ltb (value n) (2 ^ 64) small) refl

-- Bits of the width w, known modulo 2 ^ w.
determined :
    (w v : ℕ) (cs : Bytes)
    → AllBits cs
    → length cs ≡ w
    → value cs % 2 ^ w ≡ v % 2 ^ w
    → cs ≡ to_bits w v
determined w v cs h e same =
    sym (to_bits-value cs h) ∙ ap (λ n. to_bits n (value cs)) e ∙ to_bits_congr w (value cs) v same

value_zeros : (k : ℕ) → value (replicate k b'0') ≡ 0
value_zeros zero = unfold read_bits in refl
value_zeros (suc k) = value_zero (replicate k b'0') _ refl ∙ value_zeros k

zeros-eq : (w v : ℕ) → v % 2 ^ w ≡ 0 → replicate w b'0' ≡ to_bits w v
zeros-eq w v h =
    determined w v (replicate w b'0') (AllBits-replicate w) (length-replicate w b'0')
      (ap (λ x. x % 2 ^ w) (value_zeros w) ∙ zero-mod (2 ^ w) ∙ sym h)

-- Shifting left by the width or more leaves nothing.
shift_out : (w s v : ℕ) → w ≤ s → v * 2 ^ s % 2 ^ w ≡ 0
shift_out w s v h =
    let p = 2 ^ w in
    let sum : s - w + w ≡ s = omega arith in
    let e : v * 2 ^ s ≡ v * 2 ^ (s - w) * p =
      ap (λ n. v * n) (ap (λ n. 2 ^ n) (sym sum) ∙ pow_two_add w (s - w)) ∙ sym (mul_assoc v _ p) in
    ap (λ x. x % p) e ∙ mul-mod_left (v * 2 ^ (s - w)) p

two_more : (k : ℕ) → 2 + k ≡ suc (suc k)
two_more k = omega arith

spread : (p q r t : ℕ) → (p * q + r) * t ≡ q * (p * t) + r * t
spread p q r t = omega arith

no_addend : (x z : ℕ) → z ≡ 0 → x + z ≡ x
no_addend x z h = omega arith

module _ (a n : Bytes) (ha : AllBits a) (small : value n < 2 ^ 64) where
  abbrev s : ℕ
  s = value n

  abbrev w : ℕ
  w = length a

  -- The low bits of `a`, followed by the zeros that come in.
  shl_inside : s < w → drop s a ++ replicate s b'0' ≡ to_bits w (value a * 2 ^ s)
  shl_inside h =
      let low = drop s a in
      let zeros = replicate s b'0' in
      let kept : length low ≡ w - s = length-drop s a in
      let p = 2 ^ length low in
      let q = value a / p in
      let number : value (low ++ zeros) ≡ value a % p * 2 ^ s =
        value-append low zeros
        ∙ ap (λ k. value low * 2 ^ k + value zeros) (length-replicate s b'0')
        ∙ ap (λ v. v * 2 ^ s + value zeros) (value-drop s a)
        ∙ no_addend (value a % p * 2 ^ s) (value zeros) (value_zeros s) in
      let parts : value a * 2 ^ s ≡ q * 2 ^ w + value a % p * 2 ^ s =
        let width : length low + s ≡ w = omega arith in
        let product : p * 2 ^ s ≡ 2 ^ w =
          sym (pow_two_add s (length low)) ∙ ap (λ k. 2 ^ k) width in
        ap (λ v. v * 2 ^ s) (sym (div-add-mod (value a) p))
        ∙ spread p q (value a % p) (2 ^ s)
        ∙ ap (λ x. q * x + value a % p * 2 ^ s) product in
      determined w (value a * 2 ^ s) (low ++ zeros)
        (AllBits-append low zeros (AllBits-drop s a ha) (AllBits-replicate s))
        (omega (arith, length-append low zeros, length-replicate {A = ℕ} s b'0'))
        (ap (λ x. x % 2 ^ w) number
          ∙ sym
              (ap (λ x. x % 2 ^ w) parts ∙ mul-add-mod_self_right q (2 ^ w) (value a % p * 2 ^ s)))

  -- On a literal of bits, bvShl by an amount below 2 ^ 64 gives the product with that power of
  -- two, modulo the width, whether or not the amount is below the width.
  pub bv_shl-eq : bv_shl (lit a) (lit n) ≡ ok (lit (to_bits w (value a * 2 ^ s)))
  unfolding bv_shl
  bv_shl-eq =
      let width : length (lit a) - 2 ≡ w = omega arith in
      let start : drop (2 + s) (lit a) ≡ drop s a = ap (λ k. drop k (lit a)) (two_more s) in
      rw (norm_bv_bin-lit a, norm_bv_bin-lit n)
        (rw (shift_amount-lit n small) (
          rw (width, start)
            (elim (Bool-cases (leb w s)) [
              | inl e ↦
                  let out : w ≤ s = ground arith in
                  rw (e, zeros-eq w (value a * 2 ^ s) (shift_out w s (value a) out)) refl
              | inr e ↦ let inside : s < w = ground arith in rw (e, shl_inside inside) refl
            ])))

  -- The zeros that come in, followed by the high bits of `a`.
  lshr_inside : s < w → replicate s b'0' ++ take (w - s) a ≡ to_bits w (value a / 2 ^ s)
  lshr_inside h =
      let high = take (w - s) a in
      let cut : length (drop (w - s) a) ≡ s = omega (arith, length-drop (w - s) a) in
      let zeros = replicate s b'0' in
      let number : value (zeros ++ high) ≡ value a / 2 ^ s =
        value-replicate s high ∙ value-take (w - s) a ∙ ap (λ k. value a / 2 ^ k) cut in
      determined w (value a / 2 ^ s) (zeros ++ high)
        (AllBits-append zeros high (AllBits-replicate s) (AllBits-take (w - s) a ha))
        (omega
          (arith, length-append zeros high, length-replicate {A = ℕ} s b'0', length-take (w - s) a))
        (ap (λ x. x % 2 ^ w) number)

  -- On a literal of bits, bvLshr by an amount below 2 ^ 64 gives the quotient by that power of
  -- two, whether or not the amount is below the width.
  pub bv_lshr-eq : bv_lshr (lit a) (lit n) ≡ ok (lit (to_bits w (value a / 2 ^ s)))
  unfolding bv_lshr
  bv_lshr-eq =
      let width : length (lit a) - 2 ≡ w = omega arith in
      rw (norm_bv_bin-lit a, norm_bv_bin-lit n)
        (rw (shift_amount-lit n small) (
          rw width (elim (Bool-cases (leb w s)) [
            | inl e ↦
                let out : w ≤ s = ground arith in
                let below : value a < 2 ^ s =
                  omega (arith, value-lt a, pow-le-pow_right {n = 2} (omega arith) out) in
                let nothing : value a / 2 ^ s % 2 ^ w ≡ 0 =
                  ap (λ x. x % 2 ^ w) (div-eq_of_lt below) ∙ zero-mod (2 ^ w) in
                rw (e, zeros-eq w (value a / 2 ^ s) nothing) refl
            | inr e ↦ let inside : s < w = ground arith in rw (e, lshr_inside inside) refl
          ])))
