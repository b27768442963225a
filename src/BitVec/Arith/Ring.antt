-- ===== src/BitVec/Arith/Ring.antt =====
-- bvAdd, bvSub and bvMul: the 64-bit path and the unbounded path agree with arithmetic modulo 2 ^ w.
use Prim.Native.Nat.{max}
use native.Mathlib.Nat.{mod-eq_of_lt, pow-le-pow_right, add-mul-mod_self_left}
use smtlibparser.Prelude.{
  ℕ, zero, suc, ◌+◌, ◌-◌, ◌*◌, ◌%◌, ◌^◌, ◌<◌, ◌≤◌, ◌≡◌, refl, ap, sym, ◌∙◌, Bytes, arith, leb,
  length, inl, inr, Bool-cases,
}
use smtlibparser.Prelude.Arith.{pow_two_pos, pow_two_add}
use smtlibparser.Prelude.Int.{ℤ, pos, ◌+ℤ◌, ◌-ℤ◌}
use smtlibparser.Result.{ok}
use smtlibparser.BitVec.{read_bits_64, value, to_bits, lit, is_literal, Gmp}
use smtlibparser.BitVec.Value.{value-lt, read_bits_64-eq, to_bits_congr, write_bits-mod}
use smtlibparser.BitVec.Arith.{ring_op, bv_add, bv_sub, bv_mul}
use smtlibparser.BitVec.Arith.Convert.{residue, int_to_bv-eq, residue-sub, to_bits-residue}

-- Up to 64 bits the loop over uint64_t reads the number itself.
pub read_bits_64-value : (a : Bytes) → length a ≤ 64 → read_bits_64 0 a ≡ value a
read_bits_64-value a h =
    let below : value a < 2 ^ 64 =
      omega (arith, value-lt a, pow-le-pow_right {n = 2} (omega arith) h) in
    read_bits_64-eq 0 a ∙ mod-eq_of_lt below

-- Masking twice is masking once.
to_bits_masked : (w n : ℕ) → w ≤ 64 → to_bits w (n % 2 ^ 64 % 2 ^ w) ≡ to_bits w n
to_bits_masked w n h = write_bits-mod w w (n % 2 ^ 64) _ (omega arith) ∙ write_bits-mod w 64 n _ h

peel : (p q : ℕ) → 0 < q → q * p ≡ p + p * (q - 1)
peel p zero h = elim h [ ]
peel p (suc k) h = let e : suc k - 1 ≡ k = omega arith in rw e (omega arith)

-- Modulo 2 ^ w, a difference lifted by 2 ^ 64 is one lifted by 2 ^ w.
sub_64_mod : (w a b : ℕ) → w ≤ 64 → b ≤ 2 ^ w → (a + 2 ^ 64 - b) % 2 ^ w ≡ (a + 2 ^ w - b) % 2 ^ w
sub_64_mod w a b h le =
    let p = 2 ^ w in
    let q = 2 ^ (64 - w) in
    let sum : 64 - w + w ≡ 64 = omega arith in
    let whole : 2 ^ 64 ≡ q * p = ap (λ n. 2 ^ n) (sym sum) ∙ pow_two_add w (64 - w) in
    let e : a + 2 ^ 64 - b ≡ a + p - b + p * (q - 1) =
      omega (arith, whole, peel p q (pow_two_pos (64 - w))) in
    ap (λ x. x % p) e ∙ add-mul-mod_self_left (a + p - b) p (q - 1)

module _ (gmp : Gmp) (a b : Bytes) (small : max (length a) (length b) < 2 ^ 64) where
  abbrev w : ℕ
  w = max (length a) (length b)

  -- Both paths, for an operation whose two forms agree with `n` modulo 2 ^ w.
  ring_op-eq :
      (fast : ℕ → ℕ → ℕ) (slow : ℕ → ℕ → ℤ) (n : ℕ)
      → (w ≤ 64 → to_bits w (fast (value a) (value b) % 2 ^ w) ≡ to_bits w n)
      → to_bits w (residue (slow (value a) (value b)) (2 ^ w)) ≡ to_bits w n
      → ring_op gmp fast slow (lit a) (lit b) ≡ ok (lit (to_bits w n))
  unfolding is_literal
  ring_op-eq fast slow n short long =
      let width : max (suc (suc (length a))) (suc (suc (length b))) - 2 ≡ w = omega arith in
      rw width (elim (Bool-cases (leb w 64)) [
        | inl e ↦
            let narrow : w ≤ 64 = ground arith in
            rw
              (
                e,
                read_bits_64-value a (omega arith),
                read_bits_64-value b (omega arith),
                short narrow,
              )
              refl
        | inr e ↦
            let wide : 64 < w = ground arith in
            rw (e, int_to_bv-eq gmp (slow (value a) (value b)) w (omega arith) small, long) refl
      ])

  -- bvAdd of two literals gives the sum of their numbers modulo 2 ^ w, on both paths, where w,
  -- the greater width, is below 2 ^ 64.
  pub bv_add-eq : bv_add gmp (lit a) (lit b) ≡ ok (lit (to_bits w (value a + value b)))
  unfolding bv_add
  bv_add-eq =
      ring_op-eq (λ x y. (x + y) % 2 ^ 64) (λ x y. pos x +ℤ pos y) (value a + value b)
        (λ h. to_bits_masked w (value a + value b) h)
        (let sum : pos (value a) +ℤ pos (value b) ≡ pos (value a + value b) =
            unfold ◌+ℤ◌ in ground arith in
          ap (λ i. to_bits w (residue i (2 ^ w))) sum ∙ to_bits-residue w (value a + value b))

  -- bvSub of two literals gives the difference of their numbers modulo 2 ^ w, on both paths,
  -- where w, the greater width, is below 2 ^ 64.
  pub bv_sub-eq : bv_sub gmp (lit a) (lit b) ≡ ok (lit (to_bits w (value a + 2 ^ w - value b)))
  unfolding bv_sub
  bv_sub-eq =
      ring_op-eq (λ x y. (x + 2 ^ 64 - y) % 2 ^ 64) (λ x y. pos x -ℤ pos y)
        (value a + 2 ^ w - value b)
        (λ h.
          to_bits_masked w (value a + 2 ^ 64 - value b) h
          ∙ to_bits_congr w _ _ (sub_64_mod w (value a) (value b) h (omega (arith, value-lt-w))))
        (ap (to_bits w)
            (residue-sub (value a) (value b) (2 ^ w) (pow_two_pos w) (omega (arith, value-lt-w)))
          ∙ write_bits-mod w w (value a + 2 ^ w - value b) _ (omega arith))
    where
      value-lt-w : value b < 2 ^ w
      value-lt-w = omega (
        arith,
        value-lt b,
        pow-le-pow_right {n = 2} (omega arith) {i = length b} {j = w} (omega arith),
      )

  -- bvMul of two literals gives the product of their numbers modulo 2 ^ w, on both paths, where
  -- w, the greater width, is below 2 ^ 64.
  pub bv_mul-eq : bv_mul gmp (lit a) (lit b) ≡ ok (lit (to_bits w (value a * value b)))
  unfolding bv_mul
  bv_mul-eq =
      ring_op-eq (λ x y. x * y % 2 ^ 64) (λ x y. pos (x * y)) (value a * value b)
        (λ h. to_bits_masked w (value a * value b) h) (to_bits-residue w (value a * value b))
