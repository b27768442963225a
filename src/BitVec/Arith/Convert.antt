-- ===== src/BitVec/Arith/Convert.antt =====
-- Conversions between numbers and literals: intToBv and natToBv write the number modulo 2 ^ n, and
-- bvToNat and bvToInt read it back.
use native.Mathlib.Nat.{mod-lt, mod-eq_of_lt, mod_self, add-mod_right, zero-mod}
use smtlibparser.Prelude.{
  ℕ, zero, suc, ◌+◌, ◌-◌, ◌%◌, ◌^◌, ◌<◌, ◌≤◌, ◌≡◌, refl, ap, sym, ◌∙◌, [], ◌∷◌, ◌++◌, Bytes, arith,
  ltb, leb, ◌==◌, length, length-append, length-replicate, length-drop, if◌then◌else◌, inl, inr,
  replicate, Bool-cases, ltb→lt, lt→ltb,
}
use smtlibparser.Prelude.Arith.{pow_two_pos}
use smtlibparser.Prelude.Int.{ℤ, pos, negsuc, ltb_ℤ, ◌+ℤ◌, ◌-ℤ◌}
use smtlibparser.Result.{ok, ◌>>=◌}
use smtlibparser.BitVec.{value, to_bits, lit, AllBits, to_ulong, Gmp}
use smtlibparser.BitVec.Value.{value-lt, to_bits-value, value-to_bits, write_bits-mod}
use smtlibparser.BitVec.Split.{AllBits-append, AllBits-replicate, value-replicate, drop-eq-to_bits}
use smtlibparser.BitVec.Arith.{fit, wrap, neg, int_to_bv, nat_to_bv, bv_to_nat, bv_to_int}

-- The remainder of an integer by 2 ^ n: what intToBv wraps it to.
pub residue : ℤ → ℕ → ℕ
residue (pos a) p = a % p
residue (negsuc a) p = (p - suc a % p) % p

lift_neg :
    (r p : ℕ)
    → r < p
    → (if ltb_ℤ (neg r) (pos 0) then neg r +ℤ pos p else neg r) ≡ pos ((p - r) % p)
unfolding neg ◌+ℤ◌
lift_neg zero p h = ground (arith, mod_self p)
lift_neg (suc r) p h = ground (arith, mod-eq_of_lt {n = p - suc r} {m = p} (omega arith))

wrap-eq-residue : (i : ℤ) (p : ℕ) → 0 < p → wrap i p ≡ pos (residue i p)
unfolding wrap residue
wrap-eq-residue (pos a) p h = ground arith
wrap-eq-residue (negsuc a) p h = lift_neg (suc a % p) p (mod-lt (suc a) h)

residue-lt : (i : ℤ) (p : ℕ) → 0 < p → residue i p < p
unfolding residue
residue-lt (pos a) p h = mod-lt a h
residue-lt (negsuc a) p h = mod-lt (p - suc a % p) h

whole_turn : (p : ℕ) → (p - p % p) % p ≡ (p - p) % p
whole_turn p =
    let all : p - p % p ≡ p = omega (arith, mod_self p) in
    let nothing : p - p ≡ 0 = omega arith in
    ap (λ x. x % p) all ∙ mod_self p ∙ sym (zero-mod p) ∙ ap (λ x. x % p) (sym nothing)

-- Reducing a number up to p before it is taken from p changes nothing modulo p.
residue_below : (d p : ℕ) → 0 < p → d ≤ p → (p - d % p) % p ≡ (p - d) % p
residue_below d p positive h = elim (Bool-cases (d == p)) [
  | inl e ↦ let whole : d ≡ p = ground arith in rw whole (whole_turn p)
  | inr e ↦ let part : d < p = ground arith in rw (mod-eq_of_lt part) refl
]

-- The residue of a difference.
pub residue-sub : (a b p : ℕ) → 0 < p → b ≤ p → residue (pos a -ℤ pos b) p ≡ (a + p - b) % p
unfolding residue ◌-ℤ◌
residue-sub a b p positive h = elim (Bool-cases (leb b a)) [
  | inl e ↦
      let le : b ≤ a = ground arith in
      let shift : a + p - b ≡ a - b + p = omega arith in
      ground (arith, add-mod_right (a - b) p, ap (λ x. x % p) shift)
  | inr e ↦
      let lt : a < b = ground arith in
      let size : suc (b - a - 1) ≡ b - a = omega arith in
      let shift : a + p - b ≡ p - (b - a) = omega arith in
      ground (arith, ap (λ x. (p - x % p) % p) size, ap (λ x. x % p) shift, residue_below (b - a) p)
]

-- The bits of a residue of a number.
pub to_bits-residue : (w n : ℕ) → to_bits w (residue (pos n) (2 ^ w)) ≡ to_bits w n
unfolding residue
to_bits-residue w n = write_bits-mod w w n _ (omega arith)

-- Padding or cutting the digits of a number gives its k low bits.
fit-eq : (k : ℕ) (cs : Bytes) → AllBits cs → fit k cs ≡ to_bits k (value cs)
unfolding fit
fit-eq k cs h = elim (Bool-cases (ltb (length cs) k)) [
  | inl e ↦ rw e (
      let zeros = replicate (k - length cs) b'0' in
      let width : length (zeros ++ cs) ≡ k = omega (
        arith,
        ltb→lt (length cs) k e,
        length-append zeros cs,
        length-replicate {A = ℕ} (k - length cs) b'0',
      ) in
      sym (
        to_bits-value (zeros ++ cs) (AllBits-append zeros cs (AllBits-replicate (k - length cs)) h))
      ∙ ap (λ w. to_bits w (value (zeros ++ cs))) width
      ∙ ap (to_bits k) (value-replicate (k - length cs) cs))
  | inr e ↦ rw e (
      let wide : k ≤ length cs = ground arith in
      drop-eq-to_bits (length cs - k) k cs h (omega (arith, length-drop (length cs - k) cs)))
]

module _ (gmp : Gmp) where
  -- At any width from 1 below 2 ^ 64, intToBv writes the low bits of the integer's two's complement.
  pub int_to_bv-eq :
      (i : ℤ) (w : ℕ)
      → 0 < w
      → w < 2 ^ 64
      → int_to_bv gmp i w ≡ ok (lit (to_bits w (residue i (2 ^ w))))
  unfolding int_to_bv to_ulong
  int_to_bv-eq i w positive small =
      let r = residue i (2 ^ w) in
      let digits : fit w (gmp.to_string (pos r)) ≡ to_bits w r =
        fit-eq w (gmp.to_string (pos r)) (gmp.digits r) ∙ ap (to_bits w) (gmp.value_of r) in
      rw
        (
          lt→ltb w (2 ^ 64) small,
          lt→ltb 0 w positive,
          wrap-eq-residue i (2 ^ w) (pow_two_pos w),
          digits,
        )
        refl

  -- natToBv writes the low bits of a number that is not negative, at every width below 2 ^ 64.
  pub nat_to_bv-eq : (i w : ℕ) → w < 2 ^ 64 → nat_to_bv gmp (pos i) w ≡ ok (lit (to_bits w i))
  unfolding nat_to_bv to_ulong
  nat_to_bv-eq i w small =
      let text = gmp.to_string (pos i) in
      let digits : fit w text ≡ to_bits w i =
        fit-eq w text (gmp.digits i) ∙ ap (to_bits w) (gmp.value_of i) in
      rw (lt→ltb w (2 ^ 64) small, digits) refl

  -- Writing a number that is not negative at a width below 2 ^ 64 and reading it back gives the
  -- number modulo 2 ^ width.
  pub bv_to_nat-nat_to_bv :
      (i w : ℕ) → w < 2 ^ 64 → (nat_to_bv gmp (pos i) w >>= bv_to_nat) ≡ ok (i % 2 ^ w)
  unfolding bv_to_nat
  bv_to_nat-nat_to_bv i w small = rw (nat_to_bv-eq i w small) (ap ok (value-to_bits w i))

  -- Reading a literal of bits, of a width below 2 ^ 64, as a number and writing it at its width
  -- gives the literal back.
  pub nat_to_bv-bv_to_nat :
      (a : Bytes)
      → AllBits a
      → length a < 2 ^ 64
      → (bv_to_nat (lit a) >>= λ n. nat_to_bv gmp (pos n) (length a)) ≡ ok (lit a)
  unfolding bv_to_nat
  nat_to_bv-bv_to_nat a h small =
      nat_to_bv-eq (value a) (length a) small ∙ ap (λ b. ok (lit b)) (to_bits-value a h)

  write_back :
      (a : Bytes) (i : ℤ)
      → AllBits a
      → 0 < length a
      → length a < 2 ^ 64
      → residue i (2 ^ length a) ≡ value a
      → int_to_bv gmp i (length a) ≡ ok (lit a)
  write_back a i h positive small e =
      int_to_bv-eq i (length a) positive small
      ∙ ap (λ v. ok (lit (to_bits (length a) v))) e
      ∙ ap (λ b. ok (lit b)) (to_bits-value a h)

  -- Reading a literal of bits, at a width from 1 below 2 ^ 64, as a signed integer and writing
  -- it at its width gives the literal back.
  pub int_to_bv-bv_to_int :
      (a : Bytes)
      → AllBits a
      → 0 < length a
      → length a < 2 ^ 64
      → (bv_to_int (lit a) >>= λ i. int_to_bv gmp i (length a)) ≡ ok (lit a)
  unfolding bv_to_int
  int_to_bv-bv_to_int [] h positive small = absurd (omega arith)
  int_to_bv-bv_to_int (c ∷ cs) h positive small = elim (Bool-cases (c == b'1')) [
    | inl e ↦ rw e (
        write_back (c ∷ cs) (pos u -ℤ pos (2 ^ (length (lit (c ∷ cs)) - 2))) h positive small
          negative)
    | inr e ↦
        rw e (write_back (c ∷ cs) (pos u) h positive small (unfold residue in mod-eq_of_lt below))
  ]
    where
      u : ℕ
      u = value (c ∷ cs)

      p : ℕ
      p = 2 ^ length (c ∷ cs)

      below : u < p
      below = value-lt (c ∷ cs)

      negative : residue (pos u -ℤ pos (2 ^ (length (lit (c ∷ cs)) - 2))) p ≡ u
      negative =
          let width : length (lit (c ∷ cs)) - 2 ≡ length (c ∷ cs) = omega arith in
          let back : u + p - p ≡ u = omega arith in
          ap (λ n. residue (pos u -ℤ pos (2 ^ n)) p) width
          ∙ residue-sub u p p (pow_two_pos (length (c ∷ cs))) (omega arith)
          ∙ ap (λ x. x % p) back
          ∙ mod-eq_of_lt below
