-- ===== src/BitVec/Bitwise/Laws.antt =====
-- The bitwise operations on literals: the number of a complement and of a negation, and the bit by
-- bit meaning and the algebra of the binary operations.
use smtlibparser.Prelude.{
  ℕ, suc, ◌+◌, ◌-◌, ◌*◌, ◌%◌, ◌^◌, ◌<◌, ◌≡◌, ◌⊎◌, refl, ap, sym, ◌∙◌, Bool, true, false, not, ◌&&◌,
  ◌||◌, [], ◌∷◌, ◌++◌, Bytes, arith, length, ◌==◌, if◌then◌else◌,
}
use native.Mathlib.Nat.{mod_self, mod-eq_of_lt}
use smtlibparser.Prelude.Arith.{pow_two_suc}
use smtlibparser.Result.{Result, ok}
use smtlibparser.BitVec.{bit, read_bits, value, lit, AllBits}
use smtlibparser.BitVec.Value.{value-cons, value-lt, value_zero, value_one}
use smtlibparser.BitVec.Bitwise.{
  flip, flip_all, bv_not, zip_bits, zip_literals, and_bit, or_bit, xor_bit, nand_bit, nor_bit,
  xnor_bit, bv_and, bv_or, bv_xor, bv_nand, bv_nor, bv_xnor, add_one, bv_neg,
}

length-flip_all : (cs : Bytes) → length (flip_all cs) ≡ length cs
unfolding flip_all
length-flip_all [] = refl
length-flip_all (c ∷ cs) = ap suc (length-flip_all cs)

bit-flip : (c : ℕ) → (c ≡ b'0') ⊎ (c ≡ b'1') → bit (flip c) + bit c ≡ 1
unfolding bit flip
bit-flip c h = ground arith

value-flip_all : (cs : Bytes) → AllBits cs → value (flip_all cs) + value cs + 1 ≡ 2 ^ length cs
unfolding flip_all
value-flip_all [] h = unfold read_bits in refl
value-flip_all (c ∷ cs) h =
    rw
      (
        value-cons (flip c) (flip_all cs),
        value-cons c cs,
        length-flip_all cs,
        pow_two_suc (length cs),
      )
      (omega (arith, ap (λ (b : ℕ). b * 2 ^ length cs) (bit-flip c h.0), value-flip_all cs h.1))

AllBits-flip_all : (cs : Bytes) → AllBits cs → AllBits (flip_all cs)
unfolding flip_all flip
AllBits-flip_all [] h = h
AllBits-flip_all (c ∷ cs) h = (ground arith, AllBits-flip_all cs h.1)

-- The complement of a literal of n bits has n bits, and stands for 2 ^ n - 1 less the number of
-- the bits.
pub bv_not-value :
    (a : Bytes)
    → AllBits a
    → (r : Bytes) × (bv_not (lit a) ≡ ok (lit r))
      × (length r ≡ length a)
      × (value r + value a + 1 ≡ 2 ^ length a)
unfolding bv_not
bv_not-value a h = (flip_all a, refl, length-flip_all a, value-flip_all a h)

length-add_one : (cs : Bytes) → length (add_one cs).0 ≡ length cs
unfolding add_one
length-add_one [] = refl
length-add_one (c ∷ cs) = ground (arith, length-add_one cs)

-- The carry that leaves the highest bit weighs 2 ^ n.
value-add_one :
    (cs : Bytes)
    → AllBits cs
    → value (add_one cs).0 + (if (add_one cs).1 then 2 ^ length cs else 0) ≡ value cs + 1
unfolding add_one
value-add_one [] h = unfold read_bits in refl
value-add_one (c ∷ cs) h =
    let rest = (add_one cs).0 in
    let p = ap (λ n. 2 ^ n) (length-add_one cs) in
    ground (
      arith,
      h.0,
      value-add_one cs h.1,
      pow_two_suc (length cs),
      value_zero rest (2 ^ length cs) p,
      value_one rest (2 ^ length cs) p,
      value_zero cs (2 ^ length cs) refl,
      value_one cs (2 ^ length cs) refl,
    )

complement_mod :
    (p t a f : ℕ) (carry : Bool)
    → t < p
    → t + (if carry then p else 0) ≡ f + 1
    → f + a + 1 ≡ p
    → t ≡ (p - a) % p
complement_mod p t a f true lt sum total =
    let e : p - a ≡ p = omega arith in rw e (omega (arith, mod_self p))
complement_mod p t a f false lt sum total =
    let e : p - a ≡ t = omega arith in rw e (sym (mod-eq_of_lt lt))

-- The negation of a literal of n bits has n bits, and stands for the two's complement of their
-- number.
pub bv_neg-value :
    (a : Bytes)
    → AllBits a
    → (r : Bytes) × (bv_neg (lit a) ≡ ok (lit r))
      × (length r ≡ length a)
      × (value r ≡ (2 ^ length a - value a) % 2 ^ length a)
unfolding bv_neg
bv_neg-value a h = ((add_one (flip_all a)).0, refl, length-neg, complement)
  where
    length-neg : length (add_one (flip_all a)).0 ≡ length a
    length-neg = length-add_one (flip_all a) ∙ length-flip_all a

    complement : value (add_one (flip_all a)).0 ≡ (2 ^ length a - value a) % 2 ^ length a
    complement =
        complement_mod (2 ^ length a) (value (add_one (flip_all a)).0) (value a)
          (value (flip_all a)) (add_one (flip_all a)).1
          (rw length-neg at (value-lt (add_one (flip_all a)).0))
          (rw (length-flip_all a) at (value-add_one (flip_all a) (AllBits-flip_all a h)))
          (value-flip_all a h)

-- Exclusive or.
abbrev pub differ : Bool → Bool → Bool
differ true y = not y
differ false y = y

-- A binary operation of Booleans, bit by bit.
pub pointwise : (Bool → Bool → Bool) → Bytes → Bytes → Bytes
pointwise g [] ys = []
pointwise g (x ∷ xs) [] = []
pointwise g (x ∷ xs) (y ∷ ys) =
    (if g (x == b'1') (y == b'1') then b'1' else b'0') ∷ pointwise g xs ys

-- `f` on two bits answers as `g` does.
abbrev Computes : (ℕ → Result ℕ → Result Bool) → (Bool → Bool → Bool) → Type 0
Computes f g =
    (x y : ℕ)
    → (x ≡ b'0') ⊎ (x ≡ b'1')
    → (y ≡ b'0') ⊎ (y ≡ b'1')
    → f x (ok y) ≡ ok (g (x == b'1') (y == b'1'))

zip_bits-pointwise :
    (f : ℕ → Result ℕ → Result Bool) (g : Bool → Bool → Bool) (a b : Bytes)
    → Computes f g
    → AllBits a
    → AllBits b
    → length a ≡ length b
    → zip_bits f a (b ++ 0 ∷ []) ≡ ok (pointwise g a b)
unfolding zip_bits pointwise
zip_bits-pointwise f g [] b e ha hb l = refl
zip_bits-pointwise f g (x ∷ xs) [] e ha hb l = absurd (omega arith)
zip_bits-pointwise f g (x ∷ xs) (y ∷ ys) e ha hb l =
    rw (e x y ha.0 hb.0) (rw (zip_bits-pointwise f g xs ys e ha.1 hb.1 (omega arith)) refl)

zip_literals-pointwise :
    (f : ℕ → Result ℕ → Result Bool) (g : Bool → Bool → Bool) (a b : Bytes)
    → Computes f g
    → AllBits a
    → AllBits b
    → length a ≡ length b
    → zip_literals f (lit a) (lit b) ≡ ok (lit (pointwise g a b))
unfolding zip_literals
zip_literals-pointwise f g a b e ha hb l = rw (zip_bits-pointwise f g a b e ha hb l) refl

and_bit-Computes : Computes and_bit ◌&&◌
unfolding and_bit
and_bit-Computes x y hx hy = ground arith

or_bit-Computes : Computes or_bit ◌||◌
unfolding or_bit
or_bit-Computes x y hx hy = ground arith

xor_bit-Computes : Computes xor_bit differ
unfolding xor_bit
xor_bit-Computes x y hx hy = ground (arith, hx, hy)

nand_bit-Computes : Computes nand_bit (λ x y. not (x && y))
unfolding nand_bit
nand_bit-Computes x y hx hy = ground arith

nor_bit-Computes : Computes nor_bit (λ x y. not (x || y))
unfolding nor_bit
nor_bit-Computes x y hx hy = ground arith

xnor_bit-Computes : Computes xnor_bit (λ x y. not (differ x y))
unfolding xnor_bit
xnor_bit-Computes x y hx hy = ground arith

module _ (a b : Bytes) (ha : AllBits a) (hb : AllBits b) (same_width : length a ≡ length b) where
  -- On two literals of bits, of one width, each of the six operations answers its Boolean
  -- connective, bit by bit.
  pub bitwise_pointwise :
      (bv_and (lit a) (lit b) ≡ ok (lit (pointwise ◌&&◌ a b)))
      × (bv_or (lit a) (lit b) ≡ ok (lit (pointwise ◌||◌ a b)))
      × (bv_xor (lit a) (lit b) ≡ ok (lit (pointwise differ a b)))
      × (bv_nand (lit a) (lit b) ≡ ok (lit (pointwise (λ x y. not (x && y)) a b)))
      × (bv_nor (lit a) (lit b) ≡ ok (lit (pointwise (λ x y. not (x || y)) a b)))
      × (bv_xnor (lit a) (lit b) ≡ ok (lit (pointwise (λ x y. not (differ x y)) a b)))
  unfolding bv_and bv_or bv_xor bv_nand bv_nor bv_xnor
  bitwise_pointwise = (
    zip_literals-pointwise and_bit ◌&&◌ a b and_bit-Computes ha hb same_width,
    zip_literals-pointwise or_bit ◌||◌ a b or_bit-Computes ha hb same_width,
    zip_literals-pointwise xor_bit differ a b xor_bit-Computes ha hb same_width,
    zip_literals-pointwise nand_bit _ a b nand_bit-Computes ha hb same_width,
    zip_literals-pointwise nor_bit _ a b nor_bit-Computes ha hb same_width,
    zip_literals-pointwise xnor_bit _ a b xnor_bit-Computes ha hb same_width,
  )
