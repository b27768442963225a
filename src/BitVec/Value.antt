-- ===== src/BitVec/Value.antt =====
-- Bits and the numbers that they stand for: reading and writing are inverse.
use native.Mathlib.Nat.{
  div-div-eq-div-mul, mul-le-mul_right, mul-add-div_right, mul-add-mod_self_right, div-eq_of_lt,
}
use smtlibparser.Prelude.{
  ℕ, zero, suc, ◌+◌, ◌*◌, ◌/◌, ◌%◌, ◌^◌, ◌<◌, ◌≤◌, ◌≡◌, ◌⊎◌, refl, ap, sym, ◌∙◌, [], ◌∷◌, Bytes,
  arith, length,
}
use smtlibparser.Prelude.Arith.{pow_two_suc, pow_two_pos, mod_pow_two}
use smtlibparser.BitVec.{bit, digit, read_bits, read_bits_64, write_bits, value, to_bits, AllBits}

-- What is read first weighs most.
pub read_bits-eq : (u : ℕ) (cs : Bytes) → read_bits u cs ≡ u * 2 ^ length cs + value cs
unfolding read_bits
read_bits-eq u [] = omega arith
read_bits-eq u (c ∷ cs) =
    rw (pow_two_suc (length cs))
      (omega (arith, read_bits-eq (u * 2 + bit c) cs, read_bits-eq (0 + bit c) cs))

pub value-cons : (c : ℕ) (cs : Bytes) → value (c ∷ cs) ≡ bit c * 2 ^ length cs + value cs
unfolding read_bits
value-cons c cs = read_bits-eq (0 + bit c) cs ∙ ap (λ b. b * 2 ^ length cs + value cs) (omega arith)

-- A zero in front does not count; a one weighs 2 ^ n.
pub value_zero : (cs : Bytes) (p : ℕ) → 2 ^ length cs ≡ p → value (b'0' ∷ cs) ≡ value cs
value_zero cs p h = value-cons b'0' cs ∙ unfold bit in omega arith

pub value_one : (cs : Bytes) (p : ℕ) → 2 ^ length cs ≡ p → value (b'1' ∷ cs) ≡ p + value cs
value_one cs p h = value-cons b'1' cs ∙ unfold bit in omega arith

bit-le_one : (c : ℕ) → bit c ≤ 1
unfolding bit
bit-le_one c = ground arith

-- n bits stand for a number below 2 ^ n.
pub value-lt : (cs : Bytes) → value cs < 2 ^ length cs
unfolding read_bits
value-lt [] = omega arith
value-lt (c ∷ cs) = rw (pow_two_suc (length cs)) (
    omega (
      arith,
      read_bits-eq (0 + bit c) cs,
      value-lt cs,
      mul-le-mul_right (2 ^ length cs) (bit-le_one c),
    ))

-- The loop over uint64_t computes the number modulo 2 ^ 64.
pub read_bits_64-eq : (u : ℕ) (cs : Bytes) → read_bits_64 (u % 2 ^ 64) cs ≡ read_bits u cs % 2 ^ 64
unfolding read_bits_64 read_bits
read_bits_64-eq u [] = refl
read_bits_64-eq u (c ∷ cs) =
    let e : u % 2 ^ 64 * 2 % 2 ^ 64 + bit c ≡ (u * 2 + bit c) % 2 ^ 64 =
      omega (arith, bit-le_one c) in
    ap (λ n. read_bits_64 n cs) e ∙ read_bits_64-eq (u * 2 + bit c) cs

length-write_bits : (w v : ℕ) (bin : Bytes) → length (write_bits w v bin) ≡ w + length bin
unfolding write_bits
length-write_bits zero v bin = omega arith
length-write_bits (suc w) v bin = omega (arith, length-write_bits w (v / 2) (digit v ∷ bin))

pub length-to_bits : (w n : ℕ) → length (to_bits w n) ≡ w
length-to_bits w n = omega (arith, length-write_bits w n [])

bit-digit : (v : ℕ) → bit (digit v) ≡ v % 2
unfolding bit digit
bit-digit v = ground arith

-- Reading what was written.
read_bits-write_bits :
    (u w v : ℕ) (bin : Bytes)
    → read_bits u (write_bits w v bin) ≡ read_bits (u * 2 ^ w + v % 2 ^ w) bin
unfolding read_bits write_bits
read_bits-write_bits u zero v bin = ap (λ n. read_bits n bin) (omega arith)
read_bits-write_bits u (suc w) v bin =
    let e : (u * 2 ^ w + v / 2 % 2 ^ w) * 2 + bit (digit v) ≡ u * 2 ^ suc w + v % 2 ^ suc w =
      rw (mod_pow_two w v, pow_two_suc w) (omega (arith, bit-digit v)) in
    read_bits-write_bits u w (v / 2) (digit v ∷ bin) ∙ ap (λ n. read_bits n bin) e

-- The bits of a number stand for it modulo 2 ^ w.
pub value-to_bits : (w n : ℕ) → value (to_bits w n) ≡ n % 2 ^ w
unfolding read_bits
value-to_bits w n = read_bits-write_bits 0 w n [] ∙ omega arith

digit_parity : (a b : ℕ) → a % 2 ≡ b % 2 → digit a ≡ digit b
unfolding digit
digit_parity a b h = ground arith

-- The bits depend on the number modulo 2 ^ k alone, for any k from the width on.
pub write_bits-mod :
    (w k v : ℕ) (bin : Bytes) → w ≤ k → write_bits w (v % 2 ^ k) bin ≡ write_bits w v bin
unfolding write_bits digit
write_bits-mod zero k v bin h = refl
write_bits-mod (suc w) zero v bin h = absurd (omega arith)
write_bits-mod (suc w) (suc k) v bin h =
    let low : v % 2 ^ suc k % 2 ≡ v % 2 = omega (arith, mod_pow_two k v) in
    let high : v % 2 ^ suc k / 2 ≡ v / 2 % 2 ^ k = omega (arith, mod_pow_two k v) in
    ap (λ c. write_bits w (v % 2 ^ suc k / 2) (c ∷ bin)) (digit_parity (v % 2 ^ suc k) v low)
    ∙ ap (λ n. write_bits w n (digit v ∷ bin)) high
    ∙ write_bits-mod w k (v / 2) (digit v ∷ bin) (omega arith)

digit-IsBit : (v : ℕ) → (digit v ≡ b'0') ⊎ (digit v ≡ b'1')
unfolding digit
digit-IsBit v = ground arith

digit-bit : (c : ℕ) → (c ≡ b'0') ⊎ (c ≡ b'1') → digit (bit c) ≡ c
unfolding digit bit
digit-bit c h = ground arith

-- The first digit written is the highest.
write_bits-suc :
    (w v : ℕ) (bin : Bytes) → write_bits (suc w) v bin ≡ digit (v / 2 ^ w) ∷ write_bits w v bin
unfolding write_bits
write_bits-suc zero v bin = ap (λ n. digit n ∷ bin) (omega arith)
write_bits-suc (suc w) v bin =
    let e : v / 2 / 2 ^ w ≡ v / 2 ^ suc w =
      div-div-eq-div-mul v 2 (2 ^ w) ∙ ap (λ p. v / p) (omega (arith, pow_two_suc w)) in
    write_bits-suc w (v / 2) (digit v ∷ bin) ∙ ap (λ n. digit n ∷ write_bits (suc w) v bin) e

-- Writing what was read: bits are determined by their number and their width.
pub to_bits-value : (cs : Bytes) → AllBits cs → to_bits (length cs) (value cs) ≡ cs
to_bits-value [] h = unfold write_bits in refl
to_bits-value (c ∷ cs) h =
    let n = length cs in
    let v : ℕ = bit c * 2 ^ n + value cs in
    let sum : value (c ∷ cs) ≡ v = value-cons c cs in
    let high : v / 2 ^ n ≡ bit c =
      mul-add-div_right (pow_two_pos n) (bit c) (value cs)
      ∙ omega (arith, div-eq_of_lt (value-lt cs)) in
    let low : v % 2 ^ n ≡ value cs % 2 ^ n = mul-add-mod_self_right (bit c) (2 ^ n) (value cs) in
    ap (to_bits (suc n)) sum
    ∙ write_bits-suc n v []
    ∙ ap (λ d. d ∷ to_bits n v) (ap digit high ∙ digit-bit c h.0)
    ∙ ap (λ t. c ∷ t)
        (sym (write_bits-mod n n v [] (omega arith))
          ∙ ap (λ x. to_bits n x) low
          ∙ write_bits-mod n n (value cs) [] (omega arith)
          ∙ to_bits-value cs h.1)

-- Two numbers that agree modulo 2 ^ w have the same w bits.
pub to_bits_congr : (w a b : ℕ) → a % 2 ^ w ≡ b % 2 ^ w → to_bits w a ≡ to_bits w b
to_bits_congr w a b h =
    sym (write_bits-mod w w a [] (omega arith))
    ∙ ap (to_bits w) h
    ∙ write_bits-mod w w b [] (omega arith)

AllBits-write_bits : (w v : ℕ) (bin : Bytes) → AllBits bin → AllBits (write_bits w v bin)
unfolding write_bits digit
AllBits-write_bits zero v bin h = h
AllBits-write_bits (suc w) v bin h = AllBits-write_bits w (v / 2) (digit v ∷ bin) (digit-IsBit v, h)

pub AllBits-to_bits : (w n : ℕ) → AllBits (to_bits w n)
AllBits-to_bits w n = AllBits-write_bits w n [] tt
