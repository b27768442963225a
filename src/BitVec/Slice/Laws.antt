-- ===== src/BitVec/Slice/Laws.antt =====
-- What concatenation, extraction and rotation do to the number and to the bits.
use native.Mathlib.Nat.{div-add-mod, mul-add-div_right, mul-add-mod_self_right}
use smtlibparser.Prelude.{
  ℕ, suc, ◌+◌, ◌-◌, ◌*◌, ◌/◌, ◌%◌, ◌^◌, ◌<◌, ◌≤◌, ◌≡◌, refl, ap, sym, ◌∙◌, false, [], ◌∷◌, ◌++◌,
  Bytes, arith, ◌==◌, lt→ltb, le→leb, le→ltb, length, length-append, length-drop, length-take, take,
  drop, take-append-drop,
}
use smtlibparser.Prelude.Arith.{pow_two_pos, pow_two_add}
use smtlibparser.Result.{ok, err, out_of_range, ◌>>=◌}
use smtlibparser.BitVec.{value, to_bits, lit, AllBits, is_literal, to_ulong}
use smtlibparser.BitVec.Value.{to_bits-value, to_bits_congr}
use smtlibparser.BitVec.Split.{value-append, AllBits-drop, AllBits-take, value-drop, value-take}
use smtlibparser.BitVec.Slice.{substr, bv_concat, bv_extract, bv_rotate_left, bv_rotate_right}

take_all : (a : Bytes) → take (length a) a ≡ a
take_all [] = refl
take_all (c ∷ cs) = ap (λ t. c ∷ t) (take_all cs)

take-append : (xs ys : Bytes) → take (length xs) (xs ++ ys) ≡ xs
take-append [] ys = refl
take-append (x ∷ xs) ys = ap (λ t. x ∷ t) (take-append xs ys)

drop-append : (xs ys : Bytes) → drop (length xs) (xs ++ ys) ≡ ys
drop-append [] ys = refl
drop-append (x ∷ xs) ys = drop-append xs ys

-- bvConcat puts the bits of its operands side by side: the first operand is the high part.
pub bv_concat-value :
    (a b : Bytes)
    → (bv_concat (lit a) (lit b) ≡ ok (lit (a ++ b)))
      × (value (a ++ b) ≡ value a * 2 ^ length b + value b)
unfolding bv_concat is_literal
bv_concat-value a b =
    let wa : length (lit a) - 2 ≡ length a = omega arith in
    let wb : length (lit b) - 2 ≡ length b = omega arith in
    (rw (wa, wb, take_all a, take_all b) refl, value-append a b)

-- Dividing a remainder leaves the digits that dividing the number leaves.
mod-div : (v k j : ℕ) → v % (2 ^ k * 2 ^ j) / 2 ^ j % 2 ^ k ≡ v / 2 ^ j % 2 ^ k
mod-div v k j =
    let p = 2 ^ k * 2 ^ j in
    let q = v / p in
    let r = v % p in
    let parts : q * 2 ^ k * 2 ^ j + r ≡ v = omega (arith, div-add-mod v p) in
    let high : v / 2 ^ j ≡ q * 2 ^ k + r / 2 ^ j =
      ap (λ x. x / 2 ^ j) (sym parts) ∙ mul-add-div_right (pow_two_pos j) (q * 2 ^ k) r in
    sym (ap (λ x. x % 2 ^ k) high ∙ mul-add-mod_self_right q (2 ^ k) (r / 2 ^ j))

module _ (a : Bytes) (ha : AllBits a) (small : length (lit a) < 2 ^ 64) where
  -- The k bits above the lowest j.
  middle :
      (k j : ℕ)
      → k + j ≤ length a
      → take k (drop (length a - (k + j)) a) ≡ to_bits k (value a / 2 ^ j)
  middle k j h =
      let high = drop (length a - (k + j)) a in
      let long : length high ≡ k + j = omega (arith, length-drop (length a - (k + j)) a) in
      let part = take k high in
      let size : length part ≡ k = omega (arith, length-take k high) in
      let below : length (drop k high) ≡ j = omega (arith, length-drop k high) in
      let number : value part ≡ value a % (2 ^ k * 2 ^ j) / 2 ^ j =
        value-take k high
        ∙ ap (λ n. value high / 2 ^ n) below
        ∙ ap (λ n. n / 2 ^ j)
            (value-drop (length a - (k + j)) a
              ∙ ap (λ n. value a % n) (ap (λ n. 2 ^ n) long ∙ pow_two_add j k)) in
      sym (to_bits-value part (AllBits-take k high (AllBits-drop (length a - (k + j)) a ha)))
      ∙ ap (λ n. to_bits n (value part)) size
      ∙ to_bits_congr k (value part) (value a / 2 ^ j)
          (ap (λ n. n % 2 ^ k) number ∙ mod-div (value a) k j)

  -- On a literal of bits, of a length below 2 ^ 64, bvExtract of the bits i down to j, both
  -- inside the width, gives i - j + 1 bits: the quotient by 2 ^ j, cut to that width.
  pub bv_extract-eq :
      (i j : ℕ)
      → j ≤ i
      → i < length a
      → bv_extract (lit a) i j ≡ ok (lit (to_bits (i - j + 1) (value a / 2 ^ j)))
  unfolding bv_extract is_literal to_ulong substr
  bv_extract-eq i j le inside =
      let k = i - j + 1 in
      let start : (2 + (length (lit a) - 2 + 2 ^ 64 - 1 - i)) % 2 ^ 64
          ≡ suc (suc (length a - (k + j))) =
        omega arith in
      let count : (i - j + 1) % 2 ^ 64 ≡ i - j + 1 = omega arith in
      rw (le→leb j i le, lt→ltb i (2 ^ 64) (omega arith), lt→ltb j (2 ^ 64) (omega arith))
        (rw (start, count)
          (rw
            (
              le→ltb (length (lit a)) (suc (suc (length a - (k + j)))) (omega arith),
              middle k j (omega arith),
            )
            refl))

take_rest : (n : ℕ) (a : Bytes) → take (length a - n) (drop n a) ≡ drop n a
take_rest n a = ap (λ k. take k (drop n a)) (sym (length-drop n a)) ∙ take_all (drop n a)

module _ (a : Bytes) (n : ℕ) (positive : 0 < length a) (small : length (lit a) < 2 ^ 64) where
  rotate_left-eq : n ≤ length a → bv_rotate_left (lit a) n ≡ ok (lit (drop n a ++ take n a))
  unfolding bv_rotate_left is_literal to_ulong substr
  rotate_left-eq h =
      let some_bits : (length (lit a) - 2 == 0) ≡ false = ground arith in
      let start : 2 + n ≡ suc (suc n) = omega arith in
      let count : (length (lit a) - 2 + 2 ^ 64 - n) % 2 ^ 64 ≡ length a - n = omega arith in
      rw (some_bits, lt→ltb n (2 ^ 64) (omega arith))
        (rw (start, count)
          (rw
            (
              le→ltb (length (lit a)) (suc (suc n)) (omega arith),
              le→ltb (length (lit a)) 2 (omega arith),
              take_rest n a,
            )
            refl))

  rotate_right-eq :
      n ≤ length a
      → bv_rotate_right (lit a) n ≡ ok (lit (drop (length a - n) a ++ take (length a - n) a))
  unfolding bv_rotate_right is_literal to_ulong substr
  rotate_right-eq h =
      let some_bits : (length (lit a) - 2 == 0) ≡ false = ground arith in
      let start : (2 + (length (lit a) - 2) + 2 ^ 64 - n) % 2 ^ 64 ≡ suc (suc (length a - n)) =
        omega arith in
      let count : (length (lit a) - 2 + 2 ^ 64 - n) % 2 ^ 64 ≡ length a - n = omega arith in
      let all : take n (drop (length a - n) a) ≡ drop (length a - n) a =
        let size : n ≡ length a - (length a - n) = omega arith in
        ap (λ k. take k (drop (length a - n) a)) size ∙ take_rest (length a - n) a in
      rw (some_bits, lt→ltb n (2 ^ 64) (omega arith))
        (rw (start, count)
          (rw
            (
              le→ltb (length (lit a)) (suc (suc (length a - n))) (omega arith),
              le→ltb (length (lit a)) 2 (omega arith),
              all,
            )
            refl))

  -- On a literal of at least one bit, of a length below 2 ^ 64, a rotation to the left by an
  -- amount above the width and below 2 ^ 64 is not reduced: substr throws.
  pub bv_rotate_left_wide : length a < n → n < 2 ^ 64 → bv_rotate_left (lit a) n ≡ err out_of_range
  unfolding bv_rotate_left is_literal to_ulong substr
  bv_rotate_left_wide wide h =
      let some_bits : (length (lit a) - 2 == 0) ≡ false = ground arith in
      let start : 2 + n ≡ suc (suc n) = omega arith in
      rw (some_bits, lt→ltb n (2 ^ 64) h)
        (rw start (rw (lt→ltb (length (lit a)) (suc (suc n)) (omega arith)) refl))

-- On a literal of at least one bit, of a length below 2 ^ 64, rotating to the left and then to
-- the right by one amount, at most the width, gives the bits back.
pub bv_rotate_right-bv_rotate_left :
    (a : Bytes) (n : ℕ)
    → 0 < length a
    → length (lit a) < 2 ^ 64
    → n ≤ length a
    → (bv_rotate_left (lit a) n >>= λ r. bv_rotate_right r n) ≡ ok (lit a)
bv_rotate_right-bv_rotate_left a n positive small h =
    let high = take n a in
    let low = drop n a in
    let nh : length high ≡ n = omega (arith, length-take n a) in
    let nl : length low ≡ length a - n = omega (arith, length-drop n a) in
    let size : length (low ++ high) ≡ length a = omega (arith, length-append low high) in
    let cut : length (low ++ high) - n ≡ length low = omega (arith, length-append low high) in
    rw (rotate_left-eq a n positive small h) (
      rotate_right-eq (low ++ high) n (omega arith) (omega arith) (omega arith)
      ∙ ap (λ k. ok (lit (drop k (low ++ high) ++ take k (low ++ high)))) cut
      ∙ ap (λ t. ok (lit (t ++ take (length low) (low ++ high)))) (drop-append low high)
      ∙ ap (λ t. ok (lit (high ++ t))) (take-append low high)
      ∙ ap (λ t. ok (lit t)) (take-append-drop n a))
