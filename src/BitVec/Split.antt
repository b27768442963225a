-- ===== src/BitVec/Split.antt =====
-- Bits in two parts: appending, and taking the high or the low ones.
use native.Mathlib.Nat.{
  mod-mod, mod-eq_of_lt, mul-add-mod_self_right, mul-add-div_right, div-eq_of_lt,
}
use smtlibparser.Prelude.{
  ℕ, zero, suc, ◌+◌, ◌*◌, ◌/◌, ◌%◌, ◌^◌, ◌≡◌, refl, ap, sym, ◌∙◌, inl, [], ◌∷◌, ◌++◌, Bytes, arith,
  length, take, drop, take-append-drop, replicate,
}
use smtlibparser.Prelude.Arith.{pow_two_pos}
use smtlibparser.BitVec.{bit, read_bits, value, to_bits, AllBits}
use smtlibparser.BitVec.Value.{read_bits-eq, value-lt, value_zero, to_bits-value, to_bits_congr}

read_bits-append : (u : ℕ) (xs ys : Bytes) → read_bits u (xs ++ ys) ≡ read_bits (read_bits u xs) ys
unfolding read_bits
read_bits-append u [] ys = refl
read_bits-append u (x ∷ xs) ys = read_bits-append (u * 2 + bit x) xs ys

-- The high part of n + m bits weighs 2 ^ m.
pub value-append : (xs ys : Bytes) → value (xs ++ ys) ≡ value xs * 2 ^ length ys + value ys
value-append xs ys = read_bits-append 0 xs ys ∙ read_bits-eq (value xs) ys

pub AllBits-append : (xs ys : Bytes) → AllBits xs → AllBits ys → AllBits (xs ++ ys)
AllBits-append [] ys h k = k
AllBits-append (x ∷ xs) ys h k = (h.0, AllBits-append xs ys h.1 k)

pub AllBits-drop : (n : ℕ) (xs : Bytes) → AllBits xs → AllBits (drop n xs)
AllBits-drop zero xs h = h
AllBits-drop (suc n) [] h = h
AllBits-drop (suc n) (x ∷ xs) h = AllBits-drop n xs h.1

pub AllBits-take : (n : ℕ) (xs : Bytes) → AllBits xs → AllBits (take n xs)
AllBits-take zero xs h = tt
AllBits-take (suc n) [] h = h
AllBits-take (suc n) (x ∷ xs) h = (h.0, AllBits-take n xs h.1)

pub AllBits-replicate : (k : ℕ) → AllBits (replicate k b'0')
AllBits-replicate zero = tt
AllBits-replicate (suc k) = (inl refl, AllBits-replicate k)

-- Zeros in front do not count.
pub value-replicate : (k : ℕ) (cs : Bytes) → value (replicate k b'0' ++ cs) ≡ value cs
value-replicate zero cs = refl
value-replicate (suc k) cs = value_zero (replicate k b'0' ++ cs) _ refl ∙ value-replicate k cs

pub split-value :
    (k : ℕ) (cs : Bytes) → value cs ≡ value (take k cs) * 2 ^ length (drop k cs) + value (drop k cs)
split-value k cs = ap value (sym (take-append-drop k cs)) ∙ value-append (take k cs) (drop k cs)

-- The low bits are the remainder by a power of two, the high ones the quotient.
pub value-drop : (k : ℕ) (cs : Bytes) → value (drop k cs) ≡ value cs % 2 ^ length (drop k cs)
value-drop k cs =
    let p = 2 ^ length (drop k cs) in
    sym (
      ap (λ v. v % p) (split-value k cs)
      ∙ mul-add-mod_self_right (value (take k cs)) p (value (drop k cs))
      ∙ mod-eq_of_lt (value-lt (drop k cs)))

pub value-take : (k : ℕ) (cs : Bytes) → value (take k cs) ≡ value cs / 2 ^ length (drop k cs)
value-take k cs =
    let p = 2 ^ length (drop k cs) in
    sym (
      ap (λ v. v / p) (split-value k cs)
      ∙ mul-add-div_right (pow_two_pos (length (drop k cs))) (value (take k cs)) (value (drop k cs))
      ∙ omega (arith, div-eq_of_lt (value-lt (drop k cs))))

-- A suffix of w bits holds the low w bits of the number.
pub drop-eq-to_bits :
    (k w : ℕ) (cs : Bytes) → AllBits cs → length (drop k cs) ≡ w → drop k cs ≡ to_bits w (value cs)
drop-eq-to_bits k w cs h e =
    let low = drop k cs in
    sym (to_bits-value low (AllBits-drop k cs h))
    ∙ ap (λ n. to_bits n (value low)) e
    ∙ to_bits_congr w (value low) (value cs) (
        ap (λ v. v % 2 ^ w) (value-drop k cs ∙ ap (λ n. value cs % 2 ^ n) e)
        ∙ mod-mod (value cs) (2 ^ w))
