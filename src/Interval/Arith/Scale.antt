-- ===== src/Interval/Arith/Scale.antt =====
-- Intervals multiplied by a number: src/ir/interval.cpp, lines 1407-1425 and 2296-2309.
use native.Mathlib.Nat.{mul-lt-mul_of_pos_right, mul-le-mul_right, add-mul}
use smtlibparser.Prelude.{
  ℕ, zero, suc, ◌+◌, ◌*◌, ◌≤◌, ◌<◌, ◌≡◌, refl, sym, ap, ◌∙◌, by_if, true, false, arith, ltb,
  if◌then◌else◌,
}
use smtlibparser.Prelude.Int.{ℤ, pos, negsuc, pos_part, neg_part, ltb_ℤ, sub_ℕ, ◌*ℤ◌}
use smtlibparser.Number.{Number, nan, neg_infinity, pos_infinity, finite, lt, le, equals, mul}
use smtlibparser.Number.Order.{IsNumber}
use smtlibparser.Interval.{Interval, is_empty, contains, empty_interval}
use smtlibparser.Interval.Sides.{IsProper, contains_lem}
use smtlibparser.Interval.Sets.{contains_empty, contains-empty_interval}
use smtlibparser.Interval.Arith.{mul_number, scale, stretched, turned}

sub_parts : (a b : ℕ) → pos_part (sub_ℕ a b) + b ≡ neg_part (sub_ℕ a b) + a
sub_parts a b = ground arith

*ℤ_parts :
    (a b : ℤ)
    → pos_part (a *ℤ b) + (pos_part a * neg_part b + neg_part a * pos_part b)
      ≡ neg_part (a *ℤ b) + (pos_part a * pos_part b + neg_part a * neg_part b)
unfolding ◌*ℤ◌
*ℤ_parts a b = sub_parts _ _

ltb_scale : (a b k : ℕ) → ltb (a * suc k) (b * suc k) ≡ ltb a b
ltb_scale a b k =
    let l : a < b → a * suc k < b * suc k = λ h. mul-lt-mul_of_pos_right h (omega arith) in
    let m : b ≤ a → b * suc k ≤ a * suc k = λ h. mul-le-mul_right (suc k) h in ground arith

scale_parts : (i j : ℤ) (k : ℕ) → ltb_ℤ (i *ℤ pos (suc k)) (j *ℤ pos (suc k)) ≡ ltb_ℤ i j
scale_parts i j k =
    (let x = *ℤ_parts i (pos (suc k)) in
      let y = *ℤ_parts j (pos (suc k)) in
      let z = add-mul (pos_part i) (neg_part j) (suc k) in
      let w = add-mul (pos_part j) (neg_part i) (suc k) in ground arith)
    ∙ ltb_scale (pos_part i + neg_part j) (pos_part j + neg_part i) k

scale_parts_neg : (i j : ℤ) (k : ℕ) → ltb_ℤ (i *ℤ negsuc k) (j *ℤ negsuc k) ≡ ltb_ℤ j i
scale_parts_neg i j k =
    (let x = *ℤ_parts i (negsuc k) in
      let y = *ℤ_parts j (negsuc k) in
      let z = add-mul (pos_part j) (neg_part i) (suc k) in
      let w = add-mul (pos_part i) (neg_part j) (suc k) in ground arith)
    ∙ ltb_scale (pos_part j + neg_part i) (pos_part i + neg_part j) k

-- Multiplying by a positive number keeps the order, and by a negative one turns it round.
lt-mul :
    (a b : Number) (k : ℕ)
    → IsNumber a
    → IsNumber b
    → lt (mul a (finite (pos (suc k)))) (mul b (finite (pos (suc k)))) ≡ lt a b
unfolding lt mul equals
lt-mul nan b k ha hb = cc
lt-mul a nan k ha hb = cc
lt-mul (finite i) (finite j) k ha hb = scale_parts i j k
lt-mul (finite i) neg_infinity k ha hb = ground arith
lt-mul (finite i) pos_infinity k ha hb = ground arith
lt-mul neg_infinity (finite j) k ha hb = ground arith
lt-mul neg_infinity neg_infinity k ha hb = ground arith
lt-mul neg_infinity pos_infinity k ha hb = ground arith
lt-mul pos_infinity (finite j) k ha hb = ground arith
lt-mul pos_infinity neg_infinity k ha hb = ground arith
lt-mul pos_infinity pos_infinity k ha hb = ground arith

lt-mul_neg :
    (a b : Number) (k : ℕ)
    → IsNumber a
    → IsNumber b
    → lt (mul a (finite (negsuc k))) (mul b (finite (negsuc k))) ≡ lt b a
unfolding lt mul equals
lt-mul_neg nan b k ha hb = cc
lt-mul_neg a nan k ha hb = cc
lt-mul_neg (finite i) (finite j) k ha hb = scale_parts_neg i j k
lt-mul_neg (finite i) neg_infinity k ha hb = ground arith
lt-mul_neg (finite i) pos_infinity k ha hb = ground arith
lt-mul_neg neg_infinity (finite j) k ha hb = ground arith
lt-mul_neg neg_infinity neg_infinity k ha hb = ground arith
lt-mul_neg neg_infinity pos_infinity k ha hb = ground arith
lt-mul_neg pos_infinity (finite j) k ha hb = ground arith
lt-mul_neg pos_infinity neg_infinity k ha hb = ground arith
lt-mul_neg pos_infinity pos_infinity k ha hb = ground arith

-- Not zero.
abbrev pub IsNonzero : ℤ → Type 0
IsNonzero (pos zero) = ⊥
IsNonzero _ = Unit

mul-IsNumber : (a : Number) (v : ℤ) → IsNonzero v → IsNumber a → IsNumber (mul a (finite v))
unfolding mul lt equals
mul-IsNumber nan v hv ha = cc
mul-IsNumber (finite i) v hv ha = refl
mul-IsNumber neg_infinity (pos (suc k)) hv ha = ground arith
mul-IsNumber neg_infinity (negsuc k) hv ha = ground arith
mul-IsNumber pos_infinity (pos (suc k)) hv ha = ground arith
mul-IsNumber pos_infinity (negsuc k) hv ha = ground arith
mul-IsNumber neg_infinity (pos zero) hv ha = elim hv [ ]
mul-IsNumber pos_infinity (pos zero) hv ha = elim hv [ ]

module _ (i : Interval) (p : IsProper i) (x : Number) (hx : IsNumber x) (k : ℕ) where
  contains-stretched :
      contains (stretched i (finite (pos (suc k)))) (mul x (finite (pos (suc k)))) ≡ contains i x
  contains-stretched =
      let v = finite (pos (suc k)) in
      let q : IsProper (stretched i v) = record {
        lower_number = mul-IsNumber i.lower (pos (suc k)) tt p.lower_number;
        upper_number = mul-IsNumber i.upper (pos (suc k)) tt p.upper_number;
      } in
      let m = contains_lem (stretched i v) (mul x v) q (mul-IsNumber x (pos (suc k)) tt hx) in
      let c = contains_lem i x p hx in
      ground (
        arith,
        lt-mul x i.lower k hx p.lower_number,
        lt-mul i.lower x k p.lower_number hx,
        lt-mul x i.upper k hx p.upper_number,
        lt-mul i.upper x k p.upper_number hx,
      )

  contains-turned :
      contains (turned i (finite (negsuc k))) (mul x (finite (negsuc k))) ≡ contains i x
  contains-turned =
      let v = finite (negsuc k) in
      let q : IsProper (turned i v) = record {
        lower_number = mul-IsNumber i.upper (negsuc k) tt p.upper_number;
        upper_number = mul-IsNumber i.lower (negsuc k) tt p.lower_number;
      } in
      let m = contains_lem (turned i v) (mul x v) q (mul-IsNumber x (negsuc k) tt hx) in
      let c = contains_lem i x p hx in
      ground (
        arith,
        lt-mul_neg x i.lower k hx p.lower_number,
        lt-mul_neg i.lower x k p.lower_number hx,
        lt-mul_neg x i.upper k hx p.upper_number,
        lt-mul_neg i.upper x k p.upper_number hx,
      )

mul_number_code :
    (i : Interval) (v : ℤ)
    → IsNonzero v
    → mul_number i (finite v) ≡ (
        if is_empty i
        then empty_interval
        else if ltb_ℤ (pos 0) v
        then stretched i (finite v)
        else turned i (finite v))
unfolding mul_number le lt
mul_number_code i (pos zero) h = elim h [ ]
mul_number_code i (pos (suc k)) h = ground arith
mul_number_code i (negsuc k) h = ground arith

contains-multiple :
    (i : Interval) (x : Number) (v : ℤ)
    → IsProper i
    → IsNumber x
    → IsNonzero v
    → contains
        (if ltb_ℤ (pos 0) v then stretched i (finite v) else turned i (finite v))
        (mul x (finite v))
      ≡ contains i x
contains-multiple i x (pos zero) p hx hv = elim hv [ ]
contains-multiple i x (pos (suc k)) p hx hv =
    let t : ltb_ℤ (pos 0) (pos (suc k)) ≡ true = ground arith in
    ap
      (λ t.
        contains (if t then stretched i (finite (pos (suc k))) else turned i (finite (pos (suc k))))
          (mul x (finite (pos (suc k)))))
      t
    ∙ contains-stretched i p x hx k
contains-multiple i x (negsuc k) p hx hv =
    let t : ltb_ℤ (pos 0) (negsuc k) ≡ false = ground arith in
    ap
      (λ t.
        contains (if t then stretched i (finite (negsuc k)) else turned i (finite (negsuc k)))
          (mul x (finite (negsuc k))))
      t
    ∙ contains-turned i p x hx k

-- Multiplying an interval by an integer other than zero is exact: a number is in the interval where
-- its multiple is in the product.
pub contains-mul_number :
    (i : Interval) (x : Number) (v : ℤ)
    → IsProper i
    → IsNumber x
    → IsNonzero v
    → contains (mul_number i (finite v)) (mul x (finite v)) ≡ contains i x
contains-mul_number i x v p hx hv =
    ap (λ j. contains j (mul x (finite v))) (mul_number_code i v hv)
    ∙ by_if (λ j. contains j (mul x (finite v)) ≡ contains i x) (is_empty i) _ _
        (λ e. contains-empty_interval (mul x (finite v)) ∙ sym (contains_empty i x e))
        (λ e. contains-multiple i x v p hx hv)

-- operator*= agrees with operator*, by an integer other than zero and on intervals that are not empty.
pub scale-mul_number :
    (i : Interval) (v : ℤ)
    → is_empty i ≡ false
    → IsNonzero v
    → scale i (finite v) ≡ mul_number i (finite v)
unfolding scale lt
scale-mul_number i (pos zero) e hv = elim hv [ ]
scale-mul_number i (pos (suc k)) e hv = ground (arith, mul_number_code i (pos (suc k)) hv)
scale-mul_number i (negsuc k) e hv = ground (arith, mul_number_code i (negsuc k) hv)
