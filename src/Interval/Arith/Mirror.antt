-- ===== src/Interval/Arith/Mirror.antt =====
-- The interval seen from the other side of zero, and absolute values: src/ir/interval.cpp, lines 375-431.
use smtlibparser.Prelude.{
  ◌≡◌, refl, sym, ap, ◌∙◌, by_if, Bool-cases, inl, inr, Bool, true, false, not, ◌&&◌, arith,
  if◌then◌else◌,
}
use smtlibparser.Prelude.Int.{pos, ltb_ℤ, ◌-ℤ◌, -ℤ_parts, eq_of_parts}
use smtlibparser.Number.{
  Number, nan, neg_infinity, pos_infinity, finite, lt, le, ge, neg, abs_number, equals, max_number,
}
use smtlibparser.Number.Order.{IsNumber, lt_asymm, le-not-lt, equals-not-lt, order_3}
use smtlibparser.Interval.{Interval, is_empty, contains}
use smtlibparser.Interval.Sides.{IsProper, upper_test, contains_lem}
use smtlibparser.Interval.Sets.{
  contains-not_empty, max_IsNumber, upper_of, lower_of, within, contains_empty,
  contains-empty_interval,
}
use smtlibparser.Interval.Arith.{negate, mirrored, abs_interval}
use smtlibparser.Interval.Arith.Shift.{below}

neg-IsNumber : (x : Number) → IsNumber x → IsNumber (neg x)
unfolding neg
neg-IsNumber nan h = cc
neg-IsNumber neg_infinity h = refl
neg-IsNumber pos_infinity h = refl
neg-IsNumber (finite i) h = refl

lt-neg : (x y : Number) → lt (neg x) (neg y) ≡ lt y x
unfolding neg lt
lt-neg (finite i) (finite j) = ground (arith, -ℤ_parts (pos 0) i, -ℤ_parts (pos 0) j)
lt-neg nan nan = refl
lt-neg nan neg_infinity = refl
lt-neg nan pos_infinity = refl
lt-neg nan (finite j) = refl
lt-neg neg_infinity nan = refl
lt-neg neg_infinity neg_infinity = refl
lt-neg neg_infinity pos_infinity = refl
lt-neg neg_infinity (finite j) = refl
lt-neg pos_infinity nan = refl
lt-neg pos_infinity neg_infinity = refl
lt-neg pos_infinity pos_infinity = refl
lt-neg pos_infinity (finite j) = refl
lt-neg (finite i) nan = refl
lt-neg (finite i) neg_infinity = refl
lt-neg (finite i) pos_infinity = refl

mirrored-IsProper : (i : Interval) → IsProper i → IsProper (mirrored i)
mirrored-IsProper i p = record {
  lower_number = neg-IsNumber i.upper p.upper_number;
  upper_number = neg-IsNumber i.lower p.lower_number;
}

contains-mirrored :
    (i : Interval) (x : Number)
    → IsProper i
    → IsNumber x
    → contains (mirrored i) (neg x) ≡ contains i x
contains-mirrored i x p hx =
    let m = contains_lem (mirrored i) (neg x) (mirrored-IsProper i p) (neg-IsNumber x hx) in
    let c = contains_lem i x p hx in
    ground (arith, lt-neg x i.upper, lt-neg i.lower x, lt-neg i.upper x, lt-neg x i.lower)

-- A number is in an interval exactly where its negative is in the negated interval.
pub contains-negate :
    (i : Interval) (x : Number)
    → IsProper i
    → IsNumber x
    → contains (negate i) (neg x) ≡ contains i x
unfolding negate
contains-negate i x p hx =
    by_if (λ j. contains j (neg x) ≡ contains i x) (is_empty i) _ _
      (λ e. contains-empty_interval (neg x) ∙ sym (contains_empty i x e))
      (λ e. contains-mirrored i x p hx)

abs_of_pos : (x : Number) → lt x (finite (pos 0)) ≡ false → abs_number x ≡ x
unfolding lt abs_number
abs_of_pos nan h = refl
abs_of_pos pos_infinity h = refl
abs_of_pos (finite i) h = ground arith
abs_of_pos neg_infinity h = cc

abs_of_neg : (x : Number) → lt (finite (pos 0)) x ≡ false → abs_number x ≡ neg x
unfolding lt abs_number neg
abs_of_neg nan h = refl
abs_of_neg neg_infinity h = refl
abs_of_neg (finite i) h = ground (arith, eq_of_parts i (pos 0 -ℤ i), -ℤ_parts (pos 0) i)
abs_of_neg pos_infinity h = cc

-- The larger of two bounds, closed where the first reaches it and is closed, lets through what either
-- lets through, unless they are equal and only the second is closed.
module _ (l u x : Number) (left right : Bool) (hl : IsNumber l) (hu : IsNumber u)
    (hx : IsNumber x) where
  below_first :
      below l left x ≡ true
      → below (max_number l u) (if equals (max_number l u) l then left else right) x ≡ true
  below_first h = ground (
    arith,
    order_3 l u x hl hu hx,
    equals-not-lt l l hl hl,
    equals-not-lt u l hu hl,
    lt_asymm l l,
  )

  below_second :
      below u right x ≡ true
      → (equals l u && (right && not left)) ≡ false
      → below (max_number l u) (if equals (max_number l u) l then left else right) x ≡ true
  below_second h e = ground (
    arith,
    order_3 l u x hl hu hx,
    equals-not-lt l l hl hl,
    equals-not-lt u l hu hl,
    equals-not-lt l u hl hu,
    lt_asymm l l,
  )

pub abs-IsNumber : (x : Number) → IsNumber x → IsNumber (abs_number x)
unfolding abs_number neg
abs-IsNumber nan h = cc
abs-IsNumber neg_infinity h = refl
abs-IsNumber pos_infinity h = refl
abs-IsNumber (finite i) h = by_if IsNumber (ltb_ℤ i (pos 0)) _ _ (λ e. refl) (λ e. refl)

lt-abs_number : (x : Number) → lt (abs_number x) (finite (pos 0)) ≡ false
unfolding abs_number neg lt
lt-abs_number nan = refl
lt-abs_number neg_infinity = refl
lt-abs_number pos_infinity = refl
lt-abs_number (finite i) = ground (arith, -ℤ_parts (pos 0) i)

module _ (i : Interval) (p : IsProper i) (x : Number) (hx : IsNumber x)
    (c : contains i x ≡ true) where
  -- Absolute values are the same on one side of zero.
  right_of_zero : lt i.lower (finite (pos 0)) ≡ false → contains i (abs_number x) ≡ true
  right_of_zero h =
      let l = lower_of i x p hx c in
      let o = order_3 i.lower x (finite (pos 0)) p.lower_number hx refl in
      ap (contains i) (abs_of_pos x (ground arith)) ∙ c

  left_of_zero : lt (finite (pos 0)) i.upper ≡ false → contains (mirrored i) (abs_number x) ≡ true
  left_of_zero h =
      let u = upper_of i x p hx c in
      let o = order_3 i.upper x (finite (pos 0)) p.upper_number hx refl in
      ap (contains (mirrored i)) (abs_of_neg x (ground arith)) ∙ contains-mirrored i x p hx ∙ c

  -- Across zero.
  pub first_side :
      lt i.lower (finite (pos 0)) ≡ true
      → lt x (finite (pos 0)) ≡ true
      → below (abs_number i.lower) i.left_closed (abs_number x) ≡ true
  first_side h n =
      let ll = abs_of_neg i.lower (lt_asymm _ _ h) in
      let xx = abs_of_neg x (lt_asymm _ _ n) in
      let l = lower_of i x p hx c in
      rw (ll, xx) (ground (arith, lt-neg x i.lower, lt-neg i.lower x))

  pub second_side :
      lt (finite (pos 0)) i.upper ≡ true
      → lt x (finite (pos 0)) ≡ false
      → below (abs_number i.upper) i.right_closed (abs_number x) ≡ true
  second_side g n = rw (abs_of_pos i.upper (lt_asymm _ _ g), abs_of_pos x n) (upper_of i x p hx c)

  abbrev across : Interval
  across = record {
    lower = finite (pos 0);
    upper = max_number (abs_number i.lower) (abs_number i.upper);
    left_closed = true;
    right_closed =
        if equals (max_number (abs_number i.lower) (abs_number i.upper)) (abs_number i.lower)
        then i.left_closed
        else i.right_closed;
  }

  across_top :
      lt i.lower (finite (pos 0)) ≡ true
      → lt (finite (pos 0)) i.upper ≡ true
      → (equals (abs_number i.lower) (abs_number i.upper) && (i.right_closed && not i.left_closed))
        ≡ false
      → upper_test across (abs_number x) ≡ true
  across_top h g e =
      let hl = abs-IsNumber i.lower p.lower_number in
      let hu = abs-IsNumber i.upper p.upper_number in
      let ha = abs-IsNumber x hx in
      elim (Bool-cases (lt x (finite (pos 0)))) [
        | inl n ↦
            below_first (abs_number i.lower) (abs_number i.upper) (abs_number x) i.left_closed
              i.right_closed hl hu ha (first_side h n)
        | inr n ↦
            below_second (abs_number i.lower) (abs_number i.upper) (abs_number x) i.left_closed
              i.right_closed hl hu ha (second_side g n) e
      ]

  -- The absolute value of a number in an interval is in the absolute value of the interval, unless
  -- the bounds are opposite and only the upper one is in the interval.
  pub contains-abs_interval :
      (equals (abs_number i.lower) (abs_number i.upper) && (i.right_closed && not i.left_closed))
        ≡ false
      → contains (abs_interval i) (abs_number x) ≡ true
  unfolding abs_interval
  contains-abs_interval e =
      by_if (λ j. contains j (abs_number x) ≡ true) (is_empty i) _ _
        (λ n. cc (n, contains-not_empty i x c))
        (λ n.
          by_if (λ j. contains j (abs_number x) ≡ true) (ge i.lower (finite (pos 0))) _ _
            (λ h. right_of_zero (ground arith))
            (λ h.
              by_if (λ j. contains j (abs_number x) ≡ true) (le i.upper (finite (pos 0))) _ _
                (λ g.
                  left_of_zero
                    (ground (arith, le-not-lt i.upper (finite (pos 0)) p.upper_number refl)))
                (λ g.
                  within across (abs_number x)
                    (record {
                      lower_number = refl;
                      upper_number =
                          max_IsNumber (abs_number i.lower) (abs_number i.upper)
                            (abs-IsNumber i.lower p.lower_number)
                            (abs-IsNumber i.upper p.upper_number);
                    })
                    (abs-IsNumber x hx) (ground (arith, lt-abs_number x))
                    (across_top (ground arith)
                      (ground (arith, le-not-lt i.upper (finite (pos 0)) p.upper_number refl)) e))))
