-- ===== src/Interval/Arith/Shift.antt =====
-- Sums and differences of intervals: src/ir/interval.cpp, lines 363-431 and 1399-1405 and 1440-1452.
use smtlibparser.Prelude.{
  ◌≡◌, refl, ap, ◌∙◌, Bool, true, false, not, ◌&&◌, ◌||◌, arith, if◌then◌else◌,
}
use smtlibparser.Prelude.Int.{ℤ, ◌+ℤ◌, ◌-ℤ◌, +ℤ_parts, -ℤ_parts}
use smtlibparser.Number.{Number, nan, neg_infinity, pos_infinity, finite, lt, add, sub, neg}
use smtlibparser.Number.Order.{IsNumber}
use smtlibparser.Interval.{Interval, contains, empty_interval}
use smtlibparser.Interval.Sides.{IsProper}
use smtlibparser.Interval.Sets.{contains-not_empty, upper_of, lower_of, within}
use smtlibparser.Interval.Arith.{add_interval, sub_interval, sum_of, minus_of}

-- The bound, closed or not, lets the number through from below or from above.
abbrev pub above : Number → Bool → Number → Bool
above p closed x = if closed then not (lt x p) else lt p x

abbrev pub below : Number → Bool → Number → Bool
below p closed x = if closed then not (lt p x) else lt x p

-- The sum of two bounds lets the sums through.
above-add :
    (p q : Number) (f g : Bool) (i j : ℤ)
    → IsNumber p
    → IsNumber q
    → above p f (finite i) ≡ true
    → above q g (finite j) ≡ true
    → IsNumber (add p q) × (above (add p q) (f && g) (finite (i +ℤ j)) ≡ true)
unfolding lt add
above-add nan q f g i j hp hq h k = cc
above-add p nan f g i j hp hq h k = cc
above-add (finite m) (finite n) f g i j hp hq h k =
    (refl, ground (arith, +ℤ_parts m n, +ℤ_parts i j))
above-add neg_infinity (finite n) f g i j hp hq h k = (refl, ground arith)
above-add (finite m) neg_infinity f g i j hp hq h k = (refl, ground arith)
above-add neg_infinity neg_infinity f g i j hp hq h k = (refl, ground arith)
above-add pos_infinity q f g i j hp hq h k = ground arith
above-add p pos_infinity f g i j hp hq h k = ground arith

below-add :
    (p q : Number) (f g : Bool) (i j : ℤ)
    → IsNumber p
    → IsNumber q
    → below p f (finite i) ≡ true
    → below q g (finite j) ≡ true
    → IsNumber (add p q) × (below (add p q) (f && g) (finite (i +ℤ j)) ≡ true)
unfolding lt add
below-add nan q f g i j hp hq h k = cc
below-add p nan f g i j hp hq h k = cc
below-add (finite m) (finite n) f g i j hp hq h k =
    (refl, ground (arith, +ℤ_parts m n, +ℤ_parts i j))
below-add pos_infinity (finite n) f g i j hp hq h k = (refl, ground arith)
below-add (finite m) pos_infinity f g i j hp hq h k = (refl, ground arith)
below-add pos_infinity pos_infinity f g i j hp hq h k = (refl, ground arith)
below-add neg_infinity q f g i j hp hq h k = ground arith
below-add p neg_infinity f g i j hp hq h k = ground arith

above-sub :
    (p q : Number) (f g : Bool) (i j : ℤ)
    → IsNumber p
    → IsNumber q
    → above p f (finite i) ≡ true
    → below q g (finite j) ≡ true
    → IsNumber (sub p q) × (above (sub p q) (f && g) (finite (i -ℤ j)) ≡ true)
unfolding lt sub add neg
above-sub nan q f g i j hp hq h k = cc
above-sub p nan f g i j hp hq h k = cc
above-sub (finite m) (finite n) f g i j hp hq h k =
    (refl, ground (arith, -ℤ_parts m n, -ℤ_parts i j))
above-sub neg_infinity (finite n) f g i j hp hq h k = (refl, ground arith)
above-sub (finite m) pos_infinity f g i j hp hq h k = (refl, ground arith)
above-sub neg_infinity pos_infinity f g i j hp hq h k = (refl, ground arith)
above-sub pos_infinity q f g i j hp hq h k = ground arith
above-sub p neg_infinity f g i j hp hq h k = ground arith

below-sub :
    (p q : Number) (f g : Bool) (i j : ℤ)
    → IsNumber p
    → IsNumber q
    → below p f (finite i) ≡ true
    → above q g (finite j) ≡ true
    → IsNumber (sub p q) × (below (sub p q) (f && g) (finite (i -ℤ j)) ≡ true)
unfolding lt sub add neg
below-sub nan q f g i j hp hq h k = cc
below-sub p nan f g i j hp hq h k = cc
below-sub (finite m) (finite n) f g i j hp hq h k =
    (refl, ground (arith, -ℤ_parts m n, -ℤ_parts i j))
below-sub pos_infinity (finite n) f g i j hp hq h k = (refl, ground arith)
below-sub (finite m) neg_infinity f g i j hp hq h k = (refl, ground arith)
below-sub pos_infinity neg_infinity f g i j hp hq h k = (refl, ground arith)
below-sub neg_infinity q f g i j hp hq h k = ground arith
below-sub p pos_infinity f g i j hp hq h k = ground arith

neither : {p q : Bool} → p ≡ false → q ≡ false → (p || q) ≡ false
neither h g = cc (h, g)

module _ (a b : Interval) (pa : IsProper a) (pb : IsProper b) where
  -- The sum of an integer in one interval and an integer in another is in the sum of the intervals,
  -- where no bound of either is NaN.
  pub contains-add_interval :
      (i j : ℤ)
      → contains a (finite i) ≡ true
      → contains b (finite j) ≡ true
      → contains (add_interval a b) (finite (i +ℤ j)) ≡ true
  unfolding add_interval
  contains-add_interval i j ca cb =
      let ea = contains-not_empty a (finite i) ca in
      let eb = contains-not_empty b (finite j) cb in
      let (ln, l) =
        above-add a.lower b.lower a.left_closed b.left_closed i j pa.lower_number pb.lower_number
          (lower_of a (finite i) pa refl ca) (lower_of b (finite j) pb refl cb) in
      let (un, u) =
        below-add a.upper b.upper a.right_closed b.right_closed i j pa.upper_number pb.upper_number
          (upper_of a (finite i) pa refl ca) (upper_of b (finite j) pb refl cb) in
      ap (λ t. contains (if t then empty_interval else sum_of a b) (finite (i +ℤ j)))
        (neither ea eb)
      ∙ within (sum_of a b) (finite (i +ℤ j)) (record { lower_number = ln; upper_number = un }) refl
          l u

  -- The difference of an integer in one interval and an integer in another is in the difference of
  -- the intervals, where no bound of either is NaN.
  pub contains-sub_interval :
      (i j : ℤ)
      → contains a (finite i) ≡ true
      → contains b (finite j) ≡ true
      → contains (sub_interval a b) (finite (i -ℤ j)) ≡ true
  unfolding sub_interval
  contains-sub_interval i j ca cb =
      let ea = contains-not_empty a (finite i) ca in
      let eb = contains-not_empty b (finite j) cb in
      let (ln, l) =
        above-sub a.lower b.upper a.left_closed b.right_closed i j pa.lower_number pb.upper_number
          (lower_of a (finite i) pa refl ca) (upper_of b (finite j) pb refl cb) in
      let (un, u) =
        below-sub a.upper b.lower a.right_closed b.left_closed i j pa.upper_number pb.lower_number
          (upper_of a (finite i) pa refl ca) (lower_of b (finite j) pb refl cb) in
      ap (λ t. contains (if t then empty_interval else minus_of a b) (finite (i -ℤ j)))
        (neither ea eb)
      ∙ within (minus_of a b) (finite (i -ℤ j)) (record { lower_number = ln; upper_number = un })
          refl l u
