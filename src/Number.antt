-- ===== src/Number.antt =====
-- Numbers: src/ir/number.cpp, lines 1434-1520 and 1676-1770. Integers, and of the reals the two
-- infinities and NaN, which MPFR's arithmetic on them can give. Exact rationals and finite reals are
-- not in the model.
pub mod Order
use smtlibparser.Prelude.{ℕ, ◌+◌, Bool, true, false, not, ◌&&◌, ◌||◌, ◌==◌, if◌then◌else◌}
use smtlibparser.Prelude.Int.{ℤ, pos, pos_part, neg_part, ltb_ℤ, ◌+ℤ◌, ◌-ℤ◌, ◌*ℤ◌}

pub data Number : Type 0 where
  nan neg_infinity pos_infinity : Number
  finite : ℤ → Number

abbrev pub is_nan : Number → Bool
is_nan nan = true
is_nan _ = false

-- isInfinity
abbrev pub is_infinity : Number → Bool
is_infinity neg_infinity = true
is_infinity pos_infinity = true
is_infinity _ = false

abbrev same_integer : ℤ → ℤ → Bool
same_integer i j = (pos_part i == pos_part j) && (neg_part i == neg_part j)

-- operator==, operator<, operator<=, operator> and operator>=. Every comparison by MPFR is false on
-- NaN, and the last two are negations.
unfoldable pub equals : Number → Number → Bool
equals (finite i) (finite j) = same_integer i j
equals neg_infinity neg_infinity = true
equals pos_infinity pos_infinity = true
equals _ _ = false

unfoldable pub lt : Number → Number → Bool
lt (finite i) (finite j) = ltb_ℤ i j
lt (finite i) pos_infinity = true
lt neg_infinity (finite j) = true
lt neg_infinity pos_infinity = true
lt _ _ = false

unfoldable pub le : Number → Number → Bool
le (finite i) (finite j) = not (ltb_ℤ j i)
le (finite i) pos_infinity = true
le neg_infinity (finite j) = true
le neg_infinity neg_infinity = true
le neg_infinity pos_infinity = true
le pos_infinity pos_infinity = true
le _ _ = false

abbrev pub gt : Number → Number → Bool
gt a b = not (le a b)

abbrev pub ge : Number → Number → Bool
ge a b = not (lt a b)

-- std::min and std::max
abbrev pub min_number : Number → Number → Number
min_number a b = if lt b a then b else a

abbrev pub max_number : Number → Number → Number
max_number a b = if lt a b then b else a

-- operator+, operator- and operator*
unfoldable pub add : Number → Number → Number
add (finite i) (finite j) = finite (i +ℤ j)
add (finite i) neg_infinity = neg_infinity
add (finite i) pos_infinity = pos_infinity
add neg_infinity (finite j) = neg_infinity
add neg_infinity neg_infinity = neg_infinity
add pos_infinity (finite j) = pos_infinity
add pos_infinity pos_infinity = pos_infinity
add _ _ = nan

unfoldable pub neg : Number → Number
neg nan = nan
neg neg_infinity = pos_infinity
neg pos_infinity = neg_infinity
neg (finite i) = finite (pos 0 -ℤ i)

unfoldable pub sub : Number → Number → Number
unfolding add neg
sub (finite i) (finite j) = finite (i -ℤ j)
sub a b = add a (neg b)

-- abs
unfoldable pub abs_number : Number → Number
unfolding neg
abs_number nan = nan
abs_number neg_infinity = pos_infinity
abs_number pos_infinity = pos_infinity
abs_number (finite i) = if ltb_ℤ i (pos 0) then neg (finite i) else finite i

-- An infinity times a number: 1 for a positive one, -1 for a negative one.
unfoldable pub mul : Number → Number → Number
unfolding lt neg
mul nan b = nan
mul a nan = nan
mul (finite i) (finite j) = finite (i *ℤ j)
mul a b =
    if equals a (finite (pos 0)) || equals b (finite (pos 0))
    then nan
    else if lt a (finite (pos 0))
    then if lt b (finite (pos 0)) then pos_infinity else neg_infinity
    else if lt b (finite (pos 0))
    then neg_infinity
    else pos_infinity
