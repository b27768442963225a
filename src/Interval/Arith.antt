-- ===== src/Interval/Arith.antt =====
-- Arithmetic on intervals: src/ir/interval.cpp, lines 363-431, 1399-1454, 1708-1774, 2284-2312 and
-- 2462-2479.
pub mod Shift
pub mod Operate
pub mod Scale
pub mod Mod
pub mod Mirror
use smtlibparser.Prelude.{Bool, true, false, not, ◌&&◌, ◌||◌, if◌then◌else◌}
use smtlibparser.Prelude.Int.{ℤ, pos, negsuc}
use smtlibparser.Result.{Result, ok, err, domain, invalid_argument}
use smtlibparser.Number.{
  Number, finite, equals, lt, le, gt, ge, add, sub, neg, mul, abs_number, min_number, max_number,
}
use smtlibparser.Interval.{
  Interval, is_empty, empty_interval, is_disjoint_from, is_intersecting_with, intersection,
  union_with,
}

abbrev pub number : ℤ → Number
number i = finite i

-- operator++ and operator--, of either form
unfoldable pub increment : Interval → Interval
unfolding is_empty
increment i =
    if is_empty i
    then empty_interval
    else record i { lower = add i.lower (number (pos 1)); upper = add i.upper (number (pos 1)) }

unfoldable pub decrement : Interval → Interval
unfolding is_empty
decrement i =
    if is_empty i
    then empty_interval
    else record i { lower = sub i.lower (number (pos 1)); upper = sub i.upper (number (pos 1)) }

-- The interval seen from the other side of zero.
abbrev pub mirrored : Interval → Interval
mirrored i = record {
  lower = neg i.upper;
  upper = neg i.lower;
  left_closed = i.right_closed;
  right_closed = i.left_closed;
}

-- operator-, operator~, operator! and negate
unfoldable pub negate : Interval → Interval
unfolding is_empty
negate i = if is_empty i then empty_interval else mirrored i

unfoldable pub abs_interval : Interval → Interval
unfolding is_empty
abs_interval i =
    let max_abs = max_number (abs_number i.lower) (abs_number i.upper) in
    if is_empty i
    then empty_interval
    else if ge i.lower (number (pos 0))
    then i
    else if le i.upper (number (pos 0))
    then mirrored i
    else record {
      lower = number (pos 0);
      upper = max_abs;
      left_closed = true;
      right_closed = if equals max_abs (abs_number i.lower) then i.left_closed else i.right_closed;
    }

-- operator+, operator- and operator* by a number
unfoldable pub add_number : Interval → Number → Interval
unfolding add
add_number i v = record i { lower = add i.lower v; upper = add i.upper v }

unfoldable pub sub_number : Interval → Number → Interval
unfolding sub
sub_number i v = record i { lower = sub i.lower v; upper = sub i.upper v }

-- Multiplied by a positive number, and by a negative one.
abbrev pub stretched : Interval → Number → Interval
stretched i v = record i { lower = mul i.lower v; upper = mul i.upper v }

abbrev pub turned : Interval → Number → Interval
turned i v = record {
  lower = mul i.upper v;
  upper = mul i.lower v;
  left_closed = i.right_closed;
  right_closed = i.left_closed;
}

unfoldable pub mul_number : Interval → Number → Interval
unfolding is_empty
mul_number i v =
    if is_empty i
    then empty_interval
    else if gt v (number (pos 0))
    then stretched i v
    else if lt v (number (pos 0))
    then turned i v
    else if i.left_closed && i.right_closed
    then record {
      lower = number (pos 0);
      upper = number (pos 0);
      left_closed = true;
      right_closed = true;
    }
    else empty_interval

-- operator+ and operator- by an interval
abbrev pub sum_of : Interval → Interval → Interval
sum_of a b = record {
  lower = add a.lower b.lower;
  upper = add a.upper b.upper;
  left_closed = a.left_closed && b.left_closed;
  right_closed = a.right_closed && b.right_closed;
}

abbrev pub minus_of : Interval → Interval → Interval
minus_of a b = record {
  lower = sub a.lower b.upper;
  upper = sub a.upper b.lower;
  left_closed = a.left_closed && b.right_closed;
  right_closed = a.right_closed && b.left_closed;
}

unfoldable pub add_interval : Interval → Interval → Interval
unfolding is_empty
add_interval a b = if is_empty a || is_empty b then empty_interval else sum_of a b

unfoldable pub sub_interval : Interval → Interval → Interval
unfolding is_empty
sub_interval a b = if is_empty a || is_empty b then empty_interval else minus_of a b

-- operator*= by a number
unfoldable pub scale : Interval → Number → Interval
scale i v = if ge v (number (pos 0)) then stretched i v else turned i v

-- mod by a number; the dividend bounds the result where it ends below the divisor.
unfoldable pub mod_number : Interval → Number → Result Interval
unfolding is_empty
mod_number i v =
    let top = sub (abs_number v) (number (pos 1)) in
    if is_empty i
    then ok empty_interval
    else if equals v (number (pos 0))
    then err domain
    else if lt v (number (pos 0))
    then err domain
    else if gt top i.upper
    then ok (record {
      lower = number (pos 0);
      upper = i.upper;
      left_closed = true;
      right_closed = i.right_closed;
    })
    else ok (record {
      lower = number (pos 0);
      upper = top;
      left_closed = true;
      right_closed = if lt top i.lower then i.left_closed else true;
    })

-- mod by an interval
abbrev pub has_zero : Interval → Bool
has_zero i =
    lt i.lower (number (pos 0)) && gt i.upper (number (pos 0))
    || (equals i.lower (number (pos 0)) && i.left_closed
        || equals i.upper (number (pos 0)) && i.right_closed)

unfoldable pub mod_interval : Interval → Interval → Result Interval
unfolding is_empty
mod_interval a b =
    let top = sub (max_number (abs_number b.lower) (abs_number b.upper)) (number (pos 1)) in
    if is_empty a || is_empty b
    then ok empty_interval
    else if has_zero b
    then err domain
    else if lt a.upper top
    then ok (record {
      lower = number (pos 0);
      upper = a.upper;
      left_closed = true;
      right_closed = a.right_closed;
    })
    else ok
        (record { lower = number (pos 0); upper = top; left_closed = true; right_closed = true })

-- The cases NT_AND and NT_OR of operate on two intervals.
abbrev pub nothing : Interval
nothing = record {
  lower = number (pos 1);
  upper = number (pos 0);
  left_closed = false;
  right_closed = false;
}

abbrev pub hull : Interval → Interval → Interval
hull a b = record {
  lower = min_number a.lower b.lower;
  upper = max_number a.upper b.upper;
  left_closed = false;
  right_closed = false;
}

unfoldable pub operate_and : Interval → Interval → Result Interval
unfolding is_empty is_intersecting_with intersection
operate_and a b =
    if is_empty a || is_empty b
    then err invalid_argument
    else if is_intersecting_with a b
    then ok (intersection a b)
    else ok nothing

unfoldable pub operate_or : Interval → Interval → Result Interval
unfolding is_empty is_intersecting_with is_disjoint_from union_with
operate_or a b =
    if is_empty a || is_empty b
    then err invalid_argument
    else if is_intersecting_with a b || not (is_disjoint_from a b)
    then union_with a b
    else ok (hull a b)
