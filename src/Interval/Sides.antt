-- ===== src/Interval/Sides.antt =====
-- An interval without a NaN bound is what its two sides allow.
use smtlibparser.Prelude.{◌≡◌, Bool, not, ◌&&◌, ◌||◌, arith, if◌then◌else◌}
use smtlibparser.Number.{Number, lt}
use smtlibparser.Number.Order.{IsNumber, le-not-lt, equals-not-lt, order_3}
use smtlibparser.Interval.{Interval, is_empty, contains}

-- No bound is NaN.
pub record IsProper (i : Interval) : Type 0 where
  pub lower_number : IsNumber i.lower
  pub upper_number : IsNumber i.upper

-- The two tests of `contains`, by the strict order alone.
abbrev pub lower_test : Interval → Number → Bool
lower_test i x = if i.left_closed then not (lt x i.lower) else lt i.lower x

abbrev pub upper_test : Interval → Number → Bool
upper_test i x = if i.right_closed then not (lt i.upper x) else lt x i.upper

abbrev pub empty_test : Interval → Bool
empty_test i =
    lt i.upper i.lower
    || (not (lt i.lower i.upper) && not (lt i.upper i.lower))
      && (not i.left_closed || not i.right_closed)

pub is_empty_lem : (i : Interval) → IsProper i → is_empty i ≡ empty_test i
unfolding is_empty
is_empty_lem i p = ground (
  arith,
  le-not-lt i.lower i.upper p.lower_number p.upper_number,
  equals-not-lt i.lower i.upper p.lower_number p.upper_number,
)

-- A value that both sides allow shows that the interval is not empty.
pub contains_lem :
    (i : Interval) (x : Number)
    → IsProper i
    → IsNumber x
    → contains i x ≡ (lower_test i x && upper_test i x)
unfolding contains
contains_lem i x p hx = ground (
  arith,
  is_empty_lem i p,
  order_3 i.lower x i.upper p.lower_number hx p.upper_number,
  le-not-lt i.lower x p.lower_number hx,
  le-not-lt x i.upper hx p.upper_number,
)
