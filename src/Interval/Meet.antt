-- ===== src/Interval/Meet.antt =====
-- What two intervals share: src/ir/interval.cpp, lines 194-215.
use smtlibparser.Prelude.{◌≡◌, Bool, false, not, ◌&&◌, ◌||◌, arith}
use smtlibparser.Number.{Number}
use smtlibparser.Number.Order.{IsNumber, le-not-lt, order_3}
use smtlibparser.Interval.{
  Interval, is_empty, contains, intersection, overlap, is_intersecting_with,
}
use smtlibparser.Interval.Sides.{
  IsProper, lower_test, upper_test, empty_test, is_empty_lem, contains_lem,
}
use smtlibparser.Interval.Sets.{
  before_test, is_disjoint_from_lem, contains_empty, contains-empty_interval, max_IsNumber,
  min_IsNumber,
}

and_swap : (p q r s : Bool) → ((p && q) && (r && s)) ≡ ((p && r) && (q && s))
and_swap p q r s = ground arith

module _ (a b : Interval) (pa : IsProper a) (pb : IsProper b) where
  overlap-IsProper : IsProper (overlap a b)
  unfolding overlap
  overlap-IsProper = record {
    lower_number = max_IsNumber a.lower b.lower pa.lower_number pb.lower_number;
    upper_number = min_IsNumber a.upper b.upper pa.upper_number pb.upper_number;
  }

  lower_test-overlap :
      (x : Number) → IsNumber x → lower_test (overlap a b) x ≡ (lower_test a x && lower_test b x)
  unfolding overlap
  lower_test-overlap x hx = ground (
    arith,
    order_3 a.lower b.lower x pa.lower_number pb.lower_number hx,
    le-not-lt a.lower b.lower pa.lower_number pb.lower_number,
  )

  upper_test-overlap :
      (x : Number) → IsNumber x → upper_test (overlap a b) x ≡ (upper_test a x && upper_test b x)
  unfolding overlap
  upper_test-overlap x hx = ground (
    arith,
    order_3 a.upper b.upper x pa.upper_number pb.upper_number hx,
    le-not-lt a.upper b.upper pa.upper_number pb.upper_number,
  )

  contains-overlap :
      (x : Number) → IsNumber x → contains (overlap a b) x ≡ (contains a x && contains b x)
  contains-overlap x hx = cc (
    contains_lem (overlap a b) x overlap-IsProper hx,
    lower_test-overlap x hx,
    upper_test-overlap x hx,
    contains_lem a x pa hx,
    contains_lem b x pb hx,
    and_swap (lower_test a x) (lower_test b x) (upper_test a x) (upper_test b x),
  )

  -- A number is in the intersection exactly where it is in both intervals.
  pub contains-intersection :
      (x : Number) → IsNumber x → contains (intersection a b) x ≡ (contains a x && contains b x)
  unfolding intersection
  contains-intersection x hx = ground (
    arith,
    contains-overlap x hx,
    contains_empty a x,
    contains_empty b x,
    contains-empty_interval x,
  )

  empty-overlap :
      is_empty a ≡ false
      → is_empty b ≡ false
      → empty_test (overlap a b) ≡ (before_test a b || before_test b a)
  unfolding overlap
  empty-overlap ea eb = ground (
    arith,
    is_empty_lem a pa,
    is_empty_lem b pb,
    order_3 a.lower b.lower a.upper pa.lower_number pb.lower_number pa.upper_number,
    order_3 a.lower b.lower b.upper pa.lower_number pb.lower_number pb.upper_number,
    order_3 a.lower a.upper b.upper pa.lower_number pa.upper_number pb.upper_number,
    order_3 b.lower a.upper b.upper pb.lower_number pa.upper_number pb.upper_number,
    le-not-lt a.lower b.lower pa.lower_number pb.lower_number,
    le-not-lt a.upper b.upper pa.upper_number pb.upper_number,
  )

  -- Of two intervals that are not empty, those are said to meet whose intersection is not empty.
  pub is_intersecting_with-intersection :
      is_empty a ≡ false
      → is_empty b ≡ false
      → is_intersecting_with a b ≡ not (is_empty (intersection a b))
  unfolding is_intersecting_with intersection
  is_intersecting_with-intersection ea eb = ground (
    arith,
    is_disjoint_from_lem a b pa pb ea eb,
    is_empty_lem (overlap a b) overlap-IsProper,
    empty-overlap ea eb,
  )
