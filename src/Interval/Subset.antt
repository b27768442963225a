-- ===== src/Interval/Subset.antt =====
-- Intervals inside one another: src/ir/interval.cpp, lines 150-177.
use smtlibparser.Prelude.{◌≡◌, Bool, true, false, not, ◌&&◌, ◌||◌, arith}
use smtlibparser.Number.{Number, lt}
use smtlibparser.Number.Order.{IsNumber, le-not-lt, equals-not-lt, order_3}
use smtlibparser.Interval.{Interval, is_empty, contains, is_subset_of, is_superset_of}
use smtlibparser.Interval.Sides.{IsProper, lower_test, upper_test}
use smtlibparser.Interval.Sets.{contains-not_empty, upper_of, lower_of, within}

abbrev pub lower_wide : Interval → Interval → Bool
lower_wide a b =
    lt b.lower a.lower
    || (not (lt a.lower b.lower) && not (lt b.lower a.lower))
      && (not a.left_closed || b.left_closed)

abbrev pub upper_wide : Interval → Interval → Bool
upper_wide a b =
    lt a.upper b.upper
    || (not (lt a.upper b.upper) && not (lt b.upper a.upper))
      && (not a.right_closed || b.right_closed)

-- The lower side of `b` allows what that of `a` does.
pub lower_wider :
    (a b : Interval) (x : Number)
    → IsProper a
    → IsProper b
    → IsNumber x
    → lower_wide a b ≡ true
    → lower_test a x ≡ true
    → lower_test b x ≡ true
lower_wider a b x pa pb hx h l =
    ground (arith, order_3 a.lower b.lower x pa.lower_number pb.lower_number hx)

pub upper_wider :
    (a b : Interval) (x : Number)
    → IsProper a
    → IsProper b
    → IsNumber x
    → upper_wide a b ≡ true
    → upper_test a x ≡ true
    → upper_test b x ≡ true
upper_wider a b x pa pb hx h l =
    ground (arith, order_3 a.upper b.upper x pa.upper_number pb.upper_number hx)

module _ (a b : Interval) (pa : IsProper a) (pb : IsProper b) where
  subset_sides :
      is_subset_of a b ≡ true
      → is_empty a ≡ false
      → (lower_wide a b ≡ true) × (upper_wide a b ≡ true)
  unfolding is_subset_of
  subset_sides s e =
      let l1 = le-not-lt a.lower b.lower pa.lower_number pb.lower_number in
      let l2 = equals-not-lt a.lower b.lower pa.lower_number pb.lower_number in
      let u2 = equals-not-lt a.upper b.upper pa.upper_number pb.upper_number in
      (ground arith, ground arith)

  superset_sides : is_superset_of a b ≡ true → (lower_wide b a ≡ true) × (upper_wide b a ≡ true)
  unfolding is_superset_of
  superset_sides s =
      let u1 = le-not-lt a.upper b.upper pa.upper_number pb.upper_number in
      let l2 = equals-not-lt a.lower b.lower pa.lower_number pb.lower_number in
      let u2 = equals-not-lt a.upper b.upper pa.upper_number pb.upper_number in
      (ground arith, ground arith)

  -- A number in an interval is in every interval that this one is said to be a subset of.
  pub contains-is_subset_of :
      is_subset_of a b ≡ true
      → (x : Number) → IsNumber x
      → contains a x ≡ true
      → contains b x ≡ true
  contains-is_subset_of s x hx h =
      let (l, u) = subset_sides s (contains-not_empty a x h) in
      within b x pb hx (lower_wider a b x pa pb hx l (lower_of a x pa hx h))
        (upper_wider a b x pa pb hx u (upper_of a x pa hx h))

  -- A number in an interval is in every interval that is said to be a superset of it.
  pub contains-is_superset_of :
      is_superset_of a b ≡ true
      → (x : Number) → IsNumber x
      → contains b x ≡ true
      → contains a x ≡ true
  contains-is_superset_of s x hx h =
      let (l, u) = superset_sides s in
      within a x pa hx (lower_wider b a x pb pa hx l (lower_of b x pb hx h))
        (upper_wider b a x pb pa hx u (upper_of b x pb hx h))
