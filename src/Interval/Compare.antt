-- ===== src/Interval/Compare.antt =====
-- The comparisons of intervals: src/ir/interval.cpp, lines 2242-2282.
use smtlibparser.Prelude.{◌≡◌, sym, ◌∙◌, Bool, true, false, not, ◌||◌, arith}
use smtlibparser.Number.{Number, lt}
use smtlibparser.Number.Order.{IsNumber, le-not-lt, equals-not-lt}
use smtlibparser.Result.{ok}
use smtlibparser.Interval.{
  Interval, is_empty, contains, is_disjoint_from, interval_lt, interval_gt, interval_le,
  interval_ge,
}
use smtlibparser.Interval.Sides.{IsProper}
use smtlibparser.Interval.Sets.{
  before_test, before_apart, upper_of, lower_of, is_disjoint_from_lem, contains-not_empty,
}

module _ (a b : Interval) (pa : IsProper a) (pb : IsProper b) where
  pub interval_lt-before :
      is_empty a ≡ false → is_empty b ≡ false → interval_lt a b ≡ ok (before_test a b)
  unfolding interval_lt
  interval_lt-before ea eb =
      ground (arith, equals-not-lt a.upper b.lower pa.upper_number pb.lower_number)

  interval_gt-before :
      is_empty a ≡ false → is_empty b ≡ false → interval_gt a b ≡ ok (before_test b a)
  unfolding interval_gt
  interval_gt-before ea eb = ground (
    arith,
    equals-not-lt a.lower b.upper pa.lower_number pb.upper_number,
    le-not-lt a.lower b.upper pa.lower_number pb.upper_number,
  )

  -- Where one interval is said to be less than another, every number in it is below every number in
  -- the other.
  pub interval_lt_lem :
      interval_lt a b ≡ ok true
      → (x y : Number) → IsNumber x
      → IsNumber y
      → contains a x ≡ true
      → contains b y ≡ true
      → lt x y ≡ true
  interval_lt_lem h x y hx hy ca cb =
      let ea = contains-not_empty a x ca in
      let eb = contains-not_empty b y cb in
      let same : ok (before_test a b) ≡ ok true = sym (interval_lt-before ea eb) ∙ h in
      before_apart a b x y pa pb hx hy (ground arith) (upper_of a x pa hx ca)
        (lower_of b y pb hy cb)

  -- Of two intervals that are not empty: exactly those are apart of which one is less or greater
  -- than the other, and <= and >= are the negations of > and <.
  pub interval_order :
      is_empty a ≡ false
      → is_empty b ≡ false
      → (l g : Bool) × (interval_lt a b ≡ ok l)
        × (interval_gt a b ≡ ok g)
        × (interval_le a b ≡ ok (not g))
        × (interval_ge a b ≡ ok (not l))
        × (is_disjoint_from a b ≡ (l || g))
  unfolding interval_le interval_ge
  interval_order ea eb =
      let hl = interval_lt-before ea eb in
      let hg = interval_gt-before ea eb in
      (
        before_test a b,
        before_test b a,
        hl,
        hg,
        ground arith,
        ground arith,
        is_disjoint_from_lem a b pa pb ea eb,
      )
