-- ===== src/Interval/Sets.antt =====
-- The operations on intervals as sets: src/ir/interval.cpp, lines 143-248.
use smtlibparser.Prelude.{
  ◌≡◌, refl, sym, ◌∙◌, Bool, true, false, not, ◌&&◌, ◌||◌, arith, ◌⊎◌, inl, inr, Bool-cases,
  &&_parts,
}
use smtlibparser.Number.{Number, lt, le, max_number, min_number}
use smtlibparser.Number.Order.{IsNumber, le-not-lt, equals-not-lt, order_3}
use smtlibparser.Result.{ok}
use smtlibparser.Interval.{
  Interval, is_empty, contains, merge, union_with, empty_interval, is_disjoint_from,
}
use smtlibparser.Interval.Sides.{
  IsProper, lower_test, upper_test, empty_test, is_empty_lem, contains_lem,
}

pub max_IsNumber : (p q : Number) → IsNumber p → IsNumber q → IsNumber (max_number p q)
max_IsNumber p q hp hq = ground arith

pub min_IsNumber : (p q : Number) → IsNumber p → IsNumber q → IsNumber (min_number p q)
min_IsNumber p q hp hq = ground arith

pub contains_empty : (i : Interval) (x : Number) → is_empty i ≡ true → contains i x ≡ false
unfolding contains
contains_empty i x h = ground arith

pub contains-empty_interval : (x : Number) → contains empty_interval x ≡ false
unfolding contains is_empty le
contains-empty_interval x = refl

merge_bools :
    (la ua lb ub d e : Bool)
    → (ua ≡ false → lb ≡ false → d ≡ true)
    → (ub ≡ false → la ≡ false → e ≡ true)
    → d ≡ false
    → e ≡ false
    → ((la || lb) && (ua || ub)) ≡ (la && ua || lb && ub)
merge_bools la ua lb ub d e p q h g = ground arith

-- `a` ends before `b` starts.
abbrev pub before_test : Interval → Interval → Bool
before_test a b =
    lt a.upper b.lower
    || (not (lt a.upper b.lower) && not (lt b.lower a.upper))
      && (not a.right_closed || not b.left_closed)

-- A number after `a` and before `b` shows it.
pub gap :
    (a b : Interval) (x : Number)
    → IsProper a
    → IsProper b
    → IsNumber x
    → upper_test a x ≡ false
    → lower_test b x ≡ false
    → before_test a b ≡ true
gap a b x pa pb hx h g =
    ground (arith, order_3 a.upper x b.lower pa.upper_number hx pb.lower_number)

pub before_apart :
    (a b : Interval) (x y : Number)
    → IsProper a
    → IsProper b
    → IsNumber x
    → IsNumber y
    → before_test a b ≡ true
    → upper_test a x ≡ true
    → lower_test b y ≡ true
    → lt x y ≡ true
before_apart a b x y pa pb hx hy d h g = ground (
  arith,
  order_3 a.upper x b.lower pa.upper_number hx pb.lower_number,
  order_3 x b.lower y hx pb.lower_number hy,
)

pub upper_of :
    (i : Interval) (x : Number)
    → IsProper i
    → IsNumber x
    → contains i x ≡ true
    → upper_test i x ≡ true
upper_of i x p hx h =
    (&&_parts (lower_test i x) (upper_test i x) (sym (contains_lem i x p hx) ∙ h)).1

pub lower_of :
    (i : Interval) (x : Number)
    → IsProper i
    → IsNumber x
    → contains i x ≡ true
    → lower_test i x ≡ true
lower_of i x p hx h =
    (&&_parts (lower_test i x) (upper_test i x) (sym (contains_lem i x p hx) ∙ h)).0

pub within :
    (i : Interval) (x : Number)
    → IsProper i
    → IsNumber x
    → lower_test i x ≡ true
    → upper_test i x ≡ true
    → contains i x ≡ true
within i x p hx l u = ground (arith, contains_lem i x p hx)

pub contains-not_empty : (i : Interval) (x : Number) → contains i x ≡ true → is_empty i ≡ false
unfolding contains
contains-not_empty i x h = ground arith

module _ (a b : Interval) (pa : IsProper a) (pb : IsProper b) where
  lower_test-merge :
      (x : Number) → IsNumber x → lower_test (merge a b) x ≡ (lower_test a x || lower_test b x)
  unfolding merge
  lower_test-merge x hx =
      ground (arith, order_3 a.lower b.lower x pa.lower_number pb.lower_number hx)

  upper_test-merge :
      (x : Number) → IsNumber x → upper_test (merge a b) x ≡ (upper_test a x || upper_test b x)
  unfolding merge
  upper_test-merge x hx = ground (
    arith,
    order_3 a.upper b.upper x pa.upper_number pb.upper_number hx,
    le-not-lt a.upper b.upper pa.upper_number pb.upper_number,
    le-not-lt b.upper a.upper pb.upper_number pa.upper_number,
  )

  pub merge-IsProper : IsProper (merge a b)
  unfolding merge
  merge-IsProper = record {
    lower_number = min_IsNumber a.lower b.lower pa.lower_number pb.lower_number;
    upper_number = max_IsNumber a.upper b.upper pa.upper_number pb.upper_number;
  }

  pub is_disjoint_from_lem :
      is_empty a ≡ false
      → is_empty b ≡ false
      → is_disjoint_from a b ≡ (before_test a b || before_test b a)
  unfolding is_disjoint_from
  is_disjoint_from_lem ea eb = ground (
    arith,
    le-not-lt a.lower b.upper pa.lower_number pb.upper_number,
    equals-not-lt a.upper b.lower pa.upper_number pb.lower_number,
    equals-not-lt a.lower b.upper pa.lower_number pb.upper_number,
  )

  pub disjoint_not_empty : is_disjoint_from a b ≡ true → (is_empty a ≡ false) × (is_empty b ≡ false)
  unfolding is_disjoint_from
  disjoint_not_empty d = (ground arith, ground arith)

  merge_both :
      (x : Number)
      → IsNumber x
      → before_test a b ≡ false
      → before_test b a ≡ false
      → ((lower_test a x || lower_test b x) && (upper_test a x || upper_test b x))
        ≡ (lower_test a x && upper_test a x || lower_test b x && upper_test b x)
  merge_both x hx h g =
      merge_bools (lower_test a x) (upper_test a x) (lower_test b x) (upper_test b x)
        (before_test a b) (before_test b a) (gap a b x pa pb hx) (gap b a x pb pa hx) h g

  pub contains-merge :
      (x : Number)
      → IsNumber x
      → before_test a b ≡ false
      → before_test b a ≡ false
      → contains (merge a b) x ≡ (contains a x || contains b x)
  contains-merge x hx h g = cc (
    contains_lem (merge a b) x merge-IsProper hx,
    lower_test-merge x hx,
    upper_test-merge x hx,
    contains_lem a x pa hx,
    contains_lem b x pb hx,
    merge_both x hx h g,
  )

  empty-merge : is_empty a ≡ false → empty_test (merge a b) ≡ false
  unfolding merge
  empty-merge ea = ground (
    arith,
    is_empty_lem a pa,
    order_3 a.lower b.lower a.upper pa.lower_number pb.lower_number pa.upper_number,
    order_3 a.lower b.lower b.upper pa.lower_number pb.lower_number pb.upper_number,
    order_3 a.lower a.upper b.upper pa.lower_number pa.upper_number pb.upper_number,
    order_3 b.lower a.upper b.upper pb.lower_number pa.upper_number pb.upper_number,
    le-not-lt a.upper b.upper pa.upper_number pb.upper_number,
    le-not-lt b.upper a.upper pb.upper_number pa.upper_number,
  )

  pub merge-not_empty : is_empty a ≡ false → is_empty (merge a b) ≡ false
  merge-not_empty ea = is_empty_lem (merge a b) merge-IsProper ∙ empty-merge ea

  -- The union of two intervals that are not empty and not apart is given, and a number is in it
  -- exactly where it is in one of the two.
  pub contains-union_with :
      is_empty a ≡ false
      → is_empty b ≡ false
      → is_disjoint_from a b ≡ false
      → (u : Interval) × (union_with a b ≡ ok u)
        × ((x : Number) → IsNumber x → contains u x ≡ (contains a x || contains b x))
  unfolding union_with
  contains-union_with ea eb d =
      let parts = is_disjoint_from_lem ea eb in
      (merge a b, ground arith, λ x hx. contains-merge x hx (ground arith) (ground arith))

  -- Intervals that are called apart have no number in common, and in one of them all numbers are
  -- below those of the other.
  pub is_disjoint_from-apart :
      is_disjoint_from a b ≡ true
      → ((x y : Number)
          → IsNumber x
          → IsNumber y
          → contains a x ≡ true
          → contains b y ≡ true
          → lt x y ≡ true)
        ⊎ ((x y : Number)
            → IsNumber x
            → IsNumber y
            → contains a x ≡ true
            → contains b y ≡ true
            → lt y x ≡ true)
  is_disjoint_from-apart d =
      let (ea, eb) = disjoint_not_empty d in
      let parts = is_disjoint_from_lem ea eb in
      elim (Bool-cases (before_test a b)) [
        | inl t ↦ inl (λ x y hx hy ca cb.
            before_apart a b x y pa pb hx hy t (upper_of a x pa hx ca) (lower_of b y pb hy cb))
        | inr f ↦ inr (λ x y hx hy ca cb.
            before_apart b a y x pb pa hy hx (ground arith) (upper_of b y pb hy cb)
              (lower_of a x pa hx ca))
      ]
