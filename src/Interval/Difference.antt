-- ===== src/Interval/Difference.antt =====
-- The difference of two intervals: difference, src/ir/interval.cpp, lines 269-320.
use smtlibparser.Prelude.{
  ◌≡◌, refl, sym, ap, ◌∙◌, by_if, inl, inr, Bool, true, false, not, ◌&&◌, ◌||◌, [], ◌∷◌, arith,
}
use smtlibparser.Number.{Number, lt, equals, le, gt, ge}
use smtlibparser.Number.Order.{IsNumber, lt_asymm, le-not-lt, equals-not-lt, order_3}
use smtlibparser.Interval.{
  Interval, is_empty, contains, is_disjoint_from, is_superset_of, is_subset_of, difference,
  left_part, right_part, flag_ge,
}
use smtlibparser.Interval.Sides.{lower_test, upper_test, IsProper, is_empty_lem, contains_lem}
use smtlibparser.Interval.Sets.{is_disjoint_from_lem, is_disjoint_from-apart, gap, before_test}
use smtlibparser.Interval.Subset.{lower_wide, upper_wide, lower_wider, upper_wider}
use smtlibparser.Interval.Union.{in_some}

-- What the second interval leaves on the left of it, and on the right.
contains-left_part :
    (a b : Interval)
    → IsProper a
    → IsProper b
    → (x : Number) → IsNumber x
    → contains (left_part a b) x ≡ (lower_test a x && not (lower_test b x))
contains-left_part a b pa pb x hx =
    let p =
      contains_lem (left_part a b) x
        (record { lower_number = pa.lower_number; upper_number = pb.lower_number }) hx in
    ground arith

contains-right_part :
    (a b : Interval)
    → IsProper a
    → IsProper b
    → (x : Number) → IsNumber x
    → contains (right_part a b) x ≡ (not (upper_test b x) && upper_test a x)
contains-right_part a b pa pb x hx =
    let p =
      contains_lem (right_part a b) x
        (record { lower_number = pb.upper_number; upper_number = pa.upper_number }) hx in
    ground arith

-- The Boolean part: `la` to `ub` are the tests of a number.
left_rest :
    (la ua lb ub d : Bool)
    → (ua ≡ false → lb ≡ false → d ≡ true)
    → d ≡ false
    → (ua ≡ true → ub ≡ true)
    → (la && not lb || false) ≡ ((la && ua) && (not (lb && ub) && true))
left_rest la ua lb ub d h e g = ground arith

right_rest :
    (la ua lb ub d : Bool)
    → (ub ≡ false → la ≡ false → d ≡ true)
    → d ≡ false
    → (la ≡ true → lb ≡ true)
    → (not ub && ua || false) ≡ ((la && ua) && (not (lb && ub) && true))
right_rest la ua lb ub d h e g = ground arith

apart_rest :
    (p q : Bool) → (p ≡ true → q ≡ true → true ≡ false) → (p || false) ≡ (p && (not q && true))
apart_rest true true h = h refl refl
apart_rest true false h = refl
apart_rest false q h = refl

-- One of two lower sides allows what the other does.
sides_total :
    (a b : Interval)
    → IsProper a
    → IsProper b
    → ((lower_wide a b || lower_wide b a) ≡ true) × ((upper_wide a b || upper_wide b a) ≡ true)
sides_total a b pa pb = (ground arith, ground arith)

module _ (a b : Interval) (pa : IsProper a) (pb : IsProper b) where
  is_subset_of_lem :
      is_empty a ≡ false
      → is_empty b ≡ false
      → is_subset_of a b ≡ (lower_wide a b && upper_wide a b)
  unfolding is_subset_of
  is_subset_of_lem ea eb =
      let l1 = le-not-lt a.lower b.lower pa.lower_number pb.lower_number in
      let l2 = equals-not-lt a.lower b.lower pa.lower_number pb.lower_number in
      let u2 = equals-not-lt a.upper b.upper pa.upper_number pb.upper_number in ground arith

  is_superset_of_lem : is_empty a ≡ false → is_superset_of a b ≡ (lower_wide b a && upper_wide b a)
  unfolding is_superset_of
  is_superset_of_lem ea =
      let u1 = le-not-lt a.upper b.upper pa.upper_number pb.upper_number in
      let l2 = equals-not-lt a.lower b.lower pa.lower_number pb.lower_number in
      let u2 = equals-not-lt a.upper b.upper pa.upper_number pb.upper_number in ground arith

  abbrev covers_left : Bool
  covers_left =
      (le b.lower a.lower || equals b.lower a.lower && flag_ge b.left_closed a.left_closed)
      && (lt b.upper a.upper || equals b.upper a.upper && (not b.right_closed && a.right_closed))

  covers_left_lem : covers_left ≡ (not (lt a.lower b.lower) && not (upper_wide a b))
  covers_left_lem =
      let l1 = le-not-lt b.lower a.lower pb.lower_number pa.lower_number in
      let l2 = equals-not-lt b.lower a.lower pb.lower_number pa.lower_number in
      let u2 = equals-not-lt b.upper a.upper pb.upper_number pa.upper_number in
      ground
        (arith, order_3 a.upper b.upper a.upper pa.upper_number pb.upper_number pa.upper_number)

  abbrev covers_right : Bool
  covers_right =
      (gt b.lower a.lower || equals b.lower a.lower && (not b.left_closed && a.left_closed))
      && (ge b.upper a.upper || equals b.upper a.upper && flag_ge b.right_closed a.right_closed)

  covers_right_lem : covers_right ≡ (not (lower_wide a b) && not (lt b.upper a.upper))
  covers_right_lem =
      let l1 = le-not-lt b.lower a.lower pb.lower_number pa.lower_number in
      let l2 = equals-not-lt b.lower a.lower pb.lower_number pa.lower_number in
      let u2 = equals-not-lt b.upper a.upper pb.upper_number pa.upper_number in
      ground
        (arith, order_3 a.lower b.lower a.lower pa.lower_number pb.lower_number pa.lower_number)

  no_common :
      is_disjoint_from a b ≡ true
      → (x : Number) → IsNumber x
      → contains a x ≡ true
      → contains b x ≡ true
      → true ≡ false
  no_common d x hx ca cb = elim (is_disjoint_from-apart a b pa pb d) [
    | inl f ↦ let l = f x x hx hx ca cb in sym l ∙ lt_asymm x x l
    | inr f ↦ let l = f x x hx hx ca cb in sym l ∙ lt_asymm x x l
  ]

  superset_apart :
      is_empty a ≡ false
      → is_empty b ≡ false
      → is_disjoint_from a b ≡ true
      → is_superset_of a b ≡ false
  superset_apart ea eb d =
      let apart = is_disjoint_from_lem a b pa pb ea eb in
      let up = is_superset_of_lem ea in
      let eb' = is_empty_lem b pb in
      ground (
        arith,
        order_3 b.lower b.upper a.upper pb.lower_number pb.upper_number pa.upper_number,
        order_3 b.lower b.upper a.lower pb.lower_number pb.upper_number pa.lower_number,
      )

  module _ (ea : is_empty a ≡ false) (eb : is_empty b ≡ false) (n : is_subset_of a b ≡ false)
      (s : is_superset_of a b ≡ false) where
    left_lem : covers_left ≡ true → lower_wide a b ≡ true
    left_lem c = ground (arith, is_superset_of_lem ea, sides_total a b pa pb, covers_left_lem)

    right_lem : covers_right ≡ true → upper_wide a b ≡ true
    right_lem c = ground (arith, is_superset_of_lem ea, sides_total a b pa pb, covers_right_lem)

    no_rest : covers_left ≡ false → covers_right ≡ false → true ≡ false
    no_rest c r =
        ground
          (arith, is_superset_of_lem ea, is_subset_of_lem ea eb, covers_left_lem, covers_right_lem)

  module _ (x : Number) (hx : IsNumber x) where
    what_is_left : Bool → Bool
    what_is_left superset = contains a x && (not (contains b x) && not superset)

    apart_case : is_disjoint_from a b ≡ true → in_some (a ∷ []) x ≡ what_is_left false
    unfolding what_is_left
    apart_case d = apart_rest (contains a x) (contains b x) (no_common d x hx)

    left_case :
        before_test b a ≡ false
        → lower_wide a b ≡ true
        → in_some (right_part a b ∷ []) x ≡ what_is_left false
    unfolding what_is_left
    left_case e l =
        let m =
          right_rest (lower_test a x) (upper_test a x) (lower_test b x) (upper_test b x)
            (before_test b a) (gap b a x pb pa hx) e (lower_wider a b x pa pb hx l) in
        cc (m, contains-right_part a b pa pb x hx, contains_lem a x pa hx, contains_lem b x pb hx)

    right_case :
        before_test a b ≡ false
        → upper_wide a b ≡ true
        → in_some (left_part a b ∷ []) x ≡ what_is_left false
    unfolding what_is_left
    right_case e u =
        let m =
          left_rest (lower_test a x) (upper_test a x) (lower_test b x) (upper_test b x)
            (before_test a b) (gap a b x pa pb hx) e (upper_wider a b x pa pb hx u) in
        cc (m, contains-left_part a b pa pb x hx, contains_lem a x pa hx, contains_lem b x pb hx)

    none_left : false ≡ what_is_left true
    unfolding what_is_left
    none_left = ground arith

    -- Of an interval that is not empty and not said to be a subset of the other, the difference
    -- keeps exactly the numbers that are not in the other, where that is not empty; but it keeps
    -- none where the first is a superset.
    pub contains-difference :
        is_empty a ≡ false
        → is_empty b ≡ false
        → is_subset_of a b ≡ false
        → in_some (difference a b) x
          ≡ (contains a x && (not (contains b x) && not (is_superset_of a b)))
    unfolding difference what_is_left
    contains-difference ea eb n =
        let apart = is_disjoint_from_lem a b pa pb ea eb in
        by_if (λ l. in_some l x ≡ what_is_left (is_superset_of a b)) (is_disjoint_from a b) _ _
          (λ d. apart_case d ∙ ap what_is_left (sym (superset_apart ea eb d)))
          (λ d.
            by_if (λ l. in_some l x ≡ what_is_left (is_superset_of a b)) (is_superset_of a b) _ _
              (λ s. none_left ∙ ap what_is_left (sym s))
              (λ s.
                by_if (λ l. in_some l x ≡ what_is_left (is_superset_of a b)) (is_subset_of a b) _ _
                  (λ t. cc)
                  (λ t.
                    by_if (λ l. in_some l x ≡ what_is_left (is_superset_of a b)) covers_left _ _
                      (λ c.
                        left_case (ground arith) (left_lem ea eb n s c) ∙ ap what_is_left (sym s))
                      (λ c.
                        by_if (λ l. in_some l x ≡ what_is_left (is_superset_of a b)) covers_right _
                          _
                          (λ r.
                            right_case (ground arith) (right_lem ea eb n s r)
                            ∙ ap what_is_left (sym s))
                          (λ r. cc (no_rest ea eb n s c r))))))
