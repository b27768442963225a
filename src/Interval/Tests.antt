-- ===== src/Interval/Tests.antt =====
-- Intervals at concrete inputs.
use mathlib.Core.List.{Permᴰ}
use smtlibparser.Prelude.{
  ◌≡◌, refl, true, false, not, ◌&&◌, ◌||◌, List, [], ◌∷◌, if◌then◌else◌, some,
}
use smtlibparser.Prelude.Int.{ℤ, pos, negsuc, ◌+ℤ◌, ◌-ℤ◌}
use smtlibparser.Result.{ok}
use smtlibparser.Number.{
  Number, finite, pos_infinity, abs_number, mul, le, equals, lt, min_number, max_number,
}
use smtlibparser.Interval.{
  Interval, contains, intersection, difference, union_multi, is_superset_of,
  compare_interval_by_lower, is_empty, is_disjoint_from, is_subset_of,
}
use smtlibparser.Interval.Sides.{IsProper}
use smtlibparser.Interval.Meet.{contains-intersection}
use smtlibparser.Interval.Difference.{contains-difference}
use smtlibparser.Interval.Union.{in_some, IsSolid, union_multi_lem}
use smtlibparser.Interval.Sorted.{Separated, union_multi-Separated, compare_interval_by_lower_lem}
use smtlibparser.Interval.Integers.{between, get_integers, get_interval_int_count, int_to_ulong}
use smtlibparser.Interval.Integers.Bounds.{
  get_integers_lem, get_interval_int_count_lem, in_list, count_in,
}
use smtlibparser.Interval.Arith.{
  add_interval, abs_interval, mul_number, mod_interval, operate_or, number,
}
use smtlibparser.Interval.Arith.Shift.{contains-add_interval}
use smtlibparser.Interval.Arith.Mirror.{contains-abs_interval}
use smtlibparser.Interval.Arith.Scale.{contains-mul_number}
use smtlibparser.Interval.Arith.Mod.{contains-mod_interval}
use smtlibparser.Interval.Arith.Operate.{contains-operate_or}

-- [1, 4], (3, 6] and [8, +oo).
abbrev low : Interval
low = between (pos 1) (pos 4) true true

abbrev middle : Interval
middle = between (pos 3) (pos 6) false true

abbrev high : Interval
high = record {
  lower = number (pos 8);
  upper = pos_infinity;
  left_closed = true;
  right_closed = false;
}

-- (-2, 2)
abbrev around : Interval
around = between (negsuc 1) (pos 2) false false

low-IsProper : IsProper low
low-IsProper = record { lower_number = refl; upper_number = refl }

middle-IsProper : IsProper middle
middle-IsProper = record { lower_number = refl; upper_number = refl }

high-IsProper : IsProper high
high-IsProper = record { lower_number = refl; upper_number = refl }

around-IsProper : IsProper around
around-IsProper = record { lower_number = refl; upper_number = refl }

low-IsSolid : IsSolid low
unfolding is_empty le equals
low-IsSolid = record { proper = low-IsProper; not_empty = refl }

middle-IsSolid : IsSolid middle
unfolding is_empty le equals
middle-IsSolid = record { proper = middle-IsProper; not_empty = refl }

high-IsSolid : IsSolid high
unfolding is_empty le equals
high-IsSolid = record { proper = high-IsProper; not_empty = refl }

contains-intersection_example :
    contains (intersection low middle) (number (pos 4))
    ≡ (contains low (number (pos 4)) && contains middle (number (pos 4)))
contains-intersection_example =
    contains-intersection low middle low-IsProper middle-IsProper (number (pos 4)) refl

contains-difference_example : in_some (difference low middle) (number (pos 2)) ≡ (
    contains low (number (pos 2))
    && (not (contains middle (number (pos 2))) && not (is_superset_of low middle)))
unfolding is_empty is_subset_of le lt equals
contains-difference_example =
    contains-difference low middle low-IsProper middle-IsProper (number (pos 2)) refl refl refl refl

abbrev mixed : List Interval
mixed = middle ∷ low ∷ high ∷ []

-- The order of the three by their lower bounds, as std::sort gives it.
abbrev swapped : List Interval → List Interval
swapped (a ∷ b ∷ rest) = b ∷ a ∷ rest
swapped is = is

union_multi_lem_example :
    in_some (union_multi swapped mixed) (number (pos 5)) ≡ in_some mixed (number (pos 5))
union_multi_lem_example =
    union_multi_lem swapped mixed (Permᴰ.swap refl refl)
      (middle-IsSolid, (low-IsSolid, (high-IsSolid, tt))) (number (pos 5)) refl

union_multi-Separated_example : Separated (union_multi swapped mixed)
unfolding compare_interval_by_lower lt equals
union_multi-Separated_example =
    union_multi-Separated swapped mixed (Permᴰ.swap refl refl) (refl, (refl, tt))
      (middle-IsSolid, (low-IsSolid, (high-IsSolid, tt)))

compare_interval_by_lower_lem_example :
    (compare_interval_by_lower low low ≡ false)
    × (compare_interval_by_lower low middle ≡ true
        → compare_interval_by_lower middle high ≡ true
        → compare_interval_by_lower low high ≡ true)
    × (compare_interval_by_lower low middle ≡ false
        → compare_interval_by_lower middle low ≡ false
        → compare_interval_by_lower middle high ≡ false
        → compare_interval_by_lower high middle ≡ false
        → (compare_interval_by_lower low high ≡ false)
          × (compare_interval_by_lower high low ≡ false))
compare_interval_by_lower_lem_example =
    compare_interval_by_lower_lem low middle high low-IsProper middle-IsProper high-IsProper

get_integers_lem_example :
    (is : List Number) × (get_integers (between (pos 3) (pos 6) false true) ≡ ok (some is))
    × ((k : ℤ)
        → in_list (finite k) is
          ≡ (le (finite (pos 3)) (finite k) && le (finite k) (finite (pos 6))))
get_integers_lem_example = get_integers_lem (pos 3) (pos 6) false true

get_interval_int_count_lem_example :
    get_interval_int_count (pos 3) (pos 5) false true
    ≡ int_to_ulong (
        pos (
          count_in
            (between (pos 3) (pos 5) false true)
            (number (pos 3) ∷ number (pos 4) ∷ number (pos 5) ∷ [])))
unfolding get_integers ◌+ℤ◌ ◌-ℤ◌
get_interval_int_count_lem_example =
    get_interval_int_count_lem (pos 3) (pos 5) false true
      (number (pos 3) ∷ number (pos 4) ∷ number (pos 5) ∷ []) refl

contains-add_interval_example : contains (add_interval low high) (number (pos 12)) ≡ true
unfolding contains le lt equals ◌+ℤ◌
contains-add_interval_example =
    contains-add_interval low high low-IsProper high-IsProper (pos 3) (pos 9) refl refl

contains-abs_interval_example : contains (abs_interval around) (number (pos 1)) ≡ true
unfolding contains le lt equals abs_number ◌-ℤ◌
contains-abs_interval_example =
    contains-abs_interval around around-IsProper (number (negsuc 0)) refl refl refl

contains-mul_number_example :
    contains (mul_number low (number (negsuc 1))) (mul (number (pos 3)) (number (negsuc 1)))
    ≡ contains low (number (pos 3))
contains-mul_number_example =
    contains-mul_number low (number (pos 3)) (negsuc 1) low-IsProper refl tt

contains-mod_interval_example :
    (r : Interval) × (mod_interval high middle ≡ ok r) × (contains r (number (pos 4)) ≡ true)
unfolding contains le lt equals abs_number
contains-mod_interval_example =
    contains-mod_interval high middle high-IsProper middle-IsProper 9 4 (pos 5) refl refl refl refl

contains-operate_or_example :
    (u : Interval) × (operate_or low high ≡ ok u)
    × (contains u (number (pos 7)) ≡ (
        if is_disjoint_from low high
        then lt (min_number low.lower high.lower) (number (pos 7))
          && lt (number (pos 7)) (max_number low.upper high.upper)
        else contains low (number (pos 7)) || contains high (number (pos 7))))
unfolding is_empty le equals
contains-operate_or_example =
    contains-operate_or low high low-IsProper high-IsProper refl refl (number (pos 7)) refl
