-- ===== src/Interval.antt =====
-- Intervals of numbers, as sets: include/somtparser/ir/interval.h and src/ir/interval.cpp, lines 30-37,
-- 60-88, 127-361 and 2242-2282.
pub mod Sides
pub mod Sets
pub mod Meet
pub mod Subset
pub mod Union
pub mod Compare
pub mod Difference
mod Tests
pub mod Arith
pub mod Integers
pub mod Sorted
use smtlibparser.Prelude.{ℕ, ◌≡◌, Bool, true, false, not, ◌&&◌, ◌||◌, List, [], ◌∷◌, if◌then◌else◌}
use smtlibparser.Prelude.Int.{pos, negsuc}
use smtlibparser.Number.{
  Number, finite, neg_infinity, pos_infinity, is_infinity, equals, lt, le, gt, ge, min_number,
  max_number, sub,
}
use smtlibparser.Result.{Result, ok, err, invalid_argument, ◌>>=◌}

pub record Interval : Type 0 where
  pub lower : Number
  pub upper : Number
  pub left_closed : Bool
  pub right_closed : Bool

-- EmptyInterval and FullInterval
abbrev pub empty_interval : Interval
empty_interval = record {
  lower = finite (pos 1);
  upper = finite (negsuc 0);
  left_closed = false;
  right_closed = false;
}

abbrev pub full_interval : Interval
full_interval = record {
  lower = neg_infinity;
  upper = pos_infinity;
  left_closed = false;
  right_closed = false;
}

-- compareIntervalByLower; `>` on the two flags.
unfoldable pub compare_interval_by_lower : Interval → Interval → Bool
compare_interval_by_lower a b =
    lt a.lower b.lower || equals a.lower b.lower && (a.left_closed && not b.left_closed)

-- operator==
abbrev pub same_flag : Bool → Bool → Bool
same_flag true b = b
same_flag false b = not b

unfoldable pub same_interval : Interval → Interval → Bool
same_interval a b =
    equals a.lower b.lower
    && (equals a.upper b.upper
        && (same_flag a.left_closed b.left_closed && same_flag a.right_closed b.right_closed))

-- setLower and setUpper
unfoldable pub set_lower : Interval → Number → Result Interval
set_lower i low = if gt low i.upper then err invalid_argument else ok (record i { lower = low })

unfoldable pub set_upper : Interval → Number → Result Interval
set_upper i high = if lt high i.lower then err invalid_argument else ok (record i { upper = high })

unfoldable pub is_point : Interval → Bool
is_point i = equals i.lower i.upper

unfoldable pub is_empty : Interval → Bool
is_empty i =
    gt i.lower i.upper || equals i.lower i.upper && (not i.left_closed || not i.right_closed)

unfoldable pub width : Interval → Number
unfolding is_empty
width i = if is_empty i then finite (negsuc 0) else sub i.upper i.lower

-- lowerOk and upperOk of contains
abbrev pub lower_ok : Interval → Number → Bool
lower_ok i x = if i.left_closed then le i.lower x else lt i.lower x

abbrev pub upper_ok : Interval → Number → Bool
upper_ok i x = if i.right_closed then le x i.upper else lt x i.upper

unfoldable pub contains : Interval → Number → Bool
unfolding is_empty
contains i x = if is_empty i then false else lower_ok i x && upper_ok i x

unfoldable pub is_subset_of : Interval → Interval → Bool
unfolding is_empty
is_subset_of a b =
    if is_empty a
    then true
    else if is_empty b
    then false
    else (gt a.lower b.lower || equals a.lower b.lower && (not a.left_closed || b.left_closed))
      && (lt a.upper b.upper || equals a.upper b.upper && (not a.right_closed || b.right_closed))

unfoldable pub is_superset_of : Interval → Interval → Bool
unfolding is_empty
is_superset_of a b =
    if is_empty a
    then false
    else (lt a.lower b.lower || equals a.lower b.lower && (a.left_closed || not b.left_closed))
      && (gt a.upper b.upper || equals a.upper b.upper && (a.right_closed || not b.right_closed))

unfoldable pub is_disjoint_from : Interval → Interval → Bool
unfolding is_empty
is_disjoint_from a b =
    if is_empty a || is_empty b
    then false
    else lt a.upper b.lower
      || (equals a.upper b.lower && (not a.right_closed || not b.left_closed)
          || (gt a.lower b.upper
              || equals a.lower b.upper && (not a.left_closed || not b.right_closed)))

unfoldable pub is_intersecting_with : Interval → Interval → Bool
unfolding is_empty is_disjoint_from
is_intersecting_with a b = if is_empty a || is_empty b then false else not (is_disjoint_from a b)

-- What two intervals that are not empty share.
unfoldable pub overlap : Interval → Interval → Interval
overlap a b = record {
  lower = max_number a.lower b.lower;
  upper = min_number a.upper b.upper;
  left_closed =
      if lt a.lower b.lower
      then b.left_closed
      else if gt a.lower b.lower
      then a.left_closed
      else a.left_closed && b.left_closed;
  right_closed =
      if gt a.upper b.upper
      then b.right_closed
      else if lt a.upper b.upper
      then a.right_closed
      else a.right_closed && b.right_closed;
}

unfoldable pub intersection : Interval → Interval → Interval
unfolding is_empty overlap
intersection a b = if is_empty a || is_empty b then empty_interval else overlap a b

-- The smallest interval around two that meet, in unionWith and in unionMulti.
unfoldable pub merge : Interval → Interval → Interval
merge a b = record {
  lower = min_number a.lower b.lower;
  upper = max_number a.upper b.upper;
  left_closed =
      if lt a.lower b.lower
      then a.left_closed
      else if lt b.lower a.lower
      then b.left_closed
      else a.left_closed || b.left_closed;
  right_closed =
      if gt a.upper b.upper
      then a.right_closed
      else if gt b.upper a.upper
      then b.right_closed
      else a.right_closed || b.right_closed;
}

unfoldable pub union_with : Interval → Interval → Result Interval
unfolding is_empty is_disjoint_from merge
union_with a b =
    if is_empty a || is_empty b
    then ok empty_interval
    else if is_disjoint_from a b
    then err invalid_argument
    else ok (merge a b)

unfoldable pub is_subset_eq_of : Interval → Interval → Bool
unfolding is_empty
is_subset_eq_of a b =
    if is_empty a
    then true
    else ge a.lower b.lower
      && (le a.upper b.upper
          && ((b.left_closed || (gt a.lower b.lower || not a.left_closed))
              && (b.right_closed || (lt a.upper b.upper || not a.right_closed))))

-- What is left of `b` on either side, in difference.
abbrev pub left_part : Interval → Interval → Interval
left_part a b = record a { upper = b.lower; right_closed = not b.left_closed }

abbrev pub right_part : Interval → Interval → Interval
right_part a b = record a { lower = b.upper; left_closed = not b.right_closed }

-- `>=` on two flags is `flag_ge`. In the third case the local rightClosed of the left part hides the
-- member's in the right part.
abbrev pub flag_ge : Bool → Bool → Bool
flag_ge a b = a || not b

unfoldable pub difference : Interval → Interval → List Interval
unfolding is_disjoint_from is_superset_of is_subset_of
difference a b =
    if is_disjoint_from a b
    then a ∷ []
    else if is_superset_of a b
    then []
    else if is_subset_of a b
    then left_part a b ∷ record (right_part a b) { right_closed = not b.left_closed } ∷ []
    else if (le b.lower a.lower || equals b.lower a.lower && flag_ge b.left_closed a.left_closed)
        && (lt b.upper a.upper || equals b.upper a.upper && (not b.right_closed && a.right_closed))
    then right_part a b ∷ []
    else if (gt b.lower a.lower || equals b.lower a.lower && (not b.left_closed && a.left_closed))
        && (ge b.upper a.upper || equals b.upper a.upper && flag_ge b.right_closed a.right_closed)
    then left_part a b ∷ []
    else []

-- The loop of unionMulti.
unfoldable pub merge_sorted : Interval → List Interval → List Interval
unfolding is_disjoint_from merge
merge_sorted current [] = current ∷ []
merge_sorted current (i ∷ rest) =
    let apart = current ∷ merge_sorted i rest in
    let merged = merge_sorted (merge current i) rest in
    if not (is_disjoint_from current i) then merged else apart

unfoldable pub merge_all : List Interval → List Interval
unfolding merge_sorted
merge_all [] = []
merge_all (first ∷ sorted) = merge_sorted first sorted

-- `sort` is std::sort by compareIntervalByLower.
unfoldable pub union_multi : (List Interval → List Interval) → List Interval → List Interval
unfolding merge_all
union_multi sort [] = []
union_multi sort (i ∷ []) = i ∷ []
union_multi sort (i ∷ j ∷ rest) = merge_all (sort (i ∷ j ∷ rest))

-- operator<, operator>, operator<= and operator>=
unfoldable pub interval_lt : Interval → Interval → Result Bool
unfolding is_empty
interval_lt a b =
    if is_empty a || is_empty b
    then err invalid_argument
    else ok
        (lt a.upper b.lower || equals a.upper b.lower && (not a.right_closed || not b.left_closed))

unfoldable pub interval_gt : Interval → Interval → Result Bool
unfolding is_empty
interval_gt a b =
    if is_empty a || is_empty b
    then err invalid_argument
    else ok
        (gt a.lower b.upper || equals a.lower b.upper && (not a.left_closed || not b.right_closed))

unfoldable pub interval_le : Interval → Interval → Result Bool
unfolding is_empty interval_gt
interval_le a b =
    if is_empty a || is_empty b
    then err invalid_argument
    else interval_gt a b >>= λ greater. ok (not greater)

unfoldable pub interval_ge : Interval → Interval → Result Bool
unfolding is_empty interval_lt
interval_ge a b =
    if is_empty a || is_empty b
    then err invalid_argument
    else interval_lt a b >>= λ less. ok (not less)
