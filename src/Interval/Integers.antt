-- ===== src/Interval/Integers.antt =====
-- The integers of an interval: getIntegers and getIntervalIntCount, src/ir/interval.cpp, lines 118-125
-- and 250-267. floor and ceil give an integer back as it is.
pub mod Bounds
use mathlib.Core.Option
use smtlibparser.Prelude.{
  ℕ, zero, suc, ◌+◌, ◌^◌, Bool, true, false, not, ◌&&◌, ◌||◌, List, [], ◌∷◌, leb, if◌then◌else◌,
  Option, some, none,
}
use smtlibparser.Prelude.Int.{ℤ, pos, pos_part, neg_part, ltb_ℤ, ◌+ℤ◌, ◌-ℤ◌}
use smtlibparser.Result.{Result, ok, err, overflow, invalid_argument, ◌>>=◌}
use smtlibparser.Number.{Number, finite, nan, is_infinity, le, add}
use smtlibparser.Interval.{Interval, is_empty, is_point}

-- The loop of getIntegers from `i`; none where the fuel does not last.
unfoldable pub integers_from : ℕ → Number → Number → Option (List Number)
unfolding le add
integers_from zero i last = if le i last then none else some []
integers_from (suc fuel) i last =
    let rest = integers_from fuel (add i (finite (pos 1))) last in
    if le i last then Option.map (λ is. i ∷ is) rest else some []

-- As many rounds as there are integers between the bounds.
abbrev pub rounds : Number → Number → ℕ
rounds (finite i) (finite j) = pos_part (j -ℤ i +ℤ pos 1)
rounds _ _ = 0

unfoldable pub get_integers : Interval → Result (Option (List Number))
unfolding integers_from
get_integers i =
    if is_infinity i.lower || is_infinity i.upper
    then err invalid_argument
    else ok (integers_from (rounds i.lower i.upper) i.lower i.upper)

-- HighPrecisionInteger::toULong
unfoldable pub int_to_ulong : ℤ → Result ℕ
int_to_ulong i =
    if ltb_ℤ i (pos 0) || leb (2 ^ 64) (pos_part i) then err overflow else ok (pos_part i)

-- The count between integer bounds, for each way in which the interval is closed.
abbrev pub count_between : ℤ → ℤ → Bool → Bool → ℤ
count_between l u true true = u -ℤ l +ℤ pos 1
count_between l u true false = u -ℤ l
count_between l u false true = u -ℤ l
count_between l u false false = u -ℤ l -ℤ pos 1

abbrev pub between : ℤ → ℤ → Bool → Bool → Interval
between l u left right = record {
  lower = finite l;
  upper = finite u;
  left_closed = left;
  right_closed = right;
}

-- getIntervalIntCount, of integer bounds.
unfoldable pub get_interval_int_count : ℤ → ℤ → Bool → Bool → Result ℕ
unfolding is_empty is_point int_to_ulong
get_interval_int_count l u left right =
    let i = between l u left right in
    if is_empty i
    then ok 0
    else if is_point i
    then ok 1
    else int_to_ulong (count_between l u left right)
