-- ===== src/Interval/Sorted.antt =====
-- The order that unionMulti sorts by, and the order of the intervals that it gives: src/ir/interval.cpp,
-- lines 30-33 and 322-361.
use mathlib.Core.List.{Permᴰ}
use smtlibparser.Prelude.{
  ◌≡◌, sym, ap, ◌∙◌, by_if, Bool, true, false, not, ◌&&◌, ◌||◌, List, [], ◌∷◌, arith,
}
use smtlibparser.Result.{ok}
use smtlibparser.Number.{lt}
use smtlibparser.Number.Order.{lt_asymm, equals-not-lt, order_3}
use smtlibparser.Interval.{
  Interval, is_disjoint_from, merge, merge_sorted, merge_all, union_multi, interval_lt,
  compare_interval_by_lower,
}
use smtlibparser.Interval.Sides.{IsProper, is_empty_lem}
use smtlibparser.Interval.Sets.{before_test, is_disjoint_from_lem}
use smtlibparser.Interval.Union.{IsSolid, AllSolid, AllSolid-of_perm, merge-IsSolid}
use smtlibparser.Interval.Compare.{interval_lt-before}

abbrev lower_first : Interval → Interval → Bool
lower_first a b =
    lt a.lower b.lower
    || (not (lt a.lower b.lower) && not (lt b.lower a.lower))
      && (a.left_closed && not b.left_closed)

first_lem :
    (a b : Interval) → IsProper a → IsProper b → compare_interval_by_lower a b ≡ lower_first a b
unfolding compare_interval_by_lower
first_lem a b pa pb =
    let l = equals-not-lt a.lower b.lower pa.lower_number pb.lower_number in ground arith

-- The order is what std::sort asks for, on intervals without a NaN bound: no interval is before
-- itself, to be before is transitive, and to be neither before nor after is transitive.
pub compare_interval_by_lower_lem :
    (a b c : Interval)
    → IsProper a
    → IsProper b
    → IsProper c
    → (compare_interval_by_lower a a ≡ false)
      × (compare_interval_by_lower a b ≡ true
          → compare_interval_by_lower b c ≡ true
          → compare_interval_by_lower a c ≡ true)
      × (compare_interval_by_lower a b ≡ false
          → compare_interval_by_lower b a ≡ false
          → compare_interval_by_lower b c ≡ false
          → compare_interval_by_lower c b ≡ false
          → (compare_interval_by_lower a c ≡ false) × (compare_interval_by_lower c a ≡ false))
compare_interval_by_lower_lem a b c pa pb pc =
    let aa = first_lem a a pa pa in
    let irr = lt_asymm a.lower a.lower in
    let ab = first_lem a b pa pb in
    let ba = first_lem b a pb pa in
    let bc = first_lem b c pb pc in
    let cb = first_lem c b pc pb in
    let ac = first_lem a c pa pc in
    let ca = first_lem c a pc pa in
    let o = order_3 a.lower b.lower c.lower pa.lower_number pb.lower_number pc.lower_number in
    (ground arith, ground arith, ground arith)

-- No interval comes before the one that it follows.
abbrev pub Ascending : List Interval → Type 0
Ascending [] = Unit
Ascending (i ∷ []) = Unit
Ascending (i ∷ j ∷ rest) = (compare_interval_by_lower j i ≡ false) × Ascending (j ∷ rest)

-- Each interval of the list is less than the next, and the given one than the first.
abbrev Follows : Interval → List Interval → Type 0
Follows c [] = Unit
Follows c (i ∷ rest) = (interval_lt c i ≡ ok true) × Follows i rest

abbrev pub Separated : List Interval → Type 0
Separated [] = Unit
Separated (i ∷ rest) = Follows i rest

-- Merging with a later interval keeps the lower side.
merge_lower :
    (a b : Interval)
    → IsProper a
    → IsProper b
    → compare_interval_by_lower b a ≡ false
    → ((merge a b).lower ≡ a.lower) × ((merge a b).left_closed ≡ a.left_closed)
unfolding merge
merge_lower a b pa pb h = let l = first_lem b a pb pa in (ground arith, ground arith)

before_merge :
    (c a b : Interval)
    → IsSolid c
    → IsSolid a
    → IsSolid b
    → compare_interval_by_lower b a ≡ false
    → interval_lt c a ≡ ok true
    → interval_lt c (merge a b) ≡ ok true
before_merge c a b sc sa sb h e =
    let sm = merge-IsSolid a b sa sb in
    let (l, f) = merge_lower a b sa.proper sb.proper h in
    let u : before_test c (merge a b) ≡ before_test c a = cc (l, f) in
    interval_lt-before c (merge a b) sc.proper sm.proper sc.not_empty sm.not_empty
    ∙ ap ok u
    ∙ sym (interval_lt-before c a sc.proper sa.proper sc.not_empty sa.not_empty)
    ∙ e

merge-Ascending :
    (a b : Interval) (rest : List Interval)
    → IsSolid a
    → IsSolid b
    → AllSolid rest
    → Ascending (a ∷ b ∷ rest)
    → Ascending (merge a b ∷ rest)
merge-Ascending a b [] sa sb s h = tt
merge-Ascending a b (c ∷ rest) sa sb (sc, s) (h, (g, t)) =
    let sm = merge-IsSolid a b sa sb in
    let (l, f) = merge_lower a b sa.proper sb.proper h in
    let m = first_lem c (merge a b) sc.proper sm.proper in
    let x = first_lem b a sb.proper sa.proper in
    let y = first_lem c b sc.proper sb.proper in
    let o =
      order_3 a.lower b.lower c.lower sa.proper.lower_number sb.proper.lower_number
        sc.proper.lower_number in
    (m ∙ ground arith, t)

-- Of two intervals in order that are apart, the first is less.
apart_lt :
    (a b : Interval)
    → IsSolid a
    → IsSolid b
    → compare_interval_by_lower b a ≡ false
    → is_disjoint_from a b ≡ true
    → interval_lt a b ≡ ok true
apart_lt a b sa sb h d =
    let x = first_lem b a sb.proper sa.proper in
    let y = is_disjoint_from_lem a b sa.proper sb.proper sa.not_empty sb.not_empty in
    let z = is_empty_lem b sb.proper in
    let w = sb.not_empty in
    let o =
      order_3 b.lower b.upper a.lower sb.proper.lower_number sb.proper.upper_number
        sa.proper.lower_number in
    interval_lt-before a b sa.proper sb.proper sa.not_empty sb.not_empty ∙ ap ok (ground arith)

merge_sorted-Follows :
    (c current : Interval) (is : List Interval)
    → IsSolid c
    → IsSolid current
    → AllSolid is
    → Ascending (current ∷ is)
    → interval_lt c current ≡ ok true
    → Follows c (merge_sorted current is)
unfolding merge_sorted
merge_sorted-Follows c current [] sc s r h e = (e, tt)
merge_sorted-Follows c current (i ∷ is) sc s (t, r) (h, g) e =
    by_if (Follows c) (not (is_disjoint_from current i)) _ _
      (λ n.
        merge_sorted-Follows c (merge current i) is sc (merge-IsSolid current i s t) r
          (merge-Ascending current i is s t r (h, g)) (before_merge c current i sc s t h e))
      (λ n.
        (e, merge_sorted-Follows current i is s t r g (apart_lt current i s t h (ground arith))))

merge_sorted-Separated :
    (current : Interval) (is : List Interval)
    → IsSolid current
    → AllSolid is
    → Ascending (current ∷ is)
    → Separated (merge_sorted current is)
unfolding merge_sorted
merge_sorted-Separated current [] s r h = tt
merge_sorted-Separated current (i ∷ is) s (t, r) (h, g) =
    by_if Separated (not (is_disjoint_from current i)) _ _
      (λ n.
        merge_sorted-Separated (merge current i) is (merge-IsSolid current i s t) r
          (merge-Ascending current i is s t r (h, g)))
      (λ n. merge_sorted-Follows current i is s t r g (apart_lt current i s t h (ground arith)))

merge_all-Separated : (is : List Interval) → AllSolid is → Ascending is → Separated (merge_all is)
unfolding merge_all
merge_all-Separated [] s h = tt
merge_all-Separated (i ∷ is) (s, r) h = merge_sorted-Separated i is s r h

module _ (sort : List Interval → List Interval) where
  -- The intervals that unionMulti gives are in order, each less than the next, where the given ones
  -- are not empty and have no NaN bound, and `sort` orders them by compareIntervalByLower.
  pub union_multi-Separated :
      (is : List Interval)
      → Permᴰ is (sort is)
      → Ascending (sort is)
      → AllSolid is
      → Separated (union_multi sort is)
  unfolding union_multi
  union_multi-Separated [] p h s = tt
  union_multi-Separated (i ∷ []) p h s = tt
  union_multi-Separated (i ∷ j ∷ is) p h s =
      merge_all-Separated (sort (i ∷ j ∷ is)) (AllSolid-of_perm p s) h
