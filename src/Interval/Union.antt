-- ===== src/Interval/Union.antt =====
-- The union of many intervals: unionMulti, src/ir/interval.cpp, lines 322-361.
use mathlib.Core.Path.{subst}
use mathlib.Core.List.{Permᴰ}
use smtlibparser.Prelude.{
  ◌≡◌, refl, sym, ap, ◌∙◌, Bool, false, not, ◌||◌, List, [], ◌∷◌, arith, by_if,
}
use smtlibparser.Number.{Number}
use smtlibparser.Number.Order.{IsNumber}
use smtlibparser.Interval.{
  Interval, is_empty, contains, is_disjoint_from, merge, merge_sorted, merge_all, union_multi,
}
use smtlibparser.Interval.Sides.{IsProper}
use smtlibparser.Interval.Sets.{
  contains-merge, merge-not_empty, merge-IsProper, is_disjoint_from_lem,
}

-- No NaN bound, and a number between the bounds.
pub record IsSolid (i : Interval) : Type 0 where
  pub proper : IsProper i
  pub not_empty : is_empty i ≡ false

abbrev pub AllSolid : List Interval → Type 0
AllSolid [] = Unit
AllSolid (i ∷ is) = IsSolid i × AllSolid is

-- The number is in one of the intervals.
abbrev pub in_some : List Interval → Number → Bool
in_some [] x = false
in_some (i ∷ is) x = contains i x || in_some is x

pub AllSolid-of_perm : {is js : List Interval} → Permᴰ is js → AllSolid is → AllSolid js
AllSolid-of_perm Permᴰ.nil s = s
AllSolid-of_perm (Permᴰ.cons e d) (s, r) = (subst IsSolid e s, AllSolid-of_perm d r)
AllSolid-of_perm (Permᴰ.swap e f) (s, (t, r)) = (subst IsSolid f t, (subst IsSolid e s, r))
AllSolid-of_perm (Permᴰ.trans d e) s = AllSolid-of_perm e (AllSolid-of_perm d s)

in_some_of_perm : {is js : List Interval} → Permᴰ is js → (x : Number) → in_some is x ≡ in_some js x
in_some_of_perm Permᴰ.nil x = refl
in_some_of_perm (Permᴰ.cons e d) x = cc (e, in_some_of_perm d x)
in_some_of_perm (Permᴰ.swap e f) x = rw (e, f) (ground arith)
in_some_of_perm (Permᴰ.trans d e) x = in_some_of_perm d x ∙ in_some_of_perm e x

pub merge-IsSolid : (a b : Interval) → IsSolid a → IsSolid b → IsSolid (merge a b)
merge-IsSolid a b sa sb = record {
  proper = merge-IsProper a b sa.proper sb.proper;
  not_empty = merge-not_empty a b sa.proper sb.proper sa.not_empty;
}

joined : (m p q r : Bool) → m ≡ (p || q) → (m || r) ≡ (p || (q || r))
joined m p q r h = ground arith

merge_sorted_lem :
    (current : Interval) (is : List Interval)
    → IsSolid current
    → AllSolid is
    → (x : Number) → IsNumber x
    → in_some (merge_sorted current is) x ≡ (contains current x || in_some is x)
unfolding merge_sorted
merge_sorted_lem current [] s r x hx = refl
merge_sorted_lem current (i ∷ is) s (t, r) x hx =
    by_if (λ l. in_some l x ≡ (contains current x || (contains i x || in_some is x)))
      (not (is_disjoint_from current i)) _ _
      (λ e.
        let parts = is_disjoint_from_lem current i s.proper t.proper s.not_empty t.not_empty in
        merge_sorted_lem (merge current i) is (merge-IsSolid current i s t) r x hx
        ∙ joined (contains (merge current i) x) (contains current x) (contains i x) (in_some is x)
            (contains-merge current i s.proper t.proper x hx (ground arith) (ground arith)))
      (λ e. ap (λ b. contains current x || b) (merge_sorted_lem i is t r x hx))

merged_lem :
    (is : List Interval)
    → AllSolid is
    → (x : Number) → IsNumber x
    → in_some (merge_all is) x ≡ in_some is x
unfolding merge_all
merged_lem [] s x hx = refl
merged_lem (i ∷ is) (s, r) x hx = merge_sorted_lem i is s r x hx

module _ (sort : List Interval → List Interval) where
  -- A number is in an interval that unionMulti gives exactly where it is in one of the intervals
  -- that it is given, where these are not empty and have no NaN bound, and `sort` reorders them.
  pub union_multi_lem :
      (is : List Interval)
      → Permᴰ is (sort is)
      → AllSolid is
      → (x : Number) → IsNumber x
      → in_some (union_multi sort is) x ≡ in_some is x
  unfolding union_multi
  union_multi_lem [] p s x hx = refl
  union_multi_lem (i ∷ []) p s x hx = refl
  union_multi_lem (i ∷ j ∷ is) p s x hx =
      merged_lem (sort (i ∷ j ∷ is)) (AllSolid-of_perm p s) x hx ∙ sym (in_some_of_perm p x)
