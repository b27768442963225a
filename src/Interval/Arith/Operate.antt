-- ===== src/Interval/Arith/Operate.antt =====
-- NT_AND and NT_OR on intervals: operate, src/ir/interval.cpp, lines 2462-2479.
use smtlibparser.Prelude.{
  ◌≡◌, refl, sym, ap, ◌∙◌, Bool-cases, inl, inr, Bool, false, ◌&&◌, ◌||◌, arith, if◌then◌else◌,
}
use smtlibparser.Result.{ok}
use smtlibparser.Number.{Number, lt, le, min_number, max_number}
use smtlibparser.Number.Order.{IsNumber}
use smtlibparser.Interval.{
  Interval, is_empty, contains, intersection, is_intersecting_with, is_disjoint_from,
}
use smtlibparser.Interval.Sides.{IsProper, contains_lem}
use smtlibparser.Interval.Meet.{contains-intersection, is_intersecting_with-intersection}
use smtlibparser.Interval.Sets.{contains-union_with, contains_empty, min_IsNumber, max_IsNumber}
use smtlibparser.Interval.Arith.{operate_and, operate_or, nothing, hull}

contains-nothing : (x : Number) → contains nothing x ≡ false
unfolding contains is_empty le lt
contains-nothing x = refl

contains-hull :
    (a b : Interval)
    → IsProper a
    → IsProper b
    → (x : Number) → IsNumber x
    → contains (hull a b) x
      ≡ (lt (min_number a.lower b.lower) x && lt x (max_number a.upper b.upper))
contains-hull a b pa pb x hx =
    contains_lem (hull a b) x
      (record {
        lower_number = min_IsNumber a.lower b.lower pa.lower_number pb.lower_number;
        upper_number = max_IsNumber a.upper b.upper pa.upper_number pb.upper_number;
      })
      hx

module _ (a b : Interval) (pa : IsProper a) (pb : IsProper b) (ea : is_empty a ≡ false)
    (eb : is_empty b ≡ false) (x : Number) (hx : IsNumber x) where
  apart_nothing : is_intersecting_with a b ≡ false → false ≡ (contains a x && contains b x)
  apart_nothing e =
      let m = is_intersecting_with-intersection a b pa pb ea eb in
      sym (contains_empty (intersection a b) x (ground arith))
      ∙ contains-intersection a b pa pb x hx

  -- NT_AND on two intervals that are not empty gives an interval of the numbers that are in both.
  pub contains-operate_and :
      (u : Interval) × (operate_and a b ≡ ok u) × (contains u x ≡ (contains a x && contains b x))
  unfolding operate_and
  contains-operate_and = elim (Bool-cases (is_intersecting_with a b)) [
    | inl e ↦ (intersection a b, ground arith, contains-intersection a b pa pb x hx)
    | inr e ↦ (nothing, ground arith, contains-nothing x ∙ apart_nothing e)
  ]

  either : Bool → Bool
  either apart =
      if apart
      then lt (min_number a.lower b.lower) x && lt x (max_number a.upper b.upper)
      else contains a x || contains b x

  -- NT_OR on two intervals that are not empty gives an interval. It has exactly the numbers that are
  -- in one of them where they are not apart, and otherwise every number between the outer bounds,
  -- but not the bounds.
  pub contains-operate_or :
      (u : Interval) × (operate_or a b ≡ ok u)
      × (contains u x ≡ (
          if is_disjoint_from a b
          then lt (min_number a.lower b.lower) x && lt x (max_number a.upper b.upper)
          else contains a x || contains b x))
  unfolding operate_or either is_intersecting_with
  contains-operate_or = elim (Bool-cases (is_disjoint_from a b)) [
    | inl e ↦ (hull a b, ground arith, contains-hull a b pa pb x hx ∙ ap either (sym e))
    | inr e ↦
        let (u, w, c) = contains-union_with a b pa pb ea eb e in
        (u, ground arith, c x hx ∙ ap either (sym e))
  ]
