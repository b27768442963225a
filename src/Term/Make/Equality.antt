-- ===== src/Term/Make/Equality.antt =====
-- mkEq and mkDistinct of two formulas: src/frontend/op_parser.cpp, lines 443-483 and 541-591.
use smtlibparser.Prelude.{
  ℕ, ◌≡◌, refl, ◌∙◌, Bool, true, false, not, ◌&&◌, [], ◌∷◌, arith, if◌then◌else◌, &&_parts,
}
use smtlibparser.Term.{
  Oper, Node, const_true, int_var, oper, nil, cons, sort_of, is_bool_param, is_true, is_false,
  is_eq_to, not_op, eq_op, distinct_op, ite_op,
}
use smtlibparser.Term.Meaning.{Valuation, Value, truth, equal_value, eval, holds, xor, bool}
use smtlibparser.Term.WellSorted.{well_sorted, binary, well_sorted-covered}
use smtlibparser.Term.Covered.{covered, covered-is_bool_param}
use smtlibparser.Term.Simp.{simp_by_size}
use smtlibparser.Term.Simp.Laws.{holds-is_true, holds-is_false}
use smtlibparser.Term.Make.{
  swap_if, sort_params, is_commutative, mk_internal_oper, mk_oper, mk_oper_few, mk_eq, mk_eq_plain,
  mk_distinct, mk_distinct_plain, mk_eq_all, mk_chain, scan_eq, get_sort,
}
use smtlibparser.Term.Make.Negation.{mk_not_meaning, mk_oper_few-eq, equal_value_comm}
use smtlibparser.Term.Make.Negation.Form.{is_not}

same_sort :
    (p q : Node)
    → is_bool_param p ≡ true
    → is_bool_param q ≡ true
    → is_eq_to (sort_of p) (sort_of q) ≡ true
same_sort p q hp hq = ground arith

if_truth :
    (b : Bool) (v w : Value)
    → v ≡ truth (bool v)
    → w ≡ truth (bool w)
    → (if b then v else w) ≡ truth (bool (if b then v else w))
if_truth true v w hv hw = hv
if_truth false v w hv hw = hw

not-xor : (a b : Bool) → not (xor a b) ≡ not (xor (not a) (not b))
not-xor true true = refl
not-xor true false = refl
not-xor false true = refl
not-xor false false = refl

module _ (ρ : Valuation) where
  -- A formula has a truth value.
  pub eval-truth : (p : Node) → covered p ≡ true → eval ρ p ≡ truth (holds ρ p)
  unfolding eval covered
  eval-truth (int_var x) h = cc
  eval-truth (oper ite_op (cons c (cons l (cons r nil)))) h =
      let (hc, hlr) = &&_parts (covered c) (covered l && covered r) h in
      let (hl, hr) = &&_parts (covered l) (covered r) hlr in
      let el = eval-truth l hl in
      let er = eval-truth r hr in if_truth (holds ρ c) (eval ρ l) (eval ρ r) el er
  eval-truth (oper ite_op nil) h = cc
  eval-truth (oper ite_op (cons c nil)) h = cc
  eval-truth (oper ite_op (cons c (cons l nil))) h = cc
  eval-truth (oper ite_op (cons c (cons l (cons r (cons s ps))))) h = cc
  eval-truth _ h = refl

  pub equal_value-truth :
      (p q : Node)
      → covered p ≡ true
      → covered q ≡ true
      → equal_value (eval ρ p) (eval ρ q) ≡ not (xor (holds ρ p) (holds ρ q))
  equal_value-truth p q hp hq = rw (eval-truth p hp, eval-truth q hq) refl

  module _ (preserve : Oper → Bool) (key : Node → ℕ) where
    mk_eq_plain_lem :
        (l r : Node)
        → covered l ≡ true
        → covered r ≡ true
        → holds ρ (mk_eq_plain preserve key l r) ≡ not (xor (holds ρ l) (holds ρ r))
    unfolding mk_eq_plain eval
    mk_eq_plain_lem l r hl hr = ground (
      arith,
      same_sort l r,
      covered-is_bool_param l hl,
      covered-is_bool_param r hr,
      mk_not_meaning ρ preserve key l,
      mk_not_meaning ρ preserve key r,
      holds-is_true ρ l,
      holds-is_false ρ l,
      holds-is_true ρ r,
      holds-is_false ρ r,
      mk_oper_few-eq ρ preserve key l r,
      equal_value-truth l r hl hr,
    )

    -- For covered formulas mkEq gives the equality.
    pub mk_eq_meaning :
        (l r : Node)
        → covered l ≡ true
        → covered r ≡ true
        → holds ρ (mk_eq preserve key l r) ≡ not (xor (holds ρ l) (holds ρ r))
    unfolding mk_eq covered eval
    mk_eq_meaning (oper not_op (cons l nil)) (oper not_op (cons r nil)) hl hr =
        mk_eq_meaning l r hl hr ∙ not-xor (holds ρ l) (holds ρ r)
    mk_eq_meaning (oper not_op (cons l (cons p ps))) r hl hr = cc
    mk_eq_meaning (oper not_op (cons l nil)) (oper not_op (cons r (cons p ps))) hl hr = cc
    mk_eq_meaning l r hl hr = mk_eq_plain_lem l r hl hr

    -- For well-sorted formulas in which every implication has two operands and every comparison of
    -- integers compares two variables, mkEq gives a node that holds exactly where both or none of
    -- them do.
    pub mk_eq_lem :
        (l r : Node)
        → well_sorted l ≡ true
        → binary l ≡ true
        → well_sorted r ≡ true
        → binary r ≡ true
        → holds ρ (mk_eq preserve key l r) ≡ not (xor (holds ρ l) (holds ρ r))
    mk_eq_lem l r hl bl hr br =
        mk_eq_meaning l r (well_sorted-covered l hl bl) (well_sorted-covered r hr br)

    mk_oper_few-distinct :
        (l r : Node)
        → eval ρ (mk_oper_few preserve key distinct_op (l ∷ r ∷ []))
          ≡ truth (not (equal_value (eval ρ l) (eval ρ r)))
    unfolding mk_oper_few mk_oper mk_internal_oper simp_by_size is_commutative sort_params swap_if
        eval
    mk_oper_few-distinct l r = ground (arith, equal_value_comm (eval ρ l) (eval ρ r))

    mk_distinct_plain_lem :
        (l r : Node)
        → covered l ≡ true
        → covered r ≡ true
        → holds ρ (mk_distinct_plain preserve key l r) ≡ xor (holds ρ l) (holds ρ r)
    unfolding mk_distinct_plain eval
    mk_distinct_plain_lem l r hl hr = ground (
      arith,
      same_sort l r,
      covered-is_bool_param l hl,
      covered-is_bool_param r hr,
      mk_not_meaning ρ preserve key l,
      mk_not_meaning ρ preserve key r,
      holds-is_true ρ l,
      holds-is_false ρ l,
      holds-is_true ρ r,
      holds-is_false ρ r,
      mk_oper_few-distinct l r,
      equal_value-truth l r hl hr,
    )

    -- For covered formulas that are no negations mkDistinct gives a node that holds exactly where
    -- one of them does and the other does not.
    pub mk_distinct_lem :
        (l r : Node)
        → covered l ≡ true
        → covered r ≡ true
        → is_not l ≡ false
        → is_not r ≡ false
        → holds ρ (mk_distinct preserve key l r) ≡ xor (holds ρ l) (holds ρ r)
    unfolding mk_distinct
    mk_distinct_lem (oper not_op ls) r hl hr nl nr = cc
    mk_distinct_lem l (oper not_op rs) hl hr nl nr = cc
    mk_distinct_lem l r hl hr nl nr = mk_distinct_plain_lem l r hl hr

    mk_distinct_left :
        (l r : Node)
        → covered r ≡ true
        → is_not r ≡ false
        → is_true r ≡ false
        → is_false r ≡ false
        → mk_distinct preserve key (oper not_op (cons l nil)) r ≡ mk_distinct preserve key l r
    unfolding mk_distinct
    mk_distinct_left l (oper not_op rs) w n t f = cc
    mk_distinct_left l r w n t f = ground (arith, covered-is_bool_param r w)

    -- Where both formulas are covered, neither is a negation, and the second one is no constant,
    -- mkDistinct of the first one's negation and the second gives the opposite of what it says, in every valuation.
    pub mk_distinct_negated_left :
        (l r : Node)
        → covered l ≡ true
        → covered r ≡ true
        → is_not l ≡ false
        → is_not r ≡ false
        → is_true r ≡ false
        → is_false r ≡ false
        → holds ρ (mk_distinct preserve key (oper not_op (cons l nil)) r)
          ≡ not (xor (not (holds ρ l)) (holds ρ r))
    mk_distinct_negated_left l r hl hr nl nr t f =
        ground (arith, mk_distinct_left l r hr nr t f, mk_distinct_lem l r hl hr nl nr)

    mk_chain-eq :
        (l r : Node)
        → eval ρ (mk_chain preserve key eq_op (l ∷ r ∷ []))
          ≡ truth (equal_value (eval ρ l) (eval ρ r))
    unfolding mk_chain mk_oper mk_internal_oper simp_by_size is_commutative sort_params swap_if eval
    mk_chain-eq l r = ground (arith, equal_value_comm (eval ρ l) (eval ρ r))

    -- For covered formulas that are no constants, mkEq of the vector of true and the two gives a
    -- node that holds where none of them does: the constant is lost.
    pub mk_eq_all-true_lost :
        (l r : Node)
        → covered l ≡ true
        → covered r ≡ true
        → is_true l ≡ false
        → is_false l ≡ false
        → is_true r ≡ false
        → holds ρ (mk_eq_all preserve key (const_true ∷ l ∷ r ∷ []))
          ≡ not (xor (holds ρ l) (holds ρ r))
    unfolding mk_eq_all scan_eq get_sort sort_of
    mk_eq_all-true_lost l r hl hr tl fl tr = ground (
      arith,
      same_sort l r,
      same_sort l l,
      covered-is_bool_param l hl,
      covered-is_bool_param r hr,
      mk_chain-eq l r,
      equal_value-truth l r hl hr,
    )
