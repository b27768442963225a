-- ===== src/Term/Make/Negation.antt =====
-- mkNot negates: src/frontend/op_parser.cpp, lines 939-974 and 4808-4839.
pub mod Form
use smtlibparser.Prelude.{
  ℕ, ◌≡◌, refl, sym, Bytes, Bool, true, false, not, ◌&&◌, ◌||◌, List, [], ◌∷◌, arith, if◌then◌else◌,
}
use mathlib.Core.Path.{subst}
use smtlibparser.Prelude.Int.{ℤ, ltb_ℤ}
use smtlibparser.Term.{
  Oper, Node, Nodes, const_true, const_false, unknown, error, bool_var, int_var, temp_var,
  predicate, oper, nil, cons, sort_of, is_arith_term, is_bool_param, same_node, not_op, and_op,
  or_op, implies_op, xor_op, eq_op, distinct_op, ite_op, lt_op, le_op, gt_op, ge_op,
}
use smtlibparser.Term.Identity.{same_node-eq}
use smtlibparser.Term.Meaning.{Valuation, Value, truth, number, equal_value, eval, holds}
use smtlibparser.Term.WellSorted.{well_sorted, binary, well_sorted-covered}
use smtlibparser.Term.Covered.{two_ints, covered, covered-is_bool_param}
use smtlibparser.Term.Simp.{simp_1, simp_3, simp_n, simp_by_size}
use smtlibparser.Term.Simp.Laws.{holds-is_true, holds-is_false}
use smtlibparser.Term.Make.{
  swap_if, sort_params, is_commutative, is_arith_comp, scan_sort, mk_internal_oper, mk_oper,
  mk_oper_few, mk_order, mk_chain, mk_arith_eq, mk_arith_distinct, negate_comp, mk_not,
}

pub equal_value_comm : (v w : Value) → equal_value v w ≡ equal_value w v
equal_value_comm (truth true) (truth true) = refl
equal_value_comm (truth true) (truth false) = refl
equal_value_comm (truth false) (truth true) = refl
equal_value_comm (truth false) (truth false) = refl
equal_value_comm (truth a) (number j) = refl
equal_value_comm (number i) (truth b) = refl
equal_value_comm (number i) (number j) = ground arith

ltb_irrefl : (i : ℤ) → ltb_ℤ i i ≡ false
ltb_irrefl i = ground arith

pub arith-covered : (p : Node) → is_arith_term p ≡ true → covered p ≡ false
unfolding covered
arith-covered (int_var x) h = refl
arith-covered _ h = cc

pub int_operands :
    (ps : Nodes)
    → two_ints ps ≡ true
    → (x y : Bytes) × (ps ≡ cons (int_var x) (cons (int_var y) nil))
int_operands (cons (int_var x) (cons (int_var y) nil)) h = (x, y, refl)
int_operands nil h = absurd (cc)
int_operands (cons p nil) h = absurd (cc)
int_operands (cons p (cons q (cons r ps))) h = absurd (cc)
int_operands _ h = absurd (cc)

pub comp-two_ints :
    (t : Oper) (ps : Nodes)
    → covered (oper t ps) ≡ true
    → is_arith_comp t ps ≡ true
    → two_ints ps ≡ true
unfolding covered is_arith_comp
comp-two_ints lt_op ps h a = h
comp-two_ints le_op ps h a = h
comp-two_ints gt_op ps h a = h
comp-two_ints ge_op ps h a = h
comp-two_ints eq_op (cons l ps) h a = ground (arith, arith-covered l)
comp-two_ints distinct_op (cons l ps) h a = ground (arith, arith-covered l)
comp-two_ints t ps h a = cc

module _ (ρ : Valuation) (preserve : Oper → Bool) (key : Node → ℕ) where
  -- Two operands of an integer comparison.
  mk_oper_few-lt :
      (l r : Node)
      → eval ρ (mk_oper_few preserve key lt_op (l ∷ r ∷ []))
        ≡ eval ρ (oper lt_op (cons l (cons r nil)))
  unfolding mk_oper_few mk_oper mk_internal_oper simp_by_size is_commutative
  mk_oper_few-lt l r = ground arith

  mk_oper_few-le :
      (l r : Node)
      → eval ρ (mk_oper_few preserve key le_op (l ∷ r ∷ []))
        ≡ eval ρ (oper le_op (cons l (cons r nil)))
  unfolding mk_oper_few mk_oper mk_internal_oper simp_by_size is_commutative
  mk_oper_few-le l r = ground arith

  mk_oper_few-gt :
      (l r : Node)
      → eval ρ (mk_oper_few preserve key gt_op (l ∷ r ∷ []))
        ≡ eval ρ (oper gt_op (cons l (cons r nil)))
  unfolding mk_oper_few mk_oper mk_internal_oper simp_by_size is_commutative
  mk_oper_few-gt l r = ground arith

  mk_oper_few-ge :
      (l r : Node)
      → eval ρ (mk_oper_few preserve key ge_op (l ∷ r ∷ []))
        ≡ eval ρ (oper ge_op (cons l (cons r nil)))
  unfolding mk_oper_few mk_oper mk_internal_oper simp_by_size is_commutative
  mk_oper_few-ge l r = ground arith

  pub mk_oper_few-eq :
      (l r : Node)
      → eval ρ (mk_oper_few preserve key eq_op (l ∷ r ∷ []))
        ≡ eval ρ (oper eq_op (cons l (cons r nil)))
  unfolding mk_oper_few mk_oper mk_internal_oper simp_by_size is_commutative sort_params swap_if
      eval
  mk_oper_few-eq l r = ground (arith, equal_value_comm (eval ρ l) (eval ρ r))

  negate_lt :
      (x y : Bytes)
      → holds ρ (negate_comp preserve key lt_op (cons (int_var x) (cons (int_var y) nil)))
        ≡ not (ltb_ℤ (ρ.int_of x) (ρ.int_of y))
  unfolding negate_comp mk_order eval sort_of
  negate_lt x y = ground (
    arith,
    same_node-eq (int_var x) (int_var y),
    mk_oper_few-ge (int_var x) (int_var y),
    ltb_irrefl (ρ.int_of x),
  )

  negate_le :
      (x y : Bytes)
      → holds ρ (negate_comp preserve key le_op (cons (int_var x) (cons (int_var y) nil)))
        ≡ ltb_ℤ (ρ.int_of y) (ρ.int_of x)
  unfolding negate_comp mk_order eval sort_of
  negate_le x y = ground (
    arith,
    same_node-eq (int_var x) (int_var y),
    mk_oper_few-gt (int_var x) (int_var y),
    ltb_irrefl (ρ.int_of x),
  )

  negate_gt :
      (x y : Bytes)
      → holds ρ (negate_comp preserve key gt_op (cons (int_var x) (cons (int_var y) nil)))
        ≡ not (ltb_ℤ (ρ.int_of y) (ρ.int_of x))
  unfolding negate_comp mk_order eval sort_of
  negate_gt x y = ground (
    arith,
    same_node-eq (int_var x) (int_var y),
    mk_oper_few-le (int_var x) (int_var y),
    ltb_irrefl (ρ.int_of x),
  )

  negate_ge :
      (x y : Bytes)
      → holds ρ (negate_comp preserve key ge_op (cons (int_var x) (cons (int_var y) nil)))
        ≡ ltb_ℤ (ρ.int_of x) (ρ.int_of y)
  unfolding negate_comp mk_order eval sort_of
  negate_ge x y = ground (
    arith,
    same_node-eq (int_var x) (int_var y),
    mk_oper_few-lt (int_var x) (int_var y),
    ltb_irrefl (ρ.int_of x),
  )

  negate_eq :
      (x y : Bytes)
      → holds ρ (negate_comp preserve key eq_op (cons (int_var x) (cons (int_var y) nil)))
        ≡ not (equal_value (number (ρ.int_of x)) (number (ρ.int_of y)))
  unfolding negate_comp mk_arith_distinct mk_chain mk_oper mk_internal_oper simp_by_size
      is_commutative sort_params swap_if scan_sort eval sort_of
  negate_eq x y = ground (arith, equal_value_comm (number (ρ.int_of x)) (number (ρ.int_of y)))

  negate_distinct :
      (x y : Bytes)
      → holds ρ (negate_comp preserve key distinct_op (cons (int_var x) (cons (int_var y) nil)))
        ≡ equal_value (number (ρ.int_of x)) (number (ρ.int_of y))
  unfolding negate_comp mk_arith_eq eval sort_of
  negate_distinct x y = ground (arith, mk_oper_few-eq (int_var x) (int_var y))

  mk_oper_few-not :
      (p : Node) → holds ρ (mk_oper_few preserve key not_op (p ∷ [])) ≡ not (holds ρ p)
  unfolding mk_oper_few mk_oper mk_internal_oper simp_by_size simp_1 is_commutative eval
  mk_oper_few-not p = ground (arith, holds-is_true ρ p, holds-is_false ρ p)

  negate_two_ints :
      (t : Oper) (x y : Bytes)
      → is_arith_comp t (cons (int_var x) (cons (int_var y) nil)) ≡ true
      → holds ρ (negate_comp preserve key t (cons (int_var x) (cons (int_var y) nil)))
        ≡ not (holds ρ (oper t (cons (int_var x) (cons (int_var y) nil))))
  unfolding is_arith_comp eval
  negate_two_ints lt_op x y a = negate_lt x y
  negate_two_ints le_op x y a = ground (arith, negate_le x y)
  negate_two_ints gt_op x y a = negate_gt x y
  negate_two_ints ge_op x y a = ground (arith, negate_ge x y)
  negate_two_ints eq_op x y a = ground (arith, negate_eq x y)
  negate_two_ints distinct_op x y a = ground (arith, negate_distinct x y)
  negate_two_ints _ x y a = cc

  negate_comp_lem :
      (t : Oper) (ps : Nodes)
      → covered (oper t ps) ≡ true
      → is_arith_comp t ps ≡ true
      → holds ρ (negate_comp preserve key t ps) ≡ not (holds ρ (oper t ps))
  negate_comp_lem t ps h a =
      let (x, y, e) = int_operands ps (comp-two_ints t ps h a) in
      subst (λ qs. holds ρ (negate_comp preserve key t qs) ≡ not (holds ρ (oper t qs))) (sym e)
        (negate_two_ints t x y (subst (λ qs. is_arith_comp t qs ≡ true) e a))

  mk_not_oper :
      (t : Oper) (ps : Nodes)
      → covered (oper t ps) ≡ true
      → mk_not preserve key (oper t ps) ≡ (
          if is_arith_comp t ps
          then negate_comp preserve key t ps
          else mk_oper_few preserve key not_op (oper t ps ∷ []))
      → holds ρ (mk_not preserve key (oper t ps)) ≡ not (holds ρ (oper t ps))
  mk_not_oper t ps h e = ground (arith, negate_comp_lem t ps, mk_oper_few-not (oper t ps))

  -- For a covered formula mkNot gives the negation.
  pub mk_not_meaning :
      (p : Node) → covered p ≡ true → holds ρ (mk_not preserve key p) ≡ not (holds ρ p)
  unfolding mk_not covered eval sort_of
  mk_not_meaning const_true h = refl
  mk_not_meaning const_false h = refl
  mk_not_meaning (oper not_op (cons p nil)) h = ground arith
  mk_not_meaning (oper not_op nil) h = cc
  mk_not_meaning (oper not_op (cons p (cons q ps))) h = cc
  mk_not_meaning (oper t ps) h =
      mk_not_oper t ps h (ground (arith, covered-is_bool_param (oper t ps) h))
  mk_not_meaning unknown h = cc
  mk_not_meaning error h = cc
  mk_not_meaning (int_var x) h = cc
  mk_not_meaning p h = ground (arith, mk_oper_few-not p)

  -- For a well-sorted formula in which every implication has two operands and every comparison of
  -- integers compares two variables, mkNot gives a node that holds exactly where the formula does
  -- not.
  pub mk_not_lem :
      (p : Node)
      → well_sorted p ≡ true
      → binary p ≡ true
      → holds ρ (mk_not preserve key p) ≡ not (holds ρ p)
  mk_not_lem p h b = mk_not_meaning p (well_sorted-covered p h b)
