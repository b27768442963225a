-- ===== src/Term/Make/Negation/Form.antt =====
-- What mkNot can build: a constant, a comparison of two integer variables, or a negation.
use mathlib.Core.Path.{subst}
use smtlibparser.Prelude.{
  ℕ, ◌≡◌, refl, sym, Bytes, Bool, true, false, [], ◌∷◌, arith, if◌then◌else◌,
}
use smtlibparser.Term.{
  Oper, Node, Nodes, const_true, const_false, unknown, error, int_var, oper, nil, cons, sort_of,
  not_op, eq_op, distinct_op, lt_op, le_op, gt_op, ge_op,
}
use smtlibparser.Term.Covered.{covered, covered-is_bool_param}
use smtlibparser.Term.Simp.{simp_1, simp_by_size}
use smtlibparser.Term.Make.{
  swap_if, sort_params, is_commutative, is_arith_comp, scan_sort, mk_internal_oper, mk_oper,
  mk_oper_few, mk_order, mk_chain, mk_arith_eq, mk_arith_distinct, negate_comp, mk_not,
}
use smtlibparser.Term.Make.Negation.{int_operands, comp-two_ints}

abbrev pub is_not : Node → Bool
is_not (oper not_op ps) = true
is_not _ = false

module _ (preserve : Oper → Bool) (key : Node → ℕ) where
  pub mk_not_twice : (p : Node) → mk_not preserve key (oper not_op (cons p nil)) ≡ p
  unfolding mk_not
  mk_not_twice p = refl

  pub mk_not_constants :
      (mk_not preserve key const_true ≡ const_false)
      × (mk_not preserve key const_false ≡ const_true)
  unfolding mk_not
  mk_not_constants = (refl, refl)

module _ (P : Node → Bool) (preserve : Oper → Bool) (key : Node → ℕ) where
  -- `P` holds of the constants and of every comparison of two integer variables.
  abbrev pub OfComparisons : Type 0
  OfComparisons =
      (P const_true ≡ true)
      × (P const_false ≡ true)
      × ((t : Oper) (x y : Bytes)
          → is_arith_comp t (cons (int_var x) (cons (int_var y) nil)) ≡ true
          → P (oper t (cons (int_var x) (cons (int_var y) nil))) ≡ true)

  negate_two_ints_closed :
      OfComparisons
      → (t : Oper) (x y : Bytes) → is_arith_comp t (cons (int_var x) (cons (int_var y) nil)) ≡ true
      → P (negate_comp preserve key t (cons (int_var x) (cons (int_var y) nil))) ≡ true
  unfolding negate_comp mk_order mk_arith_eq mk_arith_distinct mk_chain mk_oper_few mk_oper
      mk_internal_oper simp_by_size is_commutative sort_params swap_if scan_sort is_arith_comp
      sort_of
  negate_two_ints_closed (u, z, c) lt_op x y a = ground (arith, c ge_op x y)
  negate_two_ints_closed (u, z, c) le_op x y a = ground (arith, c gt_op x y)
  negate_two_ints_closed (u, z, c) gt_op x y a = ground (arith, c le_op x y)
  negate_two_ints_closed (u, z, c) ge_op x y a = ground (arith, c lt_op x y)
  negate_two_ints_closed (u, z, c) eq_op x y a =
      ground (arith, c distinct_op x y, c distinct_op y x)
  negate_two_ints_closed (u, z, c) distinct_op x y a = ground (arith, c eq_op x y, c eq_op y x)
  negate_two_ints_closed _ _ x y a = cc

  negate_comp_closed :
      OfComparisons
      → (t : Oper) (ps : Nodes) → covered (oper t ps) ≡ true
      → is_arith_comp t ps ≡ true
      → P (negate_comp preserve key t ps) ≡ true
  negate_comp_closed k t ps h a =
      let (x, y, e) = int_operands ps (comp-two_ints t ps h a) in
      subst (λ qs. P (negate_comp preserve key t qs) ≡ true) (sym e)
        (negate_two_ints_closed k t x y (subst (λ qs. is_arith_comp t qs ≡ true) e a))

  mk_oper_few-not_closed :
      OfComparisons
      → (p : Node) → P (oper not_op (cons p nil)) ≡ true
      → P (mk_oper_few preserve key not_op (p ∷ [])) ≡ true
  unfolding mk_oper_few mk_oper mk_internal_oper simp_by_size simp_1 is_commutative
  mk_oper_few-not_closed (u, z, c) p h = ground arith

  mk_not_closed_oper :
      OfComparisons
      → (t : Oper) (ps : Nodes) → covered (oper t ps) ≡ true
      → P (oper not_op (cons (oper t ps) nil)) ≡ true
      → mk_not preserve key (oper t ps) ≡ (
          if is_arith_comp t ps
          then negate_comp preserve key t ps
          else mk_oper_few preserve key not_op (oper t ps ∷ []))
      → P (mk_not preserve key (oper t ps)) ≡ true
  mk_not_closed_oper k t ps h n e =
      ground (arith, negate_comp_closed k t ps, mk_oper_few-not_closed k (oper t ps))

  pub mk_not_closed :
      OfComparisons
      → (p : Node) → covered p ≡ true
      → is_not p ≡ false
      → P (oper not_op (cons p nil)) ≡ true
      → P (mk_not preserve key p) ≡ true
  unfolding mk_not covered sort_of
  mk_not_closed k const_true h n q = k.1
  mk_not_closed k const_false h n q = k.0
  mk_not_closed k (oper not_op ps) h n q = cc
  mk_not_closed k (oper t ps) h n q =
      mk_not_closed_oper k t ps h q (ground (arith, covered-is_bool_param (oper t ps) h))
  mk_not_closed k unknown h n q = cc
  mk_not_closed k error h n q = cc
  mk_not_closed k (int_var x) h n q = cc
  mk_not_closed k p h n q = mk_oper_few-not_closed k p q
