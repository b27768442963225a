-- ===== src/Term/Covered.antt =====
-- The formulas on which the constructors and the conversions do what they mean to do, as far as the
-- lemmas need it: `unknown` and `error` are none, an implication has two operands, and so has a
-- comparison, whose operands are integer variables; a chain of equations and a distinction of
-- formulas have two operands or more.
use smtlibparser.Prelude.{◌≡◌, refl, Bool, true, false, ◌&&◌, ◌||◌, &&_parts}
use smtlibparser.Term.{
  Node, Nodes, const_true, const_false, unknown, error, bool_var, int_var, temp_var, predicate,
  oper, nil, cons, is_arith_term, sort_of, is_bool_param, not_op, and_op, or_op, implies_op, xor_op,
  eq_op, distinct_op, ite_op, lt_op, le_op, gt_op, ge_op,
}

abbrev pub two_or_more : Nodes → Bool
two_or_more (cons p (cons q ps)) = true
two_or_more _ = false

-- Two integer variables.
abbrev pub two_ints : Nodes → Bool
two_ints (cons l (cons r nil)) = is_arith_term l && is_arith_term r
two_ints _ = false

unfoldable mutual
  pub covered : Node → Bool
  covered const_true = true
  covered const_false = true
  covered unknown = false
  covered error = false
  covered (bool_var x) = true
  covered (int_var x) = false
  covered (temp_var n) = true
  covered (predicate n) = true
  covered (oper not_op (cons p nil)) = covered p
  covered (oper not_op ps) = false
  covered (oper and_op ps) = all_covered ps
  covered (oper or_op ps) = all_covered ps
  covered (oper xor_op ps) = all_covered ps
  covered (oper implies_op (cons p (cons q nil))) = covered p && covered q
  covered (oper implies_op ps) = false
  covered (oper ite_op (cons c (cons l (cons r nil)))) = covered c && (covered l && covered r)
  covered (oper ite_op ps) = false
  covered (oper eq_op ps) = two_or_more ps && all_covered ps || two_ints ps
  covered (oper distinct_op ps) = two_or_more ps && all_covered ps || two_ints ps
  covered (oper lt_op ps) = two_ints ps
  covered (oper le_op ps) = two_ints ps
  covered (oper gt_op ps) = two_ints ps
  covered (oper ge_op ps) = two_ints ps

  pub all_covered : Nodes → Bool
  all_covered nil = true
  all_covered (cons p ps) = covered p && all_covered ps

pub covered-is_bool_param : (p : Node) → covered p ≡ true → is_bool_param p ≡ true
unfolding covered sort_of
covered-is_bool_param (int_var x) h = cc
covered-is_bool_param unknown h = cc
covered-is_bool_param error h = cc
covered-is_bool_param (oper ite_op (cons c (cons l (cons r nil)))) h =
    covered-is_bool_param l (&&_parts _ _ (&&_parts _ _ h).1).0
covered-is_bool_param (oper ite_op nil) h = cc
covered-is_bool_param (oper ite_op (cons c nil)) h = cc
covered-is_bool_param (oper ite_op (cons c (cons l nil))) h = cc
covered-is_bool_param (oper ite_op (cons c (cons l (cons r (cons x ps))))) h = cc
covered-is_bool_param _ h = refl
