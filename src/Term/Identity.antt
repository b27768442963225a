-- ===== src/Term/Identity.antt =====
-- Nodes that compare equal are equal.
use smtlibparser.Prelude.{◌≡◌, refl, true, arith, same_iff, ap}
use smtlibparser.Term.{
  Oper, Node, Nodes, const_true, const_false, unknown, error, bool_var, int_var, temp_var,
  predicate, oper, nil, cons, same_oper, same_node, same_nodes, not_op, and_op, or_op, implies_op,
  xor_op, eq_op, distinct_op, ite_op, lt_op, le_op, gt_op, ge_op,
}

same_oper-eq : (f g : Oper) → same_oper f g ≡ true → f ≡ g
unfolding same_oper
same_oper-eq not_op g h = ground arith
same_oper-eq and_op g h = ground arith
same_oper-eq or_op g h = ground arith
same_oper-eq implies_op g h = ground arith
same_oper-eq xor_op g h = ground arith
same_oper-eq eq_op g h = ground arith
same_oper-eq distinct_op g h = ground arith
same_oper-eq ite_op g h = ground arith
same_oper-eq lt_op g h = ground arith
same_oper-eq le_op g h = ground arith
same_oper-eq gt_op g h = ground arith
same_oper-eq ge_op g h = ground arith

mutual
  unfolding same_node

  eq_node : (p q : Node) → same_node p q ≡ true → p ≡ q
  eq_node const_true const_true h = refl
  eq_node const_false const_false h = refl
  eq_node unknown unknown h = refl
  eq_node error error h = refl
  eq_node (bool_var x) (bool_var y) h = ap bool_var ((same_iff x y).0 h)
  eq_node (int_var x) (int_var y) h = ap int_var ((same_iff x y).0 h)
  eq_node (temp_var m) (temp_var n) h = ground arith
  eq_node (predicate m) (predicate n) h = ground arith
  eq_node (oper f ps) (oper g qs) h = ground (arith, same_oper-eq f g, eq_nodes ps qs)
  eq_node _ _ h = cc

  eq_nodes : (ps qs : Nodes) → same_nodes ps qs ≡ true → ps ≡ qs
  eq_nodes nil nil h = refl
  eq_nodes (cons p ps) (cons q qs) h = ground (arith, eq_node p q, eq_nodes ps qs)
  eq_nodes _ _ h = cc

pub same_node-eq : (p q : Node) → same_node p q ≡ true → p ≡ q
same_node-eq p q h = eq_node p q h
