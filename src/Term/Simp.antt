-- ===== src/Term/Simp.antt =====
-- The Boolean part of simp_oper: src/frontend/simp_parser.cpp, lines 63-78, 843-852, 1465-1540,
-- 1779-1787, 1914-1998 and 2102-2161. `unknown` says that nothing is known. On these nodes two
-- operands never decide an equality, a distinction or an order, as none is a number.
pub mod Laws
use smtlibparser.Prelude.{Bool, true, false, ◌&&◌, ◌||◌, List, [], ◌∷◌, if◌then◌else◌}
use smtlibparser.Term.{
  Oper, Node, const_true, const_false, unknown, is_true, is_false, is_unknown, not_op, and_op,
  or_op, implies_op, xor_op, eq_op, distinct_op, ite_op,
}

-- simp_oper(t, p)
unfoldable pub simp_1 : Oper → Node → Node
simp_1 not_op p = if is_true p then const_false else if is_false p then const_true else unknown
simp_1 and_op p = p
simp_1 or_op p = p
simp_1 implies_op p = p
simp_1 xor_op p = p
simp_1 eq_op p = p
simp_1 distinct_op p = p
simp_1 _ p = unknown

-- simp_oper(t, l, r)
unfoldable pub simp_2 : Oper → Node → Node → Node
simp_2 and_op l r =
    if is_false l || is_false r
    then const_false
    else if is_true l && is_true r
    then const_true
    else unknown
simp_2 or_op l r =
    if is_true l || is_true r
    then const_true
    else if is_false l && is_false r
    then const_false
    else unknown
simp_2 implies_op l r =
    if is_true l && is_false r
    then const_false
    else if is_false l || is_true r
    then const_true
    else unknown
simp_2 xor_op l r =
    if is_true l && is_true r
    then const_false
    else if is_false l && is_false r
    then const_false
    else if is_true l && is_false r
    then const_true
    else if is_false l && is_true r
    then const_true
    else unknown
simp_2 _ l r = unknown

-- simp_oper(t, l, m, r): a chain goes from the left, an implication too.
unfoldable pub simp_3 : Oper → Node → Node → Node → Node
unfolding simp_2
simp_3 ite_op l m r = if is_true l then m else if is_false l then r else unknown
simp_3 and_op l m r = simp_2 and_op (simp_2 and_op l m) r
simp_3 or_op l m r = simp_2 or_op (simp_2 or_op l m) r
simp_3 implies_op l m r = simp_2 implies_op (simp_2 implies_op l m) r
simp_3 xor_op l m r = simp_2 xor_op (simp_2 xor_op l m) r
simp_3 eq_op l m r =
    if is_true (simp_2 eq_op l m) && is_true (simp_2 eq_op m r) then const_true else unknown
simp_3 distinct_op l m r =
    if is_true (simp_2 distinct_op l m)
      && is_true (simp_2 distinct_op l r)
      && is_true (simp_2 distinct_op m r)
    then const_true
    else unknown
simp_3 _ l m r = unknown

-- result = simp_oper(t, result, p[i]) for i from 1 on, while it is known
unfoldable pub simp_chain : Oper → Node → List Node → Node
unfolding simp_2
simp_chain t result [] = result
simp_chain t result (p ∷ ps) =
    let next = simp_2 t result p in if is_unknown next then unknown else simp_chain t next ps

-- -p[0] -p[1] -p[2] -p[3] ... p[n]
unfoldable pub simp_implies : Bool → List Node → Node
simp_implies is_constant [] = unknown
simp_implies is_constant (p ∷ []) =
    if is_true p then const_true else if is_false p && is_constant then const_false else unknown
simp_implies is_constant (p ∷ q ∷ ps) =
    if is_false p then const_true else simp_implies (is_constant && is_true p) (q ∷ ps)

-- simp_oper(t, p), which is called with four operands or more.
unfoldable pub simp_n : Oper → List Node → Node
unfolding simp_chain simp_implies
simp_n t [] = unknown
simp_n and_op (p ∷ ps) = simp_chain and_op p ps
simp_n or_op (p ∷ ps) = simp_chain or_op p ps
simp_n xor_op (p ∷ ps) = simp_chain xor_op p ps
simp_n implies_op (p ∷ ps) = simp_implies true (p ∷ ps)
simp_n _ (p ∷ ps) = unknown

-- The choice by the number of operands in mkOper, src/frontend/op_parser.cpp, lines 259-271.
unfoldable pub simp_by_size : Oper → List Node → Node
unfolding simp_1 simp_3 simp_n
simp_by_size t (p ∷ []) = simp_1 t p
simp_by_size t (l ∷ r ∷ []) = simp_2 t l r
simp_by_size t (l ∷ m ∷ r ∷ []) = simp_3 t l m r
simp_by_size t ps = simp_n t ps
