-- ===== src/Convert/Nnf.antt =====
-- Negation normal form: toNNF, src/frontend/conv_parser.cpp, lines 1617-1728, on formulas without
-- let. The map of results `nnf_map` is a list of pairs, the last write first.
pub mod Form
pub mod Meaning
pub mod Cache
use smtlibparser.Prelude.{
  ℕ, Bool, true, false, not, ◌&&◌, Option, none, some, List, [], ◌∷◌, if◌then◌else◌,
}
use smtlibparser.Term.{
  Oper, Node, Nodes, const_true, const_false, unknown, error, bool_var, int_var, temp_var,
  predicate, oper, nil, cons, is_bool_param, same_node, not_op, and_op, or_op, implies_op, xor_op,
  eq_op, distinct_op, ite_op, lt_op, le_op, gt_op, ge_op,
}
use smtlibparser.Term.Make.{mk_not, mk_and, mk_or}

-- What toNNF does not look into: an atom, and an exclusive disjunction, an equation or a distinction
-- of any formulas.
abbrev pub is_nnf_leaf : Node → Bool
is_nnf_leaf (bool_var x) = true
is_nnf_leaf (temp_var n) = true
is_nnf_leaf (predicate n) = true
is_nnf_leaf (oper xor_op ps) = true
is_nnf_leaf (oper eq_op ps) = true
is_nnf_leaf (oper distinct_op ps) = true
is_nnf_leaf (oper lt_op ps) = true
is_nnf_leaf (oper le_op ps) = true
is_nnf_leaf (oper gt_op ps) = true
is_nnf_leaf (oper ge_op ps) = true
is_nnf_leaf _ = false

-- Conjunctions and disjunctions of constants, leaves and negated leaves.
unfoldable mutual
  pub is_nnf : Node → Bool
  is_nnf const_true = true
  is_nnf const_false = true
  is_nnf (oper not_op (cons p nil)) = is_nnf_leaf p
  is_nnf (oper and_op ps) = all_nnf ps
  is_nnf (oper or_op ps) = all_nnf ps
  is_nnf p = is_nnf_leaf p

  pub all_nnf : Nodes → Bool
  all_nnf nil = true
  all_nnf (cons p ps) = is_nnf p && all_nnf ps

abbrev pub NnfMap : Type 0
NnfMap = List (Node × Node)

unfoldable pub find : NnfMap → Node → Option Node
find [] e = none
find ((k, r) ∷ m) e = if same_node k e then some r else find m e

module _ (preserve : Oper → Bool) (key : Node → ℕ) where
  mutual
    -- toNNF(expr, is_not)
    pub to_nnf : Node → Bool → Node
    to_nnf (oper not_op (cons p ps)) is_not = to_nnf p (not is_not)
    to_nnf (oper and_op ps) is_not =
        let children = to_nnf_all ps is_not in
        if is_not then mk_or preserve key children else mk_and preserve key children
    to_nnf (oper or_op ps) is_not =
        let children = to_nnf_all ps is_not in
        if is_not then mk_and preserve key children else mk_or preserve key children
    to_nnf (oper implies_op (cons a (cons b ps))) is_not =
        let children = to_nnf a (not is_not) ∷ to_nnf b is_not ∷ [] in
        if is_not then mk_and preserve key children else mk_or preserve key children
    to_nnf (oper ite_op (cons a (cons b (cons c ps)))) is_not =
        let left = mk_and preserve key (to_nnf a false ∷ to_nnf b is_not ∷ []) in
        let right = mk_and preserve key (to_nnf a true ∷ to_nnf c is_not ∷ []) in
        let other = oper ite_op (cons a (cons b (cons c ps))) in
        if is_bool_param b
        then mk_or preserve key (left ∷ right ∷ [])
        else if is_not
        then mk_not preserve key other
        else other
    to_nnf p is_not = if is_not then mk_not preserve key p else p

    pub to_nnf_all : Nodes → Bool → List Node
    to_nnf_all nil is_not = []
    to_nnf_all (cons p ps) is_not = to_nnf p is_not ∷ to_nnf_all ps is_not

  -- What the map has for `e`, or a new entry.
  pub recall : NnfMap → Node → Option Node → Node × NnfMap
  unfolding to_nnf
  recall m e (some r) = (r, m)
  recall m e none = (to_nnf e false, (e, to_nnf e false) ∷ m)

  -- toNNF(expr)
  pub to_nnf_cached : NnfMap → Node → Node × NnfMap
  unfolding find recall
  to_nnf_cached m e = recall m e (find m e)

  -- toNNF(exprs)
  pub to_nnf_conjunction : NnfMap → List Node → Node × NnfMap
  unfolding to_nnf_cached
  to_nnf_conjunction m es =
      let target = mk_and preserve key es in
      let (result, m') = to_nnf_cached m target in (result, (target, result) ∷ m')
