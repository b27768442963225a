-- ===== src/Convert/Tseitin.antt =====
-- The Tseitin transformation: src/frontend/conv_parser.cpp, lines 292-652, on formulas without let.
-- A list of clauses, and a map, has what was put in last first.
pub mod Gates
pub mod Junctions
pub mod Sound
pub mod Chain
pub mod Whole
mod Tests
use smtlibparser.Prelude.{
  ℕ, suc, Bool, true, false, not, ◌&&◌, ◌||◌, Option, none, some, List, [], ◌∷◌, if◌then◌else◌, map,
}
use smtlibparser.Term.{
  Oper, Node, Nodes, const_true, const_false, unknown, error, bool_var, int_var, temp_var,
  predicate, oper, nil, cons, is_bool_param, is_v_bool, to_list, not_op, and_op, or_op, implies_op,
  xor_op, eq_op, distinct_op, ite_op, lt_op, le_op, gt_op, ge_op,
}
use smtlibparser.Term.Make.{mk_not, mk_or, is_arith_comp}
use smtlibparser.Convert.Nnf.{NnfMap, find}

-- The counter of temp variables, the vector of clauses, the map of a call, and the three maps of
-- the parser.
pub record Cnf : Type 0 where
  pub next : ℕ
  pub clauses : List Node
  pub visited : NnfMap
  pub cnf_map : NnfMap
  pub cnf_atom_map : NnfMap
  pub cnf_bool_var_map : NnfMap

-- isLiteral
abbrev pub is_literal : Node → Bool
is_literal const_true = true
is_literal const_false = true
is_literal (oper not_op (cons p ps)) = is_v_bool p
is_literal p = is_v_bool p

pub bool_children : Nodes → Bool
bool_children nil = true
bool_children (cons p ps) = is_bool_param p && bool_children ps

-- visited[expr] = result
abbrev pub visit : Node → Node × Cnf → Node × Cnf
visit e (r, s) = (r, record s { visited = (e, r) ∷ s.visited })

-- mkTempVar of the Boolean sort, whose counter makes every name new.
abbrev pub temp : Cnf → Node
temp s = temp_var s.next

abbrev pub bump : Cnf → Cnf
bump s = record s { next = suc s.next }

-- A failed condAssert throws; the model gives the node of an error.
abbrev pub thrown : Cnf → Node × Cnf
thrown s = (error, s)

-- condAssert(child->isLiteral()), and the child.
abbrev pub literal_or_thrown : Node → Cnf → Node × Cnf
literal_or_thrown a s = if is_literal a then (a, s) else thrown s

-- Whether a case converts the operands.
abbrev pub converts : Oper → Nodes → Bool
converts eq_op ps = bool_children ps
converts distinct_op (cons p (cons q nil)) = is_bool_param p && is_bool_param q
converts distinct_op ps = false
converts ite_op (cons c (cons l (cons r ps))) = is_bool_param l && is_bool_param r
converts ite_op ps = false
converts _ ps = true

abbrev pub any_thrown : List Node → Bool
any_thrown [] = false
any_thrown (error ∷ rs) = true
any_thrown (r ∷ rs) = any_thrown rs

-- What is thrown in the conversion of an operand goes through.
abbrev pub pass_on : Oper → Nodes → List Node × Cnf → Node × Cnf → Node × Cnf
pass_on t ps (rs, s) result = if converts t ps && any_thrown rs then thrown s else result

module _ (preserve : Oper → Bool) (key : Node → ℕ) where
  abbrev pub neg : Node → Node
  neg p = mk_not preserve key p

  -- clauses.emplace_back(mkOr(literals))
  abbrev pub add : List Node → Cnf → Cnf
  add ps s = record s { clauses = mk_or preserve key ps ∷ s.clauses }

  -- toTseitinXor
  pub to_tseitin_xor : Node → Node → Cnf → Node × Cnf
  to_tseitin_xor a b s =
      let c = temp s in
      let s1 = add (neg c ∷ neg a ∷ neg b ∷ []) (bump s) in
      let s2 = add (neg c ∷ a ∷ b ∷ []) s1 in
      let s3 = add (c ∷ neg a ∷ b ∷ []) s2 in (c, add (c ∷ a ∷ neg b ∷ []) s3)

  -- toTseitinEq
  pub to_tseitin_eq : Node → Node → Cnf → Node × Cnf
  to_tseitin_eq a b s =
      let c = temp s in
      let s1 = add (neg c ∷ a ∷ neg b ∷ []) (bump s) in
      let s2 = add (neg c ∷ neg a ∷ b ∷ []) s1 in
      let s3 = add (c ∷ a ∷ b ∷ []) s2 in (c, add (c ∷ neg a ∷ neg b ∷ []) s3)

  -- toTseitinDistinct
  pub to_tseitin_distinct : Node → Node → Cnf → Node × Cnf
  to_tseitin_distinct a b s =
      let c = temp s in
      let s1 = add (neg c ∷ a ∷ b ∷ []) (bump s) in
      let s2 = add (neg c ∷ neg a ∷ neg b ∷ []) s1 in
      let s3 = add (c ∷ neg a ∷ b ∷ []) s2 in (c, add (c ∷ a ∷ neg b ∷ []) s3)

  -- The case of an ite.
  pub to_tseitin_ite : Node → Node → Node → Cnf → Node × Cnf
  to_tseitin_ite a b c s =
      let d = temp s in
      let s1 = add (neg d ∷ neg a ∷ b ∷ []) (bump s) in
      let s2 = add (neg d ∷ a ∷ c ∷ []) s1 in
      let s3 = add (d ∷ neg a ∷ neg b ∷ []) s2 in (d, add (d ∷ a ∷ neg c ∷ []) s3)

  -- The case of a negation.
  pub to_tseitin_not : Node → Cnf → Node × Cnf
  to_tseitin_not a s = let c = temp s in (c, add (a ∷ c ∷ []) (add (neg c ∷ neg a ∷ []) (bump s)))

  -- The loops over the children of a conjunction and of a disjunction.
  pub add_each_and : Node → List Node → Cnf → Cnf
  add_each_and c [] s = s
  add_each_and c (p ∷ ps) s = add_each_and c ps (add (neg c ∷ p ∷ []) s)

  pub add_each_or : Node → List Node → Cnf → Cnf
  add_each_or c [] s = s
  add_each_or c (p ∷ ps) s = add_each_or c ps (add (neg p ∷ c ∷ []) s)

  -- mkNot of every child, and `c` at the end.
  abbrev pub negated_then : List Node → Node → List Node
  negated_then [] c = c ∷ []
  negated_then (p ∷ ps) c = neg p ∷ negated_then ps c

  abbrev pub children_then : List Node → Node → List Node
  children_then [] c = c ∷ []
  children_then (p ∷ ps) c = p ∷ children_then ps c

  -- The children of an implication, all but the last one negated.
  abbrev pub premises_negated : List Node → List Node
  premises_negated [] = []
  premises_negated (p ∷ []) = p ∷ []
  premises_negated (p ∷ q ∷ ps) = neg p ∷ premises_negated (q ∷ ps)

  -- The cases of a conjunction, a disjunction and an implication on converted children: a new
  -- variable with its clauses; one child alone is handed on.
  pub to_tseitin_and : List Node → Cnf → Node × Cnf
  unfolding add_each_and
  to_tseitin_and ps s = let c = temp s in (c, add (negated_then ps c) (add_each_and c ps (bump s)))

  pub to_tseitin_or : List Node → Cnf → Node × Cnf
  unfolding add_each_or
  to_tseitin_or ps s =
      let c = temp s in (c, add (children_then ps (neg c)) (add_each_or c ps (bump s)))

  pub to_tseitin_implies : List Node → Cnf → Node × Cnf
  to_tseitin_implies ps s =
      let c = temp s in (c, add (negated_then ps c) (add (neg c ∷ premises_negated ps) (bump s)))

  pub fold_xor : Node → List Node → Cnf → Node × Cnf
  unfolding to_tseitin_xor
  fold_xor result [] s = (result, s)
  fold_xor result (p ∷ ps) s =
      let (result', s') = to_tseitin_xor result p s in fold_xor result' ps s'

  -- An atom stands for a variable, and its negation for the variable's negation.
  pub name_atom : Node → Cnf → Node × Cnf
  name_atom e s =
      let c = temp s in
      (
        c,
        record (bump s) {
          cnf_map = (neg e, neg c) ∷ (e, c) ∷ s.cnf_map;
          cnf_atom_map = (neg c, neg e) ∷ (c, e) ∷ s.cnf_atom_map;
          cnf_bool_var_map = (neg e, neg c) ∷ (e, c) ∷ s.cnf_bool_var_map;
        },
      )

  -- What a map has, or what the call gives that is made where it has nothing.
  pub or_else : Option Node → Cnf → Node × Cnf → Node × Cnf
  or_else (some r) s call = (r, s)
  or_else none s call = call

  pub abstract_atom : Node → Cnf → Node × Cnf
  unfolding or_else name_atom
  abstract_atom e s = or_else (find s.cnf_map e) s (name_atom e s)

  -- The cases of the operators. `converted` has the children in turn and the state after them, and
  -- `chain` the equations of the first child with each other one, where there are three or more.
  -- An exclusive disjunction of no operands and a distinction of less than two, whose missing operand
  -- the source reads, are given false here, and the laws leave them out.
  pub to_tseitin_case : Oper → Nodes → Cnf → List Node × Cnf → List Node × Cnf → Node × Cnf
  unfolding to_tseitin_not to_tseitin_and to_tseitin_or to_tseitin_implies fold_xor to_tseitin_eq
      to_tseitin_distinct to_tseitin_ite
  to_tseitin_case not_op ps s (a ∷ rest, s') chain = visit (oper not_op ps) (to_tseitin_not a s')
  to_tseitin_case and_op ps s (a ∷ [], s') chain = literal_or_thrown a s'
  to_tseitin_case and_op ps s (rest, s') chain = visit (oper and_op ps) (to_tseitin_and rest s')
  to_tseitin_case or_op ps s (a ∷ [], s') chain = literal_or_thrown a s'
  to_tseitin_case or_op ps s (rest, s') chain = visit (oper or_op ps) (to_tseitin_or rest s')
  to_tseitin_case implies_op ps s (a ∷ [], s') chain = literal_or_thrown a s'
  to_tseitin_case implies_op ps s (rest, s') chain =
      visit (oper implies_op ps) (to_tseitin_implies rest s')
  to_tseitin_case xor_op ps s (a ∷ rest, s') chain = visit (oper xor_op ps) (fold_xor a rest s')
  to_tseitin_case eq_op ps s (a ∷ [], s') chain =
      if bool_children ps then visit (oper eq_op ps) (a, s') else thrown s
  to_tseitin_case eq_op ps s (a ∷ b ∷ [], s') chain =
      if bool_children ps then visit (oper eq_op ps) (to_tseitin_eq a b s') else thrown s
  to_tseitin_case eq_op ps s converted (es, s') =
      if bool_children ps then visit (oper eq_op ps) (to_tseitin_and es s') else thrown s
  to_tseitin_case distinct_op ps s (a ∷ b ∷ [], s') chain =
      if bool_children ps
      then visit (oper distinct_op ps) (to_tseitin_distinct a b s')
      else (const_false, s)
  to_tseitin_case distinct_op (cons p (cons q ps)) s converted chain =
      if is_bool_param p && is_bool_param q && not (bool_children ps)
      then (oper distinct_op (cons p (cons q ps)), s)
      else (const_false, s)
  to_tseitin_case ite_op (cons c (cons l (cons r ps))) s (a ∷ b ∷ d ∷ rest, s') chain =
      if is_bool_param l && is_bool_param r
      then visit (oper ite_op (cons c (cons l (cons r ps)))) (to_tseitin_ite a b d s')
      else (const_false, s)
  to_tseitin_case _ ps s converted chain = (const_false, s)

  mutual
    unfolding to_tseitin_case abstract_atom

    -- toTseitinCNF(expr, visited, clauses)
    pub to_tseitin : Node → Cnf → Node × Cnf
    to_tseitin const_true s = (const_true, s)
    to_tseitin const_false s = (const_false, s)
    to_tseitin (bool_var x) s = (bool_var x, s)
    to_tseitin (temp_var n) s = (temp_var n, s)
    to_tseitin (predicate n) s = abstract_atom (predicate n) s
    to_tseitin (oper t ps) s =
        let converted = to_tseitin_all ps s in
        let chain = to_tseitin_chain ps s in
        if is_arith_comp t ps
        then abstract_atom (oper t ps) s
        else if is_literal (oper t ps)
        then (oper t ps, s)
        else or_else (find s.visited (oper t ps)) s
            (pass_on t ps converted (to_tseitin_case t ps s converted chain))
    to_tseitin p s = (const_false, s)

    pub to_tseitin_all : Nodes → Cnf → List Node × Cnf
    to_tseitin_all nil s = ([], s)
    to_tseitin_all (cons p ps) s =
        let (a, s1) = to_tseitin p s in let (rest, s2) = to_tseitin_all ps s1 in (a ∷ rest, s2)

    pub to_tseitin_chain : Nodes → Cnf → List Node × Cnf
    to_tseitin_chain nil s = ([], s)
    to_tseitin_chain (cons p ps) s = let (a, s1) = to_tseitin p s in to_tseitin_equals a ps s1

    pub to_tseitin_equals : Node → Nodes → Cnf → List Node × Cnf
    to_tseitin_equals a nil s = ([], s)
    to_tseitin_equals a (cons p ps) s =
        let (b, s1) = to_tseitin p s in
        let (c, s2) = to_tseitin_eq a b s1 in
        let (cs, s3) = to_tseitin_equals a ps s2 in (c ∷ cs, s3)
