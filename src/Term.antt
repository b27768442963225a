-- ===== src/Term.antt =====
-- Boolean terms: the nodes of include/somtparser/ir/dag.h that the Boolean operators and the
-- comparisons of integer variables build. Nodes are hash-consed, so identity is structural.
pub mod Identity
pub mod Meaning
pub mod Simp
pub mod Make
pub mod Covered
pub mod WellSorted
mod Tests
use smtlibparser.Prelude.{
  ℕ, Bool, true, false, ◌&&◌, List, [], ◌∷◌, Bytes, same, ◌==◌, if◌then◌else◌,
}

-- The kinds NT_NOT, NT_AND, NT_OR, NT_IMPLIES, NT_XOR, NT_EQ, NT_DISTINCT, NT_ITE, NT_LT, NT_LE,
-- NT_GT and NT_GE.
pub data Oper : Type 0 where
  not_op and_op or_op implies_op xor_op eq_op distinct_op ite_op lt_op le_op gt_op ge_op : Oper

pub data Sort : Type 0 where
  bool_sort int_sort null_sort : Sort

-- `bool_var` and `int_var` are NT_VAR, `temp_var` is NT_TEMP_VAR of the Boolean sort, and
-- `predicate` an application of an uninterpreted predicate.
mutual
  pub data Node : Type 0 where
    const_true const_false unknown error : Node
    bool_var int_var : Bytes → Node
    temp_var predicate : ℕ → Node
    oper : Oper → Nodes → Node

  pub data Nodes : Type 0 where
    nil : Nodes
    cons : Node → Nodes → Nodes

-- std::vector<std::shared_ptr<DAGNode>> as it is passed, and as a node keeps it.
abbrev pub to_nodes : List Node → Nodes
to_nodes [] = nil
to_nodes (p ∷ ps) = cons p (to_nodes ps)

abbrev pub to_list : Nodes → List Node
to_list nil = []
to_list (cons p ps) = p ∷ to_list ps

abbrev pub is_true : Node → Bool
is_true const_true = true
is_true _ = false

abbrev pub is_false : Node → Bool
is_false const_false = true
is_false _ = false

abbrev pub is_unknown : Node → Bool
is_unknown unknown = true
is_unknown _ = false

abbrev pub is_err : Node → Bool
is_err error = true
is_err _ = false

-- isVBool
abbrev pub is_v_bool : Node → Bool
is_v_bool (bool_var x) = true
is_v_bool (temp_var n) = true
is_v_bool _ = false

-- isVInt: of the nodes with an Int sort, these are the arithmetic terms of the model.
abbrev pub is_arith_term : Node → Bool
is_arith_term (int_var x) = true
is_arith_term _ = false

-- getSort(); an ite has the sort of its second child.
unfoldable mutual
  pub sort_of : Node → Sort
  sort_of const_true = bool_sort
  sort_of const_false = bool_sort
  sort_of unknown = null_sort
  sort_of error = null_sort
  sort_of (bool_var x) = bool_sort
  sort_of (int_var x) = int_sort
  sort_of (temp_var n) = bool_sort
  sort_of (predicate n) = bool_sort
  sort_of (oper ite_op (cons c ps)) = sort_of_first ps
  sort_of (oper op ps) = bool_sort

  pub sort_of_first : Nodes → Sort
  sort_of_first nil = null_sort
  sort_of_first (cons p ps) = sort_of p

abbrev pub is_bool : Sort → Bool
is_bool bool_sort = true
is_bool _ = false

-- Sort::isEqTo
abbrev pub is_eq_to : Sort → Sort → Bool
is_eq_to bool_sort bool_sort = true
is_eq_to int_sort int_sort = true
is_eq_to null_sort null_sort = true
is_eq_to _ _ = false

abbrev pub is_bool_param : Node → Bool
is_bool_param p = is_bool (sort_of p)

pub same_oper : Oper → Oper → Bool
same_oper not_op not_op = true
same_oper and_op and_op = true
same_oper or_op or_op = true
same_oper implies_op implies_op = true
same_oper xor_op xor_op = true
same_oper eq_op eq_op = true
same_oper distinct_op distinct_op = true
same_oper ite_op ite_op = true
same_oper lt_op lt_op = true
same_oper le_op le_op = true
same_oper gt_op gt_op = true
same_oper ge_op ge_op = true
same_oper _ _ = false

-- a == b, on the pointers of two hash-consed nodes.
mutual
  pub same_node : Node → Node → Bool
  same_node const_true const_true = true
  same_node const_false const_false = true
  same_node unknown unknown = true
  same_node error error = true
  same_node (bool_var x) (bool_var y) = same x y
  same_node (int_var x) (int_var y) = same x y
  same_node (temp_var m) (temp_var n) = m == n
  same_node (predicate m) (predicate n) = m == n
  same_node (oper f ps) (oper g qs) = same_oper f g && same_nodes ps qs
  same_node _ _ = false

  pub same_nodes : Nodes → Nodes → Bool
  same_nodes nil nil = true
  same_nodes (cons p ps) (cons q qs) = same_node p q && same_nodes ps qs
  same_nodes _ _ = false
