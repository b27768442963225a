-- ===== src/Term/Make.antt =====
-- The constructors of terms, as src/frontend/op_parser.cpp builds them: sortParams and mkOper (lines
-- 57-83 and 162-282), mkEq and mkDistinct (443-633), mkNot to mkIte (939-1219), mkLe to mkGt
-- (1894-1957) and negateComp (4808-4839), on Boolean terms and comparisons of integer variables.
-- `preserve` is the option preserved_operators, and `order_key` DAGNode::orderKey.
pub mod Sorting
pub mod Join
pub mod Implies
pub mod Negation
pub mod Closure
pub mod Equality
use smtlibparser.Prelude.{
  ℕ, Bool, true, false, not, ◌&&◌, ◌||◌, Option, none, some, List, [], ◌∷◌, ◌++◌, ltb, length,
  if◌then◌else◌,
}
use smtlibparser.Term.{
  Oper, Sort, int_sort, Node, Nodes, const_true, const_false, unknown, error, bool_var, int_var,
  temp_var, predicate, oper, nil, cons, to_nodes, to_list, is_true, is_false, is_unknown, is_err,
  is_arith_term, sort_of, is_eq_to, is_bool_param, same_node, not_op, and_op, or_op, implies_op,
  xor_op, eq_op, distinct_op, ite_op, lt_op, le_op, gt_op, ge_op,
}
use smtlibparser.Term.Simp.{simp_1, simp_2, simp_3, simp_by_size}

pub is_commutative : Oper → Bool
is_commutative and_op = true
is_commutative or_op = true
is_commutative xor_op = true
is_commutative eq_op = true
is_commutative distinct_op = true
is_commutative _ = false

module _ (order_key : Node → ℕ) where
  -- if(key(a) > key(b)) std::swap(a, b)
  pub swap_if : Node → Node → Node × Node
  swap_if a b = if ltb (order_key b) (order_key a) then (b, a) else (a, b)

  pub insert_by : Node → List Node → List Node
  insert_by p [] = p ∷ []
  insert_by p (q ∷ qs) = if ltb (order_key q) (order_key p) then q ∷ insert_by p qs else p ∷ q ∷ qs

  -- std::stable_sort by the key.
  pub stable_sort : List Node → List Node
  unfolding insert_by
  stable_sort [] = []
  stable_sort (p ∷ ps) = insert_by p (stable_sort ps)

  pub sort_params : List Node → List Node
  unfolding swap_if stable_sort
  sort_params (p ∷ q ∷ []) = let (a, b) = swap_if p q in a ∷ b ∷ []
  sort_params (p ∷ q ∷ r ∷ []) =
      let (p', q') = swap_if p q in
      let (q'', r') = swap_if q' r in let (a, b) = swap_if p' q'' in a ∷ b ∷ r' ∷ []
  sort_params ps = stable_sort ps

-- A loop over the operands of mkAnd and mkOr returns at once, or leaves the operands that matter.
pub data Scan : Type 0 where
  stop : Node → Scan
  keep : List Node → Scan

abbrev pub keep_too : Node → Scan → Scan
keep_too p (stop n) = stop n
keep_too p (keep ps) = keep (p ∷ ps)

-- `skips` is the test for the neutral constant, `absorbs` that for the other one, `zero`.
pub scan : (Node → Bool) → (Node → Bool) → Node → List Node → Scan
scan skips absorbs zero [] = keep []
scan skips absorbs zero (p ∷ ps) =
    let rest = scan skips absorbs zero ps in
    if not (is_bool_param p)
    then stop unknown
    else if is_err p
    then stop p
    else if skips p
    then rest
    else if absorbs p
    then stop zero
    else keep_too p rest

pub contains_node : List Node → Node → Bool
contains_node [] p = false
contains_node (q ∷ qs) p = same_node q p || contains_node qs p

-- Pointer-identity de-duplication; `seen` is the set.
pub dedup : List Node → List Node → List Node
unfolding contains_node
dedup seen [] = []
dedup seen (p ∷ ps) =
    let old = dedup seen ps in
    let new = p ∷ dedup (p ∷ seen) ps in if contains_node seen p then old else new

-- The operands of mkImplies before the last one, without true ones; false or an error returns.
pub scan_premises : List Node → Scan
scan_premises [] = keep []
scan_premises (p ∷ ps) =
    let rest = scan_premises ps in
    if is_err p
    then stop p
    else if is_false p
    then stop const_true
    else if is_true p
    then rest
    else keep_too p rest

pub scan_xor : List Node → Scan
scan_xor [] = keep []
scan_xor (p ∷ ps) =
    let rest = scan_xor ps in
    if is_err p then stop p else if is_false p then rest else keep_too p rest

-- The operands of an integer comparison; the flag is that errors are handed on.
pub scan_sort : Bool → Sort → List Node → Scan
scan_sort errors s [] = keep []
scan_sort errors s (p ∷ ps) =
    let rest = scan_sort errors s ps in
    if errors && is_err p
    then stop p
    else if not (is_eq_to (sort_of p) s)
    then stop unknown
    else keep_too p rest

-- getSort: the sort of the operands, unless all are constants.
pub get_sort : List Node → Option Sort
get_sort [] = none
get_sort (p ∷ ps) = if is_true p || is_false p then get_sort ps else some (sort_of p)

abbrev differs : Option Sort → Node → Bool
differs none p = false
differs (some s) p = not (is_eq_to (sort_of p) s)

-- The loop of mkEq: true is left out.
pub scan_eq : Option Sort → List Node → Scan
scan_eq s [] = keep []
scan_eq s (p ∷ ps) =
    let rest = scan_eq s ps in
    if differs s p then stop unknown else if is_true p then rest else keep_too p rest

-- isArithComp
unfoldable pub is_arith_comp : Oper → Nodes → Bool
is_arith_comp eq_op (cons p ps) = is_arith_term p
is_arith_comp distinct_op (cons p ps) = is_arith_term p
is_arith_comp lt_op ps = true
is_arith_comp le_op ps = true
is_arith_comp gt_op ps = true
is_arith_comp ge_op ps = true
is_arith_comp _ ps = false

-- params without the last, and params.back()
abbrev pub init : Node → List Node → List Node
init p [] = []
init p (q ∷ qs) = p ∷ init q qs

abbrev pub back : Node → List Node → Node
back p [] = p
back p (q ∷ qs) = back q qs

module _ (preserve : Oper → Bool) (order_key : Node → ℕ) where
  pub mk_internal_oper : Oper → List Node → Node
  unfolding is_commutative sort_params
  mk_internal_oper t ps =
      oper t (to_nodes (if is_commutative t then sort_params order_key ps else ps))

  -- mkOper(sort, t, p)
  pub mk_oper : Oper → List Node → Node
  unfolding mk_internal_oper simp_by_size
  mk_oper t [] = unknown
  mk_oper t (p ∷ ps) =
      let res = simp_by_size t (p ∷ ps) in
      if preserve t
      then mk_internal_oper t (p ∷ ps)
      else if is_unknown res
      then mk_internal_oper t (p ∷ ps)
      else res

  -- mkOper(sort, t, p), mkOper(sort, t, l, r) and mkOper(sort, t, l, m, r): `ps` has the operands.
  pub mk_oper_few : Oper → List Node → Node
  unfolding mk_oper mk_internal_oper simp_by_size
  mk_oper_few t ps =
      let res = simp_by_size t ps in
      if preserve t then mk_internal_oper t ps else if is_unknown res then mk_oper t ps else res

  -- mkLt, mkLe, mkGt and mkGe of two operands, with what they give on one node twice.
  pub mk_order : Oper → Node → Node → Node → Node
  unfolding mk_oper_few
  mk_order t on_same l r =
      if not (is_eq_to (sort_of l) (sort_of r))
      then unknown
      else if same_node l r
      then on_same
      else mk_oper_few t (l ∷ r ∷ [])

  -- The operands that are left: none, one or more.
  pub finish : Oper → Node → List Node → Node
  unfolding mk_oper
  finish t unit [] = unit
  finish t unit (p ∷ []) = p
  finish t unit (p ∷ q ∷ ps) = mk_oper t (p ∷ q ∷ ps)

  -- The end of mkEq and mkDistinct on many operands: over 100 of them are not sorted.
  pub mk_chain : Oper → List Node → Node
  unfolding mk_oper
  mk_chain t ps = if ltb 100 (length ps) then oper t (to_nodes ps) else mk_oper t ps

  -- mkEq on the children of a distinction of arithmetic terms. They are integer terms, so that no
  -- operand is a Boolean constant or a negation.
  pub mk_arith_eq : List Node → Node
  unfolding mk_oper_few mk_chain scan_sort
  mk_arith_eq [] = unknown
  mk_arith_eq (l ∷ []) = unknown
  mk_arith_eq (l ∷ r ∷ []) =
      if is_eq_to (sort_of l) (sort_of r) then mk_oper_few eq_op (l ∷ r ∷ []) else unknown
  mk_arith_eq (l ∷ m ∷ r ∷ ps) = elim (scan_sort false int_sort (l ∷ m ∷ r ∷ ps)) [
    | stop n ↦ n
    | keep qs ↦ mk_chain eq_op qs
  ]

  -- mkDistinct on the children of an equality of arithmetic terms.
  pub mk_arith_distinct : List Node → Node
  unfolding mk_chain scan_sort
  mk_arith_distinct [] = unknown
  mk_arith_distinct (l ∷ []) = unknown
  mk_arith_distinct (l ∷ r ∷ ps) = elim (scan_sort true int_sort (l ∷ r ∷ ps)) [
    | stop n ↦ n
    | keep qs ↦ mk_chain distinct_op qs
  ]

  -- negateComp, which mkNot calls on comparisons of integers.
  pub negate_comp : Oper → Nodes → Node
  unfolding mk_arith_eq mk_arith_distinct mk_order
  negate_comp eq_op ps = mk_arith_distinct (to_list ps)
  negate_comp distinct_op ps = mk_arith_eq (to_list ps)
  negate_comp lt_op (cons l (cons r ps)) = mk_order ge_op const_true l r
  negate_comp le_op (cons l (cons r ps)) = mk_order gt_op const_false l r
  negate_comp gt_op (cons l (cons r ps)) = mk_order le_op const_true l r
  negate_comp ge_op (cons l (cons r ps)) = mk_order lt_op const_false l r
  negate_comp _ ps = unknown

  pub mk_not : Node → Node
  unfolding negate_comp mk_oper_few is_arith_comp
  mk_not (oper not_op (cons p ps)) = p
  mk_not const_true = const_false
  mk_not const_false = const_true
  mk_not (oper t ps) =
      if not (is_bool_param (oper t ps))
      then unknown
      else if is_arith_comp t ps
      then negate_comp t ps
      else mk_oper_few not_op (oper t ps ∷ [])
  mk_not p = if is_bool_param p then mk_oper_few not_op (p ∷ []) else unknown

  -- What follows the loop.
  pub join_end : Oper → Node → Scan → Node
  unfolding finish dedup
  join_end t unit (stop n) = n
  join_end t unit (keep qs) = finish t unit (dedup [] qs)

  -- What mkAnd and mkOr share: they differ in the constants.
  pub mk_join : Oper → (Node → Bool) → (Node → Bool) → Node → Node → List Node → Node
  unfolding scan join_end
  mk_join t skips absorbs unit zero [] = unit
  mk_join t skips absorbs unit zero (p ∷ []) = p
  mk_join t skips absorbs unit zero (p ∷ q ∷ ps) =
      join_end t unit (scan skips absorbs zero (p ∷ q ∷ ps))

  pub mk_and : List Node → Node
  unfolding mk_join
  mk_and ps = mk_join and_op is_true is_false const_true const_false ps

  pub mk_or : List Node → Node
  unfolding mk_join
  mk_or ps = mk_join or_op is_false is_true const_false const_true ps

  -- What follows the loop of mkImplies, on the premises that it left.
  pub implies_end : Node → Scan → Node
  unfolding mk_oper
  implies_end last (stop n) = n
  implies_end last (keep []) = last
  implies_end last (keep (r ∷ rs)) =
      if is_err last then last else mk_oper implies_op (r ∷ rs ++ last ∷ [])

  pub mk_implies : List Node → Node
  unfolding scan_premises implies_end
  mk_implies [] = unknown
  mk_implies (p ∷ []) = unknown
  mk_implies (p ∷ q ∷ ps) = implies_end (back p (q ∷ ps)) (scan_premises (init p (q ∷ ps)))

  pub mk_xor : List Node → Node
  unfolding scan_xor mk_oper
  mk_xor [] = const_false
  mk_xor (p ∷ []) = p
  mk_xor (p ∷ q ∷ ps) = elim (scan_xor (p ∷ q ∷ ps)) [
    | stop n ↦ n
    | keep qs ↦ finish xor_op const_false qs
  ]

  pub mk_ite : Node → Node → Node → Node
  unfolding mk_oper_few
  mk_ite c l r =
      if is_err c
      then c
      else if is_err l
      then l
      else if is_err r
      then r
      else mk_oper_few ite_op (c ∷ l ∷ r ∷ [])

  -- mkEq of two operands that are not both negations.
  pub mk_eq_plain : Node → Node → Node
  unfolding mk_not mk_oper_few
  mk_eq_plain l r =
      if not (is_eq_to (sort_of l) (sort_of r))
      then unknown
      else if is_true l
      then r
      else if is_false l
      then mk_not r
      else if is_true r
      then l
      else if is_false r
      then mk_not l
      else mk_oper_few eq_op (l ∷ r ∷ [])

  pub mk_eq : Node → Node → Node
  unfolding mk_eq_plain
  mk_eq (oper not_op (cons l ls)) (oper not_op (cons r rs)) = mk_eq l r
  mk_eq l r = mk_eq_plain l r

  -- mkDistinct of two operands that are no negations.
  pub mk_distinct_plain : Node → Node → Node
  unfolding mk_not mk_oper_few
  mk_distinct_plain l r =
      if not (is_eq_to (sort_of l) (sort_of r))
      then unknown
      else if is_true l
      then mk_not r
      else if is_false l
      then r
      else if is_true r
      then mk_not l
      else if is_false r
      then l
      else mk_oper_few distinct_op (l ∷ r ∷ [])

  -- mkDistinct of two operands, which takes a negation off either side.
  pub mk_distinct : Node → Node → Node
  unfolding mk_distinct_plain
  mk_distinct (oper not_op (cons l ls)) (oper not_op (cons r rs)) = mk_distinct l r
  mk_distinct (oper not_op (cons l ls)) r =
      let rest = mk_distinct l r in
      if not (is_bool_param r)
      then unknown
      else if is_true r
      then l
      else if is_false r
      then oper not_op (cons l ls)
      else rest
  mk_distinct l (oper not_op (cons r rs)) =
      let rest = mk_distinct l r in
      if not (is_bool_param l)
      then unknown
      else if is_true l
      then r
      else if is_false l
      then oper not_op (cons r rs)
      else rest
  mk_distinct l r = mk_distinct_plain l r

  -- mkEq of a vector, past its check of the number of operands.
  pub mk_eq_all : List Node → Node
  unfolding mk_eq mk_chain scan_eq get_sort
  mk_eq_all [] = unknown
  mk_eq_all (l ∷ []) = unknown
  mk_eq_all (l ∷ r ∷ []) = mk_eq l r
  mk_eq_all (l ∷ m ∷ r ∷ ps) = elim (scan_eq (get_sort (l ∷ m ∷ r ∷ ps)) (l ∷ m ∷ r ∷ ps)) [
    | stop n ↦ n
    | keep [] ↦ const_true
    | keep (q ∷ []) ↦ q
    | keep (q ∷ q' ∷ qs) ↦ mk_chain eq_op (q ∷ q' ∷ qs)
  ]
