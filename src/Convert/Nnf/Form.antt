-- ===== src/Convert/Nnf/Form.antt =====
-- The form of toNNF's results: src/frontend/conv_parser.cpp, lines
-- 1617-1728.
use smtlibparser.Prelude.{
  ℕ, ◌≡◌, refl, Bytes, Bool, true, false, not, List, [], ◌∷◌, arith, if◌then◌else◌, &&_parts,
}
use smtlibparser.Term.{
  Oper, Node, Nodes, const_true, const_false, unknown, error, int_var, oper, nil, cons,
  is_bool_param, sort_of, to_nodes, not_op, and_op, or_op, implies_op, eq_op, distinct_op, ite_op,
  lt_op, le_op, gt_op, ge_op,
}
use smtlibparser.Term.WellSorted.{well_sorted, binary, well_sorted-covered}
use smtlibparser.Term.Covered.{covered, all_covered, covered-is_bool_param}
use smtlibparser.Term.Make.{is_arith_comp, mk_not, mk_and, mk_or}
use smtlibparser.Term.Make.Join.{all_bool}
use smtlibparser.Term.Make.Negation.Form.{is_not, mk_not_constants, mk_not_closed}
use smtlibparser.Term.Make.Closure.{all_of, mk_and_closed, mk_or_closed}
use smtlibparser.Convert.Nnf.{is_nnf, all_nnf, is_nnf_leaf, to_nnf, to_nnf_all}

is_nnf-is_bool_param : (p : Node) → is_nnf p ≡ true → is_bool_param p ≡ true
unfolding is_nnf sort_of
is_nnf-is_bool_param (int_var x) h = cc
is_nnf-is_bool_param unknown h = cc
is_nnf-is_bool_param error h = cc
is_nnf-is_bool_param (oper ite_op ps) h = cc
is_nnf-is_bool_param _ h = refl

pub all_nnf-all_bool : (ps : List Node) → all_of is_nnf ps ≡ true → all_bool ps ≡ true
all_nnf-all_bool [] h = refl
all_nnf-all_bool (p ∷ ps) h = ground (arith, is_nnf-is_bool_param p, all_nnf-all_bool ps)

all_nnf-to_nodes : (ps : List Node) → all_of is_nnf ps ≡ true → all_nnf (to_nodes ps) ≡ true
unfolding is_nnf
all_nnf-to_nodes [] h = refl
all_nnf-to_nodes (p ∷ ps) h = ground (arith, all_nnf-to_nodes ps)

is_nnf_of_leaf : (p : Node) → is_nnf_leaf p ≡ true → is_nnf p ≡ true
unfolding is_nnf
is_nnf_of_leaf const_true h = refl
is_nnf_of_leaf const_false h = refl
is_nnf_of_leaf (oper not_op ps) h = cc
is_nnf_of_leaf (oper and_op ps) h = cc
is_nnf_of_leaf (oper or_op ps) h = cc
is_nnf_of_leaf p h = h

comparison-is_nnf :
    (t : Oper) (x y : Bytes)
    → is_arith_comp t (cons (int_var x) (cons (int_var y) nil)) ≡ true
    → is_nnf (oper t (cons (int_var x) (cons (int_var y) nil))) ≡ true
unfolding is_nnf is_arith_comp
comparison-is_nnf lt_op x y h = refl
comparison-is_nnf le_op x y h = refl
comparison-is_nnf gt_op x y h = refl
comparison-is_nnf ge_op x y h = refl
comparison-is_nnf eq_op x y h = refl
comparison-is_nnf distinct_op x y h = refl
comparison-is_nnf _ x y h = cc

leaf-is_not : (p : Node) → is_nnf_leaf p ≡ true → is_not p ≡ false
leaf-is_not (oper not_op ps) h = cc
leaf-is_not _ h = refl

module _ (preserve : Oper → Bool) (key : Node → ℕ) where
  and_form : (ps : List Node) → all_of is_nnf ps ≡ true → is_nnf (mk_and preserve key ps) ≡ true
  unfolding is_nnf
  and_form ps h =
      mk_and_closed is_nnf preserve key (refl, refl, all_nnf-to_nodes) ps (all_nnf-all_bool ps h) h

  or_form : (ps : List Node) → all_of is_nnf ps ≡ true → is_nnf (mk_or preserve key ps) ≡ true
  unfolding is_nnf
  or_form ps h =
      mk_or_closed is_nnf preserve key (refl, refl, all_nnf-to_nodes) ps (all_nnf-all_bool ps h) h

  pub and_pair_form :
      (p q : Node)
      → is_nnf p ≡ true
      → is_nnf q ≡ true
      → is_nnf (mk_and preserve key (p ∷ q ∷ [])) ≡ true
  and_pair_form p q hp hq = and_form (p ∷ q ∷ []) (ground arith)

  pub or_pair_form :
      (p q : Node)
      → is_nnf p ≡ true
      → is_nnf q ≡ true
      → is_nnf (mk_or preserve key (p ∷ q ∷ [])) ≡ true
  or_pair_form p q hp hq = or_form (p ∷ q ∷ []) (ground arith)

  leaf_form :
      (p : Node) (n : Bool)
      → covered p ≡ true
      → is_nnf_leaf p ≡ true
      → is_nnf (if n then mk_not preserve key p else p) ≡ true
  unfolding is_nnf
  leaf_form p true h a =
      mk_not_closed is_nnf preserve key (refl, refl, comparison-is_nnf) p h (leaf-is_not p a) a
  leaf_form p false h a = is_nnf_of_leaf p a

  mutual
    unfolding to_nnf covered is_nnf

    pub form : (p : Node) (n : Bool) → covered p ≡ true → is_nnf (to_nnf preserve key p n) ≡ true
    form const_true true h = rw ((mk_not_constants preserve key).0) refl
    form const_true false h = refl
    form const_false true h = rw ((mk_not_constants preserve key).1) refl
    form const_false false h = refl
    form unknown n h = cc
    form error n h = cc
    form (int_var x) n h = cc
    form (oper not_op (cons p nil)) n h = form p (not n) h
    form (oper not_op nil) n h = cc
    form (oper not_op (cons p (cons q ps))) n h = cc
    form (oper and_op ps) true h = or_form _ (form_all ps true h)
    form (oper and_op ps) false h = and_form _ (form_all ps false h)
    form (oper or_op ps) true h = and_form _ (form_all ps true h)
    form (oper or_op ps) false h = or_form _ (form_all ps false h)
    form (oper implies_op nil) n h = cc
    form (oper implies_op (cons a nil)) n h = cc
    form (oper implies_op (cons a (cons b (cons c ps)))) n h = cc
    form (oper implies_op (cons a (cons b nil))) true h =
        let (ha, hb) = &&_parts _ _ h in
        and_pair_form (to_nnf preserve key a false) (to_nnf preserve key b true) (form a false ha)
          (form b true hb)
    form (oper implies_op (cons a (cons b nil))) false h =
        let (ha, hb) = &&_parts _ _ h in
        or_pair_form (to_nnf preserve key a true) (to_nnf preserve key b false) (form a true ha)
          (form b false hb)
    form (oper ite_op nil) n h = cc
    form (oper ite_op (cons a nil)) n h = cc
    form (oper ite_op (cons a (cons b nil))) n h = cc
    form (oper ite_op (cons a (cons b (cons c (cons d ps))))) n h = cc
    form (oper ite_op (cons a (cons b (cons c nil)))) n h =
        let (ha, hbc) = &&_parts _ _ h in
        let (hb, hc) = &&_parts _ _ hbc in
        let a1 = to_nnf preserve key a false in
        let a2 = to_nnf preserve key a true in
        let b' = to_nnf preserve key b n in
        let c' = to_nnf preserve key c n in
        let left = and_pair_form a1 b' (form a false ha) (form b n hb) in
        let right = and_pair_form a2 c' (form a true ha) (form c n hc) in
        rw (covered-is_bool_param b hb) (
          or_pair_form (mk_and preserve key (a1 ∷ b' ∷ [])) (mk_and preserve key (a2 ∷ c' ∷ []))
            left right)
    form p n h = leaf_form p n h refl

    pub form_all :
        (ps : Nodes) (n : Bool)
        → all_covered ps ≡ true
        → all_of is_nnf (to_nnf_all preserve key ps n) ≡ true
    form_all nil n h = refl
    form_all (cons p ps) n h =
        let (hp, hps) = &&_parts _ _ h in rw (form p n hp) (form_all ps n hps)

  -- What toNNF gives for a covered formula has the form.
  pub to_nnf_form :
      (p : Node) (n : Bool) → covered p ≡ true → is_nnf (to_nnf preserve key p n) ≡ true
  to_nnf_form p n h = form p n h

  -- For a well-sorted formula in which every implication has two operands and every comparison of
  -- integers compares two variables, toNNF gives conjunctions and disjunctions, nested, of constants,
  -- leaves and negated leaves only: no implication, no ite and no negation of a conjunction, of a
  -- disjunction or of a negation is left outside the leaves. A leaf is a variable, a predicate, a
  -- comparison of integers, or an exclusive disjunction, an equation or a distinction of any
  -- formulas, into which toNNF does not look.
  pub to_nnf-is_nnf :
      (p : Node) (n : Bool)
      → well_sorted p ≡ true
      → binary p ≡ true
      → is_nnf (to_nnf preserve key p n) ≡ true
  to_nnf-is_nnf p n h b = to_nnf_form p n (well_sorted-covered p h b)
