-- ===== src/Convert/Nnf/Meaning.antt =====
-- toNNF keeps the meaning: src/frontend/conv_parser.cpp, lines
-- 1617-1728.
use smtlibparser.Prelude.{
  ℕ, ◌≡◌, refl, ◌∙◌, Bool, true, false, not, ◌&&◌, ◌||◌, List, [], ◌∷◌, arith, if◌then◌else◌,
  &&_parts,
}
use smtlibparser.Term.{
  Oper, Node, Nodes, unknown, error, int_var, oper, nil, cons, not_op, and_op, or_op, implies_op,
  ite_op,
}
use smtlibparser.Term.Meaning.{
  Valuation, eval, eval_nodes, eval_all, holds, xor, all_true, any_true,
}
use smtlibparser.Term.WellSorted.{well_sorted, binary, well_sorted-covered}
use smtlibparser.Term.Covered.{covered, all_covered, covered-is_bool_param}
use smtlibparser.Term.Make.{mk_not, mk_and, mk_or}
use smtlibparser.Term.Make.Join.{mk_and_lem, mk_or_lem}
use smtlibparser.Term.Make.Negation.{mk_not_meaning}
use smtlibparser.Term.Make.Closure.{all_of}
use smtlibparser.Convert.Nnf.{is_nnf, to_nnf, to_nnf_all}
use smtlibparser.Convert.Nnf.Form.{all_nnf-all_bool, and_pair_form, form, form_all}

module _ (ρ : Valuation) (preserve : Oper → Bool) (key : Node → ℕ) where
  and_meaning :
      (ps : List Node)
      → all_of is_nnf ps ≡ true
      → holds ρ (mk_and preserve key ps) ≡ all_true (eval_all ρ ps)
  and_meaning ps h = mk_and_lem ρ preserve key ps (all_nnf-all_bool ps h)

  or_meaning :
      (ps : List Node)
      → all_of is_nnf ps ≡ true
      → holds ρ (mk_or preserve key ps) ≡ any_true (eval_all ρ ps)
  or_meaning ps h = mk_or_lem ρ preserve key ps (all_nnf-all_bool ps h)

  and_pair :
      (p q : Node)
      → is_nnf p ≡ true
      → is_nnf q ≡ true
      → holds ρ (mk_and preserve key (p ∷ q ∷ [])) ≡ (holds ρ p && holds ρ q)
  and_pair p q hp hq = ground (arith, and_meaning (p ∷ q ∷ []))

  or_pair :
      (p q : Node)
      → is_nnf p ≡ true
      → is_nnf q ≡ true
      → holds ρ (mk_or preserve key (p ∷ q ∷ [])) ≡ (holds ρ p || holds ρ q)
  or_pair p q hp hq = ground (arith, or_meaning (p ∷ q ∷ []))

  ite_pairs :
      (a a' b c : Node)
      → is_nnf a ≡ true
      → is_nnf a' ≡ true
      → is_nnf b ≡ true
      → is_nnf c ≡ true
      → holds ρ (
          mk_or preserve key
            (mk_and preserve key (a ∷ b ∷ []) ∷ mk_and preserve key (a' ∷ c ∷ []) ∷ []))
        ≡ (holds ρ a && holds ρ b || holds ρ a' && holds ρ c)
  ite_pairs a a' b c ha ha' hb hc =
      let left = mk_and preserve key (a ∷ b ∷ []) in
      let right = mk_and preserve key (a' ∷ c ∷ []) in
      let pair =
        or_pair left right (and_pair_form preserve key a b ha hb)
          (and_pair_form preserve key a' c ha' hc) in
      ground (arith, pair, and_pair a b, and_pair a' c)

  atom_meaning :
      (p : Node) (n : Bool)
      → covered p ≡ true
      → holds ρ (if n then mk_not preserve key p else p) ≡ xor n (holds ρ p)
  atom_meaning p true h = mk_not_meaning ρ preserve key p h
  atom_meaning p false h = refl

  mutual
    unfolding to_nnf covered eval

    meaning :
        (p : Node) (n : Bool)
        → covered p ≡ true
        → holds ρ (to_nnf preserve key p n) ≡ xor n (holds ρ p)
    meaning unknown n h = cc
    meaning error n h = cc
    meaning (int_var x) n h = cc
    meaning (oper not_op (cons p nil)) n h = ground (arith, meaning p (not n))
    meaning (oper not_op nil) n h = cc
    meaning (oper not_op (cons p (cons q ps))) n h = cc
    meaning (oper and_op ps) true h =
        or_meaning _ (form_all preserve key ps true h) ∙ (meaning_all ps true h).0
    meaning (oper and_op ps) false h =
        and_meaning _ (form_all preserve key ps false h) ∙ (meaning_all ps false h).0
    meaning (oper or_op ps) true h =
        and_meaning _ (form_all preserve key ps true h) ∙ (meaning_all ps true h).1
    meaning (oper or_op ps) false h =
        or_meaning _ (form_all preserve key ps false h) ∙ (meaning_all ps false h).1
    meaning (oper implies_op nil) n h = cc
    meaning (oper implies_op (cons a nil)) n h = cc
    meaning (oper implies_op (cons a (cons b (cons c ps)))) n h = cc
    meaning (oper implies_op (cons a (cons b nil))) true h =
        let (ha, hb) = &&_parts _ _ h in
        let ia = meaning a false ha in
        let ib = meaning b true hb in
        ground (
          arith,
          and_pair (to_nnf preserve key a false) (to_nnf preserve key b true)
              (form preserve key a false ha) (form preserve key b true hb),
        )
    meaning (oper implies_op (cons a (cons b nil))) false h =
        let (ha, hb) = &&_parts _ _ h in
        let ia = meaning a true ha in
        let ib = meaning b false hb in
        ground (
          arith,
          or_pair (to_nnf preserve key a true) (to_nnf preserve key b false)
              (form preserve key a true ha) (form preserve key b false hb),
        )
    meaning (oper ite_op nil) n h = cc
    meaning (oper ite_op (cons a nil)) n h = cc
    meaning (oper ite_op (cons a (cons b nil))) n h = cc
    meaning (oper ite_op (cons a (cons b (cons c (cons d ps))))) n h = cc
    meaning (oper ite_op (cons a (cons b (cons c nil)))) n h =
        let (ha, hbc) = &&_parts _ _ h in
        let (hb, hc) = &&_parts _ _ hbc in
        let pairs =
          ite_pairs (to_nnf preserve key a false) (to_nnf preserve key a true)
            (to_nnf preserve key b n) (to_nnf preserve key c n) (form preserve key a false ha)
            (form preserve key a true ha) (form preserve key b n hb) (form preserve key c n hc) in
        let ma = meaning a false ha in
        let na = meaning a true ha in
        let mb = meaning b n hb in
        let mc = meaning c n hc in rw (covered-is_bool_param b hb) (ground arith)
    meaning p n h = atom_meaning p n h

    meaning_all :
        (ps : Nodes) (n : Bool)
        → all_covered ps ≡ true
        → ((if n
              then any_true (eval_all ρ (to_nnf_all preserve key ps n))
              else all_true (eval_all ρ (to_nnf_all preserve key ps n)))
            ≡ xor n (all_true (eval_nodes ρ ps)))
          × ((if n
                then all_true (eval_all ρ (to_nnf_all preserve key ps n))
                else any_true (eval_all ρ (to_nnf_all preserve key ps n)))
              ≡ xor n (any_true (eval_nodes ρ ps)))
    meaning_all nil true h = (refl, refl)
    meaning_all nil false h = (refl, refl)
    meaning_all (cons p ps) n h =
        let (hp, hps) = &&_parts _ _ h in
        let ih = meaning p n hp in
        let (all, any) = meaning_all ps n hps in (ground arith, ground arith)

  -- What toNNF gives for a covered formula holds exactly where it should.
  pub to_nnf_meaning :
      (p : Node) (n : Bool)
      → covered p ≡ true
      → holds ρ (to_nnf preserve key p n) ≡ xor n (holds ρ p)
  to_nnf_meaning p n h = meaning p n h

  -- For a well-sorted formula in which every implication has two operands and every comparison of
  -- integers compares two variables, what toNNF gives holds exactly where the formula does, and what
  -- it gives for the negation holds exactly where the formula does not.
  pub to_nnf_lem :
      (p : Node) (n : Bool)
      → well_sorted p ≡ true
      → binary p ≡ true
      → holds ρ (to_nnf preserve key p n) ≡ xor n (holds ρ p)
  to_nnf_lem p n h b = to_nnf_meaning p n (well_sorted-covered p h b)

  -- An implication of three formulas or more loses all but its first two, whatever the others are.
  pub to_nnf_implies_lost :
      (a b : Node) (ps : Nodes) (n : Bool)
      → covered a ≡ true
      → covered b ≡ true
      → holds ρ (to_nnf preserve key (oper implies_op (cons a (cons b ps))) n)
        ≡ xor n (not (holds ρ a) || holds ρ b)
  unfolding to_nnf covered eval
  to_nnf_implies_lost a b ps n ha hb =
      to_nnf_meaning (oper implies_op (cons a (cons b nil))) n (ground arith)
