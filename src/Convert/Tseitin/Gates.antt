-- ===== src/Convert/Tseitin/Gates.antt =====
-- The clauses of every gate say that its variable means what the gate does:
-- src/frontend/conv_parser.cpp, lines 292-367 and 404-487.
use smtlibparser.Prelude.{
  ℕ, ◌≡◌, refl, Bool, true, not, ◌&&◌, ◌||◌, [], ◌∷◌, Bytes, arith, if◌then◌else◌,
}
use smtlibparser.Term.{
  Oper, Node, int_var, oper, nil, cons, not_op, eq_op, distinct_op, lt_op, le_op, gt_op, ge_op,
}
use smtlibparser.Term.Meaning.{Valuation, holds, eval_all, all_true, xor}
use smtlibparser.Term.Covered.{covered}
use smtlibparser.Term.Make.{mk_not, mk_or, is_arith_comp}
use smtlibparser.Term.Make.Join.{mk_or_lem}
use smtlibparser.Term.Make.Negation.{mk_not_meaning}
use smtlibparser.Term.Make.Negation.Form.{mk_not_closed, mk_not_twice}
use smtlibparser.Convert.Nnf.Cache.{all_covered-all_bool}
use smtlibparser.Convert.Tseitin.{
  Cnf, temp, to_tseitin_xor, to_tseitin_eq, to_tseitin_distinct, to_tseitin_ite, to_tseitin_not,
}

comparison-covered :
    (t : Oper) (x y : Bytes)
    → is_arith_comp t (cons (int_var x) (cons (int_var y) nil)) ≡ true
    → covered (oper t (cons (int_var x) (cons (int_var y) nil))) ≡ true
unfolding covered is_arith_comp
comparison-covered lt_op x y h = refl
comparison-covered le_op x y h = refl
comparison-covered gt_op x y h = refl
comparison-covered ge_op x y h = refl
comparison-covered eq_op x y h = refl
comparison-covered distinct_op x y h = refl
comparison-covered _ x y h = cc

module _ (preserve : Oper → Bool) (key : Node → ℕ) where
  pub mk_not-covered : (p : Node) → covered p ≡ true → covered (mk_not preserve key p) ≡ true
  unfolding covered
  mk_not-covered (oper not_op (cons p nil)) h = rw (mk_not_twice preserve key p) h
  mk_not-covered (oper not_op nil) h = cc
  mk_not-covered (oper not_op (cons p (cons q ps))) h = cc
  mk_not-covered p h =
      mk_not_closed covered preserve key (refl, refl, comparison-covered) p h refl h

module _ (ρ : Valuation) (preserve : Oper → Bool) (key : Node → ℕ) where
  -- The clauses hold.
  abbrev pub clauses_hold : Cnf → Bool
  clauses_hold s = all_true (eval_all ρ s.clauses)

  pub clause_2 :
      (p q : Node)
      → covered p ≡ true
      → covered q ≡ true
      → holds ρ (mk_or preserve key (p ∷ q ∷ [])) ≡ (holds ρ p || holds ρ q)
  clause_2 p q hp hq =
      let b = all_covered-all_bool (p ∷ q ∷ []) (ground arith) in
      ground (arith, mk_or_lem ρ preserve key (p ∷ q ∷ []) b)

  pub clause_3 :
      (p q r : Node)
      → covered p ≡ true
      → covered q ≡ true
      → covered r ≡ true
      → holds ρ (mk_or preserve key (p ∷ q ∷ r ∷ [])) ≡ (holds ρ p || (holds ρ q || holds ρ r))
  clause_3 p q r hp hq hr =
      let b = all_covered-all_bool (p ∷ q ∷ r ∷ []) (ground arith) in
      ground (arith, mk_or_lem ρ preserve key (p ∷ q ∷ r ∷ []) b)

  -- The clauses hold exactly where those before do and the new variable is the parity.
  pub to_tseitin_xor_lem :
      (a b : Node) (s : Cnf)
      → covered a ≡ true
      → covered b ≡ true
      → clauses_hold (to_tseitin_xor preserve key a b s).1
        ≡ (not (xor (holds ρ (temp s)) (xor (holds ρ a) (holds ρ b))) && clauses_hold s)
  unfolding to_tseitin_xor covered
  to_tseitin_xor_lem a b s ha hb =
      let c = temp s in
      let c' = mk_not preserve key c in
      let a' = mk_not preserve key a in
      let b' = mk_not preserve key b in
      let wc = mk_not-covered preserve key c refl in
      let wa = mk_not-covered preserve key a ha in
      let wb = mk_not-covered preserve key b hb in
      ground (
        arith,
        mk_not_meaning ρ preserve key c refl,
        mk_not_meaning ρ preserve key a ha,
        mk_not_meaning ρ preserve key b hb,
        clause_3 c' a' b' wc wa wb,
        clause_3 c' a b wc ha hb,
        clause_3 c a' b refl wa hb,
        clause_3 c a b' refl ha wb,
      )

  -- The clauses hold exactly where those before do and the new variable is the equality.
  pub to_tseitin_eq_lem :
      (a b : Node) (s : Cnf)
      → covered a ≡ true
      → covered b ≡ true
      → clauses_hold (to_tseitin_eq preserve key a b s).1
        ≡ (not (xor (holds ρ (temp s)) (not (xor (holds ρ a) (holds ρ b)))) && clauses_hold s)
  unfolding to_tseitin_eq covered
  to_tseitin_eq_lem a b s ha hb =
      let c = temp s in
      let c' = mk_not preserve key c in
      let a' = mk_not preserve key a in
      let b' = mk_not preserve key b in
      let wc = mk_not-covered preserve key c refl in
      let wa = mk_not-covered preserve key a ha in
      let wb = mk_not-covered preserve key b hb in
      ground (
        arith,
        mk_not_meaning ρ preserve key c refl,
        mk_not_meaning ρ preserve key a ha,
        mk_not_meaning ρ preserve key b hb,
        clause_3 c' a b' wc ha wb,
        clause_3 c' a' b wc wa hb,
        clause_3 c a b refl ha hb,
        clause_3 c a' b' refl wa wb,
      )

  -- The clauses hold exactly where those before do and the new variable is the difference.
  pub to_tseitin_distinct_lem :
      (a b : Node) (s : Cnf)
      → covered a ≡ true
      → covered b ≡ true
      → clauses_hold (to_tseitin_distinct preserve key a b s).1
        ≡ (not (xor (holds ρ (temp s)) (xor (holds ρ a) (holds ρ b))) && clauses_hold s)
  unfolding to_tseitin_distinct covered
  to_tseitin_distinct_lem a b s ha hb =
      let c = temp s in
      let c' = mk_not preserve key c in
      let a' = mk_not preserve key a in
      let b' = mk_not preserve key b in
      let wc = mk_not-covered preserve key c refl in
      let wa = mk_not-covered preserve key a ha in
      let wb = mk_not-covered preserve key b hb in
      ground (
        arith,
        mk_not_meaning ρ preserve key c refl,
        mk_not_meaning ρ preserve key a ha,
        mk_not_meaning ρ preserve key b hb,
        clause_3 c' a b wc ha hb,
        clause_3 c' a' b' wc wa wb,
        clause_3 c a' b refl wa hb,
        clause_3 c a b' refl ha wb,
      )

  -- The clauses hold exactly where those before do and the new variable is the chosen operand.
  pub to_tseitin_ite_lem :
      (a b d : Node) (s : Cnf)
      → covered a ≡ true
      → covered b ≡ true
      → covered d ≡ true
      → clauses_hold (to_tseitin_ite preserve key a b d s).1 ≡ (
          not (xor (holds ρ (temp s)) (if holds ρ a then holds ρ b else holds ρ d))
          && clauses_hold s)
  unfolding to_tseitin_ite covered
  to_tseitin_ite_lem a b d s ha hb hd =
      let c = temp s in
      let c' = mk_not preserve key c in
      let a' = mk_not preserve key a in
      let b' = mk_not preserve key b in
      let d' = mk_not preserve key d in
      let wc = mk_not-covered preserve key c refl in
      let wa = mk_not-covered preserve key a ha in
      let wb = mk_not-covered preserve key b hb in
      let wd = mk_not-covered preserve key d hd in
      ground (
        arith,
        mk_not_meaning ρ preserve key c refl,
        mk_not_meaning ρ preserve key a ha,
        mk_not_meaning ρ preserve key b hb,
        mk_not_meaning ρ preserve key d hd,
        clause_3 c' a' b wc wa hb,
        clause_3 c' a d wc ha hd,
        clause_3 c a' b' refl wa wb,
        clause_3 c a d' refl ha wd,
      )

  -- The clauses hold exactly where those before do and the new variable is the negation.
  pub to_tseitin_not_lem :
      (a : Node) (s : Cnf)
      → covered a ≡ true
      → clauses_hold (to_tseitin_not preserve key a s).1
        ≡ (not (xor (holds ρ (temp s)) (not (holds ρ a))) && clauses_hold s)
  unfolding to_tseitin_not covered
  to_tseitin_not_lem a s ha =
      let c = temp s in
      let c' = mk_not preserve key c in
      let a' = mk_not preserve key a in
      let wc = mk_not-covered preserve key c refl in
      let wa = mk_not-covered preserve key a ha in
      ground (
        arith,
        mk_not_meaning ρ preserve key c refl,
        mk_not_meaning ρ preserve key a ha,
        clause_2 c' a' wc wa,
        clause_2 a c ha refl,
      )
