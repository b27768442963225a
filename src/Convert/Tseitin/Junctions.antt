-- ===== src/Convert/Tseitin/Junctions.antt =====
-- The gates of many operands: src/frontend/conv_parser.cpp, lines 422-510.
use smtlibparser.Prelude.{
  ℕ, ◌≡◌, refl, Bool, true, false, not, ◌&&◌, ◌||◌, List, [], ◌∷◌, arith, &&_parts,
}
use smtlibparser.Term.{Oper, Node}
use smtlibparser.Term.Meaning.{Valuation, holds, eval_all, all_true, any_true, xor}
use smtlibparser.Term.Covered.{covered}
use smtlibparser.Term.Make.{mk_not}
use smtlibparser.Term.Make.Join.{mk_or_lem}
use smtlibparser.Term.Make.Closure.{all_of}
use smtlibparser.Term.Make.Negation.{mk_not_meaning}
use smtlibparser.Convert.Nnf.Cache.{all_covered-all_bool}
use smtlibparser.Convert.Tseitin.{
  Cnf, temp, bump, add, to_tseitin_and, to_tseitin_or, to_tseitin_implies, add_each_and,
  add_each_or, negated_then, children_then,
}
use smtlibparser.Convert.Tseitin.Gates.{mk_not-covered, clauses_hold, clause_2, clause_3}

module _ (ρ : Valuation) (preserve : Oper → Bool) (key : Node → ℕ) where
  add_each_and_lem :
      (c : Node) (ps : List Node) (s : Cnf)
      → covered c ≡ true
      → all_of covered ps ≡ true
      → clauses_hold ρ preserve key (add_each_and preserve key c ps s)
        ≡ ((not (holds ρ c) || all_true (eval_all ρ ps)) && clauses_hold ρ preserve key s)
  unfolding add_each_and
  add_each_and_lem c [] s hc h = ground arith
  add_each_and_lem c (p ∷ ps) s hc h =
      let (hp, hps) = &&_parts (covered p) (all_of covered ps) h in
      let c' = mk_not preserve key c in
      let wc = mk_not-covered preserve key c hc in
      ground (
        arith,
        add_each_and_lem c ps (add preserve key (c' ∷ p ∷ []) s) hc hps,
        clause_2 ρ preserve key c' p wc hp,
        mk_not_meaning ρ preserve key c hc,
      )

  add_each_or_lem :
      (c : Node) (ps : List Node) (s : Cnf)
      → covered c ≡ true
      → all_of covered ps ≡ true
      → clauses_hold ρ preserve key (add_each_or preserve key c ps s)
        ≡ ((holds ρ c || not (any_true (eval_all ρ ps))) && clauses_hold ρ preserve key s)
  unfolding add_each_or
  add_each_or_lem c [] s hc h = ground arith
  add_each_or_lem c (p ∷ ps) s hc h =
      let (hp, hps) = &&_parts (covered p) (all_of covered ps) h in
      let p' = mk_not preserve key p in
      let wp = mk_not-covered preserve key p hp in
      ground (
        arith,
        add_each_or_lem c ps (add preserve key (p' ∷ c ∷ []) s) hc hps,
        clause_2 ρ preserve key p' c wp hc,
        mk_not_meaning ρ preserve key p hp,
      )

  negated_then_lem :
      (ps : List Node) (c : Node)
      → all_of covered ps ≡ true
      → covered c ≡ true
      → (all_of covered (negated_then preserve key ps c) ≡ true)
        × (any_true (eval_all ρ (negated_then preserve key ps c))
            ≡ (not (all_true (eval_all ρ ps)) || holds ρ c))
  negated_then_lem [] c h hc = (ground arith, ground arith)
  negated_then_lem (p ∷ ps) c h hc =
      let (hp, hps) = &&_parts (covered p) (all_of covered ps) h in
      let (w, v) = negated_then_lem ps c hps hc in
      let wp = mk_not-covered preserve key p hp in
      (ground arith, ground (arith, mk_not_meaning ρ preserve key p hp))

  children_then_lem :
      (ps : List Node) (c : Node)
      → all_of covered ps ≡ true
      → covered c ≡ true
      → (all_of covered (children_then preserve key ps c) ≡ true)
        × (any_true (eval_all ρ (children_then preserve key ps c))
            ≡ (any_true (eval_all ρ ps) || holds ρ c))
  children_then_lem [] c h hc = (ground arith, ground arith)
  children_then_lem (p ∷ ps) c h hc =
      let (hp, hps) = &&_parts (covered p) (all_of covered ps) h in
      let (w, v) = children_then_lem ps c hps hc in (ground arith, ground arith)

  -- The clauses hold exactly where those before do and the new variable is the conjunction.
  pub to_tseitin_and_lem :
      (ps : List Node) (s : Cnf)
      → all_of covered ps ≡ true
      → clauses_hold ρ preserve key (to_tseitin_and preserve key ps s).1
        ≡ (not (xor (holds ρ (temp s)) (all_true (eval_all ρ ps))) && clauses_hold ρ preserve key s)
  unfolding to_tseitin_and covered
  to_tseitin_and_lem ps s h =
      let c = temp s in
      let (w, v) = negated_then_lem ps c h refl in
      ground (
        arith,
        add_each_and_lem c ps (bump s) refl h,
        v,
        mk_or_lem ρ preserve key (negated_then preserve key ps c) (all_covered-all_bool _ w),
      )

  -- The clauses hold exactly where those before do and the new variable is the disjunction.
  pub to_tseitin_or_lem :
      (ps : List Node) (s : Cnf)
      → all_of covered ps ≡ true
      → clauses_hold ρ preserve key (to_tseitin_or preserve key ps s).1
        ≡ (not (xor (holds ρ (temp s)) (any_true (eval_all ρ ps))) && clauses_hold ρ preserve key s)
  unfolding to_tseitin_or covered
  to_tseitin_or_lem ps s h =
      let c = temp s in
      let c' = mk_not preserve key c in
      let (w, v) = children_then_lem ps c' h (mk_not-covered preserve key c refl) in
      ground (
        arith,
        add_each_or_lem c ps (bump s) refl h,
        v,
        mk_not_meaning ρ preserve key c refl,
        mk_or_lem ρ preserve key (children_then preserve key ps c') (all_covered-all_bool _ w),
      )

  -- Where the first formula of an implication does not hold, the clauses of the implication say
  -- nothing of its variable, which may be false.
  pub to_tseitin_implies_open :
      (a b : Node) (s : Cnf)
      → covered a ≡ true
      → covered b ≡ true
      → holds ρ a ≡ false
      → clauses_hold ρ preserve key (to_tseitin_implies preserve key (a ∷ b ∷ []) s).1
        ≡ clauses_hold ρ preserve key s
  unfolding to_tseitin_implies covered
  to_tseitin_implies_open a b s ha hb f =
      let c = temp s in
      let c' = mk_not preserve key c in
      let a' = mk_not preserve key a in
      let b' = mk_not preserve key b in
      let wc = mk_not-covered preserve key c refl in
      let wa = mk_not-covered preserve key a ha in
      let wb = mk_not-covered preserve key b hb in
      ground (
        arith,
        mk_not_meaning ρ preserve key a ha,
        clause_3 ρ preserve key c' a' b wc wa hb,
        clause_3 ρ preserve key a' b' c wa wb refl,
      )
