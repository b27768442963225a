-- ===== src/Convert/Tseitin/Whole.antt =====
-- toTseitinCNF of a whole formula is sound: src/frontend/conv_parser.cpp, lines 369-652.
use smtlibparser.Prelude.{
  ℕ, ◌≡◌, ◌≢◌, refl, Bool, true, false, ◌&&◌, ◌||◌, List, [], ◌∷◌, arith, &&_parts, by_if,
}
use smtlibparser.Term.{
  Oper, Node, Nodes, const_true, const_false, error, bool_var, temp_var, predicate, oper, nil, cons,
  not_op, and_op, or_op, implies_op, xor_op, eq_op, distinct_op, ite_op, is_arith_term,
}
use smtlibparser.Term.Meaning.{Valuation, holds}
use smtlibparser.Term.WellSorted.{well_sorted, binary, well_sorted-covered}
use smtlibparser.Term.Covered.{covered, two_or_more, two_ints, all_covered, covered-is_bool_param}
use smtlibparser.Term.Make.{is_arith_comp}
use smtlibparser.Term.Make.Closure.{all_of}
use smtlibparser.Convert.Nnf.{find}
use smtlibparser.Convert.Tseitin.{
  Cnf, is_literal, bool_children, any_thrown, pass_on, converts, to_tseitin_case, to_tseitin,
  to_tseitin_all, to_tseitin_chain, to_tseitin_equals, to_tseitin_and, to_tseitin_eq, visit,
}
use smtlibparser.Convert.Tseitin.Chain.{
  Matches, nil-Matches, cons-Matches, chain-Outcome, three_distinct, distinct-false,
}
use smtlibparser.Convert.Tseitin.Sound.{
  convertible, all_convertible, IsSorted, Means, Agrees, Outcome, Outcomes, same_length,
  kept-Outcome, abstract_atom-Outcome, or_else-Outcome, and_Outcome, or_Outcome, not-Outcome,
  xor-Outcome, eq-Outcome, distinct-Outcome, ite-Outcome,
}

-- The operands of an equation or a distinction are formulas, where it is no comparison.
ints-arith : (p : Node) (ps : Nodes) → is_arith_term p ≡ false → two_ints (cons p ps) ≡ false
ints-arith p nil a = refl
ints-arith p (cons q nil) a = rw a refl
ints-arith p (cons q (cons r ps)) a = refl

operands : (m v t : Bool) → (m && v || t) ≡ true → t ≡ false → v ≡ true
operands m v t h a = ground arith

sides :
    (p : Node) (ps : Nodes)
    → (two_or_more (cons p ps) && all_covered (cons p ps) || two_ints (cons p ps)) ≡ true
    → is_arith_term p ≡ false
    → all_covered (cons p ps) ≡ true
sides p ps h a =
    operands (two_or_more (cons p ps)) (all_covered (cons p ps)) (two_ints (cons p ps)) h
      (ints-arith p ps a)

all_covered-bool_children : (ps : Nodes) → all_covered ps ≡ true → bool_children ps ≡ true
unfolding covered bool_children
all_covered-bool_children nil h = refl
all_covered-bool_children (cons p ps) h =
    let (hp, hps) = &&_parts (covered p) (all_covered ps) h in
    rw (covered-is_bool_param p hp) (all_covered-bool_children ps hps)

children_plain :
    (t : Oper) (ps : Nodes) → convertible (oper t ps) ≡ true → all_convertible ps ≡ true
unfolding convertible
children_plain implies_op ps h = cc
children_plain and_op ps h = (&&_parts _ _ h).1
children_plain or_op ps h = (&&_parts _ _ h).1
children_plain xor_op ps h = (&&_parts _ _ h).1
children_plain _ ps h = h

children_sorted :
    (t : Oper) (ps : Nodes)
    → covered (oper t ps) ≡ true
    → is_arith_comp t ps ≡ false
    → all_covered ps ≡ true
unfolding covered is_arith_comp
children_sorted not_op (cons p nil) h a = ground arith
children_sorted and_op ps h a = h
children_sorted or_op ps h a = h
children_sorted xor_op ps h a = h
children_sorted implies_op (cons p (cons q nil)) h a = ground arith
children_sorted ite_op (cons c (cons p (cons q nil))) h a =
    let (hc, hpq) = &&_parts (covered c) (covered p && covered q) h in
    let (hp, hq) = &&_parts (covered p) (covered q) hpq in rw (hc, hp, hq) refl
children_sorted eq_op (cons p ps) h a = sides p ps h a
children_sorted distinct_op (cons p ps) h a = sides p ps h a
children_sorted _ _ h a = cc

none_thrown : (rs : List Node) → all_of covered rs ≡ true → any_thrown rs ≡ false
unfolding covered
none_thrown [] h = refl
none_thrown (error ∷ rs) h = absurd (cc)
none_thrown (r ∷ rs) h = none_thrown rs (&&_parts (covered r) (all_of covered rs) h).1

module _ (ρ : Valuation) (preserve : Oper → Bool) (key : Node → ℕ) where
  abbrev Good : Node → Cnf → Node × Cnf → Type 0
  Good e s x = Outcome ρ preserve key e s x.0 x.1

  abbrev GoodAll : Nodes → Cnf → List Node × Cnf → Type 0
  GoodAll ps s x = Outcomes ρ preserve key ps s x.0 x.1

  -- The conversions of an equation's operands, and those that make its chain.
  abbrev ChainGood : Oper → Nodes → Cnf → List Node × Cnf → Type 0
  ChainGood eq_op ps s x =
      Good (oper eq_op ps) s (visit (oper eq_op ps) (to_tseitin_and preserve key x.0 x.1))
  ChainGood _ ps s x = Unit

  case_outcome :
      (t : Oper) (ps : Nodes) (s : Cnf) (rs : List Node) (s1 : Cnf) (es : List Node) (s2 : Cnf)
      → covered (oper t ps) ≡ true
      → convertible (oper t ps) ≡ true
      → is_arith_comp t ps ≡ false
      → same_length ρ preserve key rs ps ≡ true
      → IsSorted s.cnf_map
      → IsSorted s.visited
      → GoodAll ps s (rs, s1)
      → ChainGood t ps s (es, s2)
      → Good (oper t ps) s (to_tseitin_case preserve key t ps s (rs, s1) (es, s2))
  unfolding to_tseitin_case covered convertible is_arith_comp bool_children
  case_outcome not_op (cons p nil) s (r ∷ []) s1 es s2 h n a l m v o k =
      not-Outcome ρ preserve key p s r s1 o
  case_outcome and_op (cons p (cons q ps)) s (r ∷ u ∷ rs) s1 es s2 h n a l m v o k =
      and_Outcome ρ preserve key (cons p (cons q ps)) s (r ∷ u ∷ rs) s1 o
  case_outcome or_op (cons p (cons q ps)) s (r ∷ u ∷ rs) s1 es s2 h n a l m v o k =
      or_Outcome ρ preserve key (cons p (cons q ps)) s (r ∷ u ∷ rs) s1 o
  case_outcome xor_op (cons p ps) s (r ∷ rs) s1 es s2 h n a l m v o k =
      xor-Outcome ρ preserve key (cons p ps) s r rs s1 o
  case_outcome eq_op (cons p (cons q nil)) s (r ∷ u ∷ []) s1 es s2 h n a l m v o k =
      let (hp, hq') = &&_parts (covered p) (all_covered (cons q nil)) (sides p (cons q nil) h a) in
      let hq = (&&_parts (covered q) true hq').0 in
      rw (covered-is_bool_param p hp, covered-is_bool_param q hq)
        (eq-Outcome ρ preserve key p q s r u s1 hp hq o)
  case_outcome eq_op (cons p (cons q (cons w ps))) s (r ∷ u ∷ x ∷ rs) s1 es s2 h n a l m v o k =
      rw (all_covered-bool_children _ (sides p (cons q (cons w ps)) h a)) k
  case_outcome distinct_op (cons p (cons q nil)) s (r ∷ u ∷ []) s1 es s2 h n a l m v o k =
      let (hp, hq') = &&_parts (covered p) (all_covered (cons q nil)) (sides p (cons q nil) h a) in
      let hq = (&&_parts (covered q) true hq').0 in
      rw (covered-is_bool_param p hp, covered-is_bool_param q hq)
        (distinct-Outcome ρ preserve key p q s r u s1 hp hq o)
  case_outcome distinct_op (cons p (cons q (cons w ps))) s (r ∷ u ∷ x ∷ rs) s1 es s2 h n a l m v o
        k =
      let all = sides p (cons q (cons w ps)) h a in
      let (hp, hqw) = &&_parts (covered p) (all_covered (cons q (cons w ps))) all in
      let (hq, hw') = &&_parts (covered q) (all_covered (cons w ps)) hqw in
      let (hw, hps) = &&_parts (covered w) (all_covered ps) hw' in
      rw
        (
          covered-is_bool_param p hp,
          covered-is_bool_param q hq,
          covered-is_bool_param w hw,
          all_covered-bool_children ps hps,
        )
        (distinct-false ρ preserve key (oper distinct_op (cons p (cons q (cons w ps)))) s
          (three_distinct ρ p q w ps hp hq hw) m v)
  case_outcome ite_op (cons c (cons p (cons q nil))) s (r ∷ u ∷ w ∷ []) s1 es s2 h n a l m v o k =
      let (hc, hpq) = &&_parts (covered c) (covered p && covered q) h in
      let (hp, hq) = &&_parts (covered p) (covered q) hpq in
      rw (covered-is_bool_param p hp, covered-is_bool_param q hq)
        (ite-Outcome ρ preserve key c p q s r u w s1 o)
  case_outcome _ _ _ _ _ _ _ h n a l m v o k = absurd (cc)

  passed_on :
      (t : Oper) (ps : Nodes) (s : Cnf) (rs : List Node) (s1 : Cnf) (x : Node × Cnf)
      → all_of covered rs ≡ true
      → Good (oper t ps) s x
      → Good (oper t ps) s (pass_on t ps (rs, s1) x)
  passed_on t ps s rs s1 x h g =
      let none : (converts t ps && any_thrown rs) ≡ false = ground (arith, none_thrown rs h) in
      rw none g

  mutual
    unfolding to_tseitin covered convertible

    outcome :
        (e : Node) (s : Cnf)
        → covered e ≡ true
        → convertible e ≡ true
        → IsSorted s.cnf_map
        → IsSorted s.visited
        → Good e s (to_tseitin preserve key e s)
    outcome const_true s h n m v = kept-Outcome ρ preserve key const_true s h m v
    outcome const_false s h n m v = kept-Outcome ρ preserve key const_false s h m v
    outcome (bool_var x) s h n m v = kept-Outcome ρ preserve key (bool_var x) s h m v
    outcome (temp_var x) s h n m v = kept-Outcome ρ preserve key (temp_var x) s h m v
    outcome (predicate x) s h n m v = abstract_atom-Outcome ρ preserve key (predicate x) s h m v
    outcome (oper t ps) s h n m v =
        by_if (Good (oper t ps) s) (is_arith_comp t ps) _ _
          (λ a. abstract_atom-Outcome ρ preserve key (oper t ps) s h m v)
          (λ a.
            let all = outcomes ps s (children_sorted t ps h a) (children_plain t ps n) m v in
            by_if (Good (oper t ps) s) (is_literal (oper t ps)) _ _
              (λ b. kept-Outcome ρ preserve key (oper t ps) s h m v)
              (λ b.
                or_else-Outcome ρ preserve key (oper t ps) s s.visited (find s.visited (oper t ps))
                  _ m v v (λ x y. y) refl
                  (passed_on t ps s (to_tseitin_all preserve key ps s).0
                    (to_tseitin_all preserve key ps s).1 _ all.sorted
                    (case_outcome t ps s (to_tseitin_all preserve key ps s).0
                      (to_tseitin_all preserve key ps s).1 (to_tseitin_chain preserve key ps s).0
                      (to_tseitin_chain preserve key ps s).1 h n a all.shape m v all
                      (chain_outcome t ps s h (children_sorted t ps h a) (children_plain t ps n) m
                        v)))))
    outcome _ s h n m v = absurd (cc)

    outcomes :
        (ps : Nodes) (s : Cnf)
        → all_covered ps ≡ true
        → all_convertible ps ≡ true
        → IsSorted s.cnf_map
        → IsSorted s.visited
        → GoodAll ps s (to_tseitin_all preserve key ps s)
    outcomes nil s h n m v = record {
      shape = refl;
      sorted = refl;
      named = m;
      seen = v;
      earlier = λ a. a;
      sound = λ a x. (tt, x);
    }
    outcomes (cons p ps) s h n m v =
        let (hp, hps) = &&_parts (covered p) (all_covered ps) h in
        let (np, nps) = &&_parts (convertible p) (all_convertible ps) n in
        let first = outcome p s hp np m v in
        let rest = outcomes ps (to_tseitin preserve key p s).1 hps nps first.named first.seen in
        record {
          shape = rest.shape;
          sorted = rw first.sorted rest.sorted;
          named = rest.named;
          seen = rest.seen;
          earlier = λ a. first.earlier (rest.earlier a);
          sound = λ a x.
              let (q, y) = first.sound (rest.earlier a) x in
              let (qs, z) = rest.sound a y in ((q, qs), z);
        }

    chain_outcome :
        (t : Oper) (ps : Nodes) (s : Cnf)
        → covered (oper t ps) ≡ true
        → all_covered ps ≡ true
        → all_convertible ps ≡ true
        → IsSorted s.cnf_map
        → IsSorted s.visited
        → ChainGood t ps s (to_tseitin_chain preserve key ps s)
    chain_outcome eq_op (cons p qs) s w h n m v =
        let (hp, hqs) = &&_parts (covered p) (all_covered qs) h in
        let (np, nqs) = &&_parts (convertible p) (all_convertible qs) n in
        let first = outcome p s hp np m v in
        let a = (to_tseitin preserve key p s).0 in
        let s1 = (to_tseitin preserve key p s).1 in
        chain-Outcome ρ preserve key p qs a s s1 (to_tseitin_equals preserve key a qs s1).0
          (to_tseitin_equals preserve key a qs s1).1 hp hqs first
          (match_outcome a qs s1 first.sorted hqs nqs first.named first.seen)
    chain_outcome eq_op nil s w h n m v = absurd (cc)
    chain_outcome _ ps s w h n m v = tt

    match_outcome :
        (a : Node) (qs : Nodes) (s : Cnf)
        → covered a ≡ true
        → all_covered qs ≡ true
        → all_convertible qs ≡ true
        → IsSorted s.cnf_map
        → IsSorted s.visited
        → Matches ρ preserve key a qs s
            (to_tseitin_equals preserve key a qs s).0
            (to_tseitin_equals preserve key a qs s).1
    match_outcome a nil s ha h n m v = nil-Matches ρ preserve key a s m v
    match_outcome a (cons q qs) s ha h n m v =
        let (hq, hqs) = &&_parts (covered q) (all_covered qs) h in
        let (nq, nqs) = &&_parts (convertible q) (all_convertible qs) n in
        let first = outcome q s hq nq m v in
        let b = (to_tseitin preserve key q s).0 in
        let s1 = (to_tseitin preserve key q s).1 in
        let s2 = (to_tseitin_eq preserve key a b s1).1 in
        cons-Matches ρ preserve key a b q qs s s1 (to_tseitin_equals preserve key a qs s2).0
          (to_tseitin_equals preserve key a qs s2).1 ha first
          (match_outcome a qs s2 ha hqs nqs first.named first.seen)

  not_error : (r : Node) → covered r ≡ true → r ≢ error
  unfolding covered
  not_error error h e = cc
  not_error r h e = cc

  -- For a well-sorted formula without an implication, in which every comparison of integers compares
  -- two variables, converted from a state whose maps give covered formulas with the meaning of what
  -- they are given for: the conversion is not the error of a failed assertion, and in every
  -- valuation where the clauses of the final state hold, and the variables for atoms mean the atoms,
  -- the conversion holds exactly where the formula does.
  pub to_tseitin_lem :
      (e : Node) (s : Cnf)
      → well_sorted e ≡ true
      → binary e ≡ true
      → convertible e ≡ true
      → IsSorted s.cnf_map
      → IsSorted s.visited
      → Agrees ρ preserve key (to_tseitin preserve key e s).1
      → Means ρ s.visited
      → ((to_tseitin preserve key e s).0 ≢ error)
        × (holds ρ (to_tseitin preserve key e s).0 ≡ holds ρ e)
  to_tseitin_lem e s h b n m v a x =
      let o = outcome e s (well_sorted-covered e h b) n m v in
      (not_error _ o.sorted, (o.sound a x).0)
