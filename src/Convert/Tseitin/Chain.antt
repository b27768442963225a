-- ===== src/Convert/Tseitin/Chain.antt =====
-- Equations of three formulas or more, and distinctions: src/frontend/conv_parser.cpp, lines 533-612.
use smtlibparser.Prelude.{
  ℕ, ◌≡◌, refl, sym, ◌∙◌, ap, Bool, true, false, not, ◌&&◌, List, [], ◌∷◌, arith, &&_parts,
}
use mathlib.Core.Path.{subst}
use smtlibparser.Term.{Oper, Node, Nodes, const_false, oper, nil, cons, eq_op, distinct_op}
use smtlibparser.Term.Meaning.{
  Valuation, eval, eval_nodes, holds, eval_all, all_true, all_equal, xor,
}
use smtlibparser.Term.Covered.{covered, all_covered}
use smtlibparser.Term.Make.Closure.{all_of}
use smtlibparser.Term.Make.Equality.{equal_value-truth}
use smtlibparser.Convert.Tseitin.{Cnf, temp, bump, visit, to_tseitin_eq, to_tseitin_and}
use smtlibparser.Convert.Tseitin.Gates.{to_tseitin_eq_lem}
use smtlibparser.Convert.Tseitin.Junctions.{to_tseitin_and_lem}
use smtlibparser.Convert.Tseitin.Sound.{
  IsSorted, Means, Agrees, Outcome, Says, says, add_each_and_maps,
}

module _ (ρ : Valuation) where
  -- Every formula has the truth value `b`.
  abbrev pub all_match : Bool → Nodes → Bool
  all_match b nil = true
  all_match b (cons q qs) = not (xor b (holds ρ q)) && all_match b qs

  match_equal :
      (b c : Bool) (qs : Nodes)
      → (not (xor b c) && all_match b qs) ≡ (not (xor b c) && all_match c qs)
  match_equal true true qs = refl
  match_equal true false qs = refl
  match_equal false true qs = refl
  match_equal false false qs = refl

  pub all_match-all_equal :
      (p : Node) (qs : Nodes)
      → covered p ≡ true
      → all_covered qs ≡ true
      → all_match (holds ρ p) qs ≡ all_equal (eval_nodes ρ (cons p qs))
  unfolding covered eval
  all_match-all_equal p nil hp h = refl
  all_match-all_equal p (cons q qs) hp h =
      let (hq, hqs) = &&_parts (covered q) (all_covered qs) h in
      match_equal (holds ρ p) (holds ρ q) qs
      ∙ rw (equal_value-truth ρ p q hp hq)
          (ap (λ b. not (xor (holds ρ p) (holds ρ q)) && b) (all_match-all_equal q qs hq hqs))

  -- Of three formulas two have the same truth value.
  two_of_three :
      (a b c : Bool) → (not (xor a b) ≡ false) → (not (xor a c) ≡ false) → not (xor b c) ≡ true
  two_of_three true true c h k = cc
  two_of_three true false true h k = cc
  two_of_three true false false h k = refl
  two_of_three false false c h k = cc
  two_of_three false true false h k = cc
  two_of_three false true true h k = refl

  pub three_distinct :
      (p q r : Node) (ps : Nodes)
      → covered p ≡ true
      → covered q ≡ true
      → covered r ≡ true
      → holds ρ (oper distinct_op (cons p (cons q (cons r ps)))) ≡ false
  unfolding eval
  three_distinct p q r ps hp hq hr = ground (
    arith,
    equal_value-truth ρ p q hp hq,
    equal_value-truth ρ p r hp hr,
    equal_value-truth ρ q r hq hr,
    two_of_three (holds ρ p) (holds ρ q) (holds ρ r),
  )

  module _ (preserve : Oper → Bool) (key : Node → ℕ) where
    -- From the state `s` the variables `es` were made, which say that every formula of `qs` has the
    -- truth value of `a`, with the state `t` after it.
    pub record Matches (a : Node) (qs : Nodes) (s : Cnf) (es : List Node) (t : Cnf) : Type 0 where
      pub sorted : all_of covered es ≡ true
      pub named : IsSorted t.cnf_map
      pub seen : IsSorted t.visited
      pub earlier : Agrees ρ preserve key t → Agrees ρ preserve key s
      pub sound :
          Agrees ρ preserve key t
          → Means ρ s.visited
          → (all_true (eval_all ρ es) ≡ all_match (holds ρ a) qs) × Means ρ t.visited

    pub nil-Matches :
        (a : Node) (s : Cnf) → IsSorted s.cnf_map → IsSorted s.visited → Matches a nil s [] s
    nil-Matches a s m v = record {
      sorted = refl;
      named = m;
      seen = v;
      earlier = λ x. x;
      sound = λ x y. (refl, y);
    }

    -- The equation of the first formula with one other.
    pub cons-Matches :
        (a b q : Node) (qs : Nodes) (s s1 : Cnf) (es : List Node) (t : Cnf)
        → covered a ≡ true
        → Outcome ρ preserve key q s b s1
        → Matches a qs (to_tseitin_eq preserve key a b s1).1 es t
        → Matches a (cons q qs) s (temp s1 ∷ es) t
    unfolding to_tseitin_eq covered
    cons-Matches a b q qs s s1 es t ha first rest =
        let s2 = (to_tseitin_eq preserve key a b s1).1 in
        let v = not (xor (holds ρ a) (holds ρ b)) in
        let gate : Says ρ preserve key (temp s1) v s1 s2 =
          says ρ preserve key (temp s1) v s1 s2
            (to_tseitin_eq_lem ρ preserve key a b s1 ha first.sorted) in
        let before : Agrees ρ preserve key s2 → Agrees ρ preserve key s1 =
          λ x. ((gate x.0).1, x.1) in
        record {
          sorted = rest.sorted;
          named = rest.named;
          seen = rest.seen;
          earlier = λ x. first.earlier (before (rest.earlier x));
          sound = λ x y.
              let x2 = rest.earlier x in
              let c = (gate x2.0).0 in
              let (b_q, y1) = first.sound (before x2) y in
              let (others, z) = rest.sound x y1 in (rw (c, b_q, others) refl, z);
        }

    -- The conjunction of the equations.
    pub chain-Outcome :
        (p : Node) (qs : Nodes) (a : Node) (s s1 : Cnf) (es : List Node) (t : Cnf)
        → covered p ≡ true
        → all_covered qs ≡ true
        → Outcome ρ preserve key p s a s1
        → Matches a qs s1 es t
        → Outcome ρ preserve key
            (oper eq_op (cons p qs))
            s
            (visit (oper eq_op (cons p qs)) (to_tseitin_and preserve key es t)).0
            (visit (oper eq_op (cons p qs)) (to_tseitin_and preserve key es t)).1
    unfolding to_tseitin_and eval covered
    chain-Outcome p qs a s s1 es t hp hqs first m =
        let u = (to_tseitin_and preserve key es t).1 in
        let maps = add_each_and_maps ρ preserve key (temp t) es (bump t) in
        let v = all_true (eval_all ρ es) in
        let gate : Says ρ preserve key (temp t) v t u =
          says ρ preserve key (temp t) v t u (to_tseitin_and_lem ρ preserve key es t m.sorted) in
        let before : Agrees ρ preserve key u → Agrees ρ preserve key t =
          λ x. ((gate x.0).1, subst (Means ρ) maps.0 x.1) in
        record {
          sorted = refl;
          named = subst IsSorted (sym maps.0) m.named;
          seen = (refl, subst IsSorted (sym maps.1) m.seen);
          earlier = λ x. first.earlier (m.earlier (before x));
          sound = λ x y.
              let x1 = before x in
              let (a_p, y1) = first.sound (m.earlier x1) y in
              let (all, z) = m.sound x1 y1 in
              let q : holds ρ (temp t) ≡ holds ρ (oper eq_op (cons p qs)) =
                (gate x.0).0
                ∙ all
                ∙ ap (λ b. all_match b qs) a_p
                ∙ all_match-all_equal p qs hp hqs in
              (q, (q, subst (Means ρ) (sym maps.1) z));
        }

    -- A distinction of three formulas or more is false.
    pub distinct-false :
        (e : Node) (s : Cnf)
        → holds ρ e ≡ false
        → IsSorted s.cnf_map
        → IsSorted s.visited
        → Outcome ρ preserve key e s const_false s
    unfolding eval covered
    distinct-false e s h m v = record {
      sorted = refl;
      named = m;
      seen = v;
      earlier = λ x. x;
      sound = λ x y. (sym h, y);
    }
