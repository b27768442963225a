-- ===== src/Convert/Tseitin/Sound.antt =====
-- What one step of toTseitinCNF keeps: src/frontend/conv_parser.cpp, lines 369-652.
use smtlibparser.Prelude.{
  ℕ, ◌≡◌, refl, sym, ◌∙◌, ap, Bool, true, false, not, ◌&&◌, List, [], ◌∷◌, Option, some, none,
  arith, if◌then◌else◌, &&_parts, Bool-cases, inl, inr,
}
use smtlibparser.Term.{
  Oper, Node, Nodes, oper, nil, cons, not_op, and_op, or_op, implies_op, xor_op, eq_op, distinct_op,
  ite_op, same_node,
}
use mathlib.Core.Path.{subst}
use smtlibparser.Term.Identity.{same_node-eq}
use smtlibparser.Term.Meaning.{
  Valuation, eval, eval_nodes, holds, eval_all, all_true, any_true, parity, xor,
}
use smtlibparser.Term.Covered.{covered, two_or_more}
use smtlibparser.Term.Make.Closure.{all_of}
use smtlibparser.Term.Make.Equality.{equal_value-truth}
use smtlibparser.Convert.Nnf.{NnfMap, find}
use smtlibparser.Convert.Tseitin.{
  Cnf, temp, bump, neg, add, visit, to_tseitin_xor, to_tseitin_eq, to_tseitin_distinct,
  to_tseitin_ite, to_tseitin_not, to_tseitin_and, to_tseitin_or, add_each_and, add_each_or,
  fold_xor, name_atom, or_else, abstract_atom,
}
use smtlibparser.Convert.Tseitin.Gates.{
  clauses_hold, mk_not-covered, to_tseitin_xor_lem, to_tseitin_eq_lem, to_tseitin_distinct_lem,
  to_tseitin_ite_lem, to_tseitin_not_lem,
}
use smtlibparser.Convert.Tseitin.Junctions.{to_tseitin_and_lem, to_tseitin_or_lem}

-- Formulas without an implication, and without a conjunction, a disjunction or an exclusive
-- disjunction of less than two operands.
unfoldable mutual
  pub convertible : Node → Bool
  convertible (oper implies_op ps) = false
  convertible (oper and_op ps) = two_or_more ps && all_convertible ps
  convertible (oper or_op ps) = two_or_more ps && all_convertible ps
  convertible (oper xor_op ps) = two_or_more ps && all_convertible ps
  convertible (oper t ps) = all_convertible ps
  convertible p = true

  pub all_convertible : Nodes → Bool
  all_convertible nil = true
  all_convertible (cons p ps) = convertible p && all_convertible ps

-- What a map gives is covered.
abbrev pub IsSorted : NnfMap → Type 0
IsSorted [] = Unit
IsSorted ((e, r) ∷ m) = (covered r ≡ true) × IsSorted m

find-IsSorted : (m : NnfMap) (e r : Node) → IsSorted m → find m e ≡ some r → covered r ≡ true
unfolding find
find-IsSorted [] e r v h = absurd (cc)
find-IsSorted ((k, s) ∷ m) e r (x, v) h = elim (Bool-cases (same_node k e)) [
  | inl t ↦ ground arith
  | inr f ↦ find-IsSorted m e r v (ground arith)
]

xor_assoc : (a b c : Bool) → xor (xor a b) c ≡ xor a (xor b c)
xor_assoc true true true = refl
xor_assoc true true false = refl
xor_assoc true false c = refl
xor_assoc false b c = refl

module _ (ρ : Valuation) where
  -- What a map gives means what it is given for.
  abbrev pub Means : NnfMap → Type 0
  Means [] = Unit
  Means ((e, r) ∷ m) = (holds ρ r ≡ holds ρ e) × Means m

  find-Means : (m : NnfMap) (e r : Node) → Means m → find m e ≡ some r → holds ρ r ≡ holds ρ e
  unfolding find
  find-Means [] e r v h = absurd (cc)
  find-Means ((k, s) ∷ m) e r (x, v) h = elim (Bool-cases (same_node k e)) [
    | inl t ↦ ground (arith, same_node-eq k e)
    | inr f ↦ find-Means m e r v (ground arith)
  ]

  both_equal :
      (p q : Node) (a b : Bool)
      → covered p ≡ true
      → covered q ≡ true
      → a ≡ holds ρ p
      → b ≡ holds ρ q
      → not (xor a b) ≡ holds ρ (oper eq_op (cons p (cons q nil)))
  unfolding eval
  both_equal p q a b hp hq ea eb = ground (arith, equal_value-truth ρ p q hp hq)

  both_differ :
      (p q : Node) (a b : Bool)
      → covered p ≡ true
      → covered q ≡ true
      → a ≡ holds ρ p
      → b ≡ holds ρ q
      → xor a b ≡ holds ρ (oper distinct_op (cons p (cons q nil)))
  unfolding eval
  both_differ p q a b hp hq ea eb = ground (arith, equal_value-truth ρ p q hp hq)

  both_chosen :
      (p q r : Node) (a b c : Bool)
      → a ≡ holds ρ p
      → b ≡ holds ρ q
      → c ≡ holds ρ r
      → (if a then b else c) ≡ holds ρ (oper ite_op (cons p (cons q (cons r nil))))
  unfolding eval
  both_chosen p q r a b c ea eb ec = ground arith

  module _ (preserve : Oper → Bool) (key : Node → ℕ) where
    -- The clauses hold, and every variable for an atom means the atom.
    abbrev pub Agrees : Cnf → Type 0
    Agrees s = (clauses_hold ρ preserve key s ≡ true) × Means s.cnf_map

    -- From the state `s` the formula `e` was converted to `r`, with the state `t` after it.
    pub record Outcome (e : Node) (s : Cnf) (r : Node) (t : Cnf) : Type 0 where
      pub sorted : covered r ≡ true
      pub named : IsSorted t.cnf_map
      pub seen : IsSorted t.visited
      pub earlier : Agrees t → Agrees s
      pub sound : Agrees t → Means s.visited → (holds ρ r ≡ holds ρ e) × Means t.visited

    -- Converted formulas mean what the formulas do, one by one.
    abbrev pub Same : List Node → Nodes → Type 0
    Same [] nil = Unit
    Same (r ∷ rs) (cons p ps) = (holds ρ r ≡ holds ρ p) × Same rs ps
    Same _ _ = ⊥

    abbrev pub same_length : List Node → Nodes → Bool
    same_length [] nil = true
    same_length (r ∷ rs) (cons p ps) = same_length rs ps
    same_length _ _ = false

    pub record Outcomes (ps : Nodes) (s : Cnf) (rs : List Node) (t : Cnf) : Type 0 where
      pub shape : same_length rs ps ≡ true
      pub sorted : all_of covered rs ≡ true
      pub named : IsSorted t.cnf_map
      pub seen : IsSorted t.visited
      pub earlier : Agrees t → Agrees s
      pub sound : Agrees t → Means s.visited → Same rs ps × Means t.visited

    Same-and :
        (rs : List Node) (ps : Nodes)
        → Same rs ps
        → all_true (eval_all ρ rs) ≡ all_true (eval_nodes ρ ps)
    unfolding eval
    Same-and [] nil x = refl
    Same-and [] (cons p ps) x = elim x [ ]
    Same-and (r ∷ rs) nil x = elim x [ ]
    Same-and (r ∷ rs) (cons p ps) (e, x) = ground (arith, Same-and rs ps x)

    Same-or :
        (rs : List Node) (ps : Nodes)
        → Same rs ps
        → any_true (eval_all ρ rs) ≡ any_true (eval_nodes ρ ps)
    unfolding eval
    Same-or [] nil x = refl
    Same-or [] (cons p ps) x = elim x [ ]
    Same-or (r ∷ rs) nil x = elim x [ ]
    Same-or (r ∷ rs) (cons p ps) (e, x) = ground (arith, Same-or rs ps x)

    Same-xor :
        (rs : List Node) (ps : Nodes)
        → Same rs ps
        → parity (eval_all ρ rs) ≡ parity (eval_nodes ρ ps)
    unfolding eval
    Same-xor [] nil x = refl
    Same-xor [] (cons p ps) x = elim x [ ]
    Same-xor (r ∷ rs) nil x = elim x [ ]
    Same-xor (r ∷ rs) (cons p ps) (e, x) = ground (arith, Same-xor rs ps x)

    abbrev pub holding : Cnf → Bool
    holding s = clauses_hold ρ preserve key s

    -- What the clauses of a gate say, where they hold.
    abbrev pub Says : Node → Bool → Cnf → Cnf → Type 0
    Says c v s t = holding t ≡ true → (holds ρ c ≡ v) × (holding s ≡ true)

    pub says :
        (c : Node) (v : Bool) (s t : Cnf)
        → holding t ≡ (not (xor (holds ρ c) v) && holding s)
        → Says c v s t
    says c v s t h e = (ground arith, ground arith)

    -- A gate on converted children, whose clauses say that its variable means `v`.
    gate-Outcome :
        (e : Node) (ps : Nodes) (s : Cnf) (rs : List Node) (s1 : Cnf) (c : Node) (s2 : Cnf)
        (v : Bool)
        → Outcomes ps s rs s1
        → covered c ≡ true
        → s2.cnf_map ≡ s1.cnf_map
        → s2.visited ≡ s1.visited
        → Says c v s1 s2
        → (Same rs ps → v ≡ holds ρ e)
        → Outcome e s c (visit e (c, s2)).1
    gate-Outcome e ps s rs s1 c s2 v o wc ec ev h w =
        let before : Agrees s2 → Agrees s1 = λ a. ((h a.0).1, subst Means ec a.1) in
        record {
          sorted = wc;
          named = subst IsSorted (sym ec) o.named;
          seen = (wc, subst IsSorted (sym ev) o.seen);
          earlier = λ a. o.earlier (before a);
          sound = λ a m.
              let (x, m') = o.sound (before a) m in
              let q = (h a.0).0 ∙ w x in (q, (q, subst Means (sym ev) m'));
        }

    -- A formula that is its own conversion.
    pub kept-Outcome :
        (e : Node) (s : Cnf)
        → covered e ≡ true
        → IsSorted s.cnf_map
        → IsSorted s.visited
        → Outcome e s e s
    kept-Outcome e s h n v = record {
      sorted = h;
      named = n;
      seen = v;
      earlier = λ a. a;
      sound = λ a m. (refl, m);
    }

    name_atom-Outcome :
        (e : Node) (s : Cnf)
        → covered e ≡ true
        → IsSorted s.cnf_map
        → IsSorted s.visited
        → Outcome e s (name_atom preserve key e s).0 (name_atom preserve key e s).1
    unfolding name_atom covered
    name_atom-Outcome e s h n v = record {
      sorted = refl;
      named = (mk_not-covered preserve key (temp s) refl, (refl, n));
      seen = v;
      earlier = λ a. (a.0, a.1.1.1);
      sound = λ a m. (a.1.1.0, m);
    }

    recalled-Outcome :
        (e r : Node) (s : Cnf) (m : NnfMap)
        → IsSorted s.cnf_map
        → IsSorted s.visited
        → IsSorted m
        → (Agrees s → Means s.visited → Means m)
        → find m e ≡ some r
        → Outcome e s r s
    recalled-Outcome e r s m n v w k h = record {
      sorted = find-IsSorted m e r w h;
      named = n;
      seen = v;
      earlier = λ a. a;
      sound = λ a x. (find-Means m e r (k a x) h, x);
    }

    pub or_else-Outcome :
        (e : Node) (s : Cnf) (m : NnfMap) (o : Option Node) (call : Node × Cnf)
        → IsSorted s.cnf_map
        → IsSorted s.visited
        → IsSorted m
        → (Agrees s → Means s.visited → Means m)
        → find m e ≡ o
        → Outcome e s call.0 call.1
        → Outcome e s (or_else preserve key o s call).0 (or_else preserve key o s call).1
    unfolding or_else
    or_else-Outcome e s m (some r) call n v w k h c = recalled-Outcome e r s m n v w k h
    or_else-Outcome e s m none call n v w k h c = c

    pub abstract_atom-Outcome :
        (e : Node) (s : Cnf)
        → covered e ≡ true
        → IsSorted s.cnf_map
        → IsSorted s.visited
        → Outcome e s (abstract_atom preserve key e s).0 (abstract_atom preserve key e s).1
    unfolding abstract_atom
    abstract_atom-Outcome e s h n v =
        or_else-Outcome e s s.cnf_map (find s.cnf_map e) (name_atom preserve key e s) n v n
          (λ a x. a.1) refl (name_atom-Outcome e s h n v)

    pub add_each_and_maps :
        (c : Node) (ps : List Node) (s : Cnf)
        → ((add_each_and preserve key c ps s).cnf_map ≡ s.cnf_map)
          × ((add_each_and preserve key c ps s).visited ≡ s.visited)
    unfolding add_each_and
    add_each_and_maps c [] s = (refl, refl)
    add_each_and_maps c (p ∷ ps) s =
        add_each_and_maps c ps (add preserve key (neg preserve key c ∷ p ∷ []) s)

    add_each_or_maps :
        (c : Node) (ps : List Node) (s : Cnf)
        → ((add_each_or preserve key c ps s).cnf_map ≡ s.cnf_map)
          × ((add_each_or preserve key c ps s).visited ≡ s.visited)
    unfolding add_each_or
    add_each_or_maps c [] s = (refl, refl)
    add_each_or_maps c (p ∷ ps) s =
        add_each_or_maps c ps (add preserve key (neg preserve key p ∷ c ∷ []) s)

    pub and_Outcome :
        (ps : Nodes) (s : Cnf) (rs : List Node) (s1 : Cnf)
        → Outcomes ps s rs s1
        → Outcome
            (oper and_op ps)
            s
            (visit (oper and_op ps) (to_tseitin_and preserve key rs s1)).0
            (visit (oper and_op ps) (to_tseitin_and preserve key rs s1)).1
    unfolding to_tseitin_and eval covered
    and_Outcome ps s rs s1 o =
        let maps = add_each_and_maps (temp s1) rs (bump s1) in
        let t = (to_tseitin_and preserve key rs s1).1 in
        gate-Outcome (oper and_op ps) ps s rs s1 (temp s1) t (all_true (eval_all ρ rs)) o refl
          maps.0 maps.1
          (says (temp s1) (all_true (eval_all ρ rs)) s1 t
            (to_tseitin_and_lem ρ preserve key rs s1 o.sorted))
          (λ x. Same-and rs ps x)

    pub or_Outcome :
        (ps : Nodes) (s : Cnf) (rs : List Node) (s1 : Cnf)
        → Outcomes ps s rs s1
        → Outcome
            (oper or_op ps)
            s
            (visit (oper or_op ps) (to_tseitin_or preserve key rs s1)).0
            (visit (oper or_op ps) (to_tseitin_or preserve key rs s1)).1
    unfolding to_tseitin_or eval covered
    or_Outcome ps s rs s1 o =
        let maps = add_each_or_maps (temp s1) rs (bump s1) in
        let t = (to_tseitin_or preserve key rs s1).1 in
        gate-Outcome (oper or_op ps) ps s rs s1 (temp s1) t (any_true (eval_all ρ rs)) o refl maps.0
          maps.1
          (says (temp s1) (any_true (eval_all ρ rs)) s1 t
            (to_tseitin_or_lem ρ preserve key rs s1 o.sorted))
          (λ x. Same-or rs ps x)

    pub not-Outcome :
        (p : Node) (s : Cnf) (r : Node) (s1 : Cnf)
        → Outcomes (cons p nil) s (r ∷ []) s1
        → Outcome
            (oper not_op (cons p nil))
            s
            (temp s1)
            (visit (oper not_op (cons p nil)) (to_tseitin_not preserve key r s1)).1
    unfolding to_tseitin_not eval covered
    not-Outcome p s r s1 o =
        let w = (&&_parts (covered r) true o.sorted).0 in
        let t = (to_tseitin_not preserve key r s1).1 in
        gate-Outcome (oper not_op (cons p nil)) (cons p nil) s (r ∷ []) s1 (temp s1) t
          (not (holds ρ r)) o refl refl refl
          (says (temp s1) (not (holds ρ r)) s1 t (to_tseitin_not_lem ρ preserve key r s1 w))
          (λ x. ap not x.0)

    fold_xor_lem :
        (r : Node) (rs : List Node) (s : Cnf)
        → covered r ≡ true
        → all_of covered rs ≡ true
        → (covered (fold_xor preserve key r rs s).0 ≡ true)
          × ((fold_xor preserve key r rs s).1.cnf_map ≡ s.cnf_map)
          × ((fold_xor preserve key r rs s).1.visited ≡ s.visited)
          × Says
              (fold_xor preserve key r rs s).0
              (xor (holds ρ r) (parity (eval_all ρ rs)))
              s
              (fold_xor preserve key r rs s).1
    unfolding fold_xor to_tseitin_xor covered
    fold_xor_lem r [] s hr h = (hr, refl, refl, λ e. (ground arith, e))
    fold_xor_lem r (p ∷ ps) s hr h =
        let (hp, hps) = &&_parts (covered p) (all_of covered ps) h in
        let t = (to_tseitin_xor preserve key r p s).1 in
        let (w, n, v, sound) = fold_xor_lem (temp s) ps t refl hps in
        let first =
          says (temp s) (xor (holds ρ r) (holds ρ p)) s t
            (to_tseitin_xor_lem ρ preserve key r p s hr hp) in
        (
          w,
          n,
          v,
          λ e.
              let (q, e1) = sound e in
              let (q1, e2) = first e1 in
              (
                q
                    ∙ ap (λ b. xor b (parity (eval_all ρ ps))) q1
                    ∙ xor_assoc (holds ρ r) (holds ρ p) _,
                e2,
              ),
        )

    pub xor-Outcome :
        (ps : Nodes) (s : Cnf) (r : Node) (rs : List Node) (s1 : Cnf)
        → Outcomes ps s (r ∷ rs) s1
        → Outcome
            (oper xor_op ps)
            s
            (fold_xor preserve key r rs s1).0
            (visit (oper xor_op ps) (fold_xor preserve key r rs s1)).1
    unfolding eval covered
    xor-Outcome ps s r rs s1 o =
        let (hr, hrs) = &&_parts (covered r) (all_of covered rs) o.sorted in
        let (w, n, v, sound) = fold_xor_lem r rs s1 hr hrs in
        gate-Outcome (oper xor_op ps) ps s (r ∷ rs) s1 (fold_xor preserve key r rs s1).0
          (fold_xor preserve key r rs s1).1 (xor (holds ρ r) (parity (eval_all ρ rs))) o w n v sound
          (λ x. Same-xor (r ∷ rs) ps x)

    pub eq-Outcome :
        (p q : Node) (s : Cnf) (a b : Node) (s1 : Cnf)
        → covered p ≡ true
        → covered q ≡ true
        → Outcomes (cons p (cons q nil)) s (a ∷ b ∷ []) s1
        → Outcome
            (oper eq_op (cons p (cons q nil)))
            s
            (temp s1)
            (visit (oper eq_op (cons p (cons q nil))) (to_tseitin_eq preserve key a b s1)).1
    unfolding to_tseitin_eq eval covered
    eq-Outcome p q s a b s1 hp hq o =
        let (ha, hb') = &&_parts (covered a) (all_of covered (b ∷ [])) o.sorted in
        let hb = (&&_parts (covered b) true hb').0 in
        let t = (to_tseitin_eq preserve key a b s1).1 in
        let v = not (xor (holds ρ a) (holds ρ b)) in
        gate-Outcome (oper eq_op (cons p (cons q nil))) (cons p (cons q nil)) s (a ∷ b ∷ []) s1
          (temp s1) t v o refl refl refl
          (says (temp s1) v s1 t (to_tseitin_eq_lem ρ preserve key a b s1 ha hb))
          (λ x. both_equal p q (holds ρ a) (holds ρ b) hp hq x.0 x.1.0)

    pub distinct-Outcome :
        (p q : Node) (s : Cnf) (a b : Node) (s1 : Cnf)
        → covered p ≡ true
        → covered q ≡ true
        → Outcomes (cons p (cons q nil)) s (a ∷ b ∷ []) s1
        → Outcome
            (oper distinct_op (cons p (cons q nil)))
            s
            (temp s1)
            (visit
              (oper distinct_op (cons p (cons q nil)))
              (to_tseitin_distinct preserve key a b s1)).1
    unfolding to_tseitin_distinct eval covered
    distinct-Outcome p q s a b s1 hp hq o =
        let (ha, hb') = &&_parts (covered a) (all_of covered (b ∷ [])) o.sorted in
        let hb = (&&_parts (covered b) true hb').0 in
        let t = (to_tseitin_distinct preserve key a b s1).1 in
        let v = xor (holds ρ a) (holds ρ b) in
        gate-Outcome (oper distinct_op (cons p (cons q nil))) (cons p (cons q nil)) s (a ∷ b ∷ [])
          s1 (temp s1) t v o refl refl refl
          (says (temp s1) v s1 t (to_tseitin_distinct_lem ρ preserve key a b s1 ha hb))
          (λ x. both_differ p q (holds ρ a) (holds ρ b) hp hq x.0 x.1.0)

    pub ite-Outcome :
        (p q r : Node) (s : Cnf) (a b d : Node) (s1 : Cnf)
        → Outcomes (cons p (cons q (cons r nil))) s (a ∷ b ∷ d ∷ []) s1
        → Outcome
            (oper ite_op (cons p (cons q (cons r nil))))
            s
            (temp s1)
            (visit
              (oper ite_op (cons p (cons q (cons r nil))))
              (to_tseitin_ite preserve key a b d s1)).1
    unfolding to_tseitin_ite eval covered
    ite-Outcome p q r s a b d s1 o =
        let (ha, h1) = &&_parts (covered a) (all_of covered (b ∷ d ∷ [])) o.sorted in
        let (hb, h2) = &&_parts (covered b) (all_of covered (d ∷ [])) h1 in
        let hd = (&&_parts (covered d) true h2).0 in
        let t = (to_tseitin_ite preserve key a b d s1).1 in
        let v = if holds ρ a then holds ρ b else holds ρ d in
        gate-Outcome (oper ite_op (cons p (cons q (cons r nil)))) (cons p (cons q (cons r nil))) s
          (a ∷ b ∷ d ∷ []) s1 (temp s1) t v o refl refl refl
          (says (temp s1) v s1 t (to_tseitin_ite_lem ρ preserve key a b d s1 ha hb hd))
          (λ x. both_chosen p q r (holds ρ a) (holds ρ b) (holds ρ d) x.0 x.1.0 x.1.1.0)
