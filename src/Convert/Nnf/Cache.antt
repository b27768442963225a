-- ===== src/Convert/Nnf/Cache.antt =====
-- The map of normal forms, nnf_map: src/frontend/conv_parser.cpp, lines 1617-1623 and 1720-1728.
use smtlibparser.Prelude.{
  ℕ, ◌≡◌, refl, ◌∙◌, Bool, true, false, List, [], ◌∷◌, arith, Option, some, none, Bool-cases,
  &&_parts, inl, inr,
}
use smtlibparser.Term.{Oper, Node, to_nodes, same_node}
use smtlibparser.Term.Identity.{same_node-eq}
use smtlibparser.Term.Meaning.{Valuation, holds, eval_all, all_true}
use smtlibparser.Term.WellSorted.{well_sorted, binary, well_sorted-covered}
use smtlibparser.Term.Covered.{covered, all_covered, covered-is_bool_param}
use smtlibparser.Term.Make.{mk_and}
use smtlibparser.Term.Make.Join.{all_bool, mk_and_lem}
use smtlibparser.Term.Make.Closure.{all_of, mk_and_closed}
use smtlibparser.Convert.Nnf.{
  is_nnf, NnfMap, find, recall, to_nnf, to_nnf_cached, to_nnf_conjunction,
}
use smtlibparser.Convert.Nnf.Form.{to_nnf_form}
use smtlibparser.Convert.Nnf.Meaning.{to_nnf_meaning}

-- `r` has the form `is_nnf` and the meaning of `e`.
pub record NnfOf (e r : Node) : Type 0 where
  pub form : is_nnf r ≡ true
  pub meaning : (ρ : Valuation) → holds ρ r ≡ holds ρ e

-- Every entry of the map is one.
abbrev pub IsNnfMap : NnfMap → Type 0
IsNnfMap [] = Unit
IsNnfMap ((e, r) ∷ m) = NnfOf e r × IsNnfMap m

found : {e k r s : Node} → k ≡ e → s ≡ r → NnfOf k s → NnfOf e r
found {e} {k} {r} {s} p q x = record {
  form = ground (arith, q, x.form);
  meaning = λ ρ. ground (arith, p, q, x.meaning ρ);
}

find-NnfOf : (m : NnfMap) (e r : Node) → IsNnfMap m → find m e ≡ some r → NnfOf e r
unfolding find
find-NnfOf [] e r v h = absurd (cc)
find-NnfOf ((k, s) ∷ m) e r (x, v) h = elim (Bool-cases (same_node k e)) [
  | inl t ↦ found (same_node-eq k e t) (ground arith) x
  | inr f ↦ find-NnfOf m e r v (ground arith)
]

pub all_covered-all_bool : (ps : List Node) → all_of covered ps ≡ true → all_bool ps ≡ true
all_covered-all_bool [] h = refl
all_covered-all_bool (p ∷ ps) h = ground (arith, covered-is_bool_param p, all_covered-all_bool ps)

all_covered-to_nodes :
    (ps : List Node) → all_of covered ps ≡ true → all_covered (to_nodes ps) ≡ true
unfolding covered
all_covered-to_nodes [] h = refl
all_covered-to_nodes (p ∷ ps) h = ground (arith, all_covered-to_nodes ps)

all_well_sorted-covered :
    (ps : List Node)
    → all_of well_sorted ps ≡ true
    → all_of binary ps ≡ true
    → all_of covered ps ≡ true
all_well_sorted-covered [] h b = refl
all_well_sorted-covered (p ∷ ps) h b =
    let (hp, hps) = &&_parts _ _ h in
    let (bp, bps) = &&_parts _ _ b in
    rw (well_sorted-covered p hp bp) (all_well_sorted-covered ps hps bps)

module _ (preserve : Oper → Bool) (key : Node → ℕ) where
  recall-IsNnfMap :
      (m : NnfMap) (e : Node) (o : Option Node)
      → IsNnfMap m
      → covered e ≡ true
      → ((r : Node) → o ≡ some r → NnfOf e r)
      → NnfOf e (recall preserve key m e o).0 × IsNnfMap (recall preserve key m e o).1
  unfolding recall
  recall-IsNnfMap m e (some r) v w h = (h r refl, v)
  recall-IsNnfMap m e none v w h =
      let new : NnfOf e (to_nnf preserve key e false) = record {
        form = to_nnf_form preserve key e false w;
        meaning = λ ρ. to_nnf_meaning ρ preserve key e false w;
      } in
      (new, (new, v))

  -- For a covered formula the map stays one of normal forms.
  pub to_nnf_cached_step :
      (m : NnfMap) (e : Node)
      → IsNnfMap m
      → covered e ≡ true
      → NnfOf e (to_nnf_cached preserve key m e).0 × IsNnfMap (to_nnf_cached preserve key m e).1
  unfolding to_nnf_cached
  to_nnf_cached_step m e v w = recall-IsNnfMap m e (find m e) v w (λ r h. find-NnfOf m e r v h)

  -- From a map in which every entry has the form `is_nnf` (conjunctions and disjunctions of constants,
  -- leaves and negated leaves, where an exclusive disjunction, an equation or a distinction of any
  -- formulas is a leaf) and the meaning of its key, and on a well-sorted formula in which every
  -- implication has two operands and every comparison of integers compares two variables, the toNNF
  -- of a formula gives a node of that form with the meaning of the formula, and leaves such a map.
  pub to_nnf_cached-IsNnfMap :
      (m : NnfMap) (e : Node)
      → IsNnfMap m
      → well_sorted e ≡ true
      → binary e ≡ true
      → NnfOf e (to_nnf_cached preserve key m e).0 × IsNnfMap (to_nnf_cached preserve key m e).1
  to_nnf_cached-IsNnfMap m e v h b = to_nnf_cached_step m e v (well_sorted-covered e h b)

  mk_and-covered :
      (es : List Node) → all_of covered es ≡ true → covered (mk_and preserve key es) ≡ true
  unfolding covered
  mk_and-covered es h =
      mk_and_closed covered preserve key (refl, refl, all_covered-to_nodes) es
        (all_covered-all_bool es h) h

  -- From a map in which every entry has the form `is_nnf` (conjunctions and disjunctions of constants,
  -- leaves and negated leaves, where an exclusive disjunction, an equation or a distinction of any
  -- formulas is a leaf) and the meaning of its key, and on well-sorted formulas in which every
  -- implication has two operands and every comparison of integers compares two variables, the toNNF
  -- of a vector gives a node of that form that holds exactly where all formulas do, and leaves such a
  -- map.
  pub to_nnf_conjunction-IsNnfMap :
      (m : NnfMap) (es : List Node)
      → IsNnfMap m
      → all_of well_sorted es ≡ true
      → all_of binary es ≡ true
      → (is_nnf (to_nnf_conjunction preserve key m es).0 ≡ true)
        × ((ρ : Valuation)
            → holds ρ (to_nnf_conjunction preserve key m es).0 ≡ all_true (eval_all ρ es))
        × IsNnfMap (to_nnf_conjunction preserve key m es).1
  unfolding to_nnf_conjunction
  to_nnf_conjunction-IsNnfMap m es v w k =
      let h = all_well_sorted-covered es w k in
      let (r, v') = to_nnf_cached_step m (mk_and preserve key es) v (mk_and-covered es h) in
      let b = all_covered-all_bool es h in
      (r.form, λ ρ. r.meaning ρ ∙ mk_and_lem ρ preserve key es b, (r, v'))
