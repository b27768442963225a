-- ===== src/Term/Make/Implies.antt =====
-- mkImplies and mkIte mean what they say: src/frontend/op_parser.cpp, lines 1124-1160 and 1206-1219.
use smtlibparser.Prelude.{
  ℕ, ◌≡◌, refl, ◌∙◌, ap, Bool, true, false, ◌&&◌, ◌||◌, not, List, [], ◌∷◌, ◌++◌, arith,
  if◌then◌else◌, by_if,
}
use smtlibparser.Term.{Oper, Node, const_true, is_true, is_false, is_err, implies_op}
use smtlibparser.Term.Meaning.{Valuation, eval, eval_all, holds, implication}
use smtlibparser.Term.Simp.{simp_by_size, simp_3}
use smtlibparser.Term.Simp.Laws.{holds-is_true, holds-is_false, simp_by_size-implies}
use smtlibparser.Term.Make.{
  is_commutative, mk_internal_oper, mk_oper, mk_oper_few, Scan, stop, keep, keep_too, scan_premises,
  init, back, implies_end, mk_implies, mk_ite,
}
use smtlibparser.Term.Make.Sorting.{eval_nodes-to_nodes}
use smtlibparser.Term.Make.Join.{no_error}

init-back : (p : Node) (qs : List Node) → init p qs ++ back p qs ∷ [] ≡ p ∷ qs
init-back p [] = refl
init-back p (q ∷ qs) = ap (λ l. p ∷ l) (init-back q qs)

no_error-back : (p : Node) (qs : List Node) → no_error (p ∷ qs) ≡ true → is_err (back p qs) ≡ false
no_error-back p [] h = ground arith
no_error-back p (q ∷ qs) h = no_error-back q qs (ground arith)

no_error-init : (p : Node) (qs : List Node) → no_error (p ∷ qs) ≡ true → no_error (init p qs) ≡ true
no_error-init p [] h = refl
no_error-init p (q ∷ qs) h = ground (arith, no_error-init q qs)

-- No node is a constant.
abbrev is_open : List Node → Bool
is_open [] = true
is_open (p ∷ ps) = not (is_true p) && (not (is_false p) && is_open ps)

module _ (ρ : Valuation) (preserve : Oper → Bool) (key : Node → ℕ) where
  implication_cons :
      (p last : Node) (ps : List Node)
      → implication (eval_all ρ (p ∷ ps ++ last ∷ []))
        ≡ (not (holds ρ p) || implication (eval_all ρ (ps ++ last ∷ [])))
  implication_cons p last [] = refl
  implication_cons p last (q ∷ ps) = refl

  abbrev Premises : Node → Bool → Scan → Type 0
  Premises last v (stop n) = (n ≡ const_true) × (v ≡ true)
  Premises last v (keep rs) = (implication (eval_all ρ (rs ++ last ∷ [])) ≡ v) × (is_open rs ≡ true)

  Premises-keep_too :
      (p last : Node) (v : Bool) (r : Scan)
      → is_true p ≡ false
      → is_false p ≡ false
      → Premises last v r
      → Premises last (not (holds ρ p) || v) (keep_too p r)
  Premises-keep_too p last v (stop n) t f (e, h) = (e, ground arith)
  Premises-keep_too p last v (keep rs) t f (e, h) =
      (ground (arith, implication_cons p last rs), ground arith)

  scan_premises_lem :
      (last : Node) (ps : List Node)
      → no_error ps ≡ true
      → Premises last (implication (eval_all ρ (ps ++ last ∷ []))) (scan_premises ps)
  unfolding scan_premises
  scan_premises_lem last [] h = (refl, refl)
  scan_premises_lem last (p ∷ ps) h =
      let ih = scan_premises_lem last ps (ground arith) in
      rw (implication_cons p last ps) (
        by_if (Premises last _) (is_err p) _ _ (λ e. ground arith)
          (λ e.
            by_if (Premises last _) (is_false p) _ _
              (λ f. (refl, ground (arith, holds-is_false ρ p)))
              (λ f.
                by_if (Premises last _) (is_true p) _ _ (λ t. rw (holds-is_true ρ p t) ih)
                  (λ t. Premises-keep_too p last _ _ t f ih))))

  mk_internal_oper-implies :
      (ps : List Node)
      → holds ρ (mk_internal_oper preserve key implies_op ps) ≡ implication (eval_all ρ ps)
  unfolding mk_internal_oper is_commutative eval
  mk_internal_oper-implies ps = ap implication (eval_nodes-to_nodes ρ ps)

  mk_oper-implies :
      (r last : Node) (more : List Node)
      → is_open (r ∷ more) ≡ true
      → holds ρ (mk_oper preserve key implies_op (r ∷ more ++ last ∷ []))
        ≡ implication (eval_all ρ (r ∷ more ++ last ∷ []))
  unfolding mk_oper
  mk_oper-implies r last [] h = ground (
    arith,
    mk_internal_oper-implies (r ∷ last ∷ []),
    simp_by_size-implies ρ r last [] (ground arith) (λ e. absurd (e refl)),
  )
  mk_oper-implies r last (s ∷ more) h = ground (
    arith,
    mk_internal_oper-implies (r ∷ s ∷ more ++ last ∷ []),
    simp_by_size-implies ρ r s (more ++ last ∷ []) (ground arith) (λ e. ground arith),
  )

  implies_end_lem :
      (last : Node) (v : Bool) (r : Scan)
      → is_err last ≡ false
      → Premises last v r
      → holds ρ (implies_end preserve key last r) ≡ v
  unfolding implies_end eval
  implies_end_lem last v (stop n) e (c, h) = ground arith
  implies_end_lem last v (keep []) e (c, h) = ground arith
  implies_end_lem last v (keep (r ∷ rs)) e (c, h) = ground (arith, mk_oper-implies r last rs)

  -- Where no operand is an error, mkImplies of two operands or more gives a node that holds exactly
  -- where the implication, read from the right, does.
  pub mk_implies_lem :
      (p q : Node) (ps : List Node)
      → no_error (p ∷ q ∷ ps) ≡ true
      → holds ρ (mk_implies preserve key (p ∷ q ∷ ps)) ≡ implication (eval_all ρ (p ∷ q ∷ ps))
  unfolding mk_implies
  mk_implies_lem p q ps h =
      let last = back p (q ∷ ps) in
      let sound = scan_premises_lem last (init p (q ∷ ps)) (no_error-init p (q ∷ ps) h) in
      implies_end_lem last _ _ (no_error-back p (q ∷ ps) h) sound
      ∙ ap (λ l. implication (eval_all ρ l)) (init-back p (q ∷ ps))

  -- mkIte gives an error operand back; else its node means what the chosen operand means.
  pub mk_ite_lem :
      (c l r : Node)
      → no_error (c ∷ l ∷ r ∷ []) ≡ true
      → eval ρ (mk_ite preserve key c l r) ≡ (if holds ρ c then eval ρ l else eval ρ r)
  unfolding mk_ite mk_oper_few mk_oper mk_internal_oper simp_by_size simp_3 is_commutative eval
  mk_ite_lem c l r h = ground (arith, holds-is_true ρ c, holds-is_false ρ c)
