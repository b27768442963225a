-- ===== src/Term/Make/Join.antt =====
-- mkAnd, mkOr and mkXor mean what they say: the loops over the operands, src/frontend/op_parser.cpp,
-- lines 978-1052 and 1164-1202.
use smtlibparser.Prelude.{
  ℕ, ◌≡◌, refl, ◌∙◌, ap, Bool, true, false, ◌&&◌, ◌||◌, not, List, [], ◌∷◌, arith, Bool-cases,
  by_if, inl, inr,
}
use smtlibparser.Term.{
  Oper, Node, const_true, const_false, error, is_true, is_false, is_err, and_op, or_op, xor_op,
  is_bool_param, sort_of,
}
use smtlibparser.Term.Meaning.{Valuation, eval, eval_all, holds, all_true, any_true, parity}
use smtlibparser.Term.Identity.{same_node-eq}
use smtlibparser.Term.Simp.Laws.{
  holds-is_true, holds-is_false, simp_by_size-and, simp_by_size-or, simp_by_size-xor,
}
use smtlibparser.Term.Make.{
  is_commutative, mk_internal_oper, mk_oper, finish, Scan, stop, keep, keep_too, scan, scan_xor,
  contains_node, dedup, join_end, mk_join, mk_and, mk_or, mk_xor, sort_params,
}
use smtlibparser.Term.Make.Sorting.{
  eval_nodes-to_nodes, all_true-sort_params, any_true-sort_params, parity-sort_params,
}

-- Every operand is of the Boolean sort.
abbrev pub all_bool : List Node → Bool
all_bool [] = true
all_bool (p ∷ ps) = is_bool_param p && all_bool ps

-- No operand is the error node.
abbrev pub no_error : List Node → Bool
no_error [] = true
no_error (p ∷ ps) = not (is_err p) && no_error ps

module _ (ρ : Valuation) (preserve : Oper → Bool) (key : Node → ℕ) where
  mk_internal_oper-and :
      (ps : List Node)
      → holds ρ (mk_internal_oper preserve key and_op ps) ≡ all_true (eval_all ρ ps)
  unfolding mk_internal_oper is_commutative eval
  mk_internal_oper-and ps =
      ap all_true (eval_nodes-to_nodes ρ (sort_params key ps)) ∙ all_true-sort_params ρ key ps

  mk_internal_oper-or :
      (ps : List Node) → holds ρ (mk_internal_oper preserve key or_op ps) ≡ any_true (eval_all ρ ps)
  unfolding mk_internal_oper is_commutative eval
  mk_internal_oper-or ps =
      ap any_true (eval_nodes-to_nodes ρ (sort_params key ps)) ∙ any_true-sort_params ρ key ps

  mk_internal_oper-xor :
      (ps : List Node) → holds ρ (mk_internal_oper preserve key xor_op ps) ≡ parity (eval_all ρ ps)
  unfolding mk_internal_oper is_commutative eval
  mk_internal_oper-xor ps =
      ap parity (eval_nodes-to_nodes ρ (sort_params key ps)) ∙ parity-sort_params ρ key ps

  mk_oper-and :
      (p q : Node) (ps : List Node)
      → holds ρ (mk_oper preserve key and_op (p ∷ q ∷ ps)) ≡ all_true (eval_all ρ (p ∷ q ∷ ps))
  unfolding mk_oper
  mk_oper-and p q ps = ground (arith, mk_internal_oper-and (p ∷ q ∷ ps), simp_by_size-and ρ p q ps)

  mk_oper-or :
      (p q : Node) (ps : List Node)
      → holds ρ (mk_oper preserve key or_op (p ∷ q ∷ ps)) ≡ any_true (eval_all ρ (p ∷ q ∷ ps))
  unfolding mk_oper
  mk_oper-or p q ps = ground (arith, mk_internal_oper-or (p ∷ q ∷ ps), simp_by_size-or ρ p q ps)

  mk_oper-xor :
      (p q : Node) (ps : List Node)
      → holds ρ (mk_oper preserve key xor_op (p ∷ q ∷ ps)) ≡ parity (eval_all ρ (p ∷ q ∷ ps))
  unfolding mk_oper
  mk_oper-xor p q ps = ground (arith, mk_internal_oper-xor (p ∷ q ∷ ps), simp_by_size-xor ρ p q ps)

  -- What is left after the loop.
  finish-and :
      (ps : List Node)
      → holds ρ (finish preserve key and_op const_true ps) ≡ all_true (eval_all ρ ps)
  unfolding finish eval
  finish-and [] = refl
  finish-and (p ∷ []) = ground arith
  finish-and (p ∷ q ∷ ps) = mk_oper-and p q ps

  finish-or :
      (ps : List Node)
      → holds ρ (finish preserve key or_op const_false ps) ≡ any_true (eval_all ρ ps)
  unfolding finish eval
  finish-or [] = refl
  finish-or (p ∷ []) = ground arith
  finish-or (p ∷ q ∷ ps) = mk_oper-or p q ps

  finish-xor :
      (ps : List Node)
      → holds ρ (finish preserve key xor_op const_false ps) ≡ parity (eval_all ρ ps)
  unfolding finish eval
  finish-xor [] = refl
  finish-xor (p ∷ []) = ground arith
  finish-xor (p ∷ q ∷ ps) = mk_oper-xor p q ps

  -- An operand that was seen decides nothing new.
  contains_node-all :
      (seen : List Node) (p : Node)
      → contains_node seen p ≡ true
      → (holds ρ p && all_true (eval_all ρ seen)) ≡ all_true (eval_all ρ seen)
  unfolding contains_node
  contains_node-all [] p h = cc
  contains_node-all (q ∷ qs) p h = ground (arith, contains_node-all qs p, same_node-eq q p)

  contains_node-any :
      (seen : List Node) (p : Node)
      → contains_node seen p ≡ true
      → (holds ρ p || any_true (eval_all ρ seen)) ≡ any_true (eval_all ρ seen)
  unfolding contains_node
  contains_node-any [] p h = cc
  contains_node-any (q ∷ qs) p h = ground (arith, contains_node-any qs p, same_node-eq q p)

  dedup-all :
      (seen ps : List Node)
      → (all_true (eval_all ρ seen) && all_true (eval_all ρ (dedup seen ps)))
        ≡ (all_true (eval_all ρ seen) && all_true (eval_all ρ ps))
  unfolding dedup
  dedup-all seen [] = refl
  dedup-all seen (p ∷ ps) =
      ground (arith, dedup-all seen ps, dedup-all (p ∷ seen) ps, contains_node-all seen p)

  dedup-any :
      (seen ps : List Node)
      → (any_true (eval_all ρ seen) || any_true (eval_all ρ (dedup seen ps)))
        ≡ (any_true (eval_all ρ seen) || any_true (eval_all ρ ps))
  unfolding dedup
  dedup-any seen [] = refl
  dedup-any seen (p ∷ ps) =
      ground (arith, dedup-any seen ps, dedup-any (p ∷ seen) ps, contains_node-any seen p)

  -- The loop itself, for Boolean operands.
  abbrev AndScan : Bool → Scan → Type 0
  AndScan v (stop n) = (n ≡ const_false) × (v ≡ false)
  AndScan v (keep ps) = all_true (eval_all ρ ps) ≡ v

  abbrev OrScan : Bool → Scan → Type 0
  OrScan v (stop n) = (n ≡ const_true) × (v ≡ true)
  OrScan v (keep ps) = any_true (eval_all ρ ps) ≡ v

  AndScan-keep_too :
      (p : Node) (v : Bool) (r : Scan) → AndScan v r → AndScan (holds ρ p && v) (keep_too p r)
  AndScan-keep_too p v (stop n) (e, h) = (e, ground arith)
  AndScan-keep_too p v (keep ps) h = ground arith

  OrScan-keep_too :
      (p : Node) (v : Bool) (r : Scan) → OrScan v r → OrScan (holds ρ p || v) (keep_too p r)
  OrScan-keep_too p v (stop n) (e, h) = (e, ground arith)
  OrScan-keep_too p v (keep ps) h = ground arith

  -- A node of the Boolean sort is no error.
  is_err_lem : (p : Node) → is_bool_param p ≡ true → is_err p ≡ false
  unfolding sort_of
  is_err_lem error h = cc
  is_err_lem _ h = refl

  scan-and :
      (ps : List Node)
      → all_bool ps ≡ true
      → AndScan (all_true (eval_all ρ ps)) (scan is_true is_false const_false ps)
  unfolding scan
  scan-and [] h = refl
  scan-and (p ∷ ps) h =
      let ih = scan-and ps (ground arith) in
      let v = all_true (eval_all ρ (p ∷ ps)) in
      by_if (AndScan v) (not (is_bool_param p)) _ _ (λ e. ground arith)
        (λ b.
          by_if (AndScan v) (is_err p) _ _ (λ e. ground (arith, is_err_lem p))
            (λ e.
              by_if (AndScan v) (is_true p) _ _ (λ t. rw (holds-is_true ρ p t) ih)
                (λ t.
                  by_if (AndScan v) (is_false p) _ _
                    (λ f. (refl, ground (arith, holds-is_false ρ p)))
                    (λ f. AndScan-keep_too p _ _ ih))))

  scan-or :
      (ps : List Node)
      → all_bool ps ≡ true
      → OrScan (any_true (eval_all ρ ps)) (scan is_false is_true const_true ps)
  unfolding scan
  scan-or [] h = refl
  scan-or (p ∷ ps) h =
      let ih = scan-or ps (ground arith) in
      let v = any_true (eval_all ρ (p ∷ ps)) in
      by_if (OrScan v) (not (is_bool_param p)) _ _ (λ e. ground arith)
        (λ b.
          by_if (OrScan v) (is_err p) _ _ (λ e. ground (arith, is_err_lem p))
            (λ e.
              by_if (OrScan v) (is_false p) _ _ (λ t. rw (holds-is_false ρ p t) ih)
                (λ t.
                  by_if (OrScan v) (is_true p) _ _ (λ f. (refl, ground (arith, holds-is_true ρ p)))
                    (λ f. OrScan-keep_too p _ _ ih))))

  join_end-and :
      (v : Bool) (r : Scan) → AndScan v r → holds ρ (join_end preserve key and_op const_true r) ≡ v
  unfolding join_end eval
  join_end-and v (stop n) (e, h) = ground arith
  join_end-and v (keep ps) h = ground (arith, finish-and (dedup [] ps), dedup-all [] ps)

  join_end-or :
      (v : Bool) (r : Scan) → OrScan v r → holds ρ (join_end preserve key or_op const_false r) ≡ v
  unfolding join_end eval
  join_end-or v (stop n) (e, h) = ground arith
  join_end-or v (keep ps) h = ground (arith, finish-or (dedup [] ps), dedup-any [] ps)

  -- For Boolean operands, and whatever is preserved and however nodes are ordered, mkAnd gives a
  -- node that holds exactly where all operands do.
  pub mk_and_lem :
      (ps : List Node)
      → all_bool ps ≡ true
      → holds ρ (mk_and preserve key ps) ≡ all_true (eval_all ρ ps)
  unfolding mk_and mk_join eval
  mk_and_lem [] h = refl
  mk_and_lem (p ∷ []) h = ground arith
  mk_and_lem (p ∷ q ∷ ps) h = join_end-and _ _ (scan-and (p ∷ q ∷ ps) h)

  -- For Boolean operands, and whatever is preserved and however nodes are ordered, mkOr gives a
  -- node that holds exactly where some operand does.
  pub mk_or_lem :
      (ps : List Node)
      → all_bool ps ≡ true
      → holds ρ (mk_or preserve key ps) ≡ any_true (eval_all ρ ps)
  unfolding mk_or mk_join eval
  mk_or_lem [] h = refl
  mk_or_lem (p ∷ []) h = ground arith
  mk_or_lem (p ∷ q ∷ ps) h = join_end-or _ _ (scan-or (p ∷ q ∷ ps) h)

  scan_xor-keep :
      (ps : List Node)
      → no_error ps ≡ true
      → (qs : List Node) × (scan_xor ps ≡ keep qs)
        × (parity (eval_all ρ qs) ≡ parity (eval_all ρ ps))
  unfolding scan_xor
  scan_xor-keep [] h = ([], refl, refl)
  scan_xor-keep (p ∷ ps) h =
      let (qs, e, v) = scan_xor-keep ps (ground arith) in
      elim (Bool-cases (is_false p)) [
        | inl f ↦ (qs, ground arith, ground (arith, holds-is_false ρ p))
        | inr f ↦ (p ∷ qs, ground arith, ground arith)
      ]

  -- Where no operand is an error, mkXor gives a node that holds exactly where an odd number of the
  -- operands does.
  pub mk_xor_lem :
      (ps : List Node)
      → no_error ps ≡ true
      → holds ρ (mk_xor preserve key ps) ≡ parity (eval_all ρ ps)
  unfolding mk_xor eval
  mk_xor_lem [] h = refl
  mk_xor_lem (p ∷ []) h = ground arith
  mk_xor_lem (p ∷ q ∷ ps) h =
      let (qs, e, v) = scan_xor-keep (p ∷ q ∷ ps) h in ground (arith, e, finish-xor qs, v)
