-- ===== src/Term/Simp/Laws.antt =====
-- What simp_oper decides is what the operands mean.
use smtlibparser.Prelude.{◌≡◌, ◌≢◌, refl, Bool, true, false, not, ◌&&◌, ◌||◌, List, [], ◌∷◌, arith}
use mathlib.Core.List.{cons≢nil}
use smtlibparser.Term.{
  Node, const_true, const_false, is_true, is_false, is_unknown, and_op, or_op, implies_op, xor_op,
}
use smtlibparser.Term.Meaning.{
  Valuation, eval, eval_all, holds, xor, all_true, any_true, parity, implication,
}
use smtlibparser.Term.Simp.{simp_2, simp_3, simp_chain, simp_implies, simp_by_size, simp_n}

module _ (ρ : Valuation) where
  pub holds-is_true : (p : Node) → is_true p ≡ true → holds ρ p ≡ true
  unfolding eval
  holds-is_true const_true h = refl
  holds-is_true _ h = cc

  pub holds-is_false : (p : Node) → is_false p ≡ true → holds ρ p ≡ false
  unfolding eval
  holds-is_false const_false h = refl
  holds-is_false _ h = cc

  -- Two operands.
  simp_2-and :
      (l r : Node)
      → is_unknown (simp_2 and_op l r) ≡ false
      → holds ρ (simp_2 and_op l r) ≡ (holds ρ l && holds ρ r)
  unfolding simp_2 eval
  simp_2-and l r h =
      ground (arith, holds-is_true l, holds-is_false l, holds-is_true r, holds-is_false r)

  simp_2-or :
      (l r : Node)
      → is_unknown (simp_2 or_op l r) ≡ false
      → holds ρ (simp_2 or_op l r) ≡ (holds ρ l || holds ρ r)
  unfolding simp_2 eval
  simp_2-or l r h =
      ground (arith, holds-is_true l, holds-is_false l, holds-is_true r, holds-is_false r)

  simp_2-implies :
      (l r : Node)
      → is_unknown (simp_2 implies_op l r) ≡ false
      → holds ρ (simp_2 implies_op l r) ≡ (not (holds ρ l) || holds ρ r)
  unfolding simp_2 eval
  simp_2-implies l r h =
      ground (arith, holds-is_true l, holds-is_false l, holds-is_true r, holds-is_false r)

  simp_2-xor :
      (l r : Node)
      → is_unknown (simp_2 xor_op l r) ≡ false
      → holds ρ (simp_2 xor_op l r) ≡ xor (holds ρ l) (holds ρ r)
  unfolding simp_2 eval
  simp_2-xor l r h =
      ground (arith, holds-is_true l, holds-is_false l, holds-is_true r, holds-is_false r)

  -- Chains of operands.
  simp_chain-and :
      (p : Node) (ps : List Node)
      → is_unknown (simp_chain and_op p ps) ≡ false
      → holds ρ (simp_chain and_op p ps) ≡ (holds ρ p && all_true (eval_all ρ ps))
  unfolding simp_chain
  simp_chain-and p [] h = ground arith
  simp_chain-and p (q ∷ ps) h =
      ground (arith, simp_2-and p q, simp_chain-and (simp_2 and_op p q) ps)

  simp_chain-or :
      (p : Node) (ps : List Node)
      → is_unknown (simp_chain or_op p ps) ≡ false
      → holds ρ (simp_chain or_op p ps) ≡ (holds ρ p || any_true (eval_all ρ ps))
  unfolding simp_chain
  simp_chain-or p [] h = ground arith
  simp_chain-or p (q ∷ ps) h = ground (arith, simp_2-or p q, simp_chain-or (simp_2 or_op p q) ps)

  simp_chain-xor :
      (p : Node) (ps : List Node)
      → is_unknown (simp_chain xor_op p ps) ≡ false
      → holds ρ (simp_chain xor_op p ps) ≡ xor (holds ρ p) (parity (eval_all ρ ps))
  unfolding simp_chain
  simp_chain-xor p [] h = ground arith
  simp_chain-xor p (q ∷ ps) h =
      ground (arith, simp_2-xor p q, simp_chain-xor (simp_2 xor_op p q) ps)

  -- Three operands.
  simp_3-and :
      (l m r : Node)
      → is_unknown (simp_3 and_op l m r) ≡ false
      → holds ρ (simp_3 and_op l m r) ≡ (holds ρ l && (holds ρ m && holds ρ r))
  unfolding simp_3 simp_2 eval
  simp_3-and l m r h = ground (
    arith,
    holds-is_true l,
    holds-is_false l,
    holds-is_true m,
    holds-is_false m,
    holds-is_true r,
    holds-is_false r,
  )

  simp_3-or :
      (l m r : Node)
      → is_unknown (simp_3 or_op l m r) ≡ false
      → holds ρ (simp_3 or_op l m r) ≡ (holds ρ l || (holds ρ m || holds ρ r))
  unfolding simp_3 simp_2 eval
  simp_3-or l m r h = ground (
    arith,
    holds-is_true l,
    holds-is_false l,
    holds-is_true m,
    holds-is_false m,
    holds-is_true r,
    holds-is_false r,
  )

  simp_3-xor :
      (l m r : Node)
      → is_unknown (simp_3 xor_op l m r) ≡ false
      → holds ρ (simp_3 xor_op l m r) ≡ xor (holds ρ l) (xor (holds ρ m) (holds ρ r))
  unfolding simp_3 simp_2 eval
  simp_3-xor l m r h = ground (
    arith,
    holds-is_true l,
    holds-is_false l,
    holds-is_true m,
    holds-is_false m,
    holds-is_true r,
    holds-is_false r,
  )

  -- Three operands of an implication, where the first two are no constants.
  simp_3-implies :
      (l m r : Node)
      → is_false l ≡ false
      → is_true m ≡ false
      → is_unknown (simp_3 implies_op l m r) ≡ false
      → holds ρ (simp_3 implies_op l m r) ≡ (not (holds ρ l) || (not (holds ρ m) || holds ρ r))
  unfolding simp_3 simp_2 eval
  simp_3-implies l m r hl hm h = ground (
    arith,
    holds-is_true l,
    holds-is_false l,
    holds-is_true m,
    holds-is_false m,
    holds-is_true r,
    holds-is_false r,
  )

  -- After a premise that is no constant, only true comes out.
  simp_implies_open :
      (p : Node) (ps : List Node)
      → is_unknown (simp_implies false (p ∷ ps)) ≡ false
      → holds ρ (simp_implies false (p ∷ ps)) ≡ true
  unfolding simp_implies eval
  simp_implies_open p [] h = ground arith
  simp_implies_open p (q ∷ ps) h = ground (arith, simp_implies_open q ps)

  -- Four operands or more of an implication.
  simp_implies_lem :
      (c : Bool) (p : Node) (ps : List Node)
      → is_unknown (simp_implies c (p ∷ ps)) ≡ false
      → holds ρ (simp_implies c (p ∷ ps)) ≡ implication (eval_all ρ (p ∷ ps))
  unfolding simp_implies eval
  simp_implies_lem c p [] h = ground (arith, holds-is_true p, holds-is_false p)
  simp_implies_lem c p (q ∷ ps) h = ground (
    arith,
    holds-is_true p,
    holds-is_false p,
    simp_implies_lem (c && is_true p) q ps,
    simp_implies_open q ps,
  )

  -- What mkOper asks: two operands or more.
  pub simp_by_size-and :
      (p q : Node) (ps : List Node)
      → is_unknown (simp_by_size and_op (p ∷ q ∷ ps)) ≡ false
      → holds ρ (simp_by_size and_op (p ∷ q ∷ ps)) ≡ all_true (eval_all ρ (p ∷ q ∷ ps))
  unfolding simp_by_size simp_n
  simp_by_size-and p q [] h = ground (arith, simp_2-and p q)
  simp_by_size-and p q (r ∷ []) h = ground (arith, simp_3-and p q r)
  simp_by_size-and p q (r ∷ s ∷ ps) h = ground (arith, simp_chain-and p (q ∷ r ∷ s ∷ ps))

  pub simp_by_size-or :
      (p q : Node) (ps : List Node)
      → is_unknown (simp_by_size or_op (p ∷ q ∷ ps)) ≡ false
      → holds ρ (simp_by_size or_op (p ∷ q ∷ ps)) ≡ any_true (eval_all ρ (p ∷ q ∷ ps))
  unfolding simp_by_size simp_n
  simp_by_size-or p q [] h = ground (arith, simp_2-or p q)
  simp_by_size-or p q (r ∷ []) h = ground (arith, simp_3-or p q r)
  simp_by_size-or p q (r ∷ s ∷ ps) h = ground (arith, simp_chain-or p (q ∷ r ∷ s ∷ ps))

  pub simp_by_size-xor :
      (p q : Node) (ps : List Node)
      → is_unknown (simp_by_size xor_op (p ∷ q ∷ ps)) ≡ false
      → holds ρ (simp_by_size xor_op (p ∷ q ∷ ps)) ≡ parity (eval_all ρ (p ∷ q ∷ ps))
  unfolding simp_by_size simp_n
  simp_by_size-xor p q [] h = ground (arith, simp_2-xor p q)
  simp_by_size-xor p q (r ∷ []) h = ground (arith, simp_3-xor p q r)
  simp_by_size-xor p q (r ∷ s ∷ ps) h = ground (arith, simp_chain-xor p (q ∷ r ∷ s ∷ ps))

  pub simp_by_size-implies :
      (p q : Node) (ps : List Node)
      → is_false p ≡ false
      → (ps ≢ [] → is_true q ≡ false)
      → is_unknown (simp_by_size implies_op (p ∷ q ∷ ps)) ≡ false
      → holds ρ (simp_by_size implies_op (p ∷ q ∷ ps)) ≡ implication (eval_all ρ (p ∷ q ∷ ps))
  unfolding simp_by_size simp_n
  simp_by_size-implies p q [] hp hq h = ground (arith, simp_2-implies p q)
  simp_by_size-implies p q (r ∷ []) hp hq h =
      let last : is_true q ≡ false = hq (λ e. cons≢nil e) in ground (arith, simp_3-implies p q r)
  simp_by_size-implies p q (r ∷ s ∷ ps) hp hq h =
      ground (arith, simp_implies_lem true p (q ∷ r ∷ s ∷ ps))

-- The chain of three from the left is wrong where the first premise is false: the implication is
-- true, and false comes out.
pub simp_3-implies_false : (m : Node) → simp_3 implies_op const_false m const_false ≡ const_false
unfolding simp_3 simp_2
simp_3-implies_false m = refl
