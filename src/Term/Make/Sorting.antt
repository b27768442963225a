-- ===== src/Term/Make/Sorting.antt =====
-- The order of the operands does not change a conjunction, a disjunction or a parity.
use smtlibparser.Prelude.{ℕ, ◌≡◌, refl, ap, ◌&&◌, ◌||◌, List, [], ◌∷◌, arith}
use smtlibparser.Term.{Node, to_nodes}
use smtlibparser.Term.Meaning.{
  Valuation, eval, eval_nodes, eval_all, holds, xor, all_true, any_true, parity,
}
use smtlibparser.Term.Make.{swap_if, insert_by, stable_sort, sort_params}

module _ (ρ : Valuation) where
  pub eval_nodes-to_nodes : (ps : List Node) → eval_nodes ρ (to_nodes ps) ≡ eval_all ρ ps
  unfolding eval
  eval_nodes-to_nodes [] = refl
  eval_nodes-to_nodes (p ∷ ps) = ap (λ vs. eval ρ p ∷ vs) (eval_nodes-to_nodes ps)

  module _ (key : Node → ℕ) where
    all_true-insert_by :
        (p : Node) (qs : List Node)
        → all_true (eval_all ρ (insert_by key p qs)) ≡ (holds ρ p && all_true (eval_all ρ qs))
    unfolding insert_by
    all_true-insert_by p [] = refl
    all_true-insert_by p (q ∷ qs) = ground (arith, all_true-insert_by p qs)

    any_true-insert_by :
        (p : Node) (qs : List Node)
        → any_true (eval_all ρ (insert_by key p qs)) ≡ (holds ρ p || any_true (eval_all ρ qs))
    unfolding insert_by
    any_true-insert_by p [] = refl
    any_true-insert_by p (q ∷ qs) = ground (arith, any_true-insert_by p qs)

    parity-insert_by :
        (p : Node) (qs : List Node)
        → parity (eval_all ρ (insert_by key p qs)) ≡ xor (holds ρ p) (parity (eval_all ρ qs))
    unfolding insert_by
    parity-insert_by p [] = refl
    parity-insert_by p (q ∷ qs) = ground (arith, parity-insert_by p qs)

    all_true-stable_sort :
        (ps : List Node) → all_true (eval_all ρ (stable_sort key ps)) ≡ all_true (eval_all ρ ps)
    unfolding stable_sort
    all_true-stable_sort [] = refl
    all_true-stable_sort (p ∷ ps) =
        ground (arith, all_true-insert_by p (stable_sort key ps), all_true-stable_sort ps)

    any_true-stable_sort :
        (ps : List Node) → any_true (eval_all ρ (stable_sort key ps)) ≡ any_true (eval_all ρ ps)
    unfolding stable_sort
    any_true-stable_sort [] = refl
    any_true-stable_sort (p ∷ ps) =
        ground (arith, any_true-insert_by p (stable_sort key ps), any_true-stable_sort ps)

    parity-stable_sort :
        (ps : List Node) → parity (eval_all ρ (stable_sort key ps)) ≡ parity (eval_all ρ ps)
    unfolding stable_sort
    parity-stable_sort [] = refl
    parity-stable_sort (p ∷ ps) =
        ground (arith, parity-insert_by p (stable_sort key ps), parity-stable_sort ps)

    pub all_true-sort_params :
        (ps : List Node) → all_true (eval_all ρ (sort_params key ps)) ≡ all_true (eval_all ρ ps)
    unfolding sort_params swap_if
    all_true-sort_params [] = all_true-stable_sort []
    all_true-sort_params (p ∷ []) = all_true-stable_sort (p ∷ [])
    all_true-sort_params (p ∷ q ∷ []) = ground arith
    all_true-sort_params (p ∷ q ∷ r ∷ []) = ground arith
    all_true-sort_params (p ∷ q ∷ r ∷ s ∷ ps) = all_true-stable_sort (p ∷ q ∷ r ∷ s ∷ ps)

    pub any_true-sort_params :
        (ps : List Node) → any_true (eval_all ρ (sort_params key ps)) ≡ any_true (eval_all ρ ps)
    unfolding sort_params swap_if
    any_true-sort_params [] = any_true-stable_sort []
    any_true-sort_params (p ∷ []) = any_true-stable_sort (p ∷ [])
    any_true-sort_params (p ∷ q ∷ []) = ground arith
    any_true-sort_params (p ∷ q ∷ r ∷ []) = ground arith
    any_true-sort_params (p ∷ q ∷ r ∷ s ∷ ps) = any_true-stable_sort (p ∷ q ∷ r ∷ s ∷ ps)

    pub parity-sort_params :
        (ps : List Node) → parity (eval_all ρ (sort_params key ps)) ≡ parity (eval_all ρ ps)
    unfolding sort_params swap_if
    parity-sort_params [] = parity-stable_sort []
    parity-sort_params (p ∷ []) = parity-stable_sort (p ∷ [])
    parity-sort_params (p ∷ q ∷ []) = ground arith
    parity-sort_params (p ∷ q ∷ r ∷ []) = ground arith
    parity-sort_params (p ∷ q ∷ r ∷ s ∷ ps) = parity-stable_sort (p ∷ q ∷ r ∷ s ∷ ps)
