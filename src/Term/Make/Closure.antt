-- ===== src/Term/Make/Closure.antt =====
-- A property of nodes that the constants have, and a conjunction or a disjunction where its operands
-- do, is kept by mkAnd and mkOr: src/frontend/op_parser.cpp, lines 978-1052.
use smtlibparser.Prelude.{ℕ, ◌≡◌, refl, Bool, true, not, ◌&&◌, ◌||◌, List, [], ◌∷◌, arith, by_if}
use smtlibparser.Term.{
  Oper, Node, to_nodes, const_true, const_false, is_true, is_false, is_unknown, is_err, oper,
  and_op, or_op, is_bool_param,
}
use smtlibparser.Term.Simp.{simp_2, simp_3, simp_chain, simp_n, simp_by_size}
use smtlibparser.Term.Make.{
  swap_if, insert_by, stable_sort, sort_params, is_commutative, mk_internal_oper, mk_oper, finish,
  Scan, stop, keep, keep_too, scan, dedup, join_end, mk_join, mk_and, mk_or,
}
use smtlibparser.Term.Make.Join.{all_bool}

-- What is decided on two operands or more is a constant.
abbrev decided : Node → Bool
decided p = is_true p || (is_false p || is_unknown p)

simp_chain-and_decided :
    (p : Node) (ps : List Node) → decided p ≡ true → decided (simp_chain and_op p ps) ≡ true
unfolding simp_chain simp_2
simp_chain-and_decided p [] h = h
simp_chain-and_decided p (q ∷ ps) h =
    ground
      (arith, simp_chain-and_decided const_true ps refl, simp_chain-and_decided const_false ps refl)

simp_chain-or_decided :
    (p : Node) (ps : List Node) → decided p ≡ true → decided (simp_chain or_op p ps) ≡ true
unfolding simp_chain simp_2
simp_chain-or_decided p [] h = h
simp_chain-or_decided p (q ∷ ps) h =
    ground
      (arith, simp_chain-or_decided const_true ps refl, simp_chain-or_decided const_false ps refl)

simp_by_size-and_decided :
    (p q : Node) (ps : List Node) → decided (simp_by_size and_op (p ∷ q ∷ ps)) ≡ true
unfolding simp_by_size simp_n simp_chain simp_3 simp_2
simp_by_size-and_decided p q [] = ground arith
simp_by_size-and_decided p q (r ∷ []) = ground arith
simp_by_size-and_decided p q (r ∷ s ∷ ps) = ground (
  arith,
  simp_chain-and_decided const_true (r ∷ s ∷ ps) refl,
  simp_chain-and_decided const_false (r ∷ s ∷ ps) refl,
)

simp_by_size-or_decided :
    (p q : Node) (ps : List Node) → decided (simp_by_size or_op (p ∷ q ∷ ps)) ≡ true
unfolding simp_by_size simp_n simp_chain simp_3 simp_2
simp_by_size-or_decided p q [] = ground arith
simp_by_size-or_decided p q (r ∷ []) = ground arith
simp_by_size-or_decided p q (r ∷ s ∷ ps) = ground (
  arith,
  simp_chain-or_decided const_true (r ∷ s ∷ ps) refl,
  simp_chain-or_decided const_false (r ∷ s ∷ ps) refl,
)

abbrev pub all_of : (Node → Bool) → List Node → Bool
all_of P [] = true
all_of P (p ∷ ps) = P p && all_of P ps

module _ (P : Node → Bool) (key : Node → ℕ) where
  all_of-insert_by :
      (p : Node) (qs : List Node) → all_of P (insert_by key p qs) ≡ (P p && all_of P qs)
  unfolding insert_by
  all_of-insert_by p [] = refl
  all_of-insert_by p (q ∷ qs) = ground (arith, all_of-insert_by p qs)

  all_of-stable_sort : (ps : List Node) → all_of P (stable_sort key ps) ≡ all_of P ps
  unfolding stable_sort
  all_of-stable_sort [] = refl
  all_of-stable_sort (p ∷ ps) =
      ground (arith, all_of-insert_by p (stable_sort key ps), all_of-stable_sort ps)

  all_of-sort_params : (ps : List Node) → all_of P (sort_params key ps) ≡ all_of P ps
  unfolding sort_params swap_if
  all_of-sort_params [] = all_of-stable_sort []
  all_of-sort_params (p ∷ []) = all_of-stable_sort (p ∷ [])
  all_of-sort_params (p ∷ q ∷ []) = ground arith
  all_of-sort_params (p ∷ q ∷ r ∷ []) = ground arith
  all_of-sort_params (p ∷ q ∷ r ∷ s ∷ ps) = all_of-stable_sort (p ∷ q ∷ r ∷ s ∷ ps)

  all_of-dedup : (seen ps : List Node) → all_of P ps ≡ true → all_of P (dedup seen ps) ≡ true
  unfolding dedup
  all_of-dedup seen [] h = refl
  all_of-dedup seen (p ∷ ps) h = ground (arith, all_of-dedup seen ps, all_of-dedup (p ∷ seen) ps)

module _ (P : Node → Bool) where
  abbrev Kept : Scan → Type 0
  Kept (stop n) = P n ≡ true
  Kept (keep ps) = all_of P ps ≡ true

  Kept-keep_too : (p : Node) (r : Scan) → P p ≡ true → Kept r → Kept (keep_too p r)
  Kept-keep_too p (stop n) e h = h
  Kept-keep_too p (keep ps) e h = ground arith

  scan_closed :
      (skips absorbs : Node → Bool) (z : Node) (ps : List Node)
      → P z ≡ true
      → all_bool ps ≡ true
      → all_of P ps ≡ true
      → Kept (scan skips absorbs z ps)
  unfolding scan
  scan_closed skips absorbs z [] hz b h = refl
  scan_closed skips absorbs z (p ∷ ps) hz b h =
      let ih = scan_closed skips absorbs z ps hz (ground arith) (ground arith) in
      by_if Kept (not (is_bool_param p)) _ _ (λ e. ground arith)
        (λ e.
          by_if Kept (is_err p) _ _ (λ e. ground arith)
            (λ e.
              by_if Kept (skips p) _ _ (λ e. ih)
                (λ e.
                  by_if Kept (absorbs p) _ _ (λ e. hz) (λ e. Kept-keep_too p _ (ground arith) ih))))

module _ (P : Node → Bool) (preserve : Oper → Bool) (key : Node → ℕ) where
  finish_closed :
      (t : Oper) (unit : Node)
      → P unit ≡ true
      → ((p q : Node) (ps : List Node)
          → all_of P (p ∷ q ∷ ps) ≡ true
          → P (mk_oper preserve key t (p ∷ q ∷ ps)) ≡ true)
      → (ps : List Node) → all_of P ps ≡ true
      → P (finish preserve key t unit ps) ≡ true
  unfolding finish
  finish_closed t unit u c [] h = u
  finish_closed t unit u c (p ∷ []) h = ground arith
  finish_closed t unit u c (p ∷ q ∷ ps) h = c p q ps h

  join_end_closed :
      (t : Oper) (unit : Node)
      → P unit ≡ true
      → ((p q : Node) (ps : List Node)
          → all_of P (p ∷ q ∷ ps) ≡ true
          → P (mk_oper preserve key t (p ∷ q ∷ ps)) ≡ true)
      → (r : Scan) → Kept P r
      → P (join_end preserve key t unit r) ≡ true
  unfolding join_end
  join_end_closed t unit u c (stop n) h = h
  join_end_closed t unit u c (keep ps) h =
      finish_closed t unit u c (dedup [] ps) (all_of-dedup P key [] ps h)

  mk_join_closed :
      (t : Oper) (skips absorbs : Node → Bool) (unit z : Node)
      → P unit ≡ true
      → P z ≡ true
      → ((p q : Node) (ps : List Node)
          → all_of P (p ∷ q ∷ ps) ≡ true
          → P (mk_oper preserve key t (p ∷ q ∷ ps)) ≡ true)
      → (ps : List Node) → all_bool ps ≡ true
      → all_of P ps ≡ true
      → P (mk_join preserve key t skips absorbs unit z ps) ≡ true
  unfolding mk_join
  mk_join_closed t skips absorbs unit z u hz c [] b h = u
  mk_join_closed t skips absorbs unit z u hz c (p ∷ []) b h = ground arith
  mk_join_closed t skips absorbs unit z u hz c (p ∷ q ∷ ps) b h =
      join_end_closed t unit u c _ (scan_closed P skips absorbs z (p ∷ q ∷ ps) hz b h)

  -- What `P` needs to be kept by the constructor of `t`: the constants have it, and a node of `t`
  -- where its operands do.
  abbrev pub Keeps : Oper → Type 0
  Keeps t =
      (P const_true ≡ true)
      × (P const_false ≡ true)
      × ((qs : List Node) → all_of P qs ≡ true → P (oper t (to_nodes qs)) ≡ true)

  mk_oper-and_closed :
      Keeps and_op
      → (p q : Node) (ps : List Node) → all_of P (p ∷ q ∷ ps) ≡ true
      → P (mk_oper preserve key and_op (p ∷ q ∷ ps)) ≡ true
  unfolding mk_oper mk_internal_oper is_commutative
  mk_oper-and_closed (t, f, c) p q ps h = ground (
    arith,
    simp_by_size-and_decided p q ps,
    c (sort_params key (p ∷ q ∷ ps)),
    all_of-sort_params P key (p ∷ q ∷ ps),
  )

  mk_oper-or_closed :
      Keeps or_op
      → (p q : Node) (ps : List Node) → all_of P (p ∷ q ∷ ps) ≡ true
      → P (mk_oper preserve key or_op (p ∷ q ∷ ps)) ≡ true
  unfolding mk_oper mk_internal_oper is_commutative
  mk_oper-or_closed (t, f, c) p q ps h = ground (
    arith,
    simp_by_size-or_decided p q ps,
    c (sort_params key (p ∷ q ∷ ps)),
    all_of-sort_params P key (p ∷ q ∷ ps),
  )

  pub mk_and_closed :
      Keeps and_op
      → (ps : List Node) → all_bool ps ≡ true
      → all_of P ps ≡ true
      → P (mk_and preserve key ps) ≡ true
  unfolding mk_and
  mk_and_closed k = mk_join_closed _ _ _ _ _ k.0 k.1 (mk_oper-and_closed k)

  pub mk_or_closed :
      Keeps or_op
      → (ps : List Node) → all_bool ps ≡ true
      → all_of P ps ≡ true
      → P (mk_or preserve key ps) ≡ true
  unfolding mk_or
  mk_or_closed k = mk_join_closed _ _ _ _ _ k.1 k.0 (mk_oper-or_closed k)
