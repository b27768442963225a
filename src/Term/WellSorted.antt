-- ===== src/Term/WellSorted.antt =====
-- The sorts of SMT-LIB's theories Core and Ints: which terms are formulas, and which are integers.
-- Implications are right-associative, equations and orders chainable, distinctions pairwise, and all
-- of them, conjunctions, disjunctions and exclusive disjunctions take two operands or more. `unknown`
-- and `error` are no terms of SMT-LIB.
use smtlibparser.Prelude.{◌≡◌, refl, Bool, true, false, ◌&&◌, ◌||◌, arith, &&_parts}
use smtlibparser.Term.{
  Node, Nodes, const_true, const_false, unknown, error, bool_var, int_var, temp_var, predicate,
  oper, nil, cons, not_op, and_op, or_op, implies_op, xor_op, eq_op, distinct_op, ite_op, lt_op,
  le_op, gt_op, ge_op,
}
use smtlibparser.Term.Covered.{covered, all_covered, two_or_more, two_ints}

unfoldable mutual
  pub well_sorted : Node → Bool
  well_sorted const_true = true
  well_sorted const_false = true
  well_sorted unknown = false
  well_sorted error = false
  well_sorted (bool_var x) = true
  well_sorted (int_var x) = false
  well_sorted (temp_var n) = true
  well_sorted (predicate n) = true
  well_sorted (oper not_op (cons p nil)) = well_sorted p
  well_sorted (oper not_op ps) = false
  well_sorted (oper ite_op (cons c (cons l (cons r nil)))) =
      well_sorted c && (well_sorted l && well_sorted r)
  well_sorted (oper ite_op ps) = false
  well_sorted (oper and_op ps) = two_or_more ps && all_well_sorted ps
  well_sorted (oper or_op ps) = two_or_more ps && all_well_sorted ps
  well_sorted (oper implies_op ps) = two_or_more ps && all_well_sorted ps
  well_sorted (oper xor_op ps) = two_or_more ps && all_well_sorted ps
  well_sorted (oper eq_op ps) = two_or_more ps && (all_well_sorted ps || all_integers ps)
  well_sorted (oper distinct_op ps) = two_or_more ps && (all_well_sorted ps || all_integers ps)
  well_sorted (oper lt_op ps) = two_or_more ps && all_integers ps
  well_sorted (oper le_op ps) = two_or_more ps && all_integers ps
  well_sorted (oper gt_op ps) = two_or_more ps && all_integers ps
  well_sorted (oper ge_op ps) = two_or_more ps && all_integers ps

  pub all_well_sorted : Nodes → Bool
  all_well_sorted nil = true
  all_well_sorted (cons p ps) = well_sorted p && all_well_sorted ps

  pub integer : Node → Bool
  integer (int_var x) = true
  integer (oper ite_op (cons c (cons l (cons r nil)))) = well_sorted c && (integer l && integer r)
  integer _ = false

  pub all_integers : Nodes → Bool
  all_integers nil = true
  all_integers (cons p ps) = integer p && all_integers ps

-- Formulas in which every implication has two operands, and every comparison of integers (an
-- equation, a distinction or an order of them) compares two variables.
unfoldable mutual
  pub binary : Node → Bool
  binary (int_var x) = false
  binary (oper implies_op ps) = two ps && all_binary ps
  binary (oper eq_op ps) = all_binary ps || two_ints ps
  binary (oper distinct_op ps) = all_binary ps || two_ints ps
  binary (oper lt_op ps) = two_ints ps
  binary (oper le_op ps) = two_ints ps
  binary (oper gt_op ps) = two_ints ps
  binary (oper ge_op ps) = two_ints ps
  binary (oper t ps) = all_binary ps
  binary p = true

  pub all_binary : Nodes → Bool
  all_binary nil = true
  all_binary (cons p ps) = binary p && all_binary ps

  pub two : Nodes → Bool
  two (cons p (cons q nil)) = true
  two _ = false

second_false : (a : Bool) {b : Bool} (c : Bool) → b ≡ false → (a && (b && c)) ≡ false
second_false true c h = rw h refl
second_false false c h = refl

first_false : {a : Bool} (b : Bool) → a ≡ false → (a && b) ≡ false
first_false b h = rw h refl

both : {a b : Bool} → a ≡ true → b ≡ true → (a && b) ≡ true
both h k = rw (h, k) refl

-- Two operands or more, formulas or integers, are covered where they are binary.
chain_covered :
    (m w i b v t : Bool)
    → (m && (w || i)) ≡ true
    → (b || t) ≡ true
    → (w ≡ true → b ≡ true → v ≡ true)
    → (m ≡ true → i ≡ true → b ≡ false)
    → (m && v || t) ≡ true
chain_covered m w i b v true h k f g = ground arith
chain_covered true true i true v false h k f g = ground (arith, f refl refl)
chain_covered true false true true v false h k f g = absurd (cc (g refl refl))
chain_covered m w i b v false h k f g = ground arith

integer-binary : (p : Node) → integer p ≡ true → binary p ≡ false
unfolding well_sorted binary
integer-binary (int_var x) h = refl
integer-binary (oper ite_op (cons c (cons l (cons r nil)))) h =
    second_false (binary c) _ (integer-binary l (&&_parts _ _ (&&_parts _ _ h).1).0)
integer-binary (oper ite_op nil) h = absurd (cc)
integer-binary (oper ite_op (cons c nil)) h = absurd (cc)
integer-binary (oper ite_op (cons c (cons l nil))) h = absurd (cc)
integer-binary (oper ite_op (cons c (cons l (cons r (cons q ps))))) h = absurd (cc)
integer-binary _ h = absurd (cc)

integers-binary :
    (ps : Nodes) → two_or_more ps ≡ true → all_integers ps ≡ true → all_binary ps ≡ false
unfolding well_sorted binary
integers-binary nil m h = absurd (cc)
integers-binary (cons p ps) m h = first_false (all_binary ps) (integer-binary p (&&_parts _ _ h).0)

mutual
  unfolding well_sorted covered binary

  pub well_sorted-covered : (p : Node) → well_sorted p ≡ true → binary p ≡ true → covered p ≡ true
  well_sorted-covered unknown h b = cc
  well_sorted-covered error h b = cc
  well_sorted-covered (int_var x) h b = cc
  well_sorted-covered (oper not_op (cons p nil)) h b = well_sorted-covered p h (&&_parts _ _ b).0
  well_sorted-covered (oper not_op nil) h b = cc
  well_sorted-covered (oper not_op (cons p (cons q ps))) h b = cc
  well_sorted-covered (oper ite_op (cons c (cons l (cons r nil)))) h b =
      let (hc, hlr) = &&_parts _ _ h in
      let (hl, hr) = &&_parts _ _ hlr in
      let (bc, blr) = &&_parts _ _ b in
      let (bl, br) = &&_parts _ _ blr in
      both (well_sorted-covered c hc bc)
        (both (well_sorted-covered l hl bl) (well_sorted-covered r hr (&&_parts _ _ br).0))
  well_sorted-covered (oper ite_op nil) h b = cc
  well_sorted-covered (oper ite_op (cons c nil)) h b = cc
  well_sorted-covered (oper ite_op (cons c (cons l nil))) h b = cc
  well_sorted-covered (oper ite_op (cons c (cons l (cons r (cons q ps))))) h b = cc
  well_sorted-covered (oper and_op ps) h b = all_covered_lem ps (&&_parts _ _ h).1 b
  well_sorted-covered (oper or_op ps) h b = all_covered_lem ps (&&_parts _ _ h).1 b
  well_sorted-covered (oper xor_op ps) h b = all_covered_lem ps (&&_parts _ _ h).1 b
  well_sorted-covered (oper implies_op (cons p (cons q nil))) h b =
      let (hp, hq) = &&_parts _ _ h in
      let (bp, bq) = &&_parts _ _ b in
      both (well_sorted-covered p hp bp)
        (well_sorted-covered q (&&_parts _ _ hq).0 (&&_parts _ _ bq).0)
  well_sorted-covered (oper implies_op nil) h b = cc
  well_sorted-covered (oper implies_op (cons p nil)) h b = cc
  well_sorted-covered (oper implies_op (cons p (cons q (cons r ps)))) h b = cc
  well_sorted-covered (oper eq_op ps) h b =
      chain_covered (two_or_more ps) (all_well_sorted ps) (all_integers ps) (all_binary ps)
        (all_covered ps) (two_ints ps) h b (all_covered_lem ps) (integers-binary ps)
  well_sorted-covered (oper distinct_op ps) h b =
      chain_covered (two_or_more ps) (all_well_sorted ps) (all_integers ps) (all_binary ps)
        (all_covered ps) (two_ints ps) h b (all_covered_lem ps) (integers-binary ps)
  well_sorted-covered (oper lt_op ps) h b = b
  well_sorted-covered (oper le_op ps) h b = b
  well_sorted-covered (oper gt_op ps) h b = b
  well_sorted-covered (oper ge_op ps) h b = b
  well_sorted-covered _ h b = refl

  all_covered_lem :
      (ps : Nodes) → all_well_sorted ps ≡ true → all_binary ps ≡ true → all_covered ps ≡ true
  all_covered_lem nil h b = refl
  all_covered_lem (cons p ps) h b =
      let (hp, hps) = &&_parts _ _ h in
      let (bp, bps) = &&_parts _ _ b in
      both (well_sorted-covered p hp bp) (all_covered_lem ps hps bps)
