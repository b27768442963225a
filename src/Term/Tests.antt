-- ===== src/Term/Tests.antt =====
-- Terms at concrete inputs.
use smtlibparser.Prelude.{ℕ, ◌≡◌, refl, Bytes, bytes, Bool, true, false, not, List, [], ◌∷◌}
use smtlibparser.Prelude.Int.{pos}
use smtlibparser.Term.{
  Oper, Node, const_true, const_false, bool_var, int_var, predicate, oper, nil, cons, not_op, lt_op,
  sort_of,
}
use smtlibparser.Term.Meaning.{Valuation, holds, eval_all, all_true, implication, xor}
use smtlibparser.Term.Covered.{covered}
use smtlibparser.Term.WellSorted.{well_sorted, binary}
use smtlibparser.Term.Make.{mk_and, mk_implies, mk_not, mk_eq, mk_distinct}
use smtlibparser.Term.Make.Join.{mk_and_lem}
use smtlibparser.Term.Make.Implies.{mk_implies_lem}
use smtlibparser.Term.Make.Negation.{mk_not_lem}
use smtlibparser.Term.Make.Equality.{mk_eq_lem, mk_distinct_negated_left}

-- `p` holds, `q` does not, and `i` is 3.
abbrev some_values : Valuation
some_values = record {
  bool_of = λ (x : Bytes). true;
  int_of = λ (x : Bytes). pos 3;
  temp_of = λ (n : ℕ). false;
  predicate_of = λ (n : ℕ). false;
}

abbrev nothing_preserved : Oper → Bool
nothing_preserved t = false

abbrev no_order : Node → ℕ
no_order p = 0

abbrev p_var : Node
p_var = bool_var (bytes "p")

abbrev q_atom : Node
q_atom = predicate 0

abbrev i_less : Node
i_less = oper lt_op (cons (int_var (bytes "i")) (cons (int_var (bytes "j")) nil))

abbrev operands : List Node
operands = p_var ∷ const_true ∷ q_atom ∷ p_var ∷ []

mk_and_lem_example :
    holds some_values (mk_and nothing_preserved no_order operands)
    ≡ all_true (eval_all some_values operands)
unfolding sort_of
mk_and_lem_example = mk_and_lem some_values nothing_preserved no_order operands refl

mk_implies_lem_example :
    holds some_values (mk_implies nothing_preserved no_order operands)
    ≡ implication (eval_all some_values operands)
mk_implies_lem_example =
    mk_implies_lem some_values nothing_preserved no_order p_var const_true (q_atom ∷ p_var ∷ [])
      refl

mk_not_lem_example :
    holds some_values (mk_not nothing_preserved no_order i_less) ≡ not (holds some_values i_less)
unfolding well_sorted binary
mk_not_lem_example = mk_not_lem some_values nothing_preserved no_order i_less refl refl

mk_eq_lem_example :
    holds some_values (mk_eq nothing_preserved no_order i_less const_false)
    ≡ not (xor (holds some_values i_less) (holds some_values const_false))
unfolding well_sorted binary
mk_eq_lem_example =
    mk_eq_lem some_values nothing_preserved no_order i_less const_false refl refl refl refl

mk_distinct_negated_left_example :
    holds some_values (mk_distinct nothing_preserved no_order (oper not_op (cons p_var nil)) q_atom)
    ≡ not (xor (not (holds some_values p_var)) (holds some_values q_atom))
unfolding covered
mk_distinct_negated_left_example =
    mk_distinct_negated_left some_values nothing_preserved no_order p_var q_atom refl refl refl refl
      refl refl
