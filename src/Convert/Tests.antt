-- ===== src/Convert/Tests.antt =====
-- Conversions at concrete inputs.
use smtlibparser.Prelude.{ℕ, ◌≡◌, refl, Bytes, bytes, Bool, true, false, [], ◌∷◌}
use smtlibparser.Prelude.Int.{pos}
use smtlibparser.Term.{
  Oper, Node, bool_var, int_var, predicate, oper, nil, cons, not_op, and_op, implies_op, lt_op,
}
use smtlibparser.Term.Meaning.{Valuation, holds, xor, eval_all, all_true}
use smtlibparser.Term.WellSorted.{well_sorted, binary}
use smtlibparser.Convert.Nnf.{is_nnf, to_nnf, NnfMap, to_nnf_cached, to_nnf_conjunction}
use smtlibparser.Convert.Nnf.Form.{to_nnf-is_nnf}
use smtlibparser.Convert.Nnf.Meaning.{to_nnf_lem}
use smtlibparser.Convert.Nnf.Cache.{
  NnfOf, IsNnfMap, to_nnf_cached-IsNnfMap, to_nnf_conjunction-IsNnfMap,
}

-- `p` holds, the predicate does not, and every integer is 3.
abbrev values : Valuation
values = record {
  bool_of = λ (x : Bytes). true;
  int_of = λ (x : Bytes). pos 3;
  temp_of = λ (n : ℕ). false;
  predicate_of = λ (n : ℕ). false;
}

abbrev all_kept : Oper → Bool
all_kept t = true

abbrev one_key : Node → ℕ
one_key p = 0

abbrev p_var : Node
p_var = bool_var (bytes "p")

abbrev q_atom : Node
q_atom = predicate 0

abbrev i_less : Node
i_less = oper lt_op (cons (int_var (bytes "i")) (cons (int_var (bytes "j")) nil))

-- not (p => (i < j and q))
abbrev formula : Node
formula = oper not_op (
    cons (oper implies_op (cons p_var (cons (oper and_op (cons i_less (cons q_atom nil))) nil)))
      nil)

to_nnf_lem_example :
    holds values (to_nnf all_kept one_key formula true) ≡ xor true (holds values formula)
unfolding well_sorted binary
to_nnf_lem_example = to_nnf_lem values all_kept one_key formula true refl refl

to_nnf-is_nnf_example : is_nnf (to_nnf all_kept one_key formula false) ≡ true
unfolding well_sorted binary
to_nnf-is_nnf_example = to_nnf-is_nnf all_kept one_key formula false refl refl

p_is_nnf : NnfOf p_var p_var
unfolding is_nnf
p_is_nnf = record { form = refl; meaning = λ ρ. refl }

abbrev one_entry : NnfMap
one_entry = (p_var, p_var) ∷ []

to_nnf_cached-IsNnfMap_example :
    NnfOf formula (to_nnf_cached all_kept one_key one_entry formula).0
    × IsNnfMap (to_nnf_cached all_kept one_key one_entry formula).1
unfolding well_sorted binary
to_nnf_cached-IsNnfMap_example =
    to_nnf_cached-IsNnfMap all_kept one_key one_entry formula (p_is_nnf, tt) refl refl

to_nnf_conjunction-IsNnfMap_example :
    (is_nnf (to_nnf_conjunction all_kept one_key one_entry (formula ∷ p_var ∷ [])).0 ≡ true)
    × ((ρ : Valuation)
        → holds ρ (to_nnf_conjunction all_kept one_key one_entry (formula ∷ p_var ∷ [])).0
          ≡ all_true (eval_all ρ (formula ∷ p_var ∷ [])))
    × IsNnfMap (to_nnf_conjunction all_kept one_key one_entry (formula ∷ p_var ∷ [])).1
unfolding well_sorted binary
to_nnf_conjunction-IsNnfMap_example =
    to_nnf_conjunction-IsNnfMap all_kept one_key one_entry (formula ∷ p_var ∷ []) (p_is_nnf, tt)
      refl refl
