-- ===== src/Convert/Tseitin/Tests.antt =====
-- The Tseitin transformation at concrete inputs.
use smtlibparser.Prelude.{ℕ, ◌≡◌, ◌≢◌, refl, ◌∙◌, Bytes, Bool, true, false, ◌==◌, [], ◌∷◌, bytes}
use smtlibparser.Prelude.Int.{pos}
use smtlibparser.Term.{
  sort_of, Oper, Node, error, bool_var, temp_var, predicate, oper, nil, cons, eq_op,
}
use smtlibparser.Term.Meaning.{Valuation, eval, holds}
use smtlibparser.Term.Covered.{covered}
use smtlibparser.Term.WellSorted.{well_sorted, binary}
use smtlibparser.Term.Make.{is_arith_comp}
use smtlibparser.Convert.Nnf.{find}
use smtlibparser.Convert.Tseitin.{
  Cnf, bool_children, to_tseitin, to_tseitin_case, abstract_atom, or_else, to_tseitin_implies,
  to_tseitin_eq, to_tseitin_and,
}
use smtlibparser.Convert.Tseitin.Gates.{clauses_hold, to_tseitin_eq_lem}
use smtlibparser.Convert.Tseitin.Junctions.{to_tseitin_implies_open, to_tseitin_and_lem}
use smtlibparser.Convert.Tseitin.Sound.{convertible}
use smtlibparser.Convert.Tseitin.Whole.{to_tseitin_lem}

-- The second variable that is made holds, and nothing else does.
abbrev values : Valuation
values = record {
  bool_of = λ (x : Bytes). false;
  int_of = λ (x : Bytes). pos 0;
  temp_of = λ (n : ℕ). n == 1;
  predicate_of = λ (n : ℕ). false;
}

abbrev nothing_kept : Oper → Bool
nothing_kept t = false

abbrev one_key : Node → ℕ
one_key p = 0

abbrev start : Cnf
start = record {
  next = 0;
  clauses = [];
  visited = [];
  cnf_map = [];
  cnf_atom_map = [];
  cnf_bool_var_map = [];
}

abbrev p_var : Node
p_var = bool_var (bytes "p")

abbrev atom : Node
atom = predicate 0

-- Every formula holds.
abbrev all_hold : Valuation
all_hold = record {
  bool_of = λ (x : Bytes). true;
  int_of = λ (x : Bytes). pos 0;
  temp_of = λ (n : ℕ). true;
  predicate_of = λ (n : ℕ). true;
}

-- (= p q p)
abbrev three_equal : Node
three_equal = oper eq_op (cons p_var (cons (bool_var (bytes "q")) (cons p_var nil)))

abbrev q_var : Node
q_var = bool_var (bytes "q")

abbrev first_equation : Cnf
first_equation = (to_tseitin_eq nothing_kept one_key p_var q_var start).1

abbrev two_equations : Cnf
two_equations = (to_tseitin_eq nothing_kept one_key p_var p_var first_equation).1

three_equal_clauses :
    clauses_hold all_hold nothing_kept one_key
      (to_tseitin_and nothing_kept one_key (temp_var 0 ∷ temp_var 1 ∷ []) two_equations).1
    ≡ true
unfolding covered eval to_tseitin_eq
three_equal_clauses =
    to_tseitin_and_lem all_hold nothing_kept one_key (temp_var 0 ∷ temp_var 1 ∷ []) two_equations
      refl
    ∙ to_tseitin_eq_lem all_hold nothing_kept one_key p_var p_var first_equation refl refl
    ∙ to_tseitin_eq_lem all_hold nothing_kept one_key p_var q_var start refl refl

to_tseitin_lem_example :
    ((to_tseitin nothing_kept one_key three_equal start).0 ≢ error)
    × (holds all_hold (to_tseitin nothing_kept one_key three_equal start).0
        ≡ holds all_hold three_equal)
unfolding well_sorted binary convertible to_tseitin to_tseitin_case abstract_atom or_else find
    is_arith_comp to_tseitin_eq to_tseitin_and bool_children sort_of eval
to_tseitin_lem_example =
    to_tseitin_lem all_hold nothing_kept one_key three_equal start refl refl refl tt tt
      (three_equal_clauses, tt) tt

to_tseitin_implies_open_example :
    clauses_hold values nothing_kept one_key
      (to_tseitin_implies nothing_kept one_key (p_var ∷ atom ∷ []) start).1
    ≡ clauses_hold values nothing_kept one_key start
unfolding covered eval
to_tseitin_implies_open_example =
    to_tseitin_implies_open values nothing_kept one_key p_var atom start refl refl refl
