-- ===== src/Symbols/Tests.antt =====
-- The symbol manager at concrete states, with numbers for nodes and for sorts.
use smtlibparser.Prelude.{
  ℕ, ◌≡◌, refl, Option, none, some, true, false, List, [], ◌∷◌, Bytes, bytes, same, inl, inr, arith,
}
use smtlibparser.Result.{ok, ◌>>=◌}
use smtlibparser.Dict.{Dict, empty, find, insert, SameMap}
use smtlibparser.Symbols.{
  SymbolManager, ResolveScope, resolve_symbol, resolve_term, resolve_fun, resolve_sort, is_quoted,
}
use smtlibparser.Symbols.Let.{push_let_scope, pop_let_scope}
use smtlibparser.Symbols.Let.Scope.{Body, done, bind, scope, run_body, pop_let_scope-run_body}
use smtlibparser.Symbols.Resolve.{quoted, IsUnambiguousIn, resolve-quoted}
use smtlibparser.Symbols.Tables.{found, contains, get_rec_fun_group}
use smtlibparser.Symbols.Tables.Order.{
  IsOrdered, VarOp, declare, remove, run_ops, run_ops-IsOrdered,
}
use smtlibparser.Symbols.Tables.Groups.{add_groups, get_rec_fun_group-add_groups}

abbrev pub blank : SymbolManager ℕ ℕ
blank = record {
  let_key_map = empty;
  let_scope_backup = [];
  let_scope_checkpoints = [];
  fun_key_map = empty;
  fun_var_map = empty;
  sort_key_map = empty;
  quant_var_map = empty;
  var_names = empty;
  temp_var_counter = 0;
  temp_var_names = empty;
  placeholder_var_names = empty;
  function_names = [];
  rec_fun_groups = [];
  rec_fun_group_of = empty;
  static_functions = [];
  sort_order = [];
  var_order = [];
  temp_var_order = [];
}

-- A variable x, bound once by an enclosing let.
abbrev one_variable : SymbolManager ℕ ℕ
one_variable = record blank {
  let_key_map = insert empty (bytes "x") (some 1);
  var_names = insert empty (bytes "x") (some 2);
  var_order = bytes "x" ∷ [];
}

-- x is bound again, twice, around a nested scope that binds it too.
abbrev shadowing : Body ℕ
shadowing =
    bind (bytes "x") (some 3)
      (scope (bind (bytes "x") (some 4) done) (bind (bytes "x") (some 5) done))

pop_let_scope-run_body_example :
    (m : Dict (Option ℕ)) × SameMap m one_variable.let_key_map
    × ((run_body shadowing (push_let_scope one_variable) >>= pop_let_scope)
        ≡ ok (record one_variable { let_key_map = m }))
pop_let_scope-run_body_example = pop_let_scope-run_body shadowing one_variable

x_plain : is_quoted (bytes "x") ≡ false
unfolding is_quoted
x_plain = refl

one_variable-IsUnambiguousIn : IsUnambiguousIn (bytes "x") one_variable
unfolding find insert empty same
one_variable-IsUnambiguousIn = record {
  in_placeholders = inl refl;
  in_lets = inr refl;
  in_funs = inl refl;
  in_fun_vars = inl refl;
  in_quant_vars = inl refl;
  in_vars = inr refl;
  in_sorts = inl refl;
}

abbrev lets_visible : ResolveScope
lets_visible = record { check_let = true; in_quantifier_scope = false }

resolve-quoted_example :
    (resolve_symbol one_variable (quoted (bytes "x")) lets_visible
      ≡ resolve_symbol one_variable (bytes "x") lets_visible)
    × (resolve_term one_variable (quoted (bytes "x")) lets_visible
        ≡ resolve_term one_variable (bytes "x") lets_visible)
    × (resolve_fun one_variable (quoted (bytes "x")) ≡ resolve_fun one_variable (bytes "x"))
    × (resolve_sort one_variable (quoted (bytes "x")) ≡ resolve_sort one_variable (bytes "x"))
resolve-quoted_example =
    resolve-quoted b'x' [] x_plain one_variable lets_visible one_variable-IsUnambiguousIn

abbrev script : List (VarOp ℕ)
script = declare (bytes "y") (some 6) ∷ remove (bytes "y") ∷ declare (bytes "z") (some 7) ∷ []

blank-IsOrdered : IsOrdered blank.var_names blank.var_order
unfolding find empty found
blank-IsOrdered k h = ground arith

run_ops-IsOrdered_example :
    IsOrdered (run_ops script blank).var_names (run_ops script blank).var_order
run_ops-IsOrdered_example = run_ops-IsOrdered script blank blank-IsOrdered

y_absent : find one_variable.var_names (bytes "y") ≡ none
unfolding find insert empty same
y_absent = refl

y_fresh : contains one_variable.var_order (bytes "y") ≡ false
unfolding contains same
y_fresh = refl

x_listed : contains one_variable.var_order (bytes "x") ≡ true
unfolding contains same
x_listed = refl

x_found : found (find one_variable.var_names (bytes "x")) ≡ true
unfolding find insert empty same found
x_found = refl

abbrev even_odd : List Bytes
even_odd = bytes "even" ∷ bytes "odd" ∷ []

abbrev parity_group : List Bytes
parity_group = bytes "odd" ∷ bytes "even" ∷ []

no_groups : (k : Bytes) → find (blank).rec_fun_group_of k ≡ none
unfolding find empty
no_groups k = refl

get_rec_fun_group-add_groups_example :
    (group : Option (List Bytes)) × (get_rec_fun_group
        (add_groups blank (parity_group ∷ []))
        (bytes "odd")
      ≡ ok group)
get_rec_fun_group-add_groups_example =
    get_rec_fun_group-add_groups blank (parity_group ∷ []) (bytes "odd") no_groups
