-- ===== src/Kind/Tests.antt =====
-- The tables of kinds at concrete kinds and names.
use smtlibparser.Prelude.{◌≡◌, refl, ◌≢◌, arith, true, false, if◌then◌else◌}
use smtlibparser.Kind.{nt_bv_slt, nt_unknown, nt_add}
use smtlibparser.Kind.Duals.{get_negated_kind}
use smtlibparser.Kind.Read.{
  has_kind, contains, get_oper_kind, is_builtin_name_reserved_against_user_fun,
  builtin_oper_may_be_shadowed_by_user_fun,
}
use smtlibparser.Kind.Names.{kind_to_string}
use smtlibparser.Kind.Names.Laws.{canonical, reads_back, get_oper_kind-kind_to_string}

negatable : get_negated_kind nt_bv_slt ≢ nt_unknown
unfolding get_negated_kind
negatable = ground arith

get_oper_kind-kind_to_string_example :
    get_oper_kind (kind_to_string nt_add) false
    ≡ (if reads_back nt_add then canonical nt_add else nt_unknown)
get_oper_kind-kind_to_string_example = get_oper_kind-kind_to_string nt_add

and_reserved : is_builtin_name_reserved_against_user_fun "and" ≡ true
unfolding is_builtin_name_reserved_against_user_fun builtin_oper_may_be_shadowed_by_user_fun
    has_kind contains
and_reserved = refl
