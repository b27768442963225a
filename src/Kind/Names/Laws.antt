-- ===== src/Kind/Names/Laws.antt =====
-- Printing a kind and reading the name back.
use smtlibparser.Prelude.{◌≡◌, refl, Bool, true, false, if◌then◌else◌}
use smtlibparser.Kind.{
  NodeKind, nt_unknown, nt_abs, nt_acos, nt_acosh, nt_acot, nt_acoth, nt_acsc, nt_acsch, nt_add,
  nt_and, nt_asec, nt_asech, nt_asin, nt_asinh, nt_atan, nt_atan2, nt_atanh, nt_bv_add, nt_bv_and,
  nt_bv_ashr, nt_bv_comp, nt_bv_concat, nt_bv_extract, nt_bv_lshr, nt_bv_mul, nt_bv_nand, nt_bv_neg,
  nt_bv_nor, nt_bv_not, nt_bv_or, nt_bv_repeat, nt_bv_rotate_left, nt_bv_rotate_right, nt_bv_sdiv,
  nt_bv_sge, nt_bv_sgt, nt_bv_shl, nt_bv_sign_ext, nt_bv_sle, nt_bv_slt, nt_bv_smod, nt_bv_srem,
  nt_bv_sub, nt_bv_to_int, nt_bv_to_nat, nt_bv_udiv, nt_bv_uge, nt_bv_ugt, nt_bv_ule, nt_bv_ult,
  nt_bv_umod, nt_bv_urem, nt_bv_xnor, nt_bv_xor, nt_bv_zero_ext, nt_ceil, nt_cos, nt_cosh, nt_cot,
  nt_coth, nt_csc, nt_csch, nt_distinct, nt_distinct_bool, nt_distinct_other, nt_div_int,
  nt_div_real, nt_eq, nt_eq_bool, nt_eq_other, nt_exp, nt_fact, nt_floor, nt_fp_abs, nt_fp_add,
  nt_fp_div, nt_fp_eq, nt_fp_fma, nt_fp_ge, nt_fp_gt, nt_fp_is_inf, nt_fp_is_nan, nt_fp_is_neg,
  nt_fp_is_normal, nt_fp_is_pos, nt_fp_is_subnormal, nt_fp_is_zero, nt_fp_le, nt_fp_lt, nt_fp_max,
  nt_fp_min, nt_fp_mul, nt_fp_neg, nt_fp_rem, nt_fp_round_to_integral, nt_fp_sqrt, nt_fp_sub,
  nt_fp_to_fp, nt_fp_to_fp_unsigned, nt_fp_to_ieee_bv, nt_fp_to_real, nt_fp_to_sbv, nt_fp_to_ubv,
  nt_gcd, nt_ge, nt_gt, nt_iand, nt_implies, nt_int_to_bv, nt_is_divisible, nt_is_even, nt_is_int,
  nt_is_odd, nt_is_prime, nt_ite, nt_lb, nt_lcm, nt_le, nt_lg, nt_ln, nt_log, nt_lt, nt_mod, nt_mul,
  nt_nat_to_bv, nt_neg, nt_not, nt_or, nt_pow, nt_pow2, nt_reg_complement, nt_reg_concat,
  nt_reg_diff, nt_reg_inter, nt_reg_loop, nt_reg_opt, nt_reg_plus, nt_reg_range, nt_reg_repeat,
  nt_reg_star, nt_reg_union, nt_round, nt_safesqrt, nt_sbv_to_int, nt_sec, nt_sech, nt_select,
  nt_sin, nt_sinh, nt_sqrt, nt_store, nt_str_charat, nt_str_concat, nt_str_contains,
  nt_str_from_code, nt_str_from_int, nt_str_ge, nt_str_gt, nt_str_in_reg, nt_str_indexof,
  nt_str_indexof_reg, nt_str_is_digit, nt_str_le, nt_str_len, nt_str_lt, nt_str_num_splits,
  nt_str_num_splits_re, nt_str_prefixof, nt_str_replace, nt_str_replace_all, nt_str_replace_reg,
  nt_str_replace_reg_all, nt_str_rev, nt_str_split, nt_str_split_at, nt_str_split_at_re,
  nt_str_split_rest, nt_str_split_rest_re, nt_str_substr, nt_str_suffixof, nt_str_to_code,
  nt_str_to_int, nt_str_to_lower, nt_str_to_reg, nt_str_to_upper, nt_str_update, nt_sub, nt_tan,
  nt_tanh, nt_to_int, nt_to_real, nt_tuple_constructor, nt_tuple_project, nt_tuple_select,
  nt_tuple_unit, nt_tuple_update, nt_ubv_to_int, nt_xor,
}
use smtlibparser.Kind.Names.{kind_to_string}
use smtlibparser.Kind.Read.{get_oper_kind}

-- The kind that stands for all kinds printed with one name.
pub canonical : NodeKind → NodeKind
canonical nt_eq_bool = nt_eq
canonical nt_eq_other = nt_eq
canonical nt_distinct_bool = nt_distinct
canonical nt_distinct_other = nt_distinct
canonical nt_neg = nt_sub
canonical k = k

-- The kinds whose printed name is the name of an operator in SMT-LIB's concrete syntax, as the table
-- of operators has it.
pub reads_back : NodeKind → Bool
reads_back nt_and = true
reads_back nt_or = true
reads_back nt_not = true
reads_back nt_implies = true
reads_back nt_xor = true
reads_back nt_eq = true
reads_back nt_distinct = true
reads_back nt_ite = true
reads_back nt_add = true
reads_back nt_sub = true
reads_back nt_mul = true
reads_back nt_iand = true
reads_back nt_pow2 = true
reads_back nt_pow = true
reads_back nt_div_int = true
reads_back nt_div_real = true
reads_back nt_mod = true
reads_back nt_abs = true
reads_back nt_sqrt = true
reads_back nt_safesqrt = true
reads_back nt_ceil = true
reads_back nt_floor = true
reads_back nt_round = true
reads_back nt_exp = true
reads_back nt_ln = true
reads_back nt_lg = true
reads_back nt_lb = true
reads_back nt_log = true
reads_back nt_sin = true
reads_back nt_cos = true
reads_back nt_tan = true
reads_back nt_cot = true
reads_back nt_sec = true
reads_back nt_csc = true
reads_back nt_asin = true
reads_back nt_acos = true
reads_back nt_atan = true
reads_back nt_acot = true
reads_back nt_asec = true
reads_back nt_acsc = true
reads_back nt_sinh = true
reads_back nt_cosh = true
reads_back nt_tanh = true
reads_back nt_asech = true
reads_back nt_acsch = true
reads_back nt_acoth = true
reads_back nt_atan2 = true
reads_back nt_asinh = true
reads_back nt_acosh = true
reads_back nt_atanh = true
reads_back nt_sech = true
reads_back nt_csch = true
reads_back nt_coth = true
reads_back nt_le = true
reads_back nt_lt = true
reads_back nt_ge = true
reads_back nt_gt = true
reads_back nt_to_int = true
reads_back nt_to_real = true
reads_back nt_is_int = true
reads_back nt_is_divisible = true
reads_back nt_is_prime = true
reads_back nt_is_even = true
reads_back nt_is_odd = true
reads_back nt_gcd = true
reads_back nt_lcm = true
reads_back nt_fact = true
reads_back nt_bv_not = true
reads_back nt_bv_neg = true
reads_back nt_bv_and = true
reads_back nt_bv_or = true
reads_back nt_bv_xor = true
reads_back nt_bv_nand = true
reads_back nt_bv_nor = true
reads_back nt_bv_xnor = true
reads_back nt_bv_comp = true
reads_back nt_bv_add = true
reads_back nt_bv_sub = true
reads_back nt_bv_mul = true
reads_back nt_bv_udiv = true
reads_back nt_bv_sdiv = true
reads_back nt_bv_urem = true
reads_back nt_bv_srem = true
reads_back nt_bv_umod = true
reads_back nt_bv_smod = true
reads_back nt_bv_shl = true
reads_back nt_bv_lshr = true
reads_back nt_bv_ashr = true
reads_back nt_bv_ult = true
reads_back nt_bv_ule = true
reads_back nt_bv_ugt = true
reads_back nt_bv_uge = true
reads_back nt_bv_slt = true
reads_back nt_bv_sle = true
reads_back nt_bv_sgt = true
reads_back nt_bv_sge = true
reads_back nt_bv_concat = true
reads_back nt_bv_to_nat = true
reads_back nt_nat_to_bv = true
reads_back nt_bv_to_int = true
reads_back nt_ubv_to_int = true
reads_back nt_sbv_to_int = true
reads_back nt_int_to_bv = true
reads_back nt_bv_extract = true
reads_back nt_bv_repeat = true
reads_back nt_bv_zero_ext = true
reads_back nt_bv_sign_ext = true
reads_back nt_bv_rotate_left = true
reads_back nt_bv_rotate_right = true
reads_back nt_fp_add = true
reads_back nt_fp_sub = true
reads_back nt_fp_mul = true
reads_back nt_fp_div = true
reads_back nt_fp_abs = true
reads_back nt_fp_neg = true
reads_back nt_fp_rem = true
reads_back nt_fp_fma = true
reads_back nt_fp_sqrt = true
reads_back nt_fp_round_to_integral = true
reads_back nt_fp_min = true
reads_back nt_fp_max = true
reads_back nt_fp_le = true
reads_back nt_fp_lt = true
reads_back nt_fp_ge = true
reads_back nt_fp_gt = true
reads_back nt_fp_eq = true
reads_back nt_fp_to_ubv = true
reads_back nt_fp_to_sbv = true
reads_back nt_fp_to_real = true
reads_back nt_fp_to_fp = true
reads_back nt_fp_to_fp_unsigned = true
reads_back nt_fp_to_ieee_bv = true
reads_back nt_fp_is_normal = true
reads_back nt_fp_is_subnormal = true
reads_back nt_fp_is_zero = true
reads_back nt_fp_is_inf = true
reads_back nt_fp_is_nan = true
reads_back nt_fp_is_neg = true
reads_back nt_fp_is_pos = true
reads_back nt_select = true
reads_back nt_store = true
reads_back nt_str_len = true
reads_back nt_str_concat = true
reads_back nt_str_substr = true
reads_back nt_str_indexof = true
reads_back nt_str_charat = true
reads_back nt_str_update = true
reads_back nt_str_replace = true
reads_back nt_str_replace_all = true
reads_back nt_str_replace_reg = true
reads_back nt_str_replace_reg_all = true
reads_back nt_str_indexof_reg = true
reads_back nt_str_to_lower = true
reads_back nt_str_to_upper = true
reads_back nt_str_rev = true
reads_back nt_str_split = true
reads_back nt_str_split_at = true
reads_back nt_str_split_rest = true
reads_back nt_str_num_splits = true
reads_back nt_str_split_at_re = true
reads_back nt_str_split_rest_re = true
reads_back nt_str_num_splits_re = true
reads_back nt_str_lt = true
reads_back nt_str_le = true
reads_back nt_str_gt = true
reads_back nt_str_ge = true
reads_back nt_str_in_reg = true
reads_back nt_str_contains = true
reads_back nt_str_is_digit = true
reads_back nt_str_prefixof = true
reads_back nt_str_suffixof = true
reads_back nt_str_from_int = true
reads_back nt_str_to_int = true
reads_back nt_str_to_reg = true
reads_back nt_str_to_code = true
reads_back nt_str_from_code = true
reads_back nt_reg_concat = true
reads_back nt_reg_union = true
reads_back nt_reg_inter = true
reads_back nt_reg_diff = true
reads_back nt_reg_star = true
reads_back nt_reg_plus = true
reads_back nt_reg_opt = true
reads_back nt_reg_range = true
reads_back nt_reg_repeat = true
reads_back nt_reg_complement = true
reads_back nt_reg_loop = true
reads_back nt_tuple_constructor = true
reads_back nt_tuple_unit = true
reads_back nt_tuple_select = true
reads_back nt_tuple_update = true
reads_back nt_tuple_project = true
reads_back nt_eq_bool = true
reads_back nt_eq_other = true
reads_back nt_distinct_bool = true
reads_back nt_distinct_other = true
reads_back nt_neg = true
reads_back k = false

-- A kind of which `reads_back` is true, printed and read back, is the canonical kind of its name; the
-- printed name of every other kind is read as no operator.
pub get_oper_kind-kind_to_string :
    (k : NodeKind)
    → get_oper_kind (kind_to_string k) false ≡ (if reads_back k then canonical k else nt_unknown)
unfolding get_oper_kind kind_to_string canonical reads_back
get_oper_kind-kind_to_string nt_and = refl
get_oper_kind-kind_to_string nt_or = refl
get_oper_kind-kind_to_string nt_not = refl
get_oper_kind-kind_to_string nt_implies = refl
get_oper_kind-kind_to_string nt_xor = refl
get_oper_kind-kind_to_string nt_eq = refl
get_oper_kind-kind_to_string nt_distinct = refl
get_oper_kind-kind_to_string nt_ite = refl
get_oper_kind-kind_to_string nt_add = refl
get_oper_kind-kind_to_string nt_sub = refl
get_oper_kind-kind_to_string nt_mul = refl
get_oper_kind-kind_to_string nt_iand = refl
get_oper_kind-kind_to_string nt_pow2 = refl
get_oper_kind-kind_to_string nt_pow = refl
get_oper_kind-kind_to_string nt_div_int = refl
get_oper_kind-kind_to_string nt_div_real = refl
get_oper_kind-kind_to_string nt_mod = refl
get_oper_kind-kind_to_string nt_abs = refl
get_oper_kind-kind_to_string nt_sqrt = refl
get_oper_kind-kind_to_string nt_safesqrt = refl
get_oper_kind-kind_to_string nt_ceil = refl
get_oper_kind-kind_to_string nt_floor = refl
get_oper_kind-kind_to_string nt_round = refl
get_oper_kind-kind_to_string nt_exp = refl
get_oper_kind-kind_to_string nt_ln = refl
get_oper_kind-kind_to_string nt_lg = refl
get_oper_kind-kind_to_string nt_lb = refl
get_oper_kind-kind_to_string nt_log = refl
get_oper_kind-kind_to_string nt_sin = refl
get_oper_kind-kind_to_string nt_cos = refl
get_oper_kind-kind_to_string nt_tan = refl
get_oper_kind-kind_to_string nt_cot = refl
get_oper_kind-kind_to_string nt_sec = refl
get_oper_kind-kind_to_string nt_csc = refl
get_oper_kind-kind_to_string nt_asin = refl
get_oper_kind-kind_to_string nt_acos = refl
get_oper_kind-kind_to_string nt_atan = refl
get_oper_kind-kind_to_string nt_acot = refl
get_oper_kind-kind_to_string nt_asec = refl
get_oper_kind-kind_to_string nt_acsc = refl
get_oper_kind-kind_to_string nt_sinh = refl
get_oper_kind-kind_to_string nt_cosh = refl
get_oper_kind-kind_to_string nt_tanh = refl
get_oper_kind-kind_to_string nt_asech = refl
get_oper_kind-kind_to_string nt_acsch = refl
get_oper_kind-kind_to_string nt_acoth = refl
get_oper_kind-kind_to_string nt_atan2 = refl
get_oper_kind-kind_to_string nt_asinh = refl
get_oper_kind-kind_to_string nt_acosh = refl
get_oper_kind-kind_to_string nt_atanh = refl
get_oper_kind-kind_to_string nt_sech = refl
get_oper_kind-kind_to_string nt_csch = refl
get_oper_kind-kind_to_string nt_coth = refl
get_oper_kind-kind_to_string nt_le = refl
get_oper_kind-kind_to_string nt_lt = refl
get_oper_kind-kind_to_string nt_ge = refl
get_oper_kind-kind_to_string nt_gt = refl
get_oper_kind-kind_to_string nt_to_int = refl
get_oper_kind-kind_to_string nt_to_real = refl
get_oper_kind-kind_to_string nt_is_int = refl
get_oper_kind-kind_to_string nt_is_divisible = refl
get_oper_kind-kind_to_string nt_is_prime = refl
get_oper_kind-kind_to_string nt_is_even = refl
get_oper_kind-kind_to_string nt_is_odd = refl
get_oper_kind-kind_to_string nt_gcd = refl
get_oper_kind-kind_to_string nt_lcm = refl
get_oper_kind-kind_to_string nt_fact = refl
get_oper_kind-kind_to_string nt_bv_not = refl
get_oper_kind-kind_to_string nt_bv_neg = refl
get_oper_kind-kind_to_string nt_bv_and = refl
get_oper_kind-kind_to_string nt_bv_or = refl
get_oper_kind-kind_to_string nt_bv_xor = refl
get_oper_kind-kind_to_string nt_bv_nand = refl
get_oper_kind-kind_to_string nt_bv_nor = refl
get_oper_kind-kind_to_string nt_bv_xnor = refl
get_oper_kind-kind_to_string nt_bv_comp = refl
get_oper_kind-kind_to_string nt_bv_add = refl
get_oper_kind-kind_to_string nt_bv_sub = refl
get_oper_kind-kind_to_string nt_bv_mul = refl
get_oper_kind-kind_to_string nt_bv_udiv = refl
get_oper_kind-kind_to_string nt_bv_sdiv = refl
get_oper_kind-kind_to_string nt_bv_urem = refl
get_oper_kind-kind_to_string nt_bv_srem = refl
get_oper_kind-kind_to_string nt_bv_umod = refl
get_oper_kind-kind_to_string nt_bv_smod = refl
get_oper_kind-kind_to_string nt_bv_shl = refl
get_oper_kind-kind_to_string nt_bv_lshr = refl
get_oper_kind-kind_to_string nt_bv_ashr = refl
get_oper_kind-kind_to_string nt_bv_ult = refl
get_oper_kind-kind_to_string nt_bv_ule = refl
get_oper_kind-kind_to_string nt_bv_ugt = refl
get_oper_kind-kind_to_string nt_bv_uge = refl
get_oper_kind-kind_to_string nt_bv_slt = refl
get_oper_kind-kind_to_string nt_bv_sle = refl
get_oper_kind-kind_to_string nt_bv_sgt = refl
get_oper_kind-kind_to_string nt_bv_sge = refl
get_oper_kind-kind_to_string nt_bv_concat = refl
get_oper_kind-kind_to_string nt_bv_to_nat = refl
get_oper_kind-kind_to_string nt_nat_to_bv = refl
get_oper_kind-kind_to_string nt_bv_to_int = refl
get_oper_kind-kind_to_string nt_ubv_to_int = refl
get_oper_kind-kind_to_string nt_sbv_to_int = refl
get_oper_kind-kind_to_string nt_int_to_bv = refl
get_oper_kind-kind_to_string nt_bv_extract = refl
get_oper_kind-kind_to_string nt_bv_repeat = refl
get_oper_kind-kind_to_string nt_bv_zero_ext = refl
get_oper_kind-kind_to_string nt_bv_sign_ext = refl
get_oper_kind-kind_to_string nt_bv_rotate_left = refl
get_oper_kind-kind_to_string nt_bv_rotate_right = refl
get_oper_kind-kind_to_string nt_fp_add = refl
get_oper_kind-kind_to_string nt_fp_sub = refl
get_oper_kind-kind_to_string nt_fp_mul = refl
get_oper_kind-kind_to_string nt_fp_div = refl
get_oper_kind-kind_to_string nt_fp_abs = refl
get_oper_kind-kind_to_string nt_fp_neg = refl
get_oper_kind-kind_to_string nt_fp_rem = refl
get_oper_kind-kind_to_string nt_fp_fma = refl
get_oper_kind-kind_to_string nt_fp_sqrt = refl
get_oper_kind-kind_to_string nt_fp_round_to_integral = refl
get_oper_kind-kind_to_string nt_fp_min = refl
get_oper_kind-kind_to_string nt_fp_max = refl
get_oper_kind-kind_to_string nt_fp_le = refl
get_oper_kind-kind_to_string nt_fp_lt = refl
get_oper_kind-kind_to_string nt_fp_ge = refl
get_oper_kind-kind_to_string nt_fp_gt = refl
get_oper_kind-kind_to_string nt_fp_eq = refl
get_oper_kind-kind_to_string nt_fp_to_ubv = refl
get_oper_kind-kind_to_string nt_fp_to_sbv = refl
get_oper_kind-kind_to_string nt_fp_to_real = refl
get_oper_kind-kind_to_string nt_fp_to_fp = refl
get_oper_kind-kind_to_string nt_fp_to_fp_unsigned = refl
get_oper_kind-kind_to_string nt_fp_to_ieee_bv = refl
get_oper_kind-kind_to_string nt_fp_is_normal = refl
get_oper_kind-kind_to_string nt_fp_is_subnormal = refl
get_oper_kind-kind_to_string nt_fp_is_zero = refl
get_oper_kind-kind_to_string nt_fp_is_inf = refl
get_oper_kind-kind_to_string nt_fp_is_nan = refl
get_oper_kind-kind_to_string nt_fp_is_neg = refl
get_oper_kind-kind_to_string nt_fp_is_pos = refl
get_oper_kind-kind_to_string nt_select = refl
get_oper_kind-kind_to_string nt_store = refl
get_oper_kind-kind_to_string nt_str_len = refl
get_oper_kind-kind_to_string nt_str_concat = refl
get_oper_kind-kind_to_string nt_str_substr = refl
get_oper_kind-kind_to_string nt_str_indexof = refl
get_oper_kind-kind_to_string nt_str_charat = refl
get_oper_kind-kind_to_string nt_str_update = refl
get_oper_kind-kind_to_string nt_str_replace = refl
get_oper_kind-kind_to_string nt_str_replace_all = refl
get_oper_kind-kind_to_string nt_str_replace_reg = refl
get_oper_kind-kind_to_string nt_str_replace_reg_all = refl
get_oper_kind-kind_to_string nt_str_indexof_reg = refl
get_oper_kind-kind_to_string nt_str_to_lower = refl
get_oper_kind-kind_to_string nt_str_to_upper = refl
get_oper_kind-kind_to_string nt_str_rev = refl
get_oper_kind-kind_to_string nt_str_split = refl
get_oper_kind-kind_to_string nt_str_split_at = refl
get_oper_kind-kind_to_string nt_str_split_rest = refl
get_oper_kind-kind_to_string nt_str_num_splits = refl
get_oper_kind-kind_to_string nt_str_split_at_re = refl
get_oper_kind-kind_to_string nt_str_split_rest_re = refl
get_oper_kind-kind_to_string nt_str_num_splits_re = refl
get_oper_kind-kind_to_string nt_str_lt = refl
get_oper_kind-kind_to_string nt_str_le = refl
get_oper_kind-kind_to_string nt_str_gt = refl
get_oper_kind-kind_to_string nt_str_ge = refl
get_oper_kind-kind_to_string nt_str_in_reg = refl
get_oper_kind-kind_to_string nt_str_contains = refl
get_oper_kind-kind_to_string nt_str_is_digit = refl
get_oper_kind-kind_to_string nt_str_prefixof = refl
get_oper_kind-kind_to_string nt_str_suffixof = refl
get_oper_kind-kind_to_string nt_str_from_int = refl
get_oper_kind-kind_to_string nt_str_to_int = refl
get_oper_kind-kind_to_string nt_str_to_reg = refl
get_oper_kind-kind_to_string nt_str_to_code = refl
get_oper_kind-kind_to_string nt_str_from_code = refl
get_oper_kind-kind_to_string nt_reg_concat = refl
get_oper_kind-kind_to_string nt_reg_union = refl
get_oper_kind-kind_to_string nt_reg_inter = refl
get_oper_kind-kind_to_string nt_reg_diff = refl
get_oper_kind-kind_to_string nt_reg_star = refl
get_oper_kind-kind_to_string nt_reg_plus = refl
get_oper_kind-kind_to_string nt_reg_opt = refl
get_oper_kind-kind_to_string nt_reg_range = refl
get_oper_kind-kind_to_string nt_reg_repeat = refl
get_oper_kind-kind_to_string nt_reg_complement = refl
get_oper_kind-kind_to_string nt_reg_loop = refl
get_oper_kind-kind_to_string nt_tuple_constructor = refl
get_oper_kind-kind_to_string nt_tuple_unit = refl
get_oper_kind-kind_to_string nt_tuple_select = refl
get_oper_kind-kind_to_string nt_tuple_update = refl
get_oper_kind-kind_to_string nt_tuple_project = refl
get_oper_kind-kind_to_string nt_eq_bool = refl
get_oper_kind-kind_to_string nt_eq_other = refl
get_oper_kind-kind_to_string nt_distinct_bool = refl
get_oper_kind-kind_to_string nt_distinct_other = refl
get_oper_kind-kind_to_string nt_neg = refl
get_oper_kind-kind_to_string _ = refl
