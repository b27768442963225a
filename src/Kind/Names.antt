-- ===== src/Kind/Names.antt =====
-- The names of kinds: kindToString (lines 33-593 of src/core/kind.cpp).
pub mod Laws
use Prim.Native.String.{String}
use smtlibparser.Kind.{
  NodeKind, nt_unknown, nt_error, nt_null, nt_const, nt_var, nt_const_true, nt_const_false,
  nt_temp_var, nt_const_array, nt_placeholder_var, nt_and, nt_or, nt_not, nt_implies, nt_xor, nt_eq,
  nt_distinct, nt_ite, nt_add, nt_neg, nt_sub, nt_mul, nt_iand, nt_pow2, nt_pow, nt_div_int,
  nt_div_real, nt_mod, nt_abs, nt_sqrt, nt_safesqrt, nt_ceil, nt_floor, nt_round, nt_exp, nt_ln,
  nt_lg, nt_lb, nt_log, nt_sin, nt_cos, nt_tan, nt_cot, nt_sec, nt_csc, nt_asin, nt_acos, nt_atan,
  nt_acot, nt_asec, nt_acsc, nt_sinh, nt_cosh, nt_tanh, nt_asech, nt_acsch, nt_acoth, nt_atan2,
  nt_asinh, nt_acosh, nt_atanh, nt_sech, nt_csch, nt_coth, nt_le, nt_lt, nt_ge, nt_gt, nt_to_int,
  nt_to_real, nt_is_int, nt_is_divisible, nt_is_prime, nt_is_even, nt_is_odd, nt_gcd, nt_lcm,
  nt_fact, nt_bv_not, nt_bv_neg, nt_bv_and, nt_bv_or, nt_bv_xor, nt_bv_nand, nt_bv_nor, nt_bv_xnor,
  nt_bv_comp, nt_bv_add, nt_bv_sub, nt_bv_mul, nt_bv_udiv, nt_bv_sdiv, nt_bv_urem, nt_bv_srem,
  nt_bv_umod, nt_bv_smod, nt_bv_shl, nt_bv_lshr, nt_bv_ashr, nt_bv_ult, nt_bv_ule, nt_bv_ugt,
  nt_bv_uge, nt_bv_slt, nt_bv_sle, nt_bv_sgt, nt_bv_sge, nt_bv_concat, nt_bv_to_nat, nt_nat_to_bv,
  nt_bv_to_int, nt_ubv_to_int, nt_sbv_to_int, nt_int_to_bv, nt_bv_extract, nt_bv_repeat,
  nt_bv_zero_ext, nt_bv_sign_ext, nt_bv_rotate_left, nt_bv_rotate_right, nt_fp_add, nt_fp_sub,
  nt_fp_mul, nt_fp_div, nt_fp_abs, nt_fp_neg, nt_fp_rem, nt_fp_fma, nt_fp_sqrt,
  nt_fp_round_to_integral, nt_fp_min, nt_fp_max, nt_fp_le, nt_fp_lt, nt_fp_ge, nt_fp_gt, nt_fp_eq,
  nt_fp_to_ubv, nt_fp_to_sbv, nt_fp_to_real, nt_fp_to_fp, nt_fp_to_fp_unsigned, nt_fp_to_ieee_bv,
  nt_fp_is_normal, nt_fp_is_subnormal, nt_fp_is_zero, nt_fp_is_inf, nt_fp_is_nan, nt_fp_is_neg,
  nt_fp_is_pos, nt_select, nt_store, nt_str_len, nt_str_concat, nt_str_substr, nt_str_indexof,
  nt_str_charat, nt_str_update, nt_str_replace, nt_str_replace_all, nt_str_replace_reg,
  nt_str_replace_reg_all, nt_str_indexof_reg, nt_str_to_lower, nt_str_to_upper, nt_str_rev,
  nt_str_split, nt_str_split_at, nt_str_split_rest, nt_str_num_splits, nt_str_split_at_re,
  nt_str_split_rest_re, nt_str_num_splits_re, nt_str_lt, nt_str_le, nt_str_gt, nt_str_ge,
  nt_str_in_reg, nt_str_contains, nt_str_is_digit, nt_str_prefixof, nt_str_suffixof,
  nt_str_from_int, nt_str_to_int, nt_str_to_reg, nt_str_to_code, nt_str_from_code, nt_reg_concat,
  nt_reg_union, nt_reg_inter, nt_reg_diff, nt_reg_star, nt_reg_plus, nt_reg_opt, nt_reg_range,
  nt_reg_repeat, nt_reg_complement, nt_reg_loop, nt_func_apply, nt_func_dec, nt_func_def,
  nt_func_rec, nt_func_rec_apply, nt_bv_nego, nt_bv_uaddo, nt_bv_saddo, nt_bv_umulo, nt_bv_smulo,
  nt_bv_udivo, nt_bv_sdivo, nt_bv_uremo, nt_bv_sremo, nt_bv_umodo, nt_bv_smodo, nt_eq_bool,
  nt_eq_other, nt_distinct_bool, nt_distinct_other, nt_uf_apply, nt_dt_tester, nt_dt_updater,
  nt_tuple_constructor, nt_tuple_unit, nt_tuple_select, nt_tuple_update, nt_tuple_project,
  nt_attribute, nt_pattern, nt_no_pattern, nt_weight, nt_qid, nt_const_pi, nt_const_e, nt_infinity,
  nt_nan, nt_epsilon, nt_pos_infinity, nt_neg_infinity, nt_pos_epsilon, nt_neg_epsilon, nt_reg_none,
  nt_reg_all, nt_reg_allchar, nt_max, nt_min, nt_let, nt_let_chain, nt_let_bind_var,
  nt_let_bind_var_list, nt_forall, nt_exists, nt_quant_var, nt_func_param, nt_root_obj,
  nt_root_of_with_interval,
}

pub kind_to_string : NodeKind → String
kind_to_string nt_unknown = "UNKNOWN_KIND"
kind_to_string nt_error = "ERROR"
kind_to_string nt_null = "NULL"
kind_to_string nt_const = "CONST"
kind_to_string nt_var = "VAR"
kind_to_string nt_const_true = "true"
kind_to_string nt_const_false = "false"
kind_to_string nt_temp_var = "TEMP_VAR"
kind_to_string nt_const_array = "const_array"
kind_to_string nt_placeholder_var = "placeholder_var"
kind_to_string nt_and = "and"
kind_to_string nt_or = "or"
kind_to_string nt_not = "not"
kind_to_string nt_implies = "=>"
kind_to_string nt_xor = "xor"
kind_to_string nt_eq = "="
kind_to_string nt_distinct = "distinct"
kind_to_string nt_ite = "ite"
kind_to_string nt_add = "+"
kind_to_string nt_neg = "-"
kind_to_string nt_sub = "-"
kind_to_string nt_mul = "*"
kind_to_string nt_iand = "iand"
kind_to_string nt_pow2 = "pow2"
kind_to_string nt_pow = "^"
kind_to_string nt_div_int = "div"
kind_to_string nt_div_real = "/"
kind_to_string nt_mod = "mod"
kind_to_string nt_abs = "abs"
kind_to_string nt_sqrt = "sqrt"
kind_to_string nt_safesqrt = "safesqrt"
kind_to_string nt_ceil = "ceil"
kind_to_string nt_floor = "floor"
kind_to_string nt_round = "round"
kind_to_string nt_exp = "exp"
kind_to_string nt_ln = "ln"
kind_to_string nt_lg = "lg"
kind_to_string nt_lb = "lb"
kind_to_string nt_log = "log"
kind_to_string nt_sin = "sin"
kind_to_string nt_cos = "cos"
kind_to_string nt_tan = "tan"
kind_to_string nt_cot = "cot"
kind_to_string nt_sec = "sec"
kind_to_string nt_csc = "csc"
kind_to_string nt_asin = "asin"
kind_to_string nt_acos = "acos"
kind_to_string nt_atan = "atan"
kind_to_string nt_acot = "acot"
kind_to_string nt_asec = "asec"
kind_to_string nt_acsc = "acsc"
kind_to_string nt_sinh = "sinh"
kind_to_string nt_cosh = "cosh"
kind_to_string nt_tanh = "tanh"
kind_to_string nt_asech = "asech"
kind_to_string nt_acsch = "acsch"
kind_to_string nt_acoth = "acoth"
kind_to_string nt_atan2 = "atan2"
kind_to_string nt_asinh = "asinh"
kind_to_string nt_acosh = "acosh"
kind_to_string nt_atanh = "atanh"
kind_to_string nt_sech = "sech"
kind_to_string nt_csch = "csch"
kind_to_string nt_coth = "coth"
kind_to_string nt_le = "<="
kind_to_string nt_lt = "<"
kind_to_string nt_ge = ">="
kind_to_string nt_gt = ">"
kind_to_string nt_to_int = "to_int"
kind_to_string nt_to_real = "to_real"
kind_to_string nt_is_int = "is_int"
kind_to_string nt_is_divisible = "divisible"
kind_to_string nt_is_prime = "is_prime"
kind_to_string nt_is_even = "is_even"
kind_to_string nt_is_odd = "is_odd"
kind_to_string nt_gcd = "gcd"
kind_to_string nt_lcm = "lcm"
kind_to_string nt_fact = "factorial"
kind_to_string nt_bv_not = "bvnot"
kind_to_string nt_bv_neg = "bvneg"
kind_to_string nt_bv_and = "bvand"
kind_to_string nt_bv_or = "bvor"
kind_to_string nt_bv_xor = "bvxor"
kind_to_string nt_bv_nand = "bvnand"
kind_to_string nt_bv_nor = "bvnor"
kind_to_string nt_bv_xnor = "bvxnor"
kind_to_string nt_bv_comp = "bvcomp"
kind_to_string nt_bv_add = "bvadd"
kind_to_string nt_bv_sub = "bvsub"
kind_to_string nt_bv_mul = "bvmul"
kind_to_string nt_bv_udiv = "bvudiv"
kind_to_string nt_bv_sdiv = "bvsdiv"
kind_to_string nt_bv_urem = "bvurem"
kind_to_string nt_bv_srem = "bvsrem"
kind_to_string nt_bv_umod = "bvumod"
kind_to_string nt_bv_smod = "bvsmod"
kind_to_string nt_bv_shl = "bvshl"
kind_to_string nt_bv_lshr = "bvlshr"
kind_to_string nt_bv_ashr = "bvashr"
kind_to_string nt_bv_ult = "bvult"
kind_to_string nt_bv_ule = "bvule"
kind_to_string nt_bv_ugt = "bvugt"
kind_to_string nt_bv_uge = "bvuge"
kind_to_string nt_bv_slt = "bvslt"
kind_to_string nt_bv_sle = "bvsle"
kind_to_string nt_bv_sgt = "bvsgt"
kind_to_string nt_bv_sge = "bvsge"
kind_to_string nt_bv_concat = "concat"
kind_to_string nt_bv_to_nat = "bv2nat"
kind_to_string nt_nat_to_bv = "nat2bv"
kind_to_string nt_bv_to_int = "bv2int"
kind_to_string nt_ubv_to_int = "ubv_to_int"
kind_to_string nt_sbv_to_int = "sbv_to_int"
kind_to_string nt_int_to_bv = "int2bv"
kind_to_string nt_bv_extract = "extract"
kind_to_string nt_bv_repeat = "repeat"
kind_to_string nt_bv_zero_ext = "zero_extend"
kind_to_string nt_bv_sign_ext = "sign_extend"
kind_to_string nt_bv_rotate_left = "rotate_left"
kind_to_string nt_bv_rotate_right = "rotate_right"
kind_to_string nt_fp_add = "fp.add"
kind_to_string nt_fp_sub = "fp.sub"
kind_to_string nt_fp_mul = "fp.mul"
kind_to_string nt_fp_div = "fp.div"
kind_to_string nt_fp_abs = "fp.abs"
kind_to_string nt_fp_neg = "fp.neg"
kind_to_string nt_fp_rem = "fp.rem"
kind_to_string nt_fp_fma = "fp.fma"
kind_to_string nt_fp_sqrt = "fp.sqrt"
kind_to_string nt_fp_round_to_integral = "fp.roundToIntegral"
kind_to_string nt_fp_min = "fp.min"
kind_to_string nt_fp_max = "fp.max"
kind_to_string nt_fp_le = "fp.leq"
kind_to_string nt_fp_lt = "fp.lt"
kind_to_string nt_fp_ge = "fp.geq"
kind_to_string nt_fp_gt = "fp.gt"
kind_to_string nt_fp_eq = "fp.eq"
kind_to_string nt_fp_to_ubv = "fp.to_ubv"
kind_to_string nt_fp_to_sbv = "fp.to_sbv"
kind_to_string nt_fp_to_real = "fp.to_real"
kind_to_string nt_fp_to_fp = "to_fp"
kind_to_string nt_fp_to_fp_unsigned = "to_fp_unsigned"
kind_to_string nt_fp_to_ieee_bv = "fp.to_ieee_bv"
kind_to_string nt_fp_is_normal = "fp.isNormal"
kind_to_string nt_fp_is_subnormal = "fp.isSubnormal"
kind_to_string nt_fp_is_zero = "fp.isZero"
kind_to_string nt_fp_is_inf = "fp.isInfinite"
kind_to_string nt_fp_is_nan = "fp.isNaN"
kind_to_string nt_fp_is_neg = "fp.isNegative"
kind_to_string nt_fp_is_pos = "fp.isPositive"
kind_to_string nt_select = "select"
kind_to_string nt_store = "store"
kind_to_string nt_str_len = "str.len"
kind_to_string nt_str_concat = "str.++"
kind_to_string nt_str_substr = "str.substr"
kind_to_string nt_str_indexof = "str.indexof"
kind_to_string nt_str_charat = "str.at"
kind_to_string nt_str_update = "str.update"
kind_to_string nt_str_replace = "str.replace"
kind_to_string nt_str_replace_all = "str.replace_all"
kind_to_string nt_str_replace_reg = "str.replace_re"
kind_to_string nt_str_replace_reg_all = "str.replace_re_all"
kind_to_string nt_str_indexof_reg = "str.indexof_re"
kind_to_string nt_str_to_lower = "str.to_lower"
kind_to_string nt_str_to_upper = "str.to_upper"
kind_to_string nt_str_rev = "str.rev"
kind_to_string nt_str_split = "str.split"
kind_to_string nt_str_split_at = "str.split_at"
kind_to_string nt_str_split_rest = "str.split_rest"
kind_to_string nt_str_num_splits = "str.num_splits"
kind_to_string nt_str_split_at_re = "str.split_at_re"
kind_to_string nt_str_split_rest_re = "str.split_rest_re"
kind_to_string nt_str_num_splits_re = "str.num_splits_re"
kind_to_string nt_str_lt = "str.<"
kind_to_string nt_str_le = "str.<="
kind_to_string nt_str_gt = "str.>"
kind_to_string nt_str_ge = "str.>="
kind_to_string nt_str_in_reg = "str.in_re"
kind_to_string nt_str_contains = "str.contains"
kind_to_string nt_str_is_digit = "str.is_digit"
kind_to_string nt_str_prefixof = "str.prefixof"
kind_to_string nt_str_suffixof = "str.suffixof"
kind_to_string nt_str_from_int = "str.from_int"
kind_to_string nt_str_to_int = "str.to_int"
kind_to_string nt_str_to_reg = "str.to_re"
kind_to_string nt_str_to_code = "str.to_code"
kind_to_string nt_str_from_code = "str.from_code"
kind_to_string nt_reg_concat = "re.++"
kind_to_string nt_reg_union = "re.union"
kind_to_string nt_reg_inter = "re.inter"
kind_to_string nt_reg_diff = "re.diff"
kind_to_string nt_reg_star = "re.*"
kind_to_string nt_reg_plus = "re.+"
kind_to_string nt_reg_opt = "re.opt"
kind_to_string nt_reg_range = "re.range"
kind_to_string nt_reg_repeat = "re.^"
kind_to_string nt_reg_complement = "re.comp"
kind_to_string nt_reg_loop = "re.loop"
kind_to_string nt_func_apply = "func_apply"
kind_to_string nt_func_dec = "func_dec"
kind_to_string nt_func_def = "func_def"
kind_to_string nt_func_rec = "func_rec"
kind_to_string nt_func_rec_apply = "func_rec_apply"
kind_to_string nt_bv_nego = "bvnego"
kind_to_string nt_bv_uaddo = "bvuaddo"
kind_to_string nt_bv_saddo = "bvsaddo"
kind_to_string nt_bv_umulo = "bvumulo"
kind_to_string nt_bv_smulo = "bvsmulo"
kind_to_string nt_bv_udivo = "bvudivo"
kind_to_string nt_bv_sdivo = "bvsdivo"
kind_to_string nt_bv_uremo = "bvuremo"
kind_to_string nt_bv_sremo = "bvsremo"
kind_to_string nt_bv_umodo = "bvumodo"
kind_to_string nt_bv_smodo = "bvsmodo"
kind_to_string nt_eq_bool = "="
kind_to_string nt_eq_other = "="
kind_to_string nt_distinct_bool = "distinct"
kind_to_string nt_distinct_other = "distinct"
kind_to_string nt_uf_apply = "UF_APPLY"
kind_to_string nt_dt_tester = "is"
kind_to_string nt_dt_updater = "update"
kind_to_string nt_tuple_constructor = "tuple"
kind_to_string nt_tuple_unit = "tuple.unit"
kind_to_string nt_tuple_select = "tuple.select"
kind_to_string nt_tuple_update = "tuple.update"
kind_to_string nt_tuple_project = "tuple.project"
kind_to_string nt_attribute = "!"
kind_to_string nt_pattern = ":pattern"
kind_to_string nt_no_pattern = ":no-pattern"
kind_to_string nt_weight = ":weight"
kind_to_string nt_qid = ":qid"
kind_to_string nt_const_pi = "pi"
kind_to_string nt_const_e = "e"
kind_to_string nt_infinity = "inf"
kind_to_string nt_nan = "NaN"
kind_to_string nt_epsilon = "epsilon"
kind_to_string nt_pos_infinity = "+inf"
kind_to_string nt_neg_infinity = "-inf"
kind_to_string nt_pos_epsilon = "+epsilon"
kind_to_string nt_neg_epsilon = "-epsilon"
kind_to_string nt_reg_none = "re.none"
kind_to_string nt_reg_all = "re.all"
kind_to_string nt_reg_allchar = "re.allchar"
kind_to_string nt_max = "max"
kind_to_string nt_min = "min"
kind_to_string nt_let = "let"
kind_to_string nt_let_chain = "let_chain"
kind_to_string nt_let_bind_var = "let_bind_var"
kind_to_string nt_let_bind_var_list = "let_bind_var_list"
kind_to_string nt_forall = "forall"
kind_to_string nt_exists = "exists"
kind_to_string nt_quant_var = "quant_var"
kind_to_string nt_func_param = "func_param"
kind_to_string _ = "UNKNOWN_KIND"
