-- ===== src/Kind/Table.antt =====
-- oper_key_map of include/somtparser/core/kind.h, in the order of its initialiser. A key that comes
-- twice keeps its first entry, as the insertion into an unordered_map does.
use Prim.Native.String.{String}
use smtlibparser.Prelude.{List, [], ◌∷◌}
use smtlibparser.Kind.{
  NodeKind, nt_and, nt_or, nt_not, nt_implies, nt_xor, nt_eq, nt_distinct, nt_ite, nt_add, nt_sub,
  nt_mul, nt_iand, nt_pow2, nt_pow, nt_div_int, nt_div_real, nt_mod, nt_abs, nt_sqrt, nt_safesqrt,
  nt_ceil, nt_floor, nt_round, nt_exp, nt_ln, nt_lg, nt_lb, nt_log, nt_sin, nt_cos, nt_tan, nt_sec,
  nt_csc, nt_cot, nt_asin, nt_acos, nt_atan, nt_asec, nt_acsc, nt_acot, nt_atan2, nt_sinh, nt_cosh,
  nt_tanh, nt_sech, nt_csch, nt_coth, nt_asinh, nt_acosh, nt_atanh, nt_asech, nt_acsch, nt_acoth,
  nt_le, nt_lt, nt_ge, nt_gt, nt_to_real, nt_to_int, nt_is_int, nt_is_divisible, nt_is_prime,
  nt_is_even, nt_is_odd, nt_gcd, nt_lcm, nt_fact, nt_bv_not, nt_bv_neg, nt_bv_and, nt_bv_or,
  nt_bv_xor, nt_bv_nand, nt_bv_nor, nt_bv_xnor, nt_bv_comp, nt_bv_add, nt_bv_sub, nt_bv_mul,
  nt_bv_udiv, nt_bv_urem, nt_bv_sdiv, nt_bv_srem, nt_bv_umod, nt_bv_smod, nt_bv_shl, nt_bv_lshr,
  nt_bv_ashr, nt_bv_ult, nt_bv_ule, nt_bv_ugt, nt_bv_uge, nt_bv_slt, nt_bv_sle, nt_bv_sgt,
  nt_bv_sge, nt_bv_concat, nt_bv_to_nat, nt_nat_to_bv, nt_bv_to_int, nt_int_to_bv, nt_ubv_to_int,
  nt_sbv_to_int, nt_bv_extract, nt_bv_repeat, nt_bv_zero_ext, nt_bv_sign_ext, nt_bv_rotate_left,
  nt_bv_rotate_right, nt_fp_abs, nt_fp_neg, nt_fp_add, nt_fp_sub, nt_fp_mul, nt_fp_div, nt_fp_fma,
  nt_fp_sqrt, nt_fp_rem, nt_fp_round_to_integral, nt_fp_min, nt_fp_max, nt_fp_le, nt_fp_lt,
  nt_fp_ge, nt_fp_gt, nt_fp_eq, nt_fp_to_ubv, nt_fp_to_sbv, nt_fp_to_real, nt_fp_to_fp,
  nt_fp_to_fp_unsigned, nt_fp_to_ieee_bv, nt_fp_is_normal, nt_fp_is_subnormal, nt_fp_is_zero,
  nt_fp_is_inf, nt_fp_is_nan, nt_fp_is_neg, nt_fp_is_pos, nt_select, nt_store, nt_tuple_constructor,
  nt_tuple_unit, nt_tuple_select, nt_tuple_update, nt_tuple_project, nt_str_len, nt_str_concat,
  nt_str_substr, nt_str_prefixof, nt_str_suffixof, nt_str_indexof, nt_str_charat, nt_str_update,
  nt_str_replace, nt_str_replace_all, nt_str_replace_reg, nt_str_replace_reg_all,
  nt_str_indexof_reg, nt_str_to_lower, nt_str_to_upper, nt_str_rev, nt_str_split, nt_str_split_at,
  nt_str_split_rest, nt_str_num_splits, nt_str_split_at_re, nt_str_split_rest_re,
  nt_str_num_splits_re, nt_str_lt, nt_str_le, nt_str_gt, nt_str_ge, nt_str_in_reg, nt_str_contains,
  nt_str_is_digit, nt_str_from_int, nt_str_to_int, nt_str_to_reg, nt_str_to_code, nt_str_from_code,
  nt_reg_concat, nt_reg_union, nt_reg_inter, nt_reg_diff, nt_reg_star, nt_reg_plus, nt_reg_opt,
  nt_reg_range, nt_reg_repeat, nt_reg_loop, nt_reg_complement, nt_root_obj,
  nt_root_of_with_interval,
}

abbrev pub oper_key_map : List (String × NodeKind)
oper_key_map =
    ("and", nt_and)
    ∷ ("or", nt_or)
    ∷ ("not", nt_not)
    ∷ ("=>", nt_implies)
    ∷ ("xor", nt_xor)
    ∷ ("=", nt_eq)
    ∷ ("==", nt_eq)
    ∷ ("<->", nt_eq)
    ∷ ("iff", nt_eq)
    ∷ ("<=>", nt_eq)
    ∷ ("distinct", nt_distinct)
    ∷ ("!=", nt_distinct)
    ∷ ("<>", nt_distinct)
    ∷ ("ite", nt_ite)
    ∷ ("+", nt_add)
    ∷ ("-", nt_sub)
    ∷ ("*", nt_mul)
    ∷ ("iand", nt_iand)
    ∷ ("pow2", nt_pow2)
    ∷ ("pow", nt_pow)
    ∷ ("**", nt_pow)
    ∷ ("^", nt_pow)
    ∷ ("div", nt_div_int)
    ∷ ("/", nt_div_real)
    ∷ ("%", nt_mod)
    ∷ ("mod", nt_mod)
    ∷ ("abs", nt_abs)
    ∷ ("sqrt", nt_sqrt)
    ∷ ("safesqrt", nt_safesqrt)
    ∷ ("safeSqrt", nt_safesqrt)
    ∷ ("ceil", nt_ceil)
    ∷ ("floor", nt_floor)
    ∷ ("round", nt_round)
    ∷ ("exp", nt_exp)
    ∷ ("ln", nt_ln)
    ∷ ("loge", nt_ln)
    ∷ ("lg", nt_lg)
    ∷ ("log10", nt_lg)
    ∷ ("lb", nt_lb)
    ∷ ("log2", nt_lb)
    ∷ ("log", nt_log)
    ∷ ("sin", nt_sin)
    ∷ ("cos", nt_cos)
    ∷ ("tan", nt_tan)
    ∷ ("sec", nt_sec)
    ∷ ("csc", nt_csc)
    ∷ ("cot", nt_cot)
    ∷ ("asin", nt_asin)
    ∷ ("arcsin", nt_asin)
    ∷ ("acos", nt_acos)
    ∷ ("arccos", nt_acos)
    ∷ ("atan", nt_atan)
    ∷ ("arctan", nt_atan)
    ∷ ("asec", nt_asec)
    ∷ ("arcsec", nt_asec)
    ∷ ("acsc", nt_acsc)
    ∷ ("arccsc", nt_acsc)
    ∷ ("acot", nt_acot)
    ∷ ("arccot", nt_acot)
    ∷ ("atan2", nt_atan2)
    ∷ ("arctan2", nt_atan2)
    ∷ ("sinh", nt_sinh)
    ∷ ("cosh", nt_cosh)
    ∷ ("tanh", nt_tanh)
    ∷ ("sech", nt_sech)
    ∷ ("csch", nt_csch)
    ∷ ("coth", nt_coth)
    ∷ ("asinh", nt_asinh)
    ∷ ("arcsinh", nt_asinh)
    ∷ ("acosh", nt_acosh)
    ∷ ("arccosh", nt_acosh)
    ∷ ("atanh", nt_atanh)
    ∷ ("arctanh", nt_atanh)
    ∷ ("asech", nt_asech)
    ∷ ("arcsec", nt_asech)
    ∷ ("asech", nt_asech)
    ∷ ("arcsec", nt_asech)
    ∷ ("acsch", nt_acsch)
    ∷ ("arccsch", nt_acsch)
    ∷ ("acoth", nt_acoth)
    ∷ ("arccoth", nt_acoth)
    ∷ ("<=", nt_le)
    ∷ ("<", nt_lt)
    ∷ (">=", nt_ge)
    ∷ (">", nt_gt)
    ∷ ("to_real", nt_to_real)
    ∷ ("to_int", nt_to_int)
    ∷ ("is_int", nt_is_int)
    ∷ ("divisible", nt_is_divisible)
    ∷ ("is_divisible", nt_is_divisible)
    ∷ ("is_prime", nt_is_prime)
    ∷ ("is_even", nt_is_even)
    ∷ ("is_odd", nt_is_odd)
    ∷ ("gcd", nt_gcd)
    ∷ ("lcm", nt_lcm)
    ∷ ("factorial", nt_fact)
    ∷ ("bvnot", nt_bv_not)
    ∷ ("bvneg", nt_bv_neg)
    ∷ ("bvand", nt_bv_and)
    ∷ ("bvor", nt_bv_or)
    ∷ ("bvxor", nt_bv_xor)
    ∷ ("bvnand", nt_bv_nand)
    ∷ ("bvnor", nt_bv_nor)
    ∷ ("bvxnor", nt_bv_xnor)
    ∷ ("bvcomp", nt_bv_comp)
    ∷ ("bvadd", nt_bv_add)
    ∷ ("bvsub", nt_bv_sub)
    ∷ ("bvmul", nt_bv_mul)
    ∷ ("bvudiv", nt_bv_udiv)
    ∷ ("bvurem", nt_bv_urem)
    ∷ ("bvsdiv", nt_bv_sdiv)
    ∷ ("bvsrem", nt_bv_srem)
    ∷ ("bvumod", nt_bv_umod)
    ∷ ("bvsmod", nt_bv_smod)
    ∷ ("bvshl", nt_bv_shl)
    ∷ ("bvlshr", nt_bv_lshr)
    ∷ ("bvashr", nt_bv_ashr)
    ∷ ("bvult", nt_bv_ult)
    ∷ ("bvule", nt_bv_ule)
    ∷ ("bvugt", nt_bv_ugt)
    ∷ ("bvuge", nt_bv_uge)
    ∷ ("bvslt", nt_bv_slt)
    ∷ ("bvsle", nt_bv_sle)
    ∷ ("bvsgt", nt_bv_sgt)
    ∷ ("bvsge", nt_bv_sge)
    ∷ ("concat", nt_bv_concat)
    ∷ ("bv2nat", nt_bv_to_nat)
    ∷ ("nat2bv", nt_nat_to_bv)
    ∷ ("bv2int", nt_bv_to_int)
    ∷ ("int2bv", nt_int_to_bv)
    ∷ ("ubv_to_int", nt_ubv_to_int)
    ∷ ("sbv_to_int", nt_sbv_to_int)
    ∷ ("extract", nt_bv_extract)
    ∷ ("repeat", nt_bv_repeat)
    ∷ ("zero_extend", nt_bv_zero_ext)
    ∷ ("sign_extend", nt_bv_sign_ext)
    ∷ ("rotate_left", nt_bv_rotate_left)
    ∷ ("rotate_right", nt_bv_rotate_right)
    ∷ ("fp.abs", nt_fp_abs)
    ∷ ("fp.neg", nt_fp_neg)
    ∷ ("fp.add", nt_fp_add)
    ∷ ("fp.sub", nt_fp_sub)
    ∷ ("fp.mul", nt_fp_mul)
    ∷ ("fp.div", nt_fp_div)
    ∷ ("fp.fma", nt_fp_fma)
    ∷ ("fp.sqrt", nt_fp_sqrt)
    ∷ ("fp.rem", nt_fp_rem)
    ∷ ("fp.roundToIntegral", nt_fp_round_to_integral)
    ∷ ("fp.min", nt_fp_min)
    ∷ ("fp.max", nt_fp_max)
    ∷ ("fp.le", nt_fp_le)
    ∷ ("fp.leq", nt_fp_le)
    ∷ ("fp.lt", nt_fp_lt)
    ∷ ("fp.ge", nt_fp_ge)
    ∷ ("fp.geq", nt_fp_ge)
    ∷ ("fp.gt", nt_fp_gt)
    ∷ ("fp.eq", nt_fp_eq)
    ∷ ("fp.=", nt_fp_eq)
    ∷ ("fp.==", nt_fp_eq)
    ∷ ("fp.to_ubv", nt_fp_to_ubv)
    ∷ ("fp.toUbv", nt_fp_to_ubv)
    ∷ ("fp.to_sbv", nt_fp_to_sbv)
    ∷ ("fp.toSbv", nt_fp_to_sbv)
    ∷ ("fp.to_real", nt_fp_to_real)
    ∷ ("to_fp", nt_fp_to_fp)
    ∷ ("to_fp_unsigned", nt_fp_to_fp_unsigned)
    ∷ ("fp.to_ieee_bv", nt_fp_to_ieee_bv)
    ∷ ("fp.isNormal", nt_fp_is_normal)
    ∷ ("fp.isSubnormal", nt_fp_is_subnormal)
    ∷ ("fp.isZero", nt_fp_is_zero)
    ∷ ("fp.isInf", nt_fp_is_inf)
    ∷ ("fp.isInfinite", nt_fp_is_inf)
    ∷ ("fp.isNan", nt_fp_is_nan)
    ∷ ("fp.isNaN", nt_fp_is_nan)
    ∷ ("fp.isNeg", nt_fp_is_neg)
    ∷ ("fp.isNegative", nt_fp_is_neg)
    ∷ ("fp.isPos", nt_fp_is_pos)
    ∷ ("fp.isPositive", nt_fp_is_pos)
    ∷ ("select", nt_select)
    ∷ ("store", nt_store)
    ∷ ("tuple", nt_tuple_constructor)
    ∷ ("tuple.unit", nt_tuple_unit)
    ∷ ("tuple.select", nt_tuple_select)
    ∷ ("tuple.update", nt_tuple_update)
    ∷ ("tuple.project", nt_tuple_project)
    ∷ ("str.len", nt_str_len)
    ∷ ("str.++", nt_str_concat)
    ∷ ("str.substr", nt_str_substr)
    ∷ ("str.prefixof", nt_str_prefixof)
    ∷ ("str.suffixof", nt_str_suffixof)
    ∷ ("str.indexof", nt_str_indexof)
    ∷ ("str.at", nt_str_charat)
    ∷ ("str.update", nt_str_update)
    ∷ ("str.replace", nt_str_replace)
    ∷ ("str.replace_all", nt_str_replace_all)
    ∷ ("str.replace_re", nt_str_replace_reg)
    ∷ ("str.replace_re_all", nt_str_replace_reg_all)
    ∷ ("str.indexof_re", nt_str_indexof_reg)
    ∷ ("str.to_lower", nt_str_to_lower)
    ∷ ("str.to_upper", nt_str_to_upper)
    ∷ ("str.rev", nt_str_rev)
    ∷ ("str.split", nt_str_split)
    ∷ ("str.split_at", nt_str_split_at)
    ∷ ("str.split_rest", nt_str_split_rest)
    ∷ ("str.num_splits", nt_str_num_splits)
    ∷ ("str.split_at_re", nt_str_split_at_re)
    ∷ ("str.split_rest_re", nt_str_split_rest_re)
    ∷ ("str.num_splits_re", nt_str_num_splits_re)
    ∷ ("str.<", nt_str_lt)
    ∷ ("str.<=", nt_str_le)
    ∷ ("str.>", nt_str_gt)
    ∷ ("str.>=", nt_str_ge)
    ∷ ("str.in_re", nt_str_in_reg)
    ∷ ("str.in.re", nt_str_in_reg)
    ∷ ("str.contains", nt_str_contains)
    ∷ ("str.is_digit", nt_str_is_digit)
    ∷ ("str.from_int", nt_str_from_int)
    ∷ ("str.to_int", nt_str_to_int)
    ∷ ("str.to_re", nt_str_to_reg)
    ∷ ("str.to.re", nt_str_to_reg)
    ∷ ("str.to_code", nt_str_to_code)
    ∷ ("str.from_code", nt_str_from_code)
    ∷ ("re.++", nt_reg_concat)
    ∷ ("re.union", nt_reg_union)
    ∷ ("re.inter", nt_reg_inter)
    ∷ ("re.diff", nt_reg_diff)
    ∷ ("re.*", nt_reg_star)
    ∷ ("re.+", nt_reg_plus)
    ∷ ("re.?", nt_reg_opt)
    ∷ ("re.opt", nt_reg_opt)
    ∷ ("re.range", nt_reg_range)
    ∷ ("re.^", nt_reg_repeat)
    ∷ ("re.repeat", nt_reg_repeat)
    ∷ ("re.loop", nt_reg_loop)
    ∷ ("re.comp", nt_reg_complement)
    ∷ ("root-obj", nt_root_obj)
    ∷ ("root-of-with-interval", nt_root_of_with_interval)
    ∷ []
