-- ===== src/Kind/Duals.antt =====
-- getNegatedKind and getFlipKind: lines 594-742 of src/core/kind.cpp.
pub mod Laws
use smtlibparser.Kind.{
  NodeKind, nt_add, nt_bv_add, nt_bv_mul, nt_bv_sdiv, nt_bv_sge, nt_bv_sgt, nt_bv_sle, nt_bv_slt,
  nt_bv_sub, nt_bv_udiv, nt_bv_uge, nt_bv_ugt, nt_bv_ule, nt_bv_ult, nt_distinct, nt_distinct_bool,
  nt_distinct_other, nt_div_int, nt_div_real, nt_eq, nt_eq_bool, nt_eq_other, nt_fp_add, nt_fp_div,
  nt_fp_eq, nt_fp_ge, nt_fp_gt, nt_fp_le, nt_fp_lt, nt_fp_mul, nt_fp_sub, nt_ge, nt_gt, nt_le,
  nt_lt, nt_mul, nt_str_ge, nt_str_gt, nt_str_le, nt_str_lt, nt_sub, nt_unknown,
}

unfoldable pub get_negated_kind : NodeKind → NodeKind
get_negated_kind nt_eq = nt_distinct
get_negated_kind nt_distinct = nt_eq
get_negated_kind nt_eq_bool = nt_distinct_bool
get_negated_kind nt_distinct_bool = nt_eq_bool
get_negated_kind nt_eq_other = nt_distinct_other
get_negated_kind nt_distinct_other = nt_eq_other
get_negated_kind nt_le = nt_gt
get_negated_kind nt_lt = nt_ge
get_negated_kind nt_ge = nt_lt
get_negated_kind nt_gt = nt_le
get_negated_kind nt_bv_ult = nt_bv_uge
get_negated_kind nt_bv_ugt = nt_bv_ule
get_negated_kind nt_bv_ule = nt_bv_ugt
get_negated_kind nt_bv_uge = nt_bv_ult
get_negated_kind nt_bv_slt = nt_bv_sge
get_negated_kind nt_bv_sgt = nt_bv_sle
get_negated_kind nt_bv_sle = nt_bv_sgt
get_negated_kind nt_bv_sge = nt_bv_slt
get_negated_kind nt_fp_le = nt_fp_gt
get_negated_kind nt_fp_lt = nt_fp_ge
get_negated_kind nt_fp_ge = nt_fp_lt
get_negated_kind nt_fp_gt = nt_fp_le
get_negated_kind nt_fp_eq = nt_unknown
get_negated_kind nt_str_lt = nt_str_ge
get_negated_kind nt_str_gt = nt_str_le
get_negated_kind nt_str_le = nt_str_gt
get_negated_kind nt_str_ge = nt_str_lt
get_negated_kind _ = nt_unknown

pub get_flip_kind : NodeKind → NodeKind
get_flip_kind nt_eq = nt_eq
get_flip_kind nt_distinct = nt_distinct
get_flip_kind nt_eq_bool = nt_eq_bool
get_flip_kind nt_distinct_bool = nt_distinct_bool
get_flip_kind nt_eq_other = nt_eq_other
get_flip_kind nt_distinct_other = nt_distinct_other
get_flip_kind nt_le = nt_ge
get_flip_kind nt_lt = nt_gt
get_flip_kind nt_ge = nt_le
get_flip_kind nt_gt = nt_lt
get_flip_kind nt_add = nt_sub
get_flip_kind nt_sub = nt_add
get_flip_kind nt_div_int = nt_mul
get_flip_kind nt_div_real = nt_mul
get_flip_kind nt_bv_sub = nt_bv_add
get_flip_kind nt_bv_add = nt_bv_sub
get_flip_kind nt_bv_udiv = nt_bv_mul
get_flip_kind nt_bv_sdiv = nt_bv_mul
get_flip_kind nt_bv_ult = nt_bv_ugt
get_flip_kind nt_bv_ugt = nt_bv_ult
get_flip_kind nt_bv_ule = nt_bv_uge
get_flip_kind nt_bv_uge = nt_bv_ule
get_flip_kind nt_bv_slt = nt_bv_sge
get_flip_kind nt_bv_sgt = nt_bv_slt
get_flip_kind nt_bv_sle = nt_bv_sge
get_flip_kind nt_bv_sge = nt_bv_sle
get_flip_kind nt_fp_add = nt_fp_sub
get_flip_kind nt_fp_sub = nt_fp_add
get_flip_kind nt_fp_mul = nt_fp_div
get_flip_kind nt_fp_div = nt_fp_mul
get_flip_kind nt_fp_le = nt_fp_ge
get_flip_kind nt_fp_lt = nt_fp_gt
get_flip_kind nt_fp_ge = nt_fp_le
get_flip_kind nt_fp_gt = nt_fp_lt
get_flip_kind nt_str_lt = nt_str_gt
get_flip_kind nt_str_gt = nt_str_lt
get_flip_kind nt_str_le = nt_str_ge
get_flip_kind nt_str_ge = nt_str_le
get_flip_kind _ = nt_unknown
