-- ===== src/Kind.antt =====
-- NODE_KIND: include/somtparser/core/kind.h.
pub mod Duals
pub mod Table
pub mod Read
pub mod Names
mod Tests

pub data NodeKind : Type 0 where
  nt_unknown nt_error nt_null nt_const nt_var nt_const_true nt_const_false nt_temp_var : NodeKind
  nt_const_array nt_placeholder_var nt_and nt_or nt_not nt_implies nt_xor nt_eq nt_distinct :
      NodeKind
  nt_ite nt_add nt_neg nt_sub nt_mul nt_iand nt_pow2 nt_pow nt_div_int nt_div_real nt_mod : NodeKind
  nt_abs nt_sqrt nt_safesqrt nt_ceil nt_floor nt_round nt_exp nt_ln nt_lg nt_lb nt_log nt_sin :
      NodeKind
  nt_cos nt_tan nt_cot nt_sec nt_csc nt_asin nt_acos nt_atan nt_acot nt_asec nt_acsc nt_sinh :
      NodeKind
  nt_cosh nt_tanh nt_asech nt_acsch nt_acoth nt_atan2 nt_asinh nt_acosh nt_atanh nt_sech : NodeKind
  nt_csch nt_coth nt_le nt_lt nt_ge nt_gt nt_to_int nt_to_real nt_is_int nt_is_divisible : NodeKind
  nt_is_prime nt_is_even nt_is_odd nt_gcd nt_lcm nt_fact nt_bv_not nt_bv_neg nt_bv_and : NodeKind
  nt_bv_or nt_bv_xor nt_bv_nand nt_bv_nor nt_bv_xnor nt_bv_comp nt_bv_add nt_bv_sub nt_bv_mul :
      NodeKind
  nt_bv_udiv nt_bv_sdiv nt_bv_urem nt_bv_srem nt_bv_umod nt_bv_smod nt_bv_shl nt_bv_lshr : NodeKind
  nt_bv_ashr nt_bv_ult nt_bv_ule nt_bv_ugt nt_bv_uge nt_bv_slt nt_bv_sle nt_bv_sgt nt_bv_sge :
      NodeKind
  nt_bv_concat nt_bv_to_nat nt_nat_to_bv nt_bv_to_int nt_ubv_to_int nt_sbv_to_int nt_int_to_bv :
      NodeKind
  nt_bv_extract nt_bv_repeat nt_bv_zero_ext nt_bv_sign_ext nt_bv_rotate_left : NodeKind
  nt_bv_rotate_right nt_fp_add nt_fp_sub nt_fp_mul nt_fp_div nt_fp_abs nt_fp_neg nt_fp_rem :
      NodeKind
  nt_fp_fma nt_fp_sqrt nt_fp_round_to_integral nt_fp_min nt_fp_max nt_fp_le nt_fp_lt nt_fp_ge :
      NodeKind
  nt_fp_gt nt_fp_eq nt_fp_to_ubv nt_fp_to_sbv nt_fp_to_real nt_fp_to_fp nt_fp_to_fp_unsigned :
      NodeKind
  nt_fp_to_ieee_bv nt_fp_is_normal nt_fp_is_subnormal nt_fp_is_zero nt_fp_is_inf nt_fp_is_nan :
      NodeKind
  nt_fp_is_neg nt_fp_is_pos nt_select nt_store nt_str_len nt_str_concat nt_str_substr : NodeKind
  nt_str_indexof nt_str_charat nt_str_update nt_str_replace nt_str_replace_all : NodeKind
  nt_str_replace_reg nt_str_replace_reg_all nt_str_indexof_reg nt_str_to_lower nt_str_to_upper :
      NodeKind
  nt_str_rev nt_str_split nt_str_split_at nt_str_split_rest nt_str_num_splits : NodeKind
  nt_str_split_at_re nt_str_split_rest_re nt_str_num_splits_re nt_str_lt nt_str_le nt_str_gt :
      NodeKind
  nt_str_ge nt_str_in_reg nt_str_contains nt_str_is_digit nt_str_prefixof nt_str_suffixof : NodeKind
  nt_str_from_int nt_str_to_int nt_str_to_reg nt_str_to_code nt_str_from_code nt_reg_concat :
      NodeKind
  nt_reg_union nt_reg_inter nt_reg_diff nt_reg_star nt_reg_plus nt_reg_opt nt_reg_range : NodeKind
  nt_reg_repeat nt_reg_complement nt_reg_loop nt_func_apply nt_func_dec nt_func_def : NodeKind
  nt_func_rec nt_func_rec_apply nt_bv_nego nt_bv_uaddo nt_bv_saddo nt_bv_umulo nt_bv_smulo :
      NodeKind
  nt_bv_udivo nt_bv_sdivo nt_bv_uremo nt_bv_sremo nt_bv_umodo nt_bv_smodo nt_eq_bool : NodeKind
  nt_eq_other nt_distinct_bool nt_distinct_other nt_uf_apply nt_dt_constructor nt_dt_selector :
      NodeKind
  nt_dt_tester nt_dt_match nt_dt_updater nt_tuple_constructor nt_tuple_unit nt_tuple_select :
      NodeKind
  nt_tuple_update nt_tuple_project nt_attribute nt_pattern nt_no_pattern nt_weight nt_qid : NodeKind
  nt_const_pi nt_const_e nt_infinity nt_nan nt_epsilon nt_pos_infinity nt_neg_infinity : NodeKind
  nt_pos_epsilon nt_neg_epsilon nt_reg_none nt_reg_all nt_reg_allchar nt_max nt_min nt_let :
      NodeKind
  nt_let_chain nt_let_bind_var nt_let_bind_var_list nt_forall nt_exists nt_quant_var : NodeKind
  nt_func_param nt_root_obj nt_root_of_with_interval nt_real_algebraic_number num_kinds : NodeKind
