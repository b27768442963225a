-- ===== src/BitVec/Compare/Laws.antt =====
-- Comparisons agree with the numbers, and the negated kinds with the negated answers.
use smtlibparser.Prelude.{
  ℕ, suc, ◌+◌, ◌-◌, ◌*◌, ◌^◌, ◌<◌, ◌≤◌, ◌≡◌, refl, ap, ◌∙◌, Bool, true, false, not, Bytes, arith,
  ltb, leb, ◌==◌, length, length-take, length-drop, take, drop, inl, inr, Bool-cases,
}
use Prim.Native.Nat.{compare}
use smtlibparser.Result.{Result, ok, ◌>>=◌}
use smtlibparser.Kind.{
  NodeKind, nt_eq_other, nt_distinct_other, nt_bv_ult, nt_bv_ule, nt_bv_ugt, nt_bv_uge, nt_bv_slt,
  nt_bv_sle, nt_bv_sgt, nt_bv_sge,
}
use smtlibparser.Kind.Duals.{get_negated_kind}
use smtlibparser.BitVec.{read_bits, is_literal, lit, value}
use smtlibparser.BitVec.Split.{split-value}
use smtlibparser.BitVec.Arith.{bv_to_nat, bv_to_int}
use smtlibparser.BitVec.Arith.Divide.{is_zero-eq}
use smtlibparser.BitVec.Arith.Ring.{read_bits_64-value}
use smtlibparser.BitVec.Compare.{comp, bv_comp, bv_compare_to_uint}

-- The kinds that bvComp decides.
unfoldable pub is_comparison : NodeKind → Bool
is_comparison nt_eq_other = true
is_comparison nt_distinct_other = true
is_comparison nt_bv_ult = true
is_comparison nt_bv_ule = true
is_comparison nt_bv_ugt = true
is_comparison nt_bv_uge = true
is_comparison nt_bv_slt = true
is_comparison nt_bv_sle = true
is_comparison nt_bv_sgt = true
is_comparison nt_bv_sge = true
is_comparison _ = false

-- The answer turned round, an error kept.
pub negate : Result Bool → Result Bool
negate r = do b ← r; ok (not b)

-- On every two literals, bvComp at the negated kind of a comparison gives the opposite answer.
pub bv_comp-get_negated_kind :
    (a b : Bytes) (k : NodeKind)
    → is_comparison k ≡ true
    → bv_comp (lit a) (lit b) (get_negated_kind k) ≡ negate (bv_comp (lit a) (lit b) k)
unfolding bv_comp comp get_negated_kind is_comparison negate is_literal bv_to_nat bv_to_int
bv_comp-get_negated_kind a b nt_eq_other h = refl
bv_comp-get_negated_kind a b nt_distinct_other h = ground arith
bv_comp-get_negated_kind a b nt_bv_ult h = ground arith
bv_comp-get_negated_kind a b nt_bv_ule h = ground arith
bv_comp-get_negated_kind a b nt_bv_ugt h = ground arith
bv_comp-get_negated_kind a b nt_bv_uge h = ground arith
bv_comp-get_negated_kind a b nt_bv_slt h = ground arith
bv_comp-get_negated_kind a b nt_bv_sle h = ground arith
bv_comp-get_negated_kind a b nt_bv_sgt h = ground arith
bv_comp-get_negated_kind a b nt_bv_sge h = ground arith
bv_comp-get_negated_kind a b _ h = ground arith

leb-false : {m n : ℕ} → leb m n ≡ false → n < m
leb-false h = ground arith

module _ (a : Bytes) (u : ℕ) (positive : 0 < length a) (small : u < 2 ^ 64) where
  -- The set bit above bit 63 makes the number larger than every uint64_t.
  high_bits : (value (take (length a - 64) a) == 0) ≡ false → u < value a
  unfolding read_bits
  high_bits h =
      let k = length a - 64 in
      let hi = value (take k a) in
      let p = 2 ^ length (drop k a) in
      let size : length (take k a) ≡ k = omega (arith, length-take k a) in
      elim (Bool-cases (leb (length a) 64)) [
        | inl e ↦
            let none_above : k ≡ 0 = ground arith in
            let nothing : value (take k a) ≡ 0 = ap (λ n. value (take n a)) none_above in
            ground arith
        | inr e ↦
            let low : length (drop k a) ≡ 64 = omega (arith, length-drop k a, leb-false e) in
            let sum : value a ≡ hi * 2 ^ 64 + value (drop k a) =
              split-value k a ∙ ap (λ n. hi * 2 ^ n + value (drop k a)) low in
            let some_above : 1 ≤ hi = ground arith in omega arith
      ]

  whole : (value (take (length a - 64) a) == 0) ≡ true → value a ≡ value (drop (length a - 64) a)
  whole h =
      let k = length a - 64 in
      let p = 2 ^ length (drop k a) in
      let nothing : value (take k a) ≡ 0 = ground arith in
      split-value k a ∙ ap (λ v. v * p + value (drop k a)) nothing ∙ omega arith

  -- Comparing a literal of any width above 0 with a number below 2 ^ 64 compares its number with
  -- it.
  pub bv_compare_to_uint-eq : bv_compare_to_uint (lit a) u ≡ ok (compare (value a) u)
  unfolding bv_compare_to_uint is_literal
  bv_compare_to_uint-eq =
      let k = length a - 64 in
      let low = drop k a in
      let size : length low ≤ 64 = omega (arith, length-drop k a) in
      let wide : ltb 2 (suc (suc (length a))) ≡ true = ground arith in
      let width : suc (suc (length a)) - 2 ≡ length a = omega arith in
      rw (wide, width)
        (rw (is_zero-eq (take k a), read_bits_64-value low size)
          (elim (Bool-cases (value (take k a) == 0)) [
            | inl e ↦ rw (e, whole e) refl
            | inr e ↦ let above : u < value a = high_bits e in rw e (ground arith)
          ]))
