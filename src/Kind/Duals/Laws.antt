-- ===== src/Kind/Duals/Laws.antt =====
-- The order relations among the kinds, and what negating and flipping them means.
use Prim.Native.Nat.{Ordering}
use smtlibparser.Prelude.{
  ◌≡◌, ◌≢◌, ◌⊎◌, inl, inr, refl, Option, none, some, Bool, true, false, not, arith,
}
use smtlibparser.Kind.{
  NodeKind, nt_unknown, nt_eq, nt_distinct, nt_eq_bool, nt_distinct_bool, nt_eq_other,
  nt_distinct_other, nt_le, nt_lt, nt_ge, nt_gt, nt_bv_ult, nt_bv_ule, nt_bv_ugt, nt_bv_uge,
  nt_bv_slt, nt_bv_sle, nt_bv_sgt, nt_bv_sge, nt_str_lt, nt_str_le, nt_str_gt, nt_str_ge, nt_fp_le,
  nt_fp_lt, nt_fp_ge, nt_fp_gt,
}
use smtlibparser.Kind.Duals.{get_negated_kind, get_flip_kind}

abbrev equal : Ordering → Bool
equal Ordering.eq = true
equal _ = false

abbrev below : Ordering → Bool
below Ordering.lt = true
below _ = false

abbrev above : Ordering → Bool
above Ordering.gt = true
above _ = false

-- How the operands compare when they change places.
abbrev pub swap : Ordering → Ordering
swap Ordering.lt = Ordering.gt
swap Ordering.eq = Ordering.eq
swap Ordering.gt = Ordering.lt

-- What a comparison answers when its operands compare so, in the total order of its theory; `none`
-- for a kind that compares nothing, and for the floating-point kinds, whose operands may be NaN.
unfoldable pub verdict : NodeKind → Ordering → Option Bool
verdict nt_eq o = some (equal o)
verdict nt_eq_bool o = some (equal o)
verdict nt_eq_other o = some (equal o)
verdict nt_distinct o = some (not (equal o))
verdict nt_distinct_bool o = some (not (equal o))
verdict nt_distinct_other o = some (not (equal o))
verdict nt_lt o = some (below o)
verdict nt_bv_ult o = some (below o)
verdict nt_bv_slt o = some (below o)
verdict nt_str_lt o = some (below o)
verdict nt_le o = some (not (above o))
verdict nt_bv_ule o = some (not (above o))
verdict nt_bv_sle o = some (not (above o))
verdict nt_str_le o = some (not (above o))
verdict nt_gt o = some (above o)
verdict nt_bv_ugt o = some (above o)
verdict nt_bv_sgt o = some (above o)
verdict nt_str_gt o = some (above o)
verdict nt_ge o = some (not (below o))
verdict nt_bv_uge o = some (not (below o))
verdict nt_bv_sge o = some (not (below o))
verdict nt_str_ge o = some (not (below o))
verdict _ o = none

none-ne-some : {b : Bool} → none ≡ some b → ⊥
none-ne-some h = cc

-- Wherever a kind compares, its negated kind gives the opposite answer, however the operands
-- compare.
pub verdict-get_negated_kind :
    (k : NodeKind) (o : Ordering) (b : Bool)
    → verdict k o ≡ some b
    → verdict (get_negated_kind k) o ≡ some (not b)
unfolding verdict get_negated_kind
verdict-get_negated_kind nt_eq o b h = ground arith
verdict-get_negated_kind nt_eq_bool o b h = ground arith
verdict-get_negated_kind nt_eq_other o b h = ground arith
verdict-get_negated_kind nt_distinct o b h = ground arith
verdict-get_negated_kind nt_distinct_bool o b h = ground arith
verdict-get_negated_kind nt_distinct_other o b h = ground arith
verdict-get_negated_kind nt_lt o b h = ground arith
verdict-get_negated_kind nt_bv_ult o b h = ground arith
verdict-get_negated_kind nt_bv_slt o b h = ground arith
verdict-get_negated_kind nt_str_lt o b h = ground arith
verdict-get_negated_kind nt_le o b h = ground arith
verdict-get_negated_kind nt_bv_ule o b h = ground arith
verdict-get_negated_kind nt_bv_sle o b h = ground arith
verdict-get_negated_kind nt_str_le o b h = ground arith
verdict-get_negated_kind nt_gt o b h = ground arith
verdict-get_negated_kind nt_bv_ugt o b h = ground arith
verdict-get_negated_kind nt_bv_sgt o b h = ground arith
verdict-get_negated_kind nt_str_gt o b h = ground arith
verdict-get_negated_kind nt_ge o b h = ground arith
verdict-get_negated_kind nt_bv_uge o b h = ground arith
verdict-get_negated_kind nt_bv_sge o b h = ground arith
verdict-get_negated_kind nt_str_ge o b h = ground arith
verdict-get_negated_kind _ o b h = absurd (none-ne-some h)

-- Negating twice gives the kind back, wherever negation is defined.
pub get_negated_kind_involutive :
    (k : NodeKind) → get_negated_kind k ≢ nt_unknown → get_negated_kind (get_negated_kind k) ≡ k
unfolding get_negated_kind
get_negated_kind_involutive nt_eq h = refl
get_negated_kind_involutive nt_distinct h = refl
get_negated_kind_involutive nt_eq_bool h = refl
get_negated_kind_involutive nt_distinct_bool h = refl
get_negated_kind_involutive nt_eq_other h = refl
get_negated_kind_involutive nt_distinct_other h = refl
get_negated_kind_involutive nt_le h = refl
get_negated_kind_involutive nt_lt h = refl
get_negated_kind_involutive nt_ge h = refl
get_negated_kind_involutive nt_gt h = refl
get_negated_kind_involutive nt_bv_ult h = refl
get_negated_kind_involutive nt_bv_ugt h = refl
get_negated_kind_involutive nt_bv_ule h = refl
get_negated_kind_involutive nt_bv_uge h = refl
get_negated_kind_involutive nt_bv_slt h = refl
get_negated_kind_involutive nt_bv_sgt h = refl
get_negated_kind_involutive nt_bv_sle h = refl
get_negated_kind_involutive nt_bv_sge h = refl
get_negated_kind_involutive nt_fp_le h = refl
get_negated_kind_involutive nt_fp_lt h = refl
get_negated_kind_involutive nt_fp_ge h = refl
get_negated_kind_involutive nt_fp_gt h = refl
get_negated_kind_involutive nt_str_lt h = refl
get_negated_kind_involutive nt_str_gt h = refl
get_negated_kind_involutive nt_str_le h = refl
get_negated_kind_involutive nt_str_ge h = refl
get_negated_kind_involutive _ h = absurd (h refl)

-- Wherever a kind compares, its flipped kind gives the same answer on the operands in the other
-- order, but for the signed bit-vector less-than of equal operands.
pub verdict-get_flip_kind :
    (k : NodeKind) (o : Ordering) (b : Bool)
    → verdict k o ≡ some b
    → (verdict (get_flip_kind k) (swap o) ≡ some b) ⊎ ((k ≡ nt_bv_slt) × (o ≡ Ordering.eq))
unfolding verdict get_flip_kind
verdict-get_flip_kind nt_eq o b h = inl (ground arith)
verdict-get_flip_kind nt_eq_bool o b h = inl (ground arith)
verdict-get_flip_kind nt_eq_other o b h = inl (ground arith)
verdict-get_flip_kind nt_distinct o b h = inl (ground arith)
verdict-get_flip_kind nt_distinct_bool o b h = inl (ground arith)
verdict-get_flip_kind nt_distinct_other o b h = inl (ground arith)
verdict-get_flip_kind nt_lt o b h = inl (ground arith)
verdict-get_flip_kind nt_bv_ult o b h = inl (ground arith)
verdict-get_flip_kind nt_bv_slt Ordering.lt b h = inl h
verdict-get_flip_kind nt_bv_slt Ordering.gt b h = inl h
verdict-get_flip_kind nt_bv_slt Ordering.eq b h = inr (refl, refl)
verdict-get_flip_kind nt_str_lt o b h = inl (ground arith)
verdict-get_flip_kind nt_le o b h = inl (ground arith)
verdict-get_flip_kind nt_bv_ule o b h = inl (ground arith)
verdict-get_flip_kind nt_bv_sle o b h = inl (ground arith)
verdict-get_flip_kind nt_str_le o b h = inl (ground arith)
verdict-get_flip_kind nt_gt o b h = inl (ground arith)
verdict-get_flip_kind nt_bv_ugt o b h = inl (ground arith)
verdict-get_flip_kind nt_bv_sgt o b h = inl (ground arith)
verdict-get_flip_kind nt_str_gt o b h = inl (ground arith)
verdict-get_flip_kind nt_ge o b h = inl (ground arith)
verdict-get_flip_kind nt_bv_uge o b h = inl (ground arith)
verdict-get_flip_kind nt_bv_sge o b h = inl (ground arith)
verdict-get_flip_kind nt_str_ge o b h = inl (ground arith)
verdict-get_flip_kind _ o b h = absurd (none-ne-some h)

-- The flipped signed less-than answers what signed less-or-equal answers on the operands in the
-- first order.
pub verdict-get_flip_kind_slt :
    (o : Ordering) → verdict (get_flip_kind nt_bv_slt) (swap o) ≡ verdict nt_bv_sle o
unfolding verdict get_flip_kind
verdict-get_flip_kind_slt o = ground arith
