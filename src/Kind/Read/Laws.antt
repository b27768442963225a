-- ===== src/Kind/Read/Laws.antt =====
-- The reserved names are operator names.
use Prim.Native.String.{String}
use smtlibparser.Prelude.{◌≡◌, refl, Bool, true, false, ◌&&◌, List, [], ◌∷◌, arith, if◌then◌else◌}
use smtlibparser.Kind.{NodeKind, nt_unknown}
use smtlibparser.Kind.Table.{oper_key_map}
use smtlibparser.Kind.Read.{
  find_kind, has_kind, get_oper_kind, builtin_oper_may_be_shadowed_by_user_fun,
  is_builtin_name_reserved_against_user_fun,
}

pub is_known : NodeKind → Bool
is_known nt_unknown = false
is_known _ = true

all_known : List (String × NodeKind) → Bool
all_known [] = true
all_known ((name, k) ∷ rest) = is_known k && all_known rest

find_kind_known :
    (table : List (String × NodeKind)) (s : String)
    → all_known table ≡ true
    → has_kind table s ≡ true
    → is_known (find_kind table s) ≡ true
unfolding all_known find_kind has_kind
find_kind_known [] s all h = cc
find_kind_known ((name, k) ∷ rest) s all h = ground (arith, find_kind_known rest s)

oper_key_map-known : all_known oper_key_map ≡ true
unfolding all_known is_known
oper_key_map-known = refl

-- A name that user functions may not take is an operator name that getOperKind knows, and none of
-- the names that may be shadowed.
pub is_builtin_name_reserved_against_user_fun_known :
    (s : String)
    → is_builtin_name_reserved_against_user_fun s ≡ true
    → (is_known (get_oper_kind s false) ≡ true)
      × (builtin_oper_may_be_shadowed_by_user_fun s ≡ false)
unfolding is_builtin_name_reserved_against_user_fun get_oper_kind
is_builtin_name_reserved_against_user_fun_known s h =
    (find_kind_known oper_key_map s oper_key_map-known (reserved.1), reserved.0)
  where
    split :
        (shadowed known : Bool)
        → (if shadowed then false else known) ≡ true
        → (shadowed ≡ false) × (known ≡ true)
    split true known e = absurd (cc)
    split false known e = (refl, e)

    reserved :
        (builtin_oper_may_be_shadowed_by_user_fun s ≡ false) × (has_kind oper_key_map s ≡ true)
    reserved = split (builtin_oper_may_be_shadowed_by_user_fun s) (has_kind oper_key_map s) h
