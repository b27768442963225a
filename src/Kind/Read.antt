-- ===== src/Kind/Read.antt =====
-- getOperKind and the names that user functions may shadow: lines 744-788 of src/core/kind.cpp.
pub mod Laws
use Prim.Native.String.{String}
use text.Mathlib.Text.{◌==◌}
use smtlibparser.Prelude.{Bool, true, false, ◌&&◌, ◌||◌, List, [], ◌∷◌, if◌then◌else◌}
use smtlibparser.Kind.{NodeKind, nt_unknown}
use smtlibparser.Kind.Table.{oper_key_map}

pub is_non_standard_fp_oper_spelling : String → Bool
is_non_standard_fp_oper_spelling s =
    s == "fp.="
    || s == "fp.=="
    || s == "fp.toUbv"
    || s == "fp.toSbv"
    || s == "fp.isInf"
    || s == "fp.isNan"
    || s == "fp.isNeg"
    || s == "fp.isPos"

-- it->second, or NT_UNKNOWN at the end of the map
pub find_kind : List (String × NodeKind) → String → NodeKind
find_kind [] s = nt_unknown
find_kind ((name, k) ∷ rest) s = if name == s then k else find_kind rest s

-- oper_key_map.find(s) != oper_key_map.end()
unfoldable pub has_kind : List (String × NodeKind) → String → Bool
has_kind [] s = false
has_kind ((name, k) ∷ rest) s = if name == s then true else has_kind rest s

unfoldable pub get_oper_kind : String → Bool → NodeKind
unfolding is_non_standard_fp_oper_spelling find_kind
get_oper_kind s strict_smtlib_fp =
    if strict_smtlib_fp && is_non_standard_fp_oper_spelling s
    then nt_unknown
    else find_kind oper_key_map s

abbrev pub allow_builtin_shadow : List String
allow_builtin_shadow =
    "is_divisible" ∷ "is_prime" ∷ "is_even" ∷ "is_odd" ∷ "gcd" ∷ "lcm" ∷ "factorial" ∷ "pow2"
    ∷ "iand" ∷ "pow" ∷ "**" ∷ "^" ∷ "sqrt" ∷ "safesqrt" ∷ "safeSqrt" ∷ "ceil" ∷ "floor" ∷ "round"
    ∷ "exp" ∷ "ln" ∷ "loge" ∷ "lg" ∷ "log10" ∷ "lb" ∷ "log2" ∷ "log" ∷ "sin" ∷ "cos" ∷ "tan" ∷ "sec"
    ∷ "csc" ∷ "cot" ∷ "asin" ∷ "arcsin" ∷ "acos" ∷ "arccos" ∷ "atan" ∷ "arctan" ∷ "asec" ∷ "arcsec"
    ∷ "acsc" ∷ "arccsc" ∷ "acot" ∷ "arccot" ∷ "atan2" ∷ "arctan2" ∷ "sinh" ∷ "cosh" ∷ "tanh"
    ∷ "sech" ∷ "csch" ∷ "coth" ∷ "asinh" ∷ "arcsinh" ∷ "acosh" ∷ "arccosh" ∷ "atanh" ∷ "arctanh"
    ∷ "asech" ∷ "acsch" ∷ "arccsch" ∷ "acoth" ∷ "arccoth" ∷ "tuple" ∷ []

unfoldable pub contains : List String → String → Bool
contains [] s = false
contains (name ∷ rest) s = if name == s then true else contains rest s

unfoldable pub builtin_oper_may_be_shadowed_by_user_fun : String → Bool
unfolding contains
builtin_oper_may_be_shadowed_by_user_fun s = contains allow_builtin_shadow s

unfoldable pub is_builtin_name_reserved_against_user_fun : String → Bool
is_builtin_name_reserved_against_user_fun s =
    if builtin_oper_may_be_shadowed_by_user_fun s then false else has_kind oper_key_map s
