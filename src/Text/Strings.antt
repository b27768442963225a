-- ===== src/Text/Strings.antt =====
-- Operations on string literals: src/core/util.cpp, namespace StringUtils, lines 1287-1403.
pub mod Search
pub mod Parts
pub mod Replace
use smtlibparser.Prelude.{
  ℕ, zero, suc, ◌+◌, ◌-◌, Bool, true, false, not, ◌&&◌, ◌==◌, ltb, List, [], ◌∷◌, ◌++◌,
  if◌then◌else◌, Option, some, none, Bytes, take, drop, length, same,
}
use mathlib.Core.Option
use mathlib.Core.List.{reverse}

-- The text without its quotes, if it has them.
abbrev pub last_is : Bytes → ℕ → Bool
last_is [] k = false
last_is (c ∷ []) k = c == k
last_is (c ∷ d ∷ s) k = last_is (d ∷ s) k

abbrev pub first_is : Bytes → ℕ → Bool
first_is [] k = false
first_is (c ∷ s) k = c == k

unfoldable pub clean : Bytes → Bytes
clean s = if first_is s 34 && last_is s 34 then take (length s - 2) (drop 1 s) else s

abbrev pub with_quotes : Bytes → Bytes
with_quotes s = 34 ∷ (s ++ 34 ∷ [])

-- std::string::find of `t` in `s`, and from a place on
abbrev pub begins : Bytes → Bytes → Bool
begins [] s = true
begins (c ∷ t) [] = false
begins (c ∷ t) (d ∷ s) = (c == d) && begins t s

unfoldable pub find_text : Bytes → Bytes → Option ℕ
find_text t [] = if begins t [] then some 0 else none
find_text t (c ∷ s) =
    let rest = find_text t s in if begins t (c ∷ s) then some 0 else Option.map suc rest

unfoldable pub find_from : Bytes → Bytes → ℕ → Option ℕ
unfolding find_text
find_from t s k =
    if ltb (length s) k then none else Option.map (λ p. p + k) (find_text t (drop k s))

unfoldable pub str_prefixof : Bytes → Bytes → Bool
unfolding clean
str_prefixof s t =
    if ltb (length (clean t)) (length (clean s))
    then false
    else same (take (length (clean s)) (clean t)) (clean s)

unfoldable pub str_suffixof : Bytes → Bytes → Bool
unfolding clean
str_suffixof s t =
    if ltb (length (clean t)) (length (clean s))
    then false
    else same (drop (length (clean t) - length (clean s)) (clean t)) (clean s)

unfoldable pub str_contains : Bytes → Bytes → Bool
unfolding clean find_text
str_contains s t = elim (find_text (clean t) (clean s)) [ some p ↦ true | none ↦ false ]

-- The text with the occurrence of `t` at `p` replaced.
abbrev pub replaced_at : Bytes → Bytes → Bytes → ℕ → Bytes
replaced_at s t u p = take p s ++ (u ++ drop (p + length t) s)

unfoldable pub str_replace : Bytes → Bytes → Bytes → Bytes
unfolding clean find_text
str_replace s t u = elim (find_text (clean t) (clean s)) [
  | some p ↦ with_quotes (replaced_at (clean s) (clean t) (clean u) p)
  | none ↦ s
]

-- The loop of strReplaceAll; none where the fuel does not last.
unfoldable pub replace_loop : ℕ → Bytes → Bytes → Bytes → Option ℕ → Option Bytes
unfolding find_from
replace_loop fuel s t u none = some s
replace_loop zero s t u (some p) = none
replace_loop (suc fuel) s t u (some p) =
    replace_loop fuel (replaced_at s t u p) t u (find_from t (replaced_at s t u p) (p + length u))

unfoldable pub str_replace_all : ℕ → Bytes → Bytes → Bytes → Option Bytes
unfolding clean replace_loop
str_replace_all fuel s t u =
    if length (clean t) == 0
    then some s
    else Option.map with_quotes
        (replace_loop fuel (clean s) (clean t) (clean u) (find_text (clean t) (clean s)))
