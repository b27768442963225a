-- ===== src/Text/Utf8.antt =====
-- UTF-8 in string literals: src/core/util.cpp, lines 1478-1519.
pub mod Laws
use smtlibparser.Prelude.{
  ℕ, zero, suc, ◌+◌, ◌-◌, ◌/◌, ◌%◌, Bool, true, false, not, ◌&&◌, ◌||◌, ◌==◌, ltb, List, [], ◌∷◌,
  if◌then◌else◌, Option, some, none, Bytes, take, length,
}
use mathlib.Core.Option

-- (c & 0xC0) == 0x80, on a byte
abbrev pub is_continuation : ℕ → Bool
is_continuation c = c / 64 == 2

unfoldable pub utf8_length : Bytes → ℕ
utf8_length [] = 0
utf8_length (c ∷ s) = (if not (is_continuation c) then 1 else 0) + utf8_length s

-- utf8CodePointWidth; the masks of the first byte leave its highest bits.
unfoldable pub lead_width : ℕ → ℕ
lead_width lead =
    if ltb lead 128
    then 1
    else if lead / 32 == 6
    then 2
    else if lead / 16 == 14
    then 3
    else if lead / 8 == 30
    then 4
    else 0

abbrev pub all_continuation : Bytes → Bool
all_continuation [] = true
all_continuation (c ∷ s) = is_continuation c && all_continuation s

-- The loop of utf8CodePoints; the first argument is how many bytes of a code point are yet to pass.
unfoldable pub code_points_from : ℕ → Bytes → Option (List Bytes)
unfolding lead_width
code_points_from k [] = some []
code_points_from (suc k) (c ∷ s) = code_points_from k s
code_points_from zero (c ∷ s) =
    let w = lead_width c in
    let rest = code_points_from (w - 1) s in
    if w == 0 || ltb (length (c ∷ s)) w
    then none
    else if not (all_continuation (take (w - 1) s))
    then none
    else Option.map (λ points. take w (c ∷ s) ∷ points) rest

unfoldable pub utf8_code_points : Bytes → Option (List Bytes)
unfolding code_points_from
utf8_code_points s = code_points_from 0 s

unfoldable pub utf8_code_point_count : Bytes → Option ℕ
unfolding utf8_code_points
utf8_code_point_count s = Option.map length (utf8_code_points s)
