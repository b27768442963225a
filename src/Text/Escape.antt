-- ===== src/Text/Escape.antt =====
-- escapeString and unescapeString: src/core/util.cpp, lines 1441-1476 and 1521-1594.
pub mod Laws
use smtlibparser.Prelude.{
  ℕ, zero, suc, ◌+◌, ◌-◌, ◌*◌, ◌/◌, ◌%◌, Bool, true, false, not, ◌&&◌, ◌||◌, ◌==◌, ltb, leb, List,
  [], ◌∷◌, ◌++◌, if◌then◌else◌, Option, some, none, Bytes, take, drop,
}
use mathlib.Core.Option

-- A digit as std::hex prints it.
unfoldable pub hex_char : ℕ → ℕ
hex_char d = if ltb d 10 then 48 + d else 87 + d

abbrev pub hex_text : ℕ → Bytes
hex_text c = if ltb c 16 then hex_char c ∷ [] else hex_char (c / 16) ∷ hex_char (c % 16) ∷ []

-- The switch of escapeString, on '"', on '\\' and on the other bytes.
unfoldable pub escape_byte : ℕ → Bytes
unfolding hex_char
escape_byte c =
    if c == 34
    then 34 ∷ 34 ∷ []
    else if c == 92
    then 92 ∷ 117 ∷ 123 ∷ 53 ∷ 99 ∷ 125 ∷ []
    else if leb 32 c
    then c ∷ []
    else 92 ∷ 117 ∷ 123 ∷ (hex_text c ++ 125 ∷ [])

unfoldable pub escape_string : Bytes → Bytes
unfolding escape_byte
escape_string [] = []
escape_string (c ∷ s) = escape_byte c ++ escape_string s

unfoldable pub is_hex : ℕ → Bool
is_hex c = leb 48 c && leb c 57 || (leb 97 c && leb c 102 || leb 65 c && leb c 70)

-- std::stoul in base 16, on hexadecimal digits.
unfoldable pub hex_digit_value : ℕ → ℕ
hex_digit_value c = if leb c 57 then c - 48 else if leb c 70 then c - 55 else c - 87

unfoldable pub stoul : ℕ → Bytes → ℕ
unfolding hex_digit_value
stoul n [] = n
stoul n (c ∷ s) = stoul (n * 16 + hex_digit_value c) s

abbrev pub all_hex : Bytes → Bool
all_hex [] = true
all_hex (c ∷ s) = is_hex c && all_hex s

-- appendCodePoint. The bits that `|` joins are disjoint.
unfoldable pub append_code_point : ℕ → Bytes
append_code_point cp =
    if leb cp 127
    then cp ∷ []
    else if leb cp 2047
    then (192 + cp / 64) ∷ (128 + cp % 64) ∷ []
    else if leb cp 65535
    then (224 + cp / 4096) ∷ (128 + cp / 64 % 64) ∷ (128 + cp % 64) ∷ []
    else (240 + cp / 262144) ∷ (128 + cp / 4096 % 64) ∷ (128 + cp / 64 % 64) ∷ (128 + cp % 64) ∷ []

-- s.find('}')
unfoldable pub find_close : Bytes → Option ℕ
find_close [] = none
find_close (c ∷ s) = let rest = find_close s in if c == 125 then some 0 else Option.map suc rest

abbrev pub starts : Bytes → ℕ → Bool
starts [] k = false
starts (c ∷ s) k = c == k

-- One round of the loop: what is appended, and how far `i` goes.
abbrev pub Round : Type 0
Round = Bytes × ℕ

abbrev pub literal : ℕ → Round
literal c = (c ∷ [], 1)

-- After \u{, with the place of the bracket.
abbrev pub braced : Option ℕ → Bytes → Round
braced none s = literal 92
braced (some k) s =
    if ltb 0 k && (leb k 5 && all_hex (take k s))
    then (append_code_point (stoul 0 (take k s)), k + 4)
    else literal 92

-- Four digits after \u.
abbrev pub four_hex : Bytes → Bool
four_hex (a ∷ b ∷ c ∷ d ∷ s) = is_hex a && (is_hex b && (is_hex c && is_hex d))
four_hex _ = false

abbrev pub after_u : Bytes → Round
after_u s =
    if starts s 123
    then braced (find_close (drop 1 s)) (drop 1 s)
    else if four_hex s
    then (append_code_point (stoul 0 (take 4 s)), 6)
    else literal 92

unfoldable pub unescape_round : ℕ → Bytes → Round
unfolding is_hex stoul append_code_point find_close
unescape_round c s =
    if c == 34 && starts s 34
    then (34 ∷ [], 2)
    else if c == 92 && starts s 117
    then after_u (drop 1 s)
    else literal c

-- The loop of unescapeString; the first argument is how many bytes a round has yet to pass over.
unfoldable pub unescape_from : ℕ → Bytes → Bytes
unfolding unescape_round
unescape_from k [] = []
unescape_from (suc k) (c ∷ s) = unescape_from k s
unescape_from zero (c ∷ s) =
    let round = unescape_round c s in round.0 ++ unescape_from (round.1 - 1) s

unfoldable pub unescape_string : Bytes → Bytes
unfolding unescape_from
unescape_string s = unescape_from 0 s
