-- ===== src/Text/Tests.antt =====
-- The text of string literals at concrete inputs.
use smtlibparser.Prelude.{
  true, false, ◌⊎◌, ◌++◌, ◌≡◌, refl, Bytes, bytes, List, [], ◌∷◌, some, ◌==◌, length, arith,
  if◌then◌else◌,
}
use smtlibparser.Text.Escape.{escape_string, unescape_string}
use smtlibparser.Text.Escape.Laws.{unescape_string-escape_string}
use smtlibparser.Text.Utf8.{utf8_length, utf8_code_point_count}
use smtlibparser.Text.Utf8.Laws.{joined, utf8_code_points_lem}
use smtlibparser.Text.Strings.{clean, with_quotes, str_contains, str_replace, str_replace_all}
use smtlibparser.Text.Strings.Parts.{FirstCut, str_replace_lem}
use smtlibparser.Text.Strings.Replace.{substituted, str_replace_all_lem}

-- a"\, then a newline, then é in UTF-8.
abbrev sample : Bytes
sample = 97 ∷ 34 ∷ 92 ∷ 10 ∷ 195 ∷ 169 ∷ []

unescape_string-escape_string_example : unescape_string (escape_string sample) ≡ sample
unescape_string-escape_string_example = unescape_string-escape_string sample

abbrev points : List Bytes
points = (97 ∷ []) ∷ (195 ∷ 169 ∷ []) ∷ []

utf8_code_points_lem_example :
    (joined points ≡ 97 ∷ 195 ∷ 169 ∷ [])
    × (utf8_code_point_count (97 ∷ 195 ∷ 169 ∷ []) ≡ some (utf8_length (97 ∷ 195 ∷ 169 ∷ [])))
unfolding smtlibparser.Text.Utf8.utf8_code_points
utf8_code_points_lem_example = utf8_code_points_lem (97 ∷ 195 ∷ 169 ∷ []) points refl

str_replace_all_lem_example :
    str_replace_all 4 (with_quotes (bytes "abab")) (bytes "ab") (bytes "aba")
    ≡ some (
        if length (clean (bytes "ab")) == 0
        then with_quotes (bytes "abab")
        else with_quotes (
            substituted
              (clean (bytes "ab"))
              (clean (bytes "aba"))
              0
              (clean (with_quotes (bytes "abab")))))
unfolding clean
str_replace_all_lem_example =
    str_replace_all_lem 4 (with_quotes (bytes "abab")) (bytes "ab") (bytes "aba") (omega arith)

str_replace_lem_example :
    ((str_contains (bytes "abab") (bytes "ba") ≡ false)
      × ((before after : Bytes)
          → clean (bytes "abab") ≡ before ++ (clean (bytes "ba") ++ after)
          → ⊥)
      × (str_replace (bytes "abab") (bytes "ba") (bytes "c") ≡ bytes "abab"))
    ⊎ ((before after : Bytes) × (str_contains (bytes "abab") (bytes "ba") ≡ true)
        × (clean (bytes "abab") ≡ before ++ (clean (bytes "ba") ++ after))
        × FirstCut (bytes "abab") (bytes "ba") before
        × (str_replace (bytes "abab") (bytes "ba") (bytes "c")
            ≡ with_quotes (before ++ (clean (bytes "c") ++ after))))
str_replace_lem_example = str_replace_lem (bytes "abab") (bytes "ba") (bytes "c")
