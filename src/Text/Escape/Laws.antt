-- ===== src/Text/Escape/Laws.antt =====
-- Unescaping undoes escaping.
use mathlib.Core.Option
use native.Mathlib.Nat.{div-add-mod'}
use smtlibparser.Prelude.{
  ℕ, suc, ◌+◌, ◌-◌, ◌*◌, ◌/◌, ◌%◌, ◌<◌, ◌≡◌, refl, ap, ◌∙◌, by_if, true, false, ◌&&◌, ◌==◌, ltb,
  leb, [], ◌∷◌, ◌++◌, if◌then◌else◌, some, Bytes, arith,
}
use smtlibparser.Text.Escape.{
  hex_char, escape_byte, escape_string, is_hex, hex_digit_value, stoul, append_code_point,
  find_close, braced, unescape_round, unescape_from, unescape_string, literal, Round,
}

-- What the reader makes of a digit.
hex_char_lem :
    (d : ℕ)
    → d < 16
    → (is_hex (hex_char d) ≡ true)
      × ((hex_char d == 125) ≡ false)
      × (hex_digit_value (hex_char d) ≡ d)
unfolding hex_char is_hex hex_digit_value
hex_char_lem d h = (ground arith, ground arith, ground arith)

stoul_1 : (e d : ℕ) → hex_digit_value e ≡ d → stoul 0 (e ∷ []) ≡ d
unfolding stoul
stoul_1 e d v = omega (arith, v)

stoul_2 :
    (e e' d f : ℕ)
    → hex_digit_value e ≡ d
    → hex_digit_value e' ≡ f
    → stoul 0 (e ∷ e' ∷ []) ≡ d * 16 + f
unfolding stoul
stoul_2 e e' d f v v' = omega (arith, v, v')

-- One digit in brackets, and two.
round_1 :
    (d : ℕ) (t : Bytes)
    → d < 16
    → unescape_round 92 (117 ∷ 123 ∷ hex_char d ∷ 125 ∷ t) ≡ (append_code_point d, 5)
unfolding unescape_round find_close stoul
round_1 d t h =
    let (x, c, v) = hex_char_lem d h in
    let e = hex_char d in
    ap (λ b. braced (if b then some 0 else some 1) (e ∷ 125 ∷ t)) c
    ∙ ap (λ b. if b && true then (append_code_point (stoul 0 (e ∷ [])), 5) else literal 92) x
    ∙ ap (λ n. (append_code_point n, 5)) (stoul_1 e d v)

round_2 :
    (d f : ℕ) (t : Bytes)
    → d < 16
    → f < 16
    → unescape_round 92 (117 ∷ 123 ∷ hex_char d ∷ hex_char f ∷ 125 ∷ t)
      ≡ (append_code_point (d * 16 + f), 6)
unfolding unescape_round find_close stoul
round_2 d f t h g =
    let (x, c, v) = hex_char_lem d h in
    let (x', c', v') = hex_char_lem f g in
    let e = hex_char d in
    let e' = hex_char f in
    ap
      (λ b.
        braced (if b then some 0 else Option.map suc (if e' == 125 then some 0 else some 1))
          (e ∷ e' ∷ 125 ∷ t))
      c
    ∙ ap (λ b. braced (Option.map suc (if b then some 0 else some 1)) (e ∷ e' ∷ 125 ∷ t)) c'
    ∙ ap
        (λ b.
          if b && (is_hex e' && true)
          then (append_code_point (stoul 0 (e ∷ e' ∷ [])), 6)
          else literal 92)
        x
    ∙ ap (λ b. if b && true then (append_code_point (stoul 0 (e ∷ e' ∷ [])), 6) else literal 92) x'
    ∙ ap (λ n. (append_code_point n, 6)) (stoul_2 e e' d f v v')

-- A byte that escaping keeps is a round of its own.
round_kept :
    (c : ℕ) (t : Bytes) → (c == 34) ≡ false → (c == 92) ≡ false → unescape_round c t ≡ (c ∷ [], 1)
unfolding unescape_round
round_kept c t q b = cc (q, b)

ascii : (c : ℕ) → leb 32 c ≡ false → append_code_point c ≡ c ∷ []
unfolding append_code_point
ascii c h = ground arith

from_round :
    (c : ℕ) (s out : Bytes) (n : ℕ)
    → unescape_round c s ≡ (out, n)
    → unescape_from 0 (c ∷ s) ≡ out ++ unescape_from (n - 1) s
unfolding unescape_from
from_round c s out n h = ap (λ (r : Round). r.0 ++ unescape_from (r.1 - 1) s) h

from_quote : (t : Bytes) → unescape_from 0 (34 ∷ 34 ∷ t) ≡ 34 ∷ unescape_from 0 t
unfolding unescape_from unescape_round
from_quote t = refl

from_backslash :
    (t : Bytes) → unescape_from 0 (92 ∷ 117 ∷ 123 ∷ 53 ∷ 99 ∷ 125 ∷ t) ≡ 92 ∷ unescape_from 0 t
unfolding unescape_from unescape_round find_close is_hex stoul append_code_point hex_digit_value
from_backslash t = refl

skip_5 : (a b d e : ℕ) (t : Bytes) → unescape_from 4 (a ∷ b ∷ d ∷ e ∷ t) ≡ unescape_from 0 t
unfolding unescape_from
skip_5 a b d e t = refl

skip_6 : (a b d e f : ℕ) (t : Bytes) → unescape_from 5 (a ∷ b ∷ d ∷ e ∷ f ∷ t) ≡ unescape_from 0 t
unfolding unescape_from
skip_6 a b d e f t = refl

-- What escaping makes of a byte reads back as the byte, whatever follows.
unescape-escape_byte :
    (c : ℕ) (t : Bytes) → unescape_from 0 (escape_byte c ++ t) ≡ c ∷ unescape_from 0 t
unfolding escape_byte
unescape-escape_byte c t =
    by_if (λ s. unescape_from 0 (s ++ t) ≡ c ∷ unescape_from 0 t) (c == 34) _ _
      (λ q. from_quote t ∙ ap (λ x. x ∷ unescape_from 0 t) (ground arith))
      (λ q.
        by_if (λ s. unescape_from 0 (s ++ t) ≡ c ∷ unescape_from 0 t) (c == 92) _ _
          (λ b. from_backslash t ∙ ap (λ x. x ∷ unescape_from 0 t) (ground arith))
          (λ b.
            by_if (λ s. unescape_from 0 (s ++ t) ≡ c ∷ unescape_from 0 t) (leb 32 c) _ _
              (λ k. from_round c t (c ∷ []) 1 (round_kept c t q b))
              (λ k.
                by_if
                  (λ s.
                    unescape_from 0 ((92 ∷ 117 ∷ 123 ∷ (s ++ 125 ∷ [])) ++ t)
                    ≡ c ∷ unescape_from 0 t)
                  (ltb c 16) _ _
                  (λ l.
                    from_round 92 _ _ 5 (round_1 c t (ground arith))
                    ∙ cc (ascii c k, skip_5 117 123 (hex_char c) 125 t))
                  (λ l.
                    from_round 92 _ _ 6 (round_2 (c / 16) (c % 16) t (ground arith) (ground arith))
                    ∙ cc (
                      ascii c k,
                      skip_6 117 123 (hex_char (c / 16)) (hex_char (c % 16)) 125 t,
                      div-add-mod' c 16,
                    )))))

-- Unescaping gives back every text that was escaped.
pub unescape_string-escape_string : (s : Bytes) → unescape_string (escape_string s) ≡ s
unfolding unescape_string escape_string
unescape_string-escape_string [] = refl
unescape_string-escape_string (c ∷ s) =
    unescape-escape_byte c (escape_string s) ∙ ap (λ t. c ∷ t) (unescape_string-escape_string s)
