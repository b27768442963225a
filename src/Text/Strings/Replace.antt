-- ===== src/Text/Strings/Replace.antt =====
-- The loop of strReplaceAll ends, with every occurrence replaced from left to right.

use mathlib.Core.Option
use mathlib.Core.List.{append_assoc}
use smtlibparser.Prelude.{
  ℕ, zero, suc, ◌+◌, ◌-◌, ◌≤◌, ◌<◌, ◌≡◌, refl, sym, ap, ◌∙◌, by_if, Bool, true, false, ◌==◌, ltb,
  [], ◌∷◌, ◌++◌, if◌then◌else◌, Option, some, none, Bytes, take, drop, length, length-append,
  length-take, length-drop, arith,
}
use smtlibparser.Text.Strings.{
  clean, with_quotes, begins, find_text, find_from, replaced_at, replace_loop, str_replace_all,
}
use smtlibparser.Text.Strings.Search.{find_lem, under_suc, absurd_some}

-- Every occurrence of `t` replaced, from left to right; the number is how many bytes of one are yet
-- to pass.
pub substituted : Bytes → Bytes → ℕ → Bytes → Bytes
substituted t u k [] = []
substituted t u (suc k) (c ∷ s) = substituted t u k s
substituted t u zero (c ∷ s) =
    let kept = c ∷ substituted t u 0 s in
    let put = u ++ substituted t u (length t - 1) s in if begins t (c ∷ s) then put else kept

-- Where two counts are the same number.
drop_at : {m n : ℕ} (x : Bytes) → m ≡ n → drop m x ≡ drop n x
drop_at x e = ap (λ n. drop n x) e

take_at : {m n : ℕ} (x : Bytes) → m ≡ n → take m x ≡ take n x
take_at x e = ap (λ n. take n x) e

drop_past : (pre x : Bytes) (n : ℕ) → drop (length pre + n) (pre ++ x) ≡ drop n x
drop_past [] x n = drop_at x (omega arith)
drop_past (c ∷ pre) x n =
    drop_at {m = suc (length pre) + n} {n = suc (length pre + n)} (c ∷ (pre ++ x)) (omega arith)
    ∙ drop_past pre x n

take_past : (pre x : Bytes) (n : ℕ) → take (length pre + n) (pre ++ x) ≡ pre ++ take n x
take_past [] x n = take_at x (omega arith)
take_past (c ∷ pre) x n =
    take_at {m = suc (length pre) + n} {n = suc (length pre + n)} (c ∷ (pre ++ x)) (omega arith)
    ∙ ap (λ s. c ∷ s) (take_past pre x n)

substituted-drop :
    (t u : Bytes) (k : ℕ) (s : Bytes) → substituted t u k s ≡ substituted t u 0 (drop k s)
unfolding substituted
substituted-drop t u zero s = refl
substituted-drop t u (suc k) [] = refl
substituted-drop t u (suc k) (c ∷ s) = substituted-drop t u k s

map-none : (o : Option ℕ) → Option.map suc o ≡ none → o ≡ none
map-none none h = refl
map-none (some p) h = cc

-- Without an occurrence nothing changes.
substituted-none : (t u s : Bytes) → find_text t s ≡ none → substituted t u 0 s ≡ s
unfolding find_text substituted
substituted-none t u [] h = refl
substituted-none t u (c ∷ s) h =
    by_if (λ o. o ≡ none → substituted t u 0 (c ∷ s) ≡ c ∷ s) (begins t (c ∷ s)) _ _
      (λ b e. absurd_some e)
      (λ b e.
        ap (λ b. if b then u ++ substituted t u (length t - 1) s else c ∷ substituted t u 0 s) b
        ∙ ap (λ s. c ∷ s) (substituted-none t u s (map-none (find_text t s) e)))
      h

-- The first occurrence is replaced first.
replaced_first : Bytes → Bytes → Bytes → ℕ → Bytes
replaced_first t u s q = take q s ++ (u ++ substituted t u 0 (drop (q + length t) s))

first_here :
    (t u s : Bytes) (c q : ℕ)
    → 0 < length t
    → some 0 ≡ some q
    → u ++ substituted t u (length t - 1) s ≡ replaced_first t u (c ∷ s) q
unfolding replaced_first
first_here [] u s c q z e = elim z [ ]
first_here (d ∷ t) u s c (suc q) z e = cc
first_here (d ∷ t) u s c zero z e =
    ap (λ x. u ++ x)
      (substituted-drop (d ∷ t) u (suc (length t) - 1) s
        ∙ ap (substituted (d ∷ t) u 0) (
            drop_at {m = suc (length t) - 1} {n = length t} s (omega arith)
            ∙ drop_at {m = suc (length t)} {n = 0 + suc (length t)} (c ∷ s) (omega arith)))

first_later :
    (t u s : Bytes) (c q : ℕ)
    → substituted t u 0 s ≡ replaced_first t u s q
    → c ∷ substituted t u 0 s ≡ replaced_first t u (c ∷ s) (suc q)
unfolding replaced_first
first_later t u s c q e =
    ap (λ s. c ∷ s) e
    ∙ ap (λ x. c ∷ (take q s ++ (u ++ substituted t u 0 x)))
        (drop_at {m = suc (q + length t)} {n = suc q + length t} (c ∷ s) (omega arith))

substituted-some :
    (t u s : Bytes) (q : ℕ)
    → 0 < length t
    → find_text t s ≡ some q
    → substituted t u 0 s ≡ replaced_first t u s q
unfolding find_text substituted
substituted-some [] u s q z h = elim z [ ]
substituted-some (d ∷ t) u [] q z h = cc
substituted-some (d ∷ t) u (c ∷ s) q z h =
    by_if (λ o. o ≡ some q → substituted (d ∷ t) u 0 (c ∷ s) ≡ replaced_first (d ∷ t) u (c ∷ s) q)
      (begins (d ∷ t) (c ∷ s)) _ _
      (λ b e.
        ap
          (λ b.
            if b
            then u ++ substituted (d ∷ t) u (suc (length t) - 1) s
            else c ∷ substituted (d ∷ t) u 0 s)
          b
        ∙ first_here (d ∷ t) u s c q z e)
      (λ b e.
        let (q', f, n) = under_suc (find_text (d ∷ t) s) q e in
        ap
          (λ b.
            if b
            then u ++ substituted (d ∷ t) u (suc (length t) - 1) s
            else c ∷ substituted (d ∷ t) u 0 s)
          b
        ∙ first_later (d ∷ t) u s c q' (substituted-some (d ∷ t) u s q' z f)
        ∙ ap (replaced_first (d ∷ t) u (c ∷ s)) n)
      h

-- Searching from the end of a prefix searches the rest.
find_past :
    (t pre x : Bytes)
    → find_from t (pre ++ x) (length pre) ≡ Option.map (λ p. p + length pre) (find_text t x)
unfolding find_from
find_past t pre x =
    let l = length-append pre x in
    let g : ltb (length (pre ++ x)) (length pre) ≡ false = ground arith in
    let d : drop (length pre) (pre ++ x) ≡ x =
      drop_at {m = length pre} {n = length pre + 0} (pre ++ x) (omega arith) ∙ drop_past pre x 0 in
    ap
      (λ b.
        if b
        then none
        else Option.map (λ p. p + length pre) (find_text t (drop (length pre) (pre ++ x))))
      g
    ∙ ap (λ x. Option.map (λ p. p + length pre) (find_text t x)) d

regroup : (p t u d : Bytes) → (p ++ t) ++ (u ++ d) ≡ (p ++ (t ++ u)) ++ d
regroup p t u d =
    append_assoc p t (u ++ d)
    ∙ ap (λ x. p ++ x) (sym (append_assoc t u d))
    ∙ sym (append_assoc p (t ++ u) d)

prefix_length :
    (pre x u : Bytes) (q : ℕ)
    → q ≤ length x
    → q + length pre + length u ≡ length (pre ++ (take q x ++ u))
prefix_length pre x u q h =
    let a = length-append pre (take q x ++ u) in
    let b = length-append (take q x) u in let c = length-take q x in omega (arith, a, b, c)

-- The replacement of an occurrence after a prefix makes the prefix longer.
replaced_past :
    (pre x t u : Bytes) (q : ℕ)
    → replaced_at (pre ++ x) t u (q + length pre)
      ≡ (pre ++ (take q x ++ u)) ++ drop (q + length t) x
replaced_past pre x t u q =
    let a : take (q + length pre) (pre ++ x) ≡ pre ++ take q x =
      take_at {m = q + length pre} {n = length pre + q} (pre ++ x) (omega arith)
      ∙ take_past pre x q in
    let b : drop (q + length pre + length t) (pre ++ x) ≡ drop (q + length t) x =
      drop_at {m = q + length pre + length t} {n = length pre + (q + length t)} (pre ++ x)
        (omega arith)
      ∙ drop_past pre x (q + length t) in
    ap (λ a. a ++ (u ++ drop (q + length pre + length t) (pre ++ x))) a
    ∙ ap (λ b. (pre ++ take q x) ++ (u ++ b)) b
    ∙ regroup pre (take q x) u (drop (q + length t) x)

loop_lem :
    (fuel : ℕ) (pre x t u : Bytes)
    → 0 < length t
    → length x ≤ fuel
    → (o : Option ℕ) → find_text t x ≡ o
    → replace_loop fuel (pre ++ x) t u (Option.map (λ p. p + length pre) o)
      ≡ some (pre ++ substituted t u 0 x)
unfolding replace_loop replaced_first
loop_lem fuel pre x t u z h none e = ap (λ x. some (pre ++ x)) (sym (substituted-none t u x e))
loop_lem zero pre x t u z h (some q) e = let (_, room) = find_lem t x q e in ground (arith, room)
loop_lem (suc fuel) pre x t u z h (some q) e =
    let (_, room) = find_lem t x q e in
    let pre' = pre ++ (take q x ++ u) in
    let x' = drop (q + length t) x in
    let l = length-drop (q + length t) x in
    ap (λ r. replace_loop fuel r t u (find_from t r (q + length pre + length u)))
      (replaced_past pre x t u q)
    ∙ ap (λ k. replace_loop fuel (pre' ++ x') t u (find_from t (pre' ++ x') k))
        (prefix_length pre x u q (omega (arith, room)))
    ∙ ap (replace_loop fuel (pre' ++ x') t u) (find_past t pre' x')
    ∙ loop_lem fuel pre' x' t u z (omega (arith, l, room)) (find_text t x') refl
    ∙ ap some (
        sym (regroup pre (take q x) u (substituted t u 0 x'))
        ∙ append_assoc pre (take q x) (u ++ substituted t u 0 x')
        ∙ ap (λ s. pre ++ s) (sym (substituted-some t u x q z e)))

plus_zero : (o : Option ℕ) → o ≡ Option.map (λ p. p + 0) o
plus_zero none = refl
plus_zero (some p) = ap some (omega arith)

branch :
    (b : Bool) (s q : Bytes) (o : Option Bytes)
    → (b ≡ false → o ≡ some q)
    → (if b then some s else Option.map with_quotes o) ≡ some (if b then s else with_quotes q)
branch true s q o h = refl
branch false s q o h = ap (Option.map with_quotes) (h refl)

-- strReplaceAll ends after at most as many rounds as the text has bytes, and gives the text with every
-- occurrence replaced from left to right; the empty text is replaced nowhere.
pub str_replace_all_lem :
    (fuel : ℕ) (s t u : Bytes)
    → length (clean s) ≤ fuel
    → str_replace_all fuel s t u
      ≡ some (
          if length (clean t) == 0
          then s
          else with_quotes (substituted (clean t) (clean u) 0 (clean s)))
unfolding str_replace_all
str_replace_all_lem fuel s t u h =
    branch (length (clean t) == 0) s _
      (replace_loop fuel (clean s) (clean t) (clean u) (find_text (clean t) (clean s)))
      (λ e.
        ap (replace_loop fuel (clean s) (clean t) (clean u))
          (plus_zero (find_text (clean t) (clean s)))
        ∙ loop_lem fuel [] (clean s) (clean t) (clean u) (ground arith) h
            (find_text (clean t) (clean s)) refl)
