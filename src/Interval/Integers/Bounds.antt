-- ===== src/Interval/Integers/Bounds.antt =====
-- getIntegers ends, with the integers between the bounds, and getIntervalIntCount counts those that
-- the interval contains: src/ir/interval.cpp, lines 118-125 and 250-267.
use mathlib.Core.Option
use smtlibparser.Prelude.{
  ℕ, zero, suc, ◌+◌, ◌-◌, ◌≡◌, refl, sym, ap, ◌∙◌, by_if, Bool, true, false, not, ◌&&◌, ◌||◌, List,
  [], ◌∷◌, ltb, arith, if◌then◌else◌, some,
}
use smtlibparser.Prelude.Int.{ℤ, pos, pos_part, ltb_ℤ, ◌+ℤ◌, ◌-ℤ◌, +ℤ_parts}
use smtlibparser.Result.{ok}
use smtlibparser.Number.{Number, finite, le, add, lt, equals}
use smtlibparser.Interval.{Interval, is_empty, is_point, contains}
use smtlibparser.Interval.Integers.{
  between, integers_from, get_integers, get_interval_int_count, count_between, int_to_ulong,
}

-- The integers from `i`, `n` of them.
abbrev ascending : ℕ → ℤ → List Number
ascending zero i = []
ascending (suc n) i = finite i ∷ ascending n (i +ℤ pos 1)

next_round :
    (n : ℕ) (i j : ℤ)
    → pos_part (j -ℤ i +ℤ pos 1) ≡ suc n
    → pos_part (j -ℤ (i +ℤ pos 1) +ℤ pos 1) ≡ n
unfolding ◌+ℤ◌ ◌-ℤ◌
next_round n i j h = ground arith

no_round : (i j : ℤ) → pos_part (j -ℤ i +ℤ pos 1) ≡ 0 → ltb_ℤ j i ≡ true
unfolding ◌+ℤ◌ ◌-ℤ◌
no_round i j h = ground arith

a_round :
    (n : ℕ) (i j : ℤ)
    → pos_part (j -ℤ i +ℤ pos 1) ≡ suc n
    → (ltb_ℤ j i ≡ false) × (ltb_ℤ i j ≡ ltb 0 n) × (ltb_ℤ i (i +ℤ pos 1) ≡ true)
unfolding ◌+ℤ◌ ◌-ℤ◌
a_round n i j h = (ground arith, ground arith, ground arith)

integers_from_lem :
    (n : ℕ) (i j : ℤ)
    → pos_part (j -ℤ i +ℤ pos 1) ≡ n
    → integers_from n (finite i) (finite j) ≡ some (ascending n i)
unfolding integers_from le add
integers_from_lem zero i j h =
    by_if (λ o. o ≡ some []) (not (ltb_ℤ j i)) _ _ (λ e. ground (arith, no_round i j h)) (λ e. refl)
integers_from_lem (suc n) i j h =
    by_if (λ o. o ≡ some (finite i ∷ ascending n (i +ℤ pos 1))) (not (ltb_ℤ j i)) _ _
      (λ e.
        ap (Option.map (λ is. finite i ∷ is))
          (integers_from_lem n (i +ℤ pos 1) j (next_round n i j h)))
      (λ e. ground (arith, a_round n i j h))

-- The number is in the list.
abbrev pub in_list : Number → List Number → Bool
in_list x [] = false
in_list x (y ∷ ys) = equals x y || in_list x ys

in_list-ascending :
    (n : ℕ) (i k : ℤ)
    → in_list (finite k) (ascending n i) ≡ (not (ltb_ℤ k i) && ltb_ℤ k (i +ℤ pos n))
unfolding equals
in_list-ascending zero i k = ground (arith, +ℤ_parts i (pos 0))
in_list-ascending (suc n) i k = ground (
  arith,
  in_list-ascending n (i +ℤ pos 1) k,
  +ℤ_parts i (pos 1),
  +ℤ_parts (i +ℤ pos 1) (pos n),
  +ℤ_parts i (pos (suc n)),
)

last_rounds :
    (l u k : ℤ)
    → (not (ltb_ℤ k l) && ltb_ℤ k (l +ℤ pos (pos_part (u -ℤ l +ℤ pos 1))))
      ≡ (not (ltb_ℤ k l) && not (ltb_ℤ u k))
unfolding ◌+ℤ◌ ◌-ℤ◌
last_rounds l u k = ground arith

-- Between integers, getIntegers ends with exactly the integers between, the ends included, whether
-- the interval is closed there or not.
pub get_integers_lem :
    (l u : ℤ) (left right : Bool)
    → (is : List Number) × (get_integers (between l u left right) ≡ ok (some is))
      × ((k : ℤ) → in_list (finite k) is ≡ (le (finite l) (finite k) && le (finite k) (finite u)))
unfolding get_integers le
get_integers_lem l u left right = (
  ascending (pos_part (u -ℤ l +ℤ pos 1)) l,
  ap ok (integers_from_lem _ l u refl),
  λ k. in_list-ascending _ l k ∙ last_rounds l u k,
)

-- How many of the numbers the interval contains.
abbrev pub count_in : Interval → List Number → ℕ
count_in i [] = 0
count_in i (x ∷ xs) = (if contains i x then 1 else 0) + count_in i xs

abbrev inner_count : Bool → ℕ → ℕ
inner_count true n = n
inner_count false n = n - 1

contains_inner :
    (l u k : ℤ) (left right : Bool)
    → ltb_ℤ l k ≡ true
    → ltb_ℤ u k ≡ false
    → contains (between l u left right) (finite k) ≡ (right || ltb_ℤ k u)
unfolding contains is_empty le lt equals
contains_inner l u k left true h g = ground arith
contains_inner l u k left false h g = ground arith

inner_step :
    (right : Bool) (n : ℕ)
    → (if right || ltb 0 n then 1 else 0) + inner_count right n ≡ inner_count right (suc n)
inner_step true n = omega arith
inner_step false n = ground arith

count_inner :
    (n : ℕ) (l u k : ℤ) (left right : Bool)
    → ltb_ℤ l k ≡ true
    → pos_part (u -ℤ k +ℤ pos 1) ≡ n
    → count_in (between l u left right) (ascending n k) ≡ inner_count right n
count_inner zero l u k left true h e = refl
count_inner zero l u k left false h e = refl
count_inner (suc n) l u k left right h e =
    let (r, b, a) = a_round n k u e in
    let c = contains_inner l u k left right h r in
    let m =
      count_inner n l u (k +ℤ pos 1) left right (ground (arith, +ℤ_parts k (pos 1)))
        (next_round n k u e) in
    ap (λ t. (if t then 1 else 0) + count_in (between l u left right) (ascending n (k +ℤ pos 1)))
      (c ∙ ap (λ t. right || t) b)
    ∙ ap (λ t. (if right || ltb 0 n then 1 else 0) + t) m
    ∙ inner_step right n

contains_first :
    (l u : ℤ) (left right : Bool)
    → ltb_ℤ u l ≡ false
    → contains (between l u left right) (finite l) ≡ (left && (right || ltb_ℤ l u))
unfolding contains is_empty le lt equals
contains_first l u true right h = ground arith
contains_first l u false right h = ground arith

count_all :
    (n : ℕ) (l u : ℤ) (left right : Bool)
    → pos_part (u -ℤ l +ℤ pos 1) ≡ suc n
    → count_in (between l u left right) (ascending (suc n) l)
      ≡ (if left && (right || ltb 0 n) then 1 else 0) + inner_count right n
count_all n l u left right e =
    let (r, b, a) = a_round n l u e in
    let c = contains_first l u left right r in
    ap (λ t. (if t then 1 else 0) + count_in (between l u left right) (ascending n (l +ℤ pos 1)))
      (c ∙ ap (λ t. left && (right || t)) b)
    ∙ ap (λ t. (if left && (right || ltb 0 n) then 1 else 0) + t)
        (count_inner n l u (l +ℤ pos 1) left right a (next_round n l u e))

count_empty :
    (l u : ℤ) (left right : Bool)
    → pos_part (u -ℤ l +ℤ pos 1) ≡ 0
    → get_interval_int_count l u left right ≡ ok 0
unfolding get_interval_int_count is_empty le
count_empty l u left right e = ground (arith, no_round l u e)

between_lem :
    (n : ℕ) (l u : ℤ) (left right : Bool)
    → pos_part (u -ℤ l +ℤ pos 1) ≡ suc n
    → count_between l u left right ≡ (
        if ltb 0 n || (left && right)
        then pos ((if left && (right || ltb 0 n) then 1 else 0) + inner_count right n)
        else count_between l u left right)
unfolding ◌+ℤ◌ ◌-ℤ◌
between_lem n l u true true e = ground arith
between_lem n l u true false e = ground arith
between_lem n l u false true e = ground arith
between_lem n l u false false e = ground arith

empty_code :
    (n : ℕ) (l u : ℤ) (left right : Bool)
    → pos_part (u -ℤ l +ℤ pos 1) ≡ suc n
    → (is_empty (between l u left right) ≡ (not (ltb 0 n) && (not left || not right)))
      × (is_point (between l u left right) ≡ not (ltb 0 n))
unfolding is_empty is_point le equals
empty_code n l u left right e = let (r, b, a) = a_round n l u e in (ground arith, ground arith)

code_some :
    (t left right : Bool) (c d : ℤ)
    → t ≡ true
    → c ≡ (if t || (left && right) then d else c)
    → (if not t && (not left || not right) then ok 0 else if not t then ok 1 else int_to_ulong c)
      ≡ int_to_ulong d
code_some true left right c d h e = ap int_to_ulong e
code_some false left right c d h e = cc

code_at :
    (n : ℕ) (left right : Bool) (c : ℤ)
    → c ≡ (
        if ltb 0 n || (left && right)
        then pos ((if left && (right || ltb 0 n) then 1 else 0) + inner_count right n)
        else c)
    → (if not (ltb 0 n) && (not left || not right)
        then ok 0
        else if not (ltb 0 n)
        then ok 1
        else int_to_ulong c)
      ≡ int_to_ulong (pos ((if left && (right || ltb 0 n) then 1 else 0) + inner_count right n))
unfolding int_to_ulong
code_at zero true true c e = refl
code_at zero true false c e = refl
code_at zero false true c e = refl
code_at zero false false c e = refl
code_at (suc n) left right c e = code_some (ltb 0 (suc n)) left right c _ (ground arith) e

count_code :
    (n : ℕ) (l u : ℤ) (left right : Bool)
    → pos_part (u -ℤ l +ℤ pos 1) ≡ suc n
    → get_interval_int_count l u left right
      ≡ int_to_ulong (pos ((if left && (right || ltb 0 n) then 1 else 0) + inner_count right n))
unfolding get_interval_int_count
count_code n l u left right e =
    let (p, q) = empty_code n l u left right e in
    ap
      (λ p.
        if p
        then ok 0
        else if is_point (between l u left right)
        then ok 1
        else int_to_ulong (count_between l u left right))
      p
    ∙ ap
        (λ q.
          if not (ltb 0 n) && (not left || not right)
          then ok 0
          else if q
          then ok 1
          else int_to_ulong (count_between l u left right))
        q
    ∙ code_at n left right (count_between l u left right) (between_lem n l u left right e)

count_rounds :
    (n : ℕ) (l u : ℤ) (left right : Bool)
    → pos_part (u -ℤ l +ℤ pos 1) ≡ n
    → get_interval_int_count l u left right
      ≡ int_to_ulong (pos (count_in (between l u left right) (ascending n l)))
unfolding int_to_ulong
count_rounds zero l u left right e = count_empty l u left right e
count_rounds (suc n) l u left right e =
    count_code n l u left right e
    ∙ ap (λ k. int_to_ulong (pos k)) (sym (count_all n l u left right e))

-- Between integers, getIntervalIntCount gives the number of the integers from getIntegers that the
-- interval contains, and std::overflow_error where 64 bits do not hold it.
pub get_interval_int_count_lem :
    (l u : ℤ) (left right : Bool) (is : List Number)
    → get_integers (between l u left right) ≡ ok (some is)
    → get_interval_int_count l u left right
      ≡ int_to_ulong (pos (count_in (between l u left right) is))
unfolding get_integers
get_interval_int_count_lem l u left right is h =
    let g : ok (some (ascending (pos_part (u -ℤ l +ℤ pos 1)) l)) ≡ ok (some is) =
      ap ok (sym (integers_from_lem _ l u refl)) ∙ h in
    count_rounds _ l u left right refl
    ∙ ap (λ is. int_to_ulong (pos (count_in (between l u left right) is))) cc
