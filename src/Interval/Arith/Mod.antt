-- ===== src/Interval/Arith/Mod.antt =====
-- Remainders: mod by a number and by an interval, src/ir/interval.cpp, lines 1708-1774.
use smtlibparser.Prelude.{
  ℕ, suc, ◌%◌, ◌≤◌, ◌≡◌, refl, Bool-cases, inl, inr, Bool, true, false, not, ◌&&◌, arith,
  if◌then◌else◌,
}
use smtlibparser.Prelude.Int.{ℤ, pos, ◌-ℤ◌, -ℤ_parts}
use smtlibparser.Result.{ok}
use smtlibparser.Number.{
  Number, nan, neg_infinity, pos_infinity, finite, lt, gt, equals, sub, add, neg, max_number,
  abs_number,
}
use smtlibparser.Number.Order.{IsNumber, order_3}
use smtlibparser.Interval.{Interval, is_empty, contains}
use smtlibparser.Interval.Sides.{IsProper}
use smtlibparser.Interval.Sets.{contains-not_empty, max_IsNumber, upper_of, lower_of, within}
use native.Mathlib.Nat.{mod-le, mod-lt}
use smtlibparser.Interval.Arith.Mirror.{first_side, second_side, abs-IsNumber}
use smtlibparser.Interval.Arith.Shift.{below}
use smtlibparser.Interval.Arith.{mod_number, mod_interval, has_zero}

mod_small : (x n : ℕ) → (x % suc n ≤ x) × (x % suc n ≤ n)
mod_small x n = (mod-le x (suc n), omega (arith, mod-lt x {m = suc n} (omega arith)))

-- A smaller number is below what a number is below.
below_less :
    (u : Number) (closed : Bool) (x y : ℕ)
    → IsNumber u
    → y ≤ x
    → below u closed (finite (pos x)) ≡ true
    → below u closed (finite (pos y)) ≡ true
unfolding lt
below_less nan closed x y hu h e = cc
below_less (finite k) closed x y hu h e = ground arith
below_less neg_infinity closed x y hu h e = ground arith
below_less pos_infinity closed x y hu h e = ground arith

-- The top of the remainders.
top_lem : (n : ℕ) → sub (abs_number (finite (pos (suc n)))) (finite (pos 1)) ≡ finite (pos n)
unfolding abs_number sub ◌-ℤ◌
top_lem n = ground arith

up_to : Number → Bool → Interval
up_to u closed = record {
  lower = finite (pos 0);
  upper = u;
  left_closed = true;
  right_closed = closed;
}

in_up_to :
    (u : Number) (closed : Bool) (y : ℕ)
    → IsNumber u
    → below u closed (finite (pos y)) ≡ true
    → contains (up_to u closed) (finite (pos y)) ≡ true
unfolding up_to lt
in_up_to u closed y hu h =
    within (up_to u closed) (finite (pos y)) (record { lower_number = refl; upper_number = hu })
      refl (ground arith) h

top_below :
    (n y : ℕ) (closed : Bool)
    → y ≤ n
    → closed ≡ true
    → below (finite (pos n)) closed (finite (pos y)) ≡ true
unfolding lt
top_below n y true h e = ground arith
top_below n y false h e = cc

-- The code of mod by a number, where its divisor is positive.
mod_code :
    (i : Interval) (n : ℕ)
    → is_empty i ≡ false
    → mod_number i (finite (pos (suc n))) ≡ (
        if gt (finite (pos n)) i.upper
        then ok (up_to i.upper i.right_closed)
        else ok
            (up_to (finite (pos n)) (if lt (finite (pos n)) i.lower then i.left_closed else true)))
unfolding mod_number up_to lt equals
mod_code i n e = ground (arith, top_lem n)

module _ (i : Interval) (p : IsProper i) (x n : ℕ) (c : contains i (finite (pos x)) ≡ true) where
  -- The remainder of a natural number in an interval by a positive divisor is in the remainder of
  -- the interval, unless the interval is open on the left and starts above the largest remainder.
  pub contains-mod_number :
      (lt (finite (pos n)) i.lower && not i.left_closed) ≡ false
      → (r : Interval) × (mod_number i (finite (pos (suc n))) ≡ ok r)
        × (contains r (finite (pos (x % suc n))) ≡ true)
  contains-mod_number e =
      let (small, less) = mod_small x n in
      let code = mod_code i n (contains-not_empty i (finite (pos x)) c) in
      let flag = if lt (finite (pos n)) i.lower then i.left_closed else true in
      elim (Bool-cases (gt (finite (pos n)) i.upper)) [
        | inl g ↦ (
          up_to i.upper i.right_closed,
          cc (code, g),
          in_up_to i.upper i.right_closed (x % suc n) p.upper_number (
              below_less i.upper i.right_closed x (x % suc n) p.upper_number small
                (upper_of i (finite (pos x)) p refl c)),
        )
        | inr g ↦ (
          up_to (finite (pos n)) flag,
          cc (code, g),
          in_up_to (finite (pos n)) flag (x % suc n) refl
              (top_below n (x % suc n) flag less (ground arith)),
        )
      ]

module _ (l u x : Number) (closed : Bool) (hl : IsNumber l) (hu : IsNumber u)
    (hx : IsNumber x) where
  max_first : below l closed x ≡ true → lt (max_number l u) x ≡ false
  max_first h = ground (arith, order_3 l u x hl hu hx)

  max_second : below u closed x ≡ true → lt (max_number l u) x ≡ false
  max_second h = ground (arith, order_3 l u x hl hu hx)

module _ (i : Interval) (p : IsProper i) (j : ℤ) (c : contains i (finite j) ≡ true) where
  -- The larger absolute value of the bounds is at least that of a number other than zero between.
  max_abs :
      equals (finite j) (finite (pos 0)) ≡ false
      → lt (max_number (abs_number i.lower) (abs_number i.upper)) (abs_number (finite j)) ≡ false
  unfolding equals lt
  max_abs z =
      let hl = abs-IsNumber i.lower p.lower_number in
      let hu = abs-IsNumber i.upper p.upper_number in
      let hj = abs-IsNumber (finite j) refl in
      let l = lower_of i (finite j) p refl c in
      let u = upper_of i (finite j) p refl c in
      elim (Bool-cases (lt (finite j) (finite (pos 0)))) [
        | inl n ↦
            let q = order_3 i.lower (finite j) (finite (pos 0)) p.lower_number refl refl in
            let s = first_side i p (finite j) refl c (ground arith) n in
            max_first (abs_number i.lower) (abs_number i.upper) (abs_number (finite j))
              i.left_closed hl hu hj s
        | inr n ↦
            let q = order_3 i.upper (finite j) (finite (pos 0)) p.upper_number refl refl in
            let s = second_side i p (finite j) refl c (ground arith) n in
            max_second (abs_number i.lower) (abs_number i.upper) (abs_number (finite j))
              i.right_closed hl hu hj s
      ]

less_one :
    (m : Number) (n : ℕ)
    → IsNumber m
    → lt m (finite (pos (suc n))) ≡ false
    → IsNumber (sub m (finite (pos 1))) × (lt (sub m (finite (pos 1))) (finite (pos n)) ≡ false)
unfolding lt sub add neg
less_one nan n hm h = cc
less_one neg_infinity n hm h = cc
less_one pos_infinity n hm h = (refl, refl)
less_one (finite k) n hm h = (refl, ground (arith, -ℤ_parts k (pos 1)))

below_top :
    (t : Number) (n y : ℕ)
    → IsNumber t
    → lt t (finite (pos n)) ≡ false
    → y ≤ n
    → below t true (finite (pos y)) ≡ true
unfolding lt
below_top nan n y ht h e = cc
below_top neg_infinity n y ht h e = cc
below_top pos_infinity n y ht h e = refl
below_top (finite k) n y ht h e = ground arith

mod_interval_code :
    (a b : Interval)
    → is_empty a ≡ false
    → is_empty b ≡ false
    → has_zero b ≡ false
    → (t : Number) → sub (max_number (abs_number b.lower) (abs_number b.upper)) (finite (pos 1)) ≡ t
    → mod_interval a b
      ≡ (if lt a.upper t then ok (up_to a.upper a.right_closed) else ok (up_to t true))
unfolding mod_interval up_to
mod_interval_code a b ea eb z t e = ground (arith, e)

not_zero :
    (j : ℤ) (n : ℕ)
    → abs_number (finite j) ≡ finite (pos (suc n))
    → equals (finite j) (finite (pos 0)) ≡ false
unfolding abs_number equals neg ◌-ℤ◌
not_zero j n e = ground arith

module _ (a b : Interval) (pa : IsProper a) (pb : IsProper b) (x n : ℕ) (j : ℤ) where
  -- Let a natural number be in one interval and an integer of absolute value n + 1 in another, to
  -- which zero does not belong by the test of the code. Then mod by an interval gives a result, and
  -- the remainder of the first by n + 1 is in it.
  pub contains-mod_interval :
      contains a (finite (pos x)) ≡ true
      → contains b (finite j) ≡ true
      → has_zero b ≡ false
      → abs_number (finite j) ≡ finite (pos (suc n))
      → (r : Interval) × (mod_interval a b ≡ ok r) × (contains r (finite (pos (x % suc n))) ≡ true)
  contains-mod_interval ca cb z e =
      let (small, less) = mod_small x n in
      let top = sub (max_number (abs_number b.lower) (abs_number b.upper)) (finite (pos 1)) in
      let code =
        mod_interval_code a b (contains-not_empty a (finite (pos x)) ca)
          (contains-not_empty b (finite j) cb) z top refl in
      let m = max_abs b pb j cb (not_zero j n e) in
      let (ht, t) =
        less_one (max_number (abs_number b.lower) (abs_number b.upper)) n
          (max_IsNumber (abs_number b.lower) (abs_number b.upper)
            (abs-IsNumber b.lower pb.lower_number) (abs-IsNumber b.upper pb.upper_number))
          (cc (m, e)) in
      elim (Bool-cases (lt a.upper top)) [
        | inl g ↦ (
          up_to a.upper a.right_closed,
          cc (code, g),
          in_up_to a.upper a.right_closed (x % suc n) pa.upper_number (
              below_less a.upper a.right_closed x (x % suc n) pa.upper_number small
                (upper_of a (finite (pos x)) pa refl ca)),
        )
        | inr g ↦ (
          up_to top true,
          cc (code, g),
          in_up_to top true (x % suc n) ht (below_top top n (x % suc n) ht t less),
        )
      ]
