-- ===== src/Number/Order.antt =====
-- The numbers other than NaN are in a total order.
use smtlibparser.Prelude.{◌≡◌, refl, ap, true, false, not, ◌&&◌, ◌||◌, arith}
use smtlibparser.Prelude.Int.{eq_of_parts}
use smtlibparser.Number.{Number, nan, neg_infinity, pos_infinity, finite, is_nan, equals, lt, le}

-- A number other than NaN.
abbrev pub IsNumber : Number → Type 0
IsNumber a = is_nan a ≡ false

pub le-not-lt : (a b : Number) → IsNumber a → IsNumber b → le a b ≡ not (lt b a)
unfolding le lt
le-not-lt (finite i) (finite j) ha hb = refl
le-not-lt nan b ha hb = cc
le-not-lt a nan ha hb = cc
le-not-lt a b ha hb = refl

pub equals-not-lt :
    (a b : Number) → IsNumber a → IsNumber b → equals a b ≡ (not (lt a b) && not (lt b a))
unfolding equals lt
equals-not-lt (finite i) (finite j) ha hb = ground arith
equals-not-lt nan b ha hb = cc
equals-not-lt a nan ha hb = cc
equals-not-lt a b ha hb = refl

pub equals-eq : (a b : Number) → equals a b ≡ true → a ≡ b
unfolding equals
equals-eq (finite i) (finite j) h = ap finite (eq_of_parts i j (ground arith))
equals-eq neg_infinity neg_infinity h = refl
equals-eq pos_infinity pos_infinity h = refl
equals-eq _ _ h = cc

pub lt_asymm : (a b : Number) → lt a b ≡ true → lt b a ≡ false
unfolding lt
lt_asymm (finite i) (finite j) h = ground arith
lt_asymm (finite i) pos_infinity h = refl
lt_asymm neg_infinity (finite j) h = refl
lt_asymm neg_infinity pos_infinity h = refl
lt_asymm _ _ h = cc

pub lt_trans : (a b c : Number) → lt a b ≡ true → lt b c ≡ true → lt a c ≡ true
unfolding lt
lt_trans (finite i) (finite j) (finite k) h g = ground arith
lt_trans (finite i) (finite j) pos_infinity h g = refl
lt_trans neg_infinity (finite j) (finite k) h g = refl
lt_trans neg_infinity (finite j) pos_infinity h g = refl
lt_trans _ _ _ h g = cc

lt_split : (a b c : Number) → IsNumber b → lt a c ≡ true → (lt a b || lt b c) ≡ true
unfolding lt
lt_split (finite i) (finite j) (finite k) hb h = ground arith
lt_split _ nan _ hb h = cc
lt_split _ _ _ hb h = ground arith

pub le_trans : (a b c : Number) → IsNumber b → lt b a ≡ false → lt c b ≡ false → lt c a ≡ false
le_trans a b c hb h g = ground (arith, lt_split c b a hb)

-- What holds of the order of three numbers.
pub record Order3 (a b c : Number) : Type 0 where
  pub ab : lt a b ≡ true → lt b a ≡ false
  pub bc : lt b c ≡ true → lt c b ≡ false
  pub ac : lt a c ≡ true → lt c a ≡ false
  pub abc : lt a b ≡ true → lt b c ≡ true → lt a c ≡ true
  pub acb : lt a c ≡ true → lt c b ≡ true → lt a b ≡ true
  pub bac : lt b a ≡ true → lt a c ≡ true → lt b c ≡ true
  pub bca : lt b c ≡ true → lt c a ≡ true → lt b a ≡ true
  pub cab : lt c a ≡ true → lt a b ≡ true → lt c b ≡ true
  pub cba : lt c b ≡ true → lt b a ≡ true → lt c a ≡ true
  pub abc' : lt b a ≡ false → lt c b ≡ false → lt c a ≡ false
  pub acb' : lt c a ≡ false → lt b c ≡ false → lt b a ≡ false
  pub bac' : lt a b ≡ false → lt c a ≡ false → lt c b ≡ false
  pub bca' : lt c b ≡ false → lt a c ≡ false → lt a b ≡ false
  pub cab' : lt a c ≡ false → lt b a ≡ false → lt b c ≡ false
  pub cba' : lt b c ≡ false → lt a b ≡ false → lt a c ≡ false

pub order_3 : (a b c : Number) → IsNumber a → IsNumber b → IsNumber c → Order3 a b c
order_3 a b c ha hb hc = record {
  ab = lt_asymm a b;
  bc = lt_asymm b c;
  ac = lt_asymm a c;
  abc = lt_trans a b c;
  acb = lt_trans a c b;
  bac = lt_trans b a c;
  bca = lt_trans b c a;
  cab = lt_trans c a b;
  cba = lt_trans c b a;
  abc' = le_trans a b c hb;
  acb' = le_trans a c b hc;
  bac' = le_trans b a c ha;
  bca' = le_trans b c a hc;
  cab' = le_trans c a b ha;
  cba' = le_trans c b a hb;
}
