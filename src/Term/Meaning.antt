-- ===== src/Term/Meaning.antt =====
-- What a term means under a valuation, after the SMT-LIB theories Core and Ints.
use smtlibparser.Prelude.{
  ℕ, Bool, true, false, not, ◌&&◌, ◌||◌, List, [], ◌∷◌, Bytes, ◌==◌, if◌then◌else◌,
}
use smtlibparser.Prelude.Int.{ℤ, pos, pos_part, neg_part, ltb_ℤ}
use smtlibparser.Term.{
  Oper, Node, Nodes, const_true, const_false, unknown, error, bool_var, int_var, temp_var,
  predicate, oper, nil, cons, not_op, and_op, or_op, implies_op, xor_op, eq_op, distinct_op, ite_op,
  lt_op, le_op, gt_op, ge_op,
}

pub data Value : Type 0 where
  truth : Bool → Value
  number : ℤ → Value

pub record Valuation : Type 0 where
  pub bool_of : Bytes → Bool
  pub int_of : Bytes → ℤ
  pub temp_of : ℕ → Bool
  pub predicate_of : ℕ → Bool

abbrev pub bool : Value → Bool
bool (truth b) = b
bool (number i) = false

abbrev pub int : Value → ℤ
int (truth b) = pos 0
int (number i) = i

abbrev pub xor : Bool → Bool → Bool
xor true b = not b
xor false b = b

abbrev pub equal_value : Value → Value → Bool
equal_value (truth a) (truth b) = not (xor a b)
equal_value (number i) (number j) = (pos_part i == pos_part j) && (neg_part i == neg_part j)
equal_value _ _ = false

abbrev pub all_true : List Value → Bool
all_true [] = true
all_true (v ∷ vs) = bool v && all_true vs

abbrev pub any_true : List Value → Bool
any_true [] = false
any_true (v ∷ vs) = bool v || any_true vs

-- a => (b => c)
abbrev pub implication : List Value → Bool
implication [] = true
implication (v ∷ []) = bool v
implication (v ∷ w ∷ vs) = not (bool v) || implication (w ∷ vs)

abbrev pub parity : List Value → Bool
parity [] = false
parity (v ∷ vs) = xor (bool v) (parity vs)

-- = is chainable, distinct is pairwise.
abbrev pub all_equal : List Value → Bool
all_equal [] = true
all_equal (v ∷ []) = true
all_equal (v ∷ w ∷ vs) = equal_value v w && all_equal (w ∷ vs)

abbrev pub differs_from : Value → List Value → Bool
differs_from v [] = true
differs_from v (w ∷ ws) = not (equal_value v w) && differs_from v ws

abbrev pub all_distinct : List Value → Bool
all_distinct [] = true
all_distinct (v ∷ vs) = differs_from v vs && all_distinct vs

-- a < b < c, and the other three orders.
abbrev pub less : List Value → Bool
less (v ∷ w ∷ []) = ltb_ℤ (int v) (int w)
less (v ∷ w ∷ x ∷ vs) = ltb_ℤ (int v) (int w) && less (w ∷ x ∷ vs)
less _ = false

abbrev pub greater : List Value → Bool
greater (v ∷ w ∷ []) = ltb_ℤ (int w) (int v)
greater (v ∷ w ∷ x ∷ vs) = ltb_ℤ (int w) (int v) && greater (w ∷ x ∷ vs)
greater _ = false

abbrev pub at_most : List Value → Bool
at_most (v ∷ w ∷ []) = not (ltb_ℤ (int w) (int v))
at_most (v ∷ w ∷ x ∷ vs) = not (ltb_ℤ (int w) (int v)) && at_most (w ∷ x ∷ vs)
at_most _ = false

abbrev pub at_least : List Value → Bool
at_least (v ∷ w ∷ []) = not (ltb_ℤ (int v) (int w))
at_least (v ∷ w ∷ x ∷ vs) = not (ltb_ℤ (int v) (int w)) && at_least (w ∷ x ∷ vs)
at_least _ = false

abbrev pub choose : List Value → Value
choose (c ∷ v ∷ w ∷ []) = if bool c then v else w
choose _ = truth false

abbrev pub negation : List Value → Bool
negation (v ∷ []) = not (bool v)
negation _ = false

abbrev pub apply : Oper → List Value → Value
apply not_op vs = truth (negation vs)
apply and_op vs = truth (all_true vs)
apply or_op vs = truth (any_true vs)
apply implies_op vs = truth (implication vs)
apply xor_op vs = truth (parity vs)
apply eq_op vs = truth (all_equal vs)
apply distinct_op vs = truth (all_distinct vs)
apply ite_op vs = choose vs
apply lt_op vs = truth (less vs)
apply le_op vs = truth (at_most vs)
apply gt_op vs = truth (greater vs)
apply ge_op vs = truth (at_least vs)

-- The nodes for errors have no meaning; they are false here.
unfoldable mutual
  pub eval : Valuation → Node → Value
  eval ρ const_true = truth true
  eval ρ const_false = truth false
  eval ρ unknown = truth false
  eval ρ error = truth false
  eval ρ (bool_var x) = truth (ρ.bool_of x)
  eval ρ (int_var x) = number (ρ.int_of x)
  eval ρ (temp_var n) = truth (ρ.temp_of n)
  eval ρ (predicate n) = truth (ρ.predicate_of n)
  eval ρ (oper f ps) = apply f (eval_nodes ρ ps)

  pub eval_nodes : Valuation → Nodes → List Value
  eval_nodes ρ nil = []
  eval_nodes ρ (cons p ps) = eval ρ p ∷ eval_nodes ρ ps

abbrev pub holds : Valuation → Node → Bool
holds ρ p = bool (eval ρ p)

abbrev pub eval_all : Valuation → List Node → List Value
eval_all ρ [] = []
eval_all ρ (p ∷ ps) = eval ρ p ∷ eval_all ρ ps
