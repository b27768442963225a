-- ===== src/Result.antt =====
-- How a call of the library ends: with a value, with an exception, or outside what C++ defines.
use mathlib.Core.Bool.{Bool, true, false}

pub data Error : Type 0 where
  -- std::runtime_error, thrown by condAssert (core/asserting.h).
  assertion : Error
  -- std::out_of_range, thrown by std::string::substr, and std::length_error of a string.
  out_of_range : Error
  -- std::overflow_error, thrown by HighPrecisionInteger::toULong.
  overflow : Error
  -- std::domain_error, thrown by HighPrecisionInteger at a zero divisor.
  domain : Error
  -- std::invalid_argument.
  invalid_argument : Error
  -- A read past the end, which C++ leaves undefined.
  undefined : Error

pub data Result {ℓ} (A : Type ℓ) : Type ℓ where
  err : Error → Result A
  ok : A → Result A

-- condAssert(cond, msg)
abbrev pub cond_assert : Bool → Result (Unit {0})
cond_assert c = elim c [ true ↦ ok tt | false ↦ err assertion ]

-- An exception skips what follows.
infixl 5 ◌>>=◌ ◌>>◌
abbrev pub ◌>>=◌ {ℓ κ} : {A : Type ℓ} → {B : Type κ} → Result A → (A → Result B) → Result B
err exception >>= next = err exception
ok value >>= next = next value

abbrev pub ◌>>◌ {ℓ} : {B : Type ℓ} → Result (Unit {0}) → Result B → Result B
done >> next = done >>= λ _. next
