-- ===== src/Prelude/Arith.antt =====
-- Powers of two and remainders by them.
use Prim.Native.Nat.{ℕ, zero, suc, ◌+◌, ◌*◌, ◌/◌, ◌%◌, ◌^◌, ◌<◌}
use mathlib.Core.Path.{◌≡◌, ap, ◌∙◌}
use native.Mathlib.Omega.{arith}
use native.Mathlib.Nat.{two-pow-succ, mod-lt, mod-eq_of_lt, mul-add-mod_self_left, div-add-mod}

pub pow_two_suc : (w : ℕ) → 2 ^ suc w ≡ 2 ^ w + 2 ^ w
pow_two_suc w = two-pow-succ w

pub pow_two_pos : (w : ℕ) → 0 < 2 ^ w
pow_two_pos zero = omega arith
pow_two_pos (suc w) = omega (arith, pow_two_suc w, pow_two_pos w)

-- The last binary digit, and the others, of a remainder by a power of two.
pub mod_two_mul : (p v : ℕ) → 0 < p → v % (p + p) ≡ v / 2 % p * 2 + v % 2
mod_two_mul p v h =
    let low : ℕ = v / 2 % p * 2 + v % 2 in
    let e : v ≡ (p + p) * (v / 2 / p) + low = omega (arith, div-add-mod (v / 2) p) in
    let lt : low < p + p = omega (arith, mod-lt (v / 2) h) in
    ap (λ x. x % (p + p)) e ∙ mul-add-mod_self_left (p + p) (v / 2 / p) low ∙ mod-eq_of_lt lt

-- A number and its remainder by a power of two have the same lower digits.
pub mod_pow_two : (w v : ℕ) → v % 2 ^ suc w ≡ v / 2 % 2 ^ w * 2 + v % 2
mod_pow_two w v = ap (λ p. v % p) (pow_two_suc w) ∙ mod_two_mul (2 ^ w) v (pow_two_pos w)

pub pow_two_add : (w k : ℕ) → 2 ^ (k + w) ≡ 2 ^ k * 2 ^ w
pow_two_add w zero = let e : 0 + w ≡ w = omega arith in ap (λ n. 2 ^ n) e ∙ omega arith
pow_two_add w (suc k) =
    let e : suc k + w ≡ suc (k + w) = omega arith in
    ap (λ n. 2 ^ n) e ∙ pow_two_suc (k + w) ∙ rw (pow_two_suc k) (omega (arith, pow_two_add w k))
