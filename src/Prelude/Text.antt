-- ===== src/Prelude/Text.antt =====
-- std::string as the list of its bytes, with operator== on whole strings.
use Prim.Native.Nat.{ℕ, compare, Ordering}
use Prim.Native.Char.{code}
use Prim.Native.String.{String}
use mathlib.Core.Path.{◌≡◌, refl}
use mathlib.Core.Logic.{◌↔◌}
use mathlib.Core.Bool.{Bool, true, false, ◌&&◌}
use mathlib.Core.List.{List, [], ◌∷◌}
use native.Mathlib.Omega.{arith}

abbrev pub Bytes : Type 0
Bytes = List ℕ

-- The bytes of an ASCII text.
abbrev pub bytes : String → Bytes
bytes String.[] = []
bytes (String.◌∷◌ c s) = code c ∷ bytes s

-- operator== of std::string.
unfoldable pub same : Bytes → Bytes → Bool
same [] [] = true
same [] (b ∷ t) = false
same (a ∷ s) [] = false
same (a ∷ s) (b ∷ t) = elim (compare a b) [ Ordering.eq ↦ true | _ ↦ false ] && same s t

same_eq : (s t : Bytes) → same s t ≡ true → s ≡ t
unfolding same
same_eq [] [] h = refl
same_eq [] (b ∷ t) h = ground arith
same_eq (a ∷ s) [] h = ground arith
same_eq (a ∷ s) (b ∷ t) h = ground (arith, same_eq s t)

pub same_refl : (s : Bytes) → same s s ≡ true
unfolding same
same_refl [] = refl
same_refl (a ∷ s) = ground (arith, same_refl s)

same_of_eq : (s t : Bytes) → s ≡ t → same s t ≡ true
same_of_eq s t e = rw e (same_refl t)

pub same_iff : (s t : Bytes) → (same s t ≡ true) ↔ (s ≡ t)
same_iff s t = (same_eq s t, same_of_eq s t)
