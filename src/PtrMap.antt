-- ===== src/PtrMap.antt =====
-- std::unordered_map keyed by shared_ptr: a pointer is known by the number of its node, and
-- hash-consed nodes are equal as pointers.
use smtlibparser.Prelude.{
  ℕ, ◌≡◌, refl, Option, none, some, List, [], ◌∷◌, arith, ◌==◌, if◌then◌else◌,
}

pub record PtrMap {ℓ} (V : Type ℓ) : Type ℓ where
  entries : List (ℕ × V)

module _ {ℓ} {V : Type ℓ} where
  lookup : ℕ → List (ℕ × V) → Option V
  lookup k [] = none
  lookup k ((j, v) ∷ m) = if j == k then some v else lookup k m

  without : ℕ → List (ℕ × V) → List (ℕ × V)
  without k [] = []
  without k ((j, v) ∷ m) = let rest = without k m in if j == k then rest else (j, v) ∷ rest

  pub empty : PtrMap V
  empty = record { entries = [] }

  -- m.find(k)
  unfoldable pub find : PtrMap V → ℕ → Option V
  unfolding lookup
  find m k = lookup k m.entries

  -- m.erase(k)
  unfoldable pub erase : PtrMap V → ℕ → PtrMap V
  unfolding without
  erase m k = record { entries = without k m.entries }

  -- m[k] = v
  unfoldable pub insert : PtrMap V → ℕ → V → PtrMap V
  unfolding without
  insert m k v = record { entries = (k, v) ∷ without k m.entries }

  lookup-without :
      (k j : ℕ) (m : List (ℕ × V)) → lookup j (without k m) ≡ (if k == j then none else lookup j m)
  unfolding lookup without
  lookup-without k j [] = ground arith
  lookup-without k j ((i, v) ∷ m) = ground (arith, lookup-without k j m)

  pub find-empty : (k : ℕ) → find empty k ≡ none
  unfolding find empty
  find-empty k = refl

  pub find-erase :
      (m : PtrMap V) (k j : ℕ) → find (erase m k) j ≡ (if k == j then none else find m j)
  unfolding find erase
  find-erase m k j = lookup-without k j m.entries

  pub find-insert :
      (m : PtrMap V) (k j : ℕ) (v : V)
      → find (insert m k v) j ≡ (if k == j then some v else find m j)
  unfolding find insert
  find-insert m k j v = ground (arith, lookup-without k j m.entries)
