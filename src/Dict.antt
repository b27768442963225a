-- ===== src/Dict.antt =====
-- std::unordered_map with string keys. The sources that are modelled look keys up and never rely on
-- the order of an iteration, so the order of the entries is not observed.
use smtlibparser.Prelude.{
  ◌≡◌, refl, Option, none, some, List, [], ◌∷◌, arith, Bytes, same, same_iff, if◌then◌else◌,
}

pub record Dict {ℓ} (V : Type ℓ) : Type ℓ where
  entries : List (Bytes × V)

module _ {ℓ} {V : Type ℓ} where
  lookup : Bytes → List (Bytes × V) → Option V
  lookup k [] = none
  lookup k ((j, v) ∷ m) = if same j k then some v else lookup k m

  without : Bytes → List (Bytes × V) → List (Bytes × V)
  without k [] = []
  without k ((j, v) ∷ m) = let rest = without k m in if same j k then rest else (j, v) ∷ rest

  unfoldable pub empty : Dict V
  empty = record { entries = [] }

  -- m.find(k)
  unfoldable pub find : Dict V → Bytes → Option V
  unfolding lookup
  find m k = lookup k m.entries

  -- m.erase(k)
  unfoldable pub erase : Dict V → Bytes → Dict V
  unfolding without
  erase m k = record { entries = without k m.entries }

  -- m[k] = v
  unfoldable pub insert : Dict V → Bytes → V → Dict V
  unfolding without
  insert m k v = record { entries = (k, v) ∷ without k m.entries }

  lookup-without :
      (k j : Bytes) (m : List (Bytes × V))
      → lookup j (without k m) ≡ (if same k j then none else lookup j m)
  unfolding lookup without
  lookup-without k j [] = ground arith
  lookup-without k j ((i, v) ∷ m) =
      ground (arith, lookup-without k j m, same_iff i k, same_iff i j, same_iff k j)

  pub find-empty : (k : Bytes) → find empty k ≡ none
  unfolding find empty
  find-empty k = refl

  pub find-erase :
      (m : Dict V) (k j : Bytes) → find (erase m k) j ≡ (if same k j then none else find m j)
  unfolding find erase
  find-erase m k j = lookup-without k j m.entries

  pub find-insert :
      (m : Dict V) (k j : Bytes) (v : V)
      → find (insert m k v) j ≡ (if same k j then some v else find m j)
  unfolding find insert
  find-insert m k j v = ground (arith, lookup-without k j m.entries)

-- Two maps with the same entries.
abbrev pub SameMap {ℓ} : {V : Type ℓ} → Dict V → Dict V → Type ℓ
SameMap a b = (k : Bytes) → find a k ≡ find b k

pub ruleset dict_laws = (find-empty, find-erase, find-insert)
