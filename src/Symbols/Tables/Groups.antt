-- ===== src/Symbols/Tables/Groups.antt =====
-- The groups of mutually recursive functions: addRecFunGroup and getRecFunGroup.
use smtlibparser.Prelude.{
  ℕ, zero, suc, ◌<◌, ◌≡◌, refl, Option, none, some, List, [], ◌∷◌, ◌++◌, Bytes, arith,
  if◌then◌else◌, length, length-append, get_elem?, Option-cases, inl, inr,
}
use smtlibparser.Result.{ok}
use smtlibparser.Dict.{Dict, find, insert, find-insert}
use smtlibparser.Symbols.{SymbolManager}
use smtlibparser.Symbols.Tables.{contains, set_all, add_rec_fun_group, get_rec_fun_group}

find-set_all :
    (names : List Bytes) (i : ℕ) (m : Dict ℕ) (k : Bytes)
    → find (set_all names i m) k ≡ (if contains names k then some i else find m k)
unfolding set_all contains
find-set_all [] i m k = refl
find-set_all (name ∷ names) i m k =
    ground (arith, find-set_all names i (insert m name i) k, find-insert m name k i)

get_elem?-append_last {ℓ} :
    {A : Type ℓ} (xs : List A) (y : A) → get_elem? (xs ++ y ∷ []) (length xs) ≡ some y
get_elem?-append_last [] y = refl
get_elem?-append_last (x ∷ xs) y = get_elem?-append_last xs y

get_elem?-append {ℓ} :
    {A : Type ℓ} (xs ys : List A) (i : ℕ) → i < length xs → get_elem? (xs ++ ys) i ≡ get_elem? xs i
get_elem?-append [] ys i h = elim h [ ]
get_elem?-append (x ∷ xs) ys zero h = refl
get_elem?-append (x ∷ xs) ys (suc i) h = get_elem?-append xs ys i (omega arith)

get_elem?-some {ℓ} :
    {A : Type ℓ} (xs : List A) (i : ℕ) → i < length xs → (x : A) × (get_elem? xs i ≡ some x)
get_elem?-some [] i h = elim h [ ]
get_elem?-some (x ∷ xs) zero h = (x, refl)
get_elem?-some (x ∷ xs) (suc i) h = get_elem?-some xs i (omega arith)

-- Every recorded index is that of a group.
pub record IsGrouped {Node Sort : Type 0} (s : SymbolManager Node Sort) : Type 0 where
  pub in_range :
      (k : Bytes) (i : ℕ) → find s.rec_fun_group_of k ≡ some i → i < length s.rec_fun_groups

module _ {Node Sort : Type 0} (s : SymbolManager Node Sort) (grouped : IsGrouped s) where
  -- Adding a group keeps every recorded index in range, where it was so before.
  pub add_rec_fun_group-IsGrouped : (names : List Bytes) → IsGrouped (add_rec_fun_group s names)
  unfolding add_rec_fun_group
  add_rec_fun_group-IsGrouped [] = grouped
  add_rec_fun_group-IsGrouped (name ∷ names) = record {
    in_range = λ k i h. ground (
      arith,
      find-set_all (name ∷ names) (length s.rec_fun_groups) s.rec_fun_group_of k,
      grouped.in_range k i,
      length-append s.rec_fun_groups ((name ∷ names) ∷ []),
    );
  }

  -- Where every recorded index is that of a group: after a group is added, its members have that
  -- group, and all other names have the group, or none, that they had before.
  pub get_rec_fun_group-add_rec_fun_group :
      (names : List Bytes) (k : Bytes)
      → get_rec_fun_group (add_rec_fun_group s names) k
        ≡ (if contains names k then ok (some names) else get_rec_fun_group s k)
  unfolding add_rec_fun_group get_rec_fun_group contains
  get_rec_fun_group-add_rec_fun_group [] k = refl
  get_rec_fun_group-add_rec_fun_group (name ∷ names) k =
      elim (Option-cases (find s.rec_fun_group_of k)) [
        | inl e ↦ ground (
          arith,
          find-set_all (name ∷ names) (length s.rec_fun_groups) s.rec_fun_group_of k,
          get_elem?-append_last s.rec_fun_groups (name ∷ names),
        )
        | inr (i, e) ↦ ground (
          arith,
          find-set_all (name ∷ names) (length s.rec_fun_groups) s.rec_fun_group_of k,
          get_elem?-append_last s.rec_fun_groups (name ∷ names),
          get_elem?-append s.rec_fun_groups ((name ∷ names) ∷ []) i,
          grouped.in_range k i e,
        )
      ]

  -- Where every recorded index is that of a group, the lookup of a group always returns: the
  -- assertion on a dangling index never fires.
  pub get_rec_fun_group_total :
      (k : Bytes) → (group : Option (List Bytes)) × (get_rec_fun_group s k ≡ ok group)
  unfolding get_rec_fun_group
  get_rec_fun_group_total k = elim (Option-cases (find s.rec_fun_group_of k)) [
    | inl e ↦ (none, ground arith)
    | inr (i, e) ↦
        let (group, g) = get_elem?-some s.rec_fun_groups i (grouped.in_range k i e) in
        (some group, ground arith)
  ]

module _ {Node Sort : Type 0} where
  -- The groups of a script, recorded one after the other.
  pub add_groups : SymbolManager Node Sort → List (List Bytes) → SymbolManager Node Sort
  add_groups s [] = s
  add_groups s (names ∷ groups) = add_groups (add_rec_fun_group s names) groups

  add_groups-IsGrouped :
      (s : SymbolManager Node Sort) (groups : List (List Bytes))
      → IsGrouped s
      → IsGrouped (add_groups s groups)
  unfolding add_groups
  add_groups-IsGrouped s [] g = g
  add_groups-IsGrouped s (names ∷ groups) g =
      add_groups-IsGrouped (add_rec_fun_group s names) groups
        (add_rec_fun_group-IsGrouped s g names)

  none_recorded :
      (s : SymbolManager Node Sort) → ((k : Bytes) → find s.rec_fun_group_of k ≡ none) → IsGrouped s
  none_recorded s h = record { in_range = λ k i e. absurd (cc (h k, e)) }

  -- From a symbol manager that records no group, after any groups of recursive functions are added,
  -- the lookup of every name returns: the assertion on an index out of range never fires.
  pub get_rec_fun_group-add_groups :
      (s : SymbolManager Node Sort) (groups : List (List Bytes)) (k : Bytes)
      → ((k : Bytes) → find s.rec_fun_group_of k ≡ none)
      → (group : Option (List Bytes)) × (get_rec_fun_group (add_groups s groups) k ≡ ok group)
  get_rec_fun_group-add_groups s groups k h =
      get_rec_fun_group_total (add_groups s groups)
        (add_groups-IsGrouped s groups (none_recorded s h)) k
