-- ===== src/Symbols/Tables/Order.antt =====
-- Declaration order: the name lists that SymbolManager keeps beside its unordered maps, and
-- Parser::getDeclaredVariables, which reads them (src/frontend/base_parser.cpp).
use smtlibparser.Prelude.{
  ℕ, suc, ◌+◌, ◌≡◌, refl, ap, ◌∙◌, Option, none, some, true, false, List, [], ◌∷◌, ◌++◌, Bytes,
  same, same_refl, same_iff, arith, if◌then◌else◌, Option-cases, inl, inr, ◌≤◌,
}
use smtlibparser.Dict.{Dict, find, insert, erase, find-insert, find-erase}
use smtlibparser.Symbols.{SymbolManager}
use smtlibparser.Symbols.Tables.{
  found, contains, note_first, rename_key, register_var, remove_var, rename_var,
}

-- The loop of getDeclaredVariables: a name with no entry is skipped.
pub listed {ℓ} : {V : Type ℓ} → Dict V → List Bytes → List V
listed m [] = []
listed m (name ∷ names) = elim (find m name) [ none ↦ listed m names | some v ↦ v ∷ listed m names ]

pub get_declared_variables : {Node Sort : Type 0} → SymbolManager Node Sort → List (Option Node)
unfolding listed
get_declared_variables s = listed s.var_names s.var_order

-- Every entry of the map is named in the list.
abbrev pub IsOrdered {ℓ} : {V : Type ℓ} → Dict V → List Bytes → Type 0
IsOrdered m order = (k : Bytes) → found (find m k) ≡ true → contains order k ≡ true

contains-append :
    (xs ys : List Bytes) (k : Bytes)
    → contains (xs ++ ys) k ≡ (if contains xs k then true else contains ys k)
unfolding contains
contains-append [] ys k = refl
contains-append (x ∷ xs) ys k = ground (arith, contains-append xs ys k)

note_first-IsOrdered {ℓ} :
    {V : Type ℓ} (m : Dict V) (order : List Bytes) (name : Bytes) (v : V)
    → IsOrdered m order
    → IsOrdered (insert m name v) (note_first m name order)
unfolding note_first contains found
note_first-IsOrdered m order name v h k = ground (
  arith,
  h k,
  h name,
  find-insert m name k v,
  contains-append order (name ∷ []) k,
  same_iff name k,
)

erase-IsOrdered {ℓ} :
    {V : Type ℓ} (m : Dict V) (order : List Bytes) (name : Bytes)
    → IsOrdered m order
    → IsOrdered (erase m name) order
unfolding found
erase-IsOrdered m order name h k = ground (arith, h k, find-erase m name k)

-- A script of declarations and of removals by a closing scope.
pub data VarOp (Node : Type 0) : Type 0 where
  declare : Bytes → Option Node → VarOp Node
  remove : Bytes → VarOp Node

module _ {Node Sort : Type 0} where
  pub run_ops : List (VarOp Node) → SymbolManager Node Sort → SymbolManager Node Sort
  run_ops [] s = s
  run_ops (declare name node ∷ ops) s = run_ops ops (register_var s name node)
  run_ops (remove name ∷ ops) s = run_ops ops (remove_var s name)

  -- Whatever is declared and removed, every variable that the map holds afterwards is in the
  -- declaration order, if that was so before.
  pub run_ops-IsOrdered :
      (ops : List (VarOp Node)) (s : SymbolManager Node Sort)
      → IsOrdered s.var_names s.var_order
      → IsOrdered (run_ops ops s).var_names (run_ops ops s).var_order
  unfolding run_ops register_var remove_var
  run_ops-IsOrdered [] s h = h
  run_ops-IsOrdered (declare name node ∷ ops) s h =
      run_ops-IsOrdered ops (register_var s name node)
        (note_first-IsOrdered s.var_names s.var_order name node h)
  run_ops-IsOrdered (remove name ∷ ops) s h =
      run_ops-IsOrdered ops (remove_var s name) (erase-IsOrdered s.var_names s.var_order name h)

-- How often a name stands in a list.
pub occurrences : Bytes → List Bytes → ℕ
occurrences k [] = 0
occurrences k (x ∷ xs) = if same x k then suc (occurrences k xs) else occurrences k xs

occurrences-append :
    (k : Bytes) (xs ys : List Bytes)
    → occurrences k (xs ++ ys) ≡ occurrences k xs + occurrences k ys
unfolding occurrences
occurrences-append k [] ys = omega arith
occurrences-append k (x ∷ xs) ys = ground (arith, occurrences-append k xs ys)

occurrences_pos : (k : Bytes) (xs : List Bytes) → contains xs k ≡ true → 1 ≤ occurrences k xs
unfolding occurrences contains
occurrences_pos k [] h = ground arith
occurrences_pos k (x ∷ xs) h = ground (arith, occurrences_pos k xs)

-- An entry that the list does not name is not read.
listed-insert {ℓ} :
    {V : Type ℓ} (m : Dict V) (order : List Bytes) (k : Bytes) (v : V)
    → contains order k ≡ false
    → listed (insert m k v) order ≡ listed m order
unfolding listed contains
listed-insert m [] k v h = refl
listed-insert m (x ∷ xs) k v h =
    ground (arith, find-insert m k x v, same_iff x k, same_iff k x, listed-insert m xs k v)

listed-append {ℓ} :
    {V : Type ℓ} (m : Dict V) (xs ys : List Bytes)
    → listed m (xs ++ ys) ≡ listed m xs ++ listed m ys
unfolding listed
listed-append m [] ys = refl
listed-append m (x ∷ xs) ys = ground (arith, listed-append m xs ys)

listed_last {ℓ} :
    {V : Type ℓ} (m : Dict V) (k : Bytes) (v : V) → listed (insert m k v) (k ∷ []) ≡ v ∷ []
unfolding listed
listed_last m k v = ground (arith, find-insert m k k v, same_refl k)

note_first_new {ℓ} :
    {V : Type ℓ} (m : Dict V) (order : List Bytes) (name : Bytes)
    → find m name ≡ none
    → note_first m name order ≡ order ++ name ∷ []
unfolding note_first found
note_first_new m order name h = rw h

module _ {Node Sort : Type 0} (s : SymbolManager Node Sort) (name : Bytes)
    (node : Option Node) where
  -- A variable of a name that is neither in the map nor in the declaration order is listed last,
  -- and the others stay as they were.
  pub get_declared_variables-register_var :
      find s.var_names name ≡ none
      → contains s.var_order name ≡ false
      → get_declared_variables (register_var s name node) ≡ get_declared_variables s ++ node ∷ []
  unfolding get_declared_variables register_var
  get_declared_variables-register_var absent fresh =
      let m = insert s.var_names name node in
      ap (listed m) (note_first_new s.var_names s.var_order name absent)
      ∙ listed-append m s.var_order (name ∷ [])
      ∙ ap (λ xs. xs ++ listed m (name ∷ []))
          (listed-insert s.var_names s.var_order name node fresh)
      ∙ ap (λ ys. listed s.var_names s.var_order ++ ys) (listed_last s.var_names name node)

  -- A variable of the declaration order that a closing scope removes, and that is declared again,
  -- stands in that order at least twice.
  pub occurrences-register_var-remove_var :
      contains s.var_order name ≡ true
      → 2 ≤ occurrences name (register_var (remove_var s name) name node).var_order
  unfolding register_var remove_var occurrences
  occurrences-register_var-remove_var h =
      let absent : find (erase s.var_names name) name ≡ none =
        ground (arith, find-erase s.var_names name name, same_refl name) in
      rw (note_first_new (erase s.var_names name) s.var_order name absent) (
        ground (
          arith,
          occurrences-append name s.var_order (name ∷ []),
          occurrences_pos name s.var_order h,
          same_refl name,
        ))

module _ {Node Sort : Type 0} (s : SymbolManager Node Sort) (old_name new_name : Bytes) where
  -- Renaming a variable of the map to a name that is not in the declaration order takes it off
  -- the declared variables, as removing it would.
  pub get_declared_variables-rename_var :
      found (find s.var_names old_name) ≡ true
      → contains s.var_order new_name ≡ false
      → get_declared_variables (rename_var s old_name new_name)
        ≡ get_declared_variables (remove_var s old_name)
  unfolding get_declared_variables rename_var remove_var rename_key found
  get_declared_variables-rename_var h fresh = elim (Option-cases (find s.var_names old_name)) [
    | inl e ↦ ground arith
    | inr (p, e) ↦
        rw (e, rename_key) (listed-insert (erase s.var_names old_name) s.var_order new_name p fresh)
  ]
